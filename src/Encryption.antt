-- ===== src/Encryption.antt =====
-- encryption.hh and encryption.cc: cipher block chaining and the padding of the last block. The two
-- directions of AES under a key are parameters. A result `none` is a failed CHECK or an exception.
pub mod Padding
pub mod Xor
pub mod Chaining
pub mod Concat
mod Tests
use zbackup.Base.{
  ℕ, zero, suc, ◌+◌, ◌-◌, ◌*◌, ◌/◌, ◌%◌, ◌^◌, ◌≤◌, ◌<◌, ◌≡◌, refl, sym, ap, ap₂, ◌∙◌, subst, ◌≢◌,
  ◌↔◌, ◌⊎◌, inl, inr, Bool, true, false, not, ◌&&◌, ◌||◌, Option, none, some, List, [], ◌∷◌, ◌++◌,
  map, reverse, append-nil, append_assoc, arith, ltb, leb, ◌==◌, if◌then◌else◌, ltb→lt, lt→ltb,
  ==_iff, Bool-cases, Option-cases, length, get_or, set, take, drop, replicate, All, length-append,
  length-set, length-take, length-drop, length-replicate, take-append-drop, take-append,
  drop-append, All-append, take_at, drop_at, take_all, All-take, All-drop, overwrite,
  length-overwrite, take-overwrite, set-overwrite, lt_wf,
}
use zbackup.Base.Bytes.{
  IsByte, u64_mod, u32_mod, bytes_eq, bytes_eq_iff, bytes_eq_refl, memcmp, to_le, from_le,
  length-to_le, to_le-IsByte, from_le-to_le, to_le-from_le, from_le-lt, add32, sub32, add32_fits,
  sub32_fits,
}

abbrev pub block_size : ℕ
block_size = 16

-- `^` on numbers of `w` bits.
pub xor_bits : ℕ → ℕ → ℕ → ℕ
xor_bits zero a b = 0
xor_bits (suc w) a b = (a + b) % 2 + 2 * xor_bits w (a / 2) (b / 2)

-- The loop over the words of a block; the operation does not depend on their size.
pub xor_block : List ℕ → List ℕ → List ℕ
unfolding xor_bits
xor_block [] ys = []
xor_block (x ∷ xs) [] = []
xor_block (x ∷ xs) (y ∷ ys) = xor_bits 8 x y ∷ xor_block xs ys

-- `pad` on a block whose first `size` bytes are used.
pub pad : List ℕ → ℕ → Option (List ℕ)
pad block size =
    if ltb size block_size
    then some (overwrite block size (replicate (block_size - size) (block_size - size)))
    else none

-- The loop over the rest of the padding, which goes down to the first byte of it.
padding_ok : List ℕ → ℕ → ℕ → ℕ → Bool
padding_ok block v p zero = true
padding_ok block v p (suc count) = (get_or block (p - 1) 0 == v) && padding_ok block v (p - 1) count

pub unpad : List ℕ → Option ℕ
unfolding padding_ok
unpad block =
    let v = get_or block (block_size - 1) 0 in
    if v == 0 || ltb block_size v
    then none
    else if padding_ok block v (block_size - 1) (v - 1)
    then some (block_size - v)
    else none

-- `getNextDecryptionIv`, behind its CHECK.
pub get_next_decryption_iv : List ℕ → ℕ → List ℕ
get_next_decryption_iv bytes size = take block_size (drop (size - block_size) bytes)

module _ (aes_encrypt aes_decrypt : List ℕ → List ℕ) where
  -- The loop of `encrypt`, with the vector for what follows.
  pub encrypt_loop : ℕ → List ℕ → List ℕ → List ℕ × List ℕ
  unfolding xor_block
  encrypt_loop zero prev bytes = ([], prev)
  encrypt_loop (suc count) prev bytes =
      let out = aes_encrypt (xor_block (take block_size bytes) prev) in
      let (rest, last) = encrypt_loop count out (drop block_size bytes) in (out ++ rest, last)

  pub encrypt : List ℕ → List ℕ → Option (List ℕ × List ℕ)
  unfolding encrypt_loop
  encrypt iv bytes =
      if length bytes % block_size == 0
      then some (encrypt_loop (length bytes / block_size) iv bytes)
      else none

  -- The vector of the block number `n`: the block before it, or `iv`.
  iv_of : ℕ → List ℕ → List ℕ → List ℕ
  iv_of zero iv buffer = iv
  iv_of (suc n) iv buffer = take block_size (drop (block_size * n) buffer)

  -- The loop of `decrypt` from the last block to the first, in place.
  pub decrypt_loop : ℕ → List ℕ → List ℕ → List ℕ
  unfolding iv_of xor_block
  decrypt_loop zero iv buffer = buffer
  decrypt_loop (suc count) iv buffer =
      let block = aes_decrypt (take block_size (drop (block_size * count) buffer)) in
      decrypt_loop count iv
        (overwrite buffer (block_size * count) (xor_block block (iv_of count iv buffer)))

  pub decrypt : List ℕ → List ℕ → Option (List ℕ)
  unfolding decrypt_loop
  decrypt iv bytes =
      if length bytes % block_size == 0
      then some (decrypt_loop (length bytes / block_size) iv bytes)
      else none
