-- ===== src/EncryptedFile/Codec.antt =====
-- The contents of a file for the bytes that were written to it, without pages.
use zbackup.Base.{
  ℕ, suc, ◌+◌, ◌-◌, ◌*◌, ◌/◌, ◌%◌, ◌≡◌, refl, sym, ◌∙◌, Bool, true, false, some, List, [], ◌++◌,
  arith, length, replicate, All, length-append,
}
use zbackup.Base.Bytes.{IsByte}
use zbackup.Encryption.{block_size, encrypt_loop, decrypt, get_next_decryption_iv}
use zbackup.Encryption.Chaining.{decrypt-encrypt, run-sizes}
use zbackup.Encryption.Concat.{run-append, encrypt-blocks}

-- The vector of a stream with a key is a block; one without a key has none.
abbrev pub IsIv : Bool → List ℕ → Type 0
IsIv true iv = length iv ≡ block_size
IsIv false iv = iv ≡ []

-- The bytes of the padding of `bytes`.
abbrev pub padding : List ℕ → List ℕ
padding bytes =
    replicate (block_size - length bytes % block_size) (block_size - length bytes % block_size)

abbrev pub with_padding : Bool → List ℕ → List ℕ
with_padding true bytes = bytes ++ padding bytes
with_padding false bytes = bytes

module _ (aes_encrypt aes_decrypt : List ℕ → List ℕ) where
  -- Whole blocks, with the vector for what follows.
  abbrev pub seal : Bool → List ℕ → List ℕ → List ℕ × List ℕ
  seal true iv bytes = encrypt_loop aes_encrypt aes_decrypt (length bytes / block_size) iv bytes
  seal false iv bytes = (bytes, iv)

  abbrev pub contents : Bool → List ℕ → List ℕ → List ℕ
  contents has_key iv bytes = (seal has_key iv (with_padding has_key bytes)).0

  pub seal-append :
      (has_key : Bool) (m n : ℕ) (iv a b : List ℕ)
      → length a ≡ block_size * m
      → length b ≡ block_size * n
      → seal has_key iv (a ++ b) ≡ (
        (seal has_key iv a).0 ++ (seal has_key (seal has_key iv a).1 b).0,
        (seal has_key (seal has_key iv a).1 b).1,
      )
  seal-append false m n iv a b e f = refl
  seal-append true m n iv a b e f =
      let whole : length (a ++ b) / block_size ≡ m + n = rw length-append (omega (arith, e, f)) in
      let first : length a / block_size ≡ m = omega (arith, e) in
      let second : length b / block_size ≡ n = omega (arith, f) in
      rw (whole, first, second) (run-append aes_encrypt aes_decrypt m n iv a b e)

-- AES under one key, in both directions, on whole blocks.
module _ (aes_encrypt aes_decrypt : List ℕ → List ℕ)
    (aes_size : (block : List ℕ)
      → length block ≡ block_size
      → length (aes_encrypt block) ≡ block_size)
    (aes_inverse : (block : List ℕ)
      → length block ≡ block_size
      → aes_decrypt (aes_encrypt block) ≡ block) where
  pub length-seal :
      (has_key : Bool) (n : ℕ) (iv bytes : List ℕ)
      → IsIv has_key iv
      → length bytes ≡ block_size * n
      → (length (seal aes_encrypt aes_decrypt has_key iv bytes).0 ≡ length bytes)
        × IsIv has_key (seal aes_encrypt aes_decrypt has_key iv bytes).1
  length-seal false n iv bytes p e = (refl, p)
  length-seal true n iv bytes p e =
      let count : length bytes / block_size ≡ n = omega (arith, e) in
      let sizes = run-sizes aes_encrypt aes_decrypt aes_size aes_inverse n iv bytes p e in
      rw count (sizes.0 ∙ sym e, sizes.1)

  pub decrypt-seal :
      (n : ℕ) (iv bytes : List ℕ)
      → length iv ≡ block_size
      → length bytes ≡ block_size * suc n
      → All IsByte bytes
      → (decrypt aes_encrypt aes_decrypt iv (seal aes_encrypt aes_decrypt true iv bytes).0
          ≡ some bytes)
        × ((seal aes_encrypt aes_decrypt true iv bytes).1
            ≡ get_next_decryption_iv (seal aes_encrypt aes_decrypt true iv bytes).0 (length bytes))
  decrypt-seal n iv bytes p e all =
      let (out, last, made, size, next_iv, back) =
        decrypt-encrypt aes_encrypt aes_decrypt aes_size aes_inverse n iv bytes p e all in
      let same : some (out, last) ≡ some (seal aes_encrypt aes_decrypt true iv bytes) =
        sym made ∙ encrypt-blocks aes_encrypt aes_decrypt (suc n) iv bytes e in
      let pair : (out, last) ≡ seal aes_encrypt aes_decrypt true iv bytes = cc in
      rw (← pair) (back, rw (← size) next_iv)
