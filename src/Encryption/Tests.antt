-- ===== src/Encryption/Tests.antt =====
-- Blocks at concrete inputs.
use zbackup.Base.{
  ℕ, ◌≡◌, refl, ap₂, none, some, List, [], ◌∷◌, ◌++◌, arith, length, take, drop, replicate, All,
  length-append, take_at, drop_at, overwrite,
}
use zbackup.Base.Bytes.{IsByte}
use zbackup.Encryption.{
  block_size, xor_bits, pad, padding_ok, unpad, encrypt, decrypt, get_next_decryption_iv,
}
use zbackup.Encryption.Padding.{unpad-pad}
use zbackup.Encryption.Chaining.{decrypt-encrypt}

xor_sample : xor_bits 8 0xf0 0x3c ≡ 0xcc
unfolding xor_bits
xor_sample = refl

abbrev sample_block : List ℕ
sample_block = 1 ∷ 2 ∷ 3 ∷ replicate 13 200

padded_by_thirteen : pad sample_block 3 ≡ some (1 ∷ 2 ∷ 3 ∷ replicate 13 13)
unfolding pad overwrite
padded_by_thirteen = refl

-- A padding of zero, one that is too long, and one with a wrong byte.
zero_refused : unpad (replicate 16 0) ≡ none
unfolding unpad
zero_refused = refl

long_refused : unpad (replicate 16 17) ≡ none
unfolding unpad
long_refused = refl

wrong_refused : unpad (replicate 14 1 ++ (3 ∷ 2 ∷ [])) ≡ none
unfolding unpad padding_ok
wrong_refused = refl

full_block : unpad (replicate 16 16) ≡ some 0
unfolding unpad padding_ok
full_block = refl

unpad-pad_example :
    (padded : List ℕ) × (pad sample_block 3 ≡ some padded)
    × (length padded ≡ block_size)
    × (take 3 padded ≡ take 3 sample_block)
    × (unpad padded ≡ some 3)
unpad-pad_example = unpad-pad sample_block 3 refl (omega arith)

-- A cipher that moves the first byte behind the others.
abbrev forth : List ℕ → List ℕ
forth [] = []
forth (b ∷ bytes) = bytes ++ (b ∷ [])

abbrev back : List ℕ → List ℕ
back block = drop 15 block ++ take 15 block

forth-size : (block : List ℕ) → length block ≡ block_size → length (forth block) ≡ block_size
forth-size [] e = e
forth-size (b ∷ bytes) e = rw length-append (omega (arith, e))

back-forth : (block : List ℕ) → length block ≡ block_size → back (forth block) ≡ block
back-forth [] e = absurd (omega (arith, e))
back-forth (b ∷ bytes) e =
    ap₂ (λ (x y : List ℕ). x ++ y) (drop_at 15 bytes (b ∷ []) (omega (arith, e)))
      (take_at 15 bytes (b ∷ []) (omega (arith, e)))

abbrev two_blocks : List ℕ
two_blocks = sample_block ++ replicate 16 7

two_blocks-IsByte : All IsByte two_blocks
two_blocks-IsByte = omega arith

decrypt-encrypt_example :
    (out : List ℕ) × (last : List ℕ) × (encrypt forth back (replicate 16 0) two_blocks
      ≡ some (out, last))
    × (length out ≡ length two_blocks)
    × (last ≡ get_next_decryption_iv out (length out))
    × (decrypt forth back (replicate 16 0) out ≡ some two_blocks)
decrypt-encrypt_example =
    decrypt-encrypt forth back forth-size back-forth 1 (replicate 16 0) two_blocks refl refl
      two_blocks-IsByte
