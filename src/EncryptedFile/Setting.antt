-- ===== src/EncryptedFile/Setting.antt =====
-- What the streams are opened with, and what the proofs know of OpenSSL's AES and of zlib's checksum.
use zbackup.Base.{ℕ, suc, ◌*◌, ◌<◌, ◌≡◌, Bool, List, ◌++◌, length}
use zbackup.Base.Bytes.{u32_mod}
use zbackup.Encryption.{block_size}
use zbackup.EncryptedFile.Codec.{IsIv}

-- AES under one key maps blocks to blocks, and its decryption undoes its encryption. The checksum of
-- more bytes is that of the first ones updated by the others, where neither are none, and has 32 bits.
-- A call with no bytes stands for that with NULL, which starts anew, and nothing is assumed of it. The size of a page is
-- a multiple of a block's.
pub record Setting : Type 0 where
  pub aes_encrypt : List ℕ → List ℕ
  pub aes_decrypt : List ℕ → List ℕ
  pub aes_size :
      (block : List ℕ) → length block ≡ block_size → length (aes_encrypt block) ≡ block_size
  pub aes_inverse :
      (block : List ℕ) → length block ≡ block_size → aes_decrypt (aes_encrypt block) ≡ block
  pub adler32 : ℕ → List ℕ → ℕ
  pub adler32_lt : (value : ℕ) (bytes : List ℕ) → adler32 value bytes < u32_mod
  pub adler32_append :
      (value : ℕ) (a b : List ℕ)
      → 0 < length a
      → 0 < length b
      → adler32 (adler32 value a) b ≡ adler32 value (a ++ b)
  pub has_key : Bool
  pub iv : List ℕ
  pub iv_size : IsIv has_key iv
  pub page_size : ℕ
  pub page_blocks : ℕ
  pub page : page_size ≡ block_size * suc page_blocks
