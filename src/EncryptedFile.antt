-- ===== src/EncryptedFile.antt =====
-- encrypted_file.hh, encrypted_file.cc and adler32.hh: files that are encrypted while they are written,
-- page by page, with a checksum of their contents. This file has the errors and the checksum; the
-- children have the two streams.
pub mod OutputStream
pub mod InputStream
pub mod Codec
pub mod Checksum
pub mod Setting
pub mod RoundTrip
mod Tests
use zbackup.Base.{ℕ, ◌%◌, ◌==◌, if◌then◌else◌, List, [], length}
use zbackup.Base.Bytes.{u32_mod}

-- A failed CHECK, which ends the program, and the exceptions. `out_of_fuel` is that of the loops here.
pub data Error : Type 0 where
  check_failed write_error bad_padding incorrect_file_size : Error
  read_failed adler_mismatch out_of_fuel : Error

pub data Result {ℓ} (A : Type ℓ) : Type ℓ where
  ok : A → Result A
  err : Error → Result A

infixl 5 ◌>>=◌
abbrev pub ◌>>=◌ {ℓ κ} : {A : Type ℓ} {B : Type κ} → Result A → (A → Result B) → Result B
ok a >>= f = f a
err e >>= f = err e

-- `Adler32`; `adler32` is zlib's, and NULL with no bytes is the empty list.
module _ (adler32 : ℕ → List ℕ → ℕ) where
  unfoldable pub initial : ℕ
  initial = adler32 0 [] % u32_mod

  unfoldable pub add_bytes : ℕ → List ℕ → ℕ
  add_bytes value bytes = if length bytes == 0 then value else (adler32 value bytes % u32_mod)
