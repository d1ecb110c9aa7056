-- ===== src/EncryptedFile/OutputStream/Emitting.antt =====
-- `encryptAndWrite` where the file system has room.
use zbackup.Base.{
  ℕ, suc, ◌+◌, ◌-◌, ◌*◌, ◌%◌, ◌≤◌, ◌≡◌, refl, sym, ap, ◌∙◌, Bool, true, false, List, ◌++◌, arith,
  ltb, leb, ◌==◌, ==_iff, length, take, overwrite, length-overwrite, length-take, take_at,
  take_whole,
}
use zbackup.Encryption.{block_size}
use zbackup.Encryption.Concat.{encrypt-blocks}
use zbackup.EncryptedFile.{ok}
use zbackup.EncryptedFile.Codec.{IsIv, seal, length-seal}
use zbackup.EncryptedFile.OutputStream.{OutputStream, write_file, encrypt_front, encrypt_and_write}

-- A stream with a key writes whole blocks, at least one.
abbrev pub IsWhole : Bool → ℕ → Type 0
IsWhole true bytes = (n : ℕ) × (bytes ≡ block_size * suc n)
IsWhole false bytes = Unit {0}

take-overwrite_front : (n : ℕ) (xs ys : List ℕ) → length ys ≡ n → take n (overwrite xs 0 ys) ≡ ys
unfolding overwrite
take-overwrite_front n xs ys e = take_at n ys _ e

write_file-fits :
    (room : ℕ) (s : OutputStream) (bytes : List ℕ)
    → length s.file + length bytes ≤ room
    → write_file room s bytes ≡ (record s { file = s.file ++ bytes }, true)
unfolding write_file
write_file-fits room s bytes h =
    let fits : leb (length s.file + length bytes) room ≡ true = ground arith in
    rw (fits, take_whole (room - length s.file) bytes (omega arith)) refl

module _ (aes_encrypt aes_decrypt : List ℕ → List ℕ)
    (aes_size : (block : List ℕ)
      → length block ≡ block_size
      → length (aes_encrypt block) ≡ block_size)
    (aes_inverse : (block : List ℕ)
      → length block ≡ block_size
      → aes_decrypt (aes_encrypt block) ≡ block)
    (adler32 : ℕ → List ℕ → ℕ) (room : ℕ) where
  encrypt_front-blocks :
      (s : OutputStream) (bytes n : ℕ)
      → bytes ≡ block_size * suc n
      → bytes ≤ length s.buffer
      → let sealed = seal aes_encrypt aes_decrypt true s.iv (take bytes s.buffer) in
        encrypt_front aes_encrypt aes_decrypt adler32 true room bytes s
        ≡ ok (record s { buffer = overwrite s.buffer 0 sealed.0; iv = sealed.1 })
  unfolding encrypt_front
  encrypt_front-blocks s bytes n e le =
      let whole : (bytes % block_size == 0) ≡ true = (==_iff _ _).1 (omega (arith, e)) in
      let some_bytes : ltb 0 bytes ≡ true = ground arith in
      let size : length (take bytes s.buffer) ≡ block_size * suc n =
        rw length-take (omega (arith, e, le)) in
      rw
        (
          some_bytes,
          whole,
          encrypt-blocks aes_encrypt aes_decrypt (suc n) s.iv (take bytes s.buffer) size,
        )
        refl

  -- The bytes are sealed in place and put to the file.
  pub encrypt_and_write-fits :
      (has_key : Bool) (s : OutputStream) (bytes : ℕ)
      → IsWhole has_key bytes
      → IsIv has_key s.iv
      → bytes ≤ length s.buffer
      → length s.file + bytes ≤ room
      → let sealed = seal aes_encrypt aes_decrypt has_key s.iv (take bytes s.buffer) in
        (buffer : List ℕ) × (length buffer ≡ length s.buffer)
        × (encrypt_and_write aes_encrypt aes_decrypt adler32 has_key room bytes s
            ≡ ok (record s { file = s.file ++ sealed.0; iv = sealed.1; buffer = buffer }, true))
  unfolding encrypt_and_write
  encrypt_and_write-fits false s bytes whole p le fits = (
    s.buffer,
    refl,
    ap ok (write_file-fits room s (take bytes s.buffer) (rw length-take (omega arith))),
  )
  encrypt_and_write-fits true s bytes (n, e) p le fits =
      let size : length (take bytes s.buffer) ≡ block_size * suc n =
        rw length-take (omega (arith, e, le)) in
      let sealed = seal aes_encrypt aes_decrypt true s.iv (take bytes s.buffer) in
      let out =
        (length-seal aes_encrypt aes_decrypt aes_size aes_inverse true (suc n) s.iv
          (take bytes s.buffer) p size).0 in
      let out' : length sealed.0 ≡ bytes = out ∙ size ∙ sym e in
      (
        overwrite s.buffer 0 sealed.0,
        length-overwrite s.buffer 0 sealed.0 (omega (arith, out', le)),
        rw (encrypt_front-blocks s bytes n e le, take-overwrite_front bytes s.buffer sealed.0 out')
            (ap ok (
              write_file-fits room
                (record s { buffer = overwrite s.buffer 0 sealed.0; iv = sealed.1 }) sealed.0
                (omega (arith, out', fits)))),
      )
