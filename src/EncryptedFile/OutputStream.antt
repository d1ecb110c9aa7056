-- ===== src/EncryptedFile/OutputStream.antt =====
-- `EncryptedFile::OutputStream`. The buffer's pointers are offsets into it.
pub mod Emitting
pub mod Invariant
pub mod Offering
pub mod Writing
pub mod Settling
pub mod Closing
use zbackup.Base.{
  ℕ, zero, suc, ◌+◌, ◌-◌, ◌%◌, Bool, true, false, ◌&&◌, none, some, List, [], ◌∷◌, ◌++◌, ltb, leb,
  ◌==◌, if◌then◌else◌, length, take, drop, overwrite, replicate,
}
use zbackup.Base.Bytes.{to_le}
use zbackup.Encryption.{block_size, encrypt, pad}
use zbackup.EncryptedFile.{
  check_failed, write_error, read_failed, out_of_fuel, Result, ok, err, ◌>>=◌, initial, add_bytes,
}

pub record OutputStream : Type 0 where
  pub file : List ℕ
  pub file_pos : ℕ
  pub iv : List ℕ
  pub buffer : List ℕ
  pub start : ℕ
  pub avail : ℕ
  pub backed_up : Bool
  pub adler : ℕ

-- The file system takes `room` bytes of the file.
pub write_file : ℕ → OutputStream → List ℕ → OutputStream × Bool
write_file room s bytes = (
  record s { file = s.file ++ take (room - length s.file) bytes },
  leb (length s.file + length bytes) room,
)

-- The bytes from `start` on.
pub area : OutputStream → ℕ → List ℕ
area s count = take count (drop s.start s.buffer)

-- What the caller gets, and the value that is returned.
pub offer : OutputStream → OutputStream × Bool
offer s = (record s { file_pos = s.file_pos + s.avail }, ltb 0 s.avail)

-- `memcpy( data, n, ... )`
pub fill_in : OutputStream → List ℕ → OutputStream
fill_in s bytes = record s { buffer = overwrite s.buffer s.start bytes }

-- AES under the key of the stream, and zlib's checksum.
module _ (aes_encrypt aes_decrypt : List ℕ → List ℕ) (adler32 : ℕ → List ℕ → ℕ) (has_key : Bool)
    (room : ℕ) where
  pub open_output : ℕ → List ℕ → OutputStream
  open_output page_size iv = record {
    file = [];
    file_pos = 0;
    iv = if has_key then iv else [];
    buffer = replicate page_size 0;
    start = 0;
    avail = 0;
    backed_up = false;
    adler = initial adler32;
  }

  -- The part of `encryptAndWrite` for a stream with a key.
  pub encrypt_front : ℕ → OutputStream → Result OutputStream
  encrypt_front bytes s =
      if ltb 0 bytes && (bytes % block_size == 0)
      then elim (encrypt aes_encrypt aes_decrypt s.iv (take bytes s.buffer)) [
        | some (out, next_iv) ↦ ok (record s { buffer = overwrite s.buffer 0 out; iv = next_iv })
        | none ↦ err check_failed
      ]
      else err check_failed

  -- The flag tells whether the file was written.
  pub encrypt_and_write : ℕ → OutputStream → Result (OutputStream × Bool)
  encrypt_and_write bytes s = do
    s' ← (if has_key then encrypt_front bytes s else ok s)
    ok (write_file room s' (take bytes s'.buffer))

  -- The part of `Next` after the buffer was written, or after that failed.
  pub start_over : OutputStream × Bool → OutputStream × Bool
  unfolding offer
  start_over (s, fine) =
      if fine
      then offer (record s { start = 0; avail = length s.buffer })
      else (record s { avail = 0 }, false)

  pub next : OutputStream → Result (OutputStream × Bool)
  unfolding start_over offer area
  next s = if s.backed_up then ok (offer (record s { backed_up = false })) else do
    let s' = record s { adler = add_bytes adler32 s.adler (area s s.avail) }
    r ← (if s'.file_pos == 0 then ok (s', true) else encrypt_and_write (length s'.buffer) s')
    ok (start_over r)

  pub back_up : ℕ → OutputStream → Result OutputStream
  unfolding area
  back_up count s =
      if s.backed_up
      then (if count == 0 then ok s else err check_failed)
      else if leb count s.avail
      then ok (record s {
        adler = add_bytes adler32 s.adler (area s (s.avail - count));
        start = s.start + (s.avail - count);
        avail = count;
        file_pos = s.file_pos - count;
        backed_up = ltb 0 count;
      })
      else err check_failed

  pub get_adler : OutputStream → Result (ℕ × OutputStream)
  get_adler s = do s' ← back_up 0 s; ok (s'.adler, s')

  -- The body of the loop of `write`, for `rest` the loop on what is left.
  pub write_step :
      (OutputStream → List ℕ → Result OutputStream)
      → List ℕ
      → OutputStream × Bool
      → Result OutputStream
  unfolding fill_in
  write_step rest bytes (s, more) =
      if more
      then (if ltb (length bytes) s.avail
          then back_up (s.avail - length bytes) (fill_in s bytes)
          else rest (fill_in s (take s.avail bytes)) (drop s.avail bytes))
      else err read_failed

  pub write_loop : ℕ → OutputStream → List ℕ → Result OutputStream
  write_loop fuel s [] = ok s
  write_loop zero s (b ∷ bytes) = err out_of_fuel
  write_loop (suc fuel) s (b ∷ bytes) = do r ← next s; write_step (write_loop fuel) (b ∷ bytes) r

  pub write : OutputStream → List ℕ → Result OutputStream
  write s bytes = write_loop (length bytes) s bytes

  pub write_adler : OutputStream → Result OutputStream
  write_adler s = do (value, s') ← get_adler s; write s' (to_le 4 value)

  -- `iv` is what `Random::generatePseudo` gives.
  pub write_random_iv : List ℕ → OutputStream → Result OutputStream
  write_random_iv iv s = if has_key then write s iv else ok s

  -- The steps of the destructor: a full buffer is written first.
  pub write_full : OutputStream → Result (OutputStream × Bool)
  write_full s =
      if s.start == length s.buffer
      then (do
        (s', fine) ← encrypt_and_write (length s.buffer) s
        ok (record s' { start = 0 }, fine))
      else ok (s, true)

  pub pad_last : OutputStream → Result (ℕ × OutputStream)
  pad_last s =
      if has_key
      then elim (pad (take block_size (drop (s.start - s.start % block_size) s.buffer))
          (s.start % block_size)) [
            | some block ↦ ok (
              s.start + (block_size - s.start % block_size),
              record s { buffer = overwrite s.buffer (s.start - s.start % block_size) block },
            )
            | none ↦ err check_failed
          ]
      else ok (s.start, s)

  -- The contents of the file; an exception leaves the destructor.
  pub written : OutputStream × Bool → Result OutputStream
  written (s, fine) = if fine then ok s else err write_error

  pub close : OutputStream → Result (List ℕ)
  unfolding pad_last written
  close s = do
    s₁ ← back_up 0 s
    r ← write_full s₁
    s₂ ← written r
    (bytes, s₃) ← pad_last s₂
    r' ← encrypt_and_write bytes s₃
    s₄ ← written r'
    ok s₄.file
