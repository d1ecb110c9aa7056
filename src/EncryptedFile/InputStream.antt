-- ===== src/EncryptedFile/InputStream.antt =====
-- `EncryptedFile::InputStream`. The buffer's pointers are offsets into it; `start`, which the
-- constructor leaves open, is 0 there, where no byte is read through it.
pub mod Invariant
pub mod Loading
pub mod Decrypting
pub mod Showing
pub mod Taking
pub mod Reading
pub mod Checking
use zbackup.Base.{
  ℕ, zero, suc, ◌+◌, ◌-◌, ◌*◌, ◌%◌, max, Bool, true, false, not, ◌&&◌, ◌||◌, none, some, List, [],
  ◌++◌, ltb, leb, ◌==◌, if◌then◌else◌, length, take, drop, overwrite, replicate,
}
use zbackup.Base.Bytes.{from_le}
use zbackup.Encryption.{block_size, decrypt, unpad, get_next_decryption_iv}
use zbackup.EncryptedFile.{
  check_failed, bad_padding, incorrect_file_size, read_failed, adler_mismatch, out_of_fuel, Result,
  ok, err, ◌>>=◌, initial, add_bytes,
}

pub record InputStream : Type 0 where
  pub file : List ℕ
  -- How far the file was read.
  pub offset : ℕ
  pub file_pos : ℕ
  pub iv : List ℕ
  pub buffer : List ℕ
  pub start : ℕ
  pub fill : ℕ
  pub remainder : ℕ
  pub backed_up : Bool
  pub adler : ℕ

-- The bytes from `start` on.
pub front : InputStream → ℕ → List ℕ
front s count = take count (drop s.start s.buffer)

-- What the caller gets, and the value that is returned.
pub deliver : InputStream → InputStream × Bool
deliver s = (record s { file_pos = s.file_pos + s.fill }, ltb 0 s.fill)

-- `memmove` of the remainder to the beginning of the buffer.
pub move_remainder : InputStream → InputStream
move_remainder s = record s {
  buffer = overwrite s.buffer 0 (take s.remainder (drop (s.start + s.fill) s.buffer));
  start = 0;
}

-- `file.read` behind the remainder.
pub read_file : InputStream → InputStream
read_file s =
    let got = take (length s.buffer - s.remainder) (drop s.offset s.file) in
    record s {
      buffer = overwrite s.buffer s.remainder got;
      offset = s.offset + length got;
      fill = length got + s.remainder;
    }

-- AES under the key of the stream, and zlib's checksum; `readable` tells at which offsets the system
-- can read the file.
module _ (aes_encrypt aes_decrypt : List ℕ → List ℕ) (adler32 : ℕ → List ℕ → ℕ) (has_key : Bool)
    (readable : ℕ → Bool) where
  pub open_input : ℕ → List ℕ → List ℕ → Result InputStream
  open_input page_size iv file =
      if has_key && (length file == 0 || not (length file % block_size == 0))
      then err incorrect_file_size
      else ok (record {
        file = file;
        offset = 0;
        file_pos = 0;
        iv = if has_key then iv else [];
        buffer = replicate (max page_size (block_size * 2)) 0;
        start = 0;
        fill = 0;
        remainder = 0;
        backed_up = false;
        adler = initial adler32;
      })

  pub do_decrypt : InputStream → Result InputStream
  unfolding front
  do_decrypt s =
      if not has_key
      then ok s
      else if ltb 0 s.fill && (s.fill % block_size == 0)
      then elim (decrypt aes_encrypt aes_decrypt s.iv (front s s.fill)) [
        | some out ↦ ok (record s {
          buffer = overwrite s.buffer s.start out;
          iv = get_next_decryption_iv (front s s.fill) s.fill;
        })
        | none ↦ err check_failed
      ]
      else err check_failed

  pub unpad_last : InputStream → Result InputStream
  unpad_last s =
      if has_key
      then elim (unpad (take block_size (drop (s.start + s.fill - block_size) s.buffer))) [
        | some size ↦ ok (record s { fill = s.fill - (block_size - size) })
        | none ↦ err bad_padding
      ]
      else ok s

  pub decrypt_last : InputStream → Result InputStream
  decrypt_last s = do s₁ ← do_decrypt s; s₂ ← unpad_last s₁; ok (record s₂ { remainder = 0 })

  pub decrypt_buffer : InputStream → Result InputStream
  decrypt_buffer s =
      if s.fill == length s.buffer
      then do_decrypt (record s { remainder = block_size; fill = s.fill - block_size })
      else decrypt_last s

  pub load : InputStream → Result (InputStream × Bool)
  load s =
      let moved = move_remainder s in
      if readable s.offset
      then (do s' ← decrypt_buffer (read_file moved); ok (deliver s'))
      else ok (record moved { fill = 0 }, false)

  pub next : InputStream → Result (InputStream × Bool)
  unfolding front
  next s =
      if s.backed_up
      then ok (deliver (record s { backed_up = false }))
      else let s' = record s { adler = add_bytes adler32 s.adler (front s s.fill) } in
        if not (s'.file_pos == 0) && (s'.remainder == 0)
        then ok (record s' { fill = 0 }, false)
        else load s'

  pub back_up : ℕ → InputStream → Result InputStream
  unfolding front
  back_up count s =
      if s.backed_up
      then (if count == 0 then ok s else err check_failed)
      else if leb count s.fill
      then ok (record s {
        adler = add_bytes adler32 s.adler (front s (s.fill - count));
        start = s.start + (s.fill - count);
        fill = count;
        file_pos = s.file_pos - count;
        backed_up = ltb 0 count;
      })
      else err check_failed

  pub get_adler : InputStream → Result (ℕ × InputStream)
  get_adler s = do s' ← back_up 0 s; ok (s'.adler, s')

  -- The body of the loop of `Skip`, for `rest` the loop for what is left.
  pub skip_step :
      (ℕ → InputStream → Result (Bool × InputStream))
      → ℕ
      → InputStream × Bool
      → Result (Bool × InputStream)
  skip_step rest count (s, more) =
      if more
      then (if ltb count s.fill
          then (do s' ← back_up (s.fill - count) s; ok (true, s'))
          else rest (count - s.fill) s)
      else ok (false, s)

  pub skip_loop : ℕ → ℕ → InputStream → Result (Bool × InputStream)
  skip_loop fuel zero s = ok (true, s)
  skip_loop zero (suc count) s = err out_of_fuel
  skip_loop (suc fuel) (suc count) s = do r ← next s; skip_step (skip_loop fuel) (suc count) r

  pub skip : ℕ → InputStream → Result (Bool × InputStream)
  skip count s = skip_loop count count s

  -- The body of the loop of `read`, likewise.
  pub read_step :
      (ℕ → InputStream → Result (List ℕ × InputStream))
      → ℕ
      → InputStream × Bool
      → Result (List ℕ × InputStream)
  unfolding front
  read_step rest size (s, more) =
      if more
      then (if ltb size s.fill
          then (do s' ← back_up (s.fill - size) s; ok (front s size, s'))
          else (do (bytes, s') ← rest (size - s.fill) s; ok (front s s.fill ++ bytes, s')))
      else err read_failed

  pub read_loop : ℕ → ℕ → InputStream → Result (List ℕ × InputStream)
  read_loop fuel zero s = ok ([], s)
  read_loop zero (suc size) s = err out_of_fuel
  read_loop (suc fuel) (suc size) s = do r ← next s; read_step (read_loop fuel) (suc size) r

  pub read : ℕ → InputStream → Result (List ℕ × InputStream)
  read size s = read_loop size size s

  pub check_adler : InputStream → Result InputStream
  check_adler s = do
    (ours, s₁) ← get_adler s
    (bytes, s₂) ← read 4 s₁
    if ours == from_le bytes then ok s₂ else err adler_mismatch

  pub consume_random_iv : InputStream → Result InputStream
  consume_random_iv s = if has_key then (do (bytes, s') ← read 16 s; ok s') else ok s
