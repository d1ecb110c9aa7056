-- ===== src/EncryptedFile/InputStream/Invariant.antt =====
-- The invariant of an input stream: what was read, and what is still to come.
use zbackup.Base.{
  ℕ, suc, ◌+◌, ◌*◌, ◌≤◌, ◌<◌, ◌≡◌, true, false, List, [], ◌++◌, length, take, drop, All,
}
use zbackup.Base.Bytes.{IsByte}
use zbackup.Encryption.{block_size}
use zbackup.EncryptedFile.Setting.{Setting}
use zbackup.EncryptedFile.Checksum.{checksum}
use zbackup.EncryptedFile.Codec.{IsIv, contents}
use zbackup.EncryptedFile.InputStream.{InputStream}

-- The bytes that the last call of `Next` gave to the caller.
abbrev pub window : InputStream → List ℕ
window s = take s.fill (drop s.start s.buffer)

-- The buffer has two blocks at least.
module _ (c : Setting) (buffer_blocks : ℕ) where
  open c use {aes_encrypt, aes_decrypt, adler32, adler32_lt, adler32_append, has_key}

  abbrev pub buffer_size : ℕ
  buffer_size = block_size * suc (suc buffer_blocks)

  abbrev pub sum : List ℕ → ℕ
  sum = checksum adler32 adler32_lt adler32_append

  -- Where the stream stands, for the bytes `later` that are not decrypted yet.
  pub data Place (s : InputStream) (later : List ℕ) : Type 0 where
    fresh :
        s.file_pos ≡ 0
        → s.start ≡ 0
        → s.fill ≡ 0
        → s.remainder ≡ 0
        → drop s.offset s.file ≡ contents aes_encrypt aes_decrypt has_key s.iv later
        → Place s later
    middle :
        s.remainder ≡ block_size
        → s.start + s.fill + block_size ≡ buffer_size
        → take block_size (drop (s.start + s.fill) s.buffer) ++ drop s.offset s.file
          ≡ contents aes_encrypt aes_decrypt has_key s.iv later
        → Place s later
    ended : later ≡ [] → Place s later

  pub record HasRest (s : InputStream) (later : List ℕ) : Type 0 where
    pub size : length s.buffer ≡ buffer_size
    pub within : s.start + s.fill ≤ buffer_size
    pub vector : IsIv has_key s.iv
    pub bytes : All IsByte later
    pub place : Place s later

  -- Whether the window was returned to the stream.
  pub data View (s : InputStream) (past rest later : List ℕ) : Type 0 where
    backed :
        s.backed_up ≡ true
        → 0 < s.fill
        → rest ≡ window s ++ later
        → s.adler ≡ sum past
        → View s past rest later
    taken :
        s.backed_up ≡ false
        → rest ≡ later
        → (before : List ℕ) → past ≡ before ++ window s
        → s.adler ≡ sum before
        → View s past rest later

  -- The bytes that were read, and those that are to come.
  pub record IsInput (s : InputStream) (past rest : List ℕ) : Type 0 where
    pub later : List ℕ
    pub core : HasRest s later
    pub view : View s past rest later

  -- The state in which the caller reads the window.
  pub record IsShown (s : InputStream) (past rest : List ℕ) : Type 0 where
    pub later : List ℕ
    pub core : HasRest s later
    pub going : s.backed_up ≡ false
    pub some_bytes : 0 < s.fill
    pub shown : rest ≡ window s ++ later
    pub summed : s.adler ≡ sum past
