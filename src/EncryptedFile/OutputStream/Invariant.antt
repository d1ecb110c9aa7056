-- ===== src/EncryptedFile/OutputStream/Invariant.antt =====
-- The invariant of an output stream, and the branches of `Next`.
use zbackup.Base.{
  ℕ, suc, ◌+◌, ◌*◌, ◌≤◌, ◌<◌, ◌≡◌, sym, ap, ◌∙◌, Bool, true, false, List, [], ◌++◌, append_assoc,
  arith, ltb, ◌==◌, length, take, drop, if_true, if_false, take_whole, take_more,
}
use zbackup.EncryptedFile.Setting.{Setting}
use zbackup.Encryption.{block_size}
use zbackup.EncryptedFile.{ok, Result, ◌>>=◌, add_bytes}
use zbackup.EncryptedFile.Checksum.{checksum, add_bytes-checksum}
use zbackup.EncryptedFile.Codec.{IsIv, seal, seal-append, length-seal}
use zbackup.EncryptedFile.OutputStream.{
  OutputStream, next, area, offer, start_over, encrypt_and_write,
}
use zbackup.EncryptedFile.OutputStream.Emitting.{IsWhole, encrypt_and_write-fits}

-- The bytes of the buffer that `Next` gave to the caller and that were not returned.
abbrev pub pending : Bool → ℕ → ℕ
pending true avail = 0
pending false avail = avail

module _ (c : Setting) (room : ℕ) where
  open c use {
    aes_encrypt, aes_decrypt, aes_size, aes_inverse, adler32, adler32_lt, adler32_append, has_key,
    page_size, page_blocks, page,
  }

  abbrev pub sum : List ℕ → ℕ
  sum = checksum adler32 adler32_lt adler32_append

  -- The pages that were written, and the buffer for the next one.
  pub record HasPages (s : OutputStream) (pages : List ℕ) : Type 0 where
    pub count : ℕ
    pub whole : length pages ≡ block_size * count
    pub sealed : s.file ≡ (seal aes_encrypt aes_decrypt has_key c.iv pages).0
    pub next_iv : s.iv ≡ (seal aes_encrypt aes_decrypt has_key c.iv pages).1
    pub size : length s.buffer ≡ page_size
    pub summed : s.adler ≡ sum (pages ++ take s.start s.buffer)

  -- Where the stream stands: some of the buffer was returned, or all of it is used, or nothing was
  -- asked for.
  pub data Place (s : OutputStream) (pages : List ℕ) : Type 0 where
    backed : s.backed_up ≡ true → 0 < s.avail → s.start + s.avail ≡ page_size → Place s pages
    full : s.backed_up ≡ false → s.start + s.avail ≡ page_size → Place s pages
    fresh : s.backed_up ≡ false → s.start ≡ 0 → s.avail ≡ 0 → pages ≡ [] → Place s pages

  -- The bytes that were written are those of the pages and of the buffer.
  pub record IsOutput (s : OutputStream) (plain : List ℕ) : Type 0 where
    pub pages : List ℕ
    pub core : HasPages s pages
    pub place : Place s pages
    pub held : plain ≡ pages ++ take (s.start + pending s.backed_up s.avail) s.buffer
    pub position : s.file_pos ≡ length plain

  -- The state in which the caller writes to the buffer.
  pub record IsOffer (s : OutputStream) (plain : List ℕ) : Type 0 where
    pub pages : List ℕ
    pub core : HasPages s pages
    pub going : s.backed_up ≡ false
    pub some_room : 0 < s.avail
    pub full : s.start + s.avail ≡ page_size
    pub held : plain ≡ pages ++ take s.start s.buffer
    pub position : s.file_pos ≡ length plain + s.avail

  abbrev pub do_next : OutputStream → Result (OutputStream × Bool)
  do_next = next aes_encrypt aes_decrypt adler32 has_key room

  pub HasPages-iv : {s : OutputStream} {pages : List ℕ} → HasPages s pages → IsIv has_key s.iv
  HasPages-iv {s} {pages} h =
      rw h.next_iv
        (length-seal aes_encrypt aes_decrypt aes_size aes_inverse has_key h.count c.iv pages
          c.iv_size h.whole).1

  abbrev pub after_sum : OutputStream → OutputStream
  after_sum s = record s {
    adler = add_bytes adler32 s.adler (take s.avail (drop s.start s.buffer));
  }

  -- The branches of `Next`.
  pub next-backed :
      (s : OutputStream)
      → s.backed_up ≡ true
      → do_next s
        ≡ ok (record s { backed_up = false; file_pos = s.file_pos + s.avail }, ltb 0 s.avail)
  unfolding next offer
  next-backed s b = if_true _ _ b

  pub next-first :
      (s : OutputStream)
      → s.backed_up ≡ false
      → (s.file_pos == 0) ≡ true
      → do_next s ≡ ok (start_over aes_encrypt aes_decrypt adler32 has_key room (after_sum s, true))
  unfolding next area
  next-first s b e =
      if_false _ _ b
      ∙ ap
          (λ (m : Result (OutputStream × Bool)).
            m >>= λ r. ok (start_over aes_encrypt aes_decrypt adler32 has_key room r))
          (if_true _ _ e)

  pub next-again :
      (s : OutputStream) (r : OutputStream × Bool)
      → s.backed_up ≡ false
      → (s.file_pos == 0) ≡ false
      → encrypt_and_write aes_encrypt aes_decrypt adler32 has_key room
          (length s.buffer)
          (after_sum s)
        ≡ ok r
      → do_next s ≡ ok (start_over aes_encrypt aes_decrypt adler32 has_key room r)
  unfolding next area
  next-again s r b e made =
      if_false _ _ b
      ∙ ap
          (λ (m : Result (OutputStream × Bool)).
            m >>= λ r. ok (start_over aes_encrypt aes_decrypt adler32 has_key room r))
          (if_false _ _ e ∙ made)

  pub length-file :
      {s : OutputStream} {pages : List ℕ} → HasPages s pages → length s.file ≡ length pages
  length-file {s} {pages} h =
      ap length h.sealed
      ∙ (length-seal aes_encrypt aes_decrypt aes_size aes_inverse has_key h.count c.iv pages
          c.iv_size h.whole).0

  pub page-IsWhole : (b : Bool) (n : ℕ) → n ≡ page_size → IsWhole b n
  page-IsWhole true n e = (page_blocks, e ∙ page)
  page-IsWhole false n e = tt

  -- A full buffer becomes a page of the file.
  pub flush_page :
      (s : OutputStream) (pages : List ℕ) (adler : ℕ)
      → HasPages s pages
      → length pages + page_size ≤ room
      → let sealed = seal aes_encrypt aes_decrypt has_key c.iv (pages ++ s.buffer) in
        (buffer : List ℕ) × (length buffer ≡ page_size)
        × (encrypt_and_write aes_encrypt aes_decrypt adler32 has_key room
              (length s.buffer)
              (record s { adler = adler })
            ≡ ok
                (record s { adler = adler; file = sealed.0; iv = sealed.1; buffer = buffer }, true))
  flush_page s pages adler h fits =
      let all : take (length s.buffer) s.buffer ≡ s.buffer =
        take_whole (length s.buffer) s.buffer (omega arith) in
      let (buffer, same, made) =
        encrypt_and_write-fits aes_encrypt aes_decrypt aes_size aes_inverse adler32 room has_key
          (record s { adler = adler }) (length s.buffer)
          (page-IsWhole has_key (length s.buffer) h.size) (HasPages-iv h) (omega arith)
          (omega (arith, length-file h, h.size)) in
      let joined =
        seal-append aes_encrypt aes_decrypt has_key h.count (suc page_blocks) c.iv pages s.buffer
          h.whole (h.size ∙ page) in
      (
        buffer,
        same ∙ h.size,
        made
            ∙ rw (all, h.next_iv)
                (ap
                  (λ (r : List ℕ × List ℕ).
                    ok (record s { adler = adler; file = r.0; iv = r.1; buffer = buffer }, true))
                  (rw h.sealed (sym joined))),
      )

  -- The checksum goes on behind the bytes of the buffer that are summed.
  pub add_bytes-area :
      (pages first buffer : List ℕ) (start count value : ℕ)
      → value ≡ sum (pages ++ first)
      → take start buffer ≡ first
      → add_bytes adler32 value (take count (drop start buffer))
        ≡ sum (pages ++ take (start + count) buffer)
  add_bytes-area pages first buffer start count value e same =
      ap (λ (v : ℕ). add_bytes adler32 v (take count (drop start buffer))) e
      ∙ add_bytes-checksum adler32 adler32_lt adler32_append _ _
      ∙ ap sum (
          append_assoc pages _ _
          ∙ ap (λ (t : List ℕ). pages ++ t)
              (ap (λ (t : List ℕ). t ++ take count (drop start buffer)) (sym same)
                ∙ sym (take_more start count buffer)))
