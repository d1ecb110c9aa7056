-- ===== src/EncryptedFile/OutputStream/Settling.antt =====
-- The constructor, and `BackUp( 0 )` and `getAdler32`, which take all data for consumed.
use zbackup.Base.{
  ℕ, ◌+◌, ◌-◌, ◌≤◌, ◌≡◌, refl, sym, ap, ◌∙◌, Bool, true, false, List, [], ◌++◌, arith, leb, if_true,
  if_false, if◌then◌else◌, take, drop, length-replicate,
}
use zbackup.Encryption.Concat.{run-none}
use zbackup.EncryptedFile.Setting.{Setting}
use zbackup.EncryptedFile.{ok, Result, ◌>>=◌, add_bytes}
use zbackup.EncryptedFile.Checksum.{checksum-nil}
use zbackup.EncryptedFile.Codec.{IsIv, seal}
use zbackup.EncryptedFile.OutputStream.{OutputStream, open_output, back_up, area, get_adler}
use zbackup.EncryptedFile.OutputStream.Invariant.{
  pending, sum, HasPages, IsOutput, Place, add_bytes-area,
}

iv_given : (b : Bool) (iv : List ℕ) → IsIv b iv → (if b then iv else []) ≡ iv
iv_given true iv p = refl
iv_given false iv p = sym p

module _ (c : Setting) (room : ℕ) where
  open c use {
    aes_encrypt, aes_decrypt, aes_size, aes_inverse, adler32, adler32_lt, adler32_append, has_key,
    page_size, page_blocks, page,
  }

  seal-nil : (b : Bool) (iv : List ℕ) → seal aes_encrypt aes_decrypt b iv [] ≡ ([], iv)
  seal-nil true iv = run-none aes_encrypt aes_decrypt iv
  seal-nil false iv = refl

  pub open_output-IsOutput :
      IsOutput c room (open_output aes_encrypt aes_decrypt adler32 has_key room page_size c.iv) []
  unfolding open_output
  open_output-IsOutput = record {
    pages = [];
    core = record {
      count = 0;
      whole = refl;
      sealed = ap (λ (r : List ℕ × List ℕ). r.0) (sym (seal-nil has_key c.iv));
      next_iv =
          iv_given has_key c.iv c.iv_size
          ∙ ap (λ (r : List ℕ × List ℕ). r.1) (sym (seal-nil has_key c.iv));
      size = length-replicate page_size 0;
      summed = sym (checksum-nil adler32 adler32_lt adler32_append);
    };
    place = Place.fresh refl refl refl refl;
    held = refl;
    position = refl;
  }

  -- What the buffer holds before its `start`.
  pub record IsSettled (s : OutputStream) (plain : List ℕ) : Type 0 where
    pub pages : List ℕ
    pub core : HasPages c room s pages
    pub held : plain ≡ pages ++ take s.start s.buffer
    pub within : s.start ≤ page_size

  abbrev return_none : OutputStream → Result OutputStream
  return_none = back_up aes_encrypt aes_decrypt adler32 has_key room 0

  -- The stream after `BackUp( 0 )` that uses all of the area.
  abbrev used : OutputStream → OutputStream
  used s = record s {
    adler = add_bytes adler32 s.adler (take (s.avail - 0) (drop s.start s.buffer));
    start = s.start + (s.avail - 0);
    avail = 0;
    file_pos = s.file_pos - 0;
    backed_up = false;
  }

  settle_used :
      (s : OutputStream) (plain : List ℕ) (h : IsOutput c room s plain)
      → s.backed_up ≡ false
      → Place c room (used s) h.pages
      → s.start + s.avail ≤ page_size
      → (return_none s ≡ ok (used s)) × IsOutput c room (used s) plain × IsSettled (used s) plain
  unfolding back_up area
  settle_used s plain h b place le =
      let any : leb 0 s.avail ≡ true = ground arith in
      let core : HasPages c room (used s) h.pages = record {
        count = h.core.count;
        whole = h.core.whole;
        sealed = h.core.sealed;
        next_iv = h.core.next_iv;
        size = h.core.size;
        summed =
            add_bytes-area c room h.pages (take s.start s.buffer) s.buffer s.start (s.avail - 0)
              s.adler h.core.summed refl;
      } in
      let held : plain ≡ h.pages ++ take (s.start + s.avail) s.buffer =
        h.held ∙ ap (λ (x : Bool). h.pages ++ take (s.start + pending x s.avail) s.buffer) b in
      (
        if_false _ _ b ∙ if_true _ _ any,
        record {
          pages = h.pages;
          core = core;
          place = place;
          held = held ∙ ap (λ (k : ℕ). h.pages ++ take k s.buffer) (omega arith);
          position = omega (arith, h.position);
        },
        record {
          pages = h.pages;
          core = core;
          held = held ∙ ap (λ (k : ℕ). h.pages ++ take k s.buffer) (omega arith);
          within = omega (arith, le);
        },
      )

  settle_at :
      (s : OutputStream) (plain : List ℕ) (h : IsOutput c room s plain)
      → Place c room s h.pages
      → (s' : OutputStream) × (return_none s ≡ ok s')
        × IsOutput c room s' plain
        × IsSettled s' plain
  settle_at s plain h (Place.backed b more f) = (
    s,
    unfold back_up in if_true _ _ b,
    h,
    record {
      pages = h.pages;
      core = h.core;
      held =
          h.held
          ∙ ap (λ (x : Bool). h.pages ++ take (s.start + pending x s.avail) s.buffer) b
          ∙ ap (λ (k : ℕ). h.pages ++ take k s.buffer) (omega arith);
      within = omega (arith, f);
    },
  )
  settle_at s plain h (Place.full b f) =
      let (made, out, settled) =
        settle_used s plain h b (Place.full refl (omega (arith, f))) (omega (arith, f)) in
      (used s, made, out, settled)
  settle_at s plain h (Place.fresh b st av n) =
      let (made, out, settled) =
        settle_used s plain h b (Place.fresh refl (omega (arith, st, av)) refl n)
          (omega (arith, st, av, page)) in
      (used s, made, out, settled)

  pub settle :
      (s : OutputStream) (plain : List ℕ)
      → IsOutput c room s plain
      → (s' : OutputStream) × (return_none s ≡ ok s')
        × IsOutput c room s' plain
        × IsSettled s' plain
  settle s plain h = settle_at s plain h h.place

  pub get_adler-IsOutput :
      (s : OutputStream) (plain : List ℕ)
      → IsOutput c room s plain
      → (s' : OutputStream) × (get_adler aes_encrypt aes_decrypt adler32 has_key room s
          ≡ ok (sum c room plain, s'))
        × IsOutput c room s' plain
  unfolding get_adler
  get_adler-IsOutput s plain h =
      let (s', made, out, settled) = settle s plain h in
      (
        s',
        ap (λ (m : Result OutputStream). m >>= λ (t : OutputStream). ok (t.adler, t)) made
            ∙ ap (λ (v : ℕ). ok (v, s')) (settled.core.summed ∙ ap (sum c room) (sym settled.held)),
        out,
      )
