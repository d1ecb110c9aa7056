-- ===== src/EncryptedFile/OutputStream/Offering.antt =====
-- `Next` where the file system has room.
use zbackup.Base.{
  ℕ, suc, ◌+◌, ◌≤◌, ◌<◌, ◌≡◌, refl, sym, ap, ◌∙◌, Bool, true, false, List, [], ◌++◌, append-nil,
  arith, ==_iff, ltb, ◌==◌, length, take, drop, length-append, lt→ltb, take_whole,
}
use zbackup.EncryptedFile.Setting.{Setting}
use zbackup.EncryptedFile.OutputStream.Invariant.{
  pending, sum, IsOutput, IsOffer, Place, do_next, next-backed, next-first, next-again, flush_page,
  add_bytes-area,
}
use zbackup.EncryptedFile.{ok, add_bytes}
use zbackup.EncryptedFile.Codec.{seal}
use zbackup.EncryptedFile.OutputStream.{OutputStream, offer, start_over}

module _ (c : Setting) (room : ℕ) where
  open c use {
    aes_encrypt, aes_decrypt, aes_size, aes_inverse, adler32, adler32_lt, adler32_append, has_key,
    page_size, page_blocks, page,
  }

  next_backed :
      (s : OutputStream) (plain : List ℕ)
      → IsOutput c room s plain
      → s.backed_up ≡ true
      → 0 < s.avail
      → s.start + s.avail ≡ page_size
      → (s' : OutputStream) × (do_next c room s ≡ ok (s', true)) × IsOffer c room s' plain
  next_backed s plain h b more f =
      let some_more : ltb 0 s.avail ≡ true = lt→ltb _ _ more in
      (
        record s { backed_up = false; file_pos = s.file_pos + s.avail },
        next-backed c room s b
            ∙ ap
                (λ (x : Bool).
                  ok (record s { backed_up = false; file_pos = s.file_pos + s.avail }, x))
                some_more,
        record {
          pages = h.pages;
          core = record {
            count = h.core.count;
            whole = h.core.whole;
            sealed = h.core.sealed;
            next_iv = h.core.next_iv;
            size = h.core.size;
            summed = h.core.summed;
          };
          going = refl;
          some_room = more;
          full = f;
          held =
              h.held
              ∙ ap (λ (k : ℕ). h.pages ++ take k s.buffer)
                  (ap (λ (x : Bool). s.start + pending x s.avail) b ∙ omega arith);
          position = omega (arith, h.position);
        },
      )

  next_full :
      (s : OutputStream) (plain : List ℕ)
      → IsOutput c room s plain
      → s.backed_up ≡ false
      → s.start + s.avail ≡ page_size
      → length plain ≤ room
      → (s' : OutputStream) × (do_next c room s ≡ ok (s', true)) × IsOffer c room s' plain
  unfolding start_over offer
  next_full s plain h b f le =
      let taken : take (s.start + s.avail) s.buffer ≡ s.buffer =
        take_whole (s.start + s.avail) s.buffer (omega (arith, f, h.core.size)) in
      let all : plain ≡ h.pages ++ s.buffer =
        h.held
        ∙ ap (λ (t : List ℕ). h.pages ++ t)
            (ap (λ (x : Bool). take (s.start + pending x s.avail) s.buffer) b ∙ taken) in
      let total : length plain ≡ length h.pages + page_size =
        ap length all ∙ length-append h.pages s.buffer ∙ omega (arith, h.core.size) in
      let adler = add_bytes adler32 s.adler (take s.avail (drop s.start s.buffer)) in
      let summed : adler ≡ sum c room (h.pages ++ s.buffer) =
        add_bytes-area c room h.pages (take s.start s.buffer) s.buffer s.start s.avail s.adler
          h.core.summed refl
        ∙ ap (λ (t : List ℕ). sum c room (h.pages ++ t)) taken in
      let (buffer, size, made) =
        flush_page c room s h.pages adler h.core (omega (arith, total, le)) in
      let begun : (s.file_pos == 0) ≡ false = ground (arith, h.position, total, page) in
      let more : ltb 0 (length buffer) ≡ true = lt→ltb _ _ (omega (arith, size, page)) in
      let sealed = seal aes_encrypt aes_decrypt has_key c.iv (h.pages ++ s.buffer) in
      (
        record s {
          adler = adler;
          file = sealed.0;
          iv = sealed.1;
          buffer = buffer;
          start = 0;
          avail = length buffer;
          file_pos = s.file_pos + length buffer;
        },
        next-again c room s _ b begun made
            ∙ ap
                (λ (x : Bool). ok (
                  record s {
                    adler = adler;
                    file = sealed.0;
                    iv = sealed.1;
                    buffer = buffer;
                    start = 0;
                    avail = length buffer;
                    file_pos = s.file_pos + length buffer;
                  },
                  x,
                ))
                more,
        record {
          pages = h.pages ++ s.buffer;
          core = record {
            count = h.core.count + suc page_blocks;
            whole = length-append h.pages s.buffer ∙ omega (arith, h.core.whole, h.core.size, page);
            sealed = refl;
            next_iv = refl;
            size = size;
            summed = summed ∙ ap (sum c room) (sym (append-nil _));
          };
          going = b;
          some_room = omega (arith, size, page);
          full = omega (arith, size);
          held = all ∙ sym (append-nil _);
          position = omega (arith, h.position);
        },
      )

  next_fresh :
      (s : OutputStream) (plain : List ℕ) (h : IsOutput c room s plain)
      → s.backed_up ≡ false
      → s.start ≡ 0
      → s.avail ≡ 0
      → h.pages ≡ []
      → (s' : OutputStream) × (do_next c room s ≡ ok (s', true)) × IsOffer c room s' plain
  unfolding start_over offer
  next_fresh s plain h b st av none_yet =
      let adler = add_bytes adler32 s.adler (take s.avail (drop s.start s.buffer)) in
      let same : adler ≡ s.adler =
        ap (λ (n : ℕ). add_bytes adler32 s.adler (take n (drop s.start s.buffer))) av
        ∙ (unfold add_bytes in refl) in
      let summed : adler ≡ sum c room (h.pages ++ []) =
        same ∙ h.core.summed ∙ ap (λ (n : ℕ). sum c room (h.pages ++ take n s.buffer)) st in
      let nothing_used : s.start + s.avail ≡ 0 = omega (arith, st, av) in
      let held : plain ≡ h.pages ++ [] =
        h.held
        ∙ ap (λ (x : Bool). h.pages ++ take (s.start + pending x s.avail) s.buffer) b
        ∙ ap (λ (n : ℕ). h.pages ++ take n s.buffer) nothing_used in
      let nothing : plain ≡ [] = held ∙ append-nil h.pages ∙ none_yet in
      let first : (s.file_pos == 0) ≡ true = (==_iff _ _).1 (h.position ∙ ap length nothing) in
      let more : ltb 0 (length s.buffer) ≡ true = lt→ltb _ _ (omega (arith, h.core.size, page)) in
      (
        record s {
          adler = adler;
          start = 0;
          avail = length s.buffer;
          file_pos = s.file_pos + length s.buffer;
        },
        next-first c room s b first
            ∙ ap
                (λ (x : Bool). ok (
                  record s {
                    adler = adler;
                    start = 0;
                    avail = length s.buffer;
                    file_pos = s.file_pos + length s.buffer;
                  },
                  x,
                ))
                more,
        record {
          pages = h.pages;
          core = record {
            count = h.core.count;
            whole = h.core.whole;
            sealed = h.core.sealed;
            next_iv = h.core.next_iv;
            size = h.core.size;
            summed = summed;
          };
          going = b;
          some_room = omega (arith, h.core.size, page);
          full = omega (arith, h.core.size);
          held = held;
          position = omega (arith, h.position);
        },
      )

  -- `Next` gives some of the buffer.
  pub next-IsOffer :
      (s : OutputStream) (plain : List ℕ)
      → IsOutput c room s plain
      → length plain ≤ room
      → (s' : OutputStream) × (do_next c room s ≡ ok (s', true)) × IsOffer c room s' plain
  next-IsOffer s plain h le = by_place s plain h le h.place
    where
      by_place :
          (s : OutputStream) (plain : List ℕ) (h : IsOutput c room s plain)
          → length plain ≤ room
          → Place c room s h.pages
          → (s' : OutputStream) × (do_next c room s ≡ ok (s', true)) × IsOffer c room s' plain
      by_place s plain h le (Place.backed b more f) = next_backed s plain h b more f
      by_place s plain h le (Place.full b f) = next_full s plain h b f le
      by_place s plain h le (Place.fresh b st av n) = next_fresh s plain h b st av n
