-- ===== src/EncryptedFile/OutputStream/Writing.antt =====
-- `write` where the file system has room.
use zbackup.Base.{
  ℕ, zero, suc, ◌+◌, ◌-◌, ◌≤◌, ◌<◌, ◌≡◌, refl, sym, ap, ◌∙◌, inl, inr, Bool, true, List, [], ◌∷◌,
  ◌++◌, append_assoc, arith, ltb, leb, lt→ltb, if_true, if_false, length, take, drop, overwrite,
  Bool-cases, length-overwrite, length-take, length-drop, length-append, take-overwrite,
  take-append-drop, ltb→lt, take_at, append-nil, subst,
}
use zbackup.EncryptedFile.Setting.{Setting}
use zbackup.EncryptedFile.{ok, Result, ◌>>=◌, add_bytes}
use zbackup.EncryptedFile.OutputStream.{
  OutputStream, back_up, area, fill_in, write_step, write_loop, write,
}
use zbackup.EncryptedFile.OutputStream.Invariant.{
  pending, sum, IsOutput, IsOffer, Place, add_bytes-area,
}
use zbackup.EncryptedFile.OutputStream.Offering.{next-IsOffer}

module _ (c : Setting) (room : ℕ) where
  open c use {
    aes_encrypt, aes_decrypt, aes_size, aes_inverse, adler32, adler32_lt, adler32_append, has_key,
    page_size, page_blocks, page,
  }

  take-overwrite_before :
      (xs : List ℕ) (i : ℕ) (ys : List ℕ) → i ≤ length xs → take i (overwrite xs i ys) ≡ take i xs
  unfolding overwrite
  take-overwrite_before xs i ys le = take_at i (take i xs) _ (rw length-take (omega arith))

  held-append :
      (s : OutputStream) (plain bytes pages : List ℕ)
      → plain ≡ pages ++ take s.start s.buffer
      → plain ++ bytes ≡ pages ++ (take s.start s.buffer ++ bytes)
  held-append s plain bytes pages e =
      ap (λ (t : List ℕ). t ++ bytes) e ∙ append_assoc pages (take s.start s.buffer) bytes

  -- The caller fills some of the area and returns the rest.
  part-IsOutput :
      (s : OutputStream) (plain bytes : List ℕ)
      → IsOffer c room s plain
      → length bytes < s.avail
      → (s' : OutputStream) × (back_up aes_encrypt aes_decrypt adler32 has_key room
            (s.avail - length bytes)
            (fill_in s bytes)
          ≡ ok s')
        × IsOutput c room s' (plain ++ bytes)
  unfolding back_up fill_in area
  part-IsOutput s plain bytes h lt =
      let count = s.avail - length bytes in
      let buffer = overwrite s.buffer s.start bytes in
      let used : s.avail - count ≡ length bytes = omega arith in
      let enough : leb count s.avail ≡ true = ground arith in
      let returned : ltb 0 count ≡ true = lt→ltb _ _ (omega arith) in
      let fits : s.start + length bytes ≤ length s.buffer =
        omega (arith, h.full, h.core.size, lt) in
      let filled : take (s.start + length bytes) buffer ≡ take s.start s.buffer ++ bytes =
        take-overwrite s.buffer s.start bytes fits in
      let s' = record s {
        buffer = buffer;
        adler = add_bytes adler32 s.adler (take (s.avail - count) (drop s.start buffer));
        start = s.start + (s.avail - count);
        avail = count;
        file_pos = s.file_pos - count;
        backed_up = true;
      } in
      (
        s',
        if_false _ _ h.going
            ∙ if_true _ _ enough
            ∙ ap (λ (x : Bool). ok (record s' { backed_up = x })) returned,
        record {
          pages = h.pages;
          core = record {
            count = h.core.count;
            whole = h.core.whole;
            sealed = h.core.sealed;
            next_iv = h.core.next_iv;
            size = length-overwrite s.buffer s.start bytes fits ∙ h.core.size;
            summed =
                add_bytes-area c room h.pages (take s.start s.buffer) buffer s.start
                  (s.avail - count) s.adler h.core.summed
                  (take-overwrite_before s.buffer s.start bytes (omega (arith, fits)));
          };
          place = Place.backed refl (omega arith) (omega (arith, h.full, lt));
          held =
              held-append s plain bytes h.pages h.held
              ∙ ap (λ (t : List ℕ). h.pages ++ t) (sym filled)
              ∙ ap (λ (k : ℕ). h.pages ++ take k buffer) (omega (arith, used));
          position = rw length-append (omega (arith, h.position, lt));
        },
      )

  -- The caller fills all of the area.
  all-IsOutput :
      (s : OutputStream) (plain bytes : List ℕ)
      → IsOffer c room s plain
      → length bytes ≡ s.avail
      → IsOutput c room (fill_in s bytes) (plain ++ bytes)
  unfolding fill_in
  all-IsOutput s plain bytes h e =
      let buffer = overwrite s.buffer s.start bytes in
      let fits : s.start + length bytes ≤ length s.buffer = omega (arith, h.full, h.core.size, e) in
      record {
        pages = h.pages;
        core = record {
          count = h.core.count;
          whole = h.core.whole;
          sealed = h.core.sealed;
          next_iv = h.core.next_iv;
          size = length-overwrite s.buffer s.start bytes fits ∙ h.core.size;
          summed =
              h.core.summed
              ∙ ap (λ (t : List ℕ). sum c room (h.pages ++ t))
                  (sym (take-overwrite_before s.buffer s.start bytes (omega (arith, fits))));
        };
        place = Place.full h.going h.full;
        held =
            held-append s plain bytes h.pages h.held
            ∙ ap (λ (t : List ℕ). h.pages ++ t) (sym (take-overwrite s.buffer s.start bytes fits))
            ∙ ap (λ (k : ℕ). h.pages ++ take (s.start + k) buffer) e
            ∙ ap (λ (x : Bool). h.pages ++ take (s.start + pending x s.avail) buffer) (sym h.going);
        position = rw length-append (omega (arith, h.position, e));
      }

  abbrev loop : ℕ → OutputStream → List ℕ → Result OutputStream
  loop = write_loop aes_encrypt aes_decrypt adler32 has_key room

  write_loop-IsOutput :
      (fuel : ℕ) (s : OutputStream) (plain bytes : List ℕ)
      → length bytes ≤ fuel
      → length plain + length bytes ≤ room
      → IsOutput c room s plain
      → (s' : OutputStream) × (loop fuel s bytes ≡ ok s') × IsOutput c room s' (plain ++ bytes)
  unfolding write_loop write_step
  write_loop-IsOutput fuel s plain [] le fits h =
      (s, refl, subst (IsOutput c room s) (sym (append-nil plain)) h)
  write_loop-IsOutput zero s plain (b ∷ bytes) le fits h = absurd (omega arith)
  write_loop-IsOutput (suc fuel) s plain (b ∷ bytes) le fits h =
      let all = b ∷ bytes in
      let (s₁, made, offer) = next-IsOffer c room s plain h (omega (arith, fits)) in
      let step : loop (suc fuel) s all
          ≡ write_step aes_encrypt aes_decrypt adler32 has_key room (loop fuel) all (s₁, true) =
        ap
          (λ (m : Result (OutputStream × Bool)).
            m >>= write_step aes_encrypt aes_decrypt adler32 has_key room (loop fuel) all)
          made in
      elim (Bool-cases (ltb (length all) s₁.avail)) [
        | inl less ↦
            let (s₂, returned, out) = part-IsOutput s₁ plain all offer (ltb→lt _ _ less) in
            (s₂, step ∙ if_true _ _ less ∙ returned, out)
        | inr more ↦
            let enough : s₁.avail ≤ length all = ground arith in
            let filled : length (take s₁.avail all) ≡ s₁.avail = rw length-take (omega arith) in
            let out = all-IsOutput s₁ plain (take s₁.avail all) offer filled in
            let left : length (drop s₁.avail all) ≡ length all - s₁.avail =
              length-drop s₁.avail all in
            let (s₂, rest, out') =
              write_loop-IsOutput fuel (fill_in s₁ (take s₁.avail all)) (plain ++ take s₁.avail all)
                (drop s₁.avail all) (omega (arith, left, offer.some_room, le))
                (rw length-append (omega (arith, left, filled, fits))) out in
            (
              s₂,
              step ∙ if_false _ _ more ∙ rest,
              subst (IsOutput c room s₂)
                  (append_assoc plain _ _
                    ∙ ap (λ (t : List ℕ). plain ++ t) (take-append-drop s₁.avail all))
                  out',
            )
      ]

  pub write-IsOutput :
      (s : OutputStream) (plain bytes : List ℕ)
      → length plain + length bytes ≤ room
      → IsOutput c room s plain
      → (s' : OutputStream) × (write aes_encrypt aes_decrypt adler32 has_key room s bytes ≡ ok s')
        × IsOutput c room s' (plain ++ bytes)
  unfolding write
  write-IsOutput s plain bytes fits h =
      write_loop-IsOutput (length bytes) s plain bytes (omega arith) fits h
