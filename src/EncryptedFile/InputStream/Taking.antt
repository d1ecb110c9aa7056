-- ===== src/EncryptedFile/InputStream/Taking.antt =====
-- `Next`, where the system can read the file.
use zbackup.Base.{
  ℕ, ◌+◌, ◌≤◌, ◌<◌, ◌≡◌, refl, sym, ap, ◌∙◌, Bool, true, false, not, ◌&&◌, List, [], ◌++◌, arith,
  ◌==◌, ltb, lt→ltb, if_true, if_false, length, take, drop, length-take, length-drop, subst,
}
use zbackup.Encryption.{block_size}
use zbackup.EncryptedFile.Setting.{Setting}
use zbackup.EncryptedFile.{ok, Result, ◌>>=◌, add_bytes}
use zbackup.EncryptedFile.Checksum.{add_bytes-checksum}
use zbackup.EncryptedFile.Codec.{contents}
use zbackup.EncryptedFile.InputStream.{
  InputStream, next, load, deliver, front, move_remainder, read_file,
}
use zbackup.EncryptedFile.InputStream.Invariant.{
  window, HasRest, Place, View, IsInput, IsShown, sum,
}
use zbackup.EncryptedFile.InputStream.Loading.{read_file-loaded}
use zbackup.EncryptedFile.InputStream.Showing.{IsLoaded, decrypt_buffer-Shows}

module _ (c : Setting) (buffer_blocks : ℕ) (readable : ℕ → Bool)
    (all_readable : (offset : ℕ) → readable offset ≡ true) where
  open c use {aes_encrypt, aes_decrypt, adler32, adler32_lt, adler32_append, has_key}

  abbrev do_next : InputStream → Result (InputStream × Bool)
  do_next = next aes_encrypt aes_decrypt adler32 has_key readable

  moved_place :
      (s : InputStream) (later : List ℕ) (pos : ℕ)
      → 0 < s.fill
      → Place c buffer_blocks s later
      → Place c buffer_blocks (record s { backed_up = false; file_pos = pos }) later
  moved_place s later pos some_bytes (Place.fresh p st f r e) = absurd (omega arith)
  moved_place s later pos some_bytes (Place.middle r f e) = Place.middle r f e
  moved_place s later pos some_bytes (Place.ended e) = Place.ended e

  next_backed :
      (s : InputStream) (past rest : List ℕ) (h : IsInput c buffer_blocks s past rest)
      → s.backed_up ≡ true
      → 0 < s.fill
      → rest ≡ window s ++ h.later
      → s.adler ≡ sum c buffer_blocks past
      → (s' : InputStream) × (do_next s ≡ ok (s', true)) × IsShown c buffer_blocks s' past rest
  unfolding next deliver
  next_backed s past rest h b more shown summed =
      let some_bytes : ltb 0 s.fill ≡ true = lt→ltb _ _ more in
      let s' = record s { backed_up = false; file_pos = s.file_pos + s.fill } in
      (
        s',
        if_true _ _ b ∙ ap (λ (x : Bool). ok (s', x)) some_bytes,
        record {
          later = h.later;
          core = record {
            size = h.core.size;
            within = h.core.within;
            vector = h.core.vector;
            bytes = h.core.bytes;
            place = moved_place s h.later _ more h.core.place;
          };
          going = refl;
          some_bytes = more;
          shown = shown;
          summed = summed;
        },
      )

  with_adler :
      (s : InputStream) (later : List ℕ) (adler : ℕ)
      → HasRest c buffer_blocks s later
      → HasRest c buffer_blocks (record s { adler = adler }) later
  with_adler s later adler h = record {
    size = h.size;
    within = h.within;
    vector = h.vector;
    bytes = h.bytes;
    place = same_place s later adler h.place;
  }
    where
      same_place :
          (s : InputStream) (later : List ℕ) (adler : ℕ)
          → Place c buffer_blocks s later
          → Place c buffer_blocks (record s { adler = adler }) later
      same_place s later adler (Place.fresh p st f r e) = Place.fresh p st f r e
      same_place s later adler (Place.middle r f e) = Place.middle r f e
      same_place s later adler (Place.ended e) = Place.ended e

  -- What is loaded behind the bytes `kept`.
  loaded :
      (s : InputStream) (later kept : List ℕ)
      → HasRest c buffer_blocks s later
      → kept ≡ take s.remainder (drop (s.start + s.fill) s.buffer)
      → length kept ≡ s.remainder
      → s.remainder ≤ length s.buffer
      → kept ++ drop s.offset s.file ≡ contents aes_encrypt aes_decrypt has_key s.iv later
      → 0 < length later
      → IsLoaded c readable buffer_blocks (read_file (move_remainder s)) later
  unfolding read_file move_remainder
  loaded s later kept h e size le sealed more =
      let (same, all, fill, end) = read_file-loaded s kept e size le in
      record {
        size = same ∙ h.size;
        within = omega (arith, fill, h.size);
        vector = h.vector;
        bytes = h.bytes;
        more = more;
        sealed = all ∙ sealed;
        end = λ lt. end (omega (arith, lt, h.size));
      }

  -- A stream that goes on at the end of its window.
  next_load :
      (s : InputStream) (past later kept before : List ℕ)
      → HasRest c buffer_blocks s later
      → s.backed_up ≡ false
      → past ≡ before ++ window s
      → s.adler ≡ sum c buffer_blocks before
      → (not (s.file_pos == 0) && (s.remainder == 0)) ≡ false
      → kept ≡ take s.remainder (drop (s.start + s.fill) s.buffer)
      → length kept ≡ s.remainder
      → s.remainder ≤ length s.buffer
      → kept ++ drop s.offset s.file ≡ contents aes_encrypt aes_decrypt has_key s.iv later
      → 0 < length later
      → (s' : InputStream) × (do_next s ≡ ok (s', true)) × IsShown c buffer_blocks s' past later
  unfolding next load front deliver
  next_load s past later kept before h b taken summed goes_on e size le sealed more =
      let s₁ = record s { adler = add_bytes adler32 s.adler (window s) } in
      let (s₂, made, shows, same_b, same_a, same_p) =
        decrypt_buffer-Shows c readable buffer_blocks (read_file (move_remainder s₁)) later (
          loaded s₁ later kept (with_adler s later (add_bytes adler32 s.adler (window s)) h) e size
            le sealed more) in
      let some_bytes : ltb 0 s₂.fill ≡ true = lt→ltb _ _ shows.some_bytes in
      let s₃ = record s₂ { file_pos = s₂.file_pos + s₂.fill } in
      (
        s₃,
        if_false _ _ b
            ∙ if_false _ _ goes_on
            ∙ if_true _ _ (all_readable s.offset)
            ∙ ap (λ (m : Result InputStream). m >>= λ (t : InputStream). ok (deliver t)) made
            ∙ ap (λ (x : Bool). ok (s₃, x)) some_bytes,
        record {
          later = shows.next_later;
          core = shows.core _;
          going = same_b ∙ (unfold read_file move_remainder in b);
          some_bytes = shows.some_bytes;
          shown = shows.shown;
          summed =
              same_a
              ∙ (unfold read_file move_remainder in
                  ap (λ (v : ℕ). add_bytes adler32 v (window s)) summed
                  ∙ add_bytes-checksum adler32 adler32_lt adler32_append before (window s)
                  ∙ ap (sum c buffer_blocks) (sym taken));
        },
      )

  next_taken :
      (s : InputStream) (past later before : List ℕ)
      → HasRest c buffer_blocks s later
      → s.backed_up ≡ false
      → past ≡ before ++ window s
      → s.adler ≡ sum c buffer_blocks before
      → 0 < length later
      → Place c buffer_blocks s later
      → (s' : InputStream) × (do_next s ≡ ok (s', true)) × IsShown c buffer_blocks s' past later
  next_taken s past later before h b taken summed more (Place.fresh p st f r sealed) =
      next_load s past later [] before h b taken summed (ground (arith, p))
        (ap (λ (k : ℕ). take k (drop (s.start + s.fill) s.buffer)) (sym r)) (sym r)
        (omega (arith, r)) sealed more
  next_taken s past later before h b taken summed more (Place.middle r f sealed) =
      let kept = take block_size (drop (s.start + s.fill) s.buffer) in
      let size : length kept ≡ block_size =
        length-take block_size _
        ∙ omega (arith, length-drop (s.start + s.fill) s.buffer, h.size, f) in
      next_load s past later kept before h b taken summed (ground (arith, r))
        (ap (λ (k : ℕ). take k (drop (s.start + s.fill) s.buffer)) (sym r)) (size ∙ sym r)
        (omega (arith, r, h.size, f)) sealed more
  next_taken s past later before h b taken summed more (Place.ended e) =
      absurd (omega (arith, more, ap length e))

  -- `Next` shows some of the bytes that are to come.
  pub next-IsShown :
      (s : InputStream) (past rest : List ℕ)
      → IsInput c buffer_blocks s past rest
      → 0 < length rest
      → (s' : InputStream) × (do_next s ≡ ok (s', true)) × IsShown c buffer_blocks s' past rest
  next-IsShown s past rest h more = by_view h h.view
    where
      by_view :
          (h : IsInput c buffer_blocks s past rest)
          → View c buffer_blocks s past rest h.later
          → (s' : InputStream) × (do_next s ≡ ok (s', true)) × IsShown c buffer_blocks s' past rest
      by_view h (View.backed b f e a) = next_backed s past rest h b f e a
      by_view h (View.taken b e before t a) =
          subst
            (λ (r : List ℕ).
              (s' : InputStream) × (do_next s ≡ ok (s', true)) × IsShown c buffer_blocks s' past r)
            (sym e)
            (next_taken s past h.later before h.core b t a
              (subst (λ (r : List ℕ). 0 < length r) e more) h.core.place)
