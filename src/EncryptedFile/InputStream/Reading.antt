-- ===== src/EncryptedFile/InputStream/Reading.antt =====
-- `BackUp` and `read`, where the system can read the file.
use zbackup.Base.{
  ℕ, zero, suc, ◌+◌, ◌-◌, ◌≤◌, ◌<◌, ◌≡◌, refl, sym, ap, ap₂, ◌∙◌, Bool, true, false, inl, inr, List,
  ◌++◌, append-nil, append_assoc, arith, ltb, leb, ltb→lt, lt→ltb, if_true, if_false, Bool-cases,
  length, take, drop, length-append, length-take, length-drop, take_at, drop_at, take_more,
  drop_more, subst,
}
use zbackup.Encryption.{block_size}
use zbackup.EncryptedFile.Setting.{Setting}
use zbackup.EncryptedFile.{ok, Result, ◌>>=◌, add_bytes}
use zbackup.EncryptedFile.Checksum.{add_bytes-checksum}
use zbackup.EncryptedFile.InputStream.{InputStream, front, back_up, read_step, read_loop, read}
use zbackup.EncryptedFile.InputStream.Invariant.{window, HasRest, Place, View, IsInput, IsShown}
use zbackup.EncryptedFile.InputStream.Taking.{next-IsShown}

module _ (c : Setting) (buffer_blocks : ℕ) (readable : ℕ → Bool)
    (all_readable : (offset : ℕ) → readable offset ≡ true) where
  open c use {aes_encrypt, aes_decrypt, adler32, adler32_lt, adler32_append, has_key}

  -- The stream after `BackUp( count )`.
  abbrev pub returned : ℕ → InputStream → InputStream
  returned count s = record s {
    adler = add_bytes adler32 s.adler (take (s.fill - count) (drop s.start s.buffer));
    start = s.start + (s.fill - count);
    fill = count;
    file_pos = s.file_pos - count;
    backed_up = ltb 0 count;
  }

  returned_place :
      (s : InputStream) (later : List ℕ) (count : ℕ)
      → count ≤ s.fill
      → Place c buffer_blocks s later
      → Place c buffer_blocks (returned count s) later
  returned_place s later count le (Place.fresh p st f r e) =
      Place.fresh (omega (arith, p)) (omega (arith, st, f)) (omega (arith, f, le)) r e
  returned_place s later count le (Place.middle r f e) =
      let same : (s.start + (s.fill - count)) + count ≡ s.start + s.fill = omega (arith, le) in
      Place.middle r (omega (arith, f, le))
        (ap (λ (k : ℕ). take block_size (drop k s.buffer) ++ drop s.offset s.file) same ∙ e)
  returned_place s later count le (Place.ended e) = Place.ended e

  pub returned-HasRest :
      (s : InputStream) (later : List ℕ) (count : ℕ)
      → count ≤ s.fill
      → HasRest c buffer_blocks s later
      → HasRest c buffer_blocks (returned count s) later
  returned-HasRest s later count le h = record {
    size = h.size;
    within = omega (arith, h.within, le);
    vector = h.vector;
    bytes = h.bytes;
    place = returned_place s later count le h.place;
  }

  pub back_up-returned :
      (s : InputStream) (count : ℕ)
      → s.backed_up ≡ false
      → count ≤ s.fill
      → back_up aes_encrypt aes_decrypt adler32 has_key readable count s ≡ ok (returned count s)
  unfolding back_up front
  back_up-returned s count b le =
      let fits : leb count s.fill ≡ true = ground arith in if_false _ _ b ∙ if_true _ _ fits

  window_size :
      {s : InputStream} {later : List ℕ}
      → HasRest c buffer_blocks s later
      → length (window s) ≡ s.fill
  window_size {s} h =
      length-take s.fill _ ∙ omega (arith, length-drop s.start s.buffer, h.size, h.within)

  -- The caller takes some of the window and returns the rest.
  part-IsInput :
      (s : InputStream) (past rest : List ℕ) (n : ℕ)
      → IsShown c buffer_blocks s past rest
      → n < s.fill
      → (take n (drop s.start s.buffer) ≡ take n rest)
        × IsInput c buffer_blocks (returned (s.fill - n) s) (past ++ take n rest) (drop n rest)
  part-IsInput s past rest n h lt =
      let count = s.fill - n in
      let area = drop s.start s.buffer in
      let used : s.fill - count ≡ n = omega arith in
      let whole : s.fill ≡ n + count = omega arith in
      let end : s.start + (s.fill - count) ≡ s.start + n = omega arith in
      let area_size : s.fill ≤ length area =
        omega (arith, length-drop s.start s.buffer, h.core.size, h.core.within) in
      let first_size : length (take n area) ≡ n = length-take n area ∙ omega (arith, area_size) in
      let split : rest ≡ take n area ++ (take count (drop n area) ++ h.later) =
        h.shown
        ∙ ap (λ (k : ℕ). take k area ++ h.later) whole
        ∙ ap (λ (t : List ℕ). t ++ h.later) (take_more n count area)
        ∙ append_assoc (take n area) _ h.later in
      let first : take n rest ≡ take n area =
        ap (take n) split ∙ take_at n (take n area) _ first_size in
      (
        sym first,
        record {
          later = h.later;
          core = returned-HasRest s h.later count (omega arith) h.core;
          view =
              View.backed (lt→ltb _ _ (omega arith)) (omega arith)
                (ap (drop n) split
                  ∙ drop_at n (take n area) _ first_size
                  ∙ ap (λ (t : List ℕ). take count t ++ h.later)
                      (sym (drop_more s.start n s.buffer)
                        ∙ ap (λ (k : ℕ). drop k s.buffer) (sym end)))
                (ap₂ (add_bytes adler32) h.summed (ap (λ (k : ℕ). take k area) used ∙ sym first)
                  ∙ add_bytes-checksum adler32 adler32_lt adler32_append past (take n rest));
        },
      )

  -- The caller takes the whole window.
  whole-IsInput :
      (s : InputStream) (past rest : List ℕ) (h : IsShown c buffer_blocks s past rest)
      → IsInput c buffer_blocks s (past ++ window s) h.later
  whole-IsInput s past rest h = record {
    later = h.later;
    core = h.core;
    view = View.taken h.going refl past refl h.summed;
  }

  abbrev loop : ℕ → ℕ → InputStream → Result (List ℕ × InputStream)
  loop = read_loop aes_encrypt aes_decrypt adler32 has_key readable

  read_loop-IsInput :
      (fuel size : ℕ) (s : InputStream) (past rest : List ℕ)
      → size ≤ fuel
      → size ≤ length rest
      → IsInput c buffer_blocks s past rest
      → (s' : InputStream) × (loop fuel size s ≡ ok (take size rest, s'))
        × IsInput c buffer_blocks s' (past ++ take size rest) (drop size rest)
  unfolding read_loop read_step front
  read_loop-IsInput fuel zero s past rest le enough h =
      (s, refl, subst (λ (p : List ℕ). IsInput c buffer_blocks s p rest) (sym (append-nil past)) h)
  read_loop-IsInput zero (suc size) s past rest le enough h = absurd (omega arith)
  read_loop-IsInput (suc fuel) (suc size) s past rest le enough h =
      let n = suc size in
      let (s₁, made, shows) =
        next-IsShown c buffer_blocks readable all_readable s past rest h (omega (arith, enough)) in
      let step : loop (suc fuel) n s
          ≡ read_step aes_encrypt aes_decrypt adler32 has_key readable (loop fuel) n (s₁, true) =
        ap
          (λ (m : Result (InputStream × Bool)).
            m >>= read_step aes_encrypt aes_decrypt adler32 has_key readable (loop fuel) n)
          made in
      elim (Bool-cases (ltb n s₁.fill)) [
        | inl less ↦
            let (bytes, input) = part-IsInput s₁ past rest n shows (ltb→lt _ _ less) in
            (
              returned (s₁.fill - n) s₁,
              step
                  ∙ if_true _ _ less
                  ∙ ap
                      (λ (m : Result InputStream).
                        m >>= λ (t : InputStream). ok (take n (drop s₁.start s₁.buffer), t))
                      (back_up-returned s₁ (s₁.fill - n) shows.going (omega arith))
                  ∙ ap (λ (t : List ℕ). ok (t, returned (s₁.fill - n) s₁)) bytes,
              input,
            )
        | inr more ↦
            let least : s₁.fill ≤ n = ground arith in
            let size₁ = window_size shows.core in
            let total : length rest ≡ s₁.fill + length shows.later =
              ap length shows.shown
              ∙ length-append (window s₁) shows.later
              ∙ omega (arith, size₁) in
            let (s₂, rest_made, input) =
              read_loop-IsInput fuel (n - s₁.fill) s₁ (past ++ window s₁) shows.later
                (omega (arith, shows.some_bytes, le)) (omega (arith, total, enough, least))
                (whole-IsInput s₁ past rest shows) in
            let whole : n ≡ s₁.fill + (n - s₁.fill) = omega (arith, least) in
            let first : take s₁.fill rest ≡ window s₁ =
              ap (take s₁.fill) shows.shown ∙ take_at s₁.fill (window s₁) shows.later size₁ in
            let later : drop s₁.fill rest ≡ shows.later =
              ap (drop s₁.fill) shows.shown ∙ drop_at s₁.fill (window s₁) shows.later size₁ in
            let taken : take n rest ≡ window s₁ ++ take (n - s₁.fill) shows.later =
              ap (λ (k : ℕ). take k rest) whole
              ∙ take_more s₁.fill (n - s₁.fill) rest
              ∙ ap₂ (λ (x y : List ℕ). x ++ take (n - s₁.fill) y) first later in
            let dropped : drop n rest ≡ drop (n - s₁.fill) shows.later =
              ap (λ (k : ℕ). drop k rest) whole
              ∙ drop_more s₁.fill (n - s₁.fill) rest
              ∙ ap (drop (n - s₁.fill)) later in
            (
              s₂,
              step
                  ∙ if_false _ _ more
                  ∙ ap
                      (λ (m : Result (List ℕ × InputStream)).
                        m >>= λ (r : List ℕ × InputStream). ok (window s₁ ++ r.0, r.1))
                      rest_made
                  ∙ ap (λ (t : List ℕ). ok (t, s₂)) (sym taken),
              subst (λ (d : List ℕ). IsInput c buffer_blocks s₂ (past ++ take n rest) d)
                  (sym dropped)
                  (subst
                    (λ (p : List ℕ). IsInput c buffer_blocks s₂ p (drop (n - s₁.fill) shows.later))
                    (append_assoc past (window s₁) _ ∙ ap (λ (t : List ℕ). past ++ t) (sym taken))
                    input),
            )
      ]

  pub read-IsInput :
      (size : ℕ) (s : InputStream) (past rest : List ℕ)
      → size ≤ length rest
      → IsInput c buffer_blocks s past rest
      → (s' : InputStream) × (read aes_encrypt aes_decrypt adler32 has_key readable size s
          ≡ ok (take size rest, s'))
        × IsInput c buffer_blocks s' (past ++ take size rest) (drop size rest)
  unfolding read
  read-IsInput size s past rest enough h =
      read_loop-IsInput size size s past rest (omega arith) enough h
