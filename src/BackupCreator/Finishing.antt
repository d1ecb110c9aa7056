-- ===== src/BackupCreator/Finishing.antt =====
-- `finish` and the moves out of the ring.
pub mod Whole
use zbackup.Base.{
  ℕ, zero, suc, ◌+◌, ◌-◌, ◌*◌, ◌/◌, ◌%◌, ◌^◌, ◌≤◌, ◌<◌, ◌≡◌, refl, sym, ap, ap₂, ◌∙◌, subst, ◌≢◌,
  ◌↔◌, ◌⊎◌, inl, inr, Bool, true, false, not, ◌&&◌, ◌||◌, Option, none, some, List, [], ◌∷◌, ◌++◌,
  map, reverse, append-nil, append_assoc, arith, ltb, leb, ◌==◌, if◌then◌else◌, ltb→lt, lt→ltb,
  ==_iff, Bool-cases, Option-cases, length, get_or, set, take, drop, replicate, All, length-append,
  length-set, length-take, length-drop, length-replicate, take-append-drop, take-append,
  drop-append, All-append, take_at, drop_at, take_all, All-take, All-drop, overwrite,
  length-overwrite, take-overwrite, set-overwrite, lt_wf,
}
use zbackup.Base.Bytes.{
  IsByte, u64_mod, u32_mod, bytes_eq, bytes_eq_iff, bytes_eq_refl, memcmp, to_le, from_le,
  length-to_le, to_le-IsByte, from_le-to_le, to_le-from_le, from_le-lt, add32, sub32, add32_fits,
  sub32_fits,
}
use zbackup.ChunkStorage.{Writer}
use zbackup.BackupCreator.{
  Creator, wrap, slice, copy_from_tail, move_second, move_bytes, move_from_ring_buffer,
}
use zbackup.BackupCreator.Ring.{
  advance, ring_read, advance-lt, advance-add, advance_flat, advance_once, ring_read_flat,
  ring_read_wrapped, ring_read-add, length-ring_read,
}
use zbackup.BackupCreator.Invariant.{window, waiting, IsShaped, HasWritten, IsCreator}

drop-nil : (n : ℕ) → drop {A = ℕ} n [] ≡ []
drop-nil zero = refl
drop-nil (suc n) = refl

drop-drop : (m n : ℕ) (xs : List ℕ) → drop m (drop n xs) ≡ drop (n + m) xs
drop-drop m zero xs = ap (λ (k : ℕ). drop k xs) (omega arith)
drop-drop m (suc n) [] = drop-nil m ∙ sym (drop-nil (suc n + m))
drop-drop m (suc n) (x ∷ xs) = drop-drop m n xs ∙ ap (λ (k : ℕ). drop k (x ∷ xs)) (sym add_suc)
  where
    add_suc : suc n + m ≡ suc (n + m)
    add_suc = omega arith

-- Two writes side by side are one.
overwrite-overwrite :
    (xs : List ℕ) (i : ℕ) (ys zs : List ℕ)
    → i + length ys ≤ length xs
    → overwrite (overwrite xs i ys) (i + length ys) zs ≡ overwrite xs i (ys ++ zs)
unfolding overwrite
overwrite-overwrite xs i ys zs h =
    ap₂ (λ (p q : List ℕ). p ++ (zs ++ q)) (take-overwrite xs i ys h)
      (sym (drop-drop (length zs) (i + length ys) (overwrite xs i ys))
        ∙ ap (drop (length zs)) (
            ap (drop (i + length ys)) (sym (append_assoc (take i xs) ys (drop (i + length ys) xs)))
            ∙ drop_at (i + length ys) (take i xs ++ ys) (drop (i + length ys) xs)
                (rw (length-append, length-take) (omega arith)))
        ∙ drop-drop (length zs) (i + length ys) xs)
    ∙ append_assoc (take i xs) ys _
    ∙ ap (λ (q : List ℕ). take i xs ++ q)
        (sym (append_assoc ys zs _)
          ∙ ap (λ (k : ℕ). (ys ++ zs) ++ drop k xs) (rw length-append (omega arith)))

module _ (limit : ℕ) where
  -- What must hold of the state while it is emptied: unlike in `IsCreator` the buffer may be full, and
  -- the rolling hash is not looked at any more.
  pub record IsEnding (s : Creator) : Type 0 where
    pub max_pos : 0 < s.chunk_max_size
    pub max_small : s.chunk_max_size + s.chunk_max_size < u32_mod
    pub max_limit : s.chunk_max_size ≤ limit
    pub ring_room : s.chunk_max_size < length s.ring_buffer
    pub fill_le : s.ring_buffer_fill ≤ s.chunk_max_size
    pub tail_lt : s.tail < length s.ring_buffer
    pub head_eq : s.head ≡ advance (length s.ring_buffer) s.tail s.ring_buffer_fill
    pub save_length : length s.chunk_to_save ≡ s.chunk_max_size
    pub save_le : s.chunk_to_save_fill ≤ s.chunk_max_size

  -- The state after the first `n` bytes of the window joined those that wait.
  abbrev pub moved : Creator → ℕ → Creator
  moved s n = record s {
    chunk_to_save =
        overwrite s.chunk_to_save s.chunk_to_save_fill (ring_read s.ring_buffer s.tail n);
    tail = advance (length s.ring_buffer) s.tail n;
    chunk_to_save_fill = s.chunk_to_save_fill + n;
    ring_buffer_fill = s.ring_buffer_fill - n;
  }

  module _ (s : Creator) (v : IsEnding s) (n : ℕ) (le : n ≤ s.ring_buffer_fill)
      (room : s.chunk_to_save_fill + n ≤ s.chunk_max_size) where
    abbrev placed : ℕ → List ℕ → Creator
    placed tail bytes = record s {
      chunk_to_save = overwrite s.chunk_to_save s.chunk_to_save_fill bytes;
      tail = wrap (length s.ring_buffer) tail;
      chunk_to_save_fill = add32 s.chunk_to_save_fill n;
      ring_buffer_fill = sub32 s.ring_buffer_fill n;
    }

    placed-moved :
        (tail : ℕ) (bytes : List ℕ)
        → wrap (length s.ring_buffer) tail ≡ advance (length s.ring_buffer) s.tail n
        → bytes ≡ ring_read s.ring_buffer s.tail n
        → placed tail bytes ≡ moved s n
    placed-moved tail bytes e f = λ i. record s {
      chunk_to_save = overwrite s.chunk_to_save s.chunk_to_save_fill (f i);
      tail = e i;
      chunk_to_save_fill = fill i;
      ring_buffer_fill = left i;
    }
      where
        fill : add32 s.chunk_to_save_fill n ≡ s.chunk_to_save_fill + n
        fill = add32_fits _ _ (omega (arith, v.max_small))

        left : sub32 s.ring_buffer_fill n ≡ s.ring_buffer_fill - n
        left = sub32_fits _ _ le (omega (arith, v.max_small, v.fill_le))

    slice_flat :
        (t k : ℕ)
        → t + k ≤ length s.ring_buffer
        → slice s.ring_buffer t (t + k) ≡ ring_read s.ring_buffer t k
    slice_flat t k h =
        ap (λ (m : ℕ). take m (drop t s.ring_buffer)) (omega arith)
        ∙ sym (ring_read_flat s.ring_buffer t k h)

    -- The bytes stand side by side in the ring.
    flat :
        s.tail + n ≤ length s.ring_buffer
        → placed (s.tail + n) (slice s.ring_buffer s.tail (s.tail + n)) ≡ moved s n
    flat h =
        placed-moved (s.tail + n) _ (sym (advance_flat (length s.ring_buffer) s.tail n v.tail_lt h))
          (slice_flat s.tail n h)

    to_end : ℕ
    to_end = length s.ring_buffer - s.tail

    length-first : length (slice s.ring_buffer s.tail (s.tail + to_end)) ≡ to_end
    unfolding to_end
    length-first = rw (length-take, length-drop) (omega (arith, v.tail_lt))

    joined :
        slice s.ring_buffer s.tail (s.tail + to_end) ++ slice s.ring_buffer 0 (n - to_end)
        ≡ take to_end (drop s.tail s.ring_buffer) ++ take (n - to_end) s.ring_buffer
    joined =
        ap₂ (λ (a b : ℕ). take a (drop s.tail s.ring_buffer) ++ take b s.ring_buffer) (omega arith)
          (omega arith)

    -- They go round the ring's end.
    wrapped :
        to_end < n
        → record (placed (n - to_end) []) {
          chunk_to_save =
              overwrite
                (overwrite s.chunk_to_save s.chunk_to_save_fill
                  (slice s.ring_buffer s.tail (s.tail + to_end)))
                (s.chunk_to_save_fill + to_end)
                (slice s.ring_buffer 0 (n - to_end));
        }
          ≡ moved s n
    unfolding to_end
    wrapped more =
        let first = slice s.ring_buffer s.tail (s.tail + to_end) in
        let second = slice s.ring_buffer 0 (n - to_end) in
        let count : n ≡ to_end + (n - to_end) = omega arith in
        let bytes : overwrite (overwrite s.chunk_to_save s.chunk_to_save_fill first)
              (s.chunk_to_save_fill + to_end) second
            ≡ overwrite s.chunk_to_save s.chunk_to_save_fill (first ++ second) =
          ap
            (λ (k : ℕ).
              overwrite (overwrite s.chunk_to_save s.chunk_to_save_fill first)
                (s.chunk_to_save_fill + k) second)
            (sym length-first)
          ∙ overwrite-overwrite s.chunk_to_save s.chunk_to_save_fill first second
              (rw length-first (omega (arith, v.save_length))) in
        (λ i. record (placed (n - to_end) []) { chunk_to_save = bytes i })
        ∙ placed-moved (n - to_end) (first ++ second)
            (ground (
              arith,
              v.ring_room,
              v.fill_le,
              v.tail_lt,
              advance_once (length s.ring_buffer) s.tail n v.tail_lt
                  (omega (arith, v.ring_room, v.fill_le)),
            ))
            (joined
              ∙ sym (
                  ring_read_wrapped s.ring_buffer s.tail to_end (n - to_end) v.tail_lt
                    (omega (arith, v.tail_lt)) (omega (arith, v.ring_room, v.fill_le)))
              ∙ ap (ring_read s.ring_buffer s.tail) (sym count))

    pub move_from_ring_buffer-moved : move_from_ring_buffer s n ≡ moved s n
    unfolding move_from_ring_buffer move_bytes copy_from_tail move_second to_end
    move_from_ring_buffer-moved =
        let lt = v.tail_lt in
        let end_ =
          v.head_eq
          ∙ advance_once (length s.ring_buffer) s.tail s.ring_buffer_fill lt
              (omega (arith, v.ring_room, v.fill_le)) in
        let fill_lt : s.ring_buffer_fill < length s.ring_buffer =
          omega (arith, v.ring_room, v.fill_le) in
        elim (Bool-cases (ltb s.tail s.head)) [
          | inl before ↦ rw before (flat (ground arith))
          | inr after ↦ elim (Bool-cases (ltb (length s.ring_buffer - s.tail) n)) [
            | inl round ↦
                let pos : ltb 0 (n - (length s.ring_buffer - s.tail)) ≡ true = ground arith in
                rw (after, round, pos) (wrapped (ltb→lt _ _ round))
            | inr short ↦
                let none_left : ltb 0 (n - n) ≡ false = ground arith in
                rw (after, short, none_left) (flat (ground arith))
          ]
        ]
