-- ===== src/Backup/Passes.antt =====
-- The two loops that hand the bytes over.
use zbackup.Base.{
  ℕ, zero, suc, ◌+◌, ◌-◌, ◌%◌, ◌≤◌, ◌<◌, ◌≡◌, refl, ap, ◌∙◌, subst, Bool, false, some, List, [],
  ◌∷◌, ◌++◌, append-nil, append_assoc, arith, ◌==◌, if◌then◌else◌, length, take, drop, length-take,
  length-drop, take-append-drop,
}
use zbackup.Base.Bytes.{u64_mod}
use zbackup.ChunkStorage.{Writer}
use zbackup.BackupCreator
use zbackup.BackupCreator.{Creator, BackupInstruction, get_input_buffer_size, new}
use zbackup.BackupCreator.Invariant.{IsCreator}
use zbackup.BackupCreator.Saving.{Preserved}
use zbackup.BackupCreator.Feeding.Input.{handle_more_data-IsCreator, get_input_buffer_size-positive}
use zbackup.Backup.{finished, input_error, to_copy, feed, copy_loop, read_loop}

to_copy_bounds :
    (size left : ℕ)
    → 0 < size
    → 0 < left
    → (0 < to_copy size left) × (to_copy size left ≤ size) × (to_copy size left ≤ left)
to_copy_bounds size left p q = ground arith

module _ (sha1 : List ℕ → List ℕ) (random : ℕ → List ℕ) (limit : ℕ) (P : Writer → Type 0)
    (keep : Preserved sha1 random limit P) where
  feed-IsCreator :
      (done input : List ℕ) (s : Creator) (n : ℕ)
      → IsCreator sha1 random limit P done s
      → n ≤ get_input_buffer_size s
      → n ≤ length input
      → IsCreator sha1 random limit P (done ++ take n input) (feed sha1 random s input n)
  unfolding feed
  feed-IsCreator done input s n v le within =
      let size : length (take n input) ≡ n = rw length-take (omega arith) in
      subst
        (λ (k : ℕ). IsCreator sha1 random limit P (done ++ take n input) (
          BackupCreator.handle_more_data sha1 random
            (BackupCreator.fill_input_buffer s (take n input)) k))
        size
        (handle_more_data-IsCreator sha1 random limit P keep done s (take n input) v (rw size le))

  -- The loop is finite, and the creator has then taken all.
  pub copy_loop-IsCreator :
      (fuel : ℕ) (done input : List ℕ) (s : Creator)
      → length input < fuel
      → IsCreator sha1 random limit P done s
      → (r : Creator) × (copy_loop sha1 random fuel input s ≡ some r)
        × IsCreator sha1 random limit P (done ++ input) r
  unfolding copy_loop
  copy_loop-IsCreator zero done input s lt v = absurd (omega arith)
  copy_loop-IsCreator (suc fuel) done [] s lt v = (s, refl, rw append-nil v)
  copy_loop-IsCreator (suc fuel) done (b ∷ bs) s lt v =
      let n = to_copy (get_input_buffer_size s) (suc (length bs)) in
      let (pos, le, within) =
        to_copy_bounds (get_input_buffer_size s) (suc (length bs))
          (get_input_buffer_size-positive sha1 random limit P keep s v.shaped) (omega arith) in
      let (r, e, c) =
        copy_loop-IsCreator fuel (done ++ take n (b ∷ bs)) (drop n (b ∷ bs))
          (feed sha1 random s (b ∷ bs) n) (rw length-drop (omega arith))
          (feed-IsCreator done (b ∷ bs) s n v le within) in
      (
        r,
        e,
        subst (λ (t : List ℕ). IsCreator sha1 random limit P t r)
            (append_assoc done (take n (b ∷ bs)) (drop n (b ∷ bs))
              ∙ ap (λ (t : List ℕ). done ++ t) (take-append-drop n (b ∷ bs)))
            c,
      )

  -- Reading a file that ends without an error.
  pub read_loop-IsCreator :
      (fuel : ℕ) (done input : List ℕ) (s : Creator) (total : ℕ)
      → length input < fuel
      → total + length input < u64_mod
      → IsCreator sha1 random limit P done s
      → (r : Creator) × (read_loop sha1 random fuel false input s total
          ≡ finished r (total + length input))
        × IsCreator sha1 random limit P (done ++ input) r
  unfolding read_loop
  read_loop-IsCreator zero done input s total lt small v = absurd (omega arith)
  read_loop-IsCreator (suc fuel) done [] s total lt small v =
      (s, ap (finished s) (omega arith), rw append-nil v)
  read_loop-IsCreator (suc fuel) done (b ∷ bs) s total lt small v =
      let n = to_copy (get_input_buffer_size s) (suc (length bs)) in
      let (pos, le, within) =
        to_copy_bounds (get_input_buffer_size s) (suc (length bs))
          (get_input_buffer_size-positive sha1 random limit P keep s v.shaped) (omega arith) in
      let left : length (drop n (b ∷ bs)) ≡ suc (length bs) - n = length-drop n (b ∷ bs) in
      let sum : (total + n) % u64_mod ≡ total + n = omega arith in
      let some_read : (n == 0) ≡ false = ground arith in
      let (r, e, c) =
        read_loop-IsCreator fuel (done ++ take n (b ∷ bs)) (drop n (b ∷ bs))
          (feed sha1 random s (b ∷ bs) n) (total + n) (rw left (omega arith))
          (rw left (omega arith)) (feed-IsCreator done (b ∷ bs) s n v le within) in
      (
        r,
        ap
              (λ (b' : Bool).
                if b'
                then input_error
                else read_loop sha1 random fuel false (drop n (b ∷ bs))
                    (feed sha1 random s (b ∷ bs) n) ((total + n) % u64_mod))
              some_read
            ∙ ap
                (read_loop sha1 random fuel false (drop n (b ∷ bs)) (feed sha1 random s (b ∷ bs) n))
                sum
            ∙ e
            ∙ ap (finished r) (rw left (omega arith)),
        subst (λ (t : List ℕ). IsCreator sha1 random limit P t r)
            (append_assoc done (take n (b ∷ bs)) (drop n (b ∷ bs))
              ∙ ap (λ (t : List ℕ). done ++ t) (take-append-drop n (b ∷ bs)))
            c,
      )
