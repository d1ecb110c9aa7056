-- ===== src/BackupCreator/Feeding/Input.antt =====
-- What the client may put into the ring: `getInputBufferSize` and `handleMoreData` together.
use zbackup.Base.{
  ℕ, zero, suc, ◌+◌, ◌-◌, ◌≤◌, ◌<◌, ◌≡◌, refl, sym, ap, ap₂, ◌∙◌, subst, ◌⊎◌, inl, inr, ◌&&◌, List,
  [], ◌∷◌, ◌++◌, arith, ltb, ◌==◌, if◌then◌else◌, Bool-cases, length, get_or, take, drop,
  length-take, take-append, drop_at, overwrite, length-overwrite,
}
use zbackup.Base.Reads.{get_or-overwrite}
use zbackup.RollingHash.Polynomial.{IsHashOf}
use zbackup.ChunkStorage.{Writer}
use zbackup.BackupCreator.{Creator, get_input_buffer_size, fill_input_buffer, handle_more_data}
use zbackup.BackupCreator.Ring.{next, advance, ring_read, advance_once, ring_read_flat}
use zbackup.BackupCreator.Invariant.{window, waiting, IsShaped, IsCreator}
use zbackup.BackupCreator.Saving.{Preserved}
use zbackup.BackupCreator.Feeding.{head-lt}
use zbackup.BackupCreator.Feeding.Rounds.{handle_loop-IsCreator}

-- The ring is read the same where it is the same.
ring_read-same :
    (ring ring' : List ℕ) (t n : ℕ)
    → length ring' ≡ length ring
    → ((i : ℕ)
        → i < n
        → get_or ring' (advance (length ring) t i) 0 ≡ get_or ring (advance (length ring) t i) 0)
    → ring_read ring' t n ≡ ring_read ring t n
unfolding ring_read advance
ring_read-same ring ring' t zero len h = refl
ring_read-same ring ring' t (suc n) len h =
    ap₂ (λ (x : ℕ) (xs : List ℕ). x ∷ xs) (h 0 (omega arith))
      (ap (λ (l : ℕ). ring_read ring' (next l t) n) len
        ∙ ring_read-same ring ring' (next (length ring) t) n len (λ i lt. h (suc i) (omega arith)))

apart_nat :
    (len tail head fill n i place : ℕ)
    → fill < len
    → tail < len
    → i < fill
    → head ≡ (if ltb (tail + fill) len then tail + fill else tail + fill - len)
    → place ≡ (if ltb (tail + i) len then tail + i else tail + i - len)
    → n ≤ (
        if ltb head tail then tail - head else if tail == head && ltb 0 fill then 0 else len - head)
    → (place < head) ⊎ (head + n ≤ place)
apart_nat len tail head fill n i place f t l h p le = ground arith

positive_nat :
    (len tail head fill : ℕ)
    → fill < len
    → tail < len
    → head ≡ (if ltb (tail + fill) len then tail + fill else tail + fill - len)
    → 0 < (
        if ltb head tail then tail - head else if tail == head && ltb 0 fill then 0 else len - head)
positive_nat len tail head fill f t h = ground arith

module _ (sha1 : List ℕ → List ℕ) (random : ℕ → List ℕ) (limit : ℕ) (P : Writer → Type 0)
    (keep : Preserved sha1 random limit P) where
  -- The space that is offered does not pass the ring's end.
  fits : (s : Creator) → IsShaped limit s → s.head + get_input_buffer_size s ≤ length s.ring_buffer
  unfolding get_input_buffer_size
  fits s v =
      let lt = head-lt sha1 random limit (λ w. P w) [] s v in
      let below = v.tail_lt in
      elim (Bool-cases (ltb s.head s.tail)) [
        | inl before ↦ rw before (ground arith)
        | inr after ↦ elim (Bool-cases (s.tail == s.head && ltb 0 s.ring_buffer_fill)) [
          | inl full ↦ rw (after, full) (omega arith)
          | inr other ↦ rw (after, other) (omega arith)
        ]
      ]

  -- The places of the window and the offered space are apart.
  apart :
      (s : Creator) (n : ℕ)
      → IsShaped limit s
      → n ≤ get_input_buffer_size s
      → (i : ℕ) → i < s.ring_buffer_fill
      → (advance (length s.ring_buffer) s.tail i < s.head)
        ⊎ (s.head + n ≤ advance (length s.ring_buffer) s.tail i)
  unfolding get_input_buffer_size
  apart s n v le i lt =
      apart_nat (length s.ring_buffer) s.tail s.head s.ring_buffer_fill n i _
        (omega (arith, v.ring_room, v.fill_le)) v.tail_lt lt
        (v.head_eq
          ∙ advance_once (length s.ring_buffer) s.tail s.ring_buffer_fill v.tail_lt
              (omega (arith, v.ring_room, v.fill_le)))
        (advance_once (length s.ring_buffer) s.tail i v.tail_lt
          (omega (arith, v.ring_room, v.fill_le)))
        le

  window-fill_input_buffer :
      (s : Creator) (bytes : List ℕ)
      → IsShaped limit s
      → length bytes ≤ get_input_buffer_size s
      → ring_read (overwrite s.ring_buffer s.head bytes) s.tail s.ring_buffer_fill ≡ window s
  window-fill_input_buffer s bytes v le =
      let inside : s.head + length bytes ≤ length s.ring_buffer = omega (arith, fits s v) in
      ring_read-same s.ring_buffer (overwrite s.ring_buffer s.head bytes) s.tail s.ring_buffer_fill
        (length-overwrite s.ring_buffer s.head bytes inside)
        (λ i lt.
          get_or-overwrite s.ring_buffer s.head bytes _ inside (apart s (length bytes) v le i lt))

  fill_input_buffer-IsCreator :
      (input : List ℕ) (s : Creator) (bytes : List ℕ)
      → IsCreator sha1 random limit P input s
      → length bytes ≤ get_input_buffer_size s
      → IsCreator sha1 random limit P input (fill_input_buffer s bytes)
  unfolding fill_input_buffer
  fill_input_buffer-IsCreator input s bytes v le =
      let sh = v.shaped in
      let inside : s.head + length bytes ≤ length s.ring_buffer = omega (arith, fits s sh) in
      let len = length-overwrite s.ring_buffer s.head bytes inside in
      let same = window-fill_input_buffer s bytes sh le in
      let h = v.written in
      record {
        shaped = record {
          max_pos = sh.max_pos;
          max_small = sh.max_small;
          max_limit = sh.max_limit;
          ring_room = rw len sh.ring_room;
          fill_le = sh.fill_le;
          tail_lt = rw len sh.tail_lt;
          head_eq = sh.head_eq ∙ ap (λ (l : ℕ). advance l s.tail s.ring_buffer_fill) (sym len);
          save_length = sh.save_length;
          save_lt = sh.save_lt;
        };
        hashed = subst (λ (t : List ℕ). IsHashOf t s.rolling_hash) (sym same) v.hashed;
        done = v.done;
        written = record {
          pieces = h.pieces;
          denotes = h.denotes;
          whole = h.whole;
          sizes = h.sizes;
          holds = h.holds;
          running = h.running;
        };
        taken = ap (λ (t : List ℕ). v.done ++ (waiting s ++ t)) same ∙ v.taken;
      }

  -- The bytes that were put at `head` are what is read from it.
  ring_read-fill_input_buffer :
      (s : Creator) (bytes : List ℕ)
      → IsShaped limit s
      → length bytes ≤ get_input_buffer_size s
      → ring_read (overwrite s.ring_buffer s.head bytes) s.head (length bytes) ≡ bytes
  ring_read-fill_input_buffer s bytes v le =
      let inside : s.head + length bytes ≤ length s.ring_buffer = omega (arith, fits s v) in
      ring_read_flat (overwrite s.ring_buffer s.head bytes) s.head (length bytes)
        (rw (length-overwrite s.ring_buffer s.head bytes inside) inside)
      ∙ (unfold overwrite in
          rw
            (drop_at s.head (take s.head s.ring_buffer)
              (bytes ++ drop (s.head + length bytes) s.ring_buffer) (rw length-take (omega arith)))
            (take-append bytes (drop (s.head + length bytes) s.ring_buffer)))

  -- Bytes that the client puts into the input buffer, no more of them than it is told to, and hands over
  -- with `handleMoreData` are taken in whole: before and after, what the creator has taken is
  -- what its instructions stand for, followed by what waits to be saved and by the window.
  pub handle_more_data-IsCreator :
      (input : List ℕ) (s : Creator) (bytes : List ℕ)
      → IsCreator sha1 random limit P input s
      → length bytes ≤ get_input_buffer_size s
      → IsCreator sha1 random limit P
          (input ++ bytes)
          (handle_more_data sha1 random (fill_input_buffer s bytes) (length bytes))
  unfolding handle_more_data fill_input_buffer
  handle_more_data-IsCreator input s bytes v le =
      let inside : s.head + length bytes ≤ length s.ring_buffer = omega (arith, fits s v.shaped) in
      subst
        (λ (t : List ℕ).
          IsCreator sha1 random limit P (input ++ t)
            (handle_more_data sha1 random (fill_input_buffer s bytes) (length bytes)))
        (ring_read-fill_input_buffer s bytes v.shaped le)
        (handle_loop-IsCreator sha1 random limit P keep (length bytes) (length bytes) input
          (fill_input_buffer s bytes) (omega arith) (fill_input_buffer-IsCreator input s bytes v le)
          (rw (length-overwrite s.ring_buffer s.head bytes inside) inside))

  -- There is always room in the input buffer, so that a client that waits for room never waits.
  pub get_input_buffer_size-positive :
      (s : Creator) → IsShaped limit s → 0 < get_input_buffer_size s
  unfolding get_input_buffer_size
  get_input_buffer_size-positive s v =
      positive_nat (length s.ring_buffer) s.tail s.head s.ring_buffer_fill
        (omega (arith, v.ring_room, v.fill_le)) v.tail_lt
        (v.head_eq
          ∙ advance_once (length s.ring_buffer) s.tail s.ring_buffer_fill v.tail_lt
              (omega (arith, v.ring_room, v.fill_le)))
