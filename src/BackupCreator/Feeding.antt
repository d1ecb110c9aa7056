-- ===== src/BackupCreator/Feeding.antt =====
-- Bytes that come into the window, and bytes that go through it.
pub mod Rounds
pub mod Input
use zbackup.Base.{
  ℕ, zero, suc, ◌+◌, ◌-◌, ◌*◌, ◌/◌, ◌%◌, ◌^◌, ◌≤◌, ◌<◌, ◌≡◌, refl, sym, ap, ap₂, ◌∙◌, subst, ◌≢◌,
  ◌↔◌, ◌⊎◌, inl, inr, Bool, true, false, not, ◌&&◌, ◌||◌, Option, none, some, List, [], ◌∷◌, ◌++◌,
  map, reverse, append-nil, append_assoc, arith, ltb, leb, ◌==◌, if◌then◌else◌, ltb→lt, lt→ltb,
  ==_iff, Bool-cases, Option-cases, length, get_or, set, take, drop, replicate, All, length-append,
  length-set, length-take, length-drop, length-replicate, take-append-drop, take-append,
  drop-append, All-append, take_at, drop_at, take_all, All-take, All-drop, overwrite,
  length-overwrite, take-overwrite, set-overwrite, lt_wf,
}
use zbackup.Base.Bytes.{
  IsByte, u64_mod, u32_mod, bytes_eq, bytes_eq_iff, bytes_eq_refl, memcmp, to_le, from_le,
  length-to_le, to_le-IsByte, from_le-to_le, to_le-from_le, from_le-lt, add32, sub32, add32_fits,
  sub32_fits,
}
use zbackup.RollingHash
use zbackup.RollingHash.{RollingHash, roll_in_all}
use zbackup.RollingHash.Polynomial.{IsHashOf, roll_in_all-IsHashOf}
use zbackup.RollingHash.Window.{rotate-IsHashOf}
use zbackup.ChunkStorage.{Writer}
use zbackup.BackupCreator.{BackupInstruction, Creator, wrap, store_byte, rotate_ring}
use zbackup.BackupCreator.Ring.{
  next, advance, ring_read, advance-add, advance-lt, advance_flat, ring_read-add, ring_read_flat,
  next-lt, length-ring_read,
}
use zbackup.BackupCreator.Invariant.{window, waiting, IsShaped, HasWritten, IsCreator}

module _ (sha1 : List ℕ → List ℕ) (random : ℕ → List ℕ) (limit : ℕ) (P : Writer → Type 0)
    (input : List ℕ) where
  -- `n` bytes behind `head` enter the window.
  abbrev pub extend : Creator → ℕ → Creator
  extend s n = record s {
    ring_buffer_fill = s.ring_buffer_fill + n;
    rolling_hash = roll_in_all s.rolling_hash (take n (drop s.head s.ring_buffer));
    head = wrap (length s.ring_buffer) (s.head + n);
  }

  pub head-lt : (s : Creator) → IsShaped limit s → s.head < length s.ring_buffer
  head-lt s v = rw v.head_eq (advance-lt (length s.ring_buffer) s.tail s.ring_buffer_fill v.tail_lt)

  window-extend :
      (s : Creator) (n : ℕ)
      → IsShaped limit s
      → ring_read s.ring_buffer s.tail (s.ring_buffer_fill + n)
        ≡ window s ++ ring_read s.ring_buffer s.head n
  window-extend s n v =
      ring_read-add s.ring_buffer s.tail s.ring_buffer_fill n
      ∙ ap (λ (t : ℕ). window s ++ ring_read s.ring_buffer t n) (sym v.head_eq)

  regroup :
      (done wait win more : List ℕ)
      → done ++ (wait ++ win) ≡ input
      → done ++ (wait ++ (win ++ more)) ≡ input ++ more
  regroup d w x m e =
      ap (λ (t : List ℕ). d ++ t) (sym (append_assoc w x m))
      ∙ sym (append_assoc d (w ++ x) m)
      ∙ ap (λ (t : List ℕ). t ++ m) e

  pub extend-IsCreator :
      (s : Creator) (n : ℕ)
      → IsCreator sha1 random limit P input s
      → s.ring_buffer_fill + n ≤ s.chunk_max_size
      → s.head + n ≤ length s.ring_buffer
      → IsCreator sha1 random limit P (input ++ ring_read s.ring_buffer s.head n) (extend s n)
  extend-IsCreator s n v room fits =
      let sh = v.shaped in
      let w = v.written in
      record {
        shaped = record {
          max_pos = sh.max_pos;
          max_small = sh.max_small;
          max_limit = sh.max_limit;
          ring_room = sh.ring_room;
          fill_le = room;
          tail_lt = sh.tail_lt;
          head_eq =
              sym (advance_flat (length s.ring_buffer) s.head n (head-lt s sh) fits)
              ∙ ap (λ (t : ℕ). advance (length s.ring_buffer) t n) sh.head_eq
              ∙ sym (advance-add (length s.ring_buffer) s.tail s.ring_buffer_fill n);
          save_length = sh.save_length;
          save_lt = sh.save_lt;
        };
        hashed =
            subst (λ (t : List ℕ). IsHashOf t (extend s n).rolling_hash)
              (ap (λ (t : List ℕ). window s ++ t) (sym (ring_read_flat s.ring_buffer s.head n fits))
                ∙ sym (window-extend s n sh))
              (roll_in_all-IsHashOf (window s) (take n (drop s.head s.ring_buffer)) s.rolling_hash
                v.hashed);
        done = v.done;
        written = record {
          pieces = w.pieces;
          denotes = w.denotes;
          whole = w.whole;
          sizes = w.sizes;
          holds = w.holds;
          running = w.running;
        };
        taken =
            ap (λ (t : List ℕ). v.done ++ (waiting s ++ t)) (window-extend s n sh)
            ∙ regroup v.done (waiting s) (window s) (ring_read s.ring_buffer s.head n) v.taken;
      }

  -- A state whose first window byte went to the waiting bytes, which may have been written since.
  module _ (s : Creator) (v : IsCreator sha1 random limit P input s) (m : ℕ)
      (full : s.ring_buffer_fill ≡ suc m) (w : Writer) (instrs : List BackupInstruction)
      (buffer : List ℕ) (fill : ℕ) where
    abbrev pub stored_byte : Creator
    stored_byte = record s {
      writer = w;
      backup_data = instrs;
      chunk_to_save = buffer;
      chunk_to_save_fill = fill;
    }

    abbrev first_byte : ℕ
    first_byte = get_or s.ring_buffer s.tail 0

    abbrev next_byte : ℕ
    next_byte = get_or s.ring_buffer s.head 0

    abbrev rest : List ℕ
    rest = ring_read s.ring_buffer (next (length s.ring_buffer) s.tail) m

    window_parts : window s ≡ first_byte ∷ rest
    window_parts = ap (ring_read s.ring_buffer s.tail) full ∙ (unfold ring_read in refl)

    head_next : s.head ≡ advance (length s.ring_buffer) (next (length s.ring_buffer) s.tail) m
    head_next =
        v.shaped.head_eq
        ∙ ap (advance (length s.ring_buffer) s.tail) full
        ∙ (unfold advance in refl)

    one_more : s.ring_buffer_fill ≡ m + 1
    one_more = omega (arith, full)

    next-head :
        next
          (length s.ring_buffer)
          (advance (length s.ring_buffer) (next (length s.ring_buffer) s.tail) m)
        ≡ advance (length s.ring_buffer) (next (length s.ring_buffer) s.tail) s.ring_buffer_fill
    unfolding advance
    next-head =
        sym (advance-add (length s.ring_buffer) (next (length s.ring_buffer) s.tail) m 1)
        ∙ ap (advance (length s.ring_buffer) (next (length s.ring_buffer) s.tail)) (sym one_more)

    new_window :
        ring_read s.ring_buffer (next (length s.ring_buffer) s.tail) s.ring_buffer_fill
        ≡ rest ++ (next_byte ∷ [])
    new_window =
        ap (ring_read s.ring_buffer (next (length s.ring_buffer) s.tail)) one_more
        ∙ ring_read-add s.ring_buffer (next (length s.ring_buffer) s.tail) m 1
        ∙ ap (λ (t : ℕ). rest ++ ring_read s.ring_buffer t 1) (sym head_next)
        ∙ (unfold ring_read in refl)

    shift :
        (done wait xs more : List ℕ) (b : ℕ)
        → (done ++ (wait ++ (b ∷ []))) ++ (xs ++ more) ≡ (done ++ (wait ++ (b ∷ xs))) ++ more
    shift d u xs more b = simp append_assoc refl

    pub rotate_ring-IsCreator :
        (done : List ℕ)
        → HasWritten sha1 random limit P stored_byte done
        → length buffer ≡ s.chunk_max_size
        → fill < s.chunk_max_size
        → done ++ take fill buffer ≡ v.done ++ (waiting s ++ (first_byte ∷ []))
        → IsCreator sha1 random limit P (input ++ (next_byte ∷ [])) (rotate_ring stored_byte)
    unfolding rotate_ring
    rotate_ring-IsCreator done h len lt whole =
        let sh = v.shaped in
        record {
          shaped = record {
            max_pos = sh.max_pos;
            max_small = sh.max_small;
            max_limit = sh.max_limit;
            ring_room = sh.ring_room;
            fill_le = sh.fill_le;
            tail_lt = unfold next in next-lt (length s.ring_buffer) s.tail sh.tail_lt;
            head_eq =
                (unfold next in
                  ap (λ (t : ℕ). next (length s.ring_buffer) t) head_next ∙ next-head);
            save_length = len;
            save_lt = lt;
          };
          hashed =
              (unfold next in
                subst
                  (λ (t : List ℕ).
                    IsHashOf t (RollingHash.rotate s.rolling_hash next_byte first_byte))
                  (sym new_window)
                  (rotate-IsHashOf rest next_byte first_byte s.rolling_hash
                    (subst (λ (t : List ℕ). IsHashOf t s.rolling_hash) window_parts v.hashed)));
          done = done;
          written = record {
            pieces = h.pieces;
            denotes = h.denotes;
            whole = h.whole;
            sizes = h.sizes;
            holds = h.holds;
            running = h.running;
          };
          taken =
              (unfold next in
                ap (λ (t : List ℕ). done ++ (take fill buffer ++ t)) new_window
                ∙ sym (append_assoc done (take fill buffer) (rest ++ (next_byte ∷ [])))
                ∙ ap (λ (t : List ℕ). t ++ (rest ++ (next_byte ∷ []))) whole
                ∙ shift v.done (waiting s) rest (next_byte ∷ []) first_byte
                ∙ ap (λ (t : List ℕ). (v.done ++ (waiting s ++ t)) ++ (next_byte ∷ []))
                    (sym window_parts)
                ∙ ap (λ (t : List ℕ). t ++ (next_byte ∷ [])) v.taken);
        }
