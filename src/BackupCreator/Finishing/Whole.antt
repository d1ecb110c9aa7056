-- ===== src/BackupCreator/Finishing/Whole.antt =====
-- From the constructor to `finish`: the whole input is in the instructions.
use zbackup.Base.{
  ℕ, ◌+◌, ◌-◌, ◌≤◌, ◌<◌, ◌≡◌, refl, sym, ap, ap₂, ◌∙◌, subst, inl, inr, Bool, true, false, List, [],
  ◌++◌, append-nil, append_assoc, arith, ltb, leb, if◌then◌else◌, ltb→lt, Bool-cases, length, take,
  length-replicate, length-overwrite, take-overwrite,
}
use zbackup.Base.Bytes.{u32_mod, add32_fits, sub32_fits}
use mathlib.Core.List.{flatten}
use zbackup.RollingHash.Polynomial.{reset-IsHashOf}
use zbackup.ChunkStorage.{Writer}
use zbackup.BackupCreator.{
  Creator, new, save_chunk_to_save, move_from_ring_buffer, save_first_part, save_rest, finish,
  check, get_backup_data,
}
use zbackup.BackupCreator.Ring.{
  advance, ring_read, advance-lt, advance-add, ring_read-add, length-ring_read,
}
use zbackup.BackupCreator.Invariant.{window, waiting, HasWritten, IsCreator}
use zbackup.BackupCreator.Saving.{Preserved}
use zbackup.BackupCreator.Written.{IsFlushed, save-IsFlushed, flush-IsFlushed}
use zbackup.BackupCreator.Finishing.{IsEnding, moved, move_from_ring_buffer-moved}

-- The data that is handed over is what was serialized.
pub get_backup_data-handed : (r : Creator) → (get_backup_data r).0 ≡ r.backup_data
unfolding get_backup_data check
get_backup_data-handed r = elim (Bool-cases r.stream_open) [ inl e ↦ rw e refl | inr e ↦ rw e refl ]

module _ (sha1 : List ℕ → List ℕ) (random : ℕ → List ℕ) (limit : ℕ) (P : Writer → Type 0)
    (keep : Preserved sha1 random limit P) where
  -- A creator for chunks of up to `max_size` bytes has taken nothing, and has nothing to write.
  pub new-IsCreator :
      (page_size max_size : ℕ) (w : Writer)
      → 0 < page_size
      → 0 < max_size
      → max_size + max_size < u32_mod
      → max_size ≤ limit
      → P w
      → IsCreator sha1 random limit P [] (new page_size max_size w)
  unfolding new advance ring_read flatten
  new-IsCreator page_size max_size w page pos small le p = record {
    shaped = record {
      max_pos = pos;
      max_small = small;
      max_limit = le;
      ring_room = rw length-replicate (omega arith);
      fill_le = omega arith;
      tail_lt = rw length-replicate (omega arith);
      head_eq = refl;
      save_length = length-replicate max_size 0;
      save_lt = pos;
    };
    hashed = reset-IsHashOf;
    done = [];
    written = record {
      pieces = [];
      denotes = tt;
      whole = refl;
      sizes = tt;
      holds = p;
      running = refl;
    };
    taken = refl;
  }

  module _ (input : List ℕ) where
    -- The part of the invariant that lasts through `finish`.
    record IsLeft (s : Creator) : Type 0 where
      ending : IsEnding limit s
      done : List ℕ
      written : HasWritten sha1 random limit P s done
      taken : done ++ (waiting s ++ window s) ≡ input

    IsCreator-IsLeft : (s : Creator) → IsCreator sha1 random limit P input s → IsLeft s
    IsCreator-IsLeft s v =
        let sh = v.shaped in
        record {
          ending = record {
            max_pos = sh.max_pos;
            max_small = sh.max_small;
            max_limit = sh.max_limit;
            ring_room = sh.ring_room;
            fill_le = sh.fill_le;
            tail_lt = sh.tail_lt;
            head_eq = sh.head_eq;
            save_length = sh.save_length;
            save_le = omega (arith, sh.save_lt);
          };
          done = v.done;
          written = v.written;
          taken = v.taken;
        }

    moved-IsLeft :
        (s : Creator) (n : ℕ)
        → IsLeft s
        → n ≤ s.ring_buffer_fill
        → s.chunk_to_save_fill + n ≤ s.chunk_max_size
        → IsLeft (moved limit s n)
    moved-IsLeft s n v le room =
        let e = v.ending in
        let h = v.written in
        let bytes = ring_read s.ring_buffer s.tail n in
        let size : length bytes ≡ n = length-ring_read s.ring_buffer s.tail n in
        let parts : s.ring_buffer_fill ≡ n + (s.ring_buffer_fill - n) = omega arith in
        let inside : s.chunk_to_save_fill + length bytes ≤ length s.chunk_to_save =
          omega (arith, size, e.save_length) in
        record {
          ending = record {
            max_pos = e.max_pos;
            max_small = e.max_small;
            max_limit = e.max_limit;
            ring_room = e.ring_room;
            fill_le = omega (arith, e.fill_le);
            tail_lt = advance-lt (length s.ring_buffer) s.tail n e.tail_lt;
            head_eq =
                e.head_eq
                ∙ ap (advance (length s.ring_buffer) s.tail) parts
                ∙ advance-add (length s.ring_buffer) s.tail n (s.ring_buffer_fill - n);
            save_length =
                length-overwrite s.chunk_to_save s.chunk_to_save_fill bytes inside ∙ e.save_length;
            save_le = room;
          };
          done = v.done;
          written = record {
            pieces = h.pieces;
            denotes = h.denotes;
            whole = h.whole;
            sizes = h.sizes;
            holds = h.holds;
            running = h.running;
          };
          taken =
              ap (λ (t : List ℕ). v.done ++ t)
                (ap
                    (λ (t : List ℕ).
                      t
                      ++ ring_read s.ring_buffer (advance (length s.ring_buffer) s.tail n)
                          (s.ring_buffer_fill - n))
                    (ap (λ (k : ℕ). take (s.chunk_to_save_fill + k) (moved limit s n).chunk_to_save)
                        (sym size)
                      ∙ take-overwrite s.chunk_to_save s.chunk_to_save_fill bytes inside)
                  ∙ append_assoc (waiting s) bytes _
                  ∙ ap (λ (t : List ℕ). waiting s ++ t)
                      (sym (ring_read-add s.ring_buffer s.tail n (s.ring_buffer_fill - n))
                        ∙ ap (ring_read s.ring_buffer s.tail) (sym parts)))
              ∙ v.taken;
        }

    -- The waiting bytes are written, and the window is as before.
    flushed-IsLeft :
        (s r : Creator)
        → (v : IsLeft s) → IsFlushed sha1 random limit P keep s r v.done
        → IsLeft r
          × (r.chunk_to_save_fill ≡ 0)
          × (r.ring_buffer_fill ≡ s.ring_buffer_fill)
          × (r.chunk_max_size ≡ s.chunk_max_size)
    flushed-IsLeft s r v f =
        let e = v.ending in
        let after : Creator = record s {
          writer = f.writer;
          backup_data = f.instrs;
          chunk_to_save_fill = 0;
        } in
        let left : IsLeft after = record {
          ending = record {
            max_pos = e.max_pos;
            max_small = e.max_small;
            max_limit = e.max_limit;
            ring_room = e.ring_room;
            fill_le = e.fill_le;
            tail_lt = e.tail_lt;
            head_eq = e.head_eq;
            save_length = e.save_length;
            save_le = omega arith;
          };
          done = v.done ++ waiting s;
          written =
              subst (λ (x : Creator). HasWritten sha1 random limit P x (v.done ++ waiting s))
                f.result f.written;
          taken = append_assoc v.done (waiting s) (window s) ∙ v.taken;
        } in
        (
          subst IsLeft (sym f.result) left,
          ap (λ (x : Creator). x.chunk_to_save_fill) f.result,
          ap (λ (x : Creator). x.ring_buffer_fill) f.result,
          ap (λ (x : Creator). x.chunk_max_size) f.result,
        )

    sum_fits : (s : Creator) → IsLeft s → s.chunk_to_save_fill + s.ring_buffer_fill < u32_mod
    sum_fits s v = omega (arith, v.ending.save_le, v.ending.fill_le, v.ending.max_small)

    abbrev IsLeftOne : Creator → Type 0
    IsLeftOne r = IsLeft r × (r.chunk_to_save_fill + r.ring_buffer_fill ≤ r.chunk_max_size)

    -- Both parts fit into one chunk, or the first one is saved.
    choose : Bool → Creator → ℕ → Creator
    choose b s n = if b then save_chunk_to_save sha1 random (move_from_ring_buffer s n) else s

    save_first_part-choose :
        (s : Creator)
        → IsLeft s
        → save_first_part sha1 random s
          ≡ choose
              (ltb s.chunk_max_size (s.chunk_to_save_fill + s.ring_buffer_fill))
              s
              (s.chunk_max_size - s.chunk_to_save_fill)
    unfolding save_first_part choose
    save_first_part-choose s v =
        ap₂ (λ (k n : ℕ). choose (ltb s.chunk_max_size k) s n)
          (add32_fits s.chunk_to_save_fill s.ring_buffer_fill (sum_fits s v))
          (sub32_fits s.chunk_max_size s.chunk_to_save_fill v.ending.save_le
            (omega (arith, v.ending.max_small)))

    save_first-IsLeft :
        (s : Creator) (n : ℕ)
        → IsLeft s
        → n ≤ s.ring_buffer_fill
        → s.chunk_to_save_fill + n ≡ s.chunk_max_size
        → IsLeftOne (save_chunk_to_save sha1 random (moved limit s n))
    save_first-IsLeft s n v le full =
        let e = v.ending in
        let m = moved-IsLeft s n v le (omega arith) in
        let (left, none_waits, fill, max_size) = flushed-IsLeft (moved limit s n) _ m (
          save-IsFlushed sha1 random limit P keep (moved limit s n) m.done
            (omega (arith, e.max_pos, full)) (omega (arith, m.ending.save_length, m.ending.save_le))
            (omega (arith, e.max_limit, full)) m.written) in
        (left, omega (arith, none_waits, fill, max_size, e.fill_le))

    choose-IsLeft :
        (s : Creator) (b : Bool)
        → ltb s.chunk_max_size (s.chunk_to_save_fill + s.ring_buffer_fill) ≡ b
        → IsLeft s
        → IsLeftOne (choose b s (s.chunk_max_size - s.chunk_to_save_fill))
    unfolding choose
    choose-IsLeft s true much v =
        let n = s.chunk_max_size - s.chunk_to_save_fill in
        let lt = ltb→lt _ _ much in
        let e = v.ending in
        let le : n ≤ s.ring_buffer_fill = omega arith in
        let full : s.chunk_to_save_fill + n ≡ s.chunk_max_size = omega (arith, e.save_le) in
        subst (λ (r : Creator). IsLeftOne (save_chunk_to_save sha1 random r))
          (sym (move_from_ring_buffer-moved limit s e n le (omega arith)))
          (save_first-IsLeft s n v le full)
    choose-IsLeft s false little v = (v, ground arith)

    save_first_part-IsLeft : (s : Creator) → IsLeft s → IsLeftOne (save_first_part sha1 random s)
    save_first_part-IsLeft s v =
        subst IsLeftOne (sym (save_first_part-choose s v)) (choose-IsLeft s _ refl v)

    all_waits :
        (s : Creator) (m : IsLeft (moved limit s s.ring_buffer_fill))
        → m.done ++ waiting (moved limit s s.ring_buffer_fill) ≡ input
    unfolding ring_read
    all_waits s m =
        ap (λ (t : List ℕ). m.done ++ t)
          (sym (append-nil _)
            ∙ ap (λ (t : List ℕ). waiting (moved limit s s.ring_buffer_fill) ++ t)
                (ap
                  (ring_read s.ring_buffer
                    (advance (length s.ring_buffer) s.tail s.ring_buffer_fill))
                  none_left))
        ∙ m.taken
      where
        none_left : 0 ≡ s.ring_buffer_fill - s.ring_buffer_fill
        none_left = omega arith

    -- `if ( chunkToSaveFill ) saveChunkToSave()`
    save_left : Creator → Creator
    save_left m = if ltb 0 m.chunk_to_save_fill then save_chunk_to_save sha1 random m else m

    save_rest-save_left :
        (s : Creator)
        → IsLeft s
        → s.chunk_to_save_fill + s.ring_buffer_fill ≤ s.chunk_max_size
        → save_rest sha1 random s ≡ save_left (move_from_ring_buffer s s.ring_buffer_fill)
    unfolding save_rest save_left
    save_rest-save_left s v le =
        ap
          (λ (b : Bool). save_left (move_from_ring_buffer (check b s) (check b s).ring_buffer_fill))
          (ap (λ (k : ℕ). leb k s.chunk_max_size)
              (add32_fits s.chunk_to_save_fill s.ring_buffer_fill (sum_fits s v))
            ∙ fits)
        ∙ (unfold check in refl)
      where
        fits : leb (s.chunk_to_save_fill + s.ring_buffer_fill) s.chunk_max_size ≡ true
        fits = ground arith

    save_rest-HasWritten :
        (s : Creator)
        → IsLeft s
        → s.chunk_to_save_fill + s.ring_buffer_fill ≤ s.chunk_max_size
        → HasWritten sha1 random limit P (save_rest sha1 random s) input
    unfolding save_left
    save_rest-HasWritten s v le =
        let m = moved-IsLeft s s.ring_buffer_fill v (omega arith) le in
        let f =
          flush-IsFlushed sha1 random limit P keep (moved limit s s.ring_buffer_fill) m.done
            (omega (arith, m.ending.save_length, m.ending.save_le))
            (omega (arith, v.ending.max_limit, le)) m.written in
        subst (λ (r : Creator). HasWritten sha1 random limit P r input)
          (sym (
            save_rest-save_left s v le
            ∙ ap save_left
                (move_from_ring_buffer-moved limit s v.ending s.ring_buffer_fill (omega arith) le)))
          (subst (HasWritten sha1 random limit P _) (all_waits s m) f.written)

    -- After `finish` the instructions stand for the whole input that was handed over: each is a piece of
    -- it, not empty and no longer than a chunk may be, given as its bytes or as the id of a chunk
    -- that the index knows, and one after the other they are the input. No CHECK failed on the way.
    pub finish-HasWritten :
        (s : Creator)
        → IsCreator sha1 random limit P input s
        → HasWritten sha1 random limit P (finish sha1 random s) input
    unfolding finish
    finish-HasWritten s v =
        let (left, le) = save_first_part-IsLeft s (IsCreator-IsLeft s v) in
        save_rest-HasWritten (save_first_part sha1 random s) left le
