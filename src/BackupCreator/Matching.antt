-- ===== src/BackupCreator/Matching.antt =====
-- `addChunkIfMatched`.
use zbackup.Base.{
  ℕ, ◌<◌, ◌≡◌, refl, sym, ap, ◌∙◌, subst, inl, inr, Bool, true, false, Option, none, some, List, [],
  ◌∷◌, ◌++◌, append-nil, append_assoc, arith, length,
}
use zbackup.RollingHash
use zbackup.RollingHash.Polynomial.{reset-IsHashOf, digest_buffer-IsHashOf}
use zbackup.ChunkId.{ChunkId}
use zbackup.ChunkIndex.{BundleId, report}
use zbackup.ChunkIndex.Entries.{entry, find_chunk-entry, find_chunk-state, report-some}
use zbackup.ChunkStorage.{Writer}
use zbackup.ChunkStorage.Known.{IsKnown}
use zbackup.BackupCreator.{
  BackupInstruction, Creator, emit_chunk, output_instruction, id_of, get_chunk_id, take_window,
  emit_window, emit_match, finish_match, add_chunk_if_matched,
}
use zbackup.BackupCreator.Ring.{advance, ring_read, advance-lt, length-ring_read}
use zbackup.BackupCreator.Pieces.{Keeps}
use zbackup.BackupCreator.Invariant.{window, waiting, HasWritten, IsCreator, IsSameRing}
use zbackup.BackupCreator.Saving.{Preserved}
use zbackup.BackupCreator.Written.{written_more, flush-IsFlushed}
use zbackup.BackupCreator.WindowId.{
  get_chunk_id-id_of, get_chunk_id-again, get_chunk_id-saved, get_chunk_id-state,
}

module _ (sha1 : List ℕ → List ℕ) (random : ℕ → List ℕ) (limit : ℕ) (P : Writer → Type 0)
    (keep : Preserved sha1 random limit P) (input : List ℕ) where
  -- The state behind a match: all that waited is written, and the window with it.
  matched : Creator → Writer → List BackupInstruction → Creator
  matched u w instrs = record u {
    writer = w;
    backup_data = instrs ++ (emit_chunk (id_of sha1 random (window u)) ∷ []);
    chunk_to_save_fill = 0;
    generated_chunk_id = id_of sha1 random (window u);
    chunk_id_generated = true;
    tail = u.head;
    ring_buffer_fill = 0;
    rolling_hash = RollingHash.reset;
  }

  matched-IsCreator :
      (u : Creator) (v : IsCreator sha1 random limit P input u) (w : Writer)
      (instrs : List BackupInstruction)
      → 0 < u.ring_buffer_fill
      → IsKnown u.writer.index (id_of sha1 random (window u))
      → Keeps sha1 random u.writer w
      → HasWritten sha1 random limit P
          (record u { writer = w; backup_data = instrs; chunk_to_save_fill = 0 })
          (v.done ++ waiting u)
      → IsCreator sha1 random limit P input (matched u w instrs)
  unfolding matched
  matched-IsCreator u v w instrs pos known k h =
      let sh = v.shaped in
      record {
        shaped = record {
          max_pos = sh.max_pos;
          max_small = sh.max_small;
          max_limit = sh.max_limit;
          ring_room = sh.ring_room;
          fill_le = omega arith;
          tail_lt =
              rw sh.head_eq
                (advance-lt (length u.ring_buffer) u.tail u.ring_buffer_fill sh.tail_lt);
          head_eq = unfold advance in refl;
          save_length = sh.save_length;
          save_lt = sh.max_pos;
        };
        hashed = unfold ring_read in reset-IsHashOf;
        done = (v.done ++ waiting u) ++ window u;
        written =
            written_more sha1 random limit P keep
              (record u { writer = w; backup_data = instrs; chunk_to_save_fill = 0 }) _
              (v.done ++ waiting u) (window u) (emit_chunk (id_of sha1 random (window u))) h
              (λ q x. x) (inr (refl, k _ known))
              (
                rw length-ring_read pos,
                rw length-ring_read (omega (arith, sh.fill_le, sh.max_limit)),
              )
              h.holds refl refl;
        taken =
            unfold ring_read in
            rw append-nil (append_assoc v.done (waiting u) (window u) ∙ v.taken);
      }

  emit_window-matched :
      (u : Creator) (w : Writer) (instrs : List BackupInstruction)
      → (get_chunk_id sha1 random u).0 ≡ id_of sha1 random (window u)
      → emit_window sha1 random
          (record u { writer = w; backup_data = instrs; chunk_to_save_fill = 0 })
        ≡ matched u w instrs
  unfolding emit_window
  emit_window-matched u w instrs g =
      let s : Creator = record u { writer = w; backup_data = instrs; chunk_to_save_fill = 0 } in
      let id : (get_chunk_id sha1 random s).0 ≡ id_of sha1 random (window u) =
        get_chunk_id-saved sha1 random limit u w instrs ∙ g in
      ap (take_window sha1 random (get_chunk_id sha1 random s).0)
        (get_chunk_id-state sha1 random limit s)
      ∙ ap
          (λ (x : ChunkId).
            take_window sha1 random x
              (record s { generated_chunk_id = x; chunk_id_generated = true }))
          id
      ∙ (unfold take_window matched output_instruction in refl)

  emit_match-IsCreator :
      (u : Creator)
      → IsCreator sha1 random limit P input u
      → 0 < u.ring_buffer_fill
      → IsKnown u.writer.index (id_of sha1 random (window u))
      → (get_chunk_id sha1 random u).0 ≡ id_of sha1 random (window u)
      → IsCreator sha1 random limit P input (emit_match sha1 random u)
        × IsSameRing u (emit_match sha1 random u)
  unfolding emit_match
  emit_match-IsCreator u v pos known g =
      let sh = v.shaped in
      let f =
        flush-IsFlushed sha1 random limit P keep u v.done
          (omega (arith, sh.save_length, sh.save_lt)) (omega (arith, sh.max_limit, sh.save_lt))
          v.written in
      subst (λ (r : Creator). IsCreator sha1 random limit P input r × IsSameRing u r)
        (sym (ap (emit_window sha1 random) f.result ∙ emit_window-matched u f.writer f.instrs g))
        (
          matched-IsCreator u v f.writer f.instrs pos known f.keeps (
              subst (λ (r : Creator). HasWritten sha1 random limit P r (v.done ++ waiting u))
                f.result f.written),
          unfold matched in record { ring = refl; head = refl; max_size = refl },
        )

  -- Only the two fields of the id may differ.
  forget_id :
      (s : Creator) (b : Bool) (id : ChunkId)
      → IsCreator sha1 random limit P input s
      → IsCreator sha1 random limit P input
          (record s { chunk_id_generated = b; generated_chunk_id = id })
  forget_id s b id v = record {
    shaped = record {
      max_pos = v.shaped.max_pos;
      max_small = v.shaped.max_small;
      max_limit = v.shaped.max_limit;
      ring_room = v.shaped.ring_room;
      fill_le = v.shaped.fill_le;
      tail_lt = v.shaped.tail_lt;
      head_eq = v.shaped.head_eq;
      save_length = v.shaped.save_length;
      save_lt = v.shaped.save_lt;
    };
    hashed = v.hashed;
    done = v.done;
    written = record {
      pieces = v.written.pieces;
      denotes = v.written.denotes;
      whole = v.written.whole;
      sizes = v.written.sizes;
      holds = v.written.holds;
      running = v.written.running;
    };
    taken = v.taken;
  }

  -- What holds of the state after the search, whether the id was asked for or not.
  record IsSearched (s u : Creator) : Type 0 where
    creator : IsCreator sha1 random limit P input u
    filled : 0 < u.ring_buffer_fill
    id_window : (get_chunk_id sha1 random u).0 ≡ id_of sha1 random (window u)
    same_index : u.writer.index ≡ s.writer.index
    same_window : window u ≡ window s
    same_ring : IsSameRing s u

  asked_IsSearched : (s : Creator) → IsSearched s s → IsSearched s (get_chunk_id sha1 random s).1
  asked_IsSearched s v =
      let state = get_chunk_id-state sha1 random limit s in
      record {
        creator =
            subst (IsCreator sha1 random limit P input) (sym state)
              (forget_id s true (get_chunk_id sha1 random s).0 v.creator);
        filled = subst (λ (u : Creator). 0 < u.ring_buffer_fill) (sym state) v.filled;
        id_window =
            get_chunk_id-again sha1 random limit s
            ∙ v.id_window
            ∙ ap (λ (u : Creator). id_of sha1 random (window u)) (sym state);
        same_index = ap (λ (u : Creator). u.writer.index) state;
        same_window = ap window state;
        same_ring = record {
          ring = ap (λ (u : Creator). u.ring_buffer) state;
          head = ap (λ (u : Creator). u.head) state;
          max_size = ap (λ (u : Creator). u.chunk_max_size) state;
        };
      }

  finish_match-IsCreator :
      (s u : Creator) (found : Option (BundleId × ℕ))
      → IsSearched s u
      → found ≡ report (entry s.writer.index (id_of sha1 random (window s)))
      → IsCreator sha1 random limit P input (finish_match sha1 random found u)
        × IsSameRing s (finish_match sha1 random found u)
  unfolding finish_match
  finish_match-IsCreator s u none v e = (v.creator, v.same_ring)
  finish_match-IsCreator s u (some x) v e =
      let (creator, ring) =
        emit_match-IsCreator u v.creator v.filled
          (rw (v.same_index, v.same_window)
            (report-some (entry s.writer.index (id_of sha1 random (window s))) x (sym e)))
          v.id_window in
      (
        creator,
        record {
          ring = ring.ring ∙ v.same_ring.ring;
          head = ring.head ∙ v.same_ring.head;
          max_size = ring.max_size ∙ v.same_ring.max_size;
        },
      )

  -- The search for a full window, whatever it finds, loses and changes nothing of the input.
  pub add_chunk_if_matched-IsCreator :
      (s : Creator)
      → IsCreator sha1 random limit P input s
      → 0 < s.ring_buffer_fill
      → IsCreator sha1 random limit P input (add_chunk_if_matched sha1 random s)
        × IsSameRing s (add_chunk_if_matched sha1 random s)
  unfolding add_chunk_if_matched
  add_chunk_if_matched-IsCreator s v pos =
      let s₀ : Creator = record s { chunk_id_generated = false } in
      let v₀ = forget_id s false s.generated_chunk_id v in
      let id = get_chunk_id-id_of sha1 random limit s₀ v₀.shaped v₀.hashed pos refl in
      let start : IsSearched s₀ s₀ = record {
        creator = v₀;
        filled = pos;
        id_window = id;
        same_index = refl;
        same_window = refl;
        same_ring = record { ring = refl; head = refl; max_size = refl };
      } in
      let hash = RollingHash.digest s₀.rolling_hash in
      let (creator, ring) =
        finish_match-IsCreator s₀ _ _
          (elim (find_chunk-state s₀.writer.index hash (get_chunk_id sha1 random) s₀) [
            | inl e ↦ subst (IsSearched s₀) (sym e) start
            | inr e ↦ subst (IsSearched s₀) (sym e) (asked_IsSearched s₀ start)
          ])
          (find_chunk-entry s₀.writer.index (get_chunk_id sha1 random) s₀ hash (same_hash s₀ v₀ id)
            ∙ ap (λ (x : ChunkId). report (entry s₀.writer.index x)) id) in
      (creator, record { ring = ring.ring; head = ring.head; max_size = ring.max_size })
    where
      same_hash :
          (u : Creator)
          → IsCreator sha1 random limit P input u
          → (get_chunk_id sha1 random u).0 ≡ id_of sha1 random (window u)
          → (get_chunk_id sha1 random u).0.rolling_hash ≡ RollingHash.digest u.rolling_hash
      same_hash u w id =
          ap (λ (x : ChunkId). x.rolling_hash) id
          ∙ (unfold id_of in digest_buffer-IsHashOf (window u) u.rolling_hash w.hashed)
