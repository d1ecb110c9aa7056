-- ===== src/BackupCreator/Feeding/Rounds.antt =====
-- The rounds of `handleMoreData`, and what the client puts into the ring.
use zbackup.Base.{
  ℕ, zero, suc, ◌+◌, ◌-◌, ◌≤◌, ◌<◌, ◌≡◌, refl, sym, ap, ap₂, ◌∙◌, subst, inl, inr, List, [], ◌∷◌,
  ◌++◌, append-nil, append_assoc, arith, ltb, leb, ◌==◌, if◌then◌else◌, ltb→lt, Bool-cases, length,
  get_or, set, take, length-set, take-overwrite, set-overwrite,
}
use zbackup.Base.Bytes.{add32_fits, sub32_fits}
use zbackup.ChunkStorage.{Writer}
use zbackup.BackupCreator.{
  Creator, wrap, store_byte, rotate_ring, save_chunk_to_save, fill_chunk, rotate_byte, round,
  handle_loop,
}
use zbackup.BackupCreator.Ring.{ring_read, advance_flat, ring_read-add, roll_ring-flat}
use zbackup.BackupCreator.Invariant.{waiting, HasWritten, IsCreator}
use zbackup.BackupCreator.Saving.{Preserved}
use zbackup.BackupCreator.Written.{save-IsFlushed}
use zbackup.BackupCreator.Matching.{add_chunk_if_matched-IsCreator}
use zbackup.BackupCreator.Feeding.{extend, head-lt, extend-IsCreator, rotate_ring-IsCreator}

module _ (sha1 : List ℕ → List ℕ) (random : ℕ → List ℕ) (limit : ℕ) (P : Writer → Type 0)
    (keep : Preserved sha1 random limit P) where
  -- A round took some bytes behind `head`, and nothing of the input was lost.
  record IsRound (input : List ℕ) (s : Creator) (added : ℕ) (r : ℕ × Creator) : Type 0 where
    some_taken : 0 < r.0
    within : r.0 ≤ added
    creator : IsCreator sha1 random limit P (input ++ ring_read s.ring_buffer s.head r.0) r.1
    ring : r.1.ring_buffer ≡ s.ring_buffer
    head : r.1.head ≡ wrap (length s.ring_buffer) (s.head + r.0)

  module _ (input : List ℕ) (s : Creator) (v : IsCreator sha1 random limit P input s) (added : ℕ)
      (pos : 0 < added) (fits : s.head + added ≤ length s.ring_buffer) where
    -- The window is filled as far as the bytes reach.
    fill-IsRound :
        s.ring_buffer_fill < s.chunk_max_size
        → IsRound input s added (fill_chunk sha1 random s added)
    unfolding fill_chunk
    fill-IsRound room =
        let sh = v.shaped in
        let left = s.chunk_max_size - s.ring_buffer_fill in
        let to_left =
          sub32_fits s.chunk_max_size s.ring_buffer_fill sh.fill_le (omega (arith, sh.max_small)) in
        elim (Bool-cases (leb left added)) [
          | inl enough ↦
              let le : left ≤ added = ground arith in
              let (creator, ring) =
                add_chunk_if_matched-IsCreator sha1 random limit P keep
                  (input ++ ring_read s.ring_buffer s.head left)
                  (extend sha1 random limit P input s left)
                  (extend-IsCreator sha1 random limit P input s left v (omega arith) (omega arith))
                  (omega arith) in
              rw
                (
                  to_left,
                  enough,
                  roll_ring-flat s.ring_buffer left s.head s.rolling_hash (omega arith),
                  add32_fits s.ring_buffer_fill left (omega (arith, sh.max_small)),
                )
                (record {
                  some_taken = omega arith;
                  within = le;
                  creator = creator;
                  ring = ring.ring;
                  head = ring.head;
                })
          | inr few ↦
              let le : added ≤ left = ground arith in
              rw
                (
                  to_left,
                  few,
                  roll_ring-flat s.ring_buffer added s.head s.rolling_hash fits,
                  add32_fits s.ring_buffer_fill added (omega (arith, sh.max_small)),
                )
                (record {
                  some_taken = pos;
                  within = omega arith;
                  creator = extend-IsCreator sha1 random limit P input s added v (omega arith) fits;
                  ring = refl;
                  head = refl;
                })
        ]

    stored : List ℕ
    stored = set s.chunk_to_save s.chunk_to_save_fill (get_or s.ring_buffer s.tail 0)

    take-stored :
        take (s.chunk_to_save_fill + 1) stored ≡ waiting s ++ (get_or s.ring_buffer s.tail 0 ∷ [])
    unfolding stored
    take-stored =
        ap (take (s.chunk_to_save_fill + 1)) (
          set-overwrite s.chunk_to_save s.chunk_to_save_fill _
            (omega (arith, v.shaped.save_lt, v.shaped.save_length)))
        ∙ take-overwrite s.chunk_to_save s.chunk_to_save_fill (get_or s.ring_buffer s.tail 0 ∷ [])
            (omega (arith, v.shaped.save_lt, v.shaped.save_length))

    length-stored : length stored ≡ s.chunk_max_size
    unfolding stored
    length-stored = length-set s.chunk_to_save s.chunk_to_save_fill _ ∙ v.shaped.save_length

    -- The state of the round before the bytes that wait may be saved.
    with_byte : Creator
    with_byte = record s { chunk_to_save = stored; chunk_to_save_fill = s.chunk_to_save_fill + 1 }

    with_byte-HasWritten : HasWritten sha1 random limit P with_byte v.done
    unfolding with_byte
    with_byte-HasWritten =
        let h = v.written in
        record {
          pieces = h.pieces;
          denotes = h.denotes;
          whole = h.whole;
          sizes = h.sizes;
          holds = h.holds;
          running = h.running;
        }

    -- A byte of the full window is moved out, and one moved in.
    rotated-IsCreator :
        s.ring_buffer_fill ≡ s.chunk_max_size
        → IsCreator sha1 random limit P (input ++ ring_read s.ring_buffer s.head 1) (
            rotate_ring (
              if with_byte.chunk_to_save_fill == with_byte.chunk_max_size
              then save_chunk_to_save sha1 random with_byte
              else with_byte))
    unfolding with_byte
    rotated-IsCreator full =
        let sh = v.shaped in
        let parts : s.ring_buffer_fill ≡ suc (s.chunk_max_size - 1) =
          omega (arith, full, sh.max_pos) in
        let len = length-stored in
        elim (Bool-cases (s.chunk_to_save_fill + 1 == s.chunk_max_size)) [
          | inl last ↦
              let f =
                save-IsFlushed sha1 random limit P keep with_byte v.done (omega arith)
                  (omega (arith, sh.save_lt, len)) (omega (arith, sh.save_lt, sh.max_limit))
                  with_byte-HasWritten in
              rw last (
                subst
                  (λ (r : Creator).
                    IsCreator sha1 random limit P (input ++ ring_read s.ring_buffer s.head 1)
                      (rotate_ring r))
                  (sym f.result)
                  (unfold ring_read in
                    rotate_ring-IsCreator sha1 random limit P input s v (s.chunk_max_size - 1) parts
                      f.writer f.instrs stored 0 (v.done ++ waiting with_byte)
                      (subst
                        (λ (r : Creator).
                          HasWritten sha1 random limit P r (v.done ++ waiting with_byte))
                        f.result f.written)
                      len sh.max_pos (append-nil _ ∙ ap (λ (t : List ℕ). v.done ++ t) take-stored)))
          | inr more ↦ rw more (
              unfold ring_read in
              rotate_ring-IsCreator sha1 random limit P input s v (s.chunk_max_size - 1) parts
                s.writer s.backup_data stored (s.chunk_to_save_fill + 1) v.done with_byte-HasWritten
                len (ground (arith, sh.save_lt)) (ap (λ (t : List ℕ). v.done ++ t) take-stored))
        ]

    rotated-ring :
        (r : Creator)
        → r ≡ (
            if with_byte.chunk_to_save_fill == with_byte.chunk_max_size
            then save_chunk_to_save sha1 random with_byte
            else with_byte)
        → (r.ring_buffer ≡ s.ring_buffer)
          × (r.head ≡ s.head)
          × (r.ring_buffer_fill ≡ s.ring_buffer_fill)
    unfolding with_byte
    rotated-ring r e = elim (Bool-cases (s.chunk_to_save_fill + 1 == s.chunk_max_size)) [
      | inl last ↦
          let f =
            save-IsFlushed sha1 random limit P keep with_byte v.done (omega arith)
              (omega (arith, v.shaped.save_lt, length-stored))
              (omega (arith, v.shaped.save_lt, v.shaped.max_limit)) with_byte-HasWritten in
          let same : r ≡ record with_byte {
            writer = f.writer;
            backup_data = f.instrs;
            chunk_to_save_fill = 0;
          } =
            e ∙ (rw last f.result) in
          (
            ap (λ (x : Creator). x.ring_buffer) same,
            ap (λ (x : Creator). x.head) same,
            ap (λ (x : Creator). x.ring_buffer_fill) same,
          )
      | inr more ↦
          let same : r ≡ with_byte = e ∙ (rw more refl) in
          (
            ap (λ (x : Creator). x.ring_buffer) same,
            ap (λ (x : Creator). x.head) same,
            ap (λ (x : Creator). x.ring_buffer_fill) same,
          )
    ]

    rotate-IsRound :
        s.ring_buffer_fill ≡ s.chunk_max_size → IsRound input s added (1, rotate_byte sha1 random s)
    unfolding rotate_byte with_byte stored store_byte
    rotate-IsRound full =
        let (ring, head, fill) = rotated-ring _ refl in
        let (creator, same) =
          add_chunk_if_matched-IsCreator sha1 random limit P keep
            (input ++ ring_read s.ring_buffer s.head 1) _ (rotated-IsCreator full)
            (unfold rotate_ring in rw (fill, full) v.shaped.max_pos) in
        record {
          some_taken = omega arith;
          within = omega (arith, pos);
          creator = creator;
          ring = same.ring ∙ (unfold rotate_ring in ring);
          head = same.head ∙ (unfold rotate_ring in λ i. wrap (length (ring i)) (head i + 1));
        }

    round-IsRound : IsRound input s added (round sha1 random s added)
    unfolding round
    round-IsRound = elim (Bool-cases (ltb s.ring_buffer_fill s.chunk_max_size)) [
      | inl room ↦ rw room (fill-IsRound (ltb→lt _ _ room))
      | inr full ↦ rw full (rotate-IsRound (ground (arith, v.shaped.fill_le)))
    ]

  pub handle_loop-IsCreator :
      (fuel added : ℕ) (input : List ℕ) (s : Creator)
      → added ≤ fuel
      → IsCreator sha1 random limit P input s
      → s.head + added ≤ length s.ring_buffer
      → IsCreator sha1 random limit P
          (input ++ ring_read s.ring_buffer s.head added)
          (handle_loop sha1 random fuel added s)
  unfolding handle_loop
  handle_loop-IsCreator zero zero input s le v fits = unfold ring_read in rw append-nil v
  handle_loop-IsCreator zero (suc added) input s le v fits = absurd (omega arith)
  handle_loop-IsCreator (suc fuel) zero input s le v fits = unfold ring_read in rw append-nil v
  handle_loop-IsCreator (suc fuel) (suc added) input s le v fits =
      let r = round-IsRound input s v (suc added) (omega arith) fits in
      let next = (round sha1 random s (suc added)).1 in
      let taken = (round sha1 random s (suc added)).0 in
      subst
        (λ (t : List ℕ).
          IsCreator sha1 random limit P t (handle_loop sha1 random fuel (suc added - taken) next))
        (append_assoc input (ring_read s.ring_buffer s.head taken) _
          ∙ ap (λ (t : List ℕ). input ++ t)
              (ap₂
                  (λ (ring : List ℕ) (t : ℕ).
                    ring_read s.ring_buffer s.head taken ++ ring_read ring t (suc added - taken))
                  r.ring
                  (r.head
                    ∙ sym (
                        advance_flat (length s.ring_buffer) s.head taken
                          (head-lt sha1 random limit P input s v.shaped)
                          (omega (arith, fits, r.within))))
                ∙ sym (ring_read-add s.ring_buffer s.head taken (suc added - taken))
                ∙ ap (ring_read s.ring_buffer s.head) (omega (arith, r.within))))
        (handle_loop-IsCreator fuel (suc added - taken) _ next (omega (arith, le, r.some_taken))
          r.creator (rw (r.ring, r.head) (ground (arith, fits, r.within, r.some_taken))))
