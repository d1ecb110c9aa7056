-- ===== src/BackupCreator/WindowId.antt =====
-- `getChunkId`: the id of the window.
use zbackup.Base.{
  ℕ, ◌+◌, ◌-◌, ◌≤◌, ◌<◌, ◌≡◌, sym, ap, ◌∙◌, inl, inr, true, false, List, ◌++◌, arith, ltb,
  if◌then◌else◌, lt→ltb, Bool-cases, length, take, drop,
}
use zbackup.RollingHash
use zbackup.RollingHash.Polynomial.{IsHashOf, digest_buffer-IsHashOf}
use zbackup.ChunkStorage.{Writer}
use zbackup.BackupCreator.{BackupInstruction, Creator, id_of, hashed_bytes, get_chunk_id, slice}
use zbackup.BackupCreator.Ring.{advance, ring_read, advance_once, ring_read_flat, ring_read_wrapped}
use zbackup.BackupCreator.Invariant.{window, IsShaped}

-- The two ways in which a part of the ring that is not empty may stand.
pub slices-ring_read :
    (ring : List ℕ) (tail head fill : ℕ)
    → tail < length ring
    → 0 < fill
    → fill < length ring
    → head ≡ advance (length ring) tail fill
    → (if ltb tail head
        then slice ring tail head
        else slice ring tail (length ring) ++ slice ring 0 head)
      ≡ ring_read ring tail fill
slices-ring_read ring tail head fill lt pos le e =
    elim (Bool-cases (ltb (tail + fill) (length ring))) [
      | inl inside ↦
          let at : head ≡ tail + fill =
            ground (arith, advance_once (length ring) tail fill lt (omega arith)) in
          rw (lt→ltb tail head (omega arith)) (
            ap (λ (n : ℕ). take n (drop tail ring)) (omega arith)
            ∙ sym (ring_read_flat ring tail fill (ground arith)))
      | inr round ↦
          let at : head ≡ tail + fill - length ring =
            ground (arith, advance_once (length ring) tail fill lt (omega arith)) in
          let later : ltb tail head ≡ false = ground arith in
          rw later (
            sym (
              ap (ring_read ring tail) (pieces (ground arith) at)
              ∙ ring_read_wrapped ring tail (length ring - tail) (head - 0) lt (omega arith)
                  (ground arith)))
    ]
  where
    pieces :
        length ring ≤ tail + fill
        → head ≡ tail + fill - length ring
        → fill ≡ length ring - tail + (head - 0)
    pieces h k = omega arith

module _ (sha1 : List ℕ → List ℕ) (random : ℕ → List ℕ) (limit : ℕ) where
  -- The bytes that SHA-1 is given are those of the window.
  hashed_bytes-window :
      (s : Creator)
      → IsShaped limit s
      → 0 < s.ring_buffer_fill
      → hashed_bytes sha1 random s ≡ window s
  unfolding hashed_bytes
  hashed_bytes-window s v pos =
      slices-ring_read s.ring_buffer s.tail s.head s.ring_buffer_fill v.tail_lt pos
        (omega (arith, v.fill_le, v.ring_room)) v.head_eq

  -- The id that is computed for the window is that of its bytes.
  pub get_chunk_id-id_of :
      (s : Creator)
      → IsShaped limit s
      → IsHashOf (window s) s.rolling_hash
      → 0 < s.ring_buffer_fill
      → s.chunk_id_generated ≡ false
      → (get_chunk_id sha1 random s).0 ≡ id_of sha1 random (window s)
  unfolding get_chunk_id id_of
  get_chunk_id-id_of s v hashed pos fresh =
      let same : RollingHash.digest s.rolling_hash
          ≡ RollingHash.digest_buffer (window s) (length (window s)) =
        sym (digest_buffer-IsHashOf (window s) s.rolling_hash hashed) in
      rw (fresh, hashed_bytes-window s v pos)
        (λ i. record { crypto_hash = take 16 (sha1 (window s)); rolling_hash = same i })

  -- The computed id is kept.
  pub get_chunk_id-again :
      (s : Creator)
      → (get_chunk_id sha1 random (get_chunk_id sha1 random s).1).0 ≡ (get_chunk_id sha1 random s).0
  unfolding get_chunk_id
  get_chunk_id-again s = elim (Bool-cases s.chunk_id_generated) [
    | inl e ↦ rw (e, get_chunk_id)
    | inr e ↦ rw (e, get_chunk_id)
  ]

  -- Saving other bytes does not touch it.
  pub get_chunk_id-saved :
      (s : Creator) (w : Writer) (instrs : List BackupInstruction)
      → (get_chunk_id sha1 random
          (record s { writer = w; backup_data = instrs; chunk_to_save_fill = 0 })).0
        ≡ (get_chunk_id sha1 random s).0
  unfolding get_chunk_id hashed_bytes
  get_chunk_id-saved s w instrs = elim (Bool-cases s.chunk_id_generated) [
    | inl e ↦ rw e
    | inr e ↦ rw e
  ]

  pub get_chunk_id-state :
      (s : Creator)
      → (get_chunk_id sha1 random s).1 ≡ record s {
        generated_chunk_id = (get_chunk_id sha1 random s).0;
        chunk_id_generated = true;
      }
  unfolding get_chunk_id
  get_chunk_id-state s = elim (Bool-cases s.chunk_id_generated) [ inl e ↦ rw e | inr e ↦ rw e ]
