-- ===== src/ChunkStorage/Taking.antt =====
-- `Writer::add` of a chunk that stands at the start of a longer buffer.
use zbackup.Base.{
  ℕ, zero, suc, ◌+◌, ◌%◌, ◌<◌, ◌≡◌, refl, sym, ap, subst, inl, inr, Bool, true, false, List, [],
  ◌∷◌, if◌then◌else◌, ltb, Bool-cases, length, take,
}
use zbackup.Base.Bytes.{u32_mod}
use zbackup.ChunkId.{ChunkId, to_blob}
use zbackup.ChunkIndex
use zbackup.ChunkIndex.{ChunkIndex}
use zbackup.Bundle
use zbackup.Bundle.{Creator}
use zbackup.Bundle.Items.{IsBundle, add_chunk-IsBundle}
use zbackup.ChunkStorage.{
  Writer, current_or_new, get_current_bundle_id, get_current_bundle, finish_current_bundle,
  put_chunk, emit_to_bundle, add_registered, add,
}
use zbackup.ChunkStorage.Writing.{
  ForCurrent, current_or_new-IsBundle, get_current_bundle_id-fields, finish-ForCurrent,
}

take-take : (n : ℕ) (xs : List ℕ) → take n (take n xs) ≡ take n xs
take-take zero xs = refl
take-take (suc n) [] = refl
take-take (suc n) (x ∷ xs) = ap (λ (t : List ℕ). x ∷ t) (take-take n xs)

module _ (random : ℕ → List ℕ) (id : ChunkId) where
  put_chunk-take :
      (w : Writer) (bytes : List ℕ) (size : ℕ)
      → put_chunk random w id bytes size ≡ put_chunk random w id (take size bytes) size
  unfolding put_chunk Bundle.add_chunk
  put_chunk-take w bytes size = rw (take-take size bytes) refl

  emit_to_bundle-take :
      (w : Writer) (bytes : List ℕ) (size : ℕ)
      → emit_to_bundle random w id bytes size ≡ emit_to_bundle random w id (take size bytes) size
  unfolding emit_to_bundle
  emit_to_bundle-take w bytes size =
      let (w', creator) = get_current_bundle random w in
      let full = ltb w.max_payload_size (Bundle.payload_size creator + size) in
      put_chunk-take (if full then finish_current_bundle random w' else w') bytes size

  add_registered-take :
      (w : Writer) (index : ChunkIndex) (added : Bool) (bytes : List ℕ) (size : ℕ)
      → add_registered random w index added id bytes size
        ≡ add_registered random w index added id (take size bytes) size
  unfolding add_registered
  add_registered-take w index true bytes size =
      ap (λ (v : Writer). (v, true)) (emit_to_bundle-take (record w { index = index }) bytes size)
  add_registered-take w index false bytes size = refl

  -- Only the first bytes of the buffer count.
  pub add-take :
      (w : Writer) (bytes : List ℕ) (size : ℕ)
      → add random w id bytes size ≡ add random w id (take size bytes) size
  unfolding add
  add-take w bytes size =
      let (w', b) = get_current_bundle_id random w in
      let r = ChunkIndex.add_chunk w'.index id (size % u32_mod) b in
      add_registered-take w' r.0 r.1 bytes size

  module _ (bytes : List ℕ) (size : ℕ) (all : size ≡ length bytes) (small : size < u32_mod) where
    put_chunk-ForCurrent :
        (w : Writer)
        → ForCurrent IsBundle w.current_bundle
        → ForCurrent IsBundle (put_chunk random w id bytes size).current_bundle
    unfolding put_chunk get_current_bundle
    put_chunk-ForCurrent w valid =
        add_chunk-IsBundle (current_or_new w.current_bundle) (to_blob id) bytes size all small
          (current_or_new-IsBundle random w.current_bundle valid)

    emit_to_bundle-ForCurrent :
        (w : Writer)
        → ForCurrent IsBundle w.current_bundle
        → ForCurrent IsBundle (emit_to_bundle random w id bytes size).current_bundle
    unfolding emit_to_bundle get_current_bundle
    emit_to_bundle-ForCurrent w valid =
        let w' = (get_current_bundle random w).0 in
        elim (Bool-cases
          (ltb w.max_payload_size (Bundle.payload_size (current_or_new w.current_bundle) + size))) [
            | inl full ↦ rw full (
                put_chunk-ForCurrent (finish_current_bundle random w')
                  (finish-ForCurrent random IsBundle w'))
            | inr room ↦
                rw room
                  (put_chunk-ForCurrent w' (current_or_new-IsBundle random w.current_bundle valid))
          ]

    add_registered-ForCurrent :
        (w : Writer) (index : ChunkIndex) (added : Bool)
        → ForCurrent IsBundle w.current_bundle
        → ForCurrent IsBundle (add_registered random w index added id bytes size).0.current_bundle
    unfolding add_registered
    add_registered-ForCurrent w index true valid =
        emit_to_bundle-ForCurrent (record w { index = index }) valid
    add_registered-ForCurrent w index false valid = valid

    -- The records of the current bundle keep accounting for its payload.
    pub add-ForCurrent :
        (w : Writer)
        → ForCurrent IsBundle w.current_bundle
        → ForCurrent IsBundle (add random w id bytes size).0.current_bundle
    unfolding add
    add-ForCurrent w valid =
        let (w', b) = get_current_bundle_id random w in
        let r = ChunkIndex.add_chunk w'.index id (size % u32_mod) b in
        add_registered-ForCurrent w' r.0 r.1
          (subst (ForCurrent IsBundle) (sym (get_current_bundle_id-fields random w).1) valid)
