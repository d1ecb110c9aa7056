-- ===== src/ChunkStorage/Overflow.antt =====
-- A chunk that does not fit into the current bundle: the id that the index gives it.
use zbackup.Base.{
  ℕ, ◌+◌, ◌%◌, ◌<◌, ◌≡◌, refl, sym, ◌∙◌, subst, Bool, true, false, none, some, List, [], ◌∷◌, ◌++◌,
  lt→ltb,
}
use zbackup.Base.Bytes.{u32_mod}
use zbackup.ChunkId.{ChunkId, to_blob}
use zbackup.ChunkIndex
use zbackup.ChunkIndex.{ChunkIndex, BundleId, Chain, new_chain}
use zbackup.ChunkIndex.Entries.{entry, same_id_refl, add_chunk-entry}
use zbackup.Bundle
use zbackup.Bundle.{Creator, payload_size}
use zbackup.ChunkStorage.{
  Writer, current_or_new, get_current_bundle_id, get_current_bundle, finish_with,
  finish_current_bundle, put_chunk, emit_to_bundle, add_registered, add, add_bundle,
}

module _ (random : ℕ → List ℕ) where
  -- What `add` leaves for a chunk that the index lacks and the current bundle `c` has no room for.
  pub record IsOverflow (w : Writer) (c : Creator) (id : ChunkId) (bytes : List ℕ) (size : ℕ)
      (r : Writer × Bool) : Type 0 where
    pub added : r.1 ≡ true
    pub indexed :
        entry r.0.index id ≡ some (new_chain id (size % u32_mod) (some w.current_bundle_id))
    pub closed :
        r.0.pending_bundle_renames ≡ w.pending_bundle_renames ++ ((c, w.current_bundle_id) ∷ [])
    pub written : r.0.current_bundle ≡ some (Bundle.add_chunk Bundle.empty (to_blob id) bytes size)
    pub unnamed : r.0.has_current_bundle_id ≡ false

  IsOverflow-emit :
      (w : Writer) (index : ChunkIndex) (c : Creator) (id : ChunkId) (bytes : List ℕ) (size : ℕ)
      → w.max_payload_size < payload_size c + size
      → entry index id ≡ some (new_chain id (size % u32_mod) (some w.current_bundle_id))
      → IsOverflow w c id bytes size (
          add_registered random
            (record w { current_bundle = some c; has_current_bundle_id = true })
            index
            true
            id
            bytes
            size)
  unfolding add_registered emit_to_bundle get_current_bundle put_chunk finish_current_bundle
      finish_with current_or_new get_current_bundle_id add_bundle
  IsOverflow-emit w index c id bytes size full e =
      rw (lt→ltb _ _ full)
        (record { added = refl; indexed = e; closed = refl; written = refl; unnamed = refl })

  IsOverflow-add :
      (w : Writer) (c : Creator) (id : ChunkId) (bytes : List ℕ) (size : ℕ)
      → w.max_payload_size < payload_size c + size
      → entry w.index id ≡ none
      → IsOverflow w c id bytes size (
          add random
            (record w { current_bundle = some c; has_current_bundle_id = true })
            id
            bytes
            size)
  unfolding add get_current_bundle_id
  IsOverflow-add w c id bytes size full e =
      let r = ChunkIndex.add_chunk w.index id (size % u32_mod) w.current_bundle_id in
      let (flag, found) = add_chunk-entry w.index id id (size % u32_mod) w.current_bundle_id in
      rw (flag, e) (IsOverflow-emit w r.0 c id bytes size full (found ∙ rw (e, same_id_refl id)))

  -- Where `add` meets a new chunk that has no room in the current bundle, the index records for it the
  -- id of that bundle, which is closed without the chunk; the chunk goes into a new bundle that has no
  -- id yet. So the in-memory index names a bundle that does not hold the chunk.
  pub add-IsOverflow :
      (w : Writer) (c : Creator) (id : ChunkId) (bytes : List ℕ) (size : ℕ)
      → w.current_bundle ≡ some c
      → w.has_current_bundle_id ≡ true
      → w.max_payload_size < payload_size c + size
      → entry w.index id ≡ none
      → IsOverflow w c id bytes size (add random w id bytes size)
  add-IsOverflow w c id bytes size current named full e =
      subst (λ (v : Writer). IsOverflow w c id bytes size (add random v id bytes size)) (sym whole)
        (IsOverflow-add w c id bytes size full e)
    where
      whole : w ≡ record w { current_bundle = some c; has_current_bundle_id = true }
      whole = λ i. record w { current_bundle = current i; has_current_bundle_id = named i }
