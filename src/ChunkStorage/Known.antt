-- ===== src/ChunkStorage/Known.antt =====
-- Which ids the index knows after `Writer::add`.
use zbackup.Base.{
  ℕ, ◌+◌, ◌%◌, ◌≡◌, refl, ◌∙◌, inl, inr, Bool, true, false, Option, none, some, List, [], arith,
  Bool-cases,
}
use zbackup.Base.Bytes.{u32_mod}
use zbackup.ChunkId.{ChunkId}
use zbackup.ChunkIndex
use zbackup.Bundle.{Creator}
use zbackup.ChunkIndex.{ChunkIndex, BundleId}
use zbackup.ChunkIndex.Entries.{entry, is_none, same_id_refl, after_add, add_chunk-entry}
use zbackup.ChunkStorage.{
  Writer, IndexRecord, get_current_bundle_id, get_current_bundle, put_chunk, emit_to_bundle,
  add_registered, add, finish_current_bundle, move_bundles, move_index, publish, is_taken, commit,
}
use zbackup.ChunkStorage.Writing.{finish_current_bundle-IsFinished}

-- The index has a node for the id.
abbrev pub IsKnown : ChunkIndex → ChunkId → Type 0
IsKnown index id = is_none (entry index id) ≡ false

module _ (random : ℕ → List ℕ) (id : ChunkId) (bytes : List ℕ) (size : ℕ) where
  emit_to_bundle-index : (w : Writer) → (emit_to_bundle random w id bytes size).index ≡ w.index
  unfolding emit_to_bundle get_current_bundle put_chunk
  emit_to_bundle-index w =
      ground (
        arith,
        (finish_current_bundle-IsFinished random (get_current_bundle random w).0).same_index,
      )

  add_registered-index :
      (w : Writer) (index : ChunkIndex) (added : Bool)
      → (add_registered random w index added id bytes size).0.index ≡ index
  unfolding add_registered
  add_registered-index w index true = emit_to_bundle-index (record w { index = index })
  add_registered-index w index false = refl

  -- The index after `add` is that after `addChunk` under the current bundle's id.
  pub add-index :
      (w : Writer)
      → (add random w id bytes size).0.index
        ≡ (ChunkIndex.add_chunk w.index id (size % u32_mod) (get_current_bundle_id random w).1).0
  unfolding add get_current_bundle_id
  add-index w = elim (Bool-cases w.has_current_bundle_id) [
    | inl h ↦ simp h (add_registered-index w _ _)
    | inr h ↦ simp h (
        add_registered-index
          (record w {
            current_bundle_id = random w.random_calls;
            has_current_bundle_id = true;
            random_calls = w.random_calls + 1;
          })
          _ _)
  ]

  emit_to_bundle-max_payload_size :
      (w : Writer) → (emit_to_bundle random w id bytes size).max_payload_size ≡ w.max_payload_size
  unfolding emit_to_bundle get_current_bundle put_chunk
  emit_to_bundle-max_payload_size w =
      ground (
        arith,
        (finish_current_bundle-IsFinished random (get_current_bundle random w).0).same_limit,
      )

  -- The configured limit stays.
  pub add-max_payload_size :
      (w : Writer) → (add random w id bytes size).0.max_payload_size ≡ w.max_payload_size
  unfolding add get_current_bundle_id add_registered
  add-max_payload_size w = elim (Bool-cases w.has_current_bundle_id) [
    | inl h ↦ simp h (go w _ _)
    | inr h ↦ simp h (
        go
          (record w {
            current_bundle_id = random w.random_calls;
            has_current_bundle_id = true;
            random_calls = w.random_calls + 1;
          })
          _ _)
  ]
    where
      go :
          (v : Writer) (index : ChunkIndex) (added : Bool)
          → (add_registered random v index added id bytes size).0.max_payload_size
            ≡ v.max_payload_size
      go v index true = emit_to_bundle-max_payload_size (record v { index = index })
      go v index false = refl

  pub add-IsKnown_old :
      (w : Writer) (q : ChunkId)
      → IsKnown w.index q
      → IsKnown (add random w id bytes size).0.index q
  add-IsKnown_old w q k = rw (add-index w) (
      go (entry w.index id)
        (add_chunk-entry w.index id q (size % u32_mod) (get_current_bundle_id random w).1).1)
    where
      b : BundleId
      b = (get_current_bundle_id random w).1

      go :
          (o : Option ChunkIndex.Chain)
          → entry (ChunkIndex.add_chunk w.index id (size % u32_mod) b).0 q
            ≡ after_add w.index id (size % u32_mod) b q o
          → IsKnown (ChunkIndex.add_chunk w.index id (size % u32_mod) b).0 q
      go none e = ground arith
      go (some x) e = rw e k

  pub add-IsKnown_new : (w : Writer) → IsKnown (add random w id bytes size).0.index id
  add-IsKnown_new w = rw (add-index w) (
      go (entry w.index id) refl
        (add_chunk-entry w.index id id (size % u32_mod) (get_current_bundle_id random w).1).1)
    where
      b : BundleId
      b = (get_current_bundle_id random w).1

      go :
          (o : Option ChunkIndex.Chain)
          → entry w.index id ≡ o
          → entry (ChunkIndex.add_chunk w.index id (size % u32_mod) b).0 id
            ≡ after_add w.index id (size % u32_mod) b id o
          → IsKnown (ChunkIndex.add_chunk w.index id (size % u32_mod) b).0 id
      go none h e = rw e (rw (same_id_refl id))
      go (some x) h e = rw (e, h)

-- Publishing does not touch the index.
pub commit-index : (random : ℕ → List ℕ) (w : Writer) → (commit random w).0.index ≡ w.index
unfolding commit publish
commit-index random w =
    let w₁ = finish_current_bundle random w in
    published w₁ (move_bundles w₁.pending_bundle_renames w₁.bundles)
    ∙ (finish_current_bundle-IsFinished random w).same_index
  where
    go : (o : Option (List IndexRecord)) (v : Writer) → (move_index random v o).0.index ≡ v.index
    go none v = unfold move_index in refl
    go (some r) v =
        unfold move_index in
        elim (Bool-cases (is_taken (random v.random_calls) v.index_files)) [
          | inl e ↦ rw e refl
          | inr e ↦ rw e refl
        ]

    published :
        (v : Writer) (r : List (BundleId × Creator) × Bool) → (publish random v r).0.index ≡ v.index
    published v (moved, true) =
        go v.index_file (record v { bundles = moved; pending_bundle_renames = [] })
    published v (moved, false) = refl
