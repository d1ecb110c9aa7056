-- ===== src/ChunkIndex/Loading/Steps.antt =====
-- One processed chunk.
use zbackup.Base.{
  ℕ, ◌≡◌, refl, ap, ◌∙◌, ◌⊎◌, inl, inr, Bool, true, false, Option, none, some, List, if◌then◌else◌,
  Bool-cases, Option-cases,
}
use zbackup.ChunkId.{ChunkId}
use zbackup.ChunkIndex
use zbackup.ChunkIndex.{
  ChunkIndex, Chain, BundleId, new_chain, start_bundle, process_chunk, register_new_chunk_id,
  append_node, register_in,
}
use zbackup.ChunkIndex.Entries.{entry, is_none, same_id, same_id_refl, register-known, register-new}

pub register-last_bundle_id :
    (index : ChunkIndex) (id : ChunkId) (size : ℕ) (b : Option BundleId)
    → (register_new_chunk_id index id size b).0.last_bundle_id ≡ index.last_bundle_id
unfolding register_new_chunk_id
register-last_bundle_id index id size b = go _ _
  where
    go :
        (t : ChunkIndex.HashTable) (o : Option (List Chain))
        → (register_in (record index { hash_table = t }) id.rolling_hash o).0.last_bundle_id
          ≡ index.last_bundle_id
    go t none = refl
    go t (some c) = refl

-- A processed chunk leaves a node alone, or makes the one for its id.
pub process_chunk-entry :
    (index : ChunkIndex) (id q : ChunkId) (size : ℕ)
    → (entry (process_chunk index id size) q ≡ entry index q)
      ⊎ ((same_id id q ≡ true)
          × (entry (process_chunk index id size) q ≡ some (new_chain id size index.last_bundle_id)))
unfolding process_chunk
process_chunk-entry index id q size = elim (Option-cases (entry index id)) [
  | inl e ↦
      let made = (register-new index id q size index.last_bundle_id e).1 in
      elim (Bool-cases (same_id id q)) [
        | inl f ↦ inr (f, made ∙ (rw f refl))
        | inr f ↦ inl (made ∙ (rw f refl))
      ]
  | inr (x, e) ↦ inl (register-known index id q size index.last_bundle_id x e).1
]

-- The id is known.
abbrev pub Knows : ChunkIndex → ChunkId → Type 0
Knows index q = is_none (entry index q) ≡ false

pub process_chunk-Knows_old :
    (index : ChunkIndex) (id q : ChunkId) (size : ℕ)
    → Knows index q
    → Knows (process_chunk index id size) q
process_chunk-Knows_old index id q size k = elim (process_chunk-entry index id q size) [
  | inl e ↦ ap is_none e ∙ k
  | inr (_, e) ↦ ap is_none e
]

pub process_chunk-Knows_new :
    (index : ChunkIndex) (id : ChunkId) (size : ℕ) → Knows (process_chunk index id size) id
unfolding process_chunk
process_chunk-Knows_new index id size = elim (Option-cases (entry index id)) [
  | inl e ↦
      ap is_none (register-new index id id size index.last_bundle_id e).1
      ∙ ap
          (λ (b : Bool).
            is_none (if b then some (new_chain id size index.last_bundle_id) else entry index id))
          (same_id_refl id)
  | inr (x, e) ↦ ap is_none ((register-known index id id size index.last_bundle_id x e).1 ∙ e)
]
