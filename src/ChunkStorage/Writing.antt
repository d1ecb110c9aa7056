-- ===== src/ChunkStorage/Writing.antt =====
-- `Writer::add`, and what it does to the chunks that are held.
use zbackup.Base.{
  ℕ, ◌+◌, ◌%◌, ◌<◌, ◌≡◌, refl, sym, ap, ap₂, ◌∙◌, subst, inl, inr, Bool, true, false, Option, none,
  some, List, [], ◌∷◌, ◌++◌, append-nil, append_assoc, arith, ltb, Bool-cases, length,
}
use zbackup.Base.Bytes.{u32_mod}
use zbackup.ChunkId.{ChunkId, to_blob}
use zbackup.ChunkIndex
use zbackup.ChunkIndex.{ChunkIndex, BundleId, Chain, new_chain}
use zbackup.ChunkIndex.Entries.{entry, is_none, add_chunk-entry}
use zbackup.Bundle
use zbackup.Bundle.{Creator}
use zbackup.Bundle.RoundTrip.{Item}
use zbackup.Bundle.Items.{
  bundle_items, IsBundle, empty-IsBundle, bundle_items-empty, bundle_items-add_chunk,
}
use zbackup.ChunkStorage.{
  Writer, current_or_new, get_current_bundle_id, get_current_bundle, finish_with,
  finish_current_bundle, put_chunk, emit_to_bundle, add_registered, add, add_bundle,
}
use zbackup.ChunkStorage.Items.{
  pending_items, current_items, stored, pending_items-append, stored-get_current_bundle_id,
  stored-get_current_bundle,
}

abbrev pub ForCurrent : (Creator → Type 0) → Option Creator → Type 0
ForCurrent P none = Unit {0}
ForCurrent P (some creator) = P creator

module _ (random : ℕ → List ℕ) where
  stored-finish_with :
      (o : Option Creator) (w : Writer)
      → w.current_bundle ≡ o
      → stored (finish_with random o w) ≡ stored w
  unfolding finish_with stored current_items get_current_bundle_id add_bundle
  stored-finish_with none w e = refl
  stored-finish_with (some c) w e = elim (Bool-cases w.has_current_bundle_id) [
    | inl h ↦
        rw (h, e) (rw (pending_items-append, append-nil) (unfold pending_items in rw append-nil))
    | inr h ↦
        rw (h, e) (rw (pending_items-append, append-nil) (unfold pending_items in rw append-nil))
  ]

  pub stored-finish_current_bundle :
      (w : Writer) → stored (finish_current_bundle random w) ≡ stored w
  unfolding finish_current_bundle
  stored-finish_current_bundle w = stored-finish_with w.current_bundle w refl

  -- Afterwards there is no current bundle, and the limits and the index are as before.
  pub record IsFinished (w r : Writer) : Type 0 where
    pub none_left : r.current_bundle ≡ none
    pub same_limit : r.max_payload_size ≡ w.max_payload_size
    pub same_index : r.index ≡ w.index
    pub same_bundles : r.bundles ≡ w.bundles
    pub same_index_files : r.index_files ≡ w.index_files

  finish_with-IsFinished :
      (o : Option Creator) (w : Writer)
      → w.current_bundle ≡ o
      → IsFinished w (finish_with random o w)
  unfolding finish_with get_current_bundle_id add_bundle
  finish_with-IsFinished none w e = record {
    none_left = e;
    same_limit = refl;
    same_index = refl;
    same_bundles = refl;
    same_index_files = refl;
  }
  finish_with-IsFinished (some c) w e = ground arith

  pub finish_current_bundle-IsFinished :
      (w : Writer) → IsFinished w (finish_current_bundle random w)
  unfolding finish_current_bundle
  finish_current_bundle-IsFinished w = finish_with-IsFinished w.current_bundle w refl

  pub current_or_new-IsBundle :
      (o : Option Creator) → ForCurrent IsBundle o → IsBundle (current_or_new o)
  unfolding current_or_new
  current_or_new-IsBundle none h = empty-IsBundle
  current_or_new-IsBundle (some c) h = h

  current_or_new-items : (o : Option Creator) → bundle_items (current_or_new o) ≡ current_items o
  unfolding current_or_new current_items
  current_or_new-items none = bundle_items-empty
  current_or_new-items (some c) = refl

  pub get_current_bundle_id-fields :
      (w : Writer)
      → ((get_current_bundle_id random w).0.index ≡ w.index)
        × ((get_current_bundle_id random w).0.current_bundle ≡ w.current_bundle)
  unfolding get_current_bundle_id
  get_current_bundle_id-fields w = ground arith

  pub finish-ForCurrent :
      (P : Creator → Type 0) (w : Writer)
      → ForCurrent P (finish_current_bundle random w).current_bundle
  finish-ForCurrent P w =
      subst (ForCurrent P) (sym (finish_current_bundle-IsFinished w).none_left) tt

  module _ (id : ChunkId) (bytes : List ℕ) (size : ℕ) (all : size ≡ length bytes)
      (small : size < u32_mod) where
    stored-put_chunk :
        (w : Writer)
        → ForCurrent IsBundle w.current_bundle
        → stored (put_chunk random w id bytes size) ≡ stored w ++ ((to_blob id, bytes) ∷ [])
    unfolding put_chunk stored current_items
    stored-put_chunk w valid =
        rw
          (
            bundle_items-add_chunk (current_or_new w.current_bundle) (to_blob id) bytes size all
                small (current_or_new-IsBundle w.current_bundle valid),
            current_or_new-items,
          )
          (rw (append_assoc, append_assoc))

    stored-emit_to_bundle :
        (w : Writer)
        → ForCurrent IsBundle w.current_bundle
        → stored (emit_to_bundle random w id bytes size) ≡ stored w ++ ((to_blob id, bytes) ∷ [])
    unfolding emit_to_bundle
    stored-emit_to_bundle w valid =
        let w' = (get_current_bundle random w).0 in
        elim (Bool-cases
          (ltb w.max_payload_size (Bundle.payload_size (current_or_new w.current_bundle) + size))) [
            | inl full ↦ rw full (
                stored-put_chunk _ (finish-ForCurrent IsBundle w')
                ∙ ap (λ (t : List Item). t ++ ((to_blob id, bytes) ∷ []))
                    (stored-finish_current_bundle w' ∙ stored-get_current_bundle random w))
            | inr room ↦ rw room (
                stored-put_chunk w' (current_or_new-IsBundle w.current_bundle valid)
                ∙ ap (λ (t : List Item). t ++ ((to_blob id, bytes) ∷ []))
                    (stored-get_current_bundle random w))
          ]

    -- The chunks that `add` appends.
    abbrev pub added_items : Bool → List Item
    added_items true = (to_blob id, bytes) ∷ []
    added_items false = []

    stored-add_registered :
        (w : Writer) (index : ChunkIndex) (added : Bool)
        → ForCurrent IsBundle w.current_bundle
        → ((add_registered random w index added id bytes size).1 ≡ added)
          × (stored (add_registered random w index added id bytes size).0
              ≡ stored w ++ added_items added)
    unfolding add_registered
    stored-add_registered w index true valid =
        (refl, stored-emit_to_bundle (record w { index = index }) valid ∙ unfold stored in refl)
    stored-add_registered w index false valid = (refl, rw append-nil (unfold stored in refl))

    -- `Writer::add` returns true exactly for an id that the index does not have; then the chunk is
    -- appended, under its blob and with its bytes, to all that the repository and the writer hold, and
    -- nothing is lost on the way through a full bundle. Otherwise nothing changes in what is held.
    -- The current bundle's records have to account for its payload.
    pub stored-add :
        (w : Writer)
        → ForCurrent IsBundle w.current_bundle
        → ((add random w id bytes size).1 ≡ is_none (entry w.index id))
          × (stored (add random w id bytes size).0
              ≡ stored w ++ added_items (is_none (entry w.index id)))
    unfolding add
    stored-add w valid =
        let (w', b) = get_current_bundle_id random w in
        let r = ChunkIndex.add_chunk w'.index id (size % u32_mod) b in
        let (same_index, same_current) = get_current_bundle_id-fields w in
        let flag : r.1 ≡ is_none (entry w.index id) =
          (add_chunk-entry w'.index id id (size % u32_mod) b).0
          ∙ ap (λ (x : ChunkIndex). is_none (entry x id)) same_index in
        let (result, held) =
          stored-add_registered w' r.0 r.1 (subst (ForCurrent IsBundle) (sym same_current) valid) in
        (
          result ∙ flag,
          held
              ∙ ap₂ (λ (x : List Item) (f : Bool). x ++ added_items f)
                  (stored-get_current_bundle_id random w) flag,
        )
