-- ===== src/ChunkStorage/Stock.antt =====
-- `Writer::add` and `commit`: the chunks behind the ids that the index knows.
use zbackup.Base.{
  ℕ, ◌%◌, ◌<◌, ◌≡◌, refl, sym, ap, ap₂, ◌∙◌, subst, ◌⊎◌, inl, inr, Bool, true, false, Option, some,
  List, [], ◌∷◌, ◌++◌, Bool-cases, Option-cases, if_true, if_false, length, append-nil,
}
use zbackup.Base.Bytes.{u32_mod, bytes_eq, bytes_eq_iff}
use mathlib.Core.Logic.Or
use mathlib.Core.Option.{some-injective}
use mathlib.Core.List.Perm
use mathlib.Core.List.{
  Mem, Mem-prop, not-mem-nil, mem-cons, mem-append_left, mem-append, mem-append_right,
  mem-cons_self,
}
use zbackup.ChunkId.{ChunkId, to_blob}
use zbackup.ChunkIndex
use zbackup.ChunkIndex.{ChunkIndex, BundleId, Chain}
use zbackup.ChunkIndex.Entries.{entry, is_none, same_id, after_add, add_chunk-entry}
use zbackup.ChunkIndex.Finding.{same_id-equal}
use zbackup.Bundle.{Creator}
use zbackup.Bundle.RoundTrip.{Item, item}
use zbackup.Bundle.Items.{IsBundle}
use zbackup.ChunkStorage.{Writer, get_current_bundle_id, add, commit}
use zbackup.ChunkStorage.Items.{disk_items, stored}
use zbackup.ChunkStorage.Writing.{ForCurrent, stored-add, added_items}
use zbackup.ChunkStorage.Known.{IsKnown, add-index, commit-index}
use zbackup.ChunkStorage.Publishing.{commit-IsCommitted}

-- A chunk is held under the id.
abbrev pub Holds : List Item → ChunkId → Type 0
Holds items id = (bytes : List ℕ) × Mem (to_blob id, bytes) items

-- `hash` gives the id of a chunk. Every id that the index knows has a chunk in the bundles, and every
-- chunk is held under its own id.
pub record IsStock (hash : List ℕ → ChunkId) (index : ChunkIndex) (items : List Item) : Type 0 where
  pub held : (id : ChunkId) → IsKnown index id → Holds items id
  pub hashed :
      (blob bytes : List ℕ) → Mem {A = Item} (blob, bytes) items → blob ≡ to_blob (hash bytes)

-- The chunk under an id in the bundles of the directory.
unfoldable pub fetch : List (BundleId × Creator) → ChunkId → Option (List ℕ)
fetch bundles id = item (to_blob id) (disk_items bundles)

item-Mem :
    (id bytes : List ℕ) (items : List Item) → item id items ≡ some bytes → Mem (id, bytes) items
unfolding item
item-Mem id bytes [] e = absurd (cc e)
item-Mem id bytes ((key, found) ∷ items) e = elim (Bool-cases (bytes_eq key id)) [
  | inl same ↦
      let equal : (key, found) ≡ (id, bytes) =
        ap₂ (λ (k : List ℕ) (b : List ℕ). (k, b)) ((bytes_eq_iff key id).0 same)
          (some-injective found bytes (sym (if_true _ _ same) ∙ e)) in
      subst (λ (x : Item). Mem (id, bytes) (x ∷ items)) (sym equal) mem-cons_self
  | inr other ↦ Mem-cons _ (item-Mem id bytes items (sym (if_false _ _ other) ∙ e))
]
  where
    Mem-cons : (x : Item) → Mem (id, bytes) items → Mem (id, bytes) (x ∷ items)
    Mem-cons x m = mem-append_right (x ∷ []) m

item-some :
    (id bytes : List ℕ) (items : List Item)
    → Mem (id, bytes) items
    → (found : List ℕ) × (item id items ≡ some found)
unfolding item
item-some id bytes [] m = absurd (not-mem-nil m)
item-some id bytes ((key, found) ∷ items) m = elim (Bool-cases (bytes_eq key id)) [
  | inl same ↦ (found, if_true _ _ same)
  | inr other ↦
      let (later, e) = item-some id bytes items (
        Or.elim Mem-prop (mem-cons.0 m)
          (λ e. absurd (cc (other, (bytes_eq_iff key id).1 (sym (ap (λ (x : Item). x.0) e)))))
          (λ rest. rest)) in
      (later, if_false _ _ other ∙ e)
]

-- A known id is fetched, and what is fetched has the id.
pub fetch-IsStock :
    (hash : List ℕ → ChunkId) (index : ChunkIndex) (bundles : List (BundleId × Creator))
    (id : ChunkId)
    → IsStock hash index (disk_items bundles)
    → IsKnown index id
    → (bytes : List ℕ) × (fetch bundles id ≡ some bytes) × (to_blob id ≡ to_blob (hash bytes))
unfolding fetch
fetch-IsStock hash index bundles id s known =
    let (bytes, m) = s.held id known in
    let (found, e) = item-some (to_blob id) bytes (disk_items bundles) m in
    (found, e, s.hashed (to_blob id) found (item-Mem (to_blob id) found (disk_items bundles) e))

module _ (random : ℕ → List ℕ) (hash : List ℕ → ChunkId) where
  -- The writer with all that it holds.
  abbrev pub IsStocked : Writer → Type 0
  IsStocked w = IsStock hash w.index (stored w)

  -- An id that is known after `add` was known, or is the one that was added.
  pub added-cases :
      (w : Writer) (id q : ChunkId) (bytes : List ℕ) (size : ℕ)
      → IsKnown (add random w id bytes size).0.index q
      → IsKnown w.index q ⊎ ((q ≡ id) × (is_none (entry w.index id) ≡ true))
  added-cases w id q bytes size known =
      let b = (get_current_bundle_id random w).1 in
      let e = (add_chunk-entry w.index id q (size % u32_mod) b).1 in
      let known' : IsKnown (ChunkIndex.add_chunk w.index id (size % u32_mod) b).0 q =
        subst (λ (i : ChunkIndex). IsKnown i q) (add-index random id bytes size w) known in
      elim (Option-cases (entry w.index id)) [
        | inl new ↦ elim (Bool-cases (same_id id q)) [
          | inl same ↦ inr (sym (same_id-equal id q same), rw new refl)
          | inr other ↦ inl (
              ap is_none
                (sym (e ∙ ap (after_add w.index id (size % u32_mod) b q) new ∙ if_false _ _ other))
              ∙ known')
        ]
        | inr (x, old) ↦
            inl (ap is_none (sym (e ∙ ap (after_add w.index id (size % u32_mod) b q) old)) ∙ known')
      ]

  -- `add` under the chunk's own id keeps the stock.
  pub add-IsStocked :
      (w : Writer) (bytes : List ℕ)
      → ForCurrent IsBundle w.current_bundle
      → length bytes < u32_mod
      → IsStocked w
      → IsStocked (add random w (hash bytes) bytes (length bytes)).0
  add-IsStocked w bytes valid small s =
      let id = hash bytes in
      let new = added_items random id bytes (length bytes) refl small in
      let e = (stored-add random id bytes (length bytes) refl small w valid).1 in
      record {
        held = λ q known.
            subst (λ (t : List Item). Holds t q) (sym e)
              (elim (added-cases w id q bytes (length bytes) known) [
                | inl old ↦ let (found, m) = s.held q old in (found, mem-append_left _ m)
                | inr (same, missing) ↦ (
                  bytes,
                  mem-append_right (stored w) (
                      subst (λ (f : Bool). Mem {A = Item} (to_blob q, bytes) (new f)) (sym missing)
                        (subst
                          (λ (i : ChunkId).
                            Mem {A = Item} (to_blob q, bytes) ((to_blob i, bytes) ∷ []))
                          same mem-cons_self)),
                )
              ]);
        hashed = λ blob found m.
            from_new blob found (is_none (entry w.index id))
              (subst (λ (t : List Item). Mem {A = Item} (blob, found) t) e m);
      }
    where
      id' : ChunkId
      id' = hash bytes

      from_new :
          (blob found : List ℕ) (f : Bool)
          → Mem {A = Item}
              (blob, found)
              (stored w ++ added_items random id' bytes (length bytes) refl small f)
          → blob ≡ to_blob (hash found)
      from_new blob found false m =
          s.hashed blob found (subst (Mem {A = Item} (blob, found)) (append-nil (stored w)) m)
      from_new blob found true m = Or.elim (hlevel) (mem-append.0 m) (s.hashed blob found) (λ m'.
          Or.elim (hlevel) (mem-cons.0 m')
            (λ e. ap (λ (x : Item). x.0) e ∙ ap (λ (x : Item). to_blob (hash x.1)) (sym e))
            (λ nothing. absurd (not-mem-nil nothing)))

  -- After a commit that threw nothing the stock is in the directory.
  pub commit-IsStock :
      (w : Writer)
      → IsStocked w
      → (commit random w).1 ≡ true
      → IsStock hash (commit random w).0.index (disk_items (commit random w).0.bundles)
  commit-IsStock w s fine =
      let p = (commit-IsCommitted random w fine).moved in
      record {
        held = λ id known.
            let (bytes, m) =
              s.held id (subst (λ (i : ChunkIndex). IsKnown i id) (commit-index random w) known) in
            (bytes, (Perm.mem_iff p).1 m);
        hashed = λ blob bytes m. s.hashed blob bytes ((Perm.mem_iff p).0 m);
      }
