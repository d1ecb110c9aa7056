-- ===== src/ChunkStorage/Publishing.antt =====
-- `commit` and `reset`.
use zbackup.Base.{
  ℕ, ◌≡◌, refl, sym, ap, ◌∙◌, subst, Option, none, some, List, [], ◌∷◌, ◌++◌, append-nil, All, Bool,
  true, false, ◌⊎◌, inl, inr, Bool-cases,
}
use mathlib.Core.Logic.Or
use mathlib.Core.List.{Mem, Mem-prop, not-mem-nil, mem-cons, Perm, mem-append_right, mem-cons_self}
use mathlib.Core.List.Perm
use zbackup.ChunkIndex.{BundleId}
use zbackup.Bundle.{Creator}
use zbackup.ChunkStorage.{
  Writer, IndexRecord, records_of, finish_current_bundle, move_bundles, move_index, commit, reset,
  is_taken, publish,
}
use zbackup.ChunkStorage.Items.{disk_items, pending_items, current_items, stored}
use zbackup.ChunkStorage.Writing.{finish_current_bundle-IsFinished, stored-finish_current_bundle}
use zbackup.ChunkStorage.Invariant.{IsWriter, IsListed, finish_current_bundle-IsWriter}
use zbackup.ChunkStorage.Moving.{
  Perm_of_eq, moves, AllFree, move_bundles-free, moves-append, move_bundles-cases,
  move_bundles-free_before, disk_items-moves, mem-moves,
}

-- An index file in the directory has the record.
abbrev pub IsPublished : List (List ℕ × List IndexRecord) → IndexRecord → Type 0
IsPublished files r =
    (name : List ℕ) × (records : List IndexRecord) × Mem (name, records) files × Mem r records

listed-mem :
    (records : List IndexRecord) (pending : List (Creator × BundleId)) (c : Creator) (id : BundleId)
    → All (IsListed records) pending
    → Mem (c, id) pending
    → Mem (c.info, id) records
listed-mem records [] c id h m = absurd (not-mem-nil m)
listed-mem records ((d, key) ∷ pending) c id (here, h) m =
    Or.elim Mem-prop (mem-cons.0 m)
      (λ e. subst (λ (p : Creator × BundleId). Mem (p.0.info, p.1) records) (sym e) here)
      (listed-mem records pending c id h)

module _ (random : ℕ → List ℕ) where
  -- The index file is moved, or its name is taken.
  record IsIndexed (o : Option (List IndexRecord)) (w : Writer) (r : Writer × Bool) : Type 0 where
    same_bundles : r.0.bundles ≡ w.bundles
    same_pending : r.0.pending_bundle_renames ≡ w.pending_bundle_renames
    same_current : r.0.current_bundle ≡ w.current_bundle
    closed : r.0.index_file ≡ none
    published :
        ((r.1 ≡ true) × ((x : IndexRecord) → Mem x (records_of o) → IsPublished r.0.index_files x))
        ⊎ ((r.1 ≡ false) × (r.0.index_files ≡ w.index_files))

  move_index-IsIndexed :
      (o : Option (List IndexRecord)) (w : Writer)
      → w.index_file ≡ o
      → IsIndexed o w (move_index random w o)
  unfolding move_index records_of
  move_index-IsIndexed none w e = record {
    same_bundles = refl;
    same_pending = refl;
    same_current = refl;
    closed = e;
    published = inl (refl, λ x m. absurd (not-mem-nil m));
  }
  move_index-IsIndexed (some r) w e =
      elim (Bool-cases (is_taken (random w.random_calls) w.index_files)) [
        | inl taken ↦ rw taken (record {
          same_bundles = refl;
          same_pending = refl;
          same_current = refl;
          closed = refl;
          published = inr (refl, refl);
        })
        | inr free ↦ rw free (record {
          same_bundles = refl;
          same_pending = refl;
          same_current = refl;
          closed = refl;
          published = inl (
            refl,
            λ x m. (random w.random_calls, r, mem-append_right w.index_files mem-cons_self, m),
          );
        })
      ]

  move_index-free :
      (o : Option (List IndexRecord)) (w : Writer)
      → is_taken (random w.random_calls) w.index_files ≡ false
      → (move_index random w o).1 ≡ true
  unfolding move_index
  move_index-free none w free = refl
  move_index-free (some r) w free = rw free refl

  -- The writer that moves its index file last.
  abbrev moved_all : Writer → Writer
  moved_all w = record w {
    bundles = moves w.pending_bundle_renames w.bundles;
    pending_bundle_renames = [];
  }

  commit-cases :
      (w : Writer)
      → let w₁ = finish_current_bundle random w in
        (((move_bundles w₁.pending_bundle_renames w₁.bundles).1 ≡ true)
          × (commit random w ≡ move_index random (moved_all w₁) w₁.index_file))
        ⊎ ((more : List (BundleId × Creator)) × (commit random w
              ≡ (record w₁ { bundles = w₁.bundles ++ more }, false)))
  unfolding commit publish
  commit-cases w =
      let w₁ = finish_current_bundle random w in
      elim (move_bundles-cases w₁.pending_bundle_renames w₁.bundles) [
        | inl all ↦
            inl (ap (λ (r : List (BundleId × Creator) × Bool). r.1) all, ap (publish random w₁) all)
        | inr (more, failed) ↦ inr (more, ap (publish random w₁) failed)
      ]

  -- What is so after a commit that threw nothing.
  pub record IsCommitted (w w' : Writer) : Type 0 where
    pub none_left : w'.current_bundle ≡ none
    pub none_pending : w'.pending_bundle_renames ≡ []
    pub closed : w'.index_file ≡ none
    pub moved : Perm (disk_items w'.bundles) (stored w)

  moved_all-IsCommitted :
      (w : Writer)
      → let w₁ = finish_current_bundle random w in
        IsCommitted w (move_index random (moved_all w₁) w₁.index_file).0
  moved_all-IsCommitted w =
      let w₁ = finish_current_bundle random w in
      let d = finish_current_bundle-IsFinished random w in
      let x = move_index-IsIndexed w₁.index_file (moved_all w₁) refl in
      record {
        none_left = x.same_current ∙ d.none_left;
        none_pending = x.same_pending;
        closed = x.closed;
        moved = Perm.trans (Perm_of_eq (ap disk_items x.same_bundles)) (
            Perm.trans (disk_items-moves w₁.pending_bundle_renames w₁.bundles)
              (Perm_of_eq (held w₁ d.none_left ∙ stored-finish_current_bundle random w)));
      }
    where
      held :
          (v : Writer)
          → v.current_bundle ≡ none
          → disk_items v.bundles ++ pending_items v.pending_bundle_renames ≡ stored v
      held v e = unfold stored current_items in rw (e, append-nil)

  pub commit-IsCommitted :
      (w : Writer) → (commit random w).1 ≡ true → IsCommitted w (commit random w).0
  commit-IsCommitted w fine = elim (commit-cases w) [
    | inl (free, all) ↦
        subst (λ (r : Writer × Bool). IsCommitted w r.0) (sym all) (moved_all-IsCommitted w)
    | inr (more, failed) ↦ absurd (cc (fine, ap (λ (r : Writer × Bool). r.1) failed))
  ]

  -- Where the names of the bundles that wait, and the random name for the index file, are free and
  -- differ, `commit` throws nothing and leaves nothing behind: no bundle is being filled, none waits
  -- and no index file is open, and the chunks in the bundle directory are exactly, up to their order,
  -- those that the directory and the writer held before.
  pub commit-stored :
      (w : Writer)
      → AllFree (finish_current_bundle random w).pending_bundle_renames w.bundles
      → is_taken (random (finish_current_bundle random w).random_calls) w.index_files ≡ false
      → ((commit random w).1 ≡ true)
        × ((commit random w).0.current_bundle ≡ none)
        × ((commit random w).0.pending_bundle_renames ≡ [])
        × ((commit random w).0.index_file ≡ none)
        × Perm (disk_items (commit random w).0.bundles) (stored w)
  unfolding commit publish
  commit-stored w free index_free =
      let w₁ = finish_current_bundle random w in
      let d = finish_current_bundle-IsFinished random w in
      let all =
        move_bundles-free w₁.pending_bundle_renames w₁.bundles
          (subst (AllFree w₁.pending_bundle_renames) (sym d.same_bundles) free) in
      let fine : (commit random w).1 ≡ true =
        ap (λ (r : List (BundleId × Creator) × Bool). (publish random w₁ r).1) all
        ∙ move_index-free w₁.index_file (moved_all w₁)
            (ap (is_taken (random w₁.random_calls)) d.same_index_files ∙ index_free) in
      let c = commit-IsCommitted w fine in (fine, c.none_left, c.none_pending, c.closed, c.moved)

  -- From a writer in its invariant, every bundle that waits when `commit` has closed the current one
  -- is moved into the directory under its id, which no file there had, and a published index file lists its info under that
  -- id; or `commit` throws since a name is taken, and then no index file is published, and the files
  -- of the bundle directory are those from before and possibly more behind them.
  pub commit-IsPublished :
      (w : Writer) (c : Creator) (id : BundleId)
      → IsWriter w
      → Mem (c, id) (finish_current_bundle random w).pending_bundle_renames
      → (((commit random w).1 ≡ true)
          × (is_taken id w.bundles ≡ false)
          × Mem (id, c) (commit random w).0.bundles
          × IsPublished (commit random w).0.index_files (c.info, id))
        ⊎ (((commit random w).1 ≡ false)
            × ((commit random w).0.index_files ≡ w.index_files)
            × ((more : List (BundleId × Creator)) × ((commit random w).0.bundles
                  ≡ w.bundles ++ more)))
  commit-IsPublished w c id v m =
      let w₁ = finish_current_bundle random w in
      let d = finish_current_bundle-IsFinished random w in
      let v₁ = finish_current_bundle-IsWriter random w v in
      let x = move_index-IsIndexed w₁.index_file (moved_all w₁) refl in
      elim (commit-cases w) [
        | inl (free, all) ↦ elim x.published [
          | inl (fine, listed) ↦ inl (
            ap (λ (r : Writer × Bool). r.1) all ∙ fine,
            subst (λ (t : List (BundleId × Creator)). is_taken id t ≡ false) d.same_bundles
                (move_bundles-free_before w₁.pending_bundle_renames w₁.bundles c id free m),
            subst (λ (r : Writer × Bool). Mem (id, c) r.0.bundles) (sym all)
                (subst (Mem (id, c)) (sym x.same_bundles)
                  (mem-moves w₁.pending_bundle_renames w₁.bundles c id m)),
            subst (λ (r : Writer × Bool). IsPublished r.0.index_files (c.info, id)) (sym all)
                (listed (c.info, id)
                  (listed-mem (records_of w₁.index_file) w₁.pending_bundle_renames c id v₁.listed
                    m)),
          )
          | inr (failed, same) ↦
              let (more, e) = moves-append w₁.pending_bundle_renames w₁.bundles in
              inr (
                ap (λ (r : Writer × Bool). r.1) all ∙ failed,
                ap (λ (r : Writer × Bool). r.0.index_files) all ∙ same ∙ d.same_index_files,
                (
                  more,
                  ap (λ (r : Writer × Bool). r.0.bundles) all
                      ∙ x.same_bundles
                      ∙ e
                      ∙ ap (λ (t : List (BundleId × Creator)). t ++ more) d.same_bundles,
                ),
              )
        ]
        | inr (more, failed) ↦ inr (
          ap (λ (r : Writer × Bool). r.1) failed,
          ap (λ (r : Writer × Bool). r.0.index_files) failed ∙ d.same_index_files,
          (
            more,
            ap (λ (r : Writer × Bool). r.0.bundles) failed
                ∙ ap (λ (t : List (BundleId × Creator)). t ++ more) d.same_bundles,
          ),
        )
      ]

  -- `reset` throws the new chunks away and leaves the directories alone: what is held afterwards is
  -- what the bundle directory holds, and no index file is open.
  pub reset-stored :
      (w : Writer)
      → (stored (reset random w) ≡ disk_items w.bundles)
        × ((reset random w).bundles ≡ w.bundles)
        × ((reset random w).index_files ≡ w.index_files)
        × ((reset random w).index_file ≡ none)
  unfolding reset
  reset-stored w =
      let d = finish_current_bundle-IsFinished random w in
      (
        unfold stored current_items pending_items in rw (d.none_left, d.same_bundles, append-nil),
        d.same_bundles,
        d.same_index_files,
        refl,
      )
