-- ===== src/BackupRestorer/ToFile/Mapping.antt =====
-- The chunks of a map are written to their places.
use zbackup.Base.{
  ℕ, ◌≡◌, sym, ap, ◌∙◌, inl, inr, subst, Option, some, List, [], ◌∷◌, ◌++◌, length, All, All-append,
  append_assoc, append-nil, ◌>>=◌,
}
use mathlib.Core.Option.{some-injective}
use zbackup.ChunkId.{ChunkId}
use zbackup.ChunkIndex.{BundleId}
use zbackup.BackupCreator.{BackupInstruction}
use zbackup.BackupRestorer.{ChunkPosition, ChunkMap}
use zbackup.BackupRestorer.ToFile.{restore_positions, restore_map}
use zbackup.BackupRestorer.ToFile.Writes.{Any, IsPart, IsIn}
use zbackup.BackupRestorer.ToFile.Covering.{AllOf, AnyOf, Any-append_left, Any-append_right}
use zbackup.BackupRestorer.ToFile.Filling.{IsChunk, HasByte}

-- The index knows the size of every chunk that can be got.
module _ (get : ChunkId → Option (List ℕ)) (get_bundle_id : ChunkId → Option (BundleId × ℕ))
    (parse : List ℕ → Option (List BackupInstruction))
    (sized : (id : ChunkId) (chunk : List ℕ)
      → get id ≡ some chunk
      → (bundle_id : BundleId) × (get_bundle_id id ≡ some (bundle_id, length chunk))) where
  -- The chunks of a bundle are written to their places.
  restore_positions-parts :
      (data_ : List ℕ) (positions : ChunkPosition) (writes : List (ℕ × List ℕ))
      → All (IsChunk get get_bundle_id parse sized data_) positions
      → (more : List (ℕ × List ℕ)) × (restore_positions get get_bundle_id parse positions writes
          ≡ some (writes ++ more))
        × All (IsPart data_) more
        × ((i : ℕ) → Any (HasByte get get_bundle_id parse sized i) positions → Any (IsIn i) more)
  unfolding restore_positions
  restore_positions-parts data_ [] writes h =
      ([], ap some (sym (append-nil writes)), tt, λ i none_left. none_left)
  restore_positions-parts data_ ((id, position) ∷ positions) writes ((chunk, got, part), h) =
      let (more, rest, parts, covered) =
        restore_positions-parts data_ positions (writes ++ ((position, chunk) ∷ [])) h in
      (
        (position, chunk) ∷ more,
        ap
              (λ (o : Option (List ℕ)). o >>= λ (c : List ℕ).
                restore_positions get get_bundle_id parse positions
                  (writes ++ ((position, c) ∷ [])))
              got
            ∙ rest
            ∙ ap some (append_assoc writes ((position, chunk) ∷ []) more),
        (part, parts),
        λ i. one i more (covered i),
      )
    where
      one :
          (i : ℕ) (more : List (ℕ × List ℕ))
          → (Any (HasByte get get_bundle_id parse sized i) positions → Any (IsIn i) more)
          → Any (HasByte get get_bundle_id parse sized i) ((id, position) ∷ positions)
          → Any (IsIn i) ((position, chunk) ∷ more)
      one i more later (inl (chunk', got', inside)) = inl (
          subst (λ (c : List ℕ). IsIn i (position, c))
            (some-injective chunk' chunk (sym got' ∙ got)) inside)
      one i more later (inr there) = inr (later there)

  pub restore_map-parts :
      (data_ : List ℕ) (m : ChunkMap) (writes : List (ℕ × List ℕ))
      → AllOf (IsChunk get get_bundle_id parse sized data_) m
      → (more : List (ℕ × List ℕ)) × (restore_map get get_bundle_id parse m writes
          ≡ some (writes ++ more))
        × All (IsPart data_) more
        × ((i : ℕ) → AnyOf (HasByte get get_bundle_id parse sized i) m → Any (IsIn i) more)
  unfolding restore_map
  restore_map-parts data_ [] writes h =
      ([], ap some (sym (append-nil writes)), tt, λ i none_left. none_left)
  restore_map-parts data_ ((key, positions) ∷ m) writes (here, there) =
      let (first, made, parts, covered) = restore_positions-parts data_ positions writes here in
      let (more, rest, parts', covered') = restore_map-parts data_ m (writes ++ first) there in
      (
        first ++ more,
        ap (λ (o : Option (List (ℕ × List ℕ))). o >>= restore_map get get_bundle_id parse m) made
            ∙ rest
            ∙ ap some (append_assoc writes first more),
        All-append (IsPart data_) first more parts parts',
        λ i. both i first more (covered i) (covered' i),
      )
    where
      both :
          (i : ℕ) (first more : List (ℕ × List ℕ))
          → (Any (HasByte get get_bundle_id parse sized i) positions → Any (IsIn i) first)
          → (AnyOf (HasByte get get_bundle_id parse sized i) m → Any (IsIn i) more)
          → AnyOf (HasByte get get_bundle_id parse sized i) ((key, positions) ∷ m)
          → Any (IsIn i) (first ++ more)
      both i first more f g (inl h) = Any-append_left (IsIn i) first more (f h)
      both i first more f g (inr h) = Any-append_right (IsIn i) first more (g h)
