-- ===== src/BackupCollector/Bundles.antt =====
-- A bundle goes through the collector, and no used chunk of it is lost.
use zbackup.Base.{
  ℕ, ◌+◌, ◌≡◌, refl, ap, ◌∙◌, if◌then◌else◌, inl, inr, ◌⊎◌, Bool, true, false, not, ◌&&◌, Option,
  some, List, [], ◌∷◌, ◌++◌, reverse, arith, ltb, ◌==◌, if_true, if_false, Bool-cases, length, All,
  ◌>>=◌, subst,
}
use mathlib.Core.List.{reverse-reverse}
use zbackup.ChunkId.{blob_size}
use zbackup.ChunkIndex.{BundleId}
use zbackup.Bundle.{BundleInfo, ChunkRecord, Chunks}
use zbackup.ChunkStorage
use zbackup.ChunkStorage.{Writer}
use zbackup.Bundle.Items.{IsBundle}
use zbackup.ChunkStorage.Known.{IsKnown}
use zbackup.ChunkStorage.Writing.{ForCurrent}
use zbackup.ChunkStorage.Reader.Caching.{IsReader}
use zbackup.BackupCollector.{
  BundleCollector, bundle_file, in_set, start_bundle, unlink_bundle, remove_bundle,
  copy_used_chunks, modify_bundle, keep_bundle, finish_used, finish_bundle,
}
use zbackup.BackupCollector.Counting.{
  record_id, count_used, process_all, process_all-counts, All-reverse, count_used-le, none_used,
}
use zbackup.BackupCollector.Copying.{
  AllReadable, AllKnown, IsCopy, IsCopy-refl, copied, copy_loop-copied, unused-known,
}

-- A record of an index file, from its header to its end.
pub collect :
    (ℕ → List ℕ)
    → (BundleId → Option Chunks)
    → BundleCollector
    → BundleId
    → BundleInfo
    → Option BundleCollector
collect random read_bundle c bundle_id info =
    finish_bundle random read_bundle (process_all (reverse info) (start_bundle c bundle_id))
      bundle_id info

module _ (random : ℕ → List ℕ) (read_bundle : BundleId → Option Chunks) where
  -- The bundle is listed in the new index as it is, since all its chunks are used.
  abbrev pub Kept : BundleCollector → BundleId → BundleInfo → BundleCollector → Type 0
  Kept c bundle_id info c' =
      (c'.files_to_unlink ≡ c.files_to_unlink)
      × (c'.writer ≡ ChunkStorage.add_bundle c.writer info bundle_id)
      × (count_used c.used_chunk_set (reverse info) ≡ length (reverse info))

  -- The bundle will be unlinked, and the chunks of it that are used are in the new index; what the index
  -- did not have is held with the bytes of the old bundles.
  abbrev pub Gone : BundleCollector → BundleId → BundleInfo → BundleCollector → Type 0
  Gone c bundle_id info c' =
      (c'.files_to_unlink ≡ c.files_to_unlink ++ (bundle_file bundle_id ∷ []))
      × AllKnown random read_bundle c.used_chunk_set c'.writer.index info
      × IsCopy random read_bundle c.reader.index c.writer c'.writer

  modify_bundle-Gone :
      (c : BundleCollector) (info : BundleInfo)
      → All (λ (r : ChunkRecord). length r.id ≡ blob_size) info
      → IsReader read_bundle c.reader
      → ForCurrent IsBundle c.writer.current_bundle
      → AllReadable random read_bundle c.used_chunk_set c.reader.index info
      → (c' : BundleCollector) × (modify_bundle random read_bundle c info ≡ some c')
        × IsReader read_bundle c'.reader
        × Gone c c.saved_id info c'
  unfolding modify_bundle copy_used_chunks unlink_bundle
  modify_bundle-Gone c info sizes h valid readable =
      let (r, w, made, h', copy, known) =
        copy_loop-copied random read_bundle (reverse info) (unlink_bundle c) [] 0
          (All-reverse _ info sizes) h valid (All-reverse _ info readable) in
      (
        record (copied random read_bundle (unlink_bundle c) r w) {
          index_modified_bundles = c.index_modified_bundles + 1;
        },
        ap
            (λ (o : Option BundleCollector). o >>= λ (t : BundleCollector).
              some (record t { index_modified_bundles = t.index_modified_bundles + 1 }))
            made,
        h',
        (
          refl,
          subst (AllKnown random read_bundle c.used_chunk_set w.index) (reverse-reverse info) (
              All-reverse
                (λ (t : ChunkRecord).
                  in_set (record_id t) c.used_chunk_set ≡ true → IsKnown w.index (record_id t))
                (reverse info) known),
          copy,
        ),
      )

  -- Without `gcDeep`, a bundle of the index either stays, listed in the new index as it is, which
  -- happens only if all its chunks are used; or it goes to the files to unlink, and then every chunk of
  -- it that is used is known to the new index. Nothing that the writer held is lost, and each chunk that
  -- the new index did not know before is held by the writer with the bytes that the bundle named by the
  -- old index has under its id. One of the two is done, whether the bundle is repacked or not. The ids
  -- have the right size, every used one of them is in a bundle that can be read and has it, the cache
  -- holds what is in the bundles, and the records of the writer's current bundle account for its payload.
  pub collect-safe :
      (c : BundleCollector) (bundle_id : BundleId) (info : BundleInfo)
      → c.gc_deep ≡ false
      → All (λ (r : ChunkRecord). length r.id ≡ blob_size) info
      → IsReader read_bundle c.reader
      → ForCurrent IsBundle c.writer.current_bundle
      → AllReadable random read_bundle c.used_chunk_set c.reader.index info
      → (c' : BundleCollector) × (collect random read_bundle c bundle_id info ≡ some c')
        × IsReader read_bundle c'.reader
        × (Kept c bundle_id info c' ⊎ Gone c bundle_id info c')
  unfolding collect finish_bundle finish_used start_bundle remove_bundle unlink_bundle keep_bundle
  collect-safe c bundle_id info shallow sizes h valid readable =
      let records = reverse info in
      let used = count_used c.used_chunk_set records in
      let (necessary, counted) = process_all-counts records (start_bundle c bundle_id) shallow in
      let d : BundleCollector = record c {
        saved_id = bundle_id;
        total_chunks = 0 + length records;
        used_chunks = 0 + used;
        index_necessary = necessary;
        index_total_chunks = c.index_total_chunks + (0 + length records);
        index_used_chunks = c.index_used_chunks + (0 + used);
      } in
      let first : collect random read_bundle c bundle_id info ≡ (
          if ((0 + used) == 0) && not ((0 + length records) == 0)
          then some (remove_bundle d)
          else if ltb (0 + used) (0 + length records)
          then modify_bundle random read_bundle d info
          else finish_used random read_bundle d bundle_id info) =
        ap (λ (t : BundleCollector). finish_bundle random read_bundle t bundle_id info) counted in
      let (c₁, made, h₁, gone) = modify_bundle-Gone d info sizes h valid readable in
      elim (Bool-cases (((0 + used) == 0) && not ((0 + length records) == 0))) [
        | inl empty ↦
            let unused : used ≡ 0 = ground (arith, empty) in
            (
              remove_bundle d,
              first ∙ if_true _ _ empty,
              h,
              inr (
                refl,
                subst (AllKnown random read_bundle c.used_chunk_set c.writer.index)
                    (reverse-reverse info)
                    (unused-known random read_bundle c.used_chunk_set c.writer.index
                      (reverse records)
                      (All-reverse _ records (none_used c.used_chunk_set records unused))),
                IsCopy-refl random read_bundle c.reader.index c.writer valid,
              ),
            )
        | inr some_used ↦ elim (Bool-cases (ltb (0 + used) (0 + length records))) [
          | inl part ↦ (c₁, first ∙ if_false _ _ some_used ∙ if_true _ _ part ∙ made, h₁, inr gone)
          | inr whole ↦ elim (Bool-cases c.gc_repack) [
            | inl repack ↦ (
              c₁,
              first ∙ if_false _ _ some_used ∙ if_false _ _ whole ∙ if_true _ _ repack ∙ made,
              h₁,
              inr gone,
            )
            | inr plain ↦
                let all : used ≡ length records =
                  ground (arith, whole, count_used-le c.used_chunk_set records) in
                (
                  keep_bundle random read_bundle d bundle_id info,
                  first
                      ∙ if_false _ _ some_used
                      ∙ if_false _ _ whole
                      ∙ if_false _ _ plain
                      ∙ ap some (if_false _ _ (and_left c.gc_deep _ shallow)),
                  h,
                  inl (refl, refl, all),
                )
          ]
        ]
      ]
    where
      and_left : (a b : Bool) → a ≡ false → (a && b) ≡ false
      and_left true b e = cc
      and_left false b e = refl
