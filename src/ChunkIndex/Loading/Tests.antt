-- ===== src/ChunkIndex/Loading/Tests.antt =====
-- Index files at concrete inputs: a file that breaks behind its first bundle, and a good one.
use zbackup.Base.{ℕ, ◌≡◌, refl, ap, subst, true, false, [], ◌∷◌, length, replicate}
use mathlib.Core.List.{Mem, not-mem-nil, mem-cons, mem-cons_self, mem-cons_of_mem}
use mathlib.Core.Logic.Or
use native.Mathlib.Nat.{ℕ_set}
use zbackup.ChunkId.{blob_size, set_from_blob}
use zbackup.Bundle.{BundleInfo, ChunkRecord}
use zbackup.ChunkIndex
use zbackup.ChunkIndex.{ChunkIndex, BundleId}
use zbackup.ChunkIndex.Loading.{IndexFile, load_index, own_processor}
use zbackup.ChunkIndex.Loading.Steps.{Knows}
use zbackup.ChunkIndex.Loading.Sound.{IsSound, all_records, load_index-IsSound}
use zbackup.ChunkIndex.Loading.Known.{HasWholeIds, load_index-Knows}

abbrev one_chunk : ℕ → ChunkRecord
one_chunk n = record { id = replicate 24 n; size = 300 }

abbrev one_bundle : ℕ → BundleInfo × BundleId
one_bundle n = (one_chunk n ∷ [], replicate 24 n)

abbrev broken_file : IndexFile
broken_file = record { name = 1 ∷ []; opens = true; records = one_bundle 1 ∷ []; breaks = true }

abbrev good_file : IndexFile
good_file = record { name = 2 ∷ []; opens = true; records = one_bundle 2 ∷ []; breaks = false }

good_file-HasWholeIds : (p : BundleInfo × BundleId) → Mem p good_file.records → HasWholeIds p.0
good_file-HasWholeIds p m r n =
    Or.elim (ℕ_set _ _) (mem-cons.0 m)
      (λ e. inner (subst (λ (x : BundleInfo × BundleId). Mem r x.0) e n))
      (λ k. absurd (not-mem-nil k))
  where
    inner : Mem r (one_chunk 2 ∷ []) → length r.id ≡ blob_size
    inner l =
        Or.elim (ℕ_set _ _) (mem-cons.0 l) (λ e. ap (λ (x : ChunkRecord). length x.id) e)
          (λ k. absurd (not-mem-nil k))

load_index-IsSound_example :
    IsSound
      (all_records (broken_file ∷ good_file ∷ []))
      (load_index own_processor (broken_file ∷ good_file ∷ []) ChunkIndex.new)
load_index-IsSound_example = load_index-IsSound (broken_file ∷ good_file ∷ [])

load_index-Knows_example :
    Knows
      (load_index own_processor (broken_file ∷ good_file ∷ []) ChunkIndex.new)
      (set_from_blob (replicate 24 2))
load_index-Knows_example =
    load_index-Knows (broken_file ∷ good_file ∷ []) ChunkIndex.new good_file (one_bundle 2)
      (one_chunk 2) (mem-cons_of_mem broken_file mem-cons_self) refl good_file-HasWholeIds
      mem-cons_self mem-cons_self
