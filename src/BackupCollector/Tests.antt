-- ===== src/BackupCollector/Tests.antt =====
-- The collector at a bundle with a chunk that is used and one that is not.
use zbackup.Base.{ℕ, ◌≡◌, refl, false, Option, none, some, List, [], ◌∷◌, ◌⊎◌, arith, replicate}
use zbackup.Base.Bytes.{bytes_eq, memcmp, to_le, from_le}
use zbackup.ChunkId.{ChunkId, to_blob, set_from_blob, less_than}
use zbackup.ChunkIndex
use zbackup.ChunkIndex.{ChunkIndex, BundleId, find_chunk_id, find, find_node, report}
use zbackup.Bundle
use zbackup.Bundle.{BundleInfo, Chunks}
use zbackup.ChunkStorage.Reader
use zbackup.ChunkStorage.Reader.Caching.{IsReader, new-IsReader}
use zbackup.BackupCollector.{BundleCollector, in_set, new}
use zbackup.BackupCollector.Copying.{Readable}
use zbackup.BackupCollector.Bundles.{collect, collect-safe, Kept, Gone}

abbrev some_id : ℕ → ChunkId
some_id n = record { crypto_hash = replicate 16 n; rolling_hash = n }

abbrev two_chunks : BundleId → Option Chunks
two_chunks id =
    some ((to_blob (some_id 5), 1 ∷ 2 ∷ 3 ∷ [], 3) ∷ (to_blob (some_id 6), 4 ∷ [], 1) ∷ [])

abbrev two_records : BundleInfo
two_records =
    record { id = to_blob (some_id 5); size = 3 }
    ∷ record { id = to_blob (some_id 6); size = 1 }
    ∷ []

abbrev old_bundle : BundleId
old_bundle = replicate 24 9

abbrev old_index : ChunkIndex
old_index = record {
  hash_table =
      (5, record { crypto_hash = replicate 16 5; size = 3; bundle_id = some old_bundle } ∷ []) ∷ [];
  last_bundle_id = none;
}

abbrev fresh_ids : ℕ → List ℕ
fresh_ids n = replicate 24 n

abbrev collector : BundleCollector
collector =
    record (new (Reader.new old_index 100 200)
      (record {
        max_payload_size = 100;
        index = ChunkIndex.new;
        current_bundle = none;
        current_bundle_id = [];
        has_current_bundle_id = false;
        index_file = none;
        pending_bundle_renames = [];
        random_calls = 0;
        bundles = [];
        index_files = [];
      })
      false false false) { used_chunk_set = some_id 5 ∷ [] }

unused_false : in_set (some_id 6) (some_id 5 ∷ []) ≡ false
unfolding in_set less_than memcmp to_le
unused_false = refl

five_of_old : Readable fresh_ids two_chunks old_index (some_id 5)
unfolding to_blob to_le find_chunk_id find find_node report bytes_eq Bundle.find
five_of_old =
    (1 ∷ 2 ∷ 3 ∷ [], ((old_bundle, 3), _, 1 ∷ 2 ∷ 3 ∷ [], refl, refl, refl, refl, omega arith))

collect-safe_example :
    (c' : BundleCollector) × (collect fresh_ids two_chunks collector old_bundle two_records
      ≡ some c')
    × IsReader two_chunks c'.reader
    × (Kept fresh_ids two_chunks collector old_bundle two_records c'
        ⊎ Gone fresh_ids two_chunks collector old_bundle two_records c')
unfolding new Reader.new to_blob to_le set_from_blob from_le find_chunk_id find find_node report
    bytes_eq
collect-safe_example =
    collect-safe fresh_ids two_chunks collector old_bundle two_records refl (refl, (refl, tt))
      (new-IsReader two_chunks old_index 100 200 (omega arith) (omega arith)) tt
      ((λ used. five_of_old), ((λ used. absurd (cc (used, unused_false))), tt))
