-- ===== src/ChunkStorage/Reader/Tests.antt =====
-- The storage reader at a bundle with one chunk.
use zbackup.Base.{◌≡◌, Option, none, some, [], ◌∷◌, arith, replicate}
use zbackup.ChunkId.{ChunkId, to_blob}
use zbackup.ChunkIndex.{ChunkIndex, BundleId, find_chunk_id}
use zbackup.Bundle.{Chunks}
use zbackup.ChunkStorage.Reader.{Reader, new, get}
use zbackup.ChunkStorage.Reader.Caching.{IsReader, new-IsReader, get-read, read_found}

abbrev some_id : ChunkId
some_id = record { crypto_hash = replicate 16 5; rolling_hash = 5 }

abbrev one_chunk : BundleId → Option Chunks
one_chunk id = some ((to_blob some_id, 1 ∷ 2 ∷ 3 ∷ [], 3) ∷ [])

abbrev one_entry : ChunkIndex
one_entry = record {
  hash_table =
      (5, record { crypto_hash = replicate 16 5; size = 3; bundle_id = some (replicate 24 9) } ∷ [])
      ∷ [];
  last_bundle_id = none;
}

abbrev two_readers : Reader
two_readers = new one_entry 100 200

get-read_example :
    ((get one_chunk two_readers some_id [] 0).0
      ≡ read_found one_chunk (find_chunk_id two_readers.index some_id) some_id [] 0)
    × IsReader one_chunk (get one_chunk two_readers some_id [] 0).1
    × ((get one_chunk two_readers some_id [] 0).1.index ≡ two_readers.index)
get-read_example =
    get-read one_chunk two_readers some_id [] 0
      (new-IsReader one_chunk one_entry 100 200 (omega arith) (omega arith))
