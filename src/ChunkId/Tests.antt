-- ===== src/ChunkId/Tests.antt =====
-- Chunk ids at concrete inputs.
use zbackup.Base.{ℕ, ◌≡◌, refl, true, false, none, some, List, [], ◌∷◌, arith, replicate}
use zbackup.Base.Bytes.{memcmp, to_le}
use zbackup.ChunkId.{ChunkId, IsChunkId, to_blob, set_from_blob, of_blob, less_than, is_less}
use zbackup.ChunkId.Blob.{of_blob-to_blob, to_blob-set_from_blob}
use zbackup.ChunkId.Order.{less_than-memcmp, less_than_trans, less_than_total}

abbrev sample_id : ℕ → ℕ → ChunkId
sample_id first rolling = record {
  crypto_hash = first ∷ 2 ∷ 3 ∷ 4 ∷ 5 ∷ 6 ∷ 7 ∷ 8 ∷ 9 ∷ 10 ∷ 11 ∷ 12 ∷ 13 ∷ 14 ∷ 15 ∷ 255 ∷ [];
  rolling_hash = rolling;
}

low_IsChunkId : IsChunkId (sample_id 1 0x0102)
low_IsChunkId = omega arith

middle_IsChunkId : IsChunkId (sample_id 1 0x0003)
middle_IsChunkId = omega arith

high_IsChunkId : IsChunkId (sample_id 200 0)
high_IsChunkId = omega arith

abbrev sample_blob : List ℕ
sample_blob = replicate 24 7

-- The rolling hashes are compared by their first bytes in memory, not by their values.
low_bytes_first : less_than (sample_id 1 0x0102) (sample_id 1 0x0003) ≡ true
unfolding less_than memcmp to_le
low_bytes_first = refl

crypto_first : less_than (sample_id 1 0x0003) (sample_id 200 0) ≡ true
unfolding less_than memcmp
crypto_first = refl

wrong_size : of_blob (replicate 23 7) ≡ none
unfolding of_blob
wrong_size = refl

of_blob-to_blob_example : of_blob (to_blob (sample_id 1 0x0102)) ≡ some (sample_id 1 0x0102)
of_blob-to_blob_example = of_blob-to_blob (sample_id 1 0x0102) low_IsChunkId

to_blob-set_from_blob_example :
    IsChunkId (set_from_blob sample_blob) × (to_blob (set_from_blob sample_blob) ≡ sample_blob)
to_blob-set_from_blob_example = to_blob-set_from_blob sample_blob refl (omega arith)

less_than-memcmp_example :
    less_than (sample_id 1 0x0102) (sample_id 1 0x0003)
    ≡ is_less (memcmp (to_blob (sample_id 1 0x0102)) (to_blob (sample_id 1 0x0003)))
less_than-memcmp_example =
    less_than-memcmp (sample_id 1 0x0102) (sample_id 1 0x0003) low_IsChunkId middle_IsChunkId

less_than_trans_example :
    (less_than (sample_id 1 0x0102) (sample_id 200 0) ≡ true)
    × (less_than (sample_id 200 0) (sample_id 1 0x0102) ≡ false)
less_than_trans_example =
    less_than_trans (sample_id 1 0x0102) (sample_id 1 0x0003) (sample_id 200 0) low_IsChunkId
      middle_IsChunkId high_IsChunkId low_bytes_first crypto_first

not_less_self : less_than (sample_id 200 0) (sample_id 200 0) ≡ false
unfolding less_than memcmp to_le
not_less_self = refl

less_than_total_example : sample_id 200 0 ≡ sample_id 200 0
less_than_total_example =
    less_than_total (sample_id 200 0) (sample_id 200 0) high_IsChunkId high_IsChunkId not_less_self
      not_less_self
