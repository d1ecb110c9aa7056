-- ===== src/ChunkId/Blob.antt =====
-- An id and its blob determine each other.
use zbackup.Base.{
  if_true, ==_iff, ℕ, ◌<◌, ◌≡◌, sym, ap, ◌∙◌, some, List, ◌++◌, arith, length, take, drop, All,
  length-append, length-take, length-drop, take-append-drop, take_at, drop_at, take_all, All-take,
  All-drop,
}
use zbackup.Base.Bytes.{
  IsByte, u64_mod, to_le, from_le, length-to_le, from_le-to_le, to_le-from_le, from_le-lt,
}
use zbackup.ChunkId.{ChunkId, IsChunkId, crypto_size, blob_size, to_blob, set_from_blob, of_blob}

length-sized :
    (id : ChunkId) → length id.crypto_hash ≡ crypto_size → length (to_blob id) ≡ blob_size
unfolding to_blob
length-sized id l = rw length-append (omega (arith, l, length-to_le 8 id.rolling_hash))

pub length-to_blob : (id : ChunkId) → IsChunkId id → length (to_blob id) ≡ blob_size
length-to_blob id w = length-sized id w.crypto_length

set_from_blob-sized :
    (id : ChunkId)
    → length id.crypto_hash ≡ crypto_size
    → id.rolling_hash < u64_mod
    → set_from_blob (to_blob id) ≡ id
unfolding set_from_blob to_blob
set_from_blob-sized id l r = λ i. record {
  crypto_hash = take_at 16 id.crypto_hash (to_le 8 id.rolling_hash) l i;
  rolling_hash = rolling i;
}
  where
    rolling :
        from_le (take 8 (drop 16 (id.crypto_hash ++ to_le 8 id.rolling_hash))) ≡ id.rolling_hash
    rolling =
        ap (λ (t : List ℕ). from_le (take 8 t)) (drop_at 16 id.crypto_hash _ l)
        ∙ ap from_le (take_all 8 _ (length-to_le 8 id.rolling_hash))
        ∙ from_le-to_le 8 id.rolling_hash r

pub set_from_blob-to_blob : (id : ChunkId) → IsChunkId id → set_from_blob (to_blob id) ≡ id
set_from_blob-to_blob id w = set_from_blob-sized id w.crypto_length w.rolling_word

-- Only the sizes matter here.
pub of_blob-sized :
    (id : ChunkId)
    → length id.crypto_hash ≡ crypto_size
    → id.rolling_hash < u64_mod
    → of_blob (to_blob id) ≡ some id
unfolding of_blob
of_blob-sized id l r = rw (length-sized id l) (ap some (set_from_blob-sized id l r))

-- The constructor reads back every id from the 24 bytes that `toBlob` writes for it.
pub of_blob-to_blob : (id : ChunkId) → IsChunkId id → of_blob (to_blob id) ≡ some id
of_blob-to_blob id w = of_blob-sized id w.crypto_length w.rolling_word

-- What `setFromBlob` reads from 24 bytes is a proper id, and its blob is those bytes: no two blobs
-- stand for one id.
pub to_blob-set_from_blob :
    (blob : List ℕ)
    → length blob ≡ blob_size
    → All IsByte blob
    → IsChunkId (set_from_blob blob) × (to_blob (set_from_blob blob) ≡ blob)
unfolding set_from_blob to_blob
to_blob-set_from_blob blob l h = (
  record {
    crypto_length = rw length-take (omega arith);
    crypto_bytes = All-take IsByte 16 blob h;
    rolling_word = rw tail_length at (from_le-lt tail tail_bytes);
  },
  ap (λ (t : List ℕ). take 16 blob ++ t)
        (ap (λ (n : ℕ). to_le n (from_le tail)) (sym tail_length) ∙ to_le-from_le tail tail_bytes)
      ∙ ap (λ (t : List ℕ). take 16 blob ++ t)
          (take_all 8 (drop 16 blob) (rw length-drop (omega arith)))
      ∙ take-append-drop 16 blob,
)
  where
    tail : List ℕ
    tail = take 8 (drop 16 blob)

    tail_bytes : All IsByte tail
    tail_bytes = All-take IsByte 8 (drop 16 blob) (All-drop IsByte 16 blob h)

    tail_length : length tail ≡ 8
    tail_length = rw (length-take, length-drop) (omega arith)

-- The checked constructor on a blob of the right size.
pub of_blob-whole :
    (blob : List ℕ) → length blob ≡ blob_size → of_blob blob ≡ some (set_from_blob blob)
unfolding of_blob
of_blob-whole blob e = if_true _ _ ((==_iff _ _).1 e)
