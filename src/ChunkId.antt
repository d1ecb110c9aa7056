-- ===== src/ChunkId.antt =====
-- chunk_id.hh, chunk_id.cc and the little-endian branch of endian.hh: the id of a chunk and its
-- blob. A fixed array of chars is a list of its bytes.
pub mod Blob
pub mod Order
mod Tests
use Prim.Native.Nat.{Ordering}
use zbackup.Base.{
  ℕ, ◌<◌, ◌≡◌, Bool, true, false, ◌&&◌, Option, none, some, List, ◌++◌, ◌==◌, if◌then◌else◌, length,
  take, drop, All,
}
use zbackup.Base.Bytes.{IsByte, u64_mod, to_le, from_le, memcmp, bytes_eq}

pub record ChunkId : Type 0 where
  pub crypto_hash : List ℕ
  pub rolling_hash : ℕ

-- `sizeof( CryptoHashPart )`, `sizeof( RollingHashPart )` and their sum.
abbrev pub crypto_size : ℕ
crypto_size = 16

abbrev pub rolling_size : ℕ
rolling_size = 8

abbrev pub blob_size : ℕ
blob_size = 24

-- What the C++ types say of the two members.
pub record IsChunkId (id : ChunkId) : Type 0 where
  pub crypto_length : length id.crypto_hash ≡ crypto_size
  pub crypto_bytes : All IsByte id.crypto_hash
  pub rolling_word : id.rolling_hash < u64_mod

unfoldable pub to_blob : ChunkId → List ℕ
to_blob id = id.crypto_hash ++ to_le rolling_size id.rolling_hash

unfoldable pub set_from_blob : List ℕ → ChunkId
set_from_blob blob = record {
  crypto_hash = take crypto_size blob;
  rolling_hash = from_le (take rolling_size (drop crypto_size blob));
}

-- The constructor from a string, with its `CHECK`: `none` is the abort.
unfoldable pub of_blob : List ℕ → Option ChunkId
of_blob blob = if length blob == blob_size then some (set_from_blob blob) else none

-- `r < 0`
abbrev pub is_less : Ordering → Bool
is_less Ordering.lt = true
is_less Ordering.eq = false
is_less Ordering.gt = false

-- `operator <`
unfoldable pub less_than : ChunkId → ChunkId → Bool
less_than lhs rhs = elim (memcmp lhs.crypto_hash rhs.crypto_hash) [
  | Ordering.lt ↦ true
  | Ordering.eq ↦
      is_less (memcmp (to_le rolling_size lhs.rolling_hash) (to_le rolling_size rhs.rolling_hash))
  | Ordering.gt ↦ false
]
