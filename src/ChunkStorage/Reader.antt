-- ===== src/ChunkStorage/Reader.antt =====
-- chunk_storage.cc: the `Reader`, which finds the bundle of a chunk in the index and keeps the readers of
-- some bundles. What is in a bundle file is a parameter, the map of its `Bundle::Reader`.
pub mod Caching
mod Tests
use zbackup.Base.{ℕ, ◌/◌, ◌%◌, Option, none, some, List, [], ◌∷◌, ltb, if◌then◌else◌, ◌%◌}
use zbackup.Base.Bytes.{u32_mod}
use zbackup.ChunkId.{ChunkId, to_blob}
use zbackup.ChunkIndex.{ChunkIndex, BundleId, find_chunk_id}
use zbackup.Bundle
use zbackup.Bundle.{Chunks}
use zbackup.ObjectCache
use zbackup.ObjectCache.{ObjectCache, ObjectId}

pub record Reader : Type 0 where
  pub index : ChunkIndex
  pub cached_readers : ObjectCache Chunks

-- `exNoSuchChunk`, or the exception of the reader of a bundle.
pub data Outcome {ℓ} (A : Type ℓ) : Type ℓ where
  ok : A → Outcome A
  no_such_chunk : ChunkId → Outcome A
  bundle_failed : BundleId → Outcome A

unfoldable pub new : ChunkIndex → ℕ → ℕ → Reader
new index max_payload_size max_cache_size = record {
  index = index;
  cached_readers = ObjectCache.new (
      (if ltb max_cache_size max_payload_size then 1 else max_cache_size / max_payload_size)
      % u32_mod);
}

pub found_bundle : Option (BundleId × ℕ) → ChunkId → Outcome (BundleId × ℕ)
found_bundle (some found) id = ok found
found_bundle none id = no_such_chunk id

pub get_bundle_id : Reader → ChunkId → Outcome (BundleId × ℕ)
unfolding found_bundle
get_bundle_id r id = found_bundle (find_chunk_id r.index id) id

-- The `sptr` behind the reference that `entry` returns.
pub first_object : List (ObjectId × Option Chunks) → Option Chunks
first_object [] = none
first_object ((id, object) ∷ objects) = object

pub set_first : Chunks → List (ObjectId × Option Chunks) → List (ObjectId × Option Chunks)
set_first chunks [] = []
set_first chunks ((id, object) ∷ objects) = (id, some chunks) ∷ objects

pub store : Reader → Chunks → Reader
unfolding set_first
store r chunks = record r {
  cached_readers = record r.cached_readers { objects = set_first chunks r.cached_readers.objects };
}

module _ (read_bundle : BundleId → Option Chunks) where
  -- `reader = new Bundle::Reader( ... )`
  pub load_bundle : Option Chunks → BundleId → Reader → Outcome Chunks × Reader
  unfolding store
  load_bundle (some chunks) id r = (ok chunks, store r chunks)
  load_bundle none id r = (bundle_failed id, r)

  pub use_object : Option Chunks → BundleId → Reader → Outcome Chunks × Reader
  unfolding load_bundle
  use_object (some chunks) id r = (ok chunks, r)
  use_object none id r = load_bundle (read_bundle id) id r

  pub get_reader_for : Reader → BundleId → Outcome Chunks × Reader
  unfolding use_object first_object
  get_reader_for r id =
      let r' = record r { cached_readers = ObjectCache.entry r.cached_readers id } in
      use_object (first_object r'.cached_readers.objects) id r'

  -- `reader.get( ... )`, whose result is not looked at: the buffer and the size stay as they are where
  -- the bundle does not have the chunk.
  unfoldable pub take_chunk : Option (List ℕ × ℕ) → List ℕ → ℕ → List ℕ × ℕ
  take_chunk (some found) bytes size = found
  take_chunk none bytes size = (bytes, size)

  pub get_from : Outcome Chunks → ChunkId → List ℕ → ℕ → Outcome (List ℕ × ℕ)
  unfolding take_chunk
  get_from (ok chunks) id bytes size =
      ok (take_chunk (Bundle.get chunks (to_blob id) bytes) bytes size)
  get_from (no_such_chunk missing) id bytes size = no_such_chunk missing
  get_from (bundle_failed bundle_id) id bytes size = bundle_failed bundle_id

  pub get_found :
      Option (BundleId × ℕ) → Reader → ChunkId → List ℕ → ℕ → Outcome (List ℕ × ℕ) × Reader
  unfolding get_from
  get_found none r id bytes size = (no_such_chunk id, r)
  get_found (some (bundle_id, chunk_size)) r id bytes size =
      let (chunks, r') = get_reader_for r bundle_id in (get_from chunks id bytes size, r')

  pub get : Reader → ChunkId → List ℕ → ℕ → Outcome (List ℕ × ℕ) × Reader
  unfolding get_found
  get r id bytes size = get_found (find_chunk_id r.index id) r id bytes size
