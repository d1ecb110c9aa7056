-- ===== src/BackupRestorer/ToFile.antt =====
-- `restoreMap` of backup_restorer.cc and `ZRestore::restoreToFile` of zutils.cc: the bytes go to their
-- places in a file, first those that the instructions hold and then the chunks, bundle by bundle. The
-- hash map lists its bundles in some order, a parameter. A file is written behind its end with zeros
-- between, and it is opened without being cut off, so the bytes that it has are a parameter too.
pub mod Writes
pub mod Covering
pub mod Filling
pub mod Mapping
pub mod Printing
pub mod Same
mod Tests
use zbackup.Base.{
  ℕ, ◌+◌, ◌-◌, Option, none, some, List, [], ◌∷◌, ◌++◌, if◌then◌else◌, length, replicate, overwrite,
  ◌>>=◌,
}
use zbackup.Base.Bytes.{bytes_eq}
use zbackup.ChunkId.{ChunkId}
use zbackup.ChunkIndex.{BundleId}
use zbackup.BackupCreator.{BackupInstruction}
use zbackup.BackupRestorer.{ChunkPosition, ChunkMap, Outputs, restore, restore_iterations}

-- `f->seek( position )` and `f->write( data, size )`.
pub write_at : List ℕ → ℕ → List ℕ → List ℕ
write_at file position [] = file
write_at file position (b ∷ bytes) =
    let size = length (b ∷ bytes) in
    overwrite (file ++ replicate (position + size - length file) 0) position (b ∷ bytes)

pub write_all : List (ℕ × List ℕ) → List ℕ → List ℕ
unfolding write_at
write_all [] file = file
write_all ((position, bytes) ∷ writes) file = write_all writes (write_at file position bytes)

-- The calls of `saveData` on the output.
pub writes_of : Option (List (ℕ × List ℕ)) → List (ℕ × List ℕ)
writes_of none = []
writes_of (some writes) = writes

-- A map to fill, and an output for the bytes.
pub to_map : Outputs
to_map = record {
  output = none;
  chunk_set = none;
  chunk_map = some [];
  seek_out = some [];
  position = 0;
}

pub map_of : Option ChunkMap → ChunkMap
map_of none = []
map_of (some chunk_map) = chunk_map

module _ (get : ChunkId → Option (List ℕ)) (get_bundle_id : ChunkId → Option (BundleId × ℕ))
    (parse : List ℕ → Option (List BackupInstruction)) where
  -- The loop over the chunks of one bundle, for an output that is not NULL.
  pub restore_positions : ChunkPosition → List (ℕ × List ℕ) → Option (List (ℕ × List ℕ))
  restore_positions [] writes = some writes
  restore_positions ((id, position) ∷ positions) writes = do
    chunk ← get id
    restore_positions positions (writes ++ ((position, chunk) ∷ []))

  pub restore_map : ChunkMap → List (ℕ × List ℕ) → Option (List (ℕ × List ℕ))
  unfolding restore_positions
  restore_map [] writes = some writes
  restore_map ((bundle_id, positions) ∷ chunk_map) writes = do
    writes' ← restore_positions positions writes
    restore_map chunk_map writes'

  -- What the file holds in the end, if the checksum is right.
  pub restore_to_file :
      (ChunkMap → ChunkMap) → (List ℕ → List ℕ) → List ℕ → ℕ → List ℕ → List ℕ → Option (List ℕ)
  unfolding write_all writes_of to_map map_of restore_map
  restore_to_file order sha256 digest iterations backup_data old = do
    r ← restore_iterations get get_bundle_id parse iterations backup_data none
    s ← restore get get_bundle_id parse r.0 to_map
    writes ← restore_map (order (map_of s.chunk_map)) (writes_of s.seek_out)
    let file = write_all writes old
    if bytes_eq (sha256 file) digest then some file else none
