-- ===== src/BackupCollector.antt =====
-- backup_collector.hh and backup_collector.cc: garbage collection. A bundle with used chunks only is kept
-- in the new index, one with some of them has these copied to new bundles, and one with none goes. A
-- file to unlink is named by what it is; a result `none` is an exception of the reader.
pub mod Counting
pub mod Copying
pub mod Bundles
mod Tests
use zbackup.Base.{
  ℕ, ◌+◌, Bool, true, false, not, ◌&&◌, ◌||◌, Option, none, some, List, [], ◌∷◌, ◌++◌, reverse, ltb,
  ◌==◌, if◌then◌else◌, length, ◌>>=◌,
}
use zbackup.Base.Bytes.{bytes_eq}
use zbackup.ChunkId.{ChunkId, less_than, of_blob}
use zbackup.ChunkIndex.{BundleId}
use zbackup.Bundle.{BundleInfo, ChunkRecord, Chunks}
use zbackup.ChunkStorage
use zbackup.ChunkStorage.{Writer}
use zbackup.ChunkStorage.Reader
use zbackup.ChunkStorage.Reader.{Reader, Outcome, no_such_chunk, bundle_failed}

pub data File : Type 0 where
  bundle_file : BundleId → File
  index_file : List ℕ → File

pub record BundleCollector : Type 0 where
  pub reader : Reader
  pub writer : Writer
  pub gc_deep : Bool
  -- `config.runtime.gcConcat` and `gcRepack`
  pub gc_concat : Bool
  pub gc_repack : Bool
  pub saved_id : BundleId
  pub total_chunks : ℕ
  pub used_chunks : ℕ
  pub index_total_chunks : ℕ
  pub index_used_chunks : ℕ
  pub index_modified_bundles : ℕ
  pub index_kept_bundles : ℕ
  pub index_removed_bundles : ℕ
  pub index_modified : Bool
  pub index_necessary : Bool
  pub files_to_unlink : List File
  pub overall_chunk_set : List ChunkId
  pub overall_bundle_set : List BundleId
  pub used_chunk_set : List ChunkId
  -- The files that were unlinked.
  pub unlinked : List File

-- `std::set< ChunkId >`: equal ids are those of which neither is less.
pub in_set : ChunkId → List ChunkId → Bool
in_set id [] = false
in_set id (key ∷ ids) = (not (less_than key id) && not (less_than id key)) || in_set id ids

pub in_bundles : BundleId → List BundleId → Bool
in_bundles id [] = false
in_bundles id (key ∷ ids) = bytes_eq key id || in_bundles id ids

-- The members that the constructor does not set, numbers and flags, are 0 and `false` here.
pub new : Reader → Writer → Bool → Bool → Bool → BundleCollector
new reader writer gc_deep gc_concat gc_repack = record {
  reader = reader;
  writer = writer;
  gc_deep = gc_deep;
  gc_concat = gc_concat;
  gc_repack = gc_repack;
  saved_id = [];
  total_chunks = 0;
  used_chunks = 0;
  index_total_chunks = 0;
  index_used_chunks = 0;
  index_modified_bundles = 0;
  index_kept_bundles = 0;
  index_removed_bundles = 0;
  index_modified = false;
  index_necessary = false;
  files_to_unlink = [];
  overall_chunk_set = [];
  overall_bundle_set = [];
  used_chunk_set = [];
  unlinked = [];
}

pub start_index : BundleCollector → BundleCollector
start_index c = record c {
  index_modified = false;
  index_necessary = false;
  index_total_chunks = 0;
  index_used_chunks = 0;
  index_modified_bundles = 0;
  index_kept_bundles = 0;
  index_removed_bundles = 0;
}

pub start_bundle : BundleCollector → BundleId → BundleCollector
start_bundle c id = record c { saved_id = id; total_chunks = 0; used_chunks = 0 }

-- The part of `processChunk` for a chunk that counts.
pub count_chunk : BundleCollector → ChunkId → BundleCollector
unfolding in_set
count_chunk c id =
    let counted = record c { total_chunks = c.total_chunks + 1 } in
    if in_set id c.used_chunk_set
    then record counted { used_chunks = c.used_chunks + 1; index_necessary = true }
    else counted

pub process_chunk : BundleCollector → ChunkId → BundleCollector
unfolding count_chunk in_set
process_chunk c id =
    if c.gc_deep
    then (if in_set id c.overall_chunk_set
        then c
        else count_chunk (record c { overall_chunk_set = id ∷ c.overall_chunk_set }) id)
    else count_chunk c id

-- `filesToUnlink.push_back( ... )` of the bundle's file.
pub unlink_bundle : BundleCollector → BundleCollector
unlink_bundle c = record c {
  files_to_unlink = c.files_to_unlink ++ (bundle_file c.saved_id ∷ []);
  index_modified = true;
}

pub remove_bundle : BundleCollector → BundleCollector
unfolding unlink_bundle
remove_bundle c = record (unlink_bundle c) { index_removed_bundles = c.index_removed_bundles + 1 }

-- `overallBundleSet.insert( ... )`
pub insert_bundle : BundleId → List BundleId → List BundleId
unfolding in_bundles
insert_bundle id ids = if in_bundles id ids then ids else id ∷ ids

module _ (random : ℕ → List ℕ) (read_bundle : BundleId → Option Chunks) where
  -- A chunk that was read is added. The buffer and the size stay for the next chunk.
  pub add_chunk :
      Outcome (List ℕ × ℕ) × Reader
      → ChunkId
      → BundleCollector
      → Option (BundleCollector × List ℕ × ℕ)
  add_chunk (Outcome.ok (chunk, size), r) id c = some (
    record c { reader = r; writer = (ChunkStorage.add random c.writer id chunk size).0 },
    chunk,
    size,
  )
  add_chunk (no_such_chunk missing, r) id c = none
  add_chunk (bundle_failed bundle_id, r) id c = none

  pub copy_chunk : ChunkId → BundleCollector → List ℕ → ℕ → Option (BundleCollector × List ℕ × ℕ)
  unfolding add_chunk in_set
  copy_chunk id c chunk size =
      if in_set id c.used_chunk_set
      then add_chunk (Reader.get read_bundle c.reader id chunk size) id c
      else some (c, chunk, size)

  -- The loop of `copyUsedChunks` over the records from the last one on.
  pub copy_loop : List ChunkRecord → BundleCollector → List ℕ → ℕ → Option BundleCollector
  unfolding copy_chunk
  copy_loop [] c chunk size = some c
  copy_loop (r ∷ records) c chunk size = do
    id ← of_blob r.id
    (c', chunk', size') ← copy_chunk id c chunk size
    copy_loop records c' chunk' size'

  -- `chunkSize`, which is not initialised, is 0 here.
  pub copy_used_chunks : BundleCollector → BundleInfo → Option BundleCollector
  unfolding copy_loop
  copy_used_chunks c info = copy_loop (reverse info) c [] 0

  pub modify_bundle : BundleCollector → BundleInfo → Option BundleCollector
  unfolding copy_used_chunks unlink_bundle
  modify_bundle c info = do
    c' ← copy_used_chunks (unlink_bundle c) info
    some (record c' { index_modified_bundles = c'.index_modified_bundles + 1 })

  pub keep_bundle : BundleCollector → BundleId → BundleInfo → BundleCollector
  unfolding insert_bundle
  keep_bundle c bundle_id info = record c {
    overall_bundle_set =
        if c.gc_deep then insert_bundle bundle_id c.overall_bundle_set else c.overall_bundle_set;
    writer = ChunkStorage.add_bundle c.writer info c.saved_id;
    index_kept_bundles = c.index_kept_bundles + 1;
  }

  -- A bundle whose chunks were all met before.
  pub drop_copy : BundleCollector → BundleId → BundleCollector
  unfolding in_bundles remove_bundle
  drop_copy c bundle_id =
      if in_bundles bundle_id c.overall_bundle_set
      then record c { index_modified = true }
      else remove_bundle (record c { overall_bundle_set = bundle_id ∷ c.overall_bundle_set })

  pub finish_used : BundleCollector → BundleId → BundleInfo → Option BundleCollector
  unfolding modify_bundle keep_bundle drop_copy
  finish_used c bundle_id info =
      if c.gc_repack
      then modify_bundle c info
      else some (
          if c.gc_deep && (c.total_chunks == 0)
          then drop_copy c bundle_id
          else keep_bundle c bundle_id info)

  pub finish_bundle : BundleCollector → BundleId → BundleInfo → Option BundleCollector
  unfolding remove_bundle modify_bundle finish_used
  finish_bundle c₀ bundle_id info =
      let c = record c₀ {
        index_total_chunks = c₀.index_total_chunks + c₀.total_chunks;
        index_used_chunks = c₀.index_used_chunks + c₀.used_chunks;
      } in
      if (c.used_chunks == 0) && not (c.total_chunks == 0)
      then some (remove_bundle c)
      else if ltb c.used_chunks c.total_chunks
      then modify_bundle c info
      else finish_used c bundle_id info

  -- The files are unlinked from the last to the first.
  -- The flag tells that no name was taken. Otherwise the writer's `commit` throws, when the files are
  -- unlinked already.
  pub commit : BundleCollector → BundleCollector × Bool
  commit c =
      let (writer, fine) = ChunkStorage.commit random c.writer in
      (
        record c {
          unlinked = c.unlinked ++ reverse c.files_to_unlink;
          files_to_unlink = [];
          writer = writer;
        },
        fine,
      )

  pub finish_index : BundleCollector → List ℕ → BundleCollector × Bool
  unfolding commit
  finish_index c index_fn =
      let unlinking = record c {
        files_to_unlink = c.files_to_unlink ++ (index_file index_fn ∷ []);
      } in
      if c.index_modified
      then commit unlinking
      else let reset = if c.gc_concat then c.writer else ChunkStorage.reset random c.writer in
        if (c.gc_deep && not c.index_necessary) || c.gc_concat
        then (record unlinking { writer = reset }, true)
        else (record c { writer = reset }, true)
