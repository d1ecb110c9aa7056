-- ===== src/ChunkIndex/Loading.antt =====
-- `ChunkIndex::loadIndex`: the index files of the directory, whose chunks an index processor is given.
-- `IndexFile::Reader` yields the records of a file, or throws where it is made or behind them.
pub mod Steps
pub mod Sound
pub mod Known
mod Tests
use zbackup.Base.{
  ℕ, zero, suc, ◌+◌, ◌-◌, ◌*◌, ◌/◌, ◌%◌, ◌^◌, ◌≤◌, ◌<◌, ◌≡◌, refl, sym, ap, ap₂, ◌∙◌, subst, ◌≢◌,
  ◌↔◌, ◌⊎◌, inl, inr, Bool, true, false, not, ◌&&◌, ◌||◌, Option, none, some, List, [], ◌∷◌, ◌++◌,
  map, reverse, append-nil, append_assoc, arith, ltb, leb, ◌==◌, if◌then◌else◌, ltb→lt, lt→ltb,
  ==_iff, Bool-cases, Option-cases, length, get_or, set, take, drop, replicate, All, length-append,
  length-set, length-take, length-drop, length-replicate, take-append-drop, take-append,
  drop-append, All-append, take_at, drop_at, take_all, All-take, All-drop, overwrite,
  length-overwrite, take-overwrite, set-overwrite, lt_wf,
}
use zbackup.Base.Bytes.{
  IsByte, u64_mod, u32_mod, bytes_eq, bytes_eq_iff, bytes_eq_refl, memcmp, to_le, from_le,
  length-to_le, to_le-IsByte, from_le-to_le, to_le-from_le, from_le-lt, add32, sub32, add32_fits,
  sub32_fits,
}
use zbackup.ChunkId.{ChunkId, blob_size, set_from_blob}
use zbackup.Bundle.{BundleInfo, ChunkRecord}
use zbackup.ChunkIndex.{ChunkIndex, BundleId, start_bundle, process_chunk}

pub record IndexFile : Type 0 where
  pub name : List ℕ
  pub opens : Bool
  pub records : List (BundleInfo × BundleId)
  pub breaks : Bool

-- The interface, for a processor with the state `S`.
pub record IndexProcessor {ℓ} (S : Type ℓ) : Type ℓ where
  pub on_start_index : List ℕ → S → S
  pub on_start_bundle : BundleId → S → S
  pub on_chunk : ChunkId → ℕ → S → S
  pub on_finish_bundle : BundleId → BundleInfo → S → S
  pub on_finish_index : List ℕ → S → S

module _ {ℓ} {S : Type ℓ} (ip : IndexProcessor S) where
  -- The records from the last one to the first; false where `exIncorrectChunkIdSize` is thrown.
  pub process_chunks : List ChunkRecord → S → S × Bool
  process_chunks [] s = (s, true)
  process_chunks (r ∷ rest) s =
      let next = process_chunks rest (ip.on_chunk (set_from_blob r.id) r.size s) in
      if length r.id == blob_size then next else (s, false)

  pub read_records : List (BundleInfo × BundleId) → S → S × Bool
  unfolding process_chunks
  read_records [] s = (s, true)
  read_records ((info, bundle_id) ∷ rest) s =
      let (s', fine) = process_chunks (reverse info) (ip.on_start_bundle bundle_id s) in
      let next = read_records rest (ip.on_finish_bundle bundle_id info s') in
      if fine then next else (s', false)

  -- An exception ends the file, not the loop; what was processed stays.
  pub load_file : IndexFile → S → S
  unfolding read_records
  load_file file s =
      let (s', fine) = read_records file.records (ip.on_start_index file.name s) in
      if file.opens
      then (if fine && not file.breaks then ip.on_finish_index file.name s' else s')
      else s

  pub load_index : List IndexFile → S → S
  unfolding load_file
  load_index [] s = s
  load_index (file ∷ files) s = load_index files (load_file file s)

-- The index as a processor of its own files.
abbrev pub own_processor : IndexProcessor ChunkIndex
own_processor = record {
  on_start_index = λ name s. s;
  on_start_bundle = λ bundle_id s. start_bundle s bundle_id;
  on_chunk = λ id size s. process_chunk s id size;
  on_finish_bundle = λ bundle_id info s. s;
  on_finish_index = λ name s. s;
}
