-- ===== src/BackupRestorer.antt =====
-- backup_restorer.hh and backup_restorer.cc: the instructions are executed one after another. A sink, a
-- set or a map that the caller does not want (NULL) is `none`. A result `none` is an exception, or
-- a failed CHECK. The stream position is an `int64_t` that stays below 2^63.
pub mod RoundTrip
pub mod BackedUp
pub mod ToFile
pub mod Indexed
mod Tests
use zbackup.Base.{
  ℕ, zero, suc, ◌+◌, ◌-◌, ◌*◌, ◌/◌, ◌%◌, ◌^◌, ◌≤◌, ◌<◌, ◌≡◌, refl, sym, ap, ap₂, ◌∙◌, subst, ◌≢◌,
  ◌↔◌, ◌⊎◌, inl, inr, Bool, true, false, not, ◌&&◌, ◌||◌, Option, none, some, List, [], ◌∷◌, ◌++◌,
  map, reverse, append-nil, append_assoc, arith, ltb, leb, ◌==◌, if◌then◌else◌, ltb→lt, lt→ltb,
  ==_iff, Bool-cases, Option-cases, length, get_or, set, take, drop, replicate, All, length-append,
  length-set, length-take, length-drop, length-replicate, take-append-drop, take-append,
  drop-append, All-append, take_at, drop_at, take_all, All-take, All-drop, overwrite,
  length-overwrite, take-overwrite, set-overwrite, lt_wf,
}
use zbackup.Base.Bytes.{
  IsByte, u64_mod, u32_mod, bytes_eq, bytes_eq_iff, bytes_eq_refl, memcmp, to_le, from_le,
  length-to_le, to_le-IsByte, from_le-to_le, to_le-from_le, from_le-lt, add32, sub32, add32_fits,
  sub32_fits,
}
use mathlib.Core.Option
use zbackup.Base.{◌>>=◌}
use zbackup.ChunkId.{ChunkId, of_blob}
use zbackup.ChunkIndex.{BundleId}
use zbackup.BackupCreator.{BackupInstruction}

-- `vector< pair< ChunkId, int64_t > >`
abbrev pub ChunkPosition : Type 0
ChunkPosition = List (ChunkId × ℕ)

abbrev pub ChunkMap : Type 0
ChunkMap = List (BundleId × ChunkPosition)

-- What `restore` writes to, and where it stands in the data.
pub record Outputs : Type 0 where
  pub output : Option (List ℕ)
  pub chunk_set : Option (List ChunkId)
  pub chunk_map : Option ChunkMap
  pub seek_out : Option (List (ℕ × List ℕ))
  pub position : ℕ

-- `chunkMap->find`, with an insertion where the bundle is not there, and `push_back`.
pub push_position : BundleId → ChunkId × ℕ → ChunkMap → ChunkMap
push_position bundle_id entry [] = (bundle_id, entry ∷ []) ∷ []
push_position bundle_id entry ((key, positions) ∷ chunk_map) =
    let rest = push_position bundle_id entry chunk_map in
    if bytes_eq key bundle_id
    then (key, positions ++ (entry ∷ [])) ∷ chunk_map
    else (key, positions) ∷ rest

-- `output->saveData( ... )`
save_data : List ℕ → Outputs → Outputs
save_data bytes s = record s { output = Option.map (λ old. old ++ bytes) s.output }

insert_chunk : ChunkId → Outputs → Outputs
insert_chunk id s = record s { chunk_set = Option.map (λ ids. id ∷ ids) s.chunk_set }

-- The storage reader: the bytes of a chunk, and the bundle of a chunk with its size.
module _ (get : ChunkId → Option (List ℕ)) (get_bundle_id : ChunkId → Option (BundleId × ℕ))
    (parse : List ℕ → Option (List BackupInstruction)) where
  output_chunk : Option (List ℕ) → ChunkId → Outputs → Option Outputs
  unfolding save_data
  output_chunk none id s = some s
  output_chunk (some old) id s = Option.map (λ (bytes : List ℕ). save_data bytes s) (get id)

  map_chunk : Option ChunkMap → ChunkId → Outputs → Option Outputs
  unfolding push_position
  map_chunk none id s = some s
  map_chunk (some chunk_map) id s =
      Option.map
        (λ (found : BundleId × ℕ). record s {
          chunk_map = some (push_position found.0 (id, s.position) chunk_map);
          position = s.position + found.1;
        })
        (get_bundle_id id)

  emit_id : ChunkId → Outputs → Option Outputs
  unfolding output_chunk map_chunk insert_chunk
  emit_id id s₀ = do
    s₁ ← output_chunk s₀.output id s₀
    s₂ ← map_chunk s₁.chunk_map id s₁
    some (insert_chunk id s₂)

  pub restore_chunk : Option (List ℕ) → Outputs → Option Outputs
  unfolding emit_id
  restore_chunk none s = some s
  restore_chunk (some blob) s = do id ← of_blob blob; emit_id id s

  seek_bytes : List ℕ → Outputs → Outputs
  seek_bytes bytes s = record s {
    seek_out = Option.map (λ writes. writes ++ ((s.position, bytes) ∷ [])) s.seek_out;
  }

  map_bytes : Option ChunkMap → List ℕ → Outputs → Outputs
  unfolding seek_bytes
  map_bytes none bytes s = s
  map_bytes (some chunk_map) bytes s =
      let written = seek_bytes bytes s in
      record written { position = written.position + length bytes }

  pub restore_bytes : Option (List ℕ) → Outputs → Outputs
  unfolding save_data map_bytes
  restore_bytes none s = s
  restore_bytes (some bytes) s =
      let saved = save_data bytes s in map_bytes saved.chunk_map bytes saved

  pub restore_all : List BackupInstruction → Outputs → Option Outputs
  unfolding restore_chunk restore_bytes
  restore_all [] s = some s
  restore_all (instr ∷ instrs) s = do
    s' ← restore_chunk instr.chunk_to_emit s
    restore_all instrs (restore_bytes instr.bytes_to_emit s')

  pub restore : List ℕ → Outputs → Option Outputs
  unfolding restore_all
  restore backup_data s = do instrs ← parse backup_data; restore_all instrs s

  -- A string to write to, and the set that is filled on the way.
  to_string : Option (List ChunkId) → Outputs
  to_string chunk_set = record {
    output = some [];
    chunk_set = chunk_set;
    chunk_map = none;
    seek_out = none;
    position = 0;
  }

  result_of : Option (List ℕ) → List ℕ
  result_of none = []
  result_of (some bytes) = bytes

  -- The number is that of the iterations which are left.
  pub restore_iterations :
      ℕ → List ℕ → Option (List ChunkId) → Option (List ℕ × Option (List ChunkId))
  unfolding to_string result_of restore
  restore_iterations zero backup_data chunk_set = some (backup_data, chunk_set)
  restore_iterations (suc iterations) backup_data chunk_set = do
    s ← restore backup_data (to_string chunk_set)
    restore_iterations iterations (result_of s.output) s.chunk_set

  -- `StdoutWriter::saveData` of zutils.cc after what was written before: `fwrite` of an element of no
  -- bytes returns 0, which is taken for an error.
  fwrite : List ℕ → List ℕ → Option (List ℕ)
  fwrite old [] = none
  fwrite old (b ∷ bytes) = some (old ++ (b ∷ bytes))

  write_chunk : Option (List ℕ) → List ℕ → Option (List ℕ)
  unfolding fwrite
  write_chunk none old = some old
  write_chunk (some blob) old = do id ← of_blob blob; bytes ← get id; fwrite old bytes

  write_bytes : Option (List ℕ) → List ℕ → Option (List ℕ)
  unfolding fwrite
  write_bytes none old = some old
  write_bytes (some bytes) old = fwrite old bytes

  -- `restore` with the `StdoutWriter`, and no set, map or file.
  pub restore_stdout : List BackupInstruction → List ℕ → Option (List ℕ)
  unfolding write_chunk write_bytes
  restore_stdout [] old = some old
  restore_stdout (instr ∷ instrs) old = do
    out ← write_chunk instr.chunk_to_emit old
    out' ← write_bytes instr.bytes_to_emit out
    restore_stdout instrs out'

  -- `ZRestore::restoreToStdin` of zutils.cc: the bytes that it writes, if nothing is thrown. The flag
  -- is `isatty`.
  pub restore_to_stdin : (List ℕ → List ℕ) → Bool → List ℕ → ℕ → List ℕ → Option (List ℕ)
  unfolding restore_iterations restore_stdout
  restore_to_stdin sha256 true digest iterations backup_data = none
  restore_to_stdin sha256 false digest iterations backup_data = do
    r ← restore_iterations iterations backup_data none
    instrs ← parse r.0
    out ← restore_stdout instrs []
    if bytes_eq (sha256 out) digest then some out else none
