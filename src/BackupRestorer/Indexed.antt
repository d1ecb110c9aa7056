-- ===== src/BackupRestorer/Indexed.antt =====
-- `IndexedRestorer` of backup_restorer.cc: parts of the data are read at any offset, by the instructions
-- with their positions. The result is what the call writes to its buffer. A failed `assert` is `none`,
-- like an exception; so is a part whose length would wrap around.
pub mod Outputting
pub mod Finding
pub mod Reading
pub mod Parts
mod Tests
use zbackup.Base.{
  ℕ, ◌+◌, ◌-◌, Bool, true, not, Option, none, some, List, [], ◌∷◌, ◌++◌, ltb, ◌==◌, if◌then◌else◌,
  length, take, drop, ◌>>=◌,
}
use zbackup.ChunkId.{ChunkId, of_blob}
use zbackup.ChunkIndex.{BundleId}
use zbackup.BackupCreator.{BackupInstruction}

pub record IndexedRestorer : Type 0 where
  pub instructions : List (ℕ × BackupInstruction)
  pub total_size : ℕ

-- `Outputer`, with the bytes that it has written.
pub record Outputer : Type 0 where
  pub offset : ℕ
  pub data_ : List ℕ
  pub size : ℕ

-- `std::upper_bound` of the offset in the sorted positions, and one step back.
pub find_start : ℕ → List (ℕ × BackupInstruction) → List (ℕ × BackupInstruction)
find_start offset [] = []
find_start offset (first ∷ []) = first ∷ []
find_start offset (first ∷ next ∷ rest) =
    let later = find_start offset (next ∷ rest) in
    if ltb offset next.0 then first ∷ next ∷ rest else later

pub start_of : ℕ → Outputer → ℕ
start_of position o = if ltb position o.offset then o.offset - position else 0

pub end_of : ℕ → ℕ → Outputer → ℕ
end_of position chunk_size o =
    if ltb (o.offset + o.size) (position + chunk_size)
    then o.offset + o.size - position
    else chunk_size

pub copy_part : ℕ → ℕ → List ℕ → Outputer → Option (Outputer × Bool)
copy_part start end_ chunk o =
    let part_size = end_ - start in
    if ltb end_ start
    then none
    else if ltb o.size part_size
    then none
    else some (
      record {
        offset = o.offset + part_size;
        data_ = o.data_ ++ take part_size (drop start chunk);
        size = o.size - part_size;
      },
      not (o.size - part_size == 0),
    )

pub out : ℕ → List ℕ → Outputer → Option (Outputer × Bool)
unfolding start_of end_of copy_part
out position chunk o = copy_part (start_of position o) (end_of position (length chunk) o) chunk o

-- The position and the outputer behind an output, and whether the loop goes on.
pub advance : ℕ → List ℕ → Outputer → Option (ℕ × Outputer × Bool)
unfolding out
advance position chunk o = do
  (o', more) ← out position chunk o
  some (if more then position + length chunk else position, o', more)

pub save_bytes : Option (List ℕ) → ℕ → Outputer → Option (ℕ × Outputer × Bool)
unfolding advance
save_bytes none position o = some (position, o, true)
save_bytes (some bytes) position o = advance position bytes o

module _ (get : ChunkId → Option (List ℕ)) (get_bundle_id : ChunkId → Option (BundleId × ℕ))
    (parse : List ℕ → Option (List BackupInstruction)) where
  pub behind_chunk : Option (List ℕ) → ℕ → Option ℕ
  behind_chunk none position = some position
  behind_chunk (some blob) position = do
    id ← of_blob blob
    (bundle_id, chunk_size) ← get_bundle_id id
    some (position + chunk_size)

  pub behind_bytes : Option (List ℕ) → ℕ → ℕ
  behind_bytes none position = position
  behind_bytes (some bytes) position = position + length bytes

  -- The loop of the constructor.
  pub index_all : List BackupInstruction → ℕ → Option (List (ℕ × BackupInstruction) × ℕ)
  unfolding behind_chunk behind_bytes
  index_all [] position = some ([], position)
  index_all (instr ∷ instrs) position = do
    next ← behind_chunk instr.chunk_to_emit position
    (rest, total) ← index_all instrs (behind_bytes instr.bytes_to_emit next)
    some ((position, instr) ∷ rest, total)

  pub new : List ℕ → Option IndexedRestorer
  unfolding index_all
  new backup_data = do
    instrs ← parse backup_data
    (instructions, total) ← index_all instrs 0
    some (record { instructions = instructions; total_size = total })

  pub save_chunk : Option (List ℕ) → ℕ → Outputer → Option (ℕ × Outputer × Bool)
  unfolding advance
  save_chunk none position o = some (position, o, true)
  save_chunk (some blob) position o = do id ← of_blob blob; chunk ← get id; advance position chunk o

  -- The body of the loop of `saveData`, for `rest` the loop on the later instructions.
  pub save_step :
      (ℕ → Outputer → Option Outputer) → BackupInstruction → ℕ → Outputer → Option Outputer
  unfolding save_chunk save_bytes
  save_step rest instr position o = do
    (position', o', more) ← save_chunk instr.chunk_to_emit position o
    if not more then some o' else do
      (position'', o'', more') ← save_bytes instr.bytes_to_emit position' o'
      if more' then rest position'' o'' else some o''

  pub save_loop : List (ℕ × BackupInstruction) → ℕ → Outputer → Option Outputer
  unfolding save_step
  save_loop [] position o = some o
  save_loop ((first, instr) ∷ instrs) position o =
      let next = save_step (save_loop instrs) instr position o in
      if position == first then next else none

  pub save_from : List (ℕ × BackupInstruction) → Outputer → Option (List ℕ)
  unfolding save_loop
  save_from [] o = none
  save_from ((first, instr) ∷ instrs) o = do
    o' ← save_loop ((first, instr) ∷ instrs) first o
    some o'.data_

  pub save_data : IndexedRestorer → ℕ → ℕ → Option (List ℕ)
  unfolding save_from find_start
  save_data r offset size =
      if ltb r.total_size (offset + size)
      then none
      else save_from (find_start offset r.instructions)
          (record { offset = offset; data_ = []; size = size })
