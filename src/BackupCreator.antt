-- ===== src/BackupCreator.antt =====
-- backup_creator.hh and backup_creator.cc: the input is matched against the known chunks through a ring
-- buffer and a rolling hash, and turned into instructions. Buffers are lists of bytes, and the
-- pointers `head` and `tail` are offsets from `begin`, so `end` is the ring's length. The chunk index
-- is the one that the storage writer holds. The backup data is the list of the instructions that
-- were serialized. A failed CHECK, which ends the program, sets `aborted`.
pub mod Ring
pub mod Pieces
pub mod Invariant
pub mod Saving
pub mod Ready
pub mod Written
pub mod WindowId
pub mod Matching
pub mod Feeding
pub mod Finishing
mod Tests
use zbackup.Base.{
  ℕ, zero, suc, ◌+◌, ◌-◌, ◌*◌, ◌/◌, ◌%◌, ◌^◌, ◌≤◌, ◌<◌, ◌≡◌, refl, sym, ap, ap₂, ◌∙◌, subst, ◌≢◌,
  ◌↔◌, ◌⊎◌, inl, inr, Bool, true, false, not, ◌&&◌, ◌||◌, Option, none, some, List, [], ◌∷◌, ◌++◌,
  map, reverse, append-nil, append_assoc, arith, ltb, leb, ◌==◌, if◌then◌else◌, ltb→lt, lt→ltb,
  ==_iff, Bool-cases, Option-cases, length, get_or, set, take, drop, replicate, All, length-append,
  length-set, length-take, length-drop, length-replicate, take-append-drop, take-append,
  drop-append, All-append, take_at, drop_at, take_all, All-take, All-drop, overwrite,
  length-overwrite, take-overwrite, set-overwrite, lt_wf,
}
use zbackup.Base.Bytes.{
  IsByte, u64_mod, u32_mod, bytes_eq, bytes_eq_iff, bytes_eq_refl, memcmp, to_le, from_le,
  length-to_le, to_le-IsByte, from_le-to_le, to_le-from_le, from_le-lt, add32, sub32, add32_fits,
  sub32_fits,
}
use zbackup.RollingHash
use zbackup.RollingHash.{RollingHash}
use zbackup.ChunkId.{ChunkId, to_blob}
use zbackup.ChunkIndex
use zbackup.ChunkIndex.{BundleId}
use zbackup.ChunkStorage
use zbackup.ChunkStorage.{Writer}

-- The message of zbackup.proto.
pub record BackupInstruction : Type 0 where
  pub chunk_to_emit : Option (List ℕ)
  pub bytes_to_emit : Option (List ℕ)

pub record Creator : Type 0 where
  pub chunk_max_size : ℕ
  pub writer : Writer
  pub ring_buffer : List ℕ
  pub head : ℕ
  pub tail : ℕ
  pub ring_buffer_fill : ℕ
  pub chunk_to_save : List ℕ
  pub chunk_to_save_fill : ℕ
  pub rolling_hash : RollingHash
  pub backup_data : List BackupInstruction
  pub chunk_id_generated : Bool
  pub generated_chunk_id : ChunkId
  pub stream_open : Bool
  pub aborted : Bool

no_id : ChunkId
no_id = record { crypto_hash = []; rolling_hash = 0 }

-- The constructor, for the page size and the configured chunk size.
pub new : ℕ → ℕ → Writer → Creator
unfolding no_id
new page_size max_size writer = record {
  chunk_max_size = max_size;
  writer = writer;
  ring_buffer = replicate (max_size + page_size) 0;
  head = 0;
  tail = 0;
  ring_buffer_fill = 0;
  chunk_to_save = replicate max_size 0;
  chunk_to_save_fill = 0;
  rolling_hash = RollingHash.reset;
  backup_data = [];
  chunk_id_generated = false;
  generated_chunk_id = no_id;
  stream_open = true;
  aborted = false;
}

-- `p == end ? begin : p`
abbrev pub wrap : ℕ → ℕ → ℕ
wrap end_ p = if p == end_ then 0 else p

pub get_input_buffer_size : Creator → ℕ
get_input_buffer_size s =
    if ltb s.head s.tail
    then s.tail - s.head
    else if s.tail == s.head && ltb 0 s.ring_buffer_fill
    then 0
    else length s.ring_buffer - s.head

-- The client puts its bytes into `getInputBuffer()`, which is `head`.
pub fill_input_buffer : Creator → List ℕ → Creator
fill_input_buffer s bytes = record s { ring_buffer = overwrite s.ring_buffer s.head bytes }

check : Bool → Creator → Creator
check true s = s
check false s = record s { aborted = true }

output_instruction : Creator → BackupInstruction → Creator
output_instruction s instr = record s { backup_data = s.backup_data ++ (instr ∷ []) }

abbrev pub emit_bytes : List ℕ → BackupInstruction
emit_bytes bytes = record { chunk_to_emit = none; bytes_to_emit = some bytes }

abbrev pub emit_chunk : ChunkId → BackupInstruction
emit_chunk id = record { chunk_to_emit = some (to_blob id); bytes_to_emit = none }

-- The bytes from one pointer up to another.
abbrev slice : List ℕ → ℕ → ℕ → List ℕ
slice buffer from to = take (to - from) (drop from buffer)

-- `while ( toFill-- ) rollingHash.rollIn( *head++ )`
pub roll_ring : List ℕ → ℕ → ℕ → RollingHash → RollingHash × ℕ
roll_ring ring zero head hash = (hash, head)
roll_ring ring (suc n) head hash =
    roll_ring ring n (head + 1) (RollingHash.roll_in hash (get_or ring head 0))

-- `chunkToSave[ chunkToSaveFill++ ] = *tail`
pub store_byte : Creator → Creator
store_byte s = record s {
  chunk_to_save = set s.chunk_to_save s.chunk_to_save_fill (get_or s.ring_buffer s.tail 0);
  chunk_to_save_fill = s.chunk_to_save_fill + 1;
}

-- `rollingHash.rotate( *head++, *tail++ )`, with the two wrap-arounds.
pub rotate_ring : Creator → Creator
rotate_ring s = record s {
  rolling_hash =
      RollingHash.rotate s.rolling_hash (get_or s.ring_buffer s.head 0)
        (get_or s.ring_buffer s.tail 0);
  head = wrap (length s.ring_buffer) (s.head + 1);
  tail = wrap (length s.ring_buffer) (s.tail + 1);
}

-- The second `memcpy`, from the start of the ring.
pub move_second : Creator → ℕ → ℕ → Creator
move_second s first_part second_part =
    if ltb 0 second_part
    then record s {
      chunk_to_save =
          overwrite s.chunk_to_save (s.chunk_to_save_fill + first_part)
            (slice s.ring_buffer 0 second_part);
      tail = second_part;
    }
    else s

pub copy_from_tail : Creator → ℕ → Creator
copy_from_tail s n = record s {
  chunk_to_save =
      overwrite s.chunk_to_save s.chunk_to_save_fill (slice s.ring_buffer s.tail (s.tail + n));
  tail = s.tail + n;
}

pub move_bytes : Creator → ℕ → Creator
unfolding copy_from_tail move_second
move_bytes s to_move =
    let to_end = length s.ring_buffer - s.tail in
    let first_part = if ltb to_end to_move then to_end else to_move in
    if ltb s.tail s.head
    then copy_from_tail s to_move
    else move_second (copy_from_tail s first_part) first_part (to_move - first_part)

pub move_from_ring_buffer : Creator → ℕ → Creator
unfolding move_bytes
move_from_ring_buffer s to_move =
    let moved = move_bytes s to_move in
    record moved {
      tail = wrap (length moved.ring_buffer) moved.tail;
      chunk_to_save_fill = add32 moved.chunk_to_save_fill to_move;
      ring_buffer_fill = sub32 moved.ring_buffer_fill to_move;
    }

-- `SHA1` is OpenSSL's; `random` gives the values of `Random::generatePseudo`.
module _ (sha1 : List ℕ → List ℕ) (random : ℕ → List ℕ) where
  -- The id of a chunk's bytes: the first 16 bytes of SHA-1, and the rolling hash.
  unfoldable pub id_of : List ℕ → ChunkId
  id_of bytes = record {
    crypto_hash = take 16 (sha1 bytes);
    rolling_hash = RollingHash.digest_buffer bytes (length bytes);
  }

  -- `chunkStorageWriter.add` with the instruction that names the chunk; `bytes` are the
  -- `chunkToSaveFill` bytes at `chunkToSave.data()`.
  save_as_chunk : Creator → List ℕ → Creator
  unfolding output_instruction
  save_as_chunk s bytes =
      let id : ChunkId = record {
        crypto_hash = take 16 (sha1 bytes);
        rolling_hash = RollingHash.digest_buffer bytes s.chunk_to_save_fill;
      } in
      let writer = (ChunkStorage.add random s.writer id bytes s.chunk_to_save_fill).0 in
      output_instruction (record s { writer = writer }) (emit_chunk id)

  pub save_chunk_to_save : Creator → Creator
  unfolding check output_instruction save_as_chunk
  save_chunk_to_save s₀ =
      let s = check (ltb 0 s₀.chunk_to_save_fill) s₀ in
      let bytes = take s.chunk_to_save_fill s.chunk_to_save in
      let saved =
        if ltb s.chunk_to_save_fill 128
        then output_instruction s (emit_bytes bytes)
        else save_as_chunk s bytes in
      record saved { chunk_to_save_fill = 0 }

  -- The bytes that `SHA1_Update` is given, one piece after the other.
  hashed_bytes : Creator → List ℕ
  hashed_bytes s =
      if ltb s.tail s.head
      then slice s.ring_buffer s.tail s.head
      else slice s.ring_buffer s.tail (length s.ring_buffer) ++ slice s.ring_buffer 0 s.head

  pub get_chunk_id : Creator → ChunkId × Creator
  unfolding hashed_bytes
  get_chunk_id s =
      let id : ChunkId = record {
        crypto_hash = take 16 (sha1 (hashed_bytes s));
        rolling_hash = RollingHash.digest s.rolling_hash;
      } in
      if s.chunk_id_generated
      then (s.generated_chunk_id, s)
      else (id, record s { generated_chunk_id = id; chunk_id_generated = true })

  -- The record is added, and the block is removed from the ring buffer.
  take_window : ChunkId → Creator → Creator
  unfolding output_instruction
  take_window id s₀ =
      let s = output_instruction s₀ (emit_chunk id) in
      record s { tail = s.head; ring_buffer_fill = 0; rolling_hash = RollingHash.reset }

  emit_window : Creator → Creator
  unfolding get_chunk_id take_window
  emit_window s = let (id, s') = get_chunk_id s in take_window id s'

  -- The part of `addChunkIfMatched` that follows a match.
  emit_match : Creator → Creator
  unfolding emit_window save_chunk_to_save
  emit_match s = emit_window (if ltb 0 s.chunk_to_save_fill then save_chunk_to_save s else s)

  finish_match : Option (BundleId × ℕ) → Creator → Creator
  finish_match none s = s
  finish_match (some found) s = emit_match s

  pub add_chunk_if_matched : Creator → Creator
  unfolding finish_match
  add_chunk_if_matched s₀ =
      let s = record s₀ { chunk_id_generated = false } in
      let (found, s') =
        ChunkIndex.find_chunk s.writer.index (RollingHash.digest s.rolling_hash) get_chunk_id s in
      finish_match found s'

  -- The two branches of the loop in `handleMoreData`: the number of bytes taken, and the new state.
  pub fill_chunk : Creator → ℕ → ℕ × Creator
  unfolding roll_ring
  fill_chunk s added =
      let left = sub32 s.chunk_max_size s.ring_buffer_fill in
      let can_fully_fill = leb left added in
      let to_fill = if can_fully_fill then left else added in
      let (hash, head) = roll_ring s.ring_buffer to_fill s.head s.rolling_hash in
      let s' = record s {
        ring_buffer_fill = add32 s.ring_buffer_fill to_fill;
        rolling_hash = hash;
        head = wrap (length s.ring_buffer) head;
      } in
      (to_fill, if can_fully_fill then add_chunk_if_matched s' else s')

  pub rotate_byte : Creator → Creator
  unfolding store_byte rotate_ring save_chunk_to_save add_chunk_if_matched
  rotate_byte s =
      let s₁ = store_byte s in
      let s₂ = if s₁.chunk_to_save_fill == s₁.chunk_max_size then save_chunk_to_save s₁ else s₁ in
      add_chunk_if_matched (rotate_ring s₂)

  pub round : Creator → ℕ → ℕ × Creator
  unfolding fill_chunk rotate_byte
  round s added =
      if ltb s.ring_buffer_fill s.chunk_max_size then fill_chunk s added else (1, rotate_byte s)

  -- `while( added )`; the first number is fuel, and each round takes a byte at least.
  pub handle_loop : ℕ → ℕ → Creator → Creator
  unfolding round
  handle_loop zero added s = s
  handle_loop (suc fuel) zero s = s
  handle_loop (suc fuel) (suc added) s =
      let (taken, s') = round s (suc added) in handle_loop fuel (suc added - taken) s'

  pub handle_more_data : Creator → ℕ → Creator
  unfolding handle_loop
  handle_more_data s added = handle_loop added added s

  pub save_first_part : Creator → Creator
  unfolding move_from_ring_buffer save_chunk_to_save
  save_first_part s =
      if ltb s.chunk_max_size (add32 s.chunk_to_save_fill s.ring_buffer_fill)
      then save_chunk_to_save
          (move_from_ring_buffer s (sub32 s.chunk_max_size s.chunk_to_save_fill))
      else s

  pub save_rest : Creator → Creator
  unfolding check move_from_ring_buffer save_chunk_to_save
  save_rest s₀ =
      let fits = leb (add32 s₀.chunk_to_save_fill s₀.ring_buffer_fill) s₀.chunk_max_size in
      let s = check fits s₀ in
      let moved = move_from_ring_buffer s s.ring_buffer_fill in
      if ltb 0 moved.chunk_to_save_fill then save_chunk_to_save moved else moved

  pub finish : Creator → Creator
  unfolding save_first_part save_rest
  finish s = save_rest (save_first_part s)

-- The data is handed over and the stream closed: a second call is a failed CHECK.
pub get_backup_data : Creator → List BackupInstruction × Creator
unfolding check
get_backup_data s₀ =
    let s = check s₀.stream_open s₀ in
    (s.backup_data, record s { backup_data = []; stream_open = false })
