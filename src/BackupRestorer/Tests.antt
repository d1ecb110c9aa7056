-- ===== src/BackupRestorer/Tests.antt =====
-- A restoration at concrete inputs: pieces of up to 4 bytes, and a hash that keeps them.
use zbackup.Base.{
  ℕ, zero, suc, ◌≤◌, ◌<◌, ◌≡◌, refl, ap, ◌∙◌, inl, inr, if◌then◌else◌, false, Option, none, some,
  List, [], ◌∷◌, ◌++◌, append-nil, arith, length, take, drop, replicate, length-append, length-take,
  take-append, drop-append,
}
use mathlib.Core.List.{flatten}
use zbackup.Base.{◌>>=◌}
use zbackup.ChunkId.{ChunkId}
use zbackup.ChunkIndex
use zbackup.ChunkIndex.{BundleId}
use zbackup.Base.Bytes.{bytes_eq, bytes_eq_refl, to_le}
use zbackup.ChunkId.{to_blob}
use zbackup.ChunkStorage.{Writer}
use zbackup.ChunkStorage.Known.{add-IsKnown_new}
use mathlib.Core.List.{not-mem-nil}
use zbackup.ChunkIndex.Entries.{is_none, entry-new}
use zbackup.ChunkStorage.{add}
use zbackup.ChunkStorage.Items.{disk_items, pending_items, current_items, stored}
use zbackup.BackupCreator.{BackupInstruction, id_of, emit_bytes, emit_chunk}
use zbackup.BackupCreator.Ready.{IsPrepared, IsPrepared-Preserved}
use zbackup.Backup.{BackupInfo, backup}
use zbackup.Backup.Shrinking.{Restores}
use zbackup.BackupRestorer.{restore_to_stdin}
use zbackup.BackupRestorer.RoundTrip.{restore_to_stdin-Unwinds}
use zbackup.BackupRestorer.BackedUp.{IsRestored, restore_to_stdin-backup}

-- A part as its length and its bytes, or as zero.
framed : Option (List ℕ) → List ℕ
framed none = 0 ∷ []
framed (some bytes) = suc (length bytes) ∷ bytes

sample_serialize : List BackupInstruction → List ℕ
sample_serialize [] = []
sample_serialize (i ∷ is) =
    framed i.chunk_to_emit ++ (framed i.bytes_to_emit ++ sample_serialize is)

read_part : List ℕ → Option (Option (List ℕ) × List ℕ)
read_part [] = none
read_part (zero ∷ bytes) = some (none, bytes)
read_part (suc n ∷ bytes) = some (some (take n bytes), drop n bytes)

parse_fuel : ℕ → List ℕ → Option (List BackupInstruction)
unfolding read_part
parse_fuel fuel [] = some []
parse_fuel zero (b ∷ bytes) = none
parse_fuel (suc fuel) (b ∷ bytes) = do
  chunk ← read_part (b ∷ bytes)
  part ← read_part chunk.1
  rest ← parse_fuel fuel part.1
  some (record { chunk_to_emit = chunk.0; bytes_to_emit = part.0 } ∷ rest)

sample_parse : List ℕ → Option (List BackupInstruction)
unfolding parse_fuel
sample_parse bytes = parse_fuel (length bytes) bytes

read_part-framed :
    (part : Option (List ℕ)) (rest : List ℕ) → read_part (framed part ++ rest) ≡ some (part, rest)
unfolding read_part framed
read_part-framed none rest = refl
read_part-framed (some bytes) rest = rw (take-append bytes rest, drop-append bytes rest) refl

parse_fuel-step :
    (fuel : ℕ) (bytes : List ℕ) (chunk part : Option (List ℕ)) (mid rest : List ℕ)
    → 0 < length bytes
    → read_part bytes ≡ some (chunk, mid)
    → read_part mid ≡ some (part, rest)
    → parse_fuel (suc fuel) bytes ≡ (
        parse_fuel fuel rest
        >>= (λ is. some (record { chunk_to_emit = chunk; bytes_to_emit = part } ∷ is)))
unfolding parse_fuel
parse_fuel-step fuel [] chunk part mid rest pos e f = absurd (omega arith)
parse_fuel-step fuel (b ∷ bytes) chunk part mid rest pos e f = rw (e, f) refl

framed-positive : (part : Option (List ℕ)) (rest : List ℕ) → 0 < length (framed part ++ rest)
unfolding framed
framed-positive none rest = omega arith
framed-positive (some bytes) rest = omega arith

parse_fuel-sample_serialize :
    (is : List BackupInstruction) (fuel : ℕ)
    → length is ≤ fuel
    → parse_fuel fuel (sample_serialize is) ≡ some is
unfolding sample_serialize
parse_fuel-sample_serialize [] fuel le = unfold parse_fuel in refl
parse_fuel-sample_serialize (i ∷ is) zero le = absurd (omega arith)
parse_fuel-sample_serialize (i ∷ is) (suc fuel) le =
    parse_fuel-step fuel (sample_serialize (i ∷ is)) i.chunk_to_emit i.bytes_to_emit _ _
      (framed-positive i.chunk_to_emit _) (read_part-framed i.chunk_to_emit _)
      (read_part-framed i.bytes_to_emit _)
    ∙ (rw (parse_fuel-sample_serialize is fuel (omega arith)) refl)

length-sample_serialize : (is : List BackupInstruction) → length is ≤ length (sample_serialize is)
unfolding sample_serialize
length-sample_serialize [] = omega arith
length-sample_serialize (i ∷ is) =
    rw length-append
      (rw length-append (omega (arith, length-sample_serialize is, frame i.chunk_to_emit)))
  where
    frame : (part : Option (List ℕ)) → 0 < length (framed part)
    frame part = rw append-nil at (framed-positive part [])

sample_parse-sample_serialize :
    (is : List BackupInstruction) → sample_parse (sample_serialize is) ≡ some is
unfolding sample_parse
sample_parse-sample_serialize is = parse_fuel-sample_serialize is _ (length-sample_serialize is)

sample_sha1 : List ℕ → List ℕ
sample_sha1 bytes = take 20 (length bytes ∷ (bytes ++ replicate 20 0))

length-sample_sha1 : (bytes : List ℕ) → length (sample_sha1 bytes) ≡ 20
unfolding sample_sha1
length-sample_sha1 bytes = rw (length-take, length-append) (omega arith)

sample_random : ℕ → List ℕ
sample_random n = replicate 24 n

kept : List ℕ → Option (List ℕ)
kept [] = none
kept (n ∷ bytes) = some (take n bytes)

abbrev sample_sha256 : List ℕ → List ℕ
sample_sha256 bytes = length bytes ∷ []

abbrev no_writer : Writer
no_writer = record {
  max_payload_size = 100;
  index = ChunkIndex.new;
  current_bundle = none;
  current_bundle_id = [];
  has_current_bundle_id = false;
  index_file = none;
  pending_bundle_renames = [];
  random_calls = 0;
  bundles = [];
  index_files = [];
}

empty-IsPrepared : IsPrepared sample_sha1 sample_random 64 no_writer
unfolding stored disk_items pending_items current_items
empty-IsPrepared = (
  (record { current = tt; pending = tt; listed = tt }, omega arith, omega arith),
  record {
    held = λ id known. absurd (cc (known, ap is_none (entry-new id)));
    hashed = λ blob bytes m. absurd (not-mem-nil m);
  },
)

abbrev four_bytes : List ℕ
four_bytes = 5 ∷ 6 ∷ 7 ∷ 8 ∷ []

-- A writer that was given a chunk.
abbrev one_chunk : Writer
one_chunk =
    (add sample_random no_writer (id_of sample_sha1 sample_random four_bytes) four_bytes 4).0

one_chunk-IsPrepared : IsPrepared sample_sha1 sample_random 64 one_chunk
one_chunk-IsPrepared =
    IsPrepared-Preserved sample_sha1 sample_random 64 no_writer four_bytes (omega arith)
      (omega arith) empty-IsPrepared

abbrev two_bytes : List ℕ
two_bytes = 9 ∷ 255 ∷ []

-- The chunk and the two bytes as instructions, and those as an instruction again.
abbrev packed : List ℕ
packed =
    sample_serialize
      (emit_chunk (id_of sample_sha1 sample_random four_bytes) ∷ emit_bytes two_bytes ∷ [])

abbrev packed_twice : List ℕ
packed_twice = sample_serialize (emit_bytes packed ∷ [])

abbrev Packs : List ℕ → List ℕ → Type 0
Packs =
    Restores sample_sha1 sample_random 64 4 4 sample_serialize sample_sha256 (omega arith)
      (omega arith) (omega arith) (omega arith) one_chunk

length-packed : length packed ≡ 30
unfolding sample_serialize framed sample_sha1 id_of to_blob emit_chunk emit_bytes to_le
length-packed = refl

packed-Packs : Packs packed (four_bytes ++ two_bytes)
unfolding flatten
packed-Packs = record {
  instrs = emit_chunk (id_of sample_sha1 sample_random four_bytes) ∷ emit_bytes two_bytes ∷ [];
  pieces = four_bytes ∷ two_bytes ∷ [];
  serialized = refl;
  emits = (
    inr (
      refl,
      add-IsKnown_new sample_random (id_of sample_sha1 sample_random four_bytes) four_bytes 4
          no_writer,
    ),
    (inl refl, tt),
  );
  whole = refl;
  sizes = ((omega arith, omega arith), ((omega arith, omega arith), tt));
}

packed_twice-Packs : Packs packed_twice packed
unfolding flatten
packed_twice-Packs = record {
  instrs = emit_bytes packed ∷ [];
  pieces = packed ∷ [];
  serialized = refl;
  emits = (inl refl, tt);
  whole = append-nil packed;
  sizes = ((omega (arith, length-packed), omega (arith, length-packed)), tt);
}

-- A store with the packed data and with whatever a hash keeps.
sample_get : ChunkId → Option (List ℕ)
unfolding kept
sample_get id =
    if bytes_eq id.crypto_hash (id_of sample_sha1 sample_random packed).crypto_hash
    then some packed
    else kept id.crypto_hash

sample_get-packed : sample_get (id_of sample_sha1 sample_random packed) ≡ some packed
unfolding sample_get
sample_get-packed = rw (bytes_eq_refl (id_of sample_sha1 sample_random packed).crypto_hash) refl

sample_get-four_bytes : sample_get (id_of sample_sha1 sample_random four_bytes) ≡ some four_bytes
unfolding sample_get kept sample_sha1 id_of bytes_eq sample_serialize framed to_blob emit_chunk
    emit_bytes to_le
sample_get-four_bytes = refl

sample_get-two_bytes : sample_get (id_of sample_sha1 sample_random two_bytes) ≡ some two_bytes
unfolding sample_get kept sample_sha1 id_of bytes_eq sample_serialize framed to_blob emit_chunk
    emit_bytes to_le
sample_get-two_bytes = refl

restore_to_stdin-Unwinds_example :
    restore_to_stdin sample_get
      (λ id. none)
      sample_parse
      sample_sha256
      false
      (sample_sha256 (four_bytes ++ two_bytes))
      1
      packed_twice
    ≡ some (four_bytes ++ two_bytes)
unfolding packed_twice-Packs packed-Packs
restore_to_stdin-Unwinds_example =
    restore_to_stdin-Unwinds sample_sha1 sample_random 64 4 4 sample_serialize sample_sha256
      (omega arith) (omega arith) (omega arith) (omega arith) length-sample_sha1 sample_get
      (λ id. none) sample_parse sample_parse-sample_serialize one_chunk 1 packed_twice
      (four_bytes ++ two_bytes) (packed, packed_twice-Packs, packed-Packs)
      (
        (λ known. sample_get-packed, tt),
        (λ known. sample_get-four_bytes, (λ known. sample_get-two_bytes, tt)),
      )

abbrev ten_bytes : List ℕ
ten_bytes = 5 ∷ 6 ∷ 7 ∷ 8 ∷ 9 ∷ 255 ∷ 0 ∷ 1 ∷ 2 ∷ 3 ∷ []

restore_to_stdin-backup_example :
    (r : Option BackupInfo × Writer) × (backup sample_sha1 sample_random 4 4 sample_serialize
        sample_sha256 one_chunk ten_bytes false
      ≡ some r)
    × IsRestored sample_sha1 sample_random 64 4 4 sample_serialize sample_sha256
        (omega arith)
        (omega arith)
        (omega arith)
        (omega arith)
        length-sample_sha1
        (λ id. none)
        sample_parse
        sample_parse-sample_serialize
        ten_bytes
        r
restore_to_stdin-backup_example =
    restore_to_stdin-backup sample_sha1 sample_random 64 4 4 sample_serialize sample_sha256
      (omega arith) (omega arith) (omega arith) (omega arith) length-sample_sha1 (λ id. none)
      sample_parse sample_parse-sample_serialize one_chunk ten_bytes one_chunk-IsPrepared
      (omega arith)
