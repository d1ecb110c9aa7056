-- ===== src/Backup/Tests.antt =====
-- A backup at a concrete input: chunks of up to 4 bytes and a page of 4.
use zbackup.Base.{
  ℕ, ◌≡◌, refl, ap, false, Option, none, some, List, [], ◌∷◌, ◌++◌, arith, length, replicate,
}
use zbackup.ChunkIndex
use zbackup.ChunkStorage.{Writer}
use mathlib.Core.List.{not-mem-nil}
use zbackup.ChunkIndex.Entries.{is_none, entry-new}
use zbackup.ChunkStorage.{add}
use zbackup.ChunkStorage.Items.{disk_items, pending_items, current_items, stored}
use zbackup.BackupCreator.{BackupInstruction, id_of}
use zbackup.BackupCreator.Ready.{IsPrepared, IsPrepared-Preserved}
use zbackup.Backup.{BackupInfo, backup, to_copy}
use zbackup.Backup.Shrinking.{Outcome, backup-Unwinds}

abbrev sample_sha1 : List ℕ → List ℕ
sample_sha1 bytes = bytes ++ replicate 20 0

abbrev sample_random : ℕ → List ℕ
sample_random n = replicate 24 n

-- A part as its length and its bytes.
abbrev framed : Option (List ℕ) → List ℕ
framed none = []
framed (some bytes) = length bytes ∷ bytes

abbrev sample_serialize : List BackupInstruction → List ℕ
sample_serialize [] = []
sample_serialize (i ∷ is) =
    framed i.chunk_to_emit ++ (framed i.bytes_to_emit ++ sample_serialize is)

abbrev sample_sha256 : List ℕ → List ℕ
sample_sha256 bytes = length bytes ∷ []

abbrev no_writer : Writer
no_writer = record {
  max_payload_size = 100;
  index = ChunkIndex.new;
  current_bundle = none;
  current_bundle_id = [];
  has_current_bundle_id = false;
  index_file = none;
  pending_bundle_renames = [];
  random_calls = 0;
  bundles = [];
  index_files = [];
}

empty-IsPrepared : IsPrepared sample_sha1 sample_random 4 no_writer
unfolding stored disk_items pending_items current_items
empty-IsPrepared = (
  (record { current = tt; pending = tt; listed = tt }, omega arith, omega arith),
  record {
    held = λ id known. absurd (cc (known, ap is_none (entry-new id)));
    hashed = λ blob bytes m. absurd (not-mem-nil m);
  },
)

abbrev four_bytes : List ℕ
four_bytes = 5 ∷ 6 ∷ 7 ∷ 8 ∷ []

-- A writer that was given a chunk.
abbrev one_chunk : Writer
one_chunk =
    (add sample_random no_writer (id_of sample_sha1 sample_random four_bytes) four_bytes 4).0

one_chunk-IsPrepared : IsPrepared sample_sha1 sample_random 4 one_chunk
one_chunk-IsPrepared =
    IsPrepared-Preserved sample_sha1 sample_random 4 no_writer four_bytes (omega arith)
      (omega arith) empty-IsPrepared

abbrev ten_bytes : List ℕ
ten_bytes = 5 ∷ 6 ∷ 7 ∷ 8 ∷ 9 ∷ 255 ∷ 0 ∷ 1 ∷ 2 ∷ 3 ∷ []

small_copy : to_copy 8 10 ≡ 8
small_copy = refl

backup-Unwinds_example :
    (r : Option BackupInfo × Writer) × (backup sample_sha1 sample_random 4 4 sample_serialize
        sample_sha256 one_chunk ten_bytes false
      ≡ some r)
    × Outcome sample_sha1 sample_random 4 4 4 sample_serialize sample_sha256
        (omega arith)
        (omega arith)
        (omega arith)
        (omega arith)
        one_chunk
        ten_bytes
        10
        r
backup-Unwinds_example =
    backup-Unwinds sample_sha1 sample_random 4 4 4 sample_serialize sample_sha256 (omega arith)
      (omega arith) (omega arith) (omega arith) one_chunk ten_bytes one_chunk-IsPrepared
      (omega arith)
