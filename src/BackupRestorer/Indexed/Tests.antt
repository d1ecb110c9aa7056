-- ===== src/BackupRestorer/Indexed/Tests.antt =====
-- Two bytes on the border of a chunk and of bytes in the instructions.
use zbackup.Base.{ℕ, ◌≡◌, refl, ap, Option, none, some, List, [], ◌∷◌, arith, length, replicate}
use mathlib.Core.Option.{some-injective}
use zbackup.ChunkId.{ChunkId, of_blob, set_from_blob}
use zbackup.ChunkIndex.{BundleId}
use zbackup.BackupCreator.{BackupInstruction}
use zbackup.BackupRestorer.{restore}
use zbackup.BackupRestorer.Indexed.{IndexedRestorer, new, save_data}
use zbackup.BackupRestorer.Indexed.Finding.{chunk, some_bytes}
use zbackup.BackupRestorer.Indexed.Parts.{sunk, save_data-part}

abbrev three_bytes : ChunkId → Option (List ℕ)
three_bytes id = some (1 ∷ 2 ∷ 3 ∷ [])

abbrev one_bundle : ChunkId → Option (BundleId × ℕ)
one_bundle id = some (replicate 24 9, 3)

abbrev two_instructions : List BackupInstruction
two_instructions =
    record { chunk_to_emit = some (replicate 24 5); bytes_to_emit = none }
    ∷ record { chunk_to_emit = none; bytes_to_emit = some (7 ∷ 8 ∷ []) }
    ∷ []

abbrev parse_two : List ℕ → Option (List BackupInstruction)
parse_two bytes = some two_instructions

known_size :
    (id : ChunkId) (c : List ℕ)
    → three_bytes id ≡ some c
    → (bundle_id : BundleId) × (one_bundle id ≡ some (bundle_id, length c))
known_size id c e = (
  replicate 24 9,
  ap (λ (t : List ℕ). some (replicate 24 9, length t)) (some-injective (1 ∷ 2 ∷ 3 ∷ []) c e),
)

blob_read : of_blob (replicate 24 5) ≡ some (set_from_blob (replicate 24 5))
unfolding of_blob
blob_read = refl

save_data-part_example :
    (r : IndexedRestorer) × (restore three_bytes one_bundle parse_two [] (sunk [])
      ≡ some (sunk (1 ∷ 2 ∷ 3 ∷ 7 ∷ 8 ∷ [])))
    × (new three_bytes one_bundle parse_two [] ≡ some r)
    × (r.total_size ≡ 5)
    × (save_data three_bytes one_bundle parse_two r 2 2 ≡ some (3 ∷ 7 ∷ []))
save_data-part_example =
    save_data-part three_bytes one_bundle parse_two known_size [] two_instructions
      ((1 ∷ 2 ∷ 3 ∷ []) ∷ (7 ∷ 8 ∷ []) ∷ []) 2 2 refl
      (
        chunk (replicate 24 5) (set_from_blob (replicate 24 5)) refl refl blob_read refl,
        (some_bytes refl refl, tt),
      )
      (omega arith) (omega arith)
