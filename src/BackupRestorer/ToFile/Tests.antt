-- ===== src/BackupRestorer/ToFile/Tests.antt =====
-- A backup of one chunk and two bytes behind it, restored to a new file.
use zbackup.Base.{
  ℕ, ◌≡◌, refl, ap, Option, none, some, List, [], ◌∷◌, arith, length, replicate, if◌then◌else◌,
}
use zbackup.Base.Bytes.{bytes_eq, from_le}
use mathlib.Core.Option.{some-injective}
use zbackup.ChunkId.{ChunkId, of_blob, set_from_blob}
use zbackup.ChunkIndex.{BundleId}
use zbackup.BackupCreator.{BackupInstruction}
use zbackup.BackupRestorer.{restore_to_stdin, false}
use zbackup.BackupRestorer.ToFile.{restore_to_file}
use zbackup.BackupRestorer.ToFile.Covering.{Reordered-refl}
use zbackup.BackupRestorer.ToFile.Same.{with_tail, restore_to_file-with_tail, restore_to_file-same}

abbrev three_bytes : ChunkId → Option (List ℕ)
three_bytes id = some (1 ∷ 2 ∷ 3 ∷ [])

abbrev one_bundle : ChunkId → Option (BundleId × ℕ)
one_bundle id = some (replicate 24 9, 3)

abbrev two_instructions : List ℕ → Option (List BackupInstruction)
two_instructions bytes = some (
    record { chunk_to_emit = some (replicate 24 5); bytes_to_emit = none }
    ∷ record { chunk_to_emit = none; bytes_to_emit = some (7 ∷ 8 ∷ []) }
    ∷ [])

abbrev count : List ℕ → List ℕ
count bytes = length bytes ∷ []

known_size :
    (id : ChunkId) (chunk : List ℕ)
    → three_bytes id ≡ some chunk
    → (bundle_id : BundleId) × (one_bundle id ≡ some (bundle_id, length chunk))
known_size id chunk e = (
  replicate 24 9,
  ap (λ (c : List ℕ). some (replicate 24 9, length c)) (some-injective (1 ∷ 2 ∷ 3 ∷ []) chunk e),
)

five_bytes :
    restore_to_stdin three_bytes one_bundle two_instructions count false (5 ∷ []) 0 []
    ≡ some (1 ∷ 2 ∷ 3 ∷ 7 ∷ 8 ∷ [])
unfolding restore_to_stdin of_blob set_from_blob from_le bytes_eq
five_bytes = refl

restore_to_file-with_tail_example :
    restore_to_file three_bytes one_bundle two_instructions
      (λ m. m)
      count
      (5 ∷ [])
      0
      []
      (replicate 6 4)
    ≡ (if bytes_eq (count (with_tail (1 ∷ 2 ∷ 3 ∷ 7 ∷ 8 ∷ []) (replicate 6 4))) (5 ∷ [])
        then some (with_tail (1 ∷ 2 ∷ 3 ∷ 7 ∷ 8 ∷ []) (replicate 6 4))
        else none)
restore_to_file-with_tail_example =
    restore_to_file-with_tail three_bytes one_bundle two_instructions known_size (λ m. m)
      (λ m. Reordered-refl m) count false (5 ∷ []) 0 [] (replicate 6 4) (1 ∷ 2 ∷ 3 ∷ 7 ∷ 8 ∷ [])
      five_bytes

restore_to_file-same_example :
    restore_to_file three_bytes one_bundle two_instructions (λ m. m) count (5 ∷ []) 0 [] (4 ∷ [])
    ≡ some (1 ∷ 2 ∷ 3 ∷ 7 ∷ 8 ∷ [])
restore_to_file-same_example =
    restore_to_file-same three_bytes one_bundle two_instructions known_size (λ m. m)
      (λ m. Reordered-refl m) count false (5 ∷ []) 0 [] (4 ∷ []) (1 ∷ 2 ∷ 3 ∷ 7 ∷ 8 ∷ [])
      (omega arith) five_bytes
