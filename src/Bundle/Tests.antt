-- ===== src/Bundle/Tests.antt =====
-- Bundles at concrete inputs.
use zbackup.Base.{ℕ, ◌≡◌, refl, Option, none, some, List, [], ◌∷◌, arith}
use zbackup.Base.Bytes.{bytes_eq}
use zbackup.Bundle.{
  ChunkRecord, empty, payload_size, total_size, Chunks, Result, ok, err, duplicate_chunks,
  read_chunks, get,
}
use zbackup.Bundle.RoundTrip.{
  Item, IsDistinct, add_items, item, answer, read_chunks-add_items, read_chunks-duplicate,
}

abbrev two_items : List Item
two_items = (1 ∷ [], 10 ∷ 11 ∷ []) ∷ (2 ∷ [], 12 ∷ []) ∷ []

abbrev record_of : ℕ → ℕ → ChunkRecord
record_of id size = record { id = id ∷ []; size = size }

look_up : Result Chunks → List ℕ → Option (List ℕ × ℕ)
look_up (ok chunks) id = get chunks id []
look_up (err e) id = none

second_found :
    look_up (read_chunks (record_of 1 2 ∷ record_of 2 1 ∷ []) (10 ∷ 11 ∷ 12 ∷ [])) (2 ∷ [])
    ≡ some (12 ∷ [], 1)
unfolding look_up read_chunks get bytes_eq
second_found = refl

distinct : IsDistinct two_items
unfolding item bytes_eq
distinct = (refl, (refl, tt))

read_chunks-add_items_example :
    (total_size (add_items empty two_items).info ≡ payload_size (add_items empty two_items))
    × ((chunks : Chunks) × (read_chunks
            (add_items empty two_items).info
            (add_items empty two_items).payload
          ≡ ok chunks)
        × (get chunks (2 ∷ []) [] ≡ answer (item (2 ∷ []) two_items) []))
read_chunks-add_items_example =
    read_chunks-add_items two_items (2 ∷ []) [] distinct (omega arith, (omega arith, tt))

read_chunks-duplicate_example :
    read_chunks (record_of 1 2 ∷ record_of 5 0 ∷ record_of 1 3 ∷ record_of 6 1 ∷ []) (7 ∷ 8 ∷ [])
    ≡ err duplicate_chunks
read_chunks-duplicate_example =
    read_chunks-duplicate [] (record_of 5 0 ∷ []) (record_of 6 1 ∷ []) (record_of 1 2)
      (record_of 1 3) (7 ∷ 8 ∷ []) refl
