-- ===== src/ChunkIndex/Tests.antt =====
-- The chunk index at concrete inputs.
use zbackup.Base.{ℕ, ◌+◌, ◌≡◌, refl, false, none, some, List, [], ◌∷◌}
use zbackup.Base.Bytes.{bytes_eq}
use zbackup.ChunkId.{ChunkId}
use zbackup.ChunkIndex.{
  ChunkIndex, new, find_chunk, find_chunk_id, find_node, add_chunk, size, report,
}
use zbackup.ChunkIndex.Entries.{entry, is_none, after_add, add_chunk-entry}
use zbackup.ChunkIndex.Finding.{Addition, add_all, first_of, find_chunk-add_all}

abbrev short_id : ℕ → ℕ → ChunkId
short_id crypto rolling = record { crypto_hash = crypto ∷ []; rolling_hash = rolling }

abbrev one_chunk : ChunkIndex
one_chunk = (add_chunk new (short_id 1 7) 300 (9 ∷ [])).0

-- Two ids with one rolling hash stand in one chain.
one_key : size (add_chunk one_chunk (short_id 2 7) 5 (9 ∷ [])).0 ≡ 1
unfolding size add_chunk new bytes_eq
one_key = refl

found :
    find_chunk_id (add_chunk one_chunk (short_id 2 7) 5 (8 ∷ [])).0 (short_id 2 7)
    ≡ some (8 ∷ [], 5)
unfolding find_chunk_id find_node report add_chunk new bytes_eq
found = refl

not_twice : (add_chunk one_chunk (short_id 1 7) 5 (8 ∷ [])).1 ≡ false
unfolding add_chunk new bytes_eq
not_twice = refl

-- The callback is not called where the rolling hash is unknown.
no_callback : find_chunk one_chunk 8 (λ (calls : ℕ). (short_id 1 8, calls + 1)) 0 ≡ (none, 0)
unfolding find_chunk add_chunk new
no_callback = refl

add_chunk-entry_example :
    ((add_chunk one_chunk (short_id 1 7) 5 (8 ∷ [])).1 ≡ is_none (entry one_chunk (short_id 1 7)))
    × (entry (add_chunk one_chunk (short_id 1 7) 5 (8 ∷ [])).0 (short_id 1 7)
        ≡ after_add one_chunk
            (short_id 1 7)
            5
            (8 ∷ [])
            (short_id 1 7)
            (entry one_chunk (short_id 1 7)))
add_chunk-entry_example = add_chunk-entry one_chunk (short_id 1 7) (short_id 1 7) 5 (8 ∷ [])

-- The second id shares the rolling hash of the first one.
abbrev three_additions : List Addition
three_additions =
    (short_id 1 7, 300, 9 ∷ []) ∷ (short_id 2 7, 5, 8 ∷ []) ∷ (short_id 1 7, 4, 7 ∷ []) ∷ []

find_chunk-add_all_example :
    (find_chunk (add_all three_additions new) 7 (λ (calls : ℕ). (short_id 2 7, calls + 1)) 0).0
    ≡ first_of (short_id 2 7) three_additions
find_chunk-add_all_example =
    find_chunk-add_all three_additions (λ (calls : ℕ). (short_id 2 7, calls + 1)) 0 7 refl

second_found : first_of (short_id 2 7) three_additions ≡ some (8 ∷ [], 5)
unfolding first_of bytes_eq
second_found = refl
