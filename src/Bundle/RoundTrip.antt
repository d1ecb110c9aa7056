-- ===== src/Bundle/RoundTrip.antt =====
-- What the reader finds in a bundle that the creator made.
use zbackup.Base.{
  ℕ, ◌<◌, ◌≡◌, refl, ◌∙◌, ◌≢◌, Option, none, some, List, [], ◌∷◌, ◌++◌, append-nil, append_assoc,
  arith, if◌then◌else◌, length, drop, All, length-append, take-append, drop-append, take_all,
}
use zbackup.Base.Bytes.{u32_mod, bytes_eq, bytes_eq_iff}
use native.Mathlib.Nat.{mod-eq_of_lt}
use zbackup.Bundle.{
  ChunkRecord, BundleInfo, Creator, empty, add_chunk, ok, err, duplicate_chunks, Chunks, find,
  insert, populate, read_chunks, get, total_size, payload_size,
}

-- A chunk as the callers hand it over: its id blob and its bytes.
abbrev pub Item : Type 0
Item = List ℕ × List ℕ

pub add_items : Creator → List Item → Creator
add_items creator [] = creator
add_items creator ((id, bytes) ∷ items) =
    add_items (add_chunk creator id bytes (length bytes)) items

-- The bytes under an id, by the first item that has it.
unfoldable pub item : List ℕ → List Item → Option (List ℕ)
item id [] = none
item id ((key, bytes) ∷ items) = if bytes_eq key id then some bytes else item id items

-- No id occurs twice.
abbrev pub IsDistinct : List Item → Type 0
IsDistinct [] = Unit {0}
IsDistinct ((id, bytes) ∷ items) = (item id items ≡ none) × IsDistinct items

abbrev pub IsSmall : Item → Type 0
IsSmall (id, bytes) = length bytes < u32_mod

infos : List Item → BundleInfo
infos [] = []
infos ((id, bytes) ∷ items) = record { id = id; size = length bytes } ∷ infos items

payloads : List Item → List ℕ
payloads [] = []
payloads ((id, bytes) ∷ items) = bytes ++ payloads items

add_items-parts :
    (c : Creator) (items : List Item)
    → All IsSmall items
    → add_items c items
      ≡ record { info = c.info ++ infos items; payload = c.payload ++ payloads items }
unfolding add_items infos payloads add_chunk
add_items-parts c [] h = rw (append-nil, append-nil)
add_items-parts c ((id, bytes) ∷ items) (small, h) =
    rw (take_all (length bytes) bytes refl, mod-eq_of_lt small)
      (add_items-parts _ items h ∙ rw (append_assoc, append_assoc))

total_size-infos : (items : List Item) → total_size (infos items) ≡ length (payloads items)
unfolding total_size infos payloads
total_size-infos [] = refl
total_size-infos ((id, bytes) ∷ items) = rw length-append (omega (arith, total_size-infos items))

-- The map that the reader fills.
filled : List Item → Chunks → Chunks
filled [] chunks = chunks
filled ((id, bytes) ∷ items) chunks =
    filled items ((id, bytes ++ payloads items, length bytes) ∷ chunks)

abbrev IsFresh : Chunks → Item → Type 0
IsFresh chunks (id, bytes) = find id chunks ≡ none

IsFresh-after :
    (items : List Item) (id next : List ℕ) (n : ℕ) (chunks : Chunks)
    → item id items ≡ none
    → All (IsFresh chunks) items
    → All (IsFresh ((id, next, n) ∷ chunks)) items
unfolding item find
IsFresh-after [] id next n chunks e h = tt
IsFresh-after ((key, bytes) ∷ items) id next n chunks e (here, h) = (
  ground (arith, bytes_eq_iff id key, bytes_eq_iff key id),
  IsFresh-after items id next n chunks (ground arith) h,
)

populate-filled :
    (items : List Item) (chunks : Chunks)
    → IsDistinct items
    → All (IsFresh chunks) items
    → populate (infos items) (payloads items) chunks ≡ ok (filled items chunks)
unfolding populate insert infos payloads filled
populate-filled [] chunks d f = refl
populate-filled ((id, bytes) ∷ items) chunks (new, d) (here, f) =
    rw (here, insert, populate)
      (rw (drop-append bytes (payloads items))
        (populate-filled items _ d (IsFresh-after items id _ _ chunks new f)))

-- What `get` answers for the bytes under an id.
abbrev pub answer : Option (List ℕ) → List ℕ → Option (List ℕ × ℕ)
answer none buffer = none
answer (some bytes) buffer = some (bytes ++ drop (length bytes) buffer, length bytes)

get-filled :
    (items : List Item) (chunks : Chunks) (id buffer : List ℕ)
    → IsDistinct items
    → get (filled items chunks) id buffer ≡ elim (item id items) [
      | some bytes ↦ answer (some bytes) buffer
      | none ↦ get chunks id buffer
    ]
unfolding filled item get
get-filled [] chunks id buffer d = refl
get-filled ((key, bytes) ∷ items) chunks id buffer (new, d) = ground (
  arith,
  get-filled items ((key, bytes ++ payloads items, length bytes) ∷ chunks) id buffer d,
  bytes_eq_iff key id,
  take-append bytes (payloads items),
)

-- A bundle filled with chunks of different ids is read without error: each chunk is found under its
-- id, with its bytes and its size, and no other id is found. The reader's buffer has the size of the
-- payload.
pub read_chunks-add_items :
    (items : List Item) (id buffer : List ℕ)
    → IsDistinct items
    → All IsSmall items
    → (total_size (add_items empty items).info ≡ payload_size (add_items empty items))
      × ((chunks : Chunks) × (read_chunks
              (add_items empty items).info
              (add_items empty items).payload
            ≡ ok chunks)
          × (get chunks id buffer ≡ answer (item id items) buffer))
unfolding read_chunks empty payload_size
read_chunks-add_items items id buffer d small =
    rw (add_items-parts empty items small) (
      total_size-infos items,
      (filled items [], populate-filled items [] d (all_fresh items), found),
    )
  where
    all_fresh : (items : List Item) → All (IsFresh []) items
    all_fresh [] = tt
    all_fresh ((key, bytes) ∷ items) = (refl, all_fresh items)

    found : get (filled items []) id buffer ≡ answer (item id items) buffer
    found = unfold get find in ground (arith, get-filled items [] id buffer d)

known_after :
    (id key next : List ℕ) (n : ℕ) (chunks : Chunks)
    → find id chunks ≢ none
    → find id ((key, next, n) ∷ chunks) ≢ none
unfolding find
known_after id key next n chunks h = ground arith

populate-known :
    (info rest : BundleInfo) (s : ChunkRecord) (next : List ℕ) (chunks : Chunks)
    → find s.id chunks ≢ none
    → populate (info ++ (s ∷ rest)) next chunks ≡ err duplicate_chunks
unfolding populate insert
populate-known [] rest s next chunks h = ground arith
populate-known (r ∷ info) rest s next chunks h = ground (
  arith,
  populate-known info rest s (drop r.size next) ((r.id, next, r.size) ∷ chunks)
      (known_after s.id r.id next r.size chunks h),
)

populate-twice :
    (before after rest : BundleInfo) (r s : ChunkRecord) (next : List ℕ) (chunks : Chunks)
    → r.id ≡ s.id
    → populate (before ++ (r ∷ (after ++ (s ∷ rest)))) next chunks ≡ err duplicate_chunks
unfolding populate insert
populate-twice [] after rest r s next chunks e = ground (
  arith,
  populate-known after rest s (drop r.size next) ((r.id, next, r.size) ∷ chunks)
      (here r s next chunks e),
)
  where
    here :
        (r s : ChunkRecord) (next : List ℕ) (chunks : Chunks)
        → r.id ≡ s.id
        → find s.id ((r.id, next, r.size) ∷ chunks) ≢ none
    here r s next chunks e = unfold find in ground (arith, bytes_eq_iff r.id s.id)
populate-twice (q ∷ before) after rest r s next chunks e = ground (
  arith,
  populate-twice before after rest r s (drop q.size next) ((q.id, next, q.size) ∷ chunks) e,
)

-- A bundle whose info has the same id in two records is refused with an error, whatever stands before,
-- between and behind them.
pub read_chunks-duplicate :
    (before after rest : BundleInfo) (r s : ChunkRecord) (payload : List ℕ)
    → r.id ≡ s.id
    → read_chunks (before ++ (r ∷ (after ++ (s ∷ rest)))) payload ≡ err duplicate_chunks
unfolding read_chunks
read_chunks-duplicate before after rest r s payload e =
    populate-twice before after rest r s payload [] e
