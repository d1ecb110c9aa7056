-- ===== src/ChunkIndex.antt =====
-- chunk_index.hh and chunk_index.cc: the in-memory index of the known chunks. The hash map is an
-- association list from rolling hashes to chains, a chain the list of its nodes, and a pointer to a
-- stored bundle id the id itself, since a stored id is never changed; NULL is `none`.
pub mod Entries
pub mod Finding
pub mod Loading
mod Tests
use zbackup.Base.{
  ℕ, zero, suc, ◌+◌, ◌-◌, ◌*◌, ◌/◌, ◌%◌, ◌^◌, ◌≤◌, ◌<◌, ◌≡◌, refl, sym, ap, ap₂, ◌∙◌, subst, ◌≢◌,
  ◌↔◌, ◌⊎◌, inl, inr, Bool, true, false, not, ◌&&◌, ◌||◌, Option, none, some, List, [], ◌∷◌, ◌++◌,
  map, reverse, append-nil, append_assoc, arith, ltb, leb, ◌==◌, if◌then◌else◌, ltb→lt, lt→ltb,
  ==_iff, Bool-cases, Option-cases, length, get_or, set, take, drop, replicate, All, length-append,
  length-set, length-take, length-drop, length-replicate, take-append-drop, take-append,
  drop-append, All-append, take_at, drop_at, take_all, All-take, All-drop, lt_wf,
}
use zbackup.Base.Bytes.{
  IsByte, u64_mod, u32_mod, bytes_eq, bytes_eq_iff, bytes_eq_refl, memcmp, to_le, from_le,
  length-to_le, to_le-IsByte, from_le-to_le, to_le-from_le, from_le-lt,
}
use mathlib.Core.Option
use zbackup.ChunkId.{ChunkId}

-- `Bundle::Id`: 24 bytes.
abbrev pub BundleId : Type 0
BundleId = List ℕ

pub record Chain : Type 0 where
  pub crypto_hash : List ℕ
  pub size : ℕ
  pub bundle_id : Option BundleId

abbrev pub HashTable : Type 0
HashTable = List (ℕ × List Chain)

pub record ChunkIndex : Type 0 where
  pub hash_table : HashTable
  pub last_bundle_id : Option BundleId

pub new : ChunkIndex
new = record { hash_table = []; last_bundle_id = none }

pub new_chain : ChunkId → ℕ → Option BundleId → Chain
new_chain id size bundle_id = record {
  crypto_hash = id.crypto_hash;
  size = size;
  bundle_id = bundle_id;
}

equals_to : Chain → ChunkId → Bool
equals_to chain id = bytes_eq chain.crypto_hash id.crypto_hash

-- `hashTable.find`
unfoldable pub find : ℕ → HashTable → Option (List Chain)
find hash [] = none
find hash ((key, chain) ∷ table) = if key == hash then some chain else find hash table

-- The first node of a chain that has the id's crypto hash.
unfoldable pub find_node : List Chain → ChunkId → Option Chain
unfolding equals_to
find_node [] id = none
find_node (chain ∷ next) id = if equals_to chain id then some chain else find_node next id

-- The returned bundle id with the size that the call stores; NULL where the node has no bundle id.
unfoldable pub report : Option Chain → Option (BundleId × ℕ)
report none = none
report (some chain) = elim chain.bundle_id [ none ↦ none | some id ↦ some (id, chain.size) ]

-- `ChunkInfoInterface`: `get_chunk_id` may do work on the caller's state `S`.
module _ {S : Type 0} where
  find_in : Option (List Chain) → (S → ChunkId × S) → S → Option (BundleId × ℕ) × S
  find_in none get_chunk_id s = (none, s)
  find_in (some chain) get_chunk_id s =
      let (id, s') = get_chunk_id s in (report (find_node chain id), s')

  pub find_chunk : ChunkIndex → ℕ → (S → ChunkId × S) → S → Option (BundleId × ℕ) × S
  unfolding find_in
  find_chunk index rolling_hash get_chunk_id s =
      find_in (find rolling_hash index.hash_table) get_chunk_id s

-- The overload for a known id, by `ChunkInfoImmediate`.
unfoldable pub find_chunk_id : ChunkIndex → ChunkId → Option (BundleId × ℕ)
unfolding find_chunk
find_chunk_id index id = (find_chunk {S = Unit {0}} index id.rolling_hash (λ s. (id, s)) tt).0

-- `hashTable.insert( make_pair( rollingHash, 0 ) )`: an existing pair stays.
insert_key : ℕ → HashTable → HashTable
insert_key hash [] = (hash, []) ∷ []
insert_key hash ((key, chain) ∷ table) =
    if key == hash then (key, chain) ∷ table else (key, chain) ∷ insert_key hash table

-- The walk to the end of the chain: `none` where the id is met on the way.
append_node : List Chain → ChunkId → Chain → Option (List Chain)
append_node [] id created = some (created ∷ [])
append_node (chain ∷ next) id created =
    if equals_to chain id
    then none
    else Option.map (λ rest. chain ∷ rest) (append_node next id created)

put : ℕ → List Chain → HashTable → HashTable
put hash chain [] = []
put hash chain ((key, old) ∷ table) =
    if key == hash then (key, chain) ∷ table else (key, old) ∷ put hash chain table

-- The new index, and whether a node was created (a NULL result otherwise).
register_in : ChunkIndex → ℕ → Option (List Chain) → ChunkIndex × Bool
register_in index hash none = (index, false)
register_in index hash (some chain) =
    (record index { hash_table = put hash chain index.hash_table }, true)

chain_at : ℕ → HashTable → List Chain
chain_at hash table = elim (find hash table) [ none ↦ [] | some chain ↦ chain ]

pub register_new_chunk_id : ChunkIndex → ChunkId → ℕ → Option BundleId → ChunkIndex × Bool
unfolding insert_key append_node new_chain equals_to put register_in chain_at find
register_new_chunk_id index id size bundle_id =
    let hash = id.rolling_hash in
    let table = insert_key hash index.hash_table in
    register_in (record index { hash_table = table }) hash
      (append_node (chain_at hash table) id (new_chain id size bundle_id))

-- `chain->bundleId = lastBundleId` on the node of the id.
set_node : List Chain → ChunkId → Option BundleId → List Chain
set_node [] id bundle_id = []
set_node (chain ∷ next) id bundle_id =
    if equals_to chain id
    then record chain { bundle_id = bundle_id } ∷ next
    else chain ∷ set_node next id bundle_id

-- `if( !lastBundleId || *lastBundleId != bundleId )`: a copy of the id is stored, else the old one
-- serves again.
reuse : Option BundleId → BundleId → Option BundleId
reuse none bundle_id = some bundle_id
reuse (some last) bundle_id = if bytes_eq last bundle_id then some last else some bundle_id

pub add_chunk : ChunkIndex → ChunkId → ℕ → BundleId → ChunkIndex × Bool
unfolding register_new_chunk_id set_node reuse
add_chunk index id size bundle_id =
    let (index', created) = register_new_chunk_id index id size none in
    let last = reuse index.last_bundle_id bundle_id in
    let hash = id.rolling_hash in
    if created
    then (
      record {
        hash_table =
            put hash (set_node (chain_at hash index'.hash_table) id last) index'.hash_table;
        last_bundle_id = last;
      },
      true,
    )
    else (index', false)

pub start_bundle : ChunkIndex → BundleId → ChunkIndex
start_bundle index bundle_id = record index { last_bundle_id = some bundle_id }

pub process_chunk : ChunkIndex → ChunkId → ℕ → ChunkIndex
unfolding register_new_chunk_id
process_chunk index id size = (register_new_chunk_id index id size index.last_bundle_id).0

-- `hashTable.size()`
pub size : ChunkIndex → ℕ
size index = length index.hash_table
