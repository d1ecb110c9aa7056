-- ===== src/ChunkIndex/Entries.antt =====
-- The index as a map from ids to nodes.
use zbackup.Base.{
  ℕ, ◌≡◌, refl, ap, ◌≢◌, ◌⊎◌, inl, inr, Bool, true, false, ◌&&◌, Option, none, some, List, [], ◌∷◌,
  ◌++◌, arith, ◌==◌, if◌then◌else◌, Option-cases,
}
use zbackup.Base.Bytes.{bytes_eq, bytes_eq_iff, bytes_eq_refl}
use zbackup.ChunkId.{ChunkId}
use zbackup.ChunkIndex
use zbackup.ChunkIndex.{
  BundleId, Chain, HashTable, ChunkIndex, new_chain, equals_to, find, find_node, report, find_in,
  find_chunk, find_chunk_id, insert_key, append_node, put, register_in, chain_at,
  register_new_chunk_id, start_bundle, set_node, reuse, add_chunk, process_chunk,
}

-- Two ids with the same parts.
unfoldable pub same_id : ChunkId → ChunkId → Bool
same_id a b = a.rolling_hash == b.rolling_hash && bytes_eq a.crypto_hash b.crypto_hash

pub same_id_refl : (a : ChunkId) → same_id a a ≡ true
unfolding same_id
same_id_refl a = ground (arith, bytes_eq_refl a.crypto_hash)

-- The abstract map.
pub entry : ChunkIndex → ChunkId → Option Chain
entry index id = find_node (chain_at id.rolling_hash index.hash_table) id

pub entry-new : (id : ChunkId) → entry ChunkIndex.new id ≡ none
unfolding entry ChunkIndex.new chain_at find find_node
entry-new id = refl

-- The bundle that is being read does not matter to the map.
pub start_bundle-entry :
    (index : ChunkIndex) (b : BundleId) (q : ChunkId)
    → entry (start_bundle index b) q ≡ entry index q
unfolding start_bundle entry
start_bundle-entry index b q = refl

find_chunk_id-entry :
    (index : ChunkIndex) (id : ChunkId) → find_chunk_id index id ≡ report (entry index id)
unfolding find_chunk_id entry find_in chain_at find_node report
find_chunk_id-entry index id = split (find id.rolling_hash index.hash_table)
  where
    split :
        (o : Option (List Chain))
        → (find_in {S = Unit {0}} o (λ s. (id, s)) tt).0
          ≡ report (find_node (elim o [ none ↦ [] | some chain ↦ chain ]) id)
    split none = refl
    split (some c) = refl

chain_at-insert_key : (h k : ℕ) (t : HashTable) → chain_at k (insert_key h t) ≡ chain_at k t
unfolding chain_at insert_key find
chain_at-insert_key h k [] = ground arith
chain_at-insert_key h k ((key, c) ∷ t) = ground (arith, chain_at-insert_key h k t)

has_key : ℕ → HashTable → Bool
has_key h [] = false
has_key h ((key, c) ∷ t) = if key == h then true else has_key h t

has_key-insert_key : (h : ℕ) (t : HashTable) → has_key h (insert_key h t) ≡ true
unfolding has_key insert_key
has_key-insert_key h [] = ground arith
has_key-insert_key h ((key, c) ∷ t) = ground (arith, has_key-insert_key h t)

has_key-put : (h : ℕ) (c : List Chain) (t : HashTable) → has_key h (put h c t) ≡ has_key h t
unfolding has_key put
has_key-put h c [] = refl
has_key-put h c ((key, o) ∷ t) = ground (arith, has_key-put h c t)

chain_at-put :
    (h k : ℕ) (c : List Chain) (t : HashTable)
    → has_key h t ≡ true
    → chain_at k (put h c t) ≡ (if h == k then c else chain_at k t)
unfolding chain_at put find has_key
chain_at-put h k c [] e = cc
chain_at-put h k c ((key, o) ∷ t) e = ground (arith, chain_at-put h k c t)

append_node-known :
    (c : List Chain) (id : ChunkId) (n y : Chain)
    → find_node c id ≡ some y
    → append_node c id n ≡ none
unfolding append_node find_node
append_node-known [] id n y e = cc
append_node-known (x ∷ c) id n y e = ground (arith, append_node-known c id n y)

append_node-new :
    (c : List Chain) (id : ChunkId) (n : Chain)
    → find_node c id ≡ none
    → append_node c id n ≡ some (c ++ (n ∷ []))
unfolding append_node find_node
append_node-new [] id n e = refl
append_node-new (x ∷ c) id n e = ground (arith, append_node-new c id n)

find_node-snoc :
    (c : List Chain) (n : Chain) (q : ChunkId)
    → find_node (c ++ (n ∷ [])) q
      ≡ elim (find_node c q) [ some x ↦ some x | none ↦ if equals_to n q then some n else none ]
unfolding find_node
find_node-snoc [] n q = ground arith
find_node-snoc (x ∷ c) n q = ground (arith, find_node-snoc c n q)

set_node-snoc :
    (c : List Chain) (n : Chain) (id : ChunkId) (b : Option BundleId)
    → find_node c id ≡ none
    → equals_to n id ≡ true
    → set_node (c ++ (n ∷ [])) id b ≡ c ++ (record n { bundle_id = b } ∷ [])
unfolding set_node find_node
set_node-snoc [] n id b e m = ground arith
set_node-snoc (x ∷ c) n id b e m = ground (arith, set_node-snoc c n id b)

-- Ids with equal parts meet the same nodes.
find_node-same :
    (c : List Chain) (a b : ChunkId)
    → bytes_eq a.crypto_hash b.crypto_hash ≡ true
    → find_node c a ≡ find_node c b
unfolding find_node equals_to
find_node-same c a b e = go c
  where
    same : a.crypto_hash ≡ b.crypto_hash
    same = (bytes_eq_iff _ _).0 e

    go : (c : List Chain) → find_node c a ≡ find_node c b
    go [] = refl
    go (x ∷ c) = simp same (
        ap (λ (r : Option Chain). if bytes_eq x.crypto_hash b.crypto_hash then some x else r)
          (go c))

-- A known id is not registered again, and no entry changes.
pub register-known :
    (index : ChunkIndex) (id q : ChunkId) (size : ℕ) (b : Option BundleId) (x : Chain)
    → entry index id ≡ some x
    → ((register_new_chunk_id index id size b).1 ≡ false)
      × (entry (register_new_chunk_id index id size b).0 q ≡ entry index q)
unfolding entry register_new_chunk_id
register-known index id q size b x e =
    rw
      (
        chain_at-insert_key,
        append_node-known (chain_at id.rolling_hash index.hash_table) id (new_chain id size b) x e,
      )
      (refl, rw chain_at-insert_key)

-- One appended node, seen through the table.
entry-put_snoc :
    (id q : ChunkId) (n : Chain) (t u : HashTable)
    → has_key id.rolling_hash u ≡ true
    → ((k : ℕ) → (id.rolling_hash ≢ k) → chain_at k u ≡ chain_at k t)
    → n.crypto_hash ≡ id.crypto_hash
    → find_node (chain_at id.rolling_hash t) id ≡ none
    → find_node
        (chain_at q.rolling_hash (put id.rolling_hash (chain_at id.rolling_hash t ++ (n ∷ [])) u))
        q
      ≡ (if same_id id q then some n else find_node (chain_at q.rolling_hash t) q)
unfolding same_id equals_to
entry-put_snoc id q n t u hk same m e =
    rw (chain_at-put id.rolling_hash q.rolling_hash (chain_at id.rolling_hash t ++ (n ∷ [])) u hk) (
      ground (
        arith,
        find_node-snoc (chain_at id.rolling_hash t) n q,
        find_node-same (chain_at id.rolling_hash t) id q,
        same q.rolling_hash,
      ))

-- A new id is registered with its size and bundle, and no other entry changes.
pub register-new :
    (index : ChunkIndex) (id q : ChunkId) (size : ℕ) (b : Option BundleId)
    → entry index id ≡ none
    → ((register_new_chunk_id index id size b).1 ≡ true)
      × (entry (register_new_chunk_id index id size b).0 q
          ≡ (if same_id id q then some (new_chain id size b) else entry index q))
unfolding entry register_new_chunk_id
register-new index id q size b e =
    let t = index.hash_table in
    let n = new_chain id size b in
    rw (chain_at-insert_key, append_node-new (chain_at id.rolling_hash t) id n e)
      (
        refl,
        entry-put_snoc id q n t (insert_key id.rolling_hash t)
            (has_key-insert_key id.rolling_hash t) (λ k _. chain_at-insert_key id.rolling_hash k t)
            refl e,
      )

reuse-some : (last : Option BundleId) (b : BundleId) → reuse last b ≡ some b
unfolding reuse
reuse-some none b = refl
reuse-some (some a) b = ground (arith, bytes_eq_iff a b)

put-put_entry :
    (index : ChunkIndex) (id q : ChunkId) (size : ℕ) (b : BundleId)
    → entry index id ≡ none
    → entry (add_chunk index id size b).0 q
      ≡ (if same_id id q then some (new_chain id size (some b)) else entry index q)
unfolding entry add_chunk
put-put_entry index id q size b e =
    let t = index.hash_table in
    let h = id.rolling_hash in
    let u = insert_key h t in
    let n = new_chain id size none in
    let c = chain_at h t ++ (n ∷ []) in
    let known = has_key-insert_key h t in
    rw
      (
        chain_at-insert_key,
        append_node-new (chain_at h t) id n e,
        reuse-some,
        chain_at-put h h c u known,
        ==_refl h,
        set_node-snoc (chain_at h t) n id (some b) e (bytes_eq_refl id.crypto_hash),
      )
      (entry-put_snoc id q (new_chain id size (some b)) t (put h c u) (rw has_key-put known)
        (λ k ne. ground (arith, chain_at-put h k c u known, chain_at-insert_key h k t)) refl e)
  where
    ==_refl : (k : ℕ) → (k == k) ≡ true
    ==_refl k = ground arith

-- What `addChunk` leaves at `q`, where the id had the node `old` before.
abbrev pub after_add : ChunkIndex → ChunkId → ℕ → BundleId → ChunkId → Option Chain → Option Chain
after_add index id size b q none =
    if same_id id q then some (new_chain id size (some b)) else entry index q
after_add index id size b q (some old) = entry index q

abbrev pub is_none {ℓ} : {A : Type ℓ} → Option A → Bool
is_none none = true
is_none (some a) = false

-- `addChunk` returns true exactly when the index had no node for the id. Then the id has the given
-- size and bundle; every other id, and every id when it returns false, keeps its node.
pub add_chunk-entry :
    (index : ChunkIndex) (id q : ChunkId) (size : ℕ) (b : BundleId)
    → ((add_chunk index id size b).1 ≡ is_none (entry index id))
      × (entry (add_chunk index id size b).0 q ≡ after_add index id size b q (entry index id))
add_chunk-entry index id q size b = elim (Option-cases (entry index id)) [
  | inl e ↦ rw e (
    unfold add_chunk in ground (arith, register-new index id q size none e),
    put-put_entry index id q size b e,
  )
  | inr (x, e) ↦ rw e (
    unfold add_chunk in ground (arith, register-known index id q size none x e),
    unfold add_chunk in ground (arith, register-known index id q size none x e),
  )
]

-- `findChunk` by a rolling hash and a callback for the id answers as the abstract map does at the id
-- that the callback computes.
pub find_chunk-entry :
    {S : Type 0} (index : ChunkIndex) (get_chunk_id : S → ChunkId × S) (s : S) (hash : ℕ)
    → (get_chunk_id s).0.rolling_hash ≡ hash
    → ((find_chunk index hash get_chunk_id s).0 ≡ report (entry index (get_chunk_id s).0))
unfolding find_chunk entry chain_at report find_node
find_chunk-entry index get_chunk_id s hash e = simp e (split (find hash index.hash_table))
  where
    split :
        (o : Option (List Chain))
        → (find_in o get_chunk_id s).0
          ≡ report (find_node (elim o [ none ↦ [] | some chain ↦ chain ]) (get_chunk_id s).0)
    split none = refl
    split (some c) = refl

-- `findChunk` leaves the caller's state alone, or has called for the id once.
pub find_chunk-state :
    {S : Type 0} (index : ChunkIndex) (hash : ℕ) (get_chunk_id : S → ChunkId × S) (s : S)
    → ((find_chunk index hash get_chunk_id s).1 ≡ s)
      ⊎ ((find_chunk index hash get_chunk_id s).1 ≡ (get_chunk_id s).1)
unfolding find_chunk
find_chunk-state index hash get_chunk_id s = split (find hash index.hash_table)
  where
    split :
        (o : Option (List Chain))
        → ((find_in o get_chunk_id s).1 ≡ s) ⊎ ((find_in o get_chunk_id s).1 ≡ (get_chunk_id s).1)
    split none = inl refl
    split (some c) = inr refl

-- Only a node that the index has can be reported.
pub report-some : (o : Option Chain) (x : BundleId × ℕ) → report o ≡ some x → is_none o ≡ false
unfolding report
report-some none x e = cc
report-some (some c) x e = refl
