-- ===== src/ChunkIndex/Finding.antt =====
-- What is found after chunks were added, as in a list of all additions.
use zbackup.Base.{
  ℕ, ◌≡◌, refl, sym, ap, ◌∙◌, inl, inr, true, Option, none, some, List, [], ◌∷◌, arith, ◌==◌, ◌&&◌,
  if◌then◌else◌, Bool-cases, Option-cases,
}
use zbackup.Base.Bytes.{bytes_eq, bytes_eq_iff}
use zbackup.ChunkId.{ChunkId}
use zbackup.ChunkIndex
use zbackup.ChunkIndex.{BundleId, Chain, ChunkIndex, new_chain, report, find_chunk, add_chunk}
use zbackup.ChunkIndex.Entries.{
  same_id, entry, entry-new, after_add, add_chunk-entry, find_chunk-entry,
}

-- An addition: the id, the size and the bundle.
abbrev pub Addition : Type 0
Addition = ChunkId × ℕ × BundleId

pub add_all : List Addition → ChunkIndex → ChunkIndex
add_all [] index = index
add_all ((id, size, bundle_id) ∷ additions) index =
    add_all additions (add_chunk index id size bundle_id).0

-- The first addition of the id counts.
unfoldable pub first_of : ChunkId → List Addition → Option (BundleId × ℕ)
first_of q [] = none
first_of q ((id, size, bundle_id) ∷ additions) =
    let later = first_of q additions in
    if (id.rolling_hash == q.rolling_hash) && bytes_eq id.crypto_hash q.crypto_hash
    then some (bundle_id, size)
    else later

-- What was known before comes first.
abbrev known_or : Option Chain → Option (BundleId × ℕ) → Option (BundleId × ℕ)
known_or none later = later
known_or (some chain) later = report (some chain)

pub same_id-equal : (a b : ChunkId) → same_id a b ≡ true → a ≡ b
unfolding same_id
same_id-equal a b e =
    let rolling : a.rolling_hash ≡ b.rolling_hash = ground (arith, e) in
    let crypto : bytes_eq a.crypto_hash b.crypto_hash ≡ true = ground (arith, e) in
    let bytes = (bytes_eq_iff a.crypto_hash b.crypto_hash).0 crypto in
    λ i. record { crypto_hash = bytes i; rolling_hash = rolling i }

after_add-known :
    (index : ChunkIndex) (id q : ChunkId) (size : ℕ) (b : BundleId) (later : Option (BundleId × ℕ))
    → known_or (after_add index id size b q (entry index id)) later
      ≡ known_or (entry index q) (if same_id id q then some (b, size) else later)
unfolding report new_chain
after_add-known index id q size b later = elim (Bool-cases (same_id id q)) [
  | inl same ↦
      let e : id ≡ q = same_id-equal id q same in
      elim (Option-cases (entry index id)) [
        | inl fresh ↦ rw (fresh, same, sym (ap (entry index) e) ∙ fresh) refl
        | inr (x, known) ↦ rw (known, same, sym (ap (entry index) e) ∙ known) refl
      ]
  | inr other ↦ elim (Option-cases (entry index id)) [
    | inl fresh ↦ rw (fresh, other) refl
    | inr (x, known) ↦ rw (known, other) refl
  ]
]

add_all-known :
    (additions : List Addition) (index : ChunkIndex) (q : ChunkId)
    → report (entry (add_all additions index) q) ≡ known_or (entry index q) (first_of q additions)
unfolding add_all first_of
add_all-known [] index q = whole (entry index q)
  where
    whole : (o : Option Chain) → report o ≡ known_or o none
    whole none = unfold report in refl
    whole (some chain) = refl
add_all-known ((id, size, b) ∷ additions) index q =
    add_all-known additions (add_chunk index id size b).0 q
    ∙ ap (λ (o : Option Chain). known_or o (first_of q additions))
        (add_chunk-entry index id q size b).1
    ∙ after_add-known index id q size b (first_of q additions)
    ∙ (unfold same_id in refl)

-- After any additions to a new index, `findChunk` by a rolling hash and a callback for the id answers
-- with the bundle and the size of the first addition of the id that the callback computes, and with
-- NULL where that was never added. Other ids with the same rolling hash do not matter.
pub find_chunk-add_all :
    {S : Type 0} (additions : List Addition) (get_chunk_id : S → ChunkId × S) (s : S) (hash : ℕ)
    → (get_chunk_id s).0.rolling_hash ≡ hash
    → (find_chunk (add_all additions ChunkIndex.new) hash get_chunk_id s).0
      ≡ first_of (get_chunk_id s).0 additions
find_chunk-add_all additions get_chunk_id s hash e =
    find_chunk-entry (add_all additions ChunkIndex.new) get_chunk_id s hash e
    ∙ add_all-known additions ChunkIndex.new (get_chunk_id s).0
    ∙ ap (λ (o : Option Chain). known_or o (first_of (get_chunk_id s).0 additions))
        (entry-new (get_chunk_id s).0)
