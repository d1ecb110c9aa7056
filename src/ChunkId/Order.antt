-- ===== src/ChunkId/Order.antt =====
-- `operator <` orders ids strictly, as the sets and maps keyed by them need.
use Prim.Native.Nat.{Ordering}
use zbackup.Base.{
  ℕ, ◌≡◌, refl, sym, ap, ◌∙◌, ◌≢◌, ◌↔◌, ◌⊎◌, inl, inr, Bool, true, false, List, [], ◌∷◌, ◌++◌,
  arith, length,
}
use zbackup.Base.Bytes.{memcmp}
use zbackup.ChunkId.{ChunkId, IsChunkId, to_blob, set_from_blob, is_less, less_than}
use zbackup.ChunkId.Blob.{length-to_blob, set_from_blob-to_blob}

memcmp-append :
    (a b c d : List ℕ)
    → length a ≡ length b
    → memcmp (a ++ c) (b ++ d) ≡ elim (memcmp a b) [
      | Ordering.lt ↦ Ordering.lt
      | Ordering.eq ↦ memcmp c d
      | Ordering.gt ↦ Ordering.gt
    ]
unfolding memcmp
memcmp-append [] [] c d l = refl
memcmp-append [] (y ∷ b) c d l = absurd (omega arith)
memcmp-append (x ∷ a) [] c d l = absurd (omega arith)
memcmp-append (x ∷ a) (y ∷ b) c d l = ground (arith, memcmp-append a b c d (omega arith))

-- `operator <` is the bytewise order of the blobs.
pub less_than-memcmp :
    (a b : ChunkId)
    → IsChunkId a
    → IsChunkId b
    → less_than a b ≡ is_less (memcmp (to_blob a) (to_blob b))
unfolding less_than to_blob
less_than-memcmp a b wa wb =
    rw (memcmp-append a.crypto_hash b.crypto_hash _ _ (wa.crypto_length ∙ sym wb.crypto_length))
      (split (memcmp a.crypto_hash b.crypto_hash) _)
  where
    split :
        (o p : Ordering)
        → elim o [ Ordering.lt ↦ true | Ordering.eq ↦ is_less p | Ordering.gt ↦ false ]
          ≡ is_less
              (elim o [ Ordering.lt ↦ Ordering.lt | Ordering.eq ↦ p | Ordering.gt ↦ Ordering.gt ])
    split Ordering.lt p = refl
    split Ordering.eq p = refl
    split Ordering.gt p = refl

lt_trans :
    (a b c : List ℕ)
    → length a ≡ length b
    → length b ≡ length c
    → memcmp a b ≡ Ordering.lt
    → memcmp b c ≡ Ordering.lt
    → memcmp a c ≡ Ordering.lt
unfolding memcmp
lt_trans [] b c l m p q = cc
lt_trans (x ∷ a) [] c l m p q = cc
lt_trans (x ∷ a) (y ∷ b) [] l m p q = cc
lt_trans (x ∷ a) (y ∷ b) (z ∷ c) l m p q =
    ground (arith, lt_trans a b c (omega arith) (omega arith))

lt_irrefl : (a : List ℕ) → memcmp a a ≢ Ordering.lt
unfolding memcmp
lt_irrefl [] p = cc
lt_irrefl (x ∷ a) p = ground (arith, lt_irrefl a)

-- The three outcomes of a comparison.
trichotomy :
    (a b : List ℕ)
    → length a ≡ length b
    → (memcmp a b ≡ Ordering.lt) ⊎ ((a ≡ b) ⊎ (memcmp b a ≡ Ordering.lt))
unfolding memcmp
trichotomy [] [] l = inr (inl refl)
trichotomy [] (y ∷ b) l = absurd (omega arith)
trichotomy (x ∷ a) [] l = absurd (omega arith)
trichotomy (x ∷ a) (y ∷ b) l = ground (arith, trichotomy a b (omega arith))

less_lt :
    (a b : ChunkId)
    → IsChunkId a
    → IsChunkId b
    → (less_than a b ≡ true) ↔ (memcmp (to_blob a) (to_blob b) ≡ Ordering.lt)
less_lt a b wa wb = (
  (λ h. ground (arith, less_than-memcmp a b wa wb)),
  (λ h. ground (arith, less_than-memcmp a b wa wb)),
)

blob_lengths : (a b : ChunkId) → IsChunkId a → IsChunkId b → length (to_blob a) ≡ length (to_blob b)
blob_lengths a b wa wb = length-to_blob a wa ∙ sym (length-to_blob b wb)

-- `operator <` is transitive, and never holds both ways.
pub less_than_trans :
    (a b c : ChunkId)
    → IsChunkId a
    → IsChunkId b
    → IsChunkId c
    → less_than a b ≡ true
    → less_than b c ≡ true
    → (less_than a c ≡ true) × (less_than c a ≡ false)
less_than_trans a b c wa wb wc p q = (less, not_more (less_than c a) refl)
  where
    ab : memcmp (to_blob a) (to_blob b) ≡ Ordering.lt
    ab = (less_lt a b wa wb).0 p

    bc : memcmp (to_blob b) (to_blob c) ≡ Ordering.lt
    bc = (less_lt b c wb wc).0 q

    ac : memcmp (to_blob a) (to_blob c) ≡ Ordering.lt
    ac = lt_trans _ _ _ (blob_lengths a b wa wb) (blob_lengths b c wb wc) ab bc

    less : less_than a c ≡ true
    less = (less_lt a c wa wc).1 ac

    not_more : (t : Bool) → less_than c a ≡ t → t ≡ false
    not_more false e = refl
    not_more true e = absurd (
        lt_irrefl (to_blob a) (
          lt_trans _ _ _ (blob_lengths a c wa wc) (blob_lengths c a wc wa) ac
            ((less_lt c a wc wa).0 e)))

-- Two ids of which neither is less than the other are the same id, so a `std::set` of ids holds one
-- element for each.
pub less_than_total :
    (a b : ChunkId)
    → IsChunkId a
    → IsChunkId b
    → less_than a b ≡ false
    → less_than b a ≡ false
    → a ≡ b
less_than_total a b wa wb p q = elim (trichotomy (to_blob a) (to_blob b) (blob_lengths a b wa wb)) [
  | inl lt ↦ cc (p, (less_lt a b wa wb).1 lt)
  | inr (inl eq) ↦
      sym (set_from_blob-to_blob a wa) ∙ ap set_from_blob eq ∙ set_from_blob-to_blob b wb
  | inr (inr gt) ↦ cc (q, (less_lt b a wb wa).1 gt)
]
