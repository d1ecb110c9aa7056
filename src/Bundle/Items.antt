-- ===== src/Bundle/Items.antt =====
-- The chunks that a creator holds, read off its info and its payload.
use zbackup.Base.{
  ℕ, zero, suc, ◌+◌, ◌≤◌, ◌<◌, ◌≡◌, refl, sym, ap, List, [], ◌∷◌, ◌++◌, arith, length, take, drop,
  length-append, length-take, length-drop, take_all,
}
use zbackup.Base.Bytes.{u32_mod}
use native.Mathlib.Nat.{mod-eq_of_lt}
use zbackup.Bundle.{ChunkRecord, BundleInfo, Creator, empty, add_chunk, total_size, payload_size}
use zbackup.Bundle.RoundTrip.{Item}

-- The payload cut by the sizes that the info gives.
split_items : BundleInfo → List ℕ → List Item
split_items [] payload = []
split_items (r ∷ info) payload =
    (r.id, take r.size payload) ∷ split_items info (drop r.size payload)

pub bundle_items : Creator → List Item
unfolding split_items
bundle_items creator = split_items creator.info creator.payload

-- The info accounts for the whole payload.
abbrev pub IsBundle : Creator → Type 0
IsBundle creator = total_size creator.info ≡ payload_size creator

pub empty-IsBundle : IsBundle empty
unfolding empty total_size payload_size
empty-IsBundle = refl

pub bundle_items-empty : bundle_items empty ≡ []
unfolding empty bundle_items
bundle_items-empty = refl

pub payload_size-empty : payload_size empty ≡ 0
unfolding empty payload_size
payload_size-empty = refl

total_size-snoc :
    (info : BundleInfo) (r : ChunkRecord) → total_size (info ++ (r ∷ [])) ≡ total_size info + r.size
unfolding total_size
total_size-snoc [] r = omega arith
total_size-snoc (q ∷ info) r = omega (arith, total_size-snoc info r)

take_prefix {ℓ} :
    {A : Type ℓ} (n : ℕ) (xs ys : List A) → n ≤ length xs → take n (xs ++ ys) ≡ take n xs
take_prefix zero xs ys h = refl
take_prefix (suc n) [] ys h = absurd (omega arith)
take_prefix (suc n) (x ∷ xs) ys h = ap (λ t. x ∷ t) (take_prefix n xs ys (omega arith))

drop_prefix {ℓ} :
    {A : Type ℓ} (n : ℕ) (xs ys : List A) → n ≤ length xs → drop n (xs ++ ys) ≡ drop n xs ++ ys
drop_prefix zero xs ys h = refl
drop_prefix (suc n) [] ys h = absurd (omega arith)
drop_prefix (suc n) (x ∷ xs) ys h = drop_prefix n xs ys (omega arith)

split_items-snoc :
    (info : BundleInfo) (r : ChunkRecord) (p q : List ℕ)
    → total_size info ≡ length p
    → r.size ≡ length q
    → split_items (info ++ (r ∷ [])) (p ++ q) ≡ split_items info p ++ ((r.id, q) ∷ [])
unfolding split_items total_size
split_items-snoc [] r [] q e f = ap (λ (t : List ℕ). (r.id, t) ∷ []) (take_all r.size q (sym f))
split_items-snoc [] r (x ∷ p) q e f = absurd (omega arith)
split_items-snoc (s ∷ info) r p q e f =
    rw (take_prefix s.size p q (omega arith), drop_prefix s.size p q (omega arith))
      (ap (λ (t : List Item). (s.id, take s.size p) ∷ t)
        (split_items-snoc info r (drop s.size p) q (rw length-drop (omega arith)) f))

module _ (creator : Creator) (id bytes : List ℕ) (size : ℕ) (all : size ≡ length bytes) where
  pub payload_size-add_chunk :
      payload_size (add_chunk creator id bytes size) ≡ payload_size creator + size
  unfolding payload_size add_chunk
  payload_size-add_chunk = rw (length-append, length-take) (omega arith)

  module _ (small : size < u32_mod) (valid : IsBundle creator) where
    pub add_chunk-IsBundle : IsBundle (add_chunk creator id bytes size)
    unfolding add_chunk payload_size
    add_chunk-IsBundle =
        rw (total_size-snoc, length-append, length-take, mod-eq_of_lt small) (omega arith)

    pub bundle_items-add_chunk :
        bundle_items (add_chunk creator id bytes size) ≡ bundle_items creator ++ ((id, bytes) ∷ [])
    unfolding bundle_items add_chunk payload_size
    bundle_items-add_chunk =
        rw (take_all size bytes (sym all), mod-eq_of_lt small)
          (split_items-snoc creator.info (record { id = id; size = size }) creator.payload bytes
            valid all)
