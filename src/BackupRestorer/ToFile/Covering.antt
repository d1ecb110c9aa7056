-- ===== src/BackupRestorer/ToFile/Covering.antt =====
-- What a map and its writes have of the data, while the instructions are executed.
use zbackup.Base.{
  ℕ, zero, suc, ◌+◌, ◌≤◌, ◌≡◌, refl, sym, ap, ◌∙◌, inl, inr, subst, List, [], ◌∷◌, ◌++◌, arith,
  length, take, drop, All, All-append, length-append, take_all, drop_at, Bool-cases, if_true,
  if_false,
}
use zbackup.Base.Bytes.{bytes_eq}
use zbackup.ChunkId.{ChunkId}
use zbackup.ChunkIndex.{BundleId}
use zbackup.BackupRestorer.{ChunkPosition, ChunkMap, push_position}
use zbackup.BackupRestorer.ToFile.Writes.{Any, IsPart}

pub Any-append_left {ℓ} :
    {A : Type ℓ} (P : A → Type 0) (xs ys : List A) → Any P xs → Any P (xs ++ ys)
Any-append_left P [] ys h = absurd h
Any-append_left P (x ∷ xs) ys (inl p) = inl p
Any-append_left P (x ∷ xs) ys (inr h) = inr (Any-append_left P xs ys h)

pub Any-append_right {ℓ} :
    {A : Type ℓ} (P : A → Type 0) (xs ys : List A) → Any P ys → Any P (xs ++ ys)
Any-append_right P [] ys h = h
Any-append_right P (x ∷ xs) ys h = inr (Any-append_right P xs ys h)

pub IsPart-append : (old more : List ℕ) (w : ℕ × List ℕ) → IsPart old w → IsPart (old ++ more) w
IsPart-append old more (position, bytes) (inside, same) =
    (omega (arith, inside, length-append old more), part old position (length bytes) inside ∙ same)
  where
    part :
        (xs : List ℕ) (p n : ℕ)
        → p + n ≤ length xs
        → take n (drop p (xs ++ more)) ≡ take n (drop p xs)
    part xs zero zero le = refl
    part [] zero (suc n) le = absurd (omega (arith, le))
    part (x ∷ xs) zero (suc n) le = ap (λ (t : List ℕ). x ∷ t) (part xs zero n (omega (arith, le)))
    part [] (suc p) n le = absurd (omega (arith, le))
    part (x ∷ xs) (suc p) n le = part xs p n (omega (arith, le))

pub IsPart-new : (old bytes : List ℕ) → IsPart (old ++ bytes) (length old, bytes)
IsPart-new old bytes = (
  omega (arith, length-append old bytes),
  ap (take (length bytes)) (drop_at (length old) old bytes refl)
      ∙ take_all (length bytes) bytes refl,
)

-- A property of all chunks of a map, or of one.
abbrev pub AllOf : (ChunkId × ℕ → Type 0) → ChunkMap → Type 0
AllOf P m = All (λ (entry : BundleId × ChunkPosition). All P entry.1) m

abbrev pub AnyOf : (ChunkId × ℕ → Type 0) → ChunkMap → Type 0
AnyOf P m = Any (λ (entry : BundleId × ChunkPosition). Any P entry.1) m

pub push_position-AllOf :
    (P : ChunkId × ℕ → Type 0) (bundle_id : BundleId) (x : ChunkId × ℕ) (m : ChunkMap)
    → P x
    → AllOf P m
    → AllOf P (push_position bundle_id x m)
unfolding push_position
push_position-AllOf P bundle_id x [] p h = ((p, tt), tt)
push_position-AllOf P bundle_id x ((key, positions) ∷ m) p (here, there) =
    elim (Bool-cases (bytes_eq key bundle_id)) [
      | inl same ↦
          subst (AllOf P) (sym (if_true _ _ same)) (All-append P positions _ here (p, tt), there)
      | inr other ↦
          subst (AllOf P) (sym (if_false _ _ other))
            (here, push_position-AllOf P bundle_id x m p there)
    ]

pub push_position-AnyOf_new :
    (P : ChunkId × ℕ → Type 0) (bundle_id : BundleId) (x : ChunkId × ℕ) (m : ChunkMap)
    → P x
    → AnyOf P (push_position bundle_id x m)
unfolding push_position
push_position-AnyOf_new P bundle_id x [] p = inl (inl p)
push_position-AnyOf_new P bundle_id x ((key, positions) ∷ m) p =
    elim (Bool-cases (bytes_eq key bundle_id)) [
      | inl same ↦
          subst (AnyOf P) (sym (if_true _ _ same)) (inl (Any-append_right P positions _ (inl p)))
      | inr other ↦
          subst (AnyOf P) (sym (if_false _ _ other))
            (inr (push_position-AnyOf_new P bundle_id x m p))
    ]

pub push_position-AnyOf_old :
    (P : ChunkId × ℕ → Type 0) (bundle_id : BundleId) (x : ChunkId × ℕ) (m : ChunkMap)
    → AnyOf P m
    → AnyOf P (push_position bundle_id x m)
unfolding push_position
push_position-AnyOf_old P bundle_id x [] h = absurd h
push_position-AnyOf_old P bundle_id x ((key, positions) ∷ m) h =
    elim (Bool-cases (bytes_eq key bundle_id)) [
      | inl same ↦ subst (AnyOf P) (sym (if_true _ _ same)) (grown h)
      | inr other ↦
          subst (AnyOf P) (sym (if_false _ _ other))
            (later (λ there. push_position-AnyOf_old P bundle_id x m there) h)
    ]
  where
    grown : AnyOf P ((key, positions) ∷ m) → AnyOf P ((key, positions ++ (x ∷ [])) ∷ m)
    grown (inl here) = inl (Any-append_left P positions _ here)
    grown (inr there) = inr there

    later :
        (AnyOf P m → AnyOf P (push_position bundle_id x m))
        → AnyOf P ((key, positions) ∷ m)
        → AnyOf P ((key, positions) ∷ push_position bundle_id x m)
    later rest (inl here) = inl here
    later rest (inr there) = inr (rest there)

-- The same elements in another order.
pub data Reordered {ℓ} {A : Type ℓ} : List A → List A → Type ℓ where
  nothing : Reordered [] []
  behind : {x y : A} {xs ys : List A} → x ≡ y → Reordered xs ys → Reordered (x ∷ xs) (y ∷ ys)
  swapped : {x y z w : A} {xs : List A} → x ≡ w → y ≡ z → Reordered (x ∷ y ∷ xs) (z ∷ w ∷ xs)
  chained : {xs ys zs : List A} → Reordered xs ys → Reordered ys zs → Reordered xs zs

pub Reordered-refl {ℓ} : {A : Type ℓ} (xs : List A) → Reordered xs xs
Reordered-refl [] = nothing
Reordered-refl (x ∷ xs) = behind refl (Reordered-refl xs)

pub Reordered-All {ℓ} :
    {A : Type ℓ} (P : A → Type 0) {xs ys : List A} → Reordered xs ys → All P ys → All P xs
Reordered-All P nothing h = tt
Reordered-All P (behind e d) (p, h) = (subst P (sym e) p, Reordered-All P d h)
Reordered-All P (swapped e f) (p, (q, h)) = (subst P (sym e) q, (subst P (sym f) p, h))
Reordered-All P (chained d d') h = Reordered-All P d (Reordered-All P d' h)

pub Reordered-Any {ℓ} :
    {A : Type ℓ} (P : A → Type 0) {xs ys : List A} → Reordered xs ys → Any P ys → Any P xs
Reordered-Any P nothing h = absurd h
Reordered-Any P (behind e d) (inl p) = inl (subst P (sym e) p)
Reordered-Any P (behind e d) (inr h) = inr (Reordered-Any P d h)
Reordered-Any P (swapped e f) (inl p) = inr (inl (subst P (sym f) p))
Reordered-Any P (swapped e f) (inr (inl q)) = inl (subst P (sym e) q)
Reordered-Any P (swapped e f) (inr (inr h)) = inr (inr h)
Reordered-Any P (chained d d') h = Reordered-Any P d (Reordered-Any P d' h)
