-- ===== src/BackupCreator/Ring.antt =====
-- The ring read from a pointer on, and the moves of a pointer.
use zbackup.Base.{
  ℕ, zero, suc, ◌+◌, ◌-◌, ◌≤◌, ◌<◌, ◌≡◌, refl, ap, ap₂, ◌∙◌, inl, inr, List, [], ◌∷◌, ◌++◌, arith,
  ltb, ◌==◌, if◌then◌else◌, ==_iff, Bool-cases, length, get_or, take, drop,
}
use zbackup.RollingHash
use zbackup.RollingHash.{RollingHash, roll_in_all}
use zbackup.BackupCreator.{wrap, roll_ring}

unfoldable pub next : ℕ → ℕ → ℕ
next end_ t = wrap end_ (t + 1)

unfoldable pub advance : ℕ → ℕ → ℕ → ℕ
advance end_ t zero = t
advance end_ t (suc n) = advance end_ (next end_ t) n

-- `n` bytes of the ring, from `t` on and round its end.
unfoldable pub ring_read : List ℕ → ℕ → ℕ → List ℕ
ring_read ring t zero = []
ring_read ring t (suc n) = get_or ring t 0 ∷ ring_read ring (next (length ring) t) n

pub next-lt : (end_ t : ℕ) → t < end_ → next end_ t < end_
unfolding next
next-lt end_ t h = ground arith

pub advance-lt : (end_ t n : ℕ) → t < end_ → advance end_ t n < end_
unfolding advance
advance-lt end_ t zero h = h
advance-lt end_ t (suc n) h = advance-lt end_ (next end_ t) n (next-lt end_ t h)

zero-add : (n : ℕ) → 0 + n ≡ n
zero-add n = omega arith

suc-add : (m n : ℕ) → suc m + n ≡ suc (m + n)
suc-add m n = omega arith

pub advance-add : (end_ t m n : ℕ) → advance end_ t (m + n) ≡ advance end_ (advance end_ t m) n
unfolding advance
advance-add end_ t zero n = ap (advance end_ t) (zero-add n)
advance-add end_ t (suc m) n =
    ap (advance end_ t) (suc-add m n) ∙ advance-add end_ (next end_ t) m n

pub length-ring_read : (ring : List ℕ) (t n : ℕ) → length (ring_read ring t n) ≡ n
unfolding ring_read
length-ring_read ring t zero = refl
length-ring_read ring t (suc n) = ap suc (length-ring_read ring (next (length ring) t) n)

pub ring_read-add :
    (ring : List ℕ) (t m n : ℕ)
    → ring_read ring t (m + n) ≡ ring_read ring t m ++ ring_read ring (advance (length ring) t m) n
unfolding ring_read advance
ring_read-add ring t zero n = ap (ring_read ring t) (zero-add n)
ring_read-add ring t (suc m) n =
    ap (ring_read ring t) (suc-add m n)
    ∙ ap (λ (x : List ℕ). get_or ring t 0 ∷ x) (ring_read-add ring (next (length ring) t) m n)

-- Where the end is not passed, the pointer moves by a sum.
pub advance_flat : (end_ t n : ℕ) → t < end_ → t + n ≤ end_ → advance end_ t n ≡ wrap end_ (t + n)
unfolding advance next
advance_flat end_ t zero h k = ground arith
advance_flat end_ t (suc n) h k = elim (Bool-cases (t + 1 == end_)) [
  | inl e ↦ rw e (at_end n (omega (arith, (==_iff (t + 1) end_).0 e)))
  | inr e ↦
      rw e (advance_flat end_ (t + 1) n (ground arith) (omega arith) ∙ ap (wrap end_) (omega arith))
]
  where
    at_end : (n : ℕ) → (t + suc n ≡ end_) × (n ≡ 0) → advance end_ 0 n ≡ wrap end_ (t + suc n)
    at_end zero (e, _) = ground arith
    at_end (suc n) (_, e) = absurd (omega arith)

drop_get : (xs : List ℕ) (i : ℕ) → i < length xs → drop i xs ≡ get_or xs i 0 ∷ drop (suc i) xs
drop_get [] i h = absurd (omega arith)
drop_get (x ∷ xs) zero h = refl
drop_get (x ∷ xs) (suc i) h = drop_get xs i (omega arith)

-- Where the end is not passed, the bytes stand side by side.
pub ring_read_flat :
    (ring : List ℕ) (t n : ℕ) → t + n ≤ length ring → ring_read ring t n ≡ take n (drop t ring)
unfolding ring_read next
ring_read_flat ring t zero k = refl
ring_read_flat ring t (suc zero) k = rw (drop_get ring t (omega arith))
ring_read_flat ring t (suc (suc n)) k = rw (drop_get ring t (omega arith)) (
    ap (λ (x : List ℕ). get_or ring t 0 ∷ x)
      (ap (λ (u : ℕ). ring_read ring u (suc n)) inside
        ∙ ring_read_flat ring (t + 1) (suc n) (omega arith)
        ∙ ap (λ (u : ℕ). take (suc n) (drop u ring)) add_one))
  where
    inside : wrap (length ring) (t + 1) ≡ t + 1
    inside = ground arith

    add_one : t + 1 ≡ suc t
    add_one = omega arith

-- Rolling bytes in that stand side by side.
pub roll_ring-flat :
    (ring : List ℕ) (n t : ℕ) (hash : RollingHash)
    → t + n ≤ length ring
    → roll_ring ring n t hash ≡ (roll_in_all hash (take n (drop t ring)), t + n)
unfolding roll_ring RollingHash.roll_in_all
roll_ring-flat ring zero t hash k = λ i. (hash, add_zero i)
  where
    add_zero : t ≡ t + 0
    add_zero = omega arith
roll_ring-flat ring (suc n) t hash k = rw (drop_get ring t (omega arith)) (
    roll_ring-flat ring n (t + 1) (RollingHash.roll_in hash (get_or ring t 0)) (omega arith) ∙ λ i.
    (
      roll_in_all (RollingHash.roll_in hash (get_or ring t 0)) (take n (drop (add_one i) ring)),
      regroup i,
    ))
  where
    add_one : t + 1 ≡ suc t
    add_one = omega arith

    regroup : t + 1 + n ≡ t + suc n
    regroup = omega arith

-- A ring whose used part reaches round its end stands in two pieces.
pub ring_read_wrapped :
    (ring : List ℕ) (t n m : ℕ)
    → t < length ring
    → t + n ≡ length ring
    → m ≤ length ring
    → ring_read ring t (n + m) ≡ take n (drop t ring) ++ take m ring
ring_read_wrapped ring t n m lt e le =
    ring_read-add ring t n m
    ∙ ap₂ (λ (x y : List ℕ). x ++ y) (ring_read_flat ring t n (omega arith))
        (ap (λ (u : ℕ). ring_read ring u m) start ∙ ring_read_flat ring 0 m (omega arith))
  where
    start : advance (length ring) t n ≡ 0
    start = advance_flat (length ring) t n lt (omega arith) ∙ ground arith

-- A pointer that goes round at most once.
pub advance_once :
    (end_ t n : ℕ)
    → t < end_
    → n ≤ end_
    → advance end_ t n ≡ (if ltb (t + n) end_ then t + n else t + n - end_)
advance_once end_ t n h k = elim (Bool-cases (ltb (t + n) end_)) [
  | inl inside ↦ rw inside (advance_flat end_ t n h (ground arith) ∙ ground arith)
  | inr round ↦
      rw round (past (end_ - t) (t + n - end_) (ground arith) (ground arith) (ground arith))
]
  where
    past : (a b : ℕ) → t + a ≡ end_ → b < end_ → n ≡ a + b → advance end_ t n ≡ b
    past a b e l f =
        ap (advance end_ t) f
        ∙ advance-add end_ t a b
        ∙ ap (λ (u : ℕ). advance end_ u b) (advance_flat end_ t a h (omega arith) ∙ ground arith)
        ∙ advance_flat end_ 0 b (omega arith) (omega arith)
        ∙ ground arith
