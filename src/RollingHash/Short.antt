-- ===== src/RollingHash/Short.antt =====
-- Where the hash cannot collide: sequences of up to seven bytes.
use zbackup.Base.{
  ℕ, suc, ◌+◌, ◌*◌, ◌^◌, ◌≤◌, ◌<◌, ◌≡◌, refl, sym, ap, ap₂, List, [], ◌∷◌, arith, length, All,
}
use zbackup.Base.Bytes.{IsByte}
use zbackup.RollingHash.{digest_buffer}
use zbackup.RollingHash.Polynomial.{polynomial, digest_buffer-polynomial}
use native.Mathlib.Nat.{pow-suc, pow-le-pow_right}

polynomial-lt : (cs : List ℕ) → All IsByte cs → polynomial cs < 257 ^ length cs
unfolding polynomial
polynomial-lt [] h = omega arith
polynomial-lt (c ∷ cs) (hc, h) = rw pow-suc (grind (arith, polynomial-lt cs h))

-- The digits of one length are determined by the number.
leading_digit : (p a b r s : ℕ) → r < p → s < p → a * p + r ≡ b * p + s → (a ≡ b) × (r ≡ s)
leading_digit p a b r s hr hs e = (same, omega (arith, e, same_product))
  where
    not_less : (a b r s : ℕ) → r < p → a * p + r ≡ b * p + s → ¬ (a < b)
    not_less a b r s hr e lt = absurd (grind arith)

    same : a ≡ b
    same = omega (arith, not_less a b r s hr e, not_less b a s r hs (omega arith))

    same_product : a * p ≡ b * p
    same_product = rw same

polynomial-injective :
    (xs ys : List ℕ)
    → length xs ≡ length ys
    → All IsByte xs
    → All IsByte ys
    → polynomial xs ≡ polynomial ys
    → xs ≡ ys
unfolding polynomial
polynomial-injective [] [] l hx hy e = refl
polynomial-injective [] (y ∷ ys) l hx hy e = absurd (omega arith)
polynomial-injective (x ∷ xs) [] l hx hy e = absurd (omega arith)
polynomial-injective (x ∷ xs) (y ∷ ys) l (_, hx) (_, hy) e =
    let same : length xs ≡ length ys = omega arith in
    let (first, rest) =
      leading_digit (257 ^ length xs) x y (polynomial xs) (polynomial ys) (polynomial-lt xs hx)
        (rw same (polynomial-lt ys hy)) (rw (← same) at e) in
    ap₂ (λ h t. h ∷ t) first (polynomial-injective xs ys same hx hy rest)

power_lt : (m n : ℕ) → m < n → 257 * 257 ^ m ≤ 257 ^ n
power_lt m n h =
    let le : 257 ^ suc m ≤ 257 ^ n = pow-le-pow_right (omega arith) h in
    omega (arith, pow-suc 257 m, le)

-- Seven bytes leave room: no wrap-around takes place.
digest_buffer-lt :
    (cs : List ℕ)
    → All IsByte cs
    → length cs ≤ 7
    → digest_buffer cs (length cs) ≡ 257 ^ length cs + polynomial cs
digest_buffer-lt cs h l =
    let le : 257 ^ length cs ≤ 257 ^ 7 = pow-le-pow_right (omega arith) l in
    rw digest_buffer-polynomial (omega (arith, polynomial-lt cs h, le))

-- Two different sequences of at most seven bytes never share a digest: neither do sequences that
-- differ only in the number of zero bytes in front.
pub digest_buffer-injective :
    (xs ys : List ℕ)
    → All IsByte xs
    → All IsByte ys
    → length xs ≤ 7
    → length ys ≤ 7
    → digest_buffer xs (length xs) ≡ digest_buffer ys (length ys)
    → xs ≡ ys
digest_buffer-injective xs ys hx hy lx ly e =
    polynomial-injective xs ys same_length hx hy
      (omega (arith, numbers, ap (λ (n : ℕ). 257 ^ n) same_length))
  where
    numbers : 257 ^ length xs + polynomial xs ≡ 257 ^ length ys + polynomial ys
    numbers = rw (← digest_buffer-lt xs hx lx, ← digest_buffer-lt ys hy ly) e

    not_shorter :
        (cs ds : List ℕ)
        → All IsByte cs
        → 257 ^ length cs + polynomial cs ≡ 257 ^ length ds + polynomial ds
        → ¬ (length cs < length ds)
    not_shorter cs ds ha eq lt =
        omega (arith, polynomial-lt cs ha, power_lt (length cs) (length ds) lt)

    same_length : length xs ≡ length ys
    same_length = omega (arith, not_shorter xs ys hx numbers, not_shorter ys xs hy (sym numbers))
