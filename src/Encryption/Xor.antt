-- ===== src/Encryption/Xor.antt =====
-- The exclusive or of blocks, and blocks in front of others.
use zbackup.Base.{
  ℕ, zero, suc, ◌+◌, ◌*◌, ◌/◌, ◌%◌, ◌^◌, ◌≤◌, ◌<◌, ◌≡◌, refl, ap, ap₂, List, [], ◌∷◌, ◌++◌, arith,
  length, take, drop, All,
}
use zbackup.Base.Bytes.{IsByte}
use native.Mathlib.Nat.{pow-suc}
use zbackup.Encryption.{xor_bits, xor_block}

xor_bits-cancel : (w a b : ℕ) → a < 2 ^ w → xor_bits w (xor_bits w a b) b ≡ a
unfolding xor_bits
xor_bits-cancel zero a b h = omega arith
xor_bits-cancel (suc w) a b h =
    let inner = xor_bits-cancel w (a / 2) (b / 2) (half w a h) in
    let r = xor_bits w (a / 2) (b / 2) in
    let low : ((a + b) % 2 + 2 * r) / 2 ≡ r = omega arith in rw low (omega (arith, inner))
  where
    half : (w a : ℕ) → a < 2 ^ suc w → a / 2 < 2 ^ w
    half w a h = omega (arith, pow-suc 2 w)

xor_bits-lt : (w a b : ℕ) → xor_bits w a b < 2 ^ w
unfolding xor_bits
xor_bits-lt zero a b = omega arith
xor_bits-lt (suc w) a b = omega (arith, xor_bits-lt w (a / 2) (b / 2), pow-suc 2 w)

pub xor_block-cancel :
    (xs ys : List ℕ) → length xs ≡ length ys → All IsByte xs → xor_block (xor_block xs ys) ys ≡ xs
unfolding xor_block
xor_block-cancel [] ys e h = refl
xor_block-cancel (x ∷ xs) [] e h = absurd (omega arith)
xor_block-cancel (x ∷ xs) (y ∷ ys) e (b, h) =
    ap₂ (λ (z : ℕ) (zs : List ℕ). z ∷ zs) (xor_bits-cancel 8 x y b)
      (xor_block-cancel xs ys (omega arith) h)

pub length-xor_block :
    (xs ys : List ℕ) → length xs ≡ length ys → length (xor_block xs ys) ≡ length xs
unfolding xor_block
length-xor_block [] ys e = refl
length-xor_block (x ∷ xs) [] e = absurd (omega arith)
length-xor_block (x ∷ xs) (y ∷ ys) e = ap suc (length-xor_block xs ys (omega arith))

pub take-front : (n : ℕ) (xs ys : List ℕ) → n ≤ length xs → take n (xs ++ ys) ≡ take n xs
take-front zero xs ys h = refl
take-front (suc n) [] ys h = absurd (omega arith)
take-front (suc n) (x ∷ xs) ys h = ap (λ (t : List ℕ). x ∷ t) (take-front n xs ys (omega arith))

pub drop-front : (n : ℕ) (xs ys : List ℕ) → n ≤ length xs → drop n (xs ++ ys) ≡ drop n xs ++ ys
drop-front zero xs ys h = refl
drop-front (suc n) [] ys h = absurd (omega arith)
drop-front (suc n) (x ∷ xs) ys h = drop-front n xs ys (omega arith)
