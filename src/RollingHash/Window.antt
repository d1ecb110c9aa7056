-- ===== src/RollingHash/Window.antt =====
-- `rotate` on a full window.
use zbackup.Base.{ℕ, ◌*◌, ◌%◌, ◌≡◌, ap, List, [], ◌∷◌, ◌++◌, arith, length, length-append}
use zbackup.Base.Bytes.{u64_mod}
use zbackup.RollingHash.{RollingHash, reset, rotate, roll_in_all}
use zbackup.RollingHash.Polynomial.{
  polynomial, polynomial-snoc, IsHashOf, reset-IsHashOf, roll_in_all-IsHashOf, IsHashOf-unique,
}
use native.Mathlib.Nat.{div-add-mod}

mul-mod-mod : (a p : ℕ) → a * (p % u64_mod) % u64_mod ≡ a * p % u64_mod
mul-mod-mod a p = omega (arith, ap (λ (t : ℕ). a * t) (div-add-mod p u64_mod))

length-snoc : (ws : List ℕ) (a b : ℕ) → length (ws ++ (a ∷ [])) ≡ length (b ∷ ws)
length-snoc ws a b = rw length-append (omega arith)

-- The first byte of the window goes out, and a new one comes in at its end.
pub rotate-IsHashOf :
    (ws : List ℕ) (in_byte out_byte : ℕ) (h : RollingHash)
    → IsHashOf (out_byte ∷ ws) h
    → IsHashOf (ws ++ (in_byte ∷ [])) (rotate h in_byte out_byte)
unfolding rotate polynomial
rotate-IsHashOf ws i o h s = record {
  value_eq = rw (polynomial-snoc, s.factor_eq, s.value_eq, mul-mod-mod) (omega arith);
  next_factor_eq = rw (length-snoc ws i o) s.next_factor_eq;
  factor_eq = rw (length-snoc ws i o) s.factor_eq;
  count_eq = rw (length-snoc ws i o) s.count_eq;
}

-- Rotating a byte out of a full window and another in gives the very state, every field of it, that
-- rolling in the new window from the start gives, whatever the window's size.
pub rotate-roll_in_all :
    (ws : List ℕ) (in_byte out_byte : ℕ)
    → rotate (roll_in_all reset (out_byte ∷ ws)) in_byte out_byte
      ≡ roll_in_all reset (ws ++ (in_byte ∷ []))
rotate-roll_in_all ws i o =
    IsHashOf-unique (ws ++ (i ∷ [])) _ _
      (rotate-IsHashOf ws i o _ (roll_in_all-IsHashOf [] (o ∷ ws) reset reset-IsHashOf))
      (roll_in_all-IsHashOf [] (ws ++ (i ∷ [])) reset reset-IsHashOf)
