-- ===== src/RollingHash/Polynomial.antt =====
-- The polynomial of rolling_hash.hh's opening comment, and the state that `rollIn` reaches.
use zbackup.Base.{
  ℕ, zero, suc, ◌+◌, ◌*◌, ◌%◌, ◌^◌, ◌≡◌, refl, sym, ap, ◌∙◌, List, [], ◌∷◌, ◌++◌, arith, length,
  length-append, append_assoc, append-nil,
}
use zbackup.Base.Bytes.{u64_mod}
use zbackup.RollingHash.{
  RollingHash, reset, roll_in, digest, digest_loop, digest_buffer, roll_in_all,
}
use native.Mathlib.Nat.{pow-suc}

-- v1 * b^(n-1) + v2 * b^(n-2) + ... + vn, for the base b = 257.
unfoldable pub polynomial : List ℕ → ℕ
polynomial [] = 0
polynomial (v ∷ vs) = v * 257 ^ length vs + polynomial vs

pub polynomial-snoc : (xs : List ℕ) (c : ℕ) → polynomial (xs ++ (c ∷ [])) ≡ polynomial xs * 257 + c
unfolding polynomial
polynomial-snoc [] c = omega arith
polynomial-snoc (x ∷ xs) c =
    rw length-append
      (omega (arith, polynomial-snoc xs c, ap (λ (t : ℕ). x * t) (power_step (length xs))))
  where
    power_step : (n : ℕ) → 257 ^ (n + 1) ≡ 257 ^ n * 257
    power_step n = ap (λ (t : ℕ). 257 ^ t) (omega arith) ∙ pow-suc 257 n

-- The power of the base that `factor` holds after `n` bytes.
abbrev pub last_power : ℕ → ℕ
last_power zero = 0
last_power (suc n) = 257 ^ n % u64_mod

-- What every field holds after the bytes `cs`.
pub record IsHashOf (cs : List ℕ) (h : RollingHash) : Type 0 where
  pub value_eq : h.value ≡ polynomial cs % u64_mod
  pub next_factor_eq : h.next_factor ≡ 257 ^ length cs % u64_mod
  pub factor_eq : h.factor ≡ last_power (length cs)
  pub count_eq : h.count ≡ length cs % u64_mod

pub reset-IsHashOf : IsHashOf [] reset
unfolding reset polynomial
reset-IsHashOf = record {
  value_eq = refl;
  next_factor_eq = refl;
  factor_eq = refl;
  count_eq = refl;
}

length-snoc : (cs : List ℕ) (c : ℕ) → length (cs ++ (c ∷ [])) ≡ suc (length cs)
length-snoc cs c = rw length-append (omega arith)

-- `rollIn` appends a byte.
pub roll_in-IsHashOf :
    (cs : List ℕ) (c : ℕ) (h : RollingHash)
    → IsHashOf cs h
    → IsHashOf (cs ++ (c ∷ [])) (roll_in h c)
unfolding roll_in
roll_in-IsHashOf cs c h s = record {
  value_eq = rw polynomial-snoc (omega (arith, s.value_eq));
  next_factor_eq = rw (length-snoc, pow-suc) (omega (arith, s.next_factor_eq));
  factor_eq = rw length-snoc s.next_factor_eq;
  count_eq = rw length-snoc (omega (arith, s.count_eq));
}

pub roll_in_all-IsHashOf :
    (cs ds : List ℕ) (h : RollingHash) → IsHashOf cs h → IsHashOf (cs ++ ds) (roll_in_all h ds)
unfolding roll_in_all
roll_in_all-IsHashOf cs [] h s = rw append-nil s
roll_in_all-IsHashOf cs (d ∷ ds) h s =
    rw (append_assoc cs (d ∷ []) ds) at
      (roll_in_all-IsHashOf (cs ++ (d ∷ [])) ds (roll_in h d) (roll_in-IsHashOf cs d h s))

-- The bytes determine the state.
pub IsHashOf-unique : (cs : List ℕ) (h h' : RollingHash) → IsHashOf cs h → IsHashOf cs h' → h ≡ h'
IsHashOf-unique cs h h' s s' = λ i. record {
  factor = (s.factor_eq ∙ sym s'.factor_eq) i;
  next_factor = (s.next_factor_eq ∙ sym s'.next_factor_eq) i;
  value = (s.value_eq ∙ sym s'.value_eq) i;
  count = (s.count_eq ∙ sym s'.count_eq) i;
}

pub digest_loop-roll_in_all :
    (h : RollingHash) (cs : List ℕ) → digest_loop h cs (length cs) ≡ roll_in_all h cs
unfolding digest_loop roll_in_all
digest_loop-roll_in_all h [] = refl
digest_loop-roll_in_all h (c ∷ cs) = digest_loop-roll_in_all (roll_in h c) cs

pub digest-IsHashOf :
    (cs : List ℕ) (h : RollingHash)
    → IsHashOf cs h
    → digest h ≡ (257 ^ length cs + polynomial cs) % u64_mod
unfolding digest
digest-IsHashOf cs h s = omega (arith, s.value_eq, s.next_factor_eq)

-- `RollingHash::digest( buf, size )` of the `size` bytes at `buf` is the polynomial of the header
-- comment with the power b^size added, modulo 2^64.
pub digest_buffer-polynomial :
    (cs : List ℕ) → digest_buffer cs (length cs) ≡ (257 ^ length cs + polynomial cs) % u64_mod
unfolding digest_buffer
digest_buffer-polynomial cs =
    rw digest_loop-roll_in_all
      (digest-IsHashOf cs _ (roll_in_all-IsHashOf [] cs reset reset-IsHashOf))

-- A buffer's digest is that of any state that has the same bytes rolled in.
pub digest_buffer-IsHashOf :
    (cs : List ℕ) (h : RollingHash) → IsHashOf cs h → digest_buffer cs (length cs) ≡ digest h
digest_buffer-IsHashOf cs h s = digest_buffer-polynomial cs ∙ sym (digest-IsHashOf cs h s)
