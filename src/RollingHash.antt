-- ===== src/RollingHash.antt =====
-- rolling_hash.hh and rolling_hash.cc: the modified Rabin-Karp hash, modulo 2^64. A `uint64_t` is a
-- number below 2^64 with its wrap-around written out, and a `char` is its value as `unsigned char`.
pub mod Polynomial
pub mod Window
pub mod Short
mod Tests
use zbackup.Base.{ℕ, zero, suc, ◌+◌, ◌-◌, ◌*◌, ◌%◌, List, [], ◌∷◌}
use zbackup.Base.Bytes.{u64_mod}

pub record RollingHash : Type 0 where
  pub factor : ℕ
  pub next_factor : ℕ
  pub value : ℕ
  pub count : ℕ

pub reset : RollingHash
reset = record { factor = 0; next_factor = 1; value = 0; count = 0 }

-- `( a << 8 ) + a`
times_257 : ℕ → ℕ
times_257 a = (a * 256 % u64_mod + a) % u64_mod

pub roll_in : RollingHash → ℕ → RollingHash
unfolding times_257
roll_in h c = record {
  factor = h.next_factor;
  next_factor = times_257 h.next_factor;
  value = (times_257 h.value + c) % u64_mod;
  count = (h.count + 1) % u64_mod;
}

-- The unsigned difference wraps, so the modulus is added first.
pub rotate : RollingHash → ℕ → ℕ → RollingHash
unfolding times_257
rotate h in_byte out_byte =
    let value = (h.value + u64_mod - out_byte * h.factor % u64_mod) % u64_mod in
    record h { value = (times_257 value + in_byte) % u64_mod }

pub digest : RollingHash → ℕ
digest h = (h.value + h.next_factor) % u64_mod

pub size : RollingHash → ℕ
size h = h.count

-- `for( p = buf; size--; ) hash.rollIn( *p++ )`; the caller owns `size` bytes at `buf`, so the
-- end of the list is not read past.
pub digest_loop : RollingHash → List ℕ → ℕ → RollingHash
digest_loop hash p zero = hash
digest_loop hash [] (suc n) = hash
digest_loop hash (c ∷ p) (suc n) = digest_loop (roll_in hash c) p n

pub digest_buffer : List ℕ → ℕ → ℕ
digest_buffer buf n = digest (digest_loop reset buf n)

-- The hash after a sequence of `rollIn` calls.
unfoldable pub roll_in_all : RollingHash → List ℕ → RollingHash
roll_in_all h [] = h
roll_in_all h (c ∷ cs) = roll_in_all (roll_in h c) cs
