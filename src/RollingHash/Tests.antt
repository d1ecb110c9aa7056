-- ===== src/RollingHash/Tests.antt =====
-- The rolling hash at concrete inputs.
use zbackup.Base.{ℕ, ◌*◌, ◌+◌, ◌%◌, ◌^◌, ◌≡◌, refl, List, [], ◌∷◌, arith, length}
use zbackup.Base.Bytes.{u64_mod}
use zbackup.RollingHash.{reset, roll_in, rotate, digest, digest_loop, digest_buffer, roll_in_all}
use zbackup.RollingHash.Window.{rotate-roll_in_all}
use zbackup.RollingHash.Polynomial.{polynomial, digest_buffer-polynomial}
use zbackup.RollingHash.Short.{digest_buffer-injective}

abbrev window : List ℕ
window = 200 ∷ 7 ∷ 0 ∷ []

two_bytes : digest_buffer (3 ∷ 5 ∷ []) 2 ≡ 257 * 257 + 3 * 257 + 5
unfolding digest_buffer digest_loop digest reset roll_in
two_bytes = refl

zero_bytes_differ : digest_buffer (0 ∷ 0 ∷ []) 2 ≡ 66049
unfolding digest_buffer digest_loop digest reset roll_in
zero_bytes_differ = refl

rotate-roll_in_all_example :
    rotate (roll_in_all reset window) 9 200 ≡ roll_in_all reset (7 ∷ 0 ∷ 9 ∷ [])
rotate-roll_in_all_example = rotate-roll_in_all (7 ∷ 0 ∷ []) 9 200

digest_buffer-polynomial_example :
    digest_buffer window (length window) ≡ (257 ^ length window + polynomial window) % u64_mod
digest_buffer-polynomial_example = digest_buffer-polynomial window

digest_buffer-injective_example : window ≡ window
digest_buffer-injective_example =
    digest_buffer-injective window window (omega arith) (omega arith) (omega arith) (omega arith)
      refl
