-- ===== src/EncryptedFile/Tests.antt =====
-- The streams at concrete files: a cipher that keeps each block, and the checksum that zlib has.
use zbackup.Base.Bytes.{u32_mod}
use zbackup.Base.{
  ℕ, ◌+◌, ◌%◌, ◌/◌, ◌<◌, ◌≡◌, refl, true, List, [], ◌∷◌, ◌++◌, arith, replicate, ◌*◌, length,
}
use zbackup.EncryptedFile.{ok}
use zbackup.EncryptedFile.Setting.{Setting}
use zbackup.EncryptedFile.RoundTrip.{save, load, load-save, cut}

-- Adler-32: two sums modulo the largest 16-bit prime. A call with no bytes starts anew.
abbrev step : ℕ → ℕ → ℕ
step value x = let low = (value % 65536 + x) % 65521 in (value / 65536 + low) % 65521 * 65536 + low

abbrev steps : ℕ → List ℕ → ℕ
steps value [] = value
steps value (x ∷ bytes) = steps (step value x) bytes

abbrev adler : ℕ → List ℕ → ℕ
adler value [] = 1
adler value (x ∷ bytes) = steps (step value x) bytes

step_lt : (value x : ℕ) → step value x < u32_mod
step_lt value x = omega arith

steps_lt : (value : ℕ) (bytes : List ℕ) → value < u32_mod → steps value bytes < u32_mod
steps_lt value [] lt = lt
steps_lt value (x ∷ bytes) lt = steps_lt (step value x) bytes (step_lt value x)

adler_lt : (value : ℕ) (bytes : List ℕ) → adler value bytes < u32_mod
adler_lt value [] = omega arith
adler_lt value (x ∷ bytes) = steps_lt (step value x) bytes (step_lt value x)

steps-append : (value : ℕ) (a b : List ℕ) → steps (steps value a) b ≡ steps value (a ++ b)
steps-append value [] b = refl
steps-append value (x ∷ a) b = steps-append (step value x) a b

adler_append :
    (value : ℕ) (a b : List ℕ)
    → 0 < length a
    → 0 < length b
    → adler (adler value a) b ≡ adler value (a ++ b)
adler_append value [] b some_a some_b = absurd (omega (arith, some_a))
adler_append value (x ∷ a) [] some_a some_b = absurd (omega (arith, some_b))
adler_append value (x ∷ a) (y ∷ b) some_a some_b = steps-append (step value x) a (y ∷ b)

abbrev with_key : Setting
with_key = record {
  aes_encrypt = λ block. block;
  aes_decrypt = λ block. block;
  aes_size = λ block e. e;
  aes_inverse = λ block e. refl;
  adler32 = adler;
  adler32_lt = adler_lt;
  adler32_append = adler_append;
  has_key = true;
  iv = replicate 16 7;
  iv_size = refl;
  page_size = 32;
  page_blocks = 1;
  page = refl;
}

load-save_example :
    (file : List ℕ) × (save
        (λ block. block)
        (λ block. block)
        adler
        true
        200
        (λ offset. true)
        32
        (replicate 16 7)
        (replicate 20 1 ∷ replicate 30 2 ∷ [])
      ≡ ok file)
    × (load
          (λ block. block)
          (λ block. block)
          adler
          true
          200
          (λ offset. true)
          32
          (replicate 16 7)
          (7 ∷ 43 ∷ [])
          file
        ≡ ok (cut (7 ∷ 43 ∷ []) (replicate 20 1 ++ replicate 30 2)))
load-save_example =
    load-save with_key 200 (λ offset. true) (λ offset. refl) (replicate 20 1 ∷ replicate 30 2 ∷ [])
      (7 ∷ 43 ∷ []) (omega arith) (omega arith) (omega arith)
