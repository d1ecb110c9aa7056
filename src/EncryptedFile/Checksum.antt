-- ===== src/EncryptedFile/Checksum.antt =====
-- The running checksum.
use zbackup.Base.{
  ℕ, suc, ◌%◌, ◌<◌, ◌≡◌, refl, sym, ap, List, [], ◌∷◌, ◌++◌, append-nil, arith, length, ◌==◌, false,
}
use zbackup.Base.Bytes.{u32_mod}
use zbackup.EncryptedFile.{initial, add_bytes}

-- zlib goes on with the checksum of what came before, in 32 bits, where there are bytes.
module _ (adler32 : ℕ → List ℕ → ℕ)
    (adler32_lt : (value : ℕ) (bytes : List ℕ) → adler32 value bytes < u32_mod)
    (adler32_append : (value : ℕ) (a b : List ℕ)
      → 0 < length a
      → 0 < length b
      → adler32 (adler32 value a) b ≡ adler32 value (a ++ b)) where
  pub checksum : List ℕ → ℕ
  checksum bytes = add_bytes adler32 (initial adler32) bytes

  add_bytes-cons :
      (value x : ℕ) (a : List ℕ) → add_bytes adler32 value (x ∷ a) ≡ adler32 value (x ∷ a) % u32_mod
  unfolding add_bytes
  add_bytes-cons value x a = let more : (suc (length a) == 0) ≡ false = ground arith in rw more refl

  add_bytes-append :
      (value : ℕ) (a b : List ℕ)
      → add_bytes adler32 (add_bytes adler32 value a) b ≡ add_bytes adler32 value (a ++ b)
  add_bytes-append value [] b = unfold add_bytes in refl
  add_bytes-append value (x ∷ a) [] =
      unfold add_bytes in ap (add_bytes adler32 value) (sym (append-nil (x ∷ a)))
  add_bytes-append value (x ∷ a) (y ∷ b) =
      let fits : adler32 value (x ∷ a) % u32_mod ≡ adler32 value (x ∷ a) =
        omega (arith, adler32_lt value (x ∷ a)) in
      rw
        (
          add_bytes-cons value x a,
          add_bytes-cons value x (a ++ y ∷ b),
          fits,
          add_bytes-cons (adler32 value (x ∷ a)) y b,
        )
        (ap (λ (v : ℕ). v % u32_mod)
          (adler32_append value (x ∷ a) (y ∷ b) (omega arith) (omega arith)))

  pub add_bytes-checksum : (a b : List ℕ) → add_bytes adler32 (checksum a) b ≡ checksum (a ++ b)
  unfolding checksum
  add_bytes-checksum a b = add_bytes-append (initial adler32) a b

  pub checksum-nil : checksum [] ≡ initial adler32
  unfolding checksum add_bytes
  checksum-nil = refl

  pub checksum-lt : (bytes : List ℕ) → checksum bytes < u32_mod
  checksum-lt [] = unfold checksum add_bytes initial in omega arith
  checksum-lt (x ∷ bytes) =
      unfold checksum in rw (add_bytes-cons (initial adler32) x bytes) (omega arith)
