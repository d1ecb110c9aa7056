-- ===== src/Encryption/Concat.antt =====
-- The loop of `encrypt` on blocks in two parts.
use zbackup.Base.{
  ℕ, zero, suc, ◌+◌, ◌*◌, ◌/◌, ◌%◌, ◌==◌, ==_iff, true, some, ◌≡◌, refl, sym, ap, ap₂, ◌∙◌, List,
  [], ◌∷◌, ◌++◌, append_assoc, arith, length, take, drop, length-drop,
}
use zbackup.Encryption.{block_size, xor_block, encrypt_loop, encrypt}
use zbackup.Encryption.Xor.{take-front, drop-front}

module _ (aes_encrypt aes_decrypt : List ℕ → List ℕ) where
  abbrev run : ℕ → List ℕ → List ℕ → List ℕ × List ℕ
  run = encrypt_loop aes_encrypt aes_decrypt

  abbrev with_front : List ℕ → List ℕ × List ℕ → List ℕ × List ℕ
  with_front c r = (c ++ r.0, r.1)

  run-suc :
      (n : ℕ) (prev bytes : List ℕ)
      → run (suc n) prev bytes
        ≡ with_front
            (aes_encrypt (xor_block (take block_size bytes) prev))
            (run n (aes_encrypt (xor_block (take block_size bytes) prev)) (drop block_size bytes))
  unfolding encrypt_loop
  run-suc n prev bytes = refl

  pub run-none : (iv : List ℕ) → run 0 iv [] ≡ ([], iv)
  unfolding encrypt_loop
  run-none iv = refl

  -- The second part goes on with the vector that the first leaves.
  pub run-append :
      (m n : ℕ) (iv a b : List ℕ)
      → length a ≡ block_size * m
      → run (m + n) iv (a ++ b) ≡ with_front (run m iv a).0 (run n (run m iv a).1 b)
  run-append zero n iv [] b e = unfold encrypt_loop in ap (λ (k : ℕ). run k iv b) (omega arith)
  run-append zero n iv (x ∷ a) b e = absurd (omega arith)
  run-append (suc m) n iv a b e =
      let c = aes_encrypt (xor_block (take block_size a) iv) in
      ap (λ (k : ℕ). run k iv (a ++ b)) (omega arith)
      ∙ run-suc (m + n) iv (a ++ b)
      ∙ ap₂
          (λ (x y : List ℕ).
            with_front (aes_encrypt (xor_block x iv))
              (run (m + n) (aes_encrypt (xor_block x iv)) y))
          (take-front block_size a b (omega (arith, e)))
          (drop-front block_size a b (omega (arith, e)))
      ∙ ap (with_front c)
          (run-append m n c (drop block_size a) b (rw length-drop (omega (arith, e))))
      ∙ rw (run-suc m iv a) (ap₂ (λ (x y : List ℕ). (x, y)) (sym (append_assoc c _ _)) refl)

  -- `encrypt` on whole blocks.
  pub encrypt-blocks :
      (n : ℕ) (iv bytes : List ℕ)
      → length bytes ≡ block_size * n
      → encrypt aes_encrypt aes_decrypt iv bytes ≡ some (run (length bytes / block_size) iv bytes)
  unfolding encrypt
  encrypt-blocks n iv bytes e =
      let whole : (length bytes % block_size == 0) ≡ true = (==_iff _ _).1 (omega (arith, e)) in
      rw whole refl
