-- ===== src/Encryption/Chaining.antt =====
-- Decryption in place undoes encryption.
use zbackup.Base.{
  ℕ, zero, suc, ◌+◌, ◌*◌, ◌/◌, ◌%◌, ◌≡◌, refl, sym, ap, ap₂, ◌∙◌, true, some, List, [], ◌∷◌, ◌++◌,
  append-nil, append_assoc, arith, ◌==◌, ==_iff, length, take, drop, All, length-append,
  length-take, length-drop, take-append-drop, take_at, drop_at, take_all, All-take, All-drop,
  overwrite,
}
use zbackup.Base.Bytes.{IsByte}
use zbackup.Encryption.{
  block_size, xor_block, encrypt_loop, encrypt, iv_of, decrypt_loop, decrypt,
  get_next_decryption_iv,
}
use zbackup.Encryption.Xor.{xor_block-cancel, length-xor_block, take-front, drop-front}

-- AES under one key, in both directions, on whole blocks.
module _ (aes_encrypt aes_decrypt : List ℕ → List ℕ)
    (aes_size : (block : List ℕ)
      → length block ≡ block_size
      → length (aes_encrypt block) ≡ block_size)
    (aes_inverse : (block : List ℕ)
      → length block ≡ block_size
      → aes_decrypt (aes_encrypt block) ≡ block) where
  abbrev pub run : ℕ → List ℕ → List ℕ → List ℕ × List ℕ
  run = encrypt_loop aes_encrypt aes_decrypt

  -- The result for one block more in front.
  with_first : List ℕ → List ℕ × List ℕ → List ℕ × List ℕ
  with_first c (rest, last) = (c ++ rest, last)

  run-suc :
      (n : ℕ) (prev bytes : List ℕ)
      → run (suc n) prev bytes
        ≡ with_first
            (aes_encrypt (xor_block (take block_size bytes) prev))
            (run n (aes_encrypt (xor_block (take block_size bytes) prev)) (drop block_size bytes))
  unfolding encrypt_loop with_first
  run-suc n prev bytes = refl

  -- The result for one block more behind.
  with_last : List ℕ → List ℕ × List ℕ → List ℕ × List ℕ
  with_last block (out, last) =
      (out ++ aes_encrypt (xor_block block last), aes_encrypt (xor_block block last))

  -- The loop on one block more.
  run-snoc :
      (n : ℕ) (prev front block : List ℕ)
      → length front ≡ block_size * n
      → length block ≡ block_size
      → run (suc n) prev (front ++ block) ≡ with_last block (run n prev front)
  run-snoc zero prev [] block f b =
      unfold encrypt_loop with_last in rw (take_all block_size block b, append-nil) refl
  run-snoc zero prev (x ∷ front) block f b = absurd (omega arith)
  run-snoc (suc n) prev front block f b =
      let c = aes_encrypt (xor_block (take block_size front) prev) in
      let out : List ℕ × List ℕ = run n c (drop block_size front) in
      run-suc (suc n) prev (front ++ block)
      ∙ ap₂
          (λ (x y : List ℕ).
            with_first (aes_encrypt (xor_block x prev))
              (run (suc n) (aes_encrypt (xor_block x prev)) y))
          (take-front block_size front block (omega (arith, f)))
          (drop-front block_size front block (omega (arith, f)))
      ∙ ap (with_first c)
          (run-snoc n c (drop block_size front) block (rw length-drop (omega (arith, f))) b)
      ∙ swap c out
      ∙ ap (with_last block) (sym (run-suc n prev front))
    where
      swap :
          (c : List ℕ) (r : List ℕ × List ℕ)
          → with_first c (with_last block r) ≡ with_last block (with_first c r)
      swap c (out, last) =
          unfold with_first with_last in
          ap (λ (t : List ℕ). (t, aes_encrypt (xor_block block last))) (sym (append_assoc c out _))

  -- The sizes of what `encrypt` gives.
  pub run-sizes :
      (n : ℕ) (prev bytes : List ℕ)
      → length prev ≡ block_size
      → length bytes ≡ block_size * n
      → (length (run n prev bytes).0 ≡ block_size * n) × (length (run n prev bytes).1 ≡ block_size)
  unfolding encrypt_loop
  run-sizes zero prev bytes p e = (omega arith, p)
  run-sizes (suc n) prev bytes p e =
      let first : length (take block_size bytes) ≡ block_size = rw length-take (omega (arith, e)) in
      let c : length (aes_encrypt (xor_block (take block_size bytes) prev)) ≡ block_size =
        aes_size _ (length-xor_block (take block_size bytes) prev (first ∙ sym p) ∙ first) in
      let (out, last) =
        run-sizes n _ (drop block_size bytes) c (rw length-drop (omega (arith, e))) in
      (rw length-append (omega (arith, out, c)), last)

  -- The vector that `decrypt` finds in front of a block is the one that `encrypt` used.
  iv_of-run :
      (n : ℕ) (iv bytes tail : List ℕ)
      → length iv ≡ block_size
      → length bytes ≡ block_size * n
      → iv_of aes_encrypt aes_decrypt n iv ((run n iv bytes).0 ++ tail) ≡ (run n iv bytes).1
  iv_of-run zero iv bytes tail p e = unfold iv_of encrypt_loop in refl
  iv_of-run (suc n) iv bytes tail p e =
      let front = take (block_size * n) bytes in
      let block = drop (block_size * n) bytes in
      let f : length front ≡ block_size * n = rw length-take (omega (arith, e)) in
      let b : length block ≡ block_size = rw length-drop (omega (arith, e)) in
      let whole : run (suc n) iv bytes ≡ with_last block (run n iv front) =
        ap (run (suc n) iv) (sym (take-append-drop (block_size * n) bytes))
        ∙ run-snoc n iv front block f b in
      let (out, last) = run-sizes n iv front p f in
      let c : length (aes_encrypt (xor_block block (run n iv front).1)) ≡ block_size =
        aes_size _ (length-xor_block block (run n iv front).1 (b ∙ sym last) ∙ b) in
      ap (λ (r : List ℕ × List ℕ). iv_of aes_encrypt aes_decrypt (suc n) iv (r.0 ++ tail)) whole
      ∙ found n iv (run n iv front) block tail out c
      ∙ ap (λ (r : List ℕ × List ℕ). r.1) (sym whole)
    where
      found :
          (n : ℕ) (iv : List ℕ) (r : List ℕ × List ℕ) (block tail : List ℕ)
          → length r.0 ≡ block_size * n
          → length (aes_encrypt (xor_block block r.1)) ≡ block_size
          → iv_of aes_encrypt aes_decrypt (suc n) iv ((with_last block r).0 ++ tail)
            ≡ (with_last block r).1
      found n iv r block tail o c =
          unfold iv_of with_last in
          ap (λ (t : List ℕ). take block_size (drop (block_size * n) t)) (append_assoc r.0 _ tail)
          ∙ ap (take block_size) (drop_at (block_size * n) r.0 _ o)
          ∙ take_at block_size _ tail c

  -- One round of `decrypt` restores the block behind those that are still to be decrypted.
  round-block :
      (n : ℕ) (iv front block tail : List ℕ)
      → length iv ≡ block_size
      → length front ≡ block_size * n
      → length block ≡ block_size
      → All IsByte block
      → decrypt_loop aes_encrypt aes_decrypt
          (suc n)
          iv
          ((run (suc n) iv (front ++ block)).0 ++ tail)
        ≡ decrypt_loop aes_encrypt aes_decrypt n iv ((run n iv front).0 ++ (block ++ tail))
  round-block n iv front block tail p f b bytes =
      let (out, last) = run-sizes n iv front p f in
      let xored : length (xor_block block (run n iv front).1) ≡ block_size =
        length-xor_block block (run n iv front).1 (b ∙ sym last) ∙ b in
      ap (λ (r : List ℕ × List ℕ). decrypt_loop aes_encrypt aes_decrypt (suc n) iv (r.0 ++ tail))
        (run-snoc n iv front block f b)
      ∙ ap (decrypt_loop aes_encrypt aes_decrypt (suc n) iv) (split (run n iv front))
      ∙ go (run n iv front).0 (run n iv front).1 (aes_encrypt (xor_block block (run n iv front).1))
          out (aes_size _ xored) (iv_of-run n iv front _ p f)
          (ap (λ (t : List ℕ). xor_block t (run n iv front).1) (aes_inverse _ xored)
            ∙ xor_block-cancel block (run n iv front).1 (b ∙ sym last) bytes)
    where
      split :
          (r : List ℕ × List ℕ)
          → (with_last block r).0 ++ tail ≡ r.0 ++ (aes_encrypt (xor_block block r.1) ++ tail)
      split r = unfold with_last in append_assoc r.0 _ tail

      step :
          (e c : List ℕ)
          → decrypt_loop aes_encrypt aes_decrypt (suc n) iv (e ++ (c ++ tail))
            ≡ decrypt_loop aes_encrypt aes_decrypt n iv (
                overwrite (e ++ (c ++ tail)) (block_size * n) (
                  xor_block
                    (aes_decrypt (take block_size (drop (block_size * n) (e ++ (c ++ tail)))))
                    (iv_of aes_encrypt aes_decrypt n iv (e ++ (c ++ tail)))))
      step e c = unfold decrypt_loop in refl

      placed :
          (e c : List ℕ)
          → length e ≡ block_size * n
          → length c ≡ block_size
          → overwrite (e ++ (c ++ tail)) (block_size * n) block ≡ e ++ (block ++ tail)
      placed e c le lc =
          unfold overwrite in
          ap₂ (λ (x y : List ℕ). x ++ (block ++ y)) (take_at (block_size * n) e (c ++ tail) le)
            (ap (drop (block_size * n + length block)) (sym (append_assoc e c tail))
              ∙ drop_at (block_size * n + length block) (e ++ c) tail
                  (rw length-append (omega (arith, le, lc, b))))

      go :
          (e l c : List ℕ)
          → length e ≡ block_size * n
          → length c ≡ block_size
          → iv_of aes_encrypt aes_decrypt n iv (e ++ (c ++ tail)) ≡ l
          → xor_block (aes_decrypt c) l ≡ block
          → decrypt_loop aes_encrypt aes_decrypt (suc n) iv (e ++ (c ++ tail))
            ≡ decrypt_loop aes_encrypt aes_decrypt n iv (e ++ (block ++ tail))
      go e l c le lc vec dec =
          let read : take block_size (drop (block_size * n) (e ++ (c ++ tail))) ≡ c =
            ap (take block_size) (drop_at (block_size * n) e (c ++ tail) le)
            ∙ take_at block_size c tail lc in
          let plain : xor_block
                (aes_decrypt (take block_size (drop (block_size * n) (e ++ (c ++ tail)))))
                (iv_of aes_encrypt aes_decrypt n iv (e ++ (c ++ tail)))
              ≡ block =
            ap₂ (λ (x y : List ℕ). xor_block (aes_decrypt x) y) read vec ∙ dec in
          step e c
          ∙ ap
              (λ (t : List ℕ).
                decrypt_loop aes_encrypt aes_decrypt n iv
                  (overwrite (e ++ (c ++ tail)) (block_size * n) t))
              plain
          ∙ ap (decrypt_loop aes_encrypt aes_decrypt n iv) (placed e c le lc)

  decrypt_loop-run :
      (n : ℕ) (iv bytes tail : List ℕ)
      → length iv ≡ block_size
      → length bytes ≡ block_size * n
      → All IsByte bytes
      → decrypt_loop aes_encrypt aes_decrypt n iv ((run n iv bytes).0 ++ tail) ≡ bytes ++ tail
  decrypt_loop-run zero iv [] tail p e h = unfold decrypt_loop encrypt_loop in refl
  decrypt_loop-run zero iv (b ∷ bytes) tail p e h = absurd (omega arith)
  decrypt_loop-run (suc n) iv bytes tail p e h =
      let front = take (block_size * n) bytes in
      let block = drop (block_size * n) bytes in
      let f : length front ≡ block_size * n = rw length-take (omega (arith, e)) in
      let b : length block ≡ block_size = rw length-drop (omega (arith, e)) in
      ap
        (λ (t : List ℕ).
          decrypt_loop aes_encrypt aes_decrypt (suc n) iv ((run (suc n) iv t).0 ++ tail))
        (sym (take-append-drop (block_size * n) bytes))
      ∙ round-block n iv front block tail p f b (All-drop IsByte (block_size * n) bytes h)
      ∙ decrypt_loop-run n iv front (block ++ tail) p f (All-take IsByte (block_size * n) bytes h)
      ∙ sym (append_assoc front block tail)
      ∙ ap (λ (t : List ℕ). t ++ tail) (take-append-drop (block_size * n) bytes)

  -- Data of whole blocks are encrypted to as many bytes, the vector for what follows is the one that
  -- `getNextDecryptionIv` finds in them (where there are any), and `decrypt` in place gives the data
  -- back. AES under one key maps blocks to blocks, and its decryption undoes its encryption.
  pub decrypt-encrypt :
      (n : ℕ) (iv bytes : List ℕ)
      → length iv ≡ block_size
      → length bytes ≡ block_size * suc n
      → All IsByte bytes
      → (out : List ℕ) × (last : List ℕ) × (encrypt aes_encrypt aes_decrypt iv bytes
          ≡ some (out, last))
        × (length out ≡ length bytes)
        × (last ≡ get_next_decryption_iv out (length out))
        × (decrypt aes_encrypt aes_decrypt iv out ≡ some bytes)
  unfolding encrypt decrypt get_next_decryption_iv
  decrypt-encrypt n iv bytes p e h =
      let r = run (suc n) iv bytes in
      let (out, last) = run-sizes (suc n) iv bytes p e in
      let count : length bytes / block_size ≡ suc n = omega (arith, e) in
      let whole : (length bytes % block_size == 0) ≡ true = (==_iff _ _).1 (omega (arith, e)) in
      let count' : length r.0 / block_size ≡ suc n = omega (arith, out) in
      let whole' : (length r.0 % block_size == 0) ≡ true = (==_iff _ _).1 (omega (arith, out)) in
      (
        r.0,
        r.1,
        rw (whole, count) refl,
        out ∙ sym e,
        sym (iv_of-run (suc n) iv bytes [] p e)
            ∙ (unfold iv_of in
                ap₂ (λ (t : List ℕ) (k : ℕ). take block_size (drop k t)) (append-nil r.0)
                  (omega (arith, out))),
        rw (whole', count')
            (ap some (
              ap (decrypt_loop aes_encrypt aes_decrypt (suc n) iv) (sym (append-nil r.0))
              ∙ decrypt_loop-run (suc n) iv bytes [] p e h
              ∙ append-nil bytes)),
      )
