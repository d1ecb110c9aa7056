-- ===== src/Encryption/Padding.antt =====
-- The padding of the last block.
use zbackup.Base.{
  ℕ, zero, suc, ◌+◌, ◌-◌, ◌≤◌, ◌<◌, ◌≡◌, refl, ap, ◌∙◌, true, false, ◌||◌, some, List, [], ◌∷◌,
  ◌++◌, append-nil, arith, ltb, ◌==◌, lt→ltb, if_true, overwrite, ==_iff, length, get_or, take,
  drop, replicate, length-append, length-take, length-replicate, take_at, overwrite,
}
use zbackup.Encryption.{block_size, pad, padding_ok, unpad}

get_or-skip :
    (xs ys : List ℕ) (n i : ℕ) → length xs ≡ n → get_or (xs ++ ys) (n + i) 0 ≡ get_or ys i 0
get_or-skip [] ys n i e = ap (λ (j : ℕ). get_or ys j 0) (omega (arith, e))
get_or-skip (x ∷ xs) ys zero i e = absurd (omega arith)
get_or-skip (x ∷ xs) ys (suc n) i e =
    ap (λ (j : ℕ). get_or (x ∷ xs ++ ys) j 0) add_suc ∙ get_or-skip xs ys n i (omega arith)
  where
    add_suc : suc n + i ≡ suc (n + i)
    add_suc = omega arith

get_or-replicate : (n v i : ℕ) → i < n → get_or (replicate n v) i 0 ≡ v
get_or-replicate zero v i h = absurd (omega arith)
get_or-replicate (suc n) v zero h = refl
get_or-replicate (suc n) v (suc i) h = get_or-replicate n v i (omega arith)

drop_all : (n : ℕ) (xs : List ℕ) → length xs ≤ n → drop n xs ≡ []
drop_all zero [] h = refl
drop_all zero (x ∷ xs) h = absurd (omega arith)
drop_all (suc n) [] h = refl
drop_all (suc n) (x ∷ xs) h = drop_all n xs (omega arith)

module _ (front : List ℕ) (size v : ℕ) (front_size : length front ≡ size)
    (total : size + v ≡ block_size) where
  padded-byte : (i : ℕ) → size ≤ i → i < block_size → get_or (front ++ replicate v v) i 0 ≡ v
  padded-byte i le lt =
      ap (λ (j : ℕ). get_or (front ++ replicate v v) j 0) {x = i} {y = size + (i - size)}
        (omega arith)
      ∙ get_or-skip front (replicate v v) size (i - size) front_size
      ∙ get_or-replicate v v (i - size) (omega (arith, total))

  padded_ok :
      (count p : ℕ)
      → size + count ≤ p
      → p < block_size
      → padding_ok (front ++ replicate v v) v p count ≡ true
  unfolding padding_ok
  padded_ok zero p le lt = refl
  padded_ok (suc count) p le lt =
      let byte : get_or (front ++ replicate v v) (p - 1) 0 ≡ v =
        padded-byte (p - 1) (omega arith) (omega arith) in
      let same : (get_or (front ++ replicate v v) (p - 1) 0 == v) ≡ true = (==_iff _ _).1 byte in
      rw same (padded_ok count (p - 1) (omega arith) (omega arith))

-- `unpad` finds the size of what stands before the padding.
pub unpad-padded :
    (front : List ℕ) (size : ℕ)
    → length front ≡ size
    → size < block_size
    → unpad (front ++ replicate (block_size - size) (block_size - size)) ≡ some size
unfolding unpad
unpad-padded front size f lt =
    let v = block_size - size in
    let total : size + v ≡ block_size = omega arith in
    let last : get_or (front ++ replicate v v) (block_size - 1) 0 ≡ v =
      padded-byte front size v f total (block_size - 1) (omega arith) (omega arith) in
    let valid : (v == 0 || ltb block_size v) ≡ false = ground arith in
    let ok : padding_ok (front ++ replicate v v) v (block_size - 1) (v - 1) ≡ true =
      padded_ok front size v f total (v - 1) (block_size - 1) (omega arith) (omega arith) in
    rw (last, valid, ok) (ap some (omega arith))

-- Any first part of less than a block is padded to a whole block that starts with it, and `unpad` finds
-- the size of the part again.
pub unpad-pad :
    (block : List ℕ) (size : ℕ)
    → length block ≡ block_size
    → size < block_size
    → (padded : List ℕ) × (pad block size ≡ some padded)
      × (length padded ≡ block_size)
      × (take size padded ≡ take size block)
      × (unpad padded ≡ some size)
unfolding pad
unpad-pad block size e lt =
    let v = block_size - size in
    let front = take size block in
    let f : length front ≡ size = rw length-take (omega (arith, e)) in
    let total : size + v ≡ block_size = omega arith in
    let fits : ltb size block_size ≡ true = lt→ltb _ _ lt in
    (
      front ++ replicate v v,
      rw fits (ap some written),
      rw (length-append, f, length-replicate) total,
      take_at size front (replicate v v) f,
      unpad-padded front size f lt,
    )
  where
    written :
        overwrite block size (replicate (block_size - size) (block_size - size))
        ≡ take size block ++ replicate (block_size - size) (block_size - size)
    written =
        unfold overwrite in
        ap (λ (t : List ℕ). take size block ++ t)
          (ap (λ (t : List ℕ). replicate (block_size - size) (block_size - size) ++ t)
              (drop_all _ block (rw length-replicate (omega (arith, e))))
            ∙ append-nil _)

-- `pad` behind its CHECK.
pub pad_fits :
    (block : List ℕ) (size : ℕ)
    → size < block_size
    → pad block size
      ≡ some (overwrite block size (replicate (block_size - size) (block_size - size)))
unfolding pad
pad_fits block size lt = if_true _ _ (lt→ltb _ _ lt)
