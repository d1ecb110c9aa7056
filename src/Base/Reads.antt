-- ===== src/Base/Reads.antt =====
-- What a list holds at a place after a write.
use zbackup.Base.{
  ℕ, zero, suc, ◌+◌, ◌-◌, ◌≤◌, ◌<◌, ◌≡◌, refl, ap, ap₂, ◌∙◌, ◌⊎◌, inl, inr, List, [], ◌∷◌, ◌++◌,
  arith, length, get_or, take, drop, length-take, overwrite,
}

pub get_or-append_left :
    (xs ys : List ℕ) (i : ℕ) → i < length xs → get_or (xs ++ ys) i 0 ≡ get_or xs i 0
get_or-append_left [] ys i h = absurd (omega arith)
get_or-append_left (x ∷ xs) ys zero h = refl
get_or-append_left (x ∷ xs) ys (suc i) h = get_or-append_left xs ys i (omega arith)

get_or-append_right :
    (xs ys : List ℕ) (i : ℕ) → length xs ≤ i → get_or (xs ++ ys) i 0 ≡ get_or ys (i - length xs) 0
get_or-append_right [] ys i h = ap (λ (j : ℕ). get_or ys j 0) (omega arith)
get_or-append_right (x ∷ xs) ys zero h = absurd (omega arith)
get_or-append_right (x ∷ xs) ys (suc i) h =
    get_or-append_right xs ys i (omega arith) ∙ ap (λ (j : ℕ). get_or ys j 0) (omega arith)

get_or-take : (n : ℕ) (xs : List ℕ) (i : ℕ) → i < n → get_or (take n xs) i 0 ≡ get_or xs i 0
get_or-take zero xs i h = absurd (omega arith)
get_or-take (suc n) [] i h = refl
get_or-take (suc n) (x ∷ xs) zero h = refl
get_or-take (suc n) (x ∷ xs) (suc i) h = get_or-take n xs i (omega arith)

get_or-drop : (n : ℕ) (xs : List ℕ) (i : ℕ) → get_or (drop n xs) i 0 ≡ get_or xs (n + i) 0
get_or-drop zero xs i = ap (λ (j : ℕ). get_or xs j 0) (omega arith)
get_or-drop (suc n) [] i = refl
get_or-drop (suc n) (x ∷ xs) i = get_or-drop n xs i ∙ ap (λ (j : ℕ). get_or (x ∷ xs) j 0) add_suc
  where
    add_suc : suc (n + i) ≡ suc n + i
    add_suc = omega arith

-- A write leaves the other places alone.
pub get_or-overwrite :
    (xs : List ℕ) (h : ℕ) (ys : List ℕ) (i : ℕ)
    → h + length ys ≤ length xs
    → (i < h) ⊎ (h + length ys ≤ i)
    → get_or (overwrite xs h ys) i 0 ≡ get_or xs i 0
unfolding overwrite
get_or-overwrite xs h ys i fits (inl lt) =
    get_or-append_left (take h xs) _ i (rw length-take (omega arith)) ∙ get_or-take h xs i lt
get_or-overwrite xs h ys i fits (inr le) =
    let len : length (take h xs) ≡ h = rw length-take (omega arith) in
    get_or-append_right (take h xs) _ i (rw len (omega arith))
    ∙ get_or-append_right ys _ (i - length (take h xs)) (rw len (omega arith))
    ∙ get_or-drop (h + length ys) xs _
    ∙ ap (λ (j : ℕ). get_or xs j 0) (omega (arith, len))

-- And it puts the bytes in their places.
pub get_or-overwrite_inside :
    (xs : List ℕ) (h : ℕ) (ys : List ℕ) (i : ℕ)
    → h + length ys ≤ length xs
    → h ≤ i
    → i < h + length ys
    → get_or (overwrite xs h ys) i 0 ≡ get_or ys (i - h) 0
unfolding overwrite
get_or-overwrite_inside xs h ys i fits le lt =
    let len : length (take h xs) ≡ h = length-take h xs ∙ omega (arith, fits) in
    get_or-append_right (take h xs) _ i (omega (arith, len, le))
    ∙ ap (λ (j : ℕ). get_or (ys ++ drop (h + length ys) xs) (i - j) 0) len
    ∙ get_or-append_left ys _ (i - h) (omega (arith, le, lt))

pub get_or-part :
    (xs : List ℕ) (h n i : ℕ)
    → h ≤ i
    → i < h + n
    → get_or (take n (drop h xs)) (i - h) 0 ≡ get_or xs i 0
get_or-part xs h n i le lt =
    get_or-take n (drop h xs) (i - h) (omega (arith, le, lt))
    ∙ get_or-drop h xs (i - h)
    ∙ ap (λ (j : ℕ). get_or xs j 0) (omega (arith, le))

pub get_or-behind :
    (xs ys : List ℕ) (i : ℕ)
    → length xs ≤ i
    → get_or (xs ++ drop (length xs) ys) i 0 ≡ get_or ys i 0
get_or-behind xs ys i le =
    get_or-append_right xs _ i le
    ∙ get_or-drop (length xs) ys (i - length xs)
    ∙ ap (λ (j : ℕ). get_or ys j 0) (omega (arith, le))

-- Two lists of one length with one element in each place.
pub same_reads :
    (xs ys : List ℕ)
    → length xs ≡ length ys
    → ((i : ℕ) → i < length ys → get_or xs i 0 ≡ get_or ys i 0)
    → xs ≡ ys
same_reads [] [] e h = refl
same_reads [] (y ∷ ys) e h = absurd (omega (arith, e))
same_reads (x ∷ xs) [] e h = absurd (omega (arith, e))
same_reads (x ∷ xs) (y ∷ ys) e h =
    ap₂ (λ (z : ℕ) (zs : List ℕ). z ∷ zs) (h 0 (omega arith))
      (same_reads xs ys (omega (arith, e)) (λ i lt. h (suc i) (omega (arith, lt))))

pub get_or-last : (xs : List ℕ) (x : ℕ) → get_or (xs ++ (x ∷ [])) (length xs) 0 ≡ x
get_or-last [] x = refl
get_or-last (y ∷ xs) x =
    ap (λ (i : ℕ). get_or (y ∷ (xs ++ (x ∷ []))) i 0) one_more ∙ get_or-last xs x
  where
    one_more : length (y ∷ xs) ≡ suc (length xs)
    one_more = omega arith
