-- ===== src/BackupRestorer/ToFile/Writes.antt =====
-- Writes that are all parts of one file make it up, in any order, if they cover it.
use zbackup.Base.{
  ℕ, zero, suc, ◌+◌, ◌-◌, ◌≤◌, ◌<◌, ◌≡◌, refl, sym, ap, ◌∙◌, ◌⊎◌, inl, inr, List, [], ◌∷◌, ◌++◌,
  arith, length, get_or, take, drop, All, replicate, overwrite, length-overwrite, length-append,
  length-replicate,
}
use zbackup.Base.Reads.{
  get_or-append_left, get_or-overwrite, get_or-overwrite_inside, get_or-part, same_reads,
}
use zbackup.BackupRestorer.ToFile.{write_at, write_all}

abbrev pub Any {ℓ} : {A : Type ℓ} → (A → Type 0) → List A → Type 0
Any P [] = ⊥
Any P (x ∷ xs) = P x ⊎ Any P xs

-- The bytes stand in the data from the position on.
abbrev pub IsPart : List ℕ → ℕ × List ℕ → Type 0
IsPart data_ (position, bytes) =
    (position + length bytes ≤ length data_) × (take (length bytes) (drop position data_) ≡ bytes)

abbrev pub IsIn : ℕ → ℕ × List ℕ → Type 0
IsIn i (position, bytes) = (position ≤ i) × (i < position + length bytes)

-- Where the file has to be read from the writes, or is right already.
abbrev Right : List ℕ → List ℕ → List (ℕ × List ℕ) → Type 0
Right data_ file writes =
    (i : ℕ)
    → i < length data_
    → Any (IsIn i) writes ⊎ ((i < length file) × (get_or file i 0 ≡ get_or data_ i 0))

write_at-Right :
    (data_ file : List ℕ) (position : ℕ) (bytes : List ℕ) (writes : List (ℕ × List ℕ))
    → length file ≤ length data_
    → IsPart data_ (position, bytes)
    → Right data_ file ((position, bytes) ∷ writes)
    → (length (write_at file position bytes) ≤ length data_)
      × Right data_ (write_at file position bytes) writes
unfolding write_at
write_at-Right data_ file position [] writes le part right = (
  le,
  λ i lt. elim (right i lt) [
    | inl (inl (low, high)) ↦ absurd (omega (arith, low, high))
    | inl (inr later) ↦ inl later
    | inr fine ↦ inr fine
  ],
)
write_at-Right data_ file position (b ∷ bytes) writes le (inside, same) right =
    let size = length (b ∷ bytes) in
    let longer = file ++ replicate (position + size - length file) 0 in
    let len : length longer ≡ length file + (position + size - length file) =
      length-append file _
      ∙ ap (λ (n : ℕ). length file + n) (length-replicate (position + size - length file) 0) in
    let fits : position + size ≤ length longer = omega (arith, len) in
    let len' = length-overwrite longer position (b ∷ bytes) fits in
    let written : (i : ℕ)
        → IsIn i (position, b ∷ bytes)
        → (i < length (overwrite longer position (b ∷ bytes)))
          × (get_or (overwrite longer position (b ∷ bytes)) i 0 ≡ get_or data_ i 0) =
      λ i (low, high). (
        omega (arith, len', fits, high),
        get_or-overwrite_inside longer position (b ∷ bytes) i fits low high
            ∙ ap (λ (t : List ℕ). get_or t (i - position) 0) (sym same)
            ∙ get_or-part data_ position size i low high,
      ) in
    let kept : (i : ℕ)
        → i < length file
        → (i < position) ⊎ (position + size ≤ i)
        → get_or (overwrite longer position (b ∷ bytes)) i 0 ≡ get_or file i 0 =
      λ i lt out.
        get_or-overwrite longer position (b ∷ bytes) i fits out ∙ get_or-append_left file _ i lt in
    (
      omega (arith, len', len, le, inside),
      λ i lt. elim (right i lt) [
        | inl (inl here) ↦ inr (written i here)
        | inl (inr later) ↦ inl later
        | inr (known, fine) ↦ elim (place i position size) [
          | inl here ↦ inr (written i here)
          | inr out ↦ inr (omega (arith, len', len, known), kept i known out ∙ fine)
        ]
      ],
    )
  where
    place :
        (i position size : ℕ)
        → ((position ≤ i) × (i < position + size)) ⊎ ((i < position) ⊎ (position + size ≤ i))
    place i position size = grind arith

-- What the file holds afterwards.
pub write_all-whole :
    (data_ : List ℕ) (writes : List (ℕ × List ℕ)) (file : List ℕ)
    → length file ≤ length data_
    → All (IsPart data_) writes
    → ((i : ℕ)
        → i < length data_
        → Any (IsIn i) writes ⊎ ((i < length file) × (get_or file i 0 ≡ get_or data_ i 0)))
    → write_all writes file ≡ data_
unfolding write_all
write_all-whole data_ [] file le parts right =
    same_reads file data_ (whole (length data_) refl) (λ i lt. (done i lt).1)
  where
    done : (i : ℕ) → i < length data_ → (i < length file) × (get_or file i 0 ≡ get_or data_ i 0)
    done i lt = elim (right i lt) [ inl none_left ↦ absurd none_left | inr fine ↦ fine ]

    whole : (n : ℕ) → n ≡ length data_ → length file ≡ length data_
    whole zero e = omega (arith, e, le)
    whole (suc n) e = omega (arith, e, le, (done n (omega (arith, e))).0)
write_all-whole data_ ((position, bytes) ∷ writes) file le (part, parts) right =
    let (le', right') = write_at-Right data_ file position bytes writes le part right in
    write_all-whole data_ writes (write_at file position bytes) le' parts right'
