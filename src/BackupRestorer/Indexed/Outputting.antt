-- ===== src/BackupRestorer/Indexed/Outputting.antt =====
-- What one output of a piece of the data writes.
use zbackup.Base.{
  ℕ, ◌+◌, ◌-◌, ◌≤◌, ◌<◌, ◌≡◌, ap, ap₂, ◌∙◌, Bool, true, false, not, some, List, ◌++◌, arith, ltb,
  ◌==◌, if_false, length, take, drop, length-drop, take_whole,
}
use zbackup.BackupRestorer.Indexed.{Outputer, start_of, end_of, copy_part, out}

abbrev pub at : ℕ → List ℕ → ℕ → Outputer
at offset bytes size = record { offset = offset; data_ = bytes; size = size }

start_of-at :
    (position k : ℕ) (bytes : List ℕ) (size : ℕ)
    → start_of position (at (position + k) bytes size) ≡ k
unfolding start_of
start_of-at position k bytes size = ground arith

end_of-ends :
    (position k n : ℕ) (bytes : List ℕ) (size : ℕ)
    → k + size ≤ n
    → end_of position n (at (position + k) bytes size) ≡ k + size
unfolding end_of
end_of-ends position k n bytes size le = ground (arith, le)

end_of-goes_on :
    (position k n : ℕ) (bytes : List ℕ) (size : ℕ)
    → n < k + size
    → end_of position n (at (position + k) bytes size) ≡ n
unfolding end_of
end_of-goes_on position k n bytes size lt = ground (arith, lt)

copy_part-at :
    (start end_ : ℕ) (chunk : List ℕ) (offset : ℕ) (bytes : List ℕ) (size : ℕ)
    → start ≤ end_
    → end_ - start ≤ size
    → copy_part start end_ chunk (at offset bytes size)
      ≡ some (
        at
            (offset + (end_ - start))
            (bytes ++ take (end_ - start) (drop start chunk))
            (size - (end_ - start)),
        not (size - (end_ - start) == 0),
      )
unfolding copy_part
copy_part-at start end_ chunk offset bytes size le fits =
    let fine : ltb end_ start ≡ false = ground (arith, le) in
    let room : ltb size (end_ - start) ≡ false = ground (arith, fits) in
    if_false _ _ fine ∙ if_false _ _ room

-- The piece has all that is wanted.
pub out-ends :
    (position k : ℕ) (chunk bytes : List ℕ) (size : ℕ)
    → k + size ≤ length chunk
    → out position chunk (at (position + k) bytes size)
      ≡ some (at (position + k + size) (bytes ++ take size (drop k chunk)) 0, false)
unfolding out
out-ends position k chunk bytes size le =
    let n : k + size - k ≡ size = omega arith in
    let zero_left : size - size ≡ 0 = omega arith in
    ap₂ (λ (s e : ℕ). copy_part s e chunk (at (position + k) bytes size))
      (start_of-at position k bytes size) (end_of-ends position k (length chunk) bytes size le)
    ∙ copy_part-at k (k + size) chunk (position + k) bytes size (omega arith) (omega arith)
    ∙ ap
        (λ (m : ℕ).
          some (
            at (position + k + m) (bytes ++ take m (drop k chunk)) (size - m),
            not (size - m == 0),
          ))
        n
    ∙ ap
        (λ (m : ℕ).
          some (at (position + k + size) (bytes ++ take size (drop k chunk)) m, not (m == 0)))
        zero_left

-- More is wanted than the piece has.
pub out-goes_on :
    (position k : ℕ) (chunk bytes : List ℕ) (size : ℕ)
    → k ≤ length chunk
    → length chunk < k + size
    → out position chunk (at (position + k) bytes size)
      ≡ some
          (at (position + length chunk) (bytes ++ drop k chunk) (size - (length chunk - k)), true)
unfolding out
out-goes_on position k chunk bytes size le more =
    let left : (size - (length chunk - k) == 0) ≡ false = ground (arith, le, more) in
    let here : position + k + (length chunk - k) ≡ position + length chunk = omega (arith, le) in
    let whole : take (length chunk - k) (drop k chunk) ≡ drop k chunk =
      take_whole _ _ (omega (arith, length-drop k chunk)) in
    ap₂ (λ (s e : ℕ). copy_part s e chunk (at (position + k) bytes size))
      (start_of-at position k bytes size) (end_of-goes_on position k (length chunk) bytes size more)
    ∙ copy_part-at k (length chunk) chunk (position + k) bytes size le (omega (arith, le, more))
    ∙ ap₂
        (λ (o : ℕ) (b : Bool). some (
          at o (bytes ++ take (length chunk - k) (drop k chunk)) (size - (length chunk - k)),
          not b,
        ))
        here left
    ∙ ap
        (λ (t : List ℕ).
          some (at (position + length chunk) (bytes ++ t) (size - (length chunk - k)), true))
        whole
