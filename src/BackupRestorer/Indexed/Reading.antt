-- ===== src/BackupRestorer/Indexed/Reading.antt =====
-- The loop of `saveData` from an instruction on.
use zbackup.Base.{
  ℕ, zero, suc, ◌+◌, ◌-◌, ◌≤◌, ◌<◌, ◌≡◌, refl, sym, ap, ap₂, ◌∙◌, true, false, Option, none, some,
  List, [], ◌∷◌, ◌++◌, arith, leb, ◌==◌, ==_iff, if_true, length, take, drop, length-append,
  length-drop, append-nil, append_assoc, Bool-cases, inl, inr, take_whole,
}
use zbackup.ChunkId.{ChunkId, of_blob}
use zbackup.ChunkIndex.{BundleId}
use zbackup.BackupCreator.{BackupInstruction}
use zbackup.BackupRestorer.Indexed.{
  Outputer, out, advance, save_bytes, save_chunk, save_step, save_loop,
}
use zbackup.BackupRestorer.Indexed.Outputting.{at, out-ends, out-goes_on}
use zbackup.BackupRestorer.Indexed.Finding.{
  nothing, some_bytes, chunk, AllGive, concat, index_of, IsWithin,
}

drop-front : (xs ys : List ℕ) (k : ℕ) → k ≤ length xs → drop k (xs ++ ys) ≡ drop k xs ++ ys
drop-front xs ys zero le = refl
drop-front [] ys (suc k) le = absurd (omega (arith, le))
drop-front (x ∷ xs) ys (suc k) le = drop-front xs ys k (omega (arith, le))

take-both : (xs ys : List ℕ) (n : ℕ) → take n (xs ++ ys) ≡ take n xs ++ take (n - length xs) ys
take-both xs ys zero =
    let none_left : 0 - length xs ≡ 0 = omega arith in sym (ap (λ (n : ℕ). take n ys) none_left)
take-both [] ys (suc n) =
    let same : suc n ≡ suc n - 0 = omega arith in ap (λ (m : ℕ). take m ys) same
take-both (x ∷ xs) ys (suc n) =
    let same : n - length xs ≡ suc n - suc (length xs) = omega arith in
    ap (λ (t : List ℕ). x ∷ t) (take-both xs ys n ∙ ap (λ (m : ℕ). take n xs ++ take m ys) same)

part-ends :
    (xs ys : List ℕ) (k size : ℕ)
    → k + size ≤ length xs
    → take size (drop k (xs ++ ys)) ≡ take size (drop k xs)
part-ends xs ys k size le =
    let none_left : size - length (drop k xs) ≡ 0 = omega (arith, length-drop k xs, le) in
    ap (take size) (drop-front xs ys k (omega (arith, le)))
    ∙ take-both (drop k xs) ys size
    ∙ ap (λ (n : ℕ). take size (drop k xs) ++ take n ys) none_left
    ∙ append-nil (take size (drop k xs))

part-goes_on :
    (xs ys : List ℕ) (k size : ℕ)
    → k ≤ length xs
    → length xs < k + size
    → take size (drop k (xs ++ ys)) ≡ drop k xs ++ take (size - (length xs - k)) ys
part-goes_on xs ys k size le more =
    ap (take size) (drop-front xs ys k le)
    ∙ take-both (drop k xs) ys size
    ∙ ap₂ (λ (t : List ℕ) (n : ℕ). t ++ take n ys)
        (take_whole size (drop k xs) (omega (arith, length-drop k xs, more)))
        (ap (λ (n : ℕ). size - n) (length-drop k xs))

starts-IsWithin : (pieces : List (List ℕ)) → 0 < length (concat pieces) → IsWithin 0 pieces
starts-IsWithin [] lt = absurd (omega (arith, lt))
starts-IsWithin (piece ∷ pieces) lt = omega arith

module _ (get : ChunkId → Option (List ℕ)) (get_bundle_id : ChunkId → Option (BundleId × ℕ))
    (parse : List ℕ → Option (List BackupInstruction)) where
  -- What an instruction does with its piece.
  record Steps (rest : ℕ → Outputer → Option Outputer) (instr : BackupInstruction) (piece : List ℕ)
      (position : ℕ) (o : Outputer) : Type 0 where
    ends :
        (o' : Outputer)
        → out position piece o ≡ some (o', false)
        → save_step get get_bundle_id parse rest instr position o ≡ some o'
    goes_on :
        (o' : Outputer)
        → out position piece o ≡ some (o', true)
        → save_step get get_bundle_id parse rest instr position o
          ≡ rest (position + length piece) o'

  bytes-Steps :
      (rest : ℕ → Outputer → Option Outputer) (instr : BackupInstruction) (piece : List ℕ)
      (position : ℕ) (o : Outputer)
      → instr.chunk_to_emit ≡ none
      → instr.bytes_to_emit ≡ some piece
      → Steps rest instr piece position o
  unfolding save_step save_chunk save_bytes advance
  bytes-Steps rest instr piece position o c b = record {
    ends = λ o' e. rw (c, b, e) refl;
    goes_on = λ o' e. rw (c, b, e) refl;
  }

  chunk-Steps :
      (rest : ℕ → Outputer → Option Outputer) (instr : BackupInstruction) (piece : List ℕ)
      (position : ℕ) (o : Outputer) (blob : List ℕ) (id : ChunkId)
      → instr.chunk_to_emit ≡ some blob
      → instr.bytes_to_emit ≡ none
      → of_blob blob ≡ some id
      → get id ≡ some piece
      → Steps rest instr piece position o
  unfolding save_step save_chunk save_bytes advance
  chunk-Steps rest instr piece position o blob id c b good got = record {
    ends = λ o' e. rw (c, good, got, e) refl;
    goes_on = λ o' e. rw (c, good, got, e, b) refl;
  }

  -- The loop has read the part, from an offset in the first piece.
  abbrev pub Reads : List BackupInstruction → List (List ℕ) → ℕ → ℕ → List ℕ → ℕ → Type 0
  Reads instrs pieces position k bytes size =
      (o : Outputer) × (save_loop get get_bundle_id parse (index_of instrs pieces position) position
          (at (position + k) bytes size)
        ≡ some o)
      × (o.data_ ≡ bytes ++ take size (drop k (concat pieces)))

  step-Reads :
      (instr : BackupInstruction) (instrs : List BackupInstruction) (piece : List ℕ)
      (pieces : List (List ℕ)) (position k : ℕ) (bytes : List ℕ) (size : ℕ)
      → Steps
          (save_loop get get_bundle_id parse (index_of instrs pieces (position + length piece)))
          instr
          piece
          position
          (at (position + k) bytes size)
      → k ≤ length piece
      → k + size ≤ length (concat (piece ∷ pieces))
      → ((more : List ℕ) (left : ℕ)
          → 0 < left
          → left ≤ length (concat pieces)
          → Reads instrs pieces (position + length piece) 0 more left)
      → Reads (instr ∷ instrs) (piece ∷ pieces) position k bytes size
  unfolding save_loop
  step-Reads instr instrs piece pieces position k bytes size steps le fits rest =
      let self : (position == position) ≡ true = (==_iff position position).1 refl in
      elim (Bool-cases (leb (k + size) (length piece))) [
        | inl enough ↦
            let ends : k + size ≤ length piece = ground (arith, enough) in
            (
              _,
              if_true _ _ self ∙ steps.ends _ (out-ends position k piece bytes size ends),
              ap (λ (t : List ℕ). bytes ++ t) (sym (part-ends piece (concat pieces) k size ends)),
            )
        | inr short ↦
            let more : length piece < k + size = ground (arith, short) in
            let (o, made, got) =
              rest (bytes ++ drop k piece) (size - (length piece - k)) (omega (arith, le, more))
                (omega (arith, le, more, fits, length-append piece (concat pieces))) in
            (
              o,
              if_true _ _ self
                  ∙ steps.goes_on _ (out-goes_on position k piece bytes size le more)
                  ∙ ap
                      (λ (n : ℕ).
                        save_loop get get_bundle_id parse
                          (index_of instrs pieces (position + length piece))
                          (position + length piece)
                          (at n (bytes ++ drop k piece) (size - (length piece - k))))
                      (omega arith)
                  ∙ made,
              got
                  ∙ append_assoc bytes (drop k piece) _
                  ∙ ap (λ (t : List ℕ). bytes ++ t)
                      (sym (part-goes_on piece (concat pieces) k size le more)),
            )
      ]

  -- An instruction for no bytes is passed over.
  nothing-Reads :
      (instr : BackupInstruction) (instrs : List BackupInstruction) (piece : List ℕ)
      (pieces : List (List ℕ)) (position k : ℕ) (bytes : List ℕ) (size : ℕ)
      → instr.chunk_to_emit ≡ none
      → instr.bytes_to_emit ≡ none
      → piece ≡ []
      → position ≡ position + length piece
      → Reads instrs pieces (position + length piece) 0 bytes size
      → k ≡ 0
      → Reads (instr ∷ instrs) (piece ∷ pieces) position k bytes size
  unfolding save_loop save_step save_chunk save_bytes
  nothing-Reads instr instrs piece pieces position k bytes size c b e here (o, made, got) k_zero =
      let self : (position == position) ≡ true = (==_iff position position).1 refl in
      let rest =
        save_loop get get_bundle_id parse (index_of instrs pieces (position + length piece)) in
      let passed : save_step get get_bundle_id parse rest instr position
            (at (position + k) bytes size)
          ≡ rest position (at (position + k) bytes size) =
        rw (c, b) refl in
      (
        o,
        if_true _ _ self
            ∙ passed
            ∙ ap₂
                (λ (p n : ℕ).
                  save_loop get get_bundle_id parse
                    (index_of instrs pieces (position + length piece)) p (at n bytes size))
                here (omega (arith, here, k_zero))
            ∙ made,
        got
            ∙ ap₂ (λ (t : List ℕ) (n : ℕ). bytes ++ take size (drop n (t ++ concat pieces))) (sym e)
                (sym k_zero),
      )

  pub save_loop-Reads :
      (instrs : List BackupInstruction) (pieces : List (List ℕ)) (position k : ℕ) (bytes : List ℕ)
      (size : ℕ)
      → AllGive get instrs pieces
      → IsWithin k pieces
      → 0 < size
      → k + size ≤ length (concat pieces)
      → Reads instrs pieces position k bytes size
  save_loop-Reads [] [] position k bytes size h within more fits = absurd within
  save_loop-Reads [] (piece ∷ pieces) position k bytes size h within more fits = absurd h
  save_loop-Reads (instr ∷ instrs) [] position k bytes size h within more fits = absurd h
  save_loop-Reads (instr ∷ instrs) (piece ∷ pieces) position k bytes size (some_bytes c b, h) within
        more fits =
      step-Reads instr instrs piece pieces position k bytes size
        (bytes-Steps _ instr piece position _ c b) within fits
        (λ old left some_left le.
          save_loop-Reads instrs pieces (position + length piece) 0 old left h
            (starts-IsWithin pieces (omega (arith, some_left, le))) some_left (omega (arith, le)))
  save_loop-Reads (instr ∷ instrs) (piece ∷ pieces) position k bytes size
        (chunk blob id c b good got, h) within more fits =
      step-Reads instr instrs piece pieces position k bytes size
        (chunk-Steps _ instr piece position _ blob id c b good got) within fits
        (λ old left some_left le.
          save_loop-Reads instrs pieces (position + length piece) 0 old left h
            (starts-IsWithin pieces (omega (arith, some_left, le))) some_left (omega (arith, le)))
  save_loop-Reads (instr ∷ instrs) (piece ∷ pieces) position k bytes size (nothing c b e, h) within
        more fits =
      let k_zero : k ≡ 0 = omega (arith, within, ap length e) in
      let size_fits : size ≤ length (concat pieces) =
        omega (arith, fits, length-append piece (concat pieces), ap length e) in
      let here : position ≡ position + length piece = omega (arith, ap length e) in
      nothing-Reads instr instrs piece pieces position k bytes size c b e here
        (save_loop-Reads instrs pieces (position + length piece) 0 bytes size h
          (starts-IsWithin pieces (omega (arith, more, size_fits))) more (omega (arith, size_fits)))
        k_zero
