-- ===== src/BackupRestorer/Indexed/Finding.antt =====
-- The instructions with their positions, and the one where an offset lies.
use zbackup.Base.{
  ℕ, zero, suc, ◌+◌, ◌-◌, ◌≤◌, ◌<◌, ◌≡◌, refl, sym, ap, ◌∙◌, Option, none, some, List, [], ◌∷◌,
  ◌++◌, arith, ltb, if_true, if_false, length, drop, length-append, Bool-cases, ◌>>=◌, inl, inr,
}
use zbackup.ChunkId.{ChunkId, of_blob}
use zbackup.ChunkIndex.{BundleId}
use zbackup.BackupCreator.{BackupInstruction}
use zbackup.BackupRestorer.Indexed.{behind_chunk, behind_bytes, index_all, find_start}

module _ (get : ChunkId → Option (List ℕ)) where
  -- The instruction stands for the piece: it has bytes or a chunk, and not both.
  pub data Gives (instr : BackupInstruction) (piece : List ℕ) : Type 0 where
    nothing :
        instr.chunk_to_emit ≡ none → instr.bytes_to_emit ≡ none → piece ≡ [] → Gives instr piece
    some_bytes : instr.chunk_to_emit ≡ none → instr.bytes_to_emit ≡ some piece → Gives instr piece
    chunk :
        (blob : List ℕ) (id : ChunkId)
        → instr.chunk_to_emit ≡ some blob
        → instr.bytes_to_emit ≡ none
        → of_blob blob ≡ some id
        → get id ≡ some piece
        → Gives instr piece

  abbrev pub AllGive : List BackupInstruction → List (List ℕ) → Type 0
  AllGive [] [] = Unit {0}
  AllGive [] (piece ∷ pieces) = ⊥
  AllGive (instr ∷ instrs) [] = ⊥
  AllGive (instr ∷ instrs) (piece ∷ pieces) = Gives instr piece × AllGive instrs pieces

abbrev pub concat : List (List ℕ) → List ℕ
concat [] = []
concat (piece ∷ pieces) = piece ++ concat pieces

abbrev pub index_of : List BackupInstruction → List (List ℕ) → ℕ → List (ℕ × BackupInstruction)
index_of [] pieces position = []
index_of (instr ∷ instrs) [] position = []
index_of (instr ∷ instrs) (piece ∷ pieces) position =
    (position, instr) ∷ index_of instrs pieces (position + length piece)

-- The offset is in the first piece, or at its end.
abbrev pub IsWithin : ℕ → List (List ℕ) → Type 0
IsWithin k [] = ⊥
IsWithin k (piece ∷ pieces) = k ≤ length piece

module _ (get : ChunkId → Option (List ℕ)) (get_bundle_id : ChunkId → Option (BundleId × ℕ))
    (parse : List ℕ → Option (List BackupInstruction))
    (sized : (id : ChunkId) (chunk : List ℕ)
      → get id ≡ some chunk
      → (bundle_id : BundleId) × (get_bundle_id id ≡ some (bundle_id, length chunk))) where
  behind-Gives :
      (instr : BackupInstruction) (piece : List ℕ) (position : ℕ)
      → Gives get instr piece
      → (next : ℕ) × (behind_chunk get get_bundle_id parse instr.chunk_to_emit position ≡ some next)
        × (behind_bytes get get_bundle_id parse instr.bytes_to_emit next ≡ position + length piece)
  unfolding behind_chunk behind_bytes
  behind-Gives instr piece position (nothing c b e) = (position, rw c refl, rw (b, e) (omega arith))
  behind-Gives instr piece position (some_bytes c b) = (position, rw c refl, rw b refl)
  behind-Gives instr piece position (chunk blob id c b good got) =
      let (bundle_id, found) = sized id piece got in
      (position + length piece, rw (c, good, found) refl, rw b refl)

  -- The constructor's loop gives every instruction its position.
  pub index_all-Gives :
      (instrs : List BackupInstruction) (pieces : List (List ℕ)) (position : ℕ)
      → AllGive get instrs pieces
      → index_all get get_bundle_id parse instrs position
        ≡ some (index_of instrs pieces position, position + length (concat pieces))
  unfolding index_all
  index_all-Gives [] [] position h = ap (λ (n : ℕ). some ([], n)) (omega arith)
  index_all-Gives [] (piece ∷ pieces) position h = absurd h
  index_all-Gives (instr ∷ instrs) [] position h = absurd h
  index_all-Gives (instr ∷ instrs) (piece ∷ pieces) position (first, h) =
      let (next, made, behind) = behind-Gives instr piece position first in
      ap
        (λ (o : Option ℕ). o >>= λ (n : ℕ).
          index_all get get_bundle_id parse instrs
            (behind_bytes get get_bundle_id parse instr.bytes_to_emit n)
          >>= λ (r : List (ℕ × BackupInstruction) × ℕ). some ((position, instr) ∷ r.0, r.1))
        made
      ∙ ap
          (λ (n : ℕ).
            index_all get get_bundle_id parse instrs n >>= λ (r : List (ℕ × BackupInstruction) × ℕ).
            some ((position, instr) ∷ r.0, r.1))
          behind
      ∙ ap
          (λ (o : Option (List (ℕ × BackupInstruction) × ℕ)).
            o >>= λ (r : List (ℕ × BackupInstruction) × ℕ). some ((position, instr) ∷ r.0, r.1))
          (index_all-Gives instrs pieces (position + length piece) h)
      ∙ ap
          (λ (n : ℕ).
            some ((position, instr) ∷ index_of instrs pieces (position + length piece), n))
          (omega (arith, length-append piece (concat pieces)))

drop_behind : (xs ys : List ℕ) (k : ℕ) → length xs ≤ k → drop k (xs ++ ys) ≡ drop (k - length xs) ys
drop_behind [] ys k le = ap (λ (n : ℕ). drop n ys) (omega arith)
drop_behind (x ∷ xs) ys zero le = absurd (omega (arith, le))
drop_behind (x ∷ xs) ys (suc k) le =
    drop_behind xs ys k (omega (arith, le)) ∙ ap (λ (n : ℕ). drop n ys) (omega arith)

-- The search finds the instruction whose piece has the byte at the offset, with all that follow.
pub find_start-IsWithin :
    (get : ChunkId → Option (List ℕ)) (instrs : List BackupInstruction) (pieces : List (List ℕ))
    (position k : ℕ)
    → AllGive get instrs pieces
    → k < length (concat pieces)
    → (instrs' : List BackupInstruction) × (pieces' : List (List ℕ)) × (position' : ℕ) × (k' : ℕ)
      × (find_start (position + k) (index_of instrs pieces position)
          ≡ index_of instrs' pieces' position')
      × (position' + k' ≡ position + k)
      × IsWithin k' pieces'
      × (drop k (concat pieces) ≡ drop k' (concat pieces'))
      × AllGive get instrs' pieces'
unfolding find_start
find_start-IsWithin get [] [] position k h lt = absurd (omega (arith, lt))
find_start-IsWithin get [] (piece ∷ pieces) position k h lt = absurd h
find_start-IsWithin get (instr ∷ instrs) [] position k h lt = absurd h
find_start-IsWithin get (instr ∷ []) (piece ∷ []) position k h lt = (
  instr ∷ [],
  piece ∷ [],
  position,
  k,
  refl,
  refl,
  omega (arith, lt, length-append piece []),
  refl,
  h,
)
find_start-IsWithin get (instr ∷ []) (piece ∷ next ∷ pieces) position k (first, h) lt = absurd h
find_start-IsWithin get (instr ∷ second ∷ instrs) (piece ∷ []) position k (first, h) lt = absurd h
find_start-IsWithin get (instr ∷ second ∷ instrs) (piece ∷ next ∷ pieces) position k (first, h) lt =
    elim (Bool-cases (ltb (position + k) (position + length piece))) [
      | inl here ↦ (
        instr ∷ second ∷ instrs,
        piece ∷ next ∷ pieces,
        position,
        k,
        if_true _ _ here,
        refl,
        ground (arith, here),
        refl,
        (first, h),
      )
      | inr later ↦
          let le : length piece ≤ k = ground (arith, later) in
          let (instrs', pieces', position', k', found, same, within, dropped, gives) =
            find_start-IsWithin get (second ∷ instrs) (next ∷ pieces) (position + length piece)
              (k - length piece) h
              (omega (arith, le, lt, length-append piece (concat (next ∷ pieces)))) in
          let offset : position + length piece + (k - length piece) ≡ position + k =
            omega (arith, le) in
          (
            instrs',
            pieces',
            position',
            k',
            if_false _ _ later
                ∙ ap
                    (λ (n : ℕ).
                      find_start n
                        (index_of (second ∷ instrs) (next ∷ pieces) (position + length piece)))
                    (sym offset)
                ∙ found,
            same ∙ offset,
            within,
            drop_behind piece (concat (next ∷ pieces)) k le ∙ dropped,
            gives,
          )
    ]
