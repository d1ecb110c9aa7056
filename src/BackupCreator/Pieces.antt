-- ===== src/BackupCreator/Pieces.antt =====
-- What the instructions stand for: the pieces of the input, each as bytes or as the id of a chunk.
use zbackup.Base.{
  ℕ, ◌≤◌, ◌<◌, ◌≡◌, ap, ◌⊎◌, inl, inr, List, [], ◌∷◌, ◌++◌, append-nil, append_assoc, length,
}
use mathlib.Core.List.{flatten}
use zbackup.ChunkId.{ChunkId}
use zbackup.ChunkStorage.{Writer}
use zbackup.ChunkStorage.Known.{IsKnown}
use zbackup.BackupCreator.{BackupInstruction, emit_bytes, emit_chunk, id_of}

module _ (sha1 : List ℕ → List ℕ) (random : ℕ → List ℕ) where
  -- The instruction gives the piece itself, or the id of the piece, which the index knows.
  abbrev pub Emits : Writer → BackupInstruction → List ℕ → Type 0
  Emits w i piece =
      (i ≡ emit_bytes piece)
      ⊎ ((i ≡ emit_chunk (id_of sha1 random piece)) × IsKnown w.index (id_of sha1 random piece))

  abbrev pub AllEmit : Writer → List BackupInstruction → List (List ℕ) → Type 0
  AllEmit w [] [] = Unit {0}
  AllEmit w [] (p ∷ ps) = ⊥
  AllEmit w (i ∷ is) [] = ⊥
  AllEmit w (i ∷ is) (p ∷ ps) = Emits w i p × AllEmit w is ps

  -- Every id that `v` knows is known to `w`.
  abbrev pub Keeps : Writer → Writer → Type 0
  Keeps v w = (q : ChunkId) → IsKnown v.index q → IsKnown w.index q

  Emits-Keeps :
      (v w : Writer) → Keeps v w → (i : BackupInstruction) (p : List ℕ) → Emits v i p → Emits w i p
  Emits-Keeps v w k i p (inl e) = inl e
  Emits-Keeps v w k i p (inr (e, known)) = inr (e, k _ known)

  pub AllEmit-snoc :
      (v w : Writer) (is : List BackupInstruction) (ps : List (List ℕ)) (i : BackupInstruction)
      (p : List ℕ)
      → Keeps v w
      → AllEmit v is ps
      → Emits w i p
      → AllEmit w (is ++ (i ∷ [])) (ps ++ (p ∷ []))
  AllEmit-snoc v w [] [] i p k h e = (e, tt)
  AllEmit-snoc v w [] (q ∷ ps) i p k h e = elim h [ ]
  AllEmit-snoc v w (j ∷ is) [] i p k h e = elim h [ ]
  AllEmit-snoc v w (j ∷ is) (q ∷ ps) i p k (here, h) e =
      (Emits-Keeps v w k j q here, AllEmit-snoc v w is ps i p k h e)

-- A piece is not empty, and no longer than a chunk may be.
abbrev pub IsPiece : ℕ → List ℕ → Type 0
IsPiece limit p = (0 < length p) × (length p ≤ limit)

pub flatten-snoc : (ps : List (List ℕ)) (p : List ℕ) → flatten (ps ++ (p ∷ [])) ≡ flatten ps ++ p
unfolding flatten
flatten-snoc [] p = rw append-nil
flatten-snoc (q ∷ ps) p = rw append_assoc (ap (λ (t : List ℕ). q ++ t) (flatten-snoc ps p))
