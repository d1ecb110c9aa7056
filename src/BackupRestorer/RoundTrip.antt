-- ===== src/BackupRestorer/RoundTrip.antt =====
-- What `restoreToStdin` writes for a backup that was made by `backupFromFileHandle`.
use zbackup.Base.{
  ℕ, zero, suc, ◌+◌, ◌≤◌, ◌<◌, ◌≡◌, refl, ap, ◌∙◌, inl, inr, false, Option, none, some, List, [],
  ◌∷◌, ◌++◌, append-nil, append_assoc, arith, if◌then◌else◌, length, All, length-take,
}
use zbackup.Base.Bytes.{u32_mod, bytes_eq, bytes_eq_refl}
use mathlib.Core.Option
use mathlib.Core.Option.{some-injective}
use mathlib.Core.List.{flatten}
use zbackup.Base.{◌>>=◌}
use zbackup.ChunkId.{ChunkId, to_blob}
use zbackup.ChunkId.Blob.{of_blob-sized}
use zbackup.ChunkIndex.{BundleId}
use zbackup.ChunkStorage.{Writer}
use zbackup.ChunkStorage.Known.{IsKnown}
use zbackup.BackupCreator.{BackupInstruction, id_of}
use zbackup.BackupCreator.Pieces.{Emits, AllEmit, IsPiece}
use zbackup.BackupCreator.Ready.{id_of-crypto_hash, id_of-rolling_hash-lt}
use zbackup.Backup.Shrinking.{Restores, Unwinds}
use zbackup.BackupRestorer.{
  Outputs, save_data, insert_chunk, map_bytes, output_chunk, map_chunk, emit_id, restore_chunk,
  restore_bytes, restore_all, restore, to_string, result_of, restore_iterations, restore_to_stdin,
  fwrite, write_chunk, write_bytes, restore_stdout,
}

module _ (sha1 : List ℕ → List ℕ) (random : ℕ → List ℕ) (limit page_size max_size : ℕ)
    (serialize : List BackupInstruction → List ℕ) (sha256 : List ℕ → List ℕ) (page : 0 < page_size)
    (pos : 0 < max_size) (small : max_size + max_size < u32_mod) (le : max_size ≤ limit)
    -- SHA-1 has 20 bytes, and a stream of messages is read as it was written.
    (sha1_size : (bytes : List ℕ) → length (sha1 bytes) ≡ 20) (get : ChunkId → Option (List ℕ))
    (get_bundle_id : ChunkId → Option (BundleId × ℕ))
    (parse : List ℕ → Option (List BackupInstruction))
    (parse_serialize : (instrs : List BackupInstruction) → parse (serialize instrs) ≡ some instrs)
    (w : Writer) where
  -- The store gives the piece for its id, if the index knows the id.
  abbrev pub Recalls : List ℕ → Type 0
  Recalls p = IsKnown w.index (id_of sha1 random p) → get (id_of sha1 random p) ≡ some p

  -- A state that writes to a sink alone.
  plain : Option (List ChunkId) → List ℕ → Outputs
  plain chunk_set bytes = record {
    output = some bytes;
    chunk_set = chunk_set;
    chunk_map = none;
    seek_out = none;
    position = 0;
  }

  -- The chunk of a piece is emitted.
  restore_chunk-piece :
      (set_ : Option (List ChunkId)) (old p : List ℕ)
      → Recalls p
      → IsKnown w.index (id_of sha1 random p)
      → restore_chunk get get_bundle_id parse
          (some (to_blob (id_of sha1 random p)))
          (plain set_ old)
        ≡ some (plain (Option.map (λ ids. id_of sha1 random p ∷ ids) set_) (old ++ p))
  unfolding restore_chunk emit_id output_chunk map_chunk insert_chunk save_data plain
  restore_chunk-piece set_ old p recall known =
      rw
        (
          of_blob-sized (id_of sha1 random p)
              (ap length (id_of-crypto_hash sha1 random p)
                ∙ rw length-take (omega (arith, sha1_size p)))
              (id_of-rolling_hash-lt sha1 random p),
          recall known,
        )
        refl

  -- One instruction that stands for a piece.
  restore_all-piece :
      (i : BackupInstruction) (is : List BackupInstruction) (set_ : Option (List ChunkId))
      (old p : List ℕ)
      → Recalls p
      → Emits sha1 random w i p
      → (set' : Option (List ChunkId)) × (restore_all get get_bundle_id parse
            (i ∷ is)
            (plain set_ old)
          ≡ restore_all get get_bundle_id parse is (plain set' (old ++ p)))
  unfolding restore_all restore_chunk restore_bytes save_data map_bytes plain
  restore_all-piece i is set_ old p recall (inl e) = (
    set_,
    ap (λ (x : BackupInstruction). restore_all get get_bundle_id parse (x ∷ is) (plain set_ old)) e,
  )
  restore_all-piece i is set_ old p recall (inr (e, known)) = (
    Option.map (λ ids. id_of sha1 random p ∷ ids) set_,
    ap (λ (x : BackupInstruction). restore_all get get_bundle_id parse (x ∷ is) (plain set_ old)) e
        ∙ ap (λ (o : Option Outputs). o >>= (λ s'. restore_all get get_bundle_id parse is s'))
            (restore_chunk-piece set_ old p recall known),
  )

  restore_all-pieces :
      (is : List BackupInstruction) (ps : List (List ℕ)) (set_ : Option (List ChunkId))
      (old : List ℕ)
      → AllEmit sha1 random w is ps
      → All Recalls ps
      → (set' : Option (List ChunkId)) × (restore_all get get_bundle_id parse is (plain set_ old)
          ≡ some (plain set' (old ++ flatten ps)))
  unfolding flatten
  restore_all-pieces [] [] set_ old e h = (set_, unfold restore_all in rw append-nil refl)
  restore_all-pieces [] (p ∷ ps) set_ old e h = elim e [ ]
  restore_all-pieces (i ∷ is) [] set_ old e h = elim e [ ]
  restore_all-pieces (i ∷ is) (p ∷ ps) set_ old (e, es) (h, hs) =
      let (set₁, first) = restore_all-piece i is set_ old p h e in
      let (set₂, rest) = restore_all-pieces is ps set₁ (old ++ p) es hs in
      (
        set₂,
        first ∙ rest ∙ ap (λ (t : List ℕ). some (plain set₂ t)) (append_assoc old p (flatten ps)),
      )

  abbrev Packs : List ℕ → List ℕ → Type 0
  Packs bytes out =
      Restores sha1 random limit page_size max_size serialize sha256 page pos small le w bytes out

  restore-Packs :
      (bytes out : List ℕ) (set_ : Option (List ChunkId))
      → (r : Packs bytes out) → All Recalls r.pieces
      → (set' : Option (List ChunkId)) × (restore get get_bundle_id parse bytes
            (to_string get get_bundle_id parse set_)
          ≡ some (plain set' out))
  unfolding restore to_string plain
  restore-Packs bytes out set_ r recall =
      let (set', e) = restore_all-pieces r.instrs r.pieces set_ [] r.emits recall in
      (
        set',
        ap
              (λ (b : List ℕ). parse b >>= (λ is.
                restore_all get get_bundle_id parse is (to_string get get_bundle_id parse set_)))
              r.serialized
            ∙ ap
                (λ (o : Option (List BackupInstruction)). o >>= (λ is.
                  restore_all get get_bundle_id parse is (to_string get get_bundle_id parse set_)))
                (parse_serialize r.instrs)
            ∙ e
            ∙ ap (λ (t : List ℕ). some (plain set' t)) r.whole,
      )

  abbrev pub UnwindsIn : ℕ → List ℕ → List ℕ → Type 0
  UnwindsIn n bytes input =
      Unwinds sha1 random limit page_size max_size serialize sha256 page pos small le n w bytes
        input

  -- A property of all pieces of all rounds.
  abbrev pub AllPieces :
      (List ℕ → Type 0) → (n : ℕ) → (bytes input : List ℕ) → UnwindsIn n bytes input → Type 0
  AllPieces P zero bytes input r = All P r.pieces
  AllPieces P (suc n) bytes input (out, r, u) = All P r.pieces × AllPieces P n out input u

  -- Unpacking as often as was packed leaves data that hold the input.
  restore_iterations-Unwinds :
      (n : ℕ) (bytes input : List ℕ) (set_ : Option (List ChunkId)) (u : UnwindsIn n bytes input)
      → AllPieces Recalls n bytes input u
      → (last : List ℕ) × (set' : Option (List ChunkId)) × (restore_iterations get get_bundle_id
            parse n bytes set_
          ≡ some (last, set'))
        × (r : Packs last input) × All Recalls r.pieces
  unfolding restore_iterations plain result_of
  restore_iterations-Unwinds zero bytes input set_ u recall = (bytes, set_, refl, u, recall)
  restore_iterations-Unwinds (suc n) bytes input set_ (out, r, u) (recall, more) =
      let (set₁, first) = restore-Packs bytes out set_ r recall in
      let (last, set₂, rest, p, after) = restore_iterations-Unwinds n out input set₁ u more in
      (
        last,
        set₂,
        ap
              (λ (o : Option Outputs). o >>= (λ s.
                restore_iterations get get_bundle_id parse n
                  (result_of get get_bundle_id parse s.output) s.chunk_set))
              first
            ∙ rest,
        p,
        after,
      )

  fwrite-piece :
      (old p : List ℕ) → 0 < length p → fwrite get get_bundle_id parse old p ≡ some (old ++ p)
  unfolding fwrite
  fwrite-piece old [] pos = absurd (omega arith)
  fwrite-piece old (b ∷ p) pos = refl

  write_chunk-piece :
      (old p : List ℕ)
      → IsPiece limit p
      → Recalls p
      → IsKnown w.index (id_of sha1 random p)
      → write_chunk get get_bundle_id parse (some (to_blob (id_of sha1 random p))) old
        ≡ some (old ++ p)
  unfolding write_chunk
  write_chunk-piece old p piece recall known =
      rw
        (
          of_blob-sized (id_of sha1 random p)
              (ap length (id_of-crypto_hash sha1 random p)
                ∙ rw length-take (omega (arith, sha1_size p)))
              (id_of-rolling_hash-lt sha1 random p),
          recall known,
        )
        (fwrite-piece old p piece.0)

  restore_stdout-piece :
      (i : BackupInstruction) (is : List BackupInstruction) (old p : List ℕ)
      → IsPiece limit p
      → Recalls p
      → Emits sha1 random w i p
      → restore_stdout get get_bundle_id parse (i ∷ is) old
        ≡ restore_stdout get get_bundle_id parse is (old ++ p)
  unfolding restore_stdout write_bytes write_chunk
  restore_stdout-piece i is old p piece recall (inl e) =
      ap (λ (x : BackupInstruction). restore_stdout get get_bundle_id parse (x ∷ is) old) e
      ∙ ap (λ (o : Option (List ℕ)). o >>= (λ out. restore_stdout get get_bundle_id parse is out))
          (fwrite-piece old p piece.0)
  restore_stdout-piece i is old p piece recall (inr (e, known)) =
      ap (λ (x : BackupInstruction). restore_stdout get get_bundle_id parse (x ∷ is) old) e
      ∙ ap (λ (o : Option (List ℕ)). o >>= (λ out. restore_stdout get get_bundle_id parse is out))
          (write_chunk-piece old p piece recall known)

  -- Every write is of some bytes, so none fails.
  restore_stdout-pieces :
      (is : List BackupInstruction) (ps : List (List ℕ)) (old : List ℕ)
      → AllEmit sha1 random w is ps
      → All (IsPiece limit) ps
      → All Recalls ps
      → restore_stdout get get_bundle_id parse is old ≡ some (old ++ flatten ps)
  unfolding flatten
  restore_stdout-pieces [] [] old e h r = unfold restore_stdout in rw append-nil refl
  restore_stdout-pieces [] (p ∷ ps) old e h r = elim e [ ]
  restore_stdout-pieces (i ∷ is) [] old e h r = elim e [ ]
  restore_stdout-pieces (i ∷ is) (p ∷ ps) old (e, es) (h, hs) (r, rs) =
      restore_stdout-piece i is old p h r e
      ∙ restore_stdout-pieces is ps (old ++ p) es hs rs
      ∙ ap (λ (t : List ℕ). some t) (append_assoc old p (flatten ps))

  -- A backup that unpacks to `input` is written to the standard output as `input`, and its checksum is
  -- accepted, if it is not a terminal and the store gives each piece of the backup whose id the index knows for that id. A SHA-1
  -- has 20 bytes, and a stream of messages is read as it was written.
  pub restore_to_stdin-Unwinds :
      (n : ℕ) (bytes input : List ℕ) (u : UnwindsIn n bytes input)
      → AllPieces Recalls n bytes input u
      → restore_to_stdin get get_bundle_id parse sha256 false (sha256 input) n bytes ≡ some input
  unfolding restore_to_stdin
  restore_to_stdin-Unwinds n bytes input u recall =
      let (last, set₁, first, p, more) = restore_iterations-Unwinds n bytes input none u recall in
      ap
        (λ (o : Option (List ℕ × Option (List ChunkId))).
          o
          >>= (λ r. parse r.0 >>= (λ is. restore_stdout get get_bundle_id parse is [] >>= written)))
        first
      ∙ ap
          (λ (b : List ℕ).
            parse b >>= (λ is. restore_stdout get get_bundle_id parse is [] >>= written))
          p.serialized
      ∙ ap
          (λ (o : Option (List BackupInstruction)).
            o >>= (λ is. restore_stdout get get_bundle_id parse is [] >>= written))
          (parse_serialize p.instrs)
      ∙ ap (λ (o : Option (List ℕ)). o >>= written)
          (restore_stdout-pieces p.instrs p.pieces [] p.emits p.sizes more ∙ ap some p.whole)
      ∙ (rw bytes_eq_refl refl)
    where
      written : List ℕ → Option (List ℕ)
      written out = if bytes_eq (sha256 out) (sha256 input) then some out else none
