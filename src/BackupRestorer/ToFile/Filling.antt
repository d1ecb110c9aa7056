-- ===== src/BackupRestorer/ToFile/Filling.antt =====
-- The instructions are executed with a map to fill, beside the run that writes to a sink.
use zbackup.Base.{
  ℕ, ◌<◌, ◌≡◌, refl, sym, ap, ◌∙◌, ◌⊎◌, inl, inr, Option, none, some, List, [], ◌∷◌, ◌++◌, arith,
  length, All, All-append, length-append, Bool-cases, ltb, ◌>>=◌, Option-cases,
}
use zbackup.ChunkId.{ChunkId, of_blob}
use zbackup.ChunkIndex.{BundleId}
use zbackup.BackupCreator.{BackupInstruction}
use zbackup.BackupRestorer.{
  ChunkPosition, ChunkMap, Outputs, push_position, save_data, insert_chunk, seek_bytes, map_bytes,
  output_chunk, map_chunk, emit_id, restore_chunk, restore_bytes, restore_all,
}
use zbackup.BackupRestorer.ToFile.Writes.{Any, IsPart, IsIn}
use zbackup.BackupRestorer.ToFile.Covering.{
  AllOf, AnyOf, Any-append_left, Any-append_right, IsPart-append, IsPart-new, push_position-AllOf,
  push_position-AnyOf_new, push_position-AnyOf_old,
}

-- The two states: one that writes to a sink, and one that fills a map.
abbrev pub plain : List ℕ → Outputs
plain old = record {
  output = some old;
  chunk_set = none;
  chunk_map = none;
  seek_out = none;
  position = 0;
}

abbrev pub filling : ChunkMap → List (ℕ × List ℕ) → ℕ → Outputs
filling m writes position = record {
  output = none;
  chunk_set = none;
  chunk_map = some m;
  seek_out = some writes;
  position = position;
}

-- The index knows the size of every chunk that can be got.
module _ (get : ChunkId → Option (List ℕ)) (get_bundle_id : ChunkId → Option (BundleId × ℕ))
    (parse : List ℕ → Option (List BackupInstruction))
    (sized : (id : ChunkId) (chunk : List ℕ)
      → get id ≡ some chunk
      → (bundle_id : BundleId) × (get_bundle_id id ≡ some (bundle_id, length chunk))) where
  abbrev pub IsChunk : List ℕ → ChunkId × ℕ → Type 0
  IsChunk old (id, position) =
      (chunk : List ℕ) × (get id ≡ some chunk) × IsPart old (position, chunk)

  abbrev pub HasByte : ℕ → ChunkId × ℕ → Type 0
  HasByte i (id, position) = (chunk : List ℕ) × (get id ≡ some chunk) × IsIn i (position, chunk)

  -- The map and the writes are parts of the data, and all of them.
  pub record Covers (old : List ℕ) (m : ChunkMap) (writes : List (ℕ × List ℕ)) : Type 0 where
    pub parts : All (IsPart old) writes
    pub chunks : AllOf (IsChunk old) m
    pub all : (i : ℕ) → i < length old → Any (IsIn i) writes ⊎ AnyOf (HasByte i) m

  pub parts-append :
      (old more : List ℕ) (writes : List (ℕ × List ℕ))
      → All (IsPart old) writes
      → All (IsPart (old ++ more)) writes
  parts-append old more [] h = tt
  parts-append old more (w ∷ writes) (p, h) =
      (IsPart-append old more w p, parts-append old more writes h)

  chunks-append :
      (old more : List ℕ) (m : ChunkMap) → AllOf (IsChunk old) m → AllOf (IsChunk (old ++ more)) m
  chunks-append old more [] h = tt
  chunks-append old more ((key, positions) ∷ m) (here, there) =
      (positions-append positions here, chunks-append old more m there)
    where
      positions-append :
          (positions : ChunkPosition)
          → All (IsChunk old) positions
          → All (IsChunk (old ++ more)) positions
      positions-append [] h = tt
      positions-append ((id, position) ∷ positions) ((chunk, got, part), h) = (
        (chunk, got, IsPart-append old more (position, chunk) part),
        positions-append positions h,
      )

  place :
      (i : ℕ) (old more : List ℕ)
      → i < length (old ++ more)
      → (i < length old) ⊎ IsIn i (length old, more)
  place i old more lt = elim (Bool-cases (ltb i (length old))) [
    | inl low ↦ inl (ground (arith, low))
    | inr high ↦ inr (ground (arith, high), omega (arith, lt, length-append old more))
  ]

  Covers-chunk :
      (old : List ℕ) (m : ChunkMap) (writes : List (ℕ × List ℕ)) (id : ChunkId) (chunk : List ℕ)
      (bundle_id : BundleId)
      → get id ≡ some chunk
      → Covers old m writes
      → Covers (old ++ chunk) (push_position bundle_id (id, length old) m) writes
  Covers-chunk old m writes id chunk bundle_id got h = record {
    parts = parts-append old chunk writes h.parts;
    chunks =
        push_position-AllOf (IsChunk (old ++ chunk)) bundle_id (id, length old) m
          (chunk, got, IsPart-new old chunk) (chunks-append old chunk m h.chunks);
    all = λ i lt. elim (place i old chunk lt) [
      | inl before ↦ elim (h.all i before) [
        | inl here ↦ inl here
        | inr there ↦ inr (push_position-AnyOf_old (HasByte i) bundle_id (id, length old) m there)
      ]
      | inr inside ↦
          inr
            (push_position-AnyOf_new (HasByte i) bundle_id (id, length old) m (chunk, got, inside))
    ];
  }

  Covers-bytes :
      (old : List ℕ) (m : ChunkMap) (writes : List (ℕ × List ℕ)) (bytes : List ℕ)
      → Covers old m writes
      → Covers (old ++ bytes) m (writes ++ ((length old, bytes) ∷ []))
  Covers-bytes old m writes bytes h = record {
    parts =
        All-append (IsPart (old ++ bytes)) writes _ (parts-append old bytes writes h.parts)
          (IsPart-new old bytes, tt);
    chunks = chunks-append old bytes m h.chunks;
    all = λ i lt. elim (place i old bytes lt) [
      | inl before ↦ elim (h.all i before) [
        | inl here ↦ inl (Any-append_left (IsIn i) writes _ here)
        | inr there ↦ inr there
      ]
      | inr inside ↦ inl (Any-append_right (IsIn i) writes _ (inl inside))
    ];
  }

  restore_chunk-Covers :
      (field : Option (List ℕ)) (old : List ℕ) (m : ChunkMap) (writes : List (ℕ × List ℕ))
      → Covers old m writes
      → (restore_chunk get get_bundle_id parse field (plain old) ≡ none)
        ⊎ ((old' : List ℕ) × (m' : ChunkMap) × (restore_chunk get get_bundle_id parse field
                (plain old)
              ≡ some (plain old'))
            × (restore_chunk get get_bundle_id parse field (filling m writes (length old))
                ≡ some (filling m' writes (length old')))
            × Covers old' m' writes)
  unfolding restore_chunk emit_id output_chunk map_chunk insert_chunk save_data
  restore_chunk-Covers none old m writes h = inr (old, m, refl, refl, h)
  restore_chunk-Covers (some blob) old m writes h = elim (Option-cases (of_blob blob)) [
    | inl bad ↦ inl (rw bad refl)
    | inr (id, good) ↦ elim (Option-cases (get id)) [
      | inl missing ↦ inl (rw (good, missing) refl)
      | inr (chunk, got) ↦
          let (bundle_id, found) = sized id chunk got in
          inr (
            old ++ chunk,
            push_position bundle_id (id, length old) m,
            rw (good, got) refl,
            rw (good, found)
                (ap
                  (λ (n : ℕ). some (filling (push_position bundle_id (id, length old) m) writes n))
                  (sym (length-append old chunk))),
            Covers-chunk old m writes id chunk bundle_id got h,
          )
    ]
  ]

  restore_bytes-Covers :
      (field : Option (List ℕ)) (old : List ℕ) (m : ChunkMap) (writes : List (ℕ × List ℕ))
      → Covers old m writes
      → (old' : List ℕ) × (writes' : List (ℕ × List ℕ)) × (restore_bytes get get_bundle_id parse
            field
            (plain old)
          ≡ plain old')
        × (restore_bytes get get_bundle_id parse field (filling m writes (length old))
            ≡ filling m writes' (length old'))
        × Covers old' m writes'
  unfolding restore_bytes save_data map_bytes seek_bytes
  restore_bytes-Covers none old m writes h = (old, writes, refl, refl, h)
  restore_bytes-Covers (some bytes) old m writes h = (
    old ++ bytes,
    writes ++ ((length old, bytes) ∷ []),
    refl,
    ap (λ (n : ℕ). filling m (writes ++ ((length old, bytes) ∷ [])) n)
        (sym (length-append old bytes)),
    Covers-bytes old m writes bytes h,
  )

  pub restore_all-Covers :
      (instrs : List BackupInstruction) (old : List ℕ) (m : ChunkMap) (writes : List (ℕ × List ℕ))
      → Covers old m writes
      → (restore_all get get_bundle_id parse instrs (plain old) ≡ none)
        ⊎ ((old' : List ℕ) × (m' : ChunkMap) × (writes' : List (ℕ × List ℕ)) × (restore_all get
                get_bundle_id parse instrs
                (plain old)
              ≡ some (plain old'))
            × (restore_all get get_bundle_id parse instrs (filling m writes (length old))
                ≡ some (filling m' writes' (length old')))
            × Covers old' m' writes')
  unfolding restore_all
  restore_all-Covers [] old m writes h = inr (old, m, writes, refl, refl, h)
  restore_all-Covers (i ∷ instrs) old m writes h =
      elim (restore_chunk-Covers i.chunk_to_emit old m writes h) [
        | inl failed ↦ inl (rw failed refl)
        | inr (old₁, m₁, sunk, filled, h₁) ↦
            let (old₂, writes₂, sunk', filled', h₂) =
              restore_bytes-Covers i.bytes_to_emit old₁ m₁ writes h₁ in
            let first : restore_all get get_bundle_id parse (i ∷ instrs) (plain old)
                ≡ restore_all get get_bundle_id parse instrs (plain old₂) =
              ap
                (λ (o : Option Outputs). o >>= λ (s : Outputs).
                  restore_all get get_bundle_id parse instrs
                    (restore_bytes get get_bundle_id parse i.bytes_to_emit s))
                sunk
              ∙ ap (restore_all get get_bundle_id parse instrs) sunk' in
            let first' : restore_all get get_bundle_id parse (i ∷ instrs)
                  (filling m writes (length old))
                ≡ restore_all get get_bundle_id parse instrs (filling m₁ writes₂ (length old₂)) =
              ap
                (λ (o : Option Outputs). o >>= λ (s : Outputs).
                  restore_all get get_bundle_id parse instrs
                    (restore_bytes get get_bundle_id parse i.bytes_to_emit s))
                filled
              ∙ ap (restore_all get get_bundle_id parse instrs) filled' in
            elim (restore_all-Covers instrs old₂ m₁ writes₂ h₂) [
              | inl failed ↦ inl (first ∙ failed)
              | inr (old₃, m₃, writes₃, rest, rest', h₃) ↦
                  inr (old₃, m₃, writes₃, first ∙ rest, first' ∙ rest', h₃)
            ]
      ]
