-- ===== src/BackupCollector/Copying.antt =====
-- The used chunks of a bundle are copied to the new index.
use zbackup.Base.{
  ℕ, ◌≡◌, refl, sym, ap, ◌∙◌, inl, inr, true, false, Option, some, List, [], ◌∷◌, if_true, if_false,
  Bool-cases, length, All, ◌>>=◌, subst, Bool, ◌++◌, ◌<◌, ◌⊎◌, take, drop, take-append,
}
use zbackup.Base.Bytes.{u32_mod}
use mathlib.Core.List.{Mem, mem-append_left, mem-append_right, mem-cons_self}
use zbackup.ChunkId.{ChunkId, blob_size, to_blob}
use zbackup.ChunkId.Blob.{of_blob-whole}
use zbackup.ChunkIndex.{BundleId, ChunkIndex, find_chunk_id}
use zbackup.Bundle
use zbackup.Bundle.{ChunkRecord, Chunks}
use zbackup.Bundle.RoundTrip.{Item}
use zbackup.Bundle.Items.{IsBundle}
use zbackup.ChunkStorage.Items.{stored}
use zbackup.ChunkStorage.Stock.{added-cases}
use zbackup.ChunkStorage.Taking.{add-take, add-ForCurrent}
use zbackup.ChunkStorage.Writing.{ForCurrent, stored-add, added_items}
use zbackup.ChunkStorage
use zbackup.ChunkStorage.{Writer}
use zbackup.ChunkStorage.Known.{IsKnown, add-IsKnown_old, add-IsKnown_new}
use zbackup.ChunkStorage.Reader
use zbackup.ChunkStorage.Reader.{Reader, Outcome}
use zbackup.ChunkStorage.Reader.Caching.{IsReader, get-found}
use zbackup.BackupCollector.{BundleCollector, in_set, add_chunk, copy_chunk, copy_loop}
use zbackup.BackupCollector.Counting.{record_id}

module _ (random : ℕ → List ℕ) (read_bundle : BundleId → Option Chunks) where
  -- The bundle that the index names has the bytes under the id.
  abbrev pub IsChunkOf : ChunkIndex → ChunkId → List ℕ → Type 0
  IsChunkOf index id bytes =
      (found : BundleId × ℕ) × (chunks : Chunks) × (next : List ℕ) × (find_chunk_id index id
        ≡ some found)
      × (read_bundle found.0 ≡ some chunks)
      × (Bundle.find (to_blob id) chunks ≡ some (next, length bytes))
      × (take (length bytes) next ≡ bytes)
      × (length bytes < u32_mod)

  -- The chunk can be read.
  abbrev pub Readable : ChunkIndex → ChunkId → Type 0
  Readable index id = (bytes : List ℕ) × IsChunkOf index id bytes

  -- The used ones of the chunks are in bundles that can be read.
  abbrev pub AllReadable : List ChunkId → ChunkIndex → List ChunkRecord → Type 0
  AllReadable used index records =
      All (λ r. in_set (record_id r) used ≡ true → Readable index (record_id r)) records

  -- The used ones of the chunks are in the new index.
  abbrev pub AllKnown : List ChunkId → ChunkIndex → List ChunkRecord → Type 0
  AllKnown used index records =
      All (λ r. in_set (record_id r) used ≡ true → IsKnown index (record_id r)) records

  -- `w'` is `w` with chunks of the bundles that the index names: nothing that was held or known is
  -- lost, and each id that `w` did not know is held with its bytes.
  pub record IsCopy (index : ChunkIndex) (w w' : Writer) : Type 0 where
    pub valid : ForCurrent IsBundle w'.current_bundle
    pub more : (x : Item) → Mem x (stored w) → Mem x (stored w')
    pub keeps : (id : ChunkId) → IsKnown w.index id → IsKnown w'.index id
    pub held :
        (id : ChunkId)
        → IsKnown w'.index id
        → IsKnown w.index id
          ⊎ ((bytes : List ℕ) × IsChunkOf index id bytes
              × Mem {A = Item} (to_blob id, bytes) (stored w'))

  pub IsCopy-refl :
      (index : ChunkIndex) (w : Writer) → ForCurrent IsBundle w.current_bundle → IsCopy index w w
  IsCopy-refl index w valid = record {
    valid = valid;
    more = λ x m. m;
    keeps = λ id known. known;
    held = λ id known. inl known;
  }

  IsCopy-trans :
      (index : ChunkIndex) (u v w : Writer) → IsCopy index u v → IsCopy index v w → IsCopy index u w
  IsCopy-trans index u v w a b = record {
    valid = b.valid;
    more = λ x m. b.more x (a.more x m);
    keeps = λ id known. b.keeps id (a.keeps id known);
    held = λ id known. elim (b.held id known) [
      | inr new ↦ inr new
      | inl old ↦ elim (a.held id old) [
        | inl older ↦ inl older
        | inr (bytes, chunk, m) ↦ inr (bytes, chunk, b.more (to_blob id, bytes) m)
      ]
    ];
  }

  add-IsCopy :
      (index : ChunkIndex) (w : Writer) (id : ChunkId) (bytes : List ℕ)
      → IsChunkOf index id bytes
      → ForCurrent IsBundle w.current_bundle
      → IsCopy index w (ChunkStorage.add random w id bytes (length bytes)).0
  add-IsCopy index w id bytes chunk valid =
      let (found, chunks, next, known, loaded, there, whole, small) = chunk in
      let e = (stored-add random id bytes (length bytes) refl small w valid).1 in
      record {
        valid = add-ForCurrent random id bytes (length bytes) refl small w valid;
        more = λ x m. subst (Mem x) (sym e) (mem-append_left _ m);
        keeps = λ q known. add-IsKnown_old random id bytes (length bytes) w q known;
        held = λ q known. elim (added-cases random (λ b. id) w id q bytes (length bytes) known) [
          | inl old ↦ inl old
          | inr (same, missing) ↦ inr (
            bytes,
            subst (λ (i : ChunkId). IsChunkOf index i bytes) (sym same) chunk,
            subst (Mem {A = Item} (to_blob q, bytes)) (sym e) (
                mem-append_right (stored w) (
                  subst
                    (λ (f : Bool).
                      Mem {A = Item} (to_blob q, bytes)
                        (added_items random id bytes (length bytes) refl small f))
                    (sym missing)
                    (subst
                      (λ (i : ChunkId). Mem {A = Item} (to_blob q, bytes) ((to_blob i, bytes) ∷ []))
                      same mem-cons_self))),
          )
        ];
      }

  get-next :
      (chunks : Chunks) (id : ChunkId) (next chunk : List ℕ) (n : ℕ)
      → Bundle.find (to_blob id) chunks ≡ some (next, n)
      → Bundle.get chunks (to_blob id) chunk ≡ some (take n next ++ drop n chunk, n)
  unfolding Bundle.get
  get-next chunks id next chunk n there = rw (Bundle.get, there) refl

  take_chunk-some :
      (got : List ℕ × ℕ) (chunk : List ℕ) (size : ℕ)
      → Reader.take_chunk read_bundle (some got) chunk size ≡ got
  unfolding Reader.take_chunk
  take_chunk-some got chunk size = refl

  -- What the reader leaves in the buffer and the size is added as the chunk's bytes.
  add-take_chunk :
      (w : Writer) (id : ChunkId) (bytes chunk : List ℕ) (size : ℕ) (chunks : Chunks)
      (next : List ℕ)
      → Bundle.find (to_blob id) chunks ≡ some (next, length bytes)
      → take (length bytes) next ≡ bytes
      → let got = Reader.take_chunk read_bundle (Bundle.get chunks (to_blob id) chunk) chunk size in
        ChunkStorage.add random w id got.0 got.1 ≡ ChunkStorage.add random w id bytes (length bytes)
  add-take_chunk w id bytes chunk size chunks next there whole =
      let n = length bytes in
      ap (λ (g : List ℕ × ℕ). ChunkStorage.add random w id g.0 g.1)
        (ap (λ (o : Option (List ℕ × ℕ)). Reader.take_chunk read_bundle o chunk size)
            (get-next chunks id next chunk n there)
          ∙ take_chunk-some _ chunk size
          ∙ ap (λ (t : List ℕ). (t ++ drop n chunk, n)) whole)
      ∙ add-take random id w (bytes ++ drop n chunk) n
      ∙ ap (λ (t : List ℕ). ChunkStorage.add random w id t n) (take-append bytes (drop n chunk))

  -- What copying changes.
  abbrev pub copied : BundleCollector → Reader → Writer → BundleCollector
  copied c r w = record c { reader = r; writer = w }

  copy_chunk-copied :
      (id : ChunkId) (c : BundleCollector) (chunk : List ℕ) (size : ℕ)
      → IsReader read_bundle c.reader
      → ForCurrent IsBundle c.writer.current_bundle
      → (in_set id c.used_chunk_set ≡ true → Readable c.reader.index id)
      → (r : Reader) × (w : Writer) × (chunk' : List ℕ) × (size' : ℕ) × (copy_chunk random
            read_bundle id c chunk size
          ≡ some (copied c r w, chunk', size'))
        × IsReader read_bundle r
        × (r.index ≡ c.reader.index)
        × IsCopy c.reader.index c.writer w
        × (in_set id c.used_chunk_set ≡ true → IsKnown w.index id)
  unfolding copy_chunk add_chunk
  copy_chunk-copied id c chunk size h valid readable =
      elim (Bool-cases (in_set id c.used_chunk_set)) [
        | inl used ↦
            let (bytes, of_bundle) = readable used in
            let (found, chunks, next, known, loaded, there, whole, small) = of_bundle in
            let result = Reader.get read_bundle c.reader id chunk size in
            let (made, kept, index) =
              get-found read_bundle c.reader id chunk size found chunks h known loaded in
            let got =
              Reader.take_chunk read_bundle (Bundle.get chunks (to_blob id) chunk) chunk size in
            let w : Writer = (ChunkStorage.add random c.writer id got.0 got.1).0 in
            let same : (ChunkStorage.add random c.writer id bytes (length bytes)).0 ≡ w =
              ap (λ (r : Writer × Bool). r.0)
                (sym (add-take_chunk c.writer id bytes chunk size chunks next there whole)) in
            (
              result.1,
              w,
              got.0,
              got.1,
              if_true _ _ used
                  ∙ ap
                      (λ (o : Outcome (List ℕ × ℕ)).
                        add_chunk random read_bundle (o, result.1) id c)
                      made,
              kept,
              index,
              subst (IsCopy c.reader.index c.writer) same
                  (add-IsCopy c.reader.index c.writer id bytes of_bundle valid),
              (λ e. add-IsKnown_new random id got.0 got.1 c.writer),
            )
        | inr unused ↦ (
          c.reader,
          c.writer,
          chunk,
          size,
          if_false _ _ unused,
          h,
          refl,
          IsCopy-refl c.reader.index c.writer valid,
          (λ used. cc (used, unused)),
        )
      ]

  pub copy_loop-copied :
      (records : List ChunkRecord) (c : BundleCollector) (chunk : List ℕ) (size : ℕ)
      → All (λ (r : ChunkRecord). length r.id ≡ blob_size) records
      → IsReader read_bundle c.reader
      → ForCurrent IsBundle c.writer.current_bundle
      → AllReadable c.used_chunk_set c.reader.index records
      → (r : Reader) × (w : Writer) × (copy_loop random read_bundle records c chunk size
          ≡ some (copied c r w))
        × IsReader read_bundle r
        × IsCopy c.reader.index c.writer w
        × AllKnown c.used_chunk_set w.index records
  unfolding copy_loop
  copy_loop-copied [] c chunk size sizes h valid readable =
      (c.reader, c.writer, refl, h, IsCopy-refl c.reader.index c.writer valid, tt)
  copy_loop-copied (r ∷ records) c chunk size (whole, sizes) h valid (readable, later) =
      let (r₁, w₁, chunk₁, size₁, made, h₁, index, copy, known) =
        copy_chunk-copied (record_id r) c chunk size h valid readable in
      let (r₂, w₂, rest, h₂, copy', known') =
        copy_loop-copied records (copied c r₁ w₁) chunk₁ size₁ sizes h₁ copy.valid
          (subst (λ (x : ChunkIndex). AllReadable c.used_chunk_set x records) (sym index) later) in
      (
        r₂,
        w₂,
        ap
              (λ (o : Option ChunkId). o >>= λ (id : ChunkId).
                copy_chunk random read_bundle id c chunk size
                >>= λ (t : BundleCollector × List ℕ × ℕ).
                    copy_loop random read_bundle records t.0 t.1 t.2)
              (of_blob-whole r.id whole)
            ∙ ap
                (λ (o : Option (BundleCollector × List ℕ × ℕ)).
                  o >>= λ (t : BundleCollector × List ℕ × ℕ).
                  copy_loop random read_bundle records t.0 t.1 t.2)
                made
            ∙ rest,
        h₂,
        IsCopy-trans c.reader.index c.writer w₁ w₂ copy
            (subst (λ (x : ChunkIndex). IsCopy x w₁ w₂) index copy'),
        ((λ used. copy'.keeps (record_id r) (known used)), known'),
      )

  pub unused-known :
      (used : List ChunkId) (index : ChunkIndex) (records : List ChunkRecord)
      → All (λ (r : ChunkRecord). in_set (record_id r) used ≡ false) records
      → AllKnown used index records
  unused-known used index [] h = tt
  unused-known used index (r ∷ records) (e, h) =
      ((λ u. cc (u, e)), unused-known used index records h)
