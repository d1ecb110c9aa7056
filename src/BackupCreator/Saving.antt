-- ===== src/BackupCreator/Saving.antt =====
-- `saveChunkToSave`.
use zbackup.Base.{
  ℕ, ◌≤◌, ◌<◌, ◌≡◌, refl, sym, inl, inr, List, [], ◌∷◌, ◌++◌, arith, ltb, lt→ltb, Bool-cases,
  length, take, length-take,
}
use zbackup.RollingHash
use zbackup.ChunkId.{ChunkId}
use zbackup.ChunkStorage
use zbackup.ChunkStorage.{Writer}
use zbackup.ChunkStorage.Known.{add-IsKnown_old, add-IsKnown_new}
use zbackup.BackupCreator.{
  BackupInstruction, Creator, emit_bytes, emit_chunk, check, output_instruction, id_of,
  save_as_chunk, save_chunk_to_save,
}
use zbackup.BackupCreator.Pieces.{Emits, Keeps}

-- A property of the writer, up to a size of chunks, that adding a chunk under its id preserves.
abbrev pub Preserved : (List ℕ → List ℕ) → (ℕ → List ℕ) → ℕ → (Writer → Type 0) → Type 0
Preserved sha1 random limit P =
    (w : Writer) (bytes : List ℕ)
    → 0 < length bytes
    → length bytes ≤ limit
    → P w
    → P (ChunkStorage.add random w (id_of sha1 random bytes) bytes (length bytes)).0

module _ (sha1 : List ℕ → List ℕ) (random : ℕ → List ℕ) (limit : ℕ) (P : Writer → Type 0)
    (keep : Preserved sha1 random limit P) where
  -- The bytes that wait to be saved.
  abbrev pub to_save : Creator → List ℕ
  to_save s = take s.chunk_to_save_fill s.chunk_to_save

  -- `r` is `s` after its waiting bytes were turned into one instruction.
  pub record IsSaved (s r : Creator) : Type 0 where
    pub writer : Writer
    pub instr : BackupInstruction
    pub result : r ≡ record s {
      writer = writer;
      backup_data = s.backup_data ++ (instr ∷ []);
      chunk_to_save_fill = 0;
    }
    pub emits : Emits sha1 random writer instr (to_save s)
    pub keeps : Keeps sha1 random s.writer writer
    pub holds : P writer

  module _ (s : Creator) (pos : 0 < s.chunk_to_save_fill)
      (within : s.chunk_to_save_fill ≤ length s.chunk_to_save)
      (small : s.chunk_to_save_fill ≤ limit) (p : P s.writer) where
    length-to_save : length (to_save s) ≡ s.chunk_to_save_fill
    length-to_save = rw length-take (omega arith)

    added : Writer
    added =
        (ChunkStorage.add random s.writer (id_of sha1 random (to_save s)) (to_save s)
          (length (to_save s))).0

    as_chunk :
        record (save_as_chunk sha1 random s (to_save s)) { chunk_to_save_fill = 0 } ≡ record s {
          writer = added;
          backup_data = s.backup_data ++ (emit_chunk (id_of sha1 random (to_save s)) ∷ []);
          chunk_to_save_fill = 0;
        }
    unfolding save_as_chunk output_instruction id_of added
    as_chunk = λ i. record s {
      writer = (ChunkStorage.add random s.writer (id_path i) (to_save s) (length-to_save_sym i)).0;
      backup_data = s.backup_data ++ (emit_chunk (id_path i) ∷ []);
      chunk_to_save_fill = 0;
    }
      where
        length-to_save_sym : s.chunk_to_save_fill ≡ length (to_save s)
        length-to_save_sym = sym length-to_save

        id_path :
            ◌≡◌ {A = ChunkId}
              (record {
                crypto_hash = take 16 (sha1 (to_save s));
                rolling_hash = RollingHash.digest_buffer (to_save s) s.chunk_to_save_fill;
              })
              (id_of sha1 random (to_save s))
        id_path = λ i. record {
          crypto_hash = take 16 (sha1 (to_save s));
          rolling_hash = RollingHash.digest_buffer (to_save s) (length-to_save_sym i);
        }

    pub save_chunk_to_save-IsSaved : IsSaved s (save_chunk_to_save sha1 random s)
    unfolding save_chunk_to_save check output_instruction added
    save_chunk_to_save-IsSaved = elim (Bool-cases (ltb s.chunk_to_save_fill 128)) [
      | inl few ↦ rw (lt→ltb 0 _ pos) (
          rw few (record {
            writer = s.writer;
            instr = emit_bytes (to_save s);
            result = refl;
            emits = inl refl;
            keeps = λ q k. k;
            holds = p;
          }))
      | inr many ↦ rw (lt→ltb 0 _ pos) (
          rw many (record {
            writer = added;
            instr = emit_chunk (id_of sha1 random (to_save s));
            result = as_chunk;
            emits = inr (refl, add-IsKnown_new random _ (to_save s) (length (to_save s)) s.writer);
            keeps = λ q k. add-IsKnown_old random _ (to_save s) (length (to_save s)) s.writer q k;
            holds = keep s.writer (to_save s) (rw length-to_save pos) (rw length-to_save small) p;
          }))
    ]
