-- ===== src/BackupCreator/Written.antt =====
-- One more instruction behind those that were written.
use zbackup.Base.{
  ℕ, ◌≤◌, ◌<◌, ◌≡◌, refl, sym, ap, ◌∙◌, subst, inl, inr, List, [], ◌∷◌, ◌++◌, append-nil, arith,
  ltb, if◌then◌else◌, ltb→lt, Bool-cases, length, length-take, All-append,
}
use zbackup.ChunkStorage.{Writer}
use zbackup.BackupCreator.{BackupInstruction, Creator, save_chunk_to_save}
use zbackup.BackupCreator.Pieces.{Emits, AllEmit, Keeps, AllEmit-snoc, IsPiece, flatten-snoc}
use zbackup.BackupCreator.Invariant.{waiting, HasWritten}
use zbackup.BackupCreator.Saving.{Preserved, save_chunk_to_save-IsSaved}

module _ (sha1 : List ℕ → List ℕ) (random : ℕ → List ℕ) (limit : ℕ) (P : Writer → Type 0)
    (keep : Preserved sha1 random limit P) where
  pub written_more :
      (s r : Creator) (done p : List ℕ) (i : BackupInstruction)
      → HasWritten sha1 random limit P s done
      → Keeps sha1 random s.writer r.writer
      → Emits sha1 random r.writer i p
      → IsPiece limit p
      → P r.writer
      → r.backup_data ≡ s.backup_data ++ (i ∷ [])
      → r.aborted ≡ s.aborted
      → HasWritten sha1 random limit P r (done ++ p)
  written_more s r done p i h k e size w same still = record {
    pieces = h.pieces ++ (p ∷ []);
    denotes =
        subst
          (λ (x : List BackupInstruction). AllEmit sha1 random r.writer x (h.pieces ++ (p ∷ [])))
          (sym same)
          (AllEmit-snoc sha1 random s.writer r.writer s.backup_data h.pieces i p k h.denotes e);
    whole = flatten-snoc h.pieces p ∙ ap (λ (t : List ℕ). t ++ p) h.whole;
    sizes = All-append (IsPiece limit) h.pieces (p ∷ []) h.sizes (size, tt);
    holds = w;
    running = still ∙ h.running;
  }

  -- `r` is `s` with the waiting bytes written, and nothing else touched.
  pub record IsFlushed (s r : Creator) (done : List ℕ) : Type 0 where
    pub writer : Writer
    pub instrs : List BackupInstruction
    pub result : r ≡ record s { writer = writer; backup_data = instrs; chunk_to_save_fill = 0 }
    pub written : HasWritten sha1 random limit P r (done ++ waiting s)
    pub keeps : Keeps sha1 random s.writer writer

  pub save-IsFlushed :
      (s : Creator) (done : List ℕ)
      → 0 < s.chunk_to_save_fill
      → s.chunk_to_save_fill ≤ length s.chunk_to_save
      → s.chunk_to_save_fill ≤ limit
      → HasWritten sha1 random limit P s done
      → IsFlushed s (save_chunk_to_save sha1 random s) done
  save-IsFlushed s done pos within small h =
      let d = save_chunk_to_save-IsSaved sha1 random limit P keep s pos within small h.holds in
      record {
        writer = d.writer;
        instrs = s.backup_data ++ (d.instr ∷ []);
        result = d.result;
        written =
            subst (λ (r : Creator). HasWritten sha1 random limit P r (done ++ waiting s))
              (sym d.result)
              (written_more s
                (record s {
                  writer = d.writer;
                  backup_data = s.backup_data ++ (d.instr ∷ []);
                  chunk_to_save_fill = 0;
                })
                done (waiting s) d.instr h d.keeps d.emits
                (rw length-take (omega arith), rw length-take (omega arith)) d.holds refl refl);
        keeps = d.keeps;
      }

  -- `if ( chunkToSaveFill ) saveChunkToSave()`
  pub flush-IsFlushed :
      (s : Creator) (done : List ℕ)
      → s.chunk_to_save_fill ≤ length s.chunk_to_save
      → s.chunk_to_save_fill ≤ limit
      → HasWritten sha1 random limit P s done
      → IsFlushed s
          (if ltb 0 s.chunk_to_save_fill then save_chunk_to_save sha1 random s else s)
          done
  flush-IsFlushed s done within small h = elim (Bool-cases (ltb 0 s.chunk_to_save_fill)) [
    | inl some_wait ↦ rw some_wait (save-IsFlushed s done (ltb→lt _ _ some_wait) within small h)
    | inr none_wait ↦
        let zero_fill : s.chunk_to_save_fill ≡ 0 = ground arith in
        rw none_wait (record {
          writer = s.writer;
          instrs = s.backup_data;
          result = λ i. record s { chunk_to_save_fill = zero_fill i };
          written = subst (HasWritten sha1 random limit P s) (empty zero_fill) h;
          keeps = λ q k. k;
        })
  ]
    where
      empty : s.chunk_to_save_fill ≡ 0 → done ≡ done ++ waiting s
      empty e = rw e (sym (append-nil done))
