-- ===== src/BackupRestorer/BackedUp.antt =====
-- What `restoreToStdin` writes for the info that `backupFromFileHandle` saved, from the bundles that
-- it left in the directory.
use zbackup.Base.{
  ℕ, zero, suc, ◌+◌, ◌%◌, ◌≤◌, ◌<◌, ◌≡◌, ap, ◌∙◌, ◌≢◌, ◌⊎◌, inl, inr, false, Option, none, some,
  List, [], ◌∷◌, length, All, Bool-cases,
}
use zbackup.Base.Bytes.{u64_mod, u32_mod, bytes_eq, bytes_eq_iff}
use mathlib.Core.List.{Mem, mem-cons_self, mem-append_right}
use zbackup.ChunkId.{ChunkId, to_blob}
use zbackup.ChunkIndex.{BundleId}
use zbackup.ChunkIndex.Entries.{entry, is_none}
use zbackup.ChunkStorage
use zbackup.ChunkStorage.{Writer}
use zbackup.ChunkStorage.Known.{IsKnown}
use zbackup.ChunkStorage.Items.{disk_items}
use zbackup.ChunkStorage.Stock.{IsStock, fetch, fetch-IsStock}
use zbackup.BackupCreator.{BackupInstruction, id_of}
use zbackup.BackupCreator.Ready.{IsPrepared}
use zbackup.Backup.{BackupInfo, backup}
use zbackup.Backup.Shrinking.{Unwinds, Outcome, backup-Unwinds}
use zbackup.BackupRestorer.{restore_to_stdin}
use zbackup.BackupRestorer.RoundTrip.{Recalls, AllPieces, restore_to_stdin-Unwinds}

module _ (sha1 : List ℕ → List ℕ) (random : ℕ → List ℕ) where
  -- The bundles have another chunk under the id of the piece, with the same id.
  abbrev pub Clash : Writer → List ℕ → Type 0
  Clash w p =
      (q : List ℕ) × (fetch w.bundles (id_of sha1 random p) ≡ some q)
      × (q ≢ p)
      × (to_blob (id_of sha1 random p) ≡ to_blob (id_of sha1 random q))

  module _ (w : Writer) (stock : IsStock (id_of sha1 random) w.index (disk_items w.bundles)) where
    recall-Clash :
        (p : List ℕ)
        → (IsKnown w.index (id_of sha1 random p) → fetch w.bundles (id_of sha1 random p) ≡ some p)
          ⊎ Clash w p
    recall-Clash p = elim (Bool-cases (is_none (entry w.index (id_of sha1 random p)))) [
      | inl unknown ↦ inl (λ known. absurd (cc (unknown, known)))
      | inr known ↦
          let (q, e, hashed) =
            fetch-IsStock (id_of sha1 random) w.index w.bundles (id_of sha1 random p) stock known in
          elim (Bool-cases (bytes_eq q p)) [
            | inl same ↦ inl (λ known'. e ∙ ap some ((bytes_eq_iff q p).0 same))
            | inr other ↦
                inr (q, e, λ equal. absurd (cc (other, (bytes_eq_iff q p).1 equal)), hashed)
          ]
    ]

    recalls-Clash :
        (ps : List (List ℕ))
        → All
            (λ p.
              IsKnown w.index (id_of sha1 random p)
              → fetch w.bundles (id_of sha1 random p) ≡ some p)
            ps
          ⊎ ((p : List ℕ) × Mem p ps × Clash w p)
    recalls-Clash [] = inl tt
    recalls-Clash (p ∷ ps) = elim (recall-Clash p) [
      | inr clash ↦ inr (p, mem-cons_self, clash)
      | inl recall ↦ elim (recalls-Clash ps) [
        | inl recalls ↦ inl (recall, recalls)
        | inr (q, m, clash) ↦ inr (q, mem-append_right (p ∷ []) m, clash)
      ]
    ]

module _ (sha1 : List ℕ → List ℕ) (random : ℕ → List ℕ) (limit page_size max_size : ℕ)
    (serialize : List BackupInstruction → List ℕ) (sha256 : List ℕ → List ℕ) (page : 0 < page_size)
    (pos : 0 < max_size) (small : max_size + max_size < u32_mod) (le : max_size ≤ limit) where
  -- A piece of one of the rounds clashes with a chunk in the directory.
  abbrev pub ClashIn :
      (w : Writer) (n : ℕ) (bytes input : List ℕ)
      → Unwinds sha1 random limit page_size max_size serialize sha256 page pos small le n w bytes
          input
      → Type 0
  ClashIn w zero bytes input r = (p : List ℕ) × Mem p r.pieces × Clash sha1 random w p
  ClashIn w (suc n) bytes input (out, r, u) =
      ((p : List ℕ) × Mem p r.pieces × Clash sha1 random w p) ⊎ ClashIn w n out input u

  module _ (sha1_size : (bytes : List ℕ) → length (sha1 bytes) ≡ 20)
      (get_bundle_id : ChunkId → Option (BundleId × ℕ))
      (parse : List ℕ → Option (List BackupInstruction))
      (parse_serialize : (instrs : List BackupInstruction)
        → parse (serialize instrs) ≡ some instrs) where
    AllPieces-ClashIn :
        (w : Writer) (n : ℕ) (bytes input : List ℕ)
        (u : Unwinds sha1 random limit page_size max_size serialize sha256 page pos small le n w
          bytes input)
        → IsStock (id_of sha1 random) w.index (disk_items w.bundles)
        → AllPieces sha1 random limit page_size max_size serialize sha256 page pos small le
            sha1_size
            (fetch w.bundles)
            get_bundle_id
            parse
            parse_serialize
            w
            (Recalls sha1 random limit page_size max_size serialize sha256 page pos small le
              sha1_size
              (fetch w.bundles)
              get_bundle_id
              parse
              parse_serialize
              w)
            n
            bytes
            input
            u
          ⊎ ClashIn w n bytes input u
    AllPieces-ClashIn w zero bytes input r stock = recalls-Clash sha1 random w stock r.pieces
    AllPieces-ClashIn w (suc n) bytes input (out, r, u) stock =
        elim (recalls-Clash sha1 random w stock r.pieces) [
          | inr clash ↦ inr (inl clash)
          | inl here ↦ elim (AllPieces-ClashIn w n out input u stock) [
            | inl more ↦ inl (here, more)
            | inr clash ↦ inr (inr clash)
          ]
        ]

    -- The saved info is restored, or a piece clashes; or nothing was saved.
    abbrev pub IsRestored : List ℕ → Option BackupInfo × Writer → Type 0
    IsRestored input (none, w) = (v : Writer) × (ChunkStorage.commit random v ≡ (w, false))
    IsRestored input (some info, w) =
        (n : ℕ) × (info.iterations ≡ n % u32_mod)
        × (u : Unwinds sha1 random limit page_size max_size serialize sha256 page pos small le n w
            info.backup_data input)
        × ((restore_to_stdin (fetch w.bundles) get_bundle_id parse sha256 false info.sha256 n
                info.backup_data
              ≡ some input)
            ⊎ ClashIn w n info.backup_data input u)

    final-IsRestored :
        (w₀ : Writer) (input : List ℕ) (r : Option BackupInfo × Writer)
        → Outcome sha1 random limit page_size max_size serialize sha256 page pos small le w₀ input
            (length input)
            r
        → IsRestored input r
    final-IsRestored w₀ input (none, w) (v, keeps, thrown) = (v, thrown)
    final-IsRestored w₀ input (some info, w) final = (
      final.count,
      final.iterations,
      final.unwinds,
      elim (AllPieces-ClashIn w final.count info.backup_data input final.unwinds final.stock) [
        | inl recall ↦ inl (
            rw final.digest (
              restore_to_stdin-Unwinds sha1 random limit page_size max_size serialize sha256 page
                pos small le sha1_size (fetch w.bundles) get_bundle_id parse parse_serialize w
                final.count info.backup_data input final.unwinds recall))
        | inr clash ↦ inr clash
      ],
    )

    -- Unless `commit` throws since a name is taken, what a backup of a file saves is restored to the
    -- file from the bundles that the backup left in the directory, to a standard output that is no
    -- terminal, and the checksum is accepted, with the number of rounds that the 32-bit counter in the
    -- saved info counts; or else a piece of the file or of the packed data, and another chunk in the
    -- directory, have the same id. A SHA-1 has 20 bytes, a stream of messages is read as it was
    -- written, at the start the writer is in its invariant and holds, under its own id, a chunk for
    -- every id that the index knows, pages and chunks are not empty, two chunks fit into 32 bits, a
    -- chunk fits into a bundle, and the file is read without an error and has less than 2^64 bytes.
    pub restore_to_stdin-backup :
        (w₀ : Writer) (input : List ℕ)
        → IsPrepared sha1 random limit w₀
        → length input < u64_mod
        → (r : Option BackupInfo × Writer) × (backup sha1 random page_size max_size serialize sha256
              w₀ input false
            ≡ some r)
          × IsRestored input r
    restore_to_stdin-backup w₀ input ready fits =
        let (r, made, outcome) =
          backup-Unwinds sha1 random limit page_size max_size serialize sha256 page pos small le w₀
            input ready fits in
        (r, made, final-IsRestored w₀ input r outcome)
