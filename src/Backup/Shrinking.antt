-- ===== src/Backup/Shrinking.antt =====
-- The whole of `backupFromFileHandle`: the passes over the serialized data.
use zbackup.Base.{
  sym, subst, Bool, true, Option, none, ℕ, zero, suc, ◌+◌, ◌%◌, ◌≤◌, ◌<◌, ◌≡◌, refl, ap, ◌∙◌, inl,
  inr, false, some, List, [], ◌∷◌, arith, ltb, ltb→lt, Bool-cases, length, All,
}
use zbackup.Base.Bytes.{u64_mod, u32_mod}
use mathlib.Core.List.{flatten}
use zbackup.ChunkStorage
use zbackup.ChunkStorage.{Writer}
use zbackup.ChunkStorage.Known.{add-IsKnown_old, commit-index}
use zbackup.ChunkStorage.Items.{disk_items}
use zbackup.ChunkStorage.Stock.{IsStock, commit-IsStock}
use zbackup.BackupCreator.Ready.{IsPrepared, IsPrepared-Preserved}
use zbackup.BackupCreator
use zbackup.BackupCreator.{Creator, BackupInstruction, new, id_of, get_backup_data}
use zbackup.BackupCreator.Pieces.{AllEmit, Keeps, IsPiece}
use zbackup.BackupCreator.Invariant.{IsCreator}
use zbackup.BackupCreator.Saving.{Preserved}
use zbackup.BackupCreator.Finishing.Whole.{new-IsCreator, finish-HasWritten, get_backup_data-handed}
use zbackup.Backup.{
  finished, BackupInfo, close, pass, shrink, finish_backup, backup, swap_or_break, after_reading,
  publish,
}
use zbackup.Backup.Passes.{copy_loop-IsCreator, read_loop-IsCreator}

module _ (sha1 : List ℕ → List ℕ) (random : ℕ → List ℕ) where
  AllEmit-Keeps :
      (v w : Writer) (is : List BackupInstruction) (ps : List (List ℕ))
      → Keeps sha1 random v w
      → AllEmit sha1 random v is ps
      → AllEmit sha1 random w is ps
  AllEmit-Keeps v w [] [] k h = tt
  AllEmit-Keeps v w [] (p ∷ ps) k h = elim h [ ]
  AllEmit-Keeps v w (i ∷ is) [] k h = elim h [ ]
  AllEmit-Keeps v w (i ∷ is) (p ∷ ps) k (inl e, h) = (inl e, AllEmit-Keeps v w is ps k h)
  AllEmit-Keeps v w (i ∷ is) (p ∷ ps) k (inr (e, known), h) =
      (inr (e, k _ known), AllEmit-Keeps v w is ps k h)

  module _ (limit page_size max_size : ℕ) (serialize : List BackupInstruction → List ℕ)
      (sha256 : List ℕ → List ℕ) (page : 0 < page_size) (pos : 0 < max_size)
      (small : max_size + max_size < u32_mod) (le : max_size ≤ limit) where
    -- The data are serialized instructions that stand for `out`, in pieces.
    pub record Restores (w : Writer) (bytes out : List ℕ) : Type 0 where
      pub instrs : List BackupInstruction
      pub pieces : List (List ℕ)
      pub serialized : bytes ≡ serialize instrs
      pub emits : AllEmit sha1 random w instrs pieces
      pub whole : flatten pieces ≡ out
      pub sizes : All (IsPiece limit) pieces

    -- Restoring the data `n` times, and then once more, gives `input`.
    abbrev pub Unwinds : ℕ → Writer → List ℕ → List ℕ → Type 0
    Unwinds zero w bytes input = Restores w bytes input
    Unwinds (suc n) w bytes input = (out : List ℕ) × Restores w bytes out × Unwinds n w out input

    Restores-Keeps :
        (v w : Writer) (bytes out : List ℕ)
        → Keeps sha1 random v w
        → Restores v bytes out
        → Restores w bytes out
    Restores-Keeps v w bytes out k r = record {
      instrs = r.instrs;
      pieces = r.pieces;
      serialized = r.serialized;
      emits = AllEmit-Keeps v w r.instrs r.pieces k r.emits;
      whole = r.whole;
      sizes = r.sizes;
    }

    Unwinds-Keeps :
        (n : ℕ) (v w : Writer) (bytes input : List ℕ)
        → Keeps sha1 random v w
        → Unwinds n v bytes input
        → Unwinds n w bytes input
    Unwinds-Keeps zero v w bytes input k u = Restores-Keeps v w bytes input k u
    Unwinds-Keeps (suc n) v w bytes input k (out, r, u) =
        (out, Restores-Keeps v w bytes out k r, Unwinds-Keeps n v w out input k u)

    -- What is so when an info is saved.
    pub record IsFinal (w : Writer) (input : List ℕ) (total : ℕ) (info : BackupInfo) (w' : Writer)
        : Type 0 where
      pub size : info.size ≡ total
      pub digest : info.sha256 ≡ sha256 input
      pub count : ℕ
      pub iterations : info.iterations ≡ count % u32_mod
      pub unwinds : Unwinds count w' info.backup_data input
      pub keeps : Keeps sha1 random w w'
      -- Every id that the index knows has a chunk in the bundle directory.
      pub stock : IsStock (id_of sha1 random) w'.index (disk_items w'.bundles)

    -- An info is saved, or `commit` threw since a name was taken.
    abbrev pub Outcome : Writer → List ℕ → ℕ → Option BackupInfo × Writer → Type 0
    Outcome w input total (some info, w') = IsFinal w input total info w'
    Outcome w input total (none, w') =
        (v : Writer) × Keeps sha1 random w v × (ChunkStorage.commit random v ≡ (w', false))

    abbrev Q : Writer → Type 0
    Q = IsPrepared sha1 random limit

    keep : Preserved sha1 random limit Q
    keep = IsPrepared-Preserved sha1 random limit

    abbrev From : Writer → Writer → Type 0
    From w v = Q v × Keeps sha1 random w v

    keep-From : (w : Writer) → Preserved sha1 random limit (From w)
    keep-From w v bytes p l (q, k) = (
      keep v bytes p l q,
      λ id known. add-IsKnown_old random _ bytes (length bytes) v id (k id known),
    )

    -- What a creator that was fed with `input` gives.
    record IsPass (w : Writer) (input : List ℕ) (r : List ℕ × Writer) : Type 0 where
      restores : Restores r.1 r.0 input
      from : From w r.1

    close-IsPass :
        (w : Writer) (input : List ℕ) (s : Creator)
        → IsCreator sha1 random limit (From w) input s
        → IsPass w input (close sha1 random page_size max_size serialize sha256 s)
    unfolding close
    close-IsPass w input s v =
        let h = finish-HasWritten sha1 random limit (From w) (keep-From w) input s v in
        record {
          restores = record {
            instrs = (BackupCreator.finish sha1 random s).backup_data;
            pieces = h.pieces;
            serialized = ap serialize (get_backup_data-handed (BackupCreator.finish sha1 random s));
            emits = h.denotes;
            whole = h.whole;
            sizes = h.sizes;
          };
          from = h.holds;
        }

    start : (w : Writer) → Q w → IsCreator sha1 random limit (From w) [] (new page_size max_size w)
    start w q =
        new-IsCreator sha1 random limit (From w) (keep-From w) page_size max_size w page pos small
          le (q, λ id known. known)

    pass-IsPass :
        (w : Writer) (input : List ℕ)
        → Q w
        → (r : List ℕ × Writer) × (pass sha1 random page_size max_size serialize sha256 w input
            ≡ some r)
          × IsPass w input r
    unfolding pass
    pass-IsPass w input q =
        let (s, e, c) =
          copy_loop-IsCreator sha1 random limit (From w) (keep-From w) (suc (length input)) [] input
            (new page_size max_size w) (omega arith) (start w q) in
        (
          close sha1 random page_size max_size serialize sha256 s,
          rw e refl,
          close-IsPass w input s c,
        )

    record IsShrunk (w : Writer) (input : List ℕ) (r : List ℕ × ℕ × Writer) : Type 0 where
      count : ℕ
      iterations : r.1 ≡ count % u32_mod
      unwinds : Unwinds count r.2 r.0 input
      from : From w r.2

    one_more : (n : ℕ) → (n % u32_mod + 1) % u32_mod ≡ suc n % u32_mod
    one_more n = omega arith

    -- Each round makes the data shorter, so the loop ends.
    shrink-IsShrunk :
        (fuel : ℕ) (w : Writer) (bytes input : List ℕ) (n : ℕ)
        → length bytes < fuel
        → Q w
        → Unwinds n w bytes input
        → (r : List ℕ × ℕ × Writer) × (shrink sha1 random page_size max_size serialize sha256 fuel w
              bytes
              (n % u32_mod)
            ≡ some r)
          × IsShrunk w input r
    unfolding shrink swap_or_break
    shrink-IsShrunk zero w bytes input n lt q u = absurd (omega arith)
    shrink-IsShrunk (suc fuel) w bytes input n lt q u =
        let ((new_gen, w'), e, p) = pass-IsPass w bytes q in
        elim (Bool-cases (ltb (length new_gen) (length bytes))) [
          | inl shorter ↦
              let (r, f, s) =
                shrink-IsShrunk fuel w' new_gen input (suc n) (omega (arith, ltb→lt _ _ shorter))
                  p.from.0 (bytes, p.restores, Unwinds-Keeps n w w' bytes input p.from.1 u) in
              (
                r,
                ap
                      (swap_or_break sha1 random page_size max_size serialize sha256 _ bytes
                        (n % u32_mod))
                      e
                    ∙ (rw shorter (
                        ap (shrink sha1 random page_size max_size serialize sha256 fuel w' new_gen)
                          (one_more n)
                        ∙ f)),
                record {
                  count = s.count;
                  iterations = s.iterations;
                  unwinds = s.unwinds;
                  from = (s.from.0, λ id known. s.from.1 id (p.from.1 id known));
                },
              )
          | inr longer ↦ (
            (bytes, n % u32_mod, w'),
            ap (swap_or_break sha1 random page_size max_size serialize sha256 _ bytes (n % u32_mod))
                  e
                ∙ (rw longer refl),
            record {
              count = n;
              iterations = refl;
              unwinds = Unwinds-Keeps n w w' bytes input p.from.1 u;
              from = p.from;
            },
          )
        ]

    publish-Outcome :
        (w v : Writer) (input : List ℕ) (total : ℕ) (info : BackupInfo) (r : Writer × Bool)
        → ChunkStorage.commit random v ≡ r
        → From w v
        → info.size ≡ total
        → info.sha256 ≡ sha256 input
        → (count : ℕ) → info.iterations ≡ count % u32_mod
        → Unwinds count v info.backup_data input
        → Outcome w input total (publish sha1 random page_size max_size serialize sha256 info r)
    unfolding publish
    publish-Outcome w v input total info (w', false) e (q, k) sized hashed count i u = (v, k, e)
    publish-Outcome w v input total info (w', true) e (q, k) sized hashed count i u =
        let result : (ChunkStorage.commit random v).0 ≡ w' = ap (λ (r : Writer × Bool). r.0) e in
        let same : Keeps sha1 random v w' = λ id known.
          rw (sym (ap (λ (x : Writer). x.index) result) ∙ commit-index random v) known in
        record {
          size = sized;
          digest = hashed;
          count = count;
          iterations = i;
          unwinds = Unwinds-Keeps count v w' info.backup_data input same u;
          keeps = λ id known. same id (k id known);
          stock =
              subst (λ (x : Writer). IsStock (id_of sha1 random) x.index (disk_items x.bundles))
                result
                (commit-IsStock random (id_of sha1 random) v q.1
                  (ap (λ (r : Writer × Bool). r.1) e));
        }

    finish_backup-Outcome :
        (w : Writer) (input : List ℕ) (s : Creator) (total : ℕ)
        → IsCreator sha1 random limit (From w) input s
        → (r : Option BackupInfo × Writer) × (finish_backup sha1 random page_size max_size serialize
              sha256 input s total
            ≡ some r)
          × Outcome w input total r
    unfolding finish_backup
    finish_backup-Outcome w input s total v =
        let p = close-IsPass w input s v in
        let closed = close sha1 random page_size max_size serialize sha256 s in
        let (r, e, d) =
          shrink-IsShrunk (suc (length closed.0)) closed.1 closed.0 input 0 (omega arith) p.from.0
            p.restores in
        let info : BackupInfo = record {
          sha256 = sha256 input;
          size = total;
          iterations = r.1;
          backup_data = r.0;
        } in
        (
          publish sha1 random page_size max_size serialize sha256 info
              (ChunkStorage.commit random r.2),
          rw e refl,
          publish-Outcome w r.2 input total info (ChunkStorage.commit random r.2) refl
              (d.from.0, λ id known. d.from.1 id (p.from.1 id known)) refl refl d.count d.iterations
              d.unwinds,
        )

    -- Backing up a file of less than 2^64 bytes that is read without an error comes to an end. Unless
    -- `commit` throws since a name is taken, it saves the file's size, its digest and data that restore
    -- to its bytes: unpacking the data as often as `iterations` says (a 32-bit counter of the rounds),
    -- and once more, gives the file, where every chunk that an instruction names is known to the
    -- index, as is every chunk known before, and for every id that the index knows the bundle
    -- directory has a chunk, each under the id that its own bytes have. At the start the writer is in
    -- its invariant and holds such a chunk for every id that the index knows, pages and chunks are not
    -- empty, two chunks fit into 32 bits, and a chunk fits into a bundle.
    pub backup-Unwinds :
        (w : Writer) (input : List ℕ)
        → IsPrepared sha1 random limit w
        → length input < u64_mod
        → (r : Option BackupInfo × Writer) × (backup sha1 random page_size max_size serialize sha256
              w input false
            ≡ some r)
          × Outcome w input (length input) r
    unfolding backup after_reading
    backup-Unwinds w input q fits =
        let (s, e, c) =
          read_loop-IsCreator sha1 random limit (From w) (keep-From w) (suc (length input)) [] input
            (new page_size max_size w) 0 (omega arith) (omega (arith, fits)) (start w q) in
        let (r, f, d) = finish_backup-Outcome w input s (length input) c in
        (
          r,
          ap (after_reading sha1 random page_size max_size serialize sha256 input)
                (e ∙ ap (finished s) no_sum)
              ∙ f,
          d,
        )
      where
        no_sum : 0 + length input ≡ length input
        no_sum = omega arith
