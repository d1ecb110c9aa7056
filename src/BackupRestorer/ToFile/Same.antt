-- ===== src/BackupRestorer/ToFile/Same.antt =====
-- Restoring to a file gives what restoring to the standard output gives.
use zbackup.Base.{
  ℕ, zero, suc, ◌≤◌, ◌≡◌, refl, sym, ap, ◌∙◌, inl, inr, subst, Bool, true, false, Option, none,
  some, List, [], ◌∷◌, ◌++◌, arith, length, drop, All, All-append, length-append, length-drop,
  append-nil, Bool-cases, if_true, if◌then◌else◌, ltb, Option-cases,
}
use zbackup.Base.Bytes.{bytes_eq}
use zbackup.Base.Reads.{get_or-behind}
use mathlib.Core.Option.{some-injective, none-ne-some}
use zbackup.ChunkId.{ChunkId}
use zbackup.ChunkIndex.{BundleId}
use zbackup.BackupCreator.{BackupInstruction}
use zbackup.BackupRestorer.{
  Outputs, ChunkMap, restore_all, restore, restore_iterations, restore_to_stdin, restore_stdout,
}
use zbackup.BackupRestorer.ToFile.{write_all, writes_of, to_map, map_of, restore_to_file}
use zbackup.BackupRestorer.ToFile.Writes.{Any, IsPart, IsIn, write_all-whole}
use zbackup.BackupRestorer.ToFile.Covering.{
  AnyOf, Any-append_left, Any-append_right, Reordered, Reordered-All, Reordered-Any,
}
use zbackup.BackupRestorer.ToFile.Filling.{
  plain, filling, HasByte, Covers, parts-append, restore_all-Covers,
}
use zbackup.BackupRestorer.ToFile.Printing.{restore_all-restore_stdout}
use zbackup.BackupRestorer.ToFile.Mapping.{restore_map-parts}

-- The file in the end, where it had other bytes behind.
abbrev pub with_tail : List ℕ → List ℕ → List ℕ
with_tail out old = out ++ drop (length out) old

-- The index knows the size of every chunk that can be got.
module _ (get : ChunkId → Option (List ℕ)) (get_bundle_id : ChunkId → Option (BundleId × ℕ))
    (parse : List ℕ → Option (List BackupInstruction))
    (sized : (id : ChunkId) (chunk : List ℕ)
      → get id ≡ some chunk
      → (bundle_id : BundleId) × (get_bundle_id id ≡ some (bundle_id, length chunk))) where
  -- The steps that succeed where the checksum is accepted.
  record Stages (sha256 : List ℕ → List ℕ) (digest : List ℕ) (n : ℕ) (saved out : List ℕ)
      : Type 0 where
    last : List ℕ × Option (List ChunkId)
    instrs : List BackupInstruction
    m : ChunkMap
    writes : List (ℕ × List ℕ)
    unpacked : restore_iterations get get_bundle_id parse n saved none ≡ some last
    parsed : parse last.0 ≡ some instrs
    filled :
        restore_all get get_bundle_id parse instrs (filling [] [] 0)
        ≡ some (filling m writes (length out))
    covers : Covers get get_bundle_id parse sized out m writes
    checked : bytes_eq (sha256 out) digest ≡ true

  Stages-restore_all :
      (sha256 : List ℕ → List ℕ) (digest : List ℕ) (n : ℕ) (saved out : List ℕ)
      (last : List ℕ × Option (List ChunkId)) (instrs : List BackupInstruction)
      → restore_iterations get get_bundle_id parse n saved none ≡ some last
      → parse last.0 ≡ some instrs
      → restore_all get get_bundle_id parse instrs (plain []) ≡ some (plain out)
      → bytes_eq (sha256 out) digest ≡ true
      → Stages sha256 digest n saved out
  Stages-restore_all sha256 digest n saved out last instrs unpacked parsed sunk checked =
      elim (restore_all-Covers get get_bundle_id parse sized instrs [] [] []
        (record { parts = tt; chunks = tt; all = λ i lt. absurd (omega (arith, lt)) })) [
          | inl failed ↦ absurd (cc (failed, sunk))
          | inr (whole, m, writes, sunk', filled, covers) ↦
              let same : whole ≡ out =
                some-injective whole out
                  (ap (λ (t : Outputs). t.output) (some-injective _ _ (sym sunk' ∙ sunk))) in
              subst (λ (o : List ℕ). Stages sha256 digest n saved o) same
                (record {
                  last = last;
                  instrs = instrs;
                  m = m;
                  writes = writes;
                  unpacked = unpacked;
                  parsed = parsed;
                  filled = filled;
                  covers = covers;
                  checked =
                      subst (λ (o : List ℕ). bytes_eq (sha256 o) digest ≡ true) (sym same) checked;
                })
        ]

  stages :
      (sha256 : List ℕ → List ℕ) (terminal : Bool) (digest : List ℕ) (n : ℕ) (saved out : List ℕ)
      → restore_to_stdin get get_bundle_id parse sha256 terminal digest n saved ≡ some out
      → Stages sha256 digest n saved out
  unfolding restore_to_stdin
  stages sha256 true digest n saved out h = absurd (none-ne-some out h)
  stages sha256 false digest n saved out h =
      elim (Option-cases (restore_iterations get get_bundle_id parse n saved none)) [
        | inl failed ↦ absurd (none-ne-some out (rw failed at h))
        | inr (last, unpacked) ↦ elim (Option-cases (parse last.0)) [
          | inl failed ↦ absurd (none-ne-some out (rw (unpacked, failed) at h))
          | inr (instrs, parsed) ↦
              elim (Option-cases (restore_stdout get get_bundle_id parse instrs [])) [
                | inl failed ↦ absurd (none-ne-some out (rw (unpacked, parsed, failed) at h))
                | inr (whole, printed) ↦ elim (Bool-cases (bytes_eq (sha256 whole) digest)) [
                  | inr wrong ↦
                      absurd (none-ne-some out (rw (unpacked, parsed, printed, wrong) at h))
                  | inl checked ↦
                      subst (λ (o : List ℕ). Stages sha256 digest n saved o)
                        (some-injective whole out (rw (unpacked, parsed, printed, checked) at h))
                        (Stages-restore_all sha256 digest n saved whole last instrs unpacked parsed
                          (restore_all-restore_stdout get get_bundle_id parse instrs [] whole
                            printed)
                          checked)
                ]
              ]
        ]
      ]

  written-with_tail :
      (out old : List ℕ) (m : ChunkMap) (writes more : List (ℕ × List ℕ))
      → Covers get get_bundle_id parse sized out m writes
      → All (IsPart out) more
      → ((i : ℕ) → AnyOf (HasByte get get_bundle_id parse sized i) m → Any (IsIn i) more)
      → write_all (writes ++ more) old ≡ with_tail out old
  written-with_tail out old m writes more h parts covered =
      write_all-whole (out ++ drop (length out) old) (writes ++ more) old
        (omega (arith, length-append out (drop (length out) old), length-drop (length out) old))
        (parts-append get get_bundle_id parse sized out _ (writes ++ more)
          (All-append (IsPart out) writes more h.parts parts))
        (λ i lt. elim (Bool-cases (ltb i (length out))) [
          | inl inside ↦ inl (elim (h.all i (ground (arith, inside))) [
            | inl here ↦ Any-append_left (IsIn i) writes more here
            | inr there ↦ Any-append_right (IsIn i) writes more (covered i there)
          ])
          | inr behind_it ↦
              let le : length out ≤ i = ground (arith, behind_it) in
              inr (
                omega (
                  arith,
                  lt,
                  le,
                  length-append out (drop (length out) old),
                  length-drop (length out) old,
                ),
                sym (get_or-behind out old i le),
              )
        ])

  module _ (order : ChunkMap → ChunkMap) (reorders : (m : ChunkMap) → Reordered (order m) m) where
    -- Where a backup is written to the standard output with an accepted checksum, restoring it to a file
    -- puts the same bytes into the file, in whatever order the hash map lists the bundles. Bytes that
    -- the file had behind them stay, and the checksum of the whole file is compared. The index knows
    -- the size of every chunk that can be got.
    pub restore_to_file-with_tail :
        (sha256 : List ℕ → List ℕ) (terminal : Bool) (digest : List ℕ) (n : ℕ)
        (saved old out : List ℕ)
        → restore_to_stdin get get_bundle_id parse sha256 terminal digest n saved ≡ some out
        → restore_to_file get get_bundle_id parse order sha256 digest n saved old ≡ (
            if bytes_eq (sha256 (with_tail out old)) digest then some (with_tail out old) else none)
    unfolding restore_to_file restore to_map map_of writes_of
    restore_to_file-with_tail sha256 terminal digest n saved old out h =
        let s = stages sha256 terminal digest n saved out h in
        let (more, made, parts, covered) =
          restore_map-parts get get_bundle_id parse sized out (order s.m) s.writes
            (Reordered-All _ (reorders s.m) s.covers.chunks) in
        let file =
          written-with_tail out old s.m s.writes more s.covers parts
            (λ i there. covered i (Reordered-Any _ (reorders s.m) there)) in
        rw (s.unpacked, s.parsed, s.filled, made, file) refl

    -- Where a backup is written to the standard output with an accepted checksum, restoring it to a new
    -- file, or to one that is not longer than the data, puts the same bytes into the file and accepts
    -- the checksum, in whatever order the hash map lists the bundles. The index knows the size of every
    -- chunk that can be got.
    pub restore_to_file-same :
        (sha256 : List ℕ → List ℕ) (terminal : Bool) (digest : List ℕ) (n : ℕ)
        (saved old out : List ℕ)
        → length old ≤ length out
        → restore_to_stdin get get_bundle_id parse sha256 terminal digest n saved ≡ some out
        → restore_to_file get get_bundle_id parse order sha256 digest n saved old ≡ some out
    restore_to_file-same sha256 terminal digest n saved old out short h =
        let s = stages sha256 terminal digest n saved out h in
        let none_left : with_tail out old ≡ out =
          ap (λ (t : List ℕ). out ++ t) (drop_whole (length out) old short) ∙ append-nil out in
        restore_to_file-with_tail sha256 terminal digest n saved old out h
        ∙ ap (λ (t : List ℕ). if bytes_eq (sha256 t) digest then some t else none) none_left
        ∙ if_true _ _ s.checked
      where
        drop_whole : (k : ℕ) (xs : List ℕ) → length xs ≤ k → drop k xs ≡ []
        drop_whole zero [] le = refl
        drop_whole zero (x ∷ xs) le = absurd (omega (arith, le))
        drop_whole (suc k) [] le = refl
        drop_whole (suc k) (x ∷ xs) le = drop_whole k xs (omega (arith, le))
