-- ===== src/BackupRestorer/ToFile/Printing.antt =====
-- `restore` to the `StdoutWriter`, beside `restore` to a string.
use zbackup.Base.{
  ℕ, ◌≡◌, ap, ◌∙◌, inl, inr, Option, none, some, List, [], ◌∷◌, ◌++◌, ◌>>=◌, Option-cases,
}
use mathlib.Core.Option.{some-injective, none-ne-some}
use zbackup.ChunkId.{ChunkId, of_blob}
use zbackup.ChunkIndex.{BundleId}
use zbackup.BackupCreator.{BackupInstruction}
use zbackup.BackupRestorer.{
  Outputs, save_data, insert_chunk, map_bytes, output_chunk, map_chunk, emit_id, restore_chunk,
  restore_bytes, restore_all, fwrite, write_chunk, write_bytes, restore_stdout,
}
use zbackup.BackupRestorer.ToFile.Filling.{plain}

module _ (get : ChunkId → Option (List ℕ)) (get_bundle_id : ChunkId → Option (BundleId × ℕ))
    (parse : List ℕ → Option (List BackupInstruction)) where
  fwrite-some :
      (old bytes out : List ℕ)
      → fwrite get get_bundle_id parse old bytes ≡ some out
      → old ++ bytes ≡ out
  unfolding fwrite
  fwrite-some old [] out h = absurd (none-ne-some out h)
  fwrite-some old (b ∷ bytes) out h = some-injective _ _ h

  write_chunk-restore_chunk :
      (chunk : Option (List ℕ)) (old out : List ℕ)
      → write_chunk get get_bundle_id parse chunk old ≡ some out
      → restore_chunk get get_bundle_id parse chunk (plain old) ≡ some (plain out)
  unfolding write_chunk restore_chunk emit_id output_chunk map_chunk insert_chunk save_data
  write_chunk-restore_chunk none old out h =
      ap (λ (t : List ℕ). some (plain t)) (some-injective _ _ h)
  write_chunk-restore_chunk (some blob) old out h = elim (Option-cases (of_blob blob)) [
    | inl bad ↦ absurd (none-ne-some out (rw bad at h))
    | inr (id, good) ↦ elim (Option-cases (get id)) [
      | inl missing ↦ absurd (none-ne-some out (rw (good, missing) at h))
      | inr (bytes, got) ↦
          rw (good, got)
            (ap (λ (t : List ℕ). some (plain t)) (fwrite-some old bytes out (rw (good, got) at h)))
    ]
  ]

  write_bytes-restore_bytes :
      (bytes : Option (List ℕ)) (old out : List ℕ)
      → write_bytes get get_bundle_id parse bytes old ≡ some out
      → restore_bytes get get_bundle_id parse bytes (plain old) ≡ plain out
  unfolding write_bytes restore_bytes save_data map_bytes
  write_bytes-restore_bytes none old out h = ap plain (some-injective _ _ h)
  write_bytes-restore_bytes (some bytes) old out h = ap plain (fwrite-some old bytes out h)

  -- What the standard output takes, a string takes too.
  pub restore_all-restore_stdout :
      (instrs : List BackupInstruction) (old out : List ℕ)
      → restore_stdout get get_bundle_id parse instrs old ≡ some out
      → restore_all get get_bundle_id parse instrs (plain old) ≡ some (plain out)
  unfolding restore_stdout restore_all
  restore_all-restore_stdout [] old out h =
      ap (λ (t : List ℕ). some (plain t)) (some-injective _ _ h)
  restore_all-restore_stdout (i ∷ instrs) old out h =
      elim (Option-cases (write_chunk get get_bundle_id parse i.chunk_to_emit old)) [
        | inl failed ↦ absurd (none-ne-some out (rw failed at h))
        | inr (mid, first) ↦
            elim (Option-cases (write_bytes get get_bundle_id parse i.bytes_to_emit mid)) [
              | inl failed ↦ absurd (none-ne-some out (rw (first, failed) at h))
              | inr (last, second) ↦
                  let rest = restore_all-restore_stdout instrs last out (rw (first, second) at h) in
                  ap
                    (λ (o : Option Outputs). o >>= (λ s'.
                      restore_all get get_bundle_id parse instrs
                        (restore_bytes get get_bundle_id parse i.bytes_to_emit s')))
                    (write_chunk-restore_chunk i.chunk_to_emit old mid first)
                  ∙ ap (restore_all get get_bundle_id parse instrs)
                      (write_bytes-restore_bytes i.bytes_to_emit mid last second)
                  ∙ rest
            ]
      ]
