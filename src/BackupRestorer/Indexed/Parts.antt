-- ===== src/BackupRestorer/Indexed/Parts.antt =====
-- `saveData` reads the part of the data that it is asked for.
use zbackup.Base.{
  ℕ, ◌+◌, ◌≤◌, ◌<◌, ◌≡◌, refl, sym, ap, ◌∙◌, false, Option, none, some, List, [], ◌∷◌, ◌++◌, arith,
  ltb, if_false, length, take, drop, length-drop, append-nil, append_assoc, ◌>>=◌,
}
use zbackup.ChunkId.{ChunkId}
use zbackup.ChunkIndex.{BundleId}
use zbackup.BackupCreator.{BackupInstruction}
use zbackup.BackupRestorer.{
  Outputs, save_data, insert_chunk, map_bytes, output_chunk, map_chunk, emit_id, restore_chunk,
  restore_bytes, restore_all, restore,
}
use zbackup.BackupRestorer.Indexed
use zbackup.BackupRestorer.Indexed.{
  IndexedRestorer, Outputer, out, advance, save_bytes, save_chunk, save_step, save_loop, save_from,
  new, index_all, find_start,
}
use zbackup.BackupRestorer.Indexed.Outputting.{at}
use zbackup.BackupRestorer.Indexed.Finding.{
  nothing, some_bytes, chunk, AllGive, concat, index_of, IsWithin, index_all-Gives,
  find_start-IsWithin,
}
use zbackup.BackupRestorer.Indexed.Reading.{save_loop-Reads}

-- A sink that has these bytes.
abbrev pub sunk : List ℕ → Outputs
sunk bytes = record {
  output = some bytes;
  chunk_set = none;
  chunk_map = none;
  seek_out = none;
  position = 0;
}

module _ (get : ChunkId → Option (List ℕ)) (get_bundle_id : ChunkId → Option (BundleId × ℕ))
    (parse : List ℕ → Option (List BackupInstruction))
    (sized : (id : ChunkId) (chunk : List ℕ)
      → get id ≡ some chunk
      → (bundle_id : BundleId) × (get_bundle_id id ≡ some (bundle_id, length chunk))) where
  restore_all-Gives :
      (instrs : List BackupInstruction) (pieces : List (List ℕ)) (old : List ℕ)
      → AllGive get instrs pieces
      → restore_all get get_bundle_id parse instrs (sunk old) ≡ some (sunk (old ++ concat pieces))
  unfolding restore_all restore_chunk emit_id output_chunk map_chunk insert_chunk save_data
      restore_bytes map_bytes
  restore_all-Gives [] [] old h = ap (λ (t : List ℕ). some (sunk t)) (sym (append-nil old))
  restore_all-Gives [] (piece ∷ pieces) old h = absurd h
  restore_all-Gives (instr ∷ instrs) [] old h = absurd h
  restore_all-Gives (instr ∷ instrs) (piece ∷ pieces) old (nothing c b e, h) =
      rw (c, b, e) (restore_all-Gives instrs pieces old h)
  restore_all-Gives (instr ∷ instrs) (piece ∷ pieces) old (some_bytes c b, h) =
      rw (c, b)
        (restore_all-Gives instrs pieces (old ++ piece) h
          ∙ ap (λ (t : List ℕ). some (sunk t)) (append_assoc old piece (concat pieces)))
  restore_all-Gives (instr ∷ instrs) (piece ∷ pieces) old (chunk blob id c b good got, h) =
      rw (c, b, good, got)
        (restore_all-Gives instrs pieces (old ++ piece) h
          ∙ ap (λ (t : List ℕ). some (sunk t)) (append_assoc old piece (concat pieces)))

  -- For instructions that can be executed, each with bytes or a chunk but not both, `restore` writes
  -- the whole data, the restorer's size is their length, and `saveData` gives the part from the offset
  -- on, if it is not empty and lies inside. The index knows the size of every chunk that can be got.
  pub save_data-part :
      (saved : List ℕ) (instrs : List BackupInstruction) (pieces : List (List ℕ)) (offset size : ℕ)
      → parse saved ≡ some instrs
      → AllGive get instrs pieces
      → 0 < size
      → offset + size ≤ length (concat pieces)
      → (r : IndexedRestorer) × (restore get get_bundle_id parse saved (sunk [])
          ≡ some (sunk (concat pieces)))
        × (new get get_bundle_id parse saved ≡ some r)
        × (r.total_size ≡ length (concat pieces))
        × (Indexed.save_data get get_bundle_id parse r offset size
            ≡ some (take size (drop offset (concat pieces))))
  unfolding new Indexed.save_data restore
  save_data-part saved instrs pieces offset size parsed h more inside =
      let r : IndexedRestorer = record {
        instructions = index_of instrs pieces 0;
        total_size = 0 + length (concat pieces);
      } in
      let (instrs', pieces', position', k', found, same, within, dropped, gives) =
        find_start-IsWithin get instrs pieces 0 offset h (omega (arith, more, inside)) in
      let left : k' + size ≤ length (concat pieces') = omega (
        arith,
        inside,
        more,
        ap length dropped,
        length-drop offset (concat pieces),
        length-drop k' (concat pieces'),
      ) in
      let (o, made, got) =
        save_loop-Reads get get_bundle_id parse instrs' pieces' position' k' [] size gives within
          more left in
      let fine : ltb (0 + length (concat pieces)) (offset + size) ≡ false =
        ground (arith, inside) in
      let offset_same : position' + k' ≡ offset = omega (arith, same) in
      (
        r,
        (rw parsed (restore_all-Gives instrs pieces [] h)),
        (rw parsed (rw (index_all-Gives get get_bundle_id parse sized instrs pieces 0 h) refl)),
        omega arith,
        if_false _ _ fine
            ∙ ap
                (λ (i : List (ℕ × BackupInstruction)).
                  save_from get get_bundle_id parse i (at offset [] size))
                (ap (λ (n : ℕ). find_start n (index_of instrs pieces 0)) {x = offset}
                    {y = 0 + offset} (omega arith)
                  ∙ found)
            ∙ from_loop instrs' pieces' position' k' within gives offset size
            ∙ ap
                (λ (n : ℕ).
                  save_loop get get_bundle_id parse (index_of instrs' pieces' position') position'
                    (at n [] size)
                  >>= λ (t : Outputer). some t.data_)
                (sym offset_same)
            ∙ ap (λ (m : Option Outputer). m >>= λ (t : Outputer). some t.data_) made
            ∙ ap some (got ∙ ap (take size) (sym dropped)),
      )
    where
      from_loop :
          (is : List BackupInstruction) (ps : List (List ℕ)) (position k : ℕ)
          → IsWithin k ps
          → AllGive get is ps
          → (start size : ℕ)
          → save_from get get_bundle_id parse (index_of is ps position) (at start [] size) ≡ (
              save_loop get get_bundle_id parse
                (index_of is ps position)
                position
                (at start [] size)
              >>= λ (t : Outputer). some t.data_)
      from_loop [] [] position k within gives start size = absurd within
      from_loop [] (p ∷ ps) position k within gives start size = absurd gives
      from_loop (i ∷ is) [] position k within gives start size = absurd gives
      from_loop (i ∷ is) (p ∷ ps) position k within gives start size = unfold save_from in refl
