-- ===== src/Backup.antt =====
-- zutils.cc: `ZBackup::backupFromFileHandle`. The file is the bytes that are left in it and
-- whether its end is an error; `fread` takes as many as it is asked for, while there are any.
-- The first number of a loop is fuel.
pub mod Passes
pub mod Shrinking
mod Tests
use zbackup.Base.{
  ℕ, zero, suc, ◌+◌, ◌-◌, ◌*◌, ◌/◌, ◌%◌, ◌^◌, ◌≤◌, ◌<◌, ◌≡◌, refl, sym, ap, ap₂, ◌∙◌, subst, ◌≢◌,
  ◌↔◌, ◌⊎◌, inl, inr, Bool, true, false, not, ◌&&◌, ◌||◌, Option, none, some, List, [], ◌∷◌, ◌++◌,
  map, reverse, append-nil, append_assoc, arith, ltb, leb, ◌==◌, if◌then◌else◌, ltb→lt, lt→ltb,
  ==_iff, Bool-cases, Option-cases, length, get_or, set, take, drop, replicate, All, length-append,
  length-set, length-take, length-drop, length-replicate, take-append-drop, take-append,
  drop-append, All-append, take_at, drop_at, take_all, All-take, All-drop, overwrite,
  length-overwrite, take-overwrite, set-overwrite, lt_wf,
}
use zbackup.Base.Bytes.{
  IsByte, u64_mod, u32_mod, bytes_eq, bytes_eq_iff, bytes_eq_refl, memcmp, to_le, from_le,
  length-to_le, to_le-IsByte, from_le-to_le, to_le-from_le, from_le-lt, add32, sub32, add32_fits,
  sub32_fits,
}
use mathlib.Core.Option
use zbackup.ChunkStorage
use zbackup.ChunkStorage.{Writer}
use zbackup.BackupCreator
use zbackup.BackupCreator.{Creator, BackupInstruction}

-- What the reading loop ends with.
pub data ReadResult : Type 0 where
  finished : Creator → ℕ → ReadResult
  input_error : ReadResult
  out_of_fuel : ReadResult

-- The parts of the message of zbackup.proto that the algorithm sets.
pub record BackupInfo : Type 0 where
  pub sha256 : List ℕ
  pub size : ℕ
  pub iterations : ℕ
  pub backup_data : List ℕ

-- `bufferSize > left ? left : bufferSize`
abbrev pub to_copy : ℕ → ℕ → ℕ
to_copy buffer_size left = if ltb left buffer_size then left else buffer_size

module _ (sha1 : List ℕ → List ℕ) (random : ℕ → List ℕ) where
  -- `memcpy( getInputBuffer(), ptr, toCopy ); handleMoreData( toCopy );`
  pub feed : Creator → List ℕ → ℕ → Creator
  feed s input n =
      BackupCreator.handle_more_data sha1 random (BackupCreator.fill_input_buffer s (take n input))
        n

  -- `while( left )`
  pub copy_loop : ℕ → List ℕ → Creator → Option Creator
  unfolding feed
  copy_loop zero input s = none
  copy_loop (suc fuel) [] s = some s
  copy_loop (suc fuel) (b ∷ bs) s =
      let n = to_copy (BackupCreator.get_input_buffer_size s) (suc (length bs)) in
      copy_loop fuel (drop n (b ∷ bs)) (feed s (b ∷ bs) n)

  -- The loop that reads the file; the total is a `uint64_t`.
  pub read_loop : ℕ → Bool → List ℕ → Creator → ℕ → ReadResult
  unfolding feed
  read_loop zero fails input s total = out_of_fuel
  read_loop (suc fuel) fails [] s total = if fails then input_error else finished s total
  read_loop (suc fuel) fails (b ∷ bs) s total =
      let rd = to_copy (BackupCreator.get_input_buffer_size s) (suc (length bs)) in
      if rd == 0
      then input_error
      else read_loop fuel fails (drop rd (b ∷ bs)) (feed s (b ∷ bs) rd) ((total + rd) % u64_mod)

  -- `serialize` is the stream of the messages that `outputInstruction` wrote.
  module _ (page_size max_size : ℕ) (serialize : List BackupInstruction → List ℕ)
      (sha256 : List ℕ → List ℕ) where
    pub close : Creator → List ℕ × Writer
    close s =
        let r = BackupCreator.finish sha1 random s in
        (serialize (BackupCreator.get_backup_data r).0, r.writer)

    -- One round of the shrinking loop: the serialized data is backed up itself.
    pub pass : Writer → List ℕ → Option (List ℕ × Writer)
    unfolding close
    pass w serialized =
        Option.map close
          (copy_loop (suc (length serialized)) serialized (BackupCreator.new page_size max_size w))

    -- What one pass gave is better, and the loop goes on with `again`, or it is not, and the loop breaks.
    swap_or_break :
        (Writer → List ℕ → Option (List ℕ × ℕ × Writer))
        → List ℕ
        → ℕ
        → Option (List ℕ × Writer)
        → Option (List ℕ × ℕ × Writer)
    swap_or_break again serialized iterations none = none
    swap_or_break again serialized iterations (some (new_gen, w)) =
        if ltb (length new_gen) (length serialized)
        then again w new_gen
        else some (serialized, iterations, w)

    -- The data, the number of iterations and the writer when the loop breaks.
    pub shrink : ℕ → Writer → List ℕ → ℕ → Option (List ℕ × ℕ × Writer)
    unfolding swap_or_break
    shrink zero w serialized iterations = none
    shrink (suc fuel) w serialized iterations =
        swap_or_break (λ w' new_gen. shrink fuel w' new_gen ((iterations + 1) % u32_mod)) serialized
          iterations (pass w serialized)

    -- `commit` throws where a name is taken, and then no info is saved.
    pub publish : BackupInfo → Writer × Bool → Option BackupInfo × Writer
    publish info (w, true) = (some info, w)
    publish info (w, false) = (none, w)

    -- The rest of the function once the file is read: the info to save, if `commit` did not throw, and
    -- the writer after `commit`.
    pub finish_backup : List ℕ → Creator → ℕ → Option (Option BackupInfo × Writer)
    unfolding close publish
    finish_backup input s total =
        let (serialized, w) = close s in
        Option.map
          (λ (r : List ℕ × ℕ × Writer).
            publish
              (record { sha256 = sha256 input; size = total; iterations = r.1; backup_data = r.0 })
              (ChunkStorage.commit random r.2))
          (shrink (suc (length serialized)) w serialized 0)

    after_reading : List ℕ → ReadResult → Option (Option BackupInfo × Writer)
    unfolding finish_backup
    after_reading input (finished s total) = finish_backup input s total
    after_reading input input_error = none
    after_reading input out_of_fuel = none

    pub backup : Writer → List ℕ → Bool → Option (Option BackupInfo × Writer)
    unfolding after_reading
    backup w input fails =
        after_reading input
          (read_loop (suc (length input)) fails input (BackupCreator.new page_size max_size w) 0)
