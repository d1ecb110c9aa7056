-- ===== src/ChunkStorage/Tests.antt =====
-- The storage writer at concrete inputs: bundles of up to 5 bytes.
use zbackup.Base.{
  ℕ, ◌+◌, ◌≡◌, refl, ap, ◌∙◌, ◌⊎◌, true, false, Option, none, some, List, [], ◌∷◌, ◌++◌, arith,
  replicate,
}
use mathlib.Core.List.{Mem, Perm, mem-cons_self}
use zbackup.ChunkId.{ChunkId, to_blob}
use zbackup.ChunkIndex
use zbackup.ChunkIndex.{BundleId}
use zbackup.ChunkIndex.Entries.{entry, entry-new, is_none}
use zbackup.Bundle
use zbackup.Bundle.{Creator, payload_size}
use zbackup.Bundle.Items.{
  empty-IsBundle, add_chunk-IsBundle, payload_size-add_chunk, payload_size-empty,
}
use zbackup.ChunkStorage.{
  Writer, IndexRecord, add, commit, reset, finish_current_bundle, finish_with, records_of, is_taken,
  finish_bundle, get_current_bundle_id, add_bundle,
}
use zbackup.ChunkStorage.Items.{disk_items, stored}
use zbackup.ChunkStorage.Writing.{stored-add, added_items}
use zbackup.ChunkStorage.Invariant.{IsFilled, IsWriter, add-IsWriter}
use zbackup.ChunkStorage.Moving.{AllFree, is_named}
use zbackup.ChunkStorage.Publishing.{IsPublished, commit-stored, commit-IsPublished, reset-stored}
use zbackup.ChunkStorage.Overflow.{IsOverflow, add-IsOverflow}

abbrev sample_random : ℕ → List ℕ
sample_random n = replicate 24 n

abbrev some_id : ℕ → ChunkId
some_id n = record { crypto_hash = replicate 16 n; rolling_hash = n }

abbrev three_bytes : List ℕ
three_bytes = 1 ∷ 2 ∷ 3 ∷ []

-- A bundle with one chunk of three bytes.
abbrev half_full : Creator
half_full = Bundle.add_chunk Bundle.empty (to_blob (some_id 1)) three_bytes 3

abbrev writer_with : Option Creator → List (Creator × BundleId) → Option (List IndexRecord) → Writer
writer_with current pending index_file = record {
  max_payload_size = 5;
  index = ChunkIndex.new;
  current_bundle = current;
  current_bundle_id = replicate 24 9;
  has_current_bundle_id = true;
  index_file = index_file;
  pending_bundle_renames = pending;
  random_calls = 0;
  bundles = [];
  index_files = [];
}

abbrev filling : Writer
filling = writer_with (some half_full) [] none

abbrev waiting_bundle : Writer
waiting_bundle =
    writer_with none ((half_full, replicate 24 9) ∷ [])
      (some ((half_full.info, replicate 24 9) ∷ []))

three : payload_size half_full ≡ 3
three =
    payload_size-add_chunk Bundle.empty (to_blob (some_id 1)) three_bytes 3 refl
    ∙ ap (λ (n : ℕ). n + 3) payload_size-empty

half_full-IsFilled : IsFilled 5 half_full
half_full-IsFilled = (
  add_chunk-IsBundle Bundle.empty (to_blob (some_id 1)) three_bytes 3 refl (omega arith)
      empty-IsBundle,
  omega (arith, three),
  omega (arith, three),
)

filling-IsWriter : IsWriter filling
filling-IsWriter = record { current = half_full-IsFilled; pending = tt; listed = tt }

waiting-IsWriter : IsWriter waiting_bundle
unfolding records_of
waiting-IsWriter = record {
  current = tt;
  pending = (half_full-IsFilled, tt);
  listed = (mem-cons_self, tt);
}

stored-add_example :
    ((add sample_random filling (some_id 2) three_bytes 3).1
      ≡ is_none (entry ChunkIndex.new (some_id 2)))
    × (stored (add sample_random filling (some_id 2) three_bytes 3).0
        ≡ stored filling
          ++ added_items sample_random
              (some_id 2)
              three_bytes
              3
              refl
              (omega arith)
              (is_none (entry ChunkIndex.new (some_id 2))))
stored-add_example =
    stored-add sample_random (some_id 2) three_bytes 3 refl (omega arith) filling
      half_full-IsFilled.0

add-IsWriter_example : IsWriter (add sample_random filling (some_id 2) three_bytes 3).0
add-IsWriter_example =
    add-IsWriter sample_random (some_id 2) three_bytes 3 refl (omega arith) (omega arith) filling
      (omega arith) filling-IsWriter

add-IsOverflow_example :
    IsOverflow sample_random filling half_full
      (some_id 2)
      three_bytes
      3
      (add sample_random filling (some_id 2) three_bytes 3)
add-IsOverflow_example =
    add-IsOverflow sample_random filling half_full (some_id 2) three_bytes 3 refl refl
      (omega (arith, three)) (entry-new (some_id 2))

filling-AllFree :
    AllFree (finish_current_bundle sample_random filling).pending_bundle_renames filling.bundles
unfolding finish_current_bundle finish_with finish_bundle get_current_bundle_id add_bundle is_taken
    is_named
filling-AllFree = (refl, refl, tt)

index_name-free :
    is_taken
      (sample_random (finish_current_bundle sample_random filling).random_calls)
      filling.index_files
    ≡ false
unfolding is_taken
index_name-free = refl

commit-stored_example :
    ((commit sample_random filling).1 ≡ true)
    × ((commit sample_random filling).0.current_bundle ≡ none)
    × ((commit sample_random filling).0.pending_bundle_renames ≡ [])
    × ((commit sample_random filling).0.index_file ≡ none)
    × Perm (disk_items (commit sample_random filling).0.bundles) (stored filling)
commit-stored_example = commit-stored sample_random filling filling-AllFree index_name-free

waits :
    Mem {A = Creator × BundleId}
      (half_full, replicate 24 9)
      (finish_current_bundle sample_random waiting_bundle).pending_bundle_renames
unfolding finish_current_bundle finish_with
waits = mem-cons_self

commit-IsPublished_example :
    (((commit sample_random waiting_bundle).1 ≡ true)
      × (is_taken (replicate 24 9) waiting_bundle.bundles ≡ false)
      × Mem {A = BundleId × Creator}
          (replicate 24 9, half_full)
          (commit sample_random waiting_bundle).0.bundles
      × IsPublished
          (commit sample_random waiting_bundle).0.index_files
          (half_full.info, replicate 24 9))
    ⊎ (((commit sample_random waiting_bundle).1 ≡ false)
        × ((commit sample_random waiting_bundle).0.index_files ≡ waiting_bundle.index_files)
        × ((more : List (BundleId × Creator)) × ((commit sample_random waiting_bundle).0.bundles
              ≡ waiting_bundle.bundles ++ more)))
commit-IsPublished_example =
    commit-IsPublished sample_random waiting_bundle half_full (replicate 24 9) waiting-IsWriter
      waits

reset-stored_example :
    (stored (reset sample_random filling) ≡ disk_items filling.bundles)
    × ((reset sample_random filling).bundles ≡ filling.bundles)
    × ((reset sample_random filling).index_files ≡ filling.index_files)
    × ((reset sample_random filling).index_file ≡ none)
reset-stored_example = reset-stored sample_random filling
