-- ===== src/BackupCreator/Tests.antt =====
-- The backup creator at concrete inputs: chunks of up to 4 bytes and a page of 4.
use zbackup.Base.{
  ℕ, ◌≤◌, ◌<◌, ◌≡◌, refl, false, none, List, [], ◌∷◌, ◌++◌, arith, length, replicate,
}
use zbackup.ChunkIndex
use zbackup.ChunkStorage.{Writer}
use zbackup.BackupCreator.{
  Creator, new, get_input_buffer_size, fill_input_buffer, handle_more_data, finish,
}
use zbackup.BackupCreator.Ready.{IsReady, IsReady-Preserved}
use zbackup.BackupCreator.Invariant.{HasWritten, IsCreator}
use zbackup.BackupCreator.Feeding.Input.{handle_more_data-IsCreator, get_input_buffer_size-positive}
use zbackup.BackupCreator.Finishing.Whole.{new-IsCreator, finish-HasWritten}

abbrev sample_sha1 : List ℕ → List ℕ
sample_sha1 bytes = bytes ++ replicate 20 0

abbrev sample_random : ℕ → List ℕ
sample_random n = replicate 24 n

abbrev no_writer : Writer
no_writer = record {
  max_payload_size = 100;
  index = ChunkIndex.new;
  current_bundle = none;
  current_bundle_id = [];
  has_current_bundle_id = false;
  index_file = none;
  pending_bundle_renames = [];
  random_calls = 0;
  bundles = [];
  index_files = [];
}

no_writer-IsReady : IsReady 4 no_writer
no_writer-IsReady = (record { current = tt; pending = tt; listed = tt }, omega arith, omega arith)

started : Creator
started = new 4 4 no_writer

abbrev InOrder : List ℕ → Creator → Type 0
InOrder = IsCreator sample_sha1 sample_random 4 (IsReady 4)

started-InOrder : InOrder [] started
unfolding started
started-InOrder =
    new-IsCreator sample_sha1 sample_random 4 (IsReady 4)
      (IsReady-Preserved sample_sha1 sample_random 4) 4 4 no_writer (omega arith) (omega arith)
      (omega arith) (omega arith) no_writer-IsReady

abbrev six_bytes : List ℕ
six_bytes = 5 ∷ 6 ∷ 7 ∷ 8 ∷ 9 ∷ 255 ∷ []

eight_free : get_input_buffer_size started ≡ 8
unfolding started get_input_buffer_size new
eight_free = refl

six_fit : length six_bytes ≤ get_input_buffer_size started
six_fit = omega (arith, eight_free)

abbrev fed : Creator
fed =
    handle_more_data sample_sha1 sample_random (fill_input_buffer started six_bytes)
      (length six_bytes)

handle_more_data-IsCreator_example : InOrder ([] ++ six_bytes) fed
handle_more_data-IsCreator_example =
    handle_more_data-IsCreator sample_sha1 sample_random 4 (IsReady 4)
      (IsReady-Preserved sample_sha1 sample_random 4) [] started six_bytes started-InOrder six_fit

fed-InOrder : InOrder six_bytes fed
fed-InOrder =
    handle_more_data-IsCreator sample_sha1 sample_random 4 (IsReady 4)
      (IsReady-Preserved sample_sha1 sample_random 4) [] started six_bytes started-InOrder six_fit

get_input_buffer_size-positive_example : 0 < get_input_buffer_size fed
get_input_buffer_size-positive_example =
    get_input_buffer_size-positive sample_sha1 sample_random 4 (IsReady 4)
      (IsReady-Preserved sample_sha1 sample_random 4) fed fed-InOrder.shaped

finish-HasWritten_example :
    HasWritten sample_sha1 sample_random 4
      (IsReady 4)
      (finish sample_sha1 sample_random fed)
      six_bytes
finish-HasWritten_example =
    finish-HasWritten sample_sha1 sample_random 4 (IsReady 4)
      (IsReady-Preserved sample_sha1 sample_random 4) six_bytes fed fed-InOrder
