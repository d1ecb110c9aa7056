-- ===== src/ChunkStorage.antt =====
-- chunk_storage.hh and chunk_storage.cc: the `Writer`, which fills bundles with new chunks and
-- publishes them with their index file. The index is shared with the client, so it is a field. A
-- temporary file is what its compressor thread writes to it, a bundle's contents; a directory is the
-- list of the files that were moved into it.
pub mod Items
pub mod Writing
pub mod Invariant
pub mod Moving
pub mod Publishing
pub mod Overflow
pub mod Known
pub mod Stock
pub mod Taking
pub mod Reader
mod Tests
use zbackup.Base.{
  ℕ, zero, suc, ◌+◌, ◌-◌, ◌*◌, ◌/◌, ◌%◌, ◌^◌, ◌≤◌, ◌<◌, ◌≡◌, refl, sym, ap, ap₂, ◌∙◌, subst, ◌≢◌,
  ◌↔◌, ◌⊎◌, inl, inr, Bool, true, false, not, ◌&&◌, ◌||◌, Option, none, some, List, [], ◌∷◌, ◌++◌,
  map, reverse, append-nil, append_assoc, arith, ltb, leb, ◌==◌, if◌then◌else◌, ltb→lt, lt→ltb,
  ==_iff, Bool-cases, Option-cases, length, get_or, set, take, drop, replicate, All, length-append,
  length-set, length-take, length-drop, length-replicate, take-append-drop, take-append,
  drop-append, All-append, take_at, drop_at, take_all, All-take, All-drop, lt_wf,
}
use zbackup.Base.Bytes.{
  IsByte, u64_mod, u32_mod, bytes_eq, bytes_eq_iff, bytes_eq_refl, memcmp, to_le, from_le,
  length-to_le, to_le-IsByte, from_le-to_le, to_le-from_le, from_le-lt,
}
use zbackup.ChunkId.{ChunkId, to_blob}
use zbackup.ChunkIndex
use zbackup.ChunkIndex.{ChunkIndex, BundleId}
use zbackup.Bundle
use zbackup.Bundle.{BundleInfo, Creator}

-- One record of an index file.
abbrev pub IndexRecord : Type 0
IndexRecord = BundleInfo × BundleId

pub record Writer : Type 0 where
  pub max_payload_size : ℕ
  pub index : ChunkIndex
  pub current_bundle : Option Creator
  pub current_bundle_id : BundleId
  pub has_current_bundle_id : Bool
  -- `indexFile` with its temporary file.
  pub index_file : Option (List IndexRecord)
  pub pending_bundle_renames : List (Creator × BundleId)
  -- How often `Random::generatePseudo` was called.
  pub random_calls : ℕ
  -- The bundle and index directories.
  pub bundles : List (BundleId × Creator)
  pub index_files : List (List ℕ × List IndexRecord)

pub current_or_new : Option Creator → Creator
current_or_new none = Bundle.empty
current_or_new (some creator) = creator

-- `*indexFile`, created where there is none.
pub records_of : Option (List IndexRecord) → List IndexRecord
records_of none = []
records_of (some records) = records

pub add_bundle : Writer → BundleInfo → BundleId → Writer
unfolding records_of
add_bundle w info bundle_id = record w {
  index_file = some (records_of w.index_file ++ ((info, bundle_id) ∷ []));
}

-- `File::exists` in a directory.
pub is_taken {ℓ} : {A : Type ℓ} → List ℕ → List (List ℕ × A) → Bool
is_taken name [] = false
is_taken name ((key, file) ∷ files) = bytes_eq key name || is_taken name files

-- `moveOverTo`, which throws where the name is taken. The flag tells that nothing was thrown yet.
pub move_over_to :
    Creator → BundleId → List (BundleId × Creator) × Bool → List (BundleId × Creator) × Bool
unfolding is_taken
move_over_to creator bundle_id (moved, fine) =
    if fine && not (is_taken bundle_id moved)
    then (moved ++ ((bundle_id, creator) ∷ []), true)
    else (moved, false)

-- The moves of `commit`, from the last pending bundle to the first.
pub move_bundles :
    List (Creator × BundleId) → List (BundleId × Creator) → List (BundleId × Creator) × Bool
unfolding move_over_to
move_bundles [] moved = (moved, true)
move_bundles ((creator, bundle_id) ∷ pending) moved =
    move_over_to creator bundle_id (move_bundles pending moved)

-- The value of the call number `n` of `Random::generatePseudo` for 24 bytes is `random n`.
module _ (random : ℕ → List ℕ) where
  pub get_current_bundle_id : Writer → Writer × BundleId
  get_current_bundle_id w = if w.has_current_bundle_id then (w, w.current_bundle_id) else (
    record w {
      current_bundle_id = random w.random_calls;
      has_current_bundle_id = true;
      random_calls = w.random_calls + 1;
    },
    random w.random_calls,
  )

  pub get_current_bundle : Writer → Writer × Creator
  unfolding current_or_new
  get_current_bundle w =
      let creator = current_or_new w.current_bundle in
      (record w { current_bundle = some creator }, creator)

  -- A compressor thread takes the creator over.
  finish_bundle : Writer → Creator → Writer
  unfolding get_current_bundle_id add_bundle
  finish_bundle w creator =
      let (w₁, bundle_id) = get_current_bundle_id w in
      let w₂ = add_bundle w₁ creator.info bundle_id in
      record w₂ {
        pending_bundle_renames = w₂.pending_bundle_renames ++ ((creator, bundle_id) ∷ []);
        current_bundle = none;
        has_current_bundle_id = false;
      }

  finish_with : Option Creator → Writer → Writer
  unfolding finish_bundle
  finish_with none w = w
  finish_with (some creator) w = finish_bundle w creator

  pub finish_current_bundle : Writer → Writer
  unfolding finish_with
  finish_current_bundle w = finish_with w.current_bundle w

  -- `getCurrentBundle().addChunk( ... )`
  put_chunk : Writer → ChunkId → List ℕ → ℕ → Writer
  unfolding get_current_bundle
  put_chunk w id bytes size =
      let (w', creator) = get_current_bundle w in
      record w' { current_bundle = some (Bundle.add_chunk creator (to_blob id) bytes size) }

  -- The part of `add` after the index has taken the chunk.
  emit_to_bundle : Writer → ChunkId → List ℕ → ℕ → Writer
  unfolding get_current_bundle finish_current_bundle put_chunk
  emit_to_bundle w id bytes size =
      let (w', creator) = get_current_bundle w in
      let full = ltb w.max_payload_size (Bundle.payload_size creator + size) in
      put_chunk (if full then finish_current_bundle w' else w') id bytes size

  add_registered : Writer → ChunkIndex → Bool → ChunkId → List ℕ → ℕ → Writer × Bool
  unfolding emit_to_bundle
  add_registered w index true id bytes size =
      (emit_to_bundle (record w { index = index }) id bytes size, true)
  add_registered w index false id bytes size = (record w { index = index }, false)

  pub add : Writer → ChunkId → List ℕ → ℕ → Writer × Bool
  unfolding get_current_bundle_id add_registered
  add w id bytes size =
      let (w', bundle_id) = get_current_bundle_id w in
      let (index, added) = ChunkIndex.add_chunk w'.index id (size % u32_mod) bundle_id in
      add_registered w' index added id bytes size

  -- The index file goes to a random name, which must not be taken.
  move_index : Writer → Option (List IndexRecord) → Writer × Bool
  unfolding is_taken
  move_index w none = (w, true)
  move_index w (some records) =
      let closed = record w { index_file = none; random_calls = w.random_calls + 1 } in
      if is_taken (random w.random_calls) w.index_files then (closed, false) else (
        record closed { index_files = w.index_files ++ ((random w.random_calls, records) ∷ []) },
        true,
      )

  -- The part of `commit` after the moves of the bundles, or after one of them threw.
  publish : Writer → List (BundleId × Creator) × Bool → Writer × Bool
  unfolding move_index
  publish w (moved, true) =
      move_index (record w { bundles = moved; pending_bundle_renames = [] }) w.index_file
  publish w (moved, false) = (record w { bundles = moved }, false)

  -- The writer, and whether no `exWontOverwrite` was thrown.
  pub commit : Writer → Writer × Bool
  unfolding finish_current_bundle publish move_bundles
  commit w =
      let w₁ = finish_current_bundle w in
      publish w₁ (move_bundles w₁.pending_bundle_renames w₁.bundles)

  pub reset : Writer → Writer
  unfolding finish_current_bundle
  reset w =
      let w₁ = finish_current_bundle w in
      record w₁ { pending_bundle_renames = []; index_file = none }
