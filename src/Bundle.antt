-- ===== src/Bundle.antt =====
-- bundle.hh and bundle.cc: the chunks of one bundle, collected by the `Creator` and found again by the
-- `Reader`. `BundleInfo` is the message of zbackup.proto. The compressed file between the two is the
-- work of the codec and of the encrypted stream.
pub mod RoundTrip
pub mod Items
mod Tests
use zbackup.Base.{
  ℕ, zero, suc, ◌+◌, ◌-◌, ◌*◌, ◌/◌, ◌%◌, ◌^◌, ◌≤◌, ◌<◌, ◌≡◌, refl, sym, ap, ap₂, ◌∙◌, subst, ◌≢◌,
  ◌↔◌, ◌⊎◌, inl, inr, Bool, true, false, not, ◌&&◌, ◌||◌, Option, none, some, List, [], ◌∷◌, ◌++◌,
  map, reverse, append-nil, append_assoc, arith, ltb, leb, ◌==◌, if◌then◌else◌, ltb→lt, lt→ltb,
  ==_iff, Bool-cases, Option-cases, length, get_or, set, take, drop, replicate, All, length-append,
  length-set, length-take, length-drop, length-replicate, take-append-drop, take-append,
  drop-append, All-append, take_at, drop_at, take_all, All-take, All-drop, lt_wf,
}
use zbackup.Base.Bytes.{
  IsByte, u64_mod, u32_mod, bytes_eq, bytes_eq_iff, bytes_eq_refl, memcmp, to_le, from_le,
  length-to_le, to_le-IsByte, from_le-to_le, to_le-from_le, from_le-lt,
}

-- `Bundle::IdSize`
abbrev pub id_size : ℕ
id_size = 24

-- `BundleInfo_ChunkRecord`; the size is a `uint32`.
pub record ChunkRecord : Type 0 where
  pub id : List ℕ
  pub size : ℕ

abbrev pub BundleInfo : Type 0
BundleInfo = List ChunkRecord

pub record Creator : Type 0 where
  pub info : BundleInfo
  pub payload : List ℕ

pub empty : Creator
empty = record { info = []; payload = [] }

unfoldable pub add_chunk : Creator → List ℕ → List ℕ → ℕ → Creator
add_chunk creator id bytes size = record {
  info = creator.info ++ (record { id = id; size = size % u32_mod } ∷ []);
  payload = creator.payload ++ take size bytes;
}

pub payload_size : Creator → ℕ
payload_size creator = length creator.payload

-- The exceptions of the reader's constructor.
pub data Error : Type 0 where
  bundle_read_failed unsupported_version too_much_data duplicate_chunks : Error

pub data Result {ℓ} (A : Type ℓ) : Type ℓ where
  ok : A → Result A
  err : Error → Result A

-- `map< string, pair< char const *, size_t > >`: the pointer is the payload from there on.
abbrev pub Chunks : Type 0
Chunks = List (List ℕ × List ℕ × ℕ)

unfoldable pub find : List ℕ → Chunks → Option (List ℕ × ℕ)
find id [] = none
find id ((key, next, size) ∷ chunks) = if bytes_eq key id then some (next, size) else find id chunks

-- `payloadSize`, summed from the last record to the first.
pub total_size : BundleInfo → ℕ
total_size [] = 0
total_size (r ∷ info) = total_size info + r.size

-- `chunks.insert`, which does nothing and reports it where the key is there.
insert : List ℕ → List ℕ × ℕ → Chunks → Option Chunks
insert id value chunks = elim (find id chunks) [
  | some old ↦ none
  | none ↦ some ((id, value.0, value.1) ∷ chunks)
]

-- The loop that fills the map; `next` is the rest of the payload.
populate : BundleInfo → List ℕ → Chunks → Result Chunks
populate [] next chunks = ok chunks
populate (r ∷ info) next chunks = elim (insert r.id (next, r.size) chunks) [
  | some chunks' ↦ populate info (drop r.size next) chunks'
  | none ↦ err duplicate_chunks
]

-- The constructor from the point where the payload is unpacked.
pub read_chunks : BundleInfo → List ℕ → Result Chunks
unfolding populate insert find
read_chunks info payload = populate info payload []

-- `chunkData` may be enlarged and is not shrunk; the size goes to `chunkDataSize`.
unfoldable pub get : Chunks → List ℕ → List ℕ → Option (List ℕ × ℕ)
unfolding find
get chunks id chunk_data = elim (find id chunks) [
  | some (next, size) ↦ some (take size next ++ drop size chunk_data, size)
  | none ↦ none
]
