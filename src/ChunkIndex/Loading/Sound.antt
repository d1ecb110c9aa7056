-- ===== src/ChunkIndex/Loading/Sound.antt =====
-- Where the nodes of the loaded index come from.
use zbackup.Base.{
  ◌≡◌, refl, sym, ap, ◌∙◌, inl, inr, true, not, ◌&&◌, some, List, [], ◌∷◌, ◌++◌, reverse, ◌==◌,
  ==_iff, Bool-cases, length,
}
use mathlib.Core.Option.{some-injective, some-ne-none}
use mathlib.Core.List.{
  Mem, mem-reverse, mem-cons_of_mem, mem-cons_self, mem-append_left, mem-append_right,
}
use zbackup.ChunkId.{ChunkId, blob_size, set_from_blob}
use zbackup.Bundle.{BundleInfo, ChunkRecord}
use zbackup.ChunkIndex
use zbackup.ChunkIndex.{
  ChunkIndex, Chain, BundleId, new_chain, start_bundle, process_chunk, register_new_chunk_id,
  append_node, register_in,
}
use zbackup.ChunkIndex.Entries.{entry, entry-new, start_bundle-entry, same_id}
use zbackup.ChunkIndex.Loading.{
  IndexFile, process_chunks, read_records, load_file, load_index, own_processor,
}
use zbackup.ChunkIndex.Loading.Steps.{register-last_bundle_id, process_chunk-entry}

-- A node for the id `q` that comes from a record of a listed bundle.
pub record IsListedIn (records : List (BundleInfo × BundleId)) (q : ChunkId) (c : Chain)
    : Type 0 where
  pub info : BundleInfo
  pub bundle_id : BundleId
  pub chunk : ChunkRecord
  pub bundle_listed : Mem (info, bundle_id) records
  pub chunk_listed : Mem chunk info
  pub whole_id : length chunk.id ≡ blob_size
  pub named : same_id (set_from_blob chunk.id) q ≡ true
  pub size : c.size ≡ chunk.size
  pub stored_in : c.bundle_id ≡ some bundle_id

-- Every node does.
abbrev pub IsSound : List (BundleInfo × BundleId) → ChunkIndex → Type 0
IsSound records index = (q : ChunkId) (c : Chain) → entry index q ≡ some c → IsListedIn records q c

module _ (records : List (BundleInfo × BundleId)) where
  -- The state while a listed bundle is read.
  record IsReading (info : BundleInfo) (b : BundleId) (index : ChunkIndex) : Type 0 where
    sound : IsSound records index
    last : index.last_bundle_id ≡ some b
    bundle_listed : Mem (info, b) records

  process_chunk-IsReading :
      (info : BundleInfo) (b : BundleId) (index : ChunkIndex) (r : ChunkRecord)
      → IsReading info b index
      → Mem r info
      → length r.id ≡ blob_size
      → IsReading info b (process_chunk index (set_from_blob r.id) r.size)
  unfolding process_chunk new_chain
  process_chunk-IsReading info b index r v m size_ok = record {
    sound = λ q c e. elim (process_chunk-entry index (set_from_blob r.id) q r.size) [
      | inl same ↦ v.sound q c (sym same ∙ e)
      | inr (named, made) ↦
          let c_eq : new_chain (set_from_blob r.id) r.size index.last_bundle_id ≡ c =
            some-injective _ c (sym made ∙ e) in
          record {
            info = info;
            bundle_id = b;
            chunk = r;
            bundle_listed = v.bundle_listed;
            chunk_listed = m;
            whole_id = size_ok;
            named = named;
            size = ap (λ (x : Chain). x.size) (sym c_eq);
            stored_in = ap (λ (x : Chain). x.bundle_id) (sym c_eq) ∙ v.last;
          }
    ];
    last = register-last_bundle_id index (set_from_blob r.id) r.size index.last_bundle_id ∙ v.last;
    bundle_listed = v.bundle_listed;
  }

  process_chunks-IsReading :
      (info : BundleInfo) (b : BundleId) (rs : List ChunkRecord) (index : ChunkIndex)
      → IsReading info b index
      → ((r : ChunkRecord) → Mem r rs → Mem r info)
      → IsReading info b (process_chunks own_processor rs index).0
  unfolding process_chunks
  process_chunks-IsReading info b [] index v sub = v
  process_chunks-IsReading info b (r ∷ rs) index v sub =
      elim (Bool-cases (length r.id == blob_size)) [
        | inl whole ↦ rw whole (
            process_chunks-IsReading info b rs (process_chunk index (set_from_blob r.id) r.size)
              (process_chunk-IsReading info b index r v (sub r mem-cons_self)
                ((==_iff _ _).0 whole))
              (λ x m. sub x (mem-cons_of_mem r m)))
        | inr cut ↦ rw cut v
      ]

  read_records-IsSound :
      (rs : List (BundleInfo × BundleId)) (index : ChunkIndex)
      → IsSound records index
      → ((r : BundleInfo × BundleId) → Mem r rs → Mem r records)
      → IsSound records (read_records own_processor rs index).0
  unfolding read_records
  read_records-IsSound [] index v sub = v
  read_records-IsSound ((info, b) ∷ rs) index v sub =
      let start : IsReading info b (start_bundle index b) = record {
        sound = λ q c e. v q c (sym (start_bundle-entry index b q) ∙ e);
        last = unfold start_bundle in refl;
        bundle_listed = sub (info, b) mem-cons_self;
      } in
      let r =
        process_chunks-IsReading info b (reverse info) (start_bundle index b) start
          (λ x m. mem-reverse.0 m) in
      elim (Bool-cases (process_chunks own_processor (reverse info) (start_bundle index b)).1) [
        | inl fine ↦
            rw fine (read_records-IsSound rs _ r.sound (λ x m. sub x (mem-cons_of_mem (info, b) m)))
        | inr broken ↦ rw broken r.sound
      ]

  load_file-IsSound :
      (file : IndexFile) (index : ChunkIndex)
      → IsSound records index
      → ((r : BundleInfo × BundleId) → Mem r file.records → Mem r records)
      → IsSound records (load_file own_processor file index)
  unfolding load_file
  load_file-IsSound file index v sub =
      let r = read_records-IsSound file.records index v sub in
      elim (Bool-cases file.opens) [
        | inl opens ↦
            rw opens
              (elim (Bool-cases
                ((read_records own_processor file.records index).1 && not file.breaks)) [
                  | inl fine ↦ rw fine r
                  | inr broken ↦ rw broken r
                ])
        | inr closed ↦ rw closed v
      ]

-- All the records of the files.
pub all_records : List IndexFile → List (BundleInfo × BundleId)
all_records [] = []
all_records (file ∷ files) = file.records ++ all_records files

load_all-IsSound :
    (records : List (BundleInfo × BundleId)) (files : List IndexFile) (index : ChunkIndex)
    → IsSound records index
    → ((r : BundleInfo × BundleId) → Mem r (all_records files) → Mem r records)
    → IsSound records (load_index own_processor files index)
unfolding load_index all_records
load_all-IsSound records [] index v sub = v
load_all-IsSound records (file ∷ files) index v sub =
    load_all-IsSound records files _
      (load_file-IsSound records file index v
        (λ r m. sub r (mem-append_left (all_records files) m)))
      (λ r m. sub r (mem-append_right file.records m))

-- Whatever fails on the way, each node of the loaded index comes from a record of an index file: a chunk
-- of this id, with the size that the node has, is listed for the bundle that the node names.
pub load_index-IsSound :
    (files : List IndexFile)
    → IsSound (all_records files) (load_index own_processor files ChunkIndex.new)
load_index-IsSound files =
    load_all-IsSound (all_records files) files ChunkIndex.new
      (λ q c e. absurd (some-ne-none c (sym e ∙ entry-new q))) (λ r m. m)
