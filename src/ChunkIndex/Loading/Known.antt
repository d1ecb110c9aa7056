-- ===== src/ChunkIndex/Loading/Known.antt =====
-- What the index knows after its files were loaded.
use zbackup.Base.{
  ◌≡◌, refl, sym, ap, ◌∙◌, subst, inl, inr, true, not, ◌&&◌, List, [], ◌∷◌, reverse, ◌==◌, ==_iff,
  Bool-cases, length,
}
use mathlib.Core.Logic.Or
use mathlib.Core.Bool.{Bool-set}
use mathlib.Core.List.{Mem, not-mem-nil, mem-reverse, mem-cons_of_mem, mem-cons, mem-cons_self}
use zbackup.ChunkId.{ChunkId, blob_size, set_from_blob}
use zbackup.Bundle.{BundleInfo, ChunkRecord}
use zbackup.ChunkIndex.{ChunkIndex, BundleId, start_bundle, process_chunk}
use zbackup.ChunkIndex.Entries.{is_none, start_bundle-entry}
use zbackup.ChunkIndex.Loading.{
  IndexFile, process_chunks, read_records, load_file, load_index, own_processor,
}
use zbackup.ChunkIndex.Loading.Steps.{Knows, process_chunk-Knows_old, process_chunk-Knows_new}

-- Every id has its 24 bytes.
abbrev pub HasWholeIds : BundleInfo → Type 0
HasWholeIds info = (r : ChunkRecord) → Mem r info → length r.id ≡ blob_size

process_chunks-Knows_old :
    (rs : List ChunkRecord) (index : ChunkIndex) (q : ChunkId)
    → Knows index q
    → Knows (process_chunks own_processor rs index).0 q
unfolding process_chunks
process_chunks-Knows_old [] index q k = k
process_chunks-Knows_old (r ∷ rs) index q k =
    let next =
      process_chunks-Knows_old rs (process_chunk index (set_from_blob r.id) r.size) q
        (process_chunk-Knows_old index (set_from_blob r.id) q r.size k) in
    elim (Bool-cases (length r.id == blob_size)) [ inl whole ↦ rw whole next | inr cut ↦ rw cut k ]

process_chunks-Knows_new :
    (rs : List ChunkRecord) (index : ChunkIndex)
    → HasWholeIds rs
    → ((process_chunks own_processor rs index).1 ≡ true)
      × ((r : ChunkRecord)
          → Mem r rs
          → Knows (process_chunks own_processor rs index).0 (set_from_blob r.id))
unfolding process_chunks
process_chunks-Knows_new [] index whole = (refl, λ r m. absurd (not-mem-nil m))
process_chunks-Knows_new (r ∷ rs) index whole =
    let index' = process_chunk index (set_from_blob r.id) r.size in
    let (fine, rest) = process_chunks-Knows_new rs index' (λ x m. whole x (mem-cons_of_mem r m)) in
    let size_ok : (length r.id == blob_size) ≡ true = (==_iff _ _).1 (whole r mem-cons_self) in
    rw size_ok (
      fine,
      λ x m.
          Or.elim (Bool-set _ _) (mem-cons.0 m)
            (λ e.
              subst
                (λ (y : ChunkRecord).
                  Knows (process_chunks own_processor rs index').0 (set_from_blob y.id))
                (sym e)
                (process_chunks-Knows_old rs index' (set_from_blob r.id)
                  (process_chunk-Knows_new index (set_from_blob r.id) r.size)))
            (rest x),
    )

read_records-Knows_old :
    (rs : List (BundleInfo × BundleId)) (index : ChunkIndex) (q : ChunkId)
    → Knows index q
    → Knows (read_records own_processor rs index).0 q
unfolding read_records
read_records-Knows_old [] index q k = k
read_records-Knows_old ((info, b) ∷ rs) index q k =
    let after =
      process_chunks-Knows_old (reverse info) (start_bundle index b) q
        (ap is_none (start_bundle-entry index b q) ∙ k) in
    elim (Bool-cases (process_chunks own_processor (reverse info) (start_bundle index b)).1) [
      | inl fine ↦ rw fine (read_records-Knows_old rs _ q after)
      | inr broken ↦ rw broken after
    ]

load_file-Knows_old :
    (file : IndexFile) (index : ChunkIndex) (q : ChunkId)
    → Knows index q
    → Knows (load_file own_processor file index) q
unfolding load_file
load_file-Knows_old file index q k =
    let r = read_records-Knows_old file.records index q k in
    elim (Bool-cases file.opens) [
      | inl opens ↦
          rw opens
            (elim (Bool-cases
              ((read_records own_processor file.records index).1 && not file.breaks)) [
                | inl fine ↦ rw fine r
                | inr broken ↦ rw broken r
              ])
      | inr closed ↦ rw closed k
    ]

load_index-Knows_old :
    (files : List IndexFile) (index : ChunkIndex) (q : ChunkId)
    → Knows index q
    → Knows (load_index own_processor files index) q
unfolding load_index
load_index-Knows_old [] index q k = k
load_index-Knows_old (file ∷ files) index q k =
    load_index-Knows_old files (load_file own_processor file index) q
      (load_file-Knows_old file index q k)

-- A bundle of a file whose ids all have their size.
read_records-Knows_new :
    (rs : List (BundleInfo × BundleId)) (index : ChunkIndex)
    → ((p : BundleInfo × BundleId) → Mem p rs → HasWholeIds p.0)
    → (p : BundleInfo × BundleId) → Mem p rs
    → (r : ChunkRecord) → Mem r p.0
    → Knows (read_records own_processor rs index).0 (set_from_blob r.id)
unfolding read_records
read_records-Knows_new [] index whole p m r n = absurd (not-mem-nil m)
read_records-Knows_new ((info, b) ∷ rs) index whole p m r n =
    let (fine, known) =
      process_chunks-Knows_new (reverse info) (start_bundle index b)
        (λ x k. whole (info, b) mem-cons_self x (mem-reverse.0 k)) in
    let after = (process_chunks own_processor (reverse info) (start_bundle index b)).0 in
    rw fine (
      Or.elim (Bool-set _ _) (mem-cons.0 m)
        (λ e.
          read_records-Knows_old rs after (set_from_blob r.id)
            (known r (mem-reverse.1 (subst (λ (x : BundleInfo × BundleId). Mem r x.0) e n))))
        (λ k.
          read_records-Knows_new rs after (λ x l. whole x (mem-cons_of_mem (info, b) l)) p k r n))

load_file-Knows_new :
    (file : IndexFile) (index : ChunkIndex) (p : BundleInfo × BundleId) (r : ChunkRecord)
    → file.opens ≡ true
    → ((x : BundleInfo × BundleId) → Mem x file.records → HasWholeIds x.0)
    → Mem p file.records
    → Mem r p.0
    → Knows (load_file own_processor file index) (set_from_blob r.id)
unfolding load_file
load_file-Knows_new file index p r opens whole k n =
    let known = read_records-Knows_new file.records index whole p k r n in
    rw opens
      (elim (Bool-cases ((read_records own_processor file.records index).1 && not file.breaks)) [
        | inl fine ↦ rw fine known
        | inr broken ↦ rw broken known
      ])

-- Whatever happens to the other files: an index file that can be opened and whose ids all have 24 bytes is
-- taken in whole, so that every chunk that it lists is known afterwards.
pub load_index-Knows :
    (files : List IndexFile) (index : ChunkIndex) (file : IndexFile) (p : BundleInfo × BundleId)
    (r : ChunkRecord)
    → Mem file files
    → file.opens ≡ true
    → ((x : BundleInfo × BundleId) → Mem x file.records → HasWholeIds x.0)
    → Mem p file.records
    → Mem r p.0
    → Knows (load_index own_processor files index) (set_from_blob r.id)
unfolding load_index
load_index-Knows [] index file p r m opens whole k n = absurd (not-mem-nil m)
load_index-Knows (first ∷ files) index file p r m opens whole k n =
    Or.elim (Bool-set _ _) (mem-cons.0 m)
      (λ e. load_index-Knows_old files (load_file own_processor first index) (set_from_blob r.id) (
        subst (λ (f : IndexFile). Knows (load_file own_processor f index) (set_from_blob r.id)) e
          (load_file-Knows_new file index p r opens whole k n)))
      (λ l. load_index-Knows files (load_file own_processor first index) file p r l opens whole k n)
