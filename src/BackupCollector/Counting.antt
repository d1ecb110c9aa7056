-- ===== src/BackupCollector/Counting.antt =====
-- The counts of the chunks of a bundle, as the collector goes through its records.
use zbackup.Base.{
  ℕ, suc, ◌+◌, ◌≤◌, ◌≡◌, sym, ap, ap₂, ◌∙◌, if◌then◌else◌, inl, inr, Bool, true, false, List, [],
  ◌∷◌, reverse, arith, if_true, if_false, Bool-cases, length, All, All-append, subst,
}
use mathlib.Core.List.{reverse-cons}
use zbackup.ChunkId.{ChunkId, set_from_blob}
use zbackup.Bundle.{ChunkRecord}
use zbackup.BackupCollector.{BundleCollector, in_set, count_chunk, process_chunk}

abbrev pub record_id : ChunkRecord → ChunkId
record_id r = set_from_blob r.id

-- How many of the chunks are used.
abbrev pub count_used : List ChunkId → List ChunkRecord → ℕ
count_used used [] = 0
count_used used (r ∷ records) =
    if in_set (record_id r) used then suc (count_used used records) else count_used used records

pub process_all : List ChunkRecord → BundleCollector → BundleCollector
process_all [] c = c
process_all (r ∷ records) c = process_all records (process_chunk c (record_id r))

pub process_all-counts :
    (records : List ChunkRecord) (c : BundleCollector)
    → c.gc_deep ≡ false
    → (necessary : Bool) × (process_all records c ≡ record c {
      total_chunks = c.total_chunks + length records;
      used_chunks = c.used_chunks + count_used c.used_chunk_set records;
      index_necessary = necessary;
    })
unfolding process_all process_chunk count_chunk
process_all-counts [] c shallow = (
  c.index_necessary,
  ap₂ (λ (n m : ℕ). record c { total_chunks = n; used_chunks = m }) {x = c.total_chunks}
      {y = c.total_chunks + 0} {u = c.used_chunks} {v = c.used_chunks + 0} (omega arith)
      (omega arith),
)
process_all-counts (r ∷ records) c shallow =
    elim (Bool-cases (in_set (record_id r) c.used_chunk_set)) [
      | inl used ↦
          let counted : BundleCollector = record c {
            total_chunks = c.total_chunks + 1;
            used_chunks = c.used_chunks + 1;
            index_necessary = true;
          } in
          let (n, e) = process_all-counts records counted shallow in
          (
            n,
            ap (process_all records) (if_false _ _ shallow ∙ if_true _ _ used)
                ∙ e
                ∙ sums c records n (c.total_chunks + 1) (c.used_chunks + 1) _ (omega arith)
                    (ap (λ (k : ℕ). c.used_chunks + k) (if_true _ _ used) ∙ omega arith),
          )
      | inr unused ↦
          let counted : BundleCollector = record c { total_chunks = c.total_chunks + 1 } in
          let (n, e) = process_all-counts records counted shallow in
          (
            n,
            ap (process_all records) (if_false _ _ shallow ∙ if_false _ _ unused)
                ∙ e
                ∙ sums c records n (c.total_chunks + 1) c.used_chunks _ (omega arith)
                    (ap (λ (k : ℕ). c.used_chunks + k) (if_false _ _ unused)),
          )
    ]
  where
    sums :
        (c : BundleCollector) (records : List ChunkRecord) (n : Bool) (total used used' : ℕ)
        → c.total_chunks + suc (length records) ≡ total + length records
        → used' ≡ used + count_used c.used_chunk_set records
        → record c {
          total_chunks = total + length records;
          used_chunks = used + count_used c.used_chunk_set records;
          index_necessary = n;
        }
          ≡ record c {
            total_chunks = c.total_chunks + suc (length records);
            used_chunks = used';
            index_necessary = n;
          }
    sums c records n total used used' e f =
        ap₂ (λ (x y : ℕ). record c { total_chunks = x; used_chunks = y; index_necessary = n })
          (sym e) (sym f)

pub All-reverse {κ} :
    (P : ChunkRecord → Type κ) (xs : List ChunkRecord) → All P xs → All P (reverse xs)
All-reverse P [] h = tt
All-reverse P (x ∷ xs) (p, h) =
    subst (All P) (sym (reverse-cons x xs))
      (All-append P (reverse xs) (x ∷ []) (All-reverse P xs h) (p, tt))

pub count_used-le :
    (used : List ChunkId) (records : List ChunkRecord) → count_used used records ≤ length records
count_used-le used [] = omega arith
count_used-le used (r ∷ records) = ground (arith, count_used-le used records)

pub none_used :
    (used : List ChunkId) (records : List ChunkRecord)
    → count_used used records ≡ 0
    → All (λ (r : ChunkRecord). in_set (record_id r) used ≡ false) records
none_used used [] e = tt
none_used used (r ∷ records) e = elim (Bool-cases (in_set (record_id r) used)) [
  | inl h ↦ absurd (omega (arith, sym (if_true _ _ h) ∙ e))
  | inr h ↦ (h, none_used used records (sym (if_false _ _ h) ∙ e))
]
