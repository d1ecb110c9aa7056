-- ===== src/ChunkStorage/Invariant.antt =====
-- What every operation of the writer preserves.
use zbackup.Base.{
  ℕ, ◌+◌, ◌%◌, ◌≤◌, ◌<◌, ◌≡◌, refl, sym, subst, inl, inr, Bool, true, false, Option, none, some,
  List, [], ◌∷◌, ◌++◌, arith, ltb, ltb→lt, Bool-cases, length, All, All-append,
}
use zbackup.Base.Bytes.{u32_mod}
use mathlib.Core.List.{Mem, mem-append_left, mem-append_right, mem-cons_self}
use zbackup.ChunkId.{ChunkId, to_blob}
use zbackup.ChunkIndex
use zbackup.ChunkIndex.{ChunkIndex, BundleId}
use zbackup.Bundle
use zbackup.Bundle.{Creator, BundleInfo, payload_size}
use zbackup.Bundle.Items.{
  IsBundle, empty-IsBundle, add_chunk-IsBundle, payload_size-add_chunk, payload_size-empty,
}
use zbackup.ChunkStorage.{
  Writer, IndexRecord, current_or_new, get_current_bundle_id, get_current_bundle, finish_with,
  finish_current_bundle, put_chunk, emit_to_bundle, add_registered, add, add_bundle, records_of,
}
use zbackup.ChunkStorage.Writing.{
  ForCurrent, IsFinished, finish_current_bundle-IsFinished, current_or_new-IsBundle,
}

-- A bundle that may be written out: its records account for its payload, which is not empty and
-- within the limit.
abbrev pub IsFilled : ℕ → Creator → Type 0
IsFilled limit c = IsBundle c × (payload_size c ≤ limit) × (0 < payload_size c)

abbrev pub IsListed : List IndexRecord → Creator × BundleId → Type 0
IsListed records (c, id) = Mem (c.info, id) records

pub record IsWriter (w : Writer) : Type 0 where
  pub current : ForCurrent (IsFilled w.max_payload_size) w.current_bundle
  pub pending : All (λ p. IsFilled w.max_payload_size p.0) w.pending_bundle_renames
  -- The index file to come lists every bundle that will be moved.
  pub listed : All (IsListed (records_of w.index_file)) w.pending_bundle_renames

pub All-map {ℓ κ} :
    {A : Type ℓ} (P Q : A → Type κ) (xs : List A) → ((a : A) → P a → Q a) → All P xs → All Q xs
All-map P Q [] f h = tt
All-map P Q (x ∷ xs) f (p, h) = (f x p, All-map P Q xs f h)

IsListed-more :
    (records more : List IndexRecord) (pending : List (Creator × BundleId))
    → All (IsListed records) pending
    → All (IsListed (records ++ more)) pending
IsListed-more records more pending h =
    All-map (IsListed records) (IsListed (records ++ more)) pending (λ p m. mem-append_left more m)
      h

add_bundle-IsWriter :
    (w : Writer) (info : BundleInfo) (id : BundleId) → IsWriter w → IsWriter (add_bundle w info id)
unfolding add_bundle
add_bundle-IsWriter w info id v = record {
  current = v.current;
  pending = v.pending;
  listed =
      IsListed-more (records_of w.index_file) ((info, id) ∷ []) w.pending_bundle_renames v.listed;
}

module _ (random : ℕ → List ℕ) where
  finish_bundle_with :
      (w : Writer) (c : Creator) (id : BundleId) (calls : ℕ) (current_id : BundleId)
      → IsFilled w.max_payload_size c
      → IsWriter w
      → IsWriter (record w {
        current_bundle_id = current_id;
        random_calls = calls;
        index_file = some (records_of w.index_file ++ ((c.info, id) ∷ []));
        pending_bundle_renames = w.pending_bundle_renames ++ ((c, id) ∷ []);
        current_bundle = none;
        has_current_bundle_id = false;
      })
  unfolding records_of
  finish_bundle_with w c id calls current_id f v = record {
    current = tt;
    pending =
        All-append (λ p. IsFilled w.max_payload_size p.0) w.pending_bundle_renames ((c, id) ∷ [])
          v.pending (f, tt);
    listed =
        All-append (IsListed (records_of w.index_file ++ ((c.info, id) ∷ [])))
          w.pending_bundle_renames ((c, id) ∷ [])
          (IsListed-more (records_of w.index_file) ((c.info, id) ∷ []) w.pending_bundle_renames
            v.listed)
          (mem-append_right (records_of w.index_file) mem-cons_self, tt);
  }

  finish_with-IsWriter :
      (o : Option Creator) (w : Writer)
      → w.current_bundle ≡ o
      → IsWriter w
      → IsWriter (finish_with random o w)
  unfolding finish_with get_current_bundle_id add_bundle
  finish_with-IsWriter none w e v = v
  finish_with-IsWriter (some c) w e v =
      let filled : IsFilled w.max_payload_size c =
        subst (ForCurrent (IsFilled w.max_payload_size)) e v.current in
      elim (Bool-cases w.has_current_bundle_id) [
        | inl h ↦
            rw h (
              finish_bundle_with w c w.current_bundle_id w.random_calls w.current_bundle_id filled
                v)
        | inr h ↦ rw h (
            finish_bundle_with w c (random w.random_calls) (w.random_calls + 1)
              (random w.random_calls) filled v)
      ]

  pub finish_current_bundle-IsWriter :
      (w : Writer) → IsWriter w → IsWriter (finish_current_bundle random w)
  unfolding finish_current_bundle
  finish_current_bundle-IsWriter w v = finish_with-IsWriter w.current_bundle w refl v

  module _ (id : ChunkId) (bytes : List ℕ) (size : ℕ) (all : size ≡ length bytes)
      (small : size < u32_mod) (pos : 0 < size) where
    get_current_bundle_id-IsWriter :
        (w : Writer)
        → IsWriter w
        → ((get_current_bundle_id random w).0.max_payload_size ≡ w.max_payload_size)
          × IsWriter (get_current_bundle_id random w).0
    unfolding get_current_bundle_id
    get_current_bundle_id-IsWriter w v = elim (Bool-cases w.has_current_bundle_id) [
      | inl h ↦ rw h (refl, same)
      | inr h ↦ rw h (refl, record { current = v.current; pending = v.pending; listed = v.listed })
    ]
      where
        same : IsWriter (record w { has_current_bundle_id = true })
        same = record { current = v.current; pending = v.pending; listed = v.listed }

    add_chunk-IsFilled :
        (limit : ℕ) (c : Creator)
        → IsBundle c
        → payload_size c + size ≤ limit
        → IsFilled limit (Bundle.add_chunk c (to_blob id) bytes size)
    add_chunk-IsFilled limit c v fits = (
      add_chunk-IsBundle c (to_blob id) bytes size all small v,
      omega (arith, payload_size-add_chunk c (to_blob id) bytes size all),
      omega (arith, payload_size-add_chunk c (to_blob id) bytes size all),
    )

    put_chunk-IsWriter :
        (w : Writer)
        → payload_size (current_or_new w.current_bundle) + size ≤ w.max_payload_size
        → IsBundle (current_or_new w.current_bundle)
        → IsWriter (record w { current_bundle = none })
        → IsWriter (put_chunk random w id bytes size)
    unfolding put_chunk get_current_bundle
    put_chunk-IsWriter w fits b v = record {
      current = add_chunk-IsFilled w.max_payload_size (current_or_new w.current_bundle) b fits;
      pending = v.pending;
      listed = v.listed;
    }

    drop_current : (w : Writer) → IsWriter w → IsWriter (record w { current_bundle = none })
    drop_current w v = record { current = tt; pending = v.pending; listed = v.listed }

    IsBundle-current :
        (limit : ℕ) (o : Option Creator) → ForCurrent (IsFilled limit) o → ForCurrent IsBundle o
    IsBundle-current limit none f = tt
    IsBundle-current limit (some c) f = f.0

    emit_full :
        (o : Option Creator) (w : Writer)
        → w.current_bundle ≡ o
        → w.max_payload_size < payload_size (current_or_new o) + size
        → size ≤ w.max_payload_size
        → IsWriter w
        → IsFilled w.max_payload_size (current_or_new o)
    unfolding current_or_new
    emit_full none w e full fits v = absurd (omega (arith, payload_size-empty))
    emit_full (some c) w e full fits v =
        subst (ForCurrent (IsFilled w.max_payload_size)) e v.current

    emit_to_bundle-IsWriter :
        (w : Writer)
        → size ≤ w.max_payload_size
        → IsWriter w
        → IsWriter (emit_to_bundle random w id bytes size)
    unfolding emit_to_bundle get_current_bundle
    emit_to_bundle-IsWriter w fits v =
        let c = current_or_new w.current_bundle in
        let w' = (get_current_bundle random w).0 in
        elim (Bool-cases (ltb w.max_payload_size (payload_size c + size))) [
          | inl full ↦ rw full (
              after_finish (finish_current_bundle random w')
                (finish_current_bundle-IsFinished random w')
                (finished (emit_full w.current_bundle w refl (ltb→lt _ _ full) fits v)))
          | inr room ↦ rw room (
              put_chunk-IsWriter w' (ground arith)
                (current_or_new-IsBundle random w.current_bundle
                  (IsBundle-current w.max_payload_size w.current_bundle v.current))
                (drop_current w v))
        ]
      where
        finished :
            IsFilled w.max_payload_size (current_or_new w.current_bundle)
            → IsWriter (finish_current_bundle random (get_current_bundle random w).0)
        finished f =
            finish_current_bundle-IsWriter (get_current_bundle random w).0
              (record { current = f; pending = v.pending; listed = v.listed })

        after_finish :
            (r : Writer)
            → IsFinished random (get_current_bundle random w).0 r
            → IsWriter r
            → IsWriter (put_chunk random r id bytes size)
        after_finish r d vr =
            put_chunk-IsWriter r
              (subst
                (λ (o : Option Creator).
                  payload_size (current_or_new o) + size ≤ r.max_payload_size)
                (sym d.none_left)
                (unfold current_or_new in omega (arith, payload_size-empty, d.same_limit)))
              (subst (λ (o : Option Creator). IsBundle (current_or_new o)) (sym d.none_left)
                (unfold current_or_new in empty-IsBundle))
              (drop_current r vr)

    add_registered-IsWriter :
        (w : Writer) (index : ChunkIndex) (added : Bool)
        → size ≤ w.max_payload_size
        → IsWriter w
        → IsWriter (add_registered random w index added id bytes size).0
    unfolding add_registered
    add_registered-IsWriter w index true fits v =
        emit_to_bundle-IsWriter (record w { index = index }) fits
          (record { current = v.current; pending = v.pending; listed = v.listed })
    add_registered-IsWriter w index false fits v = record {
      current = v.current;
      pending = v.pending;
      listed = v.listed;
    }

    -- `add` of a chunk that is not empty and not larger than a bundle may be keeps the writer in order:
    -- the bundles that wait to be moved, and the current one, are not empty, stay within the configured
    -- payload size and have records that account for their payload, and the index file to come lists
    -- each bundle that waits.
    pub add-IsWriter :
        (w : Writer)
        → size ≤ w.max_payload_size
        → IsWriter w
        → IsWriter (add random w id bytes size).0
    unfolding add
    add-IsWriter w fits v =
        let (w', b) = get_current_bundle_id random w in
        let r = ChunkIndex.add_chunk w'.index id (size % u32_mod) b in
        let (limit, v') = get_current_bundle_id-IsWriter w v in
        add_registered-IsWriter w' r.0 r.1 (omega (arith, limit)) v'
