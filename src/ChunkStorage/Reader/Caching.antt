-- ===== src/ChunkStorage/Reader/Caching.antt =====
-- The cache of bundle readers changes nothing of what is read.
use zbackup.Base.Bytes.{u32_mod}
use zbackup.Base.{
  ℕ, suc, ◌-◌, ◌/◌, ◌<◌, ◌≡◌, refl, sym, ap, ◌∙◌, inl, inr, ◌⊎◌, Option, none, some, List, ◌∷◌,
  arith, All, All-take, take, ltb, Bool-cases, subst, if_true, if_false, ◌%◌,
}
use native.Mathlib.Nat.{mod-eq_of_lt}
use zbackup.ChunkId.{ChunkId, to_blob}
use zbackup.ChunkIndex.{ChunkIndex, BundleId, find_chunk_id}
use zbackup.Bundle
use zbackup.Bundle.{Chunks}
use zbackup.ObjectCache
use zbackup.ObjectCache.{ObjectCache, ObjectId}
use zbackup.ObjectCache.Recent.{IsCache, entry-objects, new-IsCache}
use zbackup.ObjectCache.Recent.Objects.{All-erase, value_of-All, entry-max_objects, replace-IsCache}
use zbackup.ChunkStorage.Reader.{
  Reader, Outcome, ok, no_such_chunk, bundle_failed, first_object, set_first, store, load_bundle,
  use_object, get_reader_for, get_from, get_found, get, new, take_chunk,
}

module _ (read_bundle : BundleId → Option Chunks) where
  -- An object is what its bundle has, or was not loaded yet.
  abbrev pub IsRead : ObjectId × Option Chunks → Type 0
  IsRead (id, none) = Unit {0}
  IsRead (id, some chunks) = read_bundle id ≡ some chunks

  pub record IsReader (r : Reader) : Type 0 where
    pub cache : IsCache r.cached_readers
    pub some_room : 0 < r.cached_readers.max_objects
    pub read : All IsRead r.cached_readers.objects

  -- What is read with no cache at all.
  abbrev pub read_through : Option Chunks → BundleId → Outcome Chunks
  read_through (some chunks) id = ok chunks
  read_through none id = bundle_failed id

  abbrev pub read_found : Option (BundleId × ℕ) → ChunkId → List ℕ → ℕ → Outcome (List ℕ × ℕ)
  read_found none id bytes size = no_such_chunk id
  read_found (some (bundle_id, chunk_size)) id bytes size =
      get_from read_bundle (read_through (read_bundle bundle_id) bundle_id) id bytes size

  IsRead-id :
      (id : BundleId)
      → (o : Option Chunks) → IsRead (id, o)
      → (o ≡ none) ⊎ ((chunks : Chunks) × (o ≡ some chunks) × (read_bundle id ≡ some chunks))
  IsRead-id id none h = inl refl
  IsRead-id id (some chunks) h = inr (chunks, refl, h)

  load-read :
      (r : Reader) (id : BundleId) (rest : List (ObjectId × Option Chunks)) (found : Option Chunks)
      → read_bundle id ≡ found
      → IsReader r
      → r.cached_readers.objects ≡ (id, none) ∷ rest
      → ((load_bundle read_bundle found id r).0 ≡ read_through found id)
        × IsReader (load_bundle read_bundle found id r).1
        × ((load_bundle read_bundle found id r).1.index ≡ r.index)
  unfolding load_bundle store set_first
  load-read r id rest none e h first = (refl, h, refl)
  load-read r id rest (some chunks) e h first =
      let set : set_first chunks r.cached_readers.objects ≡ (id, some chunks) ∷ rest =
        ap (set_first chunks) first in
      (
        refl,
        record {
          cache =
              subst
                (λ (objects : List (ObjectId × Option Chunks)).
                  IsCache (record r.cached_readers { objects = objects }))
                (sym set)
                (replace-IsCache r.cached_readers id none (some chunks) rest h.cache first);
          some_room = h.some_room;
          read = subst (All IsRead) (sym set) (e, (subst (All IsRead) first h.read).1);
        },
        refl,
      )

  get_reader_for-read :
      (r : Reader) (id : BundleId)
      → IsReader r
      → ((get_reader_for read_bundle r id).0 ≡ read_through (read_bundle id) id)
        × IsReader (get_reader_for read_bundle r id).1
        × ((get_reader_for read_bundle r id).1.index ≡ r.index)
  unfolding get_reader_for use_object first_object
  get_reader_for-read r id h =
      let cache = ObjectCache.entry r.cached_readers id in
      let (kept, objects) = entry-objects r.cached_readers id h.cache in
      let value = ObjectCache.value_of (ObjectCache.find id r.cached_readers.objects) in
      let rest =
        take (r.cached_readers.max_objects - 1) (ObjectCache.erase id r.cached_readers.objects) in
      let max : r.cached_readers.max_objects ≡ suc (r.cached_readers.max_objects - 1) =
        omega (arith, h.some_room) in
      let first : cache.objects ≡ (id, value) ∷ rest =
        objects
        ∙ ap (λ (n : ℕ). take n ((id, value) ∷ ObjectCache.erase id r.cached_readers.objects))
            max in
      let good : IsRead (id, value) = value_of-All IsRead id r.cached_readers.objects h.read tt in
      let r' : Reader = record r { cached_readers = cache } in
      let reader : IsReader r' = record {
        cache = kept;
        some_room = omega (arith, entry-max_objects r.cached_readers id, h.some_room);
        read =
            subst (All IsRead) (sym first)
              (good, All-take IsRead _ _ (All-erase IsRead id r.cached_readers.objects h.read));
      } in
      let used : first_object cache.objects ≡ value = ap first_object first in
      elim (IsRead-id id value good) [
        | inl fresh ↦
            subst
              (λ (o : Option Chunks).
                ((use_object read_bundle o id r').0 ≡ read_through (read_bundle id) id)
                × IsReader (use_object read_bundle o id r').1
                × ((use_object read_bundle o id r').1.index ≡ r.index))
              (sym (used ∙ fresh))
              (load-read r' id rest (read_bundle id) refl reader
                (first ∙ ap (λ (o : Option Chunks). (id, o) ∷ rest) fresh))
        | inr (chunks, loaded, same) ↦
            subst
              (λ (o : Option Chunks).
                ((use_object read_bundle o id r').0 ≡ read_through (read_bundle id) id)
                × IsReader (use_object read_bundle o id r').1
                × ((use_object read_bundle o id r').1.index ≡ r.index))
              (sym (used ∙ loaded))
              (ap (λ (o : Option Chunks). read_through o id) (sym same), reader, refl)
      ]

  get_found-read :
      (found : Option (BundleId × ℕ)) (r : Reader) (id : ChunkId) (bytes : List ℕ) (size : ℕ)
      → IsReader r
      → ((get_found read_bundle found r id bytes size).0 ≡ read_found found id bytes size)
        × IsReader (get_found read_bundle found r id bytes size).1
        × ((get_found read_bundle found r id bytes size).1.index ≡ r.index)
  unfolding get_found
  get_found-read none r id bytes size h = (refl, h, refl)
  get_found-read (some (bundle_id, chunk_size)) r id bytes size h =
      let (same, kept, index) = get_reader_for-read r bundle_id h in
      (ap (λ (o : Outcome Chunks). get_from read_bundle o id bytes size) same, kept, index)

  -- The number of readers that fit into the cache is below 2^32.
  pub new-IsReader :
      (index : ChunkIndex) (max_payload_size max_cache_size : ℕ)
      → 0 < max_payload_size
      → max_cache_size / max_payload_size < u32_mod
      → IsReader (new index max_payload_size max_cache_size)
  unfolding new ObjectCache.new
  new-IsReader index payload cache more fits = record {
    cache = new-IsCache _;
    some_room = elim (Bool-cases (ltb cache payload)) [
      | inl small ↦
          subst (λ n. 0 < n % u32_mod) (sym (if_true 1 (cache / payload) small)) (omega arith)
      | inr large ↦
          subst (λ n. 0 < n % u32_mod) (sym (if_false 1 (cache / payload) large))
            (subst (λ n. 0 < n) (sym (mod-eq_of_lt fits)) (ground (arith, large, more)))
    ];
    read = tt;
  }

  -- `get` gives the chunk from the bundle that the index names, or the exception, as if there were no
  -- cache and each bundle were read anew; the index and the order of the cache are kept, on every
  -- branch. The cache holds what is in the bundles.
  pub get-read :
      (r : Reader) (id : ChunkId) (bytes : List ℕ) (size : ℕ)
      → IsReader r
      → ((get read_bundle r id bytes size).0 ≡ read_found (find_chunk_id r.index id) id bytes size)
        × IsReader (get read_bundle r id bytes size).1
        × ((get read_bundle r id bytes size).1.index ≡ r.index)
  unfolding get
  get-read r id bytes size h = get_found-read (find_chunk_id r.index id) r id bytes size h

  -- A chunk whose bundle can be read is read.
  pub get-found :
      (r : Reader) (id : ChunkId) (bytes : List ℕ) (size : ℕ) (found : BundleId × ℕ)
      (chunks : Chunks)
      → IsReader r
      → find_chunk_id r.index id ≡ some found
      → read_bundle found.0 ≡ some chunks
      → ((get read_bundle r id bytes size).0
          ≡ ok (take_chunk read_bundle (Bundle.get chunks (to_blob id) bytes) bytes size))
        × IsReader (get read_bundle r id bytes size).1
        × ((get read_bundle r id bytes size).1.index ≡ r.index)
  unfolding get_from
  get-found r id bytes size found chunks h known loaded =
      let (same, kept, index) = get-read r id bytes size h in
      (
        same
            ∙ ap (λ (o : Option (BundleId × ℕ)). read_found o id bytes size) known
            ∙ ap
                (λ (o : Option Chunks). get_from read_bundle (read_through o found.0) id bytes size)
                loaded,
        kept,
        index,
      )
