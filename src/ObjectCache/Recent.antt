-- ===== src/ObjectCache/Recent.antt =====
-- The invariant of the cache, and its order of use.
pub mod Objects
use zbackup.Base.{
  ℕ, zero, suc, ◌+◌, ◌-◌, ◌≤◌, ◌≡◌, refl, sym, ap, ap₂, ◌∙◌, subst, inl, inr, Bool, true, false,
  not, ◌&&◌, ◌||◌, Option, none, List, [], ◌∷◌, arith, ltb, Bool-cases, length, take, length-take,
}
use zbackup.Base.Bytes.{bytes_eq, bytes_eq_iff, bytes_eq_refl}
use zbackup.ObjectCache.{
  ObjectId, find, erase, last_id, pop_back, contains, erase_id, ObjectCache, new, value_of,
  evict_last, create, move_to_top, entry, remove, clear_objects, clear,
}

eq_swap : (a b : List ℕ) → bytes_eq a b ≡ bytes_eq b a
eq_swap a b = elim (Bool-cases (bytes_eq a b)) [
  | inl e ↦ rw ((bytes_eq_iff a b).0 e) refl
  | inr e ↦ elim (Bool-cases (bytes_eq b a)) [
    | inl f ↦ rw ((bytes_eq_iff b a).0 f) refl
    | inr f ↦ e ∙ sym f
  ]
]

contains-erase_id :
    (q x : ObjectId) (ids : List ObjectId)
    → contains q (erase_id x ids) ≡ (contains q ids && not (bytes_eq x q))
unfolding contains erase_id
contains-erase_id q x [] = refl
contains-erase_id q x (key ∷ ids) = elim (Bool-cases (bytes_eq key x)) [
  | inl e ↦
      let same : bytes_eq key q ≡ bytes_eq x q =
        ap (λ (t : List ℕ). bytes_eq t q) ((bytes_eq_iff key x).0 e) in
      ground (arith, contains-erase_id q x ids)
  | inr e ↦ elim (Bool-cases (bytes_eq key q)) [
    | inl f ↦
        let other : bytes_eq x q ≡ false =
          ap (λ (t : List ℕ). bytes_eq x t) (sym ((bytes_eq_iff key q).0 f)) ∙ eq_swap x key ∙ e in
        rw (e, f, other) refl
    | inr f ↦ rw (e, f) (contains-erase_id q x ids)
  ]
]

module _ {ℓ} {A : Type ℓ} where
  -- Whether there is an object with the id.
  pub is_there : ObjectId → List (ObjectId × Option A) → Bool
  is_there id [] = false
  is_there id ((key, value) ∷ objects) = bytes_eq key id || is_there id objects

  -- No id occurs twice.
  abbrev pub IsUnique : List (ObjectId × Option A) → Type 0
  IsUnique [] = Unit {0}
  IsUnique ((key, value) ∷ objects) = (is_there key objects ≡ false) × IsUnique objects

  -- The map has the ids of the objects, none of which occurs twice, and the objects are counted and no
  -- more than there may be.
  pub record IsCache (s : ObjectCache A) : Type 0 where
    pub unique : IsUnique s.objects
    pub mapped : (id : ObjectId) → contains id s.object_map ≡ is_there id s.objects
    pub counted : s.total_objects ≡ length s.objects
    pub bounded : length s.objects ≤ s.max_objects

  take_long : (n : ℕ) (xs : List (ObjectId × Option A)) → length xs ≤ n → take n xs ≡ xs
  take_long zero [] h = refl
  take_long zero (x ∷ xs) h = absurd (omega arith)
  take_long (suc n) [] h = refl
  take_long (suc n) (x ∷ xs) h =
      ap (λ (t : List (ObjectId × Option A)). x ∷ t) (take_long n xs (omega arith))

  pop_back-take :
      (x : ObjectId × Option A) (xs : List (ObjectId × Option A))
      → pop_back (x ∷ xs) ≡ take (length xs) (x ∷ xs)
  unfolding pop_back
  pop_back-take x [] = refl
  pop_back-take x (y ∷ xs) = ap (λ (t : List (ObjectId × Option A)). x ∷ t) (pop_back-take y xs)

  erase-absent :
      (id : ObjectId) (xs : List (ObjectId × Option A)) → is_there id xs ≡ false → erase id xs ≡ xs
  unfolding erase is_there
  erase-absent id [] h = refl
  erase-absent id ((key, value) ∷ xs) h = ground (arith, erase-absent id xs)

  find-absent :
      (id : ObjectId) (xs : List (ObjectId × Option A)) → is_there id xs ≡ false → find id xs ≡ none
  unfolding find is_there
  find-absent id [] h = refl
  find-absent id ((key, value) ∷ xs) h = ground (arith, find-absent id xs)

  length-erase :
      (id : ObjectId) (xs : List (ObjectId × Option A))
      → is_there id xs ≡ true
      → suc (length (erase id xs)) ≡ length xs
  unfolding erase is_there
  length-erase id [] h = absurd (ground arith)
  length-erase id ((key, value) ∷ xs) h = ground (arith, length-erase id xs)

  -- The last one is not among the others.
  is_there-pop_back :
      (q d : ObjectId) (x : ObjectId × Option A) (xs : List (ObjectId × Option A))
      → IsUnique (x ∷ xs)
      → is_there q (pop_back (x ∷ xs))
        ≡ (is_there q (x ∷ xs) && not (bytes_eq (last_id d (x ∷ xs)) q))
  unfolding is_there pop_back last_id
  is_there-pop_back q d (key, value) [] u = ground arith
  is_there-pop_back q d (key, value) (y ∷ xs) (absent, u) = elim (Bool-cases (bytes_eq key q)) [
    | inl e ↦
        let is_key = (bytes_eq_iff key q).0 e in
        let there : is_there q (y ∷ xs) ≡ false =
          ap (λ (t : List ℕ). is_there t (y ∷ xs)) (sym is_key) ∙ absent in
        rw (e, is_there-last key y xs q there) refl
    | inr e ↦ rw e (is_there-pop_back q key y xs u)
  ]
    where
      is_there-last :
          (key : ObjectId) (y : ObjectId × Option A) (xs : List (ObjectId × Option A))
          (q : ObjectId)
          → is_there q (y ∷ xs) ≡ false
          → bytes_eq (last_id key (y ∷ xs)) q ≡ false
      is_there-last key (k, v) [] q h = ground arith
      is_there-last key (k, v) (z ∷ xs) q h = is_there-last k z xs q (ground arith)

  IsUnique-pop_back : (xs : List (ObjectId × Option A)) → IsUnique xs → IsUnique (pop_back xs)
  unfolding pop_back
  IsUnique-pop_back [] u = tt
  IsUnique-pop_back (x ∷ []) u = tt
  IsUnique-pop_back ((key, value) ∷ y ∷ xs) (absent, u) =
      (rw (is_there-pop_back key [] y xs u, absent) refl, IsUnique-pop_back (y ∷ xs) u)

  is_there-erase :
      (q id : ObjectId) (xs : List (ObjectId × Option A))
      → IsUnique xs
      → is_there q (erase id xs) ≡ (is_there q xs && not (bytes_eq id q))
  unfolding is_there erase
  is_there-erase q id [] u = refl
  is_there-erase q id ((key, value) ∷ xs) (absent, u) = elim (Bool-cases (bytes_eq key id)) [
    | inl e ↦
        let is_key = (bytes_eq_iff key id).0 e in
        elim (Bool-cases (bytes_eq id q)) [
          | inl f ↦
              let gone : is_there q xs ≡ false =
                ap (λ (t : List ℕ). is_there t xs) (sym ((bytes_eq_iff id q).0 f) ∙ sym is_key)
                ∙ absent in
              rw (e, f, gone) (ground arith)
          | inr f ↦
              let other : bytes_eq key q ≡ false = ap (λ (t : List ℕ). bytes_eq t q) is_key ∙ f in
              rw (e, f, other) (ground arith)
        ]
    | inr e ↦ elim (Bool-cases (bytes_eq key q)) [
      | inl f ↦
          let other : bytes_eq id q ≡ false =
            ap (λ (t : List ℕ). bytes_eq id t) (sym ((bytes_eq_iff key q).0 f))
            ∙ eq_swap id key
            ∙ e in
          rw (e, f, other) refl
      | inr f ↦ rw (e, f) (is_there-erase q id xs u)
    ]
  ]

  IsUnique-erase :
      (id : ObjectId) (xs : List (ObjectId × Option A)) → IsUnique xs → IsUnique (erase id xs)
  unfolding erase
  IsUnique-erase id [] u = tt
  IsUnique-erase id ((key, value) ∷ xs) (absent, u) = elim (Bool-cases (bytes_eq key id)) [
    | inl e ↦ rw e u
    | inr e ↦ rw e (rw (is_there-erase key id xs u, absent) refl, IsUnique-erase id xs u)
  ]

  evict_last-IsCache :
      (s : ObjectCache A)
      → IsUnique s.objects
      → ((id : ObjectId) → contains id s.object_map ≡ is_there id s.objects)
      → s.total_objects ≡ length s.objects
      → length s.objects ≡ suc s.max_objects
      → IsCache (evict_last s) × ((evict_last s).objects ≡ take s.max_objects s.objects)
  unfolding evict_last
  evict_last-IsCache s u m c full = go s.objects refl u m c full
    where
      go :
          (xs : List (ObjectId × Option A))
          → s.objects ≡ xs
          → IsUnique s.objects
          → ((id : ObjectId) → contains id s.object_map ≡ is_there id s.objects)
          → s.total_objects ≡ length s.objects
          → length s.objects ≡ suc s.max_objects
          → IsCache (evict_last s) × ((evict_last s).objects ≡ take s.max_objects s.objects)
      go [] e u m c full = absurd (omega (arith, ap length e, full))
      go (x ∷ xs) e u m c full =
          let cut : pop_back s.objects ≡ take s.max_objects s.objects =
            ap pop_back e
            ∙ pop_back-take x xs
            ∙ ap₂ (λ (n : ℕ) (t : List (ObjectId × Option A)). take n t)
                (omega (arith, ap length e, full)) (sym e) in
          let size : length (pop_back s.objects) ≡ s.max_objects =
            ap length cut ∙ (rw (length-take, full) (omega arith)) in
          (
            record {
              unique = IsUnique-pop_back s.objects u;
              mapped = λ id.
                  contains-erase_id id (last_id [] s.objects) s.object_map
                  ∙ ap (λ (b : Bool). b && not (bytes_eq (last_id [] s.objects) id)) (m id)
                  ∙ sym (
                      ap (λ (t : List (ObjectId × Option A)). is_there id (pop_back t)) e
                      ∙ is_there-pop_back id [] x xs (subst IsUnique e u)
                      ∙ ap
                          (λ (t : List (ObjectId × Option A)).
                            is_there id t && not (bytes_eq (last_id [] t) id))
                          (sym e));
              counted = omega (arith, size, c, full);
              bounded = omega (arith, size);
            },
            cut,
          )

  there-front :
      (q id : ObjectId) (xs : List (ObjectId × Option A))
      → IsUnique xs
      → is_there id xs ≡ true
      → is_there q xs ≡ (bytes_eq id q || is_there q (erase id xs))
  there-front q id xs u old = elim (Bool-cases (bytes_eq id q)) [
    | inl e ↦ rw e (ap (λ (t : List ℕ). is_there t xs) (sym ((bytes_eq_iff id q).0 e)) ∙ old)
    | inr e ↦ rw (is_there-erase q id xs u, e) (bool_and (is_there q xs))
  ]
    where
      bool_and : (b : Bool) → b ≡ (b && not false)
      bool_and true = refl
      bool_and false = refl

  abbrev added : ObjectCache A → ObjectId → ObjectCache A
  added s id = record s {
    object_map = id ∷ s.object_map;
    objects = (id, none) ∷ s.objects;
    total_objects = s.total_objects + 1;
  }

  -- After `entry` the cache is in order, and holds the object with the id in front, with what it held
  -- for the id before, or NULL; behind it the other objects in the order in which they were used, as
  -- many as there is room for.
  pub entry-objects :
      (s : ObjectCache A) (id : ObjectId)
      → IsCache s
      → IsCache (entry s id)
        × ((entry s id).objects
            ≡ take s.max_objects ((id, value_of (find id s.objects)) ∷ erase id s.objects))
  unfolding entry move_to_top create contains is_there
  entry-objects s id v = elim (Bool-cases (is_there id s.objects)) [
    | inl old ↦
        let size = length-erase id s.objects old in
        rw (v.mapped id, old)
          (
            record {
              unique = (
                rw (is_there-erase id id s.objects v.unique, old, bytes_eq_refl id) refl,
                IsUnique-erase id s.objects v.unique,
              );
              mapped = λ q. v.mapped q ∙ there-front q id s.objects v.unique old;
              counted = omega (arith, v.counted, size);
              bounded = omega (arith, v.bounded, size);
            },
            sym (take_long s.max_objects _ (omega (arith, v.bounded, size))),
          )
    | inr fresh ↦
        let first : (id, value_of (find id s.objects)) ∷ erase id s.objects
            ≡ (id, none) ∷ s.objects =
          ap₂ (λ (x : Option A) (t : List (ObjectId × Option A)). (id, x) ∷ t)
            (ap value_of (find-absent id s.objects fresh) ∙ (unfold value_of in refl))
            (erase-absent id s.objects fresh) in
        rw (v.mapped id, fresh, first)
          (elim (Bool-cases (ltb s.max_objects (s.total_objects + 1))) [
            | inl full ↦ rw full (
                evict_last-IsCache (added s id) (fresh, v.unique)
                  (λ q. ap (λ (b : Bool). bytes_eq id q || b) (v.mapped q))
                  (omega (arith, v.counted)) (ground (arith, v.counted, v.bounded)))
            | inr room ↦ rw room (
              record {
                unique = (fresh, v.unique);
                mapped = λ q. ap (λ (b : Bool). bytes_eq id q || b) (v.mapped q);
                counted = omega (arith, v.counted);
                bounded = ground (arith, v.counted);
              },
              sym (take_long s.max_objects _ (ground (arith, v.counted))),
            )
          ])
  ]

  -- `remove` tells whether there was an object with the id, takes it away alone, and leaves the cache in
  -- order.
  pub remove-objects :
      (s : ObjectCache A) (id : ObjectId)
      → IsCache s
      → IsCache (remove s id).1
        × ((remove s id).0 ≡ is_there id s.objects)
        × ((remove s id).1.objects ≡ erase id s.objects)
        × (is_there id (remove s id).1.objects ≡ false)
  unfolding remove
  remove-objects s id v =
      let gone : is_there id (erase id s.objects) ≡ false =
        is_there-erase id id s.objects v.unique
        ∙ (rw (bytes_eq_refl id) (and_false (is_there id s.objects))) in
      elim (Bool-cases (is_there id s.objects)) [
        | inl old ↦
            let size = length-erase id s.objects old in
            rw (v.mapped id, old)
              (
                record {
                  unique = IsUnique-erase id s.objects v.unique;
                  mapped = λ q.
                      contains-erase_id q id s.object_map
                      ∙ ap (λ (b : Bool). b && not (bytes_eq id q)) (v.mapped q)
                      ∙ sym (is_there-erase q id s.objects v.unique);
                  counted = omega (arith, v.counted, size);
                  bounded = omega (arith, v.bounded, size);
                },
                refl,
                refl,
                gone,
              )
        | inr fresh ↦
            rw (v.mapped id, fresh) (v, refl, sym (erase-absent id s.objects fresh), fresh)
      ]
    where
      and_false : (b : Bool) → (b && false) ≡ false
      and_false true = refl
      and_false false = refl

  pub new-IsCache : (n : ℕ) → IsCache (new {A = A} n)
  unfolding new contains is_there
  new-IsCache n = record { unique = tt; mapped = λ id. refl; counted = refl; bounded = omega arith }

  -- One round of the loop of `clear` takes the object in front away.
  popped-IsCache :
      (s : ObjectCache A) (id : ObjectId) (value : Option A) (rest : List (ObjectId × Option A))
      → IsCache s
      → s.objects ≡ (id, value) ∷ rest
      → IsCache (record s {
        object_map = erase_id id s.object_map;
        objects = rest;
        total_objects = s.total_objects - 1;
      })
  unfolding remove
  popped-IsCache s id value rest v e =
      subst
        (λ (t : List (ObjectId × Option A)). IsCache (record s {
          object_map = erase_id id s.object_map;
          objects = t;
          total_objects = s.total_objects - 1;
        }))
        (ap (erase id) e ∙ front) (rw (v.mapped id, there) at (remove-objects s id v).0)
    where
      front : erase id ((id, value) ∷ rest) ≡ rest
      front = unfold erase in rw (bytes_eq_refl id) refl

      there : is_there id s.objects ≡ true
      there = ap (is_there id) e ∙ (unfold is_there in rw (bytes_eq_refl id) refl)

  clear_objects-objects :
      (xs : List (ObjectId × Option A)) (s : ObjectCache A)
      → IsCache s
      → s.objects ≡ xs
      → IsCache (clear_objects xs s) × ((clear_objects xs s).objects ≡ [])
  unfolding clear_objects
  clear_objects-objects [] s v e = (v, e)
  clear_objects-objects ((id, value) ∷ rest) s v e =
      clear_objects-objects rest _ (popped-IsCache s id value rest v e) refl

  -- `clear` leaves an empty cache in order: no object, a count of zero and an empty map.
  pub clear-objects :
      (s : ObjectCache A)
      → IsCache s
      → IsCache (clear s)
        × ((clear s).objects ≡ [])
        × ((clear s).total_objects ≡ 0)
        × ((id : ObjectId) → contains id (clear s).object_map ≡ false)
  unfolding clear is_there
  clear-objects s v =
      let (c, none_left) = clear_objects-objects s.objects s v refl in
      (
        c,
        none_left,
        c.counted ∙ ap length none_left,
        λ id. c.mapped id ∙ ap (is_there id) none_left,
      )
