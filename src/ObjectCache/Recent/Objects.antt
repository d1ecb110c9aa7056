-- ===== src/ObjectCache/Recent/Objects.antt =====
-- What holds of all objects of the cache, and objects that change in place.
use zbackup.Base.{
  ◌≤◌, ◌≡◌, refl, sym, ap, ◌∙◌, inl, inr, Option, none, List, [], ◌∷◌, arith, length, All,
  Bool-cases, if_true, if_false, subst,
}
use zbackup.Base.Bytes.{bytes_eq, bytes_eq_iff}
use zbackup.ObjectCache.{
  ObjectId, find, erase, ObjectCache, value_of, evict_last, create, move_to_top, entry,
}
use zbackup.ObjectCache.Recent.{is_there, IsUnique, IsCache}

module _ {ℓ} {A : Type ℓ} where
  pub All-erase {κ} :
      (P : ObjectId × Option A → Type κ) (id : ObjectId) (xs : List (ObjectId × Option A))
      → All P xs
      → All P (erase id xs)
  unfolding erase
  All-erase P id [] h = tt
  All-erase P id ((key, value) ∷ xs) (p, h) = elim (Bool-cases (bytes_eq key id)) [
    | inl same ↦ subst (All P) (sym (if_true _ _ same)) h
    | inr other ↦ subst (All P) (sym (if_false _ _ other)) (p, All-erase P id xs h)
  ]

  pub value_of-All {κ} :
      (P : ObjectId × Option A → Type κ) (id : ObjectId) (xs : List (ObjectId × Option A))
      → All P xs
      → P (id, none)
      → P (id, value_of (find id xs))
  unfolding find value_of
  value_of-All P id [] h new = new
  value_of-All P id ((key, value) ∷ xs) (p, h) new = elim (Bool-cases (bytes_eq key id)) [
    | inl same ↦
        subst (λ (o : Option (Option A)). P (id, value_of o)) (sym (if_true _ _ same))
          (subst (λ (k : ObjectId). P (k, value)) ((bytes_eq_iff key id).0 same) p)
    | inr other ↦
        subst (λ (o : Option (Option A)). P (id, value_of o)) (sym (if_false _ _ other))
          (value_of-All P id xs h new)
  ]

  pub entry-max_objects :
      (s : ObjectCache A) (id : ObjectId) → (entry s id).max_objects ≡ s.max_objects
  unfolding entry create move_to_top evict_last
  entry-max_objects s id = ground arith

  pub replace-IsCache :
      (s : ObjectCache A) (id : ObjectId) (old new : Option A) (rest : List (ObjectId × Option A))
      → IsCache s
      → s.objects ≡ (id, old) ∷ rest
      → IsCache (record s { objects = (id, new) ∷ rest })
  unfolding is_there
  replace-IsCache s id old new rest h e = record {
    unique = subst IsUnique e h.unique;
    mapped = λ q. h.mapped q ∙ ap (is_there q) e;
    counted = h.counted ∙ (rw e refl);
    bounded =
        subst (λ (objects : List (ObjectId × Option A)). length objects ≤ s.max_objects) e
          h.bounded;
  }
