-- ===== src/ObjectCache.antt =====
-- objectcache.hh and objectcache.cc: objects of which the least recently used one goes first. The list
-- has the most recently used object in front. `ObjectMap`, the set of the list's iterators ordered
-- by the ids they point to, is the list of these ids. An `sptr` is an object, or `none` for NULL.
pub mod Recent
mod Tests
use zbackup.Base.{
  ℕ, zero, suc, ◌+◌, ◌-◌, ◌*◌, ◌/◌, ◌%◌, ◌^◌, ◌≤◌, ◌<◌, ◌≡◌, refl, sym, ap, ap₂, ◌∙◌, subst, ◌≢◌,
  ◌↔◌, ◌⊎◌, inl, inr, Bool, true, false, not, ◌&&◌, ◌||◌, Option, none, some, List, [], ◌∷◌, ◌++◌,
  map, reverse, append-nil, append_assoc, arith, ltb, leb, ◌==◌, if◌then◌else◌, ltb→lt, lt→ltb,
  ==_iff, Bool-cases, Option-cases, length, get_or, set, take, drop, replicate, All, length-append,
  length-set, length-take, length-drop, length-replicate, take-append-drop, take-append,
  drop-append, All-append, take_at, drop_at, take_all, All-take, All-drop, overwrite,
  length-overwrite, take-overwrite, set-overwrite, lt_wf,
}
use zbackup.Base.Bytes.{
  IsByte, u64_mod, u32_mod, bytes_eq, bytes_eq_iff, bytes_eq_refl, memcmp, to_le, from_le,
  length-to_le, to_le-IsByte, from_le-to_le, to_le-from_le, from_le-lt, add32, sub32, add32_fits,
  sub32_fits,
}

abbrev pub ObjectId : Type 0
ObjectId = List ℕ

module _ {ℓ} {A : Type ℓ} where
  pub find : ObjectId → List (ObjectId × Option A) → Option (Option A)
  find id [] = none
  find id ((key, value) ∷ objects) = if bytes_eq key id then some value else find id objects

  -- `objects.erase( ... )` of the object with the id.
  pub erase : ObjectId → List (ObjectId × Option A) → List (ObjectId × Option A)
  erase id [] = []
  erase id ((key, value) ∷ objects) =
      let rest = erase id objects in if bytes_eq key id then objects else (key, value) ∷ rest

  -- `--objects.end()` and `objects.pop_back()`.
  last_id : ObjectId → List (ObjectId × Option A) → ObjectId
  last_id id [] = id
  last_id id ((key, value) ∷ objects) = last_id key objects

  pop_back : List (ObjectId × Option A) → List (ObjectId × Option A)
  pop_back [] = []
  pop_back (object ∷ []) = []
  pop_back (object ∷ next ∷ objects) = object ∷ pop_back (next ∷ objects)

pub contains : ObjectId → List ObjectId → Bool
contains id [] = false
contains id (key ∷ ids) = bytes_eq key id || contains id ids

-- `objectMap.erase( ... )`; a set has an id at most once.
erase_id : ObjectId → List ObjectId → List ObjectId
erase_id id [] = []
erase_id id (key ∷ ids) = let rest = erase_id id ids in if bytes_eq key id then rest else key ∷ rest

pub record ObjectCache {ℓ} (A : Type ℓ) : Type ℓ where
  pub max_objects : ℕ
  pub objects : List (ObjectId × Option A)
  pub total_objects : ℕ
  pub object_map : List ObjectId

module _ {ℓ} {A : Type ℓ} where
  unfoldable pub new : ℕ → ObjectCache A
  new max_size = record { max_objects = max_size; objects = []; total_objects = 0; object_map = [] }

  -- What was found, and NULL for a new object.
  pub value_of : Option (Option A) → Option A
  value_of none = none
  value_of (some value) = value

  evict_last : ObjectCache A → ObjectCache A
  unfolding last_id pop_back erase_id
  evict_last s = record s {
    object_map = erase_id (last_id [] s.objects) s.object_map;
    objects = pop_back s.objects;
    total_objects = s.total_objects - 1;
  }

  create : ObjectCache A → ObjectId → ObjectCache A
  unfolding evict_last
  create s id =
      let added = record s {
        object_map = id ∷ s.object_map;
        objects = (id, none) ∷ s.objects;
        total_objects = s.total_objects + 1;
      } in
      if ltb added.max_objects added.total_objects then evict_last added else added

  move_to_top : ObjectCache A → ObjectId → ObjectCache A
  unfolding find erase value_of
  move_to_top s id = record s { objects = (id, value_of (find id s.objects)) ∷ erase id s.objects }

  -- The reference that is returned is that of the object in front.
  pub entry : ObjectCache A → ObjectId → ObjectCache A
  unfolding create move_to_top contains
  entry s id = if contains id s.object_map then move_to_top s id else create s id

  pub remove : ObjectCache A → ObjectId → Bool × ObjectCache A
  unfolding contains erase erase_id
  remove s id =
      if contains id s.object_map
      then (
        true,
        record s {
          objects = erase id s.objects;
          object_map = erase_id id s.object_map;
          total_objects = s.total_objects - 1;
        },
      )
      else (false, s)

  -- The loop of `clear`, from the front on.
  clear_objects : List (ObjectId × Option A) → ObjectCache A → ObjectCache A
  unfolding erase_id
  clear_objects [] s = s
  clear_objects ((id, value) ∷ objects) s = clear_objects objects (record s {
    object_map = erase_id id s.object_map;
    objects = objects;
    total_objects = s.total_objects - 1;
  })

  pub clear : ObjectCache A → ObjectCache A
  unfolding clear_objects
  clear s = clear_objects s.objects s
