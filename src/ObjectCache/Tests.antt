-- ===== src/ObjectCache/Tests.antt =====
-- The cache at concrete inputs: two objects at most, which are numbers.
use zbackup.Base.{ℕ, ◌≡◌, refl, false, none, [], ◌∷◌, take}
use zbackup.Base.Bytes.{bytes_eq}
use zbackup.ObjectCache.{
  ObjectId, ObjectCache, new, entry, remove, clear, find, erase, value_of, contains,
}
use zbackup.ObjectCache.Recent.{
  IsCache, is_there, new-IsCache, entry-objects, remove-objects, clear-objects,
}

abbrev empty_cache : ObjectCache ℕ
empty_cache = new 2

abbrev one_object : ObjectCache ℕ
one_object = entry empty_cache (1 ∷ [])

one_object-IsCache : IsCache one_object
one_object-IsCache = (entry-objects empty_cache (1 ∷ []) (new-IsCache 2)).0

abbrev two_objects : ObjectCache ℕ
two_objects = entry one_object (2 ∷ [])

two_objects-IsCache : IsCache two_objects
two_objects-IsCache = (entry-objects one_object (2 ∷ []) one_object-IsCache).0

-- The object that was used least recently goes.
third_evicts : (entry two_objects (3 ∷ [])).objects ≡ (3 ∷ [], none) ∷ (2 ∷ [], none) ∷ []
unfolding entry new bytes_eq
third_evicts = refl

used_stays :
    (entry (entry two_objects (1 ∷ [])) (3 ∷ [])).objects ≡ (3 ∷ [], none) ∷ (1 ∷ [], none) ∷ []
unfolding entry new bytes_eq
used_stays = refl

entry-objects_example :
    IsCache (entry two_objects (3 ∷ []))
    × ((entry two_objects (3 ∷ [])).objects
        ≡ take two_objects.max_objects (
            (3 ∷ [], value_of (find (3 ∷ []) two_objects.objects))
            ∷ erase (3 ∷ []) two_objects.objects))
entry-objects_example = entry-objects two_objects (3 ∷ []) two_objects-IsCache

remove-objects_example :
    IsCache (remove two_objects (1 ∷ [])).1
    × ((remove two_objects (1 ∷ [])).0 ≡ is_there (1 ∷ []) two_objects.objects)
    × ((remove two_objects (1 ∷ [])).1.objects ≡ erase (1 ∷ []) two_objects.objects)
    × (is_there (1 ∷ []) (remove two_objects (1 ∷ [])).1.objects ≡ false)
remove-objects_example = remove-objects two_objects (1 ∷ []) two_objects-IsCache

clear-objects_example :
    IsCache (clear two_objects)
    × ((clear two_objects).objects ≡ [])
    × ((clear two_objects).total_objects ≡ 0)
    × ((id : ObjectId) → contains id (clear two_objects).object_map ≡ false)
clear-objects_example = clear-objects two_objects two_objects-IsCache
