-- ===== src/ChunkStorage/Items.antt =====
-- The chunks that a writer holds, in whatever stage they are.
use zbackup.Base.{
  ℕ, ◌≡◌, refl, ap, inl, inr, Option, none, some, List, [], ◌∷◌, ◌++◌, append_assoc, Bool-cases,
  Option-cases,
}
use zbackup.Bundle.{Creator}
use zbackup.Bundle.RoundTrip.{Item}
use zbackup.Bundle.Items.{bundle_items, bundle_items-empty}
use zbackup.ChunkIndex.{BundleId}
use zbackup.ChunkStorage.{Writer, current_or_new, get_current_bundle_id, get_current_bundle}

unfoldable pub disk_items : List (BundleId × Creator) → List Item
disk_items [] = []
disk_items ((id, creator) ∷ bundles) = bundle_items creator ++ disk_items bundles

unfoldable pub pending_items : List (Creator × BundleId) → List Item
pending_items [] = []
pending_items ((creator, id) ∷ pending) = bundle_items creator ++ pending_items pending

unfoldable pub current_items : Option Creator → List Item
current_items none = []
current_items (some creator) = bundle_items creator

-- Every chunk that the repository or this writer has, in the order in which it came.
unfoldable pub stored : Writer → List Item
unfolding disk_items pending_items current_items
stored w =
    disk_items w.bundles
    ++ (pending_items w.pending_bundle_renames ++ current_items w.current_bundle)

pub pending_items-append :
    (p q : List (Creator × BundleId)) → pending_items (p ++ q) ≡ pending_items p ++ pending_items q
unfolding pending_items
pending_items-append [] q = refl
pending_items-append ((c, id) ∷ p) q =
    rw append_assoc (ap (λ (t : List Item). bundle_items c ++ t) (pending_items-append p q))

module _ (random : ℕ → List ℕ) where
  pub stored-get_current_bundle_id :
      (w : Writer) → stored (get_current_bundle_id random w).0 ≡ stored w
  unfolding get_current_bundle_id stored
  stored-get_current_bundle_id w = elim (Bool-cases w.has_current_bundle_id) [
    | inl e ↦ rw e
    | inr e ↦ rw e
  ]

  pub stored-get_current_bundle : (w : Writer) → stored (get_current_bundle random w).0 ≡ stored w
  unfolding get_current_bundle stored current_items current_or_new
  stored-get_current_bundle w = elim (Option-cases w.current_bundle) [
    | inl e ↦ rw e (rw bundle_items-empty)
    | inr (c, e) ↦ rw e
  ]
