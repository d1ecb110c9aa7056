-- ===== src/ChunkStorage/Moving.antt =====
-- The moves of `commit`: the bundles that wait go into the directory, from the last to the first.
use zbackup.Base.Bytes.{bytes_eq}
use zbackup.Base.{
  ◌≡◌, refl, sym, ap, ◌∙◌, subst, List, [], ◌∷◌, ◌++◌, append-nil, append_assoc, Bool, true, false,
  not, ◌&&◌, ◌||◌, ◌⊎◌, inl, inr, Bool-cases, if_true, if_false, arith,
}
use mathlib.Core.Logic.Or
use mathlib.Core.List.{
  Mem, Mem-prop, not-mem-nil, mem-cons, Perm, mem-append_left, mem-append_right, mem-cons_self,
  perm_append_comm,
}
use mathlib.Core.List.Perm
use zbackup.ChunkIndex.{BundleId}
use zbackup.Bundle.{Creator}
use zbackup.Bundle.RoundTrip.{Item}
use zbackup.Bundle.Items.{bundle_items}
use zbackup.ChunkStorage.{move_bundles, is_taken, move_over_to}
use zbackup.ChunkStorage.Items.{disk_items, pending_items}

disk_items-append :
    (a b : List (BundleId × Creator)) → disk_items (a ++ b) ≡ disk_items a ++ disk_items b
unfolding disk_items
disk_items-append [] b = refl
disk_items-append ((id, c) ∷ a) b =
    rw append_assoc (ap (λ (t : List Item). bundle_items c ++ t) (disk_items-append a b))

pub Perm_of_eq {ℓ} : {A : Type ℓ} {xs ys : List A} → xs ≡ ys → Perm xs ys
Perm_of_eq {xs} e = subst (Perm xs) e (Perm.refl xs)

-- Where they go, if all moves succeed.
pub moves : List (Creator × BundleId) → List (BundleId × Creator) → List (BundleId × Creator)
moves [] moved = moved
moves ((c, id) ∷ pending) moved = moves pending moved ++ ((id, c) ∷ [])

-- One of the bundles that wait has the name.
unfoldable pub is_named : BundleId → List (Creator × BundleId) → Bool
is_named id [] = false
is_named id ((c, key) ∷ pending) = bytes_eq key id || is_named id pending

-- The names are free and differ from each other.
abbrev pub AllFree : List (Creator × BundleId) → List (BundleId × Creator) → Type 0
AllFree [] moved = Unit {0}
AllFree ((c, id) ∷ pending) moved =
    (is_taken id moved ≡ false) × (is_named id pending ≡ false) × AllFree pending moved

is_taken-append :
    (id : BundleId) (moved more : List (BundleId × Creator))
    → is_taken id (moved ++ more) ≡ (is_taken id moved || is_taken id more)
unfolding is_taken
is_taken-append id [] more = refl
is_taken-append id ((key, c) ∷ moved) more = ground (arith, is_taken-append id moved more)

is_taken-moves :
    (id : BundleId) (pending : List (Creator × BundleId)) (moved : List (BundleId × Creator))
    → is_taken id moved ≡ false
    → is_named id pending ≡ false
    → is_taken id (moves pending moved) ≡ false
unfolding is_named moves
is_taken-moves id [] moved e f = e
is_taken-moves id ((c, key) ∷ pending) moved e f =
    is_taken-append id (moves pending moved) ((key, c) ∷ [])
    ∙ last id key c (is_taken id (moves pending moved))
        (is_taken-moves id pending moved e (ground (arith, f))) (ground (arith, f))
  where
    last :
        (id key : BundleId) (c : Creator) (b : Bool)
        → b ≡ false
        → bytes_eq key id ≡ false
        → (b || is_taken id ((key, c) ∷ [])) ≡ false
    last id key c b e f = unfold is_taken in ground (arith, e, f)

pub move_bundles-free :
    (pending : List (Creator × BundleId)) (moved : List (BundleId × Creator))
    → AllFree pending moved
    → move_bundles pending moved ≡ (moves pending moved, true)
unfolding move_bundles move_over_to moves
move_bundles-free [] moved h = refl
move_bundles-free ((c, id) ∷ pending) moved (free, differs, h) =
    ap (move_over_to c id) (move_bundles-free pending moved h)
    ∙ if_true {b = true && not (is_taken id (moves pending moved))} _ _
        (ground (arith, is_taken-moves id pending moved free differs))

pub moves-append :
    (pending : List (Creator × BundleId)) (moved : List (BundleId × Creator))
    → (more : List (BundleId × Creator)) × (moves pending moved ≡ moved ++ more)
unfolding moves
moves-append [] moved = ([], sym (append-nil moved))
moves-append ((c, id) ∷ pending) moved =
    let (more, e) = moves-append pending moved in
    (
      more ++ ((id, c) ∷ []),
      ap (λ (t : List (BundleId × Creator)). t ++ ((id, c) ∷ [])) e
          ∙ append_assoc moved more ((id, c) ∷ []),
    )

-- All moves, or an exception before the last of them.
pub move_bundles-cases :
    (pending : List (Creator × BundleId)) (moved : List (BundleId × Creator))
    → (move_bundles pending moved ≡ (moves pending moved, true))
      ⊎ ((some_moved : List (BundleId × Creator)) × (move_bundles pending moved
            ≡ (moved ++ some_moved, false)))
unfolding move_bundles move_over_to moves
move_bundles-cases [] moved = inl refl
move_bundles-cases ((c, id) ∷ pending) moved = elim (move_bundles-cases pending moved) [
  | inl all ↦ elim (Bool-cases (is_taken id (moves pending moved))) [
    | inl taken ↦
        let (more, e) = moves-append pending moved in
        inr (
          more,
          ap (move_over_to c id) all
              ∙ if_false {b = true && not (is_taken id (moves pending moved))} _ _
                  (ground (arith, taken))
              ∙ ap (λ (t : List (BundleId × Creator)). (t, false)) e,
        )
    | inr free ↦ inl (
        ap (move_over_to c id) all
        ∙ if_true {b = true && not (is_taken id (moves pending moved))} _ _ (ground (arith, free)))
  ]
  | inr (more, failed) ↦ inr (more, ap (move_over_to c id) failed)
]

move_over_to-true :
    (c : Creator) (id : BundleId) (r : List (BundleId × Creator) × Bool)
    → (move_over_to c id r).1 ≡ true
    → (r.1 ≡ true) × (is_taken id r.0 ≡ false)
unfolding move_over_to
move_over_to-true c id (moved, fine) e = elim (Bool-cases (fine && not (is_taken id moved))) [
  | inl free ↦ (ground (arith, free), ground (arith, free))
  | inr other ↦ absurd (
      cc (
        e,
        ap (λ (r : List (BundleId × Creator) × Bool). r.1)
            (if_false {b = fine && not (is_taken id moved)} (moved ++ ((id, c) ∷ []), true)
              (moved, false) other),
      ))
]

-- Where nothing was thrown, the names were free.
pub move_bundles-free_before :
    (pending : List (Creator × BundleId)) (moved : List (BundleId × Creator)) (c : Creator)
    (id : BundleId)
    → (move_bundles pending moved).1 ≡ true
    → Mem (c, id) pending
    → is_taken id moved ≡ false
unfolding move_bundles
move_bundles-free_before [] moved c id e m = absurd (not-mem-nil m)
move_bundles-free_before ((d, key) ∷ pending) moved c id e m =
    let (fine, free) = move_over_to-true d key (move_bundles pending moved) e in
    Or.elim (hlevel) (mem-cons.0 m)
      (λ same.
        subst (λ (n : BundleId). is_taken n moved ≡ false)
          (sym (ap (λ (p : Creator × BundleId). p.1) same)) (head key pending moved fine free))
      (λ rest. move_bundles-free_before pending moved c id fine rest)
  where
    head :
        (key : BundleId) (pending : List (Creator × BundleId)) (moved : List (BundleId × Creator))
        → (move_bundles pending moved).1 ≡ true
        → is_taken key (move_bundles pending moved).0 ≡ false
        → is_taken key moved ≡ false
    head key pending moved fine free = elim (move_bundles-cases pending moved) [
      | inl all ↦
          let (more, e) = moves-append pending moved in
          let joined : (is_taken key moved || is_taken key more) ≡ false =
            sym (is_taken-append key moved more)
            ∙ ap (is_taken key) (sym e)
            ∙ ap (λ (r : List (BundleId × Creator) × Bool). is_taken key r.0) (sym all)
            ∙ free in
          ground (arith, joined)
      | inr (more, failed) ↦
          absurd (cc (fine, ap (λ (r : List (BundleId × Creator) × Bool). r.1) failed))
    ]

-- Moving the pending bundles takes their chunks into the directory.
pub disk_items-moves :
    (pending : List (Creator × BundleId)) (moved : List (BundleId × Creator))
    → Perm (disk_items (moves pending moved)) (disk_items moved ++ pending_items pending)
unfolding moves pending_items
disk_items-moves [] moved = Perm_of_eq (rw append-nil)
disk_items-moves ((c, id) ∷ pending) moved =
    let rest = disk_items-moves pending moved in
    rw (disk_items-append (moves pending moved) ((id, c) ∷ [])) (
      Perm.trans (Perm.append_right (disk_items ((id, c) ∷ [])) rest) (
        Perm_rotate (disk_items moved) (pending_items pending) (bundle_items c) _
          (unfold disk_items in append-nil _)))
  where
    Perm_rotate : (a b c d : List Item) → d ≡ c → Perm ((a ++ b) ++ d) (a ++ (c ++ b))
    Perm_rotate a b c d e = rw (e, append_assoc) (Perm.append_left a (perm_append_comm b c))

pub mem-moves :
    (pending : List (Creator × BundleId)) (moved : List (BundleId × Creator)) (c : Creator)
    (id : BundleId)
    → Mem (c, id) pending
    → Mem (id, c) (moves pending moved)
unfolding moves
mem-moves [] moved c id m = absurd (not-mem-nil m)
mem-moves ((d, key) ∷ pending) moved c id m =
    Or.elim Mem-prop (mem-cons.0 m)
      (λ e. mem-append_right (moves pending moved) (
        subst (λ (p : Creator × BundleId). Mem {A = BundleId × Creator} (id, c) ((p.1, p.0) ∷ [])) e
          mem-cons_self))
      (λ rest. mem-append_left ((key, d) ∷ []) (mem-moves pending moved c id rest))
