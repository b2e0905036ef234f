-- ===== src/Coordinator/Synchronize/Safe.antt =====
-- labgrid/remote/coordinator.py: parts of `_synchronize_resources` that keep the invariant of the
-- coordinator and every resource object.
use labgrid.Prelude.{
  ℕ, ◌≡◌, ◌∙◌, true, List, [], ◌∷◌, String, Option, none, some, string_eq, nat_eq, ◌==◌, Bool-cases,
  Option-cases, inl, inr,
}
use labgrid.Prelude.Dict.{get, has, del, Entries}
use labgrid.Common.Match.{ResourcePath}
use labgrid.Common.Place.{Place}
use labgrid.Coordinator.State.{Coordinator, Heap, M, throw}
use labgrid.Coordinator.Publish.{path_of}
use labgrid.Coordinator.Acquire.{release_resources, update_place}
use labgrid.Coordinator.Frame.{Frame, Grows, Grows-refl, Grows-trans, Keeps, >>=-after}
use labgrid.Coordinator.Waits.{release_each-Frame}
use labgrid.Coordinator.Exclusive.{IsExclusive, Keeping-IsExclusive}
use labgrid.Coordinator.Holding.{release_resources-IsExclusive}
use labgrid.Coordinator.Synchronize.{PathDict, path_eq, release_claimed}

-- A dictionary of resources that are there, each under its path.
abbrev pub IsAt : Heap → ResourcePath → ℕ → Type 0
IsAt h path ref = (has ref h.cells ≡ true) × (path_of h ref ≡ path)

abbrev pub AllAt : Heap → PathDict → Type 0
AllAt h d = Entries (IsAt h) d

pub AllAt-Keeps : (h h' : Heap) → Keeps h h' → (d : PathDict) → AllAt h d → AllAt h' d
AllAt-Keeps h h' k [] a = tt
AllAt-Keeps h h' k ((path, ref) ∷ d) a =
    let (there, same) = k ref a.0.0 in ((there, same ∙ a.0.1), AllAt-Keeps h h' k d a.1)

pub AllAt-del : (h : Heap) (path : ResourcePath) (d : PathDict) → AllAt h d → AllAt h (del path d)
unfolding del
AllAt-del h path [] a = tt
AllAt-del h path ((p, ref) ∷ d) a = elim (Bool-cases (p == path)) [
  | inl hit ↦ rw hit (AllAt-del h path d a.1)
  | inr miss ↦ rw miss (a.0, AllAt-del h path d a.1)
]

-- Keeping the invariant and every resource object.
pub record Safe (s t : Coordinator) : Type 0 where
  pub exclusive : IsExclusive s → IsExclusive t
  pub grows : Grows s.heap t.heap

pub Safe-refl : (s : Coordinator) → Safe s s
Safe-refl s = record { exclusive = λ v. v; grows = Grows-refl s.heap }

pub Safe-trans : (s t u : Coordinator) → Safe s t → Safe t u → Safe s u
Safe-trans s t u a b = record {
  exclusive = λ v. b.exclusive (a.exclusive v);
  grows = Grows-trans s.heap t.heap u.heap a.grows b.grows;
}

pub Frame-Safe {ℓ} : {A : Type ℓ} {m : M A} → Frame m → (s : Coordinator) → Safe s (m s).1
Frame-Safe {m} f s = record {
  exclusive = Keeping-IsExclusive s (m s).1 (f.keeping s);
  grows = (f.keeping s).1;
}

pub update_place-Grows :
    (name : String) (f : Place ℕ → Place ℕ) (s : Coordinator)
    → Grows s.heap (update_place name f s).1.heap
unfolding update_place
update_place-Grows name f s = elim (Option-cases (get name s.places)) [
  | inl e ↦ rw (e, update_place) (Grows-refl s.heap)
  | inr (p, e) ↦ rw (e, update_place) (Grows-refl s.heap)
]

pub release_resources-Safe :
    (name : String) (refs : List ℕ) (s : Coordinator) → Safe s (release_resources name refs s).1
unfolding release_resources
release_resources-Safe name refs s = record {
  exclusive = release_resources-IsExclusive name refs s;
  grows = growing;
}
  where
    growing : Grows s.heap (release_resources name refs s).1.heap
    growing =
        let left = update_place-Grows name _ s in
        >>=-after (λ t. Grows s.heap t.heap) _ _ s left
          λ _ _. Grows-trans s.heap _ _ left ((release_each-Frame refs).keeping _).1

pub release_claimed-Safe :
    (claim : Option String) (ref : ℕ) (s : Coordinator) → Safe s (release_claimed claim ref s).1
unfolding release_claimed throw
release_claimed-Safe none ref s = Safe-refl s
release_claimed-Safe (some name) ref s = release_resources-Safe name (ref ∷ []) s
