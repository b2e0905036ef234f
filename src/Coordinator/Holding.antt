-- ===== src/Coordinator/Holding.antt =====
-- labgrid/remote/coordinator.py: `_acquire_resources` and `_release_resources` keep each path held
-- by one place at most.
use labgrid.Prelude.{
  ℕ, ◌+◌, ◌≤◌, ◌≡◌, refl, ap, true, false, List, [], ◌∷◌, ◌++◌, String, some, any, All, remove,
  string_eq, nat_eq, ok, arith, Option-cases, inl, inr,
}
use labgrid.Prelude.Dict.{Dict, get, values, Entries-put, Entries-get}
use labgrid.Common.Match.{ResourcePath}
use labgrid.Common.Place.{Place}
use labgrid.Coordinator.State.{Coordinator, Heap, ResourceImport}
use labgrid.Coordinator.Publish.{path_of, path_in}
use labgrid.Coordinator.Acquire.{
  same_path, held_by_place, is_free_for, free_in, remove_all, update_place, release_resources,
}
use labgrid.Coordinator.Frame.{>>=-after}
use labgrid.Coordinator.Waits.{release_each-Frame}
use labgrid.Coordinator.Exclusive.{
  IsExclusive, AllThere, count_path, holders, holders-put, Keeping-IsExclusive,
}

-- Removing references from a list.
count_path-remove :
    (h : Heap) (q : ResourcePath) (ref : ℕ) (held : List ℕ)
    → count_path h q (remove ref held) ≤ count_path h q held
unfolding count_path remove
count_path-remove h q ref [] = omega arith
count_path-remove h q ref (r ∷ held) = ground (arith, count_path-remove h q ref held)

count_path-remove_all :
    (h : Heap) (q : ResourcePath) (refs held : List ℕ)
    → count_path h q (remove_all refs held) ≤ count_path h q held
unfolding remove_all
count_path-remove_all h q [] held = omega arith
count_path-remove_all h q (ref ∷ refs) held =
    omega (arith, count_path-remove h q ref held, count_path-remove_all h q refs (remove ref held))

AllThere-remove :
    (h : Heap) (ref : ℕ) (held : List ℕ) → AllThere h held → AllThere h (remove ref held)
unfolding remove
AllThere-remove h ref [] a = tt
AllThere-remove h ref (r ∷ held) a = ground (arith, AllThere-remove h ref held a.1)

AllThere-remove_all :
    (h : Heap) (refs held : List ℕ) → AllThere h held → AllThere h (remove_all refs held)
unfolding remove_all
AllThere-remove_all h [] held a = a
AllThere-remove_all h (ref ∷ refs) held a =
    AllThere-remove_all h refs (remove ref held) (AllThere-remove h ref held a)

pub count_path-append :
    (h : Heap) (q : ResourcePath) (xs ys : List ℕ)
    → count_path h q (xs ++ ys) ≡ count_path h q xs + count_path h q ys
unfolding count_path
count_path-append h q [] ys = omega arith
count_path-append h q (x ∷ xs) ys = omega (arith, count_path-append h q xs ys)

-- A place may hold less, or more of what nobody holds.
module _ (s : Coordinator) (name : String) (f : Place ℕ → Place ℕ) (v : IsExclusive s)
    (there : (p : Place ℕ)
      → get name s.places ≡ some p
      → AllThere s.heap p.acquired_resources
      → AllThere s.heap (f p).acquired_resources)
    (bounded : (q : ResourcePath) (p : Place ℕ)
      → get name s.places ≡ some p
      → holders s.heap q s.places + count_path s.heap q (f p).acquired_resources
        ≤ 1 + count_path s.heap q p.acquired_resources) where
  pub update_place-IsExclusive : IsExclusive (update_place name f s).1
  unfolding update_place
  update_place-IsExclusive = elim (Option-cases (get name s.places)) [
    | inl e ↦ rw (e, update_place) v
    | inr (p, e) ↦
        rw (e, update_place)
          (record {
            heap_ok = v.heap_ok;
            there =
                Entries-put _ name (f p) s.places
                  (there p e (Entries-get _ name s.places v.there e)) v.there;
            exclusive =
                λ q. omega (arith, holders-put s.heap q name p (f p) s.places e, bounded q p e);
          })
  ]

removing-IsExclusive :
    (s : Coordinator) (name : String) (refs : List ℕ)
    → IsExclusive s
    → IsExclusive
        (update_place name
          (λ p. record p { acquired_resources = remove_all refs p.acquired_resources })
          s).1
removing-IsExclusive s name refs v =
    update_place-IsExclusive s name _ v (λ p e a. AllThere-remove_all s.heap refs _ a)
      λ q p e.
        omega (arith, count_path-remove_all s.heap q refs p.acquired_resources, v.exclusive q)

-- Whatever the exporters answer, releasing resources leaves every path held by one place at most,
-- if it was so before.
pub release_resources-IsExclusive :
    (name : String) (refs : List ℕ) (s : Coordinator)
    → IsExclusive s
    → IsExclusive (release_resources name refs s).1
unfolding release_resources
release_resources-IsExclusive name refs s v =
    let left = removing-IsExclusive s name refs v in
    >>=-after IsExclusive _ _ s left
      λ _ _. Keeping-IsExclusive _ _ ((release_each-Frame refs).keeping _) left

-- What the check of `_acquire_resources` says of a path.
any-false-holders :
    (h : Heap) (q : ResourcePath) (refs : List ℕ)
    → any (λ old. same_path q (path_of h old)) refs ≡ false
    → count_path h q refs ≡ 0
unfolding any count_path
any-false-holders h q [] e = refl
any-false-holders h q (r ∷ refs) e = ground (arith, any-false-holders h q refs)

unheld-holders :
    (h : Heap) (q : ResourcePath) (places : Dict String (Place ℕ))
    → any (held_by_place h q) (values places) ≡ false
    → holders h q places ≡ 0
unfolding any holders held_by_place
unheld-holders h q [] e = refl
unheld-holders h q ((_, p) ∷ places) e =
    ground (arith, any-false-holders h q p.acquired_resources, unheld-holders h q places)

-- The places hold none of the paths of these resources.
abbrev pub AllUnheld : Coordinator → List ℕ → Type 0
AllUnheld s refs = All (λ ref. holders s.heap (path_of s.heap ref) s.places ≡ 0) refs

pub free_in-AllUnheld :
    (refs : List ℕ) (s : Coordinator) → free_in s refs ≡ ok true → AllUnheld s refs
unfolding free_in
free_in-AllUnheld [] s e = tt
free_in-AllUnheld (ref ∷ refs) s e = elim (Option-cases (get ref s.heap.cells)) [
  | inl gone ↦ absurd (ground arith)
  | inr (r, there) ↦ (
    rw (path_of_some ref r there)
        (unheld-holders s.heap r.path s.places (ground (arith, is_free_lem r))),
    free_in-AllUnheld refs s (ground arith),
  )
]
  where
    path_of_some :
        (k : ℕ) (r : ResourceImport) → get k s.heap.cells ≡ some r → path_of s.heap k ≡ r.path
    path_of_some k r h = ap path_in h

    is_free_lem :
        (r : ResourceImport)
        → is_free_for s r ≡ true
        → any (held_by_place s.heap r.path) (values s.places) ≡ false
    is_free_lem r h = ground arith
