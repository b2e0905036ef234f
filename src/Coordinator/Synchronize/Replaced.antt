-- ===== src/Coordinator/Synchronize/Replaced.antt =====
-- labgrid/remote/coordinator.py: `_synchronize_resources` keeps each path held by one place at
-- most: an orphan is replaced by a resource of its path.
use labgrid.Prelude.{
  ℕ, ◌+◌, ◌≡◌, refl, ◌∙◌, sym, true, List, [], ◌∷◌, String, contains, string_eq, nat_eq, ◌==◌,
  ==_iff, Outcome, arith, Bool-cases, inl, inr, or_raise, key_error, Exception, attribute_error,
}
use labgrid.Prelude.Dict.{get, has, Entries-get}
use labgrid.Common.Match.{ResourcePath, opt_eq}
use labgrid.Coordinator.State.{Coordinator, Heap, pure, ◌>>=◌}
use labgrid.Coordinator.Publish.{path_of}
use labgrid.Coordinator.Sessions.{deref}
use labgrid.Coordinator.Frame.{>>=-after}
use labgrid.Coordinator.Stable.{looking, guarding, or_raise-ok}
use labgrid.Coordinator.Exclusive.{IsExclusive, AllThere, count_path}
use labgrid.Coordinator.Holding.{update_place-IsExclusive}
use labgrid.Coordinator.Synchronize.{
  PathDict, path_eq, held_of, paths_without, paths_in_both, acquired_at, held_at, release_unused,
  claimed_place, reacquire, replace_first, replace_held, replace_orphan, replace_orphans,
  synchronize_resources,
}
use labgrid.Coordinator.Synchronize.Safe.{
  IsAt, AllAt, AllAt-Keeps, Safe, Safe-refl, update_place-Grows,
}
use labgrid.Coordinator.Synchronize.Loops.{release_unused-Loops, reacquire-Loops}
use labgrid.Coordinator.Synchronize.Collected.{acquired_at-AllAt, held_at-AllAt}

-- The orphan and what replaces it have one path.
module _ (h : Heap) (old new : ℕ) (same : path_of h new ≡ path_of h old) where
  count_path-replace_first :
      (q : ResourcePath) (refs : List ℕ)
      → count_path h q (replace_first old new refs) ≡ count_path h q refs
  unfolding count_path replace_first
  count_path-replace_first q [] = refl
  count_path-replace_first q (ref ∷ refs) = elim (Bool-cases (ref == old)) [
    | inl hit ↦ rw (hit, same, (==_iff ref old).0 hit) refl
    | inr miss ↦ rw (miss, count_path-replace_first q refs) refl
  ]

  AllThere-replace_first :
      (refs : List ℕ)
      → has new h.cells ≡ true
      → AllThere h refs
      → AllThere h (replace_first old new refs)
  unfolding replace_first
  AllThere-replace_first [] there a = tt
  AllThere-replace_first (ref ∷ refs) there a = elim (Bool-cases (ref == old)) [
    | inl hit ↦ rw hit (there, a.1)
    | inr miss ↦ rw miss (a.0, AllThere-replace_first refs there a.1)
  ]

abbrev SafeAfter : Coordinator → Outcome (Unit {0}) × Coordinator → Type 0
SafeAfter s r = Safe s r.1

raised-Safe : (s : Coordinator) (e : Exception) → Safe s s
raised-Safe s e = Safe-refl s

replace_held-Safe :
    (name : String) (old new : ℕ) (s : Coordinator)
    → has new s.heap.cells ≡ true
    → path_of s.heap new ≡ path_of s.heap old
    → Safe s (replace_held name old new s).1
unfolding replace_held ◌>>=◌
replace_held-Safe name old new s there same =
    guarding (SafeAfter s) s (contains old (held_of (get name s.places))) _ _ (Safe-refl s)
      (record {
        exclusive = λ v.
            update_place-IsExclusive s name _ v
              (λ p _ a. AllThere-replace_first s.heap old new same p.acquired_resources there a)
              λ q p _. omega (
                arith,
                count_path-replace_first s.heap old new same q p.acquired_resources,
                v.exclusive q,
              );
        grows = update_place-Grows name _ s;
      })

replace_orphan-Safe :
    (orphaned acquired : PathDict) (path : ResourcePath) (s : Coordinator)
    → AllAt s.heap orphaned
    → AllAt s.heap acquired
    → Safe s (replace_orphan orphaned acquired path s).1
unfolding replace_orphan deref ◌>>=◌
replace_orphan-Safe orphaned acquired path s o a =
    looking (SafeAfter s) s (raised-Safe s) (or_raise (get path orphaned) key_error) _ λ old e.
      looking (SafeAfter s) s (raised-Safe s) (or_raise (get path acquired) key_error) _ λ new e'.
        looking (SafeAfter s) s (raised-Safe s) (or_raise (get old s.heap.cells) attribute_error) _
          λ old_r _.
            looking (SafeAfter s) s (raised-Safe s)
              (or_raise (get new s.heap.cells) attribute_error) _
              λ new_r _.
                guarding (SafeAfter s) s (opt_eq old_r.data_.acquired new_r.data_.acquired) _ _
                  (Safe-refl s)
                  (looking (SafeAfter s) s (raised-Safe s) (claimed_place s new_r.data_.acquired) _
                    λ name _.
                      let at_old = Entries-get (IsAt s.heap) path orphaned o (or_raise-ok _ _ e) in
                      let at_new = Entries-get (IsAt s.heap) path acquired a (or_raise-ok _ _ e') in
                      replace_held-Safe name old new s at_new.0 (at_new.1 ∙ sym at_old.1))

replace_orphans-IsExclusive :
    (paths : List ResourcePath) (orphaned acquired : PathDict) (s : Coordinator)
    → IsExclusive s
    → AllAt s.heap orphaned
    → AllAt s.heap acquired
    → IsExclusive (replace_orphans paths orphaned acquired s).1
unfolding replace_orphans pure
replace_orphans-IsExclusive [] orphaned acquired s v o a = v
replace_orphans-IsExclusive (path ∷ paths) orphaned acquired s v o a =
    let safe = replace_orphan-Safe orphaned acquired path s o a in
    let t = (replace_orphan orphaned acquired path s).1 in
    let keeps = (safe.grows v.heap_ok).1 in
    >>=-after IsExclusive (replace_orphan orphaned acquired path) _ s (safe.exclusive v) λ _ _.
      replace_orphans-IsExclusive paths orphaned acquired t (safe.exclusive v)
        (AllAt-Keeps s.heap t.heap keeps orphaned o) (AllAt-Keeps s.heap t.heap keeps acquired a)

-- Bringing places and exporters together again, completed or stopped by an exception, in whatever
-- order it goes through the resources and whatever the exporters and the clients do in between,
-- leaves every path held by one place at most, if it was so before.
pub synchronize_resources-IsExclusive :
    (order : List ResourcePath → List ResourcePath) (s : Coordinator)
    → IsExclusive s
    → IsExclusive (synchronize_resources order s).1
unfolding synchronize_resources ◌>>=◌
synchronize_resources-IsExclusive order s v =
    let (used, orphaned) = held_at s.heap s.places ([], []) in
    let acquired = acquired_at s.heap s.exporters [] in
    let deadline = s.clock + 5 in
    let to_release = order (paths_without (orphaned ∷ used ∷ []) acquired) in
    let t = (release_unused deadline to_release acquired s).1 in
    let released =
      release_unused-Loops deadline to_release s acquired v
        (acquired_at-AllAt s.heap s.exporters [] tt) in
    let w = released.safe.exclusive v in
    let moved =
      AllAt-Keeps s.heap t.heap (released.safe.grows v.heap_ok).1 orphaned
        (held_at-AllAt s.heap s.places ([], []) v.there tt) in
    >>=-after IsExclusive (release_unused deadline to_release acquired) _ s w λ acquired' e.
      let to_acquire = order (paths_without (acquired' ∷ []) orphaned) in
      let again =
        reacquire-Loops deadline to_acquire orphaned t acquired' w (released.at acquired' e) in
      >>=-after IsExclusive (reacquire deadline to_acquire orphaned acquired') _ t
        (again.safe.exclusive w)
        λ acquired'' e'.
          let u = (reacquire deadline to_acquire orphaned acquired' t).1 in
          replace_orphans-IsExclusive (order (paths_in_both orphaned acquired'')) orphaned
            acquired'' u (again.safe.exclusive w)
            (AllAt-Keeps t.heap u.heap (again.safe.grows w.heap_ok).1 orphaned moved)
            (again.at acquired'' e')
