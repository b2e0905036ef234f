-- ===== src/Coordinator/Acquiring.antt =====
-- labgrid/remote/coordinator.py: `_acquire_resources` keeps each path held by one place at most.
use labgrid.Prelude.{
  ℕ, ◌≤◌, ◌≡◌, refl, Bool, true, false, List, [], ◌∷◌, ◌++◌, String, All-append, ap, Bool-cases,
  inl, inr, ◌⊎◌, ok, arith, ◌∙◌,
}
use labgrid.Common.Match.{ResourcePath}
use labgrid.Coordinator.State.{Coordinator, pure, unless, ◌>>=◌}
use labgrid.Coordinator.Publish.{path_of}
use labgrid.Coordinator.Acquire.{
  same_path, free_in, all_free, acquire_each, finish_acquire, update_place, acquire_resources,
}
use labgrid.Coordinator.Frame.{Keeping, >>=-after}
use labgrid.Coordinator.Waits.{acquire_each-Keeping}
use labgrid.Coordinator.Exclusive.{
  IsExclusive, AllThere, count_path, holders, holders-Keeps, Keeping-IsExclusive, same_path_iff,
  count_path-Keeps, AllThere-Keeps,
}
use labgrid.Coordinator.Holding.{
  AllUnheld, free_in-AllUnheld, release_resources-IsExclusive, update_place-IsExclusive,
  count_path-append,
}

-- A path that the resources have is held by no place.
unheld_or_absent :
    (s : Coordinator) (q : ResourcePath) (refs : List ℕ)
    → AllUnheld s refs
    → (holders s.heap q s.places ≡ 0) ⊎ (count_path s.heap q refs ≡ 0)
unfolding count_path
unheld_or_absent s q [] a = inr refl
unheld_or_absent s q (ref ∷ refs) a = elim (Bool-cases (same_path q (path_of s.heap ref))) [
  | inl hit ↦
      inl (ap (λ p. holders s.heap p s.places) ((same_path_iff q (path_of s.heap ref)).0 hit) ∙ a.0)
  | inr miss ↦ elim (unheld_or_absent s q refs a.1) [
    | inl unheld ↦ inl unheld
    | inr absent ↦ inr (rw miss (omega arith))
  ]
]

-- Resources that may be acquired: they are there, and no two of them have one path.
pub record IsOffered (s : Coordinator) (refs : List ℕ) : Type 0 where
  pub there : AllThere s.heap refs
  pub once : (q : ResourcePath) → count_path s.heap q refs ≤ 1

module _ (s t : Coordinator) (k : Keeping s t) (v : IsExclusive s) where
  AllUnheld-Keeping : (refs : List ℕ) → AllThere s.heap refs → AllUnheld s refs → AllUnheld t refs
  AllUnheld-Keeping [] a u = tt
  AllUnheld-Keeping (ref ∷ refs) a u =
      let (_, keeps) = k.1 v.heap_ok in
      (
        rw
            (
              k.0,
              (keeps ref a.0).1,
              holders-Keeps s.heap t.heap keeps (path_of s.heap ref) s.places v.there,
            )
            u.0,
        AllUnheld-Keeping refs a.1 u.1,
      )

  IsOffered-Keeping : (refs : List ℕ) → IsOffered s refs → IsOffered t refs
  IsOffered-Keeping refs o =
      let (_, keeps) = k.1 v.heap_ok in
      record {
        there = AllThere-Keeps s.heap t.heap keeps refs o.there;
        once = λ q. rw (count_path-Keeps s.heap t.heap keeps q refs o.there) (o.once q);
      }

appending-IsExclusive :
    (s : Coordinator) (name : String) (refs : List ℕ)
    → IsExclusive s
    → IsOffered s refs
    → AllUnheld s refs
    → IsExclusive
        (update_place name
          (λ p. record p { acquired_resources = p.acquired_resources ++ refs })
          s).1
appending-IsExclusive s name refs v o u =
    update_place-IsExclusive s name _ v (λ p e a. All-append _ p.acquired_resources refs a o.there)
      λ q p e. elim (unheld_or_absent s q refs u) [
        | inl none_holds ↦
            omega (arith, count_path-append s.heap q p.acquired_resources refs, o.once q)
        | inr absent ↦
            omega (arith, count_path-append s.heap q p.acquired_resources refs, v.exclusive q)
      ]

finish_acquire-IsExclusive :
    (name : String) (refs : List ℕ) (acquired : List ℕ) (done : Bool) (s : Coordinator)
    → IsExclusive s
    → IsOffered s refs
    → AllUnheld s refs
    → IsExclusive (finish_acquire name refs (acquired, done) s).1
unfolding finish_acquire
finish_acquire-IsExclusive name refs acquired false s v o u =
    >>=-after IsExclusive _ _ s (release_resources-IsExclusive name acquired s v)
      λ _ _. unfold pure in release_resources-IsExclusive name acquired s v
finish_acquire-IsExclusive name refs acquired true s v o u =
    >>=-after IsExclusive _ _ s (appending-IsExclusive s name refs v o u)
      λ _ _. unfold pure in appending-IsExclusive s name refs v o u

-- Acquiring resources for a place, whether it succeeds, is refused or times out, and whatever the
-- exporters and the clients do meanwhile, leaves every path held by one place at most, if it was so
-- before. The resources are there, and no two of them have one path.
pub acquire_resources-IsExclusive :
    (name : String) (refs : List ℕ) (s : Coordinator)
    → IsExclusive s
    → IsOffered s refs
    → IsExclusive (acquire_resources name refs s).1
unfolding acquire_resources unless pure
acquire_resources-IsExclusive name refs s v o =
    >>=-after IsExclusive _ _ s (unfold all_free in v) λ free checked. by_check free checked
  where
    try :
        free_in s refs ≡ ok true
        → IsExclusive ((acquire_each name refs [] >>= finish_acquire name refs) s).1
    try e =
        let k = acquire_each-Keeping refs name [] s in
        let t = (acquire_each name refs [] s).1 in
        >>=-after IsExclusive _ _ s (Keeping-IsExclusive s t k v) λ r _.
          finish_acquire-IsExclusive name refs r.0 r.1 t (Keeping-IsExclusive s t k v)
            (IsOffered-Keeping s t k v refs o)
            (AllUnheld-Keeping s t k v refs o.there (free_in-AllUnheld refs s e))

    by_check :
        (free : Bool)
        → free_in s refs ≡ ok free
        → IsExclusive
            (unless free (pure false) (acquire_each name refs [] >>= finish_acquire name refs) s).1
    by_check true e = try e
    by_check false e = v
