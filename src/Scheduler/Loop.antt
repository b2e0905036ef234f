-- ===== src/Scheduler/Loop.antt =====
-- labgrid/remote/scheduler.py, `schedule_overlaps`: the rounds, and what they leave.
use labgrid.Prelude.{
  ℕ, zero, suc, ◌+◌, ◌<◌, ◌≡◌, refl, ◌∙◌, true, false, ◌&&◌, ◌||◌, List, [], ◌∷◌, nat_eq, ◌==◌,
  ==_iff, contains, contains-remove, contains-remove_self, Distinct, Distinct-remove, length,
  length-remove, remove, Bool-cases, inl, inr, arith, ok,
}
use labgrid.Prelude.Dict.{put, has, has-put, keys, values, Entries, Entries-put, Distinct-keys-put}
use labgrid.Scheduler.{
  TagSet, Allocation, Pools, subset_tags, apply_new, schedule_step, overlaps_from,
  schedule_overlaps,
}
use labgrid.Scheduler.Interest.{Fits}
use labgrid.Scheduler.Step.{IsAllocation, schedule_step_lem, schedule_step-found}

-- Writing a new key adds its value.
contains-values-put :
    (k v q : ℕ) (d : Allocation)
    → has k d ≡ false
    → contains q (values (put k v d)) ≡ (q == v || contains q (values d))
unfolding put contains has
contains-values-put k v q [] h = refl
contains-values-put k v q ((j, w) ∷ d) h = ground (arith, contains-values-put k v q d)

Distinct-values-put :
    (k v : ℕ) (d : Allocation)
    → has k d ≡ false
    → contains v (values d) ≡ false
    → Distinct (values d)
    → Distinct (values (put k v d))
unfolding put contains has
Distinct-values-put k v [] h a ds = (refl, tt)
Distinct-values-put k v ((j, w) ∷ d) h a ds =
    ground (arith, ==_iff v w, ==_iff w v, Distinct-values-put k v d, contains-values-put k v w d)

module _ (obj : ℕ → TagSet) (places filters : List ℕ) where
  -- The state of the loop, when it started with `places` and `filters`: each of them is either
  -- still free or allocated, never both, and only fitting pairs are allocated.
  pub record IsPools (s : Pools) : Type 0 where
    pub places_distinct : Distinct s.places
    pub filters_distinct : Distinct s.filters
    pub keys_distinct : Distinct (keys s.allocation)
    pub values_distinct : Distinct (values s.allocation)
    pub filters_split : (f : ℕ) → contains f filters ≡ (contains f s.filters || has f s.allocation)
    pub filters_apart : (f : ℕ) → (contains f s.filters && has f s.allocation) ≡ false
    pub places_split :
        (p : ℕ) → contains p places ≡ (contains p s.places || contains p (values s.allocation))
    pub places_apart : (p : ℕ) → (contains p s.places && contains p (values s.allocation)) ≡ false
    pub fitting : Entries (λ f p. subset_tags obj f p ≡ true) s.allocation

  -- The state after one pair has been moved.
  abbrev moved : ℕ → ℕ → Pools → Pools
  moved f p s = record {
    places = remove p s.places;
    filters = remove f s.filters;
    allocation = put f p s.allocation;
  }

  module _ (f p : ℕ) (s : Pools) (i : IsPools s) (fits : Fits obj s.places s.filters p f) where
    fresh : has f s.allocation ≡ false
    fresh = ground (arith, i.filters_apart f)

    unused : contains p (values s.allocation) ≡ false
    unused = ground (arith, i.places_apart p)

    moved-IsPools : IsPools (moved f p s)
    moved-IsPools = record {
      places_distinct = Distinct-remove p s.places i.places_distinct;
      filters_distinct = Distinct-remove f s.filters i.filters_distinct;
      keys_distinct = Distinct-keys-put f p _ i.keys_distinct;
      values_distinct = Distinct-values-put f p _ fresh unused i.values_distinct;
      filters_split = λ g. ground (
        arith,
        i.filters_split g,
        has-put f g p s.allocation,
        ==_iff f g,
        ==_iff g f,
        contains-remove f g s.filters,
        fits.0,
      );
      filters_apart = λ g. ground (
        arith,
        i.filters_apart g,
        has-put f g p s.allocation,
        ==_iff f g,
        ==_iff g f,
        contains-remove f g s.filters,
        contains-remove_self f s.filters i.filters_distinct,
      );
      places_split = λ q. ground (
        arith,
        i.places_split q,
        contains-values-put f p q s.allocation fresh,
        ==_iff q p,
        contains-remove p q s.places,
        fits.1,
      );
      places_apart = λ q. ground (
        arith,
        i.places_apart q,
        contains-values-put f p q s.allocation fresh,
        ==_iff q p,
        contains-remove p q s.places,
        contains-remove_self p s.places i.places_distinct,
      );
      fitting = Entries-put _ f p _ fits.2 i.fitting;
    }

  -- The pairs that are still to be moved fit what is left.
  Fits-remove :
      (f p : ℕ) (s : Pools) (new : Allocation)
      → contains f (keys new) ≡ false
      → contains p (values new) ≡ false
      → Entries (λ g q. Fits obj s.places s.filters q g) new
      → Entries (λ g q. Fits obj (remove p s.places) (remove f s.filters) q g) new
  unfolding contains
  Fits-remove f p s [] hf hp h = tt
  Fits-remove f p s ((g, q) ∷ new) hf hp h = (
    (
      contains-remove f g s.filters (ground (arith, ==_iff f g, ==_iff g f)) ∙ h.0.0,
      contains-remove p q s.places (ground (arith, ==_iff p q, ==_iff q p)) ∙ h.0.1,
      h.0.2,
    ),
    Fits-remove f p s new (ground arith) (ground arith) h.1,
  )

  -- No assertion fails, and each pair takes one filter away.
  apply_new_lem :
      (new : Allocation) (s : Pools)
      → IsPools s
      → IsAllocation obj s.places s.filters new
      → (s' : Pools) × (apply_new new s ≡ ok s')
        × IsPools s'
        × (length s'.filters + length new ≡ length s.filters)
  unfolding apply_new
  apply_new_lem [] s i a = (s, refl, i, omega arith)
  apply_new_lem ((f, p) ∷ new) s i a =
      let fits = a.fitting.0 in
      let (s', e, i', n) = apply_new_lem new (moved f p s) (moved-IsPools f p s i fits) (record {
        keys_distinct = a.keys_distinct.1;
        values_distinct = a.values_distinct.1;
        fitting = Fits-remove f p s new a.keys_distinct.0 a.values_distinct.0 a.fitting.1;
      }) in
      (
        s',
        rw (fresh f p s i fits, fits.1, fits.0) e,
        i',
        omega (arith, length-remove f s.filters fits.0),
      )

  -- No free filter fits a free place.
  abbrev pub IsDone : Pools → Type 0
  IsDone s =
      (f p : ℕ)
      → contains f s.filters ≡ true
      → contains p s.places ≡ true
      → subset_tags obj f p ≡ false

  abbrev Ends : ℕ → Pools → Type 0
  Ends fuel s = (s' : Pools) × (overlaps_from obj fuel s ≡ ok s') × IsPools s' × IsDone s'

  -- The round that allocates nothing ends the loop.
  last_round :
      (fuel : ℕ) (s : Pools)
      → IsPools s
      → schedule_step obj s.places s.filters ≡ ok []
      → Ends (suc fuel) s
  unfolding overlaps_from
  last_round fuel s i e = (
    s,
    rw e,
    i,
    λ f p k m. elim (Bool-cases (subset_tags obj f p)) [
      | inl fits ↦ absurd (schedule_step-found obj s.places s.filters f p k m fits e)
      | inr other ↦ other
    ],
  )

  next_round :
      (fuel : ℕ) (s t : Pools) (f p : ℕ) (new : Allocation)
      → schedule_step obj s.places s.filters ≡ ok ((f, p) ∷ new)
      → apply_new ((f, p) ∷ new) s ≡ ok t
      → Ends fuel t
      → Ends (suc fuel) s
  unfolding overlaps_from
  next_round fuel s t f p new e e' (s', e'', i, done) = (s', rw (e, e') e'', i, done)

  overlaps_from_lem : (fuel : ℕ) (s : Pools) → length s.filters < fuel → IsPools s → Ends fuel s
  overlaps_from_lem zero s h i = absurd (omega arith)
  overlaps_from_lem (suc fuel) s h i =
      let (new, e, a, _) = schedule_step_lem obj s.places s.filters in
      round (overlaps_from_lem fuel) new e a
    where
      round :
          ((t : Pools) → length t.filters < fuel → IsPools t → Ends fuel t)
          → (new : Allocation) → schedule_step obj s.places s.filters ≡ ok new
          → IsAllocation obj s.places s.filters new
          → Ends (suc fuel) s
      round ih [] e a = last_round fuel s i e
      round ih ((f, p) ∷ new) e a =
          let (t, e', i', n) = apply_new_lem ((f, p) ∷ new) s i a in
          next_round fuel s t f p new e e' (ih t (omega arith) i')

  init_pools : Pools
  init_pools = record { places = places; filters = filters; allocation = [] }

  init-IsPools : Distinct places → Distinct filters → IsPools init_pools
  unfolding init_pools contains has
  init-IsPools dp df = record {
    places_distinct = dp;
    filters_distinct = df;
    keys_distinct = tt;
    values_distinct = tt;
    filters_split = λ f. ground arith;
    filters_apart = λ f. ground arith;
    places_split = λ p. ground arith;
    places_apart = λ p. ground arith;
    fitting = tt;
  }

  -- From distinct places and filters the loop always ends without an exception. Each place and
  -- each filter is then either free or allocated and not both, no place or filter is allocated
  -- twice, every allocated pair fits, and no free filter fits a free place.
  pub schedule_overlaps_total :
      Distinct places
      → Distinct filters
      → (s : Pools) × (schedule_overlaps obj places filters ≡ ok s) × IsPools s × IsDone s
  unfolding schedule_overlaps init_pools
  schedule_overlaps_total dp df =
      overlaps_from_lem (suc (length filters)) init_pools (omega arith) (init-IsPools dp df)
