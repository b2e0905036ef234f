-- ===== src/Scheduler/Step.antt =====
-- labgrid/remote/scheduler.py, `schedule_step`: from the `interest` dictionary to an allocation.
use labgrid.Prelude.{
  ℕ, suc, ◌≡◌, refl, sym, ◌∙◌, true, false, List, [], ◌∷◌, nat_eq, ◌==◌, ==_iff, contains, Distinct,
  is_empty, length, All, All-contains, Bool-cases, ◌≢◌, ◌⊎◌, inl, inr, arith, ok,
}
use labgrid.Prelude.Dict.{put, keys, values, Entries, Entries-put, Distinct-keys-put}
use labgrid.Scheduler.{
  TagSet, Interests, Allocation, min_len, allocate, choose, subset_tags, scan_filters,
  schedule_step,
}
use labgrid.Scheduler.Interest.{
  Fits, Listed, IsInterest, scan_filters-IsInterest, scan_filters-found,
}

contains-values-put :
    (k v q : ℕ) (d : Allocation)
    → (q == v) ≡ false
    → contains q (values d) ≡ false
    → contains q (values (put k v d)) ≡ false
unfolding put contains
contains-values-put k v q [] h a = ground arith
contains-values-put k v q ((j, w) ∷ d) h a = ground (arith, contains-values-put k v q d h)

Distinct-values-put :
    (k v : ℕ) (d : Allocation)
    → contains v (values d) ≡ false
    → Distinct (values d)
    → Distinct (values (put k v d))
unfolding put contains
Distinct-values-put k v [] h a = (refl, tt)
Distinct-values-put k v ((j, w) ∷ d) h a =
    ground (arith, ==_iff v w, ==_iff w v, Distinct-values-put k v d, contains-values-put k v w d)

is_empty-put : (k v : ℕ) (d : Allocation) → is_empty (put k v d) ≡ false
unfolding put
is_empty-put k v [] = refl
is_empty-put k v (e ∷ d) = ground arith

-- Some list of the dictionary has the length `n`.
abbrev Attained : ℕ → Interests → Type 0
Attained n [] = ⊥
Attained n ((p, fs) ∷ d) = (length fs ≡ n) ⊎ Attained n d

min_len-Attained : (p : ℕ) (fs : List ℕ) (d : Interests) → Attained (min_len fs d) ((p, fs) ∷ d)
unfolding min_len
min_len-Attained p fs [] = inl refl
min_len-Attained p fs ((q, gs) ∷ d) = ground (arith, min_len-Attained q gs d)

module _ (obj : ℕ → TagSet) (places filters : List ℕ) where
  -- Filters and places that fit, each filter once and each place once.
  pub record IsAllocation (a : Allocation) : Type 0 where
    pub keys_distinct : Distinct (keys a)
    pub values_distinct : Distinct (values a)
    pub fitting : Entries (λ f p. Fits obj places filters p f) a

  abbrev Unused : Allocation → Interests → Type 0
  Unused a d = All (λ p. contains p (values a) ≡ false) (keys d)

  put-IsAllocation :
      (f p : ℕ) (a : Allocation)
      → Fits obj places filters p f
      → contains p (values a) ≡ false
      → IsAllocation a
      → IsAllocation (put f p a)
  put-IsAllocation f p a fits unused i = record {
    keys_distinct = Distinct-keys-put f p a i.keys_distinct;
    values_distinct = Distinct-values-put f p a unused i.values_distinct;
    fitting = Entries-put (λ g q. Fits obj places filters q g) f p a fits i.fitting;
  }

  put-Unused :
      (f p : ℕ) (a : Allocation) (ks : List ℕ)
      → contains p ks ≡ false
      → All (λ q. contains q (values a) ≡ false) ks
      → All (λ q. contains q (values (put f p a)) ≡ false) ks
  unfolding contains
  put-Unused f p a [] h u = tt
  put-Unused f p a (k ∷ ks) h u = (
    contains-values-put f p k a (ground (arith, ==_iff p k, ==_iff k p)) u.0,
    put-Unused f p a ks (ground arith) u.1,
  )

  -- The loop ends without an exception, and allocates something if a list has the wanted length.
  abbrev Allocates : ℕ → Interests → Allocation → Type 0
  Allocates limit d a =
      (a' : Allocation) × (allocate limit d a ≡ ok a')
      × IsAllocation a'
      × ((is_empty a ≡ false) ⊎ Attained limit d → is_empty a' ≡ false)

  allocate-Allocates :
      (limit : ℕ) (d : Interests) (a : Allocation)
      → Distinct (keys d)
      → Entries (Listed obj places filters) d
      → Unused a d
      → IsAllocation a
      → Allocates limit d a
  unfolding allocate
  allocate-Allocates limit [] a ds es u i =
      (a, refl, i, λ h. elim h [ inl e ↦ e | inr e ↦ absurd e ])
  allocate-Allocates limit ((p, []) ∷ d) a ds es u i = absurd (cc (es.0.0))
  allocate-Allocates limit ((p, f ∷ fs) ∷ d) a ds es u i =
      elim (Bool-cases (suc (length fs) == limit)) [
        | inl hit ↦
            let (a', e, i', full) =
              allocate-Allocates limit d (put f p a) ds.1 es.1 (put-Unused f p a (keys d) ds.0 u.1)
                (put-IsAllocation f p a es.0.1.0 u.0 i) in
            (a', rw hit e, i', λ _. full (inl (is_empty-put f p a)))
        | inr miss ↦
            let (a', e, i', full) = allocate-Allocates limit d a ds.1 es.1 u.1 i in
            (
              a',
              rw miss e,
              i',
              λ h. full (elim h [
                | inl e ↦ inl e
                | inr (inl e) ↦ absurd (ground (arith, ==_iff (suc (length fs)) limit))
                | inr (inr e) ↦ inr e
              ]),
            )
      ]

  empty-IsAllocation : IsAllocation []
  empty-IsAllocation = record { keys_distinct = tt; values_distinct = tt; fitting = tt }

  Unused-nil : (ks : List ℕ) → All (λ p. contains p (values {K = ℕ} {V = ℕ} []) ≡ false) ks
  unfolding contains
  Unused-nil [] = tt
  Unused-nil (k ∷ ks) = (refl, Unused-nil ks)

  choose_lem :
      (d : Interests)
      → IsInterest obj places filters d
      → (a : Allocation) × (choose d ≡ ok a) × IsAllocation a × (is_empty a ≡ is_empty d)
  unfolding choose
  choose_lem [] i = ([], refl, empty-IsAllocation, refl)
  choose_lem ((p, fs) ∷ d) i =
      let (a, e, ia, full) =
        allocate-Allocates (min_len fs d) ((p, fs) ∷ d) [] i.keys_distinct i.listed
          (Unused-nil (keys ((p, fs) ∷ d))) empty-IsAllocation in
      (a, e, ia, full (inr (min_len-Attained p fs d)))

  IsInterest-init : IsInterest obj places filters []
  IsInterest-init = record { keys_distinct = tt; listed = tt }

  -- One step returns an allocation that fits, and it is empty only if no filter fits a place.
  pub schedule_step_lem :
      (a : Allocation) × (schedule_step obj places filters ≡ ok a)
      × IsAllocation a
      × (is_empty a ≡ is_empty (scan_filters obj places filters []))
  unfolding schedule_step
  schedule_step_lem = choose_lem (scan_filters obj places filters []) (
      scan_filters-IsInterest obj places filters filters [] (All-contains places)
        (All-contains filters) IsInterest-init)

pub schedule_step-found :
    (obj : ℕ → TagSet) (places filters : List ℕ) (f p : ℕ)
    → contains f filters ≡ true
    → contains p places ≡ true
    → subset_tags obj f p ≡ true
    → schedule_step obj places filters ≢ ok []
schedule_step-found obj places filters f p k m fits e =
    let (a, ea, _, size) = schedule_step_lem obj places filters in
    let full = scan_filters-found obj f p places filters [] k m fits in
    let same : ok a ≡ ok [] = sym ea ∙ e in ground arith
