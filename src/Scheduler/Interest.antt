-- ===== src/Scheduler/Interest.antt =====
-- labgrid/remote/scheduler.py, `schedule_step`: what the `interest` dictionary holds after the
-- loops over filters and places.
use labgrid.Prelude.{
  ℕ, ◌≡◌, refl, sym, ap, ◌∙◌, ◌==◌, true, false, List, [], ◌∷◌, ◌++◌, nat_eq, contains, Distinct,
  is_empty, All, All-append, Bool-cases, Option-cases, inl, inr, arith, ==_iff,
}
use labgrid.Prelude.Dict.{get, put, keys, Entries, Entries-put, Entries-get, Distinct-keys-put}
use labgrid.Scheduler.{
  TagSet, Interests, or_nil, append_interest, subset_tags, scan_places, scan_filters,
}

is_empty-append : (xs : List ℕ) (x : ℕ) → is_empty (xs ++ x ∷ []) ≡ false
is_empty-append [] x = refl
is_empty-append (y ∷ ys) x = refl

is_empty-put : (k : ℕ) (v : List ℕ) (d : Interests) → is_empty (put k v d) ≡ false
unfolding put
is_empty-put k v [] = refl
is_empty-put k v (e ∷ d) = ground arith

module _ (obj : ℕ → TagSet) (places filters : List ℕ) where
  -- A filter that may be given the place.
  abbrev pub Fits : ℕ → ℕ → Type 0
  Fits place f =
      (contains f filters ≡ true)
      × (contains place places ≡ true)
      × (subset_tags obj f place ≡ true)

  abbrev pub Listed : ℕ → List ℕ → Type 0
  Listed place fs = (is_empty fs ≡ false) × All (Fits place) fs

  -- Each place once, with a list of filters that fit it.
  pub record IsInterest (d : Interests) : Type 0 where
    pub keys_distinct : Distinct (keys d)
    pub listed : Entries Listed d

  pub append_interest-IsInterest :
      (f place : ℕ) (d : Interests)
      → Fits place f
      → IsInterest d
      → IsInterest (append_interest f place d)
  unfolding append_interest
  append_interest-IsInterest f place d fits i = record {
    keys_distinct = Distinct-keys-put place _ d i.keys_distinct;
    listed =
        Entries-put Listed place _ d
          (is_empty-append _ f, All-append (Fits place) _ (f ∷ []) old (fits, tt)) i.listed;
  }
    where
      old : All (Fits place) (or_nil (get place d))
      old = elim (Option-cases (get place d)) [
        | inl e ↦ rw e tt
        | inr (fs, e) ↦ rw e (Entries-get Listed place d i.listed e).1
      ]

  -- `f` ranges over the filters, and `seen` over the places.
  pub scan_places-IsInterest :
      (f : ℕ) (seen : List ℕ) (d : Interests)
      → contains f filters ≡ true
      → All (λ p. contains p places ≡ true) seen
      → IsInterest d
      → IsInterest (scan_places obj f seen d)
  unfolding scan_places
  scan_places-IsInterest f [] d known all i = i
  scan_places-IsInterest f (p ∷ seen) d known all i = elim (Bool-cases (subset_tags obj f p)) [
    | inl fits ↦ rw fits (
        scan_places-IsInterest f seen _ known all.1
          (append_interest-IsInterest f p d (known, all.0, fits) i))
    | inr other ↦ rw other (scan_places-IsInterest f seen d known all.1 i)
  ]

  pub scan_filters-IsInterest :
      (seen : List ℕ) (d : Interests)
      → All (λ p. contains p places ≡ true) places
      → All (λ f. contains f filters ≡ true) seen
      → IsInterest d
      → IsInterest (scan_filters obj places seen d)
  unfolding scan_filters
  scan_filters-IsInterest [] d all known i = i
  scan_filters-IsInterest (f ∷ seen) d all known i =
      scan_filters-IsInterest seen _ all known.1 (scan_places-IsInterest f places d known.0 all i)

-- Once an entry stands in the dictionary, it is not empty again.
module _ (obj : ℕ → TagSet) where
  scan_places-full :
      (f : ℕ) (places : List ℕ) (d : Interests)
      → is_empty d ≡ false
      → is_empty (scan_places obj f places d) ≡ false
  unfolding scan_places append_interest
  scan_places-full f [] d h = h
  scan_places-full f (p ∷ places) d h = elim (Bool-cases (subset_tags obj f p)) [
    | inl fits ↦ rw fits (scan_places-full f places _ (is_empty-put p _ d))
    | inr other ↦ rw other (scan_places-full f places d h)
  ]

  scan_filters-full :
      (places filters : List ℕ) (d : Interests)
      → is_empty d ≡ false
      → is_empty (scan_filters obj places filters d) ≡ false
  unfolding scan_filters
  scan_filters-full places [] d h = h
  scan_filters-full places (f ∷ filters) d h =
      scan_filters-full places filters _ (scan_places-full f places d h)

  scan_places-found :
      (f p : ℕ) (places : List ℕ) (d : Interests)
      → contains p places ≡ true
      → subset_tags obj f p ≡ true
      → is_empty (scan_places obj f places d) ≡ false
  unfolding scan_places append_interest contains
  scan_places-found f p [] d m fits = cc
  scan_places-found f p (q ∷ places) d m fits = elim (Bool-cases (p == q)) [
    | inl same ↦
        rw (ap (λ r. subset_tags obj f r) (sym ((==_iff p q).0 same)) ∙ fits)
          (scan_places-full f places _ (is_empty-put q _ d))
    | inr other ↦ scan_places-found f p places _ (ground arith) fits
  ]

  -- If some filter fits some place, the dictionary is not empty.
  pub scan_filters-found :
      (f p : ℕ) (places filters : List ℕ) (d : Interests)
      → contains f filters ≡ true
      → contains p places ≡ true
      → subset_tags obj f p ≡ true
      → is_empty (scan_filters obj places filters d) ≡ false
  unfolding scan_filters contains
  scan_filters-found f p places [] d k m fits = cc
  scan_filters-found f p places (g ∷ filters) d k m fits = elim (Bool-cases (f == g)) [
    | inl same ↦ scan_filters-full places filters _ (
        scan_places-found g p places d m
          (ap (λ r. subset_tags obj r p) (sym ((==_iff f g).0 same)) ∙ fits))
    | inr other ↦ scan_filters-found f p places filters _ (ground arith) m fits
  ]
