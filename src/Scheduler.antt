-- ===== src/Scheduler.antt =====
-- labgrid/remote/scheduler.py: which filter (reservation) gets which place.
-- `TagSet` objects are compared by identity (`eq=False`), so places and filters are references,
-- and `obj` is the heap that says what a reference points to.
mod Interest
mod Step
mod Loop
mod Tests
use labgrid.Prelude.{
  ℕ, zero, suc, ◌≡◌, Bool, true, false, not, Option, none, some, List, [], ◌∷◌, ◌++◌, String,
  nat_eq, string_eq, pair_eq, ◌==◌, if◌then◌else◌, length, all, contains, remove, Outcome, ok,
  raised, ◌>>=◌, ◌>>◌, check, index_error, assertion_error, value_error, out_of_fuel, min,
}
use labgrid.Prelude.Dict.{Dict, get, has, put}

-- The set of tags is a list without repetitions; only membership is asked of it.
pub record TagSet : Type 0 where
  pub name : String
  pub tags : List (String × String)

-- place ↦ filters, and filter ↦ place.
abbrev pub Interests : Type 0
Interests = Dict ℕ (List ℕ)

abbrev pub Allocation : Type 0
Allocation = Dict ℕ ℕ

-- `interest[place].append(f)` on a `defaultdict(list)`.
abbrev pub or_nil : Option (List ℕ) → List ℕ
or_nil none = []
or_nil (some fs) = fs

pub append_interest : ℕ → ℕ → Interests → Interests
append_interest f place interest = put place (or_nil (get place interest) ++ f ∷ []) interest

pub min_len : List ℕ → Interests → ℕ
min_len fs [] = length fs
min_len fs ((_, gs) ∷ rest) = min (length fs) (min_len gs rest)

-- The loop over `interest.items()`. `pop(0)` on an empty list is an IndexError.
pub allocate : ℕ → Interests → Allocation → Outcome Allocation
allocate limit [] allocation = ok allocation
allocate limit ((place, []) ∷ rest) allocation =
    if length {A = ℕ} [] == limit then raised index_error else allocate limit rest allocation
allocate limit ((place, f ∷ fs) ∷ rest) allocation =
    allocate limit rest (if suc (length fs) == limit then put f place allocation else allocation)

pub choose : Interests → Outcome Allocation
unfolding allocate min_len
choose [] = ok []
choose ((place, fs) ∷ rest) = allocate (min_len fs rest) ((place, fs) ∷ rest) []

-- The places and filters that are still free, and what has been allocated.
pub record Pools : Type 0 where
  pub places : List ℕ
  pub filters : List ℕ
  pub allocation : Allocation

-- `xs.remove(x)`
pub list_remove : ℕ → List ℕ → Outcome (List ℕ)
unfolding contains remove
list_remove x xs = if contains x xs then ok (remove x xs) else raised value_error

pub apply_new : Allocation → Pools → Outcome Pools
unfolding list_remove has put
apply_new [] s = ok s
apply_new ((f, place) ∷ new) s = do
  check (not (has f s.allocation)) assertion_error
  places ← list_remove place s.places
  filters ← list_remove f s.filters
  apply_new new
      (record { places = places; filters = filters; allocation = put f place s.allocation })

module _ (obj : ℕ → TagSet) where
  -- `f.tags.issubset(place.tags)`
  pub subset_tags : ℕ → ℕ → Bool
  unfolding all contains
  subset_tags f place = all (λ t. contains t (obj place).tags) (obj f).tags

  pub scan_places : ℕ → List ℕ → Interests → Interests
  unfolding subset_tags append_interest
  scan_places f [] interest = interest
  scan_places f (place ∷ places) interest =
      scan_places f places
        (if subset_tags f place then append_interest f place interest else interest)

  pub scan_filters : List ℕ → List ℕ → Interests → Interests
  unfolding scan_places
  scan_filters places [] interest = interest
  scan_filters places (f ∷ filters) interest =
      scan_filters places filters (scan_places f places interest)

  pub schedule_step : List ℕ → List ℕ → Outcome Allocation
  unfolding scan_filters choose
  schedule_step places filters = choose (scan_filters places filters [])

  -- `while True:`, one unit of fuel for each round.
  pub overlaps_from : ℕ → Pools → Outcome Pools
  unfolding schedule_step apply_new
  overlaps_from zero s = raised out_of_fuel
  overlaps_from (suc fuel) s = schedule_step s.places s.filters >>= λ new. elim new [
    | [] ↦ ok s
    | item ∷ more ↦ apply_new (item ∷ more) s >>= λ s'. overlaps_from fuel s'
  ]

  -- Every round allocates a filter, so one more round than there are filters is enough.
  pub schedule_overlaps : List ℕ → List ℕ → Outcome Pools
  unfolding overlaps_from
  schedule_overlaps places filters =
      overlaps_from (suc (length filters))
        (record { places = places; filters = filters; allocation = [] })

  -- `{f.name: p.name for f, p in allocation.items()}`
  pub name_allocation : Allocation → Dict String String → Dict String String
  unfolding put
  name_allocation [] named = named
  name_allocation ((f, p) ∷ rest) named = name_allocation rest (put (obj f).name (obj p).name named)

  unfoldable pub schedule : List ℕ → List ℕ → Outcome (Dict String String)
  unfolding schedule_overlaps name_allocation
  schedule places filters =
      schedule_overlaps places filters >>= λ s. ok (name_allocation s.allocation [])
