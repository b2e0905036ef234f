-- ===== src/Coordinator/Schedule.antt =====
-- labgrid/remote/coordinator.py: `schedule_reservations`, stage by stage. Sets of names are lists
-- in the order of insertion, and the time is read once.
use labgrid.Prelude.{
  ℕ, zero, suc, Bool, true, false, not, ◌&&◌, List, [], ◌∷◌, ◌++◌, String, Option, none, some,
  if◌then◌else◌, any, keep, contains, length, is_empty, leb, string_eq, nat_eq, pair_eq, ◌==◌,
  Outcome, ok, raised, ◌>>=◌, or_raise, key_error, assertion_error,
}
use labgrid.Prelude.Int.{int_ltb}
use labgrid.Prelude.Sort.{sort}
use labgrid.Prelude.Dict.{Dict, get, has, put, keys, values}
use labgrid.Common.Place.{Place, is_some}
use labgrid.Common.Reservation.{
  Reservation, ReservationState, waiting, allocated, acquired, expired, invalid, refresh,
  is_expired,
}
use labgrid.Scheduler.{TagSet, schedule}

abbrev pub Places : Type 0
Places = Dict String (Place ℕ)

abbrev pub Reservations : Type 0
Reservations = Dict String Reservation

abbrev pub is_waiting : ReservationState → Bool
is_waiting waiting = true
is_waiting _ = false

abbrev pub is_allocated : ReservationState → Bool
is_allocated allocated = true
is_allocated _ = false

abbrev pub is_acquired : ReservationState → Bool
is_acquired acquired = true
is_acquired _ = false

abbrev pub already_expired : ReservationState → Bool
already_expired expired = true
already_expired _ = false

-- The body of the loop that expires reservations; `none` says that the reservation is deleted.
unfoldable pub kept_alive : ℕ → Reservation → Reservation
unfolding refresh
kept_alive now r = if is_acquired r.state then refresh 60 now r else r

unfoldable pub expire_one : ℕ → Reservation → Option Reservation
unfolding kept_alive is_expired refresh
expire_one now r0 =
    let r = kept_alive now r0 in
    if not (is_expired now r)
    then some r
    else if already_expired r.state
    then none
    else some (refresh 60 now (record r { state = expired; allocations = [] }))

unfoldable pub expire : ℕ → Reservations → Reservations
unfolding expire_one
expire now [] = []
expire now ((token, r) ∷ rs) = elim (expire_one now r) [
  | none ↦ expire now rs
  | some r' ↦ (token, r') ∷ expire now rs
]

-- The second stage: which places are allocated. `taken` is `allocated_places`, `held` is
-- `acquired_places` of the reservation at hand.
pub record Scan : Type 0 where
  pub res : Reservation
  pub taken : List String
  pub held : List String

abbrev pub invalidate : ℕ → Reservation → Reservation
invalidate now r = record r {
  state = invalid;
  allocations = [];
  timeout = (refresh 300 now r).timeout;
}

-- `for name in group:`. A deleted place ends it by `break`.
unfoldable pub scan_names : Places → ℕ → List String → Scan → Outcome Scan
unfolding get contains refresh
scan_names places now [] s = ok s
scan_names places now (name ∷ names) s = elim (get name places) [
  | none ↦ ok (record s { res = invalidate now s.res })
  | some place ↦
      if contains name s.taken
      then raised assertion_error
      else scan_names places now names (record s {
        taken = s.taken ++ name ∷ [];
        held = if is_some place.acquired then s.held ++ name ∷ [] else s.held;
      })
]

unfoldable pub scan_groups : Places → ℕ → List (List String) → Scan → Outcome Scan
unfolding scan_names
scan_groups places now [] s = ok s
scan_groups places now (group ∷ groups) s = do
  s' ← scan_names places now group s
  scan_groups places now groups s'

-- The transitions between `allocated` and `acquired`.
unfoldable pub transition : ℕ → List String → Reservation → Reservation
unfolding refresh
transition now held r =
    if not (is_empty held) && is_allocated r.state
    then refresh 60 now (record r { state = acquired })
    else if is_empty held && is_acquired r.state
    then refresh 60 now (record r { state = allocated })
    else r

-- What was changed before an assertion fails stays changed.
unfoldable pub scan_reservations :
    Places → ℕ → Reservations → List String → Outcome (List String) × Reservations
unfolding scan_groups transition
scan_reservations places now [] taken = (ok taken, [])
scan_reservations places now ((token, r) ∷ rs) taken =
    elim (scan_groups places now (values r.allocations)
      (record { res = r; taken = taken; held = [] })) [
        | raised e ↦ (raised e, (token, r) ∷ rs)
        | ok s ↦
            let (taken', rs') = scan_reservations places now rs s.taken in
            (taken', (token, transition now s.held s.res) ∷ rs')
      ]

-- The third stage: places that are neither acquired nor reserved, nor allocated.
unfoldable pub is_free : Place ℕ → Bool
is_free p = not (is_some p.acquired) && not (is_some p.reservation)

unfoldable pub free_names : Places → List String
unfolding is_free
free_names [] = []
free_names ((name, p) ∷ places) = if is_free p then name ∷ free_names places else free_names places

unfoldable pub available : Places → List String → Outcome (List String)
unfolding free_names any contains keep
available places taken =
    let free = free_names places in
    if any (λ name. contains name taken) free
    then raised assertion_error
    else ok (keep (λ name. not (contains name taken)) free)

-- The order of `sorted(…, key=lambda x: (-x.prio, x.created))`.
unfoldable pub before : Reservation → Reservation → Bool
before a b =
    if int_ltb b.prio a.prio
    then true
    else if int_ltb a.prio b.prio
    then false
    else leb a.created b.created

unfoldable pub pending : Reservations → List Reservation
unfolding sort before keep
pending rs = keep (λ r. is_waiting r.state) (sort before (values rs))

-- The fourth stage: tag sets for the scheduler. A place has its tags and its name.
unfoldable pub place_tags : String → Place ℕ → List (String × String)
unfolding contains
place_tags name p = if contains ("name", name) p.tags then p.tags else p.tags ++ ("name", name) ∷ []

unfoldable pub place_tagsets : Places → List String → Outcome (List TagSet)
unfolding place_tags get
place_tagsets places [] = ok []
place_tagsets places (name ∷ names) = do
  p ← or_raise (get name places) key_error
  rest ← place_tagsets places names
  ok (record { name = name; tags = place_tags name p } ∷ rest)

unfoldable pub filter_tagsets : List Reservation → Outcome (List TagSet)
unfolding get
filter_tagsets [] = ok []
filter_tagsets (r ∷ rs) = do
  filter ← or_raise (get "main" r.filters) key_error
  rest ← filter_tagsets rs
  ok (record { name = r.token; tags = filter } ∷ rest)

-- The objects of the scheduler are numbered: first the places, then the filters.
unfoldable pub object : List TagSet → ℕ → TagSet
object [] n = record { name = ""; tags = [] }
object (t ∷ ts) zero = t
object (t ∷ ts) (suc n) = object ts n

unfoldable pub numbers_from : ℕ → List TagSet → List ℕ
numbers_from n [] = []
numbers_from n (t ∷ ts) = n ∷ numbers_from (suc n) ts

unfoldable pub allocate_places :
    Places → List String → List Reservation → Outcome (Dict String String)
unfolding place_tagsets filter_tagsets object numbers_from schedule
allocate_places places names rs = do
  ps ← place_tagsets places names
  fs ← filter_tagsets rs
  schedule (object (ps ++ fs)) (numbers_from 0 ps) (numbers_from (length ps) fs)

-- The fifth stage.
abbrev grant : ℕ → String → Reservation → Reservation
grant now place_name r =
    refresh 60 now (record r { allocations = ("main", place_name ∷ []) ∷ []; state = allocated })

unfoldable pub apply_allocation : ℕ → Dict String String → Reservations → Outcome Reservations
unfolding get put refresh
apply_allocation now [] rs = ok rs
apply_allocation now ((token, place_name) ∷ new) rs = do
  r ← or_raise (get token rs) key_error
  apply_allocation now new (put token (grant now place_name r) rs)

-- The last stage: each place gets a copy of the token that it is allocated to.
pub record Copy : Type 0 where
  pub places : Places
  pub new_map : Dict String String

unfoldable pub clear_reservations : Places → Places
clear_reservations [] = []
clear_reservations ((name, p) ∷ places) =
    (name, record p { reservation = none }) ∷ clear_reservations places

unfoldable pub copy_names : String → List String → Copy → Outcome (Unit {0}) × Copy
unfolding get has put
copy_names token [] c = (ok tt, c)
copy_names token (name ∷ names) c =
    let new_map = put name token c.new_map in
    if has name c.new_map then (raised assertion_error, c) else elim (get name c.places) [
      | none ↦ (raised assertion_error, record c { new_map = new_map })
      | some p ↦ copy_names token names (record {
        places = put name (record p { reservation = some token }) c.places;
        new_map = new_map;
      })
    ]

unfoldable pub copy_groups : String → Dict String (List String) → Copy → Outcome (Unit {0}) × Copy
unfolding copy_names
copy_groups token [] c = (ok tt, c)
copy_groups token ((_, names) ∷ []) c = copy_names token names c
copy_groups token (_ ∷ _ ∷ _) c = (raised assertion_error, c)

unfoldable pub copy_reservations : List Reservation → Copy → Outcome (Unit {0}) × Copy
unfolding copy_groups
copy_reservations [] c = (ok tt, c)
copy_reservations (r ∷ rs) c =
    let (done, c') = copy_groups r.token r.allocations c in
    elim done [ raised e ↦ (raised e, c') | ok _ ↦ copy_reservations rs c' ]

unfoldable pub old_map : Places → Dict String String
old_map [] = []
old_map ((name, p) ∷ places) = elim p.reservation [
  | none ↦ old_map places
  | some token ↦ (p.name, token) ∷ old_map places
]

unfoldable pub opt_same : Option String → Option String → Bool
opt_same none none = true
opt_same (some a) (some b) = a == b
opt_same _ _ = false

-- The names whose reservation has changed.
unfoldable pub changed_names : Places → Dict String String → List String
unfolding keep get contains old_map opt_same
changed_names places new =
    let old = old_map places in
    keep (λ name. not (opt_same (get name old) (get name new)))
      (keys places ++ keep (λ name. not (contains name (keys places))) (keys new))
