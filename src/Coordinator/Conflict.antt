-- ===== src/Coordinator/Conflict.antt =====
-- labgrid/remote/coordinator.py: a place that is deleted and added again between two passes of
-- `schedule_reservations`.
use labgrid.Prelude.{
  ℕ, ◌≤◌, ◌≡◌, refl, sym, true, false, List, [], ◌∷◌, String, some, string_eq, ◌==◌, ==_iff, arith,
  ok, raised, assertion_error, any, contains, Bool-cases, inl, inr,
}
use labgrid.Prelude.Text.{str_empty}
use labgrid.Prelude.Dict.{get, has, put, del, get-put_self, has-del}
use labgrid.Common.Place.{Place, new_place}
use labgrid.Common.Reservation.{Reservation, allocated}
use labgrid.Coordinator.State.{Coordinator, M, ◌>>=◌, ◌>>◌}
use labgrid.Coordinator.Places.{add_place, delete_place}
use labgrid.Coordinator.Schedule.{
  Places, expire_one, scan_groups, scan_names, expire, scan_reservations, is_free, free_names,
  available,
}
use labgrid.Coordinator.Pending.{expire_one-live}
use labgrid.Coordinator.Reservations.{schedule_reservations}

any-contains :
    (name : String) (taken names : List String)
    → contains name names ≡ true
    → contains name taken ≡ true
    → any (λ n. contains n taken) names ≡ true
unfolding any contains
any-contains name taken [] h k = cc
any-contains name taken (n ∷ names) h k = elim (Bool-cases (name == n)) [
  | inl hit ↦ rw (sym ((==_iff name n).0 hit), k)
  | inr miss ↦ ground (arith, any-contains name taken names)
]

contains_head : (name : String) (names : List String) → contains name (name ∷ names) ≡ true
unfolding contains
contains_head name names = ground (arith, ==_iff name name)

-- If a place that is neither acquired nor reserved is allocated to a reservation, the pass stops
-- at the assertion "inconsistent allocation", before anything is allocated.
free_but_allocated :
    (s : Coordinator) (name : String) (taken : List String)
    → (scan_reservations s.places s.clock (expire s.clock s.reservations) []).0 ≡ ok taken
    → contains name (free_names s.places) ≡ true
    → contains name taken ≡ true
    → (schedule_reservations s).0 ≡ raised assertion_error
unfolding schedule_reservations available ◌>>=◌
free_but_allocated s name taken scan free held =
    rw (scan, any-contains name taken (free_names s.places) free held)

contains-free_names-put :
    (name : String) (p : Place ℕ) (places : Places)
    → is_free p ≡ true
    → contains name (free_names (put name p places)) ≡ true
unfolding contains free_names put
contains-free_names-put name p [] h = rw h (ground (arith, ==_iff name name))
contains-free_names-put name p ((k, q) ∷ places) h = elim (Bool-cases (k == name)) [
  | inl hit ↦ rw (hit, h) (ground (arith, ==_iff k name, ==_iff name k))
  | inr miss ↦ ground (arith, contains-free_names-put name p places h)
]

-- Deleting a place and adding it again.
abbrev pub readd : String → M (Unit {0})
readd name = delete_place name >> add_place name

-- The state after it, as far as a pass reads it.
record IsReadded (name : String) (s t : Coordinator) : Type 0 where
  added : t.places ≡ put name (new_place name s.clock) (del name s.places)
  same_reservations : t.reservations ≡ s.reservations
  same_clock : t.clock ≡ s.clock

readd_lem :
    (name : String) (s : Coordinator)
    → str_empty name ≡ false
    → has name s.places ≡ true
    → IsReadded name s (readd name s).1
unfolding delete_place add_place ◌>>=◌
readd_lem name s named there =
    let gone : has name (del name s.places) ≡ false =
      ground (arith, has-del name name s.places, ==_iff name name) in
    rw (named, there, gone) (record { added = refl; same_reservations = refl; same_clock = refl })

-- A pass over one allocated reservation whose place is there.
one_reservation-scan :
    (places : Places) (now : ℕ) (token name : String) (r : Reservation) (p : Place ℕ)
    → get name places ≡ some p
    → r.state ≡ allocated
    → r.allocations ≡ ("main", name ∷ []) ∷ []
    → now ≤ r.timeout
    → (scan_reservations places now (expire now ((token, r) ∷ [])) []).0 ≡ ok (name ∷ [])
unfolding scan_reservations expire scan_groups scan_names contains
one_reservation-scan places now token name r p there st al live =
    let alive : expire_one now r ≡ some r = expire_one-live now r (λ e. cc (st, e)) live in
    rw (alive, expire) (ground arith)

-- Deleting and adding again a place that is allocated to a reservation, the only one, which has not
-- timed out, makes the next pass fail with an assertion: the new place is free, and the reservation
-- still names it.
pub readded_conflict :
    (s : Coordinator) (name token : String) (r : Reservation)
    → str_empty name ≡ false
    → has name s.places ≡ true
    → s.reservations ≡ (token, r) ∷ []
    → r.state ≡ allocated
    → r.allocations ≡ ("main", name ∷ []) ∷ []
    → s.clock ≤ r.timeout
    → (schedule_reservations (readd name s).1).0 ≡ raised assertion_error
unfolding is_free new_place
readded_conflict s name token r named there one st al live =
    let t = (readd name s).1 in
    let v = readd_lem name s named there in
    free_but_allocated t name (name ∷ [])
      (rw (v.added, v.same_reservations, v.same_clock, one)
        (one_reservation-scan _ s.clock token name r _ (get-put_self name _ _) st al live))
      (rw v.added (contains-free_names-put name _ _ refl)) (contains_head name [])
