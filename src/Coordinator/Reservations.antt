-- ===== src/Coordinator/Reservations.antt =====
-- labgrid/remote/coordinator.py: `schedule_reservations` as a whole, and the requests for
-- reservations.
use labgrid.Prelude.{
  not, List, [], ◌∷◌, String, string_eq, ◌==◌, Outcome, ok, raised, or_raise, key_error,
  invalid_argument, unimplemented, failed_precondition,
}
use labgrid.Prelude.Int.{ℤ}
use labgrid.Prelude.Text.{str_empty}
use labgrid.Prelude.Dict.{Dict, get, has, put, del, values}
use labgrid.Common.Tags.{tag_key_match, tag_val_match}
use labgrid.Common.Reservation.{Reservation, ReservationMsg, new_reservation, refresh, is_expired}
use labgrid.Common.Reservation
use labgrid.Coordinator.State.{
  Coordinator, M, pure, lift, modify, get_state, unless, or_abort, context_abort, ◌>>=◌, ◌>>◌,
}
use labgrid.Coordinator.Publish.{publish_place}
use labgrid.Coordinator.Schedule.{
  Places, Reservations, Copy, expire, scan_reservations, available, pending, allocate_places,
  apply_allocation, clear_reservations, copy_reservations, changed_names,
}

unfoldable pub put_reservations : Reservations → M (Unit {0})
put_reservations rs = modify (λ s. record s { reservations = rs })

unfoldable pub put_places : Places → M (Unit {0})
put_places ps = modify (λ s. record s { places = ps })

-- `self._publish_place(self.places[name])` for each name.
unfoldable pub publish_names : List String → M (Unit {0})
unfolding get publish_place
publish_names [] = pure tt
publish_names (name ∷ names) = do
  s ← get_state
  p ← lift (or_raise (get name s.places) key_error)
  publish_place p
  publish_names names

-- First half: expiry, transitions, and the places that are allocated.
unfoldable pub update_reservations : M (List String)
unfolding put_reservations expire scan_reservations
update_reservations = do
  s ← get_state
  let scan = scan_reservations s.places s.clock (expire s.clock s.reservations) []
  put_reservations scan.1
  lift scan.0

-- Second half: new allocations, and the copies in the places. `s` is the state after the first.
abbrev pub copies_in : Places → Reservations → Outcome (Unit {0}) × Copy
copies_in places rs =
    copy_reservations (values rs) (record { places = clear_reservations places; new_map = [] })

unfoldable pub allocate_from : List String → Coordinator → M (Unit {0})
unfolding put_reservations put_places available pending allocate_places apply_allocation
    clear_reservations copy_reservations changed_names publish_names
allocate_from taken s = do
  names ← lift (available s.places taken)
  new ← lift (allocate_places s.places names (pending s.reservations))
  rs ← lift (apply_allocation s.clock new s.reservations)
  put_reservations rs
  let copy = copies_in s.places rs
  put_places copy.1.places
  lift copy.0
  publish_names (changed_names s.places copy.1.new_map)

unfoldable pub allocate_reservations : List String → M (Unit {0})
unfolding allocate_from
allocate_reservations taken = get_state >>= allocate_from taken

unfoldable pub schedule_reservations : M (Unit {0})
unfolding update_reservations allocate_reservations
schedule_reservations = update_reservations >>= allocate_reservations

-- The checks of `CreateReservation`, group by group and tag by tag.
unfoldable pub check_filter : Dict String String → M (Unit {0})
unfolding tag_key_match tag_val_match
check_filter [] = pure {0} tt
check_filter ((k, v) ∷ tags) = do
  unless (tag_key_match k) (context_abort invalid_argument)
      (unless (tag_val_match v) (context_abort invalid_argument) (pure {0} tt))
  check_filter tags

unfoldable pub check_filters : Dict String (Dict String String) → M (Unit {0})
unfolding check_filter
check_filters [] = pure {0} tt
check_filters ((group, filter) ∷ groups) = do
  unless (group == "main") (context_abort unimplemented) (check_filter filter)
  check_filters groups

-- The token is drawn at random, and the priority is the request's.
unfoldable pub create_reservation :
    (peer token : String) → ℤ → Dict String (Dict String String) → M ReservationMsg
unfolding check_filters get put new_reservation schedule_reservations Reservation.as_pb2
create_reservation peer token prio filters = do
  check_filters filters
  s ← get_state
  client ← lift (or_raise (get peer s.clients) key_error)
  let res = new_reservation client.name token prio filters s.clock
  put_reservations (put token res s.reservations)
  schedule_reservations
  t ← get_state
  res' ← lift (or_raise (get token t.reservations) key_error)
  lift (Reservation.as_pb2 res')

unfoldable pub cancel_reservation : String → M (Unit {0})
unfolding has del schedule_reservations put_reservations
cancel_reservation token = do
  s ← get_state
  unless (not (str_empty token)) (context_abort invalid_argument) (
      unless (has token s.reservations) (context_abort failed_precondition)
        (do put_reservations (del token s.reservations); schedule_reservations))

unfoldable pub poll_reservation : String → M ReservationMsg
unfolding get put refresh put_reservations Reservation.as_pb2
poll_reservation token = do
  s ← get_state
  res ← or_abort (get token s.reservations) failed_precondition
  let res' = refresh 60 s.clock res
  put_reservations (put token res' s.reservations)
  lift (Reservation.as_pb2 res')

unfoldable pub reservation_messages : List Reservation → Outcome (List ReservationMsg)
unfolding Reservation.as_pb2
reservation_messages [] = ok []
reservation_messages (r ∷ rs) = elim (Reservation.as_pb2 r) [
  | raised e ↦ raised e
  | ok msg ↦ elim (reservation_messages rs) [ raised e ↦ raised e | ok msgs ↦ ok (msg ∷ msgs) ]
]

unfoldable pub get_reservations : M (List ReservationMsg)
unfolding reservation_messages
get_reservations = do s ← get_state; lift (reservation_messages (values s.reservations))
