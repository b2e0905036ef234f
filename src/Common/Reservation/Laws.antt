-- ===== src/Common/Reservation/Laws.antt =====
-- labgrid/remote/common.py: the way of a reservation through its message, and its timeout.
use labgrid.Prelude.{
  ℕ, ◌+◌, ◌≤◌, ◌≡◌, refl, false, List, [], ◌∷◌, String, string_eq, ==_iff, ok, >>=-eq-ok, arith,
}
use labgrid.Prelude.Dict.{Dict}
use labgrid.Common.Reservation.{
  ReservationState, waiting, allocated, acquired, expired, invalid, Reservation, ReservationMsg,
  refresh, is_expired, as_pb2, from_pb2, state_value, state_of_value, allocations_msg,
  allocation_lists,
}

state_of_value-state_value : (s : ReservationState) → state_of_value (state_value s) ≡ ok s
unfolding state_of_value state_value
state_of_value-state_value waiting = refl
state_of_value-state_value allocated = refl
state_of_value-state_value acquired = refl
state_of_value-state_value expired = refl
state_of_value-state_value invalid = refl

allocation_lists-allocations_msg :
    (d : Dict String (List String)) {m : Dict String String}
    → allocations_msg d ≡ ok m
    → allocation_lists m ≡ d
unfolding allocations_msg allocation_lists
allocation_lists-allocations_msg [] h = ground arith
allocation_lists-allocations_msg ((g, p ∷ []) ∷ []) h = ground (arith, ==_iff g "main")
allocation_lists-allocations_msg ((g, []) ∷ d) h = cc
allocation_lists-allocations_msg ((g, p ∷ q ∷ ps) ∷ d) h = cc
allocation_lists-allocations_msg ((g, p ∷ []) ∷ e ∷ d) h = cc

-- Every reservation that can be put into a message is read back as it was.
pub from_pb2-as_pb2 : (r : Reservation) {m : ReservationMsg} → as_pb2 r ≡ ok m → from_pb2 m ≡ ok r
unfolding as_pb2 from_pb2
from_pb2-as_pb2 r h =
    let (ds, e, h') = >>=-eq-ok (allocations_msg r.allocations) _ h in
    ground
      (arith, state_of_value-state_value r.state, allocation_lists-allocations_msg r.allocations e)

-- A refreshed reservation does not expire within the time that it was given, and no refresh makes
-- a reservation expire earlier.
pub refresh_lasts :
    (r : Reservation) (delta now later : ℕ)
    → (later ≤ now + delta → is_expired later (refresh delta now r) ≡ false)
      × (is_expired later r ≡ false → is_expired later (refresh delta now r) ≡ false)
unfolding refresh is_expired
refresh_lasts r delta now later = (λ h. ground arith, λ h. ground arith)
