-- ===== src/Common/Reservation.antt =====
-- labgrid/remote/common.py: `Reservation`, and its message.
pub mod Laws
use labgrid.Prelude.{
  ℕ, ◌+◌, ◌≡◌, Bool, true, false, List, [], ◌∷◌, String, Option, none, some, if◌then◌else◌, ltb,
  max, string_eq, Outcome, ok, raised, ◌>>=◌, ◌>>◌, check, assertion_error, value_error, zero, suc,
  ◌==◌,
}
use labgrid.Prelude.Int.{ℤ}
use labgrid.Prelude.Dict.{Dict}

pub data ReservationState : Type 0 where
  waiting allocated acquired expired invalid : ReservationState

-- Priorities are scaled integers. `filters` maps a group name to tags, and `allocations` a group
-- name to place names.
pub record Reservation : Type 0 where
  pub owner : String
  pub token : String
  pub state : ReservationState
  pub prio : ℤ
  pub filters : Dict String (Dict String String)
  pub allocations : Dict String (List String)
  pub created : ℕ
  pub timeout : ℕ

-- `Reservation(owner=…, prio=…, filters=…)` at the time `now`; the token is drawn at random.
unfoldable pub new_reservation :
    String → String → ℤ → Dict String (Dict String String) → ℕ → Reservation
new_reservation owner token prio filters now = record {
  owner = owner;
  token = token;
  state = waiting;
  prio = prio;
  filters = filters;
  allocations = [];
  created = now;
  timeout = now + 60;
}

-- `refresh(delta)`; the default of `delta` is 60.
unfoldable pub refresh : ℕ → ℕ → Reservation → Reservation
refresh delta now r = record r { timeout = max r.timeout (now + delta) }

-- The property `expired`.
unfoldable pub is_expired : ℕ → Reservation → Bool
is_expired now r = ltb r.timeout now

pub record ReservationMsg : Type 0 where
  pub owner : String
  pub token : String
  pub state : ℕ
  pub prio : ℤ
  pub filters : Dict String (Dict String String)
  pub allocations : Dict String String
  pub created : ℕ
  pub timeout : ℕ

-- `self.state.value`
state_value : ReservationState → ℕ
state_value waiting = 0
state_value allocated = 1
state_value acquired = 2
state_value expired = 3
state_value invalid = 4

-- `ReservationState(value)`
state_of_value : ℕ → Outcome ReservationState
state_of_value zero = ok waiting
state_of_value (suc zero) = ok allocated
state_of_value (suc (suc zero)) = ok acquired
state_of_value (suc (suc (suc zero))) = ok expired
state_of_value (suc (suc (suc (suc zero)))) = ok invalid
state_of_value (suc (suc (suc (suc (suc n))))) = raised value_error

-- One group, named "main", with one place; or no allocation at all.
allocations_msg : Dict String (List String) → Outcome (Dict String String)
allocations_msg [] = ok []
allocations_msg ((group, place ∷ []) ∷ []) =
    if group == "main" then ok (("main", place) ∷ []) else raised assertion_error
allocations_msg _ = raised assertion_error

unfoldable pub as_pb2 : Reservation → Outcome ReservationMsg
unfolding allocations_msg state_value
as_pb2 r = allocations_msg r.allocations >>= λ allocations. ok (record {
  owner = r.owner;
  token = r.token;
  state = state_value r.state;
  prio = r.prio;
  filters = r.filters;
  allocations = allocations;
  created = r.created;
  timeout = r.timeout;
})

allocation_lists : Dict String String → Dict String (List String)
allocation_lists [] = []
allocation_lists ((group, place) ∷ d) = (group, place ∷ []) ∷ allocation_lists d

unfoldable pub from_pb2 : ReservationMsg → Outcome Reservation
unfolding state_of_value allocation_lists
from_pb2 m = state_of_value m.state >>= λ state. ok (record {
  owner = m.owner;
  token = m.token;
  state = state;
  prio = m.prio;
  filters = m.filters;
  allocations = allocation_lists m.allocations;
  created = m.created;
  timeout = m.timeout;
})
