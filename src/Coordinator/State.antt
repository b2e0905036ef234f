-- ===== src/Coordinator/State.antt =====
-- labgrid/remote/coordinator.py: the state of the coordinator, and the effects of a handler.
use labgrid.Prelude.{
  ℕ, Bool, true, false, List, String, Option, none, some, string_eq, nat_eq, Outcome, ok, raised,
  Exception, abort, Status,
}
use labgrid.Prelude.Dict.{Dict}
use labgrid.Common.Match.{ResourcePath}
use labgrid.Common.Entry.{ResourceData, ResourceMsg}
use labgrid.Common.Place.{Place, PlaceMsg}
use labgrid.Common.Reservation.{Reservation}

-- `UpdateResponse`, and the messages to a client.
pub data Update : Type 0 where
  resource : ResourcePath → ResourceMsg → Update
  del_resource : (exporter group name : String) → Update
  place : PlaceMsg → Update
  del_place : String → Update

pub data ClientOutMessage : Type 0 where
  sync : ℕ → ClientOutMessage
  updates : List Update → ClientOutMessage

-- `ExporterSetAcquiredRequest`: without a place name it asks for a release.
pub record SetAcquired : Type 0 where
  pub group_name : String
  pub resource_name : String
  pub place_name : Option String

-- The sessions. `queue` holds the messages in the order in which they were put.
pub record ClientSession : Type 0 where
  pub name : String
  pub version : String
  pub queue : List ClientOutMessage

-- `groups` refers to the resource objects by number.
abbrev pub Groups : Type 0
Groups = Dict String (Dict String ℕ)

pub record ExporterSession : Type 0 where
  pub name : String
  pub version : String
  pub groups : Groups
  pub queue : List SetAcquired

-- An object that an exporter's group and a place may share.
pub record ResourceImport : Type 0 where
  pub data_ : ResourceData
  pub path : ResourcePath
  pub orphaned : Bool

-- The objects by number, and the next free number.
pub record Heap : Type 0 where
  pub cells : Dict ℕ ResourceImport
  pub next : ℕ

-- `ClientInMessage`
pub data ClientInMessage : Type 0 where
  sync_in : ℕ → ClientInMessage
  startup : (name version : String) → ClientInMessage
  subscribe : (all_places all_resources : Bool) → ClientInMessage
  unknown : ClientInMessage

-- What the streams of the exporters and the clients do. They take no lock, so that they also go on
-- while a handler awaits an exporter's answer: exporters come and go, and so do clients.
pub data Event : Type 0 where
  exporter_start : (peer name version : String) → Event
  resource_update : (peer group name : String) → ResourceMsg → Event
  resource_gone : (peer group name : String) → Event
  exporter_gone : (peer : String) → Event
  client_sends : (peer : String) → ClientInMessage → Event
  client_gone : (peer : String) → Event

pub data Answer : Type 0 where
  response : (success : Bool) → Answer
  timed_out : Answer

pub record Wait : Type 0 where
  pub elapsed : ℕ
  pub events : List Event
  pub answer : Answer

-- `waits` says what happens at each `await cmd.wait()` from here on; after its end every wait
-- times out. `default_places` are the groups for which `_add_default_place` awaits the lock.
pub record Coordinator : Type 0 where
  pub places : Dict String (Place ℕ)
  pub reservations : Dict String Reservation
  pub exporters : Dict String ExporterSession
  pub clients : Dict String ClientSession
  pub heap : Heap
  pub save_scheduled : Bool
  pub clock : ℕ
  pub waits : List Wait
  pub default_places : List String

-- A handler changes the state and returns or raises; what it changed before an exception stays.
abbrev pub M {ℓ} : Type ℓ → Type ℓ
M A = Coordinator → Outcome A × Coordinator

module _ {ℓ} {A : Type ℓ} where
  unfoldable pub pure : A → M A
  pure a s = (ok a, s)

  unfoldable pub throw : Exception → M A
  throw e s = (raised e, s)

  -- A computation that touches no state.
  unfoldable pub lift : Outcome A → M A
  lift r s = (r, s)

  -- `await context.abort(code, …)`
  abbrev pub context_abort : Status → M A
  context_abort code = throw (abort code)

  -- `if b: stop`, and a lookup whose KeyError is answered by an abort.
  unfoldable pub unless : Bool → M A → M A → M A
  unless true stop go = go
  unless false stop go = stop

  unfoldable pub or_abort : Option A → Status → M A
  unfolding throw pure
  or_abort none code = context_abort code
  or_abort (some a) code = pure a

unfoldable pub get_state : M Coordinator
get_state s = (ok s, s)

unfoldable pub modify : (Coordinator → Coordinator) → M (Unit {0})
modify f s = (ok tt, f s)

unfoldable pub when : Bool → M (Unit {0}) → M (Unit {0})
unfolding pure
when true m = m
when false m = pure tt

module _ {ℓ κ} {A : Type ℓ} {B : Type κ} where
  abbrev pub and_then : Outcome A → (A → M B) → M B
  and_then (ok a) f s = f a s
  and_then (raised e) f s = (raised e, s)

  -- Opening this opens the other operations of the monad.
  infixl 5 ◌>>=◌ ◌>>◌
  unfoldable pub ◌>>=◌ : M A → (A → M B) → M B
  unfolding pure throw lift unless or_abort get_state modify when
  ◌>>=◌ m f s = and_then (m s).0 f (m s).1

  abbrev pub ◌>>◌ : M A → M B → M B
  m >> k = m >>= λ _. k
