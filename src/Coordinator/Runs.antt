-- ===== src/Coordinator/Runs.antt =====
-- labgrid/remote/coordinator.py: the coordinator as a state machine. Requests and passes are made
-- one after the other, under the lock; the streams go on in between.
pub mod Placing
pub mod Saving
pub mod Sound
pub mod Restart
mod Tests
use labgrid.Prelude.{
  ℕ, ◌≤◌, ◌≡◌, Bool, true, false, List, [], ◌∷◌, String, Option, none, some, Distinct,
}
use labgrid.Prelude.Int.{ℤ}
use labgrid.Prelude.Dict.{Dict, Entries}
use labgrid.Common.Match.{ResourcePath}
use labgrid.Common.Place.{Place}
use labgrid.Coordinator.State.{Coordinator, Event, Wait}
use labgrid.Coordinator.Sessions.{add_default_place}
use labgrid.Coordinator.Events.{apply_event}
use labgrid.Coordinator.Places
use labgrid.Coordinator.Reservations
use labgrid.Coordinator.Reservations.{schedule_reservations}
use labgrid.Coordinator.Acquire
use labgrid.Common.Place.Snapshot.{PlaceDict}
use labgrid.Coordinator.Snapshot.{load, poll_step_save}
use labgrid.Coordinator.Synchronize.{synchronize_resources, poll_step}

-- The requests of the clients that change the state. A peer is who makes one, and a token is what
-- the random numbers give for a reservation.
pub data Request : Type 0 where
  add_place : (name : String) → Request
  delete_place : (name : String) → Request
  add_place_alias : (name alias : String) → Request
  delete_place_alias : (name alias : String) → Request
  set_place_tags : (name : String) → Dict String String → Request
  set_place_comment : (name comment : String) → Request
  add_place_match : (name pattern : String) → Option String → Request
  delete_place_match : (name pattern : String) → Option String → Request
  acquire_place : (peer name : String) → Request
  release_place : (name : String) → Option String → Request
  allow_place : (peer name user : String) → Request
  create_reservation : (peer token : String) → ℤ → Dict String (Dict String String) → Request
  cancel_reservation : (token : String) → Request
  poll_reservation : (token : String) → Request

-- What a request makes of the state, whatever it answers.
unfoldable pub perform : Request → Coordinator → Coordinator
perform (add_place name) s = (Places.add_place name s).1
perform (delete_place name) s = (Places.delete_place name s).1
perform (add_place_alias name alias) s = (Places.add_place_alias name alias s).1
perform (delete_place_alias name alias) s = (Places.delete_place_alias name alias s).1
perform (set_place_tags name tags) s = (Places.set_place_tags name tags s).1
perform (set_place_comment name comment) s = (Places.set_place_comment name comment s).1
perform (add_place_match name pattern rename) s = (Places.add_place_match name pattern rename s).1
perform (delete_place_match name pattern rename) s =
    (Places.delete_place_match name pattern rename s).1
perform (acquire_place peer name) s = (Acquire.acquire_place peer name s).1
perform (release_place name fromuser) s = (Acquire.release_place name fromuser s).1
perform (allow_place peer name user) s = (Places.allow_place peer name user s).1
perform (create_reservation peer token prio filters) s =
    (Reservations.create_reservation peer token prio filters s).1
perform (cancel_reservation token) s = (Reservations.cancel_reservation token s).1
perform (poll_reservation token) s = (Reservations.poll_reservation token s).1

-- What the coordinator does, one at a time.
pub data Step : Coordinator → Coordinator → Type 0 where
  request : (r : Request) (s : Coordinator) → Step s (perform r s)
  saving : (s : Coordinator) → Step s (poll_step poll_step_save s)
  schedule : (s : Coordinator) → Step s (poll_step schedule_reservations s)
  synchronize :
      (order : List ResourcePath → List ResourcePath) (s : Coordinator)
      → Step s (poll_step (synchronize_resources order) s)
  stream : (e : Event) (s : Coordinator) → Step s (apply_event e s)
  default_place : (group : String) (s : Coordinator) → Step s (add_default_place group s).1
  surroundings :
      (now : ℕ) (waits : List Wait) (s : Coordinator)
      → Step s (record s { clock = now; waits = waits })

-- The coordinator when it starts, with the places that were loaded.
unfoldable pub started : Dict String (Place ℕ) → ℕ → Coordinator
started places now = record {
  places = places;
  reservations = [];
  exporters = [];
  clients = [];
  heap = record { cells = []; next = 0 };
  save_scheduled = false;
  clock = now;
  waits = [];
  default_places = [];
}

pub data Reachable : Coordinator → Type 0 where
  start : (file : Option (Dict String PlaceDict)) (now : ℕ) → Reachable (started (load file) now)
  next : {s t : Coordinator} → Reachable s → Step s t → Reachable t
