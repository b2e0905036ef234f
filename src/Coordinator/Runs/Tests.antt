-- ===== src/Coordinator/Runs/Tests.antt =====
-- labgrid/remote/coordinator.py: runs of the coordinator on a small laboratory.
use labgrid.Prelude.{
  ℕ, ◌≡◌, refl, true, false, List, [], ◌∷◌, String, Option, none, some, string_eq, nat_eq, ok,
  arith, ==_iff, map,
}
use labgrid.Prelude.Dict.{Dict, get, has}
use labgrid.Common.Match.{ResourcePath}
use labgrid.Common.Entry.{ResourceMsg}
use labgrid.Common.Place.{Place}
use labgrid.Common.Place.Snapshot.{PlaceDict}
use labgrid.Common.Place.Snapshot
use labgrid.Coordinator.State.{
  Groups, Coordinator, ResourceImport, response, exporter_start, resource_update, exporter_gone,
  client_sends, startup, ◌>>=◌,
}
use labgrid.Coordinator.Publish.{path_of}
use labgrid.Coordinator.Snapshot.{ResourceDicts, save, load}
use labgrid.Coordinator.Events.{apply_event}
use labgrid.Coordinator.Exclusive.{IsExclusive, holders, count_path}
use labgrid.Coordinator.Acquire.{same_path, acquire_place}
use labgrid.Coordinator.Synchronize.{synchronize_resources}
use labgrid.Coordinator.Synchronize.Replaced.{synchronize_resources-IsExclusive}
use labgrid.Coordinator.Example.{console, console_path, board, held_board, lab, held_lab, one_if_le}
use labgrid.Coordinator.Runs.{Request, perform, Step, started, Reachable}
use labgrid.Coordinator.Runs
use labgrid.Coordinator.Runs.Sound.{IsSound, Reachable-IsSound}
use labgrid.Coordinator.Runs.Restart.{save-load, forget_all}
use labgrid.Coordinator.Catalogue.{catalogue, run, replay}
use labgrid.Coordinator.Catalogue.Refines.{run-refines}

-- The exporter was started again: the place holds the old console, and there is a new one.
abbrev old_console : ResourceImport
old_console = record console {
  data_ = record (console.data_) { acquired = some "board" };
  orphaned = true;
}

abbrev console_msg : String → ResourceMsg
console_msg user = record {
  cls = "USBSerialPort";
  params = [];
  extra = [];
  acquired = user;
  avail = true;
}

abbrev restarted_lab : Coordinator
restarted_lab = record held_lab {
  exporters =
      (
        "ipv4:10.0.0.7:4712",
        record {
          name = "exp1";
          version = "24";
          groups = ("rack1", ("console", 1) ∷ []) ∷ [];
          queue = [];
        },
      )
      ∷ [];
  heap = record { cells = (0, old_console) ∷ (1, console) ∷ []; next = 2 };
  waits =
      record {
        elapsed = 1;
        events = resource_update "ipv4:10.0.0.7:4712" "rack1" "console" (console_msg "board") ∷ [];
        answer = response true;
      }
      ∷ [];
}

abbrev as_listed : List ResourcePath → List ResourcePath
as_listed paths = paths

restarted_lab-IsExclusive : IsExclusive restarted_lab
unfolding has holders count_path path_of get
restarted_lab-IsExclusive = record {
  heap_ok = λ ref h. ground (arith, ==_iff 0 ref, ==_iff 1 ref);
  there = ((refl, tt), tt);
  exclusive = λ q. omega (arith, one_if_le (same_path q console_path));
}

synchronize_resources-IsExclusive_example :
    IsExclusive (synchronize_resources as_listed restarted_lab).1
synchronize_resources-IsExclusive_example =
    synchronize_resources-IsExclusive as_listed restarted_lab restarted_lab-IsExclusive

-- The new console is acquired, and takes the place of the old one.
synchronize_test :
    get "board" (synchronize_resources as_listed restarted_lab).1.places
    ≡ some (record held_board { acquired_resources = 1 ∷ [] })
unfolding get synchronize_resources same_path ◌>>=◌
synchronize_test = refl

-- From the start: an exporter and a user come, and the user acquires the place.
abbrev board_file : Option (Dict String PlaceDict)
board_file = some (("board", Snapshot.asdict (path_of lab.heap) board) ∷ [])

abbrev with_exporter : Coordinator
with_exporter =
    apply_event (resource_update "ipv4:10.0.0.7:4711" "rack1" "console" (console_msg ""))
      (apply_event (exporter_start "ipv4:10.0.0.7:4711" "exp1" "24") (started (load board_file) 5))

abbrev with_user : Coordinator
with_user = apply_event (client_sends "ipv4:10.0.0.2:999" (startup "alice" "24")) with_exporter

abbrev answering : Coordinator
answering = record with_user {
  clock = 7;
  waits = record { elapsed = 1; events = []; answer = response true } ∷ [];
}

-- The exporter goes and comes back on another port while its answer is awaited.
abbrev reconnecting : Coordinator
reconnecting = record answering {
  waits =
      record {
        elapsed = 3;
        events =
            exporter_gone "ipv4:10.0.0.7:4711"
            ∷ exporter_start "ipv4:10.0.0.7:4712" "exp1" "24"
            ∷ resource_update "ipv4:10.0.0.7:4712" "rack1" "console" (console_msg "")
            ∷ [];
        answer = response true;
      }
      ∷ [];
}

abbrev acquiring : Request
acquiring = Runs.acquire_place "ipv4:10.0.0.2:999" "board"

with_user-Reachable : Reachable with_user
with_user-Reachable =
    Runs.next
      (Runs.next
        (Runs.next (Runs.start board_file 5)
          (Runs.stream (exporter_start "ipv4:10.0.0.7:4711" "exp1" "24") _))
        (Runs.stream _ _))
      (Runs.stream (client_sends "ipv4:10.0.0.2:999" (startup "alice" "24")) with_exporter)

acquired-Reachable : Reachable (perform acquiring reconnecting)
acquired-Reachable =
    Runs.next (Runs.next with_user-Reachable (Runs.surroundings 7 reconnecting.waits with_user))
      (Runs.request acquiring reconnecting)

Reachable-IsSound_example : IsSound (perform acquiring reconnecting)
Reachable-IsSound_example = Reachable-IsSound (perform acquiring reconnecting) acquired-Reachable

abbrev held_by : Option (Place ℕ) → Option (Option String × List ℕ)
held_by none = none
held_by (some p) = some (p.acquired, p.acquired_resources)

-- The user has the console then.
acquired_test :
    held_by (get "board" (perform acquiring answering).places) ≡ some (some "alice", 0 ∷ [])
unfolding get perform started load apply_event ◌>>=◌ acquire_place Snapshot.asdict
acquired_test = refl

-- The place keeps the console of the session that has gone, and the new session has another one.
reconnecting_test :
    (held_by (get "board" (perform acquiring reconnecting).places) ≡ some (some "alice", 0 ∷ []))
    × (map {B = String × Groups} (λ e. (e.0, e.1.groups)) (perform acquiring reconnecting).exporters
        ≡ ("ipv4:10.0.0.7:4712", ("rack1", ("console", 1) ∷ []) ∷ []) ∷ [])
unfolding get perform started load apply_event ◌>>=◌ acquire_place Snapshot.asdict
reconnecting_test = (refl, refl)

save-load_example :
    (resources : Dict String ResourceDicts) × (file : Dict String PlaceDict) × (save with_user
      ≡ (ok (resources, file), record with_user { save_scheduled = false }))
    × (load (some file) ≡ forget_all with_user.places)
unfolding started load apply_event ◌>>=◌
save-load_example = save-load with_user with_user-Reachable (refl, tt)

abbrev requests : List Request
requests =
    Runs.add_place "camera"
    ∷ Runs.set_place_tags "camera" (("colour", "yes") ∷ ("old", "1") ∷ ("old", "") ∷ [])
    ∷ acquiring
    ∷ Runs.delete_place "board"
    ∷ []

run-refines_example :
    catalogue (run requests answering).places ≡ replay requests (catalogue answering.places)
run-refines_example = run-refines requests answering
