-- ===== src/Coordinator/Tests.antt =====
-- labgrid/remote/coordinator.py on a laboratory with one place, one exporter and one user.
use labgrid.Prelude.{
  inr, ℕ, ◌≡◌, refl, subst, true, false, [], ◌∷◌, String, some, string_eq, nat_eq, ok, raised,
  arith, abort, failed_precondition, assertion_error, keep,
}
use labgrid.Prelude.Dict.{get, has, values}
use mathlib.Core.List.{Perm}
use labgrid.Coordinator.Publish.{path_of}
use labgrid.Prelude.Int.{pos}
use labgrid.Common.Place.{Place}
use labgrid.Common.Reservation.{Reservation, waiting, allocated}
use labgrid.Coordinator.State.{Coordinator, response, ◌>>=◌}
use labgrid.Coordinator.Acquire.{
  same_path, matching_resources, acquire_place, release_place, acquire_resources,
}
use labgrid.Coordinator.Sessions.{truthy_acquired}
use labgrid.Coordinator.Exclusive.{IsExclusive, one_if}
use labgrid.Coordinator.Acquiring.{IsOffered, acquire_resources-IsExclusive}
use labgrid.Coordinator.Handlers.{acquire_place-IsExclusive, acquire_place-IsAllowed}
use labgrid.Coordinator.Reservations.{schedule_reservations}
use labgrid.Coordinator.Schedule.{
  Reservations, pending, is_waiting, copy_reservations, clear_reservations,
}
use labgrid.Coordinator.Pending.{pending_lem}
use labgrid.Coordinator.Copies.{copy_reservations_lem, allocation_pairs}
use labgrid.Coordinator.Conflict.{readded_conflict, readd}
use labgrid.Coordinator.Pending.{IsServedInOrder}
use labgrid.Coordinator.Releasing.{IsReleased, release_place-IsReleased}
use labgrid.Coordinator.Example.{board, held_board, lab, held_lab, one_if_le, lab-IsExclusive}

console-IsOffered : IsOffered lab (0 ∷ [])
unfolding has labgrid.Coordinator.Exclusive.count_path
console-IsOffered = record {
  there = (refl, tt);
  once = λ q. omega (arith, one_if_le (same_path q (path_of lab.heap 0)));
}

acquire_resources-IsExclusive_example : IsExclusive (acquire_resources "board" (0 ∷ []) lab).1
acquire_resources-IsExclusive_example =
    acquire_resources-IsExclusive "board" (0 ∷ []) lab lab-IsExclusive console-IsOffered

release_place-IsReleased_example :
    IsReleased "board" held_lab (release_place "board" (some "alice") held_lab)
unfolding get
release_place-IsReleased_example =
    release_place-IsReleased "board" (some "alice") held_lab held_board refl refl (inr refl)

-- In the name of somebody else nothing happens.
release_other_test : release_place "board" (some "bob") held_lab ≡ (ok tt, held_lab)
unfolding get release_place ◌>>=◌
release_other_test = refl

matching-IsOffered :
    (p : Place ℕ) → get "board" lab.places ≡ some p → IsOffered lab (matching_resources lab p)
unfolding get matching_resources
matching-IsOffered p e =
    let same : board ≡ p = cc in
    subst (λ q. IsOffered lab (matching_resources lab q)) same console-IsOffered

acquire_place-IsExclusive_example : IsExclusive (acquire_place "ipv4:10.0.0.2:999" "board" lab).1
acquire_place-IsExclusive_example =
    acquire_place-IsExclusive "ipv4:10.0.0.2:999" "board" lab lab-IsExclusive matching-IsOffered

acquire_place-IsAllowed_example :
    (truthy_acquired board.acquired ≡ false)
    × ((token : String) (res : Reservation)
        → board.reservation ≡ some token
        → truthy_acquired (some token) ≡ true
        → get token lab.reservations ≡ some res
        → res.owner ≡ "alice")
unfolding get acquire_place ◌>>=◌
acquire_place-IsAllowed_example =
    acquire_place-IsAllowed "ipv4:10.0.0.2:999" "board" lab
      (record { name = "alice"; version = "24"; queue = [] }) board refl refl refl

abbrev booking : Reservation
booking = record {
  owner = "alice";
  token = "T1";
  state = allocated;
  prio = pos 0;
  filters = ("main", ("soc", "imx6") ∷ []) ∷ [];
  allocations = ("main", "board" ∷ []) ∷ [];
  created = 10;
  timeout = 160;
}

abbrev wish : Reservation
wish = record booking {
  token = "T2";
  state = waiting;
  prio = pos 1;
  allocations = [];
  created = 20;
}

abbrev urgent : Reservation
urgent = record wish { token = "T3"; prio = pos 2; created = 30 }

abbrev three_bookings : Reservations
three_bookings = ("T1", booking) ∷ ("T2", wish) ∷ ("T3", urgent) ∷ []

pending_lem_example :
    IsServedInOrder (pending three_bookings)
    × Perm (pending three_bookings) (keep (λ r. is_waiting r.state) (values three_bookings))
pending_lem_example = pending_lem three_bookings

pending_test : pending three_bookings ≡ urgent ∷ wish ∷ []
unfolding pending
pending_test = refl

copy_reservations_lem_example : some "T1" ≡ get "board" (allocation_pairs (booking ∷ []))
unfolding copy_reservations clear_reservations get
copy_reservations_lem_example =
    copy_reservations_lem lab.places (booking ∷ []) refl "board"
      (record board { reservation = some "T1" }) refl

abbrev booked_lab : Coordinator
booked_lab = record lab { reservations = ("T1", booking) ∷ [] }

readded_conflict_example :
    (schedule_reservations (readd "board" booked_lab).1).0 ≡ raised assertion_error
unfolding has
readded_conflict_example =
    readded_conflict booked_lab "board" "T1" booking refl refl refl refl refl (omega arith)

-- The whole of `AcquirePlace`: the exporter is asked, and the place has the resource afterwards.
acquire_place_test :
    (get "board" (acquire_place "ipv4:10.0.0.2:999" "board" lab).1.places
      ≡ some (record held_board { changed = 101 }))
    × ((acquire_place "ipv4:10.0.0.2:999" "board" held_lab).0 ≡ raised (abort failed_precondition))
unfolding get acquire_place ◌>>=◌
acquire_place_test = (refl, refl)

-- An exporter that answers with a refusal leaves the place as it was.
acquire_refused_test :
    get "board"
      (acquire_place "ipv4:10.0.0.2:999" "board" (record lab {
        waits = record { elapsed = 1; events = []; answer = response false } ∷ [];
      })).1.places
    ≡ some board
unfolding get acquire_place ◌>>=◌
acquire_refused_test = refl
