-- ===== src/Coordinator/Runs/Sound.antt =====
-- labgrid/remote/coordinator.py: whatever requests are made, whatever the exporters answer and do,
-- and whenever they do it: no two places hold resources of the same path.
use labgrid.Prelude.{ℕ, ◌≡◌, refl, [], ◌∷◌, String, string_eq, nat_eq, arith}
use labgrid.Prelude.Int.{ℤ}
use labgrid.Prelude.Dict.{Dict, Entries, has}
use labgrid.Common.Match.{ResourcePath}
use labgrid.Common.Place.{Place}
use labgrid.Coordinator.State.{Coordinator, Heap}
use labgrid.Coordinator.Reservations.{
  put_reservations, schedule_reservations, create_reservation, cancel_reservation, poll_reservation,
}
use labgrid.Coordinator.Schedule.{Reservations}
use labgrid.Coordinator.Synchronize.{poll_step}
use labgrid.Coordinator.Synchronize.Replaced.{synchronize_resources-IsExclusive}
use labgrid.Coordinator.Snapshot.{load, load-IsEmpty}
use labgrid.Coordinator.Streams.{apply_event-Keeping}
use labgrid.Coordinator.Exclusive.{IsExclusive, holders, Keeping-IsExclusive}
use labgrid.Coordinator.Passes.{schedule_reservations-IsExclusive, AllHeldThere}
use labgrid.Coordinator.Handlers.{acquire_place-IsExclusive, release_place-IsExclusive}
use labgrid.Coordinator.Stable.{Stable, modify-Stable}
use labgrid.Coordinator.Lookups.{lookup_rules}
use labgrid.Coordinator.Orderly.{IsOrderly}
use labgrid.Coordinator.Orderly.Offered.{matching_resources-IsOffered}
use labgrid.Coordinator.Orderly.Streams.{same-IsOrderly, apply_event-Orderly}
use labgrid.Coordinator.Orderly.Commands.{synchronize_resources-Orderly}
use labgrid.Coordinator.Orderly.Handlers.{
  add_place-Orderly, delete_place-Orderly, add_place_alias-Orderly, delete_place_alias-Orderly,
  set_place_tags-Orderly, set_place_comment-Orderly, add_place_match-Orderly,
  delete_place_match-Orderly, allow_place-Orderly, add_default_place-Orderly,
  schedule_reservations-Orderly, create_reservation-Orderly, cancel_reservation-Orderly,
  poll_reservation-Orderly, acquire_place-Orderly, release_place-Orderly,
}
use labgrid.Coordinator.Runs
use labgrid.Coordinator.Runs.{Request, perform, Step, started, Reachable}
use labgrid.Coordinator.Runs.Placing.{
  add_place-IsExclusive, delete_place-IsExclusive, add_default_place-IsExclusive,
  add_place_alias-IsExclusive, delete_place_alias-IsExclusive, set_place_comment-IsExclusive,
  set_place_tags-IsExclusive, add_place_match-IsExclusive, delete_place_match-IsExclusive,
  allow_place-IsExclusive,
}
use labgrid.Coordinator.Clients.Same.{SameLab}
use labgrid.Coordinator.Runs.Saving.{poll_step_save-SameLab}

-- What every reachable state satisfies.
pub record IsSound (s : Coordinator) : Type 0 where
  pub exclusive : IsExclusive s
  pub orderly : IsOrderly s

-- The requests for reservations.
put_reservations-Exclusive : (rs : Reservations) → Stable IsExclusive (put_reservations rs)
unfolding put_reservations
put_reservations-Exclusive rs =
    modify-Stable _ λ s v. record { heap_ok = v.heap_ok; there = v.there; exclusive = v.exclusive }

schedule_reservations-Exclusive : Stable IsExclusive schedule_reservations
schedule_reservations-Exclusive = record { keeps = schedule_reservations-IsExclusive }

ruleset reservation_rules =
    (lookup_rules, put_reservations-Exclusive, schedule_reservations-Exclusive)

create_reservation-Exclusive :
    (peer token : String) (prio : ℤ) (filters : Dict String (Dict String String))
    → Stable IsExclusive (create_reservation peer token prio filters)
unfolding create_reservation
create_reservation-Exclusive peer token prio filters = search reservation_rules depth 20

cancel_reservation-Exclusive : (token : String) → Stable IsExclusive (cancel_reservation token)
unfolding cancel_reservation
cancel_reservation-Exclusive token = search reservation_rules depth 14

poll_reservation-Exclusive : (token : String) → Stable IsExclusive (poll_reservation token)
unfolding poll_reservation
poll_reservation-Exclusive token = search reservation_rules depth 14

-- Any request.
perform-IsExclusive : (r : Request) (s : Coordinator) → IsSound s → IsExclusive (perform r s)
unfolding perform
perform-IsExclusive (Runs.add_place name) s v = add_place-IsExclusive name s v.exclusive
perform-IsExclusive (Runs.delete_place name) s v = delete_place-IsExclusive name s v.exclusive
perform-IsExclusive (Runs.add_place_alias name alias) s v =
    add_place_alias-IsExclusive name alias s v.exclusive
perform-IsExclusive (Runs.delete_place_alias name alias) s v =
    delete_place_alias-IsExclusive name alias s v.exclusive
perform-IsExclusive (Runs.set_place_tags name tags) s v =
    set_place_tags-IsExclusive name tags s v.exclusive
perform-IsExclusive (Runs.set_place_comment name comment) s v =
    set_place_comment-IsExclusive name comment s v.exclusive
perform-IsExclusive (Runs.add_place_match name pattern rename) s v =
    add_place_match-IsExclusive name pattern rename s v.exclusive
perform-IsExclusive (Runs.delete_place_match name pattern rename) s v =
    delete_place_match-IsExclusive name pattern rename s v.exclusive
perform-IsExclusive (Runs.acquire_place peer name) s v =
    acquire_place-IsExclusive peer name s v.exclusive
      λ p _. matching_resources-IsOffered s p v.orderly
perform-IsExclusive (Runs.release_place name fromuser) s v =
    release_place-IsExclusive name fromuser s v.exclusive
perform-IsExclusive (Runs.allow_place peer name user) s v =
    allow_place-IsExclusive peer name user s v.exclusive
perform-IsExclusive (Runs.create_reservation peer token prio filters) s v =
    (create_reservation-Exclusive peer token prio filters).keeps s v.exclusive
perform-IsExclusive (Runs.cancel_reservation token) s v =
    (cancel_reservation-Exclusive token).keeps s v.exclusive
perform-IsExclusive (Runs.poll_reservation token) s v =
    (poll_reservation-Exclusive token).keeps s v.exclusive

perform-IsOrderly : (r : Request) (s : Coordinator) → IsOrderly s → IsOrderly (perform r s)
unfolding perform
perform-IsOrderly (Runs.add_place name) s o = (add_place-Orderly name).keeps s o
perform-IsOrderly (Runs.delete_place name) s o = (delete_place-Orderly name).keeps s o
perform-IsOrderly (Runs.add_place_alias name alias) s o =
    (add_place_alias-Orderly name alias).keeps s o
perform-IsOrderly (Runs.delete_place_alias name alias) s o =
    (delete_place_alias-Orderly name alias).keeps s o
perform-IsOrderly (Runs.set_place_tags name tags) s o = (set_place_tags-Orderly name tags).keeps s o
perform-IsOrderly (Runs.set_place_comment name comment) s o =
    (set_place_comment-Orderly name comment).keeps s o
perform-IsOrderly (Runs.add_place_match name pattern rename) s o =
    (add_place_match-Orderly name pattern rename).keeps s o
perform-IsOrderly (Runs.delete_place_match name pattern rename) s o =
    (delete_place_match-Orderly name pattern rename).keeps s o
perform-IsOrderly (Runs.acquire_place peer name) s o = (acquire_place-Orderly peer name).keeps s o
perform-IsOrderly (Runs.release_place name fromuser) s o =
    (release_place-Orderly name fromuser).keeps s o
perform-IsOrderly (Runs.allow_place peer name user) s o =
    (allow_place-Orderly peer name user).keeps s o
perform-IsOrderly (Runs.create_reservation peer token prio filters) s o =
    (create_reservation-Orderly peer token prio filters).keeps s o
perform-IsOrderly (Runs.cancel_reservation token) s o = (cancel_reservation-Orderly token).keeps s o
perform-IsOrderly (Runs.poll_reservation token) s o = (poll_reservation-Orderly token).keeps s o

-- A state with the same places, exporters and resources.
SameLab-IsSound : (s t : Coordinator) → SameLab s t → IsSound s → IsSound t
SameLab-IsSound s t same v = record {
  exclusive = record {
    heap_ok = rw same.same_heap v.exclusive.heap_ok;
    there = rw (same.same_heap, same.same_places) v.exclusive.there;
    exclusive = λ q. rw (same.same_heap, same.same_places) (v.exclusive.exclusive q);
  };
  orderly = same-IsOrderly s t same.same_heap same.same_exporters v.orderly;
}

-- One step from a sound state.
pub Step-IsSound : (s t : Coordinator) → Step s t → IsSound s → IsSound t
unfolding poll_step
Step-IsSound s t (Runs.request r s') v = record {
  exclusive = perform-IsExclusive r s v;
  orderly = perform-IsOrderly r s v.orderly;
}
Step-IsSound s t (Runs.saving s') v = SameLab-IsSound s t (poll_step_save-SameLab s) v
Step-IsSound s t (Runs.schedule s') v = record {
  exclusive = schedule_reservations-IsExclusive s v.exclusive;
  orderly = schedule_reservations-Orderly.keeps s v.orderly;
}
Step-IsSound s t (Runs.synchronize order s') v = record {
  exclusive = synchronize_resources-IsExclusive order s v.exclusive;
  orderly = (synchronize_resources-Orderly order).keeps s v.orderly;
}
Step-IsSound s t (Runs.stream e s') v = record {
  exclusive = Keeping-IsExclusive s t (apply_event-Keeping e s) v.exclusive;
  orderly = apply_event-Orderly e s v.orderly;
}
Step-IsSound s t (Runs.default_place group s') v = record {
  exclusive = add_default_place-IsExclusive group s v.exclusive;
  orderly = (add_default_place-Orderly group).keeps s v.orderly;
}
Step-IsSound s t (Runs.surroundings now waits s') v =
    SameLab-IsSound s t (record { same_places = refl; same_exporters = refl; same_heap = refl }) v

holders-none :
    (h : Heap) (q : ResourcePath) (places : Dict String (Place ℕ))
    → Entries (λ _ p. p.acquired_resources ≡ []) places
    → holders h q places ≡ 0
unfolding holders labgrid.Coordinator.Exclusive.count_path
holders-none h q [] a = refl
holders-none h q ((_, p) ∷ places) a = rw (a.0, holders-none h q places a.1) refl

AllHeldThere-none :
    (h : Heap) (places : Dict String (Place ℕ))
    → Entries (λ _ p. p.acquired_resources ≡ []) places
    → AllHeldThere h places
AllHeldThere-none h [] a = tt
AllHeldThere-none h ((_, p) ∷ places) a = (rw a.0 tt, AllHeldThere-none h places a.1)

started-IsSound :
    (places : Dict String (Place ℕ)) (now : ℕ)
    → Entries (λ _ p. p.acquired_resources ≡ []) places
    → IsSound (started places now)
unfolding started has
started-IsSound places now a = record {
  exclusive = record {
    heap_ok = λ ref h. absurd (ground (arith, h));
    there = AllHeldThere-none (record { cells = []; next = 0 }) places a;
    exclusive = λ q. omega (arith, holders-none (record { cells = []; next = 0 }) q places a);
  };
  orderly = record {
    heap_ok = λ ref h. absurd (ground (arith, h));
    peers = tt;
    once = tt;
    named = tt;
  };
}

-- In every state that the coordinator reaches from its start, whatever requests are made and in
-- whatever order, and whatever the exporters and the clients do in between: each resource path is
-- held by one place at most, each resource stands in its exporter's group under the name of its
-- path, and no two exporters have one name.
pub Reachable-IsSound : (s : Coordinator) → Reachable s → IsSound s
Reachable-IsSound s (Runs.start file now) = started-IsSound (load file) now (load-IsEmpty file)
Reachable-IsSound t (Runs.next {s} r step) = Step-IsSound s t step (Reachable-IsSound s r)
