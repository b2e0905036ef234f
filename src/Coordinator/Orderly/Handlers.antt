-- ===== src/Coordinator/Orderly/Handlers.antt =====
-- labgrid/remote/coordinator.py: the requests and the passes of the scheduler keep the sessions of
-- the exporters in order.
use labgrid.Prelude.{ℕ, ◌≡◌, refl, Bool, false, true, List, [], ◌∷◌, String, Option, string_eq}
use labgrid.Prelude.Dict.{Dict}
use labgrid.Prelude.Int.{ℤ}
use labgrid.Common.Place.{Place}
use labgrid.Coordinator.State.{Coordinator, modify}
use labgrid.Coordinator.Publish.{publish_place}
use labgrid.Coordinator.Sessions.{add_default_place}
use labgrid.Coordinator.Places.{
  put_place, store, add_place, delete_place, add_place_alias, delete_place_alias, set_place_tags,
  set_place_comment, add_place_match, delete_place_match, allow_place,
}
use labgrid.Coordinator.Schedule.{Places, Reservations}
use labgrid.Coordinator.Reservations.{
  put_reservations, put_places, publish_names, update_reservations, allocate_from,
  allocate_reservations, schedule_reservations, create_reservation, cancel_reservation,
  poll_reservation,
}
use labgrid.Coordinator.Acquire.{
  set_acquired, acquired_or_reverted, acquire_place, release_held, release_place,
}
use labgrid.Coordinator.Stable.{
  if-Stable, Stable, stable_rules, modify-Stable, pure-Stable, >>=-Stable, get_state-Stable,
  lift-Stable,
}
use labgrid.Coordinator.Lookups.{lookup_rules}
use labgrid.Coordinator.Orderly.{IsOrderly}
use labgrid.Coordinator.Orderly.Streams.{same-IsOrderly, save_later-Orderly}
use labgrid.Coordinator.Orderly.Commands.{
  publish-Orderly, update_place-Orderly, release_resources-Orderly, acquire_resources-Orderly,
}

module _ (f : Coordinator → Coordinator) where
  -- A change of other fields.
  other-Orderly :
      ((s : Coordinator) → ((f s).heap ≡ s.heap) × ((f s).exporters ≡ s.exporters))
      → Stable IsOrderly (modify f)
  other-Orderly h = modify-Stable f (λ s o. same-IsOrderly s (f s) (h s).0 (h s).1 o)

publish_place-Orderly : (p : Place ℕ) → Stable IsOrderly (publish_place p)
unfolding publish_place
publish_place-Orderly p = search (stable_rules, publish-Orderly)

put_place-Orderly : (name : String) (p : Place ℕ) → Stable IsOrderly (put_place name p)
unfolding put_place
put_place-Orderly name p = other-Orderly _ (λ s. (refl, refl))

ruleset place_rules =
    (stable_rules, publish-Orderly, publish_place-Orderly, put_place-Orderly, save_later-Orderly)

store-Orderly : (name : String) (p : Place ℕ) → Stable IsOrderly (store name p)
unfolding store
store-Orderly name p = search place_rules depth 12

ruleset request_rules = (place_rules, lookup_rules, store-Orderly)

pub add_place-Orderly : (name : String) → Stable IsOrderly (add_place name)
unfolding add_place
add_place-Orderly name = search request_rules depth 14

pub delete_place-Orderly : (name : String) → Stable IsOrderly (delete_place name)
unfolding delete_place
delete_place-Orderly name = search (request_rules, other-Orderly) depth 14

pub add_place_alias-Orderly : (name alias : String) → Stable IsOrderly (add_place_alias name alias)
unfolding add_place_alias
add_place_alias-Orderly name alias = search request_rules depth 14

pub delete_place_alias-Orderly :
    (name alias : String) → Stable IsOrderly (delete_place_alias name alias)
unfolding delete_place_alias
delete_place_alias-Orderly name alias = search request_rules depth 14

pub set_place_tags-Orderly :
    (name : String) (tags : Dict String String) → Stable IsOrderly (set_place_tags name tags)
unfolding set_place_tags
set_place_tags-Orderly name tags = search request_rules depth 14

pub set_place_comment-Orderly :
    (name comment : String) → Stable IsOrderly (set_place_comment name comment)
unfolding set_place_comment
set_place_comment-Orderly name comment = search request_rules depth 14

pub add_place_match-Orderly :
    (name pattern : String) (rename : Option String)
    → Stable IsOrderly (add_place_match name pattern rename)
unfolding add_place_match
add_place_match-Orderly name pattern rename = search request_rules depth 14

pub delete_place_match-Orderly :
    (name pattern : String) (rename : Option String)
    → Stable IsOrderly (delete_place_match name pattern rename)
unfolding delete_place_match
delete_place_match-Orderly name pattern rename = search request_rules depth 14

pub allow_place-Orderly : (peer name user : String) → Stable IsOrderly (allow_place peer name user)
unfolding allow_place
allow_place-Orderly peer name user = search request_rules depth 14

-- A place for a group, when the lock is free.
pub add_default_place-Orderly : (group : String) → Stable IsOrderly (add_default_place group)
unfolding add_default_place
add_default_place-Orderly group = search (stable_rules, other-Orderly) depth 12

-- The passes of the scheduler.
put_reservations-Orderly : (rs : Reservations) → Stable IsOrderly (put_reservations rs)
unfolding put_reservations
put_reservations-Orderly rs = other-Orderly _ (λ s. (refl, refl))

put_places-Orderly : (ps : Places) → Stable IsOrderly (put_places ps)
unfolding put_places
put_places-Orderly ps = other-Orderly _ (λ s. (refl, refl))

publish_names-Orderly : (names : List String) → Stable IsOrderly (publish_names names)
unfolding publish_names
publish_names-Orderly [] = pure-Stable tt
publish_names-Orderly (name ∷ names) = >>=-Stable get_state-Stable λ s.
    >>=-Stable (lift-Stable _)
      λ p. >>=-Stable (publish_place-Orderly p) λ _. publish_names-Orderly names

update_reservations-Orderly : Stable IsOrderly update_reservations
unfolding update_reservations
update_reservations-Orderly = search (stable_rules, put_reservations-Orderly)

allocate_reservations-Orderly :
    (taken : List String) → Stable IsOrderly (allocate_reservations taken)
unfolding allocate_reservations allocate_from
allocate_reservations-Orderly taken =
    search (stable_rules, put_reservations-Orderly, put_places-Orderly, publish_names-Orderly) depth
      20

pub schedule_reservations-Orderly : Stable IsOrderly schedule_reservations
unfolding schedule_reservations
schedule_reservations-Orderly =
    search (stable_rules, update_reservations-Orderly, allocate_reservations-Orderly)

ruleset reservation_rules = (lookup_rules, put_reservations-Orderly, schedule_reservations-Orderly)

pub create_reservation-Orderly :
    (peer token : String) (prio : ℤ) (filters : Dict String (Dict String String))
    → Stable IsOrderly (create_reservation peer token prio filters)
unfolding create_reservation
create_reservation-Orderly peer token prio filters = search reservation_rules depth 20

pub cancel_reservation-Orderly : (token : String) → Stable IsOrderly (cancel_reservation token)
unfolding cancel_reservation
cancel_reservation-Orderly token = search reservation_rules depth 14

pub poll_reservation-Orderly : (token : String) → Stable IsOrderly (poll_reservation token)
unfolding poll_reservation
poll_reservation-Orderly token = search reservation_rules depth 14

-- Acquiring and releasing places.
set_acquired-Orderly :
    (name : String) (user : Option String) → Stable IsOrderly (set_acquired name user)
unfolding set_acquired
set_acquired-Orderly name user = update_place-Orderly name _

acquired_or_reverted-Orderly :
    (name : String) (done : Bool) → Stable IsOrderly (acquired_or_reverted name done)
unfolding acquired_or_reverted
acquired_or_reverted-Orderly name false = search (request_rules, set_acquired-Orderly)
acquired_or_reverted-Orderly name true =
    search (request_rules, schedule_reservations-Orderly) depth 12

pub acquire_place-Orderly : (peer name : String) → Stable IsOrderly (acquire_place peer name)
unfolding acquire_place
acquire_place-Orderly peer name =
    search
      (request_rules, set_acquired-Orderly, acquire_resources-Orderly, acquired_or_reverted-Orderly)
      depth 24

release_held-Orderly : (name : String) (p : Place ℕ) → Stable IsOrderly (release_held name p)
unfolding release_held
release_held-Orderly name p =
    search (request_rules, release_resources-Orderly, schedule_reservations-Orderly) depth 16

pub release_place-Orderly :
    (name : String) (fromuser : Option String) → Stable IsOrderly (release_place name fromuser)
unfolding release_place
release_place-Orderly name fromuser =
    search (request_rules, release_held-Orderly, if-Stable) depth 14
