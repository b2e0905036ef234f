-- ===== src/Coordinator/Catalogue/Scheduled.antt =====
-- labgrid/remote/coordinator.py: passes of the scheduler and the requests for reservations leave
-- the catalogue of the places alone.
use labgrid.Prelude.{
  ◌≡◌, refl, ap, ◌∙◌, List, [], ◌∷◌, String, some, string_eq, ◌==◌, Bool-cases, Option-cases,
  Outcome-cases, inl, inr,
}
use labgrid.Prelude.Int.{ℤ}
use labgrid.Prelude.Dict.{Dict, get, has, values}
use mathlib.Core.Path.{fun_ext}
use labgrid.Common.Reservation.{Reservation}
use labgrid.Coordinator.State.{Coordinator, lift, modify, ◌>>=◌}
use labgrid.Coordinator.Schedule.{
  Places, Reservations, Copy, clear_reservations, copy_names, copy_groups, copy_reservations,
}
use labgrid.Coordinator.Reservations.{
  put_reservations, put_places, allocate_from, copies_in, allocate_reservations,
  schedule_reservations, create_reservation, cancel_reservation, poll_reservation,
}
use labgrid.Coordinator.Frame.{>>=-after}
use labgrid.Coordinator.Passes.{
  update_reservations-Frame, publish_names-Frame, put_reservations-Frame,
}
use labgrid.Coordinator.Stable.{Stable, >>=-Stable}
use labgrid.Coordinator.Lookups.{lookup_rules}
use labgrid.Coordinator.Catalogue.{Catalogue, catalogue}
use labgrid.Coordinator.Catalogue.Views.{catalogue-put_same}
use labgrid.Coordinator.Catalogue.Kept.{Shows, Frame-Shows}

catalogue-clear : (places : Places) → catalogue (clear_reservations places) ≡ catalogue places
unfolding clear_reservations get
catalogue-clear [] = refl
catalogue-clear ((name, p) ∷ places) = fun_ext λ n. elim (Bool-cases (name == n)) [
  | inl hit ↦ rw hit refl
  | inr miss ↦ rw miss (ap (λ c. c n) (catalogue-clear places))
]

copy_names-catalogue :
    (token : String) (names : List String) (c : Copy)
    → catalogue (copy_names token names c).1.places ≡ catalogue c.places
unfolding copy_names
copy_names-catalogue token [] c = refl
copy_names-catalogue token (name ∷ names) c = elim (Bool-cases (has name c.new_map)) [
  | inl taken ↦ rw (taken, copy_names) refl
  | inr new ↦ elim (Option-cases (get name c.places)) [
    | inl gone ↦ rw (new, gone, copy_names) refl
    | inr (p, there) ↦
        rw (new, there, copy_names)
          (copy_names-catalogue token names _
            ∙ catalogue-put_same name p (record p { reservation = some token }) c.places there refl)
  ]
]

copy_groups-catalogue :
    (token : String) (groups : Dict String (List String)) (c : Copy)
    → catalogue (copy_groups token groups c).1.places ≡ catalogue c.places
unfolding copy_groups
copy_groups-catalogue token [] c = refl
copy_groups-catalogue token ((_, names) ∷ []) c = copy_names-catalogue token names c
copy_groups-catalogue token (_ ∷ _ ∷ _) c = refl

copy_reservations-catalogue :
    (rs : List Reservation) (c : Copy)
    → catalogue (copy_reservations rs c).1.places ≡ catalogue c.places
unfolding copy_reservations
copy_reservations-catalogue [] c = refl
copy_reservations-catalogue (r ∷ rs) c =
    let first = copy_groups-catalogue r.token r.allocations c in
    elim (Outcome-cases (copy_groups r.token r.allocations c).0) [
      | inl (_, e) ↦ rw (e, copy_reservations) (copy_reservations-catalogue rs _ ∙ first)
      | inr (_, e) ↦ rw (e, copy_reservations) first
    ]

allocate_from-Shows :
    (taken : List String) (c : Catalogue) (s : Coordinator)
    → Shows c s
    → Shows c (allocate_from taken s s).1
unfolding allocate_from lift put_reservations put_places modify
allocate_from-Shows taken c s v = >>=-after (Shows c) _ _ s v λ names _.
    >>=-after (Shows c) _ _ s v λ new _. >>=-after (Shows c) _ _ s v λ rs _.
      >>=-after (Shows c) _ _ s v λ _ _.
        >>=-after (Shows c) _ _ (record s { reservations = rs }) (copied rs)
          λ _ _.
            >>=-after (Shows c) _ _ _ (copied rs)
              λ _ _. (Frame-Shows (publish_names-Frame _)).keeps _ (copied rs)
  where
    copied : (rs : Reservations) → catalogue (copies_in s.places rs).1.places ≡ c
    copied rs = copy_reservations-catalogue (values rs) _ ∙ catalogue-clear s.places ∙ v

module _ {c : Catalogue} where
  pub schedule_reservations-Shows : Stable (Shows c) schedule_reservations
  unfolding schedule_reservations allocate_reservations ◌>>=◌
  schedule_reservations-Shows =
      >>=-Stable (Frame-Shows update_reservations-Frame)
        λ taken. record { keeps = λ s. allocate_from-Shows taken c s }

  put_reservations-Shows : (rs : Reservations) → Stable (Shows c) (put_reservations rs)
  put_reservations-Shows rs = Frame-Shows (put_reservations-Frame rs)

  ruleset reservation_rules = (lookup_rules, put_reservations-Shows, schedule_reservations-Shows)

  pub create_reservation-Shows :
      (peer token : String) (prio : ℤ) (filters : Dict String (Dict String String))
      → Stable (Shows c) (create_reservation peer token prio filters)
  unfolding create_reservation
  create_reservation-Shows peer token prio filters = search reservation_rules depth 20

  pub cancel_reservation-Shows : (token : String) → Stable (Shows c) (cancel_reservation token)
  unfolding cancel_reservation
  cancel_reservation-Shows token = search reservation_rules depth 14

  pub poll_reservation-Shows : (token : String) → Stable (Shows c) (poll_reservation token)
  unfolding poll_reservation
  poll_reservation-Shows token = search reservation_rules depth 14
