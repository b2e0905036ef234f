-- ===== src/Coordinator/Catalogue/Refines.antt =====
-- labgrid/remote/coordinator.py: the requests do to the places what their specification does to
-- the catalogue.
use labgrid.Prelude.{
  ℕ, ◌≡◌, refl, ap, ◌∙◌, Bool, true, false, List, [], ◌∷◌, String, Option, none, string_eq, Outcome,
}
use labgrid.Common.Place.{Place}
use labgrid.Coordinator.State.{Coordinator, throw}
use labgrid.Coordinator.Places.{store, set_add, allow_place}
use labgrid.Coordinator.Acquire.{acquired_or_reverted, acquire_place, release_held, release_place}
use labgrid.Coordinator.Frame.{>>=-after}
use labgrid.Coordinator.Handlers.{find_place-after, find_user-after}
use labgrid.Coordinator.Lookups.{lookup_rules}
use labgrid.Coordinator.Stable.{if-Stable, Stable, stable_rules, guarding, >>=-Stable}
use labgrid.Coordinator.Runs.{Request, perform}
use labgrid.Coordinator.Runs
use labgrid.Coordinator.Catalogue.{Catalogue, catalogue, specify, run, replay}
use labgrid.Coordinator.Catalogue.Kept.{
  Shows, set_acquired-Shows, release_resources-Shows, acquire_resources-Shows, store-Shows,
}
use labgrid.Coordinator.Catalogue.Scheduled.{
  schedule_reservations-Shows, create_reservation-Shows, cancel_reservation-Shows,
  poll_reservation-Shows,
}
use labgrid.Coordinator.Catalogue.Changes.{
  add_place-refines, delete_place-refines, add_place_alias-refines, delete_place_alias-refines,
  set_place_comment-refines, set_place_tags-refines, add_place_match-refines,
  delete_place_match-refines,
}

-- Requests that leave the catalogue alone.
allow_place-refines :
    (peer name user : String) (s : Coordinator)
    → catalogue (allow_place peer name user s).1.places ≡ catalogue s.places
unfolding allow_place throw
allow_place-refines peer name user s =
    find_user-after (Shows (catalogue s.places)) peer _ s refl λ username.
      find_place-after (Shows (catalogue s.places)) name _ s refl λ p there.
        guarding ShownAfter s _ _ _ refl (
          guarding ShownAfter s _ _ _ refl (
            store-Shows name p (record p { allowed = set_add user p.allowed }) (catalogue s.places)
              s there refl refl))
  where
    ShownAfter : Outcome (Unit {0}) × Coordinator → Type 0
    ShownAfter r = Shows (catalogue s.places) r.1

module _ {c : Catalogue} where
  acquired_or_reverted-Shows :
      (name : String) (done : Bool) → Stable (Shows c) (acquired_or_reverted name done)
  unfolding acquired_or_reverted
  acquired_or_reverted-Shows name false = search (stable_rules, set_acquired-Shows)
  acquired_or_reverted-Shows name true = record {
    keeps = λ s shows. find_place-after (Shows c) name _ s shows λ p there.
        >>=-after {B = Unit {0}} (Shows c) (store name p) _ s
          (store-Shows name p p c s there refl shows)
          λ _ _. schedule_reservations-Shows.keeps _ (store-Shows name p p c s there refl shows);
  }

  acquire_place-Shows : (peer name : String) → Stable (Shows c) (acquire_place peer name)
  unfolding acquire_place
  acquire_place-Shows peer name =
      search (lookup_rules, set_acquired-Shows, acquire_resources-Shows, acquired_or_reverted-Shows)
        depth 24

  release_held-Shows : (name : String) (p : Place ℕ) → Stable (Shows c) (release_held name p)
  unfolding release_held
  release_held-Shows name p = >>=-Stable (release_resources-Shows name _) λ _. record {
    keeps = λ s shows. find_place-after (Shows c) name _ s shows λ q there.
        let q' = record q { acquired = none; allowed = [] } in
        >>=-after {B = Unit {0}} (Shows c) (store name q') _ s
          (store-Shows name q q' c s there refl shows)
          λ _ _. schedule_reservations-Shows.keeps _ (store-Shows name q q' c s there refl shows);
  }

  release_place-Shows :
      (name : String) (fromuser : Option String) → Stable (Shows c) (release_place name fromuser)
  unfolding release_place
  release_place-Shows name fromuser = search (lookup_rules, release_held-Shows, if-Stable) depth 14

-- Each request does to the places what its specification does to the catalogue: names that are new
-- or known, aliases, comments, tags and patterns; acquiring, releasing and reservations leave it
-- alone, whatever the exporters and the clients do in between.
pub perform-refines :
    (r : Request) (s : Coordinator)
    → catalogue (perform r s).places ≡ specify r (catalogue s.places)
unfolding perform
perform-refines (Runs.add_place name) s = add_place-refines name s
perform-refines (Runs.delete_place name) s = delete_place-refines name s
perform-refines (Runs.add_place_alias name alias) s = add_place_alias-refines name alias s
perform-refines (Runs.delete_place_alias name alias) s = delete_place_alias-refines name alias s
perform-refines (Runs.set_place_tags name tags) s = set_place_tags-refines name tags s
perform-refines (Runs.set_place_comment name comment) s = set_place_comment-refines name comment s
perform-refines (Runs.add_place_match name pattern rename) s =
    add_place_match-refines name pattern rename s
perform-refines (Runs.delete_place_match name pattern rename) s =
    delete_place_match-refines name pattern rename s
perform-refines (Runs.acquire_place peer name) s = (acquire_place-Shows peer name).keeps s refl
perform-refines (Runs.release_place name fromuser) s =
    (release_place-Shows name fromuser).keeps s refl
perform-refines (Runs.allow_place peer name user) s = allow_place-refines peer name user s
perform-refines (Runs.create_reservation peer token prio filters) s =
    (create_reservation-Shows peer token prio filters).keeps s refl
perform-refines (Runs.cancel_reservation token) s = (cancel_reservation-Shows token).keeps s refl
perform-refines (Runs.poll_reservation token) s = (poll_reservation-Shows token).keeps s refl

-- After any sequence of requests the places are described by the catalogue that the specification
-- gives for the sequence, from the catalogue at its beginning.
pub run-refines :
    (rs : List Request) (s : Coordinator)
    → catalogue (run rs s).places ≡ replay rs (catalogue s.places)
unfolding run
run-refines [] s = refl
run-refines (r ∷ rs) s = run-refines rs (perform r s) ∙ ap (replay rs) (perform-refines r s)
