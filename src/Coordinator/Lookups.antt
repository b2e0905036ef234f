-- ===== src/Coordinator/Lookups.antt =====
-- labgrid/remote/coordinator.py: the parts of a request that only look at the state and may refuse:
-- any predicate is kept by them.
use labgrid.Prelude.{[], ◌∷◌, String, string_eq, Option-cases, inl, inr, invalid_argument, ℕ}
use labgrid.Prelude.Dict.{Dict, get}
use labgrid.Common.Place.{Place}
use labgrid.Coordinator.State.{Coordinator}
use labgrid.Coordinator.Places.{find_place, find_user, check_tags}
use labgrid.Coordinator.Reservations.{check_filter, check_filters}
use labgrid.Coordinator.Acquire.{check_reservation}
use labgrid.Coordinator.Stable.{Stable, stable_rules, pure-Stable, >>=-Stable, or_abort-Stable}

module _ {κ} {P : Coordinator → Type κ} where
  pub find_place-Stable : (name : String) → Stable P (find_place name)
  unfolding find_place
  find_place-Stable name = record {
    keeps = λ s. (or_abort-Stable {P = P} (get name s.places) invalid_argument).keeps s;
  }

  pub find_user-Stable : (peer : String) → Stable P (find_user peer)
  unfolding find_user
  find_user-Stable peer = search stable_rules

  pub check_tags-Stable : (tags : Dict String String) → Stable P (check_tags tags)
  unfolding check_tags
  check_tags-Stable [] = pure-Stable tt
  check_tags-Stable ((k, v) ∷ tags) = >>=-Stable (search stable_rules) λ _. check_tags-Stable tags

  check_filter-Stable : (tags : Dict String String) → Stable P (check_filter tags)
  unfolding check_filter
  check_filter-Stable [] = pure-Stable tt
  check_filter-Stable ((k, v) ∷ tags) =
      >>=-Stable (search stable_rules) λ _. check_filter-Stable tags

  pub check_filters-Stable :
      (filters : Dict String (Dict String String)) → Stable P (check_filters filters)
  unfolding check_filters
  check_filters-Stable [] = pure-Stable tt
  check_filters-Stable ((group, tags) ∷ filters) =
      >>=-Stable (search (stable_rules, check_filter-Stable)) λ _. check_filters-Stable filters

  pub check_reservation-Stable :
      (p : Place ℕ) (username : String) → Stable P (check_reservation p username)
  unfolding check_reservation
  check_reservation-Stable p username = elim (Option-cases p.reservation) [
    | inl e ↦ rw (e, check_reservation) (pure-Stable tt)
    | inr (token, e) ↦ rw (e, check_reservation) (search stable_rules depth 12)
  ]

pub ruleset lookup_rules = (
  stable_rules, find_place-Stable, find_user-Stable, check_tags-Stable, check_filters-Stable,
  check_reservation-Stable,
)
