-- ===== src/Coordinator/Releasing.antt =====
-- labgrid/remote/coordinator.py: what `ReleasePlace` leaves of the place and of the others.
use labgrid.Prelude.{
  ℕ, ◌≡◌, ◌≢◌, refl, sym, ap, subst, true, false, not, ◌&&◌, List, [], ◌∷◌, String, Option, none,
  some, remove, string_eq, nat_eq, ==_iff, Outcome, ok, arith, Option-cases, inl, inr, ◌⊎◌,
}
use labgrid.Prelude.Dict.{get}
use labgrid.Common.Match.{opt_eq}
use labgrid.Common.Match.Laws.{opt_eq_iff}
use labgrid.Common.Place.{Place, touch}
use labgrid.Coordinator.State.{Coordinator, pure, unless, or_abort, ◌>>=◌}
use labgrid.Coordinator.Sessions.{truthy_acquired}
use labgrid.Coordinator.Places.{store, find_place}
use labgrid.Coordinator.Reservations.{schedule_reservations}
use labgrid.Coordinator.Acquire.{
  remove_all, update_place, release_resources, release_held, release_place,
}
use labgrid.Coordinator.Frame.{>>=-after}
use labgrid.Coordinator.Waits.{release_each-Frame}
use labgrid.Coordinator.Handlers.{find_place-after}
use labgrid.Coordinator.Stable.{looking}
use labgrid.Coordinator.Standing.{
  IsAt, IgnoresReservation, Frame-IsAt, schedule_reservations-IsAt, update_place-IsAt, store-IsAt,
}

remove_all_self : (refs : List ℕ) → remove_all refs refs ≡ []
unfolding remove_all remove
remove_all_self [] = refl
remove_all_self (r ∷ rs) = rw ((==_iff r r).1 refl) (remove_all_self rs)

-- Nothing held, and nobody there.
abbrev pub HoldsNothing : Place ℕ → Type 0
HoldsNothing p = p.acquired_resources ≡ []

abbrev pub IsFree : Place ℕ → Type 0
IsFree p = (p.acquired_resources ≡ []) × (p.acquired ≡ none) × (p.allowed ≡ [])

abbrev pub with_token : Option String → Place ℕ → Place ℕ
with_token x p = record p { reservation = x }

-- As it was, but for the reservation.
abbrev pub IsSameBut : Place ℕ → Place ℕ → Type 0
IsSameBut old p = (x : Option String) × (p ≡ with_token x old)

IsSameBut-ignores : (old : Place ℕ) → IgnoresReservation (IsSameBut old)
IsSameBut-ignores old p x (y, same) = (x, ap (with_token x) same)

-- The two halves of the release, for one name.
module _ (name : String) (s : Coordinator) (p : Place ℕ) (there : get name s.places ≡ some p) where
  abbrev emptied_at : Coordinator
  emptied_at = (release_resources name p.acquired_resources s).1

  module _ (n : String) (Q : Place ℕ → Type 0) (ignores : IgnoresReservation Q) where
    emptied-IsAt :
        (name ≡ n
          → (q : Place ℕ) → get n s.places ≡ some q
          → Q (record q {
            acquired_resources = remove_all p.acquired_resources q.acquired_resources;
          }))
        → (name ≢ n → IsAt n Q s.places)
        → IsAt n Q emptied_at.places
    unfolding release_resources
    emptied-IsAt here elsewhere =
        let start = update_place-IsAt n Q ignores name _ s here elsewhere p there in
        >>=-after {B = Unit {0}} (λ t. IsAt n Q t.places) (update_place name _) _ s start
          λ _ _. Frame-IsAt n Q (release_each-Frame p.acquired_resources) _ start

    store_free-IsAt :
        (q : Place ℕ) (t : Coordinator)
        → (name ≡ n → Q (touch t.clock (record q { acquired = none; allowed = [] })))
        → (name ≢ n → IsAt n Q t.places)
        → IsAt n Q
            ((store name (record q { acquired = none; allowed = [] }) >>= λ _.
                schedule_reservations)
              t).1.places
    store_free-IsAt q t here elsewhere =
        let stored =
          store-IsAt n Q ignores name (record q { acquired = none; allowed = [] }) t here
            elsewhere in
        >>=-after {B = Unit {0}} (λ u. IsAt n Q u.places)
          (store name (record q { acquired = none; allowed = [] })) (λ _. schedule_reservations) t
          stored (λ _ _. (schedule_reservations-IsAt n Q ignores).keeps _ stored)

    release_held-IsAt :
        IsAt n Q emptied_at.places
        → ((q : Place ℕ) (now : ℕ)
            → name ≡ n
            → Q q
            → Q (touch now (record q { acquired = none; allowed = [] })))
        → IsAt n Q (release_held name p s).1.places
    unfolding release_held
    release_held-IsAt start kept =
        >>=-after (λ t. IsAt n Q t.places) (release_resources name p.acquired_resources) _ s start
          λ _ _.
            find_place-after (λ t. IsAt n Q t.places) name _ _ start
              λ q e.
                store_free-IsAt q emptied_at
                  (λ same.
                    let (q', found, good) = start in
                    let again : q' ≡ q =
                      cc (subst (λ k. get k emptied_at.places ≡ some q) same e, found) in
                    kept q emptied_at.clock same (subst Q again good))
                  (λ _. start)

-- What a release leaves.
pub record IsReleased (name : String) (s : Coordinator) (r : Outcome (Unit {0}) × Coordinator)
    : Type 0 where
  pub emptied : IsAt name HoldsNothing r.1.places
  pub freed : r.0 ≡ ok tt → IsAt name IsFree r.1.places
  pub others :
      (n : String) (q : Place ℕ)
      → name ≢ n
      → get n s.places ≡ some q
      → IsAt n (IsSameBut q) r.1.places

release_held-IsReleased :
    (name : String) (s : Coordinator) (p : Place ℕ)
    → get name s.places ≡ some p
    → IsReleased name s (release_held name p s)
unfolding release_held ◌>>=◌ find_place pure
release_held-IsReleased name s p there =
    let t = emptied_at name s p there in
    let start : IsAt name HoldsNothing t.places =
      emptied-IsAt name s p there name HoldsNothing (λ q x h. h)
        (λ _ q found.
          let same : p ≡ q = cc (there, found) in
          subst (λ x. remove_all p.acquired_resources x.acquired_resources ≡ []) same
            (remove_all_self p.acquired_resources))
        (λ differ. absurd (differ refl)) in
    record {
      emptied =
          release_held-IsAt name s p there name HoldsNothing (λ q x h. h) start (λ q now _ h. h);
      freed =
          looking
            (λ (r : Outcome (Unit {0}) × Coordinator). r.0 ≡ ok tt → IsAt name IsFree r.1.places) t
            (λ x e. absurd (ground arith)) (release_resources name p.acquired_resources s).0 _
            λ _ _. elim (Option-cases (get name t.places)) [
              | inl gone ↦ absurd (ground (arith, start.1, gone))
              | inr (q, e) ↦
                  rw (e, or_abort)
                    λ _.
                      let same : start.0 ≡ q = cc (start.1, e) in
                      let empty : q.acquired_resources ≡ [] = subst HoldsNothing same start.2 in
                      store_free-IsAt name s p there name IsFree (λ _ _ h. h) q t
                        (λ _. (empty, refl, refl)) (λ differ. absurd (differ refl))
            ];
      others = λ n q differ found.
          release_held-IsAt name s p there n (IsSameBut q) (IsSameBut-ignores q)
            (emptied-IsAt name s p there n (IsSameBut q) (IsSameBut-ignores q)
              (λ same. absurd (differ same)) (λ _. (q, found, (q.reservation, refl))))
            (λ _ _ same. absurd (differ same));
    }

-- Releasing a place that somebody has acquired, in the name of that user or of nobody, and whatever
-- the exporters answer and the streams do in between: even if an exception stops it, the place is
-- still there and holds no resource; if it is completed, nobody has acquired the place and it
-- allows nobody; and every other place is as it was, but for its reservation.
pub release_place-IsReleased :
    (name : String) (fromuser : Option String) (s : Coordinator) (p : Place ℕ)
    → get name s.places ≡ some p
    → truthy_acquired p.acquired ≡ true
    → (truthy_acquired fromuser ≡ false) ⊎ (fromuser ≡ p.acquired)
    → IsReleased name s (release_place name fromuser s)
unfolding release_place find_place or_abort unless ◌>>=◌
release_place-IsReleased name fromuser s p there held by_owner =
    let own : (truthy_acquired fromuser && not (opt_eq p.acquired fromuser)) ≡ false =
      elim by_owner [
        | inl nobody ↦ rw nobody refl
        | inr user ↦ ground (arith, (opt_eq_iff p.acquired fromuser).1 (sym user))
      ] in
    rw (there, held, own) (release_held-IsReleased name s p there)
