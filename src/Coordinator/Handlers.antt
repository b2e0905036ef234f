-- ===== src/Coordinator/Handlers.antt =====
-- labgrid/remote/coordinator.py: `AcquirePlace` and `ReleasePlace` as a whole.
use labgrid.Prelude.{
  ℕ, ◌≡◌, refl, ap, Bool, true, false, not, ◌&&◌, [], String, Option, none, some, string_eq, ◌==◌,
  ==_iff, arith, ok, raised, Option-cases, Bool-cases, inl, inr, abort, failed_precondition,
  permission_denied,
}
use labgrid.Prelude.Dict.{get}
use labgrid.Common.Place.{Place, touch}
use labgrid.Common.Reservation.{Reservation}
use labgrid.Common.Match.{opt_eq}
use labgrid.Coordinator.State.{
  Coordinator, M, ClientSession, pure, throw, modify, get_state, unless, or_abort, ◌>>=◌,
}
use labgrid.Coordinator.Publish.{publish_place}
use labgrid.Coordinator.Sessions.{truthy_acquired, save_later}
use labgrid.Coordinator.Places.{store, put_place, find_place, find_user}
use labgrid.Coordinator.Acquire.{
  update_place, set_acquired, check_reservation, matching_resources, acquire_resources,
  acquired_or_reverted, acquire_place, release_resources, release_held, release_place,
}
use labgrid.Coordinator.Reservations.{schedule_reservations}
use labgrid.Coordinator.Frame.{>>=-after, >>=-Frame}
use labgrid.Coordinator.Streams.{save_later-Frame}
use labgrid.Coordinator.Exclusive.{IsExclusive}
use labgrid.Coordinator.Holding.{update_place-IsExclusive, release_resources-IsExclusive}
use labgrid.Coordinator.Acquiring.{IsOffered, acquire_resources-IsExclusive}
use labgrid.Coordinator.Passes.{
  SameHeld-put, SameHeld-IsExclusive, Frame-IsExclusive, publish_place-Frame,
  schedule_reservations-IsExclusive,
}

-- The body after a found place.
pub find_place-after {ℓ κ} :
    {A : Type ℓ} (P : Coordinator → Type κ) (name : String) (f : Place ℕ → M A) (s : Coordinator)
    → P s
    → ((p : Place ℕ) → get name s.places ≡ some p → P (f p s).1)
    → P ((find_place name >>= f) s).1
unfolding find_place ◌>>=◌
find_place-after P name f s missing found = elim (Option-cases (get name s.places)) [
  | inl e ↦ rw (e, or_abort) missing
  | inr (p, e) ↦ rw (e, or_abort) (found p e)
]

pub set_acquired-IsExclusive :
    (name : String) (user : Option String) (s : Coordinator)
    → IsExclusive s
    → IsExclusive (set_acquired name user s).1
unfolding set_acquired
set_acquired-IsExclusive name user s v =
    update_place-IsExclusive s name _ v (λ p e a. a) λ q p e. omega (arith, v.exclusive q)

put_place-IsExclusive :
    (name : String) (p p' : Place ℕ) (s : Coordinator)
    → get name s.places ≡ some p
    → p'.acquired_resources ≡ p.acquired_resources
    → IsExclusive s
    → IsExclusive (put_place name p' s).1
unfolding put_place modify
put_place-IsExclusive name p p' s e same v =
    SameHeld-IsExclusive s _ refl (SameHeld-put s.heap name p p' s.places e same) v

-- A stored place that holds what it held.
pub store-IsExclusive :
    (name : String) (p p' : Place ℕ) (s : Coordinator)
    → get name s.places ≡ some p
    → p'.acquired_resources ≡ p.acquired_resources
    → IsExclusive s
    → IsExclusive (store name p' s).1
unfolding store get_state ◌>>=◌ touch
store-IsExclusive name p p' s e same v =
    let p'' = touch s.clock p' in
    let stored = put_place-IsExclusive name p p'' s e same v in
    >>=-after {B = Unit {0}} IsExclusive (put_place name p'')
      (λ _. publish_place p'' >>= λ _. save_later) s stored
      λ _ _. Frame-IsExclusive (>>=-Frame (publish_place-Frame p'') λ _. save_later-Frame) _ stored

-- Looking at the reservation changes nothing.
check_reservation-state :
    (p : Place ℕ) (username : String) (s : Coordinator) → (check_reservation p username s).1 ≡ s
unfolding check_reservation ◌>>=◌
check_reservation-state p username s = ground arith

acquired_or_reverted-IsExclusive :
    (name : String) (done : Bool) (s : Coordinator)
    → IsExclusive s
    → IsExclusive (acquired_or_reverted name done s).1
unfolding acquired_or_reverted ◌>>=◌
acquired_or_reverted-IsExclusive name false s v =
    >>=-after {B = Unit {0}} IsExclusive (set_acquired name none) _ s
      (set_acquired-IsExclusive name none s v) λ _ _. set_acquired-IsExclusive name none s v
acquired_or_reverted-IsExclusive name true s v = find_place-after IsExclusive name _ s v λ p e.
    >>=-after {B = Unit {0}} IsExclusive (store name p) (λ _. schedule_reservations) s
      (store-IsExclusive name p p s e refl v)
      λ _ _. schedule_reservations-IsExclusive _ (store-IsExclusive name p p s e refl v)

release_held-IsExclusive :
    (name : String) (p : Place ℕ) (s : Coordinator)
    → IsExclusive s
    → IsExclusive (release_held name p s).1
unfolding release_held
release_held-IsExclusive name p s v =
    let left = release_resources-IsExclusive name p.acquired_resources s v in
    >>=-after IsExclusive (release_resources name p.acquired_resources) _ s left λ _ _.
      find_place-after IsExclusive name _ _ left λ q e.
        let p' = record q { acquired = none; allowed = [] } in
        >>=-after {B = Unit {0}} IsExclusive (store name p') (λ _. schedule_reservations) _
          (store-IsExclusive name q p' _ e refl left)
          λ _ _. schedule_reservations-IsExclusive _ (store-IsExclusive name q p' _ e refl left)

-- Releasing a place, on every path through the handler and whatever the exporters and the clients
-- do in between, leaves every path held by one place at most, if it was so before.
pub release_place-IsExclusive :
    (name : String) (fromuser : Option String) (s : Coordinator)
    → IsExclusive s
    → IsExclusive (release_place name fromuser s).1
unfolding release_place unless pure throw
release_place-IsExclusive name fromuser s v = find_place-after IsExclusive name _ s v λ p e.
    elim (Bool-cases (truthy_acquired p.acquired)) [
      | inl held ↦
          elim (Bool-cases (truthy_acquired fromuser && not (opt_eq p.acquired fromuser))) [
            | inl other ↦ rw (held, other) v
            | inr mine ↦ rw (held, mine) (release_held-IsExclusive name p s v)
          ]
      | inr free ↦ elim (Bool-cases (truthy_acquired fromuser)) [
        | inl asked ↦ rw (free, asked) v
        | inr any ↦ rw (free, any) v
      ]
    ]

-- Acquiring a place for a user: who acquired it is written, then the resources follow.
abbrev acquire_for : String → Place ℕ → String → M (Unit {0})
acquire_for name p username = set_acquired name (some username) >>= λ _.
    get_state >>= λ s. acquire_resources name (matching_resources s p) >>= acquired_or_reverted name

IsOffered-after :
    (name : String) (user : Option String) (p q : Place ℕ) (s : Coordinator)
    → get name s.places ≡ some q
    → IsOffered s (matching_resources s p)
    → IsOffered (set_acquired name user s).1 (matching_resources (set_acquired name user s).1 p)
unfolding set_acquired matching_resources
IsOffered-after name user p q s e o =
    rw (e, update_place) (record { there = o.there; once = o.once })

acquire_for-IsExclusive :
    (name username : String) (p : Place ℕ) (s : Coordinator)
    → get name s.places ≡ some p
    → IsExclusive s
    → IsOffered s (matching_resources s p)
    → IsExclusive (acquire_for name p username s).1
unfolding get_state acquire_resources ◌>>=◌
acquire_for-IsExclusive name username p s e v o =
    let marked = set_acquired-IsExclusive name (some username) s v in
    >>=-after IsExclusive (set_acquired name (some username)) _ s marked λ _ _.
      let t = (set_acquired name (some username) s).1 in
      let kept =
        acquire_resources-IsExclusive name (matching_resources t p) t marked
          (IsOffered-after name (some username) p p s e o) in
      >>=-after IsExclusive (acquire_resources name (matching_resources t p)) _ t kept
        λ done _. acquired_or_reverted-IsExclusive name done _ kept

-- What holds before a handler looks up its user holds afterwards, if the rest keeps it.
pub find_user-after {ℓ κ} :
    {A : Type ℓ} (P : Coordinator → Type κ) (peer : String) (f : String → M A) (s : Coordinator)
    → P s
    → ((user : String) → P (f user s).1)
    → P ((find_user peer >>= f) s).1
unfolding find_user ◌>>=◌
find_user-after P peer f s missing found = elim (Option-cases (get peer s.clients)) [
  | inl e ↦ rw (e, or_abort) missing
  | inr (c, e) ↦ rw (e, or_abort) (found c.name)
]

-- Acquiring a place, on every path through the handler and whatever the exporters and the clients
-- do in between, leaves every path held by one place at most, if it was so before, the resources
-- that match the place are there, and no two of them have one path.
pub acquire_place-IsExclusive :
    (peer name : String) (s : Coordinator)
    → IsExclusive s
    → ((p : Place ℕ) → get name s.places ≡ some p → IsOffered s (matching_resources s p))
    → IsExclusive (acquire_place peer name s).1
unfolding acquire_place unless throw
acquire_place-IsExclusive peer name s v offered = find_user-after IsExclusive peer _ s v λ user.
    find_place-after IsExclusive name _ s v λ p e. elim (Bool-cases (truthy_acquired p.acquired)) [
      | inl taken ↦ rw taken v
      | inr free ↦ rw free (
          >>=-after IsExclusive (check_reservation p user) (λ _. acquire_for name p user) s
            (rw (check_reservation-state p user s) v)
            λ _ _.
              rw (check_reservation-state p user s)
                (acquire_for-IsExclusive name user p s e v (offered p e)))
    ]

-- The requests that the handler refuses: a place that someone has acquired, and a place reserved
-- for somebody else.
pub acquire_place-refused :
    (peer name : String) (s : Coordinator) (client : ClientSession) (p : Place ℕ)
    → get peer s.clients ≡ some client
    → get name s.places ≡ some p
    → (truthy_acquired p.acquired ≡ true
        → acquire_place peer name s ≡ (raised (abort failed_precondition), s))
      × ((token : String) (res : Reservation)
          → truthy_acquired p.acquired ≡ false
          → p.reservation ≡ some token
          → truthy_acquired (some token) ≡ true
          → get token s.reservations ≡ some res
          → (res.owner == client.name) ≡ false
          → acquire_place peer name s ≡ (raised (abort permission_denied), s))
unfolding acquire_place check_reservation find_user find_place or_abort ◌>>=◌
acquire_place-refused peer name s client p known there = (
  λ taken. rw (known, there, taken) refl,
  λ token res free reserved nonempty found other.
      rw (known, there, free, reserved, nonempty, found, other) refl,
)

-- For a known peer and a place that is there: a call of `AcquirePlace` that succeeds was for a
-- place that nobody had acquired, and that was not reserved for anybody but the caller.
pub acquire_place-IsAllowed :
    (peer name : String) (s : Coordinator) (client : ClientSession) (p : Place ℕ)
    → get peer s.clients ≡ some client
    → get name s.places ≡ some p
    → (acquire_place peer name s).0 ≡ ok tt
    → (truthy_acquired p.acquired ≡ false)
      × ((token : String) (res : Reservation)
          → p.reservation ≡ some token
          → truthy_acquired (some token) ≡ true
          → get token s.reservations ≡ some res
          → res.owner ≡ client.name)
acquire_place-IsAllowed peer name s client p known there done =
    let refused = acquire_place-refused peer name s client p known there in
    let free : truthy_acquired p.acquired ≡ false = elim (Bool-cases (truthy_acquired p.acquired)) [
      | inl taken ↦ absurd (ground (arith, ap (λ r. r.0) (refused.0 taken)))
      | inr free ↦ free
    ] in
    (
      free,
      λ token res reserved nonempty found. elim (Bool-cases (res.owner == client.name)) [
        | inl same ↦ (==_iff res.owner client.name).0 same
        | inr other ↦
            absurd (
              ground
                (arith, ap (λ r. r.0) (refused.1 token res free reserved nonempty found other)))
      ],
    )
