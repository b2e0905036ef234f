-- ===== src/Coordinator/Standing.antt =====
-- labgrid/remote/coordinator.py: what a pass of the scheduler, and a change of a place, leave of
-- the place of a name.
use labgrid.Prelude.{
  ℕ, ◌≡◌, ◌≢◌, refl, sym, subst, ◌∙◌, List, [], ◌∷◌, String, Option, none, some, string_eq, nat_eq,
  ◌==◌, ==_iff, arith, Bool-cases, Option-cases, Outcome-cases, inl, inr,
}
use labgrid.Prelude.Dict.{Dict, get, put, has, values, get-put}
use labgrid.Common.Place.{Place, touch}
use labgrid.Common.Reservation.{Reservation}
use labgrid.Coordinator.State.{Coordinator, M, lift, modify, get_state, ◌>>=◌}
use labgrid.Coordinator.Places.{store, put_place}
use labgrid.Coordinator.Schedule.{
  Places, Reservations, Copy, clear_reservations, copy_names, copy_groups, copy_reservations,
}
use labgrid.Coordinator.Reservations.{
  put_reservations, put_places, allocate_from, copies_in, allocate_reservations,
  update_reservations, schedule_reservations,
}
use labgrid.Coordinator.Acquire.{update_place}
use labgrid.Coordinator.Frame.{Frame, >>=-after, >>=-Frame}
use labgrid.Coordinator.Streams.{save_later-Frame}
use labgrid.Coordinator.Passes.{update_reservations-Frame, publish_names-Frame, publish_place-Frame}
use labgrid.Coordinator.Stable.{Stable, >>=-Stable}

-- The place of a name is there and satisfies `Q`.
abbrev pub IsAt : String → (Place ℕ → Type 0) → Places → Type 0
IsAt name Q places = (p : Place ℕ) × (get name places ≡ some p) × Q p

-- What does not depend on the reservation.
abbrev pub IgnoresReservation : (Place ℕ → Type 0) → Type 0
IgnoresReservation Q = (p : Place ℕ) (x : Option String) → Q p → Q (record p { reservation = x })

module _ (name : String) (Q : Place ℕ → Type 0) where
  put-IsAt :
      (n : String) (p : Place ℕ) (places : Places)
      → (n ≡ name → Q p)
      → IsAt name Q places
      → IsAt name Q (put n p places)
  put-IsAt n p places here (q, there, good) = elim (Bool-cases (n == name)) [
    | inl hit ↦ (p, get-put n name p places ∙ rw hit refl, here ((==_iff n name).0 hit))
    | inr miss ↦ (q, get-put n name p places ∙ rw miss there, good)
  ]

  pub Frame-IsAt {ℓ} :
      {A : Type ℓ} {m : M A}
      → Frame m
      → (s : Coordinator) → IsAt name Q s.places
      → IsAt name Q (m s).1.places
  Frame-IsAt f s at = subst (IsAt name Q) (sym (f.keeping s).0) at

  module _ (ignores : IgnoresReservation Q) where
    clear-IsAt : (places : Places) → IsAt name Q places → IsAt name Q (clear_reservations places)
    unfolding clear_reservations get
    clear-IsAt [] (p, there, good) = absurd (ground arith)
    clear-IsAt ((n, p) ∷ places) (q, there, good) = elim (Bool-cases (n == name)) [
      | inl hit ↦
          let same : p ≡ q = ground (arith, hit, there) in
          (record p { reservation = none }, rw hit refl, ignores p none (subst Q (sym same) good))
      | inr miss ↦
          let (r, found, fine) = clear-IsAt places (q, ground (arith, miss, there), good) in
          (r, rw miss found, fine)
    ]

    copy_names-IsAt :
        (token : String) (names : List String) (c : Copy)
        → IsAt name Q c.places
        → IsAt name Q (copy_names token names c).1.places
    unfolding copy_names
    copy_names-IsAt token [] c at = at
    copy_names-IsAt token (n ∷ names) c at = elim (Bool-cases (has n c.new_map)) [
      | inl taken ↦ rw (taken, copy_names) at
      | inr new ↦ elim (Option-cases (get n c.places)) [
        | inl gone ↦ rw (new, gone, copy_names) at
        | inr (p, there) ↦
            let (q, found, good) = at in
            rw (new, there, copy_names)
              (copy_names-IsAt token names _ (
                put-IsAt n (record p { reservation = some token }) c.places
                  (λ same.
                    let e : p ≡ q = cc (subst (λ k. get k c.places ≡ some p) same there, found) in
                    ignores p (some token) (subst Q (sym e) good))
                  at))
      ]
    ]

    copy_groups-IsAt :
        (token : String) (groups : Dict String (List String)) (c : Copy)
        → IsAt name Q c.places
        → IsAt name Q (copy_groups token groups c).1.places
    unfolding copy_groups
    copy_groups-IsAt token [] c at = at
    copy_groups-IsAt token ((_, names) ∷ []) c at = copy_names-IsAt token names c at
    copy_groups-IsAt token (_ ∷ _ ∷ _) c at = at

    copy_reservations-IsAt :
        (rs : List Reservation) (c : Copy)
        → IsAt name Q c.places
        → IsAt name Q (copy_reservations rs c).1.places
    unfolding copy_reservations
    copy_reservations-IsAt [] c at = at
    copy_reservations-IsAt (r ∷ rs) c at =
        let first = copy_groups-IsAt r.token r.allocations c at in
        elim (Outcome-cases (copy_groups r.token r.allocations c).0) [
          | inl (_, e) ↦ rw (e, copy_reservations) (copy_reservations-IsAt rs _ first)
          | inr (_, e) ↦ rw (e, copy_reservations) first
        ]

    abbrev After : Coordinator → Type 0
    After s = IsAt name Q s.places

    allocate_from-IsAt :
        (taken : List String) (s : Coordinator) → After s → After (allocate_from taken s s).1
    unfolding allocate_from lift put_reservations put_places modify
    allocate_from-IsAt taken s v = >>=-after After _ _ s v λ names _.
        >>=-after After _ _ s v λ new _. >>=-after After _ _ s v λ rs _.
          >>=-after After _ _ s v λ _ _.
            >>=-after After _ _ (record s { reservations = rs }) (copied rs)
              λ _ _.
                >>=-after After _ _ _ (copied rs)
                  λ _ _. Frame-IsAt (publish_names-Frame _) _ (copied rs)
      where
        copied : (rs : Reservations) → IsAt name Q (copies_in s.places rs).1.places
        copied rs = copy_reservations-IsAt (values rs) _ (clear-IsAt s.places v)

    pub schedule_reservations-IsAt : Stable After schedule_reservations
    unfolding schedule_reservations allocate_reservations ◌>>=◌
    schedule_reservations-IsAt =
        >>=-Stable {m = update_reservations} {f = allocate_reservations}
          (record { keeps = Frame-IsAt update_reservations-Frame })
          λ taken. record { keeps = λ s. allocate_from-IsAt taken s }

    -- A place that is changed in place.
    pub update_place-IsAt :
        (n : String) (f : Place ℕ → Place ℕ) (s : Coordinator)
        → (n ≡ name → (p : Place ℕ) → get name s.places ≡ some p → Q (f p))
        → (n ≢ name → After s)
        → (p : Place ℕ) → get n s.places ≡ some p
        → After (update_place n f s).1
    unfolding update_place
    update_place-IsAt n f s here elsewhere p there = elim (Bool-cases (n == name)) [
      | inl hit ↦
          let same = (==_iff n name).0 hit in
          rw (update_place, there)
            (
              f p,
              get-put n name (f p) s.places ∙ rw hit refl,
              here same p (subst (λ k. get k s.places ≡ some p) same there),
            )
      | inr miss ↦
          rw (update_place, there)
            (put-IsAt n (f p) s.places (λ same. absurd (ground (arith, ==_iff n name)))
              (elsewhere (λ same. ground (arith, ==_iff n name))))
    ]

    -- Storing a place.
    pub store-IsAt :
        (n : String) (p : Place ℕ) (s : Coordinator)
        → (n ≡ name → Q (touch s.clock p))
        → (n ≢ name → After s)
        → After (store n p s).1
    unfolding store get_state put_place modify ◌>>=◌
    store-IsAt n p s here elsewhere =
        let p' = touch s.clock p in
        let stored : IsAt name Q (put n p' s.places) = elim (Bool-cases (n == name)) [
          | inl hit ↦ (p', get-put n name p' s.places ∙ rw hit refl, here ((==_iff n name).0 hit))
          | inr miss ↦
              put-IsAt n p' s.places (λ same. absurd (ground (arith, ==_iff n name)))
                (elsewhere (λ same. ground (arith, ==_iff n name)))
        ] in
        Frame-IsAt (>>=-Frame (publish_place-Frame p') λ _. save_later-Frame)
          (record s { places = put n p' s.places }) stored
