-- ===== src/Coordinator/Passes.antt =====
-- labgrid/remote/coordinator.py: passes of `schedule_reservations` and changes of other fields
-- leave alone what the places hold.
use labgrid.Prelude.{
  ℕ, ◌≡◌, refl, ap, ◌∙◌, List, [], ◌∷◌, String, some, string_eq, arith, Outcome-cases, Option-cases,
  Bool-cases, inl, inr,
}
use labgrid.Prelude.Dict.{Dict, get, has, put, values, Entries, Entries-put, Entries-get}
use labgrid.Common.Match.{ResourcePath}
use labgrid.Common.Place.{Place}
use labgrid.Common.Reservation.{Reservation}
use labgrid.Coordinator.State.{Coordinator, Heap, M, lift, modify, ◌>>=◌}
use labgrid.Coordinator.Schedule.{
  Places, Reservations, Copy, clear_reservations, copy_names, copy_groups, copy_reservations,
}
use labgrid.Coordinator.Reservations.{
  put_reservations, put_places, publish_names, update_reservations, allocate_from, copies_in,
  allocate_reservations, schedule_reservations,
}
use labgrid.Coordinator.Publish.{publish_place}
use labgrid.Coordinator.Frame.{
  Frame, Keeping-refl, >>=-Frame, >>=-after, frame_rules, modify-Frame, pure-Frame, lift-Frame,
  get_state-Frame,
}
use labgrid.Coordinator.Streams.{publish-Frame}
use labgrid.Coordinator.Exclusive.{IsExclusive, AllThere, holders, holders-put, Keeping-IsExclusive}

abbrev pub AllHeldThere : Heap → Places → Type 0
AllHeldThere h places = Entries (λ _ p. AllThere h p.acquired_resources) places

-- The two dictionaries hold the same resources.
pub record SameHeld (h : Heap) (places places' : Places) : Type 0 where
  pub same_holders : (q : ResourcePath) → holders h q places' ≡ holders h q places
  pub still_there : AllHeldThere h places → AllHeldThere h places'

module _ (h : Heap) where
  SameHeld-refl : (places : Places) → SameHeld h places places
  SameHeld-refl places = record { same_holders = λ q. refl; still_there = λ a. a }

  SameHeld-trans : (a b c : Places) → SameHeld h a b → SameHeld h b c → SameHeld h a c
  SameHeld-trans a b c x y = record {
    same_holders = λ q. y.same_holders q ∙ x.same_holders q;
    still_there = λ t. y.still_there (x.still_there t);
  }

  -- Another version of a place that holds the same.
  pub SameHeld-put :
      (name : String) (p p' : Place ℕ) (places : Places)
      → get name places ≡ some p
      → p'.acquired_resources ≡ p.acquired_resources
      → SameHeld h places (put name p' places)
  SameHeld-put name p p' places e same = record {
    same_holders = λ q. omega (
      arith,
      holders-put h q name p p' places e,
      ap (labgrid.Coordinator.Exclusive.count_path h q) same,
    );
    still_there = λ t.
        Entries-put _ name p' places
          (rw same (Entries-get (λ _ r. AllThere h r.acquired_resources) name places t e)) t;
  }

  clear_reservations-SameHeld : (places : Places) → SameHeld h places (clear_reservations places)
  unfolding clear_reservations holders
  clear_reservations-SameHeld [] = SameHeld-refl []
  clear_reservations-SameHeld ((name, p) ∷ places) =
      let rest = clear_reservations-SameHeld places in
      record {
        same_holders = λ q. ground (arith, rest.same_holders q);
        still_there = λ t. (t.0, rest.still_there t.1);
      }

  copy_names-SameHeld :
      (token : String) (names : List String) (c : Copy)
      → SameHeld h c.places (copy_names token names c).1.places
  unfolding copy_names
  copy_names-SameHeld token [] c = SameHeld-refl c.places
  copy_names-SameHeld token (name ∷ names) c = elim (Bool-cases (has name c.new_map)) [
    | inl taken ↦ rw (taken, copy_names) (SameHeld-refl c.places)
    | inr new ↦ elim (Option-cases (get name c.places)) [
      | inl gone ↦ rw (new, gone, copy_names) (SameHeld-refl c.places)
      | inr (p, there) ↦
          rw (new, there, copy_names)
            (SameHeld-trans c.places _ _
              (SameHeld-put name p (record p { reservation = some token }) c.places there refl)
              (copy_names-SameHeld token names _))
    ]
  ]

  copy_groups-SameHeld :
      (token : String) (groups : Dict String (List String)) (c : Copy)
      → SameHeld h c.places (copy_groups token groups c).1.places
  unfolding copy_groups
  copy_groups-SameHeld token [] c = SameHeld-refl c.places
  copy_groups-SameHeld token ((_, names) ∷ []) c = copy_names-SameHeld token names c
  copy_groups-SameHeld token (_ ∷ _ ∷ _) c = SameHeld-refl c.places

  copy_reservations-SameHeld :
      (rs : List Reservation) (c : Copy) → SameHeld h c.places (copy_reservations rs c).1.places
  unfolding copy_reservations
  copy_reservations-SameHeld [] c = SameHeld-refl c.places
  copy_reservations-SameHeld (r ∷ rs) c =
      let (done, c') = copy_groups r.token r.allocations c in
      let first = copy_groups-SameHeld r.token r.allocations c in
      elim (Outcome-cases done) [
        | inl (_, e) ↦
            rw (e, copy_reservations)
              (SameHeld-trans c.places c'.places _ first (copy_reservations-SameHeld rs c'))
        | inr (_, e) ↦ rw (e, copy_reservations) first
      ]

-- Writing such a dictionary keeps the invariant.
pub SameHeld-IsExclusive :
    (s t : Coordinator)
    → t.heap ≡ s.heap
    → SameHeld s.heap s.places t.places
    → IsExclusive s
    → IsExclusive t
SameHeld-IsExclusive s t same held v = record {
  heap_ok = rw same v.heap_ok;
  there = rw same (held.still_there v.there);
  exclusive = λ q. rw (same, held.same_holders q) (v.exclusive q);
}

pub publish_place-Frame : (p : Place ℕ) → Frame (publish_place p)
unfolding publish_place
publish_place-Frame p = search (frame_rules, publish-Frame)

pub publish_names-Frame : (names : List String) → Frame (publish_names names)
unfolding publish_names
publish_names-Frame [] = pure-Frame tt
publish_names-Frame (name ∷ names) = >>=-Frame get_state-Frame λ s.
    >>=-Frame (lift-Frame _) λ p. >>=-Frame (publish_place-Frame p) λ _. publish_names-Frame names

pub put_reservations-Frame : (rs : Reservations) → Frame (put_reservations rs)
unfolding put_reservations
put_reservations-Frame rs = modify-Frame _ Keeping-refl

pub update_reservations-Frame : Frame update_reservations
unfolding update_reservations
update_reservations-Frame = search (frame_rules, put_reservations-Frame)

pub Frame-IsExclusive {ℓ} :
    {A : Type ℓ} {m : M A} → Frame m → (s : Coordinator) → IsExclusive s → IsExclusive (m s).1
Frame-IsExclusive {m} f s v = Keeping-IsExclusive s (m s).1 (f.keeping s) v

allocate_from-IsExclusive :
    (taken : List String) (s : Coordinator)
    → IsExclusive s
    → IsExclusive (allocate_from taken s s).1
unfolding allocate_from lift put_reservations put_places modify
allocate_from-IsExclusive taken s v = >>=-after IsExclusive _ _ s v λ names _.
    >>=-after IsExclusive _ _ s v λ new _. >>=-after IsExclusive _ _ s v λ rs _.
      let t = (put_reservations rs s).1 in
      let u = (put_places (copies_in s.places rs).1.places t).1 in
      >>=-after IsExclusive _ _ s (Frame-IsExclusive (put_reservations-Frame rs) s v) λ _ _.
        >>=-after IsExclusive _ _ t (copied-IsExclusive rs) λ _ _.
          >>=-after IsExclusive _ _ u (copied-IsExclusive rs)
            λ _ _. Frame-IsExclusive (publish_names-Frame _) u (copied-IsExclusive rs)
  where
    copied-IsExclusive :
        (rs : Reservations)
        → IsExclusive (record s { reservations = rs; places = (copies_in s.places rs).1.places })
    copied-IsExclusive rs =
        SameHeld-IsExclusive s _ refl
          (SameHeld-trans s.heap s.places (clear_reservations s.places) _
            (clear_reservations-SameHeld s.heap s.places)
            (copy_reservations-SameHeld s.heap (values rs) _))
          v

-- A pass of the scheduler, completed or stopped by an exception, leaves every path held by one
-- place at most, if it was so before.
pub schedule_reservations-IsExclusive :
    (s : Coordinator) → IsExclusive s → IsExclusive (schedule_reservations s).1
unfolding schedule_reservations allocate_reservations ◌>>=◌
schedule_reservations-IsExclusive s v =
    >>=-after IsExclusive update_reservations allocate_reservations s
      (Frame-IsExclusive update_reservations-Frame s v)
      λ taken _.
        allocate_from-IsExclusive taken (update_reservations s).1
          (Frame-IsExclusive update_reservations-Frame s v)
