-- ===== src/Coordinator/Synchronize/Collected.antt =====
-- labgrid/remote/coordinator.py: what `_synchronize_resources` collects is there, under its path.
use labgrid.Prelude.{
  ℕ, refl, ap, List, [], ◌∷◌, String, string_eq, nat_eq, Bool-cases, Option-cases, inl, inr,
}
use labgrid.Prelude.Dict.{Dict, get, Entries, Entries-put, has_of_get}
use labgrid.Common.Place.{Place}
use labgrid.Coordinator.State.{ExporterSession, Groups, Heap}
use labgrid.Coordinator.Publish.{path_of, path_in}
use labgrid.Coordinator.Sessions.{truthy_acquired}
use labgrid.Coordinator.Exclusive.{AllThere}
use labgrid.Coordinator.Synchronize.{
  PathDict, path_eq, orphaned_in, acquired_at, acquired_in_groups, acquired_in_group, note_acquired,
  held_at, note_held,
}
use labgrid.Coordinator.Synchronize.Safe.{IsAt, AllAt}

-- What is collected at the beginning.
module _ (h : Heap) where
  pub note_acquired-AllAt : (ref : ℕ) (d : PathDict) → AllAt h d → AllAt h (note_acquired h ref d)
  unfolding note_acquired path_of
  note_acquired-AllAt ref d a = elim (Option-cases (get ref h.cells)) [
    | inl e ↦ rw e a
    | inr (r, e) ↦ elim (Bool-cases (truthy_acquired r.data_.acquired)) [
      | inl held ↦
          rw (e, held)
            (Entries-put (IsAt h) r.path ref d (has_of_get ref h.cells e, ap path_in e) a)
      | inr free ↦ rw (e, free) a
    ]
  ]

  pub acquired_in_group-AllAt :
      (group : Dict String ℕ) (d : PathDict) → AllAt h d → AllAt h (acquired_in_group h group d)
  unfolding acquired_in_group
  acquired_in_group-AllAt [] d a = a
  acquired_in_group-AllAt ((_, ref) ∷ group) d a =
      acquired_in_group-AllAt group (note_acquired h ref d) (note_acquired-AllAt ref d a)

  pub acquired_in_groups-AllAt :
      (groups : Groups) (d : PathDict) → AllAt h d → AllAt h (acquired_in_groups h groups d)
  unfolding acquired_in_groups
  acquired_in_groups-AllAt [] d a = a
  acquired_in_groups-AllAt ((_, group) ∷ groups) d a =
      acquired_in_groups-AllAt groups (acquired_in_group h group d)
        (acquired_in_group-AllAt group d a)

  pub acquired_at-AllAt :
      (es : Dict String ExporterSession) (d : PathDict) → AllAt h d → AllAt h (acquired_at h es d)
  unfolding acquired_at
  acquired_at-AllAt [] d a = a
  acquired_at-AllAt ((_, e) ∷ es) d a =
      acquired_at-AllAt es (acquired_in_groups h e.groups d) (acquired_in_groups-AllAt e.groups d a)

  pub note_held-AllAt :
      (refs : List ℕ) (found : PathDict × PathDict)
      → AllThere h refs
      → AllAt h found.1
      → AllAt h (note_held h refs found).1
  unfolding note_held
  note_held-AllAt [] found there a = a
  note_held-AllAt (ref ∷ refs) (used, orphaned) there a =
      elim (Bool-cases (orphaned_in (get ref h.cells))) [
        | inl orphan ↦ rw orphan (
            note_held-AllAt refs _ there.1
              (Entries-put (IsAt h) (path_of h ref) ref orphaned (there.0, refl) a))
        | inr held ↦ rw held (note_held-AllAt refs _ there.1 a)
      ]

  pub held_at-AllAt :
      (places : Dict String (Place ℕ)) (found : PathDict × PathDict)
      → Entries (λ _ p. AllThere h p.acquired_resources) places
      → AllAt h found.1
      → AllAt h (held_at h places found).1
  unfolding held_at
  held_at-AllAt [] found there a = a
  held_at-AllAt ((_, p) ∷ places) found there a =
      held_at-AllAt places (note_held h p.acquired_resources found) there.1
        (note_held-AllAt p.acquired_resources found there.0 a)
