-- ===== src/Coordinator/Synchronize.antt =====
-- labgrid/remote/coordinator.py: `_synchronize_resources`, which brings what the places hold and
-- what the exporters have acquired together again, and the step of `poll` that calls it.
pub mod Safe
pub mod Loops
pub mod Collected
pub mod Replaced
use labgrid.Prelude.{
  ℕ, ◌+◌, Bool, true, false, not, ◌&&◌, List, [], ◌∷◌, String, Option, none, some, if◌then◌else◌,
  keep, contains, leb, Eq, ◌==◌, string_eq, nat_eq, Outcome, ok, raised, or_raise, key_error,
  attribute_error, assertion_error, value_error,
}
use labgrid.Prelude.Dict.{Dict, get, has, put, del, keys}
use labgrid.Common.Match.{ResourcePath, opt_eq}
use labgrid.Common.Place.{Place}
use labgrid.Coordinator.State.{
  Coordinator, ExporterSession, Groups, Heap, ResourceImport, M, pure, throw, lift, get_state,
  unless, ◌>>=◌, ◌>>◌,
}
use labgrid.Coordinator.Publish.{path_of}
use labgrid.Coordinator.Sessions.{deref, get_exporter_by_name, truthy_acquired}
use labgrid.Coordinator.Acquire.{same_path, acquire_resource, release_resources, update_place}
use labgrid.Coordinator.Exclusive.{same_path_iff}

instance abbrev pub path_eq : Eq ResourcePath
path_eq = record { test = same_path; test_iff = same_path_iff }

abbrev pub PathDict : Type 0
PathDict = Dict ResourcePath ℕ

abbrev pub acquired_in : Option ResourceImport → Option String
acquired_in none = none
acquired_in (some r) = r.data_.acquired

abbrev pub orphaned_in : Option ResourceImport → Bool
orphaned_in none = false
orphaned_in (some r) = r.orphaned

-- The acquired resources of the exporters, by path.
unfoldable pub note_acquired : Heap → ℕ → PathDict → PathDict
unfolding get put path_of
note_acquired h ref found =
    if truthy_acquired (acquired_in (get ref h.cells)) then put (path_of h ref) ref found else found

unfoldable pub acquired_in_group : Heap → Dict String ℕ → PathDict → PathDict
unfolding note_acquired
acquired_in_group h [] found = found
acquired_in_group h ((_, ref) ∷ group) found = acquired_in_group h group (note_acquired h ref found)

unfoldable pub acquired_in_groups : Heap → Groups → PathDict → PathDict
unfolding acquired_in_group
acquired_in_groups h [] found = found
acquired_in_groups h ((_, group) ∷ groups) found =
    acquired_in_groups h groups (acquired_in_group h group found)

unfoldable pub acquired_at : Heap → Dict String ExporterSession → PathDict → PathDict
unfolding acquired_in_groups
acquired_at h [] found = found
acquired_at h ((_, e) ∷ es) found = acquired_at h es (acquired_in_groups h e.groups found)

-- The resources that the places hold, used ones and orphans, by path.
unfoldable pub note_held : Heap → List ℕ → PathDict × PathDict → PathDict × PathDict
unfolding get put path_of
note_held h [] found = found
note_held h (ref ∷ refs) (used, orphaned) =
    if orphaned_in (get ref h.cells)
    then note_held h refs (used, put (path_of h ref) ref orphaned)
    else note_held h refs (put (path_of h ref) ref used, orphaned)

unfoldable pub held_at : Heap → Dict String (Place ℕ) → PathDict × PathDict → PathDict × PathDict
unfolding note_held
held_at h [] found = found
held_at h ((_, p) ∷ places) found = held_at h places (note_held h p.acquired_resources found)

-- `timeout.expired`, for a timeout that was started earlier.
abbrev pub expired_at : (deadline : ℕ) → Coordinator → Bool
expired_at deadline s = leb deadline s.clock

-- What a `try` with a handler for every exception goes on with.
unfoldable pub attempt {ℓ} : {A : Type ℓ} → M A → M (Outcome A)
attempt m s = (ok (m s).0, (m s).1)

-- Whether an acquired resource that no place holds is to be released: no, or for the place it
-- claims, which may be unknown (`None`).
abbrev pub of_claimed : Option String → Option (Place ℕ) → Option (Option String)
of_claimed claim none = some none
of_claimed claim (some p) = if truthy_acquired p.acquired then none else some claim

abbrev pub get_claimed : Option String → Dict String (Place ℕ) → Option (Place ℕ)
get_claimed none places = none
get_claimed (some name) places = get name places

unfoldable pub should_release : Coordinator → ResourceImport → Option (Option String)
unfolding get
should_release s r =
    if opt_eq r.data_.acquired (some "<broken>")
    then none
    else of_claimed r.data_.acquired (get_claimed r.data_.acquired s.places)

-- `self._release_resources(place, [resource])`; with `None` for the place it is an AttributeError.
unfoldable pub release_claimed : Option String → ℕ → M (Unit {0})
unfolding release_resources throw
release_claimed none ref = throw attribute_error
release_claimed (some name) ref = release_resources name (ref ∷ [])

-- The first loop. It gives the acquired resources that are left.
abbrev pub released_or_break :
    PathDict → (PathDict → M PathDict) → ResourcePath → Outcome (Unit {0}) → M PathDict
released_or_break acquired go path (ok _) = go (del path acquired)
released_or_break acquired go path (raised _) = pure acquired

abbrev pub release_or_skip :
    PathDict → (PathDict → M PathDict) → ResourcePath → ℕ → Option (Option String) → M PathDict
release_or_skip acquired go path ref none = go acquired
release_or_skip acquired go path ref (some claim) =
    attempt (release_claimed claim ref) >>= released_or_break acquired go path

unfoldable pub release_unused : (deadline : ℕ) → List ResourcePath → PathDict → M PathDict
unfolding get del deref should_release release_claimed attempt
release_unused deadline [] acquired = pure acquired
release_unused deadline (path ∷ paths) acquired = do
  s ← get_state
  unless (not (expired_at deadline s)) (release_unused deadline paths acquired) (do
    ref ← lift (or_raise (get path acquired) key_error)
    r ← deref ref
    release_or_skip acquired (release_unused deadline paths) path ref (should_release s r))

-- The second loop: the orphan's place, which is acquired, and the exporter's new object.
unfoldable pub claimed_place : Coordinator → Option String → Outcome String
unfolding get
claimed_place s none = raised assertion_error
claimed_place s (some name) = elim (get name s.places) [
  | none ↦ raised assertion_error
  | some p ↦ if truthy_acquired p.acquired then ok name else raised assertion_error
]

abbrev pub in_group : Option String → Option (Dict String ℕ) → Option ℕ
in_group (some name) (some group) = get name group
in_group _ _ = none

abbrev pub in_session : ResourcePath → Option (String × ExporterSession) → Option ℕ
in_session path none = none
in_session path (some (_, e)) = in_group path.name (get path.group e.groups)

-- The exporter may be gone, or not have the resource.
unfoldable pub find_again : Coordinator → ResourcePath → Option ℕ
unfolding get get_exporter_by_name
find_again s path = in_session path (get_exporter_by_name path.exporter s.exporters)

abbrev pub acquired_or_break :
    PathDict → (PathDict → M PathDict) → ResourcePath → ℕ → Outcome (Unit {0}) → M PathDict
acquired_or_break acquired go path ref (ok _) = go (put path ref acquired)
acquired_or_break acquired go path ref (raised _) = pure acquired

abbrev pub acquire_or_skip :
    PathDict → (PathDict → M PathDict) → (place_name : String) → Option ℕ → M PathDict
acquire_or_skip acquired go place_name none = go acquired
acquire_or_skip acquired go place_name (some ref) = do
  new ← deref ref
  unless (not (truthy_acquired new.data_.acquired)) (go acquired)
      (attempt (acquire_resource place_name ref) >>= acquired_or_break acquired go new.path ref)

unfoldable pub reacquire :
    (deadline : ℕ) → List ResourcePath → (orphaned : PathDict) → PathDict → M PathDict
unfolding get put deref claimed_place find_again acquire_resource attempt
reacquire deadline [] orphaned acquired = pure acquired
reacquire deadline (path ∷ paths) orphaned acquired = do
  s ← get_state
  unless (not (expired_at deadline s)) (reacquire deadline paths orphaned acquired) (do
    ref ← lift (or_raise (get path orphaned) key_error)
    r ← deref ref
    unless (not (opt_eq r.data_.acquired (some "<broken>")))
        (reacquire deadline paths orphaned acquired)
        (do
          place_name ← lift (claimed_place s r.data_.acquired)
          acquire_or_skip acquired (reacquire deadline paths orphaned) place_name
              (find_again s r.path)))

-- `place.acquired_resources[place.acquired_resources.index(old)] = new`
unfoldable pub replace_first : (old new : ℕ) → List ℕ → List ℕ
replace_first old new [] = []
replace_first old new (ref ∷ refs) =
    if ref == old then new ∷ refs else ref ∷ replace_first old new refs

abbrev pub held_of : Option (Place ℕ) → List ℕ
held_of none = []
held_of (some p) = p.acquired_resources

unfoldable pub replace_held : (place_name : String) → (old new : ℕ) → M (Unit {0})
unfolding get contains replace_first update_place
replace_held place_name old new = do
  s ← get_state
  unless (contains old (held_of (get place_name s.places))) (throw value_error) (
      update_place place_name
        (λ p. record p { acquired_resources = replace_first old new p.acquired_resources }))

unfoldable pub replace_orphan : (orphaned acquired : PathDict) → ResourcePath → M (Unit {0})
unfolding get deref claimed_place replace_held
replace_orphan orphaned acquired path = do
  old ← lift (or_raise (get path orphaned) key_error)
  new ← lift (or_raise (get path acquired) key_error)
  old_r ← deref old
  new_r ← deref new
  unless (opt_eq old_r.data_.acquired new_r.data_.acquired) (throw assertion_error) (do
    s ← get_state
    place_name ← lift (claimed_place s new_r.data_.acquired)
    replace_held place_name old new)

unfoldable pub replace_orphans : List ResourcePath → (orphaned acquired : PathDict) → M (Unit {0})
unfolding replace_orphan
replace_orphans [] orphaned acquired = pure tt
replace_orphans (path ∷ paths) orphaned acquired =
    replace_orphan orphaned acquired path >>= λ _. replace_orphans paths orphaned acquired

-- `acquired.keys() - used.keys() - orphaned.keys()` and the other sets of paths.
unfoldable pub paths_without : (removed : List PathDict) → PathDict → List ResourcePath
unfolding keep has
paths_without [] d = keys d
paths_without (r ∷ rs) d = keep (λ path. not (has path r)) (paths_without rs d)

unfoldable pub paths_in_both : PathDict → PathDict → List ResourcePath
unfolding keep has
paths_in_both a b = keep (λ path. has path b) (keys a)

-- `_synchronize_resources`. Sets have no order and the first two lists are shuffled: `order` is
-- any way to order a list.
unfoldable pub synchronize_resources :
    (order : List ResourcePath → List ResourcePath) → M (Unit {0})
unfolding acquired_at held_at release_unused reacquire replace_orphans paths_without paths_in_both
synchronize_resources order = do
  s ← get_state
  let acquired = acquired_at s.heap s.exporters []
  let held = held_at s.heap s.places ([], [])
  let deadline = s.clock + 5
  acquired' ←
      release_unused deadline (order (paths_without (held.1 ∷ held.0 ∷ []) acquired)) acquired
  acquired'' ← reacquire deadline (order (paths_without (acquired' ∷ []) held.1)) held.1 acquired'
  replace_orphans (order (paths_in_both held.1 acquired'')) held.1 acquired''

-- One round of `poll`: whatever the step raises is printed, and the next round comes.
unfoldable pub poll_step : M (Unit {0}) → Coordinator → Coordinator
poll_step step s = (step s).1
