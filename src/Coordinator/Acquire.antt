-- ===== src/Coordinator/Acquire.antt =====
-- labgrid/remote/coordinator.py: acquiring and releasing resources and places. A handler holds the
-- lock while it awaits an exporter; what happens in the meantime comes from `waits`.
use labgrid.Prelude.{
  ℕ, ◌+◌, Bool, true, false, not, ◌&&◌, List, [], ◌∷◌, ◌++◌, String, Option, none, some,
  if◌then◌else◌, any, remove, string_eq, nat_eq, ◌==◌, Outcome, ok, raised, or_raise, key_error,
  attribute_error, timeout_error, exporter_error, failed_precondition, permission_denied,
}
use labgrid.Prelude.Sort.{sort, str_le}
use labgrid.Prelude.Dict.{Dict, get, put, values}
use labgrid.Common.Match.{ResourcePath, opt_eq}
use labgrid.Common.Place.{Place, hasmatch}
use labgrid.Coordinator.State.{
  Coordinator, ExporterSession, Groups, Heap, ResourceImport, SetAcquired, Answer, response,
  timed_out, Wait, M, pure, throw, lift, get_state, unless, context_abort, ◌>>=◌, ◌>>◌,
}
use labgrid.Coordinator.Publish.{path_of, publish_resource}
use labgrid.Coordinator.Sessions.{deref, put_session, get_exporter_by_name, truthy_acquired}
use labgrid.Coordinator.Events.{apply_events}
use labgrid.Coordinator.Places.{store, find_place, find_user}
use labgrid.Coordinator.Reservations.{schedule_reservations}

-- `self.get_exporter_by_name(name).queue.put_nowait(cmd)`
unfoldable pub send : String → SetAcquired → M (Unit {0})
unfolding get_exporter_by_name put
send exporter cmd = do
  s ← get_state
  found ← lift (or_raise (get_exporter_by_name exporter s.exporters) attribute_error)
  let e = record (found.1) { queue = (found.1).queue ++ cmd ∷ [] }
  put_session found.0 e

-- `await cmd.wait()`: the streams go on for a while, then the response is there, or ten seconds
-- have passed.
abbrev pub answered : Answer → M Bool
answered (response success) = pure success
answered timed_out = throw timeout_error

abbrev pub next_wait : List Wait → M Bool
next_wait [] s = (raised timeout_error, record s { clock = s.clock + 10 })
next_wait (w ∷ ws) s =
    answered w.answer (apply_events w.events (record s { waits = ws; clock = s.clock + w.elapsed }))

unfoldable pub wait : M Bool
unfolding apply_events
wait s = next_wait s.waits s

unfoldable pub or_noname : Option String → String
or_noname none = ""
or_noname (some n) = n

unfoldable pub request_for : ResourceImport → Option String → SetAcquired
unfolding or_noname
request_for r place_name = record {
  group_name = r.path.group;
  resource_name = or_noname r.path.name;
  place_name = place_name;
}

-- `_acquire_resource`; the warning at its end has no effect.
unfoldable pub acquire_resource : (place_name : String) → ℕ → M (Unit {0})
unfolding deref send wait request_for
acquire_resource place_name ref = do
  r ← deref ref
  send r.path.exporter (request_for r (some place_name))
  success ← wait
  unless success (throw exporter_error) (pure tt)

-- One resource of `_release_resources`, after it has left the place. Timeouts and refusals are
-- caught, and so is what goes wrong while the clients are told; a missing exporter is not.
unfoldable pub tell_clients : ResourceImport → M (Unit {0})
unfolding publish_resource
tell_clients r s = (ok tt, (publish_resource r s).1)

unfoldable pub caught : ℕ → Outcome (Unit {0}) → M (Unit {0})
unfolding deref tell_clients
caught ref (ok _) = pure tt
caught ref (raised timeout_error) = deref ref >>= λ r. tell_clients r
caught ref (raised exporter_error) = deref ref >>= λ r. tell_clients r
caught ref (raised e) = throw e

unfoldable pub request_release : ResourceImport → M (Unit {0})
unfolding send wait request_for
request_release r = do
  send r.path.exporter (request_for r none)
  success ← wait
  unless success (throw exporter_error) (pure tt)

-- `try: … except (ExporterError, TimeoutError): …`
unfoldable pub try_release : ResourceImport → ℕ → M (Unit {0})
unfolding request_release caught
try_release r ref s = let (done, s') = request_release r s in caught ref done s'

unfoldable pub release_resource : ℕ → M (Unit {0})
unfolding deref try_release
release_resource ref = do r ← deref ref; unless (not r.orphaned) (pure tt) (try_release r ref)

unfoldable pub release_each : List ℕ → M (Unit {0})
unfolding release_resource
release_each [] = pure tt
release_each (ref ∷ refs) = release_resource ref >>= λ _. release_each refs

-- `place.acquired_resources.remove(resource)` for each, absent ones passed over.
unfoldable pub remove_all : List ℕ → List ℕ → List ℕ
unfolding remove
remove_all [] held = held
remove_all (ref ∷ refs) held = remove_all refs (remove ref held)

unfoldable pub update_place : String → (Place ℕ → Place ℕ) → M (Unit {0})
unfolding get put
update_place name f s = elim (get name s.places) [
  | none ↦ (ok tt, s)
  | some p ↦ (ok tt, record s { places = put name (f p) s.places })
]

-- `_release_resources`
unfoldable pub release_resources : (place_name : String) → List ℕ → M (Unit {0})
unfolding remove_all release_each update_place
release_resources place_name refs = do
  update_place place_name
      (λ p. record p { acquired_resources = remove_all refs p.acquired_resources })
  release_each refs

-- `resource.path == oldres.path`
unfoldable pub same_path : ResourcePath → ResourcePath → Bool
same_path p q =
    p.exporter == q.exporter && p.group == q.group && p.cls == q.cls && opt_eq p.name q.name

unfoldable pub held_by_place : Heap → ResourcePath → Place ℕ → Bool
unfolding any path_of same_path
held_by_place h path p = any (λ old. same_path path (path_of h old)) p.acquired_resources

-- All resources need to be free, and no place may hold one of the same path.
unfoldable pub is_free_for : Coordinator → ResourceImport → Bool
unfolding any held_by_place
is_free_for s r =
    not (truthy_acquired r.data_.acquired)
    && not (any (held_by_place s.heap r.path) (values s.places))

unfoldable pub free_in : Coordinator → List ℕ → Outcome Bool
unfolding is_free_for get
free_in s [] = ok true
free_in s (ref ∷ refs) = elim (get ref s.heap.cells) [
  | none ↦ raised attribute_error
  | some r ↦ if is_free_for s r then free_in s refs else ok false
]

unfoldable pub all_free : List ℕ → M Bool
unfolding free_in
all_free refs s = (free_in s refs, s)

-- The `try` of `_acquire_resources`: what was acquired, and whether all of it was.
unfoldable pub acquire_each : (place_name : String) → List ℕ → List ℕ → M (List ℕ × Bool)
unfolding acquire_resource
acquire_each place_name [] acquired s = (ok (acquired, true), s)
acquire_each place_name (ref ∷ refs) acquired s =
    let (done, s') = acquire_resource place_name ref s in
    elim done [
      | ok _ ↦ acquire_each place_name refs (acquired ++ ref ∷ []) s'
      | raised e ↦ (ok (acquired, false), s')
    ]

unfoldable pub finish_acquire : (place_name : String) → List ℕ → List ℕ × Bool → M Bool
unfolding release_resources update_place
finish_acquire place_name refs (acquired, false) = do
  release_resources place_name acquired
  pure false
finish_acquire place_name refs (acquired, true) = do
  update_place place_name (λ p. record p { acquired_resources = p.acquired_resources ++ refs })
  pure true

-- `_acquire_resources`
unfoldable pub acquire_resources : (place_name : String) → List ℕ → M Bool
unfolding all_free acquire_each finish_acquire
acquire_resources place_name refs = do
  free ← all_free refs
  unless free (pure false) (acquire_each place_name refs [] >>= finish_acquire place_name refs)

-- The resources that match the place, in the order of peers, groups and names.
unfoldable pub key_le {ℓ} : {V : Type ℓ} → String × V → String × V → Bool
unfolding str_le
key_le a b = str_le a.0 b.0

unfoldable pub matching : Heap → Place ℕ → Dict String ℕ → List ℕ
unfolding hasmatch path_of
matching h p [] = []
matching h p ((name, ref) ∷ rs) =
    let rest = matching h p rs in if hasmatch p (path_of h ref) then ref ∷ rest else rest

unfoldable pub matching_groups : Heap → Place ℕ → Groups → List ℕ
unfolding matching sort key_le
matching_groups h p [] = []
matching_groups h p ((group, rs) ∷ gs) = matching h p (sort key_le rs) ++ matching_groups h p gs

unfoldable pub matching_exporters : Heap → Place ℕ → Dict String ExporterSession → List ℕ
unfolding matching_groups sort key_le
matching_exporters h p [] = []
matching_exporters h p ((peer, e) ∷ es) =
    matching_groups h p (sort key_le e.groups) ++ matching_exporters h p es

unfoldable pub matching_resources : Coordinator → Place ℕ → List ℕ
unfolding matching_exporters sort key_le
matching_resources s p = matching_exporters s.heap p (sort key_le s.exporters)

-- `if place.reservation: …`, for another user an abort.
unfoldable pub check_reservation : Place ℕ → (username : String) → M (Unit {0})
unfolding get
check_reservation p username = elim p.reservation [
  | none ↦ pure tt
  | some token ↦ unless (truthy_acquired (some token)) (pure tt) (do
    s ← get_state
    res ← lift (or_raise (get token s.reservations) key_error)
    unless (res.owner == username) (context_abort permission_denied) (pure tt))
]

unfoldable pub set_acquired : String → Option String → M (Unit {0})
unfolding update_place
set_acquired name user = update_place name (λ p. record p { acquired = user })

-- `AcquirePlace`
unfoldable pub acquired_or_reverted : String → Bool → M (Unit {0})
unfolding set_acquired store schedule_reservations find_place
acquired_or_reverted name false = do set_acquired name none; context_abort failed_precondition
acquired_or_reverted name true = do p ← find_place name; store name p; schedule_reservations

unfoldable pub acquire_place : (peer name : String) → M (Unit {0})
unfolding check_reservation set_acquired matching_resources acquire_resources acquired_or_reverted
    find_user find_place
acquire_place peer name = do
  username ← find_user peer
  p ← find_place name
  unless (not (truthy_acquired p.acquired)) (context_abort failed_precondition) (do
    check_reservation p username
    set_acquired name (some username)
    s ← get_state
    done ← acquire_resources name (matching_resources s p)
    acquired_or_reverted name done)

-- `ReleasePlace`. With `fromuser` set, a place that this user does not hold is left alone.
unfoldable pub release_held : String → Place ℕ → M (Unit {0})
unfolding release_resources store schedule_reservations find_place
release_held name p = do
  release_resources name p.acquired_resources
  p' ← find_place name
  store name (record p' { acquired = none; allowed = [] })
  schedule_reservations

unfoldable pub release_place : (name : String) → Option String → M (Unit {0})
unfolding release_held find_place
release_place name fromuser = do
  p ← find_place name
  unless (truthy_acquired p.acquired)
      (if truthy_acquired fromuser then pure tt else context_abort failed_precondition)
      (if truthy_acquired fromuser && not (opt_eq p.acquired fromuser)
        then pure tt
        else release_held name p)
