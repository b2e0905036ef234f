-- ===== src/Coordinator/Orderly/Commands.antt =====
-- labgrid/remote/coordinator.py: acquiring, releasing and synchronizing resources keeps the
-- sessions of the exporters in order.
use labgrid.Prelude.{
  ℕ, refl, false, true, Bool, List, [], ◌∷◌, ◌++◌, String, Option, none, some, string_eq, nat_eq,
  Outcome, ok, raised, timeout_error, exporter_error, Outcome-cases, Option-cases, inl, inr,
}
use labgrid.Prelude.Dict.{get}
use labgrid.Common.Match.{ResourcePath}
use labgrid.Common.Entry.{ResourceData}
use labgrid.Common.Place.{Place}
use labgrid.Coordinator.State.{
  ClientOutMessage, Coordinator, ResourceImport, Answer, response, timed_out, Wait, M,
}
use labgrid.Coordinator.Publish.{publish, publish_resource_as, publish_resource}
use labgrid.Coordinator.Sessions.{deref}
use labgrid.Coordinator.Acquire.{
  next_wait, wait, answered, acquire_resource, tell_clients, caught, request_release, try_release,
  release_resource, release_each, update_place, release_resources, all_free, acquire_each,
  finish_acquire, acquire_resources,
}
use labgrid.Coordinator.Synchronize.{
  PathDict, attempt, release_claimed, release_or_skip, release_unused, acquire_or_skip, reacquire,
  acquired_or_break, released_or_break, replace_held, replace_orphan, replace_orphans,
  synchronize_resources, find_again, should_release,
}
use labgrid.Coordinator.Stable.{
  Stable, stable_rules, modify-Stable, pure-Stable, throw-Stable, >>=-Stable, lift-Stable,
  get_state-Stable, unless-Stable,
}
use labgrid.Coordinator.Orderly.{IsOrderly}
use labgrid.Coordinator.Orderly.Streams.{same-IsOrderly, apply_events-Orderly, send-Orderly}

pub publish-Orderly : (msg : ClientOutMessage) → Stable IsOrderly (publish msg)
unfolding publish
publish-Orderly msg = modify-Stable _ (λ s o. same-IsOrderly s _ refl refl o)

publish_resource_as-Orderly :
    (path : ResourcePath) (r : ResourceData) → Stable IsOrderly (publish_resource_as path r)
unfolding publish_resource_as
publish_resource_as-Orderly path r = search (stable_rules, publish-Orderly)

deref-Orderly : (ref : ℕ) → Stable IsOrderly (deref ref)
unfolding deref
deref-Orderly ref = record { keeps = λ s o. o }

answered-Orderly : (a : Answer) → Stable IsOrderly (answered a)
answered-Orderly (response success) = pure-Stable success
answered-Orderly timed_out = throw-Stable timeout_error

next_wait-IsOrderly :
    (ws : List Wait) (s : Coordinator) → IsOrderly s → IsOrderly (next_wait ws s).1
next_wait-IsOrderly [] s o = same-IsOrderly s _ refl refl o
next_wait-IsOrderly (w ∷ ws) s o =
    (answered-Orderly w.answer).keeps _
      (apply_events-Orderly w.events _ (same-IsOrderly s _ refl refl o))

wait-Orderly : Stable IsOrderly wait
unfolding wait
wait-Orderly = record { keeps = λ s. next_wait-IsOrderly s.waits s }

ruleset command_rules = (stable_rules, deref-Orderly, send-Orderly, wait-Orderly)

acquire_resource-Orderly :
    (place_name : String) (ref : ℕ) → Stable IsOrderly (acquire_resource place_name ref)
unfolding acquire_resource
acquire_resource-Orderly place_name ref = search command_rules depth 12

tell_clients-Orderly : (r : ResourceImport) → Stable IsOrderly (tell_clients r)
unfolding tell_clients publish_resource
tell_clients-Orderly r = record {
  keeps = λ s. (publish_resource_as-Orderly r.path r.data_).keeps s;
}

caught-Orderly : (ref : ℕ) (done : Outcome (Unit {0})) → Stable IsOrderly (caught ref done)
unfolding caught
caught-Orderly ref (ok _) = pure-Stable tt
caught-Orderly ref (raised timeout_error) = search (command_rules, tell_clients-Orderly)
caught-Orderly ref (raised exporter_error) = search (command_rules, tell_clients-Orderly)
caught-Orderly ref (raised e) = throw-Stable e

request_release-Orderly : (r : ResourceImport) → Stable IsOrderly (request_release r)
unfolding request_release
request_release-Orderly r = search command_rules depth 10

try_release-Orderly : (r : ResourceImport) (ref : ℕ) → Stable IsOrderly (try_release r ref)
unfolding try_release
try_release-Orderly r ref = record {
  keeps = λ s o.
      (caught-Orderly ref (request_release r s).0).keeps _ ((request_release-Orderly r).keeps s o);
}

release_resource-Orderly : (ref : ℕ) → Stable IsOrderly (release_resource ref)
unfolding release_resource
release_resource-Orderly ref = search (command_rules, try_release-Orderly)

release_each-Orderly : (refs : List ℕ) → Stable IsOrderly (release_each refs)
unfolding release_each
release_each-Orderly [] = pure-Stable tt
release_each-Orderly (ref ∷ refs) =
    >>=-Stable (release_resource-Orderly ref) λ _. release_each-Orderly refs

pub update_place-Orderly :
    (name : String) (f : Place ℕ → Place ℕ) → Stable IsOrderly (update_place name f)
unfolding update_place
update_place-Orderly name f = record {
  keeps = λ s o. elim (Option-cases (get name s.places)) [
    | inl e ↦ rw (e, update_place) o
    | inr (p, e) ↦ rw (e, update_place) (same-IsOrderly s _ refl refl o)
  ];
}

pub release_resources-Orderly :
    (name : String) (refs : List ℕ) → Stable IsOrderly (release_resources name refs)
unfolding release_resources
release_resources-Orderly name refs =
    search (stable_rules, update_place-Orderly, release_each-Orderly)

acquire_each-Orderly :
    (refs : List ℕ) (place_name : String) (acquired : List ℕ)
    → Stable IsOrderly (acquire_each place_name refs acquired)
unfolding acquire_each
acquire_each-Orderly refs place_name acquired = record { keeps = λ s o. from refs acquired s o }
  where
    from :
        (refs acquired : List ℕ) (s : Coordinator)
        → IsOrderly s
        → IsOrderly (acquire_each place_name refs acquired s).1
    from [] acquired s o = o
    from (ref ∷ refs) acquired s o =
        let o' = (acquire_resource-Orderly place_name ref).keeps s o in
        elim (Outcome-cases (acquire_resource place_name ref s).0) [
          | inl (_, e) ↦ rw (e, acquire_each) (from refs (acquired ++ ref ∷ []) _ o')
          | inr (_, e) ↦ rw (e, acquire_each) o'
        ]

finish_acquire-Orderly :
    (name : String) (refs : List ℕ) (r : List ℕ × Bool)
    → Stable IsOrderly (finish_acquire name refs r)
unfolding finish_acquire
finish_acquire-Orderly name refs (acquired, false) =
    search (stable_rules, release_resources-Orderly)
finish_acquire-Orderly name refs (acquired, true) = search (stable_rules, update_place-Orderly)

all_free-Orderly : (refs : List ℕ) → Stable IsOrderly (all_free refs)
unfolding all_free
all_free-Orderly refs = record { keeps = λ s o. o }

pub acquire_resources-Orderly :
    (name : String) (refs : List ℕ) → Stable IsOrderly (acquire_resources name refs)
unfolding acquire_resources
acquire_resources-Orderly name refs =
    search (stable_rules, all_free-Orderly, acquire_each-Orderly, finish_acquire-Orderly)

-- The loops of `_synchronize_resources`.
attempt-Orderly {ℓ} : {A : Type ℓ} {m : M A} → Stable IsOrderly m → Stable IsOrderly (attempt m)
unfolding attempt
attempt-Orderly h = record { keeps = h.keeps }

release_claimed-Orderly :
    (claim : Option String) (ref : ℕ) → Stable IsOrderly (release_claimed claim ref)
unfolding release_claimed
release_claimed-Orderly none ref = throw-Stable _
release_claimed-Orderly (some name) ref = release_resources-Orderly name (ref ∷ [])

release_or_skip-Orderly :
    (d : PathDict) (go : PathDict → M PathDict) (path : ResourcePath) (ref : ℕ)
    (verdict : Option (Option String))
    → ((d' : PathDict) → Stable IsOrderly (go d'))
    → Stable IsOrderly (release_or_skip d go path ref verdict)
release_or_skip-Orderly d go path ref none h = h d
release_or_skip-Orderly d go path ref (some claim) h =
    >>=-Stable (attempt-Orderly (release_claimed-Orderly claim ref)) λ done. go_on done
  where
    go_on : (done : Outcome (Unit {0})) → Stable IsOrderly (released_or_break d go path done)
    go_on (ok _) = h _
    go_on (raised _) = pure-Stable d

release_unused-Orderly :
    (deadline : ℕ) (paths : List ResourcePath) (d : PathDict)
    → Stable IsOrderly (release_unused deadline paths d)
unfolding release_unused
release_unused-Orderly deadline [] d = pure-Stable d
release_unused-Orderly deadline (path ∷ paths) d =
    let rest = release_unused-Orderly deadline paths in
    >>=-Stable get_state-Stable λ s. unless-Stable _ _ _ (rest d) (
      >>=-Stable (lift-Stable _) λ ref. >>=-Stable (deref-Orderly ref) λ r.
        release_or_skip-Orderly d (release_unused deadline paths) path ref (should_release s r)
          rest)

acquire_or_skip-Orderly :
    (d : PathDict) (go : PathDict → M PathDict) (name : String) (found : Option ℕ)
    → ((d' : PathDict) → Stable IsOrderly (go d'))
    → Stable IsOrderly (acquire_or_skip d go name found)
acquire_or_skip-Orderly d go name none h = h d
acquire_or_skip-Orderly d go name (some ref) h = >>=-Stable (deref-Orderly ref) λ r.
    unless-Stable _ _ _ (h d)
      (>>=-Stable (attempt-Orderly (acquire_resource-Orderly name ref)) λ done. go_on r.path done)
  where
    go_on :
        (path : ResourcePath) (done : Outcome (Unit {0}))
        → Stable IsOrderly (acquired_or_break d go path ref done)
    go_on path (ok _) = h _
    go_on path (raised _) = pure-Stable d

reacquire-Orderly :
    (deadline : ℕ) (paths : List ResourcePath) (orphaned d : PathDict)
    → Stable IsOrderly (reacquire deadline paths orphaned d)
unfolding reacquire
reacquire-Orderly deadline [] orphaned d = pure-Stable d
reacquire-Orderly deadline (path ∷ paths) orphaned d =
    let rest = reacquire-Orderly deadline paths orphaned in
    >>=-Stable get_state-Stable λ s. unless-Stable _ _ _ (rest d) (
      >>=-Stable (lift-Stable _) λ ref. >>=-Stable (deref-Orderly ref) λ r.
        unless-Stable _ _ _ (rest d) (
          >>=-Stable (lift-Stable _) λ name.
            acquire_or_skip-Orderly d (reacquire deadline paths orphaned) name (find_again s r.path)
              rest))

replace_held-Orderly : (name : String) (old new : ℕ) → Stable IsOrderly (replace_held name old new)
unfolding replace_held
replace_held-Orderly name old new = search (stable_rules, update_place-Orderly)

replace_orphan-Orderly :
    (orphaned acquired : PathDict) (path : ResourcePath)
    → Stable IsOrderly (replace_orphan orphaned acquired path)
unfolding replace_orphan
replace_orphan-Orderly orphaned acquired path =
    search (stable_rules, deref-Orderly, replace_held-Orderly) depth 20

replace_orphans-Orderly :
    (paths : List ResourcePath) (orphaned acquired : PathDict)
    → Stable IsOrderly (replace_orphans paths orphaned acquired)
unfolding replace_orphans
replace_orphans-Orderly [] orphaned acquired = pure-Stable tt
replace_orphans-Orderly (path ∷ paths) orphaned acquired =
    >>=-Stable (replace_orphan-Orderly orphaned acquired path)
      λ _. replace_orphans-Orderly paths orphaned acquired

pub synchronize_resources-Orderly :
    (order : List ResourcePath → List ResourcePath) → Stable IsOrderly (synchronize_resources order)
unfolding synchronize_resources
synchronize_resources-Orderly order = >>=-Stable get_state-Stable λ s.
    >>=-Stable (release_unused-Orderly _ _ _)
      λ d. >>=-Stable (reacquire-Orderly _ _ _ d) λ d'. replace_orphans-Orderly _ _ d'
