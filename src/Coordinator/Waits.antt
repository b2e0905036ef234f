-- ===== src/Coordinator/Waits.antt =====
-- labgrid/remote/coordinator.py: the frame of the commands that are sent to exporters: acquiring
-- and releasing resources changes the places only where the handler says so.
use labgrid.Prelude.{
  ℕ, ◌+◌, List, [], ◌∷◌, ◌++◌, String, string_eq, Outcome, ok, raised, timeout_error,
  exporter_error, Outcome-cases, inl, inr,
}
use labgrid.Coordinator.State.{
  Coordinator, ResourceImport, SetAcquired, Answer, response, timed_out, Wait,
}
use labgrid.Coordinator.Publish.{publish_resource}
use labgrid.Coordinator.Events.{apply_events}
use labgrid.Coordinator.Acquire.{
  send, next_wait, wait, acquire_resource, tell_clients, caught, try_release, request_release,
  release_resource, release_each, acquire_each, answered,
}
use labgrid.Coordinator.Frame.{
  Frame, Keeping, Keeping-refl, Keeping-trans, >>=-Frame, pure-Frame, throw-Frame, frame_rules,
}
use labgrid.Coordinator.Streams.{
  deref-Frame, put_session-Frame, publish_resource_as-Frame, apply_events-Keeping,
}

send-Frame : (exporter : String) (cmd : SetAcquired) → Frame (send exporter cmd)
unfolding send
send-Frame exporter cmd = search (frame_rules, put_session-Frame)

answered-Frame : (a : Answer) → Frame (answered a)
answered-Frame (response success) = pure-Frame success
answered-Frame timed_out = throw-Frame timeout_error

next_wait-Keeping : (ws : List Wait) (s : Coordinator) → Keeping s (next_wait ws s).1
next_wait-Keeping [] s = Keeping-refl s
next_wait-Keeping (w ∷ ws) s =
    let t : Coordinator = record s { waits = ws; clock = s.clock + w.elapsed } in
    Keeping-trans s (apply_events w.events t) (next_wait (w ∷ ws) s).1
      (apply_events-Keeping w.events t)
      ((answered-Frame w.answer).keeping (apply_events w.events t))

wait-Frame : Frame wait
unfolding wait
wait-Frame = record { keeping = λ s. next_wait-Keeping s.waits s }

pub acquire_resource-Frame :
    (place_name : String) (ref : ℕ) → Frame (acquire_resource place_name ref)
unfolding acquire_resource
acquire_resource-Frame place_name ref =
    search (frame_rules, deref-Frame, send-Frame, wait-Frame) depth 12

tell_clients-Frame : (r : ResourceImport) → Frame (tell_clients r)
unfolding tell_clients publish_resource
tell_clients-Frame r = record {
  keeping = λ s. (publish_resource_as-Frame r.path r.data_).keeping s;
}

caught-Frame : (ref : ℕ) (done : Outcome (Unit {0})) → Frame (caught ref done)
unfolding caught
caught-Frame ref (ok _) = pure-Frame tt
caught-Frame ref (raised timeout_error) = search (frame_rules, deref-Frame, tell_clients-Frame)
caught-Frame ref (raised exporter_error) = search (frame_rules, deref-Frame, tell_clients-Frame)
caught-Frame ref (raised e) = throw-Frame e

request_release-Frame : (r : ResourceImport) → Frame (request_release r)
unfolding request_release
request_release-Frame r = search (frame_rules, send-Frame, wait-Frame) depth 10

try_release-Frame : (r : ResourceImport) (ref : ℕ) → Frame (try_release r ref)
unfolding try_release
try_release-Frame r ref = record {
  keeping = λ s.
      let (done, t) = request_release r s in
      Keeping-trans s t (caught ref done t).1 ((request_release-Frame r).keeping s)
        ((caught-Frame ref done).keeping t);
}

release_resource-Frame : (ref : ℕ) → Frame (release_resource ref)
unfolding release_resource
release_resource-Frame ref = search (frame_rules, deref-Frame, try_release-Frame)

pub release_each-Frame : (refs : List ℕ) → Frame (release_each refs)
unfolding release_each
release_each-Frame [] = pure-Frame tt
release_each-Frame (ref ∷ refs) =
    >>=-Frame (release_resource-Frame ref) λ _. release_each-Frame refs

pub acquire_each-Keeping :
    (refs : List ℕ) (place_name : String) (acquired : List ℕ) (s : Coordinator)
    → Keeping s (acquire_each place_name refs acquired s).1
unfolding acquire_each
acquire_each-Keeping [] place_name acquired s = Keeping-refl s
acquire_each-Keeping (ref ∷ refs) place_name acquired s =
    let t = (acquire_resource place_name ref s).1 in
    let first = (acquire_resource-Frame place_name ref).keeping s in
    elim (Outcome-cases (acquire_resource place_name ref s).0) [
      | inl (_, e) ↦
          rw (e, acquire_each)
            (Keeping-trans s t (acquire_each place_name refs (acquired ++ ref ∷ []) t).1 first
              (acquire_each-Keeping refs place_name (acquired ++ ref ∷ []) t))
      | inr (_, e) ↦ rw (e, acquire_each) first
    ]
