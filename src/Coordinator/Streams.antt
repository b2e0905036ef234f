-- ===== src/Coordinator/Streams.antt =====
-- labgrid/remote/coordinator.py: the frame of the streams: no message of an exporter or a client,
-- and none of them that comes or leaves, changes a place, drops a resource object or moves one to
-- another path.
use labgrid.Prelude.{
  ℕ, ◌≡◌, refl, true, List, [], ◌∷◌, String, Option, none, some, string_eq, nat_eq, Option-cases,
  inl, inr,
}
use labgrid.Prelude.Dict.{Dict, get, keys}
use labgrid.Common.Match.{ResourcePath}
use labgrid.Common.Entry.{ResourceData, ResourceMsg}
use labgrid.Coordinator.State.{
  ClientOutMessage, ExporterSession, Groups, Heap, ResourceImport, Coordinator, Event,
  exporter_start, resource_update, resource_gone, exporter_gone, client_sends, client_gone,
}
use labgrid.Coordinator.Publish.{publish, publish_resource_as}
use labgrid.Coordinator.Sessions.{
  Action, add, del_, upd, or_new, deref, write_in, write_cell, new_cell, replace_data,
  create_resource, set_present, set_absent, set_resource, unset_names, unset_groups,
  exporter_leaves, leave_session, save_later, exporter_resource, put_session, await_default,
  start_session, exporter_startup,
}
use labgrid.Coordinator.Events.{apply_event, apply_events}
use labgrid.Coordinator.Clients.{client_message, client_leaves}
use labgrid.Coordinator.Clients.Same.{SameLab, client_message-SameLab, client_leaves-SameLab}
use labgrid.Coordinator.Frame.{
  Frame, Keeping, Keeping-refl, Keeping-trans, Grows, Grows-refl, set_cell-Grows, alloc-Grows,
  >>=-Frame, pure-Frame, modify-Frame, frame_rules, throw-Frame, get_state-Frame,
}

pub publish-Frame : (msg : ClientOutMessage) → Frame (publish msg)
unfolding publish
publish-Frame msg = modify-Frame _ Keeping-refl

pub publish_resource_as-Frame :
    (path : ResourcePath) (r : ResourceData) → Frame (publish_resource_as path r)
unfolding publish_resource_as
publish_resource_as-Frame path r = search (frame_rules, publish-Frame)

pub save_later-Frame : Frame save_later
unfolding save_later
save_later-Frame = modify-Frame _ Keeping-refl

pub deref-Frame : (ref : ℕ) → Frame (deref ref)
unfolding deref
deref-Frame ref = record { keeping = Keeping-refl }

new_cell-Frame : (r : ResourceImport) → Frame (new_cell r)
unfolding new_cell
new_cell-Frame r = record { keeping = λ s. (refl, alloc-Grows r s.heap) }

write_in-Grows :
    (ref : ℕ) (f : ResourceImport → ResourceImport) (h : Heap)
    → ((r : ResourceImport) → (f r).path ≡ r.path)
    → Grows h (write_in ref f h)
unfolding write_in
write_in-Grows ref f h same = elim (Option-cases (get ref h.cells)) [
  | inl e ↦ rw (e, write_in) (Grows-refl h)
  | inr (old, e) ↦ rw (e, write_in) (set_cell-Grows ref old (f old) h e (same old))
]

write_cell-Frame :
    (ref : ℕ) (f : ResourceImport → ResourceImport)
    → ((r : ResourceImport) → (f r).path ≡ r.path)
    → Frame (write_cell ref f)
unfolding write_cell
write_cell-Frame ref f same = modify-Frame _ (λ s. (refl, write_in-Grows ref f s.heap same))

replace-Frame :
    (ref : ℕ) (new : ResourceData) → Frame (write_cell ref (λ r. record r { data_ = new }))
replace-Frame ref new = write_cell-Frame ref _ (λ r. refl)

orphan-Frame : (ref : ℕ) → Frame (write_cell ref (λ r. record r { orphaned = true }))
orphan-Frame ref = write_cell-Frame ref _ (λ r. refl)

ruleset session_rules = (
  frame_rules, publish-Frame, publish_resource_as-Frame, save_later-Frame, deref-Frame,
  new_cell-Frame, replace-Frame, orphan-Frame,
)

replace_data-Frame :
    (e : ExporterSession) (group name : String) (g : Dict String ℕ) (new : ResourceData) (ref : ℕ)
    → Frame (replace_data e group name g new ref)
unfolding replace_data
replace_data-Frame e group name g new ref = search session_rules depth 12

create_resource-Frame :
    (e : ExporterSession) (group name cls : String) (g : Dict String ℕ) (new : ResourceData)
    → Frame (create_resource e group name cls g new)
unfolding create_resource
create_resource-Frame e group name cls g new = search session_rules depth 12

set_absent-Frame :
    (e : ExporterSession) (group name : String) (g : Dict String ℕ)
    → Frame (set_absent e group name g)
unfolding set_absent
set_absent-Frame e group name g = search session_rules depth 14

pub set_resource-Frame :
    (e : ExporterSession) (group name : String) (msg : Option ResourceMsg)
    → Frame (set_resource e group name msg)
unfolding set_resource
set_resource-Frame e group name none = set_absent-Frame e group name _
set_resource-Frame e group name (some msg) =
    elim (Option-cases (get name (or_new (get group e.groups)))) [
      | inl absent ↦ rw (absent, set_present) (create_resource-Frame e group name msg.cls _ _)
      | inr (ref, present) ↦ rw (present, set_present) (replace_data-Frame e group name _ _ ref)
    ]

unset_names-Frame :
    (names : List String) (e : ExporterSession) (group : String) → Frame (unset_names e group names)
unfolding unset_names
unset_names-Frame [] e group = pure-Frame e
unset_names-Frame (name ∷ names) e group =
    >>=-Frame (set_resource-Frame e group name none) λ r. unset_names-Frame names r.0 group

pub unset_groups-Frame : (groups : Groups) (e : ExporterSession) → Frame (unset_groups e groups)
unfolding unset_groups
unset_groups-Frame [] e = pure-Frame e
unset_groups-Frame ((group, g) ∷ groups) e =
    >>=-Frame (unset_names-Frame (keys g) e group) λ e'. unset_groups-Frame groups e'

pub put_session-Frame : (peer : String) (e : ExporterSession) → Frame (put_session peer e)
put_session-Frame peer e = modify-Frame _ Keeping-refl

await_default-Frame : (a : Action) (group : String) → Frame (await_default a group)
await_default-Frame add group = modify-Frame _ Keeping-refl
await_default-Frame del_ group = pure-Frame tt
await_default-Frame upd group = pure-Frame tt

pub exporter_resource-Frame :
    (peer group name : String) (msg : Option ResourceMsg)
    → Frame (exporter_resource peer group name msg)
unfolding exporter_resource
exporter_resource-Frame peer group name msg =
    search (session_rules, set_resource-Frame, put_session-Frame, await_default-Frame) depth 14

leave_session-Frame :
    (peer : String) (found : Option ExporterSession) → Frame (leave_session peer found)
unfolding leave_session
leave_session-Frame peer none = pure-Frame tt
leave_session-Frame peer (some session) =
    >>=-Frame (modify-Frame _ Keeping-refl) λ _. search (session_rules, unset_groups-Frame)

exporter_leaves-Frame : (peer : String) → Frame (exporter_leaves peer)
unfolding exporter_leaves
exporter_leaves-Frame peer = search (session_rules, leave_session-Frame)

start_session-Frame :
    (peer name version : String) (found : Option (String × ExporterSession))
    → Frame (start_session peer name version found)
start_session-Frame peer name version (some _) = throw-Frame _
start_session-Frame peer name version none = put_session-Frame peer _

exporter_startup-Frame : (peer name version : String) → Frame (exporter_startup peer name version)
unfolding exporter_startup
exporter_startup-Frame peer name version =
    >>=-Frame get_state-Frame λ s. start_session-Frame peer name version _

SameLab-Keeping : (s t : Coordinator) → SameLab s t → Keeping s t
SameLab-Keeping s t same = (same.same_places, rw same.same_heap (Grows-refl s.heap))

pub apply_event-Keeping : (e : Event) (s : Coordinator) → Keeping s (apply_event e s)
unfolding apply_event
apply_event-Keeping (resource_update peer group name msg) s =
    (exporter_resource-Frame peer group name (some msg)).keeping s
apply_event-Keeping (resource_gone peer group name) s =
    (exporter_resource-Frame peer group name none).keeping s
apply_event-Keeping (exporter_gone peer) s = (exporter_leaves-Frame peer).keeping s
apply_event-Keeping (exporter_start peer name version) s =
    (exporter_startup-Frame peer name version).keeping s
apply_event-Keeping (client_sends peer msg) s =
    SameLab-Keeping s (client_message peer msg s).1 (client_message-SameLab peer msg s)
apply_event-Keeping (client_gone peer) s =
    SameLab-Keeping s (client_leaves peer s).1 (client_leaves-SameLab peer s)

-- Whatever the exporters send while a handler awaits one of them, no place changes, and every
-- resource object is still there under its path.
pub apply_events-Keeping : (es : List Event) (s : Coordinator) → Keeping s (apply_events es s)
unfolding apply_events
apply_events-Keeping [] s = Keeping-refl s
apply_events-Keeping (e ∷ es) s =
    Keeping-trans s (apply_event e s) (apply_events es (apply_event e s)) (apply_event-Keeping e s)
      (apply_events-Keeping es (apply_event e s))
