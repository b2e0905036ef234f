-- ===== src/Coordinator/Events.antt =====
-- labgrid/remote/coordinator.py: the messages of the streams, which take no lock, as events.
use labgrid.Prelude.{List, [], ◌∷◌, none, some}
use labgrid.Coordinator.State.{
  Coordinator, Event, resource_update, resource_gone, exporter_start, exporter_gone, client_sends,
  client_gone,
}
use labgrid.Coordinator.Sessions.{exporter_resource, exporter_leaves, exporter_startup}
use labgrid.Coordinator.Clients.{client_message, client_leaves}

-- An exception ends the stream that it occurs in and nothing else.
unfoldable pub apply_event : Event → Coordinator → Coordinator
unfolding exporter_resource exporter_leaves exporter_startup client_message client_leaves
apply_event (exporter_start peer name version) s = (exporter_startup peer name version s).1
apply_event (resource_update peer group name msg) s =
    (exporter_resource peer group name (some msg) s).1
apply_event (resource_gone peer group name) s = (exporter_resource peer group name none s).1
apply_event (exporter_gone peer) s = (exporter_leaves peer s).1
apply_event (client_sends peer msg) s = (client_message peer msg s).1
apply_event (client_gone peer) s = (client_leaves peer s).1

unfoldable pub apply_events : List Event → Coordinator → Coordinator
unfolding apply_event
apply_events [] s = s
apply_events (e ∷ es) s = apply_events es (apply_event e s)
