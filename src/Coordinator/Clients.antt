-- ===== src/Coordinator/Clients.antt =====
-- labgrid/remote/coordinator.py: `ClientSession` and the stream of a client.
pub mod Same
use labgrid.Prelude.{
  ℕ, Bool, List, [], ◌∷◌, ◌++◌, map, String, Option, none, some, string_eq, nat_eq, name_error,
  or_raise,
}
use labgrid.Prelude.Dict.{Dict, get, put, del, values}
use labgrid.Common.Entry
use labgrid.Common.Place
use labgrid.Common.Place.{Place, PlaceMsg}
use labgrid.Coordinator.State.{
  Update, ClientOutMessage, sync, updates, ClientSession, ExporterSession, Groups, Heap,
  ClientInMessage, sync_in, startup, subscribe, unknown, Coordinator, M, pure, lift, throw, modify,
  get_state, when, ◌>>=◌, ◌>>◌,
}
use labgrid.Coordinator.State
use labgrid.Coordinator.Publish.{path_of, put_nowait, batches}

unfoldable pub place_updates : Heap → List (Place ℕ) → M (List Update)
unfolding path_of Place.as_pb2
place_updates h [] = pure []
place_updates h (p ∷ ps) = do
  msg ← lift (Place.as_pb2 (path_of h) p)
  rest ← place_updates h ps
  pure (State.place msg ∷ rest)

unfoldable pub resource_updates : Heap → String → String → Dict String ℕ → M (List Update)
unfolding get Entry.as_pb2
resource_updates h exporter group [] = pure []
resource_updates h exporter group ((name, ref) ∷ rs) = do
  r ← lift (or_raise (get ref h.cells) name_error)
  msg ← lift (Entry.as_pb2 r.data_)
  rest ← resource_updates h exporter group rs
  pure (
      State.resource
        (record { exporter = exporter; group = group; cls = r.path.cls; name = some name }) msg
      ∷ rest)

unfoldable pub group_updates : Heap → String → Groups → M (List Update)
unfolding resource_updates
group_updates h exporter [] = pure []
group_updates h exporter ((group, rs) ∷ gs) = do
  here ← resource_updates h exporter group rs
  rest ← group_updates h exporter gs
  pure (here ++ rest)

unfoldable pub exporter_updates : Heap → List ExporterSession → M (List Update)
unfolding group_updates
exporter_updates h [] = pure []
exporter_updates h (e ∷ es) = do
  here ← group_updates h e.name e.groups
  rest ← exporter_updates h es
  pure (here ++ rest)

-- `self.queue.put_nowait(out_msg)` for one client, message by message.
unfoldable pub queue_all : List ClientOutMessage → ClientSession → ClientSession
unfolding put_nowait
queue_all [] c = c
queue_all (msg ∷ msgs) c = queue_all msgs (put_nowait msg c)

unfoldable pub enqueue : String → List ClientOutMessage → M (Unit {0})
unfolding queue_all get put
enqueue peer msgs = do
  s ← get_state
  c ← lift (or_raise (get peer s.clients) name_error)
  modify (λ t. record t { clients = put peer (queue_all msgs c) t.clients })

unfoldable pub subscribe_places : String → M (Unit {0})
unfolding place_updates enqueue
subscribe_places peer = do
  s ← get_state
  us ← place_updates s.heap (values s.places)
  enqueue peer (updates us ∷ [])

unfoldable pub subscribe_resources : String → M (Unit {0})
unfolding exporter_updates enqueue batches
subscribe_resources peer = do
  s ← get_state
  us ← exporter_updates s.heap (values s.exporters)
  enqueue peer (map updates (batches us))

-- The queue belongs to the stream: a second `startup` makes a new session on it.
abbrev queue_of : Option ClientSession → List ClientOutMessage
queue_of none = []
queue_of (some c) = c.queue

-- One message of the request loop. A `subscribe` before the `startup` names an unbound variable.
-- The queue of a peer that has not started is not modelled: a `sync` then has no effect on a
-- session.
unfoldable pub client_message : String → ClientInMessage → M (Unit {0})
unfolding subscribe_places subscribe_resources enqueue put get
client_message peer (sync_in id) = do
  s ← get_state
  elim (get peer s.clients) [ none ↦ pure tt | some _ ↦ enqueue peer (sync id ∷ []) ]
client_message peer (startup name version) = modify (λ t. record t {
  clients =
      put peer (record { name = name; version = version; queue = queue_of (get peer t.clients) })
        t.clients;
})
client_message peer (subscribe places resources) = do
  s ← get_state
  lift (or_raise (get peer s.clients) name_error)
  when places (subscribe_places peer)
  when resources (subscribe_resources peer)
client_message peer unknown = pure tt

-- The `finally` of `ClientStream`.
unfoldable pub client_leaves : String → M (Unit {0})
unfolding del
client_leaves peer = modify (λ t. record t { clients = del peer t.clients })
