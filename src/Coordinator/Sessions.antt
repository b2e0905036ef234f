-- ===== src/Coordinator/Sessions.antt =====
-- labgrid/remote/coordinator.py: `ExporterSession`, `ClientSession`, and the messages that the
-- streams of exporters and clients handle.
use labgrid.Prelude.{
  ℕ, suc, Bool, true, false, List, [], ◌∷◌, ◌++◌, String, Option, none, some, if◌then◌else◌, ◌==◌,
  string_eq, nat_eq, ok, attribute_error, exporter_error, name_error, or_raise,
}
use labgrid.Prelude.Text.{str_empty, isdigit}
use labgrid.Prelude.Dict.{Dict, get, has, put, del, keys}
use labgrid.Common.Match.{ResourcePath, ResourceMatch}
use labgrid.Common.Entry.{ResourceData, ResourceMsg, data_from_pb2}
use labgrid.Common.Place.{Place, new_place}
use labgrid.Coordinator.State.{
  Update, ClientOutMessage, sync, updates, ClientSession, ExporterSession, Groups, Heap,
  ResourceImport, Coordinator, M, pure, lift, throw, modify, get_state, when, unless, ◌>>=◌, ◌>>◌,
}
use labgrid.Coordinator.State
use labgrid.Coordinator.Publish.{publish, publish_resource_as}

pub data Action : Type 0 where
  add del_ upd : Action

abbrev pub or_new {ℓ} : {V : Type ℓ} → Option (Dict String V) → Dict String V
or_new none = []
or_new (some g) = g

-- `bool(resource.acquired)`
abbrev pub truthy_acquired : Option String → Bool
truthy_acquired none = false
truthy_acquired (some s) = if str_empty s then false else true

unfoldable pub set_cell : ℕ → ResourceImport → Heap → Heap
unfolding put
set_cell ref r h = record h { cells = put ref r h.cells }

-- A new object, at the next free number.
unfoldable pub alloc : ResourceImport → Heap → Heap
unfolding put
alloc r h = record { cells = put h.next r h.cells; next = suc h.next }

-- Reading and writing an object, and making one.
unfoldable pub deref : ℕ → M ResourceImport
unfolding get
deref ref s = (or_raise (get ref s.heap.cells) attribute_error, s)

unfoldable pub write_in : ℕ → (ResourceImport → ResourceImport) → Heap → Heap
unfolding get set_cell
write_in ref f h = elim (get ref h.cells) [ none ↦ h | some old ↦ set_cell ref (f old) h ]

unfoldable pub write_cell : ℕ → (ResourceImport → ResourceImport) → M (Unit {0})
unfolding write_in
write_cell ref f = modify (λ s. record s { heap = write_in ref f s.heap })

unfoldable pub new_cell : ResourceImport → M ℕ
unfolding alloc
new_cell r s = (ok s.heap.next, record s { heap = alloc r s.heap })

-- `set_resource` with a message, for the group `g` as it is: an object that is there keeps its
-- identity and gets the new data.
unfoldable pub replace_data :
    ExporterSession
    → (group name : String) → Dict String ℕ
    → ResourceData
    → ℕ
    → M (ExporterSession × Action)
unfolding deref write_cell put publish_resource_as
replace_data e group name g new ref = do
  old ← deref ref
  write_cell ref (λ r. record r { data_ = new })
  publish_resource_as
      (record { exporter = e.name; group = group; cls = old.path.cls; name = some name }) new
  pure (record e { groups = put group g e.groups }, upd)

unfoldable pub create_resource :
    ExporterSession
    → (group name cls : String) → Dict String ℕ
    → ResourceData
    → M (ExporterSession × Action)
unfolding new_cell put publish_resource_as
create_resource e group name cls g new = do
  let path : ResourcePath = record { exporter = e.name; group = group; cls = cls; name = some name }
  ref ← new_cell (record { data_ = new; path = path; orphaned = false })
  publish_resource_as path new
  pure (record e { groups = put group (put name ref g) e.groups }, add)

unfoldable pub set_present :
    ExporterSession
    → (group name : String) → Dict String ℕ
    → ResourceMsg
    → M (ExporterSession × Action)
unfolding replace_data create_resource get data_from_pb2
set_present e group name g msg = elim (get name g) [
  | some ref ↦ replace_data e group name g (data_from_pb2 msg) ref
  | none ↦ create_resource e group name msg.cls g (data_from_pb2 msg)
]

-- `set_resource` with `None`: the resource goes away, and a place that holds it keeps an orphan.
unfoldable pub set_absent :
    ExporterSession → (group name : String) → Dict String ℕ → M (ExporterSession × Action)
unfolding deref write_cell get put del publish
set_absent e group name g = do
  ref ← lift (or_raise (get name g) attribute_error)
  old ← deref ref
  when (truthy_acquired old.data_.acquired) (write_cell ref (λ r. record r { orphaned = true }))
  publish (updates (State.del_resource e.name group name ∷ []))
  pure (record e { groups = put group (del name g) e.groups }, del_)

-- `set_resource`, for a group that may be new.
unfoldable pub set_resource :
    ExporterSession → (group name : String) → Option ResourceMsg → M (ExporterSession × Action)
unfolding set_present set_absent get
set_resource e group name (some msg) = set_present e group name (or_new (get group e.groups)) msg
set_resource e group name none = set_absent e group name (or_new (get group e.groups))

-- `for resourcename in group.copy(): session.set_resource(groupname, resourcename, None)`
unfoldable pub unset_names : ExporterSession → String → List String → M ExporterSession
unfolding set_resource
unset_names e group [] = pure e
unset_names e group (name ∷ names) =
    set_resource e group name none >>= λ r. unset_names r.0 group names

unfoldable pub unset_groups : ExporterSession → Groups → M ExporterSession
unfolding unset_names
unset_groups e [] = pure e
unset_groups e ((group, g) ∷ groups) = unset_names e group (keys g) >>= λ e'. unset_groups e' groups

-- The `finally` of `ExporterStream`. A peer that never started is only logged.
unfoldable pub leave_session : String → Option ExporterSession → M (Unit {0})
unfolding unset_groups del
leave_session peer none = pure tt
leave_session peer (some session) = do
  modify (λ t. record t { exporters = del peer t.exporters })
  unset_groups session session.groups
  pure tt

unfoldable pub exporter_leaves : String → M (Unit {0})
unfolding leave_session get
exporter_leaves peer = do s ← get_state; leave_session peer (get peer s.exporters)

-- `save_later`
unfoldable pub save_later : M (Unit {0})
save_later = modify (λ s. record s { save_scheduled = true })

-- The `resource` message of an exporter. `_add_default_place` needs the lock, so that the group
-- waits in `default_places` until the lock is free.
abbrev pub put_session : String → ExporterSession → M (Unit {0})
put_session peer e = modify (λ t. record t { exporters = put peer e t.exporters })

abbrev pub await_default : Action → String → M (Unit {0})
await_default add group = modify (λ t. record t { default_places = t.default_places ++ group ∷ [] })
await_default _ group = pure tt

-- `self.groups.setdefault(groupname, {})`, which stays when `set_resource` raises.
unfoldable pub set_default : String → ExporterSession → ExporterSession
unfolding get put
set_default group e = record e { groups = put group (or_new (get group e.groups)) e.groups }

unfoldable pub exporter_resource :
    String → (group name : String) → Option ResourceMsg → M (Unit {0})
unfolding set_resource set_default save_later get put
exporter_resource peer group name msg = do
  s ← get_state
  session ← lift (or_raise (get peer s.exporters) name_error)
  put_session peer (set_default group session)
  r ← set_resource (set_default group session) group name msg
  put_session peer r.0
  await_default r.1 group
  save_later

unfoldable pub get_exporter_by_name :
    String → Dict String ExporterSession → Option (String × ExporterSession)
get_exporter_by_name name [] = none
get_exporter_by_name name ((peer, e) ∷ es) =
    if e.name == name then some (peer, e) else get_exporter_by_name name es

-- The `startup` message of an exporter: its name must be new.
abbrev pub start_session :
    (peer name version : String) → Option (String × ExporterSession) → M (Unit {0})
start_session peer name version (some _) = throw exporter_error
start_session peer name version none =
    put_session peer (record { name = name; version = version; groups = []; queue = [] })

unfoldable pub exporter_startup : (peer name version : String) → M (Unit {0})
unfolding get_exporter_by_name put
exporter_startup peer name version = do
  s ← get_state
  start_session peer name version (get_exporter_by_name name s.exporters)

-- `_add_default_place`: a place for a group that is named by a number.
unfoldable pub add_default_place : String → M (Unit {0})
unfolding has put isdigit new_place
add_default_place name = do
  s ← get_state
  unless (has name s.places) (pure tt) (
      unless (if isdigit name then false else true) (pure tt)
        (modify (λ t. record t { places = put name (default_place t.clock) t.places })))
  where
    any_of : ResourceMatch
    any_of = record { exporter = "*"; group = name; cls = "*"; name = none; rename = none }

    default_place : ℕ → Place ℕ
    default_place now = record (new_place name now) { matches = any_of ∷ [] }
