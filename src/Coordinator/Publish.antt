-- ===== src/Coordinator/Publish.antt =====
-- labgrid/remote/coordinator.py: what the coordinator tells its clients.
use labgrid.Prelude.{
  ℕ, zero, suc, List, [], ◌∷◌, ◌++◌, String, Option, none, some, string_eq, nat_eq, length,
}
use labgrid.Prelude.Dict.{Dict, get}
use labgrid.Common.Match.{ResourcePath}
use labgrid.Common.Entry.{ResourceData}
use labgrid.Common.Entry
use labgrid.Common.Place.{Place}
use labgrid.Common.Place
use labgrid.Coordinator.State.{
  Update, ClientOutMessage, updates, ClientSession, Heap, ResourceImport, Coordinator, M, pure,
  lift, modify, get_state, ◌>>=◌, ◌>>◌,
}
use labgrid.Coordinator.State

-- A reference to nothing, which no operation makes, has a path without a name.
abbrev pub path_in : Option ResourceImport → ResourcePath
path_in none = record { exporter = ""; group = ""; cls = ""; name = none }
path_in (some r) = r.path

unfoldable pub path_of : Heap → ℕ → ResourcePath
unfolding get
path_of h ref = path_in (get ref h.cells)

-- `client.queue.put_nowait(msg)`
unfoldable pub put_nowait : ClientOutMessage → ClientSession → ClientSession
put_nowait msg c = record c { queue = c.queue ++ msg ∷ [] }

unfoldable pub put_all : ClientOutMessage → Dict String ClientSession → Dict String ClientSession
unfolding put_nowait
put_all msg [] = []
put_all msg ((peer, c) ∷ cs) = (peer, put_nowait msg c) ∷ put_all msg cs

-- `for client in self.clients.values(): client.queue.put_nowait(msg)`
unfoldable pub publish : ClientOutMessage → M (Unit {0})
unfolding put_all
publish msg = modify (λ s. record s { clients = put_all msg s.clients })

unfoldable pub publish_place : Place ℕ → M (Unit {0})
unfolding publish path_of Place.as_pb2
publish_place p = do
  s ← get_state
  msg ← lift (Place.as_pb2 (path_of s.heap) p)
  publish (updates (State.place msg ∷ []))

-- `update.resource` with the path that the session and its group give.
unfoldable pub publish_resource_as : ResourcePath → ResourceData → M (Unit {0})
unfolding publish Entry.as_pb2
publish_resource_as path r = do
  msg ← lift (Entry.as_pb2 r)
  publish (updates (State.resource path msg ∷ []))

-- `_publish_resource`
unfoldable pub publish_resource : ResourceImport → M (Unit {0})
unfolding publish_resource_as
publish_resource r = publish_resource_as r.path r.data_

-- `batch, collected = collected[:100], collected[100:]`
split_at {ℓ} : {A : Type ℓ} → ℕ → List A → List A × List A
split_at zero xs = ([], xs)
split_at (suc n) [] = ([], [])
split_at (suc n) (x ∷ xs) = let (a, b) = split_at n xs in (x ∷ a, b)

-- The loop `while collected:`; each round takes an element at least, so the length is enough fuel.
batches_from {ℓ} : {A : Type ℓ} → ℕ → List A → List (List A)
unfolding split_at
batches_from zero xs = []
batches_from (suc fuel) [] = []
batches_from (suc fuel) (x ∷ xs) =
    let (batch, rest) = split_at 100 (x ∷ xs) in batch ∷ batches_from fuel rest

unfoldable pub batches {ℓ} : {A : Type ℓ} → List A → List (List A)
unfolding batches_from
batches xs = batches_from (length xs) xs
