-- ===== src/Coordinator/Clients/Same.antt =====
-- labgrid/remote/coordinator.py: what a client sends changes only the sessions of the clients.
use labgrid.Prelude.{
  ◌≡◌, refl, ◌∙◌, List, [], ◌∷◌, String, string_eq, nat_eq, Option-cases, inl, inr, ℕ,
}
use labgrid.Prelude.Dict.{Dict, get}
use labgrid.Common.Place.{Place}
use labgrid.Coordinator.State.{
  ClientOutMessage, ExporterSession, Groups, Heap, ClientInMessage, sync_in, startup, subscribe,
  unknown, Coordinator, pure, modify,
}
use labgrid.Coordinator.State
use labgrid.Coordinator.Clients.{
  place_updates, resource_updates, group_updates, exporter_updates, enqueue, subscribe_places,
  subscribe_resources, client_message, client_leaves,
}
use labgrid.Coordinator.Stable.{
  Stable, stable_rules, modify-Stable, pure-Stable, >>=-Stable, lift-Stable, get_state-Stable,
}

-- Everything else is as in `s`.
pub record SameLab (s t : Coordinator) : Type 0 where
  pub same_places : t.places ≡ s.places
  pub same_exporters : t.exporters ≡ s.exporters
  pub same_heap : t.heap ≡ s.heap

pub SameLab-refl : (s : Coordinator) → SameLab s s
SameLab-refl s = record { same_places = refl; same_exporters = refl; same_heap = refl }

module _ (s : Coordinator) where
  pub others-Same :
      (f : Coordinator → Coordinator)
      → ((t : Coordinator) → SameLab t (f t))
      → Stable (SameLab s) (modify f)
  others-Same f h = modify-Stable f λ t same. record {
    same_places = (h t).same_places ∙ same.same_places;
    same_exporters = (h t).same_exporters ∙ same.same_exporters;
    same_heap = (h t).same_heap ∙ same.same_heap;
  }

  place_updates-Same : (h : Heap) (ps : List (Place ℕ)) → Stable (SameLab s) (place_updates h ps)
  unfolding place_updates
  place_updates-Same h [] = pure-Stable []
  place_updates-Same h (p ∷ ps) =
      >>=-Stable (lift-Stable _) λ msg. >>=-Stable (place_updates-Same h ps) λ rest. pure-Stable _

  resource_updates-Same :
      (h : Heap) (exporter group : String) (rs : Dict String ℕ)
      → Stable (SameLab s) (resource_updates h exporter group rs)
  unfolding resource_updates
  resource_updates-Same h exporter group [] = pure-Stable []
  resource_updates-Same h exporter group ((name, ref) ∷ rs) = >>=-Stable (lift-Stable _) λ r.
      >>=-Stable (lift-Stable _)
        λ msg. >>=-Stable (resource_updates-Same h exporter group rs) λ rest. pure-Stable _

  group_updates-Same :
      (h : Heap) (exporter : String) (gs : Groups)
      → Stable (SameLab s) (group_updates h exporter gs)
  unfolding group_updates
  group_updates-Same h exporter [] = pure-Stable []
  group_updates-Same h exporter ((group, rs) ∷ gs) =
      >>=-Stable (resource_updates-Same h exporter group rs)
        λ here. >>=-Stable (group_updates-Same h exporter gs) λ rest. pure-Stable _

  exporter_updates-Same :
      (h : Heap) (es : List ExporterSession) → Stable (SameLab s) (exporter_updates h es)
  unfolding exporter_updates
  exporter_updates-Same h [] = pure-Stable []
  exporter_updates-Same h (e ∷ es) =
      >>=-Stable (group_updates-Same h e.name e.groups)
        λ here. >>=-Stable (exporter_updates-Same h es) λ rest. pure-Stable _

  enqueue-Same :
      (peer : String) (msgs : List ClientOutMessage) → Stable (SameLab s) (enqueue peer msgs)
  unfolding enqueue
  enqueue-Same peer msgs = >>=-Stable get_state-Stable λ t.
      >>=-Stable (lift-Stable _) λ c.
        others-Same _ λ u. record { same_places = refl; same_exporters = refl; same_heap = refl }

  ruleset message_rules = (stable_rules, enqueue-Same, place_updates-Same, exporter_updates-Same)

  subscribe_places-Same : (peer : String) → Stable (SameLab s) (subscribe_places peer)
  unfolding subscribe_places
  subscribe_places-Same peer = search message_rules

  subscribe_resources-Same : (peer : String) → Stable (SameLab s) (subscribe_resources peer)
  unfolding subscribe_resources
  subscribe_resources-Same peer = search message_rules

  client_message-Same :
      (peer : String) (msg : ClientInMessage) → Stable (SameLab s) (client_message peer msg)
  unfolding client_message
  client_message-Same peer (sync_in id) = >>=-Stable get_state-Stable λ t.
      elim (Option-cases (get peer t.clients)) [
        | inl e ↦ rw e (pure-Stable tt)
        | inr (c, e) ↦ rw e (enqueue-Same peer (State.sync id ∷ []))
      ]
  client_message-Same peer (startup name version) =
      others-Same _ λ u. record { same_places = refl; same_exporters = refl; same_heap = refl }
  client_message-Same peer (subscribe places resources) =
      search (stable_rules, subscribe_places-Same, subscribe_resources-Same)
  client_message-Same peer unknown = pure-Stable tt

-- A message of a client, and the end of its stream.
pub client_message-SameLab :
    (peer : String) (msg : ClientInMessage) (s : Coordinator)
    → SameLab s (client_message peer msg s).1
client_message-SameLab peer msg s = (client_message-Same s peer msg).keeps s (SameLab-refl s)

pub client_leaves-SameLab : (peer : String) (s : Coordinator) → SameLab s (client_leaves peer s).1
unfolding client_leaves modify
client_leaves-SameLab peer s = record {
  same_places = refl;
  same_exporters = refl;
  same_heap = refl;
}
