-- ===== src/Coordinator/Orderly/Streams.antt =====
-- labgrid/remote/coordinator.py: the streams of exporters and clients, and the exchange with the
-- exporters, keep the sessions in order.
use labgrid.Prelude.{
  ◌≡◌, refl, List, [], ◌∷◌, String, Option, none, some, string_eq, nat_eq, or_raise, name_error,
  attribute_error, Outcome,
}
use labgrid.Prelude.Dict.{
  get, get-put_self, Distinct-keys-put, Distinct-keys-del, All-put, All-del, All-get,
}
use labgrid.Prelude.Sums.{All-mono}
use labgrid.Common.Entry.{ResourceMsg}
use labgrid.Coordinator.State.{
  Coordinator, ExporterSession, Event, exporter_start, resource_update, resource_gone,
  exporter_gone, client_sends, client_gone, modify, throw, ◌>>=◌, SetAcquired,
}
use labgrid.Coordinator.Sessions.{
  Action, add, del_, upd, set_default, set_resource, unset_groups, save_later, exporter_resource,
  exporter_leaves, leave_session, put_session, await_default, get_exporter_by_name, start_session,
  exporter_startup,
}
use labgrid.Coordinator.Events.{apply_event, apply_events}
use labgrid.Coordinator.Clients.{client_message, client_leaves}
use labgrid.Coordinator.Clients.Same.{SameLab, client_message-SameLab, client_leaves-SameLab}
use labgrid.Coordinator.Acquire.{send}
use labgrid.Coordinator.Frame.{Grows}
use labgrid.Coordinator.Streams.{set_resource-Frame, unset_groups-Frame}
use labgrid.Coordinator.Stable.{
  Stable, stable_rules, modify-Stable, pure-Stable, >>=-Stable, looking, or_raise-ok,
}
use labgrid.Coordinator.Orderly.{IsNamedSession, IsNamedSession-Keeps, IsOrderly}
use labgrid.Coordinator.Orderly.Messages.{
  set_default-IsNamedSession, set_resource-HasExporters, set_resource-IsNamedSession,
  unset_groups-HasExporters,
}
use labgrid.Coordinator.Orderly.Once.{
  names-put_same, Distinct-names-put, Distinct-names-del, by_name-none, by_name-get,
}

-- A change of fields that the order says nothing of, and one that only adds resource objects.
pub same-IsOrderly :
    (s t : Coordinator) → t.heap ≡ s.heap → t.exporters ≡ s.exporters → IsOrderly s → IsOrderly t
same-IsOrderly s t same_heap same o = record {
  heap_ok = rw same_heap o.heap_ok;
  peers = rw same o.peers;
  once = rw same o.once;
  named = rw (same, same_heap) o.named;
}

grown-IsOrderly :
    (s t : Coordinator)
    → Grows s.heap t.heap
    → t.exporters ≡ s.exporters
    → IsOrderly s
    → IsOrderly t
grown-IsOrderly s t grows same o =
    let (ok_t, keeps) = grows o.heap_ok in
    record {
      heap_ok = ok_t;
      peers = rw same o.peers;
      once = rw same o.once;
      named = rw same (
          All-mono _ _ s.exporters (λ entry. IsNamedSession-Keeps s.heap t.heap keeps entry.1)
            o.named);
    }

-- A session that keeps its name, with resources in order.
put_same-IsOrderly :
    (peer : String) (e e' : ExporterSession) (s : Coordinator)
    → get peer s.exporters ≡ some e
    → e'.name ≡ e.name
    → IsNamedSession s.heap e'
    → IsOrderly s
    → IsOrderly (put_session peer e' s).1
unfolding modify
put_same-IsOrderly peer e e' s there same n o = record {
  heap_ok = o.heap_ok;
  peers = Distinct-keys-put peer e' s.exporters o.peers;
  once = rw (names-put_same peer e e' s.exporters there same) o.once;
  named = All-put _ peer e' s.exporters n o.named;
}

pub save_later-Orderly : Stable IsOrderly save_later
unfolding save_later
save_later-Orderly = modify-Stable _ (λ s o. same-IsOrderly s _ refl refl o)

await_default-Orderly : (a : Action) (group : String) → Stable IsOrderly (await_default a group)
await_default-Orderly add group = modify-Stable _ (λ s o. same-IsOrderly s _ refl refl o)
await_default-Orderly del_ group = pure-Stable tt
await_default-Orderly upd group = pure-Stable tt

abbrev pub OrderlyAfter {ℓ} : {A : Type ℓ} → Outcome A × Coordinator → Type 0
OrderlyAfter r = IsOrderly r.1

exporter_resource-Orderly :
    (peer group name : String) (msg : Option ResourceMsg)
    → Stable IsOrderly (exporter_resource peer group name msg)
unfolding exporter_resource set_default modify ◌>>=◌
exporter_resource-Orderly peer group name msg = record {
  keeps = λ s o.
      looking OrderlyAfter s (λ _. o) (or_raise (get peer s.exporters) name_error) _
        λ e found.
          let there = or_raise-ok _ _ found in
          let d = set_default group e in
          let u = (put_session peer d s).1 in
          let o1 =
            put_same-IsOrderly peer e d s there refl
              (set_default-IsNamedSession s.heap e group (All-get _ peer s.exporters o.named there))
              o in
          let there' = get-put_self peer d s.exporters in
          let t = (set_resource d group name msg u).1 in
          let same = (set_resource-HasExporters u.exporters d group name msg).keeps u refl in
          let o' =
            grown-IsOrderly u t ((set_resource-Frame d group name msg).keeping u).1 same o1 in
          looking OrderlyAfter t (λ _. o') (set_resource d group name msg u).0 _
            λ r done.
              let (n, kept) =
                set_resource-IsNamedSession d group name msg u r o1.heap_ok
                  (All-get _ peer u.exporters o1.named there') done in
              (>>=-Stable (await_default-Orderly r.1 group) λ _. save_later-Orderly).keeps
                (put_session peer r.0 t).1
                (put_same-IsOrderly peer d r.0 t (rw same there') kept n o');
}

leave_session-Orderly :
    (peer : String) (found : Option ExporterSession) → Stable IsOrderly (leave_session peer found)
unfolding leave_session
leave_session-Orderly peer none = pure-Stable tt
leave_session-Orderly peer (some session) =
    >>=-Stable
      (modify-Stable _ λ s o. record {
        heap_ok = o.heap_ok;
        peers = Distinct-keys-del peer s.exporters o.peers;
        once = Distinct-names-del peer s.exporters o.once;
        named = All-del _ peer s.exporters o.named;
      })
      λ _. >>=-Stable (unset_groups-Orderly session) λ _. pure-Stable tt
  where
    unset_groups-Orderly : (e : ExporterSession) → Stable IsOrderly (unset_groups e e.groups)
    unset_groups-Orderly e = record {
      keeps = λ s o.
          grown-IsOrderly s _ ((unset_groups-Frame e.groups e).keeping s).1
            ((unset_groups-HasExporters s.exporters e.groups e).keeps s refl) o;
    }

exporter_leaves-Orderly : (peer : String) → Stable IsOrderly (exporter_leaves peer)
unfolding exporter_leaves
exporter_leaves-Orderly peer = search (stable_rules, leave_session-Orderly)

start_session-IsOrderly :
    (peer name version : String) (found : Option (String × ExporterSession)) (s : Coordinator)
    → get_exporter_by_name name s.exporters ≡ found
    → IsOrderly s
    → IsOrderly (start_session peer name version found s).1
unfolding throw modify
start_session-IsOrderly peer name version (some _) s e o = o
start_session-IsOrderly peer name version none s e o = record {
  heap_ok = o.heap_ok;
  peers = Distinct-keys-put peer _ s.exporters o.peers;
  once = Distinct-names-put peer _ s.exporters (by_name-none name s.exporters e) o.once;
  named = All-put _ peer _ s.exporters (record { once = tt; named = tt }) o.named;
}

pub exporter_startup-Orderly :
    (peer name version : String) → Stable IsOrderly (exporter_startup peer name version)
unfolding exporter_startup ◌>>=◌
exporter_startup-Orderly peer name version = record {
  keeps = λ s o. start_session-IsOrderly peer name version _ s refl o;
}

SameLab-IsOrderly : (s t : Coordinator) → SameLab s t → IsOrderly s → IsOrderly t
SameLab-IsOrderly s t same = same-IsOrderly s t same.same_heap same.same_exporters

pub apply_event-Orderly : (e : Event) (s : Coordinator) → IsOrderly s → IsOrderly (apply_event e s)
unfolding apply_event
apply_event-Orderly (resource_update peer group name msg) s o =
    (exporter_resource-Orderly peer group name (some msg)).keeps s o
apply_event-Orderly (resource_gone peer group name) s o =
    (exporter_resource-Orderly peer group name none).keeps s o
apply_event-Orderly (exporter_gone peer) s o = (exporter_leaves-Orderly peer).keeps s o
apply_event-Orderly (exporter_start peer name version) s o =
    (exporter_startup-Orderly peer name version).keeps s o
apply_event-Orderly (client_sends peer msg) s o =
    SameLab-IsOrderly s (client_message peer msg s).1 (client_message-SameLab peer msg s) o
apply_event-Orderly (client_gone peer) s o =
    SameLab-IsOrderly s (client_leaves peer s).1 (client_leaves-SameLab peer s) o

-- Whatever the streams do while a handler awaits an exporter, the sessions stay in order.
pub apply_events-Orderly :
    (es : List Event) (s : Coordinator) → IsOrderly s → IsOrderly (apply_events es s)
unfolding apply_events
apply_events-Orderly [] s o = o
apply_events-Orderly (e ∷ es) s o =
    apply_events-Orderly es (apply_event e s) (apply_event-Orderly e s o)

-- A command for an exporter goes into its session's queue.
pub send-Orderly : (exporter : String) (cmd : SetAcquired) → Stable IsOrderly (send exporter cmd)
unfolding send ◌>>=◌
send-Orderly exporter cmd = record {
  keeps = λ s o.
      looking OrderlyAfter s (λ _. o)
        (or_raise (get_exporter_by_name exporter s.exporters) attribute_error) _
        λ found e.
          let there =
            by_name-get exporter found.0 found.1 s.exporters o.peers (or_raise-ok _ _ e) in
          put_same-IsOrderly found.0 found.1 _ s there refl
            (queued-IsNamedSession s (All-get _ found.0 s.exporters o.named there)) o;
}
  where
    queued-IsNamedSession :
        {e : ExporterSession} {q : List SetAcquired} (s : Coordinator)
        → IsNamedSession s.heap e
        → IsNamedSession s.heap (record e { queue = q })
    queued-IsNamedSession s n = record { once = n.once; named = n.named }
