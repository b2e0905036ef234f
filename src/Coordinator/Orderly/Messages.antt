-- ===== src/Coordinator/Orderly/Messages.antt =====
-- labgrid/remote/coordinator.py: `set_resource` and the messages of the exporters keep the sessions
-- in order.
use labgrid.Prelude.{
  ℕ, ◌≡◌, refl, sym, ap, ◌∙◌, false, List, [], ◌∷◌, String, Option, none, some, Option-cases, inl,
  inr, string_eq, nat_eq, ==_self, ok,
}
use labgrid.Prelude.Dict.{
  Dict, get, put, del, keys, has-put, get-put_self, Distinct-keys-put, Distinct-keys-del, All-put,
  All-del, All-get,
}
use labgrid.Common.Match.{ResourcePath}
use labgrid.Common.Entry.{ResourceData, ResourceMsg, data_from_pb2}
use labgrid.Coordinator.State.{
  ClientOutMessage, Coordinator, ExporterSession, Groups, Heap, ResourceImport, pure,
}
use labgrid.Coordinator.Publish.{publish, publish_resource_as, path_of, path_in}
use labgrid.Coordinator.Sessions.{
  set_default, Action, or_new, deref, write_cell, new_cell, alloc, replace_data, create_resource,
  set_present, set_absent, set_resource, unset_names, unset_groups,
}
use labgrid.Coordinator.Frame.{IsHeap, Keeping, alloc-Grows, >>=-after}
use labgrid.Coordinator.Streams.{publish_resource_as-Frame, set_resource-Frame}
use labgrid.Coordinator.Stable.{
  Stable, modify-Stable, stable_rules, Returns, >>=-Returns, >>=-gives, pure-Returns, pure-Stable,
  >>=-Stable,
}
use labgrid.Coordinator.Orderly.{
  IsNamed, IsNamed-Keeps, IsNamedGroup, IsNamedSession, IsNamedSession-Keeps,
}

-- `set_resource` looks at no other session.
abbrev pub HasExporters : Dict String ExporterSession → Coordinator → Type 0
HasExporters es s = s.exporters ≡ es

module _ (es : Dict String ExporterSession) where
  publish-HasExporters : (msg : ClientOutMessage) → Stable (HasExporters es) (publish msg)
  unfolding publish
  publish-HasExporters msg = modify-Stable _ (λ s p. p)

  publish_resource_as-HasExporters :
      (path : ResourcePath) (r : ResourceData)
      → Stable (HasExporters es) (publish_resource_as path r)
  unfolding publish_resource_as
  publish_resource_as-HasExporters path r = search (stable_rules, publish-HasExporters)

  deref-HasExporters : (ref : ℕ) → Stable (HasExporters es) (deref ref)
  unfolding deref
  deref-HasExporters ref = record { keeps = λ s p. p }

  write_cell-HasExporters :
      (ref : ℕ) (f : ResourceImport → ResourceImport) → Stable (HasExporters es) (write_cell ref f)
  unfolding write_cell
  write_cell-HasExporters ref f = modify-Stable _ (λ s p. p)

  new_cell-HasExporters : (r : ResourceImport) → Stable (HasExporters es) (new_cell r)
  unfolding new_cell
  new_cell-HasExporters r = record { keeps = λ s p. p }

  ruleset session_rules = (
    stable_rules, publish-HasExporters, publish_resource_as-HasExporters, deref-HasExporters,
    write_cell-HasExporters, new_cell-HasExporters,
  )

  pub set_resource-HasExporters :
      (e : ExporterSession) (group name : String) (msg : Option ResourceMsg)
      → Stable (HasExporters es) (set_resource e group name msg)
  unfolding set_resource set_absent replace_data create_resource
  set_resource-HasExporters e group name none = search session_rules depth 14
  set_resource-HasExporters e group name (some msg) =
      elim (Option-cases (get name (or_new (get group e.groups)))) [
        | inl absent ↦ rw (absent, set_present) (search session_rules depth 14)
        | inr (ref, present) ↦ rw (present, set_present) (search session_rules depth 14)
      ]

  unset_names-HasExporters :
      (names : List String) (e : ExporterSession) (group : String)
      → Stable (HasExporters es) (unset_names e group names)
  unfolding unset_names
  unset_names-HasExporters [] e group = pure-Stable e
  unset_names-HasExporters (name ∷ names) e group =
      >>=-Stable (set_resource-HasExporters e group name none)
        λ r. unset_names-HasExporters names r.0 group

  pub unset_groups-HasExporters :
      (groups : Groups) (e : ExporterSession) → Stable (HasExporters es) (unset_groups e groups)
  unfolding unset_groups
  unset_groups-HasExporters [] e = pure-Stable e
  unset_groups-HasExporters ((group, g) ∷ groups) e =
      >>=-Stable (unset_names-HasExporters (keys g) e group)
        λ e'. unset_groups-HasExporters groups e'

-- A session with a new version of a group.
abbrev with_group : ExporterSession → String → Dict String ℕ → ExporterSession
with_group e group g = record e { groups = put group g e.groups }

module _ (h : Heap) where
  with_group-IsNamedSession :
      (e : ExporterSession) (group : String) (g : Dict String ℕ)
      → IsNamedSession h e
      → IsNamedGroup h e.name group g
      → IsNamedSession h (with_group e group g)
  with_group-IsNamedSession e group g n k = record {
    once = Distinct-keys-put group g e.groups n.once;
    named = All-put _ group g e.groups k n.named;
  }

  or_new-IsNamedGroup :
      (e : ExporterSession) (group : String)
      → IsNamedSession h e
      → IsNamedGroup h e.name group (or_new (get group e.groups))
  or_new-IsNamedGroup e group n = elim (Option-cases (get group e.groups)) [
    | inl e' ↦ rw e' (record { once = tt; named = tt })
    | inr (g, e') ↦ rw e' (All-get _ group e.groups n.named e')
  ]

  pub set_default-IsNamedSession :
      (e : ExporterSession) (group : String)
      → IsNamedSession h e
      → IsNamedSession h (set_default group e)
  unfolding set_default
  set_default-IsNamedSession e group n =
      with_group-IsNamedSession e group (or_new (get group e.groups)) n
        (or_new-IsNamedGroup e group n)

  put-IsNamedGroup :
      (exporter group name : String) (ref : ℕ) (g : Dict String ℕ)
      → IsNamed h exporter group name ref
      → IsNamedGroup h exporter group g
      → IsNamedGroup h exporter group (put name ref g)
  put-IsNamedGroup exporter group name ref g k n = record {
    once = Distinct-keys-put name ref g n.once;
    named = All-put _ name ref g k n.named;
  }

  del-IsNamedGroup :
      (exporter group name : String) (g : Dict String ℕ)
      → IsNamedGroup h exporter group g
      → IsNamedGroup h exporter group (del name g)
  del-IsNamedGroup exporter group name g n = record {
    once = Distinct-keys-del name g n.once;
    named = All-del _ name g n.named;
  }

-- What `set_resource` gives: the session with a new version of the group.
abbrev GivesGroup : ExporterSession → String → Dict String ℕ → ExporterSession × Action → Type 0
GivesGroup e group g r = r.0 ≡ with_group e group g

replace_data-Returns :
    (e : ExporterSession) (group name : String) (g : Dict String ℕ) (new : ResourceData) (ref : ℕ)
    → Returns (GivesGroup e group g) (replace_data e group name g new ref)
unfolding replace_data
replace_data-Returns e group name g new ref =
    >>=-Returns _ λ _. >>=-Returns _ λ _. >>=-Returns _ λ _. pure-Returns _ refl

set_absent-Returns :
    (e : ExporterSession) (group name : String) (g : Dict String ℕ)
    → Returns (GivesGroup e group (del name g)) (set_absent e group name g)
unfolding set_absent
set_absent-Returns e group name g =
    >>=-Returns _ λ _. >>=-Returns _ λ _. >>=-Returns _ λ _. >>=-Returns _ λ _. pure-Returns _ refl

created-gives :
    (e : ExporterSession) (group name cls : String) (g : Dict String ℕ) (new : ResourceData)
    (s : Coordinator) (r : ExporterSession × Action)
    → (create_resource e group name cls g new s).0 ≡ ok r
    → GivesGroup e group (put name s.heap.next g) r
unfolding create_resource new_cell
created-gives e group name cls g new s = >>=-gives _ _ s λ ref made.
    let same : s.heap.next ≡ ref = cc in rw same (>>=-Returns _ λ _. pure-Returns _ refl)

-- The object of a new resource.
created-IsNamed :
    (e : ExporterSession) (group name cls : String) (g : Dict String ℕ) (new : ResourceData)
    (s : Coordinator)
    → IsHeap s.heap
    → IsNamed (create_resource e group name cls g new s).1.heap e.name group name s.heap.next
unfolding create_resource new_cell path_of alloc pure
created-IsNamed e group name cls g new s ok_h =
    >>=-after At (new_cell fresh) _ s made
      λ ref _. >>=-after At (publish_resource_as fresh.path new) _ _ kept λ _ _. kept
  where
    fresh : ResourceImport
    fresh = record {
      data_ = new;
      path = record { exporter = e.name; group = group; cls = cls; name = some name };
      orphaned = false;
    }

    At : Coordinator → Type 0
    At t = IsNamed t.heap e.name group name s.heap.next

    path_made : path_of (new_cell fresh s).1.heap s.heap.next ≡ fresh.path
    path_made = ap path_in (get-put_self s.heap.next fresh s.heap.cells)

    ok_new : IsHeap (new_cell fresh s).1.heap
    ok_new = (alloc-Grows fresh s.heap ok_h).0

    grown : Keeping (new_cell fresh s).1 (publish_resource_as fresh.path new (new_cell fresh s).1).1
    grown = (publish_resource_as-Frame fresh.path new).keeping (new_cell fresh s).1

    made : At (new_cell fresh s).1
    made = record {
      there = rw (has-put s.heap.next s.heap.next fresh s.heap.cells, ==_self s.heap.next) refl;
      exporter_same = ap (λ (p : ResourcePath). p.exporter) path_made;
      group_same = ap (λ (p : ResourcePath). p.group) path_made;
      name_same = ap (λ (p : ResourcePath). p.name) path_made;
    }

    kept : At (publish_resource_as fresh.path new (new_cell fresh s).1).1
    kept = IsNamed-Keeps _ _ (grown.1 ok_new).1 e.name group name s.heap.next made

-- A message for a resource: the session that it gives is in order, in the state after it.
pub set_resource-IsNamedSession :
    (e : ExporterSession) (group name : String) (msg : Option ResourceMsg) (s : Coordinator)
    (r : ExporterSession × Action)
    → IsHeap s.heap
    → IsNamedSession s.heap e
    → (set_resource e group name msg s).0 ≡ ok r
    → IsNamedSession (set_resource e group name msg s).1.heap r.0 × (r.0.name ≡ e.name)
unfolding set_resource
set_resource-IsNamedSession e group name none s r ok_h n done =
    let g = or_new (get group e.groups) in
    let keeps = (((set_resource-Frame e group name none).keeping s).1 ok_h).1 in
    let m = IsNamedSession-Keeps s.heap _ keeps e n in
    let same = (set_absent-Returns e group name g).gives s r done in
    rw same (
      with_group-IsNamedSession _ e group (del name g) m
          (del-IsNamedGroup _ e.name group name g (or_new-IsNamedGroup _ e group m)),
      refl,
    )
set_resource-IsNamedSession e group name (some msg) s r ok_h n done =
    elim (Option-cases (get name g)) [
      | inl absent ↦
          let made : set_present e group name g msg ≡ create_resource e group name msg.cls g new =
            rw (absent, set_present) refl in
          let gives =
            created-gives e group name msg.cls g new s r (ap (λ m. (m s).0) (sym made) ∙ done) in
          rw gives (
            with_group-IsNamedSession _ e group (put name s.heap.next g) m (
                put-IsNamedGroup _ e.name group name s.heap.next g
                  (rw made (created-IsNamed e group name msg.cls g new s ok_h)) named),
            refl,
          )
      | inr (ref, present) ↦
          let kept : set_present e group name g msg ≡ replace_data e group name g new ref =
            rw (present, set_present) refl in
          let gives =
            (replace_data-Returns e group name g new ref).gives s r
              (ap (λ m. (m s).0) (sym kept) ∙ done) in
          rw gives (with_group-IsNamedSession _ e group g m named, refl)
    ]
  where
    g : Dict String ℕ
    g = or_new (get group e.groups)

    new : ResourceData
    new = data_from_pb2 msg

    m : IsNamedSession (set_resource e group name (some msg) s).1.heap e
    m =
        IsNamedSession-Keeps s.heap _
          (((set_resource-Frame e group name (some msg)).keeping s).1 ok_h).1 e n

    named : IsNamedGroup (set_resource e group name (some msg) s).1.heap e.name group g
    named = or_new-IsNamedGroup _ e group m
