-- ===== src/Coordinator/Orderly/Offered.antt =====
-- labgrid/remote/coordinator.py: the resources that match a place are there, and no two of them
-- have one path, if the sessions of the exporters are in order.
use labgrid.Prelude.{
  ℕ, ◌≤◌, ◌≡◌, refl, sym, ap, ◌∙◌, Bool, true, false, [], ◌∷◌, String, All, All-append, arith,
  Bool-cases, inl, inr, string_eq, nat_eq, ◌==◌, ==_iff,
}
use labgrid.Prelude.Dict.{Dict, has}
use labgrid.Prelude.Sort.{sort}
use labgrid.Prelude.Sums.{
  sum_of, sum_of-sort, All-sort, sum_of-le_one, sum_of_zero, All-mono, CountsAt,
}
use labgrid.Common.Match.{ResourcePath}
use labgrid.Common.Place.{Place, hasmatch}
use labgrid.Coordinator.State.{Coordinator, ExporterSession, Groups, Heap}
use labgrid.Coordinator.Publish.{path_of}
use labgrid.Coordinator.Acquire.{
  same_path, key_le, matching, matching_groups, matching_exporters, matching_resources, or_noname,
}
use labgrid.Coordinator.Exclusive.{AllThere, count_path, one_if, same_path_iff}
use labgrid.Coordinator.Holding.{count_path-append}
use labgrid.Coordinator.Acquiring.{IsOffered}
use labgrid.Coordinator.Orderly.{IsNamed, IsNamedGroup, IsNamedSession, IsOrderly, session_name}

module _ (h : Heap) (q : ResourcePath) where
  -- Whether a resource has the path.
  abbrev at_path : ℕ → ℕ
  at_path ref = one_if (same_path q (path_of h ref))

  at_path-le : (ref : ℕ) → at_path ref ≤ 1
  at_path-le ref = by_test (same_path q (path_of h ref))
    where
      by_test : (b : Bool) → one_if b ≤ 1
      by_test true = omega arith
      by_test false = omega arith

  -- A resource of another name, group or exporter has not.
  at_path-elsewhere :
      (exporter group name : String) (ref : ℕ)
      → IsNamed h exporter group name ref
      → ((q ≡ path_of h ref) → (name == or_noname q.name) ≡ true)
        × ((q ≡ path_of h ref) → (group == q.group) ≡ true)
        × ((q ≡ path_of h ref) → (exporter == q.exporter) ≡ true)
  unfolding or_noname
  at_path-elsewhere exporter group name ref n = (
    λ e.
        (==_iff name (or_noname q.name)).1
          (sym (ap or_noname (ap (λ (p : ResourcePath). p.name) e ∙ n.name_same))),
    λ e. (==_iff group q.group).1 (sym (ap (λ (p : ResourcePath). p.group) e ∙ n.group_same)),
    λ e.
        (==_iff exporter q.exporter).1
          (sym (ap (λ (p : ResourcePath). p.exporter) e ∙ n.exporter_same)),
  )

  at_path-zero :
      (ref : ℕ) (b : Bool) → ((q ≡ path_of h ref) → b ≡ true) → b ≡ false → at_path ref ≡ 0
  at_path-zero ref b same other = elim (Bool-cases (same_path q (path_of h ref))) [
    | inl hit ↦ absurd (ground (arith, same ((same_path_iff q (path_of h ref)).0 hit)))
    | inr miss ↦ rw miss refl
  ]

  -- What a group, an exporter and all exporters offer to a place.
  module _ (p : Place ℕ) where
    abbrev in_entry : String × ℕ → ℕ
    in_entry entry = at_path entry.1

    abbrev in_group : String × Dict String ℕ → ℕ
    in_group entry = count_path h q (matching h p (sort key_le entry.1))

    abbrev in_session : String × ExporterSession → ℕ
    in_session entry = count_path h q (matching_groups h p (sort key_le entry.1.groups))

    matching-le : (rs : Dict String ℕ) → count_path h q (matching h p rs) ≤ sum_of in_entry rs
    unfolding count_path matching
    matching-le [] = omega arith
    matching-le ((name, ref) ∷ rs) = elim (Bool-cases (hasmatch p (path_of h ref))) [
      | inl fits ↦ rw fits (omega (arith, matching-le rs))
      | inr misfit ↦ rw misfit (omega (arith, matching-le rs))
    ]

    in_group-le : (entry : String × Dict String ℕ) → in_group entry ≤ sum_of in_entry entry.1
    in_group-le entry =
        omega (arith, matching-le (sort key_le entry.1), sum_of-sort key_le in_entry entry.1)

    matching_groups-sum :
        (gs : Groups) → count_path h q (matching_groups h p gs) ≡ sum_of in_group gs
    unfolding count_path matching_groups
    matching_groups-sum [] = refl
    matching_groups-sum ((group, rs) ∷ gs) = omega (
      arith,
      count_path-append h q (matching h p (sort key_le rs)) (matching_groups h p gs),
      matching_groups-sum gs,
    )

    in_session-sum :
        (entry : String × ExporterSession) → in_session entry ≡ sum_of in_group entry.1.groups
    in_session-sum entry =
        matching_groups-sum (sort key_le entry.1.groups)
        ∙ sum_of-sort key_le in_group entry.1.groups

    matching_exporters-sum :
        (es : Dict String ExporterSession)
        → count_path h q (matching_exporters h p es) ≡ sum_of in_session es
    unfolding count_path matching_exporters
    matching_exporters-sum [] = refl
    matching_exporters-sum ((peer, e) ∷ es) = omega (
      arith,
      count_path-append h q (matching_groups h p (sort key_le e.groups))
          (matching_exporters h p es),
      matching_exporters-sum es,
    )

    -- A group offers the path once at most, and only if it is the group of the path.
    in_group-CountsAt :
        (exporter group : String) (rs : Dict String ℕ)
        → IsNamedGroup h exporter group rs
        → (in_group (group, rs) ≤ 1)
          × ((group == q.group) ≡ false → in_group (group, rs) ≡ 0)
          × ((exporter == q.exporter) ≡ false → in_group (group, rs) ≡ 0)
    in_group-CountsAt exporter group rs n = (
      omega (
        arith,
        in_group-le (group, rs),
        sum_of-le_one in_entry (λ entry. entry.0) (or_noname q.name) rs
            (All-mono _ _ rs
              (λ entry m. (
                at_path-le entry.1,
                at_path-zero entry.1 (entry.0 == or_noname q.name)
                    (at_path-elsewhere exporter group entry.0 entry.1 m).0,
              ))
              n.named)
            n.once,
      ),
      λ other. omega (
        arith,
        in_group-le (group, rs),
        sum_of_zero in_entry rs (
            All-mono _ _ rs
              (λ entry m.
                at_path-zero entry.1 (group == q.group)
                  (at_path-elsewhere exporter group entry.0 entry.1 m).1 other)
              n.named),
      ),
      λ other. omega (
        arith,
        in_group-le (group, rs),
        sum_of_zero in_entry rs (
            All-mono _ _ rs
              (λ entry m.
                at_path-zero entry.1 (exporter == q.exporter)
                  (at_path-elsewhere exporter group entry.0 entry.1 m).2 other)
              n.named),
      ),
    )

    in_session-CountsAt :
        (entry : String × ExporterSession)
        → IsNamedSession h entry.1
        → CountsAt in_session session_name q.exporter entry
    in_session-CountsAt entry n = (
      omega (
        arith,
        in_session-sum entry,
        sum_of-le_one in_group (λ g. g.0) q.group entry.1.groups
            (All-mono _ _ entry.1.groups
              (λ g m. let c = in_group-CountsAt entry.1.name g.0 g.1 m in (c.0, c.1)) n.named)
            n.once,
      ),
      λ other. omega (
        arith,
        in_session-sum entry,
        sum_of_zero in_group entry.1.groups (
            All-mono _ _ entry.1.groups (λ g m. (in_group-CountsAt entry.1.name g.0 g.1 m).2 other)
              n.named),
      ),
    )

module _ (h : Heap) (p : Place ℕ) where
  abbrev IsThere : ℕ → Type 0
  IsThere ref = has ref h.cells ≡ true

  matching-AllThere :
      (rs : Dict String ℕ)
      → All (λ (entry : String × ℕ). IsThere entry.1) rs
      → AllThere h (matching h p rs)
  unfolding matching
  matching-AllThere [] a = tt
  matching-AllThere ((name, ref) ∷ rs) a = elim (Bool-cases (hasmatch p (path_of h ref))) [
    | inl fits ↦ rw fits (a.0, matching-AllThere rs a.1)
    | inr misfit ↦ rw misfit (matching-AllThere rs a.1)
  ]

  matching_groups-AllThere :
      (exporter : String) (gs : Groups)
      → All (λ (entry : String × Dict String ℕ). IsNamedGroup h exporter entry.0 entry.1) gs
      → AllThere h (matching_groups h p gs)
  unfolding matching_groups
  matching_groups-AllThere exporter [] a = tt
  matching_groups-AllThere exporter ((group, rs) ∷ gs) a =
      All-append IsThere (matching h p (sort key_le rs)) (matching_groups h p gs)
        (matching-AllThere (sort key_le rs)
          (All-sort key_le _ rs (All-mono _ _ rs (λ entry n. n.there) a.0.named)))
        (matching_groups-AllThere exporter gs a.1)

  matching_exporters-AllThere :
      (es : Dict String ExporterSession)
      → All (λ (entry : String × ExporterSession). IsNamedSession h entry.1) es
      → AllThere h (matching_exporters h p es)
  unfolding matching_exporters
  matching_exporters-AllThere [] a = tt
  matching_exporters-AllThere ((peer, e) ∷ es) a =
      All-append IsThere (matching_groups h p (sort key_le e.groups)) (matching_exporters h p es)
        (matching_groups-AllThere e.name (sort key_le e.groups)
          (All-sort key_le _ e.groups a.0.named))
        (matching_exporters-AllThere es a.1)

-- If the sessions of the exporters are in order, the resources that match a place are there, and
-- no two of them have one path.
pub matching_resources-IsOffered :
    (s : Coordinator) (p : Place ℕ) → IsOrderly s → IsOffered s (matching_resources s p)
unfolding matching_resources
matching_resources-IsOffered s p o = record {
  there =
      matching_exporters-AllThere s.heap p (sort key_le s.exporters)
        (All-sort key_le _ s.exporters o.named);
  once = λ q. omega (
    arith,
    matching_exporters-sum s.heap q p (sort key_le s.exporters),
    sum_of-sort key_le (in_session s.heap q p) s.exporters,
    sum_of-le_one (in_session s.heap q p) session_name q.exporter s.exporters
        (All-mono _ _ s.exporters (λ entry n. in_session-CountsAt s.heap q p entry n) o.named)
        o.once,
  );
}
