-- ===== src/Coordinator/Orderly.antt =====
-- labgrid/remote/coordinator.py: what the sessions of the exporters look like. Each resource stands
-- in its group under the name that its path has, and no two exporters have one name.
pub mod Offered
pub mod Messages
pub mod Once
pub mod Streams
pub mod Commands
pub mod Handlers
use labgrid.Prelude.{
  ℕ, ◌≡◌, ◌∙◌, ap, true, List, [], ◌∷◌, map, String, Option, none, some, All, Distinct, nat_eq,
  string_eq,
}
use labgrid.Prelude.Dict.{Dict, has, keys}
use labgrid.Prelude.Sums.{All-mono}
use labgrid.Common.Match.{ResourcePath}
use labgrid.Coordinator.State.{Coordinator, ExporterSession, Groups, Heap}
use labgrid.Coordinator.Publish.{path_of}
use labgrid.Coordinator.Frame.{IsHeap, Keeps}

-- The object is there, and its path is the one of its place in the session.
pub record IsNamed (h : Heap) (exporter group name : String) (ref : ℕ) : Type 0 where
  pub there : has ref h.cells ≡ true
  pub exporter_same : (path_of h ref).exporter ≡ exporter
  pub group_same : (path_of h ref).group ≡ group
  pub name_same : (path_of h ref).name ≡ some name

pub record IsNamedGroup (h : Heap) (exporter group : String) (rs : Dict String ℕ) : Type 0 where
  pub once : Distinct (keys rs)
  pub named : All (λ (entry : String × ℕ). IsNamed h exporter group entry.0 entry.1) rs

pub record IsNamedSession (h : Heap) (e : ExporterSession) : Type 0 where
  pub once : Distinct (keys e.groups)
  pub named :
      All (λ (entry : String × Dict String ℕ). IsNamedGroup h e.name entry.0 entry.1) e.groups

abbrev pub session_name : String × ExporterSession → String
session_name entry = entry.1.name

pub record IsOrderly (s : Coordinator) : Type 0 where
  pub heap_ok : IsHeap s.heap
  pub peers : Distinct (keys s.exporters)
  pub once : Distinct (map session_name s.exporters)
  pub named : All (λ (entry : String × ExporterSession). IsNamedSession s.heap entry.1) s.exporters

module _ (h h' : Heap) (keeps : Keeps h h') where
  pub IsNamed-Keeps :
      (exporter group name : String) (ref : ℕ)
      → IsNamed h exporter group name ref
      → IsNamed h' exporter group name ref
  IsNamed-Keeps exporter group name ref n =
      let (there, same) = keeps ref n.there in
      record {
        there = there;
        exporter_same = ap (λ (p : ResourcePath). p.exporter) same ∙ n.exporter_same;
        group_same = ap (λ (p : ResourcePath). p.group) same ∙ n.group_same;
        name_same = ap (λ (p : ResourcePath). p.name) same ∙ n.name_same;
      }

  pub IsNamedGroup-Keeps :
      (exporter group : String) (rs : Dict String ℕ)
      → IsNamedGroup h exporter group rs
      → IsNamedGroup h' exporter group rs
  IsNamedGroup-Keeps exporter group rs n = record {
    once = n.once;
    named = All-mono _ _ rs (λ entry. IsNamed-Keeps exporter group entry.0 entry.1) n.named;
  }

  pub IsNamedSession-Keeps : (e : ExporterSession) → IsNamedSession h e → IsNamedSession h' e
  IsNamedSession-Keeps e n = record {
    once = n.once;
    named = All-mono _ _ e.groups (λ entry. IsNamedGroup-Keeps e.name entry.0 entry.1) n.named;
  }
