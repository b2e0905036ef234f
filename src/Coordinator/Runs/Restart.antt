-- ===== src/Coordinator/Runs/Restart.antt =====
-- labgrid/remote/coordinator.py: what `load` gives of the snapshots that `save` makes.
use labgrid.Prelude.{
  ℕ, ◌≡◌, refl, false, [], ◌∷◌, String, none, some, All, string_eq, nat_eq, ok, true,
}
use labgrid.Prelude.Dict.{Dict, put, Entries, has, has-eq-true}
use labgrid.Common.Entry.{ResourceData}
use labgrid.Common.Entry
use labgrid.Common.Place.{Place}
use labgrid.Common.Place.Snapshot.{PlaceDict}
use labgrid.Coordinator.State.{Coordinator, ExporterSession, Groups, Heap, ◌>>=◌}
use labgrid.Coordinator.Snapshot.{
  ResourceDicts, group_resources, get_resources, all_resources, place_dicts, save, place_from,
  load_places, load,
}
use labgrid.Coordinator.Runs.{Reachable}
use labgrid.Coordinator.Runs.Sound.{Reachable-IsSound}
use labgrid.Prelude.Sums.{All-mono}
use labgrid.Coordinator.Orderly.{IsNamedGroup, IsNamedSession}

-- A place as it is after a restart.
abbrev pub forgotten : Place ℕ → Place ℕ
forgotten p = record p {
  acquired = none;
  acquired_resources = [];
  allowed = [];
  reservation = none;
}

abbrev pub forget_all : Dict String (Place ℕ) → Dict String (Place ℕ)
forget_all [] = []
forget_all ((name, p) ∷ places) = (name, forgotten p) ∷ forget_all places

load_places-place_dicts :
    (h : Heap) (places : Dict String (Place ℕ))
    → Entries (λ name p. p.name ≡ name) places
    → load_places (place_dicts h places) ≡ forget_all places
unfolding load_places place_from place_dicts
load_places-place_dicts h [] a = refl
load_places-place_dicts h ((name, p) ∷ places) a =
    rw (load_places-place_dicts h places a.1, a.0) refl

-- The snapshot of the resources: each of them is there.
module _ (h : Heap) (s : Coordinator) where
  group_resources_total :
      (rs : Dict String ℕ)
      → All (λ (entry : String × ℕ). has entry.1 h.cells ≡ true) rs
      → (d : Dict String ResourceData) × (group_resources h rs s ≡ (ok d, s))
  unfolding group_resources ◌>>=◌
  group_resources_total [] a = ([], refl)
  group_resources_total ((name, ref) ∷ rs) a =
      let (r, there) = has-eq-true ref h.cells a.0 in
      let (d, rest) = group_resources_total rs a.1 in
      ((name, Entry.asdict r.data_) ∷ d, rw (there, rest) refl)

  get_resources_total :
      (exporter : String) (gs : Groups)
      → All (λ (entry : String × Dict String ℕ). IsNamedGroup h exporter entry.0 entry.1) gs
      → (d : ResourceDicts) × (get_resources h gs s ≡ (ok d, s))
  unfolding get_resources ◌>>=◌
  get_resources_total exporter [] a = ([], refl)
  get_resources_total exporter ((group, rs) ∷ gs) a =
      let (here, e) = group_resources_total rs (All-mono _ _ rs (λ entry n. n.there) a.0.named) in
      let (d, rest) = get_resources_total exporter gs a.1 in ((group, here) ∷ d, rw (e, rest) refl)

  all_resources_total :
      (es : Dict String ExporterSession) (found : Dict String ResourceDicts)
      → All (λ (entry : String × ExporterSession). IsNamedSession h entry.1) es
      → (d : Dict String ResourceDicts) × (all_resources h es found s ≡ (ok d, s))
  unfolding all_resources ◌>>=◌
  all_resources_total [] found a = (found, refl)
  all_resources_total ((_, e) ∷ es) found a =
      let (here, e') = get_resources_total e.name e.groups a.0.named in
      let (d, rest) = all_resources_total es (put e.name here found) a.1 in (d, rw (e', rest) refl)

-- In a state that the coordinator reaches, in which each place stands under its name: saving
-- returns, changes nothing but the flag, and loading the snapshot of the places gives each place
-- as it was, but that nobody has acquired it, it holds nothing, is not reserved, and allows nobody.
pub save-load :
    (s : Coordinator)
    → Reachable s
    → Entries (λ name p. p.name ≡ name) s.places
    → (resources : Dict String ResourceDicts) × (file : Dict String PlaceDict) × (save s
        ≡ (ok (resources, file), record s { save_scheduled = false }))
      × (load (some file) ≡ forget_all s.places)
unfolding save load ◌>>=◌
save-load s r named =
    let t : Coordinator = record s { save_scheduled = false } in
    let o = (Reachable-IsSound s r).orderly in
    let (resources, e) = all_resources_total s.heap t s.exporters [] o.named in
    (
      resources,
      place_dicts s.heap s.places,
      rw e refl,
      load_places-place_dicts s.heap s.places named,
    )
