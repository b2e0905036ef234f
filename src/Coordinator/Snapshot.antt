-- ===== src/Coordinator/Snapshot.antt =====
-- labgrid/remote/coordinator.py: the snapshots of resources and places that `save` writes, and what
-- `load` makes of a snapshot. YAML gives back what was dumped.
use labgrid.Prelude.{
  ℕ, ◌≡◌, refl, false, [], ◌∷◌, String, Option, none, some, string_eq, nat_eq, or_raise, name_error,
}
use labgrid.Prelude.Dict.{Dict, get, put, Entries}
use labgrid.Common.Entry.{ResourceData}
use labgrid.Common.Entry
use labgrid.Common.Place.{Place}
use labgrid.Common.Place.Snapshot.{PlaceDict}
use labgrid.Common.Place.Snapshot
use labgrid.Coordinator.State.{
  ExporterSession, Groups, Heap, M, pure, lift, modify, get_state, when, ◌>>=◌, ◌>>◌,
}
use labgrid.Coordinator.Publish.{path_of}

-- `ExporterSession.get_resources`
abbrev pub ResourceDicts : Type 0
ResourceDicts = Dict String (Dict String ResourceData)

unfoldable pub group_resources : Heap → Dict String ℕ → M (Dict String ResourceData)
unfolding get Entry.asdict
group_resources h [] = pure []
group_resources h ((name, ref) ∷ rs) = do
  r ← lift (or_raise (get ref h.cells) name_error)
  rest ← group_resources h rs
  pure ((name, Entry.asdict r.data_) ∷ rest)

unfoldable pub get_resources : Heap → Groups → M ResourceDicts
unfolding group_resources
get_resources h [] = pure []
get_resources h ((group, rs) ∷ gs) = do
  here ← group_resources h rs
  rest ← get_resources h gs
  pure ((group, here) ∷ rest)

-- `_get_resources`, by the names of the exporters.
unfoldable pub all_resources :
    Heap → Dict String ExporterSession → Dict String ResourceDicts → M (Dict String ResourceDicts)
unfolding get_resources put
all_resources h [] found = pure found
all_resources h ((_, e) ∷ es) found = do
  here ← get_resources h e.groups
  all_resources h es (put e.name here found)

-- `_get_places`
unfoldable pub place_dicts : Heap → Dict String (Place ℕ) → Dict String PlaceDict
unfolding path_of Snapshot.asdict
place_dicts h [] = []
place_dicts h ((name, p) ∷ places) = (name, Snapshot.asdict (path_of h) p) ∷ place_dicts h places

-- `save`: the two snapshots are what is dumped.
unfoldable pub save : M (Dict String ResourceDicts × Dict String PlaceDict)
unfolding all_resources place_dicts
save = do
  modify (λ s. record s { save_scheduled = false })
  s ← get_state
  resources ← all_resources s.heap s.exporters []
  pure (resources, place_dicts s.heap s.places)

-- `_poll_step_save`
unfoldable pub poll_step_save : M (Unit {0})
unfolding save
poll_step_save = do s ← get_state; when s.save_scheduled (save >>= λ _. pure tt)

-- `load`: who had acquired a place, and what it held, is forgotten. A missing file is no place.
unfoldable pub place_from : (name : String) → PlaceDict → Place ℕ
place_from name config = record {
  name = name;
  aliases = config.aliases;
  comment = config.comment;
  tags = config.tags;
  matches = config.matches;
  acquired = none;
  acquired_resources = [];
  allowed = [];
  created = config.created;
  changed = config.changed;
  reservation = none;
}

unfoldable pub load_places : Dict String PlaceDict → Dict String (Place ℕ)
unfolding place_from
load_places [] = []
load_places ((name, config) ∷ file) = (name, place_from name config) ∷ load_places file

unfoldable pub load : (file : Option (Dict String PlaceDict)) → Dict String (Place ℕ)
unfolding load_places
load none = []
load (some file) = load_places file

-- Loaded places hold nothing.
load_places-IsEmpty :
    (file : Dict String PlaceDict) → Entries (λ _ p. p.acquired_resources ≡ []) (load_places file)
unfolding load_places place_from
load_places-IsEmpty [] = tt
load_places-IsEmpty ((name, config) ∷ file) = (refl, load_places-IsEmpty file)

pub load-IsEmpty :
    (file : Option (Dict String PlaceDict)) → Entries (λ _ p. p.acquired_resources ≡ []) (load file)
unfolding load
load-IsEmpty none = tt
load-IsEmpty (some file) = load_places-IsEmpty file
