-- ===== src/Common/Place/Snapshot.antt =====
-- labgrid/remote/common.py: `Place.asdict`, and the place that is built from such a dictionary.
use labgrid.Prelude.{ℕ, List, map, String, Option}
use labgrid.Prelude.Dict.{Dict}
use labgrid.Common.Match.{ResourceMatch, ResourcePath}
use labgrid.Common.Place.{Place}

-- The dictionary of a place: all but its name, with the paths of the resources that it holds.
pub record PlaceDict : Type 0 where
  pub aliases : List String
  pub comment : String
  pub tags : Dict String String
  pub matches : List ResourceMatch
  pub acquired : Option String
  pub acquired_resources : List ResourcePath
  pub allowed : List String
  pub created : ℕ
  pub changed : ℕ
  pub reservation : Option String

unfoldable pub asdict {ℓ} : {R : Type ℓ} → (R → ResourcePath) → Place R → PlaceDict
asdict path p = record {
  aliases = p.aliases;
  comment = p.comment;
  tags = p.tags;
  matches = p.matches;
  acquired = p.acquired;
  acquired_resources = map path p.acquired_resources;
  allowed = p.allowed;
  created = p.created;
  changed = p.changed;
  reservation = p.reservation;
}
