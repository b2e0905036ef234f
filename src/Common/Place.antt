-- ===== src/Common/Place.antt =====
-- labgrid/remote/common.py: `Place`, and its message. In the coordinator a place holds resource
-- objects, in a client it holds paths, so the type `R` of the held resources is a parameter.
pub mod Laws
pub mod Snapshot
use labgrid.Prelude.{
  ℕ, ◌≡◌, Bool, true, false, not, List, [], ◌∷◌, map, String, Option, none, some, if◌then◌else◌,
  any, string_eq, ◌==◌, Outcome, ok, raised, ◌>>=◌, assertion_error,
}
use labgrid.Prelude.Text.{str_empty, join, split}
use labgrid.Prelude.Dict.{Dict}
use labgrid.Common.Match.{ResourceMatch, ResourcePath, ismatch, from_parts}
use labgrid.Common.Entry.{or_empty, or_none}

-- Times are ticks of a clock. The sets are lists without repetitions.
pub record Place {ℓ} (R : Type ℓ) : Type ℓ where
  pub name : String
  pub aliases : List String
  pub comment : String
  pub tags : Dict String String
  pub matches : List ResourceMatch
  pub acquired : Option String
  pub acquired_resources : List R
  pub allowed : List String
  pub created : ℕ
  pub changed : ℕ
  pub reservation : Option String

-- `Place(name)` at the time `now`
unfoldable pub new_place {ℓ} : {R : Type ℓ} → String → ℕ → Place R
new_place name now = record {
  name = name;
  aliases = [];
  comment = "";
  tags = [];
  matches = [];
  acquired = none;
  acquired_resources = [];
  allowed = [];
  created = now;
  changed = now;
  reservation = none;
}

unfoldable pub touch {ℓ} : {R : Type ℓ} → ℕ → Place R → Place R
touch now p = record p { changed = now }

unfoldable pub first_match : List ResourceMatch → ResourcePath → Option ResourceMatch
unfolding ismatch
first_match [] path = none
first_match (m ∷ ms) path = if ismatch m path then some m else first_match ms path

unfoldable pub first_unmatched : List ResourceMatch → List ResourcePath → Option ResourceMatch
unfolding ismatch any
first_unmatched [] paths = none
first_unmatched (m ∷ ms) paths =
    if not (any (λ path. ismatch m path) paths) then some m else first_unmatched ms paths

abbrev pub is_some {ℓ} : {A : Type ℓ} → Option A → Bool
is_some none = false
is_some (some a) = true

module _ {ℓ} {R : Type ℓ} where
  unfoldable pub getmatch : Place R → ResourcePath → Option ResourceMatch
  unfolding first_match
  getmatch p path = first_match p.matches path

  unfoldable pub hasmatch : Place R → ResourcePath → Bool
  unfolding getmatch
  hasmatch p path = is_some (getmatch p path)

  unfoldable pub unmatched : Place R → List ResourcePath → Option ResourceMatch
  unfolding first_unmatched
  unmatched p paths = first_unmatched p.matches paths

-- The messages.
pub record MatchMsg : Type 0 where
  pub exporter : String
  pub group : String
  pub cls : String
  pub name : Option String
  pub rename : Option String

unfoldable pub match_as_pb2 : ResourceMatch → MatchMsg
match_as_pb2 m = record {
  exporter = m.exporter;
  group = m.group;
  cls = m.cls;
  name = m.name;
  rename = m.rename;
}

-- `pb2.rename` is read without `HasField`, so an unset one is read as the empty text.
unfoldable pub match_from_pb2 : MatchMsg → ResourceMatch
match_from_pb2 m = record {
  exporter = m.exporter;
  group = m.group;
  cls = m.cls;
  name = m.name;
  rename = some (or_empty m.rename);
}

pub record PlaceMsg : Type 0 where
  pub name : String
  pub aliases : List String
  pub comment : String
  pub tags : Dict String String
  pub matches : List MatchMsg
  pub acquired : Option String
  pub acquired_resources : List String
  pub allowed : List String
  pub created : ℕ
  pub changed : ℕ
  pub reservation : Option String

-- `"/".join(resource.path)`; a coordinator's path has four parts.
path_text : ResourcePath → Outcome String
unfolding join
path_text p = elim p.name [
  | none ↦ raised assertion_error
  | some n ↦ ok (join "/" (p.exporter ∷ p.group ∷ p.cls ∷ n ∷ []))
]

path_texts : List ResourcePath → Outcome (List String)
unfolding path_text
path_texts [] = ok []
path_texts (p ∷ ps) = path_text p >>= λ s. path_texts ps >>= λ ss. ok (s ∷ ss)

-- `if self.reservation: place.reservation = self.reservation`
abbrev truthy : Option String → Option String
truthy none = none
truthy (some s) = or_none s

unfoldable pub as_pb2 {ℓ} : {R : Type ℓ} → (R → ResourcePath) → Place R → Outcome PlaceMsg
unfolding path_texts match_as_pb2
as_pb2 path p = path_texts (map path p.acquired_resources) >>= λ texts. ok (record {
  name = p.name;
  aliases = p.aliases;
  comment = p.comment;
  tags = p.tags;
  matches = map match_as_pb2 p.matches;
  acquired = some (or_empty p.acquired);
  acquired_resources = texts;
  allowed = p.allowed;
  created = p.created;
  changed = p.changed;
  reservation = truthy p.reservation;
})

-- `path.split("/")`, which must give four parts.
four_parts : List String → Outcome ResourcePath
four_parts (e ∷ g ∷ c ∷ n ∷ []) = ok (record { exporter = e; group = g; cls = c; name = some n })
four_parts _ = raised assertion_error

read_paths : List String → Outcome (List ResourcePath)
unfolding four_parts split
read_paths [] = ok []
read_paths (s ∷ ss) = four_parts (split b'/' s) >>= λ p. read_paths ss >>= λ ps. ok (p ∷ ps)

unfoldable pub from_pb2 : PlaceMsg → Outcome (Place ResourcePath)
unfolding read_paths match_from_pb2
from_pb2 m = read_paths m.acquired_resources >>= λ paths. ok (record {
  name = m.name;
  aliases = m.aliases;
  comment = m.comment;
  tags = m.tags;
  matches = map match_from_pb2 m.matches;
  acquired = truthy m.acquired;
  acquired_resources = paths;
  allowed = m.allowed;
  created = m.created;
  changed = m.changed;
  reservation = m.reservation;
})

-- Everything but the name, as `setattr` puts it onto the client's place. A name that differs is an
-- AssertionError.
unfoldable pub update_from_pb2 : Place ResourcePath → PlaceMsg → Outcome (Place ResourcePath)
unfolding from_pb2
update_from_pb2 self m = from_pb2 m >>= λ p.
    if p.name == self.name then ok (record p { name = self.name }) else raised assertion_error
