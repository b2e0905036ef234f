-- ===== src/Common/Place/Laws.antt =====
-- labgrid/remote/common.py: the patterns of a place, and the way of a place through its message.
use labgrid.Prelude.{
  ◌≡◌, refl, ap, true, List, [], ◌∷◌, map, String, Option, none, some, any, All, string_eq, ok,
  >>=-eq-ok, arith,
}
use labgrid.Prelude.Text.{join, split, NoSep, split-join}
use labgrid.Common.Match.{ResourceMatch, ResourcePath, ismatch}
use labgrid.Common.Entry.{or_empty}
use labgrid.Common.Place.{
  Place, PlaceMsg, is_some, first_match, getmatch, hasmatch, match_as_pb2, match_from_pb2, as_pb2,
  from_pb2, path_text, path_texts, four_parts, read_paths, truthy,
}

first_match-eq-any :
    (ms : List ResourceMatch) (path : ResourcePath)
    → is_some (first_match ms path) ≡ any (λ m. ismatch m path) ms
unfolding first_match any
first_match-eq-any [] path = refl
first_match-eq-any (m ∷ ms) path = ground (arith, first_match-eq-any ms path)

-- The first match as a test over the list.
pub hasmatch_lem :
    (p : Place ResourcePath) (path : ResourcePath)
    → hasmatch p path ≡ any (λ m. ismatch m path) p.matches
unfolding hasmatch getmatch
hasmatch_lem p path = first_match-eq-any p.matches path

-- A path of four parts without a slash.
abbrev pub IsPlain : ResourcePath → Type 0
IsPlain p =
    NoSep b'/' (p.exporter ∷ p.group ∷ p.cls ∷ or_empty p.name ∷ []) × (is_some p.name ≡ true)

four_parts-path_text :
    (e g c : String) (n : Option String) {s : String}
    → NoSep b'/' (e ∷ g ∷ c ∷ or_empty n ∷ [])
    → path_text (record { exporter = e; group = g; cls = c; name = n }) ≡ ok s
    → four_parts (split b'/' s) ≡ ok (record { exporter = e; group = g; cls = c; name = n })
unfolding path_text four_parts
four_parts-path_text e g c none h eq = cc
four_parts-path_text e g c (some n) {s} h eq =
    let same : s ≡ join "/" (e ∷ g ∷ c ∷ n ∷ []) = ground arith in
    rw (same, split-join "/" e (g ∷ c ∷ n ∷ []) h) refl

read_paths-path_texts :
    (ps : List ResourcePath) {ss : List String}
    → All IsPlain ps
    → path_texts ps ≡ ok ss
    → read_paths ss ≡ ok ps
unfolding path_texts read_paths
read_paths-path_texts [] h eq = ground arith
read_paths-path_texts (p ∷ ps) h eq =
    let (s, e, eq') = >>=-eq-ok (path_text p) _ eq in
    let (ss, e', eq'') = >>=-eq-ok (path_texts ps) _ eq' in
    ground (
      arith,
      four_parts-path_text p.exporter p.group p.cls p.name h.0.0 e,
      read_paths-path_texts ps h.1 e',
    )

-- A client's match: a missing `rename` is read as the empty text.
abbrev pub read_rename : ResourceMatch → ResourceMatch
read_rename m = record m { rename = some (or_empty m.rename) }

map-match_from_pb2 :
    (ms : List ResourceMatch) → map match_from_pb2 (map match_as_pb2 ms) ≡ map read_rename ms
unfolding match_from_pb2 match_as_pb2
map-match_from_pb2 [] = refl
map-match_from_pb2 (m ∷ ms) = ap (λ r. read_rename m ∷ r) (map-match_from_pb2 ms)

truthy-or_empty : (a : Option String) → truthy (some (or_empty a)) ≡ truthy a
truthy-or_empty none = refl
truthy-or_empty (some s) = refl

-- What a client sees of a place: paths for resources, and no difference between an empty text and
-- none.
unfoldable pub client_view {ℓ} : {R : Type ℓ} → (R → ResourcePath) → Place R → Place ResourcePath
client_view path p = record {
  name = p.name;
  aliases = p.aliases;
  comment = p.comment;
  tags = p.tags;
  matches = map read_rename p.matches;
  acquired = truthy p.acquired;
  acquired_resources = map path p.acquired_resources;
  allowed = p.allowed;
  created = p.created;
  changed = p.changed;
  reservation = truthy p.reservation;
}

-- A client reads from the coordinator's message the place that was put in, if the names in the
-- paths of its resources hold no slash.
pub from_pb2-as_pb2_place {ℓ} :
    {R : Type ℓ} (path : R → ResourcePath) (p : Place R) {m : PlaceMsg}
    → All IsPlain (map path p.acquired_resources)
    → as_pb2 path p ≡ ok m
    → from_pb2 m ≡ ok (client_view path p)
unfolding as_pb2 from_pb2 client_view
from_pb2-as_pb2_place path p h eq =
    let (ss, e, eq') = >>=-eq-ok (path_texts (map path p.acquired_resources)) _ eq in
    ground (
      arith,
      read_paths-path_texts (map path p.acquired_resources) h e,
      map-match_from_pb2 p.matches,
      truthy-or_empty p.acquired,
    )
