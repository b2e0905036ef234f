-- ===== src/Coordinator/Catalogue.antt =====
-- labgrid/remote/coordinator.py: what the requests do to the catalogue of the places, independent
-- of sessions, resources and times. A catalogue is a function from names to descriptions.
pub mod Views
pub mod Kept
pub mod Scheduled
pub mod Changes
pub mod Refines
use labgrid.Prelude.{
  ℕ, ◌≡◌, Bool, true, false, List, [], ◌∷◌, ◌++◌, String, Option, none, some, if◌then◌else◌, all,
  remove, string_eq, ◌==◌, Outcome, ok, raised,
}
use labgrid.Prelude.Dict.{Dict, get}
use labgrid.Prelude.Text.{str_empty, split}
use mathlib.Core.Option.{map}
use labgrid.Common.Tags.{tag_key_match}
use labgrid.Common.Match.{ResourceMatch, from_parts}
use labgrid.Common.Place.{Place}
use labgrid.Coordinator.State.{Coordinator}
use labgrid.Coordinator.Places.{set_add, has_match, remove_match}
use labgrid.Coordinator.Runs.{Request, perform}
use labgrid.Coordinator.Runs

pub record Description : Type 0 where
  pub aliases : List String
  pub comment : String
  pub tags : String → Option String
  pub matches : List ResourceMatch

abbrev pub Catalogue : Type 0
Catalogue = String → Option Description

abbrev pub description : Place ℕ → Description
description p = record {
  aliases = p.aliases;
  comment = p.comment;
  tags = λ key. get key p.tags;
  matches = p.matches;
}

abbrev pub catalogue : Dict String (Place ℕ) → Catalogue
catalogue places name = map description (get name places)

-- Changes of a catalogue at one name.
abbrev pub set_at : String → Option Description → Catalogue → Catalogue
set_at name d c n = if name == n then d else c n

abbrev pub revise : String → (Description → Description) → Catalogue → Catalogue
revise name f c n = if name == n then map f (c n) else c n

abbrev pub blank : Description
blank = record { aliases = []; comment = ""; tags = λ _. none; matches = [] }

-- Tags one after the other: an empty value removes one.
abbrev pub retag : Dict String String → (String → Option String) → String → Option String
retag [] f = f
retag ((k, v) ∷ tags) f =
    retag tags (λ key. if k == key then if str_empty v then none else some v else f key)

abbrev pub valid_keys : Dict String String → Bool
valid_keys tags = all (λ tag. tag_key_match tag.0) tags

abbrev pub with_match : ResourceMatch → Description → Description
with_match m d = if has_match m d.matches then d else record d { matches = d.matches ++ m ∷ [] }

abbrev pub revise_matches :
    String
    → Outcome ResourceMatch
    → (ResourceMatch → Description → Description)
    → Catalogue
    → Catalogue
revise_matches name (ok m) f c = revise name (f m) c
revise_matches name (raised _) f c = c

abbrev pub added : String → Option Description → Catalogue → Catalogue
added name none c = set_at name (some blank) c
added name (some _) c = c

-- What a request does to the catalogue.
abbrev pub specify : Request → Catalogue → Catalogue
specify (Runs.add_place name) c = if str_empty name then c else added name (c name) c
specify (Runs.delete_place name) c = if str_empty name then c else set_at name none c
specify (Runs.add_place_alias name alias) c =
    revise name (λ d. record d { aliases = set_add alias d.aliases }) c
specify (Runs.delete_place_alias name alias) c =
    revise name (λ d. record d { aliases = remove alias d.aliases }) c
specify (Runs.set_place_tags name tags) c =
    if valid_keys tags then revise name (λ d. record d { tags = retag tags d.tags }) c else c
specify (Runs.set_place_comment name comment) c =
    revise name (λ d. record d { comment = comment }) c
specify (Runs.add_place_match name pattern rename) c =
    revise_matches name (from_parts (split b'/' pattern) rename) with_match c
specify (Runs.delete_place_match name pattern rename) c =
    revise_matches name (from_parts (split b'/' pattern) rename)
      (λ m d. record d { matches = remove_match m d.matches }) c
specify (Runs.acquire_place peer name) c = c
specify (Runs.release_place name fromuser) c = c
specify (Runs.allow_place peer name user) c = c
specify (Runs.create_reservation peer token prio filters) c = c
specify (Runs.cancel_reservation token) c = c
specify (Runs.poll_reservation token) c = c

-- Requests one after the other, on the coordinator and on a catalogue.
unfoldable pub run : List Request → Coordinator → Coordinator
unfolding perform
run [] s = s
run (r ∷ rs) s = run rs (perform r s)

abbrev pub replay : List Request → Catalogue → Catalogue
replay [] c = c
replay (r ∷ rs) c = replay rs (specify r c)
