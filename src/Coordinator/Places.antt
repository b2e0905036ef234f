-- ===== src/Coordinator/Places.antt =====
-- labgrid/remote/coordinator.py: the requests that change places. Each is made under the lock.
use labgrid.Prelude.{
  ℕ, Bool, false, not, List, [], ◌∷◌, ◌++◌, String, Option, none, some, if◌then◌else◌, any,
  contains, remove, string_eq, nat_eq, ◌==◌, Outcome, ok, raised, key_error, invalid_argument,
  already_exists, failed_precondition,
}
use labgrid.Prelude.Text.{str_empty, split}
use labgrid.Prelude.Dict.{Dict, get, has, put, del}
use labgrid.Common.Tags.{tag_key_match, tag_val_match}
use labgrid.Common.Match.{ResourceMatch, from_parts, same_match}
use labgrid.Common.Place.{Place, PlaceMsg, new_place, touch}
use labgrid.Common.Place
use labgrid.Coordinator.State.{
  Update, updates, Coordinator, M, pure, lift, throw, modify, get_state, unless, or_abort,
  context_abort, ◌>>=◌, ◌>>◌,
}
use labgrid.Coordinator.State
use labgrid.Coordinator.Publish.{publish, publish_place, path_of}
use labgrid.Coordinator.Sessions.{save_later, truthy_acquired}

-- A place object is changed where it stands, under `name`.
unfoldable pub put_place : (name : String) → Place ℕ → M (Unit {0})
unfolding put
put_place name p = modify (λ s. record s { places = put name p s.places })

-- `place.touch()`, `self._publish_place(place)` and `self.save_later()` after a change.
unfoldable pub store : (name : String) → Place ℕ → M (Unit {0})
unfolding put_place publish_place save_later touch
store name p = do
  s ← get_state
  let p' = touch s.clock p
  put_place name p'
  publish_place p'
  save_later

-- `place = self.places[placename]`, whose KeyError is an abort.
unfoldable pub find_place : String → M (Place ℕ)
unfolding get or_abort
find_place name s = or_abort (get name s.places) invalid_argument s

unfoldable pub add_place : String → M (Unit {0})
unfolding has put_place publish_place save_later new_place
add_place name = do
  s ← get_state
  unless (not (str_empty name)) (context_abort invalid_argument) (
      unless (not (has name s.places)) (context_abort already_exists)
        (do let p = new_place name s.clock; put_place name p; publish_place p; save_later))

unfoldable pub delete_place : String → M (Unit {0})
unfolding has del publish save_later
delete_place name = do
  s ← get_state
  unless (not (str_empty name)) (context_abort invalid_argument) (
      unless (has name s.places) (context_abort already_exists) (do
        modify (λ t. record t { places = del name t.places })
        publish (updates (State.del_place name ∷ []))
        save_later))

-- `set.add`
unfoldable pub set_add : String → List String → List String
unfolding contains
set_add a xs = if contains a xs then xs else xs ++ a ∷ []

unfoldable pub add_place_alias : (placename alias : String) → M (Unit {0})
unfolding set_add store find_place
add_place_alias placename alias = do
  p ← find_place placename
  store placename (record p { aliases = set_add alias p.aliases })

-- `set.remove` raises a KeyError, which the handler's `except ValueError` does not catch.
unfoldable pub delete_place_alias : (placename alias : String) → M (Unit {0})
unfolding contains remove store find_place
delete_place_alias placename alias = do
  p ← find_place placename
  unless (contains alias p.aliases) (throw key_error)
      (store placename (record p { aliases = remove alias p.aliases }))

unfoldable pub check_tags : Dict String String → M (Unit {0})
unfolding tag_key_match tag_val_match
check_tags [] = pure {0} tt
check_tags ((k, v) ∷ tags) = do
  unless (tag_key_match k) (context_abort invalid_argument)
      (unless (tag_val_match v) (context_abort invalid_argument) (pure {0} tt))
  check_tags tags

-- An empty value removes the tag.
unfoldable pub apply_tags : Dict String String → Dict String String → Dict String String
unfolding put del
apply_tags [] old = old
apply_tags ((k, v) ∷ tags) old = apply_tags tags (if str_empty v then del k old else put k v old)

unfoldable pub set_place_tags : String → Dict String String → M (Unit {0})
unfolding check_tags apply_tags store find_place
set_place_tags placename tags = do
  p ← find_place placename
  check_tags tags
  store placename (record p { tags = apply_tags tags p.tags })

unfoldable pub set_place_comment : (placename comment : String) → M (Unit {0})
unfolding store find_place
set_place_comment placename comment = do
  p ← find_place placename
  store placename (record p { comment = comment })

-- `rm in place.matches` and `place.matches.remove(rm)`, by the equality of matches.
unfoldable pub has_match : ResourceMatch → List ResourceMatch → Bool
unfolding any same_match
has_match rm ms = any (λ m. same_match m rm) ms

unfoldable pub remove_match : ResourceMatch → List ResourceMatch → List ResourceMatch
unfolding same_match
remove_match rm [] = []
remove_match rm (m ∷ ms) = if same_match m rm then ms else m ∷ remove_match rm ms

unfoldable pub add_place_match : (placename pattern : String) → Option String → M (Unit {0})
unfolding from_parts split has_match store find_place
add_place_match placename pattern rename = do
  p ← find_place placename
  rm ← lift (from_parts (split b'/' pattern) rename)
  unless (not (has_match rm p.matches)) (context_abort already_exists)
      (store placename (record p { matches = p.matches ++ rm ∷ [] }))

unfoldable pub delete_place_match : (placename pattern : String) → Option String → M (Unit {0})
unfolding from_parts split has_match remove_match store find_place
delete_place_match placename pattern rename = do
  p ← find_place placename
  rm ← lift (from_parts (split b'/' pattern) rename)
  unless (has_match rm p.matches) (context_abort invalid_argument)
      (store placename (record p { matches = remove_match rm p.matches }))

-- `username = self.clients[peer].name`
unfoldable pub find_user : String → M String
unfolding get
find_user peer = do
  s ← get_state
  client ← or_abort (get peer s.clients) failed_precondition
  pure client.name

unfoldable pub allow_place : (peer placename user : String) → M (Unit {0})
unfolding set_add store find_place find_user
allow_place peer placename user = do
  username ← find_user peer
  p ← find_place placename
  unless (truthy_acquired p.acquired) (context_abort failed_precondition) (
      unless (is_user p.acquired username) (context_abort failed_precondition)
        (store placename (record p { allowed = set_add user p.allowed })))
  where
    is_user : Option String → String → Bool
    is_user none u = false
    is_user (some a) u = a == u

unfoldable pub place_messages : Coordinator → List (String × Place ℕ) → Outcome (List PlaceMsg)
unfolding path_of Place.as_pb2
place_messages s [] = ok []
place_messages s ((_, p) ∷ ps) = elim (Place.as_pb2 (path_of s.heap) p) [
  | raised e ↦ raised e
  | ok msg ↦ elim (place_messages s ps) [ raised e ↦ raised e | ok msgs ↦ ok (msg ∷ msgs) ]
]

-- An exception is logged, and the answer is then `None`.
unfoldable pub get_places : M (Option (List PlaceMsg))
unfolding place_messages
get_places s = elim (place_messages s s.places) [
  | ok msgs ↦ (ok (some msgs), s)
  | raised e ↦ (ok none, s)
]
