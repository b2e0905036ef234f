-- ===== src/Strategy.antt =====
-- labgrid/strategy/graphstrategy.py: a strategy whose states form a graph of dependencies.
-- The methods of the states and the target belong to the user's setup: they are the parameters
-- `method` and `deactivate_all_drivers`, which act on a world `W`.
pub mod Paths
pub mod Transition
pub mod Init
pub mod History
pub mod Current
pub mod Way
pub mod Cyclic
mod Tests
use labgrid.Prelude.{
  ℕ, zero, suc, ◌≡◌, Bool, true, false, not, Option, none, some, List, [], ◌∷◌, ◌++◌, map, String,
  string_eq, ◌==◌, if◌then◌else◌, length, all, contains, remove, is_empty, Outcome, ok, raised,
  ◌>>=◌, ◌>>◌, check, or_raise, key_error, value_error, out_of_fuel, invalid_graph_strategy_error,
  graph_strategy_runtime_error, ltb, keep, ◌-◌,
}
use labgrid.Prelude.Text.{split, codes}
use labgrid.Prelude.Dict.{Dict, get, has, put, keys}

-- `self.states`, by name, with the dependencies of each.
abbrev pub States : Type 0
States = Dict String (List String)

pub record GraphStrategy : Type 0 where
  pub states : States
  pub root_state : String
  pub path : List String
  pub transition_running : Bool

-- `get_elem?` of the library, on these numbers.
abbrev pub get_elem? {ℓ} : {A : Type ℓ} → List A → ℕ → Option A
get_elem? [] n = none
get_elem? (x ∷ xs) zero = some x
get_elem? (x ∷ xs) (suc n) = get_elem? xs n

-- `for i in via: if i in dependencies: via.remove(i); next_state = i`. The loop keeps an index into
-- the list that it shortens. Each round moves the index on, so the length of the list and one are
-- enough fuel.
unfoldable pub visit_from : ℕ → ℕ → List String → List String → String → List String × String
unfolding contains remove
visit_from zero k dependencies via next_state = (via, next_state)
visit_from (suc fuel) k dependencies via next_state = elim (get_elem? via k) [
  | none ↦ (via, next_state)
  | some i ↦
      if contains i dependencies
      then visit_from fuel (suc k) dependencies (remove i via) i
      else visit_from fuel (suc k) dependencies via next_state
]

unfoldable pub visit : List String → List String → String → List String × String
unfolding visit_from
visit dependencies via next_state = visit_from (suc (length via)) 0 dependencies via next_state

-- The loop `while current_state["dependencies"]:`, with the path so far and the dependencies of
-- its first state. It need not end when the dependencies go round.
unfoldable pub extend_path :
    ℕ → States → List String → List String → List String → Outcome (List String × List String)
unfolding visit get
extend_path fuel states path [] via = ok (path, via)
extend_path zero states path (d ∷ ds) via = raised out_of_fuel
extend_path (suc fuel) states path (d ∷ ds) via =
    let (via', next_state) = visit (d ∷ ds) via d in
    or_raise (get next_state states) key_error >>= λ dependencies.
    extend_path fuel states (next_state ∷ path) dependencies via'

unfoldable pub reversed : List String → List String
reversed [] = []
reversed (x ∷ xs) = reversed xs ++ x ∷ []

unfoldable pub known : States → List String → Bool
unfolding all has
known states via = all (λ v. has v states) via

unfoldable pub check_left : List String × List String → Outcome (List String)
check_left (path, []) = ok path
check_left (path, v ∷ via) = raised graph_strategy_runtime_error

unfoldable pub find_abs_path : ℕ → States → String → List String → Outcome (List String)
unfolding extend_path reversed known get check_left
find_abs_path fuel states state via = or_raise (get state states) key_error >>= λ dependencies.
    check (known states (reversed via)) graph_strategy_runtime_error >>= λ _.
    extend_path fuel states (state ∷ []) dependencies (reversed via) >>= check_left

-- `xs[:n]` and `xs[n:]`
unfoldable pub take : ℕ → List String → List String
take zero xs = []
take (suc n) [] = []
take (suc n) (x ∷ xs) = x ∷ take n xs

unfoldable pub drop : ℕ → List String → List String
drop zero xs = xs
drop (suc n) [] = []
drop (suc n) (x ∷ xs) = drop n xs

unfoldable pub list_beq : List String → List String → Bool
list_beq [] [] = true
list_beq (x ∷ xs) (y ∷ ys) = if x == y then list_beq xs ys else false
list_beq [] (y ∷ ys) = false
list_beq (x ∷ xs) [] = false

-- `path[: -(len(path) - len(self.path))]`. A difference of nought gives `path[:0]`, and a negative
-- one counts from the front.
unfoldable pub cut : List String → List String → List String
unfolding take
cut path old =
    if ltb (length old) (length path)
    then take (length path - (length path - length old)) path
    else take (length old - length path) path

unfoldable pub find_rel_path : List String → List String → List String
unfolding cut list_beq drop
find_rel_path path old = if list_beq (cut path old) old then drop (length old) path else path
