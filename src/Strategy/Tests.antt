-- ===== src/Strategy/Tests.antt =====
-- labgrid/strategy/graphstrategy.py on a strategy with the states off, barebox and shell, whose
-- world is the list of the methods called so far.
use labgrid.Prelude.{
  ℕ, List, [], ◌∷◌, ◌++◌, String, Option, none, some, ◌≡◌, refl, true, false, Bool, ok, raised,
  Outcome, arith, string_eq, ◌==◌, ==_iff, if◌then◌else◌, ◌≢◌, ◌⊎◌, graph_strategy_runtime_error,
  out_of_fuel, all, Bool-cases, inl, inr, ◌<◌, All,
}
use labgrid.Prelude.Dict.{get, has, Entries-get}
use labgrid.Strategy.{States, GraphStrategy, find_abs_path, find_rel_path, known, reversed}
use labgrid.Strategy.Paths.{IsWay, Ranked, find_abs_path_total, find_abs_path-no_via}
use labgrid.Strategy.Init.{IsWellFormed, post_init, post_init-IsWellFormed}
use labgrid.Strategy.History.{find_rel_path_lem}
use labgrid.Strategy.Transition.{transition, parse_state}
use labgrid.Strategy.Current.{transition-IsCurrent}
use labgrid.Strategy.Way.{transition-IsWay}
use labgrid.Strategy.Cyclic.{GoesRound, find_abs_path-cyclic}

abbrev states : States
states = ("barebox", "off" ∷ []) ∷ ("off", []) ∷ ("shell", "barebox" ∷ "off" ∷ []) ∷ []

abbrev strategy : GraphStrategy
strategy = record {
  states = states;
  root_state = "off";
  path = "off" ∷ "barebox" ∷ [];
  transition_running = false;
}

abbrev call : String → List String → Outcome (Unit {0}) × List String
call name w = (ok tt, w ++ name ∷ [])

abbrev reset : List String → Outcome (Unit {0}) × List String
reset w = (ok tt, [])

abbrev rank : String → ℕ
rank s = if s == "shell" then 2 else if s == "barebox" then 1 else 0

ranked : Ranked states rank
unfolding has
ranked s ds h =
    Entries-get (λ t es. All (λ d. (has d states ≡ true) × (rank d < rank t)) es) s states
      (((refl, omega arith), tt), (tt, (((refl, omega arith), ((refl, omega arith), tt)), tt))) h

well_formed : IsWellFormed strategy
unfolding get has all
well_formed = record {
  root_is = refl;
  only_root = λ s h.
      Entries-get (λ t es. es ≡ [] → t ≡ "off") s states ((λ e. cc), ((λ e. refl), ((λ e. cc), tt)))
        h refl;
  all_known = λ s ds h.
      Entries-get (λ t es. all (λ d. has d states) es ≡ true) s states (refl, (refl, (refl, tt))) h;
}

find_abs_path_total_example :
    ((path : List String) × (find_abs_path 5 states "shell" ("off" ∷ []) ≡ ok path)
      × IsWay states "shell" path)
    ⊎ (find_abs_path 5 states "shell" ("off" ∷ []) ≡ raised graph_strategy_runtime_error)
unfolding has
find_abs_path_total_example =
    find_abs_path_total states rank 5 "shell" ("off" ∷ []) ranked refl (omega arith)

find_abs_path-no_via_example :
    (path : List String) × (find_abs_path 5 states "shell" [] ≡ ok path) × IsWay states "shell" path
unfolding has
find_abs_path-no_via_example = find_abs_path-no_via states rank 5 "shell" ranked refl (omega arith)

-- The shortest way is taken where `via` asks for it, else the one of the first dependencies.
find_abs_path_tests :
    (find_abs_path 5 states "shell" [] ≡ ok ("off" ∷ "barebox" ∷ "shell" ∷ []))
    × (find_abs_path 5 states "shell" ("off" ∷ []) ≡ ok ("off" ∷ "shell" ∷ []))
unfolding find_abs_path get
find_abs_path_tests = (refl, refl)

-- Three `via` states of which one is dropped without a word: the loop goes on behind the place of
-- the state that it removed.
abbrev many : States
many = ("a", "x" ∷ []) ∷ ("c", "r" ∷ []) ∷ ("r", []) ∷ ("s", "a" ∷ "c" ∷ []) ∷ ("x", "r" ∷ []) ∷ []

dropped_via_test : find_abs_path 9 many "s" ("a" ∷ "x" ∷ "c" ∷ []) ≡ ok ("r" ∷ "x" ∷ "a" ∷ "s" ∷ [])
unfolding find_abs_path get
dropped_via_test = refl

abbrev round : States
round = ("a", "b" ∷ []) ∷ ("b", "a" ∷ []) ∷ ("r", []) ∷ []

abbrev on_round : String → Bool
on_round s = if s == "a" then true else s == "b"

goes_round : GoesRound round on_round
unfolding get
goes_round s h = elim (Bool-cases (s == "a")) [
  | inl e ↦ rw ((==_iff s "a").0 e) ("b", [], refl, (refl, tt))
  | inr e ↦
      let is_b : (s == "b") ≡ true = ground (arith, h, e) in
      rw ((==_iff s "b").0 is_b) ("a", [], refl, (refl, tt))
]

find_abs_path-cyclic_example : find_abs_path 1000 round "a" [] ≡ raised out_of_fuel
unfolding known reversed all
find_abs_path-cyclic_example = find_abs_path-cyclic round on_round 1000 "a" [] goes_round refl refl

transition-IsCurrent_example :
    (transition call reset 5 "shell" none strategy ("off" ∷ "barebox" ∷ [])).2
    ≡ (transition call reset 5 "shell" none strategy ("off" ∷ "barebox" ∷ [])).1.path
transition-IsCurrent_example =
    transition-IsCurrent call reset (λ w. w) (λ name w e. refl) (λ w. (refl, refl)) 5 "shell" none
      strategy ("off" ∷ "barebox" ∷ []) well_formed refl

transition-IsWay_example :
    ((done : List String)
      → (transition call reset 5 "shell:off" none strategy []).0 ≡ ok done
      → IsWay states "shell" (transition call reset 5 "shell:off" none strategy []).1.path)
    × ((transition call reset 5 "shell:off" none strategy []).1.transition_running ≡ false)
unfolding parse_state
transition-IsWay_example =
    transition-IsWay call reset 5 "shell:off" "shell" none ("off" ∷ []) strategy [] refl

-- Only the new state is run where the path goes on.
transition_test : transition call reset 5 "shell" none strategy ("off" ∷ "barebox" ∷ []) ≡ (
  ok ("shell" ∷ []),
  record strategy { path = "off" ∷ "barebox" ∷ "shell" ∷ [] },
  "off" ∷ "barebox" ∷ "shell" ∷ [],
)
unfolding transition get has
transition_test = refl

-- A transition that is asked for while another one runs is refused, and marks the other one as not
-- running any more.
refused_test :
    transition call reset 5 "shell" none (record strategy { transition_running = true }) []
    ≡ (raised graph_strategy_runtime_error, strategy, [])
unfolding transition
refused_test = refl

find_rel_path_lem_example :
    ((rest : List String)
      → rest ≢ []
      → ("off" ∷ "barebox" ∷ "shell" ∷ []) ≡ "off" ∷ rest
      → find_rel_path ("off" ∷ "barebox" ∷ "shell" ∷ []) ("off" ∷ []) ≡ rest)
    × (((rest : List String) → ("off" ∷ "barebox" ∷ "shell" ∷ []) ≢ "off" ∷ rest)
        → find_rel_path ("off" ∷ "barebox" ∷ "shell" ∷ []) ("off" ∷ [])
          ≡ "off" ∷ "barebox" ∷ "shell" ∷ [])
find_rel_path_lem_example =
    find_rel_path_lem ("off" ∷ "barebox" ∷ "shell" ∷ []) ("off" ∷ []) λ e. cc

abbrev attributes : List (String × Option (List String))
attributes =
    ("activate", none)
    ∷ ("state_barebox", some ("off" ∷ []))
    ∷ ("state_off", some [])
    ∷ ("state_shell", some ("barebox" ∷ "off" ∷ []))
    ∷ []

abbrev fresh : GraphStrategy
fresh = record { states = states; root_state = "off"; path = []; transition_running = false }

post_init-IsWellFormed_example : IsWellFormed fresh × (fresh.path ≡ [])
unfolding post_init has
post_init-IsWellFormed_example = post_init-IsWellFormed attributes fresh refl
