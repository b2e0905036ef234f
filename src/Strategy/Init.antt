-- ===== src/Strategy/Init.antt =====
-- labgrid/strategy/graphstrategy.py: `__attrs_post_init__`, over the attributes in the order of
-- `dir(self)`; an attribute that is callable comes with its dependencies.
use labgrid.Prelude.{
  ℕ, ◌≡◌, refl, subst, Bool, true, false, not, Option, none, some, List, [], ◌∷◌, String, string_eq,
  ==_iff, if◌then◌else◌, all, is_empty, contains, Distinct, nat_beq, Outcome, ok, raised, ◌>>=◌,
  check, >>=-eq-ok, invalid_graph_strategy_error, arith, Bool-cases, inl, inr,
}
use labgrid.Prelude.Text.{split, join, codes}
use labgrid.Prelude.Dict.{get, has, put, keys, Entries, Entries-get, Distinct-keys-put}
use labgrid.Strategy.{GraphStrategy, States}

unfoldable pub starts_with : List ℕ → List ℕ → Bool
starts_with [] s = true
starts_with (c ∷ cs) [] = false
starts_with (c ∷ cs) (d ∷ ds) = if nat_beq c d then starts_with cs ds else false

-- `"_".join(state_name.split("_")[1:])`
unfoldable pub after_prefix : List String → String
unfolding join
after_prefix [] = ""
after_prefix (p ∷ ps) = join "_" ps

unfoldable pub find_states : List (String × Option (List String)) → States → Outcome States
unfolding starts_with after_prefix split put
find_states [] states = ok states
find_states ((name, method) ∷ attributes) states =
    if starts_with (codes "state_") (codes name)
    then elim method [
      | none ↦ raised invalid_graph_strategy_error
      | some dependencies ↦
          find_states attributes (put (after_prefix (split b'_' name)) dependencies states)
    ]
    else find_states attributes states

unfoldable pub dependencies_known : States → States → Bool
unfolding all has
dependencies_known states [] = true
dependencies_known states ((name, ds) ∷ rest) =
    if all (λ d. has d states) ds then dependencies_known states rest else false

-- `[k for k, v in self.states.items() if not v["dependencies"]]`
unfoldable pub find_roots : States → List String
find_roots [] = []
find_roots ((name, ds) ∷ rest) = if is_empty ds then name ∷ find_roots rest else find_roots rest

unfoldable pub single_root : List String → Outcome String
single_root (root ∷ []) = ok root
single_root _ = raised invalid_graph_strategy_error

-- The checks, up to the call of `invalidate`.
unfoldable pub post_init : List (String × Option (List String)) → Outcome GraphStrategy
unfolding find_states dependencies_known find_roots single_root
post_init attributes = find_states attributes [] >>= λ states.
    check (not (is_empty states)) invalid_graph_strategy_error >>= λ _.
    check (dependencies_known states states) invalid_graph_strategy_error >>= λ _.
    single_root (find_roots states) >>= λ root.
    ok (record { states = states; root_state = root; path = []; transition_running = false })

-- One state has no dependencies, and all dependencies are states.
pub record IsWellFormed (g : GraphStrategy) : Type 0 where
  pub root_is : get g.root_state g.states ≡ some []
  pub only_root : (s : String) → get s g.states ≡ some [] → s ≡ g.root_state
  pub all_known :
      (s : String) (ds : List String)
      → get s g.states ≡ some ds
      → all (λ d. has d g.states) ds ≡ true

dependencies_known-Entries :
    (states rest : States)
    → dependencies_known states rest ≡ true
    → Entries (λ _ ds. all (λ d. has d states) ds ≡ true) rest
unfolding dependencies_known
dependencies_known-Entries states [] h = tt
dependencies_known-Entries states ((name, ds) ∷ rest) h =
    (ground arith, dependencies_known-Entries states rest (ground arith))

find_roots-has :
    (states : States) (s : String) → get s states ≡ some [] → contains s (find_roots states) ≡ true
unfolding find_roots get contains
find_roots-has [] s h = cc
find_roots-has ((name, []) ∷ rest) s h =
    ground (arith, ==_iff name s, ==_iff s name, find_roots-has rest s)
find_roots-has ((name, d ∷ ds) ∷ rest) s h = find_roots-has rest s (ground arith)

find_roots-key :
    (states : States) (s : String)
    → contains s (find_roots states) ≡ true
    → contains s (keys states) ≡ true
unfolding find_roots contains
find_roots-key [] s h = h
find_roots-key ((name, []) ∷ rest) s h = ground (arith, find_roots-key rest s)
find_roots-key ((name, d ∷ ds) ∷ rest) s h = ground (arith, find_roots-key rest s)

find_roots-get :
    (states : States) (s : String)
    → Distinct (keys states)
    → contains s (find_roots states) ≡ true
    → get s states ≡ some []
unfolding find_roots get contains
find_roots-get [] s once h = cc
find_roots-get ((name, []) ∷ rest) s once h =
    ground (arith, ==_iff name s, ==_iff s name, find_roots-get rest s once.1)
find_roots-get ((name, d ∷ ds) ∷ rest) s once h =
    ground (arith, ==_iff name s, find_roots-key rest s, find_roots-get rest s once.1)

find_states-Distinct :
    (attributes : List (String × Option (List String))) (states : States) (r : States)
    → Distinct (keys states)
    → find_states attributes states ≡ ok r
    → Distinct (keys r)
unfolding find_states
find_states-Distinct [] states r once e =
    let same : states ≡ r = cc in subst (λ d. Distinct (keys d)) same once
find_states-Distinct ((name, none) ∷ attributes) states r once e =
    elim (Bool-cases (starts_with (codes "state_") (codes name))) [
      | inl hit ↦ absurd (ground arith)
      | inr miss ↦ find_states-Distinct attributes states r once (ground arith)
    ]
find_states-Distinct ((name, some ds) ∷ attributes) states r once e =
    elim (Bool-cases (starts_with (codes "state_") (codes name))) [
      | inl hit ↦
          find_states-Distinct attributes _ r
            (Distinct-keys-put (after_prefix (split b'_' name)) ds states once) (ground arith)
      | inr miss ↦ find_states-Distinct attributes states r once (ground arith)
    ]

single_root-eq :
    (roots : List String) (root : String) → single_root roots ≡ ok root → roots ≡ root ∷ []
unfolding single_root
single_root-eq [] root e = cc
single_root-eq (r ∷ []) root e = cc
single_root-eq (r ∷ s ∷ rs) root e = cc

-- A strategy that is accepted has one state without dependencies, its root state, every dependency
-- is one of its states, and its path is empty.
pub post_init-IsWellFormed :
    (attributes : List (String × Option (List String))) (g : GraphStrategy)
    → post_init attributes ≡ ok g
    → IsWellFormed g × (g.path ≡ [])
unfolding post_init contains
post_init-IsWellFormed attributes g e =
    let (states, found, e1) = >>=-eq-ok (find_states attributes []) _ e in
    let (_, _, e2) = >>=-eq-ok (check (not (is_empty states)) invalid_graph_strategy_error) _ e1 in
    let (_, known, e3) =
      >>=-eq-ok (check (dependencies_known states states) invalid_graph_strategy_error) _ e2 in
    let (root, single, e4) = >>=-eq-ok (single_root (find_roots states)) _ e3 in
    let roots = single_root-eq (find_roots states) root single in
    let g' : GraphStrategy = record {
      states = states;
      root_state = root;
      path = [];
      transition_running = false;
    } in
    let same : g' ≡ g = cc in
    subst (λ h. IsWellFormed h × (h.path ≡ [])) same
      (
        record {
          root_is =
              find_roots-get states root (find_states-Distinct attributes [] states tt found)
                (rw roots (ground (arith, ==_iff root root)));
          only_root = λ s h. ground (arith, roots, find_roots-has states s h, ==_iff s root);
          all_known = λ s ds h.
              Entries-get _ s states
                (dependencies_known-Entries states states (ground (arith, known))) h;
        },
        refl,
      )
