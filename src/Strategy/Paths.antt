-- ===== src/Strategy/Paths.antt =====
-- labgrid/strategy/graphstrategy.py: the paths that `find_abs_path` returns, and when it returns.
use labgrid.Prelude.{
  ℕ, zero, suc, ◌≤◌, ◌<◌, ◌≡◌, refl, subst, true, Option, none, some, List, [], ◌∷◌, String,
  string_eq, ◌==◌, ==_iff, length, all, contains, remove, All, ok, raised, check, or_raise,
  >>=-eq-ok, key_error, graph_strategy_runtime_error, arith, Bool-cases, Option-cases, inl, inr,
  ◌⊎◌,
}
use labgrid.Prelude.Dict.{get, has, has-eq-true}
use labgrid.Strategy.{
  States, get_elem?, visit_from, visit, extend_path, reversed, known, check_left, find_abs_path,
}

-- The state `y` depends on `x` directly.
pub record DependsOn (states : States) (y x : String) : Type 0 where
  pub dependencies : List String
  pub has_them : get y states ≡ some dependencies
  pub among : contains x dependencies ≡ true

-- Each state of the path depends on the one before.
abbrev pub Leads : States → List String → Type 0
Leads states [] = Unit
Leads states (x ∷ []) = Unit
Leads states (x ∷ y ∷ ys) = DependsOn states y x × Leads states (y ∷ ys)

abbrev pub last : List String → Option String
last [] = none
last (x ∷ []) = some x
last (x ∷ y ∷ ys) = last (y ∷ ys)

-- A path from a state without dependencies to the given one.
pub record IsWay (states : States) (state : String) (path : List String) : Type 0 where
  pub root : String
  pub rest : List String
  pub splits : path ≡ root ∷ rest
  pub is_root : get root states ≡ some []
  pub leads : Leads states path
  pub ends : last path ≡ some state

visit_from-contains :
    (fuel k : ℕ) (dependencies via : List String) (next_state : String)
    → contains next_state dependencies ≡ true
    → contains (visit_from fuel k dependencies via next_state).1 dependencies ≡ true
unfolding visit_from
visit_from-contains zero k ds via n h = h
visit_from-contains (suc fuel) k ds via n h = elim (Option-cases (get_elem? via k)) [
  | inl e ↦ rw (e, visit_from) h
  | inr (i, e) ↦ elim (Bool-cases (contains i ds)) [
    | inl hit ↦ rw (e, hit, visit_from) (visit_from-contains fuel (suc k) ds (remove i via) i hit)
    | inr miss ↦ rw (e, miss, visit_from) (visit_from-contains fuel (suc k) ds via n h)
  ]
]

pub visit-contains :
    (d : String) (ds via : List String) → contains (visit (d ∷ ds) via d).1 (d ∷ ds) ≡ true
unfolding visit contains
visit-contains d ds via =
    visit_from-contains (suc (length via)) 0 (d ∷ ds) via d (ground (arith, ==_iff d d))

module _ (states : States) (state : String) where
  extend_path-IsWay :
      (fuel : ℕ) (x : String) (rest dependencies via : List String) (r : List String × List String)
      → get x states ≡ some dependencies
      → Leads states (x ∷ rest)
      → last (x ∷ rest) ≡ some state
      → extend_path fuel states (x ∷ rest) dependencies via ≡ ok r
      → IsWay states state r.0
  unfolding extend_path
  extend_path-IsWay fuel x rest [] via r here leads ends e =
      let same : (x ∷ rest, via) ≡ r = cc in
      subst (λ q. IsWay states state q.0) same
        (record {
          root = x;
          rest = rest;
          splits = refl;
          is_root = here;
          leads = leads;
          ends = ends;
        })
  extend_path-IsWay zero x rest (d ∷ ds) via r here leads ends e = cc
  extend_path-IsWay (suc fuel) x rest (d ∷ ds) via r here leads ends e =
      let (via', next_state) = visit (d ∷ ds) via d in
      let (dependencies, found, e') = >>=-eq-ok (or_raise (get next_state states) key_error) _ e in
      extend_path-IsWay fuel next_state (x ∷ rest) dependencies via' r
        (found_lem next_state dependencies found)
        (record { dependencies = d ∷ ds; has_them = here; among = visit-contains d ds via }, leads)
        ends e'
    where
      found_lem :
          (n : String) (dependencies : List String)
          → or_raise (get n states) key_error ≡ ok dependencies
          → get n states ≡ some dependencies
      found_lem n dependencies f = elim (Option-cases (get n states)) [
        | inl gone ↦ ground arith
        | inr (ds', there) ↦ ground arith
      ]

-- The dependencies of every state are states, and have a lower rank.
abbrev pub Ranked : States → (String → ℕ) → Type 0
Ranked states rank =
    (s : String) (ds : List String)
    → get s states ≡ some ds
    → All (λ d. (has d states ≡ true) × (rank d < rank s)) ds

ranked_next :
    (states : States) (state : String) (rank : String → ℕ) (n : String) (ds : List String)
    → All (λ d. (has d states ≡ true) × (rank d < rank state)) ds
    → contains n ds ≡ true
    → (has n states ≡ true) × (rank n < rank state)
unfolding contains
ranked_next states state rank n [] a h = cc
ranked_next states state rank n (d ∷ ds) a h = elim (Bool-cases (n == d)) [
  | inl same ↦ rw ((==_iff n d).0 same) a.0
  | inr differ ↦ ranked_next states state rank n ds a.1 (ground arith)
]

extend_path-returns :
    (states : States) (rank : String → ℕ)
    → Ranked states rank
    → (fuel : ℕ) (x : String) (rest dependencies via : List String)
    → get x states ≡ some dependencies
    → rank x ≤ fuel
    → (r : List String × List String) × (extend_path fuel states (x ∷ rest) dependencies via ≡ ok r)
unfolding extend_path
extend_path-returns states rank ranked fuel x rest [] via here enough = ((x ∷ rest, via), refl)
extend_path-returns states rank ranked zero x rest (d ∷ ds) via here enough =
    absurd (omega (arith, (ranked x (d ∷ ds) here).0.1))
extend_path-returns states rank ranked (suc fuel) x rest (d ∷ ds) via here enough =
    let n = (visit (d ∷ ds) via d).1 in
    let (there, lower) =
      ranked_next states x rank n (d ∷ ds) (ranked x (d ∷ ds) here) (visit-contains d ds via) in
    let (dependencies, found) = has-eq-true n states there in
    rw found (
      extend_path-returns states rank ranked fuel n (x ∷ rest) dependencies (visit (d ∷ ds) via d).0
        found (omega arith))

-- Without `via` states the list of them stays empty.
visit-nil : (d : String) (ds : List String) → visit (d ∷ ds) [] d ≡ ([], d)
unfolding visit visit_from
visit-nil d ds = refl

extend_path-nil :
    (states : States) (fuel : ℕ) (path dependencies : List String) (r : List String × List String)
    → extend_path fuel states path dependencies [] ≡ ok r
    → r.1 ≡ []
unfolding extend_path visit visit_from
extend_path-nil states fuel path [] r e = cc
extend_path-nil states zero path (d ∷ ds) r e = cc
extend_path-nil states (suc fuel) path (d ∷ ds) r e =
    let (dependencies, found, e') = >>=-eq-ok (or_raise (get d states) key_error) _ e in
    extend_path-nil states fuel (d ∷ path) dependencies r e'

-- For a known state, and dependencies that do not go round, the search returns once the fuel is
-- the rank of the state: it gives a way from a state without dependencies to the one asked for,
-- each state on it depending on the one before, or raises the strategy's runtime error.
pub find_abs_path_total :
    (states : States) (rank : String → ℕ) (fuel : ℕ) (state : String) (via : List String)
    → Ranked states rank
    → has state states ≡ true
    → rank state ≤ fuel
    → ((path : List String) × (find_abs_path fuel states state via ≡ ok path)
        × IsWay states state path)
      ⊎ (find_abs_path fuel states state via ≡ raised graph_strategy_runtime_error)
unfolding find_abs_path
find_abs_path_total states rank fuel state via ranked there enough =
    let (dependencies, here) = has-eq-true state states there in
    let ((path, left), e) =
      extend_path-returns states rank ranked fuel state [] dependencies (reversed via) here
        enough in
    let way =
      extend_path-IsWay states state fuel state [] dependencies (reversed via) (path, left) here tt
        refl e in
    elim (Bool-cases (known states (reversed via))) [
      | inl all_known ↦ elim (left_cases left) [
        | inl nothing ↦ inl (path, rw (here, all_known, e, nothing, check_left) refl, way)
        | inr (v, vs, some_left) ↦ inr (rw (here, all_known, e, some_left, check_left) refl)
      ]
      | inr unknown ↦ inr (rw (here, unknown) refl)
    ]
  where
    left_cases :
        (xs : List String) → (xs ≡ []) ⊎ ((v : String) × (vs : List String) × (xs ≡ v ∷ vs))
    left_cases [] = inl refl
    left_cases (v ∷ vs) = inr (v, vs, refl)

check_left-nil : (r : List String × List String) → r.1 ≡ [] → check_left r ≡ ok r.0
unfolding check_left
check_left-nil (path, []) h = refl
check_left-nil (path, v ∷ via) h = cc

check_left-eq :
    (r : List String × List String) (path : List String) → check_left r ≡ ok path → r.0 ≡ path
unfolding check_left
check_left-eq (p, []) path h = cc
check_left-eq (p, v ∷ via) path h = cc

-- Without `via` states the search gives a way, under the same conditions.
pub find_abs_path-no_via :
    (states : States) (rank : String → ℕ) (fuel : ℕ) (state : String)
    → Ranked states rank
    → has state states ≡ true
    → rank state ≤ fuel
    → (path : List String) × (find_abs_path fuel states state [] ≡ ok path)
      × IsWay states state path
unfolding find_abs_path reversed known all check_left
find_abs_path-no_via states rank fuel state ranked there enough =
    let (dependencies, here) = has-eq-true state states there in
    let ((path, left), e) =
      extend_path-returns states rank ranked fuel state [] dependencies [] here enough in
    let nothing = extend_path-nil states fuel (state ∷ []) dependencies (path, left) e in
    (
      path,
      rw (here, e) (check_left-nil (path, left) nothing),
      extend_path-IsWay states state fuel state [] dependencies [] (path, left) here tt refl e,
    )

-- What `find_abs_path` returns.
pub find_abs_path-IsWay :
    (states : States) (fuel : ℕ) (state : String) (via path : List String)
    → find_abs_path fuel states state via ≡ ok path
    → IsWay states state path
unfolding find_abs_path
find_abs_path-IsWay states fuel state via path e =
    let (dependencies, here, e') = >>=-eq-ok (or_raise (get state states) key_error) _ e in
    let (_, _, e'') =
      >>=-eq-ok (check (known states (reversed via)) graph_strategy_runtime_error) _ e' in
    let (r, extended, none_left) =
      >>=-eq-ok (extend_path fuel states (state ∷ []) dependencies (reversed via)) check_left e'' in
    subst (IsWay states state) (check_left-eq r path none_left) (
      extend_path-IsWay states state fuel state [] dependencies (reversed via) r
        (there dependencies here) tt refl extended)
  where
    there :
        (dependencies : List String)
        → or_raise (get state states) key_error ≡ ok dependencies
        → get state states ≡ some dependencies
    there dependencies h = elim (Option-cases (get state states)) [
      | inl gone ↦ ground arith
      | inr (ds, found) ↦ ground arith
    ]
