-- ===== src/Strategy/Cyclic.antt =====
-- labgrid/strategy/graphstrategy.py: `find_abs_path` on dependencies that go round.
use labgrid.Prelude.{
  ℕ, zero, suc, ◌≡◌, refl, Bool, true, some, List, [], ◌∷◌, String, string_eq, ◌==◌, ==_iff,
  contains, All, raised, out_of_fuel, arith, Bool-cases, inl, inr,
}
use labgrid.Prelude.Dict.{get}
use labgrid.Strategy.{States, visit, extend_path, reversed, known, find_abs_path}
use labgrid.Strategy.Paths.{visit-contains}

-- States that all depend on one another: each has dependencies, and all of them are among them.
abbrev pub GoesRound : States → (String → Bool) → Type 0
GoesRound states among =
    (s : String)
    → among s ≡ true
    → (d : String) × (ds : List String) × (get s states ≡ some (d ∷ ds))
      × (All (λ x. among x ≡ true) (d ∷ ds))

among_next :
    (among : String → Bool) (n : String) (ds : List String)
    → All (λ x. among x ≡ true) ds
    → contains n ds ≡ true
    → among n ≡ true
unfolding contains
among_next among n [] a h = cc
among_next among n (d ∷ ds) a h = elim (Bool-cases (n == d)) [
  | inl same ↦ rw ((==_iff n d).0 same) a.0
  | inr differ ↦ among_next among n ds a.1 (ground arith)
]

extend_path-cyclic :
    (states : States) (among : String → Bool)
    → GoesRound states among
    → (fuel : ℕ) (path via : List String) (d : String) (ds : List String)
    → All (λ x. among x ≡ true) (d ∷ ds)
    → extend_path fuel states path (d ∷ ds) via ≡ raised out_of_fuel
unfolding extend_path
extend_path-cyclic states among round zero path via d ds a = refl
extend_path-cyclic states among round (suc fuel) path via d ds a =
    let n = (visit (d ∷ ds) via d).1 in
    let (d', ds', found, a') = round n (among_next among n (d ∷ ds) a (visit-contains d ds via)) in
    rw found
      (extend_path-cyclic states among round fuel (n ∷ path) (visit (d ∷ ds) via d).0 d' ds' a')

-- On states whose dependencies go round, with known `via` states, the search does not end,
-- whatever the fuel.
pub find_abs_path-cyclic :
    (states : States) (among : String → Bool) (fuel : ℕ) (state : String) (via : List String)
    → GoesRound states among
    → among state ≡ true
    → known states (reversed via) ≡ true
    → find_abs_path fuel states state via ≡ raised out_of_fuel
unfolding find_abs_path
find_abs_path-cyclic states among fuel state via round here all_known =
    let (d, ds, found, a) = round state here in
    rw
      (
        found,
        all_known,
        extend_path-cyclic states among round fuel (state ∷ []) (reversed via) d ds a,
      )
      refl
