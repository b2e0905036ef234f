-- ===== src/Strategy/Transition.antt =====
-- labgrid/strategy/graphstrategy.py: `transition` and `invalidate`. The fuel is for
-- `find_abs_path`. A method that starts another transition is outside of the model.
use labgrid.Prelude.{
  ℕ, true, false, Option, none, some, List, [], ◌∷◌, String, string_eq, ◌==◌, if◌then◌else◌,
  Outcome, ok, raised, Exception, value_error, graph_strategy_runtime_error, ltb,
}
use labgrid.Prelude.Text.{split, count_char}
use labgrid.Prelude.Dict.{has}
use labgrid.Strategy.{GraphStrategy, find_abs_path, find_rel_path, list_beq}

-- `state, via = state.split(":")` and `via.split(",")`, if `via` is None; then `via or []`.
unfoldable pub two_parts : List String → Outcome (String × List String)
unfolding split
two_parts (state ∷ via ∷ []) = ok (state, split b',' via)
two_parts _ = raised value_error

unfoldable pub parse_state : String → Option (List String) → Outcome (String × List String)
unfolding two_parts split count_char
parse_state state (some via) = ok (state, via)
parse_state state none =
    if ltb 0 (count_char b':' state) then two_parts (split b':' state) else ok (state, [])

module _ {ℓ} {W : Type ℓ} (method : String → W → Outcome (Unit {0}) × W)
    (deactivate_all_drivers : W → Outcome (Unit {0}) × W) where
  -- What an operation of the strategy gives: a result, the strategy and the world afterwards.
  abbrev pub Result : Type 0 → Type ℓ
  Result A = Outcome A × GraphStrategy × W

  unfoldable pub invalidate : GraphStrategy → W → Result (Unit {0})
  invalidate g w = let (done, w') = deactivate_all_drivers w in (done, record g { path = [] }, w')

  -- `except Exception: self.invalidate(); raise`, where invalidating may raise itself.
  unfoldable pub invalidate_and_raise : Exception → GraphStrategy → W → Result (Unit {0})
  unfolding invalidate
  invalidate_and_raise e g w = elim (invalidate g w).0 [
    | ok _ ↦ (raised e, (invalidate g w).1, (invalidate g w).2)
    | raised e' ↦ (raised e', (invalidate g w).1, (invalidate g w).2)
  ]

  unfoldable pub prepare_state : String → String → W → Outcome (Unit {0}) × W
  prepare_state root name w = if name == root then deactivate_all_drivers w else (ok tt, w)

  -- One state of the path, in front of the others.
  unfoldable pub after_method :
      (GraphStrategy → W → Result (Unit {0}))
      → GraphStrategy
      → Outcome (Unit {0}) × W
      → Result (Unit {0})
  unfolding invalidate_and_raise
  after_method others g (ok _, w) = others g w
  after_method others g (raised e, w) = invalidate_and_raise e g w

  unfoldable pub after_prepare :
      String
      → (GraphStrategy → W → Result (Unit {0}))
      → GraphStrategy
      → Outcome (Unit {0}) × W
      → Result (Unit {0})
  unfolding after_method
  after_prepare name others g (raised e, w) = (raised e, g, w)
  after_prepare name others g (ok _, w) = after_method others g (method name w)

  -- The loop over the states of the path.
  unfoldable pub run_states : List String → GraphStrategy → W → Result (Unit {0})
  unfolding prepare_state after_prepare
  run_states [] g w = (ok tt, g, w)
  run_states (name ∷ names) g w =
      after_prepare name (run_states names) g (prepare_state g.root_state name w)

  unfoldable pub run_path : List String → List String → GraphStrategy → W → Result (List String)
  unfolding run_states
  run_path abs_path path g w =
      let (done, g', w') = run_states path g w in
      elim done [
        | raised e ↦ (raised e, g', w')
        | ok _ ↦ (ok path, record g' { path = abs_path }, w')
      ]

  -- The body of the `try` once the strategy is locked.
  unfoldable pub move_to : ℕ → String → List String → GraphStrategy → W → Result (List String)
  unfolding run_path find_abs_path find_rel_path list_beq has
  move_to fuel state via g w =
      if has state g.states
      then elim (find_abs_path fuel g.states state via) [
        | raised e ↦ (raised e, g, w)
        | ok abs_path ↦
            if list_beq abs_path g.path
            then (ok [], g, w)
            else run_path abs_path (find_rel_path abs_path g.path) g w
      ]
      else (raised graph_strategy_runtime_error, g, w)

  -- The `finally` branch unlocks, also where the lock was held by another transition.
  unfoldable pub unlock : Result (List String) → Result (List String)
  unlock (r, g, w) = (r, record g { transition_running = false }, w)

  unfoldable pub transition :
      ℕ → String → Option (List String) → GraphStrategy → W → Result (List String)
  unfolding parse_state move_to unlock
  transition fuel state via g w = elim (parse_state state via) [
    | raised e ↦ (raised e, g, w)
    | ok (target, via') ↦ unlock (
        if g.transition_running
        then (raised graph_strategy_runtime_error, g, w)
        else move_to fuel target via' (record g { transition_running = true }) w)
  ]
