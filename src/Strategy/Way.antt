-- ===== src/Strategy/Way.antt =====
-- labgrid/strategy/graphstrategy.py: where `transition` ends up, and the lock.
use labgrid.Prelude.{
  ℕ, ◌≡◌, refl, sym, subst, true, false, Option, List, String, string_eq, Outcome, ok, arith,
  Bool-cases, inl, inr, Outcome-cases,
}
use labgrid.Prelude.Dict.{has}
use labgrid.Strategy.{GraphStrategy, list_beq, find_rel_path, find_abs_path}
use labgrid.Strategy.Paths.{IsWay, find_abs_path-IsWay}
use labgrid.Strategy.History.{list_beq-eq}
use labgrid.Strategy.Transition.{run_states, run_path, move_to, unlock, transition, parse_state}

module _ {ℓ} {W : Type ℓ} (method : String → W → Outcome (Unit {0}) × W)
    (deactivate_all_drivers : W → Outcome (Unit {0}) × W) where
  run_path-eq-ok :
      (abs_path path done : List String) (g : GraphStrategy) (w : W)
      → (run_path method deactivate_all_drivers abs_path path g w).0 ≡ ok done
      → (run_path method deactivate_all_drivers abs_path path g w).1.path ≡ abs_path
  unfolding run_path
  run_path-eq-ok abs_path path done g w h =
      elim (Outcome-cases (run_states method deactivate_all_drivers path g w).0) [
        | inl (_, e) ↦ rw (run_path, e) refl
        | inr (x, e) ↦ absurd (ground (arith, e))
      ]

  move_to-IsWay :
      (fuel : ℕ) (state : String) (via done : List String) (g : GraphStrategy) (w : W)
      → (move_to method deactivate_all_drivers fuel state via g w).0 ≡ ok done
      → IsWay g.states state (move_to method deactivate_all_drivers fuel state via g w).1.path
  unfolding move_to
  move_to-IsWay fuel state via done g w h = elim (Bool-cases (has state g.states)) [
    | inr unknown ↦ absurd (ground (arith, unknown))
    | inl is_state ↦ elim (Outcome-cases (find_abs_path fuel g.states state via)) [
      | inr (x, e) ↦ absurd (ground (arith, is_state, e))
      | inl (path, e) ↦
          let way = find_abs_path-IsWay g.states fuel state via path e in
          elim (Bool-cases (list_beq path g.path)) [
            | inl same ↦
                rw (move_to, is_state, e, same)
                  (subst (IsWay g.states state) (list_beq-eq path g.path same) way)
            | inr differ ↦
                let p = find_rel_path path g.path in
                let ran : (run_path method deactivate_all_drivers path p g w).0 ≡ ok done =
                  ground (arith, is_state, e, differ) in
                rw (move_to, is_state, e, differ)
                  (subst (IsWay g.states state) (sym (run_path-eq-ok path p done g w ran)) way)
          ]
    ]
  ]

  -- A transition that succeeds leaves as the strategy's path a way to the state asked for, from a
  -- state without dependencies, each state on it depending on the one before; whatever happens
  -- once the request is read, no transition is marked as running afterwards.
  pub transition-IsWay :
      (fuel : ℕ) (state target : String) (via : Option (List String)) (via' : List String)
      (g : GraphStrategy) (w : W)
      → parse_state state via ≡ ok (target, via')
      → let t = transition method deactivate_all_drivers fuel state via g w in
        ((done : List String) → t.0 ≡ ok done → IsWay g.states target t.1.path)
        × (t.1.transition_running ≡ false)
  unfolding transition unlock
  transition-IsWay fuel state target via via' g w e = elim (Bool-cases g.transition_running) [
    | inl busy ↦ rw (transition, e, busy) ((λ done h. absurd (ground arith)), refl)
    | inr idle ↦
        rw (transition, e, idle)
          (
            λ done h.
                move_to-IsWay fuel target via' done (record g { transition_running = true }) w h,
            refl,
          )
  ]
