-- ===== src/Step/Tests.antt =====
-- labgrid/step.py on a step in a step.
use labgrid.Prelude.{
  ℕ, suc, ◌≡◌, refl, false, [], ◌∷◌, none, some, ok, raised, nat_eq, assertion_error, index_error,
  contains, map, arith,
}
use labgrid.Prelude.Dict.{get}
use labgrid.Step.{
  Step, Steps, StepsM, EventData, started, stopped, skip, pop, call, subscribe, unsubscribe,
}
use labgrid.Step.Started.{IsNumbered}
use labgrid.Step.Balanced.{Balances, IsRun, call-IsRun}

abbrev steps : Steps
steps = record { stack = []; subscribers = 7 ∷ []; objects = []; next = 0; clock = 100; told = [] }

-- A function that takes a second and fails.
abbrev failing : ℕ → StepsM (Unit {0})
failing ref s = (raised assertion_error, record s { clock = suc s.clock })

failing-Balances : Balances failing
failing-Balances ref s numbered = record {
  same_stack = refl;
  kept = λ r before. refl;
  grown = omega arith;
}

-- A function that calls it as a step.
abbrev nesting : ℕ → StepsM (Unit {0})
nesting ref = call "inner" failing

nesting-Balances : Balances nesting
nesting-Balances ref s numbered = (call-IsRun "inner" failing s failing-Balances numbered).balanced

steps-IsNumbered : IsNumbered steps
unfolding contains
steps-IsNumbered ref there = cc

call-IsRun_example : IsRun "outer" nesting steps (call "outer" nesting steps)
call-IsRun_example = call-IsRun "outer" nesting steps nesting-Balances steps-IsNumbered

-- Both steps begin and end, and both have the exception.
nested_test :
    ((call "outer" nesting steps).0 ≡ raised assertion_error)
    × (map {B = ℕ × EventData} (λ t. (t.1.step, t.1.data_)) (call "outer" nesting steps).1.told
        ≡ (0, started)
          ∷ (1, started)
          ∷ (1, stopped (some assertion_error) 1)
          ∷ (0, stopped (some assertion_error) 1)
          ∷ [])
unfolding call
nested_test = (refl, refl)

-- The parent of a step is the step itself, as it is on the stack when the parent is looked for.
parent_test :
    get 0 (call "outer" nesting steps).1.objects
    ≡ some (record {
      title = "outer";
      level = 1;
      parent = some 0;
      start_ts = some 100;
      stop_ts = some 101;
      exception = some assertion_error;
      is_copy = false;
    })
unfolding call get
parent_test = refl

-- A step that has not been started is not skipped.
skip_test :
    (o : Step)
    → o.is_copy ≡ false
    → o.start_ts ≡ none
    → (skip 0 "no board" o steps).0 ≡ raised assertion_error
unfolding skip
skip_test o original fresh = rw (original, fresh) refl

-- Refusals: no step to take off, and a subscriber that is not there.
refused_test :
    ((pop 0 steps).0 ≡ raised index_error)
    × ((unsubscribe 8 steps).0 ≡ raised assertion_error)
    × ((unsubscribe 8 (subscribe 8 steps)).0 ≡ ok tt)
unfolding pop subscribe unsubscribe
refused_test = (refl, refl, refl)
