-- ===== src/Step.antt =====
-- labgrid/step.py: steps, which are pushed on a stack while a decorated function runs, and the
-- events that tell the subscribers of them. Steps are numbered objects. A subscriber's exception is
-- caught, so that telling it has no further effect.
pub mod Started
pub mod Stopped
pub mod Balanced
mod Tests
use labgrid.Prelude.{
  ℕ, suc, ◌-◌, ◌≡◌, Bool, true, false, not, ◌&&◌, List, [], ◌∷◌, ◌++◌, map, String, Option, none,
  some, contains, remove, length, if◌then◌else◌, nat_eq, ◌==◌, Outcome, ok, raised, check,
  Exception, assertion_error, index_error,
}
use labgrid.Prelude.Dict.{Dict, get, put}

-- `Step`, with its times, and the exception of its function.
pub record Step : Type 0 where
  pub title : String
  pub level : ℕ
  pub parent : Option ℕ
  pub start_ts : Option ℕ
  pub stop_ts : Option ℕ
  pub exception : Option Exception
  pub is_copy : Bool

-- What a `StepEvent` says of its step.
pub data EventData : Type 0 where
  started : EventData
  skipped : (reason : String) → EventData
  stopped : Option Exception → (duration : ℕ) → EventData

pub record StepEvent : Type 0 where
  pub ts : ℕ
  pub step : ℕ
  pub data_ : EventData

-- `Steps`, the objects, a clock, and the events that the subscribers got.
pub record Steps : Type 0 where
  pub stack : List ℕ
  pub subscribers : List ℕ
  pub objects : Dict ℕ Step
  pub next : ℕ
  pub clock : ℕ
  pub told : List (ℕ × StepEvent)

abbrev pub StepsM {ℓ} : Type ℓ → Type ℓ
StepsM A = Steps → Outcome A × Steps

-- `status`, `duration`, and the tests on them.
pub data Status : Type 0 where
  new active done : Status

unfoldable pub status : Step → Status
status s = elim s.start_ts [
  | none ↦ new
  | some _ ↦ elim s.stop_ts [ none ↦ active | some _ ↦ done ]
]

unfoldable pub duration : (now : ℕ) → Step → ℕ
duration now s = elim s.start_ts [
  | none ↦ 0
  | some start ↦ elim s.stop_ts [
    | none ↦ if s.is_copy then 0 else now - start
    | some stop ↦ stop - start
  ]
]

-- `self._stack[-1]`
unfoldable pub get_current : List ℕ → Option ℕ
get_current [] = none
get_current (x ∷ []) = some x
get_current (_ ∷ y ∷ stack) = get_current (y ∷ stack)

unfoldable pub get_new : (title : String) → Steps → ℕ × Steps
unfolding put
get_new title s = (
  s.next,
  record s {
    objects =
        put s.next
          (record {
            title = title;
            level = suc (length s.stack);
            parent = none;
            start_ts = none;
            stop_ts = none;
            exception = none;
            is_copy = false;
          })
          s.objects;
    next = suc s.next;
  },
)

unfoldable pub write : ℕ → Step → Steps → Steps
unfolding put
write ref o s = record s { objects = put ref o s.objects }

-- `push`: the step is on the stack when `get_current` gives its parent.
unfoldable pub push : ℕ → Step → StepsM (Unit {0})
unfolding contains get_current write
push ref o s =
    let stack = s.stack ++ ref ∷ [] in
    if contains ref s.stack then (raised assertion_error, s) else (
      ok tt,
      write ref (record o { parent = get_current stack; level = length stack })
          (record s { stack = stack }),
    )

-- `stack.pop()`
unfoldable pub drop_last : List ℕ → List ℕ
drop_last [] = []
drop_last (x ∷ []) = []
drop_last (x ∷ y ∷ xs) = x ∷ drop_last (y ∷ xs)

unfoldable pub pop : ℕ → StepsM (Unit {0})
unfolding get_current drop_last
pop ref s = elim (get_current s.stack) [
  | none ↦ (raised index_error, s)
  | some top ↦
      if top == ref
      then (ok tt, record s { stack = drop_last s.stack })
      else (raised assertion_error, s)
]

unfoldable pub subscribe : ℕ → Steps → Steps
subscribe callback s = record s { subscribers = s.subscribers ++ callback ∷ [] }

unfoldable pub unsubscribe : ℕ → StepsM (Unit {0})
unfolding contains remove
unsubscribe callback s =
    if contains callback s.subscribers
    then (ok tt, record s { subscribers = remove callback s.subscribers })
    else (raised assertion_error, s)

unfoldable pub notify : StepEvent → Steps → Steps
notify event s = record s { told = s.told ++ map (λ subscriber. (subscriber, event)) s.subscribers }

abbrev pub event_of : ℕ → EventData → Steps → StepEvent
event_of ref data_ s = record { ts = s.clock; step = ref; data_ = data_ }

abbrev pub is_unset : Option ℕ → Bool
is_unset none = true
is_unset (some _) = false

abbrev after_push : ℕ → Outcome (Unit {0}) × Steps → Outcome (Unit {0}) × Steps
after_push ref (raised e, s) = (raised e, s)
after_push ref (ok _, s) = (ok tt, notify (event_of ref started s) s)

-- `start`, `skip` and `stop`
unfoldable pub start : ℕ → Step → StepsM (Unit {0})
unfolding push notify write
start ref o s =
    let o' = record o { start_ts = some s.clock } in
    if not o.is_copy && is_unset o.start_ts
    then after_push ref (push ref o' (write ref o' s))
    else (raised assertion_error, s)

unfoldable pub skip : ℕ → (reason : String) → Step → StepsM (Unit {0})
unfolding notify
skip ref reason o s =
    if not o.is_copy && not (is_unset o.start_ts)
    then (ok tt, notify (event_of ref (skipped reason) s) s)
    else (raised assertion_error, s)

unfoldable pub stop : ℕ → Step → StepsM (Unit {0})
unfolding notify pop duration write
stop ref o s =
    let o' = record o { stop_ts = some s.clock } in
    if not o.is_copy && not (is_unset o.start_ts) && is_unset o.stop_ts
    then pop ref
        (notify (event_of ref (stopped o.exception (duration s.clock o')) s) (write ref o' s))
    else (raised assertion_error, s)

-- The object as it is now; the decorator holds a reference to it.
abbrev pub with_object : Option Step → (Step → StepsM (Unit {0})) → StepsM (Unit {0})
with_object none f s = (raised assertion_error, s)
with_object (some o) f s = f o s

abbrev pub raised_by {ℓ} : {A : Type ℓ} → Outcome A → Option Exception
raised_by (ok _) = none
raised_by (raised e) = some e

unfoldable pub note {ℓ} : {A : Type ℓ} → ℕ → Outcome A → Steps → Steps
unfolding get write
note ref (ok _) s = s
note ref (raised e) s = elim (get ref s.objects) [
  | none ↦ s
  | some o ↦ write ref (record o { exception = some e }) s
]

-- `finally: step.stop()`: what it raises takes the place of the result.
abbrev pub finally_result {ℓ} : {A : Type ℓ} → Outcome A → Outcome (Unit {0}) → Outcome A
finally_result r (ok _) = r
finally_result r (raised e) = raised e

unfoldable pub finish {ℓ} : {A : Type ℓ} → ℕ → Outcome A × Steps → Outcome A × Steps
unfolding get note stop
finish ref (r, s) =
    let s' = note ref r s in
    let stopped = with_object (get ref s'.objects) (stop ref) s' in
    (finally_result r stopped.0, stopped.1)

abbrev pub run_started {ℓ} :
    {A : Type ℓ} → ℕ → (ℕ → StepsM A) → Outcome (Unit {0}) × Steps → Outcome A × Steps
run_started ref body (raised e, s) = (raised e, s)
run_started ref body (ok _, s) = finish ref (body ref s)

-- The function that `step` makes of a function `body`, which may be given the step.
unfoldable pub call {ℓ} : {A : Type ℓ} → (title : String) → (ℕ → StepsM A) → StepsM A
unfolding get_new get start finish
call title body s =
    let (ref, s') = get_new title s in
    run_started ref body (with_object (get ref s'.objects) (start ref) s')
