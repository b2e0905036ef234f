-- ===== src/Step/Started.antt =====
-- labgrid/step.py: the start of a new step.
use labgrid.Prelude.{
  ℕ, suc, map, ◌<◌, ◌≡◌, refl, ap, true, false, List, [], ◌∷◌, ◌++◌, String, some, none, contains,
  length, nat_eq, ◌==◌, ==_iff, arith, Bool-cases, ok, inl, inr,
}
use labgrid.Prelude.Dict.{get, get-put, get-put_self}
use labgrid.Step.{
  Step, Steps, StepsM, StepEvent, EventData, started, event_of, get_current, drop_last, get_new,
  write, push, start, notify, with_object,
}

-- The steps on the stack have been made.
abbrev pub IsNumbered : Steps → Type 0
IsNumbered s = (ref : ℕ) → contains ref s.stack ≡ true → ref < s.next

-- The step on the top of the stack.
pub get_current-snoc : (ref : ℕ) (stack : List ℕ) → get_current (stack ++ ref ∷ []) ≡ some ref
unfolding get_current
get_current-snoc ref [] = refl
get_current-snoc ref (x ∷ []) = refl
get_current-snoc ref (x ∷ y ∷ stack) = get_current-snoc ref (y ∷ stack)

pub drop_last-snoc : (ref : ℕ) (stack : List ℕ) → drop_last (stack ++ ref ∷ []) ≡ stack
unfolding drop_last
drop_last-snoc ref [] = refl
drop_last-snoc ref (x ∷ []) = refl
drop_last-snoc ref (x ∷ y ∷ stack) = ap (λ xs. x ∷ xs) (drop_last-snoc ref (y ∷ stack))

abbrev new_step : String → Steps → Step
new_step title s = record {
  title = title;
  level = suc (length s.stack);
  parent = none;
  start_ts = none;
  stop_ts = none;
  exception = none;
  is_copy = false;
}

-- A new step, once it is started.
abbrev pub started_step : String → Steps → Step
started_step title s = record {
  title = title;
  level = length (s.stack ++ s.next ∷ []);
  parent = get_current (s.stack ++ s.next ∷ []);
  start_ts = some s.clock;
  stop_ts = none;
  exception = none;
  is_copy = false;
}

-- What the subscribers get when something is said of a step.
abbrev pub told_of : ℕ → EventData → Steps → List (ℕ × StepEvent)
told_of ref data_ s = map (λ subscriber. (subscriber, event_of ref data_ s)) s.subscribers

-- The state in which the function of a step runs.
pub record IsStarted (title : String) (s t : Steps) : Type 0 where
  pub on_top : t.stack ≡ s.stack ++ s.next ∷ []
  pub added : get s.next t.objects ≡ some (started_step title s)
  pub kept : (ref : ℕ) → ref < s.next → get ref t.objects ≡ get ref s.objects
  pub counted : t.next ≡ suc s.next
  pub told_start : t.told ≡ s.told ++ told_of s.next started s

pub nat_self : (n : ℕ) → n == n ≡ true
nat_self n = ground (arith, ==_iff n n)

pub nat_other : (n m : ℕ) → m < n → n == m ≡ false
nat_other n m h = ground (arith, ==_iff n m)

new_ref : (s : Steps) → IsNumbered s → contains s.next s.stack ≡ false
new_ref s numbered = elim (Bool-cases (contains s.next s.stack)) [
  | inl there ↦ absurd (omega (arith, numbered s.next there))
  | inr gone ↦ gone
]

pub contains_last :
    (a ref : ℕ) (stack : List ℕ)
    → contains a (stack ++ ref ∷ []) ≡ true
    → contains a stack ≡ false
    → a ≡ ref
unfolding contains
contains_last a ref [] h k = ground (arith, ==_iff a ref, ==_iff ref a)
contains_last a ref (x ∷ stack) h k = contains_last a ref stack (ground arith) (ground arith)

-- Starting a new step.
abbrev pub begin : String → StepsM (Unit {0})
begin title s =
    let made = get_new title s in with_object (get made.0 made.1.objects) (start made.0) made.1

pub begin_lem :
    (title : String) (s : Steps)
    → IsNumbered s
    → ((begin title s).0 ≡ ok tt) × IsStarted title s (begin title s).1
unfolding get_new start push write notify
begin_lem title s numbered =
    rw (get-put_self s.next (new_step title s) s.objects, new_ref s numbered)
      (
        refl,
        record {
          on_top = refl;
          added = get-put_self s.next (started_step title s) _;
          kept = λ ref before.
              rw
                (
                  get-put s.next ref (started_step title s),
                  get-put s.next ref _,
                  get-put s.next ref (new_step title s),
                  nat_other s.next ref before,
                )
                refl;
          counted = refl;
          told_start = refl;
        },
      )
