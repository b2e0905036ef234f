-- ===== src/Step/Stopped.antt =====
-- labgrid/step.py: the end of a step.
use labgrid.Prelude.{
  ℕ, ◌-◌, ◌≡◌, refl, ap, ◌∙◌, List, [], ◌∷◌, ◌++◌, String, Option, some, none, nat_eq, ◌==◌,
  if◌then◌else◌, arith, Exception, Outcome, ok, raised,
}
use labgrid.Prelude.Dict.{get, put, get-put, get-put_self}
use labgrid.Step.{
  Step, Steps, event_of, stopped, duration, drop_last, write, pop, stop, notify, note, raised_by,
  finish,
}
use labgrid.Step.Started.{get_current-snoc, drop_last-snoc, started_step, told_of, nat_self}

pop_lem :
    (ref : ℕ) (stack : List ℕ) (s : Steps)
    → s.stack ≡ stack ++ ref ∷ []
    → pop ref s ≡ (ok tt, record s { stack = stack })
unfolding pop
pop_lem ref stack s on_top =
    rw (on_top, pop, get_current-snoc ref stack)
      (rw (nat_self ref) (
        ap (λ xs. (ok tt, record s { stack = xs }))
          (ap drop_last on_top ∙ drop_last-snoc ref stack)))

-- Stopping the step on the top of the stack.
record IsStopped (ref : ℕ) (stack : List ℕ) (o : Step) (t : Steps) (r : Outcome (Unit {0}) × Steps)
    : Type 0 where
  returns : r.0 ≡ ok tt
  popped : r.1.stack ≡ stack
  written : r.1.objects ≡ put ref (record o { stop_ts = some t.clock }) t.objects
  counted : r.1.next ≡ t.next
  told_stop : r.1.told ≡ t.told ++ told_of ref (stopped o.exception (duration t.clock o)) t

-- A step of which nothing is known but that it runs, and the exception that was noted.
abbrev running_step : String → Steps → Option Exception → Step
running_step title s e = record (started_step title s) { exception = e }

stop_lem :
    (title : String) (s t : Steps) (e : Option Exception) (ref : ℕ) (stack : List ℕ)
    → t.stack ≡ stack ++ ref ∷ []
    → IsStopped ref stack (running_step title s e) t (stop ref (running_step title s e) t)
unfolding stop notify write
stop_lem title s t e ref stack on_top =
    let over = record (running_step title s e) { stop_ts = some t.clock } in
    let event = event_of ref (stopped e (duration t.clock over)) (write ref over t) in
    let done = pop_lem ref stack (notify event (write ref over t)) on_top in
    record {
      returns = ap (λ r. r.0) done;
      popped = ap (λ r. r.1.stack) done;
      written = ap (λ r. r.1.objects) done;
      counted = ap (λ r. r.1.next) done;
      told_stop = ap (λ r. r.1.told) done;
    }

-- A step that is over.
abbrev pub finished_step {ℓ} : {A : Type ℓ} → String → Steps → (now : ℕ) → Outcome A → Step
finished_step title s now r = record (started_step title s) {
  stop_ts = some now;
  exception = raised_by r;
}

pub record IsFinished {ℓ} {A : Type ℓ} (ref : ℕ) (stack : List ℕ) (started_at : ℕ) (over : Step)
    (r : Outcome A) (t : Steps) (f : Outcome A × Steps) : Type ℓ where
  pub same_result : f.0 ≡ r
  pub popped : f.1.stack ≡ stack
  pub written : (a : ℕ) → get a f.1.objects ≡ (if ref == a then some over else get a t.objects)
  pub counted : f.1.next ≡ t.next
  pub told_stop : f.1.told ≡ t.told ++ told_of ref (stopped (raised_by r) (t.clock - started_at)) t

pub finish_lem {ℓ} :
    {A : Type ℓ} (title : String) (s t : Steps) (r : Outcome A) (ref : ℕ) (stack : List ℕ)
    → get ref t.objects ≡ some (started_step title s)
    → t.stack ≡ stack ++ ref ∷ []
    → IsFinished ref stack s.clock (finished_step title s t.clock r) r t (finish ref (r, t))
unfolding finish note stop write notify pop
finish_lem title s t (ok a) ref stack there on_top =
    let e = stop_lem title s t none ref stack on_top in
    rw (there, e.returns)
      (record {
        same_result = refl;
        popped = e.popped;
        written = λ x. rw (e.written, get-put ref x (finished_step title s t.clock (ok a))) refl;
        counted = e.counted;
        told_stop = e.told_stop;
      })
finish_lem title s t (raised x) ref stack there on_top =
    let failed = record (started_step title s) { exception = some x } in
    let e = stop_lem title s (write ref failed t) (some x) ref stack on_top in
    rw (finish, note, there, get-put_self ref failed t.objects, e.returns)
      (record {
        same_result = refl;
        popped = e.popped;
        written = λ a.
            rw
              (
                e.written,
                get-put ref a (record failed { stop_ts = some t.clock }),
                get-put ref a failed,
              )
              (ground arith);
        counted = e.counted;
        told_stop = e.told_stop;
      })
