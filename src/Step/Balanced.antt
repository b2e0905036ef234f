-- ===== src/Step/Balanced.antt =====
-- labgrid/step.py: what a step leaves behind when its function returns or raises.
use labgrid.Prelude.{
  ℕ, suc, ◌-◌, ◌<◌, ◌≤◌, ◌≡◌, refl, sym, ap, subst, ◌∙◌, [], ◌∷◌, ◌++◌, String, some, contains,
  length, length-append, nat_eq, arith, Bool-cases, Outcome, ok, inl, inr,
}
use labgrid.Prelude.Dict.{get}
use labgrid.Step.{Step, Steps, StepsM, status, done, stopped, raised_by, finish, run_started, call}
use labgrid.Step.Started.{
  told_of, nat_self, nat_other, contains_last, IsNumbered, IsStarted, begin, begin_lem,
}
use labgrid.Step.Stopped.{finished_step, finish_lem}

-- The stack is as before, and so is each object that was there before.
pub record IsBalanced (s t : Steps) : Type 0 where
  pub same_stack : t.stack ≡ s.stack
  pub kept : (ref : ℕ) → ref < s.next → get ref t.objects ≡ get ref s.objects
  pub grown : s.next ≤ t.next

-- What a function may do that is given a step: other steps begin and end in it.
abbrev pub Balances {ℓ} : {A : Type ℓ} → (ℕ → StepsM A) → Type 0
Balances body = (ref : ℕ) (s : Steps) → IsNumbered s → IsBalanced s (body ref s).1

-- How a decorated function relates to the function itself, when it is called in the state `s`.
pub record IsRun {ℓ} {A : Type ℓ} (title : String) (body : ℕ → StepsM A) (s : Steps)
    (r : Outcome A × Steps) : Type ℓ where
  pub inside : Steps
  pub entered : IsStarted title s inside
  pub same_result : r.0 ≡ (body s.next inside).0
  pub balanced : IsBalanced s r.1
  pub finished : Step
  pub found : get s.next r.1.objects ≡ some finished
  pub is_done : status finished ≡ done
  pub nested : finished.level ≡ suc (length s.stack)
  pub told_stop :
      r.1.told
      ≡ (body s.next inside).1.told
        ++ told_of s.next
            (stopped (raised_by r.0) ((body s.next inside).1.clock - s.clock))
            (body s.next inside).1
  pub noted : finished.exception ≡ raised_by r.0

call_started {ℓ} :
    {A : Type ℓ} (title : String) (body : ℕ → StepsM A) (s t : Steps)
    → Balances body
    → IsNumbered s
    → IsStarted title s t
    → IsRun title body s (run_started s.next body (ok tt, t))
unfolding status
call_started title body s t balances numbered e =
    let numbered' : IsNumbered t = λ ref there. elim (Bool-cases (contains ref s.stack)) [
      | inl old ↦ omega (arith, numbered ref old, e.counted)
      | inr new ↦ omega (
        arith,
        contains_last ref s.next s.stack (ap (contains ref) (sym e.on_top) ∙ there) new,
        e.counted,
      )
    ] in
    let b = balances s.next t numbered' in
    let r = body s.next t in
    let f =
      finish_lem title s r.1 r.0 s.next s.stack (b.kept s.next (omega (arith, e.counted)) ∙ e.added)
        (b.same_stack ∙ e.on_top) in
    let f' = finish s.next r in
    record {
      inside = t;
      entered = e;
      same_result = f.same_result;
      balanced = record {
        same_stack = f.popped;
        kept = λ ref before.
            f.written ref
            ∙ rw (nat_other s.next ref before)
                (b.kept ref (omega (arith, e.counted, before)) ∙ e.kept ref before);
        grown = omega (arith, f.counted, b.grown, e.counted);
      };
      finished = finished_step title s r.1.clock r.0;
      found = f.written s.next ∙ rw (nat_self s.next) refl;
      is_done = refl;
      nested = omega (arith, length-append s.stack (s.next ∷ []));
      told_stop =
          subst
            (λ q.
              f'.1.told
              ≡ r.1.told ++ told_of s.next (stopped (raised_by q) (r.1.clock - s.clock)) r.1)
            (sym f.same_result) f.told_stop;
      noted = ap raised_by (sym f.same_result);
    }

-- A decorated function whose function leaves the stack and the earlier objects as they were, runs
-- it on a new step on the top of the stack, and gives its result or its exception. Afterwards the
-- stack and the earlier objects are as before, and the step is done, one level above the depth of
-- the stack, and has the exception noted if there was one. The subscribers were told of its start
-- before the function ran, and of its end, with the exception and the time it took, after that.
pub call-IsRun {ℓ} :
    {A : Type ℓ} (title : String) (body : ℕ → StepsM A) (s : Steps)
    → Balances body
    → IsNumbered s
    → IsRun title body s (call title body s)
unfolding call
call-IsRun title body s balances numbered =
    let (begun, entered) = begin_lem title s numbered in
    subst (λ q. IsRun title body s (run_started s.next body (q, (begin title s).1))) (sym begun)
      (call_started title body s (begin title s).1 balances numbered entered)
