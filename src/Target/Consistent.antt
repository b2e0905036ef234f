-- ===== src/Target/Consistent.antt =====
-- labgrid/target.py: `deactivate` keeps the suppliers of active objects active.
use labgrid.Prelude.{
  ℕ, zero, suc, ◌≡◌, refl, sym, ap, subst, ◌∙◌, true, ◌||◌, some, List, [], ◌∷◌, ◌++◌, nat_eq, ◌==◌,
  ==_iff, contains, Outcome, ok, raised, arith, Bool-cases, Option-cases, inl, inr, ◌⊎◌,
  Outcome-cases,
}
use labgrid.Prelude.Dict.{get}
use labgrid.Target.{Bindable, Target, BindingState, error, idle, bound, active}
use labgrid.Target.Deactivate.{
  belongs, TargetM, next, finish, each, by_state, deactivate, deactivate_list, backwards,
  deactivate_all_drivers,
}
use labgrid.Target.Lowers.{
  lowered, Lowers, IsDown, IsConsistent, bound_not_active, Lowers-refl, Lowers-trans, IsDown-Lowers,
  set_bound-Lowers, set_bound-IsDown, set_bound-IsConsistent,
}

-- What one call does: its result, the target before and after.
pub record IsStep (ref : ℕ) (s : Target) (r : Outcome (List ℕ) × Target) : Type 0 where
  pub lowers : Lowers s r.1
  pub consistent : IsConsistent s → IsConsistent r.1
  pub down : (done : List ℕ) → r.0 ≡ ok done → IsDown r.1 ref

contains-append :
    (x : ℕ) (xs ys : List ℕ) → contains x (xs ++ ys) ≡ (contains x xs || contains x ys)
unfolding contains
contains-append x [] ys = refl
contains-append x (y ∷ xs) ys = ground (arith, contains-append x xs ys)

module _ (on_deactivate : ℕ → Outcome (Unit {0})) where
  each-lem :
      (one : ℕ → TargetM (List ℕ)) (cs : List ℕ) (acc : List ℕ) (s : Target)
      → ((c : ℕ) (t : Target) → IsStep c t (one c t))
      → let r = each on_deactivate one cs acc s in
        Lowers s r.1
        × (IsConsistent s → IsConsistent r.1)
        × ((done : List ℕ) → r.0 ≡ ok done → (c : ℕ) → contains c cs ≡ true → IsDown r.1 c)
  unfolding each contains
  each-lem one [] acc s h = (Lowers-refl s, λ v. v, λ done e c m. absurd (ground arith))
  each-lem one (c ∷ cs) acc s h =
      let t = (one c s).1 in
      let first = h c s in
      elim (Outcome-cases (one c s).0) [
        | inr (x, e) ↦
            rw (each, e) (first.lowers, first.consistent, λ done e' c' m. absurd (ground arith))
        | inl (more, e) ↦
            let (l, v, d) = each-lem one cs (acc ++ more) t h in
            let u = (each on_deactivate one cs (acc ++ more) t).1 in
            rw (each, e)
              (
                Lowers-trans s t u first.lowers l,
                λ w. v (first.consistent w),
                λ done e' c' m. elim (Bool-cases (c' == c)) [
                  | inl same ↦
                      subst (IsDown u) (sym ((==_iff c' c).0 same))
                        (IsDown-Lowers t u c l (first.down more e))
                  | inr differ ↦ d done e' c' (ground arith)
                ],
              )
      ]

  -- The object with its clients down.
  finish-IsStep :
      (ref : ℕ) (o : Bindable) (acc : List ℕ) (t : Target)
      → get ref t.objects ≡ some o
      → (o.state ≡ active) ⊎ (o.state ≡ bound)
      → ((c : ℕ) → contains c o.clients ≡ true → IsDown t c)
      → IsStep ref t (finish on_deactivate ref acc t)
  unfolding finish
  finish-IsStep ref o acc t there act down = elim (Outcome-cases (on_deactivate ref)) [
    | inl (_, e) ↦
        rw (finish, e)
          (record {
            lowers = set_bound-Lowers ref t o there act;
            consistent = set_bound-IsConsistent ref t o there down;
            down = λ done e'. set_bound-IsDown ref t o there;
          })
    | inr (x, e) ↦
        rw (finish, e)
          (record {
            lowers = Lowers-refl t;
            consistent = λ v. v;
            down = λ done e'. absurd (ground arith);
          })
  ]

  same-IsStep :
      (ref : ℕ) (t : Target) (r : Outcome (List ℕ))
      → ((done : List ℕ) → r ≡ ok done → IsDown t ref)
      → IsStep ref t (r, t)
  same-IsStep ref t r d = record { lowers = Lowers-refl t; consistent = λ v. v; down = d }

  -- What the clients left of the object itself.
  after_clients :
      (ref : ℕ) (o : Bindable) (acc : List ℕ) (s t : Target) (done : List ℕ)
      → get ref s.objects ≡ some o
      → o.state ≡ active
      → Lowers s t
      → (IsConsistent s → IsConsistent t)
      → ((c : ℕ) → contains c o.clients ≡ true → IsDown t c)
      → IsStep ref s (finish on_deactivate ref done t)
  after_clients ref o acc s t done there act l v d = elim (l.lower ref) [
    | inl same ↦ onwards (finish-IsStep ref o done t (same ∙ there) (inl act) d)
    | inr (o', there', act', low) ↦
        let same : o' ≡ o = cc (there, there') in
        onwards (
          finish-IsStep ref (lowered o) done t (low ∙ ap (λ x. some (lowered x)) same) (inr refl) d)
  ]
    where
      onwards :
          IsStep ref t (finish on_deactivate ref done t)
          → IsStep ref s (finish on_deactivate ref done t)
      onwards f = record {
        lowers = Lowers-trans s t (finish on_deactivate ref done t).1 l f.lowers;
        consistent = λ w. f.consistent (v w);
        down = f.down;
      }

  after_each :
      (ref : ℕ) (o : Bindable) (s : Target) (r : Outcome (List ℕ) × Target)
      → get ref s.objects ≡ some o
      → o.state ≡ active
      → Lowers s r.1
      → (IsConsistent s → IsConsistent r.1)
      → ((done : List ℕ) → r.0 ≡ ok done → (c : ℕ) → contains c o.clients ≡ true → IsDown r.1 c)
      → IsStep ref s (next r (finish on_deactivate ref))
  after_each ref o s (ok done, t) there act l v d =
      after_clients ref o [] s t done there act l v (d done refl)
  after_each ref o s (raised x, t) there act l v d = record {
    lowers = l;
    consistent = v;
    down = λ done e. absurd (ground arith);
  }

  by_state-IsStep :
      (one : ℕ → TargetM (List ℕ)) (ref : ℕ) (s : Target) (o : Bindable) (state : BindingState)
      → ((c : ℕ) (t : Target) → IsStep c t (one c t))
      → get ref s.objects ≡ some o
      → o.state ≡ state
      → IsStep ref s (by_state on_deactivate one ref o.clients state s)
  unfolding by_state
  by_state-IsStep one ref s o bound h there e = same-IsStep ref s (ok []) λ done e' o' there' act.
      let same : o ≡ o' = cc (there, there') in
      bound_not_active (sym e ∙ ap (λ x. x.state) same ∙ act)
  by_state-IsStep one ref s o idle h there e = same-IsStep ref s _ λ done e'. absurd (ground arith)
  by_state-IsStep one ref s o error h there e = same-IsStep ref s _ λ done e'. absurd (ground arith)
  by_state-IsStep one ref s o active h there e =
      let (l, v, d) = each-lem one o.clients (ref ∷ []) s h in
      elim (Bool-cases (belongs ref s)) [
        | inl known ↦
            rw (by_state, known)
              (after_each ref o s (each on_deactivate one o.clients (ref ∷ []) s) there e l v d)
        | inr foreign ↦
            rw (by_state, foreign) (same-IsStep ref s _ λ done e'. absurd (ground arith))
      ]

  -- Deactivating an object, completed or stopped by an exception, takes active objects to bound and
  -- changes nothing else; if every object with an active client was active before, it is so
  -- afterwards; and once it is completed the object is not active.
  pub deactivate-IsStep :
      (fuel ref : ℕ) (s : Target) → IsStep ref s (deactivate on_deactivate fuel ref s)
  unfolding deactivate
  deactivate-IsStep zero ref s = same-IsStep ref s _ λ done e. absurd (ground arith)
  deactivate-IsStep (suc fuel) ref s = elim (Option-cases (get ref s.objects)) [
    | inl gone ↦ rw (deactivate, gone) (same-IsStep ref s _ λ done e. absurd (ground arith))
    | inr (o, there) ↦
        rw (deactivate, there)
          (by_state-IsStep (deactivate on_deactivate fuel) ref s o o.state (deactivate-IsStep fuel)
            there refl)
  ]

  each-IsDown :
      (fuel : ℕ) (refs : List ℕ) (s : Target)
      → let r = deactivate_list on_deactivate fuel refs s in
        (IsConsistent s → IsConsistent r.1)
        × ((done : List ℕ) → r.0 ≡ ok done → (c : ℕ) → contains c refs ≡ true → IsDown r.1 c)
  unfolding deactivate_list
  each-IsDown fuel refs s =
      let (l, v, d) = each-lem (deactivate on_deactivate fuel) refs [] s (deactivate-IsStep fuel) in
      (v, d)

  contains-backwards :
      (x : ℕ) (xs : List ℕ) → contains x (backwards on_deactivate xs) ≡ contains x xs
  unfolding backwards contains
  contains-backwards x [] = refl
  contains-backwards x (y ∷ ys) =
      ground
        (arith, contains-append x (backwards on_deactivate ys) (y ∷ []), contains-backwards x ys)

  -- After all drivers have been deactivated, none of the target's drivers is active, and every
  -- object with an active client is active, if it was so before.
  pub deactivate_all_drivers-IsDown :
      (fuel : ℕ) (s : Target) (done : List ℕ)
      → (deactivate_all_drivers on_deactivate fuel s).0 ≡ ok done
      → IsConsistent s
      → IsConsistent (deactivate_all_drivers on_deactivate fuel s).1
        × ((driver : ℕ)
            → contains driver s.drivers ≡ true
            → IsDown (deactivate_all_drivers on_deactivate fuel s).1 driver)
  unfolding deactivate_all_drivers
  deactivate_all_drivers-IsDown fuel s done e v =
      let (consistent, down) = each-IsDown fuel (backwards on_deactivate s.drivers) s in
      (consistent v, λ driver m. down done e driver (contains-backwards driver s.drivers ∙ m))
