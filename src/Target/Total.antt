-- ===== src/Target/Total.antt =====
-- labgrid/target.py: `deactivate` returns.
use labgrid.Prelude.{
  true, ℕ, zero, suc, ◌<◌, ◌≡◌, refl, sym, subst, ◌∙◌, some, List, [], ◌∷◌, ◌++◌, nat_eq, All,
  Outcome, ok, raised, arith, inl, inr, ◌⊎◌,
}
use labgrid.Prelude.Dict.{get}
use labgrid.Target.{Bindable, Target, BindingState, error, idle, bound, active}
use labgrid.Target.Lowers.{Lowers, lowered}
use labgrid.Target.Consistent.{IsStep, deactivate-IsStep}
use labgrid.Target.Deactivate.{belongs, TargetM, next, finish, each, by_state, deactivate}

abbrev Below : (ℕ → ℕ) → Target → ℕ → ℕ → Type 0
Below rank t ref c = (rank c < rank ref) × (oc : Bindable) × (get c t.objects ≡ some oc)

-- Every object is one of the target's, and bound or active, and its clients are objects of a lower
-- rank.
abbrev pub AllReady : (ℕ → ℕ) → Target → Type 0
AllReady rank t =
    (ref : ℕ) (o : Bindable)
    → get ref t.objects ≡ some o
    → (((o.state ≡ bound) ⊎ (o.state ≡ active)) × (belongs ref t ≡ true))
      × All (Below rank t ref) o.clients

module _ (rank : ℕ → ℕ) (s t : Target) (l : Lowers s t) where
  Below-Lowers : (ref : ℕ) (cs : List ℕ) → All (Below rank s ref) cs → All (Below rank t ref) cs
  Below-Lowers ref [] a = tt
  Below-Lowers ref (c ∷ cs) a = elim (l.lower c) [
    | inl same ↦ ((a.0.0, a.0.1, same ∙ a.0.2), Below-Lowers ref cs a.1)
    | inr (o, there, act, low) ↦ ((a.0.0, lowered o, low), Below-Lowers ref cs a.1)
  ]

  belongs-Lowers : (ref : ℕ) → belongs ref s ≡ true → belongs ref t ≡ true
  unfolding belongs
  belongs-Lowers ref b = rw (l.same_resources, l.same_drivers) b

  AllReady-Lowers : AllReady rank s → AllReady rank t
  AllReady-Lowers a ref o there = elim (l.lower ref) [
    | inl same ↦
        let r = a ref o (sym same ∙ there) in
        ((r.0.0, belongs-Lowers ref r.0.1), Below-Lowers ref o.clients r.1)
    | inr (o', there', act, low) ↦
        let same : lowered o' ≡ o = cc (low, there) in
        let r = a ref o' there' in
        subst
          (λ x.
            (((x.state ≡ bound) ⊎ (x.state ≡ active)) × (belongs ref t ≡ true))
            × All (Below rank t ref) x.clients)
          same ((inl refl, belongs-Lowers ref r.0.1), Below-Lowers ref o'.clients r.1)
  ]

abbrev Returns : Outcome (List ℕ) × Target → Type 0
Returns r = (done : List ℕ) × (r.0 ≡ ok done)

module _ (on_deactivate : ℕ → Outcome (Unit {0})) (rank : ℕ → ℕ)
    (silent : (ref : ℕ) → on_deactivate ref ≡ ok tt) where
  each-Returns :
      (one : ℕ → TargetM (List ℕ)) (ref : ℕ) (cs acc : List ℕ) (s : Target)
      → ((c : ℕ) (t : Target) → IsStep c t (one c t))
      → ((c : ℕ) (t : Target) → AllReady rank t → Below rank t ref c → Returns (one c t))
      → AllReady rank s
      → All (Below rank s ref) cs
      → Returns (each on_deactivate one cs acc s)
  unfolding each
  each-Returns one ref [] acc s steps returns a b = (acc, refl)
  each-Returns one ref (c ∷ cs) acc s steps returns a b =
      let (more, e) = returns c s a b.0 in
      let t = (one c s).1 in
      let l = (steps c s).lowers in
      rw (each, e)
        (each-Returns one ref cs (acc ++ more) t steps returns (AllReady-Lowers rank s t l a)
          (Below-Lowers rank s t l ref cs b.1))

  finish-Returns :
      (ref : ℕ) (r : Outcome (List ℕ) × Target)
      → Returns r
      → Returns (next r (finish on_deactivate ref))
  unfolding finish
  finish-Returns ref (ok done, t) h = rw (finish, silent ref) (done, refl)
  finish-Returns ref (raised e, t) h = absurd (ground (arith, h.1))

  by_state-Returns :
      (one : ℕ → TargetM (List ℕ)) (ref : ℕ) (s : Target) (o : Bindable) (state : BindingState)
      → ((c : ℕ) (t : Target) → IsStep c t (one c t))
      → ((c : ℕ) (t : Target) → AllReady rank t → Below rank t ref c → Returns (one c t))
      → AllReady rank s
      → get ref s.objects ≡ some o
      → (state ≡ bound) ⊎ (state ≡ active)
      → Returns (by_state on_deactivate one ref o.clients state s)
  unfolding by_state
  by_state-Returns one ref s o bound steps returns a there u = ([], refl)
  by_state-Returns one ref s o idle steps returns a there u = absurd (ground (arith, u))
  by_state-Returns one ref s o error steps returns a there u = absurd (ground (arith, u))
  by_state-Returns one ref s o active steps returns a there u =
      rw (by_state, (a ref o there).0.1)
        (finish-Returns ref (each on_deactivate one o.clients (ref ∷ []) s)
          (each-Returns one ref o.clients (ref ∷ []) s steps returns a (a ref o there).1))

  -- If no driver raises while it is deactivated, every object is one of the target's and bound or
  -- active, and clients have a lower rank than their suppliers, then deactivating an object
  -- returns, once the fuel is greater than its rank.
  pub deactivate_total :
      (fuel ref : ℕ) (o : Bindable) (s : Target)
      → AllReady rank s
      → get ref s.objects ≡ some o
      → rank ref < fuel
      → (done : List ℕ) × ((deactivate on_deactivate fuel ref s).0 ≡ ok done)
  unfolding deactivate
  deactivate_total zero ref o s a there enough = absurd (omega (arith, enough))
  deactivate_total (suc fuel) ref o s a there enough =
      rw (deactivate, there)
        (by_state-Returns (deactivate on_deactivate fuel) ref s o o.state
          (deactivate-IsStep on_deactivate fuel)
          (λ c t b (lower, oc, found). deactivate_total fuel c oc t b found (omega (arith, lower)))
          a there (a ref o there).0.0)
