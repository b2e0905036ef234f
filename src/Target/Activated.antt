-- ===== src/Target/Activated.antt =====
-- labgrid/target.py: what `activate` does to the binding states.
use labgrid.Prelude.{
  ℕ, zero, suc, ◌≡◌, refl, ◌∙◌, Bool, true, false, Option, none, some, List, [], ◌∷◌, nat_eq,
  string_eq, ◌==◌, ==_iff, contains, Outcome, ok, arith, inl, inr, Bool-cases, Outcome-cases,
  Option-cases,
}
use labgrid.Prelude.Dict.{get}
use labgrid.Target.{Bindable, BindingState, error, idle, bound, active}
use labgrid.Target.Deactivate.{belongs}
use labgrid.Target.Consistent.{deactivate-IsStep}
use labgrid.Target.Await.{Site, SiteM, then_do, await_resources}
use labgrid.Target.Updating.{await_resources-IsLowering}
use labgrid.Target.Activate.{
  set_active, runs, resources_of, deactivate_at, deactivate_others, resolve_conflicts,
  activate_supplier, activate_all, finish_activate, activate_bound, activate_by_state, activate,
}
use labgrid.Target.Switching.{
  in_state, Switches, Switches-refl, Lowers-Switches, get-set_active, set_active-Switches,
  IsSwitching, then_do-Switches, IsReady, IsReady-Switches, Gives, then_do-Gives,
}

module _ (managed : ℕ → Option ℕ) (polled : ℕ → ℕ → (ℕ → Bool) → ℕ × (ℕ → Bool))
    (on_deactivate on_activate : ℕ → Outcome (Unit {0})) (depth rounds : ℕ) where
  deactivate_others-Switches :
      (client : ℕ) (cs : List ℕ) (s : Site)
      → IsSwitching s
          (deactivate_others managed polled on_deactivate on_activate depth rounds client cs s)
  unfolding deactivate_others deactivate_at
  deactivate_others-Switches client [] s = Switches-refl s.target
  deactivate_others-Switches client (c ∷ cs) s = elim (Bool-cases (c == client)) [
    | inl self ↦ rw self (deactivate_others-Switches client cs s)
    | inr other ↦ rw other (
        then_do-Switches s _ _
          (Lowers-Switches _ _ (deactivate-IsStep on_deactivate depth c s.target).lowers)
          (λ _ t _. deactivate_others-Switches client cs t))
  ]

  resolve_conflicts-Switches :
      (supplier client : ℕ) (s : Site)
      → IsSwitching s (
          resolve_conflicts managed polled on_deactivate on_activate depth rounds supplier client s)
  unfolding resolve_conflicts
  resolve_conflicts-Switches supplier client s =
      elim (Option-cases (get supplier s.target.objects)) [
        | inl gone ↦ rw (resolve_conflicts, gone) (Switches-refl s.target)
        | inr (o, there) ↦ elim (Bool-cases (contains "Strategy" o.classes)) [
          | inl strategy ↦ rw (resolve_conflicts, there, strategy) (Switches-refl s.target)
          | inr other ↦ elim (Bool-cases (contains "ConsoleExpectMixin" o.classes)) [
            | inl console ↦
                rw (resolve_conflicts, there, other, console)
                  (deactivate_others-Switches client o.clients s)
            | inr plain ↦ rw (resolve_conflicts, there, other, plain) (Switches-refl s.target)
          ]
        ]
      ]

  activate_supplier-Switches :
      (one : ℕ → SiteM (Unit {0})) (x : ℕ) (s : Site)
      → ((x : ℕ) (t : Site) → IsSwitching t (one x t))
      → IsSwitching s
          (activate_supplier managed polled on_deactivate on_activate depth rounds one x s)
  unfolding activate_supplier
  activate_supplier-Switches one x s h = elim (Bool-cases (runs x s.target)) [
    | inl running ↦ rw running (Switches-refl s.target)
    | inr down ↦ rw down (h x s)
  ]

  activate_all-Switches :
      (one : ℕ → SiteM (Unit {0})) (client : ℕ) (xs : List ℕ) (s : Site)
      → ((x : ℕ) (t : Site) → IsSwitching t (one x t))
      → IsSwitching s
          (activate_all managed polled on_deactivate on_activate depth rounds one client xs s)
  unfolding activate_all activate_supplier
  activate_all-Switches one client [] s h = Switches-refl s.target
  activate_all-Switches one client (x ∷ xs) s h =
      let first = activate_supplier managed polled on_deactivate on_activate depth rounds one x s in
      let conflicts =
        resolve_conflicts managed polled on_deactivate on_activate depth rounds x client in
      let more = activate_all managed polled on_deactivate on_activate depth rounds one client xs in
      then_do-Switches s first (λ _ t. then_do (conflicts t) (λ _. more))
        (activate_supplier-Switches one x s h)
        λ _ t _.
          then_do-Switches t (conflicts t) (λ _. more) (resolve_conflicts-Switches x client t)
            λ _ u _. activate_all-Switches one client xs u h

  finish_activate-Switches :
      (ref : ℕ) (s : Site)
      → IsReady ref s.target
      → let r = finish_activate managed polled on_deactivate on_activate depth rounds ref s in
        IsSwitching s r × Gives (λ t. runs ref t ≡ true) r
  unfolding finish_activate
  finish_activate-Switches ref s (o, there, ready) = elim (Outcome-cases (on_activate ref)) [
    | inr (x, e) ↦
        rw (finish_activate, e) (Switches-refl s.target, λ returns. absurd (ground arith))
    | inl (_, e) ↦
        let now : get ref (set_active ref s.target).objects ≡ some (in_state active o) =
          get-set_active ref ref s.target o there ∙ rw ((==_iff ref ref).1 refl) refl in
        rw (finish_activate, e)
          (set_active-Switches ref s.target o there ready, λ returns. rw (runs, now) refl)
  ]

  activate_bound-Switches :
      (one : ℕ → SiteM (Unit {0})) (ref : ℕ) (suppliers : List ℕ) (s : Site)
      → ((x : ℕ) (t : Site) → IsSwitching t (one x t))
      → IsReady ref s.target
      → let r =
          activate_bound managed polled on_deactivate on_activate depth rounds one ref suppliers
            s in
        IsSwitching s r × Gives (λ t. runs ref t ≡ true) r
  unfolding activate_bound
  activate_bound-Switches one ref suppliers s h ready =
      let waited =
        await_resources managed polled on_deactivate depth rounds (resources_of suppliers s.target)
          none true s in
      let calm =
        Lowers-Switches s.target waited.1.target
          (await_resources-IsLowering managed polled on_deactivate depth rounds
            (resources_of suppliers s.target) none true s).lowers in
      let all =
        activate_all managed polled on_deactivate on_activate depth rounds one ref suppliers in
      let end = finish_activate managed polled on_deactivate on_activate depth rounds ref in
      (
        then_do-Switches s waited (λ _ t. then_do (all t) (λ _. end)) calm
            λ _ t w.
              then_do-Switches t (all t) (λ _. end) (activate_all-Switches one ref suppliers t h)
                λ _ u w'.
                  (finish_activate-Switches ref u (
                    IsReady-Switches ref t.target u.target w'
                      (IsReady-Switches ref s.target t.target w ready))).0,
        then_do-Gives (λ t. runs ref t ≡ true) waited (λ _ t. then_do (all t) (λ _. end))
            λ _ _.
              then_do-Gives (λ t. runs ref t ≡ true) (all waited.1) (λ _. end)
                λ _ _.
                  (finish_activate-Switches ref (all waited.1).1 (
                    IsReady-Switches ref waited.1.target (all waited.1).1.target
                      (activate_all-Switches one ref suppliers waited.1 h)
                      (IsReady-Switches ref s.target waited.1.target calm ready))).1,
      )

  -- What one call does.
  pub record IsActivation (ref : ℕ) (o : Bindable) (s : Site) (r : Outcome (Unit {0}) × Site)
      : Type 0 where
    pub switches : Switches s.target r.1.target
    pub running : contains "Strategy" o.classes ≡ false → r.0 ≡ ok tt → runs ref r.1.target ≡ true

  still-IsActivation :
      (ref : ℕ) (o : Bindable) (s : Site) (r : Outcome (Unit {0}))
      → (contains "Strategy" o.classes ≡ false → r ≡ ok tt → runs ref s.target ≡ true)
      → IsActivation ref o s (r, s)
  still-IsActivation ref o s r k = record { switches = Switches-refl s.target; running = k }

  by_state-IsActivation :
      (one : ℕ → SiteM (Unit {0})) (ref : ℕ) (s : Site) (o : Bindable) (state : BindingState)
      → ((x : ℕ) (t : Site) → IsSwitching t (one x t))
      → get ref s.target.objects ≡ some o
      → o.state ≡ state
      → IsActivation ref o s (
          activate_by_state managed polled on_deactivate on_activate depth rounds one ref
            o.suppliers state s)
  unfolding activate_by_state
  by_state-IsActivation one ref s o active h there e =
      still-IsActivation ref o s (ok tt) (λ _ _. rw (runs, there, e) refl)
  by_state-IsActivation one ref s o idle h there e =
      still-IsActivation ref o s _ (λ _ returns. absurd (ground arith))
  by_state-IsActivation one ref s o error h there e =
      still-IsActivation ref o s _ (λ _ returns. absurd (ground arith))
  by_state-IsActivation one ref s o bound h there e = elim (Bool-cases (belongs ref s.target)) [
    | inr foreign ↦ rw foreign (still-IsActivation ref o s _ (λ _ returns. absurd (ground arith)))
    | inl known ↦
        let (w, g) = activate_bound-Switches one ref o.suppliers s h (o, there, inr e) in
        rw known (record { switches = w; running = λ _. g })
  ]

  pub activate-Switches :
      (fuel ref : ℕ) (s : Site)
      → IsSwitching s (activate managed polled on_deactivate on_activate depth rounds fuel ref s)
  unfolding activate
  activate-Switches zero ref s = Switches-refl s.target
  activate-Switches (suc fuel) ref s = elim (Option-cases (get ref s.target.objects)) [
    | inl gone ↦ rw (activate, gone) (Switches-refl s.target)
    | inr (o, there) ↦ elim (Bool-cases (contains "Strategy" o.classes)) [
      | inl strategy ↦ rw (activate, there, strategy) (Switches-refl s.target)
      | inr other ↦
          rw (activate, there, other)
            (by_state-IsActivation
              (activate managed polled on_deactivate on_activate depth rounds fuel) ref s o o.state
              (activate-Switches fuel) there refl).switches
    ]
  ]

  -- Activating an object, completed or stopped by an exception, takes objects from active to bound
  -- or from bound to active, and changes nothing else of the target; and once it is completed the
  -- object is active, unless it is a strategy.
  pub activate-IsActivation :
      (fuel ref : ℕ) (s : Site) (o : Bindable)
      → get ref s.target.objects ≡ some o
      → IsActivation ref o s
          (activate managed polled on_deactivate on_activate depth rounds fuel ref s)
  unfolding activate
  activate-IsActivation zero ref s o there =
      still-IsActivation ref o s _ (λ _ returns. absurd (ground arith))
  activate-IsActivation (suc fuel) ref s o there =
      elim (Bool-cases (contains "Strategy" o.classes)) [
        | inl strategy ↦
            rw (activate, there, strategy)
              (still-IsActivation ref o s (ok tt)
                (λ plain _. absurd (ground (arith, plain, strategy))))
        | inr other ↦
            rw (activate, there, other)
              (by_state-IsActivation
                (activate managed polled on_deactivate on_activate depth rounds fuel) ref s o
                o.state (activate-Switches fuel) there refl)
      ]
