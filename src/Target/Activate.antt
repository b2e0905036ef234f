-- ===== src/Target/Activate.antt =====
-- labgrid/target.py: `activate`, with the `resolve_conflicts` of labgrid/binding.py,
-- labgrid/driver/consoleexpectmixin.py and labgrid/strategy/common.py. `on_activate` is a method
-- that drivers override. The fuel is for the recursion over the suppliers.
use labgrid.Prelude.{
  ℕ, zero, suc, Bool, true, false, Option, none, some, List, [], ◌∷◌, nat_eq, string_eq, ◌==◌,
  contains, String, if◌then◌else◌, Outcome, ok, raised, assertion_error, binding_error,
  not_implemented_error, out_of_fuel,
}
use labgrid.Prelude.Dict.{get, put}
use labgrid.Target.{Target, BindingState, error, idle, bound, active, is_active}
use labgrid.Target.Deactivate.{deactivate, belongs}
use labgrid.Target.Await.{SiteM, then_do, await_resources}

-- `client.state = BindingState.active`
unfoldable pub set_active : ℕ → Target → Target
unfolding get put
set_active ref t = elim (get ref t.objects) [
  | none ↦ t
  | some o ↦ record t { objects = put ref (record o { state = active }) t.objects }
]

-- `isinstance` of a supplier, and its state.
abbrev has_class : String → ℕ → Target → Bool
has_class cls ref t = elim (get ref t.objects) [ none ↦ false | some o ↦ contains cls o.classes ]

abbrev pub runs : ℕ → Target → Bool
runs ref t = elim (get ref t.objects) [ none ↦ false | some o ↦ is_active o.state ]

unfoldable pub resources_of : List ℕ → Target → List ℕ
unfolding get contains
resources_of [] t = []
resources_of (r ∷ rs) t =
    if has_class "Resource" r t then r ∷ resources_of rs t else resources_of rs t

module _ (managed : ℕ → Option ℕ) (polled : ℕ → ℕ → (ℕ → Bool) → ℕ × (ℕ → Bool))
    (on_deactivate on_activate : ℕ → Outcome (Unit {0})) (depth rounds : ℕ) where
  -- `self.target.deactivate(other)`
  unfoldable pub deactivate_at : ℕ → SiteM (List ℕ)
  unfolding deactivate
  deactivate_at ref s =
      let (result, target) = deactivate on_deactivate depth ref s.target in
      (result, record s { target = target })

  unfoldable pub deactivate_others : (client : ℕ) → List ℕ → SiteM (Unit {0})
  unfolding deactivate_at
  deactivate_others client [] s = (ok tt, s)
  deactivate_others client (c ∷ cs) s =
      if c == client
      then deactivate_others client cs s
      else then_do (deactivate_at c s) (λ _. deactivate_others client cs)

  unfoldable pub resolve_conflicts : (supplier client : ℕ) → SiteM (Unit {0})
  unfolding deactivate_others get contains
  resolve_conflicts supplier client s = elim (get supplier s.target.objects) [
    | none ↦ (raised assertion_error, s)
    | some o ↦
        if contains "Strategy" o.classes
        then (raised not_implemented_error, s)
        else if contains "ConsoleExpectMixin" o.classes
        then deactivate_others client o.clients s
        else (ok tt, s)
  ]

  -- The loop over the suppliers.
  unfoldable pub activate_supplier : (ℕ → SiteM (Unit {0})) → ℕ → SiteM (Unit {0})
  unfolding get
  activate_supplier activate_one supplier s =
      if runs supplier s.target then (ok tt, s) else activate_one supplier s

  unfoldable pub activate_all : (ℕ → SiteM (Unit {0})) → (client : ℕ) → List ℕ → SiteM (Unit {0})
  unfolding activate_supplier resolve_conflicts
  activate_all activate_one client [] s = (ok tt, s)
  activate_all activate_one client (x ∷ xs) s =
      then_do (activate_supplier activate_one x s)
        (λ _ s'. then_do (resolve_conflicts x client s') (λ _. activate_all activate_one client xs))

  -- `client.on_activate(); client.state = BindingState.active`
  unfoldable pub finish_activate : ℕ → SiteM (Unit {0})
  unfolding set_active
  finish_activate ref s = elim (on_activate ref) [
    | raised e ↦ (raised e, s)
    | ok _ ↦ (ok tt, record s { target = set_active ref s.target })
  ]

  -- A client that is bound.
  unfoldable pub activate_bound : (ℕ → SiteM (Unit {0})) → ℕ → List ℕ → SiteM (Unit {0})
  unfolding await_resources resources_of activate_all finish_activate
  activate_bound activate_one ref suppliers s =
      then_do
        (await_resources managed polled on_deactivate depth rounds (resources_of suppliers s.target)
          none true s)
        (λ _ s'. then_do (activate_all activate_one ref suppliers s') (λ _. finish_activate ref))

  unfoldable pub activate_by_state :
      (ℕ → SiteM (Unit {0})) → ℕ → List ℕ → BindingState → SiteM (Unit {0})
  unfolding activate_bound belongs
  activate_by_state activate_one ref suppliers active s = (ok tt, s)
  activate_by_state activate_one ref suppliers bound s =
      if belongs ref s.target
      then activate_bound activate_one ref suppliers s
      else (raised assertion_error, s)
  activate_by_state activate_one ref suppliers idle s = (raised binding_error, s)
  activate_by_state activate_one ref suppliers error s = (raised binding_error, s)

  unfoldable pub activate : (fuel : ℕ) → ℕ → SiteM (Unit {0})
  unfolding get contains activate_by_state
  activate zero ref s = (raised out_of_fuel, s)
  activate (suc fuel) ref s = elim (get ref s.target.objects) [
    | none ↦ (raised assertion_error, s)
    | some o ↦
        if contains "Strategy" o.classes
        then (ok tt, s)
        else activate_by_state (activate fuel) ref o.suppliers o.state s
  ]
