-- ===== src/Target/Deactivate.antt =====
-- labgrid/target.py: `deactivate`, `deactivate_all_drivers` and `cleanup`. The fuel is for the
-- recursion over the clients; the objects that it goes through are each other's clients.
use labgrid.Prelude.{
  Bool, contains, ◌||◌, if◌then◌else◌, ℕ, zero, suc, none, some, List, [], ◌∷◌, ◌++◌, nat_eq,
  Outcome, ok, raised, binding_error, assertion_error, out_of_fuel,
}
use labgrid.Prelude.Dict.{get, put}
use labgrid.Target.{Target, BindingState, error, idle, bound, active}

abbrev pub TargetM {ℓ} : Type ℓ → Type ℓ
TargetM A = Target → Outcome A × Target

abbrev pub next {ℓ κ} :
    {A : Type ℓ} {B : Type κ} → Outcome A × Target → (A → TargetM B) → Outcome B × Target
next (ok a, t) f = f a t
next (raised e, t) f = (raised e, t)

-- `client in self.resources or client in self.drivers`
unfoldable pub belongs : ℕ → Target → Bool
unfolding contains
belongs ref t = contains ref t.resources || contains ref t.drivers

unfoldable pub set_bound : ℕ → Target → Target
unfolding get put
set_bound ref t = elim (get ref t.objects) [
  | none ↦ t
  | some o ↦ record t { objects = put ref (record o { state = bound }) t.objects }
]

module _ (on_deactivate : ℕ → Outcome (Unit {0})) where
  -- `client.on_deactivate(); client.state = BindingState.bound; return deactivated`
  unfoldable pub finish : ℕ → List ℕ → TargetM (List ℕ)
  unfolding set_bound
  finish ref deactivated t = elim (on_deactivate ref) [
    | raised e ↦ (raised e, t)
    | ok _ ↦ (ok deactivated, set_bound ref t)
  ]

  -- `for cli in client.clients: deactivated.extend(self.deactivate(cli))`
  unfoldable pub each : (ℕ → TargetM (List ℕ)) → List ℕ → List ℕ → TargetM (List ℕ)
  each deactivate_one [] deactivated t = (ok deactivated, t)
  each deactivate_one (c ∷ cs) deactivated t =
      next (deactivate_one c t) (λ more. each deactivate_one cs (deactivated ++ more))

  -- What `deactivate` does with an object in a state.
  unfoldable pub by_state : (ℕ → TargetM (List ℕ)) → ℕ → List ℕ → BindingState → TargetM (List ℕ)
  unfolding each finish belongs
  by_state deactivate_one ref clients bound t = (ok [], t)
  by_state deactivate_one ref clients active t =
      if belongs ref t
      then next (each deactivate_one clients (ref ∷ []) t) (finish ref)
      else (raised assertion_error, t)
  by_state deactivate_one ref clients idle t = (raised binding_error, t)
  by_state deactivate_one ref clients error t = (raised binding_error, t)

  unfoldable pub deactivate : ℕ → ℕ → TargetM (List ℕ)
  unfolding get by_state
  deactivate zero ref t = (raised out_of_fuel, t)
  deactivate (suc fuel) ref t = elim (get ref t.objects) [
    | none ↦ (raised assertion_error, t)
    | some o ↦ by_state (deactivate fuel) ref o.clients o.state t
  ]

  unfoldable pub backwards : List ℕ → List ℕ
  backwards [] = []
  backwards (x ∷ xs) = backwards xs ++ x ∷ []

  unfoldable pub deactivate_list : ℕ → List ℕ → TargetM (List ℕ)
  unfolding deactivate each
  deactivate_list fuel refs = each (deactivate fuel) refs []

  unfoldable pub deactivate_all_drivers : ℕ → TargetM (List ℕ)
  unfolding deactivate_list backwards
  deactivate_all_drivers fuel t = deactivate_list fuel (backwards t.drivers) t

  -- `cleanup`
  unfoldable pub cleanup : ℕ → TargetM (List ℕ)
  unfolding deactivate_all_drivers deactivate_list backwards
  cleanup fuel t =
      next (deactivate_all_drivers fuel t)
        (λ _ t'. deactivate_list fuel (backwards t'.resources) t')
