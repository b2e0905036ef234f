-- ===== src/Target.antt =====
-- labgrid/target.py and labgrid/binding.py: resources and drivers of a target, their selection, and
-- their states. Objects are numbered; `isinstance` asks for the name of a class among the classes
-- of an object. `on_deactivate` is a method that drivers override: it may raise, and what it does
-- outside of the binding states is not modelled.
pub mod Select
pub mod Selected
pub mod Found
pub mod Highest
pub mod Chosen
pub mod Deactivate
pub mod Lowers
pub mod Consistent
pub mod Total
pub mod Bind
pub mod Linked
pub mod Atomic
pub mod Await
pub mod Waiting
pub mod Updating
pub mod Activate
pub mod Switching
pub mod Activated
mod Tests
use labgrid.Prelude.{
  ℕ, ◌≡◌, Bool, true, false, Option, none, some, List, [], ◌∷◌, ◌++◌, String, nat_eq, string_eq,
  contains, if◌then◌else◌, Outcome, ok, raised, state_error, binding_error, assertion_error, not,
  is_empty, ◌||◌,
}
use labgrid.Prelude.Int.{ℤ}
use labgrid.Prelude.Dict.{Dict, get, put}

-- `BindingState`
pub data BindingState : Type 0 where
  error idle bound active : BindingState

-- The attributes of `BindingMixin`, with the class and the priority of a driver, and the attributes
-- that `bind_driver` sets to the suppliers.
pub record Bindable : Type 0 where
  pub classes : List String
  pub name : Option String
  pub state : BindingState
  pub has_target : Bool
  pub suppliers : List ℕ
  pub clients : List ℕ
  pub priority : String → ℤ
  pub attributes : Dict String (Option ℕ)

pub record Target : Type 0 where
  pub resources : List ℕ
  pub drivers : List ℕ
  pub objects : Dict ℕ Bindable
  pub binding_map : Dict String String

abbrev pub is_active : BindingState → Bool
is_active active = true
is_active _ = false

abbrev pub is_idle : BindingState → Bool
is_idle idle = true
is_idle _ = false

-- `check_active` and `check_bound`, which guard the methods of drivers.
unfoldable pub check_active {ℓ} : {A : Type ℓ} → Bindable → Outcome A → Outcome A
check_active o func = elim o.state [ active ↦ func | _ ↦ raised state_error ]

unfoldable pub check_bound {ℓ} : {A : Type ℓ} → Bindable → Outcome A → Outcome A
check_bound o func = elim o.state [ bound ↦ func | _ ↦ raised state_error ]

-- `bind_resource`
abbrev pub is_bindable : Bindable → Bool
is_bindable o = if contains "Resource" o.classes then not o.has_target else false

unfoldable pub bind_resource : ℕ → Target → Outcome (Unit {0}) × Target
unfolding get put contains
bind_resource ref t = elim (get ref t.objects) [
  | none ↦ (raised assertion_error, t)
  | some o ↦
      if is_idle o.state
      then if is_bindable o
        then if contains ref t.resources then (raised assertion_error, t) else (
          ok tt,
          record t {
            resources = t.resources ++ ref ∷ [];
            objects = put ref (record o { has_target = true; state = bound }) t.objects;
          },
        )
        else (raised assertion_error, t)
      else (raised binding_error, t)
]

-- `set_binding_map`, for the next driver only.
unfoldable pub set_binding_map : Dict String String → Target → Target
set_binding_map mapping t = record t { binding_map = mapping }
