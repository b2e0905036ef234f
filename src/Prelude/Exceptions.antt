-- ===== src/Prelude/Exceptions.antt =====
-- Python's exceptions as values. A function that can raise returns an `Outcome`.
use mathlib.Core.Path.{◌≡◌, refl}
use mathlib.Core.Bool.{Bool, true, false}
use mathlib.Core.Option.{Option, none, some}
use mathlib.Core.Logic.{◌⊎◌, inl, inr}

-- grpc.StatusCode, as `context.abort` is given it.
pub data Status : Type 0 where
  invalid_argument already_exists failed_precondition permission_denied unimplemented : Status

-- `abort` is the exception by which grpc's `context.abort` leaves a handler, and `out_of_fuel`
-- is no exception of the program: it marks a loop whose fuel ran out.
pub data Exception : Type 0 where
  assertion_error value_error key_error index_error attribute_error type_error name_error :
      Exception
  timeout_error exporter_error out_of_fuel : Exception
  invalid_graph_strategy_error graph_strategy_runtime_error : Exception
  binding_error no_resource_found no_driver_found no_strategy_found state_error : Exception
  no_supplier_found not_implemented_error : Exception
  abort : Status → Exception

pub data Outcome {ℓ} (A : Type ℓ) : Type ℓ where
  ok : A → Outcome A
  raised : Exception → Outcome A

infixl 5 ◌>>=◌ ◌>>◌
abbrev pub ◌>>=◌ {ℓ κ} : {X : Type ℓ} {Y : Type κ} → Outcome X → (X → Outcome Y) → Outcome Y
raised e >>= then = raised e
ok x >>= then = then x

abbrev pub ◌>>◌ {ℓ} : {Y : Type ℓ} → Outcome (Unit {0}) → Outcome Y → Outcome Y
first >> second = first >>= λ _. second

-- `assert b`, and `if not b: raise e`.
abbrev pub check : Bool → Exception → Outcome (Unit {0})
check true e = ok tt
check false e = raised e

abbrev pub or_raise {ℓ} : {A : Type ℓ} → Option A → Exception → Outcome A
or_raise none e = raised e
or_raise (some a) e = ok a

pub >>=-eq-ok {ℓ κ} :
    {X : Type ℓ} {Y : Type κ} (r : Outcome X) (then : X → Outcome Y) {y : Y}
    → (r >>= then) ≡ ok y
    → (x : X) × (r ≡ ok x) × (then x ≡ ok y)
>>=-eq-ok (raised e) then h = cc
>>=-eq-ok (ok x) then h = (x, refl, h)

pub Outcome-cases {ℓ} :
    {A : Type ℓ} (r : Outcome A) → ((a : A) × (r ≡ ok a)) ⊎ ((e : Exception) × (r ≡ raised e))
Outcome-cases (ok a) = inl (a, refl)
Outcome-cases (raised e) = inr (e, refl)
