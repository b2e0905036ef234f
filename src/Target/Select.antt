-- ===== src/Target/Select.antt =====
-- labgrid/target.py: `get_resource` without waiting, `_get_driver` without activating, and
-- `get_strategy`. A reference to nothing, which no target holds, is passed over.
use labgrid.Prelude.{
  ℕ, Bool, true, false, not, Option, none, some, List, [], ◌∷◌, ◌++◌, String, nat_eq, string_eq,
  ◌==◌, ◌&&◌, contains, if◌then◌else◌, Outcome, ok, raised, no_resource_found, no_driver_found,
  no_strategy_found, length, nat_beq,
}
use labgrid.Prelude.Text.{str_empty}
use labgrid.Prelude.Int.{ℤ, negsuc, int_ltb}
use labgrid.Prelude.Dict.{Dict, get}
use labgrid.Target.{Bindable, Target, is_active}

-- `if name and res.name != name: continue`
abbrev pub name_passes : Option String → Option String → Bool
name_passes none n = true
name_passes (some want) none = str_empty want
name_passes (some want) (some n) = if str_empty want then true else n == want

abbrev pub named_default : Option String → Bool
named_default none = false
named_default (some n) = n == "default"

abbrev pub no_name : Option String → Bool
no_name none = true
no_name (some n) = str_empty n

-- The loop of `get_resource`: what was found, and the last resource named "default".
unfoldable pub scan_resources :
    Dict ℕ Bindable
    → (cls : String) → Option String
    → List ℕ
    → List ℕ
    → Option ℕ
    → List ℕ × Option ℕ
unfolding get contains
scan_resources objects cls name [] found default = (found, default)
scan_resources objects cls name (ref ∷ refs) found default = elim (get ref objects) [
  | none ↦ scan_resources objects cls name refs found default
  | some o ↦
      if contains cls o.classes
      then scan_resources objects cls name refs
          (if name_passes name o.name then found ++ ref ∷ [] else found)
          (if named_default o.name then some ref else default)
      else scan_resources objects cls name refs found default
]

abbrev pub or_default : Option String → List ℕ × Option ℕ → List ℕ
or_default name (found, none) = found
or_default name (found, some d) =
    if no_name name && not (nat_beq (length found) 1) then d ∷ [] else found

abbrev pub only_resource : List ℕ → Outcome ℕ
only_resource (ref ∷ []) = ok ref
only_resource _ = raised no_resource_found

unfoldable pub get_resource : (cls : String) → Option String → Target → Outcome ℕ
unfolding scan_resources
get_resource cls name t =
    only_resource (or_default name (scan_resources t.objects cls name t.resources [] none))

-- The loop of `_get_driver`, with its filters; the one for a resource is left out, as for
-- `resource=None`.
unfoldable pub driver_passes : (cls : String) → Option String → Bool → Bindable → Bool
unfolding contains
driver_passes cls name active o =
    contains cls o.classes
    && name_passes name o.name
    && (if active then is_active o.state else true)

unfoldable pub scan_drivers : Dict ℕ Bindable → (Bindable → Bool) → List ℕ → List (ℕ × Bindable)
unfolding get
scan_drivers objects passes [] = []
scan_drivers objects passes (ref ∷ refs) = elim (get ref objects) [
  | none ↦ scan_drivers objects passes refs
  | some o ↦
      let rest = scan_drivers objects passes refs in if passes o then (ref, o) ∷ rest else rest
]

-- `-255` is the lowest priority that counts.
unfoldable pub highest : String → ℤ → List ℕ → List (ℕ × Bindable) → List ℕ
highest cls prio_last prio_found [] = prio_found
highest cls prio_last prio_found ((ref, o) ∷ found) =
    if int_ltb prio_last (o.priority cls)
    then highest cls (o.priority cls) (ref ∷ []) found
    else if int_ltb (o.priority cls) prio_last
    then highest cls prio_last prio_found found
    else highest cls prio_last (prio_found ++ ref ∷ []) found

abbrev pub only_driver : List ℕ → Outcome ℕ
only_driver (ref ∷ []) = ok ref
only_driver _ = raised no_driver_found

unfoldable pub choose_driver : String → List (ℕ × Bindable) → Outcome ℕ
unfolding highest
choose_driver cls [] = raised no_driver_found
choose_driver cls ((ref, _) ∷ []) = ok ref
choose_driver cls (a ∷ b ∷ found) = only_driver (highest cls (negsuc 254) [] (a ∷ b ∷ found))

unfoldable pub get_driver : (cls : String) → Option String → (active : Bool) → Target → Outcome ℕ
unfolding scan_drivers driver_passes choose_driver
get_driver cls name active t =
    choose_driver cls (scan_drivers t.objects (driver_passes cls name active) t.drivers)

abbrev pub only_strategy : List (ℕ × Bindable) → Outcome ℕ
only_strategy ((ref, _) ∷ []) = ok ref
only_strategy _ = raised no_strategy_found

unfoldable pub get_strategy : Target → Outcome ℕ
unfolding scan_drivers contains
get_strategy t =
    only_strategy (scan_drivers t.objects (λ o. contains "Strategy" o.classes) t.drivers)
