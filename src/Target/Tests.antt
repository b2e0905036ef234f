-- ===== src/Target/Tests.antt =====
-- labgrid/target.py on a serial port (0), its console driver (1) and a shell on top of it (2).
use labgrid.Prelude.{
  no_driver_found, ℕ, ◌-◌, ◌≡◌, ◌<◌, refl, true, false, none, some, List, [], ◌∷◌, String, nat_eq,
  string_eq, contains, Bool, Option, leb, map, any, Outcome, ok, raised, arith, inr, ◌⊎◌,
  no_resource_found, All,
}
use labgrid.Prelude.Int.{pos}
use labgrid.Prelude.Dict.{get, Entries, Entries-get}
use labgrid.Target.{Bindable, Target, idle, bound, active}
use labgrid.Target.Bind.{Binding, find_all, bind_driver}
use labgrid.Target.Linked.{IsLinked, bind_driver-IsLinked}
use labgrid.Target.Atomic.{IsAllOrNothing, bind_driver-IsAllOrNothing}
use labgrid.Target.Select.{get_resource, get_driver}
use labgrid.Target.Chosen.{IsChosen, get_driver-IsChosen}
use labgrid.Target.Deactivate.{belongs, deactivate, deactivate_all_drivers}
use labgrid.Target.Lowers.{IsDown, IsConsistent}
use labgrid.Target.Consistent.{IsStep, deactivate-IsStep, deactivate_all_drivers-IsDown}
use labgrid.Target.Await.{Site, await_loop, await_resources}
use labgrid.Target.Waiting.{IsWaited, await_loop_total}
use labgrid.Target.Updating.{IsLowering, await_resources-IsLowering}
use labgrid.Target.Activate.{activate}
use labgrid.Target.Activated.{IsActivation, activate-IsActivation}
use labgrid.Target.Total.{AllReady, deactivate_total}

abbrev object : String → List ℕ → List ℕ → Bindable
object cls suppliers clients = record {
  classes = cls ∷ [];
  name = none;
  state = active;
  has_target = true;
  suppliers = suppliers;
  clients = clients;
  priority = λ _. pos 0;
  attributes = [];
}

abbrev target : Target
target = record {
  resources = 0 ∷ [];
  drivers = 1 ∷ 2 ∷ [];
  objects =
      (0, object "Resource" [] (1 ∷ []))
      ∷ (1, object "SerialDriver" (0 ∷ []) (2 ∷ []))
      ∷ (2, object "ShellDriver" (1 ∷ []) [])
      ∷ [];
  binding_map = [];
}

abbrev quiet : ℕ → Outcome (Unit {0})
quiet ref = ok tt

abbrev rank : ℕ → ℕ
rank ref = 2 - ref

all_active : IsConsistent target
unfolding get
all_active ref c o oc there there' m act =
    Entries-get (λ _ x. x.state ≡ active) ref target.objects (refl, (refl, (refl, tt))) there

ready : AllReady rank target
unfolding get belongs
ready ref o there =
    Entries-get
      (λ r x.
        (((x.state ≡ bound) ⊎ (x.state ≡ active)) × (belongs r target ≡ true))
        × All (λ c. (rank c < rank r) × (oc : Bindable) × (get c target.objects ≡ some oc))
            x.clients)
      ref target.objects
      (
        ((inr refl, refl), ((omega arith, object "SerialDriver" (0 ∷ []) (2 ∷ []), refl), tt)),
        (
          ((inr refl, refl), ((omega arith, object "ShellDriver" (1 ∷ []) [], refl), tt)),
          (((inr refl, refl), tt), tt),
        ),
      )
      there

deactivate-IsStep_example : IsStep 0 target (deactivate quiet 9 0 target)
deactivate-IsStep_example = deactivate-IsStep quiet 9 0 target

deactivate_total_example : (done : List ℕ) × ((deactivate quiet 9 0 target).0 ≡ ok done)
unfolding get
deactivate_total_example =
    deactivate_total quiet rank (λ r. refl) 9 0 (object "Resource" [] (1 ∷ [])) target ready refl
      (omega arith)

deactivate_test : (deactivate quiet 9 0 target).0 ≡ ok (0 ∷ 1 ∷ 2 ∷ [])
unfolding deactivate
deactivate_test = refl

deactivate_all_drivers-IsDown_example :
    IsConsistent (deactivate_all_drivers quiet 9 target).1
    × ((driver : ℕ)
        → contains driver target.drivers ≡ true
        → IsDown (deactivate_all_drivers quiet 9 target).1 driver)
unfolding deactivate_all_drivers
deactivate_all_drivers-IsDown_example =
    deactivate_all_drivers-IsDown quiet 9 target (2 ∷ 1 ∷ []) refl all_active

select_tests :
    (get_resource "Resource" none target ≡ ok 0)
    × (get_resource "Resource" (some "usb") target ≡ raised no_resource_found)
    × (get_driver "ShellDriver" none true target ≡ ok 2)
unfolding get_resource get_driver
select_tests = (refl, refl, refl)

-- A driver that is not bound yet, for the console.
abbrev idle_driver : Bindable
idle_driver = record (object "Driver" [] []) {
  classes = "Driver" ∷ "NetworkDriver" ∷ [];
  state = idle;
  has_target = false;
}

abbrev open_target : Target
open_target = record target { objects = (3, idle_driver) ∷ target.objects }

abbrev console_binding : List Binding
console_binding =
    record {
      name = "console";
      requirements = "SerialDriver" ∷ [];
      optional = false;
      explicit = false;
    }
    ∷ record {
      name = "power";
      requirements = "PowerDriver" ∷ [];
      optional = true;
      explicit = false;
    }
    ∷ []

abbrev all_drivers : String → List String
all_drivers cls = cls ∷ "Driver" ∷ []

abbrev told : ℕ → ℕ → Outcome (Unit {0})
told client supplier = ok tt

open_target-IsLinked : IsLinked open_target.objects
unfolding get contains
open_target-IsLinked a b oa ob ha hb =
    Entries-get
      (λ a oa.
        (b : ℕ) (ob : Bindable)
        → get b open_target.objects ≡ some ob
        → contains b oa.clients ≡ contains a ob.suppliers)
      a open_target.objects
      (
        row 3 idle_driver (refl, (refl, (refl, (refl, tt)))),
        (
          row 0 (object "Resource" [] (1 ∷ [])) (refl, (refl, (refl, (refl, tt)))),
          (
            row 1 (object "SerialDriver" (0 ∷ []) (2 ∷ [])) (refl, (refl, (refl, (refl, tt)))),
            (row 2 (object "ShellDriver" (1 ∷ []) []) (refl, (refl, (refl, (refl, tt)))), tt),
          ),
        ),
      )
      ha b ob hb
  where
    row :
        (a : ℕ) (oa : Bindable)
        → Entries (λ b ob. contains b oa.clients ≡ contains a ob.suppliers) open_target.objects
        → (b : ℕ) (ob : Bindable) → get b open_target.objects ≡ some ob
        → contains b oa.clients ≡ contains a ob.suppliers
    row a oa entries b ob hb =
        Entries-get (λ b ob. contains b oa.clients ≡ contains a ob.suppliers) b open_target.objects
          entries hb

bind_driver-IsLinked_example :
    IsLinked (bind_driver told all_drivers console_binding 3 open_target).1.objects
bind_driver-IsLinked_example =
    bind_driver-IsLinked told all_drivers console_binding 3 open_target open_target-IsLinked

bind_driver-IsAllOrNothing_example :
    IsAllOrNothing 3
      (find_all told all_drivers console_binding 3 idle_driver open_target).0
      open_target
      (bind_driver told all_drivers console_binding 3 open_target)
unfolding get
bind_driver-IsAllOrNothing_example =
    bind_driver-IsAllOrNothing told (λ client s. refl) all_drivers console_binding 3 open_target
      idle_driver refl

-- The console is found, and the power is optional.
bind_driver_test :
    get 3 (bind_driver told all_drivers console_binding 3 open_target).1.objects
    ≡ some (record idle_driver {
      state = bound;
      has_target = true;
      suppliers = 1 ∷ [];
      attributes = ("console", some 1) ∷ ("power", none) ∷ [];
    })
unfolding get bind_driver
bind_driver_test = refl

-- Without a power driver, for which it asks last: it stays idle, and the attribute that was set for
-- the console stays.
abbrev power_needed : List Binding
power_needed =
    record {
      name = "console";
      requirements = "SerialDriver" ∷ [];
      optional = false;
      explicit = false;
    }
    ∷ record {
      name = "power";
      requirements = "PowerDriver" ∷ [];
      optional = false;
      explicit = false;
    }
    ∷ []

bind_failed_test :
    ((bind_driver told all_drivers power_needed 3 open_target).0 ≡ raised no_driver_found)
    × (get 3 (bind_driver told all_drivers power_needed 3 open_target).1.objects
        ≡ some (record idle_driver { attributes = ("console", some 1) ∷ [] }))
unfolding get bind_driver
bind_failed_test = (refl, refl)

-- The serial port is managed, and away until a second has passed.
abbrev unplugged : Site
unplugged = record { target = target; now = 5000; last_update = 0; avail = λ _. false }

abbrev in_a_minute : ℕ → Option ℕ
in_a_minute _ = some 60000

abbrev plugged_late : ℕ → ℕ → (ℕ → Bool) → ℕ × (ℕ → Bool)
plugged_late ref now avail = (10, λ _. leb 6000 now)

await_loop_total_example :
    IsWaited 65000 unplugged (await_loop in_a_minute plugged_late 130 true 65000 (0 ∷ []) unplugged)
await_loop_total_example =
    await_loop_total in_a_minute plugged_late 130 120 true 65000 (0 ∷ []) unplugged (omega arith)
      (omega arith)

await_resources-IsLowering_example :
    IsLowering unplugged
      (await_resources in_a_minute plugged_late quiet 9 130 (0 ∷ []) none true unplugged)
await_resources-IsLowering_example =
    await_resources-IsLowering in_a_minute plugged_late quiet 9 130 (0 ∷ []) none true unplugged

-- It is found, and the objects that used it have been deactivated. The loop sleeps once more when
-- nobody is missing.
await_resources_test :
    let r = await_resources in_a_minute plugged_late quiet 9 9 (0 ∷ []) none true unplugged in
    (r.0 ≡ ok tt)
    × (r.1.now ≡ 6550)
    × (map (λ p. p.1.state) r.1.target.objects ≡ bound ∷ bound ∷ bound ∷ [])
unfolding await_resources any
await_resources_test = (refl, refl, refl)

-- Two drivers on one console, and a driver on top of both.
abbrev inactive : String → List ℕ → List ℕ → Bindable
inactive cls suppliers clients = record (object cls suppliers clients) { state = bound }

abbrev two_drivers : Site
two_drivers = record {
  target = record {
    resources = [];
    drivers = 1 ∷ 2 ∷ 3 ∷ 4 ∷ [];
    objects =
        (1, inactive "ConsoleExpectMixin" [] (2 ∷ 3 ∷ []))
        ∷ (2, inactive "UBootDriver" (1 ∷ []) (4 ∷ []))
        ∷ (3, inactive "ShellDriver" (1 ∷ []) (4 ∷ []))
        ∷ (4, inactive "Driver" (2 ∷ 3 ∷ []) [])
        ∷ [];
    binding_map = [];
  };
  now = 5000;
  last_update = 0;
  avail = λ _. true;
}

activate-IsActivation_example :
    IsActivation in_a_minute plugged_late quiet quiet 9 9 3
      (inactive "ShellDriver" (1 ∷ []) (4 ∷ []))
      two_drivers
      (activate in_a_minute plugged_late quiet quiet 9 9 9 3 two_drivers)
unfolding get
activate-IsActivation_example =
    activate-IsActivation in_a_minute plugged_late quiet quiet 9 9 9 3 two_drivers
      (inactive "ShellDriver" (1 ∷ []) (4 ∷ [])) refl

-- The console lets only one of them be active: the driver on top becomes active, and one of its
-- suppliers is not.
conflicting_suppliers_test :
    let r = activate in_a_minute plugged_late quiet quiet 9 9 9 4 two_drivers in
    (r.0 ≡ ok tt)
    × (map (λ p. p.1.state) r.1.target.objects ≡ active ∷ bound ∷ active ∷ active ∷ [])
unfolding activate any
conflicting_suppliers_test = (refl, refl)

get_driver-IsChosen_example : IsChosen "ShellDriver" none true target 2
unfolding get_driver
get_driver-IsChosen_example = get_driver-IsChosen "ShellDriver" none true target 2 refl
