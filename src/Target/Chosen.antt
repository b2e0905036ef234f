-- ===== src/Target/Chosen.antt =====
-- labgrid/target.py: which driver `_get_driver` chooses.
use labgrid.Prelude.{
  ℕ, ◌≡◌, refl, sym, ap, subst, ◌∙◌, Bool, true, false, Option, none, some, String, nat_eq,
  string_eq, ==_iff, contains, ok, arith, All-contains, Bool-cases, inl, inr, ◌⊎◌,
}
use labgrid.Prelude.Text.{str_empty}
use labgrid.Prelude.Int.{int_ltb}
use labgrid.Prelude.Dict.{get}
use labgrid.Target.{Bindable, Target, BindingState, active, is_active}
use labgrid.Target.Select.{name_passes, driver_passes, scan_drivers, get_driver}
use labgrid.Target.Found.{IsFound, scan_drivers-IsFound, scan_drivers_complete}
use labgrid.Target.Highest.{chosen-IsTop}

-- What was asked for: the class, the name if one is given, and to be active if `only_active`.
pub record IsWanted (cls : String) (name : Option String) (only_active : Bool) (o : Bindable)
    : Type 0 where
  pub of_class : contains cls o.classes ≡ true
  pub named : (want : String) → name ≡ some want → str_empty want ≡ false → o.name ≡ some want
  pub running : only_active ≡ true → o.state ≡ active

-- The driver with the highest priority among those that were asked for.
pub record IsChosen (cls : String) (name : Option String) (only_active : Bool) (t : Target)
    (ref : ℕ) : Type 0 where
  pub object : Bindable
  pub there : get ref t.objects ≡ some object
  pub among : contains ref t.drivers ≡ true
  pub wanted : IsWanted cls name only_active object
  pub best :
      (r : ℕ) (o : Bindable)
      → contains r t.drivers ≡ true
      → get r t.objects ≡ some o
      → IsWanted cls name only_active o
      → (r ≡ ref) ⊎ (int_ltb (o.priority cls) (object.priority cls) ≡ true)

is_active-active : (s : BindingState) → is_active s ≡ true → s ≡ active
is_active-active active h = refl
is_active-active BindingState.error h = cc
is_active-active BindingState.idle h = cc
is_active-active BindingState.bound h = cc

name_passes_sound :
    (name given : Option String) (want : String)
    → name_passes name given ≡ true
    → name ≡ some want
    → str_empty want ≡ false
    → given ≡ some want
name_passes_sound none given want h e k = cc
name_passes_sound (some w) none want h e k =
    let same : w ≡ want = cc in
    absurd (ground (arith, h, subst (λ x. str_empty x ≡ false) (sym same) k))
name_passes_sound (some w) (some g) want h e k =
    let same : w ≡ want = cc in
    let full : str_empty w ≡ false = subst (λ x. str_empty x ≡ false) (sym same) k in
    let hit : g ≡ w = ground (arith, h, full, ==_iff g w) in ap some (hit ∙ same)

name_passes_complete :
    (name given : Option String)
    → ((want : String) → name ≡ some want → str_empty want ≡ false → given ≡ some want)
    → name_passes name given ≡ true
name_passes_complete none given h = refl
name_passes_complete (some w) given h = elim (Bool-cases (str_empty w)) [
  | inl empty ↦ any_name given empty
  | inr full ↦
      subst (λ g. name_passes (some w) g ≡ true) (sym (h w refl full))
        (rw full ((==_iff w w).1 refl))
]
  where
    any_name : (g : Option String) → str_empty w ≡ true → name_passes (some w) g ≡ true
    any_name none e = e
    any_name (some g) e = rw e refl

-- The filters of the loop say what was asked for.
passes-IsWanted :
    (cls : String) (name : Option String) (only_active : Bool) (o : Bindable)
    → driver_passes cls name only_active o ≡ true
    → IsWanted cls name only_active o
unfolding driver_passes
passes-IsWanted cls name only_active o h = record {
  of_class = ground arith;
  named = λ want e k. name_passes_sound name o.name want (ground arith) e k;
  running = λ e. is_active-active o.state (ground (arith, e, h));
}

IsWanted-passes :
    (cls : String) (name : Option String) (only_active : Bool) (o : Bindable)
    → IsWanted cls name only_active o
    → driver_passes cls name only_active o ≡ true
unfolding driver_passes
IsWanted-passes cls name only_active o w = elim (Bool-cases only_active) [
  | inl e ↦
      rw (w.of_class, name_passes_complete name o.name w.named, e) (ap is_active (w.running e))
  | inr e ↦ rw (w.of_class, name_passes_complete name o.name w.named, e) refl
]

-- A driver that is selected is one of those of the target, has the class that was asked for, and
-- the name if one that is not empty was given, and is active if only active ones were asked for;
-- and every other driver of the target of which this holds has a lower priority for the class.
pub get_driver-IsChosen :
    (cls : String) (name : Option String) (only_active : Bool) (t : Target) (ref : ℕ)
    → get_driver cls name only_active t ≡ ok ref
    → IsChosen cls name only_active t ref
unfolding get_driver
get_driver-IsChosen cls name only_active t ref e =
    let p = driver_passes cls name only_active in
    let found = scan_drivers t.objects p t.drivers in
    let all = scan_drivers-IsFound t.objects t.drivers p t.drivers (All-contains t.drivers) in
    let (o, chosen, tops) = chosen-IsTop cls (IsFound t.objects t.drivers p) found ref all e in
    record {
      object = o;
      there = chosen.there;
      among = chosen.among;
      wanted = passes-IsWanted cls name only_active o chosen.passes;
      best = λ r o' m there w.
          scan_drivers_complete t.objects t.drivers p
            (λ k x. (k ≡ ref) ⊎ (int_ltb (x.priority cls) (o.priority cls) ≡ true)) t.drivers tops r
            o' m there (IsWanted-passes cls name only_active o' w);
    }
