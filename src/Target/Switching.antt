-- ===== src/Target/Switching.antt =====
-- labgrid/target.py: objects that are activated and deactivated.
use labgrid.Prelude.{
  ℕ, ◌≡◌, refl, sym, ap, subst, ◌∙◌, some, nat_eq, string_eq, ◌==◌, ==_iff, if◌then◌else◌, Outcome,
  ok, raised, arith, inl, inr, ◌⊎◌, Bool-cases,
}
use labgrid.Prelude.Dict.{get, get-put}
use labgrid.Target.{Target, Bindable, BindingState, bound, active}
use labgrid.Target.Lowers.{Lowers}
use labgrid.Target.Await.{Site, SiteM, then_do}
use labgrid.Target.Activate.{set_active}

abbrev pub IsSwitched : Bindable → Type 0
IsSwitched o = (o.state ≡ active) ⊎ (o.state ≡ bound)

abbrev pub in_state : BindingState → Bindable → Bindable
in_state x o = record o { state = x }

-- An object may go from active to bound or back, and nothing else changes.
abbrev pub ObjectsSwitch : Target → Target → Type 0
ObjectsSwitch s t =
    (ref : ℕ)
    → (get ref t.objects ≡ get ref s.objects)
      ⊎ ((o : Bindable) × (state : BindingState) × (get ref s.objects ≡ some o)
          × IsSwitched o
          × ((state ≡ active) ⊎ (state ≡ bound))
          × (get ref t.objects ≡ some (in_state state o)))

pub record Switches (s t : Target) : Type 0 where
  pub same_resources : t.resources ≡ s.resources
  pub same_drivers : t.drivers ≡ s.drivers
  pub switched : ObjectsSwitch s t

pub Switches-refl : (s : Target) → Switches s s
Switches-refl s = record { same_resources = refl; same_drivers = refl; switched = λ ref. inl refl }

ObjectsSwitch-trans : (s t u : Target) → ObjectsSwitch s t → ObjectsSwitch t u → ObjectsSwitch s u
ObjectsSwitch-trans s t u a b ref = elim (b ref) [
  | inl same ↦ elim (a ref) [
    | inl same' ↦ inl (same ∙ same')
    | inr (o, x, there, was, is, now) ↦ inr (o, x, there, was, is, same ∙ now)
  ]
  | inr (o, x, there, was, is, now) ↦ elim (a ref) [
    | inl same' ↦ inr (o, x, sym same' ∙ there, was, is, now)
    | inr (o', x', there', was', is', now') ↦
        let e : in_state x' o' ≡ o = cc (now', there) in
        inr (o', x, there', was', is, now ∙ ap (λ y. some (in_state x y)) (sym e))
  ]
]

Switches-trans : (s t u : Target) → Switches s t → Switches t u → Switches s u
Switches-trans s t u a b = record {
  same_resources = b.same_resources ∙ a.same_resources;
  same_drivers = b.same_drivers ∙ a.same_drivers;
  switched = ObjectsSwitch-trans s t u a.switched b.switched;
}

pub Lowers-Switches : (s t : Target) → Lowers s t → Switches s t
Lowers-Switches s t l = record {
  same_resources = l.same_resources;
  same_drivers = l.same_drivers;
  switched = λ ref. elim (l.lower ref) [
    | inl same ↦ inl same
    | inr (o, there, act, low) ↦ inr (o, bound, there, inl act, inr refl, low)
  ];
}

pub get-set_active :
    (ref r : ℕ) (t : Target) (o : Bindable)
    → get ref t.objects ≡ some o
    → get r (set_active ref t).objects
      ≡ (if ref == r then some (record o { state = active }) else get r t.objects)
unfolding set_active
get-set_active ref r t o there =
    rw (set_active, there) (get-put ref r (record o { state = active }) t.objects)

pub set_active-Switches :
    (ref : ℕ) (t : Target) (o : Bindable)
    → get ref t.objects ≡ some o
    → IsSwitched o
    → Switches t (set_active ref t)
unfolding set_active
set_active-Switches ref t o there was = record {
  same_resources = rw (set_active, there) refl;
  same_drivers = rw (set_active, there) refl;
  switched = λ r. elim (Bool-cases (ref == r)) [
    | inl hit ↦
        let same : ref ≡ r = (==_iff ref r).0 hit in
        inr (
          o,
          active,
          subst (λ x. get x t.objects ≡ some o) same there,
          was,
          inl refl,
          get-set_active ref r t o there ∙ rw hit refl,
        )
    | inr miss ↦ inl (get-set_active ref r t o there ∙ rw miss refl)
  ];
}

-- What a call leaves, completed or not.
abbrev pub IsSwitching {ℓ} : {A : Type ℓ} → Site → Outcome A × Site → Type 0
IsSwitching s r = Switches s.target r.1.target

pub then_do-Switches {ℓ κ} :
    {A : Type ℓ} {B : Type κ} (s : Site) (r : Outcome A × Site) (f : A → SiteM B)
    → IsSwitching s r
    → ((a : A) (t : Site) → Switches s.target t.target → IsSwitching t (f a t))
    → IsSwitching s (then_do r f)
then_do-Switches s (raised e, t) f l k = l
then_do-Switches s (ok a, t) f l k = Switches-trans s.target t.target (f a t).1.target l (k a t l)

-- An object that can be activated and deactivated.
abbrev pub IsReady : ℕ → Target → Type 0
IsReady ref t = (o : Bindable) × (get ref t.objects ≡ some o) × IsSwitched o

pub IsReady-Switches : (ref : ℕ) (s t : Target) → Switches s t → IsReady ref s → IsReady ref t
IsReady-Switches ref s t w (o, there, ready) = elim (w.switched ref) [
  | inl same ↦ (o, same ∙ there, ready)
  | inr (o', x, there', was, is, now) ↦ (in_state x o', now, is)
]

-- What a completed call establishes.
abbrev pub Gives : (Target → Type 0) → Outcome (Unit {0}) × Site → Type 0
Gives P r = r.0 ≡ ok tt → P r.1.target

pub then_do-Gives {ℓ} :
    {A : Type ℓ} (P : Target → Type 0) (r : Outcome A × Site) (f : A → SiteM (Unit {0}))
    → ((a : A) → r.0 ≡ ok a → Gives P (f a r.1))
    → Gives P (then_do r f)
then_do-Gives P (raised e, t) f k returns = absurd (ground arith)
then_do-Gives P (ok a, t) f k returns = k a refl returns
