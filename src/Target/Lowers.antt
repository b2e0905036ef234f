-- ===== src/Target/Lowers.antt =====
-- labgrid/target.py: what deactivating one object does to the others.
use labgrid.Prelude.{
  ℕ, ◌≡◌, ◌≢◌, refl, sym, ap, ◌∙◌, true, some, nat_eq, ◌==◌, ==_iff, contains, if◌then◌else◌, arith,
  Bool-cases, inl, inr, ◌⊎◌,
}
use labgrid.Prelude.Dict.{get, get-put}
use labgrid.Target.{Bindable, Target, bound, active}
use labgrid.Target.Deactivate.{set_bound}

abbrev pub lowered : Bindable → Bindable
lowered o = record o { state = bound }

-- An object may go from active to bound.
abbrev pub ObjectsLower : Target → Target → Type 0
ObjectsLower s t =
    (ref : ℕ)
    → (get ref t.objects ≡ get ref s.objects)
      ⊎ ((o : Bindable) × (get ref s.objects ≡ some o)
          × (o.state ≡ active)
          × (get ref t.objects ≡ some (lowered o)))

-- Objects may go from active to bound, and nothing else changes.
pub record Lowers (s t : Target) : Type 0 where
  pub same_resources : t.resources ≡ s.resources
  pub same_drivers : t.drivers ≡ s.drivers
  pub lower : ObjectsLower s t

pub Lowers-refl : (s : Target) → Lowers s s
Lowers-refl s = record { same_resources = refl; same_drivers = refl; lower = λ ref. inl refl }

abbrev pub IsDown : Target → ℕ → Type 0
IsDown t ref = (o : Bindable) → get ref t.objects ≡ some o → o.state ≢ active

-- An object with an active client is active.
abbrev pub IsConsistent : Target → Type 0
IsConsistent t =
    (ref c : ℕ) (o oc : Bindable)
    → get ref t.objects ≡ some o
    → get c t.objects ≡ some oc
    → contains c o.clients ≡ true
    → oc.state ≡ active
    → o.state ≡ active

pub bound_not_active : bound ≢ active
bound_not_active e = cc

ObjectsLower-trans : (s t u : Target) → ObjectsLower s t → ObjectsLower t u → ObjectsLower s u
ObjectsLower-trans s t u a b ref = elim (b ref) [
  | inl same ↦ elim (a ref) [
    | inl same' ↦ inl (same ∙ same')
    | inr (o, there, act, low) ↦ inr (o, there, act, same ∙ low)
  ]
  | inr (o, there, act, low) ↦ elim (a ref) [
    | inl same' ↦ inr (o, sym same' ∙ there, act, low)
    | inr (o', there', act', low') ↦
        let e : lowered o' ≡ o = cc (low', there) in
        absurd (bound_not_active (ap (λ x. x.state) e ∙ act))
  ]
]

pub Lowers-trans : (s t u : Target) → Lowers s t → Lowers t u → Lowers s u
Lowers-trans s t u a b = record {
  same_resources = b.same_resources ∙ a.same_resources;
  same_drivers = b.same_drivers ∙ a.same_drivers;
  lower = ObjectsLower-trans s t u a.lower b.lower;
}

pub IsDown-Lowers : (s t : Target) (ref : ℕ) → Lowers s t → IsDown s ref → IsDown t ref
IsDown-Lowers s t ref l d o there act = elim (l.lower ref) [
  | inl same ↦ d o (sym same ∙ there) act
  | inr (o', there', act', low) ↦ d o' there' act'
]

pub get-set_bound :
    (ref r : ℕ) (t : Target) (o : Bindable)
    → get ref t.objects ≡ some o
    → get r (set_bound ref t).objects ≡ (if ref == r then some (lowered o) else get r t.objects)
unfolding set_bound
get-set_bound ref r t o there = rw (set_bound, there) (get-put ref r (lowered o) t.objects)

set_bound-ObjectsLower :
    (ref : ℕ) (t : Target) (o : Bindable)
    → get ref t.objects ≡ some o
    → (o.state ≡ active) ⊎ (o.state ≡ bound)
    → ObjectsLower t (set_bound ref t)
set_bound-ObjectsLower ref t o there state r = elim (Bool-cases (ref == r)) [
  | inl hit ↦
      let same : r ≡ ref = sym ((==_iff ref r).0 hit) in
      let low : get r (set_bound ref t).objects ≡ some (lowered o) =
        ground (arith, get-set_bound ref r t o there, hit) in
      elim state [
        | inl act ↦ inr (o, rw same there, act, low)
        | inr is_bound ↦
            let kept : lowered o ≡ o = ap (λ b. record o { state = b }) (sym is_bound) in
            inl (low ∙ ap some kept ∙ sym (rw same there))
      ]
  | inr miss ↦ inl (ground (arith, get-set_bound ref r t o there, miss))
]

pub set_bound-Lowers :
    (ref : ℕ) (t : Target) (o : Bindable)
    → get ref t.objects ≡ some o
    → (o.state ≡ active) ⊎ (o.state ≡ bound)
    → Lowers t (set_bound ref t)
unfolding set_bound
set_bound-Lowers ref t o there state = record {
  same_resources = rw (set_bound, there) refl;
  same_drivers = rw (set_bound, there) refl;
  lower = set_bound-ObjectsLower ref t o there state;
}

pub set_bound-IsDown :
    (ref : ℕ) (t : Target) (o : Bindable)
    → get ref t.objects ≡ some o
    → IsDown (set_bound ref t) ref
set_bound-IsDown ref t o there o' e act =
    let hit = (==_iff ref ref).1 refl in
    let low : some (lowered o) ≡ some o' =
      ground (arith, get-set_bound ref ref t o there, hit, e) in
    let same : lowered o ≡ o' = cc in bound_not_active (ap (λ x. x.state) same ∙ act)

-- With all its clients down, an object may go down.
pub set_bound-IsConsistent :
    (ref : ℕ) (t : Target) (o : Bindable)
    → get ref t.objects ≡ some o
    → ((c : ℕ) → contains c o.clients ≡ true → IsDown t c)
    → IsConsistent t
    → IsConsistent (set_bound ref t)
set_bound-IsConsistent ref t o there down v r c x xc hr hc m act =
    let gr = get-set_bound ref r t o there in
    let gc = get-set_bound ref c t o there in
    elim (Bool-cases (ref == c)) [
      | inl hit ↦
          let low : lowered o ≡ xc = ground (arith, gc, hit, hc) in
          absurd (bound_not_active (ap (λ y. y.state) low ∙ act))
      | inr miss ↦
          let hc' : get c t.objects ≡ some xc = ground (arith, gc, miss, hc) in
          elim (Bool-cases (ref == r)) [
            | inl here ↦
                let low : lowered o ≡ x = ground (arith, gr, here, hr) in
                absurd (down c (ap (λ y. contains c y.clients) low ∙ m) xc hc' act)
            | inr there' ↦ v r c x xc (ground (arith, gr, there', hr)) hc' m act
          ]
    ]
