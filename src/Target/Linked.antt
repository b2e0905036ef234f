-- ===== src/Target/Linked.antt =====
-- labgrid/target.py: clients and suppliers know each other, whatever `bind_driver` does.
use labgrid.Prelude.{
  ℕ, ◌≡◌, refl, ap, sym, subst, ◌∙◌, Bool, true, false, some, List, [], ◌∷◌, ◌++◌, String, nat_eq,
  contains, ◌==◌, ==_iff, Option, if◌then◌else◌, arith, Bool-cases, Option-cases, Outcome-cases,
  Outcome, ok, raised, inl, inr,
}
use labgrid.Prelude.Dict.{Dict, get, put, get-put}
use labgrid.Target.{Bindable, Target}
use labgrid.Target.Bind.{
  Binding, add_ref, change, link, link_all, set_client_bound, attach, find_all, check_client,
  attach_found, set_attributes, with_attributes, bind_checked, bind_driver,
}

-- An object is a client of another one exactly if the other one is a supplier of it.
abbrev pub IsLinked : Dict ℕ Bindable → Type 0
IsLinked objects =
    (a b : ℕ) (oa ob : Bindable)
    → get a objects ≡ some oa
    → get b objects ≡ some ob
    → contains b oa.clients ≡ contains a ob.suppliers

contains-snoc :
    (a x : ℕ) (xs : List ℕ) → contains x (xs ++ a ∷ []) ≡ (if a == x then true else contains x xs)
unfolding contains
contains-snoc a x [] = ground (arith, ==_iff a x)
contains-snoc a x (y ∷ ys) = ground (arith, ==_iff a x, contains-snoc a x ys)

pub contains-add_ref :
    (a x : ℕ) (xs : List ℕ) → contains x (add_ref a xs) ≡ (if a == x then true else contains x xs)
unfolding add_ref
contains-add_ref a x xs = elim (Bool-cases (contains a xs)) [
  | inl known ↦ rw known (ground (arith, ==_iff a x, known))
  | inr new ↦ rw new (contains-snoc a x xs)
]

some-injective : {x y : Bindable} → Path (Option Bindable) (some x) (some y) → x ≡ y
some-injective e = cc

-- What a change does to one object.
pub get-change :
    (ref a : ℕ) (f : Bindable → Bindable) (objects : Dict ℕ Bindable) (o : Bindable)
    → get a (change ref f objects) ≡ some o
    → (o' : Bindable) × (get a objects ≡ some o') × (o ≡ (if ref == a then f o' else o'))
unfolding change
get-change ref a f objects o h = elim (Option-cases (get ref objects)) [
  | inl gone ↦
      let same : change ref f objects ≡ objects = rw (change, gone) refl in
      let h' : get a objects ≡ some o = ap (get a) (sym same) ∙ h in
      elim (Bool-cases (ref == a)) [
        | inl hit ↦ absurd (ground (arith, ==_iff ref a, gone, h'))
        | inr miss ↦ (o, h', rw miss refl)
      ]
  | inr (old, there) ↦
      let same : change ref f objects ≡ put ref (f old) objects = rw (change, there) refl in
      let h' : (if ref == a then some (f old) else get a objects) ≡ some o =
        sym (get-put ref a (f old) objects) ∙ ap (get a) (sym same) ∙ h in
      elim (Bool-cases (ref == a)) [
        | inl hit ↦ (
          old,
          ground (arith, ==_iff ref a, there),
          rw hit (
              sym (
                some-injective
                  (subst (λ b. (if b then some (f old) else get a objects) ≡ some o) hit h'))),
        )
        | inr miss ↦ (o, ground (arith, h', miss), rw miss refl)
      ]
]

-- A change of other fields.
change-IsLinked :
    (ref : ℕ) (f : Bindable → Bindable) (objects : Dict ℕ Bindable)
    → ((o : Bindable) → ((f o).clients ≡ o.clients) × ((f o).suppliers ≡ o.suppliers))
    → IsLinked objects
    → IsLinked (change ref f objects)
change-IsLinked ref f objects same linked a b oa ob ha hb =
    let (oa', ha', ea) = get-change ref a f objects oa ha in
    let (ob', hb', eb) = get-change ref b f objects ob hb in
    ap (λ x. contains b x.clients) ea
    ∙ ap (contains b) (kept (ref == a) oa').0
    ∙ linked a b oa' ob' ha' hb'
    ∙ ap (contains a) (sym (kept (ref == b) ob').1)
    ∙ ap (λ x. contains a x.suppliers) (sym eb)
  where
    kept :
        (test : Bool) (o : Bindable)
        → ((if test then f o else o).clients ≡ o.clients)
          × ((if test then f o else o).suppliers ≡ o.suppliers)
    kept true o = same o
    kept false o = (refl, refl)

-- Both ends of a new link.
link-IsLinked :
    (client s : ℕ) (t : Target) → IsLinked t.objects → IsLinked (link client s t).objects
unfolding link
link-IsLinked client s t linked a b oa ob ha hb =
    let (oa1, ha1, ea1) = get-change client a _ _ oa ha in
    let (oa0, ha0, ea0) = get-change s a _ t.objects oa1 ha1 in
    let (ob1, hb1, eb1) = get-change client b _ _ ob hb in
    let (ob0, hb0, eb0) = get-change s b _ t.objects ob1 hb1 in
    let clients =
      ap (λ x. contains b x.clients) ea1
      ∙ outer_clients (client == a) oa1
      ∙ ap (λ x. contains b x.clients) ea0
      ∙ inner_clients (s == a) oa0 in
    let suppliers =
      ap (λ x. contains a x.suppliers) eb1
      ∙ outer_suppliers (client == b) ob1
      ∙ ap (λ on. if client == b then (if s == a then true else on) else on)
          (ap (λ x. contains a x.suppliers) eb0 ∙ inner_suppliers (s == b) ob0) in
    clients ∙ ground (arith, linked a b oa0 ob0 ha0 hb0) ∙ sym suppliers
  where
    outer_clients :
        (test : Bool) (o : Bindable)
        → contains b (if test then record o { suppliers = add_ref s o.suppliers } else o).clients
          ≡ contains b o.clients
    outer_clients true o = refl
    outer_clients false o = refl

    inner_clients :
        (test : Bool) (o : Bindable)
        → contains b (if test then record o { clients = add_ref client o.clients } else o).clients
          ≡ (if test
              then (if client == b then true else contains b o.clients)
              else contains b o.clients)
    inner_clients true o = contains-add_ref client b o.clients
    inner_clients false o = refl

    outer_suppliers :
        (test : Bool) (o : Bindable)
        → contains a (if test then record o { suppliers = add_ref s o.suppliers } else o).suppliers
          ≡ (if test
              then (if s == a then true else contains a o.suppliers)
              else contains a o.suppliers)
    outer_suppliers true o = contains-add_ref s a o.suppliers
    outer_suppliers false o = refl

    inner_suppliers :
        (test : Bool) (o : Bindable)
        → contains a (if test then record o { clients = add_ref client o.clients } else o).suppliers
          ≡ contains a o.suppliers
    inner_suppliers true o = refl
    inner_suppliers false o = refl

abbrev Linked : Outcome (Unit {0}) × Target → Type 0
Linked r = IsLinked r.1.objects

module _ (on_bound : (client supplier : ℕ) → Outcome (Unit {0})) where
  link_all-IsLinked :
      (client : ℕ) (ss : List ℕ) (t : Target)
      → IsLinked t.objects
      → Linked (link_all on_bound client ss t)
  unfolding link_all
  link_all-IsLinked client [] t linked = linked
  link_all-IsLinked client (s ∷ ss) t linked =
      let linked' = link-IsLinked client s t linked in
      elim (Outcome-cases (on_bound client s)) [
        | inl (_, e) ↦ rw (link_all, e) (link_all-IsLinked client ss (link client s t) linked')
        | inr (_, e) ↦ rw (link_all, e) linked'
      ]

  set_client_bound-IsLinked :
      (client : ℕ) (r : Outcome (Unit {0}) × Target)
      → Linked r
      → Linked (set_client_bound on_bound client r)
  unfolding set_client_bound
  set_client_bound-IsLinked client (raised e, t) linked = linked
  set_client_bound-IsLinked client (ok _, t) linked =
      change-IsLinked client _ t.objects (λ o. (refl, refl)) linked

  attach-IsLinked :
      (client : ℕ) (ss : List ℕ) (t : Target)
      → IsLinked t.objects
      → Linked (attach on_bound client ss t)
  unfolding attach
  attach-IsLinked client ss t linked = set_client_bound-IsLinked client _ (
      link_all-IsLinked client ss _ (change-IsLinked client _ t.objects (λ o. (refl, refl)) linked))

  module _ (mro : String → List String) where
    attach_found-IsLinked :
        (client : ℕ) (found : Outcome (List ℕ)) (t : Target)
        → IsLinked t.objects
        → Linked (attach_found on_bound mro client found t)
    attach_found-IsLinked client (raised e) t linked = linked
    attach_found-IsLinked client (ok suppliers) t linked = attach-IsLinked client suppliers t linked

    bind_checked-IsLinked :
        (bindings : List Binding) (client : ℕ) (o : Bindable) (r : Outcome (Unit {0})) (t : Target)
        → IsLinked t.objects
        → Linked (bind_checked on_bound mro bindings client o r t)
    unfolding bind_checked set_attributes
    bind_checked-IsLinked bindings client o (raised e) t linked = linked
    bind_checked-IsLinked bindings client o (ok _) t linked =
        let found = find_all on_bound mro bindings client o t in
        attach_found-IsLinked client found.0 _ (
          change-IsLinked client (with_attributes on_bound mro found.1) t.objects
            (λ o. (refl, refl)) linked)

    -- Binding a driver, completed or stopped by an exception at any point, leaves each object a
    -- client of exactly those that are its suppliers, if it was so before.
    pub bind_driver-IsLinked :
        (bindings : List Binding) (client : ℕ) (t : Target)
        → IsLinked t.objects
        → IsLinked (bind_driver on_bound mro bindings client t).1.objects
    unfolding bind_driver
    bind_driver-IsLinked bindings client t linked = elim (Option-cases (get client t.objects)) [
      | inl gone ↦ rw (bind_driver, gone) linked
      | inr (o, there) ↦
          rw (bind_driver, there)
            (bind_checked-IsLinked bindings client o (check_client on_bound mro client o t) t
              linked)
    ]
