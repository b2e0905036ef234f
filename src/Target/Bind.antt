-- ===== src/Target/Bind.antt =====
-- labgrid/target.py: `bind_driver`, which finds the suppliers of a driver and binds it to them.
-- `mro` has the names of the classes that a class stands for, and `on_bound` the two methods that
-- tell a driver and its supplier of each other: they may raise.
use labgrid.Prelude.{
  ℕ, Bool, true, false, not, ◌&&◌, ◌||◌, Option, none, some, List, [], ◌∷◌, ◌++◌, String, nat_eq,
  string_eq, pair_eq, contains, is_empty, if◌then◌else◌, Outcome, ok, raised, check, or_raise,
  ◌>>=◌, ◌>>◌, Exception, name_error, binding_error, assertion_error, no_supplier_found,
  no_driver_found, no_resource_found, no_strategy_found,
}
use labgrid.Prelude.Dict.{Dict, get, put, del}
use labgrid.Target.{Bindable, Target, bound, is_idle}
use labgrid.Target.Select.{get_resource, get_driver}

-- An entry of the class's `bindings`: the required classes, in the order in which the set is gone
-- through and without `None`, whether `None` was one of them, and whether it is a `NamedBinding`.
pub record Binding : Type 0 where
  pub name : String
  pub requirements : List String
  pub optional : Bool
  pub explicit : Bool

-- `NoSupplierFoundError` and its subclasses.
abbrev pub is_no_supplier : Exception → Bool
is_no_supplier no_supplier_found = true
is_no_supplier no_driver_found = true
is_no_supplier no_resource_found = true
is_no_supplier no_strategy_found = true
is_no_supplier _ = false

-- `set.add`
unfoldable pub add_ref : ℕ → List ℕ → List ℕ
unfolding contains
add_ref a xs = if contains a xs then xs else xs ++ a ∷ []

unfoldable pub change : ℕ → (Bindable → Bindable) → Dict ℕ Bindable → Dict ℕ Bindable
unfolding get put
change ref f objects = elim (get ref objects) [ none ↦ objects | some o ↦ put ref (f o) objects ]

-- What was found for one binding: the error of a single requirement is raised as it is.
abbrev pub no_supplier : Bool → List Exception → Outcome (Option ℕ)
no_supplier true errors = ok none
no_supplier false (e ∷ []) = raised e
no_supplier false _ = raised no_supplier_found

abbrev pub choose_supplier : Bool → List ℕ × List Exception → Outcome (Option ℕ)
choose_supplier optional ([], errors) = no_supplier optional errors
choose_supplier optional (s ∷ [], errors) = ok (some s)
choose_supplier optional (_ ∷ _ ∷ _, errors) = raised no_supplier_found

-- `requirement` after the loop: the last one, or the one of an earlier binding.
abbrev pub last_of : List String → Option String → Option String
last_of [] last = last
last_of (r ∷ rs) last = last_of rs (some r)

abbrev pub Attributes : Type 0
Attributes = Dict String (Option ℕ)

abbrev pub Pairs : Type 0
Pairs = List (String × ℕ)

-- A pair with `None` is never looked for.
unfoldable pub bound_before : String → Option ℕ → Pairs → Bool
unfolding contains
bound_before requirement none pairs = false
bound_before requirement (some s) pairs = contains (requirement, s) pairs

abbrev pub add_pair : String → Option ℕ → Pairs → Pairs
add_pair requirement none pairs = pairs
add_pair requirement (some s) pairs = (requirement, s) ∷ pairs

abbrev pub with_supplier : Option ℕ → List ℕ → List ℕ
with_supplier none suppliers = suppliers
with_supplier (some s) suppliers = s ∷ suppliers

-- `explicit and supplier_name is None`
abbrev pub lacks_name : Bool → Option String → Bool
lacks_name explicit none = explicit
lacks_name explicit (some _) = false

module _ (mro : String → List String) where
  unfoldable pub find_supplier : (requirement : String) → Option String → Target → Outcome ℕ
  unfolding contains get_resource get_driver
  find_supplier requirement name t =
      if contains "Resource" (mro requirement)
      then get_resource requirement name t
      else if contains "Driver" (mro requirement) || contains "ABC" (mro requirement)
      then get_driver requirement name false t
      else raised no_supplier_found

  -- The suppliers and the errors of the requirements.
  unfoldable pub find_suppliers :
      List String → Option String → Target → Outcome (List ℕ × List Exception)
  unfolding find_supplier
  find_suppliers [] name t = ok ([], [])
  find_suppliers (r ∷ rs) name t =
      let rest = find_suppliers rs name t in
      elim (find_supplier r name t) [
        | ok s ↦ rest >>= λ found. ok (s ∷ found.0, found.1)
        | raised e ↦
            if is_no_supplier e then (rest >>= λ found. ok (found.0, e ∷ found.1)) else raised e
      ]

  -- One binding: its supplier, and the requirement that goes into the pairs.
  unfoldable pub find_binding :
      Binding → Option String → Pairs → Option String → Target → Outcome (Option ℕ × String)
  unfolding find_suppliers bound_before
  find_binding b last pairs supplier_name t = do
    check (not (lacks_name b.explicit supplier_name)) binding_error
    found ← find_suppliers b.requirements supplier_name t
    supplier ← choose_supplier b.optional found
    requirement ← or_raise (last_of b.requirements last) name_error
    check (not (bound_before requirement supplier pairs)) binding_error
    ok (supplier, requirement)

  -- `for name, requirements in client.bindings.items()`: the suppliers and what is left of the
  -- mapping, and the attributes of the client, which stay as they are when a later binding fails.
  unfoldable pub locate :
      List Binding
      → Option String
      → Pairs
      → Dict String String
      → Target
      → Attributes
      → Outcome (List ℕ × Dict String String) × Attributes
  unfolding find_binding get put del
  locate [] last pairs mapping t attributes = (ok ([], mapping), attributes)
  locate (b ∷ bs) last pairs mapping t attributes =
      elim (find_binding b last pairs (get b.name mapping) t) [
        | raised e ↦ (raised e, attributes)
        | ok (supplier, requirement) ↦
            let rest =
              locate bs (last_of b.requirements last) (add_pair requirement supplier pairs)
                (del b.name mapping) t (put b.name supplier attributes) in
            (rest.0 >>= λ found. ok (with_supplier supplier found.0, found.1), rest.1)
      ]

-- The assertions on what was found.
abbrev pub may_supply : ℕ → Option Bindable → Bool
may_supply client none = false
may_supply client (some o) = o.has_target && not (contains client o.clients)

unfoldable pub may_bind : ℕ → Bindable → List ℕ → Target → Outcome (Unit {0})
unfolding get contains
may_bind client o [] t = ok tt
may_bind client o (s ∷ ss) t =
    check (may_supply client (get s t.objects) && not (contains s o.suppliers)) assertion_error
    >> may_bind client o ss t

-- `supplier.clients.add(client)` and `client.suppliers.add(supplier)`
unfoldable pub link : (client supplier : ℕ) → Target → Target
unfolding change add_ref
link client supplier t = record t {
  objects =
      change client (λ o. record o { suppliers = add_ref supplier o.suppliers })
        (change supplier (λ o. record o { clients = add_ref client o.clients }) t.objects);
}

module _ (on_bound : (client supplier : ℕ) → Outcome (Unit {0})) where
  unfoldable pub link_all : (client : ℕ) → List ℕ → Target → Outcome (Unit {0}) × Target
  unfolding link
  link_all client [] t = (ok tt, t)
  link_all client (s ∷ ss) t = elim (on_bound client s) [
    | ok _ ↦ link_all client ss (link client s t)
    | raised e ↦ (raised e, link client s t)
  ]

  -- The last part, from the list of the drivers on.
  unfoldable pub set_client_bound : ℕ → Outcome (Unit {0}) × Target → Outcome (Unit {0}) × Target
  unfolding change
  set_client_bound client (raised e, t) = (raised e, t)
  set_client_bound client (ok _, t) =
      (ok tt, record t { objects = change client (λ o. record o { state = bound }) t.objects })

  unfoldable pub attach : (client : ℕ) → List ℕ → Target → Outcome (Unit {0}) × Target
  unfolding link_all set_client_bound change
  attach client suppliers t = set_client_bound client (
      link_all client suppliers (record t {
        drivers = t.drivers ++ client ∷ [];
        objects = change client (λ o. record o { has_target = true }) t.objects;
      }))

  module _ (mro : String → List String) where
    -- What is checked before anything is bound.
    unfoldable pub check_suppliers :
        ℕ → Bindable → Target → List ℕ × Dict String String → Outcome (List ℕ)
    unfolding may_bind contains
    check_suppliers client o t found = do
      may_bind client o found.0 t
      check (is_empty found.1 || contains "Strategy" o.classes) binding_error
      ok found.0

    unfoldable pub find_all : List Binding → ℕ → Bindable → Target → Outcome (List ℕ) × Attributes
    unfolding locate check_suppliers
    find_all bindings client o t =
        let found = locate mro bindings none [] t.binding_map t o.attributes in
        (found.0 >>= check_suppliers client o t, found.1)

    -- `setattr(client, name, supplier)`
    abbrev pub with_attributes : Attributes → Bindable → Bindable
    with_attributes attributes o = record o { attributes = attributes }

    unfoldable pub set_attributes : ℕ → Attributes → Target → Target
    unfolding change
    set_attributes client attributes t = record t {
      objects = change client (with_attributes attributes) t.objects;
    }

    -- The state and the consistency of the client itself.
    unfoldable pub check_client : ℕ → Bindable → Target → Outcome (Unit {0})
    unfolding contains
    check_client client o t = do
      check (is_idle o.state) binding_error
      check (contains "Driver" o.classes && not (contains client t.drivers) && not o.has_target)
          assertion_error

    abbrev pub attach_found : ℕ → Outcome (List ℕ) → Target → Outcome (Unit {0}) × Target
    attach_found client (raised e) t = (raised e, t)
    attach_found client (ok suppliers) t = attach client suppliers t

    unfoldable pub bind_checked :
        List Binding → ℕ → Bindable → Outcome (Unit {0}) → Target → Outcome (Unit {0}) × Target
    unfolding find_all set_attributes attach
    bind_checked bindings client o (raised e) t = (raised e, t)
    bind_checked bindings client o (ok _) t =
        let (suppliers, attributes) = find_all bindings client o t in
        attach_found client suppliers
          (set_attributes client attributes (record t { binding_map = [] }))

    unfoldable pub bind_driver : List Binding → ℕ → Target → Outcome (Unit {0}) × Target
    unfolding get check_client bind_checked
    bind_driver bindings client t = elim (get client t.objects) [
      | none ↦ (raised assertion_error, t)
      | some o ↦ bind_checked bindings client o (check_client client o t) t
    ]
