-- ===== src/Target/Atomic.antt =====
-- labgrid/target.py: `bind_driver` binds a driver to all its suppliers or changes no object.
use labgrid.Prelude.{
  ℕ, ◌≡◌, ◌≢◌, refl, sym, ◌∙◌, Bool, true, false, some, List, [], ◌∷◌, ◌++◌, String, nat_eq,
  contains, ◌==◌, ==_iff, ==_self, if◌then◌else◌, arith, Bool-cases, Option-cases, Outcome, ok,
  raised, inl, inr, ◌⊎◌, All, Exception,
}
use labgrid.Prelude.Dict.{Dict, get, get-put}
use labgrid.Target.{Bindable, Target, bound}
use labgrid.Target.Bind.{
  Binding, add_ref, change, link, link_all, set_client_bound, attach, find_all, check_client,
  attach_found, set_attributes, with_attributes, Attributes, bind_checked, bind_driver,
}
use labgrid.Target.Linked.{contains-add_ref}

get-change_found :
    (ref a : ℕ) (f : Bindable → Bindable) (objects : Dict ℕ Bindable) (o : Bindable)
    → get a objects ≡ some o
    → get a (change ref f objects) ≡ some (if ref == a then f o else o)
unfolding change
get-change_found ref a f objects o there = elim (Option-cases (get ref objects)) [
  | inl gone ↦ elim (Bool-cases (ref == a)) [
    | inl hit ↦ absurd (ground (arith, ==_iff ref a, gone, there))
    | inr miss ↦ rw (change, gone, miss) there
  ]
  | inr (old, found) ↦ elim (Bool-cases (ref == a)) [
    | inl hit ↦
        let same : old ≡ o = ground (arith, ==_iff ref a, found, there) in
        rw (change, found, get-put ref a (f old) objects, hit, same) refl
    | inr miss ↦ rw (change, found, get-put ref a (f old) objects, miss) there
  ]
]

-- The client after a new link: it has the supplier, and those that it had.
link-client :
    (client s : ℕ) (t : Target) (o : Bindable)
    → get client t.objects ≡ some o
    → (o' : Bindable) × (get client (link client s t).objects ≡ some o')
      × (contains s o'.suppliers ≡ true)
      × ((x : ℕ) → contains x o.suppliers ≡ true → contains x o'.suppliers ≡ true)
unfolding link
link-client client s t o there = (
  record (inner (s == client)) { suppliers = add_ref s (inner (s == client)).suppliers },
  rw
      (
        get-change_found client client (λ o. record o { suppliers = add_ref s o.suppliers }) _
            (inner (s == client)) (get-change_found s client _ t.objects o there),
        ==_self client,
      )
      refl,
  rw (contains-add_ref s s (inner (s == client)).suppliers, ==_self s) refl,
  λ x had.
      ground (arith, contains-add_ref s x (inner (s == client)).suppliers, kept (s == client), had),
)
  where
    inner : Bool → Bindable
    inner test = if test then record o { clients = add_ref client o.clients } else o

    kept : (test : Bool) → (inner test).suppliers ≡ o.suppliers
    kept true = refl
    kept false = refl

abbrev HasAll : Bindable → List ℕ → Type 0
HasAll o suppliers = All (λ s. contains s o.suppliers ≡ true) suppliers

-- The driver is bound, one of the target's, and has these suppliers.
pub record IsBound (client : ℕ) (suppliers : List ℕ) (s t : Target) : Type 0 where
  pub object : Bindable
  pub there : get client t.objects ≡ some object
  pub state_bound : object.state ≡ bound
  pub has_all : HasAll object suppliers
  pub among : t.drivers ≡ s.drivers ++ client ∷ []

-- Nothing is changed but the map of names and the client's attributes for its suppliers.
pub record IsUnchanged (client : ℕ) (s t : Target) : Type 0 where
  pub same_drivers : t.drivers ≡ s.drivers
  pub same_resources : t.resources ≡ s.resources
  pub same_objects :
      (ref : ℕ) (o : Bindable)
      → get ref s.objects ≡ some o
      → (attributes : Attributes) × (get ref t.objects
          ≡ some (record o { attributes = attributes }))
        × (ref ≢ client → attributes ≡ o.attributes)

-- What binding does: it raises and binds nothing, or succeeds with all that was found.
abbrev pub IsAllOrNothing : ℕ → Outcome (List ℕ) → Target → Outcome (Unit {0}) × Target → Type 0
IsAllOrNothing client found s r =
    ((e : Exception) × (r.0 ≡ raised e) × IsUnchanged client s r.1)
    ⊎ ((suppliers : List ℕ) × (found ≡ ok suppliers)
        × (r.0 ≡ ok tt)
        × IsBound client suppliers s r.1)

module _ (on_bound : (client supplier : ℕ) → Outcome (Unit {0}))
    (silent : (client s : ℕ) → on_bound client s ≡ ok tt) where
  link_all-client :
      (client : ℕ) (ss : List ℕ) (t : Target) (o : Bindable)
      → get client t.objects ≡ some o
      → let r = link_all on_bound client ss t in
        (r.0 ≡ ok tt)
        × (r.1.drivers ≡ t.drivers)
        × (o' : Bindable) × (get client r.1.objects ≡ some o')
        × ((x : ℕ) → contains x o.suppliers ≡ true → contains x o'.suppliers ≡ true)
        × HasAll o' ss
  unfolding link_all
  link_all-client client [] t o there = (refl, refl, o, there, λ x had. had, tt)
  link_all-client client (s ∷ ss) t o there =
      let (o1, there1, has, kept) = link-client client s t o there in
      let (done, same, o2, there2, kept2, all) =
        link_all-client client ss (link client s t) o1 there1 in
      rw (link_all, silent client s)
        (done, same ∙ link-drivers, o2, there2, λ x had. kept2 x (kept x had), (kept2 s has, all))
    where
      link-drivers : (link client s t).drivers ≡ t.drivers
      link-drivers = unfold link in refl

  set_client_bound-IsBound :
      (client : ℕ) (ss : List ℕ) (s : Target) (r : Outcome (Unit {0}) × Target) (o : Bindable)
      → r.0 ≡ ok tt
      → get client r.1.objects ≡ some o
      → HasAll o ss
      → r.1.drivers ≡ s.drivers ++ client ∷ []
      → ((set_client_bound on_bound client r).0 ≡ ok tt)
        × IsBound client ss s (set_client_bound on_bound client r).1
  unfolding set_client_bound
  set_client_bound-IsBound client ss s (raised e, t) o done there all among =
      absurd (ground (arith, done))
  set_client_bound-IsBound client ss s (ok _, t) o done there all among = (
    refl,
    record {
      object = record o { state = bound };
      there =
          rw
            (
              get-change_found client client (λ x. record x { state = bound }) t.objects o there,
              ==_self client,
            )
            refl;
      state_bound = refl;
      has_all = all;
      among = among;
    },
  )

  attach-IsBound :
      (client : ℕ) (ss : List ℕ) (t : Target) (o : Bindable)
      → get client t.objects ≡ some o
      → ((attach on_bound client ss t).0 ≡ ok tt)
        × IsBound client ss t (attach on_bound client ss t).1
  unfolding attach
  attach-IsBound client ss t o there =
      let t1 : Target = record t {
        drivers = t.drivers ++ client ∷ [];
        objects = change client (λ x. record x { has_target = true }) t.objects;
      } in
      let there1 : get client t1.objects ≡ some (record o { has_target = true }) =
        get-change_found client client (λ x. record x { has_target = true }) t.objects o there
        ∙ rw (==_self client) refl in
      let (done, same, o2, there2, kept, all) = link_all-client client ss t1 _ there1 in
      set_client_bound-IsBound client ss t (link_all on_bound client ss t1) o2 done there2 all same

  module _ (mro : String → List String) (bindings : List Binding) where
    -- The target after the search, whether it succeeds or not.
    abbrev after_search : ℕ → Attributes → Target → Target
    after_search client attributes t =
        set_attributes on_bound mro client attributes (record t { binding_map = [] })

    get-after_search :
        (client ref : ℕ) (attributes : Attributes) (t : Target) (o : Bindable)
        → get ref t.objects ≡ some o
        → get ref (after_search client attributes t).objects
          ≡ some (if client == ref then with_attributes on_bound mro attributes o else o)
    unfolding set_attributes
    get-after_search client ref attributes t o there =
        get-change_found client ref (with_attributes on_bound mro attributes) t.objects o there

    after_search-IsUnchanged :
        (client : ℕ) (attributes : Attributes) (t : Target)
        → IsUnchanged client t (after_search client attributes t)
    unfolding set_attributes
    after_search-IsUnchanged client attributes t = record {
      same_drivers = refl;
      same_resources = refl;
      same_objects = λ ref o there.
          let found = get-after_search client ref attributes t o there in
          elim (Bool-cases (client == ref)) [
            | inl hit ↦ (
              attributes,
              found ∙ rw hit refl,
              λ other. absurd (other (sym ((==_iff client ref).0 hit))),
            )
            | inr miss ↦ (o.attributes, found ∙ rw miss refl, λ _. refl)
          ];
    }

    attach_found-IsAllOrNothing :
        (client : ℕ) (found : Outcome (List ℕ)) (attributes : Attributes) (t : Target)
        (o : Bindable)
        → get client t.objects ≡ some o
        → IsAllOrNothing client found t
            (attach_found on_bound mro client found (after_search client attributes t))
    unfolding set_attributes
    attach_found-IsAllOrNothing client (raised e) attributes t o there =
        inl (e, refl, after_search-IsUnchanged client attributes t)
    attach_found-IsAllOrNothing client (ok ss) attributes t o there =
        let there' = get-after_search client client attributes t o there in
        let (done, b) = attach-IsBound client ss (after_search client attributes t) _ there' in
        inr (
          ss,
          refl,
          done,
          record {
            object = b.object;
            there = b.there;
            state_bound = b.state_bound;
            has_all = b.has_all;
            among = b.among;
          },
        )

    bind_checked-IsAllOrNothing :
        (client : ℕ) (o : Bindable) (r : Outcome (Unit {0})) (t : Target)
        → get client t.objects ≡ some o
        → IsAllOrNothing client
            (find_all on_bound mro bindings client o t).0
            t
            (bind_checked on_bound mro bindings client o r t)
    unfolding bind_checked
    bind_checked-IsAllOrNothing client o (raised e) t there = inl (
      e,
      refl,
      record {
        same_drivers = refl;
        same_resources = refl;
        same_objects = λ ref x there. (x.attributes, there, λ _. refl);
      },
    )
    bind_checked-IsAllOrNothing client o (ok _) t there =
        let found = find_all on_bound mro bindings client o t in
        attach_found-IsAllOrNothing client found.0 found.1 t o there

    -- If the methods that tell a driver and its suppliers of each other do not raise, then binding
    -- a driver either raises an exception, and changes neither list of the target and no object,
    -- but for the attributes of the driver that name its suppliers, or succeeds: the driver is
    -- then bound and the last of the target's drivers, and all the suppliers that were found for
    -- its bindings are its suppliers.
    pub bind_driver-IsAllOrNothing :
        (client : ℕ) (t : Target) (o : Bindable)
        → get client t.objects ≡ some o
        → IsAllOrNothing client
            (find_all on_bound mro bindings client o t).0
            t
            (bind_driver on_bound mro bindings client t)
    unfolding bind_driver
    bind_driver-IsAllOrNothing client t o there =
        rw (bind_driver, there)
          (bind_checked-IsAllOrNothing client o (check_client on_bound mro client o t) t there)
