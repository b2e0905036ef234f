-- ===== src/Target/Selected.antt =====
-- labgrid/target.py: what `get_resource` selects.
use labgrid.Prelude.{
  ℕ, ◌≡◌, subst, Bool, true, false, not, Option, none, some, List, [], ◌∷◌, ◌++◌, String, nat_eq,
  string_eq, ◌&&◌, contains, if◌then◌else◌, ok, All, All-append, All-contains, Bool-cases,
  Option-cases, inl, inr, length, nat_beq,
}
use labgrid.Prelude.Dict.{Dict, get}
use labgrid.Target.{Bindable, Target}
use labgrid.Target.Select.{
  name_passes, named_default, no_name, scan_resources, or_default, only_resource, get_resource,
}

-- One of the given objects, and what holds of it.
pub record IsSelected (objects : Dict ℕ Bindable) (refs : List ℕ) (p : Bindable → Bool) (ref : ℕ)
    : Type 0 where
  pub object : Bindable
  pub there : get ref objects ≡ some object
  pub among : contains ref refs ≡ true
  pub passes : p object ≡ true

abbrev OfOption : (ℕ → Type 0) → Option ℕ → Type 0
OfOption P none = Unit
OfOption P (some r) = P r

module _ (objects : Dict ℕ Bindable) (all_refs : List ℕ) where
  abbrev Selected : (Bindable → Bool) → ℕ → Type 0
  Selected p ref = IsSelected objects all_refs p ref

  scan_resources-Selected :
      (cls : String) (name : Option String) (refs found : List ℕ) (default : Option ℕ)
      → All (λ r. contains r all_refs ≡ true) refs
      → All (Selected (λ o. contains cls o.classes)) found
      → OfOption (Selected (λ o. contains cls o.classes)) default
      → let r = scan_resources objects cls name refs found default in
        All (Selected (λ o. contains cls o.classes)) r.0
        × OfOption (Selected (λ o. contains cls o.classes)) r.1
  unfolding scan_resources
  scan_resources-Selected cls name [] found default m f d = (f, d)
  scan_resources-Selected cls name (ref ∷ refs) found default m f d =
      elim (Option-cases (get ref objects)) [
        | inl gone ↦
            rw (scan_resources, gone) (scan_resources-Selected cls name refs found default m.1 f d)
        | inr (o, there) ↦ elim (Bool-cases (contains cls o.classes)) [
          | inr other ↦
              rw (scan_resources, there, other)
                (scan_resources-Selected cls name refs found default m.1 f d)
          | inl is_cls ↦
              let this : Selected (λ x. contains cls x.classes) ref = record {
                object = o;
                there = there;
                among = m.0;
                passes = is_cls;
              } in
              rw (scan_resources, there, is_cls)
                (scan_resources-Selected cls name refs _ _ m.1
                  (added (name_passes name o.name) found ref f this)
                  (replaced (named_default o.name) default ref d this))
        ]
      ]
    where
      added :
          (b : Bool) (xs : List ℕ) (x : ℕ)
          → All (Selected (λ o. contains cls o.classes)) xs
          → Selected (λ o. contains cls o.classes) x
          → All (Selected (λ o. contains cls o.classes)) (if b then xs ++ x ∷ [] else xs)
      added true xs x a s = All-append _ xs (x ∷ []) a (s, tt)
      added false xs x a s = a

      replaced :
          (b : Bool) (old : Option ℕ) (x : ℕ)
          → OfOption (Selected (λ o. contains cls o.classes)) old
          → Selected (λ o. contains cls o.classes) x
          → OfOption (Selected (λ o. contains cls o.classes)) (if b then some x else old)
      replaced true old x a s = s
      replaced false old x a s = a

only_resource-All :
    (P : ℕ → Type 0) (refs : List ℕ) (ref : ℕ) → All P refs → only_resource refs ≡ ok ref → P ref
only_resource-All P [] ref a e = cc
only_resource-All P (r ∷ []) ref a e = let same : r ≡ ref = cc in subst P same a.0
only_resource-All P (r ∷ q ∷ rs) ref a e = cc

or_default-All :
    (P : ℕ → Type 0) (name : Option String) (r : List ℕ × Option ℕ)
    → All P r.0
    → OfOption P r.1
    → All P (or_default name r)
or_default-All P name (found, none) f d = f
or_default-All P name (found, some r) f d =
    elim (Bool-cases (no_name name && not (nat_beq (length found) 1))) [
      | inl use_default ↦ rw use_default (d, tt)
      | inr use_found ↦ rw use_found f
    ]

-- A resource that is selected is one of the target's, and of the class asked for.
get_resource-IsSelected :
    (cls : String) (name : Option String) (t : Target) (ref : ℕ)
    → get_resource cls name t ≡ ok ref
    → IsSelected t.objects t.resources (λ o. contains cls o.classes) ref
unfolding get_resource
get_resource-IsSelected cls name t ref e =
    let (f, d) =
      scan_resources-Selected t.objects t.resources cls name t.resources [] none
        (All-contains t.resources) tt tt in
    only_resource-All _ _ ref
      (or_default-All _ name (scan_resources t.objects cls name t.resources [] none) f d) e
