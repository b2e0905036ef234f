-- ===== src/Coordinator/Catalogue/Views.antt =====
-- labgrid/remote/coordinator.py: how a catalogue changes with the dictionary of the places.
use labgrid.Prelude.{
  ℕ, ◌≡◌, refl, ap, ◌∙◌, false, List, [], ◌∷◌, String, Option, none, some, any, remove, contains,
  string_eq, ◌==◌, ==_iff, arith, Bool-cases, inl, inr,
}
use labgrid.Prelude.Dict.{Dict, get, put, del, get-put, get-del}
use labgrid.Prelude.Text.{str_empty}
use mathlib.Core.Path.{fun_ext}
use labgrid.Common.Match.{ResourceMatch}
use labgrid.Common.Place.{Place}
use labgrid.Coordinator.Places.{apply_tags, has_match, remove_match}
use labgrid.Coordinator.Catalogue.{Description, description, catalogue, set_at, revise, retag}

module _ (name : String) (p p' : Place ℕ) (places : Dict String (Place ℕ))
    (there : get name places ≡ some p) where
  -- Another version of a place.
  pub catalogue-put :
      (f : Description → Description)
      → description p' ≡ f (description p)
      → catalogue (put name p' places) ≡ revise name f (catalogue places)
  catalogue-put f same = fun_ext λ n. elim (Bool-cases (name == n)) [
    | inl hit ↦
        let at_n : get n places ≡ some p = ground (arith, ==_iff name n, there) in
        rw (get-put name n p' places, hit, at_n, same) refl
    | inr miss ↦ rw (get-put name n p' places, miss) refl
  ]

  pub catalogue-put_same :
      description p' ≡ description p → catalogue (put name p' places) ≡ catalogue places
  catalogue-put_same same = fun_ext λ n. elim (Bool-cases (name == n)) [
    | inl hit ↦
        let at_n : get n places ≡ some p = ground (arith, ==_iff name n, there) in
        rw (get-put name n p' places, hit, at_n, same) refl
    | inr miss ↦ rw (get-put name n p' places, miss) refl
  ]

-- A revision that leaves the description of the place alone.
pub revise-same :
    (name : String) (p : Place ℕ) (places : Dict String (Place ℕ)) (f : Description → Description)
    → get name places ≡ some p
    → f (description p) ≡ description p
    → revise name f (catalogue places) ≡ catalogue places
revise-same name p places f there same = fun_ext λ n. elim (Bool-cases (name == n)) [
  | inl hit ↦
      let at_n : get n places ≡ some p = ground (arith, ==_iff name n, there) in
      rw (hit, at_n, same) refl
  | inr miss ↦ rw miss refl
]

module _ (name : String) (places : Dict String (Place ℕ)) (absent : get name places ≡ none) where
  pub revise-absent :
      (f : Description → Description) → revise name f (catalogue places) ≡ catalogue places
  revise-absent f = fun_ext λ n. elim (Bool-cases (name == n)) [
    | inl hit ↦
        let at_n : get n places ≡ none = ground (arith, ==_iff name n, absent) in
        rw (hit, at_n) refl
    | inr miss ↦ rw miss refl
  ]

  pub set_at-absent : set_at name none (catalogue places) ≡ catalogue places
  set_at-absent = fun_ext λ n. elim (Bool-cases (name == n)) [
    | inl hit ↦
        let at_n : get n places ≡ none = ground (arith, ==_iff name n, absent) in
        rw (hit, at_n) refl
    | inr miss ↦ rw miss refl
  ]

pub catalogue-put_new :
    (name : String) (p : Place ℕ) (places : Dict String (Place ℕ))
    → catalogue (put name p places) ≡ set_at name (some (description p)) (catalogue places)
catalogue-put_new name p places = fun_ext λ n. elim (Bool-cases (name == n)) [
  | inl hit ↦ rw (get-put name n p places, hit) refl
  | inr miss ↦ rw (get-put name n p places, miss) refl
]

pub catalogue-del :
    (name : String) (places : Dict String (Place ℕ))
    → catalogue (del name places) ≡ set_at name none (catalogue places)
catalogue-del name places = fun_ext λ n. elim (Bool-cases (name == n)) [
  | inl hit ↦ rw (get-del name n places, hit) refl
  | inr miss ↦ rw (get-del name n places, miss) refl
]

-- The tags of a place as a function of the key.
pub get-apply_tags :
    (tags old : Dict String String)
    → Path
        (String → Option String)
        (λ key. get key (apply_tags tags old))
        (retag tags (λ key. get key old))
unfolding apply_tags
get-apply_tags [] old = refl
get-apply_tags ((k, v) ∷ tags) old = elim (Bool-cases (str_empty v)) [
  | inl empty ↦
      rw empty
        (get-apply_tags tags (del k old) ∙ ap (retag tags) (fun_ext λ key. get-del k key old))
  | inr value ↦
      rw value
        (get-apply_tags tags (put k v old) ∙ ap (retag tags) (fun_ext λ key. get-put k key v old))
]

-- Removing what is not there.
pub remove-absent : (a : String) (xs : List String) → contains a xs ≡ false → remove a xs ≡ xs
unfolding contains remove
remove-absent a [] h = refl
remove-absent a (x ∷ xs) h = ground (arith, remove-absent a xs)

pub remove_match-absent :
    (m : ResourceMatch) (ms : List ResourceMatch) → has_match m ms ≡ false → remove_match m ms ≡ ms
unfolding has_match remove_match any
remove_match-absent m [] h = refl
remove_match-absent m (x ∷ ms) h = ground (arith, remove_match-absent m ms)
