-- ===== src/Coordinator/Catalogue/Changes.antt =====
-- labgrid/remote/coordinator.py: the requests that change the catalogue of the places.
use labgrid.Prelude.{
  ℕ, ◌≡◌, refl, sym, ap, ◌∙◌, true, false, [], ◌∷◌, ◌++◌, String, Option, some, if◌then◌else◌, all,
  remove, contains, string_eq, Bool-cases, Option-cases, inl, inr, Outcome, ok, raised, abort,
  invalid_argument,
}
use labgrid.Prelude.Dict.{Dict, get, del, has, has-eq-true, has-eq-false}
use labgrid.Prelude.Text.{str_empty, split}
use labgrid.Common.Tags.{tag_key_match, tag_val_match_lem}
use labgrid.Common.Match.{ResourceMatch, from_parts}
use labgrid.Common.Place.{Place, new_place}
use labgrid.Coordinator.State.{
  Coordinator, M, pure, throw, modify, lift, and_then, get_state, unless, or_abort, ◌>>=◌, ◌>>◌,
}
use labgrid.Coordinator.State.{updates}
use labgrid.Coordinator.State
use labgrid.Coordinator.Places.{
  put_place, store, find_place, set_add, has_match, remove_match, apply_tags, check_tags, add_place,
  delete_place, add_place_alias, delete_place_alias, set_place_tags, set_place_comment,
  add_place_match, delete_place_match,
}
use labgrid.Coordinator.Frame.{>>=-Frame}
use labgrid.Coordinator.Streams.{publish-Frame, save_later-Frame}
use labgrid.Coordinator.Passes.{publish_place-Frame}
use labgrid.Coordinator.Handlers.{find_place-after}
use labgrid.Coordinator.Runs.{Request, perform}
use labgrid.Coordinator.Runs
use labgrid.Coordinator.Catalogue.{
  Description, description, catalogue, revise, valid_keys, with_match, revise_matches, specify,
}
use labgrid.Coordinator.Catalogue.Views.{
  catalogue-put_new, catalogue-del, revise-absent, revise-same, set_at-absent, get-apply_tags,
  remove-absent, remove_match-absent,
}
use labgrid.Coordinator.Catalogue.Kept.{Shows, store-catalogue}

-- A request that changes a place that it finds, and does nothing without one.
pub finding-revise {ℓ} :
    {A : Type ℓ} (name : String) (f : Description → Description) (m : Place ℕ → M A)
    (s : Coordinator)
    → ((p : Place ℕ)
        → get name s.places ≡ some p
        → catalogue (m p s).1.places ≡ revise name f (catalogue s.places))
    → catalogue ((find_place name >>= m) s).1.places ≡ revise name f (catalogue s.places)
unfolding find_place ◌>>=◌
finding-revise name f m s found = elim (Option-cases (get name s.places)) [
  | inl e ↦ rw (e, or_abort) (sym (revise-absent name s.places e f))
  | inr (p, e) ↦ rw (e, or_abort) (found p e)
]

pub add_place-refines :
    (name : String) (s : Coordinator)
    → catalogue (add_place name s).1.places ≡ specify (Runs.add_place name) (catalogue s.places)
unfolding add_place put_place new_place get ◌>>=◌
add_place-refines name s = elim (Bool-cases (str_empty name)) [
  | inl empty ↦ rw empty refl
  | inr named ↦ elim (Bool-cases (has name s.places)) [
    | inl taken ↦ let (p, there) = has-eq-true name s.places taken in rw (named, taken, there) refl
    | inr new ↦
        let p = new_place name s.clock in
        rw (named, new, has-eq-false name s.places new)
          (ap catalogue
              ((>>=-Frame (publish_place-Frame p) λ _. save_later-Frame).keeping
                (put_place name p s).1).0
            ∙ catalogue-put_new name p s.places)
  ]
]

pub delete_place-refines :
    (name : String) (s : Coordinator)
    → catalogue (delete_place name s).1.places
      ≡ specify (Runs.delete_place name) (catalogue s.places)
unfolding delete_place ◌>>=◌
delete_place-refines name s = elim (Bool-cases (str_empty name)) [
  | inl empty ↦ rw empty refl
  | inr named ↦ elim (Bool-cases (has name s.places)) [
    | inl there ↦
        rw (named, there)
          (ap catalogue
              ((>>=-Frame (publish-Frame (updates (State.del_place name ∷ [])))
                  λ _. save_later-Frame).keeping
                (record s { places = del name s.places })).0
            ∙ catalogue-del name s.places)
    | inr absent ↦
        rw (named, absent) (sym (set_at-absent name s.places (has-eq-false name s.places absent)))
  ]
]

pub add_place_alias-refines :
    (name alias : String) (s : Coordinator)
    → catalogue (add_place_alias name alias s).1.places
      ≡ specify (Runs.add_place_alias name alias) (catalogue s.places)
unfolding add_place_alias
add_place_alias-refines name alias s = finding-revise name _ _ s λ p there.
    store-catalogue name p (record p { aliases = set_add alias p.aliases }) _ s there refl

pub delete_place_alias-refines :
    (name alias : String) (s : Coordinator)
    → catalogue (delete_place_alias name alias s).1.places
      ≡ specify (Runs.delete_place_alias name alias) (catalogue s.places)
unfolding delete_place_alias unless throw
delete_place_alias-refines name alias s = finding-revise name _ _ s λ p there.
    elim (Bool-cases (contains alias p.aliases)) [
      | inl known ↦
          rw known
            (store-catalogue name p (record p { aliases = remove alias p.aliases }) _ s there refl)
      | inr unknown ↦ rw unknown (
          sym (
            revise-same name p s.places _ there (
              ap (λ aliases. record (description p) { aliases = aliases })
                (remove-absent alias p.aliases unknown))))
    ]

pub set_place_comment-refines :
    (name comment : String) (s : Coordinator)
    → catalogue (set_place_comment name comment s).1.places
      ≡ specify (Runs.set_place_comment name comment) (catalogue s.places)
unfolding set_place_comment
set_place_comment-refines name comment s =
    finding-revise name _ _ s
      λ p there. store-catalogue name p (record p { comment = comment }) _ s there refl

-- The check of the tags passes exactly if the keys are valid.
pub check_tags_lem :
    (tags : Dict String String) (s : Coordinator)
    → check_tags tags s
      ≡ (if valid_keys tags then (ok tt, s) else (raised (abort invalid_argument), s))
unfolding check_tags all ◌>>=◌
check_tags_lem [] s = refl
check_tags_lem ((k, v) ∷ tags) s = elim (Bool-cases (tag_key_match k)) [
  | inl valid ↦ rw (valid, tag_val_match_lem v) (check_tags_lem tags s)
  | inr invalid ↦ rw invalid refl
]

-- What follows the check.
module _ (tags : Dict String String) (m : Unit {0} → M (Unit {0})) (s : Coordinator) where
  pub check_tags-valid : valid_keys tags ≡ true → (check_tags tags >>= m) s ≡ m tt s
  unfolding ◌>>=◌
  check_tags-valid valid = rw (check_tags_lem tags s, valid) refl

  pub check_tags-invalid :
      valid_keys tags ≡ false → (check_tags tags >>= m) s ≡ (raised (abort invalid_argument), s)
  unfolding ◌>>=◌
  check_tags-invalid invalid = rw (check_tags_lem tags s, invalid) refl

pub set_place_tags-refines :
    (name : String) (tags : Dict String String) (s : Coordinator)
    → catalogue (set_place_tags name tags s).1.places
      ≡ specify (Runs.set_place_tags name tags) (catalogue s.places)
unfolding set_place_tags
set_place_tags-refines name tags s = elim (Bool-cases (valid_keys tags)) [
  | inl valid ↦ rw valid (
      finding-revise name _ _ s λ p there.
        let p' = record p { tags = apply_tags tags p.tags } in
        rw (check_tags-valid tags (λ _. store name p') s valid) (
          store-catalogue name p p' _ s there
            (ap (λ tags. record (description p) { tags = tags }) (get-apply_tags tags p.tags))))
  | inr invalid ↦ rw invalid (
      find_place-after (Shows (catalogue s.places)) name _ s refl λ p there.
        rw
          (check_tags-invalid tags (λ _. store name (record p { tags = apply_tags tags p.tags })) s
            invalid)
          refl)
]

-- A request with a pattern, which may be refused.
pub parsing-refines :
    (name : String) (r : Outcome ResourceMatch) (f : ResourceMatch → Description → Description)
    (m : Place ℕ → ResourceMatch → M (Unit {0})) (s : Coordinator)
    → ((rm : ResourceMatch) (p : Place ℕ)
        → get name s.places ≡ some p
        → catalogue (m p rm s).1.places ≡ revise name (f rm) (catalogue s.places))
    → catalogue ((find_place name >>= λ p. lift r >>= m p) s).1.places
      ≡ revise_matches name r f (catalogue s.places)
parsing-refines name (ok rm) f m s found =
    finding-revise name (f rm) (λ p. lift (ok rm) >>= m p) s
      λ p there. unfold ◌>>=◌ in found rm p there
parsing-refines name (raised x) f m s found =
    find_place-after (Shows (catalogue s.places)) name (λ p. lift (raised x) >>= m p) s refl
      λ p there. unfold ◌>>=◌ in refl

pub add_place_match-refines :
    (name pattern : String) (rename : Option String) (s : Coordinator)
    → catalogue (add_place_match name pattern rename s).1.places
      ≡ specify (Runs.add_place_match name pattern rename) (catalogue s.places)
unfolding add_place_match unless throw
add_place_match-refines name pattern rename s =
    parsing-refines name (from_parts (split b'/' pattern) rename) with_match _ s λ rm p there.
      elim (Bool-cases (has_match rm p.matches)) [
        | inl known ↦
            rw known (sym (revise-same name p s.places (with_match rm) there (rw known refl)))
        | inr new ↦ rw new (
            store-catalogue name p (record p { matches = p.matches ++ rm ∷ [] }) (with_match rm) s
              there (rw new refl))
      ]

pub delete_place_match-refines :
    (name pattern : String) (rename : Option String) (s : Coordinator)
    → catalogue (delete_place_match name pattern rename s).1.places
      ≡ specify (Runs.delete_place_match name pattern rename) (catalogue s.places)
unfolding delete_place_match unless throw
delete_place_match-refines name pattern rename s =
    parsing-refines name (from_parts (split b'/' pattern) rename) _ _ s λ rm p there.
      elim (Bool-cases (has_match rm p.matches)) [
        | inl known ↦ rw known (
            store-catalogue name p (record p { matches = remove_match rm p.matches }) _ s there
              refl)
        | inr unknown ↦ rw unknown (
            sym (
              revise-same name p s.places _ there (
                ap (λ matches. record (description p) { matches = matches })
                  (remove_match-absent rm p.matches unknown))))
      ]
