-- ===== src/Coordinator/Runs/Placing.antt =====
-- labgrid/remote/coordinator.py: the requests that add, change and delete places leave alone what
-- the places hold, or drop it.
use labgrid.Prelude.{
  not, if◌then◌else◌, ℕ, ◌≤◌, ◌≡◌, refl, true, false, [], ◌∷◌, ◌++◌, remove, String, Option,
  string_eq, ◌==◌, Outcome, arith, Bool-cases, inl, inr,
}
use labgrid.Prelude.Dict.{Dict, put, del, has, Entries-put}
use labgrid.Prelude.Text.{str_empty, isdigit}
use labgrid.Common.Match.{ResourcePath}
use labgrid.Common.Place.{Place, new_place}
use labgrid.Coordinator.State.{Coordinator, Heap, lift, throw, ◌>>=◌}
use labgrid.Coordinator.Publish.{publish_place}
use labgrid.Coordinator.Sessions.{save_later, add_default_place}
use labgrid.Coordinator.Places.{
  put_place, set_add, apply_tags, remove_match, add_place, delete_place, add_place_alias,
  delete_place_alias, check_tags, set_place_tags, set_place_comment, add_place_match,
  delete_place_match, allow_place,
}
use labgrid.Coordinator.Frame.{>>=-Frame, >>=-after}
use labgrid.Coordinator.Streams.{publish-Frame, save_later-Frame}
use labgrid.Coordinator.Exclusive.{IsExclusive, count_path, holders}
use labgrid.Coordinator.Passes.{AllHeldThere, Frame-IsExclusive, publish_place-Frame}
use labgrid.Coordinator.Handlers.{find_place-after, find_user-after, store-IsExclusive}
use labgrid.Coordinator.Lookups.{check_tags-Stable}
use labgrid.Coordinator.Stable.{guarding}

-- A place that holds nothing, new or in the stead of another one.
module _ (h : Heap) (name : String) (p : Place ℕ) (nothing : p.acquired_resources ≡ []) where
  holders-put_empty :
      (q : ResourcePath) (places : Dict String (Place ℕ))
      → holders h q (put name p places) ≤ holders h q places
  unfolding holders put count_path
  holders-put_empty q [] = rw nothing (omega arith)
  holders-put_empty q ((n, r) ∷ places) = elim (Bool-cases (n == name)) [
    | inl hit ↦ rw (hit, nothing) (omega arith)
    | inr miss ↦ rw miss (omega (arith, holders-put_empty q places))
  ]

  AllHeldThere-put_empty :
      (places : Dict String (Place ℕ)) → AllHeldThere h places → AllHeldThere h (put name p places)
  AllHeldThere-put_empty places a = Entries-put _ name p places (rw nothing tt) a

holders-del :
    (h : Heap) (q : ResourcePath) (name : String) (places : Dict String (Place ℕ))
    → holders h q (del name places) ≤ holders h q places
unfolding holders del
holders-del h q name [] = omega arith
holders-del h q name ((n, r) ∷ places) = elim (Bool-cases (n == name)) [
  | inl hit ↦ rw hit (omega (arith, holders-del h q name places))
  | inr miss ↦ rw miss (omega (arith, holders-del h q name places))
]

AllHeldThere-del :
    (h : Heap) (name : String) (places : Dict String (Place ℕ))
    → AllHeldThere h places
    → AllHeldThere h (del name places)
unfolding del
AllHeldThere-del h name [] a = tt
AllHeldThere-del h name ((n, r) ∷ places) a = elim (Bool-cases (n == name)) [
  | inl hit ↦ rw hit (AllHeldThere-del h name places a.1)
  | inr miss ↦ rw miss (a.0, AllHeldThere-del h name places a.1)
]

-- Places that hold no more.
fewer-IsExclusive :
    (s : Coordinator) (places : Dict String (Place ℕ))
    → ((q : ResourcePath) → holders s.heap q places ≤ holders s.heap q s.places)
    → (AllHeldThere s.heap s.places → AllHeldThere s.heap places)
    → IsExclusive s
    → IsExclusive (record s { places = places })
fewer-IsExclusive s places fewer there v = record {
  heap_ok = v.heap_ok;
  there = there v.there;
  exclusive = λ q. omega (arith, fewer q, v.exclusive q);
}

abbrev ExclusiveAfter {ℓ} : {A : Type ℓ} → Outcome A × Coordinator → Type 0
ExclusiveAfter r = IsExclusive r.1

-- Telling the clients and saving, at the end of a request.
published-IsExclusive :
    (p : Place ℕ) (s : Coordinator)
    → IsExclusive s
    → IsExclusive ((publish_place p >>= λ _. save_later) s).1
published-IsExclusive p s v =
    Frame-IsExclusive (>>=-Frame (publish_place-Frame p) λ _. save_later-Frame) s v

pub add_place-IsExclusive :
    (name : String) (s : Coordinator) → IsExclusive s → IsExclusive (add_place name s).1
unfolding add_place put_place new_place ◌>>=◌
add_place-IsExclusive name s v =
    let p = new_place name s.clock in
    guarding ExclusiveAfter s (not (str_empty name)) _ _ v (
      guarding ExclusiveAfter s (not (has name s.places)) _ _ v (
        published-IsExclusive p (put_place name p s).1 (
          fewer-IsExclusive s _ (λ q. holders-put_empty s.heap name p refl q s.places)
            (AllHeldThere-put_empty s.heap name p refl s.places) v)))

pub delete_place-IsExclusive :
    (name : String) (s : Coordinator) → IsExclusive s → IsExclusive (delete_place name s).1
unfolding delete_place ◌>>=◌
delete_place-IsExclusive name s v = guarding ExclusiveAfter s (not (str_empty name)) _ _ v (
    guarding ExclusiveAfter s (has name s.places) _ _ v (
      Frame-IsExclusive (>>=-Frame (publish-Frame _) λ _. save_later-Frame)
        (record s { places = del name s.places })
        (fewer-IsExclusive s _ (λ q. holders-del s.heap q name s.places)
          (AllHeldThere-del s.heap name s.places) v)))

pub add_default_place-IsExclusive :
    (group : String) (s : Coordinator) → IsExclusive s → IsExclusive (add_default_place group s).1
unfolding add_default_place new_place ◌>>=◌
add_default_place-IsExclusive group s v = guarding ExclusiveAfter s (has group s.places) _ _ v (
    guarding ExclusiveAfter s (if isdigit group then false else true) _ _ v (
      fewer-IsExclusive s _ (λ q. holders-put_empty s.heap group _ refl q s.places)
        (AllHeldThere-put_empty s.heap group _ refl s.places) v))

-- The requests that change a place and store it.
pub add_place_alias-IsExclusive :
    (name alias : String) (s : Coordinator)
    → IsExclusive s
    → IsExclusive (add_place_alias name alias s).1
unfolding add_place_alias
add_place_alias-IsExclusive name alias s v = find_place-after IsExclusive name _ s v λ p there.
    store-IsExclusive name p (record p { aliases = set_add alias p.aliases }) s there refl v

pub delete_place_alias-IsExclusive :
    (name alias : String) (s : Coordinator)
    → IsExclusive s
    → IsExclusive (delete_place_alias name alias s).1
unfolding delete_place_alias throw
delete_place_alias-IsExclusive name alias s v = find_place-after IsExclusive name _ s v λ p there.
    guarding ExclusiveAfter s _ _ _ v
      (store-IsExclusive name p (record p { aliases = remove alias p.aliases }) s there refl v)

pub set_place_comment-IsExclusive :
    (name comment : String) (s : Coordinator)
    → IsExclusive s
    → IsExclusive (set_place_comment name comment s).1
unfolding set_place_comment
set_place_comment-IsExclusive name comment s v =
    find_place-after IsExclusive name _ s v
      λ p there. store-IsExclusive name p (record p { comment = comment }) s there refl v

pub set_place_tags-IsExclusive :
    (name : String) (tags : Dict String String) (s : Coordinator)
    → IsExclusive s
    → IsExclusive (set_place_tags name tags s).1
unfolding set_place_tags
set_place_tags-IsExclusive name tags s v = find_place-after IsExclusive name _ s v λ p there.
    let same = (check_tags-Stable {P = λ t. t ≡ s} tags).keeps s refl in
    >>=-after IsExclusive (check_tags tags) _ s (rw same v) λ _ _.
      rw same (store-IsExclusive name p (record p { tags = apply_tags tags p.tags }) s there refl v)

pub add_place_match-IsExclusive :
    (name pattern : String) (rename : Option String) (s : Coordinator)
    → IsExclusive s
    → IsExclusive (add_place_match name pattern rename s).1
unfolding add_place_match lift throw
add_place_match-IsExclusive name pattern rename s v =
    find_place-after IsExclusive name _ s v λ p there. >>=-after IsExclusive _ _ s v λ rm _.
      guarding ExclusiveAfter s _ _ _ v
        (store-IsExclusive name p (record p { matches = p.matches ++ rm ∷ [] }) s there refl v)

pub delete_place_match-IsExclusive :
    (name pattern : String) (rename : Option String) (s : Coordinator)
    → IsExclusive s
    → IsExclusive (delete_place_match name pattern rename s).1
unfolding delete_place_match lift throw
delete_place_match-IsExclusive name pattern rename s v =
    find_place-after IsExclusive name _ s v λ p there. >>=-after IsExclusive _ _ s v λ rm _.
      guarding ExclusiveAfter s _ _ _ v
        (store-IsExclusive name p (record p { matches = remove_match rm p.matches }) s there refl v)

pub allow_place-IsExclusive :
    (peer name user : String) (s : Coordinator)
    → IsExclusive s
    → IsExclusive (allow_place peer name user s).1
unfolding allow_place throw
allow_place-IsExclusive peer name user s v = find_user-after IsExclusive peer _ s v λ username.
    find_place-after IsExclusive name _ s v λ p there. guarding ExclusiveAfter s _ _ _ v (
      guarding ExclusiveAfter s _ _ _ v
        (store-IsExclusive name p (record p { allowed = set_add user p.allowed }) s there refl v))
