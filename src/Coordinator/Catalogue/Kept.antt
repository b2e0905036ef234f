-- ===== src/Coordinator/Catalogue/Kept.antt =====
-- labgrid/remote/coordinator.py: acquiring and releasing leave the catalogue of the places alone.
use labgrid.Prelude.{
  ℕ, ◌≡◌, refl, ap, ◌∙◌, Bool, true, false, List, String, Option, some, string_eq, Option-cases,
  inl, inr,
}
use labgrid.Prelude.Dict.{get, put}
use labgrid.Common.Place.{Place, touch}
use labgrid.Coordinator.State.{Coordinator, M, modify, get_state, ◌>>=◌}
use labgrid.Coordinator.Places.{put_place, store}
use labgrid.Coordinator.Acquire.{
  update_place, release_resources, all_free, acquire_each, finish_acquire, acquire_resources,
  set_acquired,
}
use labgrid.Coordinator.Frame.{Frame, >>=-Frame}
use labgrid.Coordinator.Streams.{save_later-Frame}
use labgrid.Coordinator.Waits.{release_each-Frame, acquire_each-Keeping}
use labgrid.Coordinator.Passes.{publish_place-Frame}
use labgrid.Coordinator.Stable.{Stable, stable_rules, >>=-Stable}
use labgrid.Coordinator.Catalogue.{Description, Catalogue, description, catalogue, revise}
use labgrid.Coordinator.Catalogue.Views.{catalogue-put, catalogue-put_same}

-- The places are described by `c`.
abbrev pub Shows : Catalogue → Coordinator → Type 0
Shows c s = catalogue s.places ≡ c

pub kept-Shows : (s t : Coordinator) (c : Catalogue) → t.places ≡ s.places → Shows c s → Shows c t
kept-Shows s t c same shows = ap catalogue same ∙ shows

module _ {c : Catalogue} where
  pub Frame-Shows {ℓ} : {A : Type ℓ} {m : M A} → Frame m → Stable (Shows c) m
  Frame-Shows {m} f = record { keeps = λ s. kept-Shows s (m s).1 c (f.keeping s).0 }

  pub update_place-Shows :
      (name : String) (f : Place ℕ → Place ℕ)
      → ((p : Place ℕ) → description (f p) ≡ description p)
      → Stable (Shows c) (update_place name f)
  unfolding update_place
  update_place-Shows name f same = record {
    keeps = λ s shows. elim (Option-cases (get name s.places)) [
      | inl e ↦ rw (e, update_place) shows
      | inr (p, e) ↦
          rw (e, update_place) (catalogue-put_same name p (f p) s.places e (same p) ∙ shows)
    ];
  }

  pub set_acquired-Shows :
      (name : String) (user : Option String) → Stable (Shows c) (set_acquired name user)
  unfolding set_acquired
  set_acquired-Shows name user = update_place-Shows name _ (λ p. refl)

  pub release_resources-Shows :
      (name : String) (refs : List ℕ) → Stable (Shows c) (release_resources name refs)
  unfolding release_resources
  release_resources-Shows name refs =
      >>=-Stable (update_place-Shows name _ (λ p. refl)) λ _. Frame-Shows (release_each-Frame refs)

  finish_acquire-Shows :
      (name : String) (refs : List ℕ) (r : List ℕ × Bool)
      → Stable (Shows c) (finish_acquire name refs r)
  unfolding finish_acquire
  finish_acquire-Shows name refs (acquired, false) = search (stable_rules, release_resources-Shows)
  finish_acquire-Shows name refs (acquired, true) =
      >>=-Stable (update_place-Shows name _ (λ p. refl)) λ _. search stable_rules

  acquire_each-Shows :
      (refs : List ℕ) (name : String) (acquired : List ℕ)
      → Stable (Shows c) (acquire_each name refs acquired)
  acquire_each-Shows refs name acquired = record {
    keeps = λ s.
        kept-Shows s (acquire_each name refs acquired s).1 c
          (acquire_each-Keeping refs name acquired s).0;
  }

  all_free-Shows : (refs : List ℕ) → Stable (Shows c) (all_free refs)
  unfolding all_free
  all_free-Shows refs = record { keeps = λ s shows. shows }

  pub acquire_resources-Shows :
      (name : String) (refs : List ℕ) → Stable (Shows c) (acquire_resources name refs)
  unfolding acquire_resources
  acquire_resources-Shows name refs =
      search (stable_rules, all_free-Shows, acquire_each-Shows, finish_acquire-Shows)

-- A stored place: what the clients are told changes no place.
pub store-places :
    (name : String) (p : Place ℕ) (s : Coordinator)
    → (store name p s).1.places ≡ put name (touch s.clock p) s.places
unfolding store put_place modify get_state touch ◌>>=◌
store-places name p s =
    let p' = touch s.clock p in
    let t = (put_place name p' s).1 in
    ((>>=-Frame (publish_place-Frame p') λ _. save_later-Frame).keeping t).0

pub store-catalogue :
    (name : String) (p p' : Place ℕ) (f : Description → Description) (s : Coordinator)
    → get name s.places ≡ some p
    → description p' ≡ f (description p)
    → catalogue (store name p' s).1.places ≡ revise name f (catalogue s.places)
unfolding touch
store-catalogue name p p' f s there same =
    ap catalogue (store-places name p' s)
    ∙ catalogue-put name p (touch s.clock p') s.places there f same

-- A stored place with the same description.
pub store-Shows :
    (name : String) (p p' : Place ℕ) (c : Catalogue) (s : Coordinator)
    → get name s.places ≡ some p
    → description p' ≡ description p
    → Shows c s
    → Shows c (store name p' s).1
unfolding touch
store-Shows name p p' c s there same shows =
    ap catalogue (store-places name p' s)
    ∙ catalogue-put_same name p (touch s.clock p') s.places there same
    ∙ shows
