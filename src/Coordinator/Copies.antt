-- ===== src/Coordinator/Copies.antt =====
-- labgrid/remote/coordinator.py, `schedule_reservations`: the copies of reservations in the places.
use labgrid.Prelude.{
  ℕ, ◌≡◌, sym, ap, ◌∙◌, List, [], ◌∷◌, ◌++◌, String, some, string_eq, ◌==◌, ==_iff, arith, ok,
  Outcome-cases, Option-cases, Bool-cases, inl, inr,
}
use mathlib.Core.List.{append-nil, append_assoc}
use labgrid.Prelude.Dict.{Dict, get, has, get-put, put-append}
use labgrid.Common.Place.{Place}
use labgrid.Common.Reservation.{Reservation}
use labgrid.Coordinator.Schedule.{
  Places, Copy, clear_reservations, copy_names, copy_groups, copy_reservations,
}

-- The places that the reservations are allocated, with their tokens.
name_pairs : String → List String → Dict String String
name_pairs token [] = []
name_pairs token (name ∷ names) = (name, token) ∷ name_pairs token names

group_pairs : String → Dict String (List String) → Dict String String
unfolding name_pairs
group_pairs token [] = []
group_pairs token ((_, names) ∷ groups) = name_pairs token names ++ group_pairs token groups

unfoldable pub allocation_pairs : List Reservation → Dict String String
unfolding group_pairs
allocation_pairs [] = []
allocation_pairs (r ∷ rs) = group_pairs r.token r.allocations ++ allocation_pairs rs

-- Each place has the token that `new_map` has for it.
abbrev pub IsCopy : Copy → Type 0
IsCopy c =
    (name : String) (p : Place ℕ) → get name c.places ≡ some p → p.reservation ≡ get name c.new_map

copy_names-IsCopy :
    (token : String) (names : List String) (c : Copy)
    → IsCopy c
    → IsCopy (copy_names token names c).1
unfolding copy_names
copy_names-IsCopy token [] c i = i
copy_names-IsCopy token (name ∷ names) c i = elim (Bool-cases (has name c.new_map)) [
  | inl taken ↦ rw (taken, copy_names) i
  | inr new ↦ elim (Option-cases (get name c.places)) [
    | inl gone ↦
        rw (new, gone, copy_names)
          λ n p e. ground (arith, i n p e, get-put name n token c.new_map, ==_iff name n)
    | inr (q, there) ↦
        rw (new, there, copy_names)
          (copy_names-IsCopy token names _ λ n p e. ground (
            arith,
            i n p,
            get-put name n token c.new_map,
            get-put name n (record q { reservation = some token }) c.places,
          ))
  ]
]

copy_names-new_map :
    (token : String) (names : List String) (c : Copy)
    → (copy_names token names c).0 ≡ ok tt
    → (copy_names token names c).1.new_map ≡ c.new_map ++ name_pairs token names
unfolding copy_names name_pairs
copy_names-new_map token [] c done = sym (append-nil c.new_map)
copy_names-new_map token (name ∷ names) c done = elim (Bool-cases (has name c.new_map)) [
  | inl taken ↦ absurd (ground arith)
  | inr new ↦ elim (Option-cases (get name c.places)) [
    | inl gone ↦ absurd (ground arith)
    | inr (q, there) ↦
        rw (new, there, copy_names)
          (copy_names-new_map token names _ (rw (new, there, copy_names) at done)
            ∙ cc (
              put-append name token c.new_map new,
              append_assoc c.new_map ((name, token) ∷ []) (name_pairs token names),
            ))
  ]
]

copy_groups-IsCopy :
    (token : String) (groups : Dict String (List String)) (c : Copy)
    → IsCopy c
    → IsCopy (copy_groups token groups c).1
unfolding copy_groups
copy_groups-IsCopy token [] c i = i
copy_groups-IsCopy token ((_, names) ∷ []) c i = copy_names-IsCopy token names c i
copy_groups-IsCopy token (_ ∷ _ ∷ _) c i = i

copy_groups-new_map :
    (token : String) (groups : Dict String (List String)) (c : Copy)
    → (copy_groups token groups c).0 ≡ ok tt
    → (copy_groups token groups c).1.new_map ≡ c.new_map ++ group_pairs token groups
unfolding copy_groups group_pairs
copy_groups-new_map token [] c done = sym (append-nil c.new_map)
copy_groups-new_map token ((_, names) ∷ []) c done =
    copy_names-new_map token names c done
    ∙ ap (λ d. c.new_map ++ d) (sym (append-nil (name_pairs token names)))
copy_groups-new_map token (_ ∷ _ ∷ _) c done = absurd (cc done)

copy_reservations-IsCopy :
    (rs : List Reservation) (c : Copy) → IsCopy c → IsCopy (copy_reservations rs c).1
unfolding copy_reservations
copy_reservations-IsCopy [] c i = i
copy_reservations-IsCopy (r ∷ rs) c i =
    let (done, c') = copy_groups r.token r.allocations c in
    let i' = copy_groups-IsCopy r.token r.allocations c i in
    elim (Outcome-cases done) [
      | inl (_, e) ↦ rw (e, copy_reservations) (copy_reservations-IsCopy rs c' i')
      | inr (_, e) ↦ rw (e, copy_reservations) i'
    ]

copy_reservations-new_map :
    (rs : List Reservation) (c : Copy)
    → (copy_reservations rs c).0 ≡ ok tt
    → (copy_reservations rs c).1.new_map ≡ c.new_map ++ allocation_pairs rs
unfolding copy_reservations allocation_pairs
copy_reservations-new_map [] c done = sym (append-nil c.new_map)
copy_reservations-new_map (r ∷ rs) c done =
    let (first, c') = copy_groups r.token r.allocations c in
    elim (Outcome-cases first) [
      | inl (tt, e) ↦
          rw (e, copy_reservations)
            (copy_reservations-new_map rs c' (rw (e, copy_reservations) at done)
              ∙ cc (
                copy_groups-new_map r.token r.allocations c e,
                append_assoc c.new_map (group_pairs r.token r.allocations) (allocation_pairs rs),
              ))
      | inr (x, e) ↦ absurd (ground arith)
    ]

clear_reservations-IsCopy :
    (places : Places) → IsCopy (record { places = clear_reservations places; new_map = [] })
unfolding clear_reservations get
clear_reservations-IsCopy [] n p e = cc
clear_reservations-IsCopy ((k, q) ∷ places) n p e = elim (Bool-cases (k == n)) [
  | inl hit ↦ ground arith
  | inr miss ↦ clear_reservations-IsCopy places n p (ground arith)
]

-- After the last stage of a pass, if no assertion fails in it, every place has the token of the
-- reservation that it is allocated to, and none if it is allocated to no reservation.
pub copy_reservations_lem :
    (places : Places) (rs : List Reservation)
    → let start : Copy = record { places = clear_reservations places; new_map = [] } in
      (copy_reservations rs start).0 ≡ ok tt
      → (name : String) (p : Place ℕ) → get name (copy_reservations rs start).1.places ≡ some p
      → p.reservation ≡ get name (allocation_pairs rs)
copy_reservations_lem places rs done name p e =
    copy_reservations-IsCopy rs _ (clear_reservations-IsCopy places) name p e
    ∙ ap (get name) (copy_reservations-new_map rs _ done)
