-- ===== src/Strategy/History.antt =====
-- labgrid/strategy/graphstrategy.py: `find_rel_path` and `transition` against what the methods
-- have done since the drivers were last deactivated.
use labgrid.Prelude.{
  ℕ, zero, suc, ◌≤◌, ◌<◌, ◌-◌, ◌≡◌, ◌≢◌, refl, sym, ap, subst, ◌∙◌, true, false, some, List, [],
  ◌∷◌, ◌++◌, String, string_eq, ◌==◌, ==_iff, length, length-append, contains, ltb, arith,
  Bool-cases, inl, inr,
}
use labgrid.Prelude.Dict.{get}
use labgrid.Strategy.{GraphStrategy, take, drop, list_beq, cut, find_rel_path}
use labgrid.Strategy.Paths.{Leads}
use labgrid.Strategy.Init.{IsWellFormed}

pub list_beq-eq : (xs ys : List String) → list_beq xs ys ≡ true → xs ≡ ys
unfolding list_beq
list_beq-eq [] [] h = refl
list_beq-eq (x ∷ xs) (y ∷ ys) h = elim (Bool-cases (x == y)) [
  | inl hit ↦ rw ((==_iff x y).0 hit, list_beq-eq xs ys (ground arith)) refl
  | inr miss ↦ absurd (ground arith)
]
list_beq-eq [] (y ∷ ys) h = cc
list_beq-eq (x ∷ xs) [] h = cc

list_beq_refl : (xs : List String) → list_beq xs xs ≡ true
unfolding list_beq
list_beq_refl [] = refl
list_beq_refl (x ∷ xs) = ground (arith, ==_iff x x, list_beq_refl xs)

take-append : (xs ys : List String) → take (length xs) (xs ++ ys) ≡ xs
unfolding take
take-append [] ys = refl
take-append (x ∷ xs) ys = rw (take-append xs ys) refl

drop-append : (xs ys : List String) → drop (length xs) (xs ++ ys) ≡ ys
unfolding drop
drop-append [] ys = refl
drop-append (x ∷ xs) ys = drop-append xs ys

take-drop : (n : ℕ) (xs : List String) → take n xs ++ drop n xs ≡ xs
unfolding take drop
take-drop zero xs = refl
take-drop (suc n) [] = refl
take-drop (suc n) (x ∷ xs) = rw (take-drop n xs) refl

length-take_le : (n : ℕ) (xs : List String) → length (take n xs) ≤ length xs
unfolding take
length-take_le zero xs = omega arith
length-take_le (suc n) [] = omega arith
length-take_le (suc n) (x ∷ xs) = omega (arith, length-take_le n xs)

length_nonzero : (xs : List String) → xs ≢ [] → 0 < length xs
length_nonzero [] h = absurd (h refl)
length_nonzero (x ∷ xs) h = omega arith

-- The test of the code says that the path goes on where the old one ended.
pub cut-eq :
    (path old : List String) → path ≢ [] → cut path old ≡ old → old ++ drop (length old) path ≡ path
unfolding cut take
cut-eq path old some_path e = elim (Bool-cases (ltb (length old) (length path))) [
  | inl longer ↦
      let n : length path - (length path - length old) ≡ length old = ground arith in
      let taken : take (length old) path ≡ old = rw (sym n) (ground (arith, longer)) in
      ap (λ t. t ++ drop (length old) path) (sym taken) ∙ take-drop (length old) path
  | inr shorter ↦
      let taken : take (length old - length path) path ≡ old = ground arith in
      let nonzero = length_nonzero path some_path in
      let same : length old - length path ≡ 0 =
        ground (arith, ap length taken, length-take_le (length old - length path) path) in
      let none_old : [] ≡ old = subst (λ n. take n path ≡ old) same taken in
      absurd (ground (arith, ap length none_old, nonzero, shorter))
]

cut-append : (xs ys : List String) → ys ≢ [] → cut (xs ++ ys) xs ≡ xs
unfolding cut
cut-append xs ys more =
    let nonzero = length_nonzero ys more in
    let longer : ltb (length xs) (length (xs ++ ys)) ≡ true =
      ground (arith, length-append xs ys, nonzero) in
    let n : length (xs ++ ys) - (length (xs ++ ys) - length xs) ≡ length xs =
      omega (arith, length-append xs ys) in
    rw longer (subst (λ k. take k (xs ++ ys) ≡ xs) (sym n) (take-append xs ys))

-- For a path that is not empty: if it goes on where the old one ended, the relative path is what
-- is new, and if it does not begin with the old one, the relative path is the path itself.
pub find_rel_path_lem :
    (path old : List String)
    → path ≢ []
    → ((rest : List String) → rest ≢ [] → path ≡ old ++ rest → find_rel_path path old ≡ rest)
      × (((rest : List String) → path ≢ old ++ rest) → find_rel_path path old ≡ path)
unfolding find_rel_path
find_rel_path_lem path old some_path = (
  λ rest more e. rw (e, cut-append old rest more, list_beq_refl old) (drop-append old rest),
  λ other. elim (Bool-cases (list_beq (cut path old) old)) [
    | inl same ↦ absurd (
        other (drop (length old) path)
          (sym (cut-eq path old some_path (list_beq-eq (cut path old) old same))))
    | inr differ ↦ rw differ refl
  ],
)

-- The root state is the first one of a way only.
abbrev pub RootFree : String → List String → Type 0
RootFree root [] = Unit
RootFree root (x ∷ xs) = ((x == root) ≡ false) × RootFree root xs

pub Leads-RootFree :
    (g : GraphStrategy) (x : String) (xs : List String)
    → IsWellFormed g
    → Leads g.states (x ∷ xs)
    → RootFree g.root_state xs
unfolding contains
Leads-RootFree g x [] v l = tt
Leads-RootFree g x (y ∷ ys) v (d, l) = (
  elim (Bool-cases (y == g.root_state)) [
    | inl same ↦
        let e : some [] ≡ some d.dependencies =
          sym v.root_is
          ∙ ap (λ k. get k g.states) (sym ((==_iff y g.root_state).0 same))
          ∙ d.has_them in
        absurd (ground (arith, d.among))
    | inr differ ↦ differ
  ],
  Leads-RootFree g y ys v l,
)
