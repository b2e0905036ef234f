-- ===== src/Prelude/Lists.antt =====
-- Lists over the native numbers: lengths, tests over a list, removal of an element.
use Prim.Native.Nat.{ℕ, suc, ◌+◌}
use mathlib.Core.Path.{◌≡◌, refl}
use mathlib.Core.Bool.{Bool, true, false, ◌&&◌, ◌||◌}
use mathlib.Core.List.{List, [], ◌∷◌, ◌++◌}
use native.Mathlib.Omega.{arith}
use labgrid.Prelude.Tests.{Eq, ◌==◌, if◌then◌else◌, ==_iff}

module _ {ℓ} {A : Type ℓ} where
  abbrev pub length : List A → ℕ
  length [] = 0
  length (x ∷ xs) = suc (length xs)

  pub length-append : (xs ys : List A) → length (xs ++ ys) ≡ length xs + length ys
  length-append [] ys = omega arith
  length-append (x ∷ xs) ys = omega (arith, length-append xs ys)

  abbrev pub is_empty : List A → Bool
  is_empty [] = true
  is_empty (x ∷ xs) = false

  -- `any(p(x) for x in xs)` and `all(…)`.
  unfoldable pub any : (A → Bool) → List A → Bool
  any p [] = false
  any p (x ∷ xs) = p x || any p xs

  unfoldable pub all : (A → Bool) → List A → Bool
  all p [] = true
  all p (x ∷ xs) = p x && all p xs

  -- `[x for x in xs if p(x)]`
  unfoldable pub keep : (A → Bool) → List A → List A
  keep p [] = []
  keep p (x ∷ xs) = if p x then x ∷ keep p xs else keep p xs

  -- A predicate on every element, by recursion: it computes to tuples.
  abbrev pub All {κ} : (A → Type κ) → List A → Type κ
  All P [] = Unit
  All P (x ∷ xs) = P x × All P xs

-- `x in xs` and `xs.remove(x)` (first occurrence; the caller handles absence).
module _ {ℓ} {A : Type ℓ} ⦃e : Eq A⦄ where
  unfoldable pub contains : A → List A → Bool
  contains a [] = false
  contains a (x ∷ xs) = a == x || contains a xs

  unfoldable pub remove : A → List A → List A
  remove a [] = []
  remove a (x ∷ xs) = if a == x then xs else x ∷ remove a xs

  -- No element twice.
  abbrev pub Distinct : List A → Type 0
  Distinct [] = Unit
  Distinct (x ∷ xs) = (contains x xs ≡ false) × Distinct xs

  All-contains_cons :
      (y : A) (ys xs : List A)
      → All (λ x. contains x ys ≡ true) xs
      → All (λ x. contains x (y ∷ ys) ≡ true) xs
  unfolding contains
  All-contains_cons y ys [] h = tt
  All-contains_cons y ys (x ∷ xs) h = (ground arith, All-contains_cons y ys xs h.1)

  pub All-contains : (xs : List A) → All (λ x. contains x xs ≡ true) xs
  unfolding contains
  All-contains [] = tt
  All-contains (x ∷ xs) = (ground (arith, ==_iff x x), All-contains_cons x xs xs (All-contains xs))

  pub contains-remove :
      (a b : A) (xs : List A) → (b == a) ≡ false → contains b (remove a xs) ≡ contains b xs
  unfolding contains remove
  contains-remove a b [] h = refl
  contains-remove a b (x ∷ xs) h =
      ground (arith, ==_iff a x, ==_iff b x, ==_iff b a, contains-remove a b xs)

  pub contains-remove_le :
      (a b : A) (xs : List A) → contains b xs ≡ false → contains b (remove a xs) ≡ false
  unfolding contains remove
  contains-remove_le a b [] h = refl
  contains-remove_le a b (x ∷ xs) h = ground (arith, contains-remove_le a b xs)

  pub contains-remove_self : (a : A) (xs : List A) → Distinct xs → contains a (remove a xs) ≡ false
  unfolding contains remove
  contains-remove_self a [] h = refl
  contains-remove_self a (x ∷ xs) h = ground (arith, ==_iff a x, contains-remove_self a xs)

  pub Distinct-remove : (a : A) (xs : List A) → Distinct xs → Distinct (remove a xs)
  unfolding remove
  Distinct-remove a [] h = tt
  Distinct-remove a (x ∷ xs) h = ground (arith, contains-remove_le a x xs, Distinct-remove a xs)

  pub length-remove :
      (a : A) (xs : List A) → contains a xs ≡ true → suc (length (remove a xs)) ≡ length xs
  unfolding contains remove
  length-remove a [] h = cc
  length-remove a (x ∷ xs) h = ground (arith, length-remove a xs)

module _ {ℓ κ} {A : Type ℓ} (P : A → Type κ) where
  pub All-append : (xs ys : List A) → All P xs → All P ys → All P (xs ++ ys)
  All-append [] ys hx hy = hy
  All-append (x ∷ xs) ys hx hy = (hx.0, All-append xs ys hx.1 hy)
