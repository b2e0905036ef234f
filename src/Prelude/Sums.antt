-- ===== src/Prelude/Sums.antt =====
-- Sums over lists: over a sorted list, and over items with different keys.
use Prim.Native.Nat.{ℕ, ◌+◌, ◌≤◌}
use mathlib.Core.Path.{◌≡◌, refl, sym}
use mathlib.Core.Logic.{inl, inr}
use mathlib.Core.Bool.{Bool, false}
use mathlib.Core.List.{List, [], ◌∷◌, map}
use native.Mathlib.Omega.{arith}
use labgrid.Prelude.Tests.{Eq, ◌==◌, ==_iff, Bool-cases}
use labgrid.Prelude.Lists.{All, contains, Distinct}
use labgrid.Prelude.Sort.{sort, insert_sorted}

module _ {ℓ} {A : Type ℓ} (f : A → ℕ) where
  abbrev pub sum_of : List A → ℕ
  sum_of [] = 0
  sum_of (x ∷ xs) = f x + sum_of xs

module _ {ℓ} {A : Type ℓ} (le : A → A → Bool) where
  sum_of-insert_sorted :
      (f : A → ℕ) (x : A) (xs : List A) → sum_of f (insert_sorted le x xs) ≡ f x + sum_of f xs
  unfolding insert_sorted
  sum_of-insert_sorted f x [] = refl
  sum_of-insert_sorted f x (y ∷ ys) = elim (Bool-cases (le x y)) [
    | inl first ↦ rw first refl
    | inr later ↦ rw later (omega (arith, sum_of-insert_sorted f x ys))
  ]

  pub sum_of-sort : (f : A → ℕ) (xs : List A) → sum_of f (sort le xs) ≡ sum_of f xs
  unfolding sort
  sum_of-sort f [] = refl
  sum_of-sort f (x ∷ xs) = omega (arith, sum_of-insert_sorted f x (sort le xs), sum_of-sort f xs)

  All-insert_sorted {κ} :
      (P : A → Type κ) (x : A) (xs : List A) → P x → All P xs → All P (insert_sorted le x xs)
  unfolding insert_sorted
  All-insert_sorted P x [] h a = (h, tt)
  All-insert_sorted P x (y ∷ ys) h a = elim (Bool-cases (le x y)) [
    | inl first ↦ rw first (h, a)
    | inr later ↦ rw later (a.0, All-insert_sorted P x ys h a.1)
  ]

  pub All-sort {κ} : (P : A → Type κ) (xs : List A) → All P xs → All P (sort le xs)
  unfolding sort
  All-sort P [] a = tt
  All-sort P (x ∷ xs) a = All-insert_sorted P x (sort le xs) a.0 (All-sort P xs a.1)

-- Items that count at one key only, and once there.
module _ {ℓ κ} {A : Type ℓ} {K : Type κ} ⦃e : Eq K⦄ (f : A → ℕ) (key : A → K) (k : K) where
  abbrev pub CountsAt : A → Type 0
  CountsAt x = (f x ≤ 1) × ((key x == k) ≡ false → f x ≡ 0)

  sum_of-absent :
      (xs : List A) → All CountsAt xs → contains k (map key xs) ≡ false → sum_of f xs ≡ 0
  unfolding contains
  sum_of-absent [] a h = refl
  sum_of-absent (x ∷ xs) a h =
      ground (arith, ==_iff (key x) k, ==_iff k (key x), a.0.1, sum_of-absent xs a.1)

  -- They count once at most if each key is there once.
  pub sum_of-le_one : (xs : List A) → All CountsAt xs → Distinct (map key xs) → sum_of f xs ≤ 1
  sum_of-le_one [] a d = omega arith
  sum_of-le_one (x ∷ xs) a d = elim (Bool-cases (key x == k)) [
    | inl hit ↦
        ground (arith, sum_of-absent xs a.1 (rw (sym ((==_iff (key x) k).0 hit)) d.0), a.0.0)
    | inr miss ↦ ground (arith, a.0.1 miss, sum_of-le_one xs a.1 d.1)
  ]

pub sum_of_zero {ℓ} :
    {A : Type ℓ} (f : A → ℕ) (xs : List A) → All (λ x. f x ≡ 0) xs → sum_of f xs ≡ 0
sum_of_zero f [] a = refl
sum_of_zero f (x ∷ xs) a = omega (arith, a.0, sum_of_zero f xs a.1)

pub All-mono {ℓ κ μ} :
    {A : Type ℓ} (P : A → Type κ) (Q : A → Type μ) (xs : List A)
    → ((x : A) → P x → Q x)
    → All P xs
    → All Q xs
All-mono P Q [] h a = tt
All-mono P Q (x ∷ xs) h a = (h x a.0, All-mono P Q xs h a.1)
