-- ===== src/Prelude/Int.antt =====
-- Python's integers, over the native numbers.
use Prim.Native.Nat.{ℕ}
use mathlib.Core.Bool.{Bool, true, false}
use mathlib.Core.Path.{◌≡◌}
use native.Mathlib.Omega.{arith}
use labgrid.Prelude.Tests.{leb}

-- `negsuc n` is -(n + 1).
pub data ℤ : Type 0 where
  pos : ℕ → ℤ
  negsuc : ℕ → ℤ

-- `a < b`
abbrev pub int_ltb : ℤ → ℤ → Bool
int_ltb (pos a) (pos b) = elim (leb b a) [ true ↦ false | false ↦ true ]
int_ltb (pos a) (negsuc b) = false
int_ltb (negsuc a) (pos b) = true
int_ltb (negsuc a) (negsuc b) = elim (leb a b) [ true ↦ false | false ↦ true ]

-- `a ≤ b` is the negation of `b < a`.
pub int_ltb_trans : (a b c : ℤ) → int_ltb a b ≡ false → int_ltb b c ≡ false → int_ltb a c ≡ false
int_ltb_trans (pos a) (pos b) (pos c) h k = ground arith
int_ltb_trans (pos a) (pos b) (negsuc c) h k = ground arith
int_ltb_trans (pos a) (negsuc b) (pos c) h k = ground arith
int_ltb_trans (pos a) (negsuc b) (negsuc c) h k = ground arith
int_ltb_trans (negsuc a) (pos b) (pos c) h k = ground arith
int_ltb_trans (negsuc a) (pos b) (negsuc c) h k = ground arith
int_ltb_trans (negsuc a) (negsuc b) (pos c) h k = ground arith
int_ltb_trans (negsuc a) (negsuc b) (negsuc c) h k = ground arith

pub int_ltb-asym : (a b : ℤ) → int_ltb a b ≡ true → int_ltb b a ≡ false
int_ltb-asym (pos a) (pos b) h = ground arith
int_ltb-asym (pos a) (negsuc b) h = ground arith
int_ltb-asym (negsuc a) (pos b) h = ground arith
int_ltb-asym (negsuc a) (negsuc b) h = ground arith

pub le_lt_trans : (a b c : ℤ) → int_ltb b a ≡ false → int_ltb b c ≡ true → int_ltb a c ≡ true
le_lt_trans (pos a) (pos b) (pos c) h k = ground arith
le_lt_trans (pos a) (pos b) (negsuc c) h k = ground arith
le_lt_trans (pos a) (negsuc b) (pos c) h k = ground arith
le_lt_trans (pos a) (negsuc b) (negsuc c) h k = ground arith
le_lt_trans (negsuc a) (pos b) (pos c) h k = ground arith
le_lt_trans (negsuc a) (pos b) (negsuc c) h k = ground arith
le_lt_trans (negsuc a) (negsuc b) (pos c) h k = ground arith
le_lt_trans (negsuc a) (negsuc b) (negsuc c) h k = ground arith

pub lt_le_trans : (a b c : ℤ) → int_ltb a b ≡ true → int_ltb c b ≡ false → int_ltb a c ≡ true
lt_le_trans (pos a) (pos b) (pos c) h k = ground arith
lt_le_trans (pos a) (pos b) (negsuc c) h k = ground arith
lt_le_trans (pos a) (negsuc b) (pos c) h k = ground arith
lt_le_trans (pos a) (negsuc b) (negsuc c) h k = ground arith
lt_le_trans (negsuc a) (pos b) (pos c) h k = ground arith
lt_le_trans (negsuc a) (pos b) (negsuc c) h k = ground arith
lt_le_trans (negsuc a) (negsuc b) (pos c) h k = ground arith
lt_le_trans (negsuc a) (negsuc b) (negsuc c) h k = ground arith

pub int_ltb_irrefl : (a : ℤ) → int_ltb a a ≡ false
int_ltb_irrefl (pos a) = ground arith
int_ltb_irrefl (negsuc a) = ground arith
