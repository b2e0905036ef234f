-- ===== src/Coordinator/Stable.antt =====
-- labgrid/remote/coordinator.py: predicates that a handler keeps, and how this goes through the
-- monad of the handlers.
use labgrid.Prelude.{
  if◌then◌else◌, Option, none, some, or_raise, Bool, true, false, ◌≡◌, refl, subst, Outcome, ok,
  raised, Exception, abort, Status, arith,
}
use labgrid.Coordinator.State.{
  Coordinator, M, and_then, pure, lift, throw, modify, get_state, when, unless, or_abort, ◌>>=◌,
}

-- `m` keeps `P`, whether it returns or raises.
pub record Stable {ℓ κ} {A : Type ℓ} (P : Coordinator → Type κ) (m : M A) : Type κ where
  pub keeps : (s : Coordinator) → P s → P (m s).1

module _ {κ} {P : Coordinator → Type κ} where
  pub lift-Stable {ℓ} : {A : Type ℓ} (r : Outcome A) → Stable P (lift r)
  unfolding lift
  lift-Stable r = record { keeps = λ s p. p }

  pub pure-Stable {ℓ} : {A : Type ℓ} (a : A) → Stable P (pure a)
  unfolding pure
  pure-Stable a = record { keeps = λ s p. p }

  pub throw-Stable {ℓ} : {A : Type ℓ} (e : Exception) → Stable P (throw {A = A} e)
  unfolding throw
  throw-Stable e = record { keeps = λ s p. p }

  pub get_state-Stable : Stable P get_state
  unfolding get_state
  get_state-Stable = record { keeps = λ s p. p }

  pub modify-Stable :
      (f : Coordinator → Coordinator) → ((s : Coordinator) → P s → P (f s)) → Stable P (modify f)
  unfolding modify
  modify-Stable f h = record { keeps = h }

  pub unless-Stable {ℓ} :
      {A : Type ℓ} (b : Bool) (m n : M A) → Stable P m → Stable P n → Stable P (unless b m n)
  unfolding unless
  unless-Stable true m n h k = k
  unless-Stable false m n h k = h

  pub if-Stable {ℓ} :
      {A : Type ℓ} (b : Bool) (m n : M A) → Stable P m → Stable P n → Stable P (if b then m else n)
  if-Stable true m n h k = h
  if-Stable false m n h k = k

  pub or_abort-Stable {ℓ} : {A : Type ℓ} (o : Option A) (code : Status) → Stable P (or_abort o code)
  unfolding or_abort
  or_abort-Stable none code = throw-Stable (abort code)
  or_abort-Stable (some a) code = pure-Stable a

  pub when-Stable : (b : Bool) (m : M (Unit {0})) → Stable P m → Stable P (when b m)
  unfolding when
  when-Stable true m h = h
  when-Stable false m h = pure-Stable tt

  pub >>=-Stable {ℓ μ} :
      {A : Type ℓ} {B : Type μ} {m : M A} {f : A → M B}
      → Stable P m
      → ((a : A) → Stable P (f a))
      → Stable P (m >>= f)
  unfolding ◌>>=◌
  >>=-Stable {A} {B} {m} {f} h k = record {
    keeps = λ s p. and_then-keeps (m s).0 (m s).1 (h.keeps s p);
  }
    where
      and_then-keeps : (r : Outcome A) (t : Coordinator) → P t → P (and_then r f t).1
      and_then-keeps (ok a) t p = (k a).keeps t p
      and_then-keeps (raised e) t p = p

pub ruleset stable_rules = (
  lift-Stable, pure-Stable, throw-Stable, get_state-Stable, unless-Stable, or_abort-Stable,
  when-Stable, >>=-Stable,
)

-- One part of a computation, whose result may be an exception, and a guard.
module _ {ℓ κ μ} {A : Type ℓ} {B : Type κ} (Q : Outcome B × Coordinator → Type μ) where
  pub looking :
      (s : Coordinator) (raises : (e : Exception) → Q (raised e, s)) (r : Outcome A) (f : A → M B)
      → ((a : A) → r ≡ ok a → Q (f a s))
      → Q (and_then r f s)
  looking s raises (ok a) f h = h a refl
  looking s raises (raised e) f h = raises e

pub guarding {κ μ} :
    {B : Type κ} (Q : Outcome B × Coordinator → Type μ) (s : Coordinator) (b : Bool) (m n : M B)
    → Q (m s)
    → Q (n s)
    → Q (unless b m n s)
unfolding unless
guarding Q s true m n h k = k
guarding Q s false m n h k = h

-- Whatever `m` returns satisfies `R`.
pub record Returns {ℓ κ} {A : Type ℓ} (R : A → Type κ) (m : M A) : Type (ℓ ⊔ κ) where
  pub gives : (s : Coordinator) (a : A) → (m s).0 ≡ ok a → R a

pub pure-Returns {κ μ} : {B : Type κ} {R : B → Type μ} (b : B) → R b → Returns R (pure b)
unfolding pure
pure-Returns {R} b r = record { gives = λ s a e. let same : b ≡ a = cc in subst R same r }

module _ {ℓ κ μ} {A : Type ℓ} {B : Type κ} {R : B → Type μ} where
  pub >>=-gives :
      (m : M A) (f : A → M B) (s : Coordinator)
      → ((a : A) → (m s).0 ≡ ok a → Returns R (f a))
      → (b : B) → ((m >>= f) s).0 ≡ ok b
      → R b
  unfolding ◌>>=◌
  >>=-gives m f s h = and_then-gives (m s).0 refl
    where
      and_then-gives :
          (r : Outcome A) → (m s).0 ≡ r → (b : B) → (and_then r f (m s).1).0 ≡ ok b → R b
      and_then-gives (ok a) e b e' = (h a e).gives (m s).1 b e'
      and_then-gives (raised x) e b e' = absurd (ground (arith, e'))

  pub >>=-Returns : (m : M A) {f : A → M B} → ((a : A) → Returns R (f a)) → Returns R (m >>= f)
  >>=-Returns m {f} h = record { gives = λ s. >>=-gives m f s (λ a _. h a) }

pub or_raise-ok {ℓ} :
    {A : Type ℓ} {a : A} (o : Option A) (e : Exception) → or_raise o e ≡ ok a → o ≡ some a
or_raise-ok none e h = absurd (ground (arith, h))
or_raise-ok (some a') e h = cc
