-- ===== src/Prelude/Dict.antt =====
-- Python's dict: entries in insertion order. A write to a present key keeps its place.
use mathlib.Core.Path.{◌≡◌, refl}
use mathlib.Core.Bool.{Bool, true, false}
use mathlib.Core.Path.{subst, sym}
use mathlib.Core.Option.{Option, none, some}
use mathlib.Core.List.{List, [], ◌∷◌, ◌++◌, map}
use native.Mathlib.Omega.{arith}
use labgrid.Prelude.Lists.{All, contains, Distinct}
use labgrid.Prelude.Tests.{Eq, ◌==◌, if◌then◌else◌, ==_iff, Bool-cases}
use mathlib.Core.Logic.{inl, inr}

abbrev pub Dict {ℓ κ} : Type ℓ → Type κ → Type (ℓ ⊔ κ)
Dict K V = List (K × V)

module _ {ℓ κ} {K : Type ℓ} {V : Type κ} where
  abbrev pub keys : Dict K V → List K
  keys = map (λ p. p.0)

  abbrev pub values : Dict K V → List V
  values = map (λ p. p.1)

  -- A property of every entry.
  abbrev pub Entries {μ} : (K → V → Type μ) → Dict K V → Type μ
  Entries P [] = Unit
  Entries P ((k, v) ∷ d) = P k v × Entries P d

module _ {ℓ κ} {K : Type ℓ} {V : Type κ} ⦃e : Eq K⦄ where
  -- `d.get(k)`; `none` is the KeyError of `d[k]`.
  unfoldable pub get : K → Dict K V → Option V
  get k [] = none
  get k ((j, v) ∷ d) = if j == k then some v else get k d

  -- `k in d`
  unfoldable pub has : K → Dict K V → Bool
  has k [] = false
  has k ((j, v) ∷ d) = if j == k then true else has k d

  -- `d[k] = v`
  unfoldable pub put : K → V → Dict K V → Dict K V
  put k v [] = (k, v) ∷ []
  put k v ((j, w) ∷ d) = if j == k then (j, v) ∷ d else (j, w) ∷ put k v d

  -- `d.pop(k, None)`
  unfoldable pub del : K → Dict K V → Dict K V
  del k [] = []
  del k ((j, w) ∷ d) = if j == k then del k d else (j, w) ∷ del k d

  pub get-put :
      (k j : K) (v : V) (d : Dict K V) → get j (put k v d) ≡ (if k == j then some v else get j d)
  unfolding get put
  get-put k j v [] = refl
  get-put k j v ((i, w) ∷ d) = ground (arith, ==_iff k j, ==_iff i k, ==_iff i j, get-put k j v d)

  pub get-del : (k j : K) (d : Dict K V) → get j (del k d) ≡ (if k == j then none else get j d)
  unfolding get del
  get-del k j [] = ground arith
  get-del k j ((i, w) ∷ d) = ground (arith, ==_iff k j, ==_iff i k, ==_iff i j, get-del k j d)

  pub has-eq-false : (k : K) (d : Dict K V) → has k d ≡ false → get k d ≡ none
  unfolding get has
  has-eq-false k [] h = refl
  has-eq-false k ((i, w) ∷ d) h = ground (arith, has-eq-false k d)

  pub has-eq-true : (k : K) (d : Dict K V) → has k d ≡ true → (v : V) × (get k d ≡ some v)
  unfolding get has
  has-eq-true k [] h = cc
  has-eq-true k ((i, w) ∷ d) h = elim (Bool-cases (i == k)) [
    | inl hit ↦ (w, rw hit)
    | inr miss ↦ rw miss (has-eq-true k d (ground arith))
  ]

  pub Entries-put {μ} :
      (P : K → V → Type μ) (k : K) (v : V) (d : Dict K V)
      → P k v
      → Entries P d
      → Entries P (put k v d)
  unfolding put
  Entries-put P k v [] h es = (h, tt)
  Entries-put P k v ((j, w) ∷ d) h es = elim (Bool-cases (j == k)) [
    | inl hit ↦ rw hit (subst (λ i. P i v) (sym ((==_iff j k).0 hit)) h, es.1)
    | inr miss ↦ rw miss (es.0, Entries-put P k v d h es.1)
  ]

  pub Entries-get {μ} :
      (P : K → V → Type μ) (k : K) (d : Dict K V) {v : V} → Entries P d → get k d ≡ some v → P k v
  unfolding get
  Entries-get P k [] es h = cc
  Entries-get P k ((j, w) ∷ d) {v} es h = elim (Bool-cases (j == k)) [
    | inl hit ↦
        let same : w ≡ v = ground arith in
        subst (λ i. P i v) ((==_iff j k).0 hit) (subst (P j) same es.0)
    | inr miss ↦ Entries-get P k d es.1 (ground arith)
  ]

  pub has-put :
      (k j : K) (v : V) (d : Dict K V) → has j (put k v d) ≡ (if k == j then true else has j d)
  unfolding has put
  has-put k j v [] = ground arith
  has-put k j v ((i, w) ∷ d) = ground (arith, ==_iff k j, ==_iff i k, ==_iff i j, has-put k j v d)

  pub has-keys : (k : K) (d : Dict K V) → contains k (keys d) ≡ has k d
  unfolding has contains
  has-keys k [] = refl
  has-keys k ((j, w) ∷ d) = ground (arith, ==_iff j k, ==_iff k j, has-keys k d)

  pub contains-keys-put :
      (k j : K) (v : V) (d : Dict K V)
      → contains j (keys (put k v d)) ≡ (if k == j then true else contains j (keys d))
  contains-keys-put k j v d = ground (arith, has-put k j v d, has-keys j d, has-keys j (put k v d))

  -- A dict has each key once.
  pub Distinct-keys-put :
      (k : K) (v : V) (d : Dict K V) → Distinct (keys d) → Distinct (keys (put k v d))
  unfolding put contains
  Distinct-keys-put k v [] h = (refl, tt)
  Distinct-keys-put k v ((j, w) ∷ d) h =
      ground (arith, ==_iff j k, ==_iff k j, Distinct-keys-put k v d, contains-keys-put k j v d)

  -- A new key goes to the end.
  pub put-append : (k : K) (v : V) (d : Dict K V) → has k d ≡ false → put k v d ≡ d ++ (k, v) ∷ []
  unfolding put has
  put-append k v [] h = refl
  put-append k v ((j, w) ∷ d) h = ground (arith, put-append k v d)

  pub has_of_get : (k : K) (d : Dict K V) {v : V} → get k d ≡ some v → has k d ≡ true
  unfolding get has
  has_of_get k [] h = cc
  has_of_get k ((j, w) ∷ d) {v} h = ground (arith, has_of_get k d {v = v})

  pub has-del : (k j : K) (d : Dict K V) → has j (del k d) ≡ (if k == j then false else has j d)
  unfolding has del
  has-del k j [] = ground arith
  has-del k j ((i, w) ∷ d) = ground (arith, ==_iff k j, ==_iff i k, ==_iff i j, has-del k j d)

  -- What is written at a key that is absent is found there.
  pub get-put_self : (k : K) (v : V) (d : Dict K V) → get k (put k v d) ≡ some v
  get-put_self k v d = ground (arith, get-put k k v d, ==_iff k k)

  pub All-put {μ} :
      (P : K × V → Type μ) (k : K) (v : V) (d : Dict K V) → P (k, v) → All P d → All P (put k v d)
  unfolding put
  All-put P k v [] h a = (h, tt)
  All-put P k v ((j, w) ∷ d) h a = elim (Bool-cases (j == k)) [
    | inl hit ↦ rw hit (subst (λ i. P (i, v)) (sym ((==_iff j k).0 hit)) h, a.1)
    | inr miss ↦ rw miss (a.0, All-put P k v d h a.1)
  ]

  pub All-del {μ} : (P : K × V → Type μ) (k : K) (d : Dict K V) → All P d → All P (del k d)
  unfolding del
  All-del P k [] a = tt
  All-del P k ((j, w) ∷ d) a = elim (Bool-cases (j == k)) [
    | inl hit ↦ rw hit (All-del P k d a.1)
    | inr miss ↦ rw miss (a.0, All-del P k d a.1)
  ]

  pub All-get {μ} :
      (P : K × V → Type μ) (k : K) (d : Dict K V) {v : V} → All P d → get k d ≡ some v → P (k, v)
  unfolding get
  All-get P k [] a h = cc
  All-get P k ((j, w) ∷ d) {v} a h = elim (Bool-cases (j == k)) [
    | inl hit ↦
        let same : w ≡ v = ground arith in
        subst (λ i. P (i, v)) ((==_iff j k).0 hit) (subst (λ u. P (j, u)) same a.0)
    | inr miss ↦ All-get P k d a.1 (ground arith)
  ]

  pub Distinct-keys-del : (k : K) (d : Dict K V) → Distinct (keys d) → Distinct (keys (del k d))
  unfolding del
  Distinct-keys-del k [] h = tt
  Distinct-keys-del k ((j, w) ∷ d) h = elim (Bool-cases (j == k)) [
    | inl hit ↦ rw hit (Distinct-keys-del k d h.1)
    | inr miss ↦ rw miss (
      ground (arith, has-del k j d, has-keys j d, has-keys j (del k d), h.0),
      Distinct-keys-del k d h.1,
    )
  ]
