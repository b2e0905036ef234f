-- ===== src/Coordinator/Pending.antt =====
-- labgrid/remote/coordinator.py, `schedule_reservations`: the life of a reservation, and the order
-- in which waiting reservations are served.
use labgrid.Prelude.{
  ℕ, ◌≤◌, ◌≡◌, ◌≢◌, Bool, true, false, List, [], ◌∷◌, some, keep, All, if◌then◌else◌, subst, sym,
  arith, Bool-cases, inl, inr,
}
use labgrid.Prelude.Int.{int_ltb, int_ltb_trans, int_ltb-asym}
use labgrid.Prelude.Sort.{sort, IsSorted, insert_sorted, sort-IsSorted}
use labgrid.Prelude.Dict.{values}
use mathlib.Core.List.{Perm}
use mathlib.Core.List.Perm
use labgrid.Common.Reservation.{Reservation, acquired}
use labgrid.Coordinator.Schedule.{Reservations, is_waiting, expire_one, before, pending}

-- Before its timeout, a pass does nothing to a reservation that is not acquired.
pub expire_one-live :
    (now : ℕ) (r : Reservation) → r.state ≢ acquired → now ≤ r.timeout → expire_one now r ≡ some r
unfolding expire_one
expire_one-live now r h k = ground arith

before_total : (a b : Reservation) → before a b ≡ false → before b a ≡ true
unfolding before
before_total a b h = ground (arith, int_ltb-asym a.prio b.prio, int_ltb-asym b.prio a.prio)

before_trans : (a b c : Reservation) → before a b ≡ true → before b c ≡ true → before a c ≡ true
unfolding before
before_trans a b c h k = ground (
  arith,
  int_ltb-asym a.prio b.prio,
  int_ltb-asym b.prio a.prio,
  int_ltb-asym b.prio c.prio,
  int_ltb-asym c.prio b.prio,
  int_ltb-asym a.prio c.prio,
  int_ltb-asym c.prio a.prio,
  int_ltb_trans a.prio b.prio c.prio,
  int_ltb_trans c.prio b.prio a.prio,
  int_ltb_trans b.prio a.prio c.prio,
  int_ltb_trans b.prio c.prio a.prio,
  int_ltb_trans c.prio a.prio b.prio,
  int_ltb_trans a.prio c.prio b.prio,
)

module _ {ℓ} {A : Type ℓ} (le : A → A → Bool) (p : A → Bool) where
  keep-insert_sorted :
      (x : A) (xs : List A) → Perm (keep p (insert_sorted le x xs)) (keep p (x ∷ xs))
  unfolding insert_sorted keep
  keep-insert_sorted x [] = Perm.rfl
  keep-insert_sorted x (y ∷ ys) = elim (Bool-cases (le x y)) [
    | inl first ↦ rw first Perm.rfl
    | inr later ↦ rw later (
        Perm.trans (keep-cons y (insert_sorted le x ys) (x ∷ ys) (keep-insert_sorted x ys))
          (swap x y ys))
  ]
    where
      keep-cons :
          (z : A) (us vs : List A)
          → Perm (keep p us) (keep p vs)
          → Perm (keep p (z ∷ us)) (keep p (z ∷ vs))
      keep-cons z us vs h = elim (Bool-cases (p z)) [
        | inl yes_z ↦ rw yes_z (Perm.cons z h)
        | inr no_z ↦ rw no_z h
      ]

      swap : (a b : A) (us : List A) → Perm (keep p (b ∷ a ∷ us)) (keep p (a ∷ b ∷ us))
      swap a b us = elim (Bool-cases (p a)) [
        | inl in_a ↦ elim (Bool-cases (p b)) [
          | inl in_b ↦ rw (in_a, in_b) (Perm.swap a b (keep p us))
          | inr out_b ↦ rw (in_a, out_b) Perm.rfl
        ]
        | inr out_a ↦ elim (Bool-cases (p b)) [
          | inl in_b ↦ rw (out_a, in_b) Perm.rfl
          | inr out_b ↦ rw (out_a, out_b) Perm.rfl
        ]
      ]

  keep-sort-perm : (xs : List A) → Perm (keep p (sort le xs)) (keep p xs)
  unfolding sort keep
  keep-sort-perm [] = Perm.rfl
  keep-sort-perm (x ∷ xs) =
      Perm.trans (keep-insert_sorted x (sort le xs)) (keep_more (p x) (keep-sort-perm xs))
    where
      keep_more :
          (b : Bool)
          → Perm (keep p (sort le xs)) (keep p xs)
          → Perm
              (if b then x ∷ keep p (sort le xs) else keep p (sort le xs))
              (if b then x ∷ keep p xs else keep p xs)
      keep_more true h = Perm.cons x h
      keep_more false h = h

  All-keep {κ} : (Q : A → Type κ) (xs : List A) → All Q xs → All Q (keep p xs)
  unfolding keep
  All-keep Q [] a = tt
  All-keep Q (x ∷ xs) a = elim (Bool-cases (p x)) [
    | inl in_x ↦ rw in_x (a.0, All-keep Q xs a.1)
    | inr out_x ↦ rw out_x (All-keep Q xs a.1)
  ]

  keep-IsSorted : (xs : List A) → IsSorted le xs → IsSorted le (keep p xs)
  unfolding keep
  keep-IsSorted [] s = tt
  keep-IsSorted (x ∷ xs) s = elim (Bool-cases (p x)) [
    | inl in_x ↦ rw in_x (All-keep _ xs s.0, keep-IsSorted xs s.1)
    | inr out_x ↦ rw out_x (keep-IsSorted xs s.1)
  ]

-- `a` is served before `b`: its priority is not lower, and with equal priorities it is not younger.
abbrev pub Precedes : Reservation → Reservation → Type 0
Precedes a b = (int_ltb a.prio b.prio ≡ false) × (a.prio ≡ b.prio → a.created ≤ b.created)

-- Each one precedes all that stand after it.
abbrev pub IsServedInOrder : List Reservation → Type 0
IsServedInOrder [] = Unit
IsServedInOrder (r ∷ rs) = All (Precedes r) rs × IsServedInOrder rs

before-Precedes : (a b : Reservation) → before a b ≡ true → Precedes a b
unfolding before
before-Precedes a b h = elim (Bool-cases (int_ltb b.prio a.prio)) [
  | inl higher ↦ (
    int_ltb-asym b.prio a.prio higher,
    λ same.
        let lower : int_ltb a.prio a.prio ≡ true =
          subst (λ x. int_ltb x a.prio ≡ true) (sym same) higher in
        absurd (ground (arith, lower, int_ltb-asym a.prio a.prio lower)),
  )
  | inr not_higher ↦ (ground arith, λ same. ground arith)
]

All-Precedes :
    (a : Reservation) (rs : List Reservation)
    → All (λ b. before a b ≡ true) rs
    → All (Precedes a) rs
All-Precedes a [] h = tt
All-Precedes a (b ∷ rs) h = (before-Precedes a b h.0, All-Precedes a rs h.1)

sorted-IsServedInOrder : (rs : List Reservation) → IsSorted before rs → IsServedInOrder rs
sorted-IsServedInOrder [] s = tt
sorted-IsServedInOrder (r ∷ rs) s = (All-Precedes r rs s.0, sorted-IsServedInOrder rs s.1)

-- The scheduler is given exactly the waiting reservations, each as often as it is stored; one that
-- stands before another has no lower priority, and with equal priorities it is not younger.
pub pending_lem :
    (rs : Reservations)
    → IsServedInOrder (pending rs) × Perm (pending rs) (keep (λ r. is_waiting r.state) (values rs))
unfolding pending
pending_lem rs = (
  sorted-IsServedInOrder (pending rs)
      (keep-IsSorted before _ _ (sort-IsSorted before before_total before_trans (values rs))),
  keep-sort-perm before _ (values rs),
)
