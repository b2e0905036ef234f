-- ===== src/Target/Found.antt =====
-- labgrid/target.py: the loop of `_get_driver` over the drivers.
use labgrid.Prelude.{
  ℕ, ◌≡◌, refl, sym, subst, Bool, true, some, List, [], ◌∷◌, nat_eq, string_eq, ◌==◌, ==_iff,
  contains, arith, All, Bool-cases, Option-cases, inl, inr,
}
use labgrid.Prelude.Dict.{Dict, get}
use labgrid.Target.{Bindable}
use labgrid.Target.Select.{scan_drivers}

-- What the loop finds, and that it finds all of them.
module _ (objects : Dict ℕ Bindable) (drivers : List ℕ) (p : Bindable → Bool) where
  pub record IsFound (x : ℕ × Bindable) : Type 0 where
    pub there : get x.0 objects ≡ some x.1
    pub among : contains x.0 drivers ≡ true
    pub passes : p x.1 ≡ true

  pub scan_drivers-IsFound :
      (refs : List ℕ)
      → All (λ r. contains r drivers ≡ true) refs
      → All IsFound (scan_drivers objects p refs)
  unfolding scan_drivers
  scan_drivers-IsFound [] m = tt
  scan_drivers-IsFound (ref ∷ refs) m = elim (Option-cases (get ref objects)) [
    | inl gone ↦ rw (scan_drivers, gone) (scan_drivers-IsFound refs m.1)
    | inr (o, there) ↦ elim (Bool-cases (p o)) [
      | inr other ↦ rw (scan_drivers, there, other) (scan_drivers-IsFound refs m.1)
      | inl passes ↦
          rw (scan_drivers, there, passes)
            (record { there = there; among = m.0; passes = passes }, scan_drivers-IsFound refs m.1)
    ]
  ]

  -- What holds of all that were found holds of each that passes.
  pub scan_drivers_complete :
      (Q : ℕ → Bindable → Type 0) (refs : List ℕ)
      → All (λ (x : ℕ × Bindable). Q x.0 x.1) (scan_drivers objects p refs)
      → (r : ℕ) (o : Bindable) → contains r refs ≡ true
      → get r objects ≡ some o
      → p o ≡ true
      → Q r o
  unfolding scan_drivers contains
  scan_drivers_complete Q [] a r o m there passes = absurd (ground arith)
  scan_drivers_complete Q (ref ∷ refs) a r o m there passes =
      let rest = scan_drivers objects p refs in
      elim (Option-cases (get ref objects)) [
        | inl gone ↦
            let skip : scan_drivers objects p (ref ∷ refs) ≡ rest = rw (scan_drivers, gone) refl in
            let more : contains r refs ≡ true = ground (arith, m, ==_iff r ref, gone, there) in
            scan_drivers_complete Q refs (subst (All _) skip a) r o more there passes
        | inr (o', found) ↦ elim (Bool-cases (p o')) [
          | inr other ↦
              let skip : scan_drivers objects p (ref ∷ refs) ≡ rest =
                rw (scan_drivers, found, other) refl in
              elim (Bool-cases (r == ref)) [
                | inl hit ↦
                    let same : o' ≡ o =
                      cc
                        (found, subst (λ k. get k objects ≡ some o) ((==_iff r ref).0 hit) there) in
                    absurd (ground (arith, other, subst (λ x. p x ≡ true) (sym same) passes))
                | inr miss ↦
                    scan_drivers_complete Q refs (subst (All _) skip a) r o
                      (ground (arith, m, miss)) there passes
              ]
          | inl good ↦
              let kept : scan_drivers objects p (ref ∷ refs) ≡ (ref, o') ∷ rest =
                rw (scan_drivers, found, good) refl in
              let all = subst (All (λ (x : ℕ × Bindable). Q x.0 x.1)) kept a in
              elim (Bool-cases (r == ref)) [
                | inl hit ↦
                    let at : r ≡ ref = (==_iff r ref).0 hit in
                    let same : o' ≡ o = cc (found, subst (λ k. get k objects ≡ some o) at there) in
                    subst (λ k. Q k o) (sym at) (subst (Q ref) same all.0)
                | inr miss ↦
                    scan_drivers_complete Q refs all.1 r o (ground (arith, m, miss)) there passes
              ]
        ]
      ]
