-- ===== src/Target/Highest.antt =====
-- labgrid/target.py: the loop of `_get_driver` over the priorities.
use labgrid.Prelude.{
  ℕ, ◌≡◌, ◌≢◌, refl, sym, ap, subst, ◌∙◌, true, false, List, [], ◌∷◌, ◌++◌, String, nat_eq,
  string_eq, ok, arith, All, Bool-cases, inl, inr, ◌⊎◌,
}
use labgrid.Prelude.Int.{ℤ, int_ltb, negsuc, int_ltb-asym, int_ltb_irrefl, lt_le_trans, le_lt_trans}
use labgrid.Target.{Bindable}
use labgrid.Target.Select.{highest, only_driver, choose_driver}

-- The loop over the priorities.
module _ (cls : String) (F : ℕ × Bindable → Type 0) (r : ℕ) where
  abbrev prio : Bindable → ℤ
  prio o = o.priority cls

  -- All in the list have a lower priority.
  abbrev AllLower : ℤ → List (ℕ × Bindable) → Type 0
  AllLower top = All (λ (x : ℕ × Bindable). int_ltb (prio x.1) top ≡ true)

  abbrev pub IsTop : Bindable → ℕ × Bindable → Type 0
  IsTop o x = (x.0 ≡ r) ⊎ (int_ltb (prio x.1) (prio o) ≡ true)

  AllLower-IsTop :
      (o : Bindable) (top : ℤ) (found : List (ℕ × Bindable))
      → int_ltb (prio o) top ≡ false
      → AllLower top found
      → All (IsTop o) found
  AllLower-IsTop o top [] h a = tt
  AllLower-IsTop o top (x ∷ found) h a =
      (inr (lt_le_trans (prio x.1) top (prio o) a.0 h), AllLower-IsTop o top found h a.1)

  -- Either the one that was best before, or one of the rest.
  abbrev IsHighest : ℤ → List ℕ → List (ℕ × Bindable) → Type 0
  IsHighest last best found =
      ((best ≡ r ∷ []) × AllLower last found)
      ⊎ ((o : Bindable) × F (r, o)
          × ((int_ltb last (prio o) ≡ true) ⊎ ((best ≡ []) × (int_ltb (prio o) last ≡ false)))
          × All (IsTop o) found)

  snoc-single : (xs : List ℕ) (x : ℕ) → xs ++ x ∷ [] ≡ r ∷ [] → (xs ≡ []) × (x ≡ r)
  snoc-single [] x h = (refl, ground arith)
  snoc-single (y ∷ []) x h = absurd (ground arith)
  snoc-single (y ∷ z ∷ xs) x h = absurd (ground arith)

  snoc-empty : (xs : List ℕ) (x : ℕ) → xs ++ x ∷ [] ≢ []
  snoc-empty [] x h = cc
  snoc-empty (y ∷ xs) x h = cc

  highest-IsHighest :
      (last : ℤ) (best : List ℕ) (found : List (ℕ × Bindable))
      → All F found
      → highest cls last best found ≡ r ∷ []
      → IsHighest last best found
  unfolding highest
  highest-IsHighest last best [] f h = inl (h, tt)
  highest-IsHighest last best ((ref, o) ∷ found) f h = elim (Bool-cases (int_ltb last (prio o))) [
    | inl higher ↦
        let rest = highest-IsHighest (prio o) (ref ∷ []) found f.1 (sym (rw higher refl) ∙ h) in
        elim rest [
          | inl (same, lower) ↦
              let here : ref ≡ r = ground (arith, same) in
              inr (
                o,
                subst (λ k. F (k, o)) here f.0,
                inl higher,
                (inl here, AllLower-IsTop o (prio o) found (int_ltb_irrefl (prio o)) lower),
              )
          | inr (o2, there, inl above, tops) ↦ inr (
            o2,
            there,
            inl (
                lt_le_trans last (prio o) (prio o2) higher (int_ltb-asym (prio o) (prio o2) above)),
            (inr above, tops),
          )
          | inr (o2, there, inr (none_yet, _), tops) ↦ absurd (ground (arith, none_yet))
        ]
    | inr not_higher ↦ elim (Bool-cases (int_ltb (prio o) last)) [
      | inl lower ↦
          let rest =
            highest-IsHighest last best found f.1 (sym (rw (not_higher, lower) refl) ∙ h) in
          elim rest [
            | inl (same, low) ↦ inl (same, (lower, low))
            | inr (o2, there, inl above, tops) ↦ inr (
              o2,
              there,
              inl above,
              (
                inr (lt_le_trans (prio o) last (prio o2) lower (int_ltb-asym last (prio o2) above)),
                tops,
              ),
            )
            | inr (o2, there, inr (none_yet, low), tops) ↦ inr (
              o2,
              there,
              inr (none_yet, low),
              (inr (lt_le_trans (prio o) last (prio o2) lower low), tops),
            )
          ]
      | inr not_lower ↦
          let rest =
            highest-IsHighest last (best ++ ref ∷ []) found f.1
              (sym (rw (not_higher, not_lower) refl) ∙ h) in
          elim rest [
            | inl (one, low) ↦
                let (empty, here) = snoc-single best ref one in
                inr (
                  o,
                  subst (λ k. F (k, o)) here f.0,
                  inr (empty, not_lower),
                  (inl here, AllLower-IsTop o last found not_lower low),
                )
            | inr (o2, there, inl above, tops) ↦ inr (
              o2,
              there,
              inl above,
              (inr (le_lt_trans (prio o) last (prio o2) not_higher above), tops),
            )
            | inr (o2, there, inr (none_yet, _), tops) ↦ absurd (snoc-empty best ref none_yet)
          ]
    ]
  ]

only_driver-single : (refs : List ℕ) (ref : ℕ) → only_driver refs ≡ ok ref → refs ≡ ref ∷ []
only_driver-single [] ref e = cc
only_driver-single (r ∷ []) ref e = let same : r ≡ ref = cc in ap (λ k. k ∷ []) same
only_driver-single (r ∷ q ∷ rs) ref e = cc

-- One that is chosen among those that were found.
pub chosen-IsTop :
    (cls : String) (F : ℕ × Bindable → Type 0) (found : List (ℕ × Bindable)) (ref : ℕ)
    → All F found
    → choose_driver cls found ≡ ok ref
    → (o : Bindable) × F (ref, o) × All (IsTop cls F ref o) found
unfolding choose_driver
chosen-IsTop cls F [] ref f e = cc
chosen-IsTop cls F ((r, o) ∷ []) ref f e =
    let same : r ≡ ref = cc in (o, subst (λ k. F (k, o)) same f.0, (inl same, tt))
chosen-IsTop cls F (x ∷ y ∷ found) ref f e =
    let one = only_driver-single _ ref e in
    elim (highest-IsHighest cls F ref (negsuc 254) [] (x ∷ y ∷ found) f one) [
      | inl (nothing, _) ↦ absurd (ground arith)
      | inr (o, there, _, tops) ↦ (o, there, tops)
    ]
