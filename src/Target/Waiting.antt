-- ===== src/Target/Waiting.antt =====
-- labgrid/target.py: the loop of `await_resources` ends.
use labgrid.Prelude.{
  ℕ, zero, suc, ◌+◌, ◌-◌, ◌*◌, ◌<◌, ◌≤◌, ◌≡◌, refl, ◌∙◌, Bool, true, false, not, Option, List, [],
  ◌∷◌, nat_eq, leb, leb→le, any, length, is_empty, Outcome, ok, arith, inl, inr, ◌⊎◌, Bool-cases,
}
use labgrid.Target.Await.{
  Site, expired, differs, is_static, still, poll, poll_all, poll_round, await_loop,
}

length-still :
    (wanted : Bool) (refs : List ℕ) (s : Site) → length (still wanted refs s) ≤ length refs
unfolding still
length-still wanted [] s = omega arith
length-still wanted (r ∷ rs) s = ground (arith, length-still wanted rs s)

-- One that is found is missing no longer.
length-still_lt :
    (wanted : Bool) (refs : List ℕ) (s : Site)
    → any (λ r. not (differs wanted (s.avail r))) refs ≡ true
    → length (still wanted refs s) < length refs
unfolding still any
length-still_lt wanted [] s h = cc
length-still_lt wanted (r ∷ rs) s h =
    ground (arith, length-still wanted rs s, length-still_lt wanted rs s)

-- How the loop ends.
pub record IsWaited (deadline : ℕ) (s : Site) (r : Outcome (List ℕ) × Site) : Type 0 where
  pub left : List ℕ
  pub returns : r.0 ≡ ok left
  pub same_target : r.1.target ≡ s.target
  pub over : (left ≡ []) ⊎ (deadline ≤ r.1.now)

module _ (managed : ℕ → Option ℕ) (polled : ℕ → ℕ → (ℕ → Bool) → ℕ × (ℕ → Bool)) where
  pub record IsLater (s t : Site) : Type 0 where
    pub same_target : t.target ≡ s.target
    pub later : s.now ≤ t.now

  pub poll-IsLater : (r : ℕ) (s : Site) → IsLater s (poll managed polled r s)
  unfolding poll
  poll-IsLater r s = elim (Bool-cases (is_static (managed r))) [
    | inl static ↦ rw static (record { same_target = refl; later = omega arith })
    | inr of_manager ↦ rw of_manager (record { same_target = refl; later = omega arith })
  ]

  poll_all-IsLater : (rs : List ℕ) (s : Site) → IsLater s (poll_all managed polled rs s)
  unfolding poll_all
  poll_all-IsLater [] s = record { same_target = refl; later = omega arith }
  poll_all-IsLater (r ∷ rs) s =
      let one = poll-IsLater r s in
      let more = poll_all-IsLater rs (poll managed polled r s) in
      record {
        same_target = more.same_target ∙ one.same_target;
        later = omega (arith, one.later, more.later);
      }

  -- A round finds somebody, or it takes half a second.
  pub poll_round-goes_on :
      (wanted : Bool) (waiting : List ℕ) (s : Site)
      → ((poll_round managed polled wanted waiting s).target ≡ s.target)
        × ((length (still wanted waiting (poll_round managed polled wanted waiting s))
                < length waiting)
              × (s.now ≤ (poll_round managed polled wanted waiting s).now)
            ⊎ (s.now + 500 ≤ (poll_round managed polled wanted waiting s).now))
  unfolding poll_round
  poll_round-goes_on wanted waiting s =
      let s' = poll_all managed polled waiting s in
      let p = poll_all-IsLater waiting s in
      elim (Bool-cases (any (λ r. not (differs wanted (s'.avail r))) waiting)) [
        | inl found ↦
            rw found (p.same_target, inl (length-still_lt wanted waiting s' found, p.later))
        | inr nobody ↦ rw nobody (p.same_target, inr (omega (arith, p.later)))
      ]

  List-cases : (xs : List ℕ) → (is_empty xs ≡ true) × (xs ≡ []) ⊎ (is_empty xs ≡ false)
  List-cases [] = inl (refl, refl)
  List-cases (x ∷ xs) = inr refl

  await_rounds :
      (rounds k : ℕ) (wanted : Bool) (deadline : ℕ) (waiting : List ℕ) (s : Site)
      → length (still wanted waiting s) + k < rounds
      → deadline ≤ s.now + 500 * k
      → IsWaited deadline s (await_loop managed polled rounds wanted deadline waiting s)
  unfolding await_loop expired
  await_rounds zero k wanted deadline waiting s enough soon = absurd (omega (arith, enough))
  await_rounds (suc rounds) k wanted deadline waiting s enough soon = elim (List-cases waiting) [
    | inl (empty, none_left) ↦
        rw empty
          (record { left = waiting; returns = refl; same_target = refl; over = inl none_left })
    | inr some_left ↦ elim (Bool-cases (leb deadline s.now)) [
      | inl late ↦
          rw (some_left, late)
            (record {
              left = waiting;
              returns = refl;
              same_target = refl;
              over = inr (leb→le deadline s.now late);
            })
      | inr early ↦
          let missing = still wanted waiting s in
          let s' = poll_round managed polled wanted missing s in
          let (same, goes_on) = poll_round-goes_on wanted missing s in
          let rest : IsWaited deadline s'
              (await_loop managed polled rounds wanted deadline missing s') =
            elim goes_on [
              | inl (found, later) ↦
                  await_rounds rounds k wanted deadline missing s' (omega (arith, found, enough))
                    (omega (arith, later, soon))
              | inr slept ↦
                  await_rounds rounds (k - 1) wanted deadline missing s'
                    (grind (arith, length-still wanted missing s', enough, soon, early))
                    (grind (arith, slept, soon, early))
            ] in
          rw (some_left, early)
            (record {
              left = rest.left;
              returns = rest.returns;
              same_target = rest.same_target ∙ same;
              over = rest.over;
            })
    ]
  ]

  -- However long the managers take and whatever they find, the loop that waits for resources ends,
  -- without touching the target, with nobody missing or after its deadline: it needs one round for
  -- each resource and for each half second until the deadline, and one more.
  pub await_loop_total :
      (rounds k : ℕ) (wanted : Bool) (deadline : ℕ) (waiting : List ℕ) (s : Site)
      → length waiting + k < rounds
      → deadline ≤ s.now + 500 * k
      → IsWaited deadline s (await_loop managed polled rounds wanted deadline waiting s)
  await_loop_total rounds k wanted deadline waiting s enough soon =
      await_rounds rounds k wanted deadline waiting s
        (omega (arith, length-still wanted waiting s, enough)) soon
