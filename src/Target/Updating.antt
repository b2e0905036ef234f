-- ===== src/Target/Updating.antt =====
-- labgrid/target.py: what `update_resources` and `await_resources` do to the binding states.
use labgrid.Prelude.{
  ℕ, zero, suc, ◌+◌, ◌-◌, ◌≡◌, refl, sym, subst, ◌∙◌, Bool, not, ◌&&◌, Option, List, [], ◌∷◌,
  nat_eq, ltb, any, is_empty, Outcome, ok, raised, inl, inr, Bool-cases,
}
use labgrid.Target.Lowers.{Lowers, IsConsistent, Lowers-refl, Lowers-trans}
use labgrid.Target.Consistent.{deactivate-IsStep}
use labgrid.Target.Await.{
  Site, SiteM, then_do, expired, is_static, still, timeout_of, is_lost, poll, poll_round,
  await_loop, drop_lost, update_all, update_resources, check_found, await_resources,
}
use labgrid.Target.Waiting.{poll-IsLater, poll_round-goes_on}

-- Objects may go from active to bound, nothing else of the target changes, and if every object with
-- an active client was active, it is so afterwards.
pub record IsLowering {ℓ} {A : Type ℓ} (s : Site) (r : Outcome A × Site) : Type 0 where
  pub lowers : Lowers s.target r.1.target
  pub consistent : IsConsistent s.target → IsConsistent r.1.target

module _ {ℓ} {A : Type ℓ} where
  same-IsLowering : (s t : Site) (r : Outcome A) → t.target ≡ s.target → IsLowering s (r, t)
  same-IsLowering s t r same = record {
    lowers = subst (Lowers s.target) (sym same) (Lowers-refl s.target);
    consistent = λ v. subst IsConsistent (sym same) v;
  }

  after-IsLowering :
      (s t : Site) (r : Outcome A × Site) → t.target ≡ s.target → IsLowering t r → IsLowering s r
  after-IsLowering s t r same l = record {
    lowers = subst (λ x. Lowers x r.1.target) same l.lowers;
    consistent = λ v. l.consistent (subst IsConsistent (sym same) v);
  }

then_do-IsLowering {ℓ κ} :
    {A : Type ℓ} {B : Type κ} (s : Site) (r : Outcome A × Site) (f : A → SiteM B)
    → IsLowering s r
    → ((a : A) (t : Site) → IsLowering t (f a t))
    → IsLowering s (then_do r f)
then_do-IsLowering s (raised e, t) f l k = record { lowers = l.lowers; consistent = l.consistent }
then_do-IsLowering s (ok a, t) f l k =
    let more = k a t in
    record {
      lowers = Lowers-trans s.target t.target (f a t).1.target l.lowers more.lowers;
      consistent = λ v. more.consistent (l.consistent v);
    }

module _ (managed : ℕ → Option ℕ) (polled : ℕ → ℕ → (ℕ → Bool) → ℕ × (ℕ → Bool)) where
  await_loop-target :
      (rounds : ℕ) (wanted : Bool) (deadline : ℕ) (waiting : List ℕ) (s : Site)
      → (await_loop managed polled rounds wanted deadline waiting s).1.target ≡ s.target
  unfolding await_loop
  await_loop-target zero wanted deadline waiting s = refl
  await_loop-target (suc rounds) wanted deadline waiting s =
      let missing = still wanted waiting s in
      elim (Bool-cases (not (is_empty waiting) && not (expired deadline s))) [
        | inl goes_on ↦ rw goes_on (
            await_loop-target rounds wanted deadline missing
              (poll_round managed polled wanted missing s)
            ∙ (poll_round-goes_on managed polled wanted missing s).0)
        | inr over ↦ rw over refl
      ]

  module _ (on_deactivate : ℕ → Outcome (Unit {0})) (fuel : ℕ) where
    drop_lost-IsLowering :
        (r : ℕ) (s : Site) → IsLowering s (drop_lost managed polled on_deactivate fuel r s)
    unfolding drop_lost
    drop_lost-IsLowering r s =
        let step = deactivate-IsStep on_deactivate fuel r s.target in
        elim (Bool-cases (is_lost managed polled on_deactivate fuel r s)) [
          | inl lost ↦ rw lost (
              then_do-IsLowering s _ (λ _ s'. (ok tt, s'))
                (record { lowers = step.lowers; consistent = step.consistent })
                (λ _ t. same-IsLowering t t (ok tt) refl))
          | inr kept ↦ rw kept (same-IsLowering s s (ok tt) refl)
        ]

    update_all-IsLowering :
        (rs : List ℕ) (s : Site) → IsLowering s (update_all managed polled on_deactivate fuel rs s)
    unfolding update_all
    update_all-IsLowering [] s = same-IsLowering s s (ok tt) refl
    update_all-IsLowering (r ∷ rs) s =
        let s' = poll managed polled r s in
        then_do-IsLowering s _ _
          (after-IsLowering s s' _ (poll-IsLater managed polled r s).same_target
            (drop_lost-IsLowering r s'))
          (λ _. update_all-IsLowering rs)

    update_resources-IsLowering :
        (s : Site) → IsLowering s (update_resources managed polled on_deactivate fuel s)
    unfolding update_resources
    update_resources-IsLowering s = elim (Bool-cases (ltb (s.now - s.last_update) 100)) [
      | inl recent ↦ rw recent (same-IsLowering s s (ok tt) refl)
      | inr due ↦ rw due (
          after-IsLowering s (record s { last_update = s.now }) _ refl
            (update_all-IsLowering s.target.resources (record s { last_update = s.now })))
    ]

    check_found-IsLowering :
        (missing : List ℕ) (s : Site)
        → IsLowering s (check_found managed polled on_deactivate fuel missing s)
    unfolding check_found
    check_found-IsLowering [] s = update_resources-IsLowering s
    check_found-IsLowering (_ ∷ _) s = same-IsLowering s s _ refl

    -- Waiting for resources, completed or stopped by an exception, and whatever the managers find,
    -- takes active objects to bound and changes nothing else of the target; if every object with
    -- an active client was active before, it is so afterwards.
    pub await_resources-IsLowering :
        (rounds : ℕ) (resources : List ℕ) (timeout : Option ℕ) (wanted : Bool) (s : Site)
        → IsLowering s
            (await_resources managed polled on_deactivate fuel rounds resources timeout wanted s)
    unfolding await_resources
    await_resources-IsLowering rounds resources timeout wanted s =
        then_do-IsLowering s _ _ (update_resources-IsLowering s) λ _ t.
          let waiting = still wanted resources t in
          elim (Bool-cases (any (λ r. is_static (managed r)) waiting)) [
            | inl static ↦ rw static (same-IsLowering t t _ refl)
            | inr of_managers ↦ elim (Bool-cases (is_empty waiting)) [
              | inl none_left ↦ rw (of_managers, none_left) (same-IsLowering t t _ refl)
              | inr some_left ↦
                  let deadline =
                    t.now + timeout_of managed polled on_deactivate fuel timeout waiting in
                  let r = await_loop managed polled rounds wanted deadline waiting t in
                  rw (of_managers, some_left)
                    (then_do-IsLowering t r (check_found managed polled on_deactivate fuel)
                      (same-IsLowering t r.1 r.0
                        (await_loop-target rounds wanted deadline waiting t))
                      check_found-IsLowering)
            ]
          ]
