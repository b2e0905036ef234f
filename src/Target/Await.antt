-- ===== src/Target/Await.antt =====
-- labgrid/target.py: `update_resources` and `await_resources`, with labgrid/util/timeout.py and the
-- polling of labgrid/resource/common.py. Times are milliseconds. `managed` has the timeout of the
-- managed resource that a resource belongs to, if it does; `polled` is what its manager does: the
-- time it takes, and which resources are available afterwards.
use labgrid.Prelude.{
  ℕ, zero, suc, ◌+◌, ◌-◌, Bool, true, false, not, ◌&&◌, Option, none, some, List, [], ◌∷◌, nat_eq,
  ltb, leb, any, max, is_empty, if◌then◌else◌, Outcome, ok, raised, out_of_fuel, no_resource_found,
}
use labgrid.Prelude.Dict.{get}
use labgrid.Target.{Target, is_active}
use labgrid.Target.Deactivate.{deactivate}

-- A target with the clock and the attribute `avail` of the resources.
pub record Site : Type 0 where
  pub target : Target
  pub now : ℕ
  pub last_update : ℕ
  pub avail : ℕ → Bool

abbrev pub SiteM {ℓ} : Type ℓ → Type ℓ
SiteM A = Site → Outcome A × Site

abbrev pub then_do {ℓ κ} :
    {A : Type ℓ} {B : Type κ} → Outcome A × Site → (A → SiteM B) → Outcome B × Site
then_do (ok a, s) f = f a s
then_do (raised e, s) f = (raised e, s)

-- `Timeout`, as its deadline.
unfoldable pub expired : (deadline : ℕ) → Site → Bool
expired deadline s = leb deadline s.now

-- `r.avail != avail`
abbrev pub differs : Bool → Bool → Bool
differs true b = not b
differs false b = b

unfoldable pub still : (wanted : Bool) → List ℕ → Site → List ℕ
still wanted [] s = []
still wanted (r ∷ rs) s =
    if differs wanted (s.avail r) then r ∷ still wanted rs s else still wanted rs s

abbrev pub is_static : Option ℕ → Bool
is_static none = true
is_static (some _) = false

abbrev or_zero : Option ℕ → ℕ
or_zero none = 0
or_zero (some n) = n

module _ (managed : ℕ → Option ℕ) (polled : ℕ → ℕ → (ℕ → Bool) → ℕ × (ℕ → Bool)) where
  -- `Resource.poll`
  unfoldable pub poll : ℕ → Site → Site
  poll ref s =
      if is_static (managed ref)
      then s
      else let (took, avail) = polled ref s.now s.avail in
        record s { now = s.now + took; avail = avail }

  unfoldable pub poll_all : List ℕ → Site → Site
  unfolding poll
  poll_all [] s = s
  poll_all (r ∷ rs) s = poll_all rs (poll r s)

  -- What a round of the loop does after it has found who is still missing.
  unfoldable pub poll_round : (wanted : Bool) → List ℕ → Site → Site
  unfolding poll_all
  poll_round wanted waiting s =
      let s' = poll_all waiting s in
      if any (λ r. not (differs wanted (s'.avail r))) waiting
      then s'
      else record s' { now = s'.now + 500 }

  -- The loop, and who is missing at its end.
  unfoldable pub await_loop :
      (rounds : ℕ) → (wanted : Bool) → (deadline : ℕ) → List ℕ → SiteM (List ℕ)
  unfolding still poll_round expired
  await_loop zero wanted deadline waiting s = (raised out_of_fuel, s)
  await_loop (suc rounds) wanted deadline waiting s =
      let missing = still wanted waiting s in
      let rest = await_loop rounds wanted deadline missing (poll_round wanted missing s) in
      if not (is_empty waiting) && not (expired deadline s) then rest else (ok waiting, s)

  module _ (on_deactivate : ℕ → Outcome (Unit {0})) (fuel : ℕ) where
    abbrev pub is_lost : ℕ → Site → Bool
    is_lost r s = elim (get r s.target.objects) [
      | none ↦ false
      | some o ↦ not (s.avail r) && is_active o.state
    ]

    unfoldable pub drop_lost : ℕ → SiteM (Unit {0})
    unfolding deactivate get
    drop_lost r s =
        if is_lost r s
        then (let (result, target) = deactivate on_deactivate fuel r s.target in
            then_do (result, record s { target = target }) (λ _ s'. (ok tt, s')))
        else (ok tt, s)

    unfoldable pub update_all : List ℕ → SiteM (Unit {0})
    unfolding poll drop_lost
    update_all [] s = (ok tt, s)
    update_all (r ∷ rs) s = then_do (drop_lost r (poll r s)) (λ _. update_all rs)

    unfoldable pub update_resources : SiteM (Unit {0})
    unfolding update_all
    update_resources s =
        if ltb (s.now - s.last_update) 100
        then (ok tt, s)
        else update_all s.target.resources (record s { last_update = s.now })

    -- `max(resource.get_managed_parent().timeout for resource in waiting)`
    unfoldable pub longest : List ℕ → ℕ
    longest [] = 0
    longest (r ∷ rs) = max (or_zero (managed r)) (longest rs)

    abbrev pub timeout_of : Option ℕ → List ℕ → ℕ
    timeout_of none waiting = longest waiting
    timeout_of (some timeout) waiting = timeout

    unfoldable pub check_found : List ℕ → SiteM (Unit {0})
    unfolding update_resources
    check_found missing s =
        if is_empty missing then update_resources s else (raised no_resource_found, s)

    unfoldable pub await_resources :
        (rounds : ℕ) → List ℕ → Option ℕ → (wanted : Bool) → SiteM (Unit {0})
    unfolding update_resources still await_loop check_found longest
    await_resources rounds resources timeout wanted s = then_do (update_resources s) (λ _ s'.
        let waiting = still wanted resources s' in
        if any (λ r. is_static (managed r)) waiting
        then (raised no_resource_found, s')
        else if is_empty waiting
        then (ok tt, s')
        else then_do (await_loop rounds wanted (s'.now + timeout_of timeout waiting) waiting s')
            check_found)
