-- ===== src/Strategy/Current.antt =====
-- labgrid/strategy/graphstrategy.py: `transition` keeps `path` true to what the methods have done
-- since the drivers were last deactivated.
use labgrid.Prelude.{
  ℕ, ◌≡◌, ◌≢◌, refl, sym, ap, subst, ◌∙◌, true, false, Option, List, [], ◌∷◌, ◌++◌, String,
  string_eq, ◌==◌, ==_iff, length, Outcome, ok, raised, Exception, Bool-cases, inl, inr, ◌⊎◌,
  Outcome-cases,
}
use labgrid.Prelude.Dict.{has}
use labgrid.Strategy.{GraphStrategy, list_beq, drop, cut, find_rel_path, find_abs_path}
use labgrid.Strategy.Paths.{IsWay, Leads, find_abs_path-IsWay}
use labgrid.Strategy.Init.{IsWellFormed}
use labgrid.Strategy.History.{RootFree, Leads-RootFree, list_beq-eq, cut-eq}
use labgrid.Strategy.Transition.{
  Result, invalidate, invalidate_and_raise, prepare_state, run_states, run_path, move_to, unlock,
  transition, parse_state, after_method, after_prepare,
}

RootFree-append :
    (root : String) (xs ys : List String) → RootFree root (xs ++ ys) → RootFree root ys
RootFree-append root [] ys f = f
RootFree-append root (x ∷ xs) ys f = RootFree-append root xs ys f.1

append_nil : (xs : List String) → xs ++ [] ≡ xs
append_nil [] = refl
append_nil (x ∷ xs) = ap (λ t. x ∷ t) (append_nil xs)

append_assoc :
    (xs : List String) (y : String) (ys : List String) → (xs ++ y ∷ []) ++ ys ≡ xs ++ y ∷ ys
append_assoc [] y ys = refl
append_assoc (x ∷ xs) y ys = ap (λ t. x ∷ t) (append_assoc xs y ys)

tail_of : List String → List String
tail_of [] = []
tail_of (x ∷ xs) = xs

cons_nil : {x : String} {xs : List String} → (x ∷ xs) ≢ []
cons_nil h = cc

module _ {ℓ} {W : Type ℓ} (method : String → W → Outcome (Unit {0}) × W)
    (deactivate_all_drivers : W → Outcome (Unit {0}) × W) (history : W → List String)
    (called : (name : String) (w : W)
      → (method name w).0 ≡ ok tt
      → history (method name w).1 ≡ history w ++ name ∷ [])
    (cleared : (w : W)
      → ((deactivate_all_drivers w).0 ≡ ok tt) × (history (deactivate_all_drivers w).1 ≡ [])) where
  -- A run of state methods is completed, or the strategy is invalidated.
  abbrev Ran :
      List String → GraphStrategy → Result {W = W} method deactivate_all_drivers (Unit {0}) → Type 0
  Ran done g (r, g', w') =
      ((r ≡ ok tt) × (g' ≡ g) × (history w' ≡ done))
      ⊎ ((e : Exception) × (r ≡ raised e) × (g' ≡ record g { path = [] }) × (history w' ≡ []))

  invalidated :
      (e : Exception) (done : List String) (g : GraphStrategy) (w : W)
      → Ran done g (invalidate_and_raise method deactivate_all_drivers e g w)
  unfolding invalidate_and_raise invalidate
  invalidated e done g w =
      rw ((cleared w).0, invalidate_and_raise) (inr (e, refl, refl, (cleared w).1))

  prepare-other :
      (root name : String) (w : W)
      → (name == root) ≡ false
      → prepare_state method deactivate_all_drivers root name w ≡ (ok tt, w)
  unfolding prepare_state
  prepare-other root name w h = rw h refl

  prepare-root :
      (root : String) (w : W)
      → prepare_state method deactivate_all_drivers root root w ≡ deactivate_all_drivers w
  unfolding prepare_state
  prepare-root root w = rw ((==_iff root root).1 refl) refl

  after_method-Ran :
      (others : GraphStrategy → W → Result {W = W} method deactivate_all_drivers (Unit {0}))
      (done : List String) (g : GraphStrategy) (called : Outcome (Unit {0}) × W)
      → (called.0 ≡ ok tt → Ran done g (others g called.1))
      → Ran done g (after_method method deactivate_all_drivers others g called)
  unfolding after_method
  after_method-Ran others done g (ok _, w) h = h refl
  after_method-Ran others done g (raised e, w) h = invalidated e done g w

  after_prepare-Ran :
      (name : String)
      (others : GraphStrategy → W → Result {W = W} method deactivate_all_drivers (Unit {0}))
      (done : List String) (g : GraphStrategy) (prepared : Outcome (Unit {0}) × W)
      → prepared.0 ≡ ok tt
      → ((method name prepared.1).0 ≡ ok tt → Ran done g (others g (method name prepared.1).1))
      → Ran done g (after_prepare method deactivate_all_drivers name others g prepared)
  unfolding after_prepare
  after_prepare-Ran name others done g (ok _, w) e h =
      after_method-Ran others done g (method name w) h
  after_prepare-Ran name others done g (raised x, w) e h = cc

  run_states-Ran :
      (names : List String) (g : GraphStrategy) (w : W)
      → RootFree g.root_state names
      → Ran (history w ++ names) g (run_states method deactivate_all_drivers names g w)
  unfolding run_states
  run_states-Ran [] g w f = inl (refl, refl, sym (append_nil (history w)))
  run_states-Ran (name ∷ names) g w f = rw (prepare-other g.root_state name w f.0) (
      after_prepare-Ran name (run_states method deactivate_all_drivers names)
        (history w ++ name ∷ names) g (ok tt, w) refl
        λ e.
          let w' = (method name w).1 in
          let so_far : history w' ++ names ≡ history w ++ name ∷ names =
            ap (λ h. h ++ names) (called name w e) ∙ append_assoc (history w) name names in
          subst (λ h. Ran h g (run_states method deactivate_all_drivers names g w')) so_far
            (run_states-Ran names g w' f.1))

  -- From the root state on, the drivers are deactivated first.
  run_whole-Ran :
      (rest : List String) (g : GraphStrategy) (w : W)
      → RootFree g.root_state rest
      → Ran
          (g.root_state ∷ rest)
          g
          (run_states method deactivate_all_drivers (g.root_state ∷ rest) g w)
  unfolding run_states
  run_whole-Ran rest g w f = rw (prepare-root g.root_state w) (
      after_prepare-Ran g.root_state (run_states method deactivate_all_drivers rest)
        (g.root_state ∷ rest) g (deactivate_all_drivers w) (cleared w).0
        λ e.
          let w1 = (deactivate_all_drivers w).1 in
          let w' = (method g.root_state w1).1 in
          let so_far : history w' ++ rest ≡ g.root_state ∷ rest =
            ap (λ h. h ++ rest)
              (called g.root_state w1 e ∙ ap (λ h. h ++ g.root_state ∷ []) (cleared w).1) in
          subst (λ h. Ran h g (run_states method deactivate_all_drivers rest g w')) so_far
            (run_states-Ran rest g w' f))

  -- The strategy's path is what the methods have done.
  abbrev IsCurrent : Result {W = W} method deactivate_all_drivers (List String) → Type 0
  IsCurrent (r, g, w) = history w ≡ g.path

  run_path-Ran :
      (abs_path path : List String) (g : GraphStrategy) (w : W)
      → Ran abs_path g (run_states method deactivate_all_drivers path g w)
      → IsCurrent (run_path method deactivate_all_drivers abs_path path g w)
  unfolding run_path
  run_path-Ran abs_path path g w ran = elim ran [
    | inl (e, same, h) ↦ rw (run_path, e) h
    | inr (x, e, same, h) ↦ rw (run_path, e) (h ∙ sym (ap (λ k. k.path) same))
  ]

  -- The relative path does what the whole one does.
  run_rel_path-Ran :
      (state : String) (path : List String) (g : GraphStrategy) (w : W)
      → IsWellFormed g
      → IsWay g.states state path
      → history w ≡ g.path
      → Ran path g (run_states method deactivate_all_drivers (find_rel_path path g.path) g w)
  unfolding find_rel_path drop tail_of
  run_rel_path-Ran state path g w v way current =
      elim (Bool-cases (list_beq (cut path g.path) g.path)) [
        | inl same ↦ extended same
        | inr differ ↦ rw differ whole
      ]
    where
      rooted : way.root ≡ g.root_state
      rooted = v.only_root way.root way.is_root

      free : RootFree g.root_state way.rest
      free = Leads-RootFree g way.root way.rest v (subst (Leads g.states) way.splits way.leads)

      from_root : path ≡ g.root_state ∷ way.rest
      from_root = way.splits ∙ ap (λ r. r ∷ way.rest) rooted

      whole : Ran path g (run_states method deactivate_all_drivers path g w)
      whole = rw from_root (run_whole-Ran way.rest g w free)

      some_path : path ≢ []
      some_path e = cons_nil (sym from_root ∙ e)

      by_old :
          (old : List String)
          → g.path ≡ old
          → cut path g.path ≡ g.path
          → Ran path g (run_states method deactivate_all_drivers (drop (length g.path) path) g w)
      by_old [] p e =
          subst
            (λ o. Ran path g (run_states method deactivate_all_drivers (drop (length o) path) g w))
            (sym p) whole
      by_old (x ∷ xs) p e =
          let new = drop (length g.path) path in
          let goes_on : g.path ++ new ≡ path = cut-eq path g.path some_path e in
          let tail : xs ++ new ≡ way.rest =
            ap tail_of (ap (λ o. o ++ new) (sym p) ∙ goes_on ∙ from_root) in
          subst (λ h. Ran h g (run_states method deactivate_all_drivers new g w))
            (ap (λ h. h ++ new) current ∙ goes_on)
            (run_states-Ran new g w
              (RootFree-append g.root_state xs new (subst (RootFree g.root_state) (sym tail) free)))

      extended :
          list_beq (cut path g.path) g.path ≡ true
          → Ran path g (run_states method deactivate_all_drivers (find_rel_path path g.path) g w)
      extended same = rw same (by_old g.path refl (list_beq-eq (cut path g.path) g.path same))

  move_to-IsCurrent :
      (fuel : ℕ) (state : String) (via : List String) (g : GraphStrategy) (w : W)
      → IsWellFormed g
      → history w ≡ g.path
      → IsCurrent (move_to method deactivate_all_drivers fuel state via g w)
  unfolding move_to
  move_to-IsCurrent fuel state via g w v current = elim (Bool-cases (has state g.states)) [
    | inr unknown ↦ rw (move_to, unknown) current
    | inl is_state ↦ elim (Outcome-cases (find_abs_path fuel g.states state via)) [
      | inr (x, e) ↦ rw (move_to, is_state, e) current
      | inl (path, e) ↦ elim (Bool-cases (list_beq path g.path)) [
        | inl same ↦ rw (move_to, is_state, e, same) current
        | inr differ ↦
            rw (move_to, is_state, e, differ)
              (run_path-Ran path (find_rel_path path g.path) g w (
                run_rel_path-Ran state path g w v
                  (find_abs_path-IsWay g.states fuel state via path e) current))
      ]
    ]
  ]

  unlock-IsCurrent :
      (t : Result {W = W} method deactivate_all_drivers (List String))
      → IsCurrent t
      → IsCurrent (unlock method deactivate_all_drivers t)
  unfolding unlock
  unlock-IsCurrent (r, g, w) h = h

  -- The strategy has one root state and knows its dependencies; a state method that is called with
  -- success is added to the history, and deactivating the drivers succeeds and clears it. Whatever
  -- a transition does, be it refused, stopped by an exception or completed, the strategy's path is
  -- the history afterwards, if it was so before.
  pub transition-IsCurrent :
      (fuel : ℕ) (state : String) (via : Option (List String)) (g : GraphStrategy) (w : W)
      → IsWellFormed g
      → history w ≡ g.path
      → let t = transition method deactivate_all_drivers fuel state via g w in
        history t.2 ≡ t.1.path
  unfolding transition
  transition-IsCurrent fuel state via g w v current = elim (Outcome-cases (parse_state state via)) [
    | inr (x, e) ↦ rw (transition, e) current
    | inl ((target, via'), e) ↦ elim (Bool-cases g.transition_running) [
      | inl busy ↦ rw (transition, e, busy) (unfold unlock in current)
      | inr idle ↦
          let g' = record g { transition_running = true } in
          let v' : IsWellFormed g' = record {
            root_is = v.root_is;
            only_root = v.only_root;
            all_known = v.all_known;
          } in
          rw (transition, e, idle)
            (unlock-IsCurrent (move_to method deactivate_all_drivers fuel target via' g' w)
              (move_to-IsCurrent fuel target via' g' w v' current))
    ]
  ]
