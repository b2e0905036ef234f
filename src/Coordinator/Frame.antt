-- ===== src/Coordinator/Frame.antt =====
-- labgrid/remote/coordinator.py: what the streams and the awaited exporters leave alone. `Frame m`
-- says that `m` changes no place, keeps every resource object, and keeps each object's path.
use labgrid.Prelude.{
  ℕ, ◌<◌, ◌≡◌, refl, sym, ap, ◌∙◌, Bool, true, false, some, string_eq, nat_eq, ◌==◌, ==_iff,
  Outcome, ok, raised, arith, Exception, Bool-cases, inl, inr,
}
use labgrid.Prelude.Dict.{get, has, get-put, has-put, has_of_get}
use labgrid.Coordinator.State.{
  Heap, ResourceImport, Coordinator, M, pure, lift, throw, modify, get_state, and_then, when,
  unless, ◌>>=◌,
}
use labgrid.Coordinator.Publish.{path_of, path_in}
use labgrid.Coordinator.Sessions.{alloc, set_cell}

-- Every object has a number below the next free one.
abbrev pub IsHeap : Heap → Type 0
IsHeap h = (ref : ℕ) → has ref h.cells ≡ true → ref < h.next

abbrev pub Keeps : Heap → Heap → Type 0
Keeps h h' =
    (ref : ℕ)
    → has ref h.cells ≡ true
    → (has ref h'.cells ≡ true) × (path_of h' ref ≡ path_of h ref)

abbrev pub Grows : Heap → Heap → Type 0
Grows h h' = IsHeap h → IsHeap h' × Keeps h h'

pub Grows-refl : (h : Heap) → Grows h h
Grows-refl h ok_h = (ok_h, λ ref m. (m, refl))

pub Grows-trans : (h h' h'' : Heap) → Grows h h' → Grows h' h'' → Grows h h''
Grows-trans h h' h'' g g' ok_h =
    let (ok_h', keeps) = g ok_h in
    let (ok_h'', keeps') = g' ok_h' in
    (ok_h'', λ ref m. let (m', p) = keeps ref m in let (m'', p') = keeps' ref m' in (m'', p' ∙ p))

-- New data or a new `orphaned` for an object that is there.
pub set_cell-Grows :
    (ref : ℕ) (old new : ResourceImport) (h : Heap)
    → get ref h.cells ≡ some old
    → new.path ≡ old.path
    → Grows h (set_cell ref new h)
unfolding set_cell path_of
set_cell-Grows ref old new h there same ok_h = (
  λ r m. ground (arith, has-put ref r new h.cells, ==_iff ref r, ok_h r, has_there),
  λ r m. (
    ground (arith, has-put ref r new h.cells),
    elim (Bool-cases (ref == r)) [
      | inl hit ↦
          rw (get-put ref r new h.cells, hit)
            (same ∙ sym (ap path_in (ap (λ k. get k h.cells) (sym ((==_iff ref r).0 hit)) ∙ there)))
      | inr miss ↦ rw (get-put ref r new h.cells, miss)
    ],
  ),
)
  where
    has_there : has ref h.cells ≡ true
    has_there = has_of_get ref h.cells there

pub alloc-Grows : (r : ResourceImport) (h : Heap) → Grows h (alloc r h)
unfolding alloc path_of
alloc-Grows r h ok_h = (
  λ ref m. ground (arith, has-put h.next ref r h.cells, ==_iff h.next ref, ok_h ref),
  λ ref m. (
    ground (arith, has-put h.next ref r h.cells),
    elim (Bool-cases (h.next == ref)) [
      | inl hit ↦ absurd (ground (arith, ok_h ref m, ==_iff h.next ref))
      | inr miss ↦ rw (get-put h.next ref r h.cells, miss)
    ],
  ),
)

-- The frame rule of a handler, and how it goes through the monad.
abbrev pub Keeping : Coordinator → Coordinator → Type 0
Keeping s t = (t.places ≡ s.places) × Grows s.heap t.heap

pub record Frame {ℓ} {A : Type ℓ} (m : M A) : Type 0 where
  pub keeping : (s : Coordinator) → Keeping s (m s).1

pub Keeping-refl : (s : Coordinator) → Keeping s s
Keeping-refl s = (refl, Grows-refl s.heap)

pub Keeping-trans : (s t u : Coordinator) → Keeping s t → Keeping t u → Keeping s u
Keeping-trans s t u (p, g) (p', g') = (p' ∙ p, Grows-trans s.heap t.heap u.heap g g')

module _ {ℓ} {A : Type ℓ} where
  pub lift-Frame : (r : Outcome A) → Frame (lift r)
  unfolding lift
  lift-Frame r = record { keeping = Keeping-refl }

  pub pure-Frame : (a : A) → Frame (pure a)
  unfolding pure
  pure-Frame a = record { keeping = Keeping-refl }

  pub throw-Frame : (e : Exception) → Frame (throw {A = A} e)
  unfolding throw
  throw-Frame e = record { keeping = Keeping-refl }

  pub unless-Frame : (b : Bool) (m n : M A) → Frame m → Frame n → Frame (unless b m n)
  unfolding unless
  unless-Frame true m n h k = k
  unless-Frame false m n h k = h

pub get_state-Frame : Frame get_state
unfolding get_state
get_state-Frame = record { keeping = Keeping-refl }

pub when-Frame : (b : Bool) (m : M (Unit {0})) → Frame m → Frame (when b m)
unfolding when
when-Frame true m h = h
when-Frame false m h = pure-Frame tt

-- A change of fields that a frame says nothing of.
pub modify-Frame :
    (f : Coordinator → Coordinator) → ((s : Coordinator) → Keeping s (f s)) → Frame (modify f)
unfolding modify
modify-Frame f h = record { keeping = h }

module _ {ℓ κ} {A : Type ℓ} {B : Type κ} where
  pub and_then-Keeping :
      (r : Outcome A) (f : A → M B) (s t : Coordinator)
      → Keeping s t
      → ((a : A) → Keeping t (f a t).1)
      → Keeping s (and_then r f t).1
  and_then-Keeping (ok a) f s t k h = Keeping-trans s t (f a t).1 k (h a)
  and_then-Keeping (raised e) f s t k h = k

  pub >>=-Frame : {m : M A} {f : A → M B} → Frame m → ((a : A) → Frame (f a)) → Frame (m >>= f)
  unfolding ◌>>=◌
  >>=-Frame {m} {f} h k = record {
    keeping = λ s. and_then-Keeping (m s).0 f s (m s).1 (h.keeping s) (λ a. (k a).keeping (m s).1);
  }

  -- What holds after the first part, and is kept by the second, holds after both.
  pub >>=-after {μ} :
      (P : Coordinator → Type μ) (m : M A) (f : A → M B) (s : Coordinator)
      → P (m s).1
      → ((a : A) → (m s).0 ≡ ok a → P (f a (m s).1).1)
      → P ((m >>= f) s).1
  unfolding ◌>>=◌
  >>=-after P m f s p k = and_then-after (m s).0 (m s).1 p k
    where
      and_then-after :
          (r : Outcome A) (t : Coordinator)
          → P t
          → ((a : A) → r ≡ ok a → P (f a t).1)
          → P (and_then r f t).1
      and_then-after (ok a) t p k = k a refl
      and_then-after (raised e) t p k = p

pub ruleset frame_rules =
    (lift-Frame, pure-Frame, throw-Frame, unless-Frame, get_state-Frame, when-Frame, >>=-Frame)
