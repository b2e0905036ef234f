-- ===== src/Coordinator/Synchronize/Loops.antt =====
-- labgrid/remote/coordinator.py: the loops of `_synchronize_resources` that release and acquire.
use labgrid.Prelude.{
  ℕ, ◌≡◌, subst, ap, ◌∙◌, not, List, [], ◌∷◌, String, Option, none, some, string_eq, nat_eq,
  Outcome, ok, raised, arith, Outcome-cases, inl, inr, or_raise, key_error, Exception,
  attribute_error,
}
use labgrid.Prelude.Dict.{get, put, del, Entries-put, has_of_get}
use labgrid.Common.Match.{ResourcePath, opt_eq}
use labgrid.Coordinator.State.{Coordinator, ResourceImport, M, pure, ◌>>=◌}
use labgrid.Coordinator.Publish.{path_of, path_in}
use labgrid.Coordinator.Sessions.{deref, truthy_acquired}
use labgrid.Coordinator.Acquire.{acquire_resource}
use labgrid.Coordinator.Stable.{looking, guarding, or_raise-ok}
use labgrid.Coordinator.Waits.{acquire_resource-Frame}
use labgrid.Coordinator.Exclusive.{IsExclusive}
use labgrid.Coordinator.Synchronize.{
  PathDict, path_eq, expired_at, attempt, should_release, release_claimed, release_or_skip,
  release_unused, claimed_place, find_again, acquired_or_break, acquire_or_skip, reacquire,
}
use labgrid.Coordinator.Synchronize.Safe.{
  IsAt, AllAt, AllAt-Keeps, AllAt-del, Safe, Safe-refl, Safe-trans, Frame-Safe,
  release_claimed-Safe,
}

-- A loop is safe, and the resources that it gives are there, each under its path.
pub record IsLoop (s : Coordinator) (r : Outcome PathDict × Coordinator) : Type 0 where
  pub safe : Safe s r.1
  pub at : (d : PathDict) → r.0 ≡ ok d → AllAt r.1.heap d

-- From any safe state, and with resources under their paths.
abbrev pub Loops : (PathDict → M PathDict) → Type 0
Loops go = (s : Coordinator) (d : PathDict) → IsExclusive s → AllAt s.heap d → IsLoop s (go d s)

pub IsLoop-after :
    (s t : Coordinator) (r : Outcome PathDict × Coordinator) → Safe s t → IsLoop t r → IsLoop s r
IsLoop-after s t r a b = record { safe = Safe-trans s t r.1 a b.safe; at = b.at }

pub pure-Loops : Loops pure
unfolding pure
pure-Loops s d v a = record {
  safe = Safe-refl s;
  at = λ d' e. let same : d ≡ d' = cc in subst (AllAt s.heap) same a;
}

pub raised-IsLoop : (s : Coordinator) (e : Exception) → IsLoop s (raised e, s)
raised-IsLoop s e = record { safe = Safe-refl s; at = λ d h. absurd (ground (arith, h)) }

module _ (go : PathDict → M PathDict) (loops : Loops go) (s : Coordinator) (d : PathDict)
    (v : IsExclusive s) (a : AllAt s.heap d) where
  -- The rest of a loop, after a part that is safe.
  pub rest-IsLoop :
      (t : Coordinator) (d' : PathDict) → Safe s t → AllAt t.heap d' → IsLoop s (go d' t)
  rest-IsLoop t d' safe a' = IsLoop-after s t (go d' t) safe (loops t d' (safe.exclusive v) a')

  pub stopped-IsLoop : (t : Coordinator) → Safe s t → IsLoop s (pure d t)
  stopped-IsLoop t safe =
      IsLoop-after s t (pure d t) safe
        (pure-Loops t d (safe.exclusive v) (AllAt-Keeps s.heap t.heap (safe.grows v.heap_ok).1 d a))

  pub release_or_skip-IsLoop :
      (path : ResourcePath) (ref : ℕ) (verdict : Option (Option String))
      → IsLoop s (release_or_skip d go path ref verdict s)
  unfolding attempt ◌>>=◌
  release_or_skip-IsLoop path ref none = loops s d v a
  release_or_skip-IsLoop path ref (some claim) =
      let safe = release_claimed-Safe claim ref s in
      let t = (release_claimed claim ref s).1 in
      elim (Outcome-cases (release_claimed claim ref s).0) [
        | inl (_, e) ↦ rw e (
            rest-IsLoop t (del path d) safe
              (AllAt-del t.heap path d (AllAt-Keeps s.heap t.heap (safe.grows v.heap_ok).1 d a)))
        | inr (_, e) ↦ rw e (stopped-IsLoop t safe)
      ]

  pub acquired_or_break-IsLoop :
      (name : String) (ref : ℕ) (r : ResourceImport)
      → get ref s.heap.cells ≡ some r
      → IsLoop s ((attempt (acquire_resource name ref) >>= acquired_or_break d go r.path ref) s)
  unfolding attempt path_of ◌>>=◌
  acquired_or_break-IsLoop name ref r there =
      let safe = Frame-Safe (acquire_resource-Frame name ref) s in
      let t = (acquire_resource name ref s).1 in
      let keeps = (safe.grows v.heap_ok).1 in
      let kept = keeps ref (has_of_get ref s.heap.cells there) in
      elim (Outcome-cases (acquire_resource name ref s).0) [
        | inl (_, e) ↦ rw e (
            rest-IsLoop t (put r.path ref d) safe (
              Entries-put (IsAt t.heap) r.path ref d (kept.0, kept.1 ∙ ap path_in there)
                (AllAt-Keeps s.heap t.heap keeps d a)))
        | inr (_, e) ↦ rw e (stopped-IsLoop t safe)
      ]

  pub acquire_or_skip-IsLoop :
      (name : String) (found : Option ℕ) → IsLoop s (acquire_or_skip d go name found s)
  unfolding deref ◌>>=◌
  acquire_or_skip-IsLoop name none = loops s d v a
  acquire_or_skip-IsLoop name (some ref) =
      looking (IsLoop s) s (raised-IsLoop s) (or_raise (get ref s.heap.cells) attribute_error) _
        λ r e.
          guarding (IsLoop s) s (not (truthy_acquired r.data_.acquired)) _ _ (loops s d v a)
            (acquired_or_break-IsLoop name ref r (or_raise-ok _ _ e))

pub release_unused-Loops :
    (deadline : ℕ) (paths : List ResourcePath) → Loops (release_unused deadline paths)
unfolding release_unused deref ◌>>=◌
release_unused-Loops deadline [] s d v a = pure-Loops s d v a
release_unused-Loops deadline (path ∷ paths) s d v a =
    guarding (IsLoop s) s (not (expired_at deadline s)) _ _
      (release_unused-Loops deadline paths s d v a)
      (looking (IsLoop s) s (raised-IsLoop s) (or_raise (get path d) key_error) _ λ ref _.
        looking (IsLoop s) s (raised-IsLoop s) (or_raise (get ref s.heap.cells) attribute_error) _
          λ r _.
            release_or_skip-IsLoop (release_unused deadline paths)
              (release_unused-Loops deadline paths) s d v a path ref (should_release s r))

pub reacquire-Loops :
    (deadline : ℕ) (paths : List ResourcePath) (orphaned : PathDict)
    → Loops (reacquire deadline paths orphaned)
unfolding reacquire deref ◌>>=◌
reacquire-Loops deadline [] orphaned s d v a = pure-Loops s d v a
reacquire-Loops deadline (path ∷ paths) orphaned s d v a =
    let rest = reacquire-Loops deadline paths orphaned in
    guarding (IsLoop s) s (not (expired_at deadline s)) _ _ (rest s d v a) (
      looking (IsLoop s) s (raised-IsLoop s) (or_raise (get path orphaned) key_error) _ λ ref _.
        looking (IsLoop s) s (raised-IsLoop s) (or_raise (get ref s.heap.cells) attribute_error) _
          λ r _.
            guarding (IsLoop s) s (not (opt_eq r.data_.acquired (some "<broken>"))) _ _
              (rest s d v a)
              (looking (IsLoop s) s (raised-IsLoop s) (claimed_place s r.data_.acquired) _ λ name _.
                acquire_or_skip-IsLoop (reacquire deadline paths orphaned) rest s d v a name
                  (find_again s r.path)))
