-- ===== src/Coordinator/Exclusive.antt =====
-- labgrid/remote/coordinator.py: no two places hold resources of the same path, through acquiring
-- and releasing, whatever the exporters and the clients do in between.
use labgrid.Prelude.{
  ℕ, ◌+◌, ◌≤◌, ◌≡◌, refl, Bool, true, false, List, [], ◌∷◌, String, some, All, string_eq, nat_eq,
  ◌==◌, ==_iff, ◌↔◌, arith, Bool-cases, inl, inr,
}
use labgrid.Prelude.Dict.{Dict, get, has, put, Entries}
use labgrid.Common.Match.{ResourcePath}
use labgrid.Common.Match.Laws.{opt_eq_iff}
use labgrid.Common.Place.{Place}
use labgrid.Coordinator.State.{Coordinator, Heap}
use labgrid.Coordinator.Publish.{path_of}
use labgrid.Coordinator.Acquire.{same_path}
use labgrid.Coordinator.Frame.{Keeping, IsHeap, Keeps}

pub same_path_iff : (p q : ResourcePath) → (same_path p q ≡ true) ↔ (p ≡ q)
unfolding same_path
same_path_iff p q = ground (
  arith,
  ==_iff p.exporter q.exporter,
  ==_iff p.group q.group,
  ==_iff p.cls q.cls,
  opt_eq_iff p.name q.name,
)

abbrev pub one_if : Bool → ℕ
one_if true = 1
one_if false = 0

-- How many of the references lead to a resource of the path `q`.
unfoldable pub count_path : Heap → ResourcePath → List ℕ → ℕ
count_path h q [] = 0
count_path h q (ref ∷ refs) = one_if (same_path q (path_of h ref)) + count_path h q refs

-- How often the places hold a resource of the path `q`.
unfoldable pub holders : Heap → ResourcePath → Dict String (Place ℕ) → ℕ
unfolding count_path
holders h q [] = 0
holders h q ((_, p) ∷ places) = count_path h q p.acquired_resources + holders h q places

abbrev pub AllThere : Heap → List ℕ → Type 0
AllThere h refs = All (λ ref. has ref h.cells ≡ true) refs

-- The objects are numbered below the next number, the held ones are there, and each path is held
-- at most once.
pub record IsExclusive (s : Coordinator) : Type 0 where
  pub heap_ok : IsHeap s.heap
  pub there : Entries (λ _ p. AllThere s.heap p.acquired_resources) s.places
  pub exclusive : (q : ResourcePath) → holders s.heap q s.places ≤ 1

module _ (h h' : Heap) (keeps : Keeps h h') where
  pub AllThere-Keeps : (refs : List ℕ) → AllThere h refs → AllThere h' refs
  AllThere-Keeps [] a = tt
  AllThere-Keeps (ref ∷ refs) a = ((keeps ref a.0).0, AllThere-Keeps refs a.1)

  pub count_path-Keeps :
      (q : ResourcePath) (refs : List ℕ)
      → AllThere h refs
      → count_path h' q refs ≡ count_path h q refs
  unfolding count_path
  count_path-Keeps q [] a = refl
  count_path-Keeps q (ref ∷ refs) a = rw ((keeps ref a.0).1, count_path-Keeps q refs a.1)

  pub holders-Keeps :
      (q : ResourcePath) (places : Dict String (Place ℕ))
      → Entries (λ _ p. AllThere h p.acquired_resources) places
      → holders h' q places ≡ holders h q places
  unfolding holders
  holders-Keeps q [] a = refl
  holders-Keeps q ((_, p) ∷ places) a =
      rw (count_path-Keeps q p.acquired_resources a.0, holders-Keeps q places a.1)

  there-Keeps :
      (places : Dict String (Place ℕ))
      → Entries (λ _ p. AllThere h p.acquired_resources) places
      → Entries (λ _ p. AllThere h' p.acquired_resources) places
  there-Keeps [] a = tt
  there-Keeps ((_, p) ∷ places) a =
      (AllThere-Keeps p.acquired_resources a.0, there-Keeps places a.1)

pub Keeping-IsExclusive : (s t : Coordinator) → Keeping s t → IsExclusive s → IsExclusive t
Keeping-IsExclusive s t (same, grows) v =
    let (ok_t, keeps) = grows v.heap_ok in
    record {
      heap_ok = ok_t;
      there = rw same (there-Keeps s.heap t.heap keeps s.places v.there);
      exclusive =
          λ q. rw (same, holders-Keeps s.heap t.heap keeps q s.places v.there) (v.exclusive q);
    }

-- What writing a place does to the number of holders.
pub holders-put :
    (h : Heap) (q : ResourcePath) (name : String) (p p' : Place ℕ) (places : Dict String (Place ℕ))
    → get name places ≡ some p
    → holders h q (put name p' places) + count_path h q p.acquired_resources
      ≡ holders h q places + count_path h q p'.acquired_resources
unfolding holders get put
holders-put h q name p p' [] e = cc
holders-put h q name p p' ((k, r) ∷ places) e = elim (Bool-cases (k == name)) [
  | inl hit ↦ let same : r ≡ p = ground arith in rw (hit, same) (omega arith)
  | inr miss ↦ let rest = holders-put h q name p p' places (ground arith) in rw miss (omega arith)
]
