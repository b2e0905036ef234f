-- ===== src/Coordinator/Orderly/Once.antt =====
-- labgrid/remote/coordinator.py: no two exporters have one name, through the changes of the
-- dictionary of the sessions.
use labgrid.Prelude.{
  ◌≡◌, refl, true, false, List, [], ◌∷◌, map, String, none, some, Distinct, contains, arith,
  Bool-cases, inl, inr, string_eq, ◌==◌, ==_iff,
}
use labgrid.Prelude.Dict.{Dict, get, put, del, keys}
use labgrid.Coordinator.State.{ExporterSession}
use labgrid.Coordinator.Sessions.{get_exporter_by_name}
use labgrid.Coordinator.Orderly.{session_name}

abbrev pub Sessions : Type 0
Sessions = Dict String ExporterSession

abbrev pub names : Sessions → List String
names = map session_name

-- A session that keeps its name.
pub names-put_same :
    (peer : String) (e e' : ExporterSession) (es : Sessions)
    → get peer es ≡ some e
    → e'.name ≡ e.name
    → names (put peer e' es) ≡ names es
unfolding get put
names-put_same peer e e' [] h same = absurd (ground (arith, h))
names-put_same peer e e' ((p, x) ∷ es) h same = elim (Bool-cases (p == peer)) [
  | inl hit ↦ let there : x ≡ e = ground arith in rw (hit, same, there) refl
  | inr miss ↦ rw (miss, names-put_same peer e e' es (ground arith) same) refl
]

contains-names-put :
    (n peer : String) (e : ExporterSession) (es : Sessions)
    → contains n (names es) ≡ false
    → (n == e.name) ≡ false
    → contains n (names (put peer e es)) ≡ false
unfolding contains put
contains-names-put n peer e [] h other = ground arith
contains-names-put n peer e ((p, x) ∷ es) h other = ground (arith, contains-names-put n peer e es)

-- A session under a new name.
pub Distinct-names-put :
    (peer : String) (e : ExporterSession) (es : Sessions)
    → contains e.name (names es) ≡ false
    → Distinct (names es)
    → Distinct (names (put peer e es))
unfolding contains put
Distinct-names-put peer e [] new d = (refl, tt)
Distinct-names-put peer e ((p, x) ∷ es) new d = elim (Bool-cases (p == peer)) [
  | inl hit ↦ rw hit (ground arith, d.1)
  | inr miss ↦ rw miss (
    contains-names-put x.name peer e es d.0
        (ground (arith, ==_iff x.name e.name, ==_iff e.name x.name)),
    Distinct-names-put peer e es (ground arith) d.1,
  )
]

contains-names-del :
    (n peer : String) (es : Sessions)
    → contains n (names es) ≡ false
    → contains n (names (del peer es)) ≡ false
unfolding contains del
contains-names-del n peer [] h = refl
contains-names-del n peer ((p, x) ∷ es) h = ground (arith, contains-names-del n peer es)

pub Distinct-names-del :
    (peer : String) (es : Sessions) → Distinct (names es) → Distinct (names (del peer es))
unfolding del
Distinct-names-del peer [] d = tt
Distinct-names-del peer ((p, x) ∷ es) d =
    ground (arith, contains-names-del x.name peer es, Distinct-names-del peer es)

-- Looking for a name that no exporter has, and for one that an exporter has.
pub by_name-none :
    (n : String) (es : Sessions) → get_exporter_by_name n es ≡ none → contains n (names es) ≡ false
unfolding contains get_exporter_by_name
by_name-none n [] h = refl
by_name-none n ((p, x) ∷ es) h = ground (arith, ==_iff n x.name, ==_iff x.name n, by_name-none n es)

get-contains :
    (peer : String) (e : ExporterSession) (es : Sessions)
    → get peer es ≡ some e
    → contains peer (keys es) ≡ true
unfolding contains get
get-contains peer e [] h = absurd (ground (arith, h))
get-contains peer e ((p, x) ∷ es) h =
    ground (arith, ==_iff peer p, ==_iff p peer, get-contains peer e es)

pub by_name-get :
    (n peer : String) (e : ExporterSession) (es : Sessions)
    → Distinct (keys es)
    → get_exporter_by_name n es ≡ some (peer, e)
    → get peer es ≡ some e
unfolding get get_exporter_by_name
by_name-get n peer e [] d h = absurd (ground (arith, h))
by_name-get n peer e ((p, x) ∷ es) d h = elim (Bool-cases (x.name == n)) [
  | inl hit ↦ ground (arith, ==_iff p peer)
  | inr miss ↦
      let later = by_name-get n peer e es d.1 (ground arith) in
      ground (arith, ==_iff p peer, get-contains peer e es later, d.0, later)
]
