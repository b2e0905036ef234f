-- ===== src/Common/Match.antt =====
-- labgrid/remote/common.py: `ResourceMatch`, the patterns of a place.
pub mod Laws
use labgrid.Prelude.{
  ℕ, zero, suc, ◌≡◌, refl, Bool, true, false, not, ◌&&◌, ◌||◌, List, [], ◌∷◌, String, Option, none,
  some, if◌then◌else◌, length, leb, ◌==◌, string_eq, Outcome, ok, raised, value_error, type_error,
  ◌↔◌, Eq,
}
use labgrid.Prelude.Text.{split, join, count_char, str_empty}
use labgrid.Common.Glob.{fnmatchcase}

-- A resource path is a tuple (exporter, group, cls, name), or one without the name.
pub record ResourcePath : Type 0 where
  pub exporter : String
  pub group : String
  pub cls : String
  pub name : Option String

pub record ResourceMatch : Type 0 where
  pub exporter : String
  pub group : String
  pub cls : String
  pub name : Option String
  pub rename : Option String

-- `ResourceMatch(*parts, rename=rename)`: three or four parts. With five, the fifth would be a
-- second `rename`; both ends of the range are a TypeError.
unfoldable pub from_parts : List String → Option String → Outcome ResourceMatch
from_parts (e ∷ g ∷ c ∷ []) r =
    ok (record { exporter = e; group = g; cls = c; name = none; rename = r })
from_parts (e ∷ g ∷ c ∷ n ∷ []) r =
    ok (record { exporter = e; group = g; cls = c; name = some n; rename = r })
from_parts _ r = raised type_error

unfoldable pub fromstr : String → Outcome ResourceMatch
unfolding split count_char from_parts
fromstr pattern =
    if leb 2 (count_char b'/' pattern) && leb (count_char b'/' pattern) 3
    then from_parts (split b'/' pattern) none
    else raised value_error

-- `__repr__`
abbrev pub parts_of : String → String → String → Option String → List String
parts_of e g c none = e ∷ g ∷ c ∷ []
parts_of e g c (some n) = e ∷ g ∷ c ∷ n ∷ []

abbrev pub parts : ResourceMatch → List String
parts m = parts_of m.exporter m.group m.cls m.name

unfoldable pub repr : ResourceMatch → String
unfolding join
repr m = join "/" (parts m)

abbrev pub opt_eq : Option String → Option String → Bool
opt_eq none none = true
opt_eq (some a) (some b) = a == b
opt_eq _ _ = false

-- The generated `__eq__`, which leaves `rename` out.
unfoldable pub same_match : ResourceMatch → ResourceMatch → Bool
same_match m n =
    m.exporter == n.exporter && m.group == n.group && m.cls == n.cls && opt_eq m.name n.name

-- `if name and self.name and not fnmatchcase(name, self.name)`
name_fits : Option String → Option String → Bool
unfolding fnmatchcase
name_fits (some n) (some pat) =
    if str_empty n then true else if str_empty pat then true else fnmatchcase n pat
name_fits _ _ = true

unfoldable pub ismatch : ResourceMatch → ResourcePath → Bool
unfolding name_fits fnmatchcase
ismatch m p =
    if not (fnmatchcase p.exporter m.exporter)
    then false
    else if not (fnmatchcase p.group m.group)
    then false
    else if not (fnmatchcase p.cls m.cls)
    then false
    else name_fits p.name m.name
