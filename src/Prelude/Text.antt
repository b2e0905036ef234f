-- ===== src/Prelude/Text.antt =====
-- Python's `str`: characters, `split`, `join`, `count` and `isdigit` at the level that is used.
use Prim.Native.Nat.{ℕ, suc, ◌+◌}
use Prim.Native.Char.{Char, code}
use Prim.Native.String.{String}
use mathlib.Core.Path.{◌≡◌, refl}
use mathlib.Core.Bool.{Bool, true, false, ◌&&◌}
use mathlib.Core.List.{List, [], ◌∷◌}
use native.Mathlib.Omega.{arith}
use labgrid.Prelude.Tests.{leb, nat_beq, if◌then◌else◌}
use labgrid.Prelude.Lists.{length, all, is_empty}

-- The code points of a text.
abbrev pub codes : String → List ℕ
codes String.[] = []
codes (String.◌∷◌ c s) = code c ∷ codes s

-- `not s`
abbrev pub str_empty : String → Bool
str_empty String.[] = true
str_empty (String.◌∷◌ c s) = false

-- The text `c ∷ s` in front of the first piece of a split.
abbrev push_char : Char → List String → List String
push_char c [] = String.◌∷◌ c String.[] ∷ []
push_char c (p ∷ ps) = String.◌∷◌ c p ∷ ps

-- `s.split(sep)` for a separator of one character.
unfoldable pub split : ℕ → String → List String
split sep String.[] = String.[] ∷ []
split sep (String.◌∷◌ c s) =
    let rest = split sep s in if nat_beq (code c) sep then String.[] ∷ rest else push_char c rest

-- `s.count(sep)` for a separator of one character.
unfoldable pub count_char : ℕ → String → ℕ
count_char sep String.[] = 0
count_char sep (String.◌∷◌ c s) = (if nat_beq (code c) sep then 1 else 0) + count_char sep s

-- `a + sep + b`, for a separator of one character.
unfoldable pub append_sep : String → Char → String → String
append_sep String.[] sep b = String.◌∷◌ sep b
append_sep (String.◌∷◌ c a) sep b = String.◌∷◌ c (append_sep a sep b)

-- `sep.join(parts)`
unfoldable pub join : Char → List String → String
join sep [] = String.[]
join sep (p ∷ []) = p
join sep (p ∷ q ∷ ps) = append_sep p sep (join sep (q ∷ ps))

split-no_sep : (sep : ℕ) (s : String) → count_char sep s ≡ 0 → split sep s ≡ s ∷ []
unfolding split count_char
split-no_sep sep String.[] h = refl
split-no_sep sep (String.◌∷◌ c s) h = ground (arith, split-no_sep sep s)

split-append_sep :
    (sep : Char) (a b : String)
    → count_char (code sep) a ≡ 0
    → split (code sep) (append_sep a sep b) ≡ a ∷ split (code sep) b
unfolding split count_char append_sep
split-append_sep sep String.[] b h = ground arith
split-append_sep sep (String.◌∷◌ c a) b h = ground (arith, split-append_sep sep a b)

-- No piece holds the separator.
abbrev pub NoSep : ℕ → List String → Type 0
NoSep sep [] = Unit
NoSep sep (p ∷ ps) = (count_char sep p ≡ 0) × NoSep sep ps

-- Splitting takes a join apart again.
pub split-join :
    (sep : Char) (p : String) (ps : List String)
    → NoSep (code sep) (p ∷ ps)
    → split (code sep) (join sep (p ∷ ps)) ≡ p ∷ ps
unfolding join
split-join sep p [] h = split-no_sep (code sep) p h.0
split-join sep p (q ∷ ps) h =
    rw (split-append_sep sep p (join sep (q ∷ ps)) h.0, split-join sep q ps h.1)

length-push_char :
    (c : Char) (ps : List String) → length (push_char c ps) ≡ (if is_empty ps then 1 else length ps)
length-push_char c [] = refl
length-push_char c (p ∷ ps) = refl

pub length-split : (sep : ℕ) (s : String) → length (split sep s) ≡ suc (count_char sep s)
unfolding split count_char
length-split sep String.[] = refl
length-split sep (String.◌∷◌ c s) =
    ground (arith, length-split sep s, length-push_char c (split sep s))

is_digit : ℕ → Bool
is_digit c = leb b'0' c && leb c b'9'

-- `s.isdigit()`, for ASCII text.
unfoldable pub isdigit : String → Bool
unfolding is_digit all
isdigit s = if str_empty s then false else all is_digit (codes s)
