-- ===== src/Common/Glob.antt =====
-- Python's `fnmatch.fnmatchcase`, which `ResourceMatch.ismatch` calls: the shell patterns of
-- places.
use labgrid.Prelude.{
  ℕ, zero, suc, ◌≡◌, refl, Bool, true, false, not, ◌&&◌, ◌||◌, List, [], ◌∷◌, String, leb, nat_beq,
  if◌then◌else◌, any, arith, Option, none, some, length,
}
use labgrid.Prelude.Text.{codes}

pub data Token : Type 0 where
  any_string any_char : Token
  one_of : (negated : Bool) → (ranges : List (ℕ × ℕ)) → Token
  literal : ℕ → Token

-- The ranges of `[…]`: `a-z` is a range, and a hyphen at either end stands for itself.
ranges : List ℕ → List (ℕ × ℕ)
ranges [] = []
ranges (a ∷ []) = (a, a) ∷ []
ranges (a ∷ b ∷ []) = (a, a) ∷ (b, b) ∷ []
ranges (a ∷ h ∷ b ∷ rest) =
    let wide = ranges rest in
    let narrow = ranges (h ∷ b ∷ rest) in if nat_beq h b'-' then (a, b) ∷ wide else (a, a) ∷ narrow

in_ranges : ℕ → List (ℕ × ℕ) → Bool
unfolding any
in_ranges c rs = any (λ r. leb r.0 c && leb c r.1) rs

-- The body of a bracket up to its `]`, and what follows; `none` if no `]` closes it. The first
-- character is taken whatever it is.
close : List ℕ → Option (List ℕ × List ℕ)
close [] = none
close (c ∷ s) =
    if nat_beq c b']'
    then some ([], s)
    else elim (close s) [ none ↦ none | some (body, rest) ↦ some (c ∷ body, rest) ]

bracket : List ℕ → Option (List ℕ × List ℕ)
unfolding close
bracket [] = none
bracket (c ∷ s) = elim (close s) [ none ↦ none | some (body, rest) ↦ some (c ∷ body, rest) ]

bracket_token : List ℕ → Option (Token × List ℕ)
unfolding bracket ranges
bracket_token [] = none
bracket_token (c ∷ s) =
    if nat_beq c b'!'
    then elim (bracket s) [
      | none ↦ none
      | some (body, rest) ↦ some (one_of true (ranges body), rest)
    ]
    else elim (bracket (c ∷ s)) [
      | none ↦ none
      | some (body, rest) ↦ some (one_of false (ranges body), rest)
    ]

-- The pattern as tokens. Each token takes a character at least, so the length is enough fuel.
tokens : ℕ → List ℕ → List Token
unfolding bracket_token
tokens zero s = []
tokens (suc fuel) [] = []
tokens (suc fuel) (c ∷ s) =
    let plain = tokens fuel s in
    if nat_beq c b'*'
    then any_string ∷ plain
    else if nat_beq c b'?'
    then any_char ∷ plain
    else if nat_beq c b'['
    then elim (bracket_token s) [ none ↦ literal c ∷ plain | some (t, rest) ↦ t ∷ tokens fuel rest ]
    else literal c ∷ plain

-- Some suffix of the text, the text itself included.
any_suffix : (List ℕ → Bool) → List ℕ → Bool
any_suffix p [] = p []
any_suffix p (c ∷ s) = p (c ∷ s) || any_suffix p s

next_char : (ℕ → Bool) → (List ℕ → Bool) → List ℕ → Bool
next_char p k [] = false
next_char p k (c ∷ s) = p c && k s

in_class : Bool → List (ℕ × ℕ) → ℕ → Bool
unfolding in_ranges
in_class negated rs c = if negated then not (in_ranges c rs) else in_ranges c rs

matches_tokens : List Token → List ℕ → Bool
unfolding any_suffix next_char in_class
matches_tokens [] [] = true
matches_tokens [] (c ∷ s) = false
matches_tokens (any_string ∷ ts) s = any_suffix (matches_tokens ts) s
matches_tokens (any_char ∷ ts) s = next_char (λ c. true) (matches_tokens ts) s
matches_tokens (one_of negated rs ∷ ts) s = next_char (in_class negated rs) (matches_tokens ts) s
matches_tokens (literal d ∷ ts) s = next_char (λ c. nat_beq c d) (matches_tokens ts) s

unfoldable pub fnmatchcase : String → String → Bool
unfolding matches_tokens tokens
fnmatchcase name pat = matches_tokens (tokens (length (codes pat)) (codes pat)) (codes name)

any_suffix-nil : (p : List ℕ → Bool) (s : List ℕ) → p [] ≡ true → any_suffix p s ≡ true
unfolding any_suffix
any_suffix-nil p [] h = h
any_suffix-nil p (c ∷ s) h = ground (arith, any_suffix-nil p s)

-- The pattern `*` matches every name.
pub fnmatchcase-star : (name : String) → fnmatchcase name "*" ≡ true
unfolding fnmatchcase
fnmatchcase-star name = any_suffix-nil (matches_tokens []) (codes name) refl

fnmatchcase_tests :
    (fnmatchcase "board-12" "board-*" ≡ true)
    × (fnmatchcase "board-12" "board-?" ≡ false)
    × (fnmatchcase "usb3" "usb[0-2x]" ≡ false)
    × (fnmatchcase "usbx" "usb[0-2x]" ≡ true)
    × (fnmatchcase "usb3" "usb[!0-2]" ≡ true)
unfolding fnmatchcase
fnmatchcase_tests = (refl, refl, refl, refl, refl)
