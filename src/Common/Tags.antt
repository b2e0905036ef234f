-- ===== src/Common/Tags.antt =====
-- labgrid/remote/common.py: the regular expressions for tags, `MapValue` and the glob patterns
-- (Python's `fnmatchcase`) by which places match resources.
use labgrid.Prelude.{
  ℕ, ◌≡◌, refl, Bool, true, false, ◌&&◌, ◌||◌, List, [], ◌∷◌, String, leb, nat_beq, arith,
}
use labgrid.Prelude.Text.{codes}

is_lower : ℕ → Bool
is_lower c = leb b'a' c && leb c b'z'

-- `[a-z0-9_]`
tag_char : ℕ → Bool
unfolding is_lower
tag_char c = is_lower c || (leb b'0' c && leb c b'9') || nat_beq c b'_'

first_is : (ℕ → Bool) → List ℕ → Bool
first_is p [] = false
first_is p (c ∷ s) = p c

-- `re.match` of `[a-z][a-z0-9_]+`: it looks for the pattern at the start of the text only, and
-- says nothing of what follows.
tag_key_codes : List ℕ → Bool
unfolding is_lower tag_char first_is
tag_key_codes [] = false
tag_key_codes (c ∷ s) = is_lower c && first_is tag_char s

unfoldable pub tag_key_match : String → Bool
unfolding tag_key_codes
tag_key_match s = tag_key_codes (codes s)

-- `x?`: `x` if the text has it and what follows matches the rest of the pattern, or else nothing.
optional : (ℕ → Bool) → (List ℕ → Bool) → List ℕ → Bool
optional p rest [] = rest []
optional p rest (c ∷ s) = (p c && rest s) || rest (c ∷ s)

-- The end of a pattern: `re.match` does not ask for the end of the text.
pattern_end : List ℕ → Bool
pattern_end s = true

-- `re.match` of `[a-z0-9_]?`
unfoldable pub tag_val_match : String → Bool
unfolding optional tag_char pattern_end
tag_val_match s = optional tag_char pattern_end (codes s)

optional_matches : (p : ℕ → Bool) (s : List ℕ) → optional p pattern_end s ≡ true
unfolding optional pattern_end
optional_matches p [] = refl
optional_matches p (c ∷ s) = ground arith

-- Every value passes.
pub tag_val_match_lem : (s : String) → tag_val_match s ≡ true
unfolding tag_val_match
tag_val_match_lem s = optional_matches tag_char (codes s)
