-- ===== src/Common/Match/Laws.antt =====
-- labgrid/remote/common.py: printing and parsing a `ResourceMatch`, and its equality.
use labgrid.Prelude.{
  ◌≡◌, ap, true, ◌&&◌, List, [], ◌∷◌, String, Option, none, some, if◌then◌else◌, length, leb,
  string_eq, ==_iff, ok, raised, value_error, arith, ◌↔◌,
}
use labgrid.Prelude.Text.{join, count_char, NoSep, split-join, length-split}
use labgrid.Common.Match.{ResourceMatch, from_parts, fromstr, repr, parts, parts_of, opt_eq}

count_char-join :
    (p : String) (ps : List String)
    → NoSep b'/' (p ∷ ps)
    → count_char b'/' (join "/" (p ∷ ps)) ≡ length ps
count_char-join p ps h =
    omega (arith, length-split b'/' (join "/" (p ∷ ps)), ap length (split-join "/" p ps h))

-- Any joined path parses as far as the number of its parts allows.
fromstr-join :
    (p : String) (ps : List String)
    → NoSep b'/' (p ∷ ps)
    → fromstr (join "/" (p ∷ ps)) ≡ (
        if leb 2 (length ps) && leb (length ps) 3
        then from_parts (p ∷ ps) none
        else raised value_error)
unfolding fromstr
fromstr-join p ps h = rw (count_char-join p ps h, split-join "/" p ps h)

abbrev pub NoSlash : ResourceMatch → Type 0
NoSlash m = NoSep b'/' (parts m)

fromstr-parts_of :
    (e g c : String) (n : Option String)
    → NoSep b'/' (parts_of e g c n)
    → fromstr (join "/" (parts_of e g c n))
      ≡ ok (record { exporter = e; group = g; cls = c; name = n; rename = none })
unfolding from_parts
fromstr-parts_of e g c none h = fromstr-join e (g ∷ c ∷ []) h
fromstr-parts_of e g c (some n) h = fromstr-join e (g ∷ c ∷ n ∷ []) h

-- Parsing the printed form of a match gives the match, but for `rename`, which is not printed.
-- No part may hold a slash.
pub fromstr-repr :
    (m : ResourceMatch) → NoSlash m → fromstr (repr m) ≡ ok (record m { rename = none })
unfolding repr
fromstr-repr m h = fromstr-parts_of m.exporter m.group m.cls m.name h

pub opt_eq_iff : (a b : Option String) → (opt_eq a b ≡ true) ↔ (a ≡ b)
opt_eq_iff none none = ground arith
opt_eq_iff (some a) (some b) = ground (arith, ==_iff a b)
opt_eq_iff none (some b) = ground arith
opt_eq_iff (some a) none = ground arith
