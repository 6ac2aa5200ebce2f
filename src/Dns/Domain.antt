-- ===== src/Dns/Domain.antt =====
-- The text functions of aegorx/network/dns_filter.py: `_normalize` and `_reverse_labels`.
use native.Mathlib.Decide.{ℕ_discrete}
use mathlib.Core.List.{reverse}
use aegor_x.Prelude.{ℕ, ◌+◌, Bool, ◌||◌, ◌&&◌, List, [], ◌∷◌, map, leb, ◌==◌, if◌then◌else◌}

abbrev pub Text : Type 0
Text = List ℕ

unfoldable pub Text-discrete : Discrete Text
Text-discrete = hlevel ℕ_discrete

-- str.isspace of one character, of all of Unicode
abbrev pub is_space : ℕ → Bool
is_space c =
    (leb 9 c && leb c 13)
    || (leb 28 c && leb c 32)
    || (c == 133)
    || (c == 160)
    || (c == 5760)
    || (leb 8192 c && leb c 8202)
    || (leb 8232 c && leb c 8233)
    || (c == 8239)
    || (c == 8287)
    || (c == 12288)

-- str.lower of one character that is in ASCII, or is no capital
abbrev pub to_lower : ℕ → ℕ
to_lower c = if leb b'A' c && leb c b'Z' then c + 32 else c

-- s.lstrip(chars), for the characters that the test accepts
unfoldable pub lstrip : (ℕ → Bool) → Text → Text
lstrip p [] = []
lstrip p (c ∷ s) = let rest = lstrip p s in if p c then rest else c ∷ s

unfoldable pub strip : Text → Text
unfolding lstrip
strip s = reverse (lstrip is_space (reverse (lstrip is_space s)))

-- domain.strip().lower().lstrip("."); of no text it is no text
unfoldable pub normalize : Text → Text
unfolding strip
normalize domain = lstrip (λ c. c == b'.') (map to_lower (strip domain))

abbrev prepend : ℕ → List Text → List Text
prepend c [] = (c ∷ []) ∷ []
prepend c (label ∷ labels) = (c ∷ label) ∷ labels

-- s.split(".")
unfoldable pub split : Text → List Text
split [] = [] ∷ []
split (c ∷ s) = let rest = split s in if c == b'.' then [] ∷ rest else prepend c rest

unfoldable pub reverse_labels : Text → List Text
unfolding split
reverse_labels domain = reverse (split domain)
