-- ===== src/Updates/Versions.antt =====
-- Version numbers of `parse_version` of aegorx/update.py. `Digits` has what Python supplies:
-- `str.isdigit` on a character, and `int` on a text, which fails on some of the characters that
-- are digits by `isdigit`.
use Prim.Native.Char.{code}
use aegor_x.Prelude.{
  ℕ, ◌≡◌, refl, String, Bool, true, false, ◌||◌, Option, some, List, [], ◌∷◌, ◌==◌, ltb, ◌>>=◌,
  arith, if◌then◌else◌,
}

pub record Digits : Type 0 where
  pub is_digit : ℕ → Bool
  pub int_of : List ℕ → Option ℕ

-- The code points of a text.
abbrev pub codes : String → List ℕ
codes String.[] = []
codes (String.◌∷◌ c s) = code c ∷ codes s

-- `text.lstrip("vV")`.
unfoldable pub lstrip_v : List ℕ → List ℕ
lstrip_v [] = []
lstrip_v (c ∷ s) = let rest = lstrip_v s in if (c == b'v') || (c == b'V') then rest else c ∷ s

abbrev pub glue : ℕ → List (List ℕ) → List (List ℕ)
glue c [] = (c ∷ []) ∷ []
glue c (w ∷ ws) = (c ∷ w) ∷ ws

-- The parts between the separators; `s.split(".")` where they are the full stops.
unfoldable pub split : (ℕ → Bool) → List ℕ → List (List ℕ)
split is_separator [] = [] ∷ []
split is_separator (c ∷ s) =
    let rest = split is_separator s in if is_separator c then [] ∷ rest else glue c rest

-- The digits a chunk begins with.
unfoldable pub leading : Digits → List ℕ → List ℕ
leading d [] = []
leading d (c ∷ s) = let rest = leading d s in if d.is_digit c then c ∷ rest else []

-- The numbers of the chunks up to the first that begins with no digit. None is a ValueError.
unfoldable pub parts_of : Digits → List (List ℕ) → Option (List ℕ)
parts_of d [] = some []
parts_of d (chunk ∷ chunks) =
    let rest = parts_of d chunks in
    elim (leading d chunk) [
      | [] ↦ some []
      | c ∷ s ↦ (d.int_of (c ∷ s) >>= λ n. rest >>= λ ns. some (n ∷ ns))
    ]

-- `parse_version` of the code points of a stripped text; without its complaint of an empty tuple.
unfoldable pub parse_text : Digits → List ℕ → Option (List ℕ)
parse_text d s = parts_of d (split (λ c. c == b'.') (lstrip_v s))

-- `u < v` and `u <= v` on tuples.
unfoldable pub version_lt : List ℕ → List ℕ → Bool
version_lt u [] = false
version_lt [] (b ∷ v) = true
version_lt (a ∷ u) (b ∷ v) =
    let rest = version_lt u v in if ltb a b then true else if a == b then rest else false

unfoldable pub version_le : List ℕ → List ℕ → Bool
version_le [] v = true
version_le (a ∷ u) [] = false
version_le (a ∷ u) (b ∷ v) =
    let rest = version_le u v in if ltb a b then true else if a == b then rest else false

-- The two comparisons agree.
pub version_lt-version_le : (u v : List ℕ) → version_le v u ≡ false → version_lt u v ≡ true
unfolding version_lt version_le
version_lt-version_le u [] h = absurd (ground arith)
version_lt-version_le [] (b ∷ v) h = refl
version_lt-version_le (a ∷ u) (b ∷ v) h = ground (arith, version_lt-version_le u v)
