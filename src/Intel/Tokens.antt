-- ===== src/Intel/Tokens.antt =====
-- The words of a feed in ASCII (aegorx/network/threat_feeds.py): names in any capitals, words that are excepted, and
-- comments.
use mathlib.Core.List.{reverse}
use aegor_x.Prelude.{
  ℕ, ◌-◌, ◌≡◌, refl, sym, ap, ◌∙◌, Bool, true, false, ◌&&◌, not, List, [], ◌∷◌, ◌++◌, map, all,
  append-nil, arith, mem, leb, if◌then◌else◌,
}
use aegor_x.Dns.Domain.{Text, Text-discrete, strip, to_lower}
use aegor_x.Dns.Filter.{is_empty}
use aegor_x.Intel.Extract.{lower, begins, exceptions}
use aegor_x.Intel.Words.{HostsLine, in_word, is_word, and_left, and_right}
use aegor_x.Intel.Printed.{is_begun, both, strip-started, word_started, word-reverse}

-- A name with the letters that the mask marks as capitals.
abbrev pub is_small : ℕ → Bool
is_small c = leb b'a' c && leb c b'z'

abbrev pub spell : List Bool → Text → Text
spell [] s = s
spell (b ∷ bs) [] = []
spell (b ∷ bs) (c ∷ s) = (if b && is_small c then c - 32 else c) ∷ spell bs s

-- What stands behind an address: a name, and a word that is none as it is excepted or a comment.
pub data Token : Type 0 where
  name : List Bool → Text → Token
  excepted : List Bool → Text → Token
  comment : Text → Token

abbrev pub written : Token → Text
written (name mask s) = spell mask s
written (excepted mask s) = spell mask s
written (comment s) = b'#' ∷ s

-- The visible characters of ASCII, and of them those that are no capitals.
abbrev pub is_visible : ℕ → Bool
is_visible c = leb 33 c && leb c 126

abbrev pub is_plain : ℕ → Bool
is_plain c = is_visible c && not (leb b'A' c && leb c b'Z')

abbrev pub is_plain_word : Text → Bool
is_plain_word s = not (is_empty s) && all is_plain s

abbrev pub is_token : Token → Bool
is_token (name mask s) =
    is_plain_word s && (not (begins b'#' s) && not (mem Text-discrete s exceptions))
is_token (excepted mask s) = is_plain_word s && mem Text-discrete s exceptions
is_token (comment s) = all is_visible s

-- The names, without capitals.
abbrev pub names_among : List Token → List Text
names_among [] = []
names_among (name mask s ∷ tokens) = s ∷ names_among tokens
names_among (excepted mask s ∷ tokens) = names_among tokens
names_among (comment s ∷ tokens) = names_among tokens

abbrev pub FeedLine : Type 0
FeedLine = Text × List Token

abbrev pub is_feed_line : FeedLine → Bool
is_feed_line (ip, tokens) =
    (not (is_empty ip) && all is_visible ip) && (not (begins b'#' ip) && all is_token tokens)

abbrev pub to_line : FeedLine → HostsLine
to_line (ip, tokens) = (ip, map written tokens)

abbrev pub names_of_feed : List FeedLine → List Text
names_of_feed [] = []
names_of_feed (line ∷ lines) = names_among line.1 ++ names_of_feed lines

pub visible-in_word : (c : ℕ) → is_visible c ≡ true → in_word c ≡ true
visible-in_word c h = ground (arith, h)

pub visible-all : (s : Text) → all is_visible s ≡ true → all in_word s ≡ true
visible-all [] h = refl
visible-all (c ∷ s) h =
    both (visible-in_word c (and_left (is_visible c) (all is_visible s) h))
      (visible-all s (and_right (is_visible c) (all is_visible s) h))

pub capital-visible :
    (b : Bool) (c : ℕ)
    → is_plain c ≡ true
    → is_visible (if b && is_small c then c - 32 else c) ≡ true
capital-visible true c h = ground (arith, h)
capital-visible false c h = ground (arith, h)

pub to_lower-capital :
    (b : Bool) (c : ℕ) → is_plain c ≡ true → to_lower (if b && is_small c then c - 32 else c) ≡ c
to_lower-capital true c h = ground (arith, h)
to_lower-capital false c h = ground (arith, h)

pub plain-visible : (s : Text) → all is_plain s ≡ true → all is_visible s ≡ true
plain-visible [] h = refl
plain-visible (c ∷ s) h =
    both
      (and_left (is_visible c) (not (leb b'A' c && leb c b'Z'))
        (and_left (is_plain c) (all is_plain s) h))
      (plain-visible s (and_right (is_plain c) (all is_plain s) h))

pub spell-visible :
    (mask : List Bool) (s : Text) → all is_plain s ≡ true → all is_visible (spell mask s) ≡ true
spell-visible [] s h = plain-visible s h
spell-visible (b ∷ bs) [] h = refl
spell-visible (b ∷ bs) (c ∷ s) h =
    both (capital-visible b c (and_left (is_plain c) (all is_plain s) h))
      (spell-visible bs s (and_right (is_plain c) (all is_plain s) h))

pub lower-spell : (mask : List Bool) (s : Text) → all is_plain s ≡ true → lower (spell mask s) ≡ s
lower-spell mask [] h = this mask
  where
    this : (mask : List Bool) → lower (spell mask []) ≡ []
    this [] = refl
    this (b ∷ bs) = refl
lower-spell [] (c ∷ s) h =
    ap2 (to_lower-capital false c (and_left (is_plain c) (all is_plain s) h))
      (lower-spell [] s (and_right (is_plain c) (all is_plain s) h))
  where
    ap2 : {d : ℕ} {t : Text} → d ≡ c → t ≡ s → d ∷ t ≡ c ∷ s
    ap2 e f = rw (e, f) refl
lower-spell (b ∷ bs) (c ∷ s) h =
    ap2 (to_lower-capital b c (and_left (is_plain c) (all is_plain s) h))
      (lower-spell bs s (and_right (is_plain c) (all is_plain s) h))
  where
    ap2 : {d : ℕ} {t : Text} → d ≡ c → t ≡ s → d ∷ t ≡ c ∷ s
    ap2 e f = rw (e, f) refl

pub spell-nonempty : (mask : List Bool) (s : Text) → is_empty (spell mask s) ≡ is_empty s
spell-nonempty [] s = refl
spell-nonempty (b ∷ bs) [] = refl
spell-nonempty (b ∷ bs) (c ∷ s) = refl

pub strip-word : (s : Text) → is_word s ≡ true → strip s ≡ s
strip-word s h = strip-started s (ap (λ x. is_begun x) (sym (append-nil s)) ∙ word_started s [] h) (
    ap (λ x. is_begun x) (sym (append-nil (reverse s)))
    ∙ word_started (reverse s) [] (word-reverse s h))

pub lower-visible : (s : Text) → all is_visible s ≡ true → all is_visible (lower s) ≡ true
lower-visible [] h = refl
lower-visible (c ∷ s) h =
    both (this (and_left (is_visible c) (all is_visible s) h))
      (lower-visible s (and_right (is_visible c) (all is_visible s) h))
  where
    this : is_visible c ≡ true → is_visible (to_lower c) ≡ true
    this k = ground (arith, k)

-- What the extraction makes of a token, in lower case and stripped, before it looks at the exceptions.
pub strip-spell :
    (mask : List Bool) (s : Text) → is_plain_word s ≡ true → strip (lower (spell mask s)) ≡ s
strip-spell mask s h =
    let plain = and_right (not (is_empty s)) (all is_plain s) h in
    ap strip (lower-spell mask s plain)
    ∙ strip-word s (
        both (and_left (not (is_empty s)) (all is_plain s) h)
          (visible-all s (plain-visible s plain)))

pub strip-comment : (s : Text) → all is_visible s ≡ true → strip (lower (b'#' ∷ s)) ≡ b'#' ∷ lower s
strip-comment s h = strip-word (b'#' ∷ lower s) (visible-all (b'#' ∷ lower s) (lower-visible s h))
