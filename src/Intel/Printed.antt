-- ===== src/Intel/Printed.antt =====
-- What `extract_domains_from_hosts` of aegorx/network/threat_feeds.py reads from the lines of a hosts file.
use mathlib.Core.List.{reverse, reverse-cons, reverse-append, reverse-reverse}
use aegor_x.Prelude.{
  ℕ, ◌≡◌, refl, sym, ap, ◌∙◌, Bool, true, false, ◌||◌, ◌&&◌, not, List, [], ◌∷◌, ◌++◌, select, all,
  all-append, all-reverse, arith, append_assoc, append-nil, if◌then◌else◌,
}
use aegor_x.Dns.Domain.{Text, is_space, strip, lstrip}
use aegor_x.Dns.Filter.{is_empty}
use aegor_x.Intel.Extract.{
  words, begins, names_of, from_parts, from_line, from_lines, extract_domains_from_hosts,
}
use aegor_x.Intel.Words.{
  HostsLine, print_names, print, print_all, in_word, is_word, is_printable, names_in, and_left,
  and_right, is_false, word-space, no_break, lines_from-line, runs-print, all_words,
}

-- The text begins by a character that is no space.
abbrev pub is_begun : Text → Bool
is_begun [] = false
is_begun (c ∷ s) = not (is_space c)

lstrip-started : (s : Text) → is_begun s ≡ true → lstrip is_space s ≡ s
unfolding lstrip
lstrip-started [] h = refl
lstrip-started (c ∷ s) h =
    if_false (is_space c) (lstrip is_space s) (c ∷ s) (is_false (is_space c) h)
  where
    if_false : (b : Bool) (x y : Text) → b ≡ false → (if b then x else y) ≡ y
    if_false b x y h = rw h refl

pub strip-started : (s : Text) → is_begun s ≡ true → is_begun (reverse s) ≡ true → strip s ≡ s
unfolding strip
strip-started s h k =
    ap (λ x. reverse (lstrip is_space (reverse x))) (lstrip-started s h)
    ∙ ap (λ x. reverse x) (lstrip-started (reverse s) k)
    ∙ reverse-reverse s

pub word_started : (w s : Text) → is_word w ≡ true → is_begun (w ++ s) ≡ true
word_started [] s h = absurd (ground (arith, h))
word_started (c ∷ w) s h = ap (λ b. not b) (word-space c (and_left (in_word c) (all in_word w) h))

pub both : {a b : Bool} → a ≡ true → b ≡ true → a && b ≡ true
both h k = rw (h, k) refl

snoc-nonempty : (xs : Text) (c : ℕ) → not (is_empty (xs ++ c ∷ [])) ≡ true
snoc-nonempty [] c = refl
snoc-nonempty (x ∷ xs) c = refl

pub word-reverse : (w : Text) → is_word w ≡ true → is_word (reverse w) ≡ true
word-reverse [] h = absurd (ground (arith, h))
word-reverse (c ∷ w) h =
    both (ap (λ x. not (is_empty x)) (reverse-cons c w) ∙ snoc-nonempty (reverse w) c)
      (all-reverse in_word (c ∷ w) ∙ h)

print-ended :
    (x w : Text) (names : List Text)
    → is_word w ≡ true
    → all is_word names ≡ true
    → is_begun (reverse (x ++ (w ++ print_names names))) ≡ true
print-ended x w [] h k =
    ap (λ y. is_begun (reverse (x ++ y))) (append-nil w)
    ∙ ap is_begun (reverse-append x w)
    ∙ word_started (reverse w) (reverse x) (word-reverse w h)
print-ended x w (name ∷ names) h k =
    ap (λ y. is_begun (reverse (x ++ y)))
      (sym (append_assoc w (32 ∷ []) (name ++ print_names names)))
    ∙ ap (λ y. is_begun (reverse y))
        (sym (append_assoc x (w ++ 32 ∷ []) (name ++ print_names names)))
    ∙ print-ended (x ++ (w ++ 32 ∷ [])) name names (and_left (is_word name) (all is_word names) k)
        (and_right (is_word name) (all is_word names) k)

word-no_break : (w : Text) → all in_word w ≡ true → all no_break w ≡ true
word-no_break [] h = refl
word-no_break (c ∷ w) h =
    both (and_right (not (is_space c)) (no_break c) (and_left (in_word c) (all in_word w) h))
      (word-no_break w (and_right (in_word c) (all in_word w) h))

names-no_break :
    (names : List Text) → all is_word names ≡ true → all no_break (print_names names) ≡ true
names-no_break [] h = refl
names-no_break (name ∷ names) h =
    all-append no_break name (print_names names)
    ∙ both
        (word-no_break name (
          and_right (not (is_empty name)) (all in_word name)
            (and_left (is_word name) (all is_word names) h)))
        (names-no_break names (and_right (is_word name) (all is_word names) h))

from_parts-names :
    (ip : Text) (names : List Text)
    → begins b'#' ip ≡ false
    → from_parts (ip ∷ names) ≡ names_of names
from_parts-names ip names h = rw h refl

-- What is read of a line, where it is stripped already and no comment.
from_stripped : Text → List Text
from_stripped s = if is_empty s || begins b'#' s then [] else from_parts (words s)

from_stripped-print :
    (ip : Text) (names : List Text)
    → is_word ip ≡ true
    → begins b'#' ip ≡ false
    → all is_word names ≡ true
    → from_stripped (print (ip, names)) ≡ names_of names
unfolding from_stripped
from_stripped-print [] names h n k = absurd (ground (arith, h))
from_stripped-print (c ∷ ip) names h n k = rw n (
    ap (λ x. from_parts (select (λ w. not (is_empty w)) x)) (runs-print (c ∷ ip) names h k)
    ∙ ap from_parts (all_words ((c ∷ ip) ∷ names) (both h k))
    ∙ from_parts-names (c ∷ ip) names n)

from_line-print :
    (line : HostsLine) → is_printable line ≡ true → from_line (print line) ≡ names_of line.1
unfolding from_stripped
from_line-print (ip, names) h =
    let word = and_left (is_word ip) (not (begins b'#' ip) && all is_word names) h in
    let rest = and_right (is_word ip) (not (begins b'#' ip) && all is_word names) h in
    let words = and_right (not (begins b'#' ip)) (all is_word names) rest in
    let n = is_false (begins b'#' ip) (and_left (not (begins b'#' ip)) (all is_word names) rest) in
    ap from_stripped (
      strip-started (print (ip, names)) (word_started ip (print_names names) word)
        (print-ended [] ip names word words))
    ∙ from_stripped-print ip names word n words

print-no_break : (line : HostsLine) → is_printable line ≡ true → all no_break (print line) ≡ true
print-no_break (ip, names) h =
    let rest = and_right (is_word ip) (not (begins b'#' ip) && all is_word names) h in
    all-append no_break ip (print_names names)
    ∙ both
        (word-no_break ip (
          and_right (not (is_empty ip)) (all in_word ip)
            (and_left (is_word ip) (not (begins b'#' ip) && all is_word names) h)))
        (names-no_break names (and_right (not (begins b'#' ip)) (all is_word names) rest))

pub extract_domains_from_hosts-print_all :
    (lines : List HostsLine)
    → all is_printable lines ≡ true
    → extract_domains_from_hosts (print_all lines) ≡ names_in lines
unfolding extract_domains_from_hosts
extract_domains_from_hosts-print_all [] h = refl
extract_domains_from_hosts-print_all (line ∷ lines) h =
    let here = and_left (is_printable line) (all is_printable lines) h in
    ap (λ x. from_lines from_line x)
      (lines_from-line (print line) (print_all lines) (print-no_break line here))
    ∙ ap (λ x. x ++ extract_domains_from_hosts (print_all lines)) (from_line-print line here)
    ∙ ap (λ x. names_of line.1 ++ x)
        (extract_domains_from_hosts-print_all lines
          (and_right (is_printable line) (all is_printable lines) h))
