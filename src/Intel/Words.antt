-- ===== src/Intel/Words.antt =====
-- Lines and words of a hosts file, and how the functions of aegorx/network/threat_feeds.py cut them apart.
use aegor_x.Prelude.{
  ℕ, ◌≡◌, refl, sym, ap, ◌∙◌, Bool, true, false, ◌&&◌, not, List, [], ◌∷◌, ◌++◌, select, all, arith,
  append-nil, ◌==◌, if◌then◌else◌,
}
use aegor_x.Dns.Domain.{Text, is_space}
use aegor_x.Dns.Filter.{is_empty}
use aegor_x.Hosts.{is_break, prepend}
use aegor_x.Intel.Extract.{lines_from, runs, begins, names_of}

-- An address with the names behind it.
abbrev pub HostsLine : Type 0
HostsLine = Text × List Text

abbrev pub print_names : List Text → Text
print_names [] = []
print_names (name ∷ names) = 32 ∷ (name ++ print_names names)

abbrev pub print : HostsLine → Text
print (ip, names) = ip ++ print_names names

abbrev pub print_all : List HostsLine → Text
print_all [] = []
print_all (line ∷ lines) = print line ++ (10 ∷ print_all lines)

-- A word: not empty, without a space or the end of a line.
abbrev pub in_word : ℕ → Bool
in_word c = not (is_space c) && not (is_break c)

abbrev pub is_word : Text → Bool
is_word s = not (is_empty s) && all in_word s

abbrev pub is_printable : HostsLine → Bool
is_printable (ip, names) = is_word ip && (not (begins b'#' ip) && all is_word names)

abbrev pub names_in : List HostsLine → List Text
names_in [] = []
names_in (line ∷ lines) = names_of line.1 ++ names_in lines

pub and_left : (a b : Bool) → a && b ≡ true → a ≡ true
and_left true b h = refl
and_left false b h = h

pub and_right : (a b : Bool) → a && b ≡ true → b ≡ true
and_right true b h = h
and_right false b h = absurd (ground (arith, h))

pub is_false : (a : Bool) → not a ≡ true → a ≡ false
is_false true h = sym h
is_false false h = refl

pub word-space : (c : ℕ) → in_word c ≡ true → is_space c ≡ false
word-space c h = is_false (is_space c) (and_left (not (is_space c)) (not (is_break c)) h)

pub word-break : (c : ℕ) → in_word c ≡ true → is_break c ≡ false
word-break c h = is_false (is_break c) (and_right (not (is_space c)) (not (is_break c)) h)

abbrev pub no_break : ℕ → Bool
no_break c = not (is_break c)

pub break-return : (c : ℕ) → is_break c ≡ false → (c == 13) ≡ false
break-return c h = ground (arith, h)

pub lines_from-line :
    (a b : Text) → all no_break a ≡ true → lines_from false (a ++ (10 ∷ b)) ≡ a ∷ lines_from false b
unfolding lines_from
lines_from-line [] b h = refl
lines_from-line (c ∷ a) b h =
    let k = is_false (is_break c) (and_left (no_break c) (all no_break a) h) in
    if_break c (c == 13) (a ++ (10 ∷ b)) k (break-return c k)
    ∙ ap (λ x. prepend c x) (lines_from-line a b (and_right (no_break c) (all no_break a) h))
  where
    if_break :
        (c : ℕ) (r : Bool) (s : Text)
        → is_break c ≡ false
        → r ≡ false
        → (if is_break c then [] ∷ lines_from r s else prepend c (lines_from r s))
          ≡ prepend c (lines_from false s)
    if_break c r s h k = rw (h, k) refl

pub if_space :
    (c : ℕ) (rest : List Text) (w : Text) (ws : List Text)
    → is_space c ≡ false
    → rest ≡ w ∷ ws
    → (if is_space c then [] ∷ rest else prepend c rest) ≡ (c ∷ w) ∷ ws
if_space c rest w ws h k = rw (h, k) refl

pub runs-word : (w : Text) → all in_word w ≡ true → runs w ≡ w ∷ []
unfolding runs
runs-word [] h = refl
runs-word (c ∷ w) h =
    if_space c (runs w) w [] (word-space c (and_left (in_word c) (all in_word w) h))
      (runs-word w (and_right (in_word c) (all in_word w) h))

pub runs-space : (w s : Text) → all in_word w ≡ true → runs (w ++ (32 ∷ s)) ≡ w ∷ runs s
unfolding runs
runs-space [] s h = refl
runs-space (c ∷ w) s h =
    if_space c (runs (w ++ (32 ∷ s))) w (runs s)
      (word-space c (and_left (in_word c) (all in_word w) h))
      (runs-space w s (and_right (in_word c) (all in_word w) h))

pub runs-print :
    (ip : Text) (names : List Text)
    → all in_word ip ≡ true
    → all is_word names ≡ true
    → runs (ip ++ print_names names) ≡ ip ∷ names
runs-print ip [] h k = ap (λ x. runs x) (append-nil ip) ∙ runs-word ip h
runs-print ip (name ∷ names) h k =
    runs-space ip (name ++ print_names names) h
    ∙ ap (λ x. ip ∷ x) (runs-print name names (ground arith) (ground arith))

pub all_words :
    (names : List Text) → all is_word names ≡ true → select (λ w. not (is_empty w)) names ≡ names
all_words [] h = refl
all_words (name ∷ names) h = ground (arith, all_words names)
