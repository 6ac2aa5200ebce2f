-- ===== src/Intel/Spelled.antt =====
-- What `extract_domains_from_hosts` of aegorx/network/threat_feeds.py takes of a feed in ASCII: its names alone.
use aegor_x.Prelude.{
  ◌≡◌, refl, ap, ◌∙◌, Bool, true, false, ◌&&◌, not, List, [], ◌∷◌, ◌++◌, map, all, arith, mem,
}
use aegor_x.Dns.Domain.{Text, Text-discrete, strip}
use aegor_x.Dns.Filter.{is_empty}
use aegor_x.Intel.Extract.{lower, begins, is_kept, names_of, exceptions, extract_domains_from_hosts}
use aegor_x.Intel.Words.{print_all, is_word, is_printable, names_in, and_left, and_right}
use aegor_x.Intel.Printed.{both, extract_domains_from_hosts-print_all}
use aegor_x.Intel.Tokens.{
  spell, Token, written, is_visible, is_plain, is_plain_word, is_token, names_among, FeedLine,
  is_feed_line, to_line, names_of_feed, visible-all, spell-visible, spell-nonempty, strip-spell,
  strip-comment, name, excepted, comment,
}

kept_name :
    (s : Text)
    → is_plain_word s ≡ true
    → not (begins b'#' s) && not (mem Text-discrete s exceptions) ≡ true
    → is_kept s ≡ true
kept_name s h k = ground (arith, h, k)

dropped_name : (s : Text) → mem Text-discrete s exceptions ≡ true → is_kept s ≡ false
dropped_name s h = ground (arith, h)

-- One step of the selection, of a word that is `s` in the end.
select_one :
    (word s : Text) (rest : List Text)
    → strip (lower word) ≡ s
    → is_kept s ≡ true
    → names_of (word ∷ rest) ≡ s ∷ names_of rest
select_one word s rest e k = rw (e, k) refl

select_none :
    (word s : Text) (rest : List Text)
    → strip (lower word) ≡ s
    → is_kept s ≡ false
    → names_of (word ∷ rest) ≡ names_of rest
select_none word s rest e k = rw (e, k) refl

names_of-written :
    (tokens : List Token)
    → all is_token tokens ≡ true
    → names_of (map written tokens) ≡ names_among tokens
names_of-written [] h = refl
names_of-written (name mask s ∷ tokens) h =
    let here = and_left (is_token (name mask s)) (all is_token tokens) h in
    let fit = not (begins b'#' s) && not (mem Text-discrete s exceptions) in
    let plain = and_left (is_plain_word s) fit here in
    select_one (spell mask s) s (map written tokens) (strip-spell mask s plain)
      (kept_name s plain (and_right (is_plain_word s) fit here))
    ∙ ap (λ x. s ∷ x)
        (names_of-written tokens (and_right (is_token (name mask s)) (all is_token tokens) h))
names_of-written (excepted mask s ∷ tokens) h =
    let here = and_left (is_token (excepted mask s)) (all is_token tokens) h in
    let is_in = mem Text-discrete s exceptions in
    select_none (spell mask s) s (map written tokens)
      (strip-spell mask s (and_left (is_plain_word s) is_in here))
      (dropped_name s (and_right (is_plain_word s) is_in here))
    ∙ names_of-written tokens (and_right (is_token (excepted mask s)) (all is_token tokens) h)
names_of-written (comment s ∷ tokens) h =
    select_none (b'#' ∷ s) (b'#' ∷ lower s) (map written tokens)
      (strip-comment s (and_left (all is_visible s) (all is_token tokens) h)) (commented (lower s))
    ∙ names_of-written tokens (and_right (all is_visible s) (all is_token tokens) h)
  where
    commented : (t : Text) → is_kept (b'#' ∷ t) ≡ false
    commented t = ground arith

spell-is_word :
    (mask : List Bool) (s : Text) → is_plain_word s ≡ true → is_word (spell mask s) ≡ true
spell-is_word mask s h =
    both (ap (λ b. not b) (spell-nonempty mask s) ∙ and_left (not (is_empty s)) (all is_plain s) h)
      (visible-all (spell mask s)
        (spell-visible mask s (and_right (not (is_empty s)) (all is_plain s) h)))

written-is_word : (t : Token) → is_token t ≡ true → is_word (written t) ≡ true
written-is_word (name mask s) h =
    spell-is_word mask s
      (and_left (is_plain_word s) (not (begins b'#' s) && not (mem Text-discrete s exceptions)) h)
written-is_word (excepted mask s) h =
    spell-is_word mask s (and_left (is_plain_word s) (mem Text-discrete s exceptions) h)
written-is_word (comment s) h = visible-all (b'#' ∷ s) h

all_written :
    (tokens : List Token) → all is_token tokens ≡ true → all is_word (map written tokens) ≡ true
all_written [] h = refl
all_written (t ∷ tokens) h =
    both (written-is_word t (and_left (is_token t) (all is_token tokens) h))
      (all_written tokens (and_right (is_token t) (all is_token tokens) h))

to_line-is_printable :
    (line : FeedLine) → is_feed_line line ≡ true → is_printable (to_line line) ≡ true
to_line-is_printable (ip, tokens) h =
    let address =
      and_left (not (is_empty ip) && all is_visible ip)
        (not (begins b'#' ip) && all is_token tokens) h in
    let rest =
      and_right (not (is_empty ip) && all is_visible ip)
        (not (begins b'#' ip) && all is_token tokens) h in
    both
      (both (and_left (not (is_empty ip)) (all is_visible ip) address)
        (visible-all ip (and_right (not (is_empty ip)) (all is_visible ip) address)))
      (both (and_left (not (begins b'#' ip)) (all is_token tokens) rest)
        (all_written tokens (and_right (not (begins b'#' ip)) (all is_token tokens) rest)))

all_printable :
    (lines : List FeedLine)
    → all is_feed_line lines ≡ true
    → all is_printable (map to_line lines) ≡ true
all_printable [] h = refl
all_printable (line ∷ lines) h =
    both (to_line-is_printable line (and_left (is_feed_line line) (all is_feed_line lines) h))
      (all_printable lines (and_right (is_feed_line line) (all is_feed_line lines) h))

names_in-to_line :
    (lines : List FeedLine)
    → all is_feed_line lines ≡ true
    → names_in (map to_line lines) ≡ names_of_feed lines
names_in-to_line [] h = refl
names_in-to_line ((ip, tokens) ∷ lines) h =
    let here = and_left (is_feed_line (ip, tokens)) (all is_feed_line lines) h in
    let rest =
      and_right (not (is_empty ip) && all is_visible ip)
        (not (begins b'#' ip) && all is_token tokens) here in
    ap (λ x. x ++ names_in (map to_line lines))
      (names_of-written tokens (and_right (not (begins b'#' ip)) (all is_token tokens) rest))
    ∙ ap (λ x. names_among tokens ++ x)
        (names_in-to_line lines (and_right (is_feed_line (ip, tokens)) (all is_feed_line lines) h))

-- Of a hosts file in visible ASCII, whose lines are an address that does not begin by "#" and words behind
-- it, in any capitals, exactly the names are extracted: without capitals, in their order, each as often as
-- it stands there, and of the other words, those that are excepted in any capitals and those that begin by
-- "#", none.
pub extract_domains_from_hosts-to_line :
    (lines : List FeedLine)
    → all is_feed_line lines ≡ true
    → extract_domains_from_hosts (print_all (map to_line lines)) ≡ names_of_feed lines
extract_domains_from_hosts-to_line lines h =
    extract_domains_from_hosts-print_all (map to_line lines) (all_printable lines h)
    ∙ names_in-to_line lines h
