-- ===== src/Intel/Extract.antt =====
-- The domains of a feed's document, as the functions of aegorx/network/threat_feeds.py extract them.
--
-- A document is taken as it is decoded. Of the characters beyond ASCII, none is a capital.
-- `is_ip` is whether `ipaddress.ip_address` takes a text, `is_special` whether the address is then for
-- many hosts, reserved or of the link; `hostname` is that of `urllib.parse.urlparse`, none also where
-- it raises.
use aegor_x.Prelude.{
  ℕ, String, Bool, false, ◌||◌, ◌&&◌, not, Option, none, some, List, [], ◌∷◌, ◌++◌, map, select,
  all, any, mem, length, leb, ltb, ◌==◌, ◌>>=◌, if◌then◌else◌,
}
use aegor_x.Dns.Domain.{Text, Text-discrete, is_space, to_lower, strip, split}
use aegor_x.Dns.Filter.{is_empty}
use aegor_x.Hosts.{is_break, prepend}
use aegor_x.Updates.Versions.{codes}
use aegor_x.Json.{Json, Fields, get, text_of, fields_of, list_of, is_true}

pub record Reader : Type 0 where
  pub is_ip : Text → Bool
  pub is_special : Text → Bool
  pub hostname : String → Option Text

-- str.lower
abbrev pub lower : Text → Text
lower s = map to_lower s

-- s.splitlines(), where `after` tells that the character before was `\r`.
unfoldable pub lines_from : Bool → Text → List Text
lines_from after [] = []
lines_from after (c ∷ s) =
    let rest = lines_from (c == 13) s in
    if after && (c == 10) then rest else if is_break c then [] ∷ rest else prepend c rest

abbrev pub splitlines : Text → List Text
splitlines s = lines_from false s

-- s.split(): the runs between spaces, without those that are empty.
unfoldable pub runs : Text → List Text
runs [] = [] ∷ []
runs (c ∷ s) = let rest = runs s in if is_space c then [] ∷ rest else prepend c rest

abbrev pub words : Text → List Text
words s = select (λ w. not (is_empty w)) (runs s)

-- s.startswith of one character.
abbrev pub begins : ℕ → Text → Bool
begins c [] = false
begins c (d ∷ s) = c == d

-- `_DOMAIN_RE_EXCEPTIONS`.
unfoldable pub exceptions : List Text
exceptions = map codes (
    "localhost" ∷ "localhost.localdomain" ∷ "broadcasthost" ∷ "ip6-localhost" ∷ "ip6-loopback"
    ∷ "ip6-localnet" ∷ "ip6-mcastprefix" ∷ "ip6-allnodes" ∷ "ip6-allrouters" ∷ "ip6-allhosts"
    ∷ "0.0.0.0" ∷ "255.255.255.255" ∷ "0" ∷ "127.0.0.1" ∷ "::1" ∷ "ff00::0" ∷ "ff02::1" ∷ "ff02::2"
    ∷ "ff02::3" ∷ [])

-- `extract_domains_from_hosts`.
abbrev pub is_kept : Text → Bool
is_kept d = not (is_empty d) && not (mem Text-discrete d exceptions) && not (begins b'#' d)

abbrev pub names_of : List Text → List Text
names_of names = select is_kept (map (λ n. strip (lower n)) names)

abbrev pub from_parts : List Text → List Text
from_parts [] = []
from_parts (ip ∷ names) = if begins b'#' ip then [] else names_of names

abbrev pub from_line : Text → List Text
from_line line =
    let s = strip line in if is_empty s || begins b'#' s then [] else from_parts (words s)

abbrev pub from_lines : (Text → List Text) → List Text → List Text
from_lines f [] = []
from_lines f (line ∷ lines) = f line ++ from_lines f lines

unfoldable pub extract_domains_from_hosts : Text → List Text
unfolding lines_from runs strip Text-discrete
extract_domains_from_hosts document = from_lines from_line (splitlines document)

-- `extract_domains_from_text`.
abbrev pub has : ℕ → Text → Bool
has c s = any (λ d. c == d) s

abbrev pub is_comment : Text → Bool
is_comment (c ∷ d ∷ s) = (c == b'#') || ((c == b'/') && (d == b'/'))
is_comment (c ∷ []) = c == b'#'
is_comment [] = false

abbrev pub from_text_line : Reader → Text → List Text
from_text_line r line =
    let s = strip line in
    if is_empty s || is_comment s || r.is_ip s || not (has b'.' s) || has 32 s
    then []
    else lower s ∷ []

unfoldable pub extract_domains_from_text : Reader → Text → List Text
unfolding lines_from strip
extract_domains_from_text r document = from_lines (from_text_line r) (splitlines document)

-- `_DOMAIN_RE`: labels between points, the last of letters alone; a line feed may follow.
abbrev pub is_letter : ℕ → Bool
is_letter c = (leb b'A' c && leb c b'Z') || (leb b'a' c && leb c b'z')

abbrev pub in_label : ℕ → Bool
in_label c = is_letter c || (leb b'0' c && leb c b'9') || (c == b'-')

abbrev pub is_label : Text → Bool
is_label l = all in_label l && ltb 0 (length l) && leb (length l) 63

abbrev pub is_top : Text → Bool
is_top l = all is_letter l && leb 2 (length l)

abbrev pub are_labels : List Text → Bool
are_labels [] = false
are_labels (l ∷ []) = is_top l
are_labels (l ∷ k ∷ ls) = is_label l && are_labels (k ∷ ls)

abbrev pub ends_dash : Text → Bool
ends_dash [] = false
ends_dash (c ∷ []) = c == b'-'
ends_dash (c ∷ d ∷ s) = ends_dash (d ∷ s)

abbrev pub without_feed : Text → Text
without_feed [] = []
without_feed (c ∷ []) = if c == 10 then [] else c ∷ []
without_feed (c ∷ d ∷ s) = c ∷ without_feed (d ∷ s)

abbrev pub matches_labels : List Text → Bool
matches_labels [] = false
matches_labels (l ∷ []) = false
matches_labels (l ∷ k ∷ ls) = not (begins b'-' l) && not (ends_dash l) && are_labels (l ∷ k ∷ ls)

abbrev pub matches : Text → Bool
matches host = matches_labels (split (without_feed host))

abbrev pub is_valid_domain : Reader → Text → Bool
is_valid_domain r host =
    if is_empty host || ltb 253 (length host)
    then false
    else if mem Text-discrete host (map codes ("localhost" ∷ "localhost.localdomain" ∷ []))
    then false
    else if r.is_ip host && r.is_special host
    then false
    else matches host

-- The host of an entry, none where the entry is no `dict`.
abbrev pub hosts_at : Reader → Fields → List Text
hosts_at r fs = elim (get "url" fs) [
  | none ↦ []
  | some j ↦ if not (is_true j) then [] else elim (text_of j) [
    | none ↦ []
    | some url ↦ elim (r.hostname url) [
      | none ↦ []
      | some host ↦ if is_valid_domain r host then lower host ∷ [] else []
    ]
  ]
]

abbrev pub from_entries : Reader → List Json → Option (List Text)
from_entries r [] = some []
from_entries r (entry ∷ entries) =
    let rest = from_entries r entries in
    elim (fields_of entry) [
      | none ↦ none
      | some fs ↦ elim rest [ none ↦ none | some ds ↦ some (hosts_at r fs ++ ds) ]
    ]

-- payload.get(key) or [], none where the loop over it raises.
abbrev pub entries_at : String → Fields → Option (List Json)
entries_at key fs = elim (get key fs) [
  | none ↦ some []
  | some j ↦ if is_true j then list_of j else some []
]

unfoldable pub extract_domains_from_urlhaus : Reader → Json → Option (List Text)
unfolding split Text-discrete
extract_domains_from_urlhaus r payload = do
  fs ← fields_of payload
  urls ← entries_at "urls" fs
  hosts ← from_entries r urls
  payloads ← entries_at "payloads" fs
  more ← from_entries r payloads
  some (hosts ++ more)
