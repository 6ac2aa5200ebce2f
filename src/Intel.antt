-- ===== src/Intel.antt =====
-- The feeds of threat intelligence (aegorx/network/threat_feeds.py): fetching them, and the update of
-- the DNS filter. The extraction of domains is Intel.Extract.
--
-- `urlopen` opens a URL, none where it raises, and gives what `read` of some number returns; `loads` is
-- `json.loads`, and `decode` that of UTF-8 with replacements. `can_save` tells whether the file with the
-- time of the update can be written.
pub mod Extract
pub mod Words
pub mod Printed
pub mod Tokens
pub mod Spelled
mod Tests
use package.text.Mathlib.Text.{starts_with}
use aegor_x.Prelude.{
  ℕ, ◌+◌, ◌*◌, String, String_discrete, Bool, Option, none, some, List, [], ◌∷◌, ◌++◌, length, ltb,
  ◌≐◌, mem, take, insert, ◌>>=◌, if◌then◌else◌,
}
use aegor_x.Dns.Domain.{Text, Text-discrete}
use aegor_x.Dns.Filter.{Filter, import_blocklist}
use aegor_x.Json.{Json}
use aegor_x.Intel.Extract.{
  Reader, extract_domains_from_hosts, extract_domains_from_text, extract_domains_from_urlhaus,
}

pub record Net : Type 0 where
  pub reader : Reader
  pub lower : String → String
  pub urlopen : String → Option (ℕ → List ℕ)
  pub loads : List ℕ → Option Json
  pub decode : List ℕ → Text
  pub can_save : Bool

unfoldable pub max_feed_size : ℕ
max_feed_size = 64 * 1024 * 1024

-- `_https_get`, none where it raises.
unfoldable pub https_get : Net → String → Option (List ℕ)
https_get w url =
    if starts_with (w.lower url) "https://"
    then elim (w.urlopen url) [
      | none ↦ none
      | some read ↦
          let content = read (max_feed_size + 1) in
          if ltb max_feed_size (length content) then none else some content
    ]
    else none

-- The domains of one URL of URLhaus, none where an exception skips it.
abbrev pub from_url : Net → String → Option (List Text)
from_url w url = do
  content ← https_get w url
  payload ← w.loads content
  extract_domains_from_urlhaus w.reader payload

abbrev pub from_urls : Net → List String → List Text
from_urls w [] = []
from_urls w (url ∷ urls) =
    let rest = from_urls w urls in elim (from_url w url) [ none ↦ rest | some ds ↦ ds ++ rest ]

-- list(dict.fromkeys(xs)), with the keys before them.
abbrev pub from_keys : List Text → List Text → List Text
from_keys ks [] = ks
from_keys ks (x ∷ xs) = from_keys (if mem Text-discrete x ks then ks else ks ++ x ∷ []) xs

abbrev pub dedupe : List Text → List Text
dedupe xs = from_keys [] xs

abbrev pub urlhaus_urls : List String
urlhaus_urls =
    "https://urlhaus-api.abuse.ch/v1/payloads/recent/"
    ∷ "https://urlhaus-api.abuse.ch/v1/urls/recent/" ∷ []

unfoldable pub fetch_urlhaus_domains : Net → List Text × ℕ
unfolding https_get extract_domains_from_urlhaus Text-discrete
fetch_urlhaus_domains w =
    let deduped = dedupe (from_urls w urlhaus_urls) in (take 5000 deduped, length deduped)

abbrev counted : List Text → List Text × ℕ
counted ds = (ds, length ds)

unfoldable pub fetch_stevenblack_hosts : Net → Option (List Text × ℕ)
unfolding https_get
fetch_stevenblack_hosts w = do
  content ← https_get w "https://raw.githubusercontent.com/StevenBlack/hosts/master/hosts"
  some (counted (extract_domains_from_hosts (w.decode content)))

unfoldable pub fetch_phishing_army : Net → Option (List Text × ℕ)
unfolding https_get
fetch_phishing_army w = do
  content ← https_get w "https://phishing.army/download/phishing_army_blocklist.txt"
  some (counted (extract_domains_from_text w.reader (w.decode content)))

-- An exception makes no domains of it.
unfoldable pub fetch_malwaredomainlist : Net → List Text × ℕ
unfolding https_get
fetch_malwaredomainlist w =
    elim (https_get w "https://www.malwaredomainlist.com/hostslist/hosts.txt") [
      | none ↦ ([], 0)
      | some content ↦ counted (extract_domains_from_hosts (w.decode content))
    ]

-- What a source ends with: its number of domains, or that it is not known, or an exception.
pub data Outcome : Type 0 where
  fetched : ℕ → Outcome
  skipped failed : Outcome

abbrev found : List Text × ℕ → List Text × Outcome
found (ds, n) = (ds, fetched n)

abbrev found_or : Option (List Text × ℕ) → List Text × Outcome
found_or none = ([], failed)
found_or (some answer) = found answer

-- The body of the loop over the sources.
unfoldable pub fetch : Net → String → List Text × Outcome
fetch w source =
    if source ≐ "urlhaus"
    then found (fetch_urlhaus_domains w)
    else if source ≐ "stevenblack"
    then found_or (fetch_stevenblack_hosts w)
    else if source ≐ "phishingarmy"
    then found_or (fetch_phishing_army w)
    else if source ≐ "malwaredomainlist"
    then found (fetch_malwaredomainlist w)
    else ([], skipped)

abbrev pub Results : Type 0
Results = List (String × Outcome)

unfoldable pub all_domains : Net → List String → List Text
unfolding fetch
all_domains w [] = []
all_domains w (source ∷ sources) = (fetch w source).0 ++ all_domains w sources

abbrev pub outcomes : Net → List String → Results → Results
outcomes w [] rs = rs
outcomes w (source ∷ sources) rs =
    outcomes w sources (insert String_discrete source (fetch w source).1 rs)

-- What the update returns and stores: the outcomes, and of the domains how many were fetched and added.
pub record Summary : Type 0 where
  pub results : Results
  pub total : Option (ℕ × ℕ)

abbrev pub import_all : List Text → Filter → Filter × Option (ℕ × ℕ)
import_all [] f = (f, none)
import_all (d ∷ ds) f =
    let (f', added) = import_blocklist f (dedupe (d ∷ ds)) in (f', some (length (d ∷ ds), added))

-- `update_threat_intel`; its summary is none where the file cannot be written, which raises. No source
-- adds addresses for the connection monitor.
unfoldable pub update_threat_intel : Net → List String → Filter → Filter × Option Summary
unfolding fetch all_domains import_blocklist
update_threat_intel w sources f =
    let (f', total) = import_all (all_domains w sources) f in
    let summary : Summary = record { results = outcomes w sources []; total = total } in
    (f', if w.can_save then some summary else none)

abbrev pub default_sources : List String
default_sources = "urlhaus" ∷ "stevenblack" ∷ "phishingarmy" ∷ []
