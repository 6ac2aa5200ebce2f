-- ===== src/Vulnerabilities/Tests.antt =====
-- A scan of three packages.
use aegor_x.Prelude.{
  ℕ, ◌+◌, ◌-◌, ◌*◌, ◌≡◌, refl, String, String_discrete, ◌&&◌, Option, none, some, List, [], ◌∷◌,
  ◌≐◌, leb, mem, add, discard, lookup, insert, if◌then◌else◌,
}
use aegor_x.Updates.Versions.{split, version_lt}
use aegor_x.Vulnerabilities.{
  VulnEntry, InstalledSoftware, VulnFinding, VulnScanner, World, numbers, is_lower, new_scanner,
  scan, add_ignore, remove_ignore, by_product, check_packages, check_entries,
}
use aegor_x.Vulnerabilities.Matched.{scan-expected}

abbrev value_of : ℕ → List ℕ → Option ℕ
value_of n [] = some n
value_of n (c ∷ s) =
    let rest = value_of (10 * n + (c - b'0')) s in if leb b'0' c && leb c b'9' then rest else none

abbrev world : World
world = record {
  digits = record {
    is_digit = λ c. leb b'0' c && leb c b'9';
    int_of = λ s. elim s [ [] ↦ none | c ∷ cs ↦ value_of 0 (c ∷ cs) ];
  };
  lower = λ s. if s ≐ "OpenSSH" then "openssh" else s;
}

abbrev entry_of : String → String → String → VulnEntry
entry_of product bound severity = record {
  product = product;
  vulnerable_below = bound;
  severity = severity;
  cve = "";
  description = "";
  advisory_url = "";
}

abbrev database : List VulnEntry
database =
    entry_of "openssh" "9.5" "high"
    ∷ entry_of "java" "8u391" "high"
    ∷ entry_of "openssl" "1.1.1w" "high"
    ∷ []

abbrev scanner : VulnScanner
scanner = new_scanner database [] none

abbrev installed : List InstalledSoftware
installed =
    record { name = "OpenSSH"; version = "9.4-1" }
    ∷ record { name = "java"; version = "8u100" }
    ∷ record { name = "openssl"; version = "1.1.1a" }
    ∷ []

abbrev found : VulnFinding
found = record {
  software = "OpenSSH";
  installed_version = "9.4-1";
  fixed_version = "9.5";
  severity = "high";
  cve = "";
  description = "";
  advisory_url = "";
}

scan-expected_example : (scan world 5 installed scanner).1 ≡ found ∷ []
unfolding is_lower numbers split version_lt mem String_discrete
scan-expected_example = scan-expected world 5 installed scanner

ignored : (scan world 5 installed (add_ignore world "OpenSSH" scanner)).1 ≡ []
unfolding scan check_packages by_product check_entries is_lower numbers split version_lt mem add
    add_ignore lookup insert String_discrete
ignored = refl

ignored_no_more : (remove_ignore world "openssh" (add_ignore world "OpenSSH" scanner)).ignore ≡ []
unfolding remove_ignore add_ignore mem add discard String_discrete
ignored_no_more = refl
