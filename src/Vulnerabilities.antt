-- ===== src/Vulnerabilities.antt =====
-- The scanner for vulnerable software (aegorx/vuln_scanner.py). The installed packages and the
-- clock are arguments; `Digits` has Python's `int`, and `lower` is `str.lower`.

pub mod Matched
pub mod Tallied
mod Tests
use aegor_x.Prelude.{
  ℕ, ◌+◌, String, String_discrete, Bool, true, false, ◌||◌, Option, none, some, List, [], ◌∷◌, ◌++◌,
  ◌==◌, length, lookup, insert, mem, add, discard, if◌then◌else◌,
}
use aegor_x.Updates.Versions.{Digits, codes, split, version_lt}

pub record VulnEntry : Type 0 where
  pub product : String
  pub vulnerable_below : String
  pub severity : String
  pub cve : String
  pub description : String
  pub advisory_url : String

pub record InstalledSoftware : Type 0 where
  pub name : String
  pub version : String

pub record VulnFinding : Type 0 where
  pub software : String
  pub installed_version : String
  pub fixed_version : String
  pub severity : String
  pub cve : String
  pub description : String
  pub advisory_url : String

-- What Python supplies.
pub record World : Type 0 where
  pub digits : Digits
  pub lower : String → String

abbrev pub is_separator : ℕ → Bool
is_separator c = (c == b'.') || (c == b'_') || (c == b'-') || (c == b'+')

-- The numbers before the first part that is none.
unfoldable pub numbers : Digits → List (List ℕ) → List ℕ
numbers d [] = []
numbers d (p ∷ ps) = let rest = numbers d ps in elim (d.int_of p) [ none ↦ [] | some n ↦ n ∷ rest ]

-- `_parse_version` and `_version_lt`.
abbrev pub parse_version : Digits → String → List ℕ
parse_version d v = numbers d (split is_separator (codes v))

abbrev pub before : List ℕ → List ℕ → Bool
before [] vb = false
before (a ∷ va) [] = false
before (a ∷ va) (b ∷ vb) = version_lt (a ∷ va) (b ∷ vb)

unfoldable pub is_lower : Digits → String → String → Bool
unfolding numbers
is_lower d a b = before (parse_version d a) (parse_version d b)

abbrev pub is_vulnerable : World → VulnEntry → String → Bool
is_vulnerable w e installed_version = is_lower w.digits installed_version e.vulnerable_below

abbrev pub Database : Type 0
Database = List (String × List VulnEntry)

-- `d.get(k, [])`.
abbrev pub entries_at : String → Database → List VulnEntry
entries_at k db = elim (lookup String_discrete k db) [ none ↦ [] | some es ↦ es ]

-- `db_by_product`, from what is there on.
unfoldable pub by_product : World → List VulnEntry → Database → Database
by_product w [] db = db
by_product w (e ∷ es) db =
    let k = w.lower e.product in
    by_product w es (insert String_discrete k (entries_at k db ++ e ∷ []) db)

abbrev pub Stats : Type 0
Stats = List (String × ℕ)

-- `stats.get(k, 0)`.
abbrev pub count : String → Stats → ℕ
count k stats = elim (lookup String_discrete k stats) [ none ↦ 0 | some n ↦ n ]

abbrev pub bump : String → Stats → Stats
bump k stats = insert String_discrete k (count k stats + 1) stats

-- The findings and the numbers of a scan so far.
pub record Tally : Type 0 where
  pub findings : List VulnFinding
  pub stats : Stats

abbrev pub finding_of : InstalledSoftware → VulnEntry → VulnFinding
finding_of pkg e = record {
  software = pkg.name;
  installed_version = pkg.version;
  fixed_version = e.vulnerable_below;
  severity = e.severity;
  cve = e.cve;
  description = e.description;
  advisory_url = e.advisory_url;
}

abbrev pub report : InstalledSoftware → VulnEntry → Tally → Tally
report pkg e t = record {
  findings = t.findings ++ finding_of pkg e ∷ [];
  stats = bump e.severity (bump "vulnerabilities_found" t.stats);
}

-- The loop over the entries of a package's product.
unfoldable pub check_entries : World → InstalledSoftware → List VulnEntry → Tally → Tally
check_entries w pkg [] t = t
check_entries w pkg (e ∷ es) t =
    check_entries w pkg es (if is_vulnerable w e pkg.version then report pkg e t else t)

-- The loop over the packages.
unfoldable pub check_packages :
    World → List String → Database → List InstalledSoftware → Tally → Tally
unfolding check_entries
check_packages w ignore db [] t = t
check_packages w ignore db (pkg ∷ pkgs) t =
    let k = w.lower pkg.name in
    check_packages w ignore db pkgs
      (if mem String_discrete k ignore then t else check_entries w pkg (entries_at k db) t)

-- `saved` is the file of the ignored names.
pub record VulnScanner : Type 0 where
  pub database : List VulnEntry
  pub ignore : List String
  pub saved : Option (List String)
  pub stats : Stats
  pub last_scan : Option ℕ

abbrev pub reset : ℕ → Stats → Stats
reset scanned stats = insert String_discrete "low" 0 (
    insert String_discrete "medium" 0 (
      insert String_discrete "high" 0 (
        insert String_discrete "critical" 0 (
          insert String_discrete "vulnerabilities_found" 0
            (insert String_discrete "software_scanned" scanned stats)))))

-- The names of the file, added to those that are given.
abbrev pub add_all : List String → List String → List String
add_all [] ignore = ignore
add_all (x ∷ xs) ignore = add_all xs (add String_discrete x ignore)

abbrev pub load_ignore : Option (List String) → List String → List String
load_ignore none ignore = ignore
load_ignore (some names) ignore = add_all names ignore

-- A scanner with a database that is not empty, on the file of ignored names.
abbrev pub new_scanner : List VulnEntry → List String → Option (List String) → VulnScanner
new_scanner database ignore saved = record {
  database = database;
  ignore = load_ignore saved ignore;
  saved = saved;
  stats = reset 0 [];
  last_scan = none;
}

unfoldable pub scan :
    World → ℕ → List InstalledSoftware → VulnScanner → VulnScanner × List VulnFinding
unfolding check_packages by_product
scan w now installed s =
    let t =
      check_packages w s.ignore (by_product w s.database []) installed
        (record { findings = []; stats = reset (length installed) s.stats }) in
    (record s { stats = t.stats; last_scan = some now }, t.findings)

abbrev pub with_ignore : List String → VulnScanner → VulnScanner
with_ignore ignore s = record s { ignore = ignore; saved = some ignore }

unfoldable pub add_ignore : World → String → VulnScanner → VulnScanner
add_ignore w software s = with_ignore (add String_discrete (w.lower software) s.ignore) s

unfoldable pub remove_ignore : World → String → VulnScanner → VulnScanner
remove_ignore w software s = with_ignore (discard String_discrete (w.lower software) s.ignore) s
