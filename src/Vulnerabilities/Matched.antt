-- ===== src/Vulnerabilities/Matched.antt =====
-- What a scan of aegorx/vuln_scanner.py finds.
use aegor_x.Prelude.{
  ℕ, ◌≡◌, refl, sym, ap, ◌∙◌, String, String_discrete, Bool, true, false, List, [], ◌∷◌, ◌++◌, ◌≐◌,
  map, select, arith, append-nil, append_assoc, lookup, insert, lookup-insert, mem, if◌then◌else◌,
}
use aegor_x.Vulnerabilities.{
  VulnEntry, InstalledSoftware, VulnFinding, VulnScanner, World, Database, Tally, entries_at,
  by_product, finding_of, report, is_vulnerable, check_entries, check_packages, scan,
}

-- The entries of the database for a product.
abbrev pub entries_for : World → String → List VulnEntry → List VulnEntry
entries_for w k es = select (λ e. w.lower e.product ≐ k) es

entries_at-insert :
    (k j : String) (es : List VulnEntry) (db : Database)
    → entries_at k (insert String_discrete j es db) ≡ (if j ≐ k then es else entries_at k db)
entries_at-insert k j es db = ground (arith, lookup-insert String_discrete k j es db)

append_entry :
    (j k : String) (e : VulnEntry) (rest : List VulnEntry) (db : Database)
    → (if j ≐ k then entries_at j db ++ e ∷ [] else entries_at k db) ++ rest
      ≡ entries_at k db ++ (if j ≐ k then e ∷ rest else rest)
append_entry j k e rest db = ground (arith, append_assoc (entries_at k db) (e ∷ []) rest)

pub entries_at-by_product :
    (w : World) (k : String) (es : List VulnEntry) (db : Database)
    → entries_at k (by_product w es db) ≡ entries_at k db ++ entries_for w k es
unfolding by_product
entries_at-by_product w k [] db = sym (append-nil _)
entries_at-by_product w k (e ∷ es) db =
    let j = w.lower e.product in
    entries_at-by_product w k es (insert String_discrete j (entries_at j db ++ e ∷ []) db)
    ∙ ap (λ x. x ++ entries_for w k es) (entries_at-insert k j (entries_at j db ++ e ∷ []) db)
    ∙ append_entry j k e (entries_for w k es) db

-- What is to be found of one package.
abbrev pub expected_of : World → VulnScanner → InstalledSoftware → List VulnFinding
expected_of w s pkg =
    if mem String_discrete (w.lower pkg.name) s.ignore
    then []
    else map (finding_of pkg)
        (select (λ e. is_vulnerable w e pkg.version) (entries_for w (w.lower pkg.name) s.database))

-- What is to be found of the packages, one after the other.
abbrev pub expected : World → VulnScanner → List InstalledSoftware → List VulnFinding
expected w s [] = []
expected w s (pkg ∷ pkgs) = expected_of w s pkg ++ expected w s pkgs

check_entries-findings :
    (w : World) (pkg : InstalledSoftware) (es : List VulnEntry) (t : Tally)
    → (check_entries w pkg es t).findings
      ≡ t.findings ++ map (finding_of pkg) (select (λ e. is_vulnerable w e pkg.version) es)
unfolding check_entries
check_entries-findings w pkg [] t = sym (append-nil _)
check_entries-findings w pkg (e ∷ es) t =
    this (is_vulnerable w e pkg.version) refl (check_entries-findings w pkg es)
  where
    this :
        (b : Bool)
        → is_vulnerable w e pkg.version ≡ b
        → ((t : Tally)
            → (check_entries w pkg es t).findings
              ≡ t.findings ++ map (finding_of pkg) (select (λ e. is_vulnerable w e pkg.version) es))
        → (check_entries w pkg (e ∷ es) t).findings
          ≡ t.findings
            ++ map (finding_of pkg) (select (λ e. is_vulnerable w e pkg.version) (e ∷ es))
    this true h rest =
        rw (check_entries, h)
          (rest (report pkg e t)
            ∙ append_assoc t.findings (finding_of pkg e ∷ [])
                (map (finding_of pkg) (select (λ e. is_vulnerable w e pkg.version) es)))
    this false h rest = rw (check_entries, h) (rest t)

check_one-findings :
    (w : World) (s : VulnScanner) (pkg : InstalledSoftware) (t : Tally)
    → (if mem String_discrete (w.lower pkg.name) s.ignore
        then t
        else check_entries w pkg
            (entries_at (w.lower pkg.name) (by_product w s.database []))
            t).findings
      ≡ t.findings ++ expected_of w s pkg
unfolding lookup
check_one-findings w s pkg t = this (mem String_discrete (w.lower pkg.name) s.ignore) refl
  where
    this :
        (b : Bool)
        → mem String_discrete (w.lower pkg.name) s.ignore ≡ b
        → (if b
            then t
            else check_entries w pkg
                (entries_at (w.lower pkg.name) (by_product w s.database []))
                t).findings
          ≡ t.findings
            ++ (if b
                then []
                else map (finding_of pkg) (
                    select
                      (λ e. is_vulnerable w e pkg.version)
                      (entries_for w (w.lower pkg.name) s.database)))
    this true h = sym (append-nil _)
    this false h =
        check_entries-findings w pkg (entries_at (w.lower pkg.name) (by_product w s.database [])) t
        ∙ ap
            (λ es.
              t.findings ++ map (finding_of pkg) (select (λ e. is_vulnerable w e pkg.version) es))
            (entries_at-by_product w (w.lower pkg.name) s.database [])

pub check_packages-findings :
    (w : World) (s : VulnScanner) (pkgs : List InstalledSoftware) (t : Tally)
    → (check_packages w s.ignore (by_product w s.database []) pkgs t).findings
      ≡ t.findings ++ expected w s pkgs
unfolding check_packages
check_packages-findings w s [] t = sym (append-nil _)
check_packages-findings w s (pkg ∷ pkgs) t =
    check_packages-findings w s pkgs _
    ∙ ap (λ x. x ++ expected w s pkgs) (check_one-findings w s pkg t)
    ∙ append_assoc t.findings (expected_of w s pkg) (expected w s pkgs)

-- A scan finds, for every package whose name is not ignored, the entries of its product that its
-- version is below, in the order of the packages and of the database.
pub scan-expected :
    (w : World) (now : ℕ) (installed : List InstalledSoftware) (s : VulnScanner)
    → (scan w now installed s).1 ≡ expected w s installed
unfolding scan
scan-expected w now installed s = check_packages-findings w s installed _
