-- ===== src/Vulnerabilities/Tallied.antt =====
-- What a scan of aegorx/vuln_scanner.py counts.
use aegor_x.Prelude.{
  ℕ, ◌+◌, ◌≡◌, refl, sym, ap, ◌∙◌, String, String_discrete, Bool, true, false, List, [], ◌∷◌, ◌++◌,
  ◌≐◌, map, select, arith, insert, if_neg, lookup, lookup-insert, mem, length, if◌then◌else◌,
}
use aegor_x.Vulnerabilities.{
  VulnEntry, InstalledSoftware, VulnFinding, VulnScanner, World, Stats, Tally, entries_at,
  by_product, count, bump, finding_of, report, is_vulnerable, check_entries, check_packages, reset,
  scan,
}
use aegor_x.Vulnerabilities.Matched.{
  entries_for, entries_at-by_product, expected_of, expected, scan-expected,
}

abbrev pub one : Bool → ℕ
one true = 1
one false = 0

-- What findings add to the number under a key.
abbrev weight : String → List VulnFinding → ℕ
weight k [] = 0
weight k (f ∷ fs) = one ("vulnerabilities_found" ≐ k) + one (f.severity ≐ k) + weight k fs

zero_add : (n : ℕ) → 0 + n ≡ n
zero_add n = omega arith

weight-append :
    (k : String) (fs gs : List VulnFinding) → weight k (fs ++ gs) ≡ weight k fs + weight k gs
weight-append k [] gs = omega arith
weight-append k (f ∷ fs) gs = omega (arith, weight-append k fs gs)

count-bump : (k j : String) (stats : Stats) → count k (bump j stats) ≡ count k stats + one (j ≐ k)
count-bump k j stats = ground (arith, lookup-insert String_discrete k j (count j stats + 1) stats)

check_entries-count :
    (w : World) (pkg : InstalledSoftware) (k : String) (es : List VulnEntry) (t : Tally)
    → count k (check_entries w pkg es t).stats
      ≡ count k t.stats
        + weight k (map (finding_of pkg) (select (λ e. is_vulnerable w e pkg.version) es))
unfolding check_entries
check_entries-count w pkg k [] t = omega arith
check_entries-count w pkg k (e ∷ es) t =
    this (is_vulnerable w e pkg.version) refl (check_entries-count w pkg k es)
  where
    this :
        (b : Bool)
        → is_vulnerable w e pkg.version ≡ b
        → ((t : Tally)
            → count k (check_entries w pkg es t).stats
              ≡ count k t.stats
                + weight k (map (finding_of pkg) (select (λ e. is_vulnerable w e pkg.version) es)))
        → count k (check_entries w pkg (e ∷ es) t).stats
          ≡ count k t.stats
            + weight k (map (finding_of pkg) (select (λ e. is_vulnerable w e pkg.version) (e ∷ es)))
    this true h rest =
        let counted : count k (report pkg e t).stats
            ≡ count k t.stats + one ("vulnerabilities_found" ≐ k) + one (e.severity ≐ k) =
          count-bump k e.severity (bump "vulnerabilities_found" t.stats)
          ∙ ap (λ n. n + one (e.severity ≐ k)) (count-bump k "vulnerabilities_found" t.stats) in
        rw (check_entries, h) (omega (arith, rest (report pkg e t), counted))
    this false h rest = rw (check_entries, h) (rest t)

check_one-count :
    (w : World) (s : VulnScanner) (k : String) (pkg : InstalledSoftware) (t : Tally)
    → count k
        (if mem String_discrete (w.lower pkg.name) s.ignore
          then t
          else check_entries w pkg
              (entries_at (w.lower pkg.name) (by_product w s.database []))
              t).stats
      ≡ count k t.stats + weight k (expected_of w s pkg)
unfolding lookup
check_one-count w s k pkg t = this (mem String_discrete (w.lower pkg.name) s.ignore) refl
  where
    this :
        (b : Bool)
        → mem String_discrete (w.lower pkg.name) s.ignore ≡ b
        → count k
            (if b
              then t
              else check_entries w pkg
                  (entries_at (w.lower pkg.name) (by_product w s.database []))
                  t).stats
          ≡ count k t.stats
            + weight k (
                if b
                then []
                else map (finding_of pkg) (
                    select
                      (λ e. is_vulnerable w e pkg.version)
                      (entries_for w (w.lower pkg.name) s.database)))
    this true h = omega arith
    this false h =
        check_entries-count w pkg k (entries_at (w.lower pkg.name) (by_product w s.database [])) t
        ∙ ap
            (λ es.
              count k t.stats
              + weight k (map (finding_of pkg) (select (λ e. is_vulnerable w e pkg.version) es)))
            (entries_at-by_product w (w.lower pkg.name) s.database [])

check_packages-count :
    (w : World) (s : VulnScanner) (k : String) (pkgs : List InstalledSoftware) (t : Tally)
    → count k (check_packages w s.ignore (by_product w s.database []) pkgs t).stats
      ≡ count k t.stats + weight k (expected w s pkgs)
unfolding check_packages
check_packages-count w s k [] t = omega arith
check_packages-count w s k (pkg ∷ pkgs) t = omega (
  arith,
  check_packages-count w s k pkgs _,
  check_one-count w s k pkg t,
  weight-append k (expected_of w s pkg) (expected w s pkgs),
)

abbrev pub grades : List String
grades = "critical" ∷ "high" ∷ "medium" ∷ "low" ∷ []

count-insert :
    (k j : String) (n : ℕ) (stats : Stats)
    → count k (insert String_discrete j n stats) ≡ (if j ≐ k then n else count k stats)
count-insert k j n stats = ground (arith, lookup-insert String_discrete k j n stats)

reset-zero :
    (k : String) (n : ℕ) (stats : Stats)
    → mem String_discrete k grades ≡ true
    → count k (reset n stats) ≡ 0
unfolding mem
reset-zero k n stats h = simp (reset, count-insert) (ground arith)

weight-select :
    (k : String) (fs : List VulnFinding)
    → ("vulnerabilities_found" ≐ k) ≡ false
    → weight k fs ≡ length (select (λ f. f.severity ≐ k) fs)
weight-select k [] h = refl
weight-select k (f ∷ fs) h = ground (arith, weight-select k fs h)

grade_apart :
    (k : String) → mem String_discrete k grades ≡ true → ("vulnerabilities_found" ≐ k) ≡ false
unfolding mem String_discrete
grade_apart k h = elim (String_discrete "vulnerabilities_found" k) [
  | yes p ↦ absurd (ground (arith, (rw (sym p) at h)))
  | no n ↦ if_neg (String_discrete "vulnerabilities_found" k) n _ _
]

-- A scan counts under critical, high, medium and low the findings of that severity, whatever was
-- counted before.
pub scan-grades :
    (w : World) (now : ℕ) (installed : List InstalledSoftware) (s : VulnScanner) (k : String)
    → mem String_discrete k grades ≡ true
    → count k (scan w now installed s).0.stats
      ≡ length (select (λ f. f.severity ≐ k) (scan w now installed s).1)
unfolding scan
scan-grades w now installed s k h =
    check_packages-count w s k installed _
    ∙ ap (λ n. n + weight k (expected w s installed)) (reset-zero k (length installed) s.stats h)
    ∙ zero_add _
    ∙ weight-select k (expected w s installed) (grade_apart k h)
    ∙ ap (λ fs. length (select (λ f. f.severity ≐ k) fs)) (sym (scan-expected w now installed s))
