-- ===== src/Feeds/Rules.antt =====
-- The rules of a feed: `sanitize_rule_entries` of aegorx/signing/feed.py, and the store of aegorx/rules_store.py.
--
-- The directory is its files that end in .yar with their texts, the manifest what its file lists. `Compiler` is
-- the package yara: it may be missing. The staging directory and failures of single file operations are
-- left out.
use aegor_x.Prelude.{
  ℕ, ◌+◌, ◌*◌, String, String_discrete, Bool, true, false, ◌||◌, not, Option, none, some, List, [],
  ◌∷◌, map, length, min, ◌≐◌, ltb, lookup, insert, is_some, select, if◌then◌else◌,
}
use aegor_x.Json.{Json, Fields, get, fields_of, list_of, text_of}
use aegor_x.Feeds.{World, Outcome, ok, bad, bad_rules, str, severity_at}

pub record Rule : Type 0 where
  pub name : String
  pub source : String
  pub sha256 : String
  pub severity : ℕ

abbrev pub max_rules_per_feed : ℕ
max_rules_per_feed = 500

abbrev pub max_rule_source_bytes : ℕ
max_rule_source_bytes = 512 * 1024

-- str(entry.get(key, ""))
abbrev pub str_at : World → String → Fields → String
str_at w key rec = elim (get key rec) [ none ↦ "" | some j ↦ str w j ]

-- entry.get("source"), where it is a text that is not blank
abbrev pub source_of : World → Fields → Option String
source_of w rec = elim (get "source" rec) [
  | none ↦ none
  | some j ↦ elim (text_of j) [ none ↦ none | some s ↦ if w.strip s ≐ "" then none else some s ]
]

-- A published digest, if there is one, is that of the source.
abbrev pub agrees : World → String → String → Bool
agrees w published source = (published ≐ "") || (published ≐ w.digest source)

-- One round of the loop; `none` is a FeedError, whichever test fails first.
unfoldable pub rule_of : World → Json → Option Rule
rule_of w entry = elim (fields_of entry) [
  | none ↦ none
  | some rec ↦ elim (severity_at w 5 rec) [
    | none ↦ none
    | some severity ↦
        let name = w.strip (str_at w "name" rec) in
        if (name ≐ "") || ltb 128 (w.len name) then none else elim (source_of w rec) [
          | none ↦ none
          | some source ↦
              if ltb max_rule_source_bytes (w.size source)
              then none
              else if not (agrees w (w.lower (w.strip (str_at w "sha256" rec))) source)
              then none
              else some (record {
                name = name;
                source = source;
                sha256 = w.digest source;
                severity = min 10 severity;
              })
        ]
  ]
]

unfoldable pub rules_of : World → List Json → Option (List Rule)
unfolding rule_of
rules_of w [] = some []
rules_of w (x ∷ xs) =
    let rest = rules_of w xs in
    elim (rule_of w x) [
      | none ↦ none
      | some r ↦ elim rest [ none ↦ none | some rs ↦ some (r ∷ rs) ]
    ]

-- The length of the array, and its rules.
abbrev pub sanitize_list : World → List Json → Outcome (List Rule)
sanitize_list w xs =
    if ltb max_rules_per_feed (length xs)
    then bad bad_rules
    else elim (rules_of w xs) [ none ↦ bad bad_rules | some rs ↦ ok rs ]

-- `sanitize_rule_entries`, of what `doc.get("rules")` gives: None for a field that is missing or null
unfoldable pub sanitize_rule_entries : World → Option Json → Outcome (List Rule)
unfolding rules_of
sanitize_rule_entries w none = ok []
sanitize_rule_entries w (some Json.null) = ok []
sanitize_rule_entries w (some j) = elim (list_of j) [
  | none ↦ bad bad_rules
  | some xs ↦ sanitize_list w xs
]

pub record Listed : Type 0 where
  pub sha256 : String
  pub file : String
  pub severity : ℕ

pub record RuleStore : Type 0 where
  pub files : List (String × String)
  pub manifest : List (String × Listed)

-- `yara.compile` of the sources: a missing package, success, or an exception.
pub data Compiled : Type 0 where
  unavailable compiled failed : Compiled

pub record Compiler : Type 0 where
  pub compile : List String → Compiled
  pub file_of : String → String

abbrev pub max_total_rule_bytes : ℕ
max_total_rule_bytes = 8 * 1024 * 1024

abbrev pub total_bytes : World → List Rule → ℕ
total_bytes w [] = 0
total_bytes w (r ∷ rs) = w.size r.source + total_bytes w rs

-- Nothing is compiled where there is no source.
abbrev pub compiles : Compiler → List Rule → Bool
compiles y [] = true
compiles y (r ∷ rs) = elim (y.compile (map (λ x. x.source) (r ∷ rs))) [ failed ↦ false | _ ↦ true ]

-- `desired`: the rules by their file names, a later one in the place of an earlier one
abbrev pub desired_from : Compiler → List Rule → List (String × Rule) → List (String × Rule)
desired_from y [] d = d
desired_from y (r ∷ rs) d = desired_from y rs (insert String_discrete (y.file_of r.sha256) r d)

abbrev pub desired_of : Compiler → List Rule → List (String × Rule)
desired_of y rs = desired_from y rs []

-- The files that stay: those that are not stale.
abbrev pub keep : List (String × Rule) → List (String × String) → List (String × String)
keep d files = select (λ f. is_some (lookup String_discrete f.0 d)) files

-- os.replace of each staged file, whose names are distinct
abbrev pub replace_all : List (String × Rule) → List (String × String) → List (String × String)
replace_all [] files = files
replace_all ((f, r) ∷ d) files = insert String_discrete f r.source (replace_all d files)

abbrev pub manifest_from : List (String × Rule) → List (String × Listed) → List (String × Listed)
manifest_from [] m = m
manifest_from ((f, r) ∷ d) m = manifest_from d (
    insert String_discrete r.name (record { sha256 = r.sha256; file = f; severity = r.severity }) m)

pub record Summary : Type 0 where
  pub installed : ℕ
  pub removed : ℕ

abbrev pub stale_count : List (String × Rule) → List (String × String) → ℕ
stale_count d files = length (select (λ f. not (is_some (lookup String_discrete f.0 d))) files)

-- The part of `install_rules` that writes.
unfoldable pub sync : Compiler → List Rule → RuleStore → RuleStore × Summary
sync y rs s =
    let d = desired_of y rs in
    (
      record { files = replace_all d (keep d s.files); manifest = manifest_from d [] },
      record { installed = length d; removed = stale_count d s.files },
    )

-- `install_rules`; nothing is written where a test fails
unfoldable pub install_rules :
    World → Compiler → Option Json → RuleStore → RuleStore × Option Summary
unfolding sanitize_rule_entries sync
install_rules w y entries s = elim (sanitize_rule_entries w entries) [
  | ok rs ↦
      if ltb max_total_rule_bytes (total_bytes w rs)
      then (s, none)
      else if not (compiles y rs)
      then (s, none)
      else (let done = sync y rs s in (done.0, some done.1))
  | _ ↦ (s, none)
]

-- `clear_rules`
unfoldable pub clear_rules : RuleStore → RuleStore × ℕ
clear_rules s = (record { files = []; manifest = [] }, length s.files)
