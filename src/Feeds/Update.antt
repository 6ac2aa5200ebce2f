-- ===== src/Feeds/Update.antt =====
-- The command `aegorx feed update` (aegorx/cli.py, `cmd_feed`), over the document that was loaded or fetched.
use aegor_x.Prelude.{ℕ, Bool, Option, none, some, List, if◌then◌else◌}
use aegor_x.Json.{Json, Fields, get, fields_of}
use aegor_x.Signatures.{Row}
use aegor_x.Feeds.{
  World, Outcome, ok, bad, crash, ◌>>=◌, Problem, verify_document, check_expiry, check_replay,
  record_applied, apply_feed,
}
use aegor_x.Feeds.Rules.{Compiler, RuleStore, Summary, install_rules}

-- What the command changes: the database, the time of the last feed that was applied, and the rules.
pub record Machine : Type 0 where
  pub rows : List Row
  pub last : Option Json
  pub rules : RuleStore

-- How the command ends: with its summary, without a change as the feed is not newer, with a FeedError, or in an
-- exception that it does not catch.
pub data Ending : Type 0 where
  applied : ℕ → Option Summary → Ending
  not_newer : Ending
  refused : Problem → Ending
  crashed : Ending

-- record_applied, behind the installation of the rules
abbrev pub recorded : World → Fields → ℕ → Summary → Machine → Machine × Ending
recorded w fs added summary m = elim (record_applied w fs m.last) [
  | ok last ↦ (record m { last = last }, applied added (some summary))
  | bad p ↦ (m, refused p)
  | crash ↦ (m, crashed)
]

-- Behind the signatures: the rules, whose failure is a warning.
abbrev pub with_rules : World → Compiler → Fields → ℕ → Machine → Machine × Ending
with_rules w y fs added m =
    let done = install_rules w y (get "rules" fs) m.rules in
    let m = record m { rules = done.0 } in
    elim done.1 [ none ↦ (m, applied added none) | some summary ↦ recorded w fs added summary m ]

-- Behind the tests.
abbrev pub apply_document : World → Compiler → ℕ → Fields → Machine → Machine × Ending
apply_document w y now fs m =
    let done = apply_feed w now fs m.rows in
    let m = record m { rows = done.0 } in
    elim done.1 [
      | ok added ↦ with_rules w y fs added m
      | bad p ↦ (m, refused p)
      | crash ↦ (m, crashed)
    ]

-- The tests on a document: whether it is to be applied.
unfoldable pub examine : World → ℕ → Bool → Bool → Json → Option Json → Outcome (Option Fields)
examine w now allow_expired force doc last = verify_document w doc >>= λ fingerprint.
    elim (fields_of doc) [
      | none ↦ ok none
      | some fs ↦ check_expiry w now allow_expired fs >>= λ _.
          check_replay w force fs last >>= λ newer. ok (if newer then some fs else none)
    ]

unfoldable pub update : World → Compiler → ℕ → Bool → Bool → Json → Machine → Machine × Ending
unfolding examine
update w y now allow_expired force doc m = elim (examine w now allow_expired force doc m.last) [
  | ok none ↦ (m, not_newer)
  | ok (some fs) ↦ apply_document w y now fs m
  | bad p ↦ (m, refused p)
  | crash ↦ (m, crashed)
]
