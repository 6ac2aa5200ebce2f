-- ===== src/Feeds/Tests.antt =====
-- A run of `aegorx feed update` (aegorx/cli.py) with a key that signs every text by the text "sig".
use aegor_x.Prelude.{
  ℕ, ◌≤◌, ◌≡◌, refl, String, String_discrete, false, Option, none, some, List, [], ◌∷◌, ◌≐◌, length,
  arith, lookup, insert, if◌then◌else◌,
}
use aegor_x.Json.{
  Json, Fields, text, whole, array, object, end, field, item, nil, get, fields_of, list_of, text_of,
  is_true,
}
use aegor_x.Signatures.{Row, find, insert_or_ignore}
use aegor_x.Signatures
use aegor_x.Signatures.Laws.{IsTable, empty}
use aegor_x.Feeds.{
  World, verify_document, check_expiry, check_replay, record_applied, apply_feed, ok,
}
use aegor_x.Feeds.Rules.{
  Rule, Compiler, RuleStore, Summary, compiled, install_rules, sanitize_rule_entries, rules_of,
  rule_of, sync, desired_of, max_rules_per_feed, max_rule_source_bytes,
}
use aegor_x.Feeds.Update.{Machine, applied, update, examine}
use aegor_x.Feeds.Replayed.{IsClock, update-replayed}
use aegor_x.Feeds.Stored.{update-IsTable}
use aegor_x.Feeds.Synced.{source_in, install_rules-files}

abbrev clock : Json → Option ℕ
clock (whole n) = if is_true (whole n) then some n else none
clock _ = none

abbrev world : World
world = record {
  show = λ _. "";
  strip = λ s. s;
  lower = λ s. s;
  len = λ _. 1;
  size = λ _. 1;
  digest = λ s. s;
  parse_int = λ _. none;
  parse_utc = clock;
  canonical = λ _. "payload";
  decode = λ s. some s;
  trusted = record { fingerprint = "k1"; verify = λ sig payload. sig ≐ "sig" } ∷ [];
  database = record { normalize = λ s. s; trim = λ s. s };
}

abbrev compiler : Compiler
compiler = record { compile = λ _. compiled; file_of = λ s. s }

abbrev nothing : Machine
nothing = record { rows = []; last = none; rules = record { files = []; manifest = [] } }

abbrev rules : Json
rules =
    array (item (object (field "name" (text "r1") (field "source" (text "rule r1 {}") end))) nil)

abbrev entries : Json
entries = array (item (object (field "sha256" (text "00ff") (field "name" (text "worm") end))) nil)

abbrev document : Json
document = object (
    field "format" (text "aegorx-signature-feed") (
      field "feed_version" (whole 1) (
        field "generated_utc" (whole 50)
          (field "signatures" entries (field "rules" rules (field "signature" (text "sig") end))))))

abbrev updated : Machine
updated = (update world compiler 60 false false document nothing).0

abbrev summary : Summary
summary = record { installed = 1; removed = 0 }

updates :
    update world compiler 60 false false document nothing ≡ (updated, applied 1 (some summary))
unfolding update examine verify_document check_expiry check_replay record_applied apply_feed
    install_rules sanitize_rule_entries rules_of rule_of sync Signatures.add insert_or_ignore find
    lookup insert get fields_of list_of text_of is_true String_discrete
updates = refl

world-IsClock : IsClock world
unfolding is_true
world-IsClock (whole n) h = ground arith
world-IsClock Json.null h = refl
world-IsClock (Json.boolean b) h = refl
world-IsClock (Json.negative n) h = refl
world-IsClock (Json.float b n) h = refl
world-IsClock (text s) h = refl
world-IsClock (array xs) h = refl
world-IsClock (object fs) h = refl

abbrev fields : Fields
fields = field "format" (text "aegorx-signature-feed") (
    field "feed_version" (whole 1) (
      field "generated_utc" (whole 50)
        (field "signatures" entries (field "rules" rules (field "signature" (text "sig") end)))))

update-replayed_example : (update world compiler 70 false false document updated).0 ≡ updated
unfolding get fields_of is_true String_discrete
update-replayed_example =
    update-replayed world compiler 60 70 50 50 false false false document document fields fields
      nothing updated 1 summary world-IsClock refl refl updates refl refl (omega arith)

update-IsTable_example : IsTable updated.rows
update-IsTable_example = update-IsTable world compiler 60 false false document nothing empty

abbrev synced : RuleStore
synced =
    (install_rules world compiler (some rules)
      (record { files = ("old", "rule old {}") ∷ []; manifest = [] })).0

install_rules-files_example :
    (rs : List Rule) × (sanitize_rule_entries world (some rules) ≡ ok rs)
    × (length rs ≤ max_rules_per_feed)
    × ((f : String)
        → lookup String_discrete f synced.files
          ≡ source_in (lookup String_discrete f (desired_of compiler rs)))
    × ((f source : String)
        → lookup String_discrete f synced.files ≡ some source
        → (f ≡ source) × (1 ≤ max_rule_source_bytes))
unfolding install_rules sanitize_rule_entries rules_of rule_of sync lookup insert get fields_of
    list_of text_of is_true String_discrete
install_rules-files_example =
    install_rules-files world compiler (some rules)
      (record { files = ("old", "rule old {}") ∷ []; manifest = [] }) synced
      (record { installed = 1; removed = 1 }) refl
