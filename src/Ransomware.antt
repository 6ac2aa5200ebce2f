-- ===== src/Ransomware.antt =====
-- Ransomware detection (aegorx/ransomware.py): the detectors, the canary files, and the orchestrator.
-- The detectors stand in `Rate`, `Entropy` and `Canaries`; this file has the orchestrator over them.
--
-- Times are ticks of the clock, a number; entropies are doubles in [0, 8] bits, kept as multiples of
-- half a bit divided by 2 ^ 1073, which is exact. Callbacks and the background thread are left out.
pub mod Rate
pub mod Entropy
pub mod Canaries
pub mod Recent
pub mod Blind
pub mod Tampered
pub mod Log
mod Tests
use aegor_x.Prelude.{
  ℕ, suc, ◌+◌, ◌*◌, String, Bool, true, false, Option, none, some, List, [], ◌∷◌, ◌++◌, ltb, length,
  last, if◌then◌else◌,
}
use Rate.{Window, Renames, record_modification, record_rename}
use Entropy.{EntropyDetector, check_entropy}
use Canaries.{Canary, Files, Reason, check_all}

-- The details of an event, by what the text says.
pub data Details : Type 0 where
  canary_file : Reason → String → Details
  modification_rate : ℕ → Details
  entropy_spike : ℕ → ℕ → String → Details
  mass_rename : ℕ → Details
  ransom_note_found : String → Details

pub record RansomwareEvent : Type 0 where
  pub timestamp : ℕ
  pub detection_type : String
  pub severity : ℕ
  pub details : Details
  pub affected_files : List String

pub record Detector : Type 0 where
  pub velocity : Window
  pub entropy : EntropyDetector
  pub extensions : Renames
  pub canaries : List Canary
  pub log : List RansomwareEvent
  pub checks_performed : ℕ
  pub events_detected : ℕ

abbrev pub max_events : ℕ
max_events = 1000

-- `_record_event`
unfoldable pub record_event : Detector → RansomwareEvent → Detector
record_event d event =
    let events = d.log ++ event ∷ [] in
    record d {
      events_detected = d.events_detected + 1;
      log = if ltb max_events (length events) then last max_events events else events;
    }

abbrev rate_event : ℕ → ℕ → String → RansomwareEvent
rate_event now n path = record {
  timestamp = now;
  detection_type = "velocity";
  severity = 9;
  details = modification_rate n;
  affected_files = path ∷ [];
}

abbrev spike_event : ℕ → ℕ → ℕ → String → RansomwareEvent
spike_event now baseline current path = record {
  timestamp = now;
  detection_type = "entropy";
  severity = 8;
  details = entropy_spike baseline current path;
  affected_files = path ∷ [];
}

-- The second half of `on_file_modified`: the entropy of the file, which is asked only where the rate
-- raised no alarm.
unfoldable pub after_rate : Detector → ℕ → ℕ → String → Detector × Option RansomwareEvent
after_rate d now current path =
    let (e, spike) = check_entropy d.entropy path current in
    let d' : Detector = record d { entropy = e } in
    elim spike [
      | none ↦ (d', none)
      | some (baseline, level) ↦ (
        record_event d' (spike_event now baseline level path),
        some (spike_event now baseline level path),
      )
    ]

unfoldable pub on_file_modified : Detector → ℕ → ℕ → String → Detector × Option RansomwareEvent
on_file_modified d now current path =
    let (v, rate) = record_modification d.velocity now path in
    let d' : Detector = record d { velocity = v } in
    elim rate [
      | some n ↦ (record_event d' (rate_event now n path), some (rate_event now n path))
      | none ↦ after_rate d' now current path
    ]

abbrev rename_event : ℕ → ℕ → String → RansomwareEvent
rename_event now n path = record {
  timestamp = now;
  detection_type = "extension";
  severity = 9;
  details = mass_rename n;
  affected_files = path ∷ [];
}

-- `suspicious` is `is_ransomware_extension` of the new name.
unfoldable pub on_file_renamed : Detector → ℕ → Bool → String → Detector × Option RansomwareEvent
on_file_renamed d now suspicious new_path =
    let (x, count) = record_rename d.extensions now suspicious new_path in
    let d' : Detector = record d { extensions = x } in
    elim count [
      | none ↦ (d', none)
      | some n ↦ (record_event d' (rename_event now n new_path), some (rename_event now n new_path))
    ]

abbrev note_event : ℕ → String → String → RansomwareEvent
note_event now name path = record {
  timestamp = now;
  detection_type = "ransom_note";
  severity = 10;
  details = ransom_note_found name;
  affected_files = path ∷ [];
}

-- `is_note` is `is_ransom_note` of the file's name.
unfoldable pub on_new_file :
    Detector → ℕ → Bool → String → String → Detector × Option RansomwareEvent
on_new_file d now is_note name path =
    if is_note
    then (record_event d (note_event now name path), some (note_event now name path))
    else (d, none)

abbrev pub canary_event : ℕ → Canary × Reason → RansomwareEvent
canary_event now (c, reason) = record {
  timestamp = now;
  detection_type = "canary";
  severity = 10;
  details = canary_file reason c.path;
  affected_files = c.path ∷ [];
}

-- The loop of `check_canaries` over what `check_all` has found.
unfoldable pub report : Detector → ℕ → List (Canary × Reason) → Detector × List RansomwareEvent
report d now [] = (d, [])
report d now (m ∷ rest) =
    let (d', events) = report (record_event d (canary_event now m)) now rest in
    (d', canary_event now m ∷ events)

unfoldable pub check_canaries : Detector → ℕ → Files → Detector × List RansomwareEvent
check_canaries d now files =
    let (canaries', modified) = check_all now files d.canaries in
    report (record d { checks_performed = d.checks_performed + 1; canaries = canaries' }) now
      modified
