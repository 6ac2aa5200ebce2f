-- ===== src/Ransomware/Log.antt =====
-- The event log of aegorx/ransomware.py: its bound, its counter, and what the handlers write to it.
use aegor_x.Prelude.{
  ℕ, suc, ◌+◌, ◌≤◌, String, ◌≡◌, refl, Option, none, some, List, [], ◌∷◌, ◌++◌, length,
  length-last-le, length-append, arith, Option-cases, inl, inr, length-drop, ◌-◌, ap,
}
use aegor_x.Ransomware.Rate.{record_modification}
use aegor_x.Ransomware.Entropy.{check_entropy}
use aegor_x.Ransomware.Canaries.{Canary, Reason, Files, check_all}
use aegor_x.Ransomware.{
  Detector, RansomwareEvent, record_event, after_rate, on_file_modified, report, check_canaries,
  max_events, canary_event,
}

-- The log holds at most 1000 events, and no more than were ever counted.
pub record IsLog (d : Detector) : Type 0 where
  pub bounded : length d.log ≤ max_events
  pub counted : length d.log ≤ d.events_detected

record_event-IsLog :
    (d : Detector) (event : RansomwareEvent) → IsLog d → IsLog (record_event d event)
unfolding record_event
record_event-IsLog d event h = grind (
  arith,
  length-last-le max_events (d.log ++ event ∷ []),
  length-drop (length (d.log ++ event ∷ []) - max_events) (d.log ++ event ∷ []),
  length-append d.log (event ∷ []),
)

-- One more event is counted where an event is returned, none where not.
abbrev pub more : Option RansomwareEvent → ℕ
more none = 0
more (some _) = 1

record_event-counted :
    (d : Detector) (event : RansomwareEvent)
    → (record_event d event).events_detected ≡ d.events_detected + 1
unfolding record_event
record_event-counted d event = refl

-- A handler keeps the log's invariant, and counts the event that it returns.
abbrev pub Logs : Detector → Detector × Option RansomwareEvent → Type 0
Logs d out = IsLog out.0 × (out.0.events_detected ≡ d.events_detected + more out.1)

same_log :
    (d d' : Detector) → d'.log ≡ d.log → d'.events_detected ≡ d.events_detected → IsLog d → IsLog d'
same_log d d' e f h = ground arith

after_rate-Logs :
    (d : Detector) (now current : ℕ) (path : String)
    → IsLog d
    → Logs d (after_rate d now current path)
unfolding after_rate
after_rate-Logs d now current path h =
    let d' : Detector = record d { entropy = (check_entropy d.entropy path current).0 } in
    elim (Option-cases (check_entropy d.entropy path current).1) [
      | inl e ↦ rw (e, after_rate) (same_log d d' refl refl h, omega arith)
      | inr ((baseline, level), e) ↦
          rw (e, after_rate)
            (record_event-IsLog d' _ (same_log d d' refl refl h), record_event-counted d' _)
    ]

-- A modified file leaves the log within its bound, and adds to the count exactly where an event is
-- returned.
pub on_file_modified-Logs :
    (d : Detector) (now current : ℕ) (path : String)
    → IsLog d
    → Logs d (on_file_modified d now current path)
unfolding on_file_modified
on_file_modified-Logs d now current path h =
    let d' : Detector = record d { velocity = (record_modification d.velocity now path).0 } in
    elim (Option-cases (record_modification d.velocity now path).1) [
      | inl e ↦
          rw (e, on_file_modified) (after_rate-Logs d' now current path (same_log d d' refl refl h))
      | inr (n, e) ↦
          rw (e, on_file_modified)
            (record_event-IsLog d' _ (same_log d d' refl refl h), record_event-counted d' _)
    ]

report-Logs :
    (d : Detector) (now : ℕ) (found : List (Canary × Reason))
    → IsLog d
    → IsLog (report d now found).0
      × ((report d now found).0.events_detected ≡ d.events_detected + length found)
      × (length (report d now found).1 ≡ length found)
unfolding report
report-Logs d now [] h = (h, omega arith, refl)
report-Logs d now ((c, reason) ∷ rest) h =
    let event = canary_event now (c, reason) in
    let (kept, count, events) =
      report-Logs (record_event d event) now rest (record_event-IsLog d event h) in
    (kept, omega (arith, record_event-counted d event), ap suc events)

-- A check of the canaries returns one event for each that is tampered with, counts each of them, and
-- leaves the log within its bound.
pub check_canaries-Logs :
    (d : Detector) (now : ℕ) (files : Files)
    → IsLog d
    → IsLog (check_canaries d now files).0
      × ((check_canaries d now files).0.events_detected
          ≡ d.events_detected + length (check_all now files d.canaries).1)
      × (length (check_canaries d now files).1 ≡ length (check_all now files d.canaries).1)
unfolding check_canaries
check_canaries-Logs d now files h =
    let d' : Detector = record d {
      checks_performed = d.checks_performed + 1;
      canaries = (check_all now files d.canaries).0;
    } in
    report-Logs d' now (check_all now files d.canaries).1 (same_log d d' refl refl h)
