-- ===== src/Monitor/Steps.antt =====
-- The monitor's steps in any order (aegorx/realtime/monitor.py), and what they keep: events arrive, workers of
-- the pool finish the events that were submitted, in an order of their own, and opens are decided.
use aegor_x.Prelude.{
  ℕ, ◌+◌, ◌≤◌, ◌≡◌, ◌≢◌, ◌↔◌, refl, String, Bool, true, false, if◌then◌else◌, some, List, [], ◌∷◌,
  ◌++◌, length, length-append, arith,
}
use aegor_x.Engine.World.{FileScanResult, Verdict, malicious, suspicious, error}
use aegor_x.Monitor.{
  FileEvent, Host, Scanned, Monitor, Record, scan_found, scan_raised, scan_failed, result, raised,
  write_log, dispatch, log_result, scan_and_log, try_quarantine, after_scan, process_inner, process,
  decide, decide_open, capacity, new_monitor,
}

-- A host answers each step anew.
pub data Step : Monitor → Monitor → Type 0 where
  arrives : (h : Host) (now : ℕ) (e : FileEvent) (m : Monitor) → Step m (dispatch h now e m)
  works :
      (h : Host) (now : ℕ) (before after : List FileEvent) (e : FileEvent) (m : Monitor)
      → m.queue ≡ before ++ e ∷ after
      → Step m (process h now e (record m { queue = before ++ after }))
  opens : (h : Host) (now : ℕ) (e : FileEvent) (m : Monitor) → Step m (decide_open h now e m).0

pub data Reach (s : Monitor) : Monitor → Type 0 where
  here : Reach s s
  next : {t u : Monitor} → Reach s t → Step t u → Reach s u

-- The kinds of records: of a scan that found a malicious or a suspicious file, and of one that failed.
abbrev pub is_verdict : Verdict → Record → Bool
is_verdict malicious (scan_found now e r) = elim r.verdict [ malicious ↦ true | _ ↦ false ]
is_verdict suspicious (scan_found now e r) = elim r.verdict [ suspicious ↦ true | _ ↦ false ]
is_verdict error (scan_raised now e detail) = true
is_verdict error (scan_failed now e problem) = true
is_verdict _ _ = false

abbrev pub count : (Record → Bool) → List Record → ℕ
count p [] = 0
count p (r ∷ rs) = (if p r then 1 else 0) + count p rs

count-snoc :
    (p : Record → Bool) (rs : List Record) (r : Record)
    → count p (rs ++ r ∷ []) ≡ count p rs + (if p r then 1 else 0)
count-snoc p [] r = omega arith
count-snoc p (x ∷ rs) r = omega (arith, count-snoc p rs r)

-- The permits account for the work that is not finished, the counters for one another, and the log for
-- the counters.
pub record IsSound (total : ℕ) (m : Monitor) : Type 0 where
  pub permits : m.permits + length m.queue ≡ total
  pub submitted : m.stats.skipped + length m.queue ≤ m.stats.received
  pub graded : m.stats.malicious + m.stats.suspicious ≤ m.stats.scanned
  pub quarantined : m.stats.quarantined ≤ m.stats.malicious
  pub malicious_logged : m.logging ≡ true → count (is_verdict malicious) m.log ≡ m.stats.malicious
  pub suspicious_logged :
      m.logging ≡ true → count (is_verdict suspicious) m.log ≡ m.stats.suspicious
  pub errors_logged : m.logging ≡ true → count (is_verdict error) m.log ≡ m.stats.errors

dispatch-IsSound :
    (total : ℕ) (h : Host) (now : ℕ) (e : FileEvent) (m : Monitor)
    → IsSound total m
    → IsSound total (dispatch h now e m)
unfolding dispatch write_log
dispatch-IsSound total h now e m v = grind (arith, length-append, count-snoc)

length-remove :
    (before after : List FileEvent) (e : FileEvent)
    → length (before ++ e ∷ after) ≡ length (before ++ after) + 1
length-remove [] after e = omega arith
length-remove (x ∷ before) after e = omega (arith, length-remove before after e)

process-IsSound :
    (total : ℕ) (h : Host) (now : ℕ) (before after : List FileEvent) (e : FileEvent) (m : Monitor)
    → m.queue ≡ before ++ e ∷ after
    → IsSound total m
    → IsSound total (process h now e (record m { queue = before ++ after }))
unfolding process process_inner scan_and_log log_result after_scan try_quarantine write_log
process-IsSound total h now before after e m q v =
    grind (arith, length-append, count-snoc, length-remove before after e)

decide_open-IsSound :
    (total : ℕ) (h : Host) (now : ℕ) (e : FileEvent) (m : Monitor)
    → IsSound total m
    → IsSound total (decide_open h now e m).0
unfolding decide_open decide scan_and_log log_result try_quarantine write_log
decide_open-IsSound total h now e m v = grind (arith, length-append, count-snoc)

Step-IsSound : (total : ℕ) {t u : Monitor} → Step t u → IsSound total t → IsSound total u
Step-IsSound total (arrives h now e m) v = dispatch-IsSound total h now e m v
Step-IsSound total (works h now before after e m q) v =
    process-IsSound total h now before after e m q v
Step-IsSound total (opens h now e m) v = decide_open-IsSound total h now e m v

Reach-IsSound : (total : ℕ) {s t : Monitor} → IsSound total s → Reach s t → IsSound total t
Reach-IsSound total v here = v
Reach-IsSound total v (next r st) = Step-IsSound total st (Reach-IsSound total v r)

-- After any interleaving of events, finished work and opens, from the start on: the permits and the work
-- that is not finished make up the permits of the start; skipped and unfinished events are together no more
-- than were received; malicious and suspicious ones no more than were scanned; quarantined ones no more
-- than were malicious; and, where there is a log, it has exactly as many records of scans with a malicious
-- verdict, with a suspicious one, and of scans that failed, as are counted of each.
pub new_monitor-IsSound :
    (patterns : List String) (workers : ℕ) (quarantine logging : Bool) (m : Monitor)
    → Reach (new_monitor patterns workers quarantine logging) m
    → IsSound (capacity workers) m
unfolding new_monitor
new_monitor-IsSound patterns workers quarantine logging m r =
    Reach-IsSound (capacity workers)
      (record {
        permits = omega arith;
        submitted = omega arith;
        graded = omega arith;
        quarantined = omega arith;
        malicious_logged = λ _. refl;
        suspicious_logged = λ _. refl;
        errors_logged = λ _. refl;
      })
      r

denied :
    (h : Host) (now : ℕ) (e : FileEvent) (m : Monitor) (r : FileScanResult)
    → h.scan_file e.path ≡ result r
    → r.verdict ≡ malicious
    → (decide_open h now e m).1 ≢ some true
unfolding decide_open decide scan_and_log log_result try_quarantine write_log
denied h now e m r p q = λ k. ground arith

allowed :
    (h : Host) (now : ℕ) (e : FileEvent) (m : Monitor) (s : Scanned)
    → h.scan_file e.path ≡ s
    → ((r : FileScanResult) → s ≡ result r → r.verdict ≢ malicious)
    → (decide_open h now e m).1 ≡ some true
unfolding decide_open decide scan_and_log log_result write_log
allowed h now e m (raised detail) p k = rw (p, decide_open, scan_and_log) refl
allowed h now e m (result r) p k =
    let good : r.verdict ≢ malicious = k r refl in rw (p, decide_open, scan_and_log) (ground arith)

-- An open is allowed exactly where the scan does not end malicious: also where it fails or raises.
pub decide_open-allows :
    (h : Host) (now : ℕ) (e : FileEvent) (m : Monitor)
    → ((decide_open h now e m).1 ≡ some true)
      ↔ ((r : FileScanResult) → h.scan_file e.path ≡ result r → r.verdict ≢ malicious)
decide_open-allows h now e m =
    (λ k r p q. denied h now e m r p q k, λ k. allowed h now e m (h.scan_file e.path) refl k)
