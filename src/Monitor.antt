-- ===== src/Monitor.antt =====
-- The real-time monitor (aegorx/realtime/monitor.py, `RealTimeMonitor`, and `PathFilter` and `FileEvent` of
-- aegorx/realtime/events.py): from an event of the kernel to a scan, the quarantine and the audit log.
--
-- A method is one step: its counters are only added to, and under a lock. `Host` is what a step asks of
-- the rest of the program and of the system: patterns, files, the engine's `scan_file` and the vault's
-- `quarantine`. The pool's work is the list of the events that were submitted and are not finished.
-- A time is in milliseconds. Printing, and the failure of a write to the log, are left out.
pub mod Steps
pub mod Truth
pub mod Dropped
mod Tests
use aegor_x.Prelude.{
  ℕ, suc, zero, ◌+◌, ◌*◌, max, String, String_discrete, Bool, true, false, ◌||◌, not, Option, none,
  some, List, [], ◌∷◌, ◌++◌, map, any, ◌≐◌, ltb, if◌then◌else◌, lookup, insert,
}
use aegor_x.Engine.World.{
  FileScanResult, Verdict, clean, suspicious, malicious, error, Detection, Problem,
}

pub record FileEvent : Type 0 where
  pub path : String
  pub kind : String
  pub pid : ℕ

-- `reason` of a quarantine: the names of the detections, or the verdict where there is none
pub data Reason : Type 0 where
  names : List String → Reason
  graded : Verdict → Reason

-- What `vault.quarantine` comes to: an entry with its id, an OSError, or another exception.
pub data Kept : Type 0 where
  kept : String → Kept
  refused : Kept
  crashed : Kept

-- What `engine.scan_file` comes to: a result, or an exception.
pub data Scanned : Type 0 where
  result : FileScanResult → Scanned
  raised : String → Scanned

pub record Host : Type 0 where
  pub fnmatch : String → String → Bool
  pub abspath : String → String
  pub is_file : String → Bool
  pub sanitize : String → String
  pub scan_file : String → Scanned
  pub quarantine : String → Reason → Kept

-- The records of the audit log.
pub data Record : Type 0 where
  queue_saturated : ℕ → String → String → Record
  scan_raised : ℕ → FileEvent → String → Record
  scan_failed : ℕ → FileEvent → Option Problem → Record
  scan_found : ℕ → FileEvent → FileScanResult → Record

pub record Stats : Type 0 where
  pub received : ℕ
  pub scanned : ℕ
  pub malicious : ℕ
  pub suspicious : ℕ
  pub quarantined : ℕ
  pub errors : ℕ
  pub skipped : ℕ

pub record Monitor : Type 0 where
  pub quarantine_enabled : Bool
  pub patterns : List String
  pub logging : Bool
  pub log : List Record
  pub stats : Stats
  pub debounce : List (String × ℕ)
  pub debounce_window : ℕ
  pub permits : ℕ
  pub queue : List FileEvent

-- `PathFilter.excluded`
unfoldable pub excluded : (String → String → Bool) → List String → String → Bool
excluded fnmatch patterns path = any (fnmatch path) patterns

-- The permits of `_inflight`.
unfoldable pub capacity : ℕ → ℕ
capacity workers = max 16 (workers * 4)

-- A monitor that starts; `quarantine` and whether there is a log path are the caller's.
unfoldable pub new_monitor : List String → ℕ → Bool → Bool → Monitor
unfolding capacity
new_monitor patterns workers quarantine logging = record {
  quarantine_enabled = quarantine;
  patterns = patterns;
  logging = logging;
  log = [];
  stats = record {
    received = 0;
    scanned = 0;
    malicious = 0;
    suspicious = 0;
    quarantined = 0;
    errors = 0;
    skipped = 0;
  };
  debounce = [];
  debounce_window = 500;
  permits = capacity workers;
  queue = [];
}

pub data Counter : Type 0 where
  receives scans detects suspects quarantines fails skips : Counter

-- `_bump`
abbrev pub bump_stats : Counter → Stats → Stats
bump_stats receives s = record s { received = s.received + 1 }
bump_stats scans s = record s { scanned = s.scanned + 1 }
bump_stats detects s = record s { malicious = s.malicious + 1 }
bump_stats suspects s = record s { suspicious = s.suspicious + 1 }
bump_stats quarantines s = record s { quarantined = s.quarantined + 1 }
bump_stats fails s = record s { errors = s.errors + 1 }
bump_stats skips s = record s { skipped = s.skipped + 1 }

abbrev pub bump : Counter → Monitor → Monitor
bump c m = record m { stats = bump_stats c m.stats }

-- `_log`
unfoldable pub write_log : Record → Monitor → Monitor
write_log r m = if m.logging then record m { log = m.log ++ r ∷ [] } else m

-- `self._debounce.get(path, 0)`
abbrev pub last_scan : String → Monitor → ℕ
last_scan path m = elim (lookup String_discrete path m.debounce) [ none ↦ 0 | some t ↦ t ]

-- The end of `_dispatch`: the event is submitted where a permit is left, and dropped where none is.
abbrev pub submit : Host → ℕ → FileEvent → ℕ → Monitor → Monitor
submit h now e zero m = write_log (queue_saturated now (h.sanitize e.path) e.kind) (bump skips m)
submit h now e (suc n) m = record m { permits = n; queue = m.queue ++ e ∷ [] }

-- `_dispatch`
unfoldable pub dispatch : Host → ℕ → FileEvent → Monitor → Monitor
unfolding excluded
dispatch h now e m =
    let m = bump receives m in
    if (e.path ≐ "") || excluded h.fnmatch m.patterns (h.abspath e.path)
    then bump skips m
    else if not (h.is_file e.path)
    then m
    else if ltb now (last_scan e.path m + m.debounce_window)
    then bump skips m
    else submit h now e m.permits
        (record m { debounce = insert String_discrete e.path now m.debounce })

-- record["verdict"] != "clean" or record["detections"]
abbrev pub is_notable : Verdict → List Detection → Bool
is_notable clean [] = false
is_notable _ _ = true

-- The end of `_scan_and_log`, by the verdict.
unfoldable pub log_result :
    ℕ → FileEvent → FileScanResult → Monitor → Monitor × Option FileScanResult
unfolding write_log
log_result now e r m = elim r.verdict [
  | error ↦ (write_log (scan_failed now e r.error) (bump fails m), none)
  | v ↦ (
    if is_notable v r.detections
        then write_log (scan_found now e r) (bump scans m)
        else bump scans m,
    some r,
  )
]

-- `_scan_and_log`
unfoldable pub scan_and_log : Host → ℕ → FileEvent → Monitor → Monitor × Option FileScanResult
unfolding log_result write_log
scan_and_log h now e m = elim (h.scan_file e.path) [
  | raised detail ↦ (write_log (scan_raised now e detail) (bump fails m), none)
  | result r ↦ log_result now e r m
]

abbrev pub reason_of : FileScanResult → Reason
reason_of r = elim r.detections [
  | [] ↦ graded r.verdict
  | d ∷ ds ↦ names (map (λ x. x.name) (d ∷ ds))
]

-- `_try_quarantine` of a malicious file, where it is enabled, and the counter; the answer is false where
-- an exception passes through.
unfoldable pub try_quarantine : Host → FileEvent → FileScanResult → Monitor → Monitor × Bool
try_quarantine h e r m =
    if m.quarantine_enabled
    then elim (h.quarantine e.path (reason_of r)) [
      | kept id ↦ (bump quarantines m, true)
      | refused ↦ (m, true)
      | crashed ↦ (m, false)
    ]
    else (m, true)

-- `_process_inner`, behind the scan; an exception ends the work of the pool on this event.
unfoldable pub after_scan : Host → FileEvent → Monitor → FileScanResult → Monitor
unfolding try_quarantine
after_scan h e m r = elim r.verdict [
  | malicious ↦ (try_quarantine h e r (bump detects m)).0
  | suspicious ↦ bump suspects m
  | _ ↦ m
]

unfoldable pub process_inner : Host → ℕ → FileEvent → Monitor → Monitor
unfolding scan_and_log after_scan
process_inner h now e m =
    let scanned = scan_and_log h now e m in
    elim scanned.1 [ none ↦ scanned.0 | some r ↦ after_scan h e scanned.0 r ]

-- `_process`, which releases the permit however the work ends
unfoldable pub process : Host → ℕ → FileEvent → Monitor → Monitor
unfolding process_inner
process h now e m = let m = process_inner h now e m in record m { permits = m.permits + 1 }

-- `_decide_open`, behind the scan: whether the open is allowed, `none` for an exception
unfoldable pub decide : Host → FileEvent → Monitor → FileScanResult → Monitor × Option Bool
unfolding try_quarantine
decide h e m r = elim r.verdict [
  | malicious ↦
      let done = try_quarantine h e r (bump detects m) in
      (done.0, if done.1 then some false else none)
  | suspicious ↦ (bump suspects m, some true)
  | _ ↦ (m, some true)
]

unfoldable pub decide_open : Host → ℕ → FileEvent → Monitor → Monitor × Option Bool
unfolding scan_and_log decide
decide_open h now e m =
    let scanned = scan_and_log h now e m in
    elim scanned.1 [ none ↦ (scanned.0, some true) | some r ↦ decide h e scanned.0 r ]
