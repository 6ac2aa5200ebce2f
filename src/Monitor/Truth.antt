-- ===== src/Monitor/Truth.antt =====
-- What the records of the monitor's log say of its scans (aegorx/realtime/monitor.py).
use aegor_x.Prelude.{
  ℕ, ◌≡◌, ◌⊎◌, refl, inl, inr, String, Bool, true, false, List, [], ◌∷◌, ◌++◌, All, All-append,
  arith, Bool-cases, zero, suc, ◌+◌, ◌||◌, ◌≐◌, ltb,
}
use aegor_x.Engine.World.{FileScanResult, Verdict, clean, suspicious, malicious, error}
use aegor_x.Monitor.{
  FileEvent, Host, Scanned, Monitor, Record, result, raised, scan_found, scan_raised, scan_failed,
  queue_saturated, write_log, dispatch, log_result, scan_and_log, is_notable, bump, fails, scans,
  try_quarantine, after_scan, process_inner, process, decide, decide_open, new_monitor, submit,
  skips, excluded, last_scan,
}
use aegor_x.Monitor.Steps.{Step, Reach, here, next, arrives, works, opens}

-- The scan of an event and what it came to, in one step, and in one of all the steps.
abbrev pub ScansIn : {t u : Monitor} → Step t u → FileEvent → Scanned → Type 0
ScansIn (arrives h now e m) = λ f x. true ≡ false
ScansIn (works h now before after e m q) = λ f x. (f ≡ e) × (h.scan_file e.path ≡ x)
ScansIn (opens h now e m) = λ f x. (f ≡ e) × (h.scan_file e.path ≡ x)

abbrev pub Scans : {s t : Monitor} → Reach s t → FileEvent → Scanned → Type 0
Scans here = λ f x. true ≡ false
Scans (next r st) = λ f x. ScansIn st f x ⊎ Scans r f x

-- A record of a scan says what a scan of its event came to.
abbrev pub IsTrue : (FileEvent → Scanned → Type 0) → Record → Type 0
IsTrue H (scan_found now e r) = H e (result r)
IsTrue H (scan_raised now e detail) = H e (raised detail)
IsTrue H (scan_failed now e problem) =
    (r : FileScanResult) × H e (result r) × (r.verdict ≡ error) × (r.error ≡ problem)
IsTrue H (queue_saturated now path kind) = Unit

-- The log is as it was, or has one more record, which is true.
abbrev Grows : (FileEvent → Scanned → Type 0) → List Record → List Record → Type 0
Grows H old new = (new ≡ old) ⊎ ((r : Record) × IsTrue H r × (new ≡ old ++ r ∷ []))

write_log-Grows :
    (H : FileEvent → Scanned → Type 0) (r : Record) (m : Monitor)
    → IsTrue H r
    → Grows H m.log (write_log r m).log
unfolding write_log
write_log-Grows H r m h = elim (Bool-cases m.logging) [
  | inl e ↦ inr (r, h, rw (write_log, e) refl)
  | inr e ↦ inl (rw (write_log, e) refl)
]

module _ (h : Host) (now : ℕ) (e : FileEvent) where
  abbrev Scan : FileEvent → Scanned → Type 0
  Scan f x = (f ≡ e) × (h.scan_file e.path ≡ x)

  log_result-Grows :
      (r : FileScanResult) (m : Monitor)
      → h.scan_file e.path ≡ result r
      → (v : Verdict) → r.verdict ≡ v
      → Grows Scan m.log (log_result now e r m).0.log
  unfolding log_result
  log_result-Grows r m p error k =
      rw (log_result, k)
        (write_log-Grows Scan (scan_failed now e r.error) (bump fails m) (r, (refl, p), k, refl))
  log_result-Grows r m p malicious k =
      rw (log_result, k) (write_log-Grows Scan (scan_found now e r) (bump scans m) (refl, p))
  log_result-Grows r m p suspicious k =
      rw (log_result, k) (write_log-Grows Scan (scan_found now e r) (bump scans m) (refl, p))
  log_result-Grows r m p clean k = elim (Bool-cases (is_notable clean r.detections)) [
    | inl b ↦
        rw (log_result, k, b) (write_log-Grows Scan (scan_found now e r) (bump scans m) (refl, p))
    | inr b ↦ rw (log_result, k, b) (inl refl)
  ]

  scan_and_log-Grows : (m : Monitor) → Grows Scan m.log (scan_and_log h now e m).0.log
  unfolding scan_and_log
  scan_and_log-Grows m = this (h.scan_file e.path) refl
    where
      this :
          (x : Scanned) → h.scan_file e.path ≡ x → Grows Scan m.log (scan_and_log h now e m).0.log
      this (raised detail) p =
          rw (scan_and_log, p)
            (write_log-Grows Scan (scan_raised now e detail) (bump fails m) (refl, p))
      this (result r) p = rw (scan_and_log, p) (log_result-Grows r m p r.verdict refl)

  process-log : (m : Monitor) → (process h now e m).log ≡ (scan_and_log h now e m).0.log
  unfolding process process_inner after_scan try_quarantine
  process-log m = ground arith

  decide_open-log : (m : Monitor) → (decide_open h now e m).0.log ≡ (scan_and_log h now e m).0.log
  unfolding decide_open decide try_quarantine
  decide_open-log m = ground arith

  submit-Grows :
      (permits : ℕ) (m : Monitor) → Grows (λ f x. true ≡ false) m.log (submit h now e permits m).log
  submit-Grows zero m =
      write_log-Grows (λ f x. true ≡ false) (queue_saturated now (h.sanitize e.path) e.kind)
        (bump skips m) tt
  submit-Grows (suc n) m = inl refl

  dispatch-Grows : (m : Monitor) → Grows (λ f x. true ≡ false) m.log (dispatch h now e m).log
  unfolding dispatch
  dispatch-Grows m =
      elim (Bool-cases ((e.path ≐ "") || excluded h.fnmatch m.patterns (h.abspath e.path))) [
        | inl k ↦ rw (dispatch, k) (inl refl)
        | inr k ↦ elim (Bool-cases (h.is_file e.path)) [
          | inr f ↦ rw (dispatch, k, f) (inl refl)
          | inl f ↦ elim (Bool-cases (ltb now (last_scan e.path m + m.debounce_window))) [
            | inl l ↦ rw (dispatch, k, f, l) (inl refl)
            | inr l ↦ rw (dispatch, k, f, l) (submit-Grows m.permits _)
          ]
        ]
      ]

Step-Grows : {t u : Monitor} (st : Step t u) → Grows (ScansIn st) t.log u.log
Step-Grows (arrives h now e m) = dispatch-Grows h now e m
Step-Grows (works h now before after e m q) =
    rw (process-log h now e (record m { queue = before ++ after }))
      (scan_and_log-Grows h now e (record m { queue = before ++ after }))
Step-Grows (opens h now e m) = rw (decide_open-log h now e m) (scan_and_log-Grows h now e m)

IsTrue-mono :
    (H K : FileEvent → Scanned → Type 0)
    → ((f : FileEvent) (x : Scanned) → H f x → K f x)
    → (r : Record) → IsTrue H r
    → IsTrue K r
IsTrue-mono H K k (scan_found now e r) h = k e (result r) h
IsTrue-mono H K k (scan_raised now e detail) h = k e (raised detail) h
IsTrue-mono H K k (scan_failed now e problem) (r, h, v, p) = (r, k e (result r) h, v, p)
IsTrue-mono H K k (queue_saturated now path kind) h = tt

All-mono :
    (H K : FileEvent → Scanned → Type 0)
    → ((f : FileEvent) (x : Scanned) → H f x → K f x)
    → (rs : List Record) → All (IsTrue H) rs
    → All (IsTrue K) rs
All-mono H K k [] h = tt
All-mono H K k (r ∷ rs) (h, hs) = (IsTrue-mono H K k r h, All-mono H K k rs hs)

log-IsTrue : {s t : Monitor} → s.log ≡ [] → (r : Reach s t) → All (IsTrue (Scans r)) t.log
log-IsTrue {t = t} empty here = rw empty tt
log-IsTrue empty (next {t} {u} r st) =
    let old = All-mono (Scans r) (Scans (next r st)) (λ f x. inr) t.log (log-IsTrue empty r) in
    elim (Step-Grows st) [
      | inl e ↦ rw e old
      | inr (x, h, e) ↦ rw e (
          All-append (IsTrue (Scans (next r st))) t.log (x ∷ []) old
            (IsTrue-mono (ScansIn st) (Scans (next r st)) (λ f x. inl) x h, tt))
    ]

-- After any interleaving of events, finished work and opens, from the start on, every record of the log that
-- is about a scan names an event whose path was scanned in one of the steps, and says what that scan came
-- to: its result, the exception it raised, or the problem of a result with an error verdict.
pub new_monitor-IsTrue :
    (patterns : List String) (workers : ℕ) (quarantine logging : Bool) (m : Monitor)
    → (r : Reach (new_monitor patterns workers quarantine logging) m) → All (IsTrue (Scans r)) m.log
unfolding new_monitor
new_monitor-IsTrue patterns workers quarantine logging m r = log-IsTrue refl r
