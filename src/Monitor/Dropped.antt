-- ===== src/Monitor/Dropped.antt =====
-- The debounce of aegorx/realtime/monitor.py, `_dispatch`: a path is not scanned again within the window, and an
-- event that was dropped counts as a scan.
use aegor_x.Prelude.{
  ℕ, ◌+◌, ◌≤◌, ◌<◌, ◌≡◌, refl, true, false, ◌||◌, String_discrete, arith, ◌≐◌, lt→ltb, ltb, insert,
  lookup-insert, Bool-cases, inl, inr,
}
use aegor_x.Monitor.{
  FileEvent, Host, Monitor, Record, queue_saturated, receives, skips, bump, submit, dispatch,
  last_scan, excluded, write_log,
}

-- An event that `_dispatch` takes up: its path is watched, a file, and was not scanned within the window.
pub record IsFresh (h : Host) (now : ℕ) (e : FileEvent) (m : Monitor) : Type 0 where
  pub named : (e.path ≐ "") ≡ false
  pub watched : excluded h.fnmatch m.patterns (h.abspath e.path) ≡ false
  pub exists : h.is_file e.path ≡ true
  pub late : last_scan e.path m + m.debounce_window ≤ now

-- Behind the guards.
abbrev marked : ℕ → FileEvent → Monitor → Monitor
marked now e m = record (bump receives m) {
  debounce = insert String_discrete e.path now m.debounce;
}

pub dispatch-fresh :
    (h : Host) (now : ℕ) (e : FileEvent) (m : Monitor)
    → IsFresh h now e m
    → dispatch h now e m ≡ submit h now e m.permits (marked now e m)
unfolding dispatch
dispatch-fresh h now e m f =
    let late : ltb now (last_scan e.path m + m.debounce_window) ≡ false = ground (arith, f.late) in
    rw (dispatch, f.named, f.watched, f.exists, late) refl

last_scan-marked : (now : ℕ) (e : FileEvent) (m : Monitor) → last_scan e.path (marked now e m) ≡ now
last_scan-marked now e m =
    rw (last_scan, lookup-insert String_discrete e.path e.path now m.debounce) (ground arith)

-- Within the window after the last scan an event of the path is skipped.
pub dispatch-debounced :
    (h : Host) (now : ℕ) (e : FileEvent) (m : Monitor)
    → h.is_file e.path ≡ true
    → now < last_scan e.path m + m.debounce_window
    → dispatch h now e m ≡ bump skips (bump receives m)
unfolding dispatch
dispatch-debounced h now e m file early =
    let soon : ltb now (last_scan e.path m + m.debounce_window) ≡ true = lt→ltb _ _ early in
    elim (Bool-cases ((e.path ≐ "") || excluded h.fnmatch m.patterns (h.abspath e.path))) [
      | inl k ↦ rw (dispatch, k) refl
      | inr k ↦ rw (dispatch, k, file, soon) refl
    ]

write_log-fields :
    (r : Record) (m : Monitor)
    → ((write_log r m).queue ≡ m.queue)
      × ((write_log r m).stats ≡ m.stats)
      × ((write_log r m).debounce ≡ m.debounce)
      × ((write_log r m).debounce_window ≡ m.debounce_window)
unfolding write_log
write_log-fields r m = ground arith

-- An event that is dropped for want of a permit marks its path as scanned: a later event of the path within
-- the window is skipped as well, also where permits are free again by then.
pub dispatch-saturated :
    (h : Host) (now later : ℕ) (e : FileEvent) (m : Monitor) (free : ℕ)
    → m.permits ≡ 0
    → IsFresh h now e m
    → later < now + m.debounce_window
    → let dropped = dispatch h now e m in
      let again = dispatch h later e (record dropped { permits = free }) in
      (again.queue ≡ m.queue) × (again.stats.skipped ≡ m.stats.skipped + 2)
dispatch-saturated h now later e m free p f early =
    let event = queue_saturated now (h.sanitize e.path) e.kind in
    let dropped = write_log event (bump skips (marked now e m)) in
    let step : dispatch h now e m ≡ dropped = rw (dispatch-fresh h now e m f, p) refl in
    let (queue, stats, debounce, window) = write_log-fields event (bump skips (marked now e m)) in
    let last : last_scan e.path dropped ≡ now =
      rw (last_scan, debounce) (last_scan-marked now e m) in
    let again =
      dispatch-debounced h later e (record dropped { permits = free }) f.exists
        (rw (last, window) early) in
    rw (step, again, queue, stats) (refl, omega arith)
