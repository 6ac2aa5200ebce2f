-- ===== src/Monitor/Tests.antt =====
-- Runs of the real-time monitor (aegorx/realtime/monitor.py) on a small host.
use aegor_x.Prelude.{
  ◌≡◌, refl, String, String_discrete, true, false, some, [], ◌∷◌, ◌≐◌, lookup, insert,
  if◌then◌else◌, All,
}
use aegor_x.Engine.World.{FileScanResult, clean, malicious, new_result}
use aegor_x.Monitor.{
  FileEvent, Host, Monitor, kept, result, dispatch, process, decide_open, excluded, capacity,
  new_monitor,
}
use aegor_x.Monitor.Steps.{Reach, here, next, arrives, works, IsSound, new_monitor-IsSound}
use aegor_x.Monitor.Truth.{IsTrue, Scans, new_monitor-IsTrue}

abbrev graded : String → FileScanResult
graded path = record (new_result path) { verdict = if path ≐ "bad" then malicious else clean }

abbrev host : Host
host = record {
  fnmatch = λ path pattern. path ≐ pattern;
  abspath = λ path. path;
  is_file = λ _. true;
  sanitize = λ path. path;
  scan_file = λ path. result (graded path);
  quarantine = λ path reason. kept "id";
}

abbrev event : String → FileEvent
event path = record { path = path; kind = "open"; pid = 1 }

abbrev start : Monitor
start = new_monitor ("tmp" ∷ []) 4 true true

-- A bad file is taken up, scanned and quarantined; an excluded one is skipped.
abbrev after_bad : Monitor
after_bad =
    process host 901 (event "bad") (record (dispatch host 900 (event "bad") start) { queue = [] })

runs : after_bad.stats ≡ record {
  received = 1;
  scanned = 1;
  malicious = 1;
  suspicious = 0;
  quarantined = 1;
  errors = 0;
  skipped = 0;
}
unfolding new_monitor capacity dispatch process String_discrete lookup insert excluded
runs = refl

new_monitor-IsSound_example : IsSound (capacity 4) after_bad
unfolding new_monitor capacity dispatch String_discrete lookup insert excluded
new_monitor-IsSound_example = new_monitor-IsSound ("tmp" ∷ []) 4 true true after_bad (
    next (next here (arrives host 900 (event "bad") start))
      (works host 901 [] [] (event "bad") (dispatch host 900 (event "bad") start) refl))

-- An event of a bad file arrives, and a worker finishes it.
abbrev bad_scanned : Reach start after_bad
unfolding new_monitor capacity dispatch String_discrete lookup insert excluded
bad_scanned =
    next (next here (arrives host 900 (event "bad") start))
      (works host 901 [] [] (event "bad") (dispatch host 900 (event "bad") start) refl)

new_monitor-IsTrue_example : All (IsTrue (Scans bad_scanned)) after_bad.log
new_monitor-IsTrue_example = new_monitor-IsTrue ("tmp" ∷ []) 4 true true after_bad bad_scanned

denies : (decide_open host 900 (event "bad") start).1 ≡ some false
unfolding decide_open String_discrete new_monitor
denies = refl
