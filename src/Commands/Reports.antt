-- ===== src/Commands/Reports.antt =====
-- What the agent of aegorx/management/agent.py does with what it is told, and what it keeps to report.
use aegor_x.Prelude.{
  ℕ, zero, suc, not, ◌||◌, ◌≤◌, ◌≡◌, ◌≢◌, refl, ap, String, false, Option, none, some, List, [],
  ◌∷◌, ◌++◌, All, any, take, drop, length, length-append, length-drop, arith, Bool-cases,
  Option-cases, inl, inr, is_some, ◌≐◌,
}
use aegor_x.Engine.World.{FileScanResult}
use aegor_x.Json.{Json, Fields, get, fields_of}
use aegor_x.Commands.{Crypto, Checked, accepted, rejected, verify_command, allowed_commands}
use aegor_x.Commands.Agent.{
  Agent, Device, Report, keep_reports, cmd_scan_path, after_scan, str_of, is_allowed_path,
}
use aegor_x.Commands.Rounds.{
  execute, execute_all, check_in_once, batch_of, handler, delegate, run_body,
}

length-keep_reports-le :
    (ts : ℕ) (rs : List FileScanResult) (pending : List Report)
    → length pending ≤ 500
    → length (keep_reports ts rs pending) ≤ 500
unfolding keep_reports
length-keep_reports-le ts [] pending h = h
length-keep_reports-le ts (r ∷ rs) pending h =
    length-keep_reports-le ts rs _ (grind (arith, length-append))

-- A command that nobody has signed.
abbrev pub IsRefused : Crypto → Json → Type 0
IsRefused k e = (now : ℕ) (body : Fields) → verify_command k now e ≢ accepted body

module _ {D : Type 0} (dev : Device D) where
  after_scan-le :
      (path : String) (a : Agent D) (scanned : D × Option (List FileScanResult))
      → length a.pending ≤ 500
      → length (after_scan dev path a scanned).0.pending ≤ 500
  unfolding after_scan
  after_scan-le path a (device, none) h = h
  after_scan-le path a (device, some rs) h = length-keep_reports-le (dev.now device) rs a.pending h

  cmd_scan_path-le :
      (args : Json) (a : Agent D)
      → length a.pending ≤ 500
      → length (cmd_scan_path dev args a).0.pending ≤ 500
  unfolding cmd_scan_path
  cmd_scan_path-le args a h = elim (Option-cases (fields_of args)) [
    | inl e ↦ rw (cmd_scan_path, e) h
    | inr (fs, e) ↦
        let path = str_of dev.show (get "path" fs) in
        rw (cmd_scan_path, e)
          (elim (Bool-cases ((path ≐ "") || not (dev.exists a.device path))) [
            | inl m ↦ rw m h
            | inr m ↦ elim (Bool-cases (is_allowed_path (dev.abspath a.device path))) [
              | inl p ↦ rw (m, p) (after_scan-le path a (dev.scan_target a.device path) h)
              | inr p ↦ rw (m, p) h
            ]
          ])
  ]

  run_body-le :
      (body : Fields) (a : Agent D)
      → length a.pending ≤ 500
      → length (run_body dev body a).0.pending ≤ 500
  unfolding run_body handler delegate
  run_body-le body a h = grind (arith, cmd_scan_path-le)

  execute-le :
      (k : Crypto) (e : Json) (a : Agent D)
      → length a.pending ≤ 500
      → length (execute dev k e a).0.pending ≤ 500
  unfolding execute
  execute-le k e a h = grind (arith, run_body-le)

  execute_all-le :
      (k : Crypto) (es : List Json) (a : Agent D)
      → length a.pending ≤ 500
      → length (execute_all dev k es a).0.pending ≤ 500
  unfolding execute_all
  execute_all-le k [] a h = h
  execute_all-le k (e ∷ es) a h =
      let first = execute-le k e a h in
      let rest = execute_all-le k es (execute dev k e a).0 first in ground arith

  -- A check-in leaves at most 500 reports for the next, whatever it is told to scan and whether it fails.
  pub check_in_once-le :
      (k : Crypto) (checkin : List Report → Option (List Json)) (reports : List Report)
      (a : Agent D)
      → length a.pending ≤ 500
      → length (check_in_once dev k checkin reports a).0.pending ≤ 500
  unfolding check_in_once
  check_in_once-le k checkin reports a h =
      let drained : length (drop 100 a.pending) ≤ 500 = omega (arith, length-drop 100 a.pending) in
      elim (Option-cases (checkin (batch_of dev reports a))) [
        | inl e ↦ rw (check_in_once, e) drained
        | inr (es, e) ↦ rw (check_in_once, e) (execute_all-le k (take 20 es) _ drained)
      ]

  execute_refused :
      (k : Crypto) (e : Json) (a : Agent D)
      → IsRefused k e
      → ((execute dev k e a).0.device ≡ a.device) × ((execute dev k e a).0.pending ≡ a.pending)
  unfolding execute
  execute_refused k e a h = this (verify_command k (dev.now a.device) e) refl
    where
      this :
          (c : Checked)
          → verify_command k (dev.now a.device) e ≡ c
          → ((execute dev k e a).0.device ≡ a.device) × ((execute dev k e a).0.pending ≡ a.pending)
      this (accepted body) p = absurd (h (dev.now a.device) body p)
      this (rejected reason) p = rw (execute, p) (refl, refl)

  execute_all_refused :
      (k : Crypto) (n : ℕ) (es : List Json) (a : Agent D)
      → All (IsRefused k) es
      → ((execute_all dev k (take n es) a).0.device ≡ a.device)
        × ((execute_all dev k (take n es) a).0.pending ≡ a.pending)
  unfolding execute_all
  execute_all_refused k zero es a h = (refl, refl)
  execute_all_refused k (suc n) [] a h = (refl, refl)
  execute_all_refused k (suc n) (e ∷ es) a h =
      let first = execute_refused k e a h.0 in
      let rest = execute_all_refused k n es (execute dev k e a).0 h.1 in ground arith

  -- The reports that a check-in took along are gone where it fails: the next one sends those behind them.
  pub check_in_once-lost :
      (k : Crypto) (checkin : List Report → Option (List Json)) (a : Agent D)
      → checkin (batch_of dev [] a) ≡ none
      → let failed = check_in_once dev k checkin [] a in
        (failed.1 ≡ [])
        × (failed.2 ≡ false)
        × (batch_of dev [] failed.0 ≡ take 100 (drop 100 a.pending))
  unfolding check_in_once
  check_in_once-lost k checkin a h = rw (check_in_once, h) (refl, refl, refl)

  -- Where no envelope of the server carries a command that verifies, a check-in does nothing on the device, and
  -- keeps the pending reports behind the first 100, which it takes along; also where the request fails, so
  -- that these are lost then.
  pub check_in_once-IsRefused :
      (k : Crypto) (checkin : List Report → Option (List Json)) (reports : List Report)
      (a : Agent D)
      → ((es : List Json) → checkin (batch_of dev reports a) ≡ some es → All (IsRefused k) es)
      → ((check_in_once dev k checkin reports a).0.device ≡ a.device)
        × ((check_in_once dev k checkin reports a).0.pending ≡ drop 100 a.pending)
  unfolding check_in_once
  check_in_once-IsRefused k checkin reports a h =
      elim (Option-cases (checkin (batch_of dev reports a))) [
        | inl e ↦ rw (check_in_once, e) (refl, refl)
        | inr (es, e) ↦ rw (check_in_once, e) (execute_all_refused k 20 es _ (h es e))
      ]

-- Every command that a signed envelope may name has a handler.
pub handler-allowed :
    {D : Type 0} (dev : Device D) (command : String)
    → any (λ c. c ≐ command) allowed_commands ≡ is_some (handler dev command)
unfolding handler
handler-allowed dev command = ground arith

take-append : {A : Type 0} (n : ℕ) (xs ys : List A) → length xs ≡ n → take n (xs ++ ys) ≡ take n xs
take-append zero xs ys h = refl
take-append (suc n) [] ys h = absurd (omega arith)
take-append (suc n) (x ∷ xs) ys h = ap (λ l. x ∷ l) (take-append n xs ys (omega arith))

-- What stands behind the first 20 commands of an answer makes no difference to a check-in.
pub check_in_once-rest :
    {D : Type 0} (dev : Device D) (k : Crypto) (es rest : List Json) (reports : List Report)
    (a : Agent D)
    → length es ≡ 20
    → check_in_once dev k (λ _. some (es ++ rest)) reports a
      ≡ check_in_once dev k (λ _. some es) reports a
unfolding check_in_once
check_in_once-rest dev k es rest reports a h = rw (check_in_once, take-append 20 es rest h) refl
