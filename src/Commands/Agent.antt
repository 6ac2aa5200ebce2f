-- ===== src/Commands/Agent.antt =====
-- The agent (aegorx/management/agent.py, `DASAgent`): what it executes, and its rounds with the server.
--
-- `Device` is what the agent asks of the rest of the machine, over a state of its own that its handlers change:
-- the scan of a path, the handlers but that of scan-path, and the requests to the server. A handler's
-- result is a `dict`, and `raised` an exception with its text. The details of a log entry that are not tested
-- anywhere, its time stamps among them, are left out.
use package.text.Mathlib.Text.{starts_with}
use aegor_x.Prelude.{
  ℕ, String, Bool, true, false, ◌&&◌, ◌||◌, not, Option, none, some, List, [], ◌∷◌, ◌++◌, map, any,
  select, take, length, ltb, ◌≐◌, if◌then◌else◌,
}
use aegor_x.Engine.World.{FileScanResult, Verdict, clean, malicious}
use aegor_x.Json.{Json, Fields, text, whole, array, end, field, get, fields_of, items_of}
use aegor_x.Commands.{Rejection}

pub record Report : Type 0 where
  pub ts : ℕ
  pub path : String
  pub sha256 : String
  pub verdict : Verdict
  pub detections : List (String × String)

-- The records of the agent's audit log.
pub data Entry : Type 0 where
  command_rejected : Rejection → Entry
  command_executed : String → Json → Entry

-- What a handler comes to.
pub data Handled : Type 0 where
  returned : Fields → Handled
  raised : String → Handled

pub record Agent (D : Type 0) : Type 0 where
  pub device : D
  pub pending : List Report
  pub audit : List Entry

pub record Device (D : Type 0) : Type 0 where
  pub exists : D → String → Bool
  pub abspath : D → String → String
  pub scan_target : D → String → D × Option (List FileScanResult)
  pub other_handler : String → Json → D → D × Handled
  pub show : Json → String
  pub detail : Rejection → String
  pub attribute_error : Json → String
  pub scan_error : String → String
  pub now : D → ℕ

abbrev pub allowed_scan_paths : List String
allowed_scan_paths =
    "/home" ∷ "/usr" ∷ "/opt" ∷ "/tmp" ∷ "/var/tmp" ∷ "/Users" ∷ "C:\\Users" ∷ "C:\\Program Files"
    ∷ "C:\\Program Files (x86)" ∷ []

-- any(abs_path.startswith(allowed) for allowed in ALLOWED_SCAN_PATHS)
abbrev pub is_allowed_path : String → Bool
is_allowed_path path = any (λ allowed. starts_with path allowed) allowed_scan_paths

-- str(args.get(key, ""))
abbrev pub str_of : (Json → String) → Option Json → String
str_of show none = ""
str_of show (some (text s)) = s
str_of show (some j) = show j

abbrev pub report_of : ℕ → FileScanResult → Report
report_of ts r = record {
  ts = ts;
  path = r.path;
  sha256 = r.sha256;
  verdict = r.verdict;
  detections = map (λ d. (d.detector, d.name)) r.detections;
}

abbrev pub is_clean : Verdict → Bool
is_clean clean = true
is_clean _ = false

abbrev pub is_malicious : Verdict → Bool
is_malicious malicious = true
is_malicious _ = false

-- The loop that keeps what is not clean for the next check-in, up to 500 reports.
unfoldable pub keep_reports : ℕ → List FileScanResult → List Report → List Report
keep_reports ts [] pending = pending
keep_reports ts (r ∷ rs) pending = keep_reports ts rs (
    if not (is_clean r.verdict) && ltb (length pending) 500
    then pending ++ report_of ts r ∷ []
    else pending)

-- The handlers of `COMMAND_HANDLERS` but that of scan-path.
abbrev pub delegated : List String
delegated =
    "ping" ∷ "status" ∷ "diag" ∷ "feed-update" ∷ "check-update" ∷ "quarantine-list"
    ∷ "quarantine-delete" ∷ "apply-policy" ∷ []

abbrev pub failure : String → Fields
failure detail = field "status" (text "error") (field "detail" (text detail) end)

abbrev pub summary_of : List FileScanResult → Fields
summary_of results =
    let found = map (λ r. text r.path) (select (λ r. is_malicious r.verdict) results) in
    field "scanned" (whole (length results)) (
      field "malicious" (whole (length found))
        (field "paths" (array (items_of (take 50 found))) end))

module _ {D : Type 0} (dev : Device D) where
  -- The end of `cmd_scan_path`, of what the scan comes to.
  unfoldable pub after_scan :
      String → Agent D → D × Option (List FileScanResult) → Agent D × Handled
  unfolding keep_reports
  after_scan path a (device, none) = (record a { device = device }, raised (dev.scan_error path))
  after_scan path a (device, some results) = (
    record a { device = device; pending = keep_reports (dev.now device) results a.pending },
    returned (summary_of results),
  )

  -- `cmd_scan_path`
  unfoldable pub cmd_scan_path : Json → Agent D → Agent D × Handled
  unfolding after_scan
  cmd_scan_path args a = elim (fields_of args) [
    | none ↦ (a, raised (dev.attribute_error args))
    | some fs ↦
        let path = str_of dev.show (get "path" fs) in
        if (path ≐ "") || not (dev.exists a.device path)
        then (a, returned (failure "path does not exist"))
        else if not (is_allowed_path (dev.abspath a.device path))
        then (a, returned (failure "scan path not in allowed list"))
        else after_scan path a (dev.scan_target a.device path)
  ]
