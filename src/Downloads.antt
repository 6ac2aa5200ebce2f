-- ===== src/Downloads.antt =====
-- The monitor of browser downloads (aegorx/browser_guard.py). The directories, the files and the
-- clock are arguments of a poll; `calls` are the calls of `scan_callback`, in order.
pub mod Seen
mod Tests
use aegor_x.Prelude.{
  ℕ, ◌+◌, ◌-◌, String, String_discrete, Bool, true, false, ◌&&◌, ◌||◌, not, Option, none, some,
  List, [], ◌∷◌, ◌++◌, ◌≐◌, ◌==◌, ltb, mem, add, if◌then◌else◌,
}

-- The file system at one time. `scandir` gives the paths up to the end or to an exception, each
-- with whether it is a file; `extension` is `os.path.splitext` of the lowered path, and `stat` the
-- time of the last change and the size.
pub record Disk : Type 0 where
  pub is_dir : String → Bool
  pub scandir : String → List (String × Bool)
  pub extension : String → String
  pub stat : String → Option (ℕ × ℕ)

pub data Reason : Type 0 where
  browser_download browser_manual : Reason

pub record Stats : Type 0 where
  pub files_detected : ℕ
  pub scans_triggered : ℕ
  pub threats_found : ℕ

pub record Monitor : Type 0 where
  pub download_dirs : List String
  pub min_file_age : ℕ
  pub scan_extensions : List String
  pub scanned_files : List String
  pub stats : Stats
  pub calls : List (String × Reason)

abbrev pub no_stats : Stats
no_stats = record { files_detected = 0; scans_triggered = 0; threats_found = 0 }

-- `DANGEROUS_EXTENSIONS`.
abbrev pub dangerous_extensions : List String
dangerous_extensions =
    ".exe" ∷ ".dll" ∷ ".sys" ∷ ".msi" ∷ ".com" ∷ ".scr" ∷ ".pif" ∷ ".bat" ∷ ".cmd" ∷ ".vbs" ∷ ".vbe"
    ∷ ".js" ∷ ".jse" ∷ ".wsf" ∷ ".wsh" ∷ ".ps1" ∷ ".psm1" ∷ ".psd1" ∷ ".ps1xml" ∷ ".pssc" ∷ ".docm"
    ∷ ".xlsm" ∷ ".pptm" ∷ ".dotm" ∷ ".jar" ∷ ".class" ∷ ".py" ∷ ".pyw" ∷ ".php" ∷ ".pl" ∷ ".rb"
    ∷ ".sh" ∷ ".bash" ∷ ".tmp" ∷ ".temp" ∷ ".bak" ∷ []

-- `scan_extensions or self.DANGEROUS_EXTENSIONS`; no set and an empty set are the same to it.
abbrev pub or_dangerous : List String → List String
or_dangerous [] = dangerous_extensions
or_dangerous (x ∷ xs) = x ∷ xs

abbrev pub new_monitor : List String → ℕ → List String → Monitor
new_monitor dirs min_file_age extensions = record {
  download_dirs = dirs;
  min_file_age = min_file_age;
  scan_extensions = or_dangerous extensions;
  scanned_files = [];
  stats = no_stats;
  calls = [];
}

abbrev pub call : String → Reason → Monitor → Monitor
call path reason m = record m { calls = m.calls ++ (path, reason) ∷ [] }

abbrev pub mark : String → Monitor → Monitor
mark path m = record m { scanned_files = add String_discrete path m.scanned_files }

-- The file is old enough and not empty: `time.time() - stat.st_mtime < self.min_file_age` and
-- `stat.st_size == 0`.
abbrev pub is_ready : ℕ → ℕ → ℕ × ℕ → Bool
is_ready now min_file_age (mtime, size) = not (ltb now (mtime + min_file_age)) && not (size == 0)

abbrev pub is_empty : List String → Bool
is_empty [] = true
is_empty (x ∷ xs) = false

-- not (self.scan_extensions and ext not in self.scan_extensions): any file where no extensions are set.
abbrev pub is_wanted : Disk → String → Monitor → Bool
is_wanted w path m =
    is_empty m.scan_extensions || mem String_discrete (w.extension path) m.scan_extensions

abbrev pub detect : String → Monitor → Monitor
detect path m = call path browser_download (record m {
  stats = record m.stats {
    files_detected = m.stats.files_detected + 1;
    scans_triggered = m.stats.scans_triggered + 1;
  };
})

-- The tests of a file that was not seen before.
abbrev pub examine : Disk → ℕ → String → Monitor → Monitor
examine w now path m = if not (is_wanted w path m) then m else elim (w.stat path) [
  | none ↦ m
  | some s ↦ if is_ready now m.min_file_age s then detect path m else m
]

unfoldable pub check_file : Disk → ℕ → String → Monitor → Monitor
check_file w now path m =
    if mem String_discrete path m.scanned_files then m else examine w now path (mark path m)

abbrev pub check_entries : Disk → ℕ → List (String × Bool) → Monitor → Monitor
check_entries w now [] m = m
check_entries w now ((path, is_file) ∷ rest) m =
    check_entries w now rest (if is_file then check_file w now path m else m)

abbrev pub check_dirs : Disk → ℕ → List String → Monitor → Monitor
check_dirs w now [] m = m
check_dirs w now (dir ∷ dirs) m =
    check_dirs w now dirs (if w.is_dir dir then check_entries w now (w.scandir dir) m else m)

-- `_scan_downloads`.
unfoldable pub scan_downloads : Disk → ℕ → Monitor → Monitor
unfolding check_file
scan_downloads w now m = check_dirs w now m.download_dirs m

unfoldable pub scan_now : String → Monitor → Monitor
scan_now path m =
    let marked = mark path m in
    call path browser_manual
      (record marked { stats = record m.stats { scans_triggered = m.stats.scans_triggered + 1 } })

abbrev pub reset_stats : Monitor → Monitor
reset_stats m = record m { stats = no_stats }

-- The loop of the thread: a poll at each of the times.
unfoldable pub polls : List (Disk × ℕ) → Monitor → Monitor
unfolding scan_downloads
polls [] m = m
polls ((w, now) ∷ rest) m = polls rest (scan_downloads w now m)
