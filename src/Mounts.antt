-- ===== src/Mounts.antt =====
-- The scanner of removable media (aegorx/usb_scanner.py). The mount points of the system are an
-- argument of a poll, in the order in which the set of the new ones is gone through; `calls` are
-- the calls of `scan_callback`.
pub mod Again
mod Tests
use aegor_x.Prelude.{
  ℕ, ◌+◌, String, String_discrete, Bool, true, false, List, [], ◌∷◌, ◌++◌, mem, add, difference,
  if◌then◌else◌,
}

pub data Reason : Type 0 where
  usb_mount usb_manual : Reason

pub record Stats : Type 0 where
  pub mounts_detected : ℕ
  pub scans_triggered : ℕ
  pub threats_found : ℕ

pub record UsbScanner : Type 0 where
  pub known_mounts : List String
  pub scanned : List String
  pub stats : Stats
  pub calls : List (String × Reason)

abbrev pub no_stats : Stats
no_stats = record { mounts_detected = 0; scans_triggered = 0; threats_found = 0 }

abbrev pub new_scanner : UsbScanner
new_scanner = record { known_mounts = []; scanned = []; stats = no_stats; calls = [] }

-- `start`, where no thread runs: what is mounted already is known.
abbrev pub start : List String → UsbScanner → UsbScanner
start current s = record s { known_mounts = current }

abbrev pub call : String → Reason → UsbScanner → UsbScanner
call mount reason s = record s { calls = s.calls ++ (mount, reason) ∷ [] }

abbrev pub mark : String → UsbScanner → UsbScanner
mark mount s = record s { scanned = add String_discrete mount s.scanned }

abbrev pub count_mount : UsbScanner → UsbScanner
count_mount s = record s {
  stats = record s.stats {
    mounts_detected = s.stats.mounts_detected + 1;
    scans_triggered = s.stats.scans_triggered + 1;
  };
}

abbrev pub scan_mount : String → UsbScanner → UsbScanner
scan_mount mount s =
    if mem String_discrete mount s.scanned
    then s
    else call mount usb_mount (count_mount (mark mount s))

abbrev pub scan_mounts : List String → UsbScanner → UsbScanner
scan_mounts [] s = s
scan_mounts (mount ∷ mounts) s = scan_mounts mounts (scan_mount mount s)

-- `_check`.
unfoldable pub check : List String → UsbScanner → UsbScanner
check current s =
    scan_mounts (difference String_discrete current s.known_mounts)
      (record s { known_mounts = current })

unfoldable pub scan_now : String → UsbScanner → UsbScanner
scan_now path s = call path usb_manual (record (mark path s) {
  stats = record s.stats { scans_triggered = s.stats.scans_triggered + 1 };
})

abbrev pub reset_stats : UsbScanner → UsbScanner
reset_stats s = record s { stats = no_stats }

-- The loop of the thread: a poll for each set of mount points.
unfoldable pub polls : List (List String) → UsbScanner → UsbScanner
unfolding check
polls [] s = s
polls (current ∷ rest) s = polls rest (check current s)
