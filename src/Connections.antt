-- ===== src/Connections.antt =====
-- The connection monitor (aegorx/network/conn_monitor.py): `BeaconDetector` and `ConnectionMonitor.scan_once`. The
-- outbound firewall that stands on it is Connections.Firewall.
--
-- Sets of addresses are lists, the table of connections of the system is an argument, and `alerts` are the
-- calls of `scan_callback`, in order. A time is in milliseconds. Whether connections are periodic is decided
-- exactly: of the n intervals, their sum s and the sum q of their squares, the standard deviation is below 0.3 of
-- the average where 100 * (n * q - s * s) < 9 * s * s. `proto`, `pid` and `state` of a connection are not read.
pub mod Firewall
pub mod Beacons
pub mod Counted
pub mod Unseen
mod Tests
use native.Mathlib.Decide.{ℕ_discrete}
use aegor_x.Prelude.{
  ℕ, ◌+◌, ◌-◌, ◌*◌, String, String_discrete, Bool, true, false, ◌||◌, Option, none, some, List, [],
  ◌∷◌, ◌++◌, length, select, leb, ltb, mem, add, discard, lookup, insert, if◌then◌else◌,
}

pub record Connection : Type 0 where
  pub local_addr : String
  pub local_port : ℕ
  pub remote_addr : String
  pub remote_port : ℕ

pub record Beacon : Type 0 where
  pub host : String
  pub samples : ℕ
  pub total : ℕ

pub record BeaconDetector : Type 0 where
  pub window : ℕ
  pub min_samples : ℕ
  pub history : List (String × List ℕ)

pub data Reason : Type 0 where
  blocked_ip high_risk_port : Reason
  beacon : Beacon → Reason

pub record Stats : Type 0 where
  pub scanned : ℕ
  pub suspicious : ℕ
  pub beacons : ℕ
  pub risky : ℕ
  pub blocked : ℕ

pub record ConnectionMonitor : Type 0 where
  pub ip_blocklist : List String
  pub custom_blocklist : List String
  pub allowlist : List String
  pub detector : BeaconDetector
  pub stats : Stats
  pub alerts : List (Connection × Reason)

abbrev pub new_detector : BeaconDetector
new_detector = record { window = 300000; min_samples = 3; history = [] }

abbrev pub new_monitor : List String → ConnectionMonitor
new_monitor ips = record {
  ip_blocklist = ips;
  custom_blocklist = [];
  allowlist = [];
  detector = new_detector;
  stats = record { scanned = 0; suspicious = 0; beacons = 0; risky = 0; blocked = 0 };
  alerts = [];
}

abbrev pub high_risk_ports : List ℕ
high_risk_ports =
    4444 ∷ 5555 ∷ 6666 ∷ 6667 ∷ 6697 ∷ 7777 ∷ 8888 ∷ 9999 ∷ 1234 ∷ 31337 ∷ 4443 ∷ 5432 ∷ 3389 ∷ 5900
    ∷ 5901 ∷ 22 ∷ []

-- The last of the timestamps less the first, which is the sum of the intervals; 0 where it is negative.
abbrev pub last_of : ℕ → List ℕ → ℕ
last_of t [] = t
last_of t (u ∷ us) = last_of u us

-- The sum of the squares of the intervals.
abbrev pub squares : ℕ → List ℕ → ℕ
squares t [] = 0
squares t (u ∷ us) = let interval = (u - t) + (t - u) in interval * interval + squares u us

-- The tests of `record` on the timestamps.
abbrev pub beacon_of : String → List ℕ → Option Beacon
beacon_of remote [] = none
beacon_of remote (t ∷ []) = none
beacon_of remote (t ∷ u ∷ us) =
    let n = length us + 1 in
    let s = last_of u us - t in
    if ltb s (1000 * n)
    then none
    else if ltb (100 * (n * squares t (u ∷ us) - s * s)) (9 * (s * s))
    then some (record { host = remote; samples = n + 1; total = s })
    else none

-- self._history[remote], of a defaultdict
abbrev pub history_of : String → BeaconDetector → List ℕ
history_of remote d = elim (lookup String_discrete remote d.history) [ none ↦ [] | some ts ↦ ts ]

-- [t for t in history if t >= now - window], with the connection that is new
abbrev pub recent : ℕ → String → BeaconDetector → List ℕ
recent now remote d = select (λ t. leb now (t + d.window)) (history_of remote d ++ now ∷ [])

-- `BeaconDetector.record`
unfoldable pub record_beacon : ℕ → String → BeaconDetector → BeaconDetector × Option Beacon
record_beacon now remote d =
    let timestamps = recent now remote d in
    (
      record d { history = insert String_discrete remote timestamps d.history },
      if ltb (length timestamps) d.min_samples then none else beacon_of remote timestamps,
    )

-- `is_blocked`
abbrev pub is_blocked : String → ConnectionMonitor → Bool
is_blocked ip m = mem String_discrete ip m.ip_blocklist || mem String_discrete ip m.custom_blocklist

unfoldable pub set_ip_blocklist : List String → ConnectionMonitor → ConnectionMonitor
set_ip_blocklist ips m = record m { ip_blocklist = ips }

unfoldable pub add_blocked_ip : String → ConnectionMonitor → ConnectionMonitor
add_blocked_ip ip m = record m { ip_blocklist = add String_discrete ip m.ip_blocklist }

unfoldable pub remove_blocked_ip : String → ConnectionMonitor → ConnectionMonitor
remove_blocked_ip ip m = record m { ip_blocklist = discard String_discrete ip m.ip_blocklist }

unfoldable pub add_custom_blocked_ip : String → ConnectionMonitor → ConnectionMonitor
add_custom_blocked_ip ip m = record m {
  custom_blocklist = add String_discrete ip m.custom_blocklist;
}

unfoldable pub allow_ip : String → ConnectionMonitor → ConnectionMonitor
allow_ip ip m = record m { allowlist = add String_discrete ip m.allowlist }

-- The counter that an alert moves.
abbrev pub bump : Reason → Stats → Stats
bump blocked_ip s = record s { blocked = s.blocked + 1 }
bump high_risk_port s = record s { risky = s.risky + 1 }
bump (beacon b) s = record s { beacons = s.beacons + 1 }

abbrev pub alert : Connection → Reason → ConnectionMonitor → ConnectionMonitor × Bool
alert c reason m =
    (record m { stats = bump reason m.stats; alerts = m.alerts ++ (c, reason) ∷ [] }, true)

-- The tests on a connection that is not on a list, in the loop of `scan_once`.
unfoldable pub check_beacon : ℕ → Connection → ConnectionMonitor → ConnectionMonitor × Bool
check_beacon now c m =
    let done = record_beacon now c.remote_addr m.detector in
    let m = record m { detector = done.0 } in
    elim done.1 [ none ↦ (m, false) | some b ↦ alert c (beacon b) m ]

-- One round of the loop, and whether the connection is suspicious.
unfoldable pub check_one : ℕ → Connection → ConnectionMonitor → ConnectionMonitor × Bool
unfolding check_beacon
check_one now c m =
    let m = record m { stats = record m.stats { scanned = m.stats.scanned + 1 } } in
    if mem String_discrete c.remote_addr m.allowlist
    then (m, false)
    else if is_blocked c.remote_addr m
    then alert c blocked_ip m
    else if mem ℕ_discrete c.remote_port high_risk_ports
    then alert c high_risk_port m
    else check_beacon now c m

unfoldable pub check_all :
    ℕ → List Connection → ConnectionMonitor → ConnectionMonitor × List Connection
unfolding check_one
check_all now [] m = (m, [])
check_all now (c ∷ cs) m =
    let done = check_one now c m in
    let rest = check_all now cs done.0 in (rest.0, if done.1 then c ∷ rest.1 else rest.1)

-- `scan_once`
unfoldable pub scan_once :
    ℕ → List Connection → ConnectionMonitor → ConnectionMonitor × List Connection
unfolding check_all
scan_once now connections m =
    let done = check_all now connections m in
    let stats = done.0.stats in
    (
      record done.0 { stats = record stats { suspicious = stats.suspicious + length done.1 } },
      done.1,
    )

-- `reset_stats`
unfoldable pub reset_stats : ConnectionMonitor → ConnectionMonitor
reset_stats m = record m {
  stats = record { scanned = 0; suspicious = 0; beacons = 0; risky = 0; blocked = 0 };
  detector = record m.detector { history = [] };
}
