-- ===== src/Connections/Counted.antt =====
-- What `ConnectionMonitor.scan_once` of aegorx/network/conn_monitor.py reports and counts.
use aegor_x.Prelude.{
  ℕ, ◌+◌, ◌≡◌, refl, sym, ap, ◌∙◌, select, String_discrete, Bool, true, false, ◌&&◌, not, List, [],
  ◌∷◌, length, length-append, mem, arith, if◌then◌else◌,
}
use aegor_x.Connections.{
  Connection, ConnectionMonitor, Stats, check_beacon, check_one, check_all, scan_once, is_blocked,
}

abbrev one_if : Bool → ℕ
one_if true = 1
one_if false = 0

-- The alerts of the three kinds.
abbrev pub flagged : Stats → ℕ
flagged s = s.blocked + s.risky + s.beacons

-- One more connection is looked at, and one more alert is counted and called where it is suspicious.
record IsCounted (m : ConnectionMonitor) (t : ConnectionMonitor) (scanned found : ℕ) : Type 0 where
  scans : t.stats.scanned ≡ m.stats.scanned + scanned
  flags : flagged t.stats ≡ flagged m.stats + found
  calls : length t.alerts ≡ length m.alerts + found
  keeps : t.stats.suspicious ≡ m.stats.suspicious

check_one-IsCounted :
    (now : ℕ) (c : Connection) (m : ConnectionMonitor)
    → IsCounted m (check_one now c m).0 1 (one_if (check_one now c m).1)
unfolding check_one check_beacon
check_one-IsCounted now c m = grind (arith, length-append)

check_all-IsCounted :
    (now : ℕ) (cs : List Connection) (m : ConnectionMonitor)
    → IsCounted m (check_all now cs m).0 (length cs) (length (check_all now cs m).1)
unfolding check_all
check_all-IsCounted now [] m = record {
  scans = omega arith;
  flags = omega arith;
  calls = omega arith;
  keeps = refl;
}
check_all-IsCounted now (c ∷ cs) m =
    let one = check_one-IsCounted now c m in
    let rest = check_all-IsCounted now cs (check_one now c m).0 in
    record {
      scans = omega (arith, one.scans, rest.scans);
      flags = ground (arith, one.flags, rest.flags);
      calls = ground (arith, one.calls, rest.calls);
      keeps = ground (arith, one.keeps, rest.keeps);
    }

-- A scan counts every connection of the table, and each that it reports: once as suspicious, once by the kind of
-- the alert, and with one call of the callback.
pub scan_once-counts :
    (now : ℕ) (cs : List Connection) (m : ConnectionMonitor)
    → let (t, found) = scan_once now cs m in
      (t.stats.scanned ≡ m.stats.scanned + length cs)
      × (t.stats.suspicious ≡ m.stats.suspicious + length found)
      × (flagged t.stats ≡ flagged m.stats + length found)
      × (length t.alerts ≡ length m.alerts + length found)
unfolding scan_once
scan_once-counts now cs m =
    let all = check_all-IsCounted now cs m in
    (all.scans, omega (arith, all.keeps), all.flags, all.calls)

-- The address is on a block list, and not allowed.
abbrev pub is_listed : ConnectionMonitor → Connection → Bool
is_listed m c = is_blocked c.remote_addr m && not (mem String_discrete c.remote_addr m.allowlist)

-- The lists of the two are the same.
abbrev HasLists : ConnectionMonitor → ConnectionMonitor → Type 0
HasLists m t =
    (t.ip_blocklist ≡ m.ip_blocklist)
    × (t.custom_blocklist ≡ m.custom_blocklist)
    × (t.allowlist ≡ m.allowlist)

check_one-HasLists :
    (now : ℕ) (c : Connection) (m : ConnectionMonitor) → HasLists m (check_one now c m).0
unfolding check_one check_beacon
check_one-HasLists now c m = ground arith

check_one-listed :
    (now : ℕ) (c : Connection) (m : ConnectionMonitor)
    → is_listed m c ≡ true
    → (check_one now c m).1 ≡ true
unfolding check_one
check_one-listed now c m h = ground arith

select-kept :
    (p : Connection → Bool) (b : Bool) (c : Connection) (cs : List Connection)
    → (p c ≡ true → b ≡ true)
    → select p (if b then c ∷ cs else cs) ≡ (if p c then c ∷ select p cs else select p cs)
select-kept p true c cs h = refl
select-kept p false c cs h = ground arith

select-check_all :
    (now : ℕ) (cs : List Connection) (m t : ConnectionMonitor)
    → HasLists m t
    → select (is_listed m) (check_all now cs t).1 ≡ select (is_listed m) cs
unfolding check_all
select-check_all now [] m t h = refl
select-check_all now (c ∷ cs) m t h =
    let lists = check_one-HasLists now c t in
    let rest =
      select-check_all now cs m (check_one now c t).0
        (lists.0 ∙ h.0, lists.1 ∙ h.1, lists.2 ∙ h.2) in
    let same : is_listed m c ≡ is_listed t c = rw (h.0, h.1, h.2) refl in
    select-kept (is_listed m) (check_one now c t).1 c (check_all now cs (check_one now c t).0).1
      (λ e. check_one-listed now c t (sym same ∙ e))
    ∙ ap (λ l. if is_listed m c then c ∷ l else l) rest

-- Of the connections whose address is blocked and not allowed, a scan reports every one, in the table's order.
pub scan_once-listed :
    (now : ℕ) (cs : List Connection) (m : ConnectionMonitor)
    → select (is_listed m) (scan_once now cs m).1 ≡ select (is_listed m) cs
unfolding scan_once
scan_once-listed now cs m = select-check_all now cs m m (refl, refl, refl)
