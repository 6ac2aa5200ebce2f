-- ===== src/Protector.antt =====
-- `NetworkProtector` (aegorx/network/protector.py): the DNS filter, the connection monitor, the feeds
-- and the enforcement, which is any enforcer with a `sync` and the place that it writes to.
--
-- `start` and `stop` of the threads are left out; `sync_domains` is what `start` enforces.
pub mod Covered
pub mod Lines
pub mod InStep
mod Tests
use aegor_x.Prelude.{ℕ, Bool, false, Option, none, some, List, if◌then◌else◌}
use aegor_x.Dns.Domain.{Text}
use aegor_x.Dns.Filter.{Filter, lookup, block, unblock, is_allowed, domains}
use aegor_x.Connections.{Connection, ConnectionMonitor, scan_once}
use aegor_x.Hosts.{HostsFile, install}
use aegor_x.Intel.{Net, Summary, default_sources, update_threat_intel}

pub record Enforcer (F : Type 0) : Type 0 where
  pub sync : List Text → F → F × Bool

-- `HostsFileEnforcer`, whose `sync` is `install`.
abbrev pub hosts_enforcer : (List Text → List Text) → Enforcer HostsFile
hosts_enforcer sort = record { sync = install sort }

pub record Protector (F : Type 0) : Type 0 where
  pub dns : Filter
  pub monitor : ConnectionMonitor
  pub enforces : Bool
  pub place : F
  pub updating : Bool

-- The enforcer is there where `enforce` was given; what `sync` returns is not read.
unfoldable pub sync_domains : {F : Type 0} → Enforcer F → Protector F → Protector F
sync_domains e p = if p.enforces then record p { place = (e.sync (domains p.dns) p.place).0 } else p

pub data Update : Type 0 where
  already_updating raised : Update
  updated : Summary → Update

unfoldable pub update_feeds : {F : Type 0} → Enforcer F → Net → Protector F → Protector F × Update
unfolding sync_domains update_threat_intel
update_feeds e w p =
    if p.updating
    then (p, already_updating)
    else let (f, summary) = update_threat_intel w default_sources p.dns in
      let p' = record p { dns = f } in
      elim summary [ none ↦ (p', raised) | some s ↦ (sync_domains e p', updated s) ]

unfoldable pub check_domain : {F : Type 0} → Text → Protector F → Protector F × Bool
check_domain domain p =
    let (f, blocked) = lookup p.dns domain in
    if is_allowed p.dns domain then (p, false) else (record p { dns = f }, blocked)

unfoldable pub block_domain : {F : Type 0} → Enforcer F → Text → Protector F → Protector F × Bool
unfolding sync_domains
block_domain e domain p =
    let (f, result) = block p.dns domain in
    let p' = record p { dns = f } in (if result then sync_domains e p' else p', result)

unfoldable pub unblock_domain : {F : Type 0} → Enforcer F → Text → Protector F → Protector F × Bool
unfolding sync_domains
unblock_domain e domain p =
    let (f, result) = unblock p.dns domain in
    let p' = record p { dns = f } in (if result then sync_domains e p' else p', result)

unfoldable pub scan_connections :
    {F : Type 0} → ℕ → List Connection → Protector F → Protector F × List Connection
scan_connections now connections p =
    let (m, suspicious) = scan_once now connections p.monitor in
    (record p { monitor = m }, suspicious)
