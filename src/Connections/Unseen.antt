-- ===== src/Connections/Unseen.antt =====
-- What the outbound firewall of aegorx/firewall.py does not see: it looks only at the connections that its own
-- monitor, which has no block list, reports.
use native.Mathlib.Decide.{ℕ_discrete}
use aegor_x.Prelude.{
  ℕ, ◌≡◌, ◌≢◌, refl, String, String_discrete, true, false, none, [], ◌∷◌, mem, arith,
}
use aegor_x.Connections.{
  Connection, ConnectionMonitor, check_beacon, check_one, check_all, scan_once, record_beacon,
  is_blocked, high_risk_ports,
}
use aegor_x.Connections.Firewall.{
  OutboundFirewall, check_connection, check_connections, scan, safe_outbound_ports,
}

mem-nil : (k : String) → mem String_discrete k [] ≡ false
unfolding mem
mem-nil k = refl

check_one-passed :
    (now : ℕ) (c : Connection) (m : ConnectionMonitor)
    → is_blocked c.remote_addr m ≡ false
    → mem ℕ_discrete c.remote_port high_risk_ports ≡ false
    → (record_beacon now c.remote_addr m.detector).1 ≡ none
    → (check_one now c m).1 ≡ false
unfolding check_one check_beacon
check_one-passed now c m a b h = ground arith

check_all-passed :
    (now : ℕ) (c : Connection) (m : ConnectionMonitor)
    → (check_one now c m).1 ≡ false
    → (check_all now (c ∷ []) m).1 ≡ []
unfolding check_all
check_all-passed now c m h = rw h refl

-- A connection whose port is not of high risk and whose host is no beacon is not reported, whatever addresses and
-- ports the firewall blocks.
pub scan-unseen :
    (now : ℕ) (c : Connection) (f : OutboundFirewall)
    → f.monitor.ip_blocklist ≡ []
    → f.monitor.custom_blocklist ≡ []
    → mem ℕ_discrete c.remote_port high_risk_ports ≡ false
    → (record_beacon now c.remote_addr f.monitor.detector).1 ≡ none
    → (scan now (c ∷ []) f).1 ≡ []
unfolding scan scan_once check_connections
scan-unseen now c f a b h k =
    let unlisted : is_blocked c.remote_addr f.monitor ≡ false =
      rw (a, b, mem-nil c.remote_addr) refl in
    let passed = check_all-passed now c f.monitor (check_one-passed now c f.monitor unlisted h k) in
    rw passed refl

-- Strict mode makes a difference only to connections to a port that is both listed and safe.
pub strict_mode-safe :
    (f : OutboundFirewall) (c : Connection)
    → check_connection (record f { strict_mode = true }) c
      ≢ check_connection (record f { strict_mode = false }) c
    → (mem ℕ_discrete c.remote_port f.blocked_ports ≡ true)
      × (mem ℕ_discrete c.remote_port safe_outbound_ports ≡ true)
unfolding check_connection
strict_mode-safe f c h = ground arith
