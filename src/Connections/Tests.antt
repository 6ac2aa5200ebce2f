-- ===== src/Connections/Tests.antt =====
-- Runs of the connection monitor and the firewall (aegorx/network/conn_monitor.py, aegorx/firewall.py).
use native.Mathlib.Decide.{ℕ_discrete}
use aegor_x.Prelude.{◌≡◌, refl, String_discrete, false, some, [], ◌∷◌, mem, lookup, arith}
use aegor_x.Connections.{
  Connection, ConnectionMonitor, new_detector, new_monitor, record_beacon, scan_once, check_all,
  check_one,
}
use aegor_x.Connections.Firewall.{OutboundFirewall, blocked_ip, new_firewall, check_connection}
use aegor_x.Connections.Beacons.{record_beacon-periodic}

record_beacon-periodic_example :
    let one = (record_beacon 500 "10.0.0.9" new_detector).0 in
    let two = (record_beacon 60500 "10.0.0.9" one).0 in
    (record_beacon 120500 "10.0.0.9" two).1
    ≡ some (record { host = "10.0.0.9"; samples = 3; total = 120000 })
unfolding lookup
record_beacon-periodic_example =
    record_beacon-periodic 500 60000 "10.0.0.9" new_detector refl (omega arith) (omega arith)
      (omega arith)

abbrev web : Connection
web = record {
  local_addr = "10.0.0.2";
  local_port = 50001;
  remote_addr = "6.6.6.6";
  remote_port = 443;
}

abbrev shell : Connection
shell = record web { remote_addr = "7.7.7.7"; remote_port = 4444 }

abbrev monitor : ConnectionMonitor
monitor = new_monitor ("6.6.6.6" ∷ [])

reports : (scan_once 9000 (web ∷ shell ∷ []) monitor).1 ≡ web ∷ shell ∷ []
unfolding scan_once check_all check_one mem String_discrete ℕ_discrete
reports = refl

abbrev firewall : OutboundFirewall
firewall = new_firewall ("6.6.6.6" ∷ []) [] false

blocks : check_connection firewall web ≡ some (blocked_ip "6.6.6.6")
unfolding new_firewall check_connection mem String_discrete
blocks = refl
