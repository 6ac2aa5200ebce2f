-- ===== src/Connections/Firewall.antt =====
-- The outbound firewall (aegorx/firewall.py, `OutboundFirewall`), over the connections that its own monitor returns.
--
-- `alerts` are the calls of `alert_callback`, in order. `blocked_domains`, which no method reads, is left out.
use native.Mathlib.Decide.{ℕ_discrete}
use package.text.Mathlib.Text.{starts_with}
use aegor_x.Prelude.{
  ℕ, ◌+◌, String, String_discrete, Bool, ◌&&◌, ◌||◌, not, Option, none, some, List, [], ◌∷◌, ◌++◌,
  mem, add, discard, ◌==◌, ◌≐◌, if◌then◌else◌,
}
use aegor_x.Connections.{Connection, ConnectionMonitor, new_monitor, scan_once}

abbrev pub suspicious_outbound_ports : List ℕ
suspicious_outbound_ports =
    6666 ∷ 6667 ∷ 6668 ∷ 6669 ∷ 4444 ∷ 5555 ∷ 1337 ∷ 31337 ∷ 12345 ∷ 12346 ∷ 27374 ∷ 7777 ∷ 7778
    ∷ 9999 ∷ 1080 ∷ 9050 ∷ 9051 ∷ 8333 ∷ 50050 ∷ 50000 ∷ 443 ∷ 53 ∷ []

abbrev pub safe_outbound_ports : List ℕ
safe_outbound_ports =
    80 ∷ 443 ∷ 53 ∷ 22 ∷ 25 ∷ 110 ∷ 143 ∷ 993 ∷ 995 ∷ 587 ∷ 3306 ∷ 5432 ∷ 6379 ∷ 27017 ∷ []

pub data Verdict : Type 0 where
  blocked_ip : String → Verdict
  suspicious_port : ℕ → Verdict
  direct_dns : Verdict

pub record OutboundFirewall : Type 0 where
  pub blocked_ips : List String
  pub blocked_ports : List ℕ
  pub strict_mode : Bool
  pub monitor : ConnectionMonitor
  pub checked : ℕ
  pub blocked : ℕ
  pub fired : ℕ
  pub alerts : List (Connection × Verdict)

-- `__init__`: an empty set of ports is taken for none at all
abbrev pub ports_or_default : List ℕ → List ℕ
ports_or_default [] = suspicious_outbound_ports
ports_or_default (p ∷ ps) = p ∷ ps

unfoldable pub new_firewall : List String → List ℕ → Bool → OutboundFirewall
new_firewall ips ports strict = record {
  blocked_ips = ips;
  blocked_ports = ports_or_default ports;
  strict_mode = strict;
  monitor = new_monitor [];
  checked = 0;
  blocked = 0;
  fired = 0;
  alerts = [];
}

abbrev pub is_loopback : String → Bool
is_loopback remote = starts_with remote "127." || (remote ≐ "::1") || (remote ≐ "localhost")

-- The port is listed, and not a safe one, unless the mode is strict.
abbrev pub is_suspicious : OutboundFirewall → ℕ → Bool
is_suspicious f port =
    mem ℕ_discrete port f.blocked_ports
    && (not (mem ℕ_discrete port safe_outbound_ports) || f.strict_mode)

-- `_check_connection`
unfoldable pub check_connection : OutboundFirewall → Connection → Option Verdict
check_connection f c =
    if is_loopback c.remote_addr
    then none
    else if mem String_discrete c.remote_addr f.blocked_ips
    then some (blocked_ip c.remote_addr)
    else if is_suspicious f c.remote_port
    then some (suspicious_port c.remote_port)
    else if (c.remote_port == 53) && not (c.local_port == 53)
    then some direct_dns
    else none

abbrev pub fire : Connection → Verdict → OutboundFirewall → OutboundFirewall
fire c v f = record f {
  blocked = f.blocked + 1;
  fired = f.fired + 1;
  alerts = f.alerts ++ (c, v) ∷ [];
}

-- The loop of `scan`.
unfoldable pub check_connections :
    List Connection → OutboundFirewall → OutboundFirewall × List Connection
unfolding check_connection
check_connections [] f = (f, [])
check_connections (c ∷ cs) f =
    let f = record f { checked = f.checked + 1 } in
    elim (check_connection f c) [
      | none ↦ check_connections cs f
      | some v ↦ let rest = check_connections cs (fire c v f) in (rest.0, c ∷ rest.1)
    ]

-- `scan`
unfoldable pub scan : ℕ → List Connection → OutboundFirewall → OutboundFirewall × List Connection
unfolding check_connections
scan now connections f =
    let seen = scan_once now connections f.monitor in
    check_connections seen.1 (record f { monitor = seen.0 })

unfoldable pub add_blocked_ip : String → OutboundFirewall → OutboundFirewall
add_blocked_ip ip f = record f { blocked_ips = add String_discrete ip f.blocked_ips }

unfoldable pub remove_blocked_ip : String → OutboundFirewall → OutboundFirewall
remove_blocked_ip ip f = record f { blocked_ips = discard String_discrete ip f.blocked_ips }

unfoldable pub add_blocked_port : ℕ → OutboundFirewall → OutboundFirewall
add_blocked_port port f = record f { blocked_ports = add ℕ_discrete port f.blocked_ports }

unfoldable pub remove_blocked_port : ℕ → OutboundFirewall → OutboundFirewall
remove_blocked_port port f = record f { blocked_ports = discard ℕ_discrete port f.blocked_ports }

-- `reset_stats`
unfoldable pub reset_stats : OutboundFirewall → OutboundFirewall
reset_stats f = record f { checked = 0; blocked = 0; fired = 0 }
