-- ===== src/Protector/Tests.antt =====
-- A protector whose feed names one domain, with a hosts file of one line.
use native.Mathlib.Decide.{ℕ_discrete}
use aegor_x.Prelude.{
  ◌≡◌, refl, true, false, ◌||◌, ◌&&◌, not, none, some, List, [], ◌∷◌, String_discrete, ◌≐◌, mem,
  if◌then◌else◌,
}
use aegor_x.Updates.Versions.{codes}
use aegor_x.Dns.Domain.{Text, Text-discrete, normalize, strip, reverse_labels}
use aegor_x.Dns.Filter.{Filter, is_empty, load}
use aegor_x.Dns.Agree.{below, load-IsIndexed}
use aegor_x.Dns.Trie.{empty}
use aegor_x.Connections.{new_monitor}
use aegor_x.Hosts.{HostsFile, splitlines}
use aegor_x.Hosts.Blocks.{of_text}
use aegor_x.Hosts.Lines.{is_line}
use aegor_x.Intel.{Net, default_sources, all_domains, fetch_stevenblack_hosts, max_feed_size}
use aegor_x.Intel.Extract.{exceptions, extract_domains_from_hosts}
use aegor_x.Protector.{Protector, hosts_enforcer, sync_domains, update_feeds, check_domain}
use aegor_x.Protector.Covered.{below_any, update_feeds-below}
use aegor_x.Protector.InStep.{Op, block_name, unblock_name, check_name, run, holding, run-holding}

abbrev as_given : List Text → List Text
as_given xs = xs

-- Only one URL is answered, with one line.
abbrev net : Net
net = record {
  reader = record { is_ip = λ _. false; is_special = λ _. false; hostname = λ _. none };
  lower = λ s. s;
  urlopen = λ url.
      if url ≐ "https://raw.githubusercontent.com/StevenBlack/hosts/master/hosts"
      then some (λ _. codes "0.0.0.0 t.co")
      else none;
  loads = λ _. none;
  decode = λ bytes. bytes;
  can_save = true;
}

abbrev stored : Filter
stored = record {
  root = empty;
  blocked_domains = [];
  allow_domains = [];
  queries = 0;
  blocked = 0;
  allowed = 0;
  primary = record { domains = codes "b.c" ∷ []; allowed = [] };
  custom = record { domains = []; allowed = [] };
}

abbrev localhost : Text
localhost = b':' ∷ b':' ∷ b'1' ∷ 32 ∷ b'h' ∷ 10 ∷ []

abbrev protector : Protector HostsFile
protector = record {
  dns = load stored;
  monitor = new_monitor [];
  enforces = true;
  place = of_text localhost;
  updating = false;
}

update_feeds-below_example :
    (check_domain (codes "a.t.co") (update_feeds (hosts_enforcer as_given) net protector).0).1
    ≡ not (is_empty (normalize (codes "a.t.co")))
      && not (mem Text-discrete (normalize (codes "a.t.co")) protector.dns.allow_domains)
      && (below protector.dns.blocked_domains (reverse_labels (normalize (codes "a.t.co")))
          || below_any
              (all_domains net default_sources)
              (reverse_labels (normalize (codes "a.t.co"))))
update_feeds-below_example =
    update_feeds-below (hosts_enforcer as_given) net protector (codes "a.t.co")
      (load-IsIndexed stored) refl

abbrev idle : Protector HostsFile
idle = record protector { dns = stored }

abbrev ops : List Op
ops = block_name (codes "d.e") ∷ check_name (codes "d.e") ∷ unblock_name (codes "d.e") ∷ []

abbrev final : Protector HostsFile
final = run (hosts_enforcer as_given) ops (sync_domains (hosts_enforcer as_given) idle)

run-holding_example : final.place ≡ holding as_given localhost final.dns.blocked_domains
unfolding splitlines strip Text-discrete ℕ_discrete
run-holding_example =
    run-holding as_given localhost idle ops (record { same = λ p xs. refl })
      (record { ended = refl; others = refl }) refl refl refl refl

-- A name with a line feed in it stays as it is, and would be two lines of the hosts file.
two_lines : is_line (normalize (codes "a.b\nc.d")) ≡ false
unfolding normalize
two_lines = refl

feed_blocked :
    below_any (all_domains net ("stevenblack" ∷ [])) (reverse_labels (codes "a.t.co")) ≡ true
unfolding reverse_labels normalize all_domains String_discrete fetch_stevenblack_hosts max_feed_size
    extract_domains_from_hosts mem exceptions ℕ_discrete
feed_blocked = refl
