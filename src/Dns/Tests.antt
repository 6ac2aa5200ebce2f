-- ===== src/Dns/Tests.antt =====
-- Runs of the filter of aegorx/network/dns_filter.py with one domain in each file.
use native.Mathlib.Decide.{ℕ_discrete}
use aegor_x.Prelude.{◌≡◌, refl, true, ◌&&◌, not, [], ◌∷◌, mem}
use aegor_x.Dns.Domain.{Text, Text-discrete, normalize, reverse_labels}
use aegor_x.Dns.Trie.{empty, is_blocked, build}
use aegor_x.Dns.Filter.{Filter, is_empty, load, lookup}
use aegor_x.Dns.Agree.{below, IsIndexed, load-IsIndexed, lookup-below}

-- b.c, a.b.c and d.c
abbrev b_c : Text
b_c = b'b' ∷ b'.' ∷ b'c' ∷ []

abbrev a_b_c : Text
a_b_c = b'a' ∷ b'.' ∷ b_c

abbrev d_c : Text
d_c = b'd' ∷ b'.' ∷ b'c' ∷ []

abbrev stored : Filter
stored = record {
  root = empty;
  blocked_domains = [];
  allow_domains = [];
  queries = 0;
  blocked = 0;
  allowed = 0;
  primary = record { domains = b_c ∷ []; allowed = [] };
  custom = record { domains = []; allowed = d_c ∷ [] };
}

abbrev loaded : Filter
loaded = load stored

blocks_below : is_blocked (reverse_labels a_b_c) (build (reverse_labels b_c ∷ []) empty) ≡ true
unfolding reverse_labels is_blocked build Text-discrete ℕ_discrete
blocks_below = refl

loaded-IsIndexed : IsIndexed loaded
loaded-IsIndexed = load-IsIndexed stored

lookup-below_example :
    (lookup loaded a_b_c).1
    ≡ not (is_empty (normalize a_b_c))
      && not (mem Text-discrete (normalize a_b_c) loaded.allow_domains)
      && below loaded.blocked_domains (reverse_labels (normalize a_b_c))
lookup-below_example = lookup-below loaded a_b_c loaded-IsIndexed
