-- ===== src/Dns/Filter.antt =====
-- `DNSFilter` of aegorx/network/dns_filter.py: its state, its two files, and its methods.
use aegor_x.Prelude.{
  ℕ, ◌+◌, Bool, true, false, not, List, [], ◌∷◌, map, mem, add, discard, difference, length, ltb,
  ◌||◌, if◌then◌else◌,
}
use aegor_x.Dns.Domain.{Text, Text-discrete, normalize, reverse_labels}
use aegor_x.Dns.Trie.{Node, empty, insert, is_blocked, build}

-- A block list's file: its "domains", and its "allowed", which is empty where the key is missing.
pub record Store : Type 0 where
  pub domains : List Text
  pub allowed : List Text

pub record Filter : Type 0 where
  pub root : Node
  pub blocked_domains : List Text
  pub allow_domains : List Text
  pub queries : ℕ
  pub blocked : ℕ
  pub allowed : ℕ
  pub primary : Store  -- the file blocklist_path
  pub custom : Store  -- the file custom_blocklist_path

-- s | t
unfoldable pub union : List Text → List Text → List Text
union xs [] = xs
union xs (y ∷ ys) = union (add Text-discrete y xs) ys

-- {normalize(d) for d in domains}
unfoldable pub normalized : List Text → List Text
unfolding union
normalized domains = union [] (map normalize domains)

-- `_build_trie` of a set of domains
unfoldable pub build_trie : List Text → Node
build_trie domains = build (map reverse_labels domains) empty

-- `_load`, `reload`
unfoldable pub load : Filter → Filter
load f =
    let all = union (normalized f.primary.domains) (normalized f.custom.domains) in
    record f {
      blocked_domains = all;
      allow_domains = normalized f.custom.allowed;
      root = build_trie all;
    }

abbrev pub is_empty : Text → Bool
is_empty [] = true
is_empty (_ ∷ _) = false

abbrev answered : Filter → Bool → Filter × Bool
answered f true = (record f { queries = f.queries + 1; blocked = f.blocked + 1 }, true)
answered f false = (record f { queries = f.queries + 1; allowed = f.allowed + 1 }, false)

-- `lookup` of a domain that is normalised
unfoldable pub lookup_normalized : Filter → Text → Filter × Bool
lookup_normalized f domain =
    if is_empty domain
    then (f, false)
    else answered f (
        if mem Text-discrete domain f.allow_domains
        then false
        else is_blocked (reverse_labels domain) f.root)

unfoldable pub lookup : Filter → Text → Filter × Bool
unfolding lookup_normalized
lookup f domain = lookup_normalized f (normalize domain)

-- `_persist_custom`: the document that is written has no "allowed".
unfoldable pub persist_custom : Filter → Filter
persist_custom f = record f {
  custom = record {
    domains = difference Text-discrete f.blocked_domains (normalized f.primary.domains);
    allowed = [];
  };
}

unfoldable pub block : Filter → Text → Filter × Bool
unfolding persist_custom
block f domain =
    let d = normalize domain in
    if is_empty d || mem Text-discrete d f.blocked_domains then (f, false) else (
      persist_custom (record f {
        blocked_domains = add Text-discrete d f.blocked_domains;
        root = insert (reverse_labels d) f.root;
      }),
      true,
    )

-- `unblock`, with `_rebuild_and_persist`
unfoldable pub unblock : Filter → Text → Filter × Bool
unfolding persist_custom
unblock f domain =
    let d = normalize domain in
    let rest = discard Text-discrete d f.blocked_domains in
    if is_empty d || not (mem Text-discrete d f.blocked_domains)
    then (f, false)
    else (persist_custom (record f { blocked_domains = rest; root = build_trie rest }), true)

unfoldable pub allow : Filter → Text → Filter × Bool
allow f domain =
    let d = normalize domain in
    let all = add Text-discrete d f.allow_domains in
    if is_empty d || mem Text-discrete d f.allow_domains then (f, false) else (
      record f {
        allow_domains = all;
        custom = record { domains = f.blocked_domains; allowed = all };
      },
      true,
    )

unfoldable pub is_allowed : Filter → Text → Bool
is_allowed f domain = mem Text-discrete (normalize domain) f.allow_domains

-- One round of the loop of `import_blocklist`
unfoldable pub import_one : Filter → Text → Filter × ℕ
import_one f domain =
    let d = normalize domain in
    if is_empty d || mem Text-discrete d f.blocked_domains then (f, 0) else (
      record f {
        blocked_domains = add Text-discrete d f.blocked_domains;
        root = insert (reverse_labels d) f.root;
      },
      1,
    )

unfoldable pub import_loop : Filter → List Text → ℕ → Filter × ℕ
import_loop f [] added = (f, added)
import_loop f (domain ∷ rest) added =
    let (f', n) = import_one f domain in import_loop f' rest (added + n)

-- The file is written where something was added.
unfoldable pub import_blocklist : Filter → List Text → Filter × ℕ
import_blocklist f domains =
    let (f', added) = import_loop f domains 0 in
    (
      if ltb 0 added
          then record f' { primary = record { domains = f'.blocked_domains; allowed = [] } }
          else f',
      added,
    )

unfoldable pub domains : Filter → List Text
domains f = f.blocked_domains

unfoldable pub count : Filter → ℕ
count f = length f.blocked_domains

unfoldable pub reset_stats : Filter → Filter
reset_stats f = record f { queries = 0; blocked = 0; allowed = 0 }
