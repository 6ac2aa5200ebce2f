-- ===== src/Dns/Files.antt =====
-- What the two files of `DNSFilter` (aegorx/network/dns_filter.py) keep for the next start.
use aegor_x.Prelude.{
  ◌≡◌, true, false, ◌||◌, List, [], ◌∷◌, mem, add, mem-add, mem-discard, arith, discard,
}
use aegor_x.Dns.Domain.{Text, Text-discrete, normalize}
use aegor_x.Dns.Filter.{Filter, union, normalized, load, persist_custom, block, unblock}

mem-union :
    (d : Text) (xs ys : List Text)
    → mem Text-discrete d (union xs ys) ≡ mem Text-discrete d xs || mem Text-discrete d ys
unfolding union mem
mem-union d xs [] = ground arith
mem-union d xs (y ∷ ys) =
    ground (arith, mem-union d (add Text-discrete y xs) ys, mem-add Text-discrete d y xs)

-- After any domain has been blocked, the next load finds an empty allow list, whatever was allowed.
pub block_forgets_allowed :
    (f : Filter) (domain : Text)
    → (block f domain).1 ≡ true
    → (load (block f domain).0).allow_domains ≡ []
unfolding block load normalized union
block_forgets_allowed f domain h = ground arith

-- A domain of the primary file that is unblocked is blocked again after the next load.
pub unblock_returns :
    (f : Filter) (domain : Text)
    → (unblock f domain).1 ≡ true
    → mem Text-discrete (normalize domain) (normalized f.primary.domains) ≡ true
    → (mem Text-discrete (normalize domain) (unblock f domain).0.blocked_domains ≡ false)
      × (mem Text-discrete (normalize domain) (load (unblock f domain).0).blocked_domains ≡ true)
unfolding unblock load
unblock_returns f domain h there =
    let d = normalize domain in
    let rest = discard Text-discrete d f.blocked_domains in
    (
      ground (arith, mem-discard Text-discrete d d f.blocked_domains),
      ground (
        arith,
        mem-union d (normalized f.primary.domains)
            (normalized (persist_custom (record f { blocked_domains = rest })).custom.domains),
      ),
    )
