-- ===== src/Protector/InStep.antt =====
-- The hosts file of a `NetworkProtector` (aegorx/network/protector.py) through its operations, where
-- the enforcer is that of the hosts file.
use aegor_x.Prelude.{
  ◌≡◌, refl, sym, ap, ◌∙◌, Bool, true, false, ◌&&◌, List, [], ◌∷◌, all, arith, Bool-cases, inl, inr,
}
use aegor_x.Dns.Domain.{Text}
use aegor_x.Dns.Filter.{Filter, block, unblock, lookup, lookup_normalized, is_allowed, domains}
use aegor_x.Hosts.{HostsFile, install, remove, strip_block}
use aegor_x.Hosts.Lines.{is_line, outside-kept}
use aegor_x.Hosts.Blocks.{IsSort, IsForeign, of_text, remove-stripped, install-undone}
use aegor_x.Intel.{Net, all_domains, import_all, update_threat_intel, default_sources}
use aegor_x.Protector.{
  Enforcer, Protector, hosts_enforcer, sync_domains, update_feeds, check_domain, block_domain,
  unblock_domain,
}
use aegor_x.Protector.Lines.{are_lines, import_all-are_lines, block-are_lines, unblock-are_lines}

-- The operations that may change the domains or count a query.
pub data Op : Type 0 where
  update : Net → Op
  block_name unblock_name check_name : Text → Op

abbrev pub perform : Enforcer HostsFile → Op → Protector HostsFile → Protector HostsFile
perform e (update w) p = (update_feeds e w p).0
perform e (block_name d) p = (block_domain e d p).0
perform e (unblock_name d) p = (unblock_domain e d p).0
perform e (check_name d) p = (check_domain d p).0

abbrev pub run : Enforcer HostsFile → List Op → Protector HostsFile → Protector HostsFile
run e [] p = p
run e (op ∷ ops) p = run e ops (perform e op p)

-- No name has the end of a line in it, and the file with the time of the update can be written.
abbrev pub is_fit : Op → Bool
is_fit (update w) = w.can_save && are_lines (all_domains w default_sources)
is_fit (block_name d) = is_line d
is_fit (unblock_name d) = true
is_fit (check_name d) = true

-- The file that installing these domains into a hosts file of others gives.
abbrev pub holding : (List Text → List Text) → Text → List Text → HostsFile
holding sort content ds = (install sort ds (of_text content)).0

remove-foreign :
    (content : Text) → IsForeign content → (remove (of_text content)).0 ≡ of_text content
unfolding strip_block
remove-foreign content foreign =
    remove-stripped content ∙ ap of_text (outside-kept content foreign.others)

install-holding :
    (sort : List Text → List Text) (content : Text) (ds es : List Text)
    → IsSort sort
    → IsForeign content
    → are_lines ds ≡ true
    → (install sort es (holding sort content ds)).0 ≡ holding sort content es
unfolding install
install-holding sort content [] [] sorts foreign lines =
    ap (λ f. (remove f).0) (remove-foreign content foreign)
install-holding sort content [] (e ∷ es) sorts foreign lines =
    ap (λ f. (install sort (e ∷ es) f).0) (remove-foreign content foreign)
install-holding sort content (d ∷ ds) [] sorts foreign lines =
    (install-undone sort content d d ds ds sorts foreign lines).0
    ∙ sym (remove-foreign content foreign)
install-holding sort content (d ∷ ds) (e ∷ es) sorts foreign lines =
    (install-undone sort content d e ds es sorts foreign lines).1

pub record IsInStep (sort : List Text → List Text) (content : Text) (p : Protector HostsFile)
    : Type 0 where
  pub held : p.place ≡ holding sort content p.dns.blocked_domains
  pub lines : are_lines p.dns.blocked_domains ≡ true
  pub enforces : p.enforces ≡ true

update_feeds-busy :
    (e : Enforcer HostsFile) (w : Net) (p : Protector HostsFile)
    → p.updating ≡ true
    → (update_feeds e w p).0 ≡ p
unfolding update_feeds
update_feeds-busy e w p h = ground arith

update_feeds-synced :
    (e : Enforcer HostsFile) (w : Net) (p : Protector HostsFile)
    → p.updating ≡ false
    → w.can_save ≡ true
    → (update_feeds e w p).0
      ≡ sync_domains e (record p { dns = (import_all (all_domains w default_sources) p.dns).0 })
unfolding update_feeds update_threat_intel
update_feeds-synced e w p h saves = ground arith

module _ (sort : List Text → List Text) (content : Text) (sorts : IsSort sort)
    (foreign : IsForeign content) where
  -- New domains are in the file as soon as they are synced.
  sync_domains-IsInStep :
      (p : Protector HostsFile) (f : Filter)
      → IsInStep sort content p
      → are_lines f.blocked_domains ≡ true
      → IsInStep sort content (sync_domains (hosts_enforcer sort) (record p { dns = f }))
  unfolding sync_domains domains
  sync_domains-IsInStep p f h k =
      rw (sync_domains, h.enforces)
        (record {
          held =
              ap (λ g. (install sort f.blocked_domains g).0) h.held
              ∙ install-holding sort content p.dns.blocked_domains f.blocked_domains sorts foreign
                  h.lines;
          lines = k;
          enforces = refl;
        })

  -- A filter with the same domains is in step as well.
  same-IsInStep :
      (p : Protector HostsFile) (f : Filter)
      → IsInStep sort content p
      → f.blocked_domains ≡ p.dns.blocked_domains
      → IsInStep sort content (record p { dns = f })
  same-IsInStep p f h e = record {
    held = h.held ∙ ap (λ ds. holding sort content ds) (sym e);
    lines = ap are_lines e ∙ h.lines;
    enforces = h.enforces;
  }

  unblock-same :
      (f : Filter) (d : Text)
      → (unblock f d).1 ≡ false
      → (unblock f d).0.blocked_domains ≡ f.blocked_domains
  unfolding unblock
  unblock-same f d h = ground arith

  block-same :
      (f : Filter) (d : Text)
      → (block f d).1 ≡ false
      → (block f d).0.blocked_domains ≡ f.blocked_domains
  unfolding block
  block-same f d h = ground arith

  lookup-same : (f : Filter) (d : Text) → (lookup f d).0.blocked_domains ≡ f.blocked_domains
  unfolding lookup lookup_normalized
  lookup-same f d = ground arith

  update-IsInStep :
      (w : Net) (p : Protector HostsFile)
      → IsInStep sort content p
      → w.can_save ≡ true
      → are_lines (all_domains w default_sources) ≡ true
      → IsInStep sort content (update_feeds (hosts_enforcer sort) w p).0
  update-IsInStep w p h saves names = elim (Bool-cases p.updating) [
    | inl e ↦ rw (update_feeds-busy (hosts_enforcer sort) w p e) h
    | inr e ↦ rw (update_feeds-synced (hosts_enforcer sort) w p e saves) (
        sync_domains-IsInStep p (import_all (all_domains w default_sources) p.dns).0 h
          (import_all-are_lines (all_domains w default_sources) p.dns h.lines names))
  ]

  check-IsInStep :
      (d : Text) (p : Protector HostsFile)
      → IsInStep sort content p
      → IsInStep sort content (check_domain d p).0
  unfolding check_domain
  check-IsInStep d p h = elim (Bool-cases (is_allowed p.dns d)) [
    | inl e ↦ rw (check_domain, e) h
    | inr e ↦ rw (check_domain, e) (same-IsInStep p (lookup p.dns d).0 h (lookup-same p.dns d))
  ]

  perform-IsInStep :
      (op : Op) (p : Protector HostsFile)
      → IsInStep sort content p
      → is_fit op ≡ true
      → IsInStep sort content (perform (hosts_enforcer sort) op p)
  unfolding block_domain unblock_domain
  perform-IsInStep (update w) p h fit = update-IsInStep w p h (ground arith) (ground arith)
  perform-IsInStep (block_name d) p h fit = elim (Bool-cases (block p.dns d).1) [
    | inl e ↦
        rw e (sync_domains-IsInStep p (block p.dns d).0 h (block-are_lines p.dns d h.lines fit))
    | inr e ↦ rw e (same-IsInStep p (block p.dns d).0 h (block-same p.dns d e))
  ]
  perform-IsInStep (unblock_name d) p h fit = elim (Bool-cases (unblock p.dns d).1) [
    | inl e ↦
        rw e (sync_domains-IsInStep p (unblock p.dns d).0 h (unblock-are_lines p.dns d h.lines))
    | inr e ↦ rw e (same-IsInStep p (unblock p.dns d).0 h (unblock-same p.dns d e))
  ]
  perform-IsInStep (check_name d) p h fit = check-IsInStep d p h

  run-IsInStep :
      (ops : List Op) (p : Protector HostsFile)
      → IsInStep sort content p
      → all is_fit ops ≡ true
      → IsInStep sort content (run (hosts_enforcer sort) ops p)
  run-IsInStep [] p h fit = h
  run-IsInStep (op ∷ ops) p h fit =
      run-IsInStep ops (perform (hosts_enforcer sort) op p) (perform-IsInStep op p h (ground arith))
        (ground arith)

-- Once a protector that enforces has synced its domains into a hosts file of others that can be
-- written, then after any updates whose time can be written, and any blocks, unblocks and checks,
-- the file is what installing exactly the domains that are blocked then gives; no name, of those
-- blocked at the start, fetched and given to block, has the end of a line in it, and sorting keeps
-- the elements.
pub run-holding :
    (sort : List Text → List Text) (content : Text) (p : Protector HostsFile) (ops : List Op)
    → IsSort sort
    → IsForeign content
    → p.enforces ≡ true
    → p.place ≡ of_text content
    → are_lines p.dns.blocked_domains ≡ true
    → all is_fit ops ≡ true
    → (run (hosts_enforcer sort) ops (sync_domains (hosts_enforcer sort) p)).place
      ≡ holding sort content
          (run (hosts_enforcer sort) ops (sync_domains (hosts_enforcer sort) p)).dns.blocked_domains
unfolding sync_domains domains
run-holding sort content p ops sorts foreign enforces place lines fit =
    let started : IsInStep sort content (sync_domains (hosts_enforcer sort) p) =
      rw (sync_domains, enforces)
        (record {
          held = ap (λ g. (install sort p.dns.blocked_domains g).0) place;
          lines = lines;
          enforces = refl;
        }) in
    (run-IsInStep sort content sorts foreign ops (sync_domains (hosts_enforcer sort) p) started
      fit).held
