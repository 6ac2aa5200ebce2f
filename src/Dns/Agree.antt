-- ===== src/Dns/Agree.antt =====
-- The trie and the set of `DNSFilter` (aegorx/network/dns_filter.py) agree, and `lookup` answers by the
-- set.
use mathlib.Core.List.{reverse, reverse-cons}
use aegor_x.Prelude.{
  ℕ, ◌+◌, ◌≡◌, ◌≢◌, refl, ap, ◌∙◌, Bool, false, ◌||◌, ◌&&◌, not, List, [], ◌∷◌, ◌++◌, map, any,
  arith, mem, add, discard, Bool-cases, inl, inr, ltb,
}
use aegor_x.Dns.Domain.{Text, Text-discrete, normalize, split, reverse_labels}
use aegor_x.Dns.Trie.{empty, insert}
use aegor_x.Dns.Walk.{
  is_prefix, covered, covered-insert, covered-build, is_blocked-covered, covered-blocked,
  covered-empty,
}
use aegor_x.Dns.Filter.{
  Filter, is_empty, build_trie, load, lookup_normalized, lookup, block, unblock, import_one,
  import_loop, import_blocklist,
}

-- Some blocked domain is the domain of these labels, or one above it.
abbrev pub below : List Text → List Text → Bool
below blocked_set labels = any (λ d. is_prefix (reverse_labels d) labels) blocked_set

-- The trie covers what the set of blocked domains covers.
pub record IsIndexed (f : Filter) : Type 0 where
  pub agrees : (labels : List Text) → covered labels f.root ≡ below f.blocked_domains labels

pub below-append :
    (xs ys : List Text) (ls : List Text) → below (xs ++ ys) ls ≡ below xs ls || below ys ls
below-append [] ys ls = refl
below-append (x ∷ xs) ys ls = ground (arith, below-append xs ys ls)

any-map :
    (ds : List Text) (ls : List Text)
    → any (λ d. is_prefix d ls) (map reverse_labels ds) ≡ below ds ls
any-map [] ls = refl
any-map (d ∷ ds) ls = ap (λ b. is_prefix (reverse_labels d) ls || b) (any-map ds ls)

build_trie-covered : (ds : List Text) (ls : List Text) → covered ls (build_trie ds) ≡ below ds ls
unfolding build_trie
build_trie-covered ds ls =
    covered-build (map reverse_labels ds) ls empty ∙ ground (arith, any-map ds ls, covered-empty ls)

-- Loading the files, which is also a reload, indexes what was loaded.
pub load-IsIndexed : (f : Filter) → IsIndexed (load f)
unfolding load
load-IsIndexed f = record { agrees = build_trie-covered _ }

insert-agrees :
    (f : Filter) (d : Text)
    → IsIndexed f
    → mem Text-discrete d f.blocked_domains ≡ false
    → (ls : List Text)
    → covered ls (insert (reverse_labels d) f.root)
      ≡ below (add Text-discrete d f.blocked_domains) ls
unfolding add
insert-agrees f d h new ls = ground (
  arith,
  covered-insert (reverse_labels d) ls f.root,
  h.agrees ls,
  below-append f.blocked_domains (d ∷ []) ls,
)

-- Blocking a domain keeps the trie and the set in agreement.
pub block-IsIndexed : (f : Filter) (domain : Text) → IsIndexed f → IsIndexed (block f domain).0
unfolding block
block-IsIndexed f domain h =
    let d = normalize domain in
    elim (Bool-cases (is_empty d || mem Text-discrete d f.blocked_domains)) [
      | inl there ↦ rw there h
      | inr new ↦ rw new (record { agrees = insert-agrees f d h (ground (arith, new)) })
    ]

-- Unblocking a domain, which builds the trie anew, keeps the trie and the set in agreement.
pub unblock-IsIndexed : (f : Filter) (domain : Text) → IsIndexed f → IsIndexed (unblock f domain).0
unfolding unblock
unblock-IsIndexed f domain h =
    let d = normalize domain in
    elim (Bool-cases (is_empty d || not (mem Text-discrete d f.blocked_domains))) [
      | inl absent ↦ rw absent h
      | inr there ↦
          rw there
            (record { agrees = build_trie-covered (discard Text-discrete d f.blocked_domains) })
    ]

import_one-IsIndexed :
    (f : Filter) (domain : Text) → IsIndexed f → IsIndexed (import_one f domain).0
unfolding import_one
import_one-IsIndexed f domain h =
    let d = normalize domain in
    elim (Bool-cases (is_empty d || mem Text-discrete d f.blocked_domains)) [
      | inl there ↦ rw there h
      | inr new ↦ rw new (record { agrees = insert-agrees f d h (ground (arith, new)) })
    ]

import_loop-IsIndexed :
    (f : Filter) (domains : List Text) (n : ℕ) → IsIndexed f → IsIndexed (import_loop f domains n).0
unfolding import_loop
import_loop-IsIndexed f [] n h = h
import_loop-IsIndexed f (domain ∷ rest) n h =
    import_loop-IsIndexed (import_one f domain).0 rest (n + (import_one f domain).1)
      (import_one-IsIndexed f domain h)

same_index :
    (f g : Filter)
    → g.root ≡ f.root
    → g.blocked_domains ≡ f.blocked_domains
    → IsIndexed f
    → IsIndexed g
same_index f g r b h = record { agrees = λ ls. rw (r, b) (h.agrees ls) }

-- A bulk import keeps the trie and the set in agreement.
pub import_blocklist-IsIndexed :
    (f : Filter) (domains : List Text) → IsIndexed f → IsIndexed (import_blocklist f domains).0
unfolding import_blocklist
import_blocklist-IsIndexed f domains h =
    let f' = (import_loop f domains 0).0 in
    let kept = import_loop-IsIndexed f domains 0 h in
    elim (Bool-cases (ltb 0 (import_loop f domains 0).1)) [
      | inl e ↦ rw e (same_index f' _ refl refl kept)
      | inr e ↦ rw e kept
    ]

snoc-not_prefix : (ls : List Text) (l : Text) → is_prefix (ls ++ l ∷ []) [] ≡ false
snoc-not_prefix [] l = refl
snoc-not_prefix (k ∷ ks) l = refl

-- A domain has at least one label.
reverse-not_prefix : (ls : List Text) → ls ≢ [] → is_prefix (reverse ls) [] ≡ false
reverse-not_prefix [] h = absurd (h refl)
reverse-not_prefix (l ∷ ls) h = rw (reverse-cons l ls) (snoc-not_prefix (reverse ls) l)

split-ne-nil : (d : Text) → split d ≢ []
unfolding split
split-ne-nil [] = λ e. cc
split-ne-nil (c ∷ d) = λ e. ground (arith, split-ne-nil d)

below-nil : (ds : List Text) → below ds [] ≡ false
unfolding reverse_labels
below-nil [] = refl
below-nil (d ∷ ds) = ground (arith, reverse-not_prefix (split d) (split-ne-nil d), below-nil ds)

-- `lookup` blocks a domain exactly when its normal form is not empty, is not on the allow list, and is a
-- blocked domain or lies below one.
pub lookup-below :
    (f : Filter) (domain : Text)
    → IsIndexed f
    → (lookup f domain).1
      ≡ not (is_empty (normalize domain))
        && not (mem Text-discrete (normalize domain) f.allow_domains)
        && below f.blocked_domains (reverse_labels (normalize domain))
unfolding lookup lookup_normalized
lookup-below f domain h = ground (
  arith,
  is_blocked-covered (reverse_labels (normalize domain)) f.root,
  covered-blocked f.root,
  h.agrees [],
  h.agrees (reverse_labels (normalize domain)),
  below-nil f.blocked_domains,
)

-- Every query that is counted is counted once, as blocked or as allowed.
pub record IsCounted (f : Filter) : Type 0 where
  pub total : f.queries ≡ f.blocked + f.allowed

pub lookup-IsCounted : (f : Filter) (domain : Text) → IsCounted f → IsCounted (lookup f domain).0
unfolding lookup lookup_normalized
lookup-IsCounted f domain h = ground arith
