-- ===== src/Protector/Covered.antt =====
-- What `NetworkProtector.check_domain` of aegorx/network/protector.py blocks after the feeds were updated.
use aegor_x.Prelude.{
  ℕ, ◌+◌, ◌≡◌, refl, sym, ap, ◌∙◌, Bool, true, false, ◌||◌, ◌&&◌, not, List, [], ◌∷◌, ◌++◌, any,
  arith, mem, add, Bool-cases, inl, inr, if_neg,
}
use aegor_x.Dns.Domain.{Text, Text-discrete, normalize, reverse_labels}
use aegor_x.Dns.Walk.{is_prefix}
use aegor_x.Dns.Filter.{
  Filter, is_empty, import_one, import_loop, import_blocklist, lookup, is_allowed,
}
use aegor_x.Dns.Agree.{below, IsIndexed, below-append, import_blocklist-IsIndexed, lookup-below}
use aegor_x.Intel.{
  Net, from_keys, dedupe, all_domains, import_all, update_threat_intel, default_sources,
}
use aegor_x.Protector.{Enforcer, Protector, sync_domains, update_feeds, check_domain}

-- Some of the texts is, when it is normalised, a domain of these labels or one above it.
abbrev pub below_any : List Text → List Text → Bool
below_any names labels =
    any (λ t. not (is_empty (normalize t)) && is_prefix (reverse_labels (normalize t)) labels) names

below_any-append :
    (xs ys : List Text) (ls : List Text)
    → below_any (xs ++ ys) ls ≡ below_any xs ls || below_any ys ls
below_any-append [] ys ls = refl
below_any-append (x ∷ xs) ys ls = ground (arith, below_any-append xs ys ls)

any-mem :
    (p : Text → Bool) (x : Text) (xs : List Text)
    → mem Text-discrete x xs ≡ true
    → p x ≡ true
    → any p xs ≡ true
unfolding mem
any-mem p x [] m h = absurd (ground arith)
any-mem p x (y ∷ ys) m h = elim (Text-discrete y x) [
  | yes e ↦ rw (ap p e, h) refl
  | no n ↦ ground (arith, any-mem p x ys (sym (if_neg (Text-discrete y x) n _ _) ∙ m) h)
]

import_one-below :
    (f : Filter) (t : Text) (ls : List Text)
    → below (import_one f t).0.blocked_domains ls
      ≡ below f.blocked_domains ls || below_any (t ∷ []) ls
unfolding import_one add
import_one-below f t ls = elim (Bool-cases (mem Text-discrete (normalize t) f.blocked_domains)) [
  | inl m ↦ elim (Bool-cases (is_prefix (reverse_labels (normalize t)) ls)) [
    | inl h ↦
        ground (
          arith,
          any-mem (λ d. is_prefix (reverse_labels d) ls) (normalize t) f.blocked_domains m h,
        )
    | inr h ↦ ground arith
  ]
  | inr m ↦ ground (arith, below-append f.blocked_domains (normalize t ∷ []) ls)
]

import_loop-below :
    (f : Filter) (ts : List Text) (n : ℕ) (ls : List Text)
    → below (import_loop f ts n).0.blocked_domains ls
      ≡ below f.blocked_domains ls || below_any ts ls
unfolding import_loop
import_loop-below f [] n ls = ground arith
import_loop-below f (t ∷ ts) n ls = ground (
  arith,
  import_loop-below (import_one f t).0 ts (n + (import_one f t).1) ls,
  import_one-below f t ls,
)

import_one-allow : (f : Filter) (t : Text) → (import_one f t).0.allow_domains ≡ f.allow_domains
unfolding import_one
import_one-allow f t = ground arith

import_loop-allow :
    (f : Filter) (ts : List Text) (n : ℕ) → (import_loop f ts n).0.allow_domains ≡ f.allow_domains
unfolding import_loop
import_loop-allow f [] n = refl
import_loop-allow f (t ∷ ts) n =
    import_loop-allow (import_one f t).0 ts (n + (import_one f t).1) ∙ import_one-allow f t

from_keys-below :
    (ks xs : List Text) (ls : List Text)
    → below_any (from_keys ks xs) ls ≡ below_any ks ls || below_any xs ls
from_keys-below ks [] ls = ground arith
from_keys-below ks (x ∷ xs) ls = elim (Bool-cases (mem Text-discrete x ks)) [
  | inl m ↦ elim (Bool-cases (below_any (x ∷ []) ls)) [
    | inl h ↦ ground (
      arith,
      from_keys-below ks xs ls,
      any-mem (λ t. not (is_empty (normalize t)) && is_prefix (reverse_labels (normalize t)) ls) x
          ks m (ground arith),
    )
    | inr h ↦ ground (arith, from_keys-below ks xs ls)
  ]
  | inr m ↦ ground (arith, from_keys-below (ks ++ x ∷ []) xs ls, below_any-append ks (x ∷ []) ls)
]

import_all-below :
    (ds : List Text) (f : Filter) (ls : List Text)
    → below (import_all ds f).0.blocked_domains ls ≡ below f.blocked_domains ls || below_any ds ls
unfolding import_blocklist
import_all-below [] f ls = ground arith
import_all-below (d ∷ ds) f ls =
    ground (arith, import_loop-below f (dedupe (d ∷ ds)) 0 ls, from_keys-below [] (d ∷ ds) ls)

import_all-allow :
    (ds : List Text) (f : Filter) → (import_all ds f).0.allow_domains ≡ f.allow_domains
unfolding import_blocklist
import_all-allow [] f = refl
import_all-allow (d ∷ ds) f = ground (arith, import_loop-allow f (dedupe (d ∷ ds)) 0)

import_all-IsIndexed : (ds : List Text) (f : Filter) → IsIndexed f → IsIndexed (import_all ds f).0
import_all-IsIndexed [] f h = h
import_all-IsIndexed (d ∷ ds) f h = import_blocklist-IsIndexed f (dedupe (d ∷ ds)) h

check_domain-lookup :
    {F : Type 0} (domain : Text) (p : Protector F)
    → IsIndexed p.dns
    → (check_domain domain p).1 ≡ (lookup p.dns domain).1
unfolding check_domain is_allowed
check_domain-lookup domain p h = ground (arith, lookup-below p.dns domain h)

update_feeds-dns :
    {F : Type 0} (e : Enforcer F) (w : Net) (p : Protector F)
    → p.updating ≡ false
    → (update_feeds e w p).0.dns ≡ (import_all (all_domains w default_sources) p.dns).0
unfolding update_feeds update_threat_intel sync_domains
update_feeds-dns e w p h = ground arith

-- After the feeds were updated, also where the update ends in an exception, check_domain blocks a name
-- exactly when its normal form is not empty, not on the allow list, and is, or is below, a domain that
-- was blocked before or one of those that the sources gave; the trie agrees with the set before, and no
-- update is under way.
pub update_feeds-below :
    {F : Type 0} (e : Enforcer F) (w : Net) (p : Protector F) (name : Text)
    → IsIndexed p.dns
    → p.updating ≡ false
    → (check_domain name (update_feeds e w p).0).1
      ≡ not (is_empty (normalize name))
        && not (mem Text-discrete (normalize name) p.dns.allow_domains)
        && (below p.dns.blocked_domains (reverse_labels (normalize name))
            || below_any (all_domains w default_sources) (reverse_labels (normalize name)))
update_feeds-below e w p name indexed idle =
    let ds = all_domains w default_sources in
    let f = (import_all ds p.dns).0 in
    let same = update_feeds-dns e w p idle in
    let kept : IsIndexed f = import_all-IsIndexed ds p.dns indexed in
    check_domain-lookup name (update_feeds e w p).0 (rw same kept)
    ∙ ap (λ g. (lookup g name).1) same
    ∙ lookup-below f name kept
    ∙ rw (import_all-allow ds p.dns, import_all-below ds p.dns (reverse_labels (normalize name)))
        refl
