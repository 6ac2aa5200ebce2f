-- ===== src/Protector/Lines.antt =====
-- The names that the filter of a `NetworkProtector` (aegorx/network/protector.py) holds have no end of a
-- line in them, if those that it is given have none.
use mathlib.Core.List.{reverse}
use aegor_x.Prelude.{
  ℕ, ◌+◌, ◌≡◌, refl, ◌∙◌, Bool, true, ◌&&◌, not, List, [], ◌∷◌, ◌++◌, map, all, all-reverse, arith,
  mem, add, discard, ◌==◌, if◌then◌else◌,
}
use aegor_x.Dns.Domain.{Text, Text-discrete, normalize, strip, lstrip, to_lower, is_space}
use aegor_x.Dns.Filter.{
  Filter, block, unblock, import_one, import_loop, import_blocklist, persist_custom,
}
use aegor_x.Hosts.{is_break}
use aegor_x.Hosts.Lines.{is_line}
use aegor_x.Intel.{from_keys, dedupe, import_all}

is_break-to_lower : (c : ℕ) → is_break (to_lower c) ≡ is_break c
is_break-to_lower c = ground arith

lower-is_line : (s : Text) → is_line (map to_lower s) ≡ is_line s
lower-is_line [] = refl
lower-is_line (c ∷ s) = ground (arith, lower-is_line s, is_break-to_lower c)

lstrip-is_line : (p : ℕ → Bool) (s : Text) → is_line s ≡ true → is_line (lstrip p s) ≡ true
unfolding lstrip
lstrip-is_line p [] h = refl
lstrip-is_line p (c ∷ s) h = ground (arith, lstrip-is_line p s)

reverse-is_line : (s : Text) → is_line (reverse s) ≡ is_line s
reverse-is_line s = all-reverse (λ c. not (is_break c)) s

-- A domain without the end of a line has none when it is normalised.
normalize-is_line : (s : Text) → is_line s ≡ true → is_line (normalize s) ≡ true
unfolding normalize strip
normalize-is_line s h =
    let a = lstrip-is_line is_space s h in
    let b =
      lstrip-is_line is_space (reverse (lstrip is_space s))
        (reverse-is_line (lstrip is_space s) ∙ a) in
    lstrip-is_line (λ c. c == b'.') (map to_lower (strip s))
      (lower-is_line (strip s)
        ∙ reverse-is_line (lstrip is_space (reverse (lstrip is_space s)))
        ∙ b)

abbrev pub are_lines : List Text → Bool
are_lines ds = all is_line ds

snoc-are_lines : (ds : List Text) (d : Text) → are_lines (ds ++ d ∷ []) ≡ are_lines ds && is_line d
snoc-are_lines [] d = ground arith
snoc-are_lines (e ∷ ds) d = ground (arith, snoc-are_lines ds d)

add-are_lines :
    (ds : List Text) (d : Text)
    → are_lines ds ≡ true
    → is_line d ≡ true
    → are_lines (add Text-discrete d ds) ≡ true
unfolding add
add-are_lines ds d h k = ground (arith, snoc-are_lines ds d)

discard-are_lines :
    (ds : List Text) (d : Text)
    → are_lines ds ≡ true
    → are_lines (discard Text-discrete d ds) ≡ true
unfolding discard
discard-are_lines [] d h = refl
discard-are_lines (e ∷ ds) d h = ground (arith, discard-are_lines ds d)

import_loop-are_lines :
    (f : Filter) (ts : List Text) (n : ℕ)
    → are_lines f.blocked_domains ≡ true
    → are_lines ts ≡ true
    → are_lines (import_loop f ts n).0.blocked_domains ≡ true
unfolding import_loop import_one
import_loop-are_lines f [] n h k = h
import_loop-are_lines f (t ∷ ts) n h k =
    let one : are_lines (import_one f t).0.blocked_domains ≡ true = ground (
      arith,
      add-are_lines f.blocked_domains (normalize t) h (normalize-is_line t (ground arith)),
    ) in
    import_loop-are_lines (import_one f t).0 ts (n + (import_one f t).1) one (ground arith)

from_keys-are_lines :
    (ks xs : List Text)
    → are_lines ks ≡ true
    → are_lines xs ≡ true
    → are_lines (from_keys ks xs) ≡ true
from_keys-are_lines ks [] h k = h
from_keys-are_lines ks (x ∷ xs) h k =
    from_keys-are_lines (if mem Text-discrete x ks then ks else ks ++ x ∷ []) xs
      (ground (arith, snoc-are_lines ks x)) (ground arith)

pub import_all-are_lines :
    (ds : List Text) (f : Filter)
    → are_lines f.blocked_domains ≡ true
    → are_lines ds ≡ true
    → are_lines (import_all ds f).0.blocked_domains ≡ true
unfolding import_blocklist
import_all-are_lines [] f h k = h
import_all-are_lines (d ∷ ds) f h k =
    ground (
      arith,
      import_loop-are_lines f (dedupe (d ∷ ds)) 0 h (from_keys-are_lines [] (d ∷ ds) refl k),
    )

pub block-are_lines :
    (f : Filter) (d : Text)
    → are_lines f.blocked_domains ≡ true
    → is_line d ≡ true
    → are_lines (block f d).0.blocked_domains ≡ true
unfolding block persist_custom
block-are_lines f d h k =
    ground (arith, add-are_lines f.blocked_domains (normalize d) h (normalize-is_line d k))

pub unblock-are_lines :
    (f : Filter) (d : Text)
    → are_lines f.blocked_domains ≡ true
    → are_lines (unblock f d).0.blocked_domains ≡ true
unfolding unblock persist_custom
unblock-are_lines f d h = ground (arith, discard-are_lines f.blocked_domains (normalize d) h)
