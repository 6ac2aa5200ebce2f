-- ===== src/Dns/Walk.antt =====
-- The trie of aegorx/network/dns_filter.py blocks exactly the inserted names and what lies below them.
use aegor_x.Prelude.{
  ◌≡◌, refl, ◌∙◌, Bool, true, false, ◌||◌, Option, none, some, List, [], ◌∷◌, ite, arith, any,
  Option-cases, inl, inr,
}
use aegor_x.Dns.Domain.{Text, Text-discrete}
use aegor_x.Dns.Trie.{
  Node, Children, node, nil, child, empty, blocked, find, update, insert, lookup_node,
  ancestor_blocked, is_blocked, build,
}

-- The labels of one name begin with those of the other, from the top level on.
abbrev pub is_prefix : List Text → List Text → Bool
is_prefix [] ls = true
is_prefix (l ∷ ls) [] = false
is_prefix (l ∷ ls) (k ∷ ks) = ite (Text-discrete l k) (is_prefix ls ks) false

-- A node on the way, the root included, is blocked.
pub covered : List Text → Node → Bool
covered [] (node cs b) = b
covered (l ∷ ls) (node cs b) = elim (find l cs) [ none ↦ b | some n ↦ b || covered ls n ]

abbrev or_empty : Option Node → Node
or_empty none = empty
or_empty (some n) = n

find-update :
    (k l : Text) (f : Node → Node) (cs : Children)
    → find k (update l f cs) ≡ ite (Text-discrete l k) (some (f (or_empty (find l cs)))) (find k cs)
unfolding find update
find-update k l f nil = ground arith
find-update k l f (child j n cs) = ground (arith, find-update k l f cs)

pub covered-empty : (ks : List Text) → covered ks empty ≡ false
unfolding covered find
covered-empty [] = refl
covered-empty (k ∷ ks) = refl

-- An insertion covers what begins with its labels, and uncovers nothing.
pub covered-insert :
    (ls ks : List Text) (n : Node) → covered ks (insert ls n) ≡ is_prefix ls ks || covered ks n
unfolding covered insert
covered-insert [] [] (node cs b) = refl
covered-insert [] (k ∷ ks) (node cs b) = ground arith
covered-insert (l ∷ ls) [] (node cs b) = refl
covered-insert (l ∷ ls) (k ∷ ks) (node cs b) = ground (
  arith,
  find-update k l (insert ls) cs,
  covered-insert ls ks (or_empty (find l cs)),
  covered-empty ks,
)

pub covered-build :
    (ds : List (List Text)) (ks : List Text) (root : Node)
    → covered ks (build ds root) ≡ any (λ d. is_prefix d ks) ds || covered ks root
unfolding build
covered-build [] ks root = refl
covered-build (d ∷ ds) ks root =
    ground (arith, covered-build ds ks (insert d root), covered-insert d ks root)

covered-ancestor : (ks : List Text) (n : Node) → covered ks n ≡ blocked n || ancestor_blocked ks n
unfolding covered ancestor_blocked
covered-ancestor [] (node cs b) = ground arith
covered-ancestor (k ∷ ks) (node cs b) = elim (Option-cases (find k cs)) [
  | inl e ↦ ground arith
  | inr (n, e) ↦ ground (arith, covered-ancestor ks n)
]

covered-lookup_node :
    (ks : List Text) (n m : Node)
    → lookup_node ks n ≡ some m
    → blocked m ≡ true
    → covered ks n ≡ true
unfolding covered lookup_node
covered-lookup_node [] (node cs b) m e h = ground arith
covered-lookup_node (k ∷ ks) (node cs b) m e h = elim (Option-cases (find k cs)) [
  | inl f ↦ ground arith
  | inr (n, f) ↦ ground (arith, covered-lookup_node ks n m)
]

-- The two tests of `lookup` together ask whether a node on the way below the root is blocked.
pub is_blocked-covered :
    (ks : List Text) (root : Node) → blocked root ≡ false → is_blocked ks root ≡ covered ks root
unfolding is_blocked
is_blocked-covered ks root h = elim (Option-cases (lookup_node ks root)) [
  | inl e ↦ ground (arith, covered-ancestor ks root)
  | inr (m, e) ↦ ground (arith, covered-ancestor ks root, covered-lookup_node ks root m)
]

pub covered-blocked : (n : Node) → blocked n ≡ covered [] n
unfolding covered
covered-blocked (node cs b) = refl

-- A trie built from names with labels blocks exactly the names that are among them or below one of them.
pub is_blocked-build :
    (ds : List (List Text)) (ks : List Text)
    → any (λ d. is_prefix d []) ds ≡ false
    → is_blocked ks (build ds empty) ≡ any (λ d. is_prefix d ks) ds
is_blocked-build ds ks h =
    let root : blocked (build ds empty) ≡ false =
      covered-blocked (build ds empty)
      ∙ covered-build ds [] empty
      ∙ ground (arith, covered-empty []) in
    is_blocked-covered ks (build ds empty) root
    ∙ covered-build ds ks empty
    ∙ ground (arith, covered-empty ks)
