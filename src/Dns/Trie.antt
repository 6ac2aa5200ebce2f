-- ===== src/Dns/Trie.antt =====
-- The trie of aegorx/network/dns_filter.py: `_insert`, `_lookup_node`, `_build_trie` and the walk of
-- `lookup` over the ancestors.
--
-- A node's dictionary of children is a list of labels with their nodes, in the block of the node's type.
use aegor_x.Prelude.{Bool, true, false, Option, none, some, List, [], ◌∷◌, ite, if◌then◌else◌}
use aegor_x.Dns.Domain.{Text, Text-discrete}

mutual
  pub data Node : Type 0 where
    node : Children → Bool → Node

  pub data Children : Type 0 where
    nil : Children
    child : Text → Node → Children → Children

abbrev pub empty : Node
empty = node nil false

abbrev pub blocked : Node → Bool
blocked (node cs b) = b

-- children.get(label)
unfoldable pub find : Text → Children → Option Node
find label nil = none
find label (child l n cs) = ite (Text-discrete l label) (some n) (find label cs)

-- children.setdefault(label, _TrieNode()), with the node put through a function
unfoldable pub update : Text → (Node → Node) → Children → Children
update label f nil = child label (f empty) nil
update label f (child l n cs) =
    ite (Text-discrete l label) (child l (f n) cs) (child l n (update label f cs))

-- `_insert`, over the labels from the root on
unfoldable pub insert : List Text → Node → Node
unfolding update
insert [] (node cs b) = node cs true
insert (l ∷ ls) (node cs b) = node (update l (insert ls) cs) b

-- `_lookup_node`
unfoldable pub lookup_node : List Text → Node → Option Node
unfolding find
lookup_node [] n = some n
lookup_node (l ∷ ls) (node cs b) = elim (find l cs) [ none ↦ none | some n ↦ lookup_node ls n ]

-- The loop of `lookup` over the ancestors: a node on the way that is blocked.
unfoldable pub ancestor_blocked : List Text → Node → Bool
unfolding find
ancestor_blocked [] n = false
ancestor_blocked (l ∷ ls) (node cs b) = elim (find l cs) [
  | none ↦ false
  | some n ↦ if blocked n then true else ancestor_blocked ls n
]

-- The two tests of `lookup`, one after the other.
unfoldable pub is_blocked : List Text → Node → Bool
unfolding lookup_node ancestor_blocked
is_blocked labels root = elim (lookup_node labels root) [
  | none ↦ ancestor_blocked labels root
  | some n ↦ if blocked n then true else ancestor_blocked labels root
]

-- `_build_trie`
unfoldable pub build : List (List Text) → Node → Node
unfolding insert
build [] root = root
build (ls ∷ rest) root = build rest (insert ls root)
