-- ===== src/AppControl.antt =====
-- Application control (aegorx/app_control.py): rules, the policy's evaluation and the controller.
--
-- `Env` is what a check asks of the system and of Python's library: the absolute path, the lower-case
-- extension, the SHA-256 of a file ("" where it cannot be read), `fnmatch`, `str.lower` and the
-- substring test. The controller's lock makes each method one step. `saved` is the policy file:
-- what the store was last given. Creation times, the rule names made
-- up for rules without one, and the scan callback are left out.
pub mod Coherence
mod Tests
use aegor_x.Prelude.{
  ℕ, zero, suc, ◌+◌, String, Bool, true, false, ◌&&◌, not, Option, none, some, List, [], ◌∷◌, ◌++◌,
  ◌≐◌, lookup, insert, String_discrete, if◌then◌else◌, ltb, length, is_some, ite,
}

pub record AppRule : Type 0 where
  pub rule_type : String
  pub value : String
  pub action : String
  pub name : String
  pub enabled : Bool

pub record AppControlPolicy : Type 0 where
  pub rules : List AppRule
  pub default_action : String

pub record Env : Type 0 where
  pub abspath : String → String
  pub extension : String → String  -- os.path.splitext(path)[1].lower()
  pub file_sha256 : String → String
  pub fnmatch : String → String → Bool
  pub lower : String → String
  pub contains : String → String → Bool
  pub basename : String → String

pub record Controller : Type 0 where
  pub policy : AppControlPolicy
  pub saved : AppControlPolicy
  pub cache : List (String × String)
  pub checked : ℕ
  pub allowed : ℕ
  pub blocked : ℕ

-- `_matches_rule`
unfoldable pub matches_rule : Env → String → String → AppRule → Bool
matches_rule env path ext rule =
    if rule.rule_type ≐ "hash"
    then (env.file_sha256 path ≐ rule.value) && not (env.file_sha256 path ≐ "")
    else if rule.rule_type ≐ "path"
    then env.fnmatch path rule.value
    else if rule.rule_type ≐ "extension"
    then ext ≐ env.lower rule.value
    else if rule.rule_type ≐ "publisher"
    then env.contains (env.lower rule.value) (env.lower path)
    else false

-- The rule is enabled and matches.
abbrev pub applies : Env → String → String → AppRule → Bool
applies env path ext rule = rule.enabled && matches_rule env path ext rule

-- The loop of `_evaluate`: the first rule that applies decides.
unfoldable pub first_action : Env → String → String → List AppRule → String → String
first_action env path ext [] default = default
first_action env path ext (rule ∷ rules) default =
    let rest = first_action env path ext rules default in
    if applies env path ext rule then rule.action else rest

unfoldable pub evaluate : Env → AppControlPolicy → String → String
evaluate env p path =
    first_action env (env.abspath path) (env.extension (env.abspath path)) p.rules p.default_action

abbrev pub counted : String → Controller → Controller
counted verdict c =
    if verdict ≐ "allow"
    then record c { checked = c.checked + 1; allowed = c.allowed + 1 }
    else record c { checked = c.checked + 1; blocked = c.blocked + 1 }

unfoldable pub check : Env → Controller → String → Controller × String
check env c path = elim (lookup String_discrete path c.cache) [
  | some verdict ↦ (c, verdict)
  | none ↦
      let verdict = evaluate env c.policy path in
      (counted verdict (record c { cache = insert String_discrete path verdict c.cache }), verdict)
]

-- AppRule(…)
abbrev pub new_rule : String → String → String → String → AppRule
new_rule rule_type value action name = record {
  rule_type = rule_type;
  value = value;
  action = action;
  name = name;
  enabled = true;
}

abbrev with_rules : Controller → List AppRule → Controller
with_rules c rules =
    let p : AppControlPolicy = record c.policy { rules = rules } in
    record c { policy = p; saved = p; cache = [] }

unfoldable pub add_rule : Controller → AppRule → Controller
add_rule c rule = with_rules c (c.policy.rules ++ rule ∷ [])

-- rules.pop(index)
unfoldable pub pop : List AppRule → ℕ → List AppRule
pop [] i = []
pop (x ∷ xs) zero = xs
pop (x ∷ xs) (suc i) = x ∷ pop xs i

-- Of an index that is not negative.
unfoldable pub remove_rule : Controller → ℕ → Controller × Bool
unfolding pop
remove_rule c index =
    if ltb index (length c.policy.rules)
    then (with_rules c (pop c.policy.rules index), true)
    else (c, false)

unfoldable pub set_default_action : Controller → String → Controller
set_default_action c action =
    let p : AppControlPolicy = record c.policy { default_action = action } in
    record c { policy = p; saved = p }

abbrev named : Env → String → String → String
named env name path = if name ≐ "" then env.basename path else name

-- `block_hash` and `allow_hash`; `none` is the ValueError for a file that cannot be hashed.
unfoldable pub rule_for_hash : Env → String → Controller → String → String → Option Controller
unfolding add_rule
rule_for_hash env action c path name =
    if env.file_sha256 path ≐ ""
    then none
    else some (add_rule c (new_rule "hash" (env.file_sha256 path) action (named env name path)))

unfoldable pub block_hash : Env → Controller → String → String → Option Controller
unfolding rule_for_hash
block_hash env = rule_for_hash env "block"

unfoldable pub allow_hash : Env → Controller → String → String → Option Controller
unfolding rule_for_hash
allow_hash env = rule_for_hash env "allow"

unfoldable pub block_path : Controller → String → String → Controller
unfolding add_rule
block_path c pattern name = add_rule c (new_rule "path" pattern "block" name)

unfoldable pub allow_path : Controller → String → String → Controller
unfolding add_rule
allow_path c pattern name = add_rule c (new_rule "path" pattern "allow" name)

unfoldable pub reset_stats : Controller → Controller
reset_stats c = record c { checked = 0; allowed = 0; blocked = 0 }
