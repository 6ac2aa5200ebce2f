-- ===== src/AppControl/Tests.antt =====
-- Runs of the controller of aegorx/app_control.py with three rules.
use aegor_x.Prelude.{◌≡◌, refl, String_discrete, [], ◌∷◌, ◌≐◌, lookup}
use aegor_x.AppControl.{
  AppRule, AppControlPolicy, Env, Controller, matches_rule, first_action, evaluate, check, new_rule,
}
use aegor_x.AppControl.Coherence.{IsCoherent, check-evaluate}

abbrev env : Env
env = record {
  abspath = λ p. p;
  extension = λ p. ".exe";
  file_sha256 = λ p. "77aa";
  fnmatch = λ p pattern. p ≐ pattern;
  lower = λ s. s;
  contains = λ s t. s ≐ t;
  basename = λ p. p;
}

abbrev by_path : AppRule
by_path = new_rule "path" "/opt/tool" "allow" "tool"

abbrev by_hash : AppRule
by_hash = new_rule "hash" "77aa" "block" "dropper"

abbrev by_extension : AppRule
by_extension = new_rule "extension" ".exe" "allow" "programs"

abbrev three_rules : AppControlPolicy
three_rules = record { rules = by_path ∷ by_hash ∷ by_extension ∷ []; default_action = "allow" }

abbrev controller : Controller
controller = record {
  policy = three_rules;
  saved = three_rules;
  cache = [];
  checked = 0;
  allowed = 0;
  blocked = 0;
}

controller-IsCoherent : IsCoherent env controller
controller-IsCoherent = record { cached = λ p v k. unfold lookup in cc k }

check-evaluate_example :
    ((check env controller "/tmp/x.exe").1 ≡ evaluate env three_rules "/tmp/x.exe")
    × IsCoherent env (check env controller "/tmp/x.exe").0
check-evaluate_example = check-evaluate env controller "/tmp/x.exe" controller-IsCoherent

blocks_by_hash : (check env controller "/tmp/x.exe").1 ≡ "block"
unfolding check evaluate first_action matches_rule lookup String_discrete
blocks_by_hash = refl
