-- ===== src/AppControl/Coherence.antt =====
-- The verdict cache of aegorx/app_control.py against the policy, and the order of the rules.
use aegor_x.Prelude.{
  ℕ, ◌+◌, String, ◌≡◌, refl, true, false, some, List, [], ◌∷◌, ◌++◌, All, arith, lookup,
  lookup-insert, String_discrete, ltb, length, Option-cases, Bool-cases, inl, inr,
}
use aegor_x.AppControl.{
  AppRule, Env, Controller, applies, first_action, evaluate, check, add_rule, remove_rule,
  set_default_action,
}

-- The first rule, in the policy's order, that is enabled and matches decides, whatever follows it.
pub first_action_lem :
    (env : Env) (path ext : String) (before : List AppRule) (rule : AppRule) (after : List AppRule)
    (default : String)
    → All (λ r. applies env path ext r ≡ false) before
    → applies env path ext rule ≡ true
    → first_action env path ext (before ++ rule ∷ after) default ≡ rule.action
unfolding first_action
first_action_lem env path ext [] rule after default h hit = rw hit
first_action_lem env path ext (r ∷ before) rule after default h hit =
    rw h.0 (first_action_lem env path ext before rule after default h.1 hit)

-- Without a rule that applies, the default decides.
pub first_action_default :
    (env : Env) (path ext : String) (rules : List AppRule) (default : String)
    → All (λ r. applies env path ext r ≡ false) rules
    → first_action env path ext rules default ≡ default
unfolding first_action
first_action_default env path ext [] default h = refl
first_action_default env path ext (r ∷ rules) default h =
    rw h.0 (first_action_default env path ext rules default h.1)

-- Each cached verdict is what the policy says now.
pub record IsCoherent (env : Env) (c : Controller) : Type 0 where
  pub cached :
      (path verdict : String)
      → lookup String_discrete path c.cache ≡ some verdict
      → evaluate env c.policy path ≡ verdict

-- The counters add up.
pub record IsCounted (c : Controller) : Type 0 where
  pub total : c.checked ≡ c.allowed + c.blocked

-- On a coherent cache a check answers as the policy does, and leaves the cache coherent.
pub check-evaluate :
    (env : Env) (c : Controller) (path : String)
    → IsCoherent env c
    → ((check env c path).1 ≡ evaluate env c.policy path) × IsCoherent env (check env c path).0
unfolding check
check-evaluate env c path h = elim (Option-cases (lookup String_discrete path c.cache)) [
  | inr (v, e) ↦ (ground (arith, h.cached path v), rw (e, check) h)
  | inl e ↦ (
    rw (e, check),
    record {
      cached = λ p v k. ground (
        arith,
        h.cached p v,
        lookup-insert String_discrete p path (evaluate env c.policy path) c.cache,
      );
    },
  )
]

-- Every check that is counted is counted as allowed or as blocked, never as both.
pub check-IsCounted :
    (env : Env) (c : Controller) (path : String) → IsCounted c → IsCounted (check env c path).0
unfolding check
check-IsCounted env c path h = ground arith

-- Adding or removing a rule leaves a coherent cache, whatever the cache was before.
pub add_rule-IsCoherent :
    (env : Env) (c : Controller) (rule : AppRule) → IsCoherent env (add_rule c rule)
unfolding add_rule lookup
add_rule-IsCoherent env c rule = record { cached = λ p v k. cc }

-- Removing a rule in range leaves a coherent cache; out of range it changes nothing.
pub remove_rule-IsCoherent :
    (env : Env) (c : Controller) (index : ℕ)
    → IsCoherent env c
    → IsCoherent env (remove_rule c index).0
unfolding remove_rule lookup
remove_rule-IsCoherent env c index h = elim (Bool-cases (ltb index (length c.policy.rules))) [
  | inl e ↦ rw e (record { cached = λ p v k. cc })
  | inr e ↦ rw e h
]

-- A new default action does not reach a path that was checked before: the cached verdict is returned
-- still, whatever the new default is.
pub check-set_default_action :
    (env : Env) (c : Controller) (path action : String)
    → (check env (set_default_action (check env c path).0 action) path).1 ≡ (check env c path).1
unfolding check set_default_action
check-set_default_action env c path action =
    ground (arith, lookup-insert String_discrete path path (evaluate env c.policy path) c.cache)
