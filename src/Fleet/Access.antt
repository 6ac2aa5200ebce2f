-- ===== src/Fleet/Access.antt =====
-- Credentials in aegorx/management/server.py: enrolling, authenticating and revoking.
use aegor_x.Prelude.{
  ℕ, String, ◌≡◌, ◌≢◌, Bool, false, some, List, [], ◌∷◌, any, ◌≐◌, All, arith, Bool-cases,
  Option-cases, inl, inr, if◌then◌else◌,
}
use aegor_x.Fleet.{
  Store, Agent, first, update_where, new_agent, enroll, active_name, revoked_agent, revoke,
  auth_agent,
}
use aegor_x.Fleet.Pairing.{first-append}

-- An agent that has just been enrolled is authenticated by its id and the token that it was given, under the
-- name it was enrolled with.
pub auth_agent-enroll :
    (fingerprint : String → String) (now : ℕ) (agent_id api_token name pubkey : String)
    (s t : Store)
    → enroll fingerprint now agent_id api_token name pubkey s ≡ some t
    → auth_agent fingerprint agent_id api_token t
      ≡ some (new_agent agent_id name pubkey (fingerprint api_token) now)
unfolding enroll auth_agent
auth_agent-enroll fingerprint now agent_id api_token name pubkey s t e =
    elim (Bool-cases (any (λ a. a.name ≐ name) s.agents)) [
      | inl k ↦ absurd (ground arith)
      | inr k ↦ elim (Bool-cases (any (λ a. a.agent_id ≐ agent_id) s.agents)) [
        | inl j ↦ absurd (ground arith)
        | inr j ↦
            let row =
              first-append (λ a. a.agent_id ≐ agent_id) s.agents
                (new_agent agent_id name pubkey (fingerprint api_token) now) j (ground arith) in
            ground (arith, row)
      ]
    ]

-- Whoever has the name is revoked.
abbrev Barred : String → Agent → Type 0
Barred name a = a.revoked ≡ false → (a.name ≐ name) ≡ false

update_where-Barred :
    (name : String) (xs : List Agent)
    → All (Barred name) (update_where (active_name name) revoked_agent xs)
unfolding update_where
update_where-Barred name [] = tt
update_where-Barred name (x ∷ xs) = (this, update_where-Barred name xs)
  where
    this : Barred name (if active_name name x then revoked_agent x else x)
    this = ground arith

none-Barred :
    (name : String) (xs : List Agent) → any (active_name name) xs ≡ false → All (Barred name) xs
none-Barred name [] h = tt
none-Barred name (x ∷ xs) h = (λ k. ground arith, none-Barred name xs (ground arith))

revoke-Barred : (name : String) (s : Store) → All (Barred name) (revoke name s).0.agents
unfolding revoke
revoke-Barred name s = elim (Bool-cases (any (active_name name) s.agents)) [
  | inl e ↦ rw e (update_where-Barred name s.agents)
  | inr e ↦ rw e (none-Barred name s.agents e)
]

first-All :
    {A : Type 0} (P : A → Type 0) (p : A → Bool) (xs : List A) (x : A)
    → All P xs
    → first p xs ≡ some x
    → P x
unfolding first
first-All P p [] x h e = cc
first-All P p (y ∷ xs) x h e = elim (Bool-cases (p y)) [
  | inl k ↦ let same : x ≡ y = ground arith in rw same h.0
  | inr k ↦ first-All P p xs x h.1 (rw k at e)
]

auth_agent-row :
    (fingerprint : String → String) (agent_id api_token : String) (s : Store) (a : Agent)
    → auth_agent fingerprint agent_id api_token s ≡ some a
    → (first (λ x. x.agent_id ≐ agent_id) s.agents ≡ some a) × (a.revoked ≡ false)
unfolding auth_agent
auth_agent-row fingerprint agent_id api_token s a e =
    elim (Option-cases (first (λ x. x.agent_id ≐ agent_id) s.agents)) [
      | inl k ↦ absurd (ground arith)
      | inr (row, k) ↦ ground arith
    ]

-- After a name has been revoked, nobody is authenticated under it, by any id and token.
pub auth_agent-revoke :
    (fingerprint : String → String) (agent_id api_token name : String) (s : Store) (a : Agent)
    → auth_agent fingerprint agent_id api_token (revoke name s).0 ≡ some a
    → a.name ≢ name
auth_agent-revoke fingerprint agent_id api_token name s a e =
    let (row, active) = auth_agent-row fingerprint agent_id api_token (revoke name s).0 a e in
    let barred =
      first-All (Barred name) _ (revoke name s).0.agents a (revoke-Barred name s) row active in
    λ same. ground arith
