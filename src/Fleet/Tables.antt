-- ===== src/Fleet/Tables.antt =====
-- The tables of the store (aegorx/management/server.py, `SCHEMA`) and the statements on them.
use aegor_x.Prelude.{ℕ, String, Bool, false, Option, none, some, List, [], ◌∷◌, ◌++◌, if◌then◌else◌}

pub record Agent : Type 0 where
  pub agent_id : String
  pub name : String
  pub pubkey_pem : String
  pub api_token_hash : String
  pub enrolled : ℕ
  pub last_seen : Option ℕ
  pub last_ip : String
  pub platform : String
  pub version : String
  pub revoked : Bool

pub record PairingRow : Type 0 where
  pub token_hash : String
  pub name : String
  pub created : ℕ
  pub expires : ℕ
  pub used : Option ℕ

pub data Status : Type 0 where
  pending dispatched done : Status

pub record Command : Type 0 where
  pub command_id : String
  pub agent_id : String
  pub command : String
  pub envelope : String
  pub created : ℕ
  pub dispatched_at : Option ℕ
  pub result_at : Option ℕ
  pub status : Status
  pub result : String

pub record AuditRow : Type 0 where
  pub actor : String
  pub action : String
  pub detail : List String

pub record DetectionRow : Type 0 where
  pub agent_id : String
  pub seen : ℕ
  pub path : String
  pub sha256 : String
  pub verdict : String
  pub detector : String
  pub name : String

pub record Store : Type 0 where
  pub agents : List Agent
  pub pairing : List PairingRow
  pub commands : List Command
  pub detections : List DetectionRow
  pub audit : List AuditRow

-- `audit`
unfoldable pub audited : String → String → List String → Store → Store
audited actor action detail s = record s {
  audit = s.audit ++ record { actor = actor; action = action; detail = detail } ∷ [];
}

-- `fetchone` of the rows that the test accepts
unfoldable pub first {ℓ} : {A : Type ℓ} → (A → Bool) → List A → Option A
first p [] = none
first p (x ∷ xs) = let rest = first p xs in if p x then some x else rest

-- UPDATE … SET … WHERE
unfoldable pub update_where {ℓ} : {A : Type ℓ} → (A → Bool) → (A → A) → List A → List A
update_where p f [] = []
update_where p f (x ∷ xs) = (if p x then f x else x) ∷ update_where p f xs

abbrev pub new_agent : String → String → String → String → ℕ → Agent
new_agent agent_id name pubkey hash now = record {
  agent_id = agent_id;
  name = name;
  pubkey_pem = pubkey;
  api_token_hash = hash;
  enrolled = now;
  last_seen = none;
  last_ip = "";
  platform = "";
  version = "";
  revoked = false;
}
