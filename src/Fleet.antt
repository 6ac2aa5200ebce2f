-- ===== src/Fleet.antt =====
-- The store of the management server (aegorx/management/server.py, `FleetStore`): agents, pairing tokens,
-- commands and the audit table.
--
-- A table is the list of its rows in insertion order, and a primary key or a UNIQUE column makes an INSERT
-- raise: that is `none` here. New tokens, ids and the clock are arguments; `fingerprint` is
-- aegorx/management/protocol.py's hash of a token. A command's envelope and a result are the texts that are
-- stored. Listings for the console (`list_agents`, `results`, `detections`) are left out.
pub mod Pairing
pub mod Access
pub mod Delivery
pub mod Handlers
pub mod Served
mod Tests
mod Requests
mod Tables
use aegor_x.Prelude.{
  ℕ, ◌+◌, ◌*◌, String, Bool, true, false, ◌&&◌, ◌||◌, not, Option, none, some, List, [], ◌∷◌, ◌++◌,
  map, any, select, ◌≐◌, ltb, leb, is_some, if◌then◌else◌,
}
unfoldable pub use Tables.*

-- `enroll`; the new id and the new token are arguments, and `none` is the ValueError of a name that is taken
-- or the IntegrityError of an id that is.
unfoldable pub enroll :
    (String → String) → ℕ → String → String → String → String → Store → Option Store
unfolding audited
enroll fingerprint now agent_id api_token name pubkey s =
    if any (λ a. a.name ≐ name) s.agents
    then none
    else if any (λ a. a.agent_id ≐ agent_id) s.agents
    then none
    else some (
        audited "server" "enroll" (name ∷ agent_id ∷ []) (record s {
          agents = s.agents ++ new_agent agent_id name pubkey (fingerprint api_token) now ∷ [];
        }))

-- name = ? AND revoked = 0
abbrev pub active_name : String → Agent → Bool
active_name name a = (a.name ≐ name) && not a.revoked

abbrev pub revoked_agent : Agent → Agent
revoked_agent a = record a { revoked = true }

unfoldable pub revoke : String → Store → Store × Bool
unfolding update_where audited
revoke name s =
    if any (active_name name) s.agents
    then (
      audited "admin" "revoke" (name ∷ [])
          (record s { agents = update_where (active_name name) revoked_agent s.agents }),
      true,
    )
    else (s, false)

-- `issue_pairing_token`, of a time to live in the clock's ticks
unfoldable pub issue_pairing_token :
    (String → String) → ℕ → ℕ → String → String → Store → Option Store
unfolding audited
issue_pairing_token fingerprint now ttl token name s =
    if any (λ r. r.token_hash ≐ fingerprint token) s.pairing
    then none
    else some (
        audited "admin" "pairing-issued" (name ∷ []) (record s {
          pairing =
              s.pairing
              ++ record {
                token_hash = fingerprint token;
                name = name;
                created = now;
                expires = now + ttl;
                used = none;
              }
                ∷ [];
        }))

abbrev pub used_at : ℕ → PairingRow → PairingRow
used_at now r = record r { used = some now }

-- The token is used already, or has expired.
abbrev pub spent : ℕ → PairingRow → Bool
spent now r = is_some r.used || ltb r.expires now

unfoldable pub consume_pairing : (String → String) → ℕ → String → Store → Store × Option String
unfolding first update_where
consume_pairing fingerprint now token s =
    elim (first (λ r. r.token_hash ≐ fingerprint token) s.pairing) [
      | none ↦ (s, none)
      | some row ↦ if spent now row then (s, none) else (
        record s {
          pairing = update_where (λ r. r.token_hash ≐ fingerprint token) (used_at now) s.pairing;
        },
        some row.name,
      )
    ]

unfoldable pub auth_agent : (String → String) → String → String → Store → Option Agent
unfolding first
auth_agent fingerprint agent_id api_token s = elim (first (λ a. a.agent_id ≐ agent_id) s.agents) [
  | none ↦ none
  | some row ↦
      if row.revoked
      then none
      else if row.api_token_hash ≐ fingerprint api_token
      then some row
      else none
]

unfoldable pub touch : ℕ → String → String → String → String → Store → Store
unfolding update_where
touch now agent_id ip platform version s = record s {
  agents =
      update_where (λ a. a.agent_id ≐ agent_id)
        (λ a. record a {
          last_seen = some now;
          last_ip = ip;
          platform = platform;
          version = version;
        })
        s.agents;
}

unfoldable pub get_pubkey : String → Store → Option String
unfolding first
get_pubkey agent_id s = elim (first (λ a. a.agent_id ≐ agent_id) s.agents) [
  | none ↦ none
  | some a ↦ some a.pubkey_pem
]

abbrev pub new_command : ℕ → String → String → String → String → Command
new_command now agent_id command command_id envelope = record {
  command_id = command_id;
  agent_id = agent_id;
  command = command;
  envelope = envelope;
  created = now;
  dispatched_at = none;
  result_at = none;
  status = pending;
  result = "";
}

-- `queue_command`, of the envelope that `make_command` has signed
unfoldable pub queue_command : ℕ → String → String → String → String → Store → Option Store
unfolding audited
queue_command now agent_id command command_id envelope s =
    if any (λ c. c.command_id ≐ command_id) s.commands
    then none
    else some (
        audited "admin" "queue" (command ∷ agent_id ∷ []) (record s {
          commands = s.commands ++ new_command now agent_id command command_id envelope ∷ [];
        }))

abbrev pub is_pending : Status → Bool
is_pending pending = true
is_pending _ = false

abbrev pub waits_for : String → Command → Bool
waits_for agent_id c = (c.agent_id ≐ agent_id) && is_pending c.status

-- ORDER BY created_utc
unfoldable pub insert_by_time : Command → List Command → List Command
insert_by_time c [] = c ∷ []
insert_by_time c (d ∷ ds) =
    let rest = insert_by_time c ds in if leb c.created d.created then c ∷ d ∷ ds else d ∷ rest

unfoldable pub by_time : List Command → List Command
unfolding insert_by_time
by_time [] = []
by_time (c ∷ cs) = insert_by_time c (by_time cs)

abbrev pub dispatched_now : ℕ → Command → Command
dispatched_now now c = record c { status = dispatched; dispatched_at = some now }

-- `pending_for`: what waits for the agent, oldest first, and marked as dispatched. An update of no row
-- changes nothing.
unfoldable pub pending_for : ℕ → String → Store → Store × List String
unfolding by_time update_where
pending_for now agent_id s = (
  record s { commands = update_where (waits_for agent_id) (dispatched_now now) s.commands },
  map (λ c. c.envelope) (by_time (select (waits_for agent_id) s.commands)),
)

-- command_id = ? AND agent_id = ?
abbrev pub is_for : String → String → Command → Bool
is_for agent_id command_id c = (c.command_id ≐ command_id) && (c.agent_id ≐ agent_id)

abbrev pub finished : ℕ → String → Command → Command
finished now result c = record c { status = done; result_at = some now; result = result }

-- `store_result`, of the text that is kept and the summary that is audited
unfoldable pub store_result : ℕ → String → String → String → String → Store → Store × Bool
unfolding update_where audited
store_result now agent_id command_id result summary s =
    if any (is_for agent_id command_id) s.commands
    then (
      audited agent_id "result" (command_id ∷ summary ∷ []) (record s {
        commands = update_where (is_for agent_id command_id) (finished now result) s.commands;
      }),
      true,
    )
    else (s, false)
