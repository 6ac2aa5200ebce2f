-- ===== src/Commands.antt =====
-- The management protocol (aegorx/management/protocol.py): signed commands, and how an agent checks one.
--
-- `Crypto` is what the module calls: `json.dumps`, base64 and the Ed25519 keys of the package cryptography;
-- a `none` of `decode` and a `false` of `verify` are their exceptions. A time is a double in units of
-- 2 ^ -1074 seconds, and its sum with the time to live is taken exactly.
pub mod Agent
pub mod Rounds
pub mod Readings
pub mod Verified
pub mod Reports
mod Tests
use aegor_x.Prelude.{
  ℕ, ◌+◌, ◌*◌, String, Bool, true, false, ◌&&◌, ◌||◌, not, Option, none, some, List, [], ◌∷◌, any,
  ◌≐◌, ltb, if◌then◌else◌, ◌≡◌,
}
use aegor_x.Json.{
  Json, Fields, null, boolean, whole, negative, float, text, array, object, end, field, get, unit,
  fields_of, text_at,
}

abbrev pub allowed_commands : List String
allowed_commands =
    "ping" ∷ "status" ∷ "diag" ∷ "scan-path" ∷ "feed-update" ∷ "check-update" ∷ "quarantine-list"
    ∷ "quarantine-delete" ∷ "apply-policy" ∷ []

pub record Crypto : Type 0 where
  pub canonical : Fields → String
  pub encode : String → String
  pub decode : String → Option String
  pub sign : String → String
  pub verify : String → String → Bool

-- `sign_payload`
abbrev pub sign_payload : Crypto → Fields → String
sign_payload k payload = k.encode (k.sign (k.canonical payload))

-- `verify_payload`
unfoldable pub verify_payload : Crypto → Fields → String → Bool
verify_payload k payload signature = elim (k.decode signature) [
  | none ↦ false
  | some raw ↦ k.verify raw (k.canonical payload)
]

-- args or {}
abbrev pub or_empty : Option Fields → Fields
or_empty none = end
or_empty (some fs) = fs

-- The clock is read twice: for the time of issue, and for the expiry.
abbrev pub body_of : ℕ → ℕ → String → String → Fields → ℕ → Fields
body_of issued now command_id command args ttl = field "command_id" (text command_id) (
    field "command" (text command) (
      field "args" (object args) (
        field "issued_utc" (float false issued)
          (field "expires_utc" (float false (now + ttl * unit)) end))))

-- `make_command`, with the private key or without; `none` is the ValueError
unfoldable pub make_command :
    Option Crypto → ℕ → ℕ → String → String → Option Fields → ℕ → Option Json
make_command key issued now command_id command args ttl =
    let body = body_of issued now command_id command (or_empty args) ttl in
    if any (λ c. c ≐ command) allowed_commands
    then some (
        object (
          field "body" (object body) (elim key [
            | none ↦ end
            | some k ↦ field "signature" (text (sign_payload k body)) end
          ])))
    else none

pub data Rejection : Type 0 where
  malformed missing unverified expired unknown : Rejection

pub data Checked : Type 0 where
  accepted : Fields → Checked
  rejected : Rejection → Checked

-- not isinstance(expires, (int, float)) or expires < current; True and False are ints
abbrev pub is_stale : ℕ → Option Json → Bool
is_stale now (some (boolean b)) = ltb ((if b then 1 else 0) * unit) now
is_stale now (some (whole n)) = ltb (n * unit) now
is_stale now (some (negative n)) = true
is_stale now (some (float false n)) = ltb n now
is_stale now (some (float true n)) = ltb 0 (n + now)
is_stale now _ = true

-- body.get("command") in ALLOWED_COMMANDS
abbrev pub is_allowed : Option Json → Bool
is_allowed (some (text command)) = any (λ c. c ≐ command) allowed_commands
is_allowed _ = false

-- The tests on a signed body.
abbrev pub check_body : Crypto → ℕ → Fields → String → Checked
check_body k now body signature =
    if not (verify_payload k body signature)
    then rejected unverified
    else if is_stale now (get "expires_utc" body)
    then rejected expired
    else if not (is_allowed (get "command" body))
    then rejected unknown
    else accepted body

-- `verify_command`
unfoldable pub verify_command : Crypto → ℕ → Json → Checked
verify_command k now envelope = elim (fields_of envelope) [
  | none ↦ rejected malformed
  | some fs ↦ elim (get "body" fs) [
    | none ↦ rejected malformed
    | some b ↦ elim (text_at "signature" fs) [
      | none ↦ rejected missing
      | some signature ↦ elim (fields_of b) [
        | none ↦ rejected missing
        | some body ↦ check_body k now body signature
      ]
    ]
  ]
]
