-- ===== src/Commands/Verified.antt =====
-- Signed commands of aegorx/management/protocol.py: what `make_command` makes, `verify_command` accepts until it
-- expires, and what it accepts is signed, fresh and known.
use aegor_x.Prelude.{
  ℕ, false, ◌+◌, ◌*◌, ◌≤◌, ◌<◌, ◌≡◌, ◌↔◌, ◌∙◌, ap, refl, String, String_discrete, true, false,
  Option, some, any, ◌≐◌, ltb, arith, Bool-cases, Option-cases, inl, inr, if◌then◌else◌,
}
use aegor_x.Json.{Json, Fields, text, object, end, field, get, unit, fields_of, text_at, text_of}
use aegor_x.Commands.{
  Crypto, accepted, rejected, expired, verify_payload, or_empty, body_of, sign_payload,
  make_command, verify_command, is_stale, is_allowed, allowed_commands, check_body,
}
use aegor_x.Commands.Readings.{
  IsCommand, IsNotBefore, fields_of-object, verify_payload-decode, is_stale-IsNotBefore,
  IsNotBefore-is_stale, IsCommand-allowed, is_allowed-IsCommand, text_at-get,
}

-- Base64 and the signature are undone by their inverses (packages base64 and cryptography).
pub record IsKeyPair (k : Crypto) : Type 0 where
  pub decodes : (s : String) → k.decode (k.encode s) ≡ some s
  pub verifies : (m : String) → k.verify (k.sign m) m ≡ true

verify_payload-sign_payload :
    (k : Crypto) (payload : Fields)
    → IsKeyPair k
    → verify_payload k payload (sign_payload k payload) ≡ true
unfolding verify_payload
verify_payload-sign_payload k payload h =
    rw (verify_payload, h.decodes (k.sign (k.canonical payload))) (h.verifies (k.canonical payload))

abbrev pub signed : Crypto → Fields → Json
signed k body =
    object (field "body" (object body) (field "signature" (text (sign_payload k body)) end))

made_of :
    (k : Crypto) (issued now ttl : ℕ) (command_id command : String) (args : Option Fields)
    (e : Json)
    → make_command (some k) issued now command_id command args ttl ≡ some e
    → (any (λ c. c ≐ command) allowed_commands ≡ true)
      × (e ≡ signed k (body_of issued now command_id command (or_empty args) ttl))
unfolding make_command
made_of k issued now ttl command_id command args e made =
    elim (Bool-cases (any (λ c. c ≐ command) allowed_commands)) [
      | inl known ↦ (known, ground arith)
      | inr unknown ↦ absurd (ground arith)
    ]

check_signed :
    (k : Crypto) (issued now later ttl : ℕ) (command_id command : String) (args : Fields)
    → any (λ c. c ≐ command) allowed_commands ≡ true
    → verify_payload k
        (body_of issued now command_id command args ttl)
        (sign_payload k (body_of issued now command_id command args ttl))
      ≡ true
    → verify_command k later (signed k (body_of issued now command_id command args ttl)) ≡ (
        if ltb (now + ttl * unit) later
        then rejected expired
        else accepted (body_of issued now command_id command args ttl))
unfolding verify_command get text_at fields_of text_of String_discrete
check_signed k issued now later ttl command_id command args known signs =
    rw (verify_command, signs, known) refl

-- A command made with a private key is accepted by the matching public key until its time to live is over, and
-- rejected as expired from then on.
pub verify_command-make_command :
    (k : Crypto) (issued now later ttl : ℕ) (command_id command : String) (args : Option Fields)
    (e : Json)
    → IsKeyPair k
    → make_command (some k) issued now command_id command args ttl ≡ some e
    → (later ≤ now + ttl * unit
        → verify_command k later e
          ≡ accepted (body_of issued now command_id command (or_empty args) ttl))
      × (now + ttl * unit < later → verify_command k later e ≡ rejected expired)
verify_command-make_command k issued now later ttl command_id command args e h made =
    let (known, same) = made_of k issued now ttl command_id command args e made in
    let checked = check_signed k issued now later ttl command_id command (or_empty args) known (
      verify_payload-sign_payload k (body_of issued now command_id command (or_empty args) ttl)
        h) in
    rw (same, checked) (λ fresh. ground arith, λ late. ground arith)

-- What an accepted envelope is: a `dict` with a body that is one, and a signature, which decodes to one
-- that the key verifies for the body; the body expires now or later, and names a command that exists.
pub record IsValid (k : Crypto) (now : ℕ) (envelope : Json) (body : Fields) : Type 0 where
  pub fields : Fields
  pub signature : String
  pub raw : String
  pub expires : Json
  pub command : String
  pub is_dict : envelope ≡ object fields
  pub has_body : get "body" fields ≡ some (object body)
  pub is_signed : get "signature" fields ≡ some (text signature)
  pub decodes : k.decode signature ≡ some raw
  pub verifies : k.verify raw (k.canonical body) ≡ true
  pub has_expiry : get "expires_utc" body ≡ some expires
  pub fresh : IsNotBefore now expires
  pub has_command : get "command" body ≡ some (text command)
  pub known : IsCommand command

check_body-accepted :
    (k : Crypto) (now : ℕ) (body found : Fields) (signature : String)
    → check_body k now body signature ≡ accepted found
    → (found ≡ body)
      × (verify_payload k body signature ≡ true)
      × (is_stale now (get "expires_utc" body) ≡ false)
      × (is_allowed (get "command" body) ≡ true)
check_body-accepted k now body found signature h = ground arith

body-IsValid :
    (k : Crypto) (now : ℕ) (fs : Fields) (body : Fields) (signature : String)
    → get "body" fs ≡ some (object body)
    → get "signature" fs ≡ some (text signature)
    → verify_payload k body signature ≡ true
    → is_stale now (get "expires_utc" body) ≡ false
    → is_allowed (get "command" body) ≡ true
    → IsValid k now (object fs) body
body-IsValid k now fs body signature has signs verifies fresh known =
    let (raw, decodes, good) = verify_payload-decode k body signature verifies in
    let (expires, has_expiry, not_before) =
      is_stale-IsNotBefore now (get "expires_utc" body) fresh in
    let (command, has_command, exists) = is_allowed-IsCommand (get "command" body) known in
    record {
      fields = fs;
      signature = signature;
      raw = raw;
      expires = expires;
      command = command;
      is_dict = refl;
      has_body = has;
      is_signed = signs;
      decodes = decodes;
      verifies = good;
      has_expiry = has_expiry;
      fresh = not_before;
      has_command = has_command;
      known = exists;
    }

accepted-IsValid :
    (k : Crypto) (now : ℕ) (envelope : Json) (body : Fields)
    → verify_command k now envelope ≡ accepted body
    → IsValid k now envelope body
unfolding verify_command
accepted-IsValid k now envelope body h = elim (Option-cases (fields_of envelope)) [
  | inl e ↦ absurd (ground arith)
  | inr (fs, e) ↦ elim (Option-cases (get "body" fs)) [
    | inl b ↦ absurd (ground arith)
    | inr (j, b) ↦ elim (Option-cases (text_at "signature" fs)) [
      | inl s ↦ absurd (ground arith)
      | inr (signature, s) ↦ elim (Option-cases (fields_of j)) [
        | inl o ↦ absurd (ground arith)
        | inr (found, o) ↦
            let (same, verifies, fresh, known) =
              check_body-accepted k now found body signature (ground arith) in
            rw (fields_of-object envelope fs e, same)
              (body-IsValid k now fs found signature (b ∙ ap some (fields_of-object j found o))
                (text_at-get "signature" fs signature s) verifies fresh known)
      ]
    ]
  ]
]

IsValid-accepted :
    (k : Crypto) (now : ℕ) (envelope : Json) (body : Fields)
    → IsValid k now envelope body
    → verify_command k now envelope ≡ accepted body
unfolding verify_command verify_payload fields_of text_at text_of
IsValid-accepted k now envelope body v =
    let fresh : is_stale now (get "expires_utc" body) ≡ false =
      ap (λ j. is_stale now j) v.has_expiry ∙ IsNotBefore-is_stale now v.expires v.fresh in
    let known : is_allowed (get "command" body) ≡ true =
      ap is_allowed v.has_command ∙ IsCommand-allowed v.command v.known in
    rw
      (
        v.is_dict, verify_command, v.has_body, text_at, v.is_signed, verify_payload, v.decodes,
        v.verifies, fresh, known,
      )
      refl

-- A command is accepted exactly where its envelope is a `dict` whose body is one, with a signature that
-- decodes to one that the key verifies for the body; the body's expiry is a number that is not before the
-- present time; and its command is one of the nine that exist.
pub verify_command-IsValid :
    (k : Crypto) (now : ℕ) (envelope : Json) (body : Fields)
    → (verify_command k now envelope ≡ accepted body) ↔ IsValid k now envelope body
verify_command-IsValid k now envelope body =
    (accepted-IsValid k now envelope body, IsValid-accepted k now envelope body)
