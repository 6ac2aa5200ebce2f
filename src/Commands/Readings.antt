-- ===== src/Commands/Readings.antt =====
-- What the tests of `verify_command` (aegorx/management/protocol.py) mean: the expiry of a body, and its command.
use aegor_x.Prelude.{
  ℕ, zero, suc, false, none, ◌*◌, ◌≤◌, ◌≡◌, ◌∙◌, ap, sym, List, [], ◌∷◌, All, refl, String,
  String_discrete, true, false, Option, some, any, ◌≐◌, arith, Bool-cases, Option-cases, inl, inr,
}
use aegor_x.Json.{
  Json, Fields, null, boolean, whole, negative, float, text, array, object, get, unit, fields_of,
  text_at, text_of,
}
use aegor_x.Commands.{Crypto, verify_payload, is_stale, is_allowed, allowed_commands}

-- The commands that exist.
pub data IsCommand : String → Type 0 where
  ping : IsCommand "ping"
  status : IsCommand "status"
  diag : IsCommand "diag"
  scan_path : IsCommand "scan-path"
  feed_update : IsCommand "feed-update"
  check_update : IsCommand "check-update"
  quarantine_list : IsCommand "quarantine-list"
  quarantine_delete : IsCommand "quarantine-delete"
  apply_policy : IsCommand "apply-policy"

-- A number that is the time `now` or a later one, in units of a float: whole numbers, floats, and the
-- Booleans, which are the numbers 0 and 1.
pub data IsNotBefore (now : ℕ) : Json → Type 0 where
  by_whole : (n : ℕ) → now ≤ n * unit → IsNotBefore now (whole n)
  by_float : (n : ℕ) → now ≤ n → IsNotBefore now (float false n)
  by_minus_zero : now ≡ 0 → IsNotBefore now (float true 0)
  by_true : now ≤ unit → IsNotBefore now (boolean true)
  by_false : now ≡ 0 → IsNotBefore now (boolean false)

pub fields_of-object : (j : Json) (fs : Fields) → fields_of j ≡ some fs → j ≡ object fs
unfolding fields_of
fields_of-object j fs h = ground arith

pub text_of-text : (j : Json) (s : String) → text_of j ≡ some s → j ≡ text s
unfolding text_of
text_of-text j s h = ground arith

pub verify_payload-decode :
    (k : Crypto) (body : Fields) (signature : String)
    → verify_payload k body signature ≡ true
    → (raw : String) × (k.decode signature ≡ some raw) × (k.verify raw (k.canonical body) ≡ true)
unfolding verify_payload
verify_payload-decode k body signature h = elim (Option-cases (k.decode signature)) [
  | inl e ↦ absurd (ground arith)
  | inr (raw, e) ↦ (raw, e, ground arith)
]

pub is_stale-IsNotBefore :
    (now : ℕ) (j : Option Json)
    → is_stale now j ≡ false
    → (expires : Json) × (j ≡ some expires) × IsNotBefore now expires
is_stale-IsNotBefore now (some (whole n)) h = (whole n, refl, by_whole n (ground arith))
is_stale-IsNotBefore now (some (float false n)) h = (float false n, refl, by_float n (ground arith))
is_stale-IsNotBefore now (some (float true zero)) h =
    (float true 0, refl, by_minus_zero (ground arith))
is_stale-IsNotBefore now (some (float true (suc n))) h = absurd (ground arith)
is_stale-IsNotBefore now (some (boolean true)) h = (boolean true, refl, by_true (ground arith))
is_stale-IsNotBefore now (some (boolean false)) h = (boolean false, refl, by_false (ground arith))
is_stale-IsNotBefore now none h = absurd (ground arith)
is_stale-IsNotBefore now (some null) h = absurd (ground arith)
is_stale-IsNotBefore now (some (negative n)) h = absurd (ground arith)
is_stale-IsNotBefore now (some (text s)) h = absurd (ground arith)
is_stale-IsNotBefore now (some (array xs)) h = absurd (ground arith)
is_stale-IsNotBefore now (some (object fs)) h = absurd (ground arith)

pub IsNotBefore-is_stale : (now : ℕ) (j : Json) → IsNotBefore now j → is_stale now (some j) ≡ false
IsNotBefore-is_stale now j (by_whole n h) = ground arith
IsNotBefore-is_stale now j (by_float n h) = ground arith
IsNotBefore-is_stale now j (by_minus_zero h) = ground arith
IsNotBefore-is_stale now j (by_true h) = ground arith
IsNotBefore-is_stale now j (by_false h) = ground arith

pub equal_text : (c d : String) → (c ≐ d) ≡ true → c ≡ d
equal_text c d h = ground arith

pub any-All :
    (P : String → Type 0) (cs : List String) (command : String)
    → All P cs
    → any (λ c. c ≐ command) cs ≡ true
    → P command
any-All P [] command ps h = absurd (ground arith)
any-All P (c ∷ cs) command (p, ps) h = elim (Bool-cases (c ≐ command)) [
  | inl e ↦ rw (sym (equal_text c command e)) p
  | inr e ↦ any-All P cs command ps (ground arith)
]

pub allowed-IsCommand :
    (command : String) → any (λ c. c ≐ command) allowed_commands ≡ true → IsCommand command
allowed-IsCommand command h =
    any-All IsCommand allowed_commands command
      (
        ping,
        (
          status,
          (
            diag,
            (
              scan_path,
              (
                feed_update,
                (check_update, (quarantine_list, (quarantine_delete, (apply_policy, tt)))),
              ),
            ),
          ),
        ),
      )
      h

pub IsCommand-allowed :
    (command : String) → IsCommand command → any (λ c. c ≐ command) allowed_commands ≡ true
unfolding String_discrete
IsCommand-allowed command ping = refl
IsCommand-allowed command status = refl
IsCommand-allowed command diag = refl
IsCommand-allowed command scan_path = refl
IsCommand-allowed command feed_update = refl
IsCommand-allowed command check_update = refl
IsCommand-allowed command quarantine_list = refl
IsCommand-allowed command quarantine_delete = refl
IsCommand-allowed command apply_policy = refl

pub is_allowed-IsCommand :
    (j : Option Json)
    → is_allowed j ≡ true
    → (command : String) × (j ≡ some (text command)) × IsCommand command
is_allowed-IsCommand (some (text command)) h = (command, refl, allowed-IsCommand command h)
is_allowed-IsCommand none h = absurd (ground arith)
is_allowed-IsCommand (some null) h = absurd (ground arith)
is_allowed-IsCommand (some (boolean b)) h = absurd (ground arith)
is_allowed-IsCommand (some (whole n)) h = absurd (ground arith)
is_allowed-IsCommand (some (negative n)) h = absurd (ground arith)
is_allowed-IsCommand (some (float b n)) h = absurd (ground arith)
is_allowed-IsCommand (some (array xs)) h = absurd (ground arith)
is_allowed-IsCommand (some (object fs)) h = absurd (ground arith)

pub text_at-get :
    (key : String) (fs : Fields) (s : String) → text_at key fs ≡ some s → get key fs ≡ some (text s)
unfolding text_at
text_at-get key fs s h = elim (Option-cases (get key fs)) [
  | inl e ↦ absurd (ground arith)
  | inr (j, e) ↦ e ∙ ap some (text_of-text j s (rw (text_at, e) at h))
]
