-- ===== src/Commands/Tests.antt =====
-- Runs of the protocol and of the agent (aegorx/management/protocol.py, aegorx/management/agent.py) with a key
-- that signs a text by itself, and a device that counts what it is told.
use aegor_x.Prelude.{
  ℕ, suc, ◌+◌, ◌*◌, ◌≤◌, ◌<◌, ◌≡◌, ◌↔◌, refl, String, String_discrete, true, none, some, any,
  is_some, [], ◌∷◌, ◌≐◌, drop, arith,
}
use aegor_x.Engine.World.{malicious, new_result}
use aegor_x.Json.{
  Json, object, end, field, unit, get, is_true, set_default, fields_of, text_at, text_of,
}
use aegor_x.Commands.{
  Crypto, accepted, rejected, expired, make_command, verify_command, verify_payload, body_of,
  or_empty, allowed_commands,
}
use aegor_x.Commands.Agent.{Agent, Device, Report, returned}
use aegor_x.Commands.Rounds.{
  check_in_once, execute_all, execute, run_body, handler, delegate, command_id_of,
}
use aegor_x.Commands.Verified.{
  IsKeyPair, signed, IsValid, verify_command-make_command, verify_command-IsValid,
}
use aegor_x.Commands.Reports.{IsRefused, check_in_once-IsRefused, handler-allowed}

abbrev key : Crypto
key = record {
  canonical = λ payload. "payload";
  encode = λ s. s;
  decode = λ s. some s;
  sign = λ m. m;
  verify = λ s m. s ≐ m;
}

self : (m : String) → (m ≐ m) ≡ true
self m = ground arith

key-IsKeyPair : IsKeyPair key
key-IsKeyPair = record { decodes = λ s. refl; verifies = self }

abbrev ping : Json
ping = signed key (body_of 90 100 "c1" "ping" end 300)

makes : make_command (some key) 90 100 "c1" "ping" none 300 ≡ some ping
unfolding make_command String_discrete
makes = refl

verify_command-make_command_example :
    (100 ≤ 100 + 300 * unit
      → verify_command key 100 ping ≡ accepted (body_of 90 100 "c1" "ping" (or_empty none) 300))
    × (100 + 300 * unit < 100 → verify_command key 100 ping ≡ rejected expired)
verify_command-make_command_example =
    verify_command-make_command key 90 100 100 300 "c1" "ping" none ping key-IsKeyPair makes

verify_command-IsValid_example :
    (verify_command key 100 ping ≡ accepted (body_of 90 100 "c1" "ping" end 300))
    ↔ IsValid key 100 ping (body_of 90 100 "c1" "ping" end 300)
verify_command-IsValid_example =
    verify_command-IsValid key 100 ping (body_of 90 100 "c1" "ping" end 300)

-- The device's state is the number of commands that it was told.
abbrev machine : Device ℕ
machine = record {
  exists = λ _ _. true;
  abspath = λ _ path. path;
  scan_target = λ n path. (suc n, some (record (new_result path) { verdict = malicious } ∷ []));
  other_handler = λ command args n. (suc n, returned end);
  show = λ _. "";
  detail = λ _. "";
  attribute_error = λ _. "";
  scan_error = λ path. path;
  now = λ _. 100;
}

abbrev report : Report
report = record { ts = 7; path = "bad"; sha256 = "00"; verdict = malicious; detections = [] }

abbrev idle : Agent ℕ
idle = record { device = 0; pending = report ∷ []; audit = [] }

executes : (check_in_once machine key (λ _. some (ping ∷ [])) [] idle).0.device ≡ 1
unfolding check_in_once execute_all execute verify_command verify_payload unit run_body handler
    delegate get is_true set_default command_id_of fields_of text_at text_of String_discrete
executes = refl

handler-allowed_example :
    any (λ c. c ≐ "scan-path") allowed_commands ≡ is_some (handler machine "scan-path")
handler-allowed_example = handler-allowed machine "scan-path"

abbrev unsigned : Json
unsigned = object (field "body" (object (body_of 90 100 "c1" "ping" end 300)) end)

unsigned-IsRefused : IsRefused key unsigned
unfolding verify_command get fields_of text_at String_discrete
unsigned-IsRefused now body e = cc

check_in_once-IsRefused_example :
    ((check_in_once machine key (λ _. some (unsigned ∷ [])) [] idle).0.device ≡ idle.device)
    × ((check_in_once machine key (λ _. some (unsigned ∷ [])) [] idle).0.pending
        ≡ drop 100 idle.pending)
check_in_once-IsRefused_example =
    check_in_once-IsRefused machine key (λ _. some (unsigned ∷ [])) [] idle
      λ es e. let same : es ≡ unsigned ∷ [] = cc in rw same (unsigned-IsRefused, tt)
