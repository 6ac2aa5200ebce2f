-- ===== src/Fleet/Requests.antt =====
-- Runs of the requests of aegorx/management/server.py.
use aegor_x.Prelude.{◌≡◌, ◌≢◌, refl, String_discrete, true, none, some, List, [], ◌∷◌}
use aegor_x.Json.{Json, Fields, text, end, field, get, text_of, list_of}
use aegor_x.Fleet.{
  Store, Agent, new_agent, new_command, revoke, auth_agent, pending_for, touch, update_where, first,
  insert_by_time, by_time,
}
use aegor_x.Fleet.Handlers.{
  Host, commands, is_stored, auth, handle_checkin, handle_result, add_detections, hand_out,
}
use aegor_x.Fleet.Served.{handle-revoke, handle_checkin-once}

abbrev host : Host
host = record {
  fingerprint = λ token. token;
  show = λ _. "";
  cut = λ _ s. s;
  to_time = λ _. none;
  parse = λ s. some (text s);
  dump = λ _. "{}";
  is_pem = λ _. true;
  safe_name = λ s. s;
  admin_pem = "pem";
}

abbrev message : Fields
message = field "agent_id" (text "das-1") (field "token" (text "secret") end)

abbrev laptop : Agent
laptop = new_agent "das-1" "laptop" "pem" "secret" 6

abbrev store : Store
store = record {
  agents = laptop ∷ [];
  pairing = [];
  commands = new_command 8 "das-1" "ping" "cmd-7" "envelope 1" ∷ [];
  detections = [];
  audit = [];
}

handle-revoke_example :
    ((es : List Json)
      → (handle_checkin host 9 "::1" message (revoke "laptop" store).0).1 ≡ some (commands es)
      → (a : Agent) × (auth host message (revoke "laptop" store).0 ≡ some a) × (a.name ≢ "laptop"))
    × ((handle_result host 9 message (revoke "laptop" store).0).1 ≡ is_stored true
        → (a : Agent) × (auth host message (revoke "laptop" store).0 ≡ some a)
          × (a.name ≢ "laptop"))
handle-revoke_example = handle-revoke host 9 "::1" "laptop" message store

abbrev served : Store
served = (handle_checkin host 9 "::1" message store).0

handle_checkin-once_example :
    (handle_checkin host 10 "::1" message served).1 ≢ some (commands (text "envelope 1" ∷ []))
unfolding handle_checkin auth auth_agent pending_for touch add_detections hand_out get text_of
    list_of String_discrete first insert_by_time by_time update_where
handle_checkin-once_example =
    handle_checkin-once host 9 10 "::1" "::1" message message store served laptop
      (record laptop { last_seen = some 9; last_ip = "::1" }) (text "envelope 1" ∷ []) []
      (text "envelope 1") refl refl refl refl
