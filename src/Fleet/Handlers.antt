-- ===== src/Fleet/Handlers.antt =====
-- The requests of the management server (aegorx/management/server.py, `ManagementServer._handler`): /enroll, /checkin
-- and /result, over the store.
--
-- A request's message is the `dict` of its body, and a response its status code with what it carries. `Host` is
-- what a request asks of Python's library: `str` of a value that is no text, `float`, the cut of a text at a
-- length, `json.loads` of an envelope that is kept, and `json.dumps` of a result. The new id and token of
-- an enrolment are arguments. GET requests and the framing of HTTP are left out.
use aegor_x.Prelude.{
  ℕ, ◌+◌, String, Bool, ◌||◌, Option, none, some, List, [], ◌∷◌, ◌++◌, last, ◌≐◌, ◌>>=◌, any,
  if◌then◌else◌,
}
use aegor_x.Json.{
  Json, Fields, text, array, object, end, item, field, get, fields_of, list_of, text_of, is_true,
}
use aegor_x.Fleet.{
  Store, Agent, DetectionRow, audited, consume_pairing, enroll, auth_agent, touch, pending_for,
  store_result,
}

pub record Host : Type 0 where
  pub fingerprint : String → String
  pub show : Json → String
  pub cut : ℕ → String → String
  pub to_time : Json → Option ℕ
  pub parse : String → Option Json
  pub dump : Json → String
  pub is_pem : String → Bool
  pub safe_name : String → String
  pub admin_pem : String

pub data Response : Type 0 where
  enrolled : String → String → String → Response
  commands : List Json → Response
  is_stored : Bool → Response
  refused : ℕ → Response

-- str(message.get(key, ""))
abbrev pub str_of : Host → Option Json → String
str_of h none = ""
str_of h (some j) = elim (text_of j) [ none ↦ h.show j | some s ↦ s ]

-- str(rec.get(key) or "")
abbrev pub str_or : Host → Option Json → String
str_or h none = ""
str_or h (some j) = if is_true j then str_of h (some j) else ""

-- (rec.get("detections") or [{}])[0].get("detector"), where it is a list; `none` for the exception of an
-- element that is no `dict`
abbrev pub detector_of : Host → Fields → Option String
detector_of h rec = elim (get "detections" rec) [
  | some (array (item x xs)) ↦ elim (fields_of x) [
    | none ↦ none
    | some d ↦ some (str_or h (get "detector" d))
  ]
  | _ ↦ some ""
]

-- float(rec.get("ts") or time.time())
abbrev pub seen_of : Host → ℕ → Option Json → Option ℕ
seen_of h now none = some now
seen_of h now (some j) = if is_true j then h.to_time j else some now

-- One row of `add_detections`; `none` where a conversion raises.
unfoldable pub detection_of : Host → ℕ → String → Fields → Option DetectionRow
unfolding get fields_of text_of is_true
detection_of h now agent_id rec = do
  seen ← seen_of h now (get "ts" rec)
  detector ← detector_of h rec
  some (record {
    agent_id = agent_id;
    seen = seen;
    path = h.cut 512 (str_or h (get "path" rec));
    sha256 = str_or h (get "sha256" rec);
    verdict = str_or h (get "verdict" rec);
    detector = detector;
    name = h.cut 256 (str_or h (get "reason" rec));
  })

-- `add_detections`, which passes over what is no `dict`; `none` is an exception, before which the rows are in
unfoldable pub add_detections : Host → ℕ → String → List Json → Store → ℕ → Store × Option ℕ
unfolding detection_of fields_of
add_detections h now agent_id [] s count = (s, some count)
add_detections h now agent_id (x ∷ xs) s count = elim (fields_of x) [
  | none ↦ add_detections h now agent_id xs s count
  | some rec ↦ elim (detection_of h now agent_id rec) [
    | none ↦ (s, none)
    | some row ↦
        add_detections h now agent_id xs (record s { detections = s.detections ++ row ∷ [] })
          (count + 1)
  ]
]

-- `_auth`
unfoldable pub auth : Host → Fields → Store → Option Agent
unfolding get text_of
auth h message s =
    let agent_id = str_of h (get "agent_id" message) in
    let token = str_of h (get "token" message) in
    if (agent_id ≐ "") || (token ≐ "") then none else auth_agent h.fingerprint agent_id token s

-- What `pending_for` returns of the envelopes: those that `json.loads` reads.
abbrev pub parsed : Host → List String → List Json
parsed h [] = []
parsed h (x ∷ xs) = let rest = parsed h xs in elim (h.parse x) [ none ↦ rest | some j ↦ j ∷ rest ]

-- message.get("reports") if it is a list, else []
abbrev pub reports_of : Fields → List Json
reports_of message = elim (get "reports" message) [
  | none ↦ []
  | some j ↦ elim (list_of j) [ none ↦ [] | some xs ↦ xs ]
]

-- The end of `_handle_checkin`, behind `touch`.
unfoldable pub hand_out : Host → ℕ → String → Store × Option ℕ → Store × Option Response
hand_out h now agent_id (s, none) = (s, none)
hand_out h now agent_id (s, some _) =
    let pending = pending_for now agent_id s in (pending.0, some (commands (parsed h pending.1)))

-- `_handle_checkin`; no response is an exception
unfoldable pub handle_checkin : Host → ℕ → String → Fields → Store → Store × Option Response
unfolding auth audited add_detections hand_out get text_of list_of
handle_checkin h now ip message s = elim (auth h message s) [
  | none ↦ (
    audited "anonymous" "auth-failed" (h.cut 64 (str_of h (get "agent_id" message)) ∷ []) s,
    some (refused 403),
  )
  | some row ↦
      let touched =
        touch now row.agent_id ip (h.cut 120 (str_of h (get "platform" message)))
          (h.cut 32 (str_of h (get "version" message))) s in
      hand_out h now row.agent_id
        (add_detections h now row.agent_id (last 500 (reports_of message)) touched 0)
]

-- `_handle_result`
unfoldable pub handle_result : Host → ℕ → Fields → Store → Store × Response
unfolding auth get text_of fields_of
handle_result h now message s = elim (auth h message s) [
  | none ↦ (s, refused 403)
  | some row ↦
      let command_id = str_of h (get "command_id" message) in
      elim (get "result" message) [
        | some (object result) ↦
            if command_id ≐ ""
            then (s, refused 400)
            else (let body =
                  object (field "body" (object (field "result" (object result) end)) end) in
                let done = store_result now row.agent_id command_id (h.dump body) "" s in
                (done.0, is_stored done.1))
        | _ ↦ (s, refused 400)
      ]
]

-- message.get("pubkey"), where it is a text that holds a public key
abbrev pub pubkey_of : Host → Fields → Option String
pubkey_of h message = elim (get "pubkey" message) [
  | some (text pem) ↦ if h.is_pem pem then some pem else none
  | _ ↦ none
]

-- `_handle_enroll`, behind the pairing token: of a name that is taken, and of an id that is, where
-- the exception of the database passes through
unfoldable pub enroll_as :
    Host → ℕ → String → String → String → String → Store → Store × Option Response
unfolding audited
enroll_as h now agent_id api_token name pubkey s =
    elim (enroll h.fingerprint now agent_id api_token name pubkey s) [
      | some t ↦ (t, some (enrolled agent_id api_token h.admin_pem))
      | none ↦
          if any (λ a. a.name ≐ name) s.agents
          then (
            audited "anonymous" "enroll-rejected" ("duplicate name" ∷ h.safe_name name ∷ []) s,
            some (refused 409),
          )
          else (s, none)
    ]

unfoldable pub handle_enroll : Host → ℕ → String → String → Fields → Store → Store × Option Response
unfolding audited enroll_as get text_of
handle_enroll h now agent_id api_token message s =
    let paired = consume_pairing h.fingerprint now (str_of h (get "pairing_token" message)) s in
    let rejected : Store × Option Response = (
      audited "anonymous" "enroll-rejected" ("bad pairing token" ∷ []) paired.0,
      some (refused 403),
    ) in
    elim paired.1 [
      | none ↦ rejected
      | some name ↦ if name ≐ "" then rejected else elim (pubkey_of h message) [
        | none ↦ (paired.0, some (refused 400))
        | some pubkey ↦ enroll_as h now agent_id api_token name pubkey paired.0
      ]
    ]
