-- ===== src/Fleet/Served.antt =====
-- What the requests of aegorx/management/server.py do, of the store's theorems: who is served, and how often a command
-- is.
use aegor_x.Prelude.{
  ℕ, String, ◌≡◌, ◌≢◌, refl, ap, sym, ◌∙◌, Option, none, some, true, List, ◌+◌, [], ◌∷◌, arith,
  Option-cases, inl, inr, last,
}
use aegor_x.Json.{Json, Fields, get, fields_of}
use aegor_x.Fleet.{Store, Agent, revoke, touch, pending_for}
use aegor_x.Fleet.Handlers.{
  Host, commands, is_stored, auth, add_detections, reports_of, hand_out, handle_checkin,
  handle_result, parsed, str_of, detection_of,
}
use aegor_x.Fleet.Access.{auth_agent-revoke}
use aegor_x.Fleet.Delivery.{pending_for-once}

auth-revoke :
    (h : Host) (message : Fields) (name : String) (s : Store) (a : Agent)
    → auth h message (revoke name s).0 ≡ some a
    → a.name ≢ name
unfolding auth
auth-revoke h message name s a e =
    auth_agent-revoke h.fingerprint (str_of h (get "agent_id" message))
      (str_of h (get "token" message)) name s a (ground arith)

-- After a name has been revoked, a check-in is answered with commands, and a result is stored, only for an agent
-- of another name, whatever the request holds.
pub handle-revoke :
    (h : Host) (now : ℕ) (ip name : String) (message : Fields) (s : Store)
    → let t = (revoke name s).0 in
      ((es : List Json)
        → (handle_checkin h now ip message t).1 ≡ some (commands es)
        → (a : Agent) × (auth h message t ≡ some a) × (a.name ≢ name))
      × ((handle_result h now message t).1 ≡ is_stored true
          → (a : Agent) × (auth h message t ≡ some a) × (a.name ≢ name))
unfolding handle_checkin handle_result
handle-revoke h now ip name message s = elim (Option-cases (auth h message (revoke name s).0)) [
  | inl e ↦ (λ es k. absurd (ground arith), λ k. absurd (ground arith))
  | inr (a, e) ↦ (
    λ es k. (a, e, auth-revoke h message name s a e),
    λ k. (a, e, auth-revoke h message name s a e),
  )
]

commands-add_detections :
    (h : Host) (now : ℕ) (agent_id : String) (xs : List Json) (s : Store) (n : ℕ)
    → (add_detections h now agent_id xs s n).0.commands ≡ s.commands
unfolding add_detections
commands-add_detections h now agent_id [] s n = refl
commands-add_detections h now agent_id (x ∷ xs) s n = elim (Option-cases (fields_of x)) [
  | inl e ↦ rw (add_detections, e) (commands-add_detections h now agent_id xs s n)
  | inr (rec, e) ↦ elim (Option-cases (detection_of h now agent_id rec)) [
    | inl d ↦ rw (add_detections, e, d) refl
    | inr (row, d) ↦ rw (add_detections, e, d) (commands-add_detections h now agent_id xs _ (n + 1))
  ]
]

hand_out-commands :
    (h : Host) (now : ℕ) (agent_id : String) (p : Store × Option ℕ) (es : List Json)
    → (hand_out h now agent_id p).1 ≡ some (commands es)
    → ((hand_out h now agent_id p).0 ≡ (pending_for now agent_id p.0).0)
      × (es ≡ parsed h (pending_for now agent_id p.0).1)
unfolding hand_out
hand_out-commands h now agent_id (s, none) es e = absurd (ground arith)
hand_out-commands h now agent_id (s, some n) es e = (refl, ground arith)

-- The store that `pending_for` works on.
abbrev reported : Host → ℕ → String → Fields → Agent → Store → Store × Option ℕ
reported h now ip message row s =
    add_detections h now row.agent_id (last 500 (reports_of message))
      (touch now row.agent_id ip (h.cut 120 (str_of h (get "platform" message)))
        (h.cut 32 (str_of h (get "version" message))) s)
      0

commands-reported :
    (h : Host) (now : ℕ) (ip : String) (message : Fields) (row : Agent) (s : Store)
    → (reported h now ip message row s).0.commands ≡ s.commands
unfolding touch
commands-reported h now ip message row s = commands-add_detections h now row.agent_id _ _ 0

served :
    (h : Host) (now : ℕ) (ip : String) (message : Fields) (s : Store) (a : Agent) (es : List Json)
    → auth h message s ≡ some a
    → (handle_checkin h now ip message s).1 ≡ some (commands es)
    → ((handle_checkin h now ip message s).0
        ≡ (pending_for now a.agent_id (reported h now ip message a s).0).0)
      × (es ≡ parsed h (pending_for now a.agent_id (reported h now ip message a s).0).1)
unfolding handle_checkin
served h now ip message s a es e k =
    let same : handle_checkin h now ip message s
        ≡ hand_out h now a.agent_id (reported h now ip message a s) =
      rw (handle_checkin, e) refl in
    rw same (hand_out-commands h now a.agent_id (reported h now ip message a s) es (rw same at k))

pending_for-commands :
    (now : ℕ) (agent_id : String) (s t : Store)
    → s.commands ≡ t.commands
    → (pending_for now agent_id s).1 ≡ (pending_for now agent_id t).1
unfolding pending_for
pending_for-commands now agent_id s t e = rw (pending_for, e) refl

nothing_left :
    (h : Host) (now later : ℕ) (ip jp : String) (m n : Fields) (s t : Store) (a b : Agent)
    (es fs : List Json)
    → auth h m s ≡ some a
    → handle_checkin h now ip m s ≡ (t, some (commands es))
    → auth h n t ≡ some b
    → b.agent_id ≡ a.agent_id
    → (handle_checkin h later jp n t).1 ≡ some (commands fs)
    → fs ≡ []
nothing_left h now later ip jp m n s t a b es fs p k q same l =
    let before = (reported h now ip m a s).0 in
    let after : t ≡ (pending_for now a.agent_id before).0 =
      sym (ap (λ x. x.0) k) ∙ (served h now ip m s a es p (ap (λ x. x.1) k)).0 in
    let again : (pending_for later b.agent_id (reported h later jp n b t).0).1 ≡ [] =
      pending_for-commands later b.agent_id _ t (commands-reported h later jp n b t)
      ∙ ap (λ x. (pending_for later x t).1) same
      ∙ ap (λ x. (pending_for later a.agent_id x).1) after
      ∙ pending_for-once now later a.agent_id before in
    (served h later jp n t b fs q l).1 ∙ ap (parsed h) again

-- What a check-in was answered with is not handed out again: the next answer to the same agent holds no command,
-- whatever the requests are.
pub handle_checkin-once :
    (h : Host) (now later : ℕ) (ip jp : String) (m n : Fields) (s t : Store) (a b : Agent)
    (es fs : List Json) (f : Json)
    → auth h m s ≡ some a
    → handle_checkin h now ip m s ≡ (t, some (commands es))
    → auth h n t ≡ some b
    → b.agent_id ≡ a.agent_id
    → (handle_checkin h later jp n t).1 ≢ some (commands (f ∷ fs))
handle_checkin-once h now later ip jp m n s t a b es fs f p k q same l =
    let none_left = nothing_left h now later ip jp m n s t a b es (f ∷ fs) p k q same l in cc
