-- ===== src/Events.antt =====
-- The event bus of the behavioural monitors (aegorx/behavioral/events.py). A handler is a number,
-- and `emit` gives the handlers that it calls, in their order: what they do is outside, and an
-- exception of one does not keep the others from their call.
pub mod Kept
mod Tests
use aegor_x.Prelude.{
  ℕ, ◌+◌, ◌-◌, String, String_discrete, Bool, true, false, Option, none, some, List, [], ◌∷◌, ◌++◌,
  ◌≐◌, ◌==◌, ltb, length, drop, select, lookup, insert, if◌then◌else◌,
}

pub data EventType : Type 0 where
  process_created process_terminated file_modified file_renamed network_connection dns_query
        registry_modified persistence_detected memory_injection suspicious_behavior
        malicious_detected :
      EventType

-- The values of the members, which tell them apart.
abbrev pub value_of : EventType → String
value_of process_created = "process_created"
value_of process_terminated = "process_terminated"
value_of file_modified = "file_modified"
value_of file_renamed = "file_renamed"
value_of network_connection = "network_connection"
value_of dns_query = "dns_query"
value_of registry_modified = "registry_modified"
value_of persistence_detected = "persistence_detected"
value_of memory_injection = "memory_injection"
value_of suspicious_behavior = "suspicious_behavior"
value_of malicious_detected = "malicious_detected"

-- An event; without the risk level and the details, which the bus does not look at.
pub record BehaviorEvent : Type 0 where
  pub event_type : EventType
  pub pid : ℕ
  pub timestamp : ℕ
  pub source : String

abbrev pub Handlers : Type 0
Handlers = List (String × List ℕ)

pub record EventBus : Type 0 where
  pub handlers : Handlers
  pub global_handlers : List ℕ
  pub history : List BehaviorEvent
  pub max_history : ℕ
  pub stats : List (String × ℕ)

abbrev pub new_bus : ℕ → EventBus
new_bus max_history = record {
  handlers = [];
  global_handlers = [];
  history = [];
  max_history = max_history;
  stats = [];
}

-- `xs[-n:]`, which is all of `xs` for 0.
abbrev pub slice {ℓ} : {A : Type ℓ} → ℕ → List A → List A
slice n xs = if n == 0 then xs else drop (length xs - n) xs

-- `self._handlers.get(event_type, [])`.
abbrev pub handlers_of : EventType → Handlers → List ℕ
handlers_of t hs = elim (lookup String_discrete (value_of t) hs) [ none ↦ [] | some xs ↦ xs ]

unfoldable pub subscribe : EventType → ℕ → EventBus → EventBus
subscribe t h b = record b {
  handlers = insert String_discrete (value_of t) (handlers_of t b.handlers ++ h ∷ []) b.handlers;
}

unfoldable pub subscribe_all : ℕ → EventBus → EventBus
subscribe_all h b = record b { global_handlers = b.global_handlers ++ h ∷ [] }

-- `handlers.remove(handler)`: the first one; nothing where there is none.
abbrev pub remove_first : ℕ → List ℕ → List ℕ
remove_first h [] = []
remove_first h (x ∷ xs) = let rest = remove_first h xs in if x == h then xs else x ∷ rest

unfoldable pub unsubscribe : EventType → ℕ → EventBus → EventBus
unsubscribe t h b = elim (lookup String_discrete (value_of t) b.handlers) [
  | none ↦ b
  | some xs ↦ record b {
    handlers = insert String_discrete (value_of t) (remove_first h xs) b.handlers;
  }
]

abbrev pub count : String → List (String × ℕ) → ℕ
count k stats = elim (lookup String_discrete k stats) [ none ↦ 0 | some n ↦ n ]

-- The history with one event more.
abbrev pub recorded : ℕ → List BehaviorEvent → BehaviorEvent → List BehaviorEvent
recorded max_history history e =
    let more = history ++ e ∷ [] in
    if ltb max_history (length more) then slice max_history more else more

unfoldable pub emit : BehaviorEvent → EventBus → EventBus × List ℕ
emit e b =
    let k = value_of e.event_type in
    (
      record b {
        history = recorded b.max_history b.history e;
        stats = insert String_discrete k (count k b.stats + 1) b.stats;
      },
      handlers_of e.event_type b.handlers ++ b.global_handlers,
    )

-- One event after the other.
unfoldable pub emit_all : List BehaviorEvent → EventBus → EventBus
unfolding emit
emit_all [] b = b
emit_all (e ∷ es) b = emit_all es (emit e b).0

abbrev pub of_type : Option EventType → List BehaviorEvent → List BehaviorEvent
of_type none es = es
of_type (some t) es = select (λ e. value_of e.event_type ≐ value_of t) es

abbrev pub of_pid : Option ℕ → List BehaviorEvent → List BehaviorEvent
of_pid none es = es
of_pid (some p) es = select (λ e. e.pid == p) es

unfoldable pub get_history : Option EventType → Option ℕ → ℕ → EventBus → List BehaviorEvent
get_history t p limit b = slice limit (of_pid p (of_type t b.history))

unfoldable pub clear_history : EventBus → EventBus
clear_history b = record b { history = []; stats = [] }
