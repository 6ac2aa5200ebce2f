-- ===== src/Events/Tests.antt =====
-- A bus that keeps two events.
use aegor_x.Prelude.{
  ℕ, ◌≡◌, refl, String_discrete, none, some, List, [], ◌∷◌, ◌≐◌, last, length, select, lookup,
  insert, arith,
}
use aegor_x.Events.{
  BehaviorEvent, EventBus, EventType, dns_query, file_renamed, new_bus, count, value_of, emit,
  emit_all, subscribe, subscribe_all, unsubscribe, get_history, clear_history,
}
use aegor_x.Events.Kept.{emit_all-history}

abbrev event : EventType → ℕ → BehaviorEvent
event t pid = record { event_type = t; pid = pid; timestamp = 1; source = "" }

abbrev events : List BehaviorEvent
events = event dns_query 1 ∷ event file_renamed 2 ∷ event dns_query 3 ∷ []

abbrev after : EventBus
after = emit_all events (new_bus 2)

emit_all-history_example :
    (after.history ≡ last 2 events)
    × (count "dns_query" after.stats
        ≡ length (select (λ e. value_of e.event_type ≐ "dns_query") events))
emit_all-history_example = emit_all-history 2 "dns_query" events (omega arith)

-- The handlers of the type come before those of all types.
abbrev listened : EventBus
listened = subscribe dns_query 8 (subscribe_all 7 (subscribe dns_query 5 (new_bus 2)))

calls : (emit (event dns_query 1) listened).1 ≡ 5 ∷ 8 ∷ 7 ∷ []
unfolding emit subscribe subscribe_all lookup insert String_discrete
calls = refl

calls_less : (emit (event dns_query 1) (unsubscribe dns_query 5 listened)).1 ≡ 8 ∷ 7 ∷ []
unfolding emit subscribe subscribe_all unsubscribe lookup insert String_discrete
calls_less = refl

-- A limit of 0 gives all events, and a bus that may keep none keeps all.
asked : get_history none (some 3) 0 after ≡ event dns_query 3 ∷ []
unfolding get_history emit_all emit lookup insert String_discrete
asked = refl

unbounded : (emit_all events (new_bus 0)).history ≡ events
unfolding emit_all emit lookup insert String_discrete
unbounded = refl

cleared : get_history none none 100 (clear_history after) ≡ []
unfolding get_history clear_history
cleared = refl
