-- ===== src/Shield/Tests.antt =====
-- A key that is exchanged after the seal, and a new key beside it.
use aegor_x.Prelude.{
  ℕ, ◌≡◌, refl, String, String_discrete, true, false, none, some, List, [], ◌∷◌, ◌≐◌, ltb, insert,
  if◌then◌else◌,
}
use aegor_x.Shield.{
  Files, State, pin, seal, compare_all, verify, write_heartbeat, liveness, assessed,
}
use aegor_x.Shield.Sealed.{verify-seal}

abbrev hexdigest : List ℕ → String
hexdigest [] = "0"
hexdigest (b ∷ bs) = if ltb b 5 then "1" else "2"

abbrev before : Files
before p = if p ≐ "a.pub" then some (1 ∷ []) else none

abbrev exchanged : Files
exchanged p = if p ≐ "a.pub" then some (9 ∷ []) else none

abbrev added : Files
added p = if p ≐ "a.pub" then some (1 ∷ []) else if p ≐ "b.pub" then some (7 ∷ []) else none

abbrev empty : State
empty = record { manifest = none; heartbeat = none }

abbrev sealed_state : State
sealed_state = (seal hexdigest before ("a.pub" ∷ "b.pub" ∷ []) 10 empty).0

verify-seal_example : (verify hexdigest exchanged sealed_state).ok ≡ false
unfolding String_discrete
verify-seal_example = verify-seal hexdigest before exchanged ("a.pub" ∷ "b.pub" ∷ []) 10 empty

changed : (verify hexdigest exchanged sealed_state).changed ≡ "a.pub" ∷ []
unfolding verify compare_all seal pin insert String_discrete
changed = refl

-- A key that was added is not told.
unnoticed : (verify hexdigest added sealed_state).ok ≡ true
unfolding verify compare_all seal pin insert String_discrete
unnoticed = refl

alive : liveness (λ _. true) 50 90 (write_heartbeat 7 20 empty) ≡ assessed true 7 30 true
unfolding liveness
alive = refl
