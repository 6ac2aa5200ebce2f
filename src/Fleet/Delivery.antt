-- ===== src/Fleet/Delivery.antt =====
-- The command queue of aegorx/management/server.py: each command is handed out once, to its own agent.
use aegor_x.Prelude.{
  ℕ, suc, ◌+◌, String, ◌≡◌, ◌≢◌, refl, ap, ◌∙◌, Bool, true, false, ◌||◌, some, List, [], ◌∷◌, ◌++◌,
  map, any, select, length, length-map, ◌≐◌, arith, Bool-cases, inl, inr,
}
use aegor_x.Fleet.{
  Store, Command, update_where, new_command, queue_command, waits_for, insert_by_time, by_time,
  dispatched_now, pending_for, is_for, finished, store_result,
}

select-dispatched :
    (now : ℕ) (agent_id : String) (cs : List Command)
    → select (waits_for agent_id) (update_where (waits_for agent_id) (dispatched_now now) cs) ≡ []
unfolding update_where
select-dispatched now agent_id [] = refl
select-dispatched now agent_id (c ∷ cs) = ground (arith, select-dispatched now agent_id cs)

-- What has been handed to an agent is not handed to it again.
pub pending_for-once :
    (now later : ℕ) (agent_id : String) (s : Store)
    → (pending_for later agent_id (pending_for now agent_id s).0).1 ≡ []
unfolding pending_for
pending_for-once now later agent_id s =
    rw (select-dispatched now agent_id s.commands) (unfold by_time in refl)

select-others :
    (p : Command → Bool) (f : Command → Command) (agent_id : String) (cs : List Command)
    → ((c : Command)
        → p c ≡ true
        → (waits_for agent_id c ≡ false) × (waits_for agent_id (f c) ≡ false))
    → select (waits_for agent_id) (update_where p f cs) ≡ select (waits_for agent_id) cs
unfolding update_where
select-others p f agent_id [] h = refl
select-others p f agent_id (c ∷ cs) h = ground (arith, h c, select-others p f agent_id cs h)

-- Neither handing out the commands of one agent nor storing a result of its changes what another agent is
-- handed.
pub pending_for-others :
    (now later : ℕ) (agent_id other command_id result summary : String) (s : Store)
    → other ≢ agent_id
    → ((pending_for later other (pending_for now agent_id s).0).1 ≡ (pending_for later other s).1)
      × ((pending_for later other (store_result now agent_id command_id result summary s).0).1
          ≡ (pending_for later other s).1)
unfolding pending_for store_result
pending_for-others now later agent_id other command_id result summary s h = (
  rw
      (select-others (waits_for agent_id) (dispatched_now now) other s.commands
        (λ c k. ground arith))
      refl,
  elim (Bool-cases (any (is_for agent_id command_id) s.commands)) [
    | inl e ↦
        rw
          (
            e,
            select-others (is_for agent_id command_id) (finished now result) other s.commands
                (λ c k. ground arith),
          )
          refl
    | inr e ↦ rw e refl
  ],
)

length-insert_by_time :
    (c : Command) (cs : List Command) → length (insert_by_time c cs) ≡ suc (length cs)
unfolding insert_by_time
length-insert_by_time c [] = refl
length-insert_by_time c (d ∷ ds) = ground (arith, length-insert_by_time c ds)

length-by_time : (cs : List Command) → length (by_time cs) ≡ length cs
unfolding by_time
length-by_time [] = refl
length-by_time (c ∷ cs) = omega (arith, length-insert_by_time c (by_time cs), length-by_time cs)

length-select-append :
    {A : Type 0} (p : A → Bool) (xs : List A) (x : A)
    → p x ≡ true
    → length (select p (xs ++ x ∷ [])) ≡ length (select p xs) + 1
length-select-append p [] x h = rw h (omega arith)
length-select-append p (y ∷ xs) x h = ground (arith, length-select-append p xs x)

any-insert_by_time :
    (p : Command → Bool) (c : Command) (cs : List Command)
    → any p (insert_by_time c cs) ≡ p c || any p cs
unfolding insert_by_time
any-insert_by_time p c [] = refl
any-insert_by_time p c (d ∷ ds) = ground (arith, any-insert_by_time p c ds)

any-by_time : (p : Command → Bool) (cs : List Command) → any p (by_time cs) ≡ any p cs
unfolding by_time
any-by_time p [] = refl
any-by_time p (c ∷ cs) = ground (arith, any-insert_by_time p c (by_time cs), any-by_time p cs)

any-select-append :
    {A : Type 0} (p q : A → Bool) (xs : List A) (x : A)
    → p x ≡ true
    → q x ≡ true
    → any q (select p (xs ++ x ∷ [])) ≡ true
any-select-append p q [] x h k = ground arith
any-select-append p q (y ∷ xs) x h k = ground (arith, any-select-append p q xs x)

any-map :
    {A : Type 0} {B : Type 0} (q : B → Bool) (f : A → B) (xs : List A)
    → any q (map f xs) ≡ any (λ x. q (f x)) xs
any-map q f [] = refl
any-map q f (x ∷ xs) = ap (λ b. q (f x) || b) (any-map q f xs)

-- A command that is queued under a fresh id is among what its agent is handed next, which is one envelope
-- more than it would have been handed without it.
pub pending_for-queue_command :
    (now later : ℕ) (agent_id command command_id envelope : String) (s t : Store)
    → queue_command now agent_id command command_id envelope s ≡ some t
    → (any (λ x. x ≐ envelope) (pending_for later agent_id t).1 ≡ true)
      × (length (pending_for later agent_id t).1 ≡ length (pending_for later agent_id s).1 + 1)
unfolding pending_for queue_command
pending_for-queue_command now later agent_id command command_id envelope s t e =
    let c = new_command now agent_id command command_id envelope in
    let q : Command → Bool = λ x. x.envelope ≐ envelope in
    let waiting = select (waits_for agent_id) (s.commands ++ c ∷ []) in
    let commands : t.commands ≡ s.commands ++ c ∷ [] = ground arith in
    (
      rw commands (
          any-map (λ x. x ≐ envelope) (λ x. x.envelope) (by_time waiting)
          ∙ any-by_time q waiting
          ∙ any-select-append (waits_for agent_id) q s.commands c (ground arith) (ground arith)),
      rw commands (
          omega (
            arith,
            length-map (λ (x : Command). x.envelope) (by_time waiting),
            length-map (λ (x : Command). x.envelope)
                (by_time (select (waits_for agent_id) s.commands)),
            length-by_time waiting,
            length-by_time (select (waits_for agent_id) s.commands),
            length-select-append (waits_for agent_id) s.commands c (ground arith),
          )),
    )
