-- ===== src/Fleet/Tests.antt =====
-- Runs of the server's store (aegorx/management/server.py) with two agents.
use aegor_x.Prelude.{◌≡◌, ◌+◌, refl, String, true, none, some, [], ◌∷◌, any, ◌≐◌, length}
use aegor_x.Fleet.{
  Store, Agent, Command, issue_pairing_token, new_agent, queue_command, new_command, pending_for,
}
use aegor_x.Fleet.Delivery.{pending_for-queue_command}

abbrev print : String → String
print token = token

abbrev nothing : Store
nothing = record { agents = []; pairing = []; commands = []; detections = []; audit = [] }

abbrev paired : Store
paired = record nothing {
  pairing =
      record { token_hash = "t1"; name = "laptop"; created = 5; expires = 15; used = none } ∷ [];
  audit = record { actor = "admin"; action = "pairing-issued"; detail = "laptop" ∷ [] } ∷ [];
}

issues : issue_pairing_token print 5 10 "t1" "laptop" nothing ≡ some paired
unfolding issue_pairing_token
issues = refl

abbrev laptop : Agent
laptop = new_agent "das-1" "laptop" "pem" "secret" 6

abbrev desktop : Agent
desktop = new_agent "b2" "desktop" "pem" "secret" 7

abbrev two_agents : Store
two_agents = record nothing { agents = laptop ∷ desktop ∷ [] }

abbrev scan : Command
scan = new_command 8 "das-1" "scan" "cmd-7" "envelope 1"

abbrev queued : Store
queued = record two_agents {
  commands = scan ∷ [];
  audit = record { actor = "admin"; action = "queue"; detail = "scan" ∷ "das-1" ∷ [] } ∷ [];
}

pending_for-queue_command_example :
    (any (λ x. x ≐ "envelope 1") (pending_for 9 "das-1" queued).1 ≡ true)
    × (length (pending_for 9 "das-1" queued).1 ≡ length (pending_for 9 "das-1" two_agents).1 + 1)
unfolding queue_command
pending_for-queue_command_example =
    pending_for-queue_command 8 9 "das-1" "scan" "cmd-7" "envelope 1" two_agents queued refl
