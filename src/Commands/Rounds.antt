-- ===== src/Commands/Rounds.antt =====
-- The rounds of the agent with its server (aegorx/management/agent.py, `DASAgent.execute` and `check_in_once`).
use aegor_x.Prelude.{
  String, Bool, true, false, Option, none, some, List, [], ◌∷◌, ◌++◌, any, take, drop, ◌≐◌,
  if◌then◌else◌,
}
use aegor_x.Json.{Json, Fields, text, object, end, field, get, fields_of, is_true, set_default}
use aegor_x.Commands.{Crypto, accepted, rejected, verify_command}
use aegor_x.Commands.Agent.{
  Agent, Device, Report, Handled, returned, raised, command_rejected, command_executed, str_of,
  delegated, failure, cmd_scan_path,
}

module _ {D : Type 0} (dev : Device D) where
  -- A handler that the model leaves to the device.
  unfoldable pub delegate : String → Json → Agent D → Agent D × Handled
  delegate command args a =
      let done = dev.other_handler command args a.device in (record a { device = done.0 }, done.1)

  -- COMMAND_HANDLERS.get(command)
  unfoldable pub handler : String → Option (Json → Agent D → Agent D × Handled)
  unfolding cmd_scan_path delegate
  handler command =
      if command ≐ "scan-path"
      then some (cmd_scan_path dev)
      else if any (λ c. c ≐ command) delegated
      then some (delegate command)
      else none

  -- body.get("args") or {}
  abbrev pub args_of : Fields → Json
  args_of body = elim (get "args" body) [
    | none ↦ object end
    | some j ↦ if is_true j then j else object end
  ]

  abbrev pub result_of : Handled → Fields
  result_of (returned fs) = set_default "status" (text "done") fs
  result_of (raised detail) = failure detail

  -- The end of `execute`, of a body that was accepted.
  unfoldable pub run_body : Fields → Agent D → Agent D × Fields
  unfolding handler
  run_body body a =
      let command = str_of dev.show (get "command" body) in
      elim (handler command) [
        | none ↦ (a, field "status" (text "unsupported") end)
        | some run ↦
            let done = run (args_of body) a in
            (
              record done.0 {
                audit = done.0.audit ++ command_executed command (args_of body) ∷ [];
              },
              result_of done.1,
            )
      ]

  -- `execute`, with the public key of the configuration
  unfoldable pub execute : Crypto → Json → Agent D → Agent D × Fields
  unfolding run_body
  execute k envelope a = elim (verify_command k (dev.now a.device) envelope) [
    | rejected reason ↦ (
      record a { audit = a.audit ++ command_rejected reason ∷ [] },
      field "status" (text "rejected") (field "detail" (text (dev.detail reason)) end),
    )
    | accepted body ↦ run_body body a
  ]

  -- envelope.get("body", {}).get("command_id", ""); `none` is the AttributeError of what is no `dict`
  unfoldable pub command_id_of : Json → Option Json
  command_id_of envelope = elim (fields_of envelope) [
    | none ↦ none
    | some fs ↦ elim (get "body" fs) [
      | none ↦ some (text "")
      | some b ↦ elim (fields_of b) [
        | none ↦ none
        | some body ↦ elim (get "command_id" body) [ none ↦ some (text "") | some id ↦ some id ]
      ]
    ]
  ]

  -- The loop of `check_in_once`: the results that are submitted, of which a failed submission is passed over,
  -- and whether the loop ends without an exception.
  unfoldable pub execute_all : Crypto → List Json → Agent D → Agent D × List (Json × Fields) × Bool
  unfolding execute command_id_of
  execute_all k [] a = (a, [], true)
  execute_all k (e ∷ es) a =
      let done = execute k e a in
      let rest = execute_all k es done.0 in
      elim (command_id_of e) [
        | none ↦ (done.0, [], false)
        | some id ↦ (rest.0, (id, done.1) ∷ rest.1, rest.2)
      ]

  -- What a check-in takes along.
  abbrev pub batch_of : List Report → Agent D → List Report
  batch_of reports a = reports ++ take 100 a.pending

  -- `check_in_once`; `checkin` is what the server answers to the reports, or `none` for an exception
  unfoldable pub check_in_once :
      Crypto
      → (List Report → Option (List Json))
      → List Report
      → Agent D
      → Agent D × List (Json × Fields) × Bool
  unfolding execute_all
  check_in_once k checkin reports a =
      let drained = record a { pending = drop 100 a.pending } in
      elim (checkin (batch_of reports a)) [
        | none ↦ (drained, [], false)
        | some envelopes ↦ execute_all k (take 20 envelopes) drained
      ]
