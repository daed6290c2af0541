-- ===== src/Decide/Firewall.antt =====
-- The firewall commands: internal/simulation/firewall_commands.go. json.Marshal of a rule and the
-- `digest` (strings.Join with a NUL, SHA-256, its first eight bytes in hex) are parameters.
pub mod Effects
pub mod Availability
pub mod Settled
use Prim.Native.String.{◌++◌ as cat}
use hacker_sprint2_sim.Common.{
  ℕ, ◌+◌, String, Bool, true, false, not, ◌||◌, Option, none, some, List, [], ◌∷◌, ◌++◌,
}
use hacker_sprint2_sim.Common.Tests.{◌==◌, same, same_bool, if◌then◌else◌}
use hacker_sprint2_sim.Common.Lists.{length}
use hacker_sprint2_sim.Common.Map.{lookup, has}
use hacker_sprint2_sim.Common.Text.{is_empty}
use hacker_sprint2_sim.Common.Result.{Result, ok, err, and_then}
use hacker_sprint2_sim.Model.Types.{CommandId, FirewallRuleId}
use hacker_sprint2_sim.Model.Firewall.{FirewallRule}
use hacker_sprint2_sim.Platform.{Platform}
use hacker_sprint2_sim.Events.{
  Fact, server_command_accepted, firewall_rule_upserted, firewall_rule_deleted,
  firewall_availability_changed,
}
use hacker_sprint2_sim.State.{State, RunStatus}
use hacker_sprint2_sim.State.Traffic.{FirewallRuleState}
use hacker_sprint2_sim.Outcome.{
  Error, idempotency_conflict, invalid_command, resource_not_found, world_not_created,
  run_completed,
}
use hacker_sprint2_sim.Firewall.{
  validate_and_normalize_firewall_rule, firewall_blocking_rule_ids, is_resource_id,
}
use hacker_sprint2_sim.Apply.Rules.{next_revision}
use hacker_sprint2_sim.Decide.{apply_all, append_backend_availability_change}

pub record UpsertFirewallRule : Type 0 where
  pub command_id : CommandId
  pub rule : FirewallRule

pub record DeleteFirewallRule : Type 0 where
  pub command_id : CommandId
  pub rule_id : FirewallRuleId

pub data FirewallCommand : Type 0 where
  upsert : UpsertFirewallRule → FirewallCommand
  delete : DeleteFirewallRule → FirewallCommand

-- The payload that is recorded for the command, if there is one.
unfoldable pub unless_recorded :
    Option String → String → Result Error (List Fact) → Result Error (List Fact)
unless_recorded none payload rest = rest
unless_recorded (some previous) payload rest =
    if same previous payload then ok [] else err idempotency_conflict

-- if err := ensureRunning(state); err != nil { return nil, err }
unfoldable pub when_running {ℓ} : {A : Type ℓ} → RunStatus → Result Error A → Result Error A
when_running RunStatus.not_created rest = err world_not_created
when_running RunStatus.running rest = rest
when_running RunStatus.completed rest = err run_completed

-- What a map, or a call that answers a value or an error, has: if !exists { return nil, err }
unfoldable pub found_or {ℓ κ} :
    {A : Type ℓ} {B : Type κ} → Option A → Error → (A → Result Error B) → Result Error B
found_or none e rest = err e
found_or (some a) e rest = rest a

module _ (env : Platform) where
  unfoldable pub append_firewall_availability_change : State → List Fact → Result Error (List Fact)
  append_firewall_availability_change s items = and_then (apply_all env s items) λ working.
      let blocking = firewall_blocking_rule_ids env working s.clock.current_time in
      let available = length blocking == 0 in
      if same_bool available (not s.firewall_unavailable)
      then ok items
      else ok (
          items
          ++ firewall_availability_changed (record {
            available = available;
            blocking_rule_ids = blocking;
            changed_at = s.clock.current_time;
          })
            ∷ [])

  -- The end of both commands.
  unfoldable pub with_availability : State → List Fact → Result Error (List Fact)
  with_availability s items =
      and_then (append_firewall_availability_change s items)
        (λ out. append_backend_availability_change env s out s.clock.current_time)

  module _ (encode_rule : FirewallRule → String) (digest : List String → String) where
    unfoldable pub stable_firewall_payload : List String → String
    stable_firewall_payload parts = cat "firewall:" (digest parts)

    unfoldable pub upsert_payload : UpsertFirewallRule → String
    upsert_payload command = stable_firewall_payload ("upsert" ∷ encode_rule command.rule ∷ [])

    unfoldable pub delete_payload : DeleteFirewallRule → String
    delete_payload command = stable_firewall_payload ("delete" ∷ command.rule_id ∷ [])

    unfoldable pub decide_upsert_firewall_rule :
        State → UpsertFirewallRule → Result Error (List Fact)
    decide_upsert_firewall_rule s command = when_running s.status (
        if is_empty command.command_id
        then err invalid_command
        else found_or (validate_and_normalize_firewall_rule env command.rule s.clock.current_time)
            invalid_command
            λ rule. with_availability s (
              server_command_accepted (record {
                command_id = command.command_id;
                operation_id = command.command_id;
                payload = upsert_payload command;
                accepted_at = s.clock.current_time;
              })
              ∷ firewall_rule_upserted (record {
                rule = rule;
                revision = next_revision (lookup rule.id s.firewall_rules);
                replaced = has rule.id s.firewall_rules;
                upserted_at = s.clock.current_time;
              })
              ∷ []))

    unfoldable pub decide_delete_firewall_rule :
        State → DeleteFirewallRule → Result Error (List Fact)
    decide_delete_firewall_rule s command = when_running s.status (
        if is_empty command.command_id || not (is_resource_id command.rule_id)
        then err invalid_command
        else found_or (lookup command.rule_id s.firewall_rules) resource_not_found λ current.
          with_availability s (
            server_command_accepted (record {
              command_id = command.command_id;
              operation_id = command.command_id;
              payload = delete_payload command;
              accepted_at = s.clock.current_time;
            })
            ∷ firewall_rule_deleted (record {
              rule_id = command.rule_id;
              revision = current.revision;
              deleted_at = s.clock.current_time;
            })
            ∷ []))

    -- firewallCommandReceipt
    unfoldable pub firewall_command_receipt : FirewallCommand → CommandId × String
    firewall_command_receipt (upsert command) = (command.command_id, upsert_payload command)
    firewall_command_receipt (delete command) = (command.command_id, delete_payload command)

    -- Decide on the firewall commands, where the context is not cancelled. A command that is known
    -- emits nothing.
    unfoldable pub decide_firewall_command : State → FirewallCommand → Result Error (List Fact)
    decide_firewall_command s command =
        let (id, payload) = firewall_command_receipt command in
        unless_recorded (if is_empty id then none else lookup id s.command_payloads) payload
          (elim command [
            | upsert c ↦ decide_upsert_firewall_rule s c
            | delete c ↦ decide_delete_firewall_rule s c
          ])
