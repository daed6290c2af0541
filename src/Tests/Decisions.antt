-- ===== src/Tests/Decisions.antt =====
-- A rule that blocks the uptime probes, decided on a run that has none.
use hacker_sprint2_sim.Common.{◌≡◌, refl, String, true, false, none, some, List, [], ◌∷◌, ◌⊎◌}
use hacker_sprint2_sim.Common.Int.{pos}
use hacker_sprint2_sim.Common.Map.{lookup}
use hacker_sprint2_sim.Common.Result.{ok}
use hacker_sprint2_sim.Model.Firewall.{FirewallRule}
use hacker_sprint2_sim.Events.{
  Fact, server_command_accepted, firewall_rule_upserted, firewall_availability_changed,
}
use hacker_sprint2_sim.Decide.Firewall.{
  FirewallCommand, upsert, firewall_command_receipt, decide_firewall_command,
}
use hacker_sprint2_sim.Decide.Firewall.Settled.{Settled, decide_firewall_command-settles}
use hacker_sprint2_sim.Tests.{test_platform}
use hacker_sprint2_sim.State.{State, RunStatus}
use hacker_sprint2_sim.Stream.{new_state}
use hacker_sprint2_sim.Common.Tests.{same}
use hacker_sprint2_sim.Common.Result.{and_then}
use hacker_sprint2_sim.Common.Map.{has}
use hacker_sprint2_sim.Decide.{
  applied, apply_all, append_backend_availability_change,
  append_backend_availability_change_to_working,
}
use hacker_sprint2_sim.Decide.Firewall.{
  unless_recorded, upsert_payload, stable_firewall_payload, decide_upsert_firewall_rule,
  when_running, found_or, with_availability, append_firewall_availability_change,
}
use hacker_sprint2_sim.Firewall.{
  validate_and_normalize_firewall_rule, is_resource_id, canonical_cidr, is_region_code,
  valid_user_agent_match, firewall_blocking_rule_ids, denied_ids, evaluate_firewall, evaluate_rules,
  decision_of, first_match, firewall_rule_matches,
}
use hacker_sprint2_sim.Common.Sort.{sort}
use hacker_sprint2_sim.Common.Map.{values, insert}
use hacker_sprint2_sim.Firewall.{live_rules, is_live, cidr_matches, user_agent_matches, add_id}
use hacker_sprint2_sim.Apply.{apply_fact}
use hacker_sprint2_sim.Apply.Operations.{apply_server_command_accepted}
use hacker_sprint2_sim.Apply.Rules.{
  apply_firewall_rule_upserted, apply_firewall_availability_changed, next_revision,
}
use hacker_sprint2_sim.Apply.Shared.{record_command, conflicts, valid_fact_time, is_now}
use hacker_sprint2_sim.Outcome.{ensure_running, ensure_run_exists, refuse, found}
use hacker_sprint2_sim.Capacity.{backend_unavailable_pages, unavailable_among}

-- A run without pages.
abbrev quiet : State
quiet = record (new_state) {
  run_id = "run";
  status = RunStatus.running;
  clock = record { started_at = 100; current_time = 500; ends_at = 1000 };
}

abbrev deny_all : FirewallRule
deny_all = record {
  id = "block";
  priority = pos 1;
  action = "deny";
  match = record { source_cidr = ""; region_code = "RU"; user_agent = none };
  enabled = true;
  expires_at = 0;
}

abbrev encode : FirewallRule → String
encode rule = rule.id

abbrev digest : List String → String
digest parts = "0"

abbrev command : FirewallCommand
command = upsert (record { command_id = "c1"; rule = deny_all })

abbrev emitted : List Fact
emitted =
    server_command_accepted
      (record { command_id = "c1"; operation_id = "c1"; payload = "firewall:0"; accepted_at = 500 })
    ∷ firewall_rule_upserted
        (record { rule = deny_all; revision = 1; replaced = false; upserted_at = 500 })
    ∷ firewall_availability_changed
        (record { available = false; blocking_rule_ids = "block" ∷ []; changed_at = 500 })
    ∷ []

decided : decide_firewall_command test_platform encode digest quiet command ≡ ok emitted
unfolding decide_firewall_command unless_recorded same firewall_command_receipt lookup
    upsert_payload stable_firewall_payload decide_upsert_firewall_rule when_running found_or
    validate_and_normalize_firewall_rule is_resource_id canonical_cidr is_region_code
    valid_user_agent_match with_availability and_then append_firewall_availability_change apply_all
    applied apply_fact apply_server_command_accepted apply_firewall_rule_upserted
    apply_firewall_availability_changed ensure_running ensure_run_exists refuse found has
    record_command conflicts next_revision firewall_blocking_rule_ids denied_ids evaluate_firewall
    evaluate_rules decision_of first_match firewall_rule_matches valid_fact_time is_now
    append_backend_availability_change append_backend_availability_change_to_working
    backend_unavailable_pages unavailable_among sort live_rules values insert is_live cidr_matches
    user_agent_matches add_id
decided = refl

decide_firewall_command-settles_example :
    ((lookup (firewall_command_receipt test_platform encode digest command).0 quiet.command_payloads
        ≡ some (firewall_command_receipt test_platform encode digest command).1)
      × (emitted ≡ []))
    ⊎ Settled test_platform encode digest quiet emitted
decide_firewall_command-settles_example =
    decide_firewall_command-settles test_platform encode digest quiet command emitted decided
