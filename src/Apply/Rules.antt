-- ===== src/Apply/Rules.antt =====
-- The firewall events: applyFirewallEvent in internal/simulation/firewall_state.go.
use hacker_sprint2_sim.Common.{
  ℕ, ◌+◌, String, Bool, true, false, not, ◌&&◌, ◌||◌, Option, none, some, List, [], ◌∷◌,
}
use hacker_sprint2_sim.Common.Tests.{◌==◌, same, same_bool}
use hacker_sprint2_sim.Common.Lists.{length}
use hacker_sprint2_sim.Common.Map.{lookup, insert, erase, has}
use hacker_sprint2_sim.Platform.{Platform}
use hacker_sprint2_sim.State.{State}
use hacker_sprint2_sim.Outcome.{
  Outcome, fail, done, refuse, found, ensure_running, ensure_run_exists, invalid_event,
}
use hacker_sprint2_sim.Apply.Shared.{valid_fact_time, is_now, site_boundary}
use hacker_sprint2_sim.Firewall.{
  validate_and_normalize_firewall_rule, valid_client_profile, evaluate_firewall,
  firewall_blocking_rule_ids,
}
use hacker_sprint2_sim.Model.Types.{is_in_progress}
use hacker_sprint2_sim.Model.Firewall.{ClientProfile}
use hacker_sprint2_sim.Events.Firewall.{
  FirewallRuleUpserted, FirewallRuleDeleted, FirewallRequestEvaluated, FirewallAvailabilityChanged,
}
use hacker_sprint2_sim.State.Traffic.{FirewallRuleState}
use hacker_sprint2_sim.Apply.Traffic.{set_request}

unfoldable pub next_revision : Option FirewallRuleState → ℕ
next_revision none = 1
next_revision (some current) = current.revision + 1

abbrev pub set_rule : String → FirewallRuleState → State → State
set_rule id rule s = record s { firewall_rules = insert id rule s.firewall_rules }

abbrev same_ids : List String → List String → Bool
same_ids [] [] = true
same_ids (x ∷ xs) (y ∷ ys) = same x y && same_ids xs ys
same_ids _ _ = false

module _ (env : Platform) where
  -- The rule is stored as the event has it, since normalizing it must change nothing: only the
  -- source_cidr can change.
  unfoldable pub apply_firewall_rule_upserted : State → FirewallRuleUpserted → Outcome
  apply_firewall_rule_upserted s e = ensure_running s (
      found (validate_and_normalize_firewall_rule env e.rule e.upserted_at) (fail invalid_event s)
        λ rule.
          refuse
            (not (same rule.match.source_cidr e.rule.match.source_cidr)
              || not (is_now s e.upserted_at))
            invalid_event s
            (refuse
              (not (same_bool e.replaced (has e.rule.id s.firewall_rules))
                || not (e.revision == next_revision (lookup e.rule.id s.firewall_rules)))
              invalid_event s
              (done (set_rule e.rule.id (record { rule = rule; revision = e.revision }) s))))

  unfoldable pub apply_firewall_request_evaluated : State → FirewallRequestEvaluated → Outcome
  apply_firewall_request_evaluated s e =
      let profile : ClientProfile = record {
        source_ip = e.source_ip;
        user_agent = e.user_agent;
        region_code = e.region_code;
      } in
      let decision = evaluate_firewall env s profile e.evaluated_at in
      ensure_running s (
        found (lookup e.request_id s.requests) (fail invalid_event s) λ request.
          refuse
            (not (is_in_progress request.status)
              || not (valid_fact_time s e.evaluated_at)
              || not (same request.source_ip e.source_ip)
              || not (same request.user_agent e.user_agent)
              || not (same request.region_code e.region_code)
              || not (valid_client_profile env profile))
            invalid_event s
            (refuse
              (not (same e.action decision.action)
                || not (same e.matched_rule_id decision.rule_id)
                || not (e.matched_rule_revision == decision.revision))
              invalid_event s
              (done (
                set_request e.request_id
                  (record request {
                    firewall_action = e.action;
                    firewall_rule_id = e.matched_rule_id;
                  })
                  s))))

  unfoldable pub apply_firewall_availability_changed : State → FirewallAvailabilityChanged → Outcome
  apply_firewall_availability_changed s e =
      let blocking = firewall_blocking_rule_ids env s e.changed_at in
      ensure_run_exists s (
        refuse (not (valid_fact_time s e.changed_at)) invalid_event s (
          refuse
            (not (same_bool e.available (length blocking == 0))
              || not (same_ids e.blocking_rule_ids blocking)
              || same_bool e.available (not s.firewall_unavailable))
            invalid_event s
            (let flagged = record s { firewall_unavailable = not e.available } in
              done (record flagged { site = site_boundary e.available e.changed_at flagged }))))

unfoldable pub revision_is : Option FirewallRuleState → ℕ → Bool
revision_is none n = false
revision_is (some current) n = current.revision == n

unfoldable pub apply_firewall_rule_deleted : State → FirewallRuleDeleted → Outcome
apply_firewall_rule_deleted s e = ensure_running s (
    refuse
      (not (revision_is (lookup e.rule_id s.firewall_rules) e.revision)
        || not (is_now s e.deleted_at))
      invalid_event s (done (record s { firewall_rules = erase e.rule_id s.firewall_rules })))
