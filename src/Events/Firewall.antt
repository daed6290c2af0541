-- ===== src/Events/Firewall.antt =====
-- The events of internal/simulation/events/firewall.go.
use hacker_sprint2_sim.Common.{ℕ, String, Bool, List}
use hacker_sprint2_sim.Model.Types.{Time, FirewallAction, FirewallRuleId, RegionCode, RequestId}
use hacker_sprint2_sim.Model.Firewall.{FirewallRule}

pub record FirewallRuleUpserted : Type 0 where
  pub rule : FirewallRule
  pub revision : ℕ
  pub replaced : Bool
  pub upserted_at : Time

pub record FirewallRuleDeleted : Type 0 where
  pub rule_id : FirewallRuleId
  pub revision : ℕ
  pub deleted_at : Time

pub record FirewallRequestEvaluated : Type 0 where
  pub request_id : RequestId
  pub source_ip : String
  pub user_agent : String
  pub region_code : RegionCode
  pub matched_rule_id : FirewallRuleId
  pub matched_rule_revision : ℕ
  pub action : FirewallAction
  pub evaluated_at : Time

pub record FirewallAvailabilityChanged : Type 0 where
  pub available : Bool
  pub blocking_rule_ids : List FirewallRuleId
  pub changed_at : Time
