-- ===== src/State/Traffic.antt =====
-- The records of internal/simulation/types.go for the visitors, the requests and the firewall.
use hacker_sprint2_sim.Common.{ℕ, String}
use hacker_sprint2_sim.Common.Int.{ℤ}
use hacker_sprint2_sim.Model.Types.{
  Time, AttackId, AttackKind, AttackResolution, DatabaseId, FirewallAction, FirewallRuleId,
  PageType, ProductId, RegionCode, RequestFailureCode, RequestId, RequestSource, ServerId,
  VisitorId, VisitorOutcome,
}
use hacker_sprint2_sim.Model.Types.{PageRequestStatus}
use hacker_sprint2_sim.Model.Firewall.{FirewallRule}

pub record CapacityAllocationState : Type 0 where
  pub request_id : RequestId
  pub server_id : ServerId
  pub load_units : ℤ
  pub accepted_at : Time
  pub releases_at : Time

pub record VisitorState : Type 0 where
  pub id : VisitorId
  pub product_id : ProductId
  pub source_ip : String
  pub user_agent : String
  pub region_code : RegionCode
  pub outcome : VisitorOutcome
  pub arrived_at : Time
  pub completed_at : Time

pub record AttackState : Type 0 where
  pub id : AttackId
  pub kind : AttackKind
  pub target_page : PageType
  pub requests_per_minute : ℤ
  pub load_units_per_request : ℤ
  pub source_cidr : String
  pub user_agent : String
  pub region_code : RegionCode
  pub resolution : AttackResolution
  pub expected_end_at : Time
  pub started_at : Time

pub record PageRequestState : Type 0 where
  pub id : RequestId
  pub source : RequestSource
  pub visitor_id : VisitorId
  pub page : PageType
  pub product_id : ProductId
  pub source_ip : String
  pub user_agent : String
  pub region_code : RegionCode
  pub firewall_action : FirewallAction
  pub firewall_rule_id : FirewallRuleId
  pub load_units : ℤ
  pub status : PageRequestStatus
  pub status_code : ℤ
  pub error_code : RequestFailureCode
  pub message : String
  pub latency : ℤ
  pub server_id : ServerId
  pub database_id : DatabaseId
  pub releases_at : Time
  pub started_at : Time
  pub completed_at : Time

pub record FirewallRuleState : Type 0 where
  pub rule : FirewallRule
  pub revision : ℕ
