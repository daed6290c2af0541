-- ===== src/Events/Traffic.antt =====
-- The events of internal/simulation/events/requests.go, internal/simulation/events/visitors.go, internal/simulation/events/incidents.go.
use hacker_sprint2_sim.Common.{String}
use hacker_sprint2_sim.Common.Int.{ℤ}
use hacker_sprint2_sim.Model.Types.{
  Time, AttackId, AttackKind, AttackResolution, DatabaseId, FirewallRuleId, PageType, ProductId,
  RegionCode, RequestFailureCode, RequestId, RequestSource, ServerId, VisitorId, VisitorOutcome,
}

pub record PageRequestStarted : Type 0 where
  pub request_id : RequestId
  pub source : RequestSource
  pub visitor_id : VisitorId
  pub page : PageType
  pub product_id : ProductId
  pub source_ip : String
  pub user_agent : String
  pub region_code : RegionCode
  pub load_units : ℤ
  pub started_at : Time

pub record PageRequestAccepted : Type 0 where
  pub request_id : RequestId
  pub server_id : ServerId
  pub database_id : DatabaseId
  pub firewall_rule_id : FirewallRuleId
  pub accepted_at : Time
  pub releases_at : Time

pub record PageRequestCompleted : Type 0 where
  pub request_id : RequestId
  pub server_id : ServerId
  pub database_id : DatabaseId
  pub firewall_rule_id : FirewallRuleId
  pub status_code : ℤ
  pub error_code : RequestFailureCode
  pub message : String
  pub latency : ℤ
  pub completed_at : Time

pub record PageRequestRejected : Type 0 where
  pub request_id : RequestId
  pub server_id : ServerId
  pub database_id : DatabaseId
  pub firewall_rule_id : FirewallRuleId
  pub status_code : ℤ
  pub error_code : RequestFailureCode
  pub message : String
  pub rejected_at : Time

pub record VisitorArrived : Type 0 where
  pub visitor_id : VisitorId
  pub source_ip : String
  pub user_agent : String
  pub region_code : RegionCode
  pub arrived_at : Time

pub record ProductSelected : Type 0 where
  pub visitor_id : VisitorId
  pub product_id : ProductId
  pub selected_at : Time

pub record VisitorJourneyCompleted : Type 0 where
  pub visitor_id : VisitorId
  pub outcome : VisitorOutcome
  pub completed_at : Time

pub record TrafficAttackStarted : Type 0 where
  pub attack_id : AttackId
  pub kind : AttackKind
  pub target_page : PageType
  pub requests_per_minute : ℤ
  pub load_units_per_request : ℤ
  pub source_cidr : String
  pub user_agent : String
  pub region_code : RegionCode
  pub resolution : AttackResolution
  pub expected_end_at : Time
  pub started_at : Time

pub record TrafficAttackEnded : Type 0 where
  pub attack_id : AttackId
  pub ended_at : Time
