-- ===== src/State.antt =====
-- The state of a run: internal/simulation/types.go. A map is never nil, as `NewState` makes each.
pub mod Records
pub mod Infrastructure
pub mod Traffic
use hacker_sprint2_sim.Common.{ℕ, String, Bool, Option, List}
use hacker_sprint2_sim.Common.Int.{ℤ}
use hacker_sprint2_sim.Common.Map.{Map}
use hacker_sprint2_sim.Model.Types.{Time, OperationId}
use hacker_sprint2_sim.Events.{ScheduledWorldEvent}
use Records.{
  ClockState, ProductState, InboxMessageState, CostsState, PageConfigState,
  InfrastructureConfigState, OperationState, ControlCommandReceiptState,
  ControlOperationResultState,
}
use Infrastructure.{
  ServerState, ServerTypeState, ServerCredentialState, DatabaseState, DatabaseConnectionState,
  DatabaseGrowthState, BackupState, SiteState,
}
use Traffic.{
  CapacityAllocationState, VisitorState, AttackState, PageRequestState, FirewallRuleState,
}

pub data RunStatus : Type 0 where
  not_created running completed : RunStatus

pub record State : Type 0 where
  pub run_id : String
  pub seed : ℤ
  pub status : RunStatus
  pub end_reason : String
  pub version : ℕ
  pub clock : ClockState
  pub infrastructure : InfrastructureConfigState
  pub products : Map ProductState
  pub inbox_messages : Map InboxMessageState
  pub pages : Map PageConfigState
  pub servers : Map ServerState
  pub server_types : Map ServerTypeState
  pub databases : Map DatabaseState
  pub database_connections : Map DatabaseConnectionState
  pub database_connection_counts : Map ℤ
  pub pending_database_growth : Map DatabaseGrowthState
  pub backups : Map BackupState
  pub site : SiteState
  pub capacity : Map CapacityAllocationState
  pub used_capacity_by_server : Map ℤ
  pub capacity_indexed_at : Time
  pub operations : Map OperationState
  pub commands : Map OperationId
  pub command_payloads : Map String
  pub control_command_receipts : Map ControlCommandReceiptState
  pub control_operation_results : Map ControlOperationResultState
  pub server_credentials : Map ServerCredentialState
  pub credential_rotation_ids : Map (Unit {0})
  pub requests : Map PageRequestState
  pub seen_requests : Map (Unit {0})
  pub visitors : Map VisitorState
  pub seen_visitors : Map (Unit {0})
  pub active_attacks : Map AttackState
  pub resolved_attacks : Map (Unit {0})
  pub firewall_rules : Map FirewallRuleState
  pub firewall_unavailable : Bool
  pub backend_unavailable : Bool
  pub schedule : List ScheduledWorldEvent
  pub schedule_cursor : ℕ
  pub costs : CostsState
