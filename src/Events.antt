-- ===== src/Events.antt =====
-- The domain events: internal/simulation/events. An event of the schedule is a `Fact`: a schedule
-- inside a schedule, which no generator writes, is left out.
pub mod World
pub mod Traffic
pub mod Resources
pub mod Control
pub mod Firewall
pub mod Database
use hacker_sprint2_sim.Common.{ℕ, List, Option}
use hacker_sprint2_sim.Model.Types.{Time}
use World.{
  WorldCreated, ProductAdded, TimeAdvanced, PageConfigured, InfrastructureConfigured, RunEnded,
  CostsConfigured, InfrastructureCostAccrued, InboxMessageDelivered,
}
use Traffic.{
  PageRequestStarted, PageRequestAccepted, PageRequestCompleted, PageRequestRejected,
  VisitorArrived, ProductSelected, VisitorJourneyCompleted, TrafficAttackStarted,
  TrafficAttackEnded,
}
use Resources.{
  ServerCommandAccepted, ServerProvisioningStarted, ServerActivated, ServerDrainingStarted,
  ServerRemoved, ServerProvisioningFailed, BackendAvailabilityChanged, OperationQueued,
  OperationStarted, OperationProgressed, OperationSucceeded, OperationFailed,
}
use Control.{
  ControlCommandAccepted, ControlCommandResponseRecorded, ControlOperationResultRecorded,
  ServerCredentialIssued, ServerCredentialRotationRequested,
}
use Firewall.{
  FirewallRuleUpserted, FirewallRuleDeleted, FirewallRequestEvaluated, FirewallAvailabilityChanged,
}
use Database.{
  ServerTypeDefined, DatabaseCreated, DatabaseDeleted, DatabaseConnectionOpened,
  DatabaseConnectionReleased, DatabaseConnectionRejected, DatabaseAvailabilityChanged,
  DatabaseGrowthRequested, DatabaseStorageIncreased, DatabaseGrowthBlocked, DiskLogsCleaned,
  DiskLogsGrowthRequested, DiskLogsIncreased, DiskLogsGrowthBlocked, DatabaseBackupStarted,
  DatabaseBackupCompleted, DatabaseBackupFailed, BackupStorageCostAccrued, DatabaseRestoreStarted,
  DatabaseRestoreCompleted, DatabaseRestoreFailed, SiteStopStarted, SiteStopped,
  SiteDatabaseChanged, SiteStarted,
}

-- The dynamic types that satisfy `events.Event`, but for `WorldScheduleCreated`.
pub data Fact : Type 0 where
  world_created : WorldCreated → Fact
  product_added : ProductAdded → Fact
  time_advanced : TimeAdvanced → Fact
  page_configured : PageConfigured → Fact
  infrastructure_configured : InfrastructureConfigured → Fact
  run_ended : RunEnded → Fact
  costs_configured : CostsConfigured → Fact
  infrastructure_cost_accrued : InfrastructureCostAccrued → Fact
  inbox_message_delivered : InboxMessageDelivered → Fact
  page_request_started : PageRequestStarted → Fact
  page_request_accepted : PageRequestAccepted → Fact
  page_request_completed : PageRequestCompleted → Fact
  page_request_rejected : PageRequestRejected → Fact
  visitor_arrived : VisitorArrived → Fact
  product_selected : ProductSelected → Fact
  visitor_journey_completed : VisitorJourneyCompleted → Fact
  traffic_attack_started : TrafficAttackStarted → Fact
  traffic_attack_ended : TrafficAttackEnded → Fact
  server_command_accepted : ServerCommandAccepted → Fact
  server_provisioning_started : ServerProvisioningStarted → Fact
  server_activated : ServerActivated → Fact
  server_draining_started : ServerDrainingStarted → Fact
  server_removed : ServerRemoved → Fact
  server_provisioning_failed : ServerProvisioningFailed → Fact
  backend_availability_changed : BackendAvailabilityChanged → Fact
  operation_queued : OperationQueued → Fact
  operation_started : OperationStarted → Fact
  operation_progressed : OperationProgressed → Fact
  operation_succeeded : OperationSucceeded → Fact
  operation_failed : OperationFailed → Fact
  control_command_accepted : ControlCommandAccepted → Fact
  control_command_response_recorded : ControlCommandResponseRecorded → Fact
  control_operation_result_recorded : ControlOperationResultRecorded → Fact
  server_credential_issued : ServerCredentialIssued → Fact
  server_credential_rotation_requested : ServerCredentialRotationRequested → Fact
  firewall_rule_upserted : FirewallRuleUpserted → Fact
  firewall_rule_deleted : FirewallRuleDeleted → Fact
  firewall_request_evaluated : FirewallRequestEvaluated → Fact
  firewall_availability_changed : FirewallAvailabilityChanged → Fact
  server_type_defined : ServerTypeDefined → Fact
  database_created : DatabaseCreated → Fact
  database_deleted : DatabaseDeleted → Fact
  database_connection_opened : DatabaseConnectionOpened → Fact
  database_connection_released : DatabaseConnectionReleased → Fact
  database_connection_rejected : DatabaseConnectionRejected → Fact
  database_availability_changed : DatabaseAvailabilityChanged → Fact
  database_growth_requested : DatabaseGrowthRequested → Fact
  database_storage_increased : DatabaseStorageIncreased → Fact
  database_growth_blocked : DatabaseGrowthBlocked → Fact
  disk_logs_cleaned : DiskLogsCleaned → Fact
  disk_logs_growth_requested : DiskLogsGrowthRequested → Fact
  disk_logs_increased : DiskLogsIncreased → Fact
  disk_logs_growth_blocked : DiskLogsGrowthBlocked → Fact
  database_backup_started : DatabaseBackupStarted → Fact
  database_backup_completed : DatabaseBackupCompleted → Fact
  database_backup_failed : DatabaseBackupFailed → Fact
  backup_storage_cost_accrued : BackupStorageCostAccrued → Fact
  database_restore_started : DatabaseRestoreStarted → Fact
  database_restore_completed : DatabaseRestoreCompleted → Fact
  database_restore_failed : DatabaseRestoreFailed → Fact
  site_stop_started : SiteStopStarted → Fact
  site_stopped : SiteStopped → Fact
  site_database_changed : SiteDatabaseChanged → Fact
  site_started : SiteStarted → Fact

-- `event` is `none` for a nil interface.
pub record ScheduledWorldEvent : Type 0 where
  pub sequence : ℕ
  pub occurs_at : Time
  pub event : Option Fact

pub record WorldScheduleCreated : Type 0 where
  pub schedule : List ScheduledWorldEvent
  pub created_at : Time

pub data Event : Type 0 where
  fact : Fact → Event
  world_schedule_created : WorldScheduleCreated → Event
