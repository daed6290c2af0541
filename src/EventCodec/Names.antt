-- ===== src/EventCodec/Names.antt =====
-- The names of the event types: the `EventType` methods of internal/simulation/events.
use hacker_sprint2_sim.Common.{String}
use hacker_sprint2_sim.Events.{
  world_created, product_added, time_advanced, page_configured, infrastructure_configured,
  run_ended, costs_configured, infrastructure_cost_accrued, inbox_message_delivered,
  page_request_started, page_request_accepted, page_request_completed, page_request_rejected,
  visitor_arrived, product_selected, visitor_journey_completed, traffic_attack_started,
  traffic_attack_ended, server_command_accepted, server_provisioning_started, server_activated,
  server_draining_started, server_removed, server_provisioning_failed, backend_availability_changed,
  operation_queued, operation_started, operation_progressed, operation_succeeded, operation_failed,
  control_command_accepted, control_command_response_recorded, control_operation_result_recorded,
  server_credential_issued, server_credential_rotation_requested, firewall_rule_upserted,
  firewall_rule_deleted, firewall_request_evaluated, firewall_availability_changed,
  server_type_defined, database_created, database_deleted, database_connection_opened,
  database_connection_released, database_connection_rejected, database_availability_changed,
  database_growth_requested, database_storage_increased, database_growth_blocked, disk_logs_cleaned,
  disk_logs_growth_requested, disk_logs_increased, disk_logs_growth_blocked,
  database_backup_started, database_backup_completed, database_backup_failed,
  backup_storage_cost_accrued, database_restore_started, database_restore_completed,
  database_restore_failed, site_stop_started, site_stopped, site_database_changed, site_started,
  Fact,
}

-- EventType
unfoldable pub event_type : Fact → String
event_type (world_created _) = "WorldCreated"
event_type (product_added _) = "ProductAdded"
event_type (time_advanced _) = "TimeAdvanced"
event_type (page_configured _) = "PageConfigured"
event_type (infrastructure_configured _) = "InfrastructureConfigured"
event_type (run_ended _) = "RunEnded"
event_type (costs_configured _) = "CostsConfigured"
event_type (infrastructure_cost_accrued _) = "InfrastructureCostAccrued"
event_type (inbox_message_delivered _) = "InboxMessageDelivered"
event_type (page_request_started _) = "PageRequestStarted"
event_type (page_request_accepted _) = "PageRequestAccepted"
event_type (page_request_completed _) = "PageRequestCompleted"
event_type (page_request_rejected _) = "PageRequestRejected"
event_type (visitor_arrived _) = "VisitorArrived"
event_type (product_selected _) = "ProductSelected"
event_type (visitor_journey_completed _) = "VisitorJourneyCompleted"
event_type (traffic_attack_started _) = "TrafficAttackStarted"
event_type (traffic_attack_ended _) = "TrafficAttackEnded"
event_type (server_command_accepted _) = "ServerCommandAccepted"
event_type (server_provisioning_started _) = "ServerProvisioningStarted"
event_type (server_activated _) = "ServerActivated"
event_type (server_draining_started _) = "ServerDrainingStarted"
event_type (server_removed _) = "ServerRemoved"
event_type (server_provisioning_failed _) = "ServerProvisioningFailed"
event_type (backend_availability_changed _) = "BackendAvailabilityChanged"
event_type (operation_queued _) = "OperationQueued"
event_type (operation_started _) = "OperationStarted"
event_type (operation_progressed _) = "OperationProgressed"
event_type (operation_succeeded _) = "OperationSucceeded"
event_type (operation_failed _) = "OperationFailed"
event_type (control_command_accepted _) = "ControlCommandAccepted"
event_type (control_command_response_recorded _) = "ControlCommandResponseRecorded"
event_type (control_operation_result_recorded _) = "ControlOperationResultRecorded"
event_type (server_credential_issued _) = "ServerCredentialIssued"
event_type (server_credential_rotation_requested _) = "ServerCredentialRotationRequested"
event_type (firewall_rule_upserted _) = "FirewallRuleUpserted"
event_type (firewall_rule_deleted _) = "FirewallRuleDeleted"
event_type (firewall_request_evaluated _) = "FirewallRequestEvaluated"
event_type (firewall_availability_changed _) = "FirewallAvailabilityChanged"
event_type (server_type_defined _) = "ServerTypeDefined"
event_type (database_created _) = "DatabaseCreated"
event_type (database_deleted _) = "DatabaseDeleted"
event_type (database_connection_opened _) = "DatabaseConnectionOpened"
event_type (database_connection_released _) = "DatabaseConnectionReleased"
event_type (database_connection_rejected _) = "DatabaseConnectionRejected"
event_type (database_availability_changed _) = "DatabaseAvailabilityChanged"
event_type (database_growth_requested _) = "DatabaseGrowthRequested"
event_type (database_storage_increased _) = "DatabaseStorageIncreased"
event_type (database_growth_blocked _) = "DatabaseGrowthBlocked"
event_type (disk_logs_cleaned _) = "DiskLogsCleaned"
event_type (disk_logs_growth_requested _) = "DiskLogsGrowthRequested"
event_type (disk_logs_increased _) = "DiskLogsIncreased"
event_type (disk_logs_growth_blocked _) = "DiskLogsGrowthBlocked"
event_type (database_backup_started _) = "DatabaseBackupStarted"
event_type (database_backup_completed _) = "DatabaseBackupCompleted"
event_type (database_backup_failed _) = "DatabaseBackupFailed"
event_type (backup_storage_cost_accrued _) = "BackupStorageCostAccrued"
event_type (database_restore_started _) = "DatabaseRestoreStarted"
event_type (database_restore_completed _) = "DatabaseRestoreCompleted"
event_type (database_restore_failed _) = "DatabaseRestoreFailed"
event_type (site_stop_started _) = "SiteStopStarted"
event_type (site_stopped _) = "SiteStopped"
event_type (site_database_changed _) = "SiteDatabaseChanged"
event_type (site_started _) = "SiteStarted"

-- WorldScheduleCreated.EventType
abbrev pub schedule_type : String
schedule_type = "WorldScheduleCreated"
