-- ===== src/EventCodec/Kinds.antt =====
-- The Go types of the events, and the table `eventFactories` of internal/simulation/event_codec.go.
use hacker_sprint2_sim.Common.{String, List, [], ◌∷◌}
use hacker_sprint2_sim.Events.{
  world_created, product_added, time_advanced, page_configured, infrastructure_configured,
  run_ended, costs_configured, infrastructure_cost_accrued, inbox_message_delivered,
  page_request_started, page_request_accepted, page_request_completed, page_request_rejected,
  visitor_arrived, product_selected, visitor_journey_completed, traffic_attack_started,
  traffic_attack_ended, server_command_accepted, server_provisioning_started, server_activated,
  server_draining_started, server_removed, server_provisioning_failed, backend_availability_changed,
  operation_queued, operation_started, operation_progressed, operation_succeeded, operation_failed,
  control_command_accepted, control_command_response_recorded, control_operation_result_recorded,
  server_credential_issued, server_credential_rotation_requested, firewall_rule_upserted,
  firewall_rule_deleted, firewall_request_evaluated, firewall_availability_changed,
  server_type_defined, database_created, database_deleted, database_connection_opened,
  database_connection_released, database_connection_rejected, database_availability_changed,
  database_growth_requested, database_storage_increased, database_growth_blocked, disk_logs_cleaned,
  disk_logs_growth_requested, disk_logs_increased, disk_logs_growth_blocked,
  database_backup_started, database_backup_completed, database_backup_failed,
  backup_storage_cost_accrued, database_restore_started, database_restore_completed,
  database_restore_failed, site_stop_started, site_stopped, site_database_changed, site_started,
  Fact,
}

-- The types of internal/simulation/events that a factory allocates.
pub data EventKind : Type 0 where
  costs_configured_kind server_command_accepted_kind control_command_accepted_kind
        control_command_response_recorded_kind :
      EventKind
  control_operation_result_recorded_kind server_credential_issued_kind
        server_credential_rotation_requested_kind world_created_kind :
      EventKind
  product_added_kind inbox_message_delivered_kind time_advanced_kind page_configured_kind :
      EventKind
  infrastructure_configured_kind run_ended_kind visitor_arrived_kind product_selected_kind :
      EventKind
  visitor_journey_completed_kind page_request_started_kind page_request_accepted_kind
        page_request_completed_kind :
      EventKind
  page_request_rejected_kind server_provisioning_started_kind server_activated_kind
        server_draining_started_kind :
      EventKind
  server_removed_kind server_provisioning_failed_kind backend_availability_changed_kind
        operation_queued_kind :
      EventKind
  operation_started_kind operation_progressed_kind operation_succeeded_kind operation_failed_kind :
      EventKind
  infrastructure_cost_accrued_kind traffic_attack_started_kind traffic_attack_ended_kind
        firewall_rule_upserted_kind :
      EventKind
  firewall_rule_deleted_kind firewall_request_evaluated_kind firewall_availability_changed_kind
        server_type_defined_kind :
      EventKind
  database_created_kind database_deleted_kind database_connection_opened_kind
        database_connection_released_kind :
      EventKind
  database_connection_rejected_kind database_availability_changed_kind
        database_growth_requested_kind database_storage_increased_kind :
      EventKind
  database_growth_blocked_kind disk_logs_cleaned_kind disk_logs_growth_requested_kind
        disk_logs_increased_kind :
      EventKind
  disk_logs_growth_blocked_kind database_backup_started_kind database_backup_completed_kind
        database_backup_failed_kind :
      EventKind
  backup_storage_cost_accrued_kind database_restore_started_kind database_restore_completed_kind
        database_restore_failed_kind :
      EventKind
  site_stop_started_kind site_stopped_kind site_database_changed_kind site_started_kind : EventKind

-- The dynamic type of an event.
unfoldable pub kind_of : Fact → EventKind
kind_of (world_created _) = world_created_kind
kind_of (product_added _) = product_added_kind
kind_of (time_advanced _) = time_advanced_kind
kind_of (page_configured _) = page_configured_kind
kind_of (infrastructure_configured _) = infrastructure_configured_kind
kind_of (run_ended _) = run_ended_kind
kind_of (costs_configured _) = costs_configured_kind
kind_of (infrastructure_cost_accrued _) = infrastructure_cost_accrued_kind
kind_of (inbox_message_delivered _) = inbox_message_delivered_kind
kind_of (page_request_started _) = page_request_started_kind
kind_of (page_request_accepted _) = page_request_accepted_kind
kind_of (page_request_completed _) = page_request_completed_kind
kind_of (page_request_rejected _) = page_request_rejected_kind
kind_of (visitor_arrived _) = visitor_arrived_kind
kind_of (product_selected _) = product_selected_kind
kind_of (visitor_journey_completed _) = visitor_journey_completed_kind
kind_of (traffic_attack_started _) = traffic_attack_started_kind
kind_of (traffic_attack_ended _) = traffic_attack_ended_kind
kind_of (server_command_accepted _) = server_command_accepted_kind
kind_of (server_provisioning_started _) = server_provisioning_started_kind
kind_of (server_activated _) = server_activated_kind
kind_of (server_draining_started _) = server_draining_started_kind
kind_of (server_removed _) = server_removed_kind
kind_of (server_provisioning_failed _) = server_provisioning_failed_kind
kind_of (backend_availability_changed _) = backend_availability_changed_kind
kind_of (operation_queued _) = operation_queued_kind
kind_of (operation_started _) = operation_started_kind
kind_of (operation_progressed _) = operation_progressed_kind
kind_of (operation_succeeded _) = operation_succeeded_kind
kind_of (operation_failed _) = operation_failed_kind
kind_of (control_command_accepted _) = control_command_accepted_kind
kind_of (control_command_response_recorded _) = control_command_response_recorded_kind
kind_of (control_operation_result_recorded _) = control_operation_result_recorded_kind
kind_of (server_credential_issued _) = server_credential_issued_kind
kind_of (server_credential_rotation_requested _) = server_credential_rotation_requested_kind
kind_of (firewall_rule_upserted _) = firewall_rule_upserted_kind
kind_of (firewall_rule_deleted _) = firewall_rule_deleted_kind
kind_of (firewall_request_evaluated _) = firewall_request_evaluated_kind
kind_of (firewall_availability_changed _) = firewall_availability_changed_kind
kind_of (server_type_defined _) = server_type_defined_kind
kind_of (database_created _) = database_created_kind
kind_of (database_deleted _) = database_deleted_kind
kind_of (database_connection_opened _) = database_connection_opened_kind
kind_of (database_connection_released _) = database_connection_released_kind
kind_of (database_connection_rejected _) = database_connection_rejected_kind
kind_of (database_availability_changed _) = database_availability_changed_kind
kind_of (database_growth_requested _) = database_growth_requested_kind
kind_of (database_storage_increased _) = database_storage_increased_kind
kind_of (database_growth_blocked _) = database_growth_blocked_kind
kind_of (disk_logs_cleaned _) = disk_logs_cleaned_kind
kind_of (disk_logs_growth_requested _) = disk_logs_growth_requested_kind
kind_of (disk_logs_increased _) = disk_logs_increased_kind
kind_of (disk_logs_growth_blocked _) = disk_logs_growth_blocked_kind
kind_of (database_backup_started _) = database_backup_started_kind
kind_of (database_backup_completed _) = database_backup_completed_kind
kind_of (database_backup_failed _) = database_backup_failed_kind
kind_of (backup_storage_cost_accrued _) = backup_storage_cost_accrued_kind
kind_of (database_restore_started _) = database_restore_started_kind
kind_of (database_restore_completed _) = database_restore_completed_kind
kind_of (database_restore_failed _) = database_restore_failed_kind
kind_of (site_stop_started _) = site_stop_started_kind
kind_of (site_stopped _) = site_stopped_kind
kind_of (site_database_changed _) = site_database_changed_kind
kind_of (site_started _) = site_started_kind

-- eventFactories: the name of a type, and the type that its factory allocates.
abbrev pub event_factories : List (String × EventKind)
event_factories =
    ("CostsConfigured", costs_configured_kind)
    ∷ ("ServerCommandAccepted", server_command_accepted_kind)
    ∷ ("ControlCommandAccepted", control_command_accepted_kind)
    ∷ ("ControlCommandResponseRecorded", control_command_response_recorded_kind)
    ∷ ("ControlOperationResultRecorded", control_operation_result_recorded_kind)
    ∷ ("ServerCredentialIssued", server_credential_issued_kind)
    ∷ ("ServerCredentialRotationRequested", server_credential_rotation_requested_kind)
    ∷ ("WorldCreated", world_created_kind)
    ∷ ("ProductAdded", product_added_kind)
    ∷ ("InboxMessageDelivered", inbox_message_delivered_kind)
    ∷ ("TimeAdvanced", time_advanced_kind)
    ∷ ("PageConfigured", page_configured_kind)
    ∷ ("InfrastructureConfigured", infrastructure_configured_kind)
    ∷ ("RunEnded", run_ended_kind)
    ∷ ("VisitorArrived", visitor_arrived_kind)
    ∷ ("ProductSelected", product_selected_kind)
    ∷ ("VisitorJourneyCompleted", visitor_journey_completed_kind)
    ∷ ("PageRequestStarted", page_request_started_kind)
    ∷ ("PageRequestAccepted", page_request_accepted_kind)
    ∷ ("PageRequestCompleted", page_request_completed_kind)
    ∷ ("PageRequestRejected", page_request_rejected_kind)
    ∷ ("ServerProvisioningStarted", server_provisioning_started_kind)
    ∷ ("ServerActivated", server_activated_kind)
    ∷ ("ServerDrainingStarted", server_draining_started_kind)
    ∷ ("ServerRemoved", server_removed_kind)
    ∷ ("ServerProvisioningFailed", server_provisioning_failed_kind)
    ∷ ("BackendAvailabilityChanged", backend_availability_changed_kind)
    ∷ ("OperationQueued", operation_queued_kind)
    ∷ ("OperationStarted", operation_started_kind)
    ∷ ("OperationProgressed", operation_progressed_kind)
    ∷ ("OperationSucceeded", operation_succeeded_kind)
    ∷ ("OperationFailed", operation_failed_kind)
    ∷ ("InfrastructureCostAccrued", infrastructure_cost_accrued_kind)
    ∷ ("TrafficAttackStarted", traffic_attack_started_kind)
    ∷ ("TrafficAttackEnded", traffic_attack_ended_kind)
    ∷ ("FirewallRuleUpserted", firewall_rule_upserted_kind)
    ∷ ("FirewallRuleDeleted", firewall_rule_deleted_kind)
    ∷ ("FirewallRequestEvaluated", firewall_request_evaluated_kind)
    ∷ ("FirewallAvailabilityChanged", firewall_availability_changed_kind)
    ∷ ("ServerTypeDefined", server_type_defined_kind)
    ∷ ("DatabaseCreated", database_created_kind)
    ∷ ("DatabaseDeleted", database_deleted_kind)
    ∷ ("DatabaseConnectionOpened", database_connection_opened_kind)
    ∷ ("DatabaseConnectionReleased", database_connection_released_kind)
    ∷ ("DatabaseConnectionRejected", database_connection_rejected_kind)
    ∷ ("DatabaseAvailabilityChanged", database_availability_changed_kind)
    ∷ ("DatabaseGrowthRequested", database_growth_requested_kind)
    ∷ ("DatabaseStorageIncreased", database_storage_increased_kind)
    ∷ ("DatabaseGrowthBlocked", database_growth_blocked_kind)
    ∷ ("DiskLogsCleaned", disk_logs_cleaned_kind)
    ∷ ("DiskLogsGrowthRequested", disk_logs_growth_requested_kind)
    ∷ ("DiskLogsIncreased", disk_logs_increased_kind)
    ∷ ("DiskLogsGrowthBlocked", disk_logs_growth_blocked_kind)
    ∷ ("DatabaseBackupStarted", database_backup_started_kind)
    ∷ ("DatabaseBackupCompleted", database_backup_completed_kind)
    ∷ ("DatabaseBackupFailed", database_backup_failed_kind)
    ∷ ("BackupStorageCostAccrued", backup_storage_cost_accrued_kind)
    ∷ ("DatabaseRestoreStarted", database_restore_started_kind)
    ∷ ("DatabaseRestoreCompleted", database_restore_completed_kind)
    ∷ ("DatabaseRestoreFailed", database_restore_failed_kind)
    ∷ ("SiteStopStarted", site_stop_started_kind)
    ∷ ("SiteStopped", site_stopped_kind)
    ∷ ("SiteDatabaseChanged", site_database_changed_kind)
    ∷ ("SiteStarted", site_started_kind)
    ∷ []
