-- ===== src/Apply.antt =====
-- `State.Apply` of internal/simulation/state.go, with the three handlers that it calls first, and
-- `Rehydrate` of aggregate.go.
pub mod Shared
pub mod Run
pub mod Time
pub mod Servers
pub mod Operations
pub mod Traffic
pub mod Visitors
pub mod Control
pub mod Rules
pub mod Database
pub mod Storage
pub mod Site
use hacker_sprint2_sim.Common.{ℕ, ◌+◌, Bool, not, List, [], ◌∷◌}
use hacker_sprint2_sim.Common.Tests.{◌==◌, if◌then◌else◌}
use hacker_sprint2_sim.Common.Result.{Result, ok, err}
use hacker_sprint2_sim.Platform.{Platform}
use hacker_sprint2_sim.Capacity.{prune_derived_state, prune_expired_capacity}
use hacker_sprint2_sim.Events.{
  Event, Fact, fact, world_schedule_created, world_created, product_added, time_advanced,
  page_configured, infrastructure_configured, run_ended, costs_configured,
  infrastructure_cost_accrued, inbox_message_delivered, page_request_started, page_request_accepted,
  page_request_completed, page_request_rejected, visitor_arrived, product_selected,
  visitor_journey_completed, traffic_attack_started, traffic_attack_ended, server_command_accepted,
  server_provisioning_started, server_activated, server_draining_started, server_removed,
  server_provisioning_failed, backend_availability_changed, operation_queued, operation_started,
  operation_progressed, operation_succeeded, operation_failed, control_command_accepted,
  control_command_response_recorded, control_operation_result_recorded, server_credential_issued,
  server_credential_rotation_requested, firewall_rule_upserted, firewall_rule_deleted,
  firewall_request_evaluated, firewall_availability_changed, server_type_defined, database_created,
  database_deleted, database_connection_opened, database_connection_released,
  database_connection_rejected, database_availability_changed, database_growth_requested,
  database_storage_increased, database_growth_blocked, disk_logs_cleaned,
  disk_logs_growth_requested, disk_logs_increased, disk_logs_growth_blocked,
  database_backup_started, database_backup_completed, database_backup_failed,
  backup_storage_cost_accrued, database_restore_started, database_restore_completed,
  database_restore_failed, site_stop_started, site_stopped, site_database_changed, site_started,
}
use hacker_sprint2_sim.State.{State, RunStatus}
use hacker_sprint2_sim.Outcome.{Error, Outcome, done, fail, invalid_event}
use Shared.{record_command}
use Run.{
  apply_costs_configured, apply_world_created, apply_product_added, apply_inbox_message_delivered,
  apply_world_schedule_created, apply_page_configured, apply_infrastructure_configured,
}
use Time.{apply_time_advanced, apply_run_ended}
use Servers.{
  without_server, apply_server_provisioning_started, apply_server_activated,
  apply_server_draining_started, apply_server_removed, apply_backend_availability_changed,
  apply_infrastructure_cost_accrued,
}
use Operations.{
  apply_server_command_accepted, apply_operation_queued, apply_operation_started,
  apply_operation_progressed, apply_operation_succeeded, apply_operation_failed,
}
use Traffic.{
  apply_page_request_started, apply_page_request_accepted, apply_page_request_completed,
  apply_page_request_rejected,
}
use Visitors.{
  apply_visitor_arrived, apply_product_selected, apply_visitor_journey_completed,
  apply_traffic_attack_started, apply_traffic_attack_ended,
}
use Control.{
  apply_control_command_accepted, apply_control_command_response_recorded,
  apply_control_operation_result_recorded, apply_server_credential_issued,
  apply_server_credential_rotation_requested, rotate_credential, install_credential,
}
use Rules.{
  apply_firewall_rule_upserted, apply_firewall_request_evaluated,
  apply_firewall_availability_changed, apply_firewall_rule_deleted,
}
use Database.{
  apply_server_type_defined, apply_database_created, apply_database_deleted,
  apply_database_connection_opened, apply_database_connection_released,
  apply_database_connection_rejected, apply_database_availability_changed,
}
use Storage.{
  apply_database_growth_requested, apply_database_storage_increased, apply_database_growth_blocked,
  apply_disk_logs_cleaned, apply_disk_logs_growth_requested, apply_disk_logs_increased,
  apply_disk_logs_growth_blocked,
}
use Site.{
  apply_database_backup_started, apply_database_backup_completed, apply_backup_storage_cost_accrued,
  apply_database_backup_failed, apply_database_restore_started, apply_database_restore_completed,
  apply_database_restore_failed, apply_site_stop_started, apply_site_stopped,
  apply_site_database_changed, apply_site_started,
}

-- A failed case that no handler takes: ServerProvisioningFailed is never written.
module _ (env : Platform) where
  -- Its own line unfolds the handlers, for the proofs that go through all of them.
  unfoldable pub apply_fact : State → Fact → Outcome
  unfolding record_command prune_expired_capacity prune_derived_state without_server
      rotate_credential install_credential apply_world_created apply_product_added
      apply_time_advanced apply_page_configured apply_infrastructure_configured apply_run_ended
      apply_costs_configured apply_inbox_message_delivered apply_world_schedule_created
      apply_infrastructure_cost_accrued apply_server_command_accepted
      apply_server_provisioning_started apply_server_activated apply_server_draining_started
      apply_server_removed apply_backend_availability_changed apply_operation_queued
      apply_operation_started apply_operation_progressed apply_operation_succeeded
      apply_operation_failed apply_page_request_started apply_page_request_accepted
      apply_page_request_completed apply_page_request_rejected apply_visitor_arrived
      apply_product_selected apply_visitor_journey_completed apply_traffic_attack_started
      apply_traffic_attack_ended apply_control_command_accepted
      apply_control_command_response_recorded apply_control_operation_result_recorded
      apply_server_credential_issued apply_server_credential_rotation_requested
      apply_firewall_rule_upserted apply_firewall_rule_deleted apply_firewall_request_evaluated
      apply_firewall_availability_changed apply_server_type_defined apply_database_created
      apply_database_deleted apply_database_connection_opened apply_database_connection_released
      apply_database_connection_rejected apply_database_availability_changed
      apply_database_growth_requested apply_database_storage_increased apply_database_growth_blocked
      apply_disk_logs_cleaned apply_disk_logs_growth_requested apply_disk_logs_increased
      apply_disk_logs_growth_blocked apply_database_backup_started apply_database_backup_completed
      apply_database_backup_failed apply_backup_storage_cost_accrued apply_database_restore_started
      apply_database_restore_completed apply_database_restore_failed apply_site_stop_started
      apply_site_stopped apply_site_database_changed apply_site_started
  apply_fact s (world_created e) = apply_world_created s e
  apply_fact s (product_added e) = apply_product_added s e
  apply_fact s (time_advanced e) = apply_time_advanced env s e
  apply_fact s (page_configured e) = apply_page_configured s e
  apply_fact s (infrastructure_configured e) = apply_infrastructure_configured s e
  apply_fact s (run_ended e) = apply_run_ended s e
  apply_fact s (costs_configured e) = apply_costs_configured env s e
  apply_fact s (infrastructure_cost_accrued e) = apply_infrastructure_cost_accrued s e
  apply_fact s (inbox_message_delivered e) = apply_inbox_message_delivered s e
  apply_fact s (page_request_started e) = apply_page_request_started env s e
  apply_fact s (page_request_accepted e) = apply_page_request_accepted env s e
  apply_fact s (page_request_completed e) = apply_page_request_completed s e
  apply_fact s (page_request_rejected e) = apply_page_request_rejected s e
  apply_fact s (visitor_arrived e) = apply_visitor_arrived env s e
  apply_fact s (product_selected e) = apply_product_selected s e
  apply_fact s (visitor_journey_completed e) = apply_visitor_journey_completed s e
  apply_fact s (traffic_attack_started e) = apply_traffic_attack_started env s e
  apply_fact s (traffic_attack_ended e) = apply_traffic_attack_ended s e
  apply_fact s (server_command_accepted e) = apply_server_command_accepted s e
  apply_fact s (server_provisioning_started e) = apply_server_provisioning_started s e
  apply_fact s (server_activated e) = apply_server_activated s e
  apply_fact s (server_draining_started e) = apply_server_draining_started s e
  apply_fact s (server_removed e) = apply_server_removed s e
  apply_fact s (server_provisioning_failed e) = fail invalid_event s
  apply_fact s (backend_availability_changed e) = apply_backend_availability_changed env s e
  apply_fact s (operation_queued e) = apply_operation_queued s e
  apply_fact s (operation_started e) = apply_operation_started s e
  apply_fact s (operation_progressed e) = apply_operation_progressed s e
  apply_fact s (operation_succeeded e) = apply_operation_succeeded s e
  apply_fact s (operation_failed e) = apply_operation_failed s e
  apply_fact s (control_command_accepted e) = apply_control_command_accepted s e
  apply_fact s (control_command_response_recorded e) = apply_control_command_response_recorded s e
  apply_fact s (control_operation_result_recorded e) = apply_control_operation_result_recorded s e
  apply_fact s (server_credential_issued e) = apply_server_credential_issued s e
  apply_fact s (server_credential_rotation_requested e) =
      apply_server_credential_rotation_requested s e
  apply_fact s (firewall_rule_upserted e) = apply_firewall_rule_upserted env s e
  apply_fact s (firewall_rule_deleted e) = apply_firewall_rule_deleted s e
  apply_fact s (firewall_request_evaluated e) = apply_firewall_request_evaluated env s e
  apply_fact s (firewall_availability_changed e) = apply_firewall_availability_changed env s e
  apply_fact s (server_type_defined e) = apply_server_type_defined s e
  apply_fact s (database_created e) = apply_database_created s e
  apply_fact s (database_deleted e) = apply_database_deleted s e
  apply_fact s (database_connection_opened e) = apply_database_connection_opened s e
  apply_fact s (database_connection_released e) = apply_database_connection_released s e
  apply_fact s (database_connection_rejected e) = apply_database_connection_rejected s e
  apply_fact s (database_availability_changed e) = apply_database_availability_changed s e
  apply_fact s (database_growth_requested e) = apply_database_growth_requested s e
  apply_fact s (database_storage_increased e) = apply_database_storage_increased s e
  apply_fact s (database_growth_blocked e) = apply_database_growth_blocked s e
  apply_fact s (disk_logs_cleaned e) = apply_disk_logs_cleaned s e
  apply_fact s (disk_logs_growth_requested e) = apply_disk_logs_growth_requested s e
  apply_fact s (disk_logs_increased e) = apply_disk_logs_increased s e
  apply_fact s (disk_logs_growth_blocked e) = apply_disk_logs_growth_blocked s e
  apply_fact s (database_backup_started e) = apply_database_backup_started s e
  apply_fact s (database_backup_completed e) = apply_database_backup_completed s e
  apply_fact s (database_backup_failed e) = apply_database_backup_failed s e
  apply_fact s (backup_storage_cost_accrued e) = apply_backup_storage_cost_accrued s e
  apply_fact s (database_restore_started e) = apply_database_restore_started s e
  apply_fact s (database_restore_completed e) = apply_database_restore_completed s e
  apply_fact s (database_restore_failed e) = apply_database_restore_failed s e
  apply_fact s (site_stop_started e) = apply_site_stop_started s e
  apply_fact s (site_stopped e) = apply_site_stopped s e
  apply_fact s (site_database_changed e) = apply_site_database_changed s e
  apply_fact s (site_started e) = apply_site_started s e

  unfoldable pub apply : State → Event → Outcome
  apply s (fact f) = apply_fact s f
  apply s (world_schedule_created e) = apply_world_schedule_created s e
