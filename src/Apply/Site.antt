-- ===== src/Apply/Site.antt =====
-- Backups, restores and the site: applyDatabaseEvent in internal/simulation/database_state.go, and
-- backupStorageHourlyCost of database_aggregate.go.
use hacker_sprint2_sim.Common.{ℕ, String, true, false, not, ◌||◌}
use hacker_sprint2_sim.Common.Tests.{◌==◌, same, if◌then◌else◌}
use hacker_sprint2_sim.Common.Int.{ℤ, pos, ltz, lez, eqz, ◌+ℤ◌, ◌-ℤ◌, ◌*ℤ◌, quot}
use hacker_sprint2_sim.Common.Lists.{length}
use hacker_sprint2_sim.Common.Map.{lookup, insert, has}
use hacker_sprint2_sim.Common.Text.{is_empty}
use hacker_sprint2_sim.State.{State}
use hacker_sprint2_sim.Outcome.{Outcome, fail, done, refuse, found, invalid_event}
use hacker_sprint2_sim.Apply.Shared.{
  valid_fact_time, is_now, site_dependencies_available, is_available, end_outage, begin_outage,
}
use hacker_sprint2_sim.Model.Types.{
  is_creating, is_ready, site_is_running, site_is_stopping, site_is_stopped, BackupLifecycleStatus,
  SiteLifecycleStatus,
}
use hacker_sprint2_sim.Events.Database.{
  DatabaseBackupStarted, DatabaseBackupCompleted, DatabaseBackupFailed, BackupStorageCostAccrued,
  DatabaseRestoreStarted, DatabaseRestoreCompleted, DatabaseRestoreFailed, SiteStopStarted,
  SiteStopped, SiteDatabaseChanged, SiteStarted,
}
use hacker_sprint2_sim.State.Infrastructure.{BackupState, SiteState}
use hacker_sprint2_sim.Apply.Database.{set_database}

abbrev gibibyte : ℕ
gibibyte = 1_073_741_824

-- backupStorageHourlyCost: 100 minor units for each GiB that is begun.
unfoldable pub backup_storage_hourly_cost : ℤ → ℤ
backup_storage_hourly_cost data_bytes =
    if lez data_bytes (pos 0)
    then pos 0
    else quot (data_bytes +ℤ pos gibibyte -ℤ pos 1) gibibyte *ℤ pos 100

abbrev pub set_backup : String → BackupState → State → State
set_backup id backup s = record s { backups = insert id backup s.backups }

unfoldable pub apply_database_backup_started : State → DatabaseBackupStarted → Outcome
apply_database_backup_started s e =
    found (lookup e.database_id s.databases) (fail invalid_event s) λ database.
      refuse
        (not (same database.server_id e.server_id)
          || is_empty e.backup_id
          || not (valid_fact_time s e.started_at))
        invalid_event s
        (refuse (has e.backup_id s.backups) invalid_event s (
          done (
            set_backup e.backup_id
              (record {
                id = e.backup_id;
                database_id = e.database_id;
                server_id = e.server_id;
                operation_id = e.operation_id;
                status = BackupLifecycleStatus.creating;
                data_bytes = pos 0;
                data_version = 0;
                created_at = e.started_at;
                completed_at = 0;
                storage_cost_per_hour_minor = pos 0;
                billed_hours = pos 0;
                error_code = "";
                message = "";
              })
              s)))

unfoldable pub apply_database_backup_completed : State → DatabaseBackupCompleted → Outcome
apply_database_backup_completed s e =
    found (lookup e.backup_id s.backups) (fail invalid_event s) λ backup.
      found (lookup e.database_id s.databases) (fail invalid_event s) λ database.
        refuse
          (not (is_creating backup.status)
            || not (same backup.operation_id e.operation_id)
            || not (same backup.database_id e.database_id)
            || not (eqz e.data_bytes database.data_bytes)
            || not (e.data_version == database.data_version)
            || not (eqz e.storage_cost_per_hour_minor (backup_storage_hourly_cost e.data_bytes))
            || not (valid_fact_time s e.completed_at))
          invalid_event s
          (done (
            set_backup e.backup_id
              (record backup {
                status = BackupLifecycleStatus.ready;
                data_bytes = e.data_bytes;
                data_version = e.data_version;
                completed_at = e.completed_at;
                storage_cost_per_hour_minor = e.storage_cost_per_hour_minor;
              })
              s))

unfoldable pub apply_backup_storage_cost_accrued : State → BackupStorageCostAccrued → Outcome
apply_backup_storage_cost_accrued s e =
    found (lookup e.backup_id s.backups) (fail invalid_event s) λ backup.
      refuse
        (not (is_ready backup.status)
          || ltz e.amount_minor (pos 0)
          || lez e.billed_hours backup.billed_hours
          || not (
              eqz e.amount_minor
                ((e.billed_hours -ℤ backup.billed_hours) *ℤ backup.storage_cost_per_hour_minor))
          || not (is_now s e.to))
        invalid_event s
        (let billed = set_backup e.backup_id (record backup { billed_hours = e.billed_hours }) s in
          done (record billed {
            costs = record (billed.costs) {
              backup_storage_cost_minor = billed.costs.backup_storage_cost_minor +ℤ e.amount_minor;
            };
          }))

unfoldable pub apply_database_backup_failed : State → DatabaseBackupFailed → Outcome
apply_database_backup_failed s e =
    found (lookup e.backup_id s.backups) (fail invalid_event s) λ backup.
      refuse
        (not (is_creating backup.status)
          || not (same backup.operation_id e.operation_id)
          || is_empty e.error_code
          || is_empty e.message
          || not (valid_fact_time s e.failed_at))
        invalid_event s
        (done (
          set_backup e.backup_id
            (record backup {
              status = BackupLifecycleStatus.failed;
              error_code = e.error_code;
              message = e.message;
            })
            s))

unfoldable pub apply_database_restore_started : State → DatabaseRestoreStarted → Outcome
apply_database_restore_started s e =
    found (lookup e.database_id s.databases) (fail invalid_event s) λ database.
      found (lookup e.backup_id s.backups) (fail invalid_event s) λ backup.
        refuse
          (not (is_ready backup.status)
            || not (same database.server_id e.server_id)
            || not (eqz database.data_bytes (pos 0))
            || not (eqz database.logs_bytes (pos 0))
            || not (valid_fact_time s e.started_at))
          invalid_event s (done (set_database e.database_id (record database { ready = false }) s))

unfoldable pub apply_database_restore_completed : State → DatabaseRestoreCompleted → Outcome
apply_database_restore_completed s e =
    found (lookup e.database_id s.databases) (fail invalid_event s) λ database.
      found (lookup e.backup_id s.backups) (fail invalid_event s) λ backup.
        refuse
          (not (is_ready backup.status)
            || not (same database.server_id e.server_id)
            || not (eqz e.data_bytes backup.data_bytes)
            || not (e.data_version == backup.data_version)
            || not (valid_fact_time s e.completed_at))
          invalid_event s
          (done (
            set_database e.database_id
              (record database {
                data_bytes = e.data_bytes;
                data_version = e.data_version;
                ready = true;
                restored_backup_id = e.backup_id;
                restored_from_database_id = backup.database_id;
              })
              s))

unfoldable pub apply_database_restore_failed : State → DatabaseRestoreFailed → Outcome
apply_database_restore_failed s e =
    found (lookup e.database_id s.databases) (fail invalid_event s) λ database.
      refuse (is_empty e.error_code || is_empty e.message || not (valid_fact_time s e.failed_at))
        invalid_event s (done (set_database e.database_id (record database { ready = false }) s))

abbrev pub set_site : SiteState → State → State
set_site site s = record s { site = site }

unfoldable pub apply_site_stop_started : State → SiteStopStarted → Outcome
apply_site_stop_started s e =
    refuse (not (site_is_running s.site.status) || not (is_now s e.started_at)) invalid_event s (
      done (
        set_site
          (begin_outage true e.started_at (record (s.site) {
            status = SiteLifecycleStatus.stopping;
            operation_id = e.operation_id;
          }))
          s))

unfoldable pub apply_site_stopped : State → SiteStopped → Outcome
apply_site_stopped s e =
    refuse
      (not (site_is_stopping s.site.status)
        || not (same s.site.operation_id e.operation_id)
        || not (length s.database_connections == 0)
        || not (valid_fact_time s e.stopped_at))
      invalid_event s (done (set_site (record (s.site) { status = SiteLifecycleStatus.stopped }) s))

unfoldable pub apply_site_database_changed : State → SiteDatabaseChanged → Outcome
apply_site_database_changed s e =
    found (lookup e.database_id s.databases) (fail invalid_event s) λ database.
      refuse
        (not (site_is_stopped s.site.status)
          || not database.ready
          || not (same s.site.database_id e.previous_database_id)
          || not (valid_fact_time s e.changed_at))
        invalid_event s (done (set_site (record (s.site) { database_id = e.database_id }) s))

unfoldable pub apply_site_started : State → SiteStarted → Outcome
apply_site_started s e = found (lookup e.database_id s.databases) (fail invalid_event s) λ database.
    refuse
      (not (site_is_stopped s.site.status)
        || not (is_available database)
        || not (same s.site.database_id e.database_id)
        || not (is_now s e.started_at))
      invalid_event s
      (let restarted =
          set_site (record (s.site) { status = SiteLifecycleStatus.running; operation_id = "" })
            s in
        done (
          set_site (end_outage (site_dependencies_available restarted) e.started_at restarted.site)
            restarted))
