-- ===== src/Apply/Storage.antt =====
-- Database growth, disk logs, backups and restores: applyDatabaseEvent in
-- internal/simulation/database_state.go.
use hacker_sprint2_sim.Common.{ℕ, ◌+◌, Bool, true, false, not, ◌&&◌, ◌||◌, Option, none, some}
use hacker_sprint2_sim.Common.Tests.{◌==◌, same, if◌then◌else◌}
use hacker_sprint2_sim.Common.Int.{wrap_int64, ℤ, pos, ltz, lez, eqz, ◌+ℤ◌, ◌-ℤ◌}
use hacker_sprint2_sim.Common.Map.{Map, lookup, insert, erase, has}
use hacker_sprint2_sim.Common.Text.{is_empty}
use hacker_sprint2_sim.State.{State}
use hacker_sprint2_sim.Outcome.{Outcome, fail, done, refuse, found, invalid_event}
use hacker_sprint2_sim.Apply.Shared.{valid_fact_time, mark_scheduled}
use hacker_sprint2_sim.Capacity.{disk_usage, database_on_server, used_bytes}
use hacker_sprint2_sim.Events.{Fact, database_growth_requested, disk_logs_growth_requested}
use hacker_sprint2_sim.Events.Database.{
  DatabaseGrowthRequested, DatabaseStorageIncreased, DatabaseGrowthBlocked, DiskLogsCleaned,
  DiskLogsGrowthRequested, DiskLogsIncreased, DiskLogsGrowthBlocked,
}
use hacker_sprint2_sim.State.Infrastructure.{DatabaseState, DatabaseGrowthState}
use hacker_sprint2_sim.Apply.Servers.{set_server}
use hacker_sprint2_sim.Apply.Database.{set_database}

unfoldable pub is_growth_requested : DatabaseGrowthRequested → Fact → Bool
is_growth_requested e f = elim f [
  | database_growth_requested x ↦
      same x.growth_id e.growth_id
      && eqz x.data_delta_bytes e.data_delta_bytes
      && eqz x.logs_delta_bytes e.logs_delta_bytes
      && x.requested_at == e.requested_at
  | _ ↦ false
]

unfoldable pub apply_database_growth_requested : State → DatabaseGrowthRequested → Outcome
apply_database_growth_requested s e =
    refuse
      (is_empty e.growth_id
        || ltz e.data_delta_bytes (pos 0)
        || ltz e.logs_delta_bytes (pos 0)
        || lez (e.data_delta_bytes +ℤ e.logs_delta_bytes) (pos 0)
        || not (valid_fact_time s e.requested_at))
      invalid_event s
      (refuse (has e.growth_id s.pending_database_growth) invalid_event s (
        done (
          mark_scheduled (is_growth_requested e) e.requested_at (record s {
            pending_database_growth =
                insert e.growth_id
                  (record {
                    id = e.growth_id;
                    database_id = "";
                    data_delta_bytes = e.data_delta_bytes;
                    logs_delta_bytes = e.logs_delta_bytes;
                    requested_at = e.requested_at;
                    blocked = false;
                  })
                  s.pending_database_growth;
          }))))

-- Data growth makes a new version; growth of the logs alone does not.
unfoldable pub grown_version : DatabaseState → DatabaseGrowthState → ℕ
grown_version database growth =
    if ltz (pos 0) growth.data_delta_bytes then database.data_version + 1 else database.data_version

-- The sums of this event wrap as the int64 of the source; that of UsedBytes wraps with the sum it is in.
unfoldable pub apply_database_storage_increased : State → DatabaseStorageIncreased → Outcome
apply_database_storage_increased s e =
    found (lookup e.growth_id s.pending_database_growth) (fail invalid_event s) λ growth.
      found (lookup e.database_id s.databases) (fail invalid_event s) λ database.
        found (lookup e.server_id s.servers) (fail invalid_event s) λ server.
          refuse
            (not (same database.server_id e.server_id)
              || not (eqz growth.data_delta_bytes e.data_bytes_added)
              || not (eqz growth.logs_delta_bytes e.logs_bytes_added)
              || not (e.data_version == grown_version database growth)
              || ltz server.disk_bytes
                  (wrap_int64 (used_bytes database +ℤ e.data_bytes_added +ℤ e.logs_bytes_added))
              || not (valid_fact_time s e.increased_at))
            invalid_event s
            (let grown =
                set_database e.database_id
                  (record database {
                    data_bytes = wrap_int64 (database.data_bytes +ℤ e.data_bytes_added);
                    logs_bytes = wrap_int64 (database.logs_bytes +ℤ e.logs_bytes_added);
                    data_version = e.data_version;
                    ready = true;
                  })
                  s in
              done (record grown {
                pending_database_growth = erase e.growth_id grown.pending_database_growth;
              }))

unfoldable pub apply_database_growth_blocked : State → DatabaseGrowthBlocked → Outcome
apply_database_growth_blocked s e =
    found (lookup e.growth_id s.pending_database_growth) (fail invalid_event s) λ growth.
      found (lookup e.database_id s.databases) (fail invalid_event s) λ database.
        found (lookup e.server_id s.servers) (fail invalid_event s) λ server.
          refuse
            (not (same database.server_id e.server_id)
              || not (eqz growth.data_delta_bytes e.pending_data_bytes)
              || not (eqz growth.logs_delta_bytes e.pending_logs_bytes)
              || not (eqz e.required_bytes (growth.data_delta_bytes +ℤ growth.logs_delta_bytes))
              || not (eqz e.free_bytes (server.disk_bytes -ℤ used_bytes database))
              || lez e.required_bytes e.free_bytes
              || not (valid_fact_time s e.blocked_at))
            invalid_event s
            (done (record s {
              pending_database_growth =
                  insert e.growth_id (record growth { database_id = e.database_id; blocked = true })
                    s.pending_database_growth;
            }))

abbrev min_ℤ : ℤ → ℤ → ℤ
min_ℤ a b = if ltz b a then b else a

unfoldable pub hosted_logs : Option DatabaseState → ℤ
hosted_logs none = pos 0
hosted_logs (some database) = database.logs_bytes

-- The hosted database gives up what the server's own logs did not cover.
unfoldable pub trim_hosted_logs : ℤ → Option DatabaseState → Map DatabaseState → Map DatabaseState
trim_hosted_logs remaining none databases = databases
trim_hosted_logs remaining (some database) databases =
    if ltz (pos 0) remaining
    then insert database.id (record database { logs_bytes = database.logs_bytes -ℤ remaining })
        databases
    else databases

unfoldable pub apply_disk_logs_cleaned : State → DiskLogsCleaned → Outcome
apply_disk_logs_cleaned s e = found (lookup e.server_id s.servers) (fail invalid_event s) λ server.
    refuse (ltz e.freed_bytes (pos 0) || not (valid_fact_time s e.cleaned_at)) invalid_event s (
      let hosted = database_on_server s e.server_id in
      let from_server = min_ℤ e.freed_bytes server.logs_bytes in
      refuse (ltz (server.logs_bytes +ℤ hosted_logs hosted) e.freed_bytes) invalid_event s (
        done (record s {
          servers =
              insert e.server_id (record server { logs_bytes = server.logs_bytes -ℤ from_server })
                s.servers;
          databases = trim_hosted_logs (e.freed_bytes -ℤ from_server) hosted s.databases;
        })))

unfoldable pub is_logs_growth_requested : DiskLogsGrowthRequested → Fact → Bool
is_logs_growth_requested e f = elim f [
  | disk_logs_growth_requested x ↦
      same x.growth_id e.growth_id
      && same x.server_id e.server_id
      && eqz x.delta_bytes e.delta_bytes
      && x.requested_at == e.requested_at
  | _ ↦ false
]

unfoldable pub apply_disk_logs_growth_requested : State → DiskLogsGrowthRequested → Outcome
apply_disk_logs_growth_requested s e =
    refuse
      (not (has e.server_id s.servers)
        || is_empty e.growth_id
        || lez e.delta_bytes (pos 0)
        || not (valid_fact_time s e.requested_at))
      invalid_event s (done (mark_scheduled (is_logs_growth_requested e) e.requested_at s))

unfoldable pub apply_disk_logs_increased : State → DiskLogsIncreased → Outcome
apply_disk_logs_increased s e =
    found (lookup e.server_id s.servers) (fail invalid_event s) λ server.
      refuse
        (is_empty e.growth_id
          || lez e.bytes_added (pos 0)
          || ltz (disk_usage s e.server_id).free_bytes e.bytes_added
          || not (valid_fact_time s e.increased_at))
        invalid_event s
        (done (
          set_server e.server_id (record server { logs_bytes = server.logs_bytes +ℤ e.bytes_added })
            s))

unfoldable pub apply_disk_logs_growth_blocked : State → DiskLogsGrowthBlocked → Outcome
apply_disk_logs_growth_blocked s e =
    refuse
      (not (has e.server_id s.servers)
        || is_empty e.growth_id
        || lez e.required_bytes e.free_bytes
        || not (eqz e.free_bytes (disk_usage s e.server_id).free_bytes)
        || not (valid_fact_time s e.blocked_at))
      invalid_event s (done s)
