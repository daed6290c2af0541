-- ===== src/Apply/Database.antt =====
-- Databases and their connections: applyDatabaseEvent in internal/simulation/database_state.go.
use hacker_sprint2_sim.Common.{
  String, Bool, true, false, not, ◌&&◌, ◌||◌, none, some, List, [], ◌∷◌,
}
use hacker_sprint2_sim.Common.Tests.{ltb, ◌==◌, same, same_bool, if◌then◌else◌}
use hacker_sprint2_sim.Common.Int.{pos, ltz, lez, eqz, ◌+ℤ◌}
use hacker_sprint2_sim.Common.Lists.{length, all}
use hacker_sprint2_sim.Common.Map.{Map, lookup, insert, erase, has, values}
use hacker_sprint2_sim.Common.Text.{is_empty}
use hacker_sprint2_sim.State.{State}
use hacker_sprint2_sim.Outcome.{Outcome, fail, done, refuse, found, ensure_running, invalid_event}
use hacker_sprint2_sim.Apply.Shared.{valid_fact_time, is_now, site_boundary, is_available}
use hacker_sprint2_sim.Capacity.{count_at, add_at, sub_at, hosted_in}
use hacker_sprint2_sim.Model.Types.{
  is_active, server_role_backend, server_role_database, database_unavailable_disk_full,
  database_unavailable_connection_limit,
}
use hacker_sprint2_sim.Events.Database.{
  ServerTypeDefined, DatabaseCreated, DatabaseDeleted, DatabaseConnectionOpened,
  DatabaseConnectionReleased, DatabaseConnectionRejected, DatabaseAvailabilityChanged,
}
use hacker_sprint2_sim.State.Infrastructure.{DatabaseState, DatabaseConnectionState}
use hacker_sprint2_sim.Apply.Servers.{without_database}

-- The two role-specific tests of a server type.
unfoldable pub valid_server_type : ServerTypeDefined → Bool
valid_server_type e =
    not (
      same e.role server_role_database
      && (lez e.disk_bytes (pos 0)
          || lez e.connection_limit (pos 0)
          || lez e.connection_hold (pos 0)
          || not (eqz e.backend_capacity_units (pos 0))))
    && not (
        same e.role server_role_backend
        && (lez e.backend_capacity_units (pos 0)
            || ltz e.disk_bytes (pos 0)
            || not (eqz e.connection_limit (pos 0))))

unfoldable pub apply_server_type_defined : State → ServerTypeDefined → Outcome
apply_server_type_defined s e = ensure_running s (
    refuse
      (is_empty e.instance_type
        || (not (same e.role server_role_backend) && not (same e.role server_role_database))
        || not (is_now s e.defined_at)
        || ltz e.cost_per_month_minor (pos 0))
      invalid_event s
      (refuse (not (valid_server_type e)) invalid_event s (
        refuse (has e.instance_type s.server_types) invalid_event s (
          done (record s {
            server_types =
                insert e.instance_type
                  (record {
                    instance_type = e.instance_type;
                    role = e.role;
                    disk_bytes = e.disk_bytes;
                    connection_limit = e.connection_limit;
                    connection_hold = e.connection_hold;
                    backend_capacity_units = e.backend_capacity_units;
                    cost_per_hour_minor = e.cost_per_hour_minor;
                    cost_per_month_minor = e.cost_per_month_minor;
                  })
                  s.server_types;
          })))))

abbrev pub set_database : String → DatabaseState → State → State
set_database id database s = record s { databases = insert id database s.databases }

unfoldable pub hosts_any : List DatabaseState → String → Bool
hosts_any databases server = elim (hosted_in databases server) [ none ↦ false | some _ ↦ true ]

unfoldable pub apply_database_created : State → DatabaseCreated → Outcome
apply_database_created s e = ensure_running s (
    found (lookup e.server_id s.servers) (fail invalid_event s) λ server.
      refuse
        (is_empty e.database_id
          || is_empty e.name
          || not (is_active server.status)
          || not (same server.role server_role_database)
          || not (is_now s e.created_at))
        invalid_event s
        (refuse (has e.database_id s.databases) invalid_event s (
          refuse (hosts_any (values s.databases) e.server_id) invalid_event s (
            done (
              set_database e.database_id
                (record {
                  id = e.database_id;
                  server_id = e.server_id;
                  name = e.name;
                  data_bytes = pos 0;
                  logs_bytes = pos 0;
                  data_version = 0;
                  ready = true;
                  restored_backup_id = "";
                  restored_from_database_id = "";
                  availability_reasons = [];
                })
                s)))))

unfoldable pub apply_database_deleted : State → DatabaseDeleted → Outcome
apply_database_deleted s e =
    found (lookup e.database_id s.databases) (fail invalid_event s) λ database.
      refuse
        (not (same database.server_id e.server_id)
          || same s.site.database_id e.database_id
          || not (valid_fact_time s e.deleted_at))
        invalid_event s (done (without_database e.database_id s))

unfoldable pub connection_of : DatabaseConnectionOpened → DatabaseConnectionState
connection_of e = record {
  request_id = e.request_id;
  database_id = e.database_id;
  server_id = e.server_id;
  opened_at = e.opened_at;
  releases_at = e.releases_at;
}

abbrev pub open_connection : DatabaseConnectionOpened → State → State
open_connection e s = record s {
  database_connections = insert e.request_id (connection_of e) s.database_connections;
  database_connection_counts = add_at e.database_id (pos 1) s.database_connection_counts;
}

unfoldable pub apply_database_connection_opened : State → DatabaseConnectionOpened → Outcome
apply_database_connection_opened s e =
    found (lookup e.database_id s.databases) (fail invalid_event s) λ database.
      found (lookup e.server_id s.servers) (fail invalid_event s) λ server.
        refuse
          (not (same database.server_id e.server_id)
            || not (is_available database)
            || is_empty e.request_id
            || not (valid_fact_time s e.opened_at)
            || not (eqz (pos e.releases_at) (pos e.opened_at +ℤ server.connection_hold))
            || lez server.connection_limit (count_at e.database_id s.database_connection_counts))
          invalid_event s
          (refuse (has e.request_id s.database_connections) invalid_event s
            (done (open_connection e s)))

abbrev pub close_connection : DatabaseConnectionReleased → State → State
close_connection e s = record s {
  database_connections = erase e.request_id s.database_connections;
  database_connection_counts = sub_at e.database_id (pos 1) s.database_connection_counts;
}

unfoldable pub apply_database_connection_released : State → DatabaseConnectionReleased → Outcome
apply_database_connection_released s e =
    found (lookup e.request_id s.database_connections) (fail invalid_event s) λ connection.
      refuse
        (not (same connection.database_id e.database_id)
          || not (same connection.server_id e.server_id)
          || ltb e.released_at connection.releases_at
          || not (valid_fact_time s e.released_at))
        invalid_event s (done (close_connection e s))

unfoldable pub apply_database_connection_rejected : State → DatabaseConnectionRejected → Outcome
apply_database_connection_rejected s e =
    found (lookup e.database_id s.databases) (fail invalid_event s) λ database.
      found (lookup e.server_id s.servers) (fail invalid_event s) λ server.
        refuse
          (not (same database.server_id e.server_id)
            || not (eqz e.active_connections (count_at e.database_id s.database_connection_counts))
            || not (eqz e.connection_limit server.connection_limit)
            || ltz e.active_connections e.connection_limit
            || not (valid_fact_time s e.rejected_at))
          invalid_event s (done s)

unfoldable pub known_reason : String → Bool
known_reason reason =
    same reason database_unavailable_disk_full || same reason database_unavailable_connection_limit

-- The set of the reasons that an event lists.
unfoldable pub reason_set : List String → Map (Unit {0})
reason_set [] = []
reason_set (r ∷ rs) = insert r tt (reason_set rs)

-- The site follows the availability of its own database.
abbrev follow_database : DatabaseAvailabilityChanged → State → State
follow_database e s = record s {
  site =
      if same s.site.database_id e.database_id
      then site_boundary e.available e.changed_at s
      else s.site;
}

unfoldable pub apply_database_availability_changed : State → DatabaseAvailabilityChanged → Outcome
apply_database_availability_changed s e =
    found (lookup e.database_id s.databases) (fail invalid_event s) λ database.
      refuse
        (not (same database.server_id e.server_id)
          || not (valid_fact_time s e.changed_at)
          || not (same_bool e.available (length e.reasons == 0)))
        invalid_event s
        (refuse (not (all known_reason e.reasons)) invalid_event s (
          done (
            follow_database e (
              set_database e.database_id
                (record database { availability_reasons = reason_set e.reasons }) s))))
