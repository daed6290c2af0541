-- ===== src/Apply/Servers.antt =====
-- Servers and their costs: `State.Apply` in internal/simulation/state.go.
use hacker_sprint2_sim.Common.{String, Bool, not, ◌&&◌, ◌||◌, none, some}
use hacker_sprint2_sim.Common.Tests.{ltb, same, if◌then◌else◌}
use hacker_sprint2_sim.Common.Int.{pos, ltz, eqz, ◌+ℤ◌, ◌-ℤ◌}
use hacker_sprint2_sim.Common.Map.{Map, lookup, insert, erase, has, entries_where}
use hacker_sprint2_sim.Common.Text.{is_empty}
use hacker_sprint2_sim.Platform.{Platform}
use hacker_sprint2_sim.State.{State}
use hacker_sprint2_sim.Outcome.{
  Outcome, fail, done, refuse, found, ensure_running, ensure_run_exists, invalid_event,
}
use hacker_sprint2_sim.Apply.Shared.{valid_fact_time, is_now, site_boundary}
use hacker_sprint2_sim.Capacity.{
  server_has_load, database_on_server, valid_backend_availability_event,
}
use hacker_sprint2_sim.Model.Types.{
  is_running, is_provisioning, is_active, is_draining, server_role_backend, server_role_database,
  ServerLifecycleStatus, ServerRole, ServerId,
}
use hacker_sprint2_sim.Events.World.{InfrastructureCostAccrued}
use hacker_sprint2_sim.Events.Resources.{
  ServerProvisioningStarted, ServerActivated, ServerDrainingStarted, ServerRemoved,
  BackendAvailabilityChanged,
}
use hacker_sprint2_sim.State.Infrastructure.{DatabaseGrowthState, ServerState}

abbrev pub set_server : String → ServerState → State → State
set_server id server s = record s { servers = insert id server s.servers }

abbrev default_role : ServerRole → ServerRole
default_role role = if is_empty role then server_role_backend else role

unfoldable pub valid_resources : ServerProvisioningStarted → Bool
valid_resources e =
    let role = default_role e.role in
    (same role server_role_backend && ltz (pos 0) e.capacity_units)
    || (same role server_role_database
        && ltz (pos 0) e.disk_bytes
        && ltz (pos 0) e.connection_limit
        && ltz (pos 0) e.connection_hold)

unfoldable pub provisioned : ServerProvisioningStarted → ServerState
provisioned e = record {
  id = e.server_id;
  name = if is_empty e.name then e.server_id else e.name;
  credential_id = e.credential_id;
  operation_id = e.operation_id;
  status = ServerLifecycleStatus.provisioning;
  instance_type = e.instance_type;
  role = default_role e.role;
  capacity_units = e.capacity_units;
  disk_bytes = e.disk_bytes;
  system_bytes = pos 0;
  logs_bytes = pos 0;
  connection_limit = e.connection_limit;
  connection_hold = e.connection_hold;
  cost_per_hour_minor = e.cost_per_hour_minor;
  cost_per_month_minor = e.cost_per_month_minor;
  accrued_cost_minor = pos 0;
  started_at = e.started_at;
  ready_at = e.ready_at;
  activated_at = 0;
  billed_hours = pos 0;
}

unfoldable pub apply_server_provisioning_started : State → ServerProvisioningStarted → Outcome
apply_server_provisioning_started s e = ensure_running s (
    refuse
      (is_empty e.operation_id
        || is_empty e.server_id
        || not (valid_resources e)
        || ltz e.cost_per_hour_minor (pos 0)
        || ltz e.cost_per_month_minor (pos 0)
        || not (is_now s e.started_at)
        || ltb e.ready_at e.started_at)
      invalid_event s
      (refuse (has e.server_id s.servers) invalid_event s
        (done (set_server e.server_id (provisioned e) s))))

unfoldable pub apply_server_activated : State → ServerActivated → Outcome
apply_server_activated s e = ensure_run_exists s (
    found (lookup e.server_id s.servers) (fail invalid_event s) λ server.
      refuse
        (not (is_provisioning server.status)
          || not (same server.operation_id e.operation_id)
          || not (is_now s e.activated_at)
          || ltb e.activated_at server.ready_at)
        invalid_event s
        (done (
          set_server e.server_id
            (record server { status = ServerLifecycleStatus.active; activated_at = e.activated_at })
            s)))

unfoldable pub apply_server_draining_started : State → ServerDrainingStarted → Outcome
apply_server_draining_started s e = ensure_running s (
    found (lookup e.server_id s.servers) (fail invalid_event s) λ server.
      found (lookup e.operation_id s.operations) (fail invalid_event s) λ operation.
        refuse
          (not (is_active server.status)
            || not (is_running operation.status)
            || not (is_now s e.started_at))
          invalid_event s
          (done (
            set_server e.server_id
              (record server {
                status = ServerLifecycleStatus.draining;
                operation_id = e.operation_id;
              })
              s)))

-- The growth that does not wait for the database.
unfoldable pub other_growth : String → Map DatabaseGrowthState → Map DatabaseGrowthState
other_growth id = entries_where (λ growth. not (same growth.database_id id))

-- The deletion of a database with the growth that waits for it.
abbrev pub without_database : String → State → State
without_database id s = record s {
  databases = erase id s.databases;
  pending_database_growth = other_growth id s.pending_database_growth;
}

-- The server goes, and the database that it hosts with it.
unfoldable pub without_server : ServerId → State → State
without_server id s =
    let hosted = database_on_server s id in
    record s {
      servers = erase id s.servers;
      databases = elim hosted [ none ↦ s.databases | some d ↦ erase d.id s.databases ];
      pending_database_growth = elim hosted [
        | none ↦ s.pending_database_growth
        | some d ↦ other_growth d.id s.pending_database_growth
      ];
    }

unfoldable pub apply_server_removed : State → ServerRemoved → Outcome
apply_server_removed s e = ensure_run_exists s (
    found (lookup e.server_id s.servers) (fail invalid_event s) λ server.
      refuse
        (not (is_draining server.status)
          || not (same server.operation_id e.operation_id)
          || not (is_now s e.removed_at)
          || server_has_load s e.server_id e.removed_at)
        invalid_event s (done (without_server e.server_id s)))

unfoldable pub apply_backend_availability_changed :
    Platform → State → BackendAvailabilityChanged → Outcome
apply_backend_availability_changed env s e =
    refuse (not (valid_fact_time s e.changed_at) || not (valid_backend_availability_event env s e))
      invalid_event s
      (let flagged = record s { backend_unavailable = not e.available } in
        done (record flagged { site = site_boundary e.available e.changed_at flagged }))

unfoldable pub is_monthly : ServerState → Bool
is_monthly server = ltz (pos 0) server.cost_per_month_minor

unfoldable pub valid_billing : ServerState → InfrastructureCostAccrued → Bool
valid_billing server e =
    if is_monthly server
    then ltz server.accrued_cost_minor e.total_amount_minor
      && eqz e.amount_minor (e.total_amount_minor -ℤ server.accrued_cost_minor)
    else ltz server.billed_hours e.billed_hours

unfoldable pub apply_infrastructure_cost_accrued : State → InfrastructureCostAccrued → Outcome
apply_infrastructure_cost_accrued s e = ensure_run_exists s (
    found (lookup e.server_id s.servers) (fail invalid_event s) λ server.
      refuse (ltz e.amount_minor (pos 0) || not (valid_billing server e) || not (is_now s e.to))
        invalid_event s
        (let billed =
            set_server e.server_id
              (if is_monthly server
                then record server { accrued_cost_minor = e.total_amount_minor }
                else record server { billed_hours = e.billed_hours })
              s in
          done (record billed {
            costs = record (billed.costs) {
              server_cost_minor = billed.costs.server_cost_minor +ℤ e.amount_minor;
            };
          })))
