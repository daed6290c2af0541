-- ===== src/Summary.antt =====
-- The projection behind the run list: internal/simulation/run_summary.go. Sums of int64 values are unbounded.
pub mod View
pub mod Shows
pub mod Agreement
use hacker_sprint2_sim.Common.{
  ℕ, ◌+◌, ◌-◌, ◌*◌, String, Bool, true, false, not, ◌&&◌, ◌||◌, none, some, List, [], ◌∷◌,
}
use hacker_sprint2_sim.Common.Tests.{ltb, leb, ◌==◌, same, if◌then◌else◌}
use hacker_sprint2_sim.Common.Int.{ℤ, pos, ltz, lez, ◌+ℤ◌, ◌-ℤ◌, quot}
use hacker_sprint2_sim.Common.Lists.{length}
use hacker_sprint2_sim.Common.Map.{Map, lookup, insert, erase, entries_where, total, values}
use hacker_sprint2_sim.Common.Text.{is_empty}
use hacker_sprint2_sim.Model.Types.{
  Time, DatabaseId, ServerId, ServerLifecycleStatus, ServerRole, SiteLifecycleStatus, is_active,
  is_draining, server_role_database, site_is_running,
}
use hacker_sprint2_sim.State.{RunStatus}
use hacker_sprint2_sim.State.Records.{ClockState, CostsState}
use hacker_sprint2_sim.State.Infrastructure.{ServerState, SiteState}
use hacker_sprint2_sim.Stream.{StoredEvent, new_state}
use hacker_sprint2_sim.Apply.Shared.{begin_outage, end_outage}
use hacker_sprint2_sim.Events.{
  Fact, fact, world_schedule_created, world_created, time_advanced, run_ended, costs_configured,
  infrastructure_cost_accrued, page_request_started, page_request_accepted, page_request_completed,
  page_request_rejected, traffic_attack_started, traffic_attack_ended, server_provisioning_started,
  server_activated, server_draining_started, server_removed, server_provisioning_failed,
  backend_availability_changed, firewall_availability_changed, database_created, database_deleted,
  database_availability_changed, database_storage_increased, database_backup_completed,
  backup_storage_cost_accrued, database_restore_started, database_restore_completed,
  database_restore_failed, site_stop_started, site_stopped, site_database_changed, site_started,
}

-- summaryDatabase
pub record SummaryDatabase : Type 0 where
  pub server_id : ServerId
  pub ready : Bool
  pub unavailable : Bool

-- The part of CapacityAllocationState that the projection sets.
pub record SummaryAllocation : Type 0 where
  pub load_units : ℤ
  pub releases_at : Time

-- The part of ServerState that the projection sets.
pub record SummaryServer : Type 0 where
  pub role : ServerRole
  pub status : ServerLifecycleStatus
  pub capacity_units : ℤ
  pub cost_per_hour_minor : ℤ
  pub cost_per_month_minor : ℤ

pub record RunSummaryProjection : Type 0 where
  pub seed : ℤ
  pub version : ℕ
  pub status : RunStatus
  pub clock : ClockState
  pub site : SiteState
  pub costs : CostsState
  pub servers : Map SummaryServer
  pub databases : Map SummaryDatabase
  pub backup_rate : ℤ
  pub attacks : Map (Unit {0})
  pub request_loads : Map ℤ
  pub capacity : Map SummaryAllocation
  pub last_error_at : Time
  pub backend_unavailable : Bool
  pub firewall_unavailable : Bool

-- NewRunSummaryProjection
abbrev pub new_run_summary_projection : RunSummaryProjection
new_run_summary_projection = record {
  seed = pos 0;
  version = 0;
  status = RunStatus.not_created;
  clock = record { started_at = 0; current_time = 0; ends_at = 0 };
  site = record {
    status = SiteLifecycleStatus.running;
    database_id = "";
    operation_id = "";
    unavailable_since = 0;
    downtime_duration = pos 0;
  };
  costs = record { currency = ""; server_cost_minor = pos 0; backup_storage_cost_minor = pos 0 };
  servers = [];
  databases = [];
  backup_rate = pos 0;
  attacks = [];
  request_loads = [];
  capacity = [];
  last_error_at = 0;
  backend_unavailable = false;
  firewall_unavailable = false;
}

-- server := p.servers[id]; server.Status = status; p.servers[id] = server
unfoldable pub set_server_status :
    ServerId → ServerLifecycleStatus → Map SummaryServer → Map SummaryServer
set_server_status id status servers = elim (lookup id servers) [
  | some server ↦ insert id (record server { status = status }) servers
  | none ↦
      insert id
        (record {
          role = "";
          status = status;
          capacity_units = pos 0;
          cost_per_hour_minor = pos 0;
          cost_per_month_minor = pos 0;
        })
        servers
]

-- p.databases[id], with the zero value for a missing key.
unfoldable pub summary_database : DatabaseId → Map SummaryDatabase → SummaryDatabase
summary_database id databases = elim (lookup id databases) [
  | some database ↦ database
  | none ↦ record { server_id = ""; ready = false; unavailable = false }
]

-- database := p.databases[id]; database.ready = ready; p.databases[id] = database
unfoldable pub set_ready : DatabaseId → Bool → RunSummaryProjection → RunSummaryProjection
set_ready id ready p = record p {
  databases = insert id (record (summary_database id p.databases) { ready = ready }) p.databases;
}

-- recordError
unfoldable pub record_error : ℤ → Time → RunSummaryProjection → RunSummaryProjection
record_error status at p =
    if lez (pos 400) status && ltb p.last_error_at at then record p { last_error_at = at } else p

-- pruneCapacity
unfoldable pub prune_capacity : Time → RunSummaryProjection → RunSummaryProjection
prune_capacity at p = record p { capacity = entries_where (λ a. ltb at a.releases_at) p.capacity }

-- dependenciesAvailable
unfoldable pub dependencies_available : RunSummaryProjection → Bool
dependencies_available p =
    not (p.backend_unavailable || p.firewall_unavailable)
    && (is_empty p.site.database_id || (elim (lookup p.site.database_id p.databases) [
      | none ↦ false
      | some database ↦ database.ready && not database.unavailable
    ]))

-- availabilityChanged
unfoldable pub availability_changed : Bool → Time → RunSummaryProjection → RunSummaryProjection
availability_changed available at p = record p {
  site =
      end_outage (available && dependencies_available p) at
        (begin_outage (not available) at p.site);
}

-- if p.site.Status == model.SiteRunning { p.availabilityChanged(available, at) }
unfoldable pub running_changed : Bool → Time → RunSummaryProjection → RunSummaryProjection
running_changed available at p =
    if site_is_running p.site.status then availability_changed available at p else p

unfoldable pub drop_load : String → RunSummaryProjection → RunSummaryProjection
drop_load id p = record p { request_loads = erase id p.request_loads }

unfoldable pub summary_load : String → Map ℤ → ℤ
summary_load id loads = elim (lookup id loads) [ none ↦ pos 0 | some load ↦ load ]

-- The cases of `Apply`, with the default for the events that the list does not show.
unfoldable pub reduce : RunSummaryProjection → Fact → RunSummaryProjection
reduce p (world_created e) = record p {
  seed = e.seed;
  status = RunStatus.running;
  clock = record { started_at = e.started_at; current_time = e.started_at; ends_at = e.ends_at };
}
reduce p (time_advanced e) =
    let pruned = prune_capacity e.from p in
    record pruned { clock = record (pruned.clock) { current_time = e.to } }
reduce p (run_ended e) = record p { status = RunStatus.completed }
reduce p (costs_configured e) = record p { costs = record (p.costs) { currency = e.currency } }
reduce p (infrastructure_cost_accrued e) = record p {
  costs = record (p.costs) { server_cost_minor = p.costs.server_cost_minor +ℤ e.amount_minor };
}
reduce p (backup_storage_cost_accrued e) = record p {
  costs = record (p.costs) {
    backup_storage_cost_minor = p.costs.backup_storage_cost_minor +ℤ e.amount_minor;
  };
}
reduce p (database_backup_completed e) = record p {
  backup_rate = p.backup_rate +ℤ e.storage_cost_per_hour_minor;
}
reduce p (server_provisioning_started e) = record p {
  servers =
      insert e.server_id
        (record {
          role = e.role;
          status = ServerLifecycleStatus.provisioning;
          capacity_units = e.capacity_units;
          cost_per_hour_minor = e.cost_per_hour_minor;
          cost_per_month_minor = e.cost_per_month_minor;
        })
        p.servers;
}
reduce p (server_activated e) = record p {
  servers = set_server_status e.server_id ServerLifecycleStatus.active p.servers;
}
reduce p (server_draining_started e) = record p {
  servers = set_server_status e.server_id ServerLifecycleStatus.draining p.servers;
}
reduce p (server_removed e) = record p {
  servers = erase e.server_id p.servers;
  databases = entries_where (λ d. not (same d.server_id e.server_id)) p.databases;
}
reduce p (server_provisioning_failed e) = record p { servers = erase e.server_id p.servers }
reduce p (database_created e) = record p {
  databases =
      insert e.database_id (record { server_id = e.server_id; ready = true; unavailable = false })
        p.databases;
}
reduce p (database_deleted e) = record p { databases = erase e.database_id p.databases }
reduce p (database_restore_started e) = set_ready e.database_id false p
reduce p (database_restore_failed e) = set_ready e.database_id false p
reduce p (database_restore_completed e) = set_ready e.database_id true p
reduce p (database_storage_increased e) = set_ready e.database_id true p
reduce p (database_availability_changed e) =
    let changed = record p {
      databases =
          insert e.database_id
            (record (summary_database e.database_id p.databases) { unavailable = not e.available })
            p.databases;
    } in
    if same p.site.database_id e.database_id
    then running_changed e.available e.changed_at changed
    else changed
reduce p (backend_availability_changed e) =
    running_changed e.available e.changed_at (record p { backend_unavailable = not e.available })
reduce p (firewall_availability_changed e) =
    running_changed e.available e.changed_at (record p { firewall_unavailable = not e.available })
reduce p (site_stop_started e) =
    availability_changed false e.started_at
      (record p { site = record (p.site) { status = SiteLifecycleStatus.stopping } })
reduce p (site_stopped e) = record p {
  site = record (p.site) { status = SiteLifecycleStatus.stopped };
}
reduce p (site_database_changed e) = record p {
  site = record (p.site) { database_id = e.database_id };
}
reduce p (site_started e) =
    availability_changed true e.started_at
      (record p { site = record (p.site) { status = SiteLifecycleStatus.running } })
reduce p (traffic_attack_started e) = record p { attacks = insert e.attack_id tt p.attacks }
reduce p (traffic_attack_ended e) = record p { attacks = erase e.attack_id p.attacks }
reduce p (page_request_started e) =
    let pruned = prune_capacity e.started_at p in
    record pruned { request_loads = insert e.request_id e.load_units pruned.request_loads }
reduce p (page_request_accepted e) = drop_load e.request_id (record p {
  capacity =
      insert e.request_id
        (record {
          load_units = summary_load e.request_id p.request_loads;
          releases_at = e.releases_at;
        })
        p.capacity;
})
reduce p (page_request_completed e) =
    record_error e.status_code e.completed_at (drop_load e.request_id p)
reduce p (page_request_rejected e) =
    record_error e.status_code e.rejected_at (drop_load e.request_id p)
reduce p _ = p

-- RunSummaryProjection.Apply
unfoldable pub apply_summary : RunSummaryProjection → StoredEvent → RunSummaryProjection
apply_summary p r = elim (r.event) [
  | fact e ↦ reduce (record p { version = r.version }) e
  | world_schedule_created s ↦ record p { version = r.version }
]
