-- ===== src/Stream.antt =====
-- The event stream of a run and its replay: internal/simulation/stream.go, `NewState` of state.go
-- and `Rehydrate` of aggregate.go.
pub mod Replay
use hacker_sprint2_sim.Common.{ℕ, ◌+◌, true, false, List, [], ◌∷◌}
use hacker_sprint2_sim.Common.Tests.{◌==◌, if◌then◌else◌}
use hacker_sprint2_sim.Common.Int.{pos}
use hacker_sprint2_sim.Common.Result.{Result, ok, err}
use hacker_sprint2_sim.Platform.{Platform}
use hacker_sprint2_sim.Events.{Event}
use hacker_sprint2_sim.Model.Types.{SiteLifecycleStatus}
use hacker_sprint2_sim.State.{State, RunStatus}
use hacker_sprint2_sim.Outcome.{Error, Outcome, done, fail, invalid_event}
use hacker_sprint2_sim.Capacity.{prune_derived_state}
use hacker_sprint2_sim.Apply.{apply}

pub record StoredEvent : Type 0 where
  pub version : ℕ
  pub event : Event

-- NewState
abbrev pub new_state : State
new_state = record {
  run_id = "";
  seed = pos 0;
  status = RunStatus.not_created;
  end_reason = "";
  version = 0;
  clock = record { started_at = 0; current_time = 0; ends_at = 0 };
  infrastructure = record { server_provisioning_duration = pos 0; configured_at = 0 };
  products = [];
  inbox_messages = [];
  pages = [];
  servers = [];
  server_types = [];
  databases = [];
  database_connections = [];
  database_connection_counts = [];
  pending_database_growth = [];
  backups = [];
  site = record {
    status = SiteLifecycleStatus.running;
    database_id = "";
    operation_id = "";
    unavailable_since = 0;
    downtime_duration = pos 0;
  };
  capacity = [];
  used_capacity_by_server = [];
  capacity_indexed_at = 0;
  operations = [];
  commands = [];
  command_payloads = [];
  control_command_receipts = [];
  control_operation_results = [];
  server_credentials = [];
  credential_rotation_ids = [];
  requests = [];
  seen_requests = [];
  visitors = [];
  seen_visitors = [];
  active_attacks = [];
  resolved_attacks = [];
  firewall_rules = [];
  firewall_unavailable = false;
  backend_unavailable = false;
  schedule = [];
  schedule_cursor = 0;
  costs = record { currency = ""; server_cost_minor = pos 0; backup_storage_cost_minor = pos 0 };
}

-- if err := state.Apply(event); err != nil { return State{}, err }
unfoldable pub when_done : {A : Type 0} → Outcome → (State → Result Error A) → Result Error A
when_done (fail e t) k = err e
when_done (done t) k = k t

module _ (env : Platform) where
  -- The loop of Rehydrate. An error gives back the empty state, so only the sentinel is left.
  unfoldable pub replay : State → List StoredEvent → Result Error State
  replay s [] = ok s
  replay s (r ∷ rs) =
      if r.version == s.version + 1
      then when_done (apply env s r.event) (λ t. replay (record t { version = r.version }) rs)
      else err invalid_event

  pruned_now : Result Error State → Result Error State
  pruned_now (err e) = err e
  pruned_now (ok s) = ok (prune_derived_state s s.clock.current_time)

  unfoldable pub rehydrate : List StoredEvent → Result Error State
  unfolding pruned_now
  rehydrate records = pruned_now (replay new_state records)
