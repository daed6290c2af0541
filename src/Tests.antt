-- ===== src/Tests.antt =====
-- Concrete inputs, and the theorems at them.
pub mod Invariants
pub mod Streams
pub mod Rules
pub mod Journal
pub mod Segments
pub mod Writes
pub mod Decisions
use hacker_sprint2_sim.Common.{ℕ, String, Bool, true, false, Option, none, some, List, [], ◌∷◌}
use hacker_sprint2_sim.Common.Tests.{same, if◌then◌else◌}
use hacker_sprint2_sim.Common.Int.{ℤ, pos, ltz}
use hacker_sprint2_sim.Platform.{Platform}
use hacker_sprint2_sim.Model.Types.{
  OperationLifecycleStatus, PageRequestStatus, ServerLifecycleStatus,
}
use hacker_sprint2_sim.State.{State, RunStatus}
use hacker_sprint2_sim.State.Records.{OperationState, PageConfigState, ProductState}
use hacker_sprint2_sim.State.Infrastructure.{ServerState, DatabaseState, DatabaseConnectionState}
use hacker_sprint2_sim.State.Traffic.{PageRequestState, CapacityAllocationState}
use hacker_sprint2_sim.Stream.{new_state}

-- A toy of net/netip in which an address is a text and a prefix holds itself alone.
abbrev pub test_platform : Platform
test_platform = record {
  Addr = String;
  Prefix = String;
  parse_addr = λ s. some s;
  parse_prefix = λ s. some s;
  is_masked = λ p. true;
  prefix_string = λ p. p;
  prefix_addr_string = λ p. p;
  prefix_contains = λ p a. same p a;
  format_int = λ n. if ltz n (pos 0) then "-" else "1";
  to_upper = λ s. s;
}

abbrev pub a_server : ServerState
a_server = record {
  id = "srv";
  name = "srv";
  credential_id = "cred";
  operation_id = "op";
  status = ServerLifecycleStatus.active;
  instance_type = "small";
  role = "";
  capacity_units = pos 10;
  disk_bytes = pos 100;
  system_bytes = pos 0;
  logs_bytes = pos 0;
  connection_limit = pos 2;
  connection_hold = pos 50;
  cost_per_hour_minor = pos 1;
  cost_per_month_minor = pos 0;
  accrued_cost_minor = pos 0;
  started_at = 100;
  ready_at = 100;
  activated_at = 100;
  billed_hours = pos 0;
}

abbrev pub a_request : PageRequestState
a_request = record {
  id = "req";
  source = "visitor";
  visitor_id = "vis";
  page = "product_list";
  product_id = "";
  source_ip = "";
  user_agent = "";
  region_code = "";
  firewall_action = "";
  firewall_rule_id = "";
  load_units = pos 2;
  status = PageRequestStatus.in_progress;
  status_code = pos 0;
  error_code = "";
  message = "";
  latency = pos 0;
  server_id = "";
  database_id = "";
  releases_at = 0;
  started_at = 500;
  completed_at = 0;
}

abbrev pub a_page : PageConfigState
a_page = record {
  page = "product_list";
  load_units = pos 2;
  hold_duration = pos 50;
  base_latency = pos 3;
  configured_at = 100;
}

abbrev pub an_operation : OperationState
an_operation = record {
  id = "op";
  kind = "add_server";
  status = OperationLifecycleStatus.running;
  queued_at = 100;
  started_at = 200;
  completed_at = 0;
  error_code = "";
  message = "";
  progress_ppm = 10;
}

abbrev pub a_database : DatabaseState
a_database = record {
  id = "db";
  server_id = "srv";
  name = "db";
  data_bytes = pos 1;
  logs_bytes = pos 0;
  data_version = 1;
  ready = true;
  restored_backup_id = "";
  restored_from_database_id = "";
  availability_reasons = [];
}

abbrev pub a_connection : DatabaseConnectionState
a_connection = record {
  request_id = "old";
  database_id = "db";
  server_id = "srv";
  opened_at = 400;
  releases_at = 450;
}

-- An allocation that has expired at 500, and one that has not.
abbrev pub expired : CapacityAllocationState
expired = record {
  request_id = "r1";
  server_id = "srv";
  load_units = pos 3;
  accepted_at = 400;
  releases_at = 450;
}

abbrev pub held : CapacityAllocationState
held = record {
  request_id = "r2";
  server_id = "srv";
  load_units = pos 4;
  accepted_at = 480;
  releases_at = 530;
}

abbrev pub a_product : ProductState
a_product = record {
  id = "p";
  name = "p";
  description = "";
  manufacturer = "Unknown";
  price_minor = pos 5;
  available = true;
  version = 1;
  view_probability_ppm = 400_000;
  added_at = 100;
  updated_at = 100;
}

-- A run at time 500 of [100, 1000].
abbrev pub a_run : State
a_run = record (new_state) {
  run_id = "run";
  seed = pos 7;
  status = RunStatus.running;
  clock = record { started_at = 100; current_time = 500; ends_at = 1000 };
  pages = ("product_list", a_page) ∷ [];
  servers = ("srv", a_server) ∷ [];
  databases = ("db", a_database) ∷ [];
  database_connections = ("old", a_connection) ∷ [];
  database_connection_counts = ("db", pos 1) ∷ [];
  requests = ("req", a_request) ∷ [];
  seen_requests = ("req", tt) ∷ [];
  operations = ("op", an_operation) ∷ [];
  command_payloads = ("cmd", "add") ∷ [];
  capacity = ("r1", expired) ∷ ("r2", held) ∷ [];
  used_capacity_by_server = ("srv", pos 7) ∷ [];
  capacity_indexed_at = 480;
  products = ("p", a_product) ∷ [];
}
