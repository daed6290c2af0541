-- ===== src/Tests/Invariants.antt =====
-- The invariants of `State.Apply` at a run in progress.
use hacker_sprint2_sim.Common.{false, ◌≡◌, refl, true, false, some, [], arith}
use hacker_sprint2_sim.Common.Tests.{same}
use hacker_sprint2_sim.Common.Int.{◌≤ℤ◌, pos, ◌+ℤ◌}
use hacker_sprint2_sim.Common.Map.{lookup, has, total, UniqueKeys}
use hacker_sprint2_sim.Events.{
  Event, fact, page_request_accepted, operation_progressed, database_connection_released,
  time_advanced, product_added,
}
use hacker_sprint2_sim.Events.Database.{DatabaseConnectionOpened}
use hacker_sprint2_sim.State.{State, RunStatus}
use hacker_sprint2_sim.Outcome.{left, done, found, refuse}
use hacker_sprint2_sim.Apply.Database.{apply_database_connection_opened}
use hacker_sprint2_sim.Apply.Shared.{is_available, valid_fact_time}
use hacker_sprint2_sim.Apply.{apply}
use hacker_sprint2_sim.Apply.Run.{total_view_probability}
use hacker_sprint2_sim.Capacity.{count_at, prune_expired_capacity, used_by, live_load}
use hacker_sprint2_sim.Capacity.Index.{load_for}
use hacker_sprint2_sim.Capacity.Pruning.{IsIndexed, prune_expired_capacity-used_by}
use hacker_sprint2_sim.Invariant.Capacities.{apply-IsIndexed}
use hacker_sprint2_sim.Invariant.Connections.{
  open_connections, apply_database_connection_opened-limit, IsCounted, apply-IsCounted,
}
use hacker_sprint2_sim.Invariant.Operations.{Later, apply-Later}
use hacker_sprint2_sim.Invariant.Clock.{RunStep, IsTimely, apply-RunStep, apply-IsTimely}
use hacker_sprint2_sim.Invariant.Catalog.{IsDistribution, apply-IsDistribution}
use hacker_sprint2_sim.Invariant.Schedule.{IsWithin, apply-IsWithin}
use hacker_sprint2_sim.Invariant.Commands.{apply-payloads}
use hacker_sprint2_sim.Tests.{a_server, test_platform, a_run, an_operation}

abbrev accepted : Event
accepted = fact (
    page_request_accepted (record {
      request_id = "req";
      server_id = "srv";
      database_id = "";
      firewall_rule_id = "";
      accepted_at = 500;
      releases_at = 550;
    }))

abbrev progressed : Event
progressed =
    fact
      (operation_progressed (record { operation_id = "op"; progress_ppm = 20; updated_at = 500 }))

abbrev released : Event
released = fact (
    database_connection_released
      (record { request_id = "old"; database_id = "db"; server_id = "srv"; released_at = 500 }))

abbrev advanced : Event
advanced = fact (
    time_advanced (record {
      command_id = "cmd2";
      from = 500;
      to = 700;
      real_elapsed = pos 200;
      requested_duration = pos 0;
      applied_duration = pos 200;
      stop_on_log_error = false;
      log_error_codes = [];
    }))

abbrev added : Event
added = fact (
    product_added (record {
      product_id = "q";
      name = "q";
      description = "";
      manufacturer = "";
      price_minor = pos 9;
      available = true;
      version = 1;
      view_probability_ppm = 600_000;
      added_at = 500;
    }))

capacity-UniqueKeys : UniqueKeys a_run.capacity
unfolding has lookup same
capacity-UniqueKeys = (refl, (refl, tt))

a_run-IsIndexed : IsIndexed a_run
unfolding total count_at load_for lookup ◌+ℤ◌
a_run-IsIndexed = record { unique = capacity-UniqueKeys; summed = λ k. ground (arith) }

apply-IsIndexed_example : IsIndexed (left (apply test_platform a_run accepted))
unfolding has lookup same
apply-IsIndexed_example = apply-IsIndexed test_platform a_run accepted refl a_run-IsIndexed

prune_expired_capacity-used_by_example :
    used_by test_platform (prune_expired_capacity a_run 500) "srv" 500
    ≡ total (live_load "srv" 500) a_run.capacity
prune_expired_capacity-used_by_example =
    prune_expired_capacity-used_by test_platform a_run "srv" 500 a_run-IsIndexed (omega arith)

apply-Later_example :
    Later (left (apply test_platform a_run progressed)).operations "op" an_operation
unfolding lookup same
apply-Later_example = apply-Later test_platform a_run progressed "op" an_operation refl

connections-UniqueKeys : UniqueKeys a_run.database_connections
unfolding has lookup
connections-UniqueKeys = (refl, tt)

a_run-IsCounted : IsCounted a_run
unfolding total count_at load_for lookup ◌+ℤ◌
a_run-IsCounted = record { unique = connections-UniqueKeys; summed = λ k. ground (arith) }

apply-IsCounted_example : IsCounted (left (apply test_platform a_run released))
apply-IsCounted_example = apply-IsCounted test_platform a_run released a_run-IsCounted

apply-RunStep_example :
    RunStep RunStatus.running a_run.clock
      (left (apply test_platform a_run advanced)).status
      (left (apply test_platform a_run advanced)).clock
apply-RunStep_example = apply-RunStep test_platform a_run advanced

apply-IsTimely_example : IsTimely (left (apply test_platform a_run advanced))
apply-IsTimely_example = apply-IsTimely test_platform a_run advanced (omega arith, omega arith)

abbrev another : DatabaseConnectionOpened
another = record {
  request_id = "new";
  database_id = "db";
  server_id = "srv";
  opened_at = 500;
  releases_at = 550;
}

abbrev connected : State
connected = left (apply_database_connection_opened a_run another)

another-done : apply_database_connection_opened a_run another ≡ done connected
unfolding apply_database_connection_opened found lookup refuse same is_available valid_fact_time
    ◌+ℤ◌ count_at has
another-done = refl

apply_database_connection_opened-limit_example : open_connections "db" connected ≤ℤ pos 2
unfolding lookup same
apply_database_connection_opened-limit_example =
    apply_database_connection_opened-limit a_run connected another a_server a_run-IsCounted refl
      another-done

abbrev ended_run : State
ended_run = record (a_run) { status = RunStatus.completed }

apply-IsDistribution_example : IsDistribution (left (apply test_platform a_run added))
unfolding total_view_probability total ◌+ℤ◌
apply-IsDistribution_example = apply-IsDistribution test_platform a_run added refl

apply-IsWithin_example : IsWithin (left (apply test_platform a_run added))
apply-IsWithin_example = apply-IsWithin test_platform a_run added (omega arith)

apply-payloads_example :
    lookup "cmd" (left (apply test_platform a_run advanced)).command_payloads ≡ some "add"
unfolding lookup same
apply-payloads_example = apply-payloads test_platform a_run advanced "cmd" "add" refl
