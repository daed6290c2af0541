-- ===== src/Apply/Operations.antt =====
-- Server commands and operations: `State.Apply` in internal/simulation/state.go.
use hacker_sprint2_sim.Common.{String, not, ◌||◌}
use hacker_sprint2_sim.Common.Tests.{ltb}
use hacker_sprint2_sim.Common.Map.{lookup, insert, has}
use hacker_sprint2_sim.Common.Text.{is_empty}
use hacker_sprint2_sim.State.{State}
use hacker_sprint2_sim.Outcome.{
  Outcome, fail, done, refuse, found, ensure_running, ensure_run_exists, invalid_event,
  idempotency_conflict,
}
use hacker_sprint2_sim.Apply.Shared.{is_now, record_command}
use hacker_sprint2_sim.Model.Types.{is_queued, is_running, OperationLifecycleStatus}
use hacker_sprint2_sim.Events.Resources.{
  ServerCommandAccepted, OperationQueued, OperationStarted, OperationProgressed, OperationSucceeded,
  OperationFailed,
}
use hacker_sprint2_sim.State.Records.{OperationState}
use hacker_sprint2_sim.Apply.Run.{probability_scale}

unfoldable pub apply_server_command_accepted : State → ServerCommandAccepted → Outcome
apply_server_command_accepted s e = ensure_running s (
    refuse
      (is_empty e.command_id
        || is_empty e.operation_id
        || is_empty e.payload
        || not (is_now s e.accepted_at))
      invalid_event s
      (refuse (has e.command_id s.commands) idempotency_conflict s (
        record_command e.command_id e.payload s
          (λ t. done (record t { commands = insert e.command_id e.operation_id t.commands })))))

abbrev pub set_operation : String → OperationState → State → State
set_operation id operation s = record s { operations = insert id operation s.operations }

unfoldable pub apply_operation_queued : State → OperationQueued → Outcome
apply_operation_queued s e = ensure_running s (
    refuse (is_empty e.operation_id || is_empty e.kind || not (is_now s e.queued_at)) invalid_event
      s
      (refuse (has e.operation_id s.operations) invalid_event s (
        done (
          set_operation e.operation_id
            (record {
              id = e.operation_id;
              kind = e.kind;
              status = OperationLifecycleStatus.queued;
              queued_at = e.queued_at;
              started_at = 0;
              completed_at = 0;
              error_code = "";
              message = "";
              progress_ppm = 0;
            })
            s))))

unfoldable pub apply_operation_started : State → OperationStarted → Outcome
apply_operation_started s e = ensure_running s (
    found (lookup e.operation_id s.operations) (fail invalid_event s) λ operation.
      refuse (not (is_queued operation.status) || not (is_now s e.started_at)) invalid_event s (
        done (
          set_operation e.operation_id
            (record operation {
              status = OperationLifecycleStatus.running;
              started_at = e.started_at;
            })
            s)))

unfoldable pub apply_operation_progressed : State → OperationProgressed → Outcome
apply_operation_progressed s e = ensure_running s (
    found (lookup e.operation_id s.operations) (fail invalid_event s) λ operation.
      refuse
        (not (is_running operation.status)
          || ltb probability_scale e.progress_ppm
          || ltb e.progress_ppm operation.progress_ppm
          || not (is_now s e.updated_at))
        invalid_event s
        (done
          (set_operation e.operation_id (record operation { progress_ppm = e.progress_ppm }) s)))

unfoldable pub apply_operation_succeeded : State → OperationSucceeded → Outcome
apply_operation_succeeded s e = ensure_run_exists s (
    found (lookup e.operation_id s.operations) (fail invalid_event s) λ operation.
      refuse (not (is_running operation.status) || not (is_now s e.completed_at)) invalid_event s (
        done (
          set_operation e.operation_id
            (record operation {
              status = OperationLifecycleStatus.succeeded;
              completed_at = e.completed_at;
            })
            s)))

unfoldable pub apply_operation_failed : State → OperationFailed → Outcome
apply_operation_failed s e = ensure_run_exists s (
    found (lookup e.operation_id s.operations) (fail invalid_event s) λ operation.
      refuse
        (not (is_running operation.status)
          || is_empty e.error_code
          || is_empty e.message
          || not (is_now s e.failed_at))
        invalid_event s
        (done (
          set_operation e.operation_id
            (record operation {
              status = OperationLifecycleStatus.failed;
              completed_at = e.failed_at;
              error_code = e.error_code;
              message = e.message;
            })
            s)))
