-- ===== src/Apply/Control.antt =====
-- Control receipts and server credentials: applyControlEvent in
-- internal/simulation/control_state.go.
use hacker_sprint2_sim.Common.{◌+◌, String, Bool, false, not, ◌&&◌, ◌||◌, []}
use hacker_sprint2_sim.Common.Tests.{ltb, leb, ◌==◌, same, if◌then◌else◌}
use hacker_sprint2_sim.Common.Int.{pos, eqz}
use hacker_sprint2_sim.Common.Map.{lookup, insert, has}
use hacker_sprint2_sim.Common.Text.{is_empty}
use hacker_sprint2_sim.State.{State}
use hacker_sprint2_sim.Outcome.{
  Outcome, fail, done, refuse, found, ensure_run_exists, invalid_event, idempotency_conflict,
}
use hacker_sprint2_sim.Apply.Shared.{valid_fact_time, mark_scheduled}
use hacker_sprint2_sim.Model.Types.{is_terminal}
use hacker_sprint2_sim.Events.{Fact, server_credential_rotation_requested}
use hacker_sprint2_sim.Events.Control.{
  ControlCommandAccepted, ControlCommandResponseRecorded, ControlOperationResultRecorded,
  ServerCredentialIssued, ServerCredentialRotationRequested,
}
use hacker_sprint2_sim.State.Infrastructure.{ServerState, ServerCredentialState}

unfoldable pub apply_control_command_accepted : State → ControlCommandAccepted → Outcome
apply_control_command_accepted s e = ensure_run_exists s (
    refuse
      (is_empty e.command_id
        || is_empty e.command
        || is_empty e.payload_sha256
        || not (valid_fact_time s e.accepted_at))
      invalid_event s
      (refuse (has e.command_id s.control_command_receipts) idempotency_conflict s (
        done (record s {
          control_command_receipts =
              insert e.command_id
                (record {
                  command_id = e.command_id;
                  command = e.command;
                  payload_sha256 = e.payload_sha256;
                  params = e.params;
                  operation_id = e.operation_id;
                  status_code = pos 0;
                  result = [];
                  error_code = "";
                  message = "";
                  accepted_at = e.accepted_at;
                  recorded_at = 0;
                })
                s.control_command_receipts;
        }))))

unfoldable pub apply_control_command_response_recorded :
    State → ControlCommandResponseRecorded → Outcome
apply_control_command_response_recorded s e =
    found (lookup e.command_id s.control_command_receipts) (fail invalid_event s) λ receipt.
      refuse
        (not (receipt.recorded_at == 0)
          || not (same receipt.command e.command)
          || not (same receipt.operation_id e.operation_id)
          || not (eqz e.status_code (pos 200) || eqz e.status_code (pos 202))
          || not (valid_fact_time s e.recorded_at))
        invalid_event s
        (done (record s {
          control_command_receipts =
              insert e.command_id
                (record receipt {
                  status_code = e.status_code;
                  result = e.result;
                  error_code = e.error_code;
                  message = e.message;
                  recorded_at = e.recorded_at;
                })
                s.control_command_receipts;
        }))

unfoldable pub apply_control_operation_result_recorded :
    State → ControlOperationResultRecorded → Outcome
apply_control_operation_result_recorded s e =
    found (lookup e.command_id s.control_command_receipts) (fail invalid_event s) λ receipt.
      found (lookup e.operation_id s.operations) (fail invalid_event s) λ operation.
        refuse
          (not (same receipt.operation_id e.operation_id)
            || not (same receipt.command e.command)
            || not (is_terminal operation.status)
            || not (valid_fact_time s e.recorded_at))
          invalid_event s
          (refuse (has e.operation_id s.control_operation_results) idempotency_conflict s (
            done (record s {
              control_operation_results =
                  insert e.operation_id
                    (record {
                      operation_id = e.operation_id;
                      command_id = e.command_id;
                      command = e.command;
                      result = e.result;
                      error_code = e.error_code;
                      message = e.message;
                      recorded_at = e.recorded_at;
                    })
                    s.control_operation_results;
            })))

abbrev pub set_credential : String → ServerCredentialState → State → State
set_credential id credential s = record s {
  server_credentials = insert id credential s.server_credentials;
}

abbrev issued : ServerCredentialIssued → ServerCredentialState
issued e = record {
  credential_id = e.credential_id;
  server_id = e.server_id;
  version = e.version;
  supersedes_credential_id = e.supersedes_credential_id;
  valid_from = e.valid_from;
  expires_at = e.expires_at;
  issued_at = e.issued_at;
}

-- The new credential is stored, and the server refers to it.
unfoldable pub install_credential : ServerCredentialIssued → ServerState → State → State
install_credential e server s =
    let stored = set_credential e.credential_id (issued e) s in
    record stored {
      servers =
          insert e.server_id (record server { credential_id = e.credential_id }) stored.servers;
    }

-- A rotation ends the previous version where the new one begins.
unfoldable pub rotate_credential : ServerCredentialIssued → ServerState → State → Outcome
rotate_credential e server s =
    found (lookup e.supersedes_credential_id s.server_credentials) (fail invalid_event s)
      λ previous.
        refuse
          (not (same previous.server_id e.server_id)
            || not (previous.version + 1 == e.version)
            || not (same server.credential_id previous.credential_id))
          invalid_event s
          (refuse (ltb e.valid_from previous.valid_from) invalid_event s (
            done (
              install_credential e server (
                set_credential previous.credential_id
                  (record previous { expires_at = e.valid_from }) s))))

unfoldable pub apply_server_credential_issued : State → ServerCredentialIssued → Outcome
apply_server_credential_issued s e =
    found (lookup e.server_id s.servers) (fail invalid_event s) λ server.
      refuse
        (is_empty e.credential_id
          || e.version == 0
          || ltb e.valid_from e.issued_at
          || leb e.expires_at e.valid_from
          || not (valid_fact_time s e.issued_at))
        invalid_event s
        (refuse (has e.credential_id s.server_credentials) invalid_event s (
          if ltb 1 e.version
          then rotate_credential e server s
          else refuse
              (not (is_empty server.credential_id)
                && not (same server.credential_id e.credential_id))
              invalid_event s (done (install_credential e server s))))

unfoldable pub is_rotation_requested : ServerCredentialRotationRequested → Fact → Bool
is_rotation_requested e f = elim f [
  | server_credential_rotation_requested x ↦
      same x.rotation_id e.rotation_id
      && same x.server_id e.server_id
      && x.requested_at == e.requested_at
  | _ ↦ false
]

unfoldable pub apply_server_credential_rotation_requested :
    State → ServerCredentialRotationRequested → Outcome
apply_server_credential_rotation_requested s e =
    refuse
      (is_empty e.rotation_id || is_empty e.server_id || not (valid_fact_time s e.requested_at))
      invalid_event s
      (refuse (has e.rotation_id s.credential_rotation_ids) invalid_event s (
        done (
          mark_scheduled (is_rotation_requested e) e.requested_at (record s {
            credential_rotation_ids = insert e.rotation_id tt s.credential_rotation_ids;
          }))))
