-- ===== src/Events/Control.antt =====
-- The events of internal/simulation/events/control.go.
use hacker_sprint2_sim.Common.{ℕ, String, List}
use hacker_sprint2_sim.Common.Int.{ℤ}
use hacker_sprint2_sim.Model.Types.{Time, CommandId, CredentialId, OperationId, ServerId}

pub record ControlCommandAccepted : Type 0 where
  pub command_id : CommandId
  pub command : String
  pub payload_sha256 : String
  pub params : List ℕ
  pub operation_id : OperationId
  pub accepted_at : Time

pub record ControlCommandResponseRecorded : Type 0 where
  pub command_id : CommandId
  pub command : String
  pub status_code : ℤ
  pub operation_id : OperationId
  pub result : List ℕ
  pub error_code : String
  pub message : String
  pub recorded_at : Time

pub record ControlOperationResultRecorded : Type 0 where
  pub operation_id : OperationId
  pub command_id : CommandId
  pub command : String
  pub result : List ℕ
  pub error_code : String
  pub message : String
  pub recorded_at : Time

pub record ServerCredentialIssued : Type 0 where
  pub credential_id : CredentialId
  pub server_id : ServerId
  pub version : ℕ
  pub supersedes_credential_id : CredentialId
  pub valid_from : Time
  pub expires_at : Time
  pub issued_at : Time

pub record ServerCredentialRotationRequested : Type 0 where
  pub rotation_id : String
  pub server_id : ServerId
  pub requested_at : Time
