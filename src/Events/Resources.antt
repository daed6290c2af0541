-- ===== src/Events/Resources.antt =====
-- The events of internal/simulation/events/resources.go, internal/simulation/events/operations.go.
use hacker_sprint2_sim.Common.{ℕ, String, Bool, List}
use hacker_sprint2_sim.Common.Int.{ℤ}
use hacker_sprint2_sim.Model.Types.{
  Time, CommandId, CredentialId, InstanceType, OperationId, OperationKind, PageType, ServerId,
  ServerRole,
}

pub record ServerCommandAccepted : Type 0 where
  pub command_id : CommandId
  pub operation_id : OperationId
  pub payload : String
  pub accepted_at : Time

pub record ServerProvisioningStarted : Type 0 where
  pub operation_id : OperationId
  pub server_id : ServerId
  pub name : String
  pub credential_id : CredentialId
  pub instance_type : InstanceType
  pub role : ServerRole
  pub capacity_units : ℤ
  pub disk_bytes : ℤ
  pub connection_limit : ℤ
  pub connection_hold : ℤ
  pub cost_per_hour_minor : ℤ
  pub cost_per_month_minor : ℤ
  pub started_at : Time
  pub ready_at : Time

pub record ServerActivated : Type 0 where
  pub operation_id : OperationId
  pub server_id : ServerId
  pub activated_at : Time

pub record ServerDrainingStarted : Type 0 where
  pub operation_id : OperationId
  pub server_id : ServerId
  pub started_at : Time

pub record ServerRemoved : Type 0 where
  pub operation_id : OperationId
  pub server_id : ServerId
  pub removed_at : Time

pub record ServerProvisioningFailed : Type 0 where
  pub operation_id : OperationId
  pub server_id : ServerId
  pub error_code : String
  pub message : String
  pub failed_at : Time

pub record BackendAvailabilityChanged : Type 0 where
  pub available : Bool
  pub unavailable_pages : List PageType
  pub changed_at : Time

pub record OperationQueued : Type 0 where
  pub operation_id : OperationId
  pub kind : OperationKind
  pub queued_at : Time

pub record OperationStarted : Type 0 where
  pub operation_id : OperationId
  pub started_at : Time

pub record OperationProgressed : Type 0 where
  pub operation_id : OperationId
  pub progress_ppm : ℕ
  pub updated_at : Time

pub record OperationSucceeded : Type 0 where
  pub operation_id : OperationId
  pub completed_at : Time

pub record OperationFailed : Type 0 where
  pub operation_id : OperationId
  pub error_code : String
  pub message : String
  pub failed_at : Time
