-- ===== src/State/Records.antt =====
-- The records of internal/simulation/types.go for the clock, the catalog, the operations and the control receipts.
use hacker_sprint2_sim.Common.{ℕ, String, Bool, List}
use hacker_sprint2_sim.Common.Int.{ℤ}
use hacker_sprint2_sim.Model.Types.{
  Time, CommandId, MessageId, OperationId, OperationKind, PageType, ProductId,
}
use hacker_sprint2_sim.Model.Types.{OperationLifecycleStatus}

pub record ClockState : Type 0 where
  pub started_at : Time
  pub current_time : Time
  pub ends_at : Time

pub record ProductState : Type 0 where
  pub id : ProductId
  pub name : String
  pub description : String
  pub manufacturer : String
  pub price_minor : ℤ
  pub available : Bool
  pub version : ℕ
  pub view_probability_ppm : ℕ
  pub added_at : Time
  pub updated_at : Time

pub record InboxMessageState : Type 0 where
  pub id : MessageId
  pub sender_email : String
  pub sent_at : Time
  pub subject : String
  pub description : String

pub record CostsState : Type 0 where
  pub currency : String
  pub server_cost_minor : ℤ
  pub backup_storage_cost_minor : ℤ

pub record PageConfigState : Type 0 where
  pub page : PageType
  pub load_units : ℤ
  pub hold_duration : ℤ
  pub base_latency : ℤ
  pub configured_at : Time

pub record InfrastructureConfigState : Type 0 where
  pub server_provisioning_duration : ℤ
  pub configured_at : Time

pub record OperationState : Type 0 where
  pub id : OperationId
  pub kind : OperationKind
  pub status : OperationLifecycleStatus
  pub queued_at : Time
  pub started_at : Time
  pub completed_at : Time
  pub error_code : String
  pub message : String
  pub progress_ppm : ℕ

pub record ControlCommandReceiptState : Type 0 where
  pub command_id : CommandId
  pub command : String
  pub payload_sha256 : String
  pub params : List ℕ
  pub operation_id : OperationId
  pub status_code : ℤ
  pub result : List ℕ
  pub error_code : String
  pub message : String
  pub accepted_at : Time
  pub recorded_at : Time

pub record ControlOperationResultState : Type 0 where
  pub operation_id : OperationId
  pub command_id : CommandId
  pub command : String
  pub result : List ℕ
  pub error_code : String
  pub message : String
  pub recorded_at : Time
