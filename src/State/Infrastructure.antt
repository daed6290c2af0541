-- ===== src/State/Infrastructure.antt =====
-- The records of internal/simulation/types.go for the servers, the databases and the site.
use hacker_sprint2_sim.Common.{ℕ, String, Bool}
use hacker_sprint2_sim.Common.Int.{ℤ}
use hacker_sprint2_sim.Common.Map.{Map}
use hacker_sprint2_sim.Model.Types.{
  Time, BackupId, CredentialId, DatabaseId, GrowthId, InstanceType, OperationId, RequestId,
  ServerId, ServerRole,
}
use hacker_sprint2_sim.Model.Types.{
  ServerLifecycleStatus, SiteLifecycleStatus, BackupLifecycleStatus,
}

pub record ServerState : Type 0 where
  pub id : ServerId
  pub name : String
  pub credential_id : CredentialId
  pub operation_id : OperationId
  pub status : ServerLifecycleStatus
  pub instance_type : InstanceType
  pub role : ServerRole
  pub capacity_units : ℤ
  pub disk_bytes : ℤ
  pub system_bytes : ℤ
  pub logs_bytes : ℤ
  pub connection_limit : ℤ
  pub connection_hold : ℤ
  pub cost_per_hour_minor : ℤ
  pub cost_per_month_minor : ℤ
  pub accrued_cost_minor : ℤ
  pub started_at : Time
  pub ready_at : Time
  pub activated_at : Time
  pub billed_hours : ℤ

pub record ServerTypeState : Type 0 where
  pub instance_type : InstanceType
  pub role : ServerRole
  pub disk_bytes : ℤ
  pub connection_limit : ℤ
  pub connection_hold : ℤ
  pub backend_capacity_units : ℤ
  pub cost_per_hour_minor : ℤ
  pub cost_per_month_minor : ℤ

pub record ServerCredentialState : Type 0 where
  pub credential_id : CredentialId
  pub server_id : ServerId
  pub version : ℕ
  pub supersedes_credential_id : CredentialId
  pub valid_from : Time
  pub expires_at : Time
  pub issued_at : Time

pub record DatabaseState : Type 0 where
  pub id : DatabaseId
  pub server_id : ServerId
  pub name : String
  pub data_bytes : ℤ
  pub logs_bytes : ℤ
  pub data_version : ℕ
  pub ready : Bool
  pub restored_backup_id : BackupId
  pub restored_from_database_id : DatabaseId
  pub availability_reasons : Map (Unit {0})

pub record DatabaseConnectionState : Type 0 where
  pub request_id : RequestId
  pub database_id : DatabaseId
  pub server_id : ServerId
  pub opened_at : Time
  pub releases_at : Time

pub record DatabaseGrowthState : Type 0 where
  pub id : GrowthId
  pub database_id : DatabaseId
  pub data_delta_bytes : ℤ
  pub logs_delta_bytes : ℤ
  pub requested_at : Time
  pub blocked : Bool

pub record BackupState : Type 0 where
  pub id : BackupId
  pub database_id : DatabaseId
  pub server_id : ServerId
  pub operation_id : OperationId
  pub status : BackupLifecycleStatus
  pub data_bytes : ℤ
  pub data_version : ℕ
  pub created_at : Time
  pub completed_at : Time
  pub storage_cost_per_hour_minor : ℤ
  pub billed_hours : ℤ
  pub error_code : String
  pub message : String

pub record SiteState : Type 0 where
  pub status : SiteLifecycleStatus
  pub database_id : DatabaseId
  pub operation_id : OperationId
  pub unavailable_since : Time
  pub downtime_duration : ℤ
