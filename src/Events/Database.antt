-- ===== src/Events/Database.antt =====
-- The events of internal/simulation/events/database.go.
use hacker_sprint2_sim.Common.{ℕ, String, Bool, List}
use hacker_sprint2_sim.Common.Int.{ℤ}
use hacker_sprint2_sim.Model.Types.{
  Time, BackupId, DatabaseAvailabilityReason, DatabaseId, GrowthId, InstanceType, OperationId,
  RequestId, ServerId, ServerRole,
}

pub record ServerTypeDefined : Type 0 where
  pub instance_type : InstanceType
  pub role : ServerRole
  pub disk_bytes : ℤ
  pub connection_limit : ℤ
  pub connection_hold : ℤ
  pub backend_capacity_units : ℤ
  pub cost_per_hour_minor : ℤ
  pub cost_per_month_minor : ℤ
  pub defined_at : Time

pub record DatabaseCreated : Type 0 where
  pub database_id : DatabaseId
  pub server_id : ServerId
  pub name : String
  pub created_at : Time

pub record DatabaseDeleted : Type 0 where
  pub database_id : DatabaseId
  pub server_id : ServerId
  pub deleted_at : Time

pub record DatabaseConnectionOpened : Type 0 where
  pub request_id : RequestId
  pub database_id : DatabaseId
  pub server_id : ServerId
  pub opened_at : Time
  pub releases_at : Time

pub record DatabaseConnectionReleased : Type 0 where
  pub request_id : RequestId
  pub database_id : DatabaseId
  pub server_id : ServerId
  pub released_at : Time

pub record DatabaseConnectionRejected : Type 0 where
  pub request_id : RequestId
  pub database_id : DatabaseId
  pub server_id : ServerId
  pub active_connections : ℤ
  pub connection_limit : ℤ
  pub rejected_at : Time

pub record DatabaseAvailabilityChanged : Type 0 where
  pub database_id : DatabaseId
  pub server_id : ServerId
  pub available : Bool
  pub reasons : List DatabaseAvailabilityReason
  pub changed_at : Time

pub record DatabaseGrowthRequested : Type 0 where
  pub growth_id : GrowthId
  pub data_delta_bytes : ℤ
  pub logs_delta_bytes : ℤ
  pub requested_at : Time

pub record DatabaseStorageIncreased : Type 0 where
  pub growth_id : GrowthId
  pub database_id : DatabaseId
  pub server_id : ServerId
  pub data_bytes_added : ℤ
  pub logs_bytes_added : ℤ
  pub data_version : ℕ
  pub increased_at : Time

pub record DatabaseGrowthBlocked : Type 0 where
  pub growth_id : GrowthId
  pub database_id : DatabaseId
  pub server_id : ServerId
  pub pending_data_bytes : ℤ
  pub pending_logs_bytes : ℤ
  pub required_bytes : ℤ
  pub free_bytes : ℤ
  pub blocked_at : Time

pub record DiskLogsCleaned : Type 0 where
  pub server_id : ServerId
  pub freed_bytes : ℤ
  pub cleaned_at : Time

pub record DiskLogsGrowthRequested : Type 0 where
  pub growth_id : GrowthId
  pub server_id : ServerId
  pub delta_bytes : ℤ
  pub requested_at : Time

pub record DiskLogsIncreased : Type 0 where
  pub growth_id : GrowthId
  pub server_id : ServerId
  pub bytes_added : ℤ
  pub increased_at : Time

pub record DiskLogsGrowthBlocked : Type 0 where
  pub growth_id : GrowthId
  pub server_id : ServerId
  pub required_bytes : ℤ
  pub free_bytes : ℤ
  pub blocked_at : Time

pub record DatabaseBackupStarted : Type 0 where
  pub operation_id : OperationId
  pub backup_id : BackupId
  pub database_id : DatabaseId
  pub server_id : ServerId
  pub started_at : Time

pub record DatabaseBackupCompleted : Type 0 where
  pub operation_id : OperationId
  pub backup_id : BackupId
  pub database_id : DatabaseId
  pub server_id : ServerId
  pub data_bytes : ℤ
  pub data_version : ℕ
  pub storage_cost_per_hour_minor : ℤ
  pub completed_at : Time

pub record DatabaseBackupFailed : Type 0 where
  pub operation_id : OperationId
  pub backup_id : BackupId
  pub database_id : DatabaseId
  pub error_code : String
  pub message : String
  pub failed_at : Time

pub record BackupStorageCostAccrued : Type 0 where
  pub backup_id : BackupId
  pub from : Time
  pub to : Time
  pub billed_hours : ℤ
  pub amount_minor : ℤ

pub record DatabaseRestoreStarted : Type 0 where
  pub operation_id : OperationId
  pub backup_id : BackupId
  pub database_id : DatabaseId
  pub server_id : ServerId
  pub started_at : Time

pub record DatabaseRestoreCompleted : Type 0 where
  pub operation_id : OperationId
  pub backup_id : BackupId
  pub database_id : DatabaseId
  pub server_id : ServerId
  pub data_bytes : ℤ
  pub data_version : ℕ
  pub completed_at : Time

pub record DatabaseRestoreFailed : Type 0 where
  pub operation_id : OperationId
  pub backup_id : BackupId
  pub database_id : DatabaseId
  pub error_code : String
  pub message : String
  pub failed_at : Time

pub record SiteStopStarted : Type 0 where
  pub operation_id : OperationId
  pub started_at : Time

pub record SiteStopped : Type 0 where
  pub operation_id : OperationId
  pub stopped_at : Time

pub record SiteDatabaseChanged : Type 0 where
  pub previous_database_id : DatabaseId
  pub database_id : DatabaseId
  pub backup_id : BackupId
  pub data_version : ℕ
  pub changed_at : Time

pub record SiteStarted : Type 0 where
  pub database_id : DatabaseId
  pub started_at : Time
