-- ===== src/Model/Types.antt =====
-- Identifiers, named texts and lifecycle states: internal/simulation/model/types.go and database.go,
-- and the identifiers of firewall.go. A `time.Time` counts nanoseconds from the zero time; a text
-- type with named constants admits every other text too, as in Go.
use hacker_sprint2_sim.Common.{ℕ, String, Bool, true, false}

abbrev pub Time : Type 0
Time = ℕ

abbrev pub AttackId : Type 0
AttackId = String

abbrev pub AttackKind : Type 0
AttackKind = String

abbrev pub AttackResolution : Type 0
AttackResolution = String

abbrev pub BackupId : Type 0
BackupId = String

abbrev pub CommandId : Type 0
CommandId = String

abbrev pub CredentialId : Type 0
CredentialId = String

abbrev pub DatabaseAvailabilityReason : Type 0
DatabaseAvailabilityReason = String

abbrev pub DatabaseId : Type 0
DatabaseId = String

abbrev pub FirewallAction : Type 0
FirewallAction = String

abbrev pub FirewallRuleId : Type 0
FirewallRuleId = String

abbrev pub GrowthId : Type 0
GrowthId = String

abbrev pub InstanceType : Type 0
InstanceType = String

abbrev pub MessageId : Type 0
MessageId = String

abbrev pub OperationId : Type 0
OperationId = String

abbrev pub OperationKind : Type 0
OperationKind = String

abbrev pub PageType : Type 0
PageType = String

abbrev pub ProductId : Type 0
ProductId = String

abbrev pub RegionCode : Type 0
RegionCode = String

abbrev pub RequestFailureCode : Type 0
RequestFailureCode = String

abbrev pub RequestId : Type 0
RequestId = String

abbrev pub RequestSource : Type 0
RequestSource = String

abbrev pub ServerId : Type 0
ServerId = String

abbrev pub ServerRole : Type 0
ServerRole = String

abbrev pub UserAgentOperator : Type 0
UserAgentOperator = String

abbrev pub VisitorId : Type 0
VisitorId = String

abbrev pub VisitorOutcome : Type 0
VisitorOutcome = String

abbrev pub page_product_list : PageType
page_product_list = "product_list"

abbrev pub page_product : PageType
page_product = "product_page"

abbrev pub request_source_visitor : RequestSource
request_source_visitor = "visitor"

abbrev pub request_source_probe : RequestSource
request_source_probe = "probe"

abbrev pub firewall_allow : FirewallAction
firewall_allow = "allow"

abbrev pub firewall_deny : FirewallAction
firewall_deny = "deny"

abbrev pub user_agent_equals : UserAgentOperator
user_agent_equals = "equals"

abbrev pub user_agent_contains : UserAgentOperator
user_agent_contains = "contains"

abbrev pub server_role_backend : ServerRole
server_role_backend = "backend"

abbrev pub server_role_database : ServerRole
server_role_database = "database"

abbrev pub attack_ddos : AttackKind
attack_ddos = "ddos"

abbrev pub attack_brute_force : AttackKind
attack_brute_force = "brute_force"

abbrev pub attack_scale_or_expiry : AttackResolution
attack_scale_or_expiry = "scale_or_expiry"

abbrev pub database_unavailable_disk_full : DatabaseAvailabilityReason
database_unavailable_disk_full = "disk_full"

abbrev pub database_unavailable_connection_limit : DatabaseAvailabilityReason
database_unavailable_connection_limit = "connection_limit"

abbrev pub failure_server_capacity_exceeded : RequestFailureCode
failure_server_capacity_exceeded = "SERVER_CAPACITY_EXCEEDED"

abbrev pub failure_db_connection_limit : RequestFailureCode
failure_db_connection_limit = "DB_CONNECTION_LIMIT_EXCEEDED"

abbrev pub failure_disk_full : RequestFailureCode
failure_disk_full = "DISK_FULL"

abbrev pub failure_site_unavailable : RequestFailureCode
failure_site_unavailable = "SITE_UNAVAILABLE"

abbrev pub failure_database_unavailable : RequestFailureCode
failure_database_unavailable = "DB_UNAVAILABLE"

abbrev pub failure_firewall_denied : RequestFailureCode
failure_firewall_denied = "FIREWALL_DENIED"

pub data PageRequestStatus : Type 0 where
  in_progress succeeded failed : PageRequestStatus

pub data OperationLifecycleStatus : Type 0 where
  queued running succeeded failed : OperationLifecycleStatus

pub data ServerLifecycleStatus : Type 0 where
  provisioning active draining stopped failed : ServerLifecycleStatus

pub data SiteLifecycleStatus : Type 0 where
  running stopping stopped : SiteLifecycleStatus

pub data BackupLifecycleStatus : Type 0 where
  creating ready failed : BackupLifecycleStatus

abbrev pub is_in_progress : PageRequestStatus → Bool
is_in_progress PageRequestStatus.in_progress = true
is_in_progress _ = false

abbrev pub is_queued : OperationLifecycleStatus → Bool
is_queued OperationLifecycleStatus.queued = true
is_queued _ = false

abbrev pub is_running : OperationLifecycleStatus → Bool
is_running OperationLifecycleStatus.running = true
is_running _ = false

abbrev pub is_provisioning : ServerLifecycleStatus → Bool
is_provisioning ServerLifecycleStatus.provisioning = true
is_provisioning _ = false

abbrev pub is_active : ServerLifecycleStatus → Bool
is_active ServerLifecycleStatus.active = true
is_active _ = false

abbrev pub is_draining : ServerLifecycleStatus → Bool
is_draining ServerLifecycleStatus.draining = true
is_draining _ = false

abbrev pub site_is_running : SiteLifecycleStatus → Bool
site_is_running SiteLifecycleStatus.running = true
site_is_running _ = false

abbrev pub site_is_stopping : SiteLifecycleStatus → Bool
site_is_stopping SiteLifecycleStatus.stopping = true
site_is_stopping _ = false

abbrev pub site_is_stopped : SiteLifecycleStatus → Bool
site_is_stopped SiteLifecycleStatus.stopped = true
site_is_stopped _ = false

abbrev pub is_creating : BackupLifecycleStatus → Bool
is_creating BackupLifecycleStatus.creating = true
is_creating _ = false

abbrev pub is_ready : BackupLifecycleStatus → Bool
is_ready BackupLifecycleStatus.ready = true
is_ready _ = false

-- Succeeded or failed.
abbrev pub is_terminal : OperationLifecycleStatus → Bool
is_terminal OperationLifecycleStatus.succeeded = true
is_terminal OperationLifecycleStatus.failed = true
is_terminal _ = false
