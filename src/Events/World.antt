-- ===== src/Events/World.antt =====
-- The events of internal/simulation/events/events.go, internal/simulation/events/world.go, internal/simulation/events/costs.go, internal/simulation/events/inbox.go.
use hacker_sprint2_sim.Common.{ℕ, String, Bool, List}
use hacker_sprint2_sim.Common.Int.{ℤ}
use hacker_sprint2_sim.Model.Types.{
  Time, CommandId, MessageId, PageType, ProductId, RequestFailureCode, ServerId,
}

pub record WorldCreated : Type 0 where
  pub run_id : String
  pub seed : ℤ
  pub started_at : Time
  pub ends_at : Time

pub record ProductAdded : Type 0 where
  pub product_id : ProductId
  pub name : String
  pub description : String
  pub manufacturer : String
  pub price_minor : ℤ
  pub available : Bool
  pub version : ℕ
  pub view_probability_ppm : ℕ
  pub added_at : Time

pub record TimeAdvanced : Type 0 where
  pub command_id : CommandId
  pub from : Time
  pub to : Time
  pub real_elapsed : ℤ
  pub requested_duration : ℤ
  pub applied_duration : ℤ
  pub stop_on_log_error : Bool
  pub log_error_codes : List RequestFailureCode

pub record PageConfigured : Type 0 where
  pub page : PageType
  pub load_units : ℤ
  pub hold_duration : ℤ
  pub base_latency : ℤ
  pub configured_at : Time

pub record InfrastructureConfigured : Type 0 where
  pub server_provisioning_duration : ℤ
  pub configured_at : Time

pub record RunEnded : Type 0 where
  pub completed_at : Time
  pub reason : String

pub record CostsConfigured : Type 0 where
  pub currency : String
  pub configured_at : Time

pub record InfrastructureCostAccrued : Type 0 where
  pub server_id : ServerId
  pub from : Time
  pub to : Time
  pub billed_hours : ℤ
  pub total_amount_minor : ℤ
  pub amount_minor : ℤ

pub record InboxMessageDelivered : Type 0 where
  pub scenario_id : String
  pub step_id : String
  pub message_id : MessageId
  pub sender_email : String
  pub sent_at : Time
  pub subject : String
  pub description : String
