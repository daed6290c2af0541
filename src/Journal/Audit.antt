-- ===== src/Journal/Audit.antt =====
-- The audit records of internal/persistence/journal/audit.go. Their JSON is a parameter.
use hacker_sprint2_sim.Common.{◌≡◌, String, Option, List}
use hacker_sprint2_sim.Common.Int.{ℤ}
use hacker_sprint2_sim.Common.Map.{Map}
use hacker_sprint2_sim.Common.Result.{Result, ok}
use hacker_sprint2_sim.Model.Types.{Time}
use hacker_sprint2_sim.Journal.{JournalError}
use hacker_sprint2_sim.Journal.Bytes.{Bytes}

pub record AgentRequestReceived : Type 0 where
  pub request_id : String
  pub command_id : String
  pub agent_id : String
  pub method : String
  pub path : String
  pub headers : Map (List String)
  pub body : Bytes
  pub received_at : Time

pub record AgentRequestCompleted : Type 0 where
  pub request_id : String
  pub status_code : ℤ
  pub response_headers : Map (List String)
  pub response_body : Bytes
  pub error : String
  pub completed_at : Time

pub record AgentRequestAudit : Type 0 where
  pub received : AgentRequestReceived
  pub completed : Option AgentRequestCompleted

-- json.Marshal and json.Unmarshal of the audit records.
pub record AuditCodec : Type 0 where
  pub marshal_received : AgentRequestReceived → Result JournalError Bytes
  pub unmarshal_received : Bytes → Result JournalError AgentRequestReceived
  pub marshal_completed : AgentRequestCompleted → Result JournalError Bytes
  pub unmarshal_completed : Bytes → Result JournalError AgentRequestCompleted
  pub received_law :
      (r : AgentRequestReceived) (payload : Bytes)
      → marshal_received r ≡ ok payload
      → unmarshal_received payload ≡ ok r
  pub completed_law :
      (r : AgentRequestCompleted) (payload : Bytes)
      → marshal_completed r ≡ ok payload
      → unmarshal_completed payload ≡ ok r
