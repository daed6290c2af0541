-- ===== src/Journal/Requests/Durable.antt =====
-- The audit of a request against a replay: internal/persistence/journal/store.go.
use hacker_sprint2_sim.Common.{ℕ, ◌≡◌, false, List, []}
use hacker_sprint2_sim.Stream.{StoredEvent}
use hacker_sprint2_sim.Journal.Bytes.{Bytes}
use hacker_sprint2_sim.Journal.Batch.{EventCodec}
use hacker_sprint2_sim.Journal.Audit.{AuditCodec}
use hacker_sprint2_sim.Journal.Stream.{RunStream}
use hacker_sprint2_sim.Journal.Append.{JournalState}
use hacker_sprint2_sim.Journal.Append.Trace.{Trace}
use hacker_sprint2_sim.Journal.Append.Disk.{moved, on_disk}
use hacker_sprint2_sim.Journal.Append.Leaves.{Leaves}
use hacker_sprint2_sim.Common.{some}
use hacker_sprint2_sim.Common.Lists.{get_elem?}
use hacker_sprint2_sim.Common.Map.{lookup}
use hacker_sprint2_sim.Journal.Audit.{AgentRequestCompleted}
use hacker_sprint2_sim.Journal.Requests.{complete, is_completed}

-- What a call that succeeds leaves: g is what it does to the stream in memory, and a replay of the
-- files has the same stream.
pub record IsRecorded (checksum : Bytes → ℕ) (codec : EventCodec) (audit : AuditCodec)
    (start : JournalState) (u : RunStream) (g : RunStream → RunStream) (t : JournalState)
    : Type 0 where
  pub first : ℕ
  pub count : ℕ
  pub pending : List StoredEvent
  pub trace : Trace checksum codec audit start u t (on_disk first count pending t.stream)
  pub gained : moved 0 0 0 [] t.stream ≡ moved 0 0 0 [] (g start.stream)

-- What a completion that succeeds has found: a request that was received and not completed.
pub record IsCompletion (checksum : Bytes → ℕ) (codec : EventCodec) (audit : AuditCodec)
    (start : JournalState) (u : RunStream) (completion : AgentRequestCompleted) (t : JournalState)
    : Type 0 where
  pub index : ℕ
  pub was_received : lookup completion.request_id start.stream.request_indexes ≡ some index
  pub was_open : is_completed (get_elem? start.stream.requests index) ≡ false
  pub recorded : IsRecorded checksum codec audit start u (complete index completion) t
