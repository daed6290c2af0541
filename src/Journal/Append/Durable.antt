-- ===== src/Journal/Append/Durable.antt =====
-- `Append` of internal/persistence/journal/store.go against a replay of what it has written: on every
-- branch the files hold what the stream in memory holds.
use hacker_sprint2_sim.Common.{ℕ, ◌≡◌, List, ◌++◌}
use hacker_sprint2_sim.Model.Types.{Time}
use hacker_sprint2_sim.Events.{Event}
use hacker_sprint2_sim.Stream.{StoredEvent}
use hacker_sprint2_sim.Store.Memory.{stored_from}
use hacker_sprint2_sim.Journal.Bytes.{Bytes}
use hacker_sprint2_sim.Journal.Batch.{EventCodec}
use hacker_sprint2_sim.Journal.Audit.{AuditCodec}
use hacker_sprint2_sim.Journal.Stream.{RunStream}
use hacker_sprint2_sim.Journal.Append.{JournalState}
use hacker_sprint2_sim.Journal.Append.Trace.{Trace}
use hacker_sprint2_sim.Journal.Append.Leaves.{Leaves}
use hacker_sprint2_sim.Journal.Append.Disk.{on_disk}

-- What a successful append leaves, from the files of which a replay makes `u`: the stream in memory
-- has gained the events, as it was expected to stand, and a replay of the files has it.
pub record IsReplayed (checksum : Bytes → ℕ) (codec : EventCodec) (audit : AuditCodec)
    (start : JournalState) (u : RunStream) (expected : ℕ) (at : Time) (es : List Event)
    (t : JournalState) : Type 0 where
  pub first : ℕ
  pub count : ℕ
  pub pending : List StoredEvent
  pub trace : Trace checksum codec audit start u t (on_disk first count pending t.stream)
  pub was_expected : start.stream.domain_version ≡ expected
  pub events_appended : t.stream.events ≡ start.stream.events ++ stored_from expected es
