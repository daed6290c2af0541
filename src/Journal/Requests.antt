-- ===== src/Journal/Requests.antt =====
-- The audit of agent requests: `RecordAgentRequest` and `CompleteAgentRequest` of
-- internal/persistence/journal/store.go, on a run whose stream is initialised.
pub mod Durable
use hacker_sprint2_sim.Common.{
  ℕ, ◌+◌, ◌%◌, ◌^◌, Bool, true, false, ◌||◌, Option, none, some, List, [], ◌∷◌, ◌++◌,
}
use hacker_sprint2_sim.Common.Tests.{◌==◌, if◌then◌else◌}
use hacker_sprint2_sim.Common.Lists.{length, get_elem?}
use hacker_sprint2_sim.Common.Map.{lookup, insert, has}
use hacker_sprint2_sim.Common.Text.{is_empty}
use hacker_sprint2_sim.Journal.{
  JournalError, invalid_request, duplicate_request, unknown_request, already_completed,
}
use hacker_sprint2_sim.Journal.Bytes.{Bytes}
use hacker_sprint2_sim.Journal.Batch.{EventCodec}
use hacker_sprint2_sim.Journal.Format.{kind_request_received, kind_request_completed}
use hacker_sprint2_sim.Journal.Audit.{
  AgentRequestReceived, AgentRequestCompleted, AgentRequestAudit, AuditCodec,
}
use hacker_sprint2_sim.Journal.Stream.{RunStream, apply_summary_request, complete_at}
use hacker_sprint2_sim.Journal.Append.{
  Fault, JournalState, Written, written, write_failed, then_write, needs_payload, append_frame,
}

-- The end of RecordAgentRequest.
unfoldable pub receive : AgentRequestReceived → RunStream → RunStream
receive request stream = apply_summary_request request (record stream {
  request_indexes = insert request.request_id (length stream.requests) stream.request_indexes;
  requests = stream.requests ++ (record { received = request; completed = none } ∷ []);
})

-- The end of CompleteAgentRequest.
unfoldable pub complete : ℕ → AgentRequestCompleted → RunStream → RunStream
complete index completion stream = record stream {
  requests = complete_at index completion stream.requests;
}

-- stream.requests[index].Completed != nil
unfoldable pub is_completed : Option AgentRequestAudit → Bool
is_completed none = false
is_completed (some audit) = elim (audit.completed) [ none ↦ false | some _ ↦ true ]

module _ (checksum : Bytes → ℕ) (codec : EventCodec) (audit : AuditCodec) (segment_size : ℕ)
    (faults : ℕ → Fault) where
  -- RecordAgentRequest
  unfoldable pub record_agent_request : AgentRequestReceived → JournalState → Written
  record_agent_request request s =
      if is_empty request.request_id
        || is_empty request.method
        || is_empty request.path
        || (request.received_at == 0)
      then write_failed invalid_request s
      else if has request.request_id s.stream.request_indexes
      then write_failed duplicate_request s
      else needs_payload (audit.marshal_received request) s (λ payload.
        then_write
          (append_frame checksum codec segment_size faults kind_request_received request.received_at
            payload s)
          (λ t. written (record t { stream = receive request t.stream })))

  -- CompleteAgentRequest
  unfoldable pub complete_agent_request : AgentRequestCompleted → JournalState → Written
  complete_agent_request completion s =
      if is_empty completion.request_id || (completion.completed_at == 0)
      then write_failed invalid_request s
      else elim (lookup completion.request_id s.stream.request_indexes) [
        | none ↦ write_failed unknown_request s
        | some index ↦
            if is_completed (get_elem? s.stream.requests index)
            then write_failed already_completed s
            else needs_payload (audit.marshal_completed completion) s (λ payload.
              then_write
                (append_frame checksum codec segment_size faults kind_request_completed
                  completion.completed_at payload s)
                (λ t. written (record t { stream = complete index completion t.stream })))
      ]
