-- ===== src/Journal/Stream.antt =====
-- One run of the journal: `runStream` and `applyFrame` of internal/persistence/journal/store.go, and
-- the hooks of run_summaries.go.
-- A call of `applyFrame` that fails may leave a changed stream; it fails the whole `initialize`, which
-- starts from an empty stream when it is called again, so the model drops it.
use hacker_sprint2_sim.Common.{
  ℕ, zero, suc, ◌+◌, ◌-◌, ◌*◌, ◌%◌, ◌^◌, Bool, true, false, not, ◌&&◌, ◌||◌, none, some, List, [],
  ◌∷◌, ◌++◌,
}
use hacker_sprint2_sim.Common.Tests.{ltb, ◌==◌, same, if◌then◌else◌}
use hacker_sprint2_sim.Common.Lists.{length}
use hacker_sprint2_sim.Common.Map.{Map, lookup, insert, has}
use hacker_sprint2_sim.Common.Result.{Result, ok, err, and_then}
use hacker_sprint2_sim.Model.Types.{Time}
use hacker_sprint2_sim.Events.{Event, fact, run_ended}
use hacker_sprint2_sim.Stream.{StoredEvent}
use hacker_sprint2_sim.Summary.{RunSummaryProjection, new_run_summary_projection, apply_summary}
use hacker_sprint2_sim.Journal.{
  JournalError, version_discontinuity, invalid_begin, part_without_begin, incomplete_transaction,
  duplicate_request, unknown_request, unknown_kind,
}
use hacker_sprint2_sim.Journal.Bytes.{Bytes, get_uint, slice}
use hacker_sprint2_sim.Journal.Audit.{
  AgentRequestReceived, AgentRequestCompleted, AgentRequestAudit, AuditCodec,
}
use hacker_sprint2_sim.Journal.Batch.{EventCodec, decode_domain_batch}
use hacker_sprint2_sim.Journal.Format.{
  Frame, kind_domain_events, kind_request_received, kind_request_completed, kind_domain_begin,
  kind_domain_part, kind_domain_commit,
}

-- runStream, without its lock, its directory and the fields of the cache of runs.
pub record RunStream : Type 0 where
  pub next_sequence : ℕ
  pub domain_version : ℕ
  pub active_segment : ℕ
  pub active_size : ℕ
  pub events : List StoredEvent
  pub requests : List AgentRequestAudit
  pub request_indexes : Map ℕ
  pub pending_events : List StoredEvent
  pub pending_first_version : ℕ
  pub pending_event_count : ℕ
  pub summary : RunSummaryProjection
  pub real_started_at : Time
  pub real_completed_at : Time

-- What `initialize` resets a stream to.
abbrev pub empty_stream : RunStream
empty_stream = record {
  next_sequence = 0;
  domain_version = 0;
  active_segment = 1;
  active_size = 0;
  events = [];
  requests = [];
  request_indexes = [];
  pending_events = [];
  pending_first_version = 0;
  pending_event_count = 0;
  summary = new_run_summary_projection;
  real_started_at = 0;
  real_completed_at = 0;
}

-- 1970-01-01, in nanoseconds from the zero time.
abbrev pub unix_epoch : ℕ
unix_epoch = 62_135_596_800_000_000_000

-- uint64(at.UnixNano())
unfoldable pub unix_nano : Time → ℕ
unix_nano at = (at + 4 * 2 ^ 64 - unix_epoch) % 2 ^ 64

-- time.Unix(0, int64(nanos))
unfoldable pub time_of_unix : ℕ → Time
time_of_unix nanos = if ltb nanos (2 ^ 63) then nanos + unix_epoch else nanos + unix_epoch - 2 ^ 64

-- applySummaryEvent
unfoldable pub is_run_ended : Event → Bool
is_run_ended (fact (run_ended e)) = true
is_run_ended _ = false

unfoldable pub apply_summary_event : Time → StoredEvent → RunStream → RunStream
apply_summary_event recorded_at r stream =
    let applied = record stream { summary = apply_summary stream.summary r } in
    if is_run_ended r.event && (applied.real_completed_at == 0)
    then record applied { real_completed_at = recorded_at }
    else applied

unfoldable pub apply_summary_events : Time → List StoredEvent → RunStream → RunStream
apply_summary_events recorded_at [] stream = stream
apply_summary_events recorded_at (r ∷ rs) stream =
    apply_summary_events recorded_at rs (apply_summary_event recorded_at r stream)

-- applySummaryRequest
unfoldable pub apply_summary_request : AgentRequestReceived → RunStream → RunStream
apply_summary_request request stream =
    if same request.method "POST"
      && same request.path "/v2/start"
      && ((stream.real_started_at == 0) || ltb request.received_at stream.real_started_at)
    then record stream { real_started_at = request.received_at }
    else stream

-- records[len(records)-1].Version, or `otherwise` where there is none.
unfoldable pub last_version : ℕ → List StoredEvent → ℕ
last_version otherwise [] = otherwise
last_version otherwise (r ∷ rs) = last_version r.version rs

-- len(records) > 0 && records[0].Version != expected
unfoldable pub starts_elsewhere : ℕ → List StoredEvent → Bool
starts_elsewhere expected [] = false
starts_elsewhere expected (r ∷ rs) = not (r.version == expected)

-- stream.requests[index].Completed = &completion
unfoldable pub complete_at :
    ℕ → AgentRequestCompleted → List AgentRequestAudit → List AgentRequestAudit
complete_at i completion [] = []
complete_at zero completion (a ∷ more) = (record a { completed = some completion }) ∷ more
complete_at (suc i) completion (a ∷ more) = a ∷ complete_at i completion more

-- stream.domainVersion + 1
abbrev pub next_version : RunStream → ℕ
next_version stream = (stream.domain_version + 1) % 2 ^ 64

-- case kindDomainEvents
unfoldable pub apply_domain_events :
    Time → List StoredEvent → RunStream → Result JournalError RunStream
apply_domain_events recorded_at records stream =
    if starts_elsewhere (next_version stream) records
    then err version_discontinuity
    else let grown = record stream { events = stream.events ++ records } in
      let summarised = apply_summary_events recorded_at records grown in
      ok (record summarised { domain_version = last_version summarised.domain_version records })

-- case kindDomainBegin
unfoldable pub apply_domain_begin : Bytes → RunStream → Result JournalError RunStream
apply_domain_begin payload stream =
    if not (length payload == 16)
    then err invalid_begin
    else let begun = record stream {
      pending_first_version = get_uint (slice 0 8 payload);
      pending_event_count = get_uint (slice 8 8 payload);
      pending_events = [];
    } in
      if not (begun.pending_first_version == next_version begun)
      then err version_discontinuity
      else ok begun

-- case kindDomainPart, once its payload is decoded.
unfoldable pub apply_domain_part : List StoredEvent → RunStream → Result JournalError RunStream
apply_domain_part records stream =
    let expected = (stream.pending_first_version + length stream.pending_events) % 2 ^ 64 in
    if (length records == 0) || starts_elsewhere expected records
    then err version_discontinuity
    else ok (record stream { pending_events = stream.pending_events ++ records })

-- case kindDomainCommit
unfoldable pub apply_domain_commit : Time → RunStream → Result JournalError RunStream
apply_domain_commit recorded_at stream =
    if (stream.pending_event_count == 0)
      || not (length stream.pending_events == stream.pending_event_count)
    then err incomplete_transaction
    else let grown = record stream { events = stream.events ++ stream.pending_events } in
      let summarised = apply_summary_events recorded_at grown.pending_events grown in
      ok (record summarised {
        domain_version = last_version summarised.domain_version summarised.pending_events;
        pending_events = [];
        pending_first_version = 0;
        pending_event_count = 0;
      })

-- case kindRequestReceived, once its payload is decoded.
unfoldable pub apply_received : AgentRequestReceived → RunStream → Result JournalError RunStream
apply_received request stream =
    if has request.request_id stream.request_indexes
    then err duplicate_request
    else ok (
        apply_summary_request request (record stream {
          request_indexes =
              insert request.request_id (length stream.requests) stream.request_indexes;
          requests = stream.requests ++ (record { received = request; completed = none } ∷ []);
        }))

-- case kindRequestCompleted, once its payload is decoded.
unfoldable pub apply_completed : AgentRequestCompleted → RunStream → Result JournalError RunStream
apply_completed completion stream = elim (lookup completion.request_id stream.request_indexes) [
  | none ↦ err unknown_request
  | some index ↦ ok (record stream { requests = complete_at index completion stream.requests })
]

module _ (codec : EventCodec) (audit : AuditCodec) where
  -- applyFrame
  unfoldable pub apply_frame : Frame → RunStream → Result JournalError RunStream
  apply_frame value stream =
      if value.kind == kind_domain_events
      then and_then (decode_domain_batch codec value.payload)
          (λ records. apply_domain_events (time_of_unix value.recorded_at) records stream)
      else if value.kind == kind_domain_begin
      then apply_domain_begin value.payload stream
      else if value.kind == kind_domain_part
      then if stream.pending_event_count == 0
        then err part_without_begin
        else and_then (decode_domain_batch codec value.payload)
            (λ records. apply_domain_part records stream)
      else if value.kind == kind_domain_commit
      then apply_domain_commit (time_of_unix value.recorded_at) stream
      else if value.kind == kind_request_received
      then and_then (audit.unmarshal_received value.payload)
          (λ request. apply_received request stream)
      else if value.kind == kind_request_completed
      then and_then (audit.unmarshal_completed value.payload)
          (λ completion. apply_completed completion stream)
      else err unknown_kind
