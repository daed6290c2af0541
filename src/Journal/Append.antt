-- ===== src/Journal/Append.antt =====
-- Writing the journal: `appendFrame`, `closeSegment` and `Append` of internal/persistence/journal/store.go
-- on a run whose stream is initialised. zstd is lossless, so a closed segment stands as the bytes that
-- it decompresses to. What the context and the operating system refuse is a parameter: `faults` has for
-- each frame, by its sequence, the call that fails. `persistSummary` only writes the disposable cache.
pub mod Leaves
pub mod Frames
pub mod Memory
pub mod Trace
pub mod Disk
pub mod Parts
pub mod Last
pub mod Durable
pub mod Retry
use hacker_sprint2_sim.Common.{
  ℕ, zero, suc, ◌+◌, ◌-◌, ◌%◌, ◌^◌, Bool, true, false, not, ◌&&◌, Option, none, some, List, [], ◌∷◌,
  ◌++◌,
}
use hacker_sprint2_sim.Common.Tests.{ltb, leb, ◌==◌, if◌then◌else◌}
use hacker_sprint2_sim.Common.Lists.{length, take, drop}
use hacker_sprint2_sim.Common.Result.{Result, ok, err}
use hacker_sprint2_sim.Model.Types.{Time}
use hacker_sprint2_sim.Events.{Event}
use hacker_sprint2_sim.Stream.{StoredEvent}
use hacker_sprint2_sim.Journal.{
  JournalError, version_conflict, too_large, record_too_large, unavailable,
}
use hacker_sprint2_sim.Journal.Bytes.{Bytes, put_uint}
use hacker_sprint2_sim.Journal.Format.{
  Frame, encode_frame, kind_domain_events, kind_domain_begin, kind_domain_part, kind_domain_commit,
}
use hacker_sprint2_sim.Journal.Batch.{EventCodec, encode_domain_batch}
use hacker_sprint2_sim.Journal.Stream.{RunStream, unix_nano, apply_summary_event}

-- The files of a run: the closed segments with their numbers, the content of the active segment, and
-- the compressed segment of the same number, where closeSegment could not remove its source.
pub record RunFiles : Type 0 where
  pub closed : List (ℕ × Bytes)
  pub active : Bytes
  pub copy : Option Bytes

-- The call that fails while a frame is appended: none, ctx.Err, one of closeSegment before its last,
-- that last one (os.Remove of the source), os.OpenFile, or file.Write, file.Sync or file.Close. The last
-- leave that many bytes of the frame in the file, all of them where the write was whole.
pub data Fault : Type 0 where
  no_fault context_done not_closed not_removed not_opened : Fault
  not_stored : ℕ → Fault

pub record JournalState : Type 0 where
  pub stream : RunStream
  pub files : RunFiles

-- What a call leaves, with its error where it has one.
pub data Written : Type 0 where
  written : JournalState → Written
  write_failed : JournalError → JournalState → Written

-- if err := ...; err != nil { return nil, err }
unfoldable pub then_write : Written → (JournalState → Written) → Written
then_write (written s) k = k s
then_write (write_failed e s) k = write_failed e s

-- payload, err := ...; if err != nil { return nil, err }
unfoldable pub needs_payload :
    Result JournalError Bytes → JournalState → (Bytes → Written) → Written
needs_payload (err e) s k = write_failed e s
needs_payload (ok payload) s k = k payload

-- closeSegment. The rename replaces a compressed segment that is there.
unfoldable pub close_segment : Fault → JournalState → Written
close_segment not_closed s = write_failed unavailable s
close_segment not_removed s =
    write_failed unavailable (record s { files = record (s.files) { copy = some s.files.active } })
close_segment _ s = written (record s {
  files = record {
    closed = s.files.closed ++ ((s.stream.active_segment, s.files.active) ∷ []);
    active = [];
    copy = none;
  };
})

-- stream.activeSegment++ and stream.activeSize = 0
abbrev pub next_segment : JournalState → JournalState
next_segment s = record s {
  stream = record (s.stream) {
    active_segment = (s.stream.active_segment + 1) % 2 ^ 64;
    active_size = 0;
  };
}

-- if stream.activeSize > 0 && stream.activeSize+int64(len(value)) > s.segmentSize
unfoldable pub rotate : Fault → ℕ → ℕ → JournalState → Written
rotate fault segment_size size s =
    if ltb 0 s.stream.active_size && ltb segment_size (s.stream.active_size + size)
    then then_write (close_segment fault s) (λ t. written (next_segment t))
    else written s

-- The file is opened, written, synced and closed, and then the two counters grow.
unfoldable pub write_value : Fault → Bytes → JournalState → Written
write_value not_opened value s = write_failed unavailable s
write_value (not_stored n) value s =
    write_failed unavailable
      (record s { files = record (s.files) { active = s.files.active ++ take n value } })
write_value _ value s = written (record {
  stream = record (s.stream) {
    active_size = s.stream.active_size + length value;
    next_sequence = (s.stream.next_sequence + 1) % 2 ^ 64;
  };
  files = record (s.files) { active = s.files.active ++ value };
})

-- ctx.Err() != nil
unfoldable pub is_done : Fault → Bool
is_done context_done = true
is_done _ = false

-- The frame that `appendFrame` encodes.
abbrev pub next_frame : ℕ → Time → Bytes → RunStream → Frame
next_frame kind at payload stream = record {
  kind = kind;
  sequence = (stream.next_sequence + 1) % 2 ^ 64;
  recorded_at = unix_nano at;
  payload = payload;
}

abbrev pub events_per_part : ℕ
events_per_part = 10_000

-- The loop at the end of `Append`.
unfoldable pub remember : Time → List Event → RunStream → RunStream
remember recorded_at [] stream = stream
remember recorded_at (event ∷ events) stream =
    let version = (stream.domain_version + 1) % 2 ^ 64 in
    let r : StoredEvent = record { version = version; event = event } in
    remember recorded_at events (
      apply_summary_event recorded_at r
        (record stream { domain_version = version; events = stream.events ++ (r ∷ []) }))

module _ (checksum : Bytes → ℕ) (codec : EventCodec) (segment_size : ℕ) (faults : ℕ → Fault) where
  -- appendFrame
  unfoldable pub append_frame : ℕ → Time → Bytes → JournalState → Written
  append_frame kind at payload s =
      let fault = faults (s.stream.next_sequence + 1) in
      if is_done fault
      then write_failed unavailable s
      else if ltb (2 ^ 32 - 1) (length payload)
      then write_failed too_large s
      else let value = encode_frame checksum (next_frame kind at payload s.stream) in
        if ltb segment_size (length value)
        then write_failed record_too_large s
        else then_write (rotate fault segment_size (length value) s) (write_value fault value)

  -- The loop over the parts, with the first version of the part and the rounds that are left.
  unfoldable pub write_parts : ℕ → ℕ → Time → List Event → JournalState → Written
  write_parts zero first at events s = written s
  write_parts (suc rounds) first at [] s = written s
  write_parts (suc rounds) first at (e ∷ es) s =
      needs_payload (encode_domain_batch codec (first % 2 ^ 64) (take events_per_part (e ∷ es))) s
        (λ payload.
          then_write (append_frame kind_domain_part at payload s)
            (write_parts rounds (first + events_per_part) at (drop events_per_part (e ∷ es))))

  -- The frames of `Append`, recorded at `at`, or at `end` where the code reads the clock again.
  unfoldable pub write_events : ℕ → Time → Time → List Event → JournalState → Written
  write_events expected at end events s =
      if leb (length events) events_per_part
      then needs_payload (encode_domain_batch codec ((expected + 1) % 2 ^ 64) events) s
          (λ payload. append_frame kind_domain_events end payload s)
      else then_write
          (append_frame kind_domain_begin at
            (put_uint 8 (expected + 1) ++ put_uint 8 (length events)) s)
          (λ begun.
            then_write (write_parts (length events) (expected + 1) at events begun)
              (append_frame kind_domain_commit end []))

  -- Append
  unfoldable pub append : ℕ → Time → Time → List Event → JournalState → Written
  append expected at end new_events s =
      if not (s.stream.domain_version == expected)
      then write_failed version_conflict s
      else if length new_events == 0
      then written s
      else then_write (write_events expected at end new_events s)
          (λ t. written (record t { stream = remember end new_events t.stream }))
