-- ===== src/Journal/Segment.antt =====
-- Reading a segment back: `readSegment` of internal/persistence/journal/store.go. A file is the
-- sequence of its bytes; the operating system does not fail. The loop runs on fuel, and the length of
-- the file is enough of it.
pub mod Frames
pub mod Termination
pub mod Recovery
use hacker_sprint2_sim.Common.{
  ℕ, zero, suc, ◌+◌, ◌%◌, ◌^◌, Bool, true, false, not, Option, none, some, List, [], ◌∷◌,
}
use hacker_sprint2_sim.Common.Tests.{◌==◌, if◌then◌else◌}
use hacker_sprint2_sim.Common.Lists.{length, take}
use hacker_sprint2_sim.Common.Result.{Result, ok, err, and_then}
use hacker_sprint2_sim.Journal.{JournalError, eof, sequence_gap, corrupt_segment, unavailable}
use hacker_sprint2_sim.Journal.Bytes.{Bytes}
use hacker_sprint2_sim.Journal.Format.{Frame, FrameRead, frame_read, read_failed, read_frame}
use hacker_sprint2_sim.Journal.Batch.{EventCodec}
use hacker_sprint2_sim.Journal.Audit.{AuditCodec}
use hacker_sprint2_sim.Journal.Stream.{RunStream, apply_frame}

-- value.sequence != stream.nextSequence+1
unfoldable pub check_sequence : Frame → RunStream → Result JournalError (Unit {0})
check_sequence value stream =
    if value.sequence == (stream.next_sequence + 1) % 2 ^ 64 then ok tt else err sequence_gap

-- The loop stops on an error, of a reader that has `rest` left. A torn tail of a plain segment is cut
-- off: the second component is the size that the file is truncated to.
unfoldable pub read_stopped :
    Bool → JournalError → Bytes → ℕ → RunStream → Result JournalError (RunStream × Option ℕ)
read_stopped compressed eof rest valid stream = ok (stream, none)
read_stopped true e rest valid stream = err e
read_stopped false e [] valid stream = ok (stream, some valid)
read_stopped false e (b ∷ bs) valid stream = err corrupt_segment

module _ (codec : EventCodec) (audit : AuditCodec) where
  -- applyFrame(value, stream), and stream.nextSequence = value.sequence
  unfoldable pub accept_frame : Frame → RunStream → Result JournalError RunStream
  accept_frame value stream = and_then (check_sequence value stream) (λ _.
      and_then (apply_frame codec audit value stream)
        (λ applied. ok (record applied { next_sequence = value.sequence })))

-- if err := ...; err != nil { return err }, in the loop
unfoldable pub unless_refused :
    {A B : Type 0}
    → Result JournalError A
    → (A → Option (Result JournalError B))
    → Option (Result JournalError B)
unless_refused (err e) rest = some (err e)
unless_refused (ok a) rest = rest a

-- A loop that has not ended has no answer of the code; this one stands for it.
unfoldable pub ended : {A : Type 0} → Option (Result JournalError A) → Result JournalError A
ended none = err unavailable
ended (some answer) = answer

module _ (checksum : Bytes → ℕ) (codec : EventCodec) (audit : AuditCodec) where
  -- The loop of `readSegment`, with the bytes that are left, and `validOffset`: `none` where it has not
  -- ended after so many rounds.
  unfoldable pub read_loop :
      ℕ → Bool → Bytes → ℕ → RunStream → Option (Result JournalError (RunStream × Option ℕ))
  read_loop zero compressed bs valid stream = none
  read_loop (suc fuel) compressed bs valid stream = elim (read_frame checksum bs) [
    | read_failed e rest ↦ some (read_stopped compressed e rest valid stream)
    | frame_read value size rest ↦
        unless_refused (accept_frame codec audit value stream)
          (λ accepted. read_loop fuel compressed rest (valid + size) accepted)
  ]

  -- readSegment: the stream, and what is left of the content.
  unfoldable pub read_segment : Bool → Bytes → RunStream → Result JournalError (RunStream × Bytes)
  read_segment compressed content stream =
      and_then (ended (read_loop (suc (length content)) compressed content 0 stream))
        (λ (read, cut). ok (read, elim cut [ none ↦ content | some valid ↦ take valid content ]))
