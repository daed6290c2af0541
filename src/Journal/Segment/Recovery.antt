-- ===== src/Journal/Segment/Recovery.antt =====
-- What `readSegment` of internal/persistence/journal/store.go recovers from a segment whose last write
-- was torn.
use hacker_sprint2_sim.Common.{
  some, ℕ, suc, ◌+◌, ◌-◌, ◌<◌, ◌≤◌, ◌≡◌, ◌∙◌, false, ◌||◌, List, [], ◌∷◌, ◌++◌, arith, inl, inr,
}
use hacker_sprint2_sim.Common.Tests.{◌==◌, if◌then◌else◌, Bool-cases}
use hacker_sprint2_sim.Common.Lists.{length, length-append, take-append_length, All}
use hacker_sprint2_sim.Common.Result.{ok, and_then}
use hacker_sprint2_sim.Journal.{JournalError, eof, unexpected_eof}
use hacker_sprint2_sim.Journal.Bytes.{Bytes}
use hacker_sprint2_sim.Journal.Format.{
  Frame, read_failed, read_frame, encode_header, encode_frame, header_size, trailer_size,
}
use hacker_sprint2_sim.Journal.Format.Torn.{read_frame-torn, torn_body}
use hacker_sprint2_sim.Journal.Format.RoundTrip.{after_header}
use hacker_sprint2_sim.Journal.Batch.{EventCodec}
use hacker_sprint2_sim.Journal.Audit.{AuditCodec}
use hacker_sprint2_sim.Journal.Stream.{RunStream}
use hacker_sprint2_sim.Journal.Segment.{ended, read_loop, read_stopped, read_segment}
use hacker_sprint2_sim.Journal.Segment.Frames.{
  IsWritten, encode_frames, accept_frames, read_loop-encode_frames, length-encode_frame,
}

-- A frame takes at least one byte.
pub length-encode_frames :
    (checksum : Bytes → ℕ) (fs : List Frame) → length fs ≤ length (encode_frames checksum fs)
unfolding encode_frames
length-encode_frames checksum [] = omega arith
length-encode_frames checksum (f ∷ fs) = omega (
  arith,
  length-append (encode_frame checksum f) (encode_frames checksum fs),
  length-encode_frame checksum f,
  length-encode_frames checksum fs,
)

module _ (checksum : Bytes → ℕ) (codec : EventCodec) (audit : AuditCodec) where
  -- Frames that are all accepted, and then a tail that is no frame.
  stops :
      (fs : List Frame) (tail rest : Bytes) (e : JournalError) (stream after : RunStream)
      → All (IsWritten checksum) fs
      → accept_frames codec audit fs stream ≡ ok after
      → read_frame checksum tail ≡ read_failed e rest
      → read_loop checksum codec audit
          (suc (length (encode_frames checksum fs ++ tail)))
          false
          (encode_frames checksum fs ++ tail)
          0
          stream
        ≡ some (read_stopped false e rest (length (encode_frames checksum fs)) after)
  unfolding read_loop
  stops fs tail rest e stream after w h r =
      let written = encode_frames checksum fs in
      let left = length (written ++ tail) - length fs in
      read_loop-encode_frames checksum codec audit fs (suc (length (written ++ tail))) (suc left)
        false tail 0 stream after w h
        (omega (arith, length-append written tail, length-encode_frames checksum fs))
      ∙ ground (arith)

  -- What is left of the file: a torn frame is cut off unless `readFrame` answers `io.EOF` for it.
  abbrev pub recovered : List Frame → Bytes → Bytes
  recovered fs front =
      if (length front == 0) || (length front == header_size)
      then encode_frames checksum fs ++ front
      else encode_frames checksum fs

  -- However many bytes of the last frame were written, all frames before it are read back, and the
  -- segment is cut behind them, except where exactly the header of the last frame was written: then
  -- the header stays in the file.
  pub read_segment-torn :
      (fs : List Frame) (f : Frame) (front : Bytes) (x : ℕ) (back : Bytes)
      (stream after : RunStream)
      → All (IsWritten checksum) fs
      → accept_frames codec audit fs stream ≡ ok after
      → IsWritten checksum f
      → encode_frame checksum f ≡ front ++ (x ∷ back)
      → read_segment checksum codec audit false (encode_frames checksum fs ++ front) stream
        ≡ ok (after, recovered fs front)
  unfolding read_segment read_stopped ended and_then
  read_segment-torn fs f front x back stream after w h last e =
      let cut = read_frame-torn checksum f front x back last.is_frame e in
      elim (Bool-cases ((length front == 0) || (length front == header_size))) [
        | inl at_eof ↦
            let stopped = stops fs front [] eof stream after w h (ground (arith)) in ground (arith)
        | inr inside ↦
            let stopped = stops fs front [] unexpected_eof stream after w h (ground (arith)) in
            let kept = take-append_length (encode_frames checksum fs) front in ground (arith)
      ]

  -- A header that stayed in the file makes the next replay drop a frame that was written whole behind
  -- it, where that frame is shorter than the payload that the header announces.
  pub read_segment-orphan_header :
      (fs : List Frame) (f g : Frame) (stream after : RunStream)
      → All (IsWritten checksum) fs
      → accept_frames codec audit fs stream ≡ ok after
      → IsWritten checksum f
      → length (encode_frame checksum g) < length f.payload + trailer_size
      → read_segment checksum codec audit false
          (encode_frames checksum fs ++ (encode_header f ++ encode_frame checksum g))
          stream
        ≡ ok (after, encode_frames checksum fs)
  unfolding read_segment read_stopped ended and_then
  read_segment-orphan_header fs f g stream after w h orphan short =
      let tail = encode_header f ++ encode_frame checksum g in
      let read =
        after_header checksum f (encode_frame checksum g) orphan.is_frame
        ∙ torn_body checksum f (encode_frame checksum g) short in
      let stopped =
        stops fs tail [] unexpected_eof stream after w h
          (ground (arith, length-encode_frame checksum g)) in
      let kept = take-append_length (encode_frames checksum fs) tail in ground (arith)
