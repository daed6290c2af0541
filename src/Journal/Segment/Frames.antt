-- ===== src/Journal/Segment/Frames.antt =====
-- The frames of a segment one after another: what `appendFrame` has written, and what the loop of
-- `readSegment` does with it, in internal/persistence/journal/store.go.
use mathlib.Core.List.{append_assoc}
use hacker_sprint2_sim.Common.{
  ℕ, zero, suc, ◌+◌, ◌<◌, ◌^◌, ◌≡◌, sym, ap, ◌∙◌, Bool, List, [], ◌∷◌, ◌++◌, arith,
}
use hacker_sprint2_sim.Common.Lists.{length, length-append, All}
use hacker_sprint2_sim.Common.Result.{Result, ok, and_then, and_then-ok, ok-injective}
use hacker_sprint2_sim.Journal.{JournalError}
use hacker_sprint2_sim.Journal.Bytes.{Bytes, put_uint, length-put_uint}
use hacker_sprint2_sim.Journal.Format.{
  Frame, IsFrame, encode_header, encode_frame, header_size, trailer_size,
}
use hacker_sprint2_sim.Journal.Format.RoundTrip.{read_frame-encode_frame, length-encode_header}
use hacker_sprint2_sim.Journal.Batch.{EventCodec}
use hacker_sprint2_sim.Journal.Audit.{AuditCodec}
use hacker_sprint2_sim.Journal.Stream.{RunStream}
use hacker_sprint2_sim.Journal.Segment.{unless_refused, accept_frame, read_loop}

module _ (checksum : Bytes → ℕ) where
  -- A frame whose fields have their widths, and a checksum of 32 bits.
  pub record IsWritten (f : Frame) : Type 0 where
    pub is_frame : IsFrame f
    pub checksum_fits : checksum (encode_header f ++ f.payload) < 256 ^ 4

  -- The bytes of a segment.
  unfoldable pub encode_frames : List Frame → Bytes
  encode_frames [] = []
  encode_frames (f ∷ fs) = encode_frame checksum f ++ encode_frames fs

  pub length-encode_frame :
      (f : Frame) → length (encode_frame checksum f) ≡ header_size + length f.payload + trailer_size
  unfolding encode_frame
  length-encode_frame f =
      let checked = encode_header f ++ f.payload in
      omega (
        arith,
        length-append checked (put_uint 4 (checksum checked)),
        length-append (encode_header f) f.payload,
        length-encode_header checksum f,
        length-put_uint 4 (checksum checked),
      )

module _ (codec : EventCodec) (audit : AuditCodec) where
  -- The frames applied one after another.
  unfoldable pub accept_frames : List Frame → RunStream → Result JournalError RunStream
  accept_frames [] stream = ok stream
  accept_frames (f ∷ fs) stream =
      and_then (accept_frame codec audit f stream) (λ accepted. accept_frames fs accepted)

module _ (checksum : Bytes → ℕ) (codec : EventCodec) (audit : AuditCodec) where
  read_loop-step :
      (f : Frame) (fuel : ℕ) (compressed : Bool) (bs : Bytes) (valid : ℕ) (stream after : RunStream)
      → IsWritten checksum f
      → accept_frame codec audit f stream ≡ ok after
      → read_loop checksum codec audit
          (suc fuel)
          compressed
          (encode_frame checksum f ++ bs)
          valid
          stream
        ≡ read_loop checksum codec audit fuel compressed bs
            (valid + length (encode_frame checksum f))
            after
  unfolding read_loop unless_refused
  read_loop-step f fuel compressed bs valid stream after w h = ground (
    arith,
    read_frame-encode_frame checksum f bs w.is_frame w.checksum_fits,
    length-encode_frame checksum f,
  )

  -- The loop takes the frames off one by one, and goes on with what follows them.
  pub read_loop-encode_frames :
      (fs : List Frame) (fuel left : ℕ) (compressed : Bool) (tail : Bytes) (valid : ℕ)
      (stream after : RunStream)
      → All (IsWritten checksum) fs
      → accept_frames codec audit fs stream ≡ ok after
      → fuel ≡ length fs + left
      → read_loop checksum codec audit fuel compressed
          (encode_frames checksum fs ++ tail)
          valid
          stream
        ≡ read_loop checksum codec audit left compressed tail
            (valid + length (encode_frames checksum fs))
            after
  unfolding accept_frames encode_frames
  read_loop-encode_frames [] fuel left compressed tail valid stream after w h m =
      let same_fuel : fuel ≡ left = omega arith in
      let same_offset : valid ≡ valid + 0 = omega arith in
      rw same_fuel (
        rw (sym same_offset)
          (ap (read_loop checksum codec audit left compressed tail valid) (ok-injective h)))
  read_loop-encode_frames (f ∷ fs) zero left compressed tail valid stream after w h m =
      absurd (omega arith)
  read_loop-encode_frames (f ∷ fs) (suc fuel) left compressed tail valid stream after w h m =
      let first = and_then-ok (accept_frame codec audit f stream) _ h in
      let frame_bytes = encode_frame checksum f in
      let more = encode_frames checksum fs in
      let offsets : valid + length frame_bytes + length more
          ≡ valid + length (frame_bytes ++ more) =
        omega (arith, length-append frame_bytes more) in
      ap (λ bs. read_loop checksum codec audit (suc fuel) compressed bs valid stream)
        (append_assoc frame_bytes more tail)
      ∙ read_loop-step f fuel compressed (more ++ tail) valid stream first.0 w.0 first.1
      ∙ read_loop-encode_frames fs fuel left compressed tail (valid + length frame_bytes) first.0
          after w.1 first.2 (omega arith)
      ∙ ap (λ n. read_loop checksum codec audit left compressed tail n after) offsets
