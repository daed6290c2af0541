-- ===== src/Journal/Segment/Termination.antt =====
-- The loop of `readSegment` ends with the file: internal/persistence/journal/store.go, and `readFrame`
-- of format.go.
use mathlib.Core.Path.{subst}
use hacker_sprint2_sim.Common.{
  ℕ, zero, suc, ◌+◌, ◌<◌, ◌≡◌, refl, ap, Bool, ◌&&◌, Option, some, [], ◌∷◌, ◌++◌, arith, inl, inr,
  ◌⊎◌,
}
use hacker_sprint2_sim.Common.Tests.{◌==◌, Option-cases, Bool-cases}
use hacker_sprint2_sim.Common.Lists.{length, length-append, take, drop}
use hacker_sprint2_sim.Common.Result.{Result, err, Result-cases}
use hacker_sprint2_sim.Journal.{JournalError, invalid_header}
use hacker_sprint2_sim.Journal.Bytes.{Bytes, get_uint, slice, split_at, split_at-some, bytes_equal}
use hacker_sprint2_sim.Journal.Format.{
  Frame, FrameRead, frame_read, read_failed, read_frame, read_body, check_payload, header_size,
  trailer_size, short_read, frame_magic, format_version,
}
use hacker_sprint2_sim.Journal.Batch.{EventCodec}
use hacker_sprint2_sim.Journal.Audit.{AuditCodec}
use hacker_sprint2_sim.Journal.Stream.{RunStream}
use hacker_sprint2_sim.Journal.Segment.{accept_frame, read_stopped, unless_refused, read_loop}

-- The size that is answered is what was read.
Measures : Bytes → FrameRead → Type 0
Measures bs (read_failed e rest) = Unit {0}
Measures bs (frame_read f size rest) = (length bs ≡ size + length rest) × (0 < size)

failed-Measures : (bs : Bytes) (e : JournalError) (rest : Bytes) → Measures bs (read_failed e rest)
unfolding Measures
failed-Measures bs e rest = tt

module _ (checksum : Bytes → ℕ) where
  short_read-Measures : (whole bs : Bytes) → Measures whole (short_read bs)
  unfolding Measures
  short_read-Measures whole [] = tt
  short_read-Measures whole (b ∷ bs) = tt

  check_payload-Measures :
      (bs header : Bytes) (n : ℕ) (payload crc rest : Bytes)
      → length bs ≡ header_size + n + trailer_size + length rest
      → Measures bs (check_payload checksum header n payload crc rest)
  unfolding check_payload Measures
  check_payload-Measures bs header n payload crc rest h =
      elim (Bool-cases (checksum (header ++ payload) == get_uint crc)) [
        | inl e ↦ rw e (h, omega arith)
        | inr e ↦ rw e tt
      ]

  read_body-Measures :
      (bs header : Bytes) (n : ℕ) (more : Bytes)
      → length bs ≡ header_size + length more
      → Measures bs (read_body checksum header n more)
  unfolding read_body
  read_body-Measures bs header n more h = elim (Option-cases (split_at (n + trailer_size) more)) [
    | inl e ↦ subst (Measures bs) (ground (arith)) (short_read-Measures bs more)
    | inr ((body, rest), e) ↦
        let found = split_at-some (n + trailer_size) more body rest e in
        subst (Measures bs) (ground (arith)) (
          check_payload-Measures bs header n (take n body) (drop n body) rest
            (omega (arith, ap length found.0, length-append body rest)))
  ]

  read_frame-Measures : (bs : Bytes) → Measures bs (read_frame checksum bs)
  unfolding read_frame
  read_frame-Measures bs = elim (Option-cases (split_at header_size bs)) [
    | inl e ↦ subst (Measures bs) (ground (arith)) (short_read-Measures bs bs)
    | inr ((header, rest), e) ↦
        let found = split_at-some header_size bs header rest e in
        elim (Bool-cases (
          bytes_equal (take 4 header) frame_magic
          && (get_uint (slice 4 1 header) == format_version))) [
            | inl valid ↦ subst (Measures bs) (ground (arith)) (
                read_body-Measures bs header (get_uint (slice 24 4 header)) rest
                  (omega (arith, ap length found.0, length-append header rest)))
            | inr invalid ↦
                subst (Measures bs) {x = read_failed invalid_header rest} (ground (arith))
                  (failed-Measures bs invalid_header rest)
          ]
  ]

  -- A frame that is read is as long as its size says, which is what the offset grows by.
  pub read_frame-size :
      (bs rest : Bytes) (f : Frame) (size : ℕ)
      → read_frame checksum bs ≡ frame_read f size rest
      → (length bs ≡ size + length rest) × (0 < size)
  unfolding Measures
  read_frame-size bs rest f size h = subst (Measures bs) h (read_frame-Measures bs)

FrameRead-cases :
    (r : FrameRead)
    → ((e : JournalError) × (rest : Bytes) × (r ≡ read_failed e rest))
      ⊎ ((f : Frame) × (size : ℕ) × (rest : Bytes) × (r ≡ frame_read f size rest))
FrameRead-cases (read_failed e rest) = inl (e, rest, refl)
FrameRead-cases (frame_read f size rest) = inr (f, size, rest, refl)

module _ (checksum : Bytes → ℕ) (codec : EventCodec) (audit : AuditCodec) where
  -- The loop of readSegment ends: it gives its answer within one round more than the file has
  -- bytes, whatever these are, since every frame that is read is as long as the size by which
  -- the offset grows.
  pub read_loop-enough :
      (fuel : ℕ) (compressed : Bool) (bs : Bytes) (valid : ℕ) (stream : RunStream)
      → length bs < fuel
      → (answer : Result JournalError (RunStream × Option ℕ)) × (read_loop checksum codec audit fuel
            compressed bs valid stream
          ≡ some answer)
  unfolding read_loop unless_refused
  read_loop-enough zero compressed bs valid stream h = absurd (omega arith)
  read_loop-enough (suc fuel) compressed bs valid stream h =
      elim (FrameRead-cases (read_frame checksum bs)) [
        | inl (e, rest, r) ↦ (read_stopped compressed e rest valid stream, ground (arith))
        | inr (f, size, rest, r) ↦
            let shorter = read_frame-size checksum bs rest f size r in
            elim (Result-cases (accept_frame codec audit f stream)) [
              | inl (e, a) ↦ (err e, ground (arith))
              | inr (after, a) ↦
                  let (answer, found) =
                    read_loop-enough fuel compressed rest (valid + size) after (omega arith) in
                  (answer, ground (arith))
            ]
      ]
