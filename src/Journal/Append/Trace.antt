-- ===== src/Journal/Append/Trace.antt =====
-- The frames that a call of `Append` of internal/persistence/journal/store.go has written so far, and
-- the stream that a replay of the files has then.
use mathlib.Core.List.{append_assoc, append-nil}
use mathlib.Core.Path.{subst}
use hacker_sprint2_sim.Common.{
  ℕ, ◌+◌, ◌<◌, ◌%◌, ◌^◌, ◌≡◌, refl, sym, ap, ◌∙◌, none, List, [], ◌∷◌, ◌++◌, arith,
}
use hacker_sprint2_sim.Common.Lists.{All, length}
use hacker_sprint2_sim.Common.Result.{ok, and_then, and_then-ok, ok-injective}
use hacker_sprint2_sim.Model.Types.{Time}
use hacker_sprint2_sim.Journal.Bytes.{Bytes}
use hacker_sprint2_sim.Journal.Format.{Frame, encode_header, encode_frame}
use hacker_sprint2_sim.Journal.Batch.{EventCodec}
use hacker_sprint2_sim.Journal.Audit.{AuditCodec}
use hacker_sprint2_sim.Journal.Stream.{RunStream, apply_frame, unix_nano}
use hacker_sprint2_sim.Journal.Segment.{accept_frame, check_sequence}
use hacker_sprint2_sim.Journal.Segment.Frames.{IsWritten, encode_frames, accept_frames}
use hacker_sprint2_sim.Journal.Append.{JournalState, next_frame}
use hacker_sprint2_sim.Journal.Append.Frames.{content, Grown}

nano_fits : (at : Time) → unix_nano at < 256 ^ 8
unfolding unix_nano
nano_fits at = omega arith

module _ (checksum : Bytes → ℕ) where
  encode_frames-append :
      (fs gs : List Frame)
      → encode_frames checksum (fs ++ gs) ≡ encode_frames checksum fs ++ encode_frames checksum gs
  unfolding encode_frames
  encode_frames-append [] gs = refl
  encode_frames-append (f ∷ fs) gs =
      ap (λ r. encode_frame checksum f ++ r) (encode_frames-append fs gs)
      ∙ sym (
          append_assoc (encode_frame checksum f) (encode_frames checksum fs)
            (encode_frames checksum gs))

  pub one_more :
      (fs : List Frame) (f : Frame)
      → encode_frames checksum (fs ++ (f ∷ []))
        ≡ encode_frames checksum fs ++ encode_frame checksum f
  unfolding encode_frames
  one_more fs f =
      encode_frames-append fs (f ∷ [])
      ∙ ap (λ bs. encode_frames checksum fs ++ bs) (append-nil (encode_frame checksum f))

  pub next_frame-IsWritten :
      (crc : (bs : Bytes) → checksum bs < 256 ^ 4) (kind : ℕ) (at : Time) (payload : Bytes)
      (stream : RunStream)
      → kind < 256
      → length payload < 256 ^ 4
      → IsWritten checksum (next_frame kind at payload stream)
  next_frame-IsWritten crc kind at payload stream byte small = record {
    is_frame = record {
      kind_fits = byte;
      sequence_fits = omega arith;
      recorded_at_fits = nano_fits at;
      payload_fits = small;
    };
    checksum_fits = crc (encode_header (next_frame kind at payload stream) ++ payload);
  }

  append-IsWritten :
      (fs : List Frame) (f : Frame)
      → All (IsWritten checksum) fs
      → IsWritten checksum f
      → All (IsWritten checksum) (fs ++ (f ∷ []))
  append-IsWritten [] f w h = (h, tt)
  append-IsWritten (g ∷ fs) f w h = (w.0, append-IsWritten fs f w.1 h)

module _ (codec : EventCodec) (audit : AuditCodec) where
  accept_frame-ok :
      (f : Frame) (v w : RunStream)
      → f.sequence ≡ (v.next_sequence + 1) % 2 ^ 64
      → apply_frame codec audit f v ≡ ok w
      → accept_frame codec audit f v ≡ ok (record w { next_sequence = f.sequence })
  unfolding accept_frame check_sequence and_then
  accept_frame-ok f v w h k = ground (arith)

  accept_frames-append :
      (fs : List Frame) (f : Frame) (u v w : RunStream)
      → accept_frames codec audit fs u ≡ ok v
      → accept_frame codec audit f v ≡ ok w
      → accept_frames codec audit (fs ++ (f ∷ [])) u ≡ ok w
  unfolding accept_frames and_then
  accept_frames-append [] f u v w h k =
      subst (λ x. and_then (accept_frame codec audit f x) (accept_frames codec audit []) ≡ ok w)
        (sym (ok-injective h)) (ground (arith))
  accept_frames-append (g ∷ fs) f u v w h k =
      let first = and_then-ok (accept_frame codec audit g u) _ h in
      ground (arith, accept_frames-append fs f first.0 v w first.2 k)

module _ (checksum : Bytes → ℕ) (codec : EventCodec) (audit : AuditCodec) where
  -- From `start`, of whose files a replay makes `u`, some frames were written; a replay now makes `v`.
  pub record Trace (start : JournalState) (u : RunStream) (s : JournalState) (v : RunStream)
      : Type 0 where
    pub frames : List Frame
    pub grown : content s.files ≡ content start.files ++ encode_frames checksum frames
    pub all_written : All (IsWritten checksum) frames
    pub replayed : accept_frames codec audit frames u ≡ ok v
    pub in_one_file : s.files.copy ≡ none

  pub start-Trace : (s : JournalState) (u : RunStream) → s.files.copy ≡ none → Trace s u s u
  unfolding encode_frames accept_frames
  start-Trace s u h = record {
    in_one_file = h;
    frames = [];
    grown = (sym (append-nil (content s.files)));
    all_written = tt;
    replayed = refl;
  }

  module _ (crc : (bs : Bytes) → checksum bs < 256 ^ 4) where
    -- One more frame, which a replay applies.
    pub append_frame-Trace :
        {start s t : JournalState} {u v : RunStream} (w : RunStream) (kind : ℕ) (at : Time)
        (payload : Bytes)
        → Trace start u s v
        → v.next_sequence ≡ s.stream.next_sequence
        → kind < 256
        → apply_frame codec audit (next_frame kind at payload s.stream) v ≡ ok w
        → length payload < 256 ^ 4
        → Grown (encode_frame checksum (next_frame kind at payload s.stream)) s t
        → Trace start u t (record w { next_sequence = (s.stream.next_sequence + 1) % 2 ^ 64 })
    append_frame-Trace {start} {s} {t} {u} {v} w kind at payload trace sequence byte applied small
          grown =
        let f = next_frame kind at payload s.stream in
        record {
          in_one_file = grown.1;
          frames = trace.frames ++ (f ∷ []);
          grown =
              grown.0
              ∙ ap (λ bs. bs ++ encode_frame checksum f) trace.grown
              ∙ append_assoc (content start.files) (encode_frames checksum trace.frames)
                  (encode_frame checksum f)
              ∙ ap (λ bs. content start.files ++ bs) (sym (one_more checksum trace.frames f));
          all_written =
              append-IsWritten checksum trace.frames f trace.all_written
                (next_frame-IsWritten checksum crc kind at payload s.stream byte small);
          replayed =
              accept_frames-append codec audit trace.frames f u v
                (record w { next_sequence = f.sequence }) trace.replayed
                (accept_frame-ok codec audit f v w (ap (λ (n : ℕ). (n + 1) % 2 ^ 64) (sym sequence))
                  applied);
        }
