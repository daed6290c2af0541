-- ===== src/Journal/Append/Last.antt =====
-- The last frame of a call that changes the stream in memory once its frames are written:
-- internal/persistence/journal/store.go.
use mathlib.Core.Path.{subst}
use hacker_sprint2_sim.Common.{ℕ, ◌+◌, ◌<◌, ◌%◌, ◌^◌, ◌≡◌, refl, sym, ap, ◌∙◌, List, []}
use hacker_sprint2_sim.Common.Result.{ok}
use hacker_sprint2_sim.Common.Lists.{length}
use hacker_sprint2_sim.Model.Types.{Time}
use hacker_sprint2_sim.Stream.{StoredEvent}
use hacker_sprint2_sim.Journal.Bytes.{Bytes}
use hacker_sprint2_sim.Journal.Batch.{EventCodec}
use hacker_sprint2_sim.Journal.Audit.{AuditCodec}
use hacker_sprint2_sim.Journal.Stream.{RunStream, apply_frame}
use hacker_sprint2_sim.Journal.Append.{Fault, JournalState, next_frame, append_frame}
use hacker_sprint2_sim.Journal.Append.Trace.{Trace}
use hacker_sprint2_sim.Journal.Append.Disk.{moved, on_disk, Unchanged, IsKept, KeptWith, Cut-IsKept}
use hacker_sprint2_sim.Journal.Append.Frames.{append_frame-Leaves}
use hacker_sprint2_sim.Journal.Append.Leaves.{Leaves, map-Leaves}
use hacker_sprint2_sim.Journal.Append.Trace.{append_frame-Trace}

-- A change of a stream that does not look at its place in the files or a pending transaction.
pub record IsLocal (g : RunStream → RunStream) : Type 0 where
  pub moves :
      (n f c : ℕ) (p : List StoredEvent) (m : RunStream) → g (moved n f c p m) ≡ moved n f c p (g m)
  pub keeps : (m : RunStream) → (g m).next_sequence ≡ m.next_sequence

module _ (checksum : Bytes → ℕ) (codec : EventCodec) (audit : AuditCodec) where
  -- All frames of a call are written: a replay has what it adds, and the stream in memory not yet.
  pub record IsStored (start : JournalState) (u : RunStream) (g : RunStream → RunStream)
      (t : JournalState) : Type 0 where
    pub first : ℕ
    pub count : ℕ
    pub pending : List StoredEvent
    pub trace : Trace checksum codec audit start u t (on_disk first count pending (g t.stream))
    pub unchanged : Unchanged t start

module _ (checksum : Bytes → ℕ) (codec : EventCodec) (audit : AuditCodec) (segment_size : ℕ)
    (faults : ℕ → Fault) (crc : (bs : Bytes) → checksum bs < 256 ^ 4) where
  -- The frame that completes a call.
  pub last_frame-IsStored :
      (start s : JournalState) (u : RunStream) (g : RunStream → RunStream) (local : IsLocal g)
      (f c f' c' : ℕ) (p p' : List StoredEvent) (kind : ℕ) (at : Time) (payload : Bytes)
      → KeptWith checksum codec audit start u f c p s
      → kind < 256
      → (length payload < 256 ^ 4
          → apply_frame codec audit (next_frame kind at payload s.stream) (on_disk f c p s.stream)
            ≡ ok (on_disk f' c' p' (g s.stream)))
      → Leaves
          (IsKept checksum codec audit start u)
          (IsStored checksum codec audit start u g)
          (append_frame checksum codec segment_size faults kind at payload s)
  last_frame-IsStored start s u g local f c f' c' p p' kind at payload kept byte applied =
      map-Leaves
        (append_frame-Leaves checksum codec segment_size faults kind at payload s
          kept.0.in_one_file)
        (λ t cut.
          Cut-IsKept checksum codec audit start s t u f c p (next_frame kind at payload s.stream)
            kept refl cut)
        (λ t (small, grown).
          let sequence = (s.stream.next_sequence + 1) % 2 ^ 64 in
          record {
            first = f';
            count = c';
            pending = p';
            trace =
                subst (Trace checksum codec audit start u t)
                  (sym (local.moves sequence f' c' p' s.stream)
                    ∙ ap (λ m. g (moved sequence f' c' p' m)) (sym grown.2)
                    ∙ local.moves sequence f' c' p' t.stream
                    ∙ ap (λ k. moved k f' c' p' (g t.stream))
                        (sym (local.keeps t.stream ∙ ap (λ m. m.next_sequence) grown.2)))
                  (append_frame-Trace checksum codec audit crc (on_disk f' c' p' (g s.stream)) kind
                    at payload kept.0 refl byte (applied small) small grown);
            unchanged = ap (moved 0 0 0 []) grown.2 ∙ kept.1;
          })
