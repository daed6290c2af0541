-- ===== src/Journal/Append/Disk.antt =====
-- The stream that a replay has beside the stream in memory, while `Append` of
-- internal/persistence/journal/store.go writes: they differ in the place in the files, and the replay may
-- hold a domain transaction that was begun and not committed.
use mathlib.Core.Path.{subst}
use hacker_sprint2_sim.Common.{
  ℕ, ◌+◌, ◌<◌, ◌%◌, ◌^◌, ◌≡◌, refl, sym, ap, ◌∙◌, ◌&&◌, List, [], ◌∷◌, ◌++◌, arith, ◌⊎◌, inl, inr,
}
use hacker_sprint2_sim.Common.Tests.{◌==◌, Bool-cases}
use hacker_sprint2_sim.Common.Result.{ok}
use hacker_sprint2_sim.Common.Lists.{length}
use hacker_sprint2_sim.Model.Types.{Time}
use hacker_sprint2_sim.Events.{Event}
use hacker_sprint2_sim.Stream.{StoredEvent}
use hacker_sprint2_sim.Journal.Bytes.{Bytes}
use hacker_sprint2_sim.Journal.Batch.{EventCodec}
use hacker_sprint2_sim.Journal.Audit.{AuditCodec}
use hacker_sprint2_sim.Journal.Stream.{
  RunStream, is_run_ended, apply_summary_event, apply_summary_events, apply_frame,
}
use hacker_sprint2_sim.Journal.Append.{Fault, JournalState, next_frame, append_frame, remember}
use hacker_sprint2_sim.Journal.Append.Leaves.{Leaves, map-Leaves}
use hacker_sprint2_sim.Journal.Append.Frames.{content, Cut, append_frame-Leaves}
use mathlib.Core.List.{append_assoc, append-nil}
use hacker_sprint2_sim.Common.Lists.{All, take}
use hacker_sprint2_sim.Journal.Format.{Frame, encode_frame}
use hacker_sprint2_sim.Journal.Segment.Frames.{IsWritten, encode_frames, accept_frames}
use hacker_sprint2_sim.Journal.Append.Trace.{Trace, append_frame-Trace}

-- A stream at the start of the files, with a sequence and a pending transaction of its own.
abbrev pub moved : ℕ → ℕ → ℕ → List StoredEvent → RunStream → RunStream
moved sequence first count pending m = record m {
  next_sequence = sequence;
  active_segment = 1;
  active_size = 0;
  pending_first_version = first;
  pending_event_count = count;
  pending_events = pending;
}

abbrev pub on_disk : ℕ → ℕ → List StoredEvent → RunStream → RunStream
on_disk first count pending m = moved m.next_sequence first count pending m

-- The events, the requests and the summary are the same.
abbrev pub Unchanged : JournalState → JournalState → Type 0
Unchanged s t = moved 0 0 0 [] s.stream ≡ moved 0 0 0 [] t.stream

apply_summary_event-moved :
    (n f c : ℕ) (p : List StoredEvent) (at : Time) (r : StoredEvent) (m : RunStream)
    → apply_summary_event at r (moved n f c p m) ≡ moved n f c p (apply_summary_event at r m)
unfolding apply_summary_event
apply_summary_event-moved n f c p at r m =
    elim (Bool-cases (is_run_ended r.event && (m.real_completed_at == 0))) [
      | inl e ↦ ground (arith)
      | inr e ↦ ground (arith)
    ]

apply_summary_event-next_sequence :
    (at : Time) (r : StoredEvent) (m : RunStream)
    → (apply_summary_event at r m).next_sequence ≡ m.next_sequence
unfolding apply_summary_event
apply_summary_event-next_sequence at r m =
    elim (Bool-cases (is_run_ended r.event && (m.real_completed_at == 0))) [
      | inl e ↦ ground (arith)
      | inr e ↦ ground (arith)
    ]

pub apply_summary_events-moved :
    (n f c : ℕ) (p : List StoredEvent) (at : Time) (rs : List StoredEvent) (m : RunStream)
    → apply_summary_events at rs (moved n f c p m) ≡ moved n f c p (apply_summary_events at rs m)
unfolding apply_summary_events
apply_summary_events-moved n f c p at [] m = refl
apply_summary_events-moved n f c p at (r ∷ rs) m =
    ap (apply_summary_events at rs) (apply_summary_event-moved n f c p at r m)
    ∙ apply_summary_events-moved n f c p at rs (apply_summary_event at r m)

pub remember-moved :
    (n f c : ℕ) (p : List StoredEvent) (at : Time) (es : List Event) (m : RunStream)
    → remember at es (moved n f c p m) ≡ moved n f c p (remember at es m)
unfolding remember
remember-moved n f c p at [] m = refl
remember-moved n f c p at (e ∷ es) m =
    let version = (m.domain_version + 1) % 2 ^ 64 in
    let r : StoredEvent = record { version = version; event = e } in
    let grown : RunStream = record m { domain_version = version; events = m.events ++ (r ∷ []) } in
    ap (remember at es) (apply_summary_event-moved n f c p at r grown)
    ∙ remember-moved n f c p at es (apply_summary_event at r grown)

pub remember-next_sequence :
    (at : Time) (es : List Event) (m : RunStream)
    → (remember at es m).next_sequence ≡ m.next_sequence
unfolding remember
remember-next_sequence at [] m = refl
remember-next_sequence at (e ∷ es) m =
    let version = (m.domain_version + 1) % 2 ^ 64 in
    let r : StoredEvent = record { version = version; event = e } in
    let grown : RunStream = record m { domain_version = version; events = m.events ++ (r ∷ []) } in
    remember-next_sequence at es (apply_summary_event at r grown)
    ∙ apply_summary_event-next_sequence at r grown

module _ (checksum : Bytes → ℕ) (codec : EventCodec) (audit : AuditCodec) where
  -- Nothing, or the first bytes of a frame that would be the next.
  abbrev pub IsCut : JournalState → Bytes → Type 0
  IsCut s torn =
      (torn ≡ [])
      ⊎ ((f : Frame) × (n : ℕ) × (torn ≡ take n (encode_frame checksum f))
          × (f.sequence ≡ (s.stream.next_sequence + 1) % 2 ^ 64))

  -- What a call that fails leaves: behind the files of the start whole frames, whose replay has all that
  -- the stream in memory has, and that is what it was; behind these the first bytes of one more frame,
  -- if a write was cut, or its Sync or Close failed.
  pub record IsKept (start : JournalState) (u : RunStream) (s : JournalState) : Type 0 where
    pub first : ℕ
    pub count : ℕ
    pub pending : List StoredEvent
    pub frames : List Frame
    pub torn : Bytes
    pub grown : content s.files ≡ content start.files ++ (encode_frames checksum frames ++ torn)
    pub all_written : All (IsWritten checksum) frames
    pub replayed : accept_frames codec audit frames u ≡ ok (on_disk first count pending s.stream)
    pub is_cut : IsCut s torn
    pub unchanged : Unchanged s start

  -- The same with a known pending transaction.
  abbrev pub KeptWith : JournalState → RunStream → ℕ → ℕ → List StoredEvent → JournalState → Type 0
  KeptWith start u f c p s =
      Trace checksum codec audit start u s (on_disk f c p s.stream) × Unchanged s start

  -- A call that fails before it writes.
  pub KeptWith-IsKept :
      (start s : JournalState) (u : RunStream) (f c : ℕ) (p : List StoredEvent)
      → KeptWith start u f c p s
      → IsKept start u s
  KeptWith-IsKept start s u f c p kept = record {
    first = f;
    count = c;
    pending = p;
    frames = kept.0.frames;
    torn = [];
    grown =
        kept.0.grown
        ∙ ap (λ bs. content start.files ++ bs)
            (sym (append-nil (encode_frames checksum kept.0.frames)));
    all_written = kept.0.all_written;
    replayed = kept.0.replayed;
    is_cut = inl refl;
    unchanged = kept.1;
  }

  -- A frame that is cut.
  pub Cut-IsKept :
      (start s t : JournalState) (u : RunStream) (f c : ℕ) (p : List StoredEvent) (next : Frame)
      → KeptWith start u f c p s
      → next.sequence ≡ (s.stream.next_sequence + 1) % 2 ^ 64
      → Cut (encode_frame checksum next) s t
      → IsKept start u t
  Cut-IsKept start s t u f c p next kept sequence (n, more, same) =
      let torn = take n (encode_frame checksum next) in
      let written = encode_frames checksum kept.0.frames in
      record {
        first = f;
        count = c;
        pending = p;
        frames = kept.0.frames;
        torn = torn;
        grown =
            more
            ∙ ap (λ bs. bs ++ torn) kept.0.grown
            ∙ append_assoc (content start.files) written torn;
        all_written = kept.0.all_written;
        replayed = kept.0.replayed ∙ ap (λ m. ok (on_disk f c p m)) (sym same);
        is_cut = inr (
          next,
          n,
          refl,
          sequence ∙ ap (λ (m : RunStream). (m.next_sequence + 1) % 2 ^ 64) (sym same),
        );
        unchanged = ap (moved 0 0 0 []) same ∙ kept.1;
      }

  module _ (segment_size : ℕ) (faults : ℕ → Fault)
      (crc : (bs : Bytes) → checksum bs < 256 ^ 4) where
    -- A frame that only concerns the pending transaction.
    pub append_frame-KeptWith :
        (start s : JournalState) (u : RunStream) (f c f' c' : ℕ) (p p' : List StoredEvent)
        (kind : ℕ) (at : Time) (payload : Bytes)
        → KeptWith start u f c p s
        → kind < 256
        → (length payload < 256 ^ 4
            → apply_frame codec audit (next_frame kind at payload s.stream) (on_disk f c p s.stream)
              ≡ ok (on_disk f' c' p' s.stream))
        → Leaves
            (IsKept start u)
            (KeptWith start u f' c' p')
            (append_frame checksum codec segment_size faults kind at payload s)
    append_frame-KeptWith start s u f c f' c' p p' kind at payload kept byte applied =
        map-Leaves
          (append_frame-Leaves checksum codec segment_size faults kind at payload s
            kept.0.in_one_file)
          (λ t cut.
            Cut-IsKept start s t u f c p (next_frame kind at payload s.stream) kept refl cut)
          (λ t (small, grown). (
            subst (Trace checksum codec audit start u t) (ap (on_disk f' c' p') (sym grown.2)) (
                append_frame-Trace checksum codec audit crc (on_disk f' c' p' s.stream) kind at
                  payload kept.0 refl byte (applied small) small grown),
            ap (moved 0 0 0 []) grown.2 ∙ kept.1,
          ))
