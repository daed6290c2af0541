-- ===== src/Journal/Append/Frames.antt =====
-- What one call of `appendFrame` of internal/persistence/journal/store.go does to the files, where it
-- succeeds and where it fails.
use mathlib.Core.List.{append_assoc, append-nil}
use hacker_sprint2_sim.Common.{
  ℕ, ◌+◌, ◌-◌, ◌<◌, ◌%◌, ◌^◌, ◌≡◌, refl, sym, ap, ◌∙◌, false, ◌&&◌, Option, none, some, List, [],
  ◌∷◌, ◌++◌, arith,
}
use hacker_sprint2_sim.Common.Tests.{ltb}
use hacker_sprint2_sim.Common.Lists.{length, take}
use hacker_sprint2_sim.Model.Types.{Time}
use hacker_sprint2_sim.Journal.{too_large, record_too_large, unavailable}
use hacker_sprint2_sim.Journal.Bytes.{Bytes}
use hacker_sprint2_sim.Journal.Format.{encode_frame}
use hacker_sprint2_sim.Journal.Batch.{EventCodec}
use hacker_sprint2_sim.Journal.Stream.{RunStream}
use hacker_sprint2_sim.Journal.Append.{
  RunFiles, JournalState, Fault, no_fault, context_done, not_closed, not_removed, not_opened,
  not_stored, is_done, close_segment, rotate, write_value, next_frame, append_frame,
}
use hacker_sprint2_sim.Journal.Append.Leaves.{
  Leaves, leaves_written, leaves_failed, then_write-Leaves, if-Leaves, map-Leaves,
}

-- The bytes of the closed segments, in their order, and of the active one, which is read from its
-- compressed copy where there is one.
unfoldable pub closed_content : List (ℕ × Bytes) → Bytes
closed_content [] = []
closed_content ((n, bs) ∷ more) = bs ++ closed_content more

unfoldable pub active_content : Option Bytes → Bytes → Bytes
active_content none active = active
active_content (some copy) active = copy

unfoldable pub content : RunFiles → Bytes
unfolding closed_content active_content
content files = closed_content files.closed ++ active_content files.copy files.active

closed_content-append :
    (xs : List (ℕ × Bytes)) (n : ℕ) (bs : Bytes)
    → closed_content (xs ++ ((n, bs) ∷ [])) ≡ closed_content xs ++ bs
unfolding closed_content
closed_content-append [] n bs = append-nil bs
closed_content-append ((m, cs) ∷ xs) n bs =
    ap (λ r. cs ++ r) (closed_content-append xs n bs) ∙ sym (append_assoc cs (closed_content xs) bs)

-- What a stream is but for its place in the files: as a replay that starts anew would have it.
abbrev pub placed : RunStream → RunStream
placed stream = record stream { active_segment = 1; active_size = 0 }

-- A frame is added to the stream in memory.
abbrev pub counted : RunStream → RunStream
counted stream = record (placed stream) { next_sequence = (stream.next_sequence + 1) % 2 ^ 64 }

-- No byte is added, and nothing is in two files.
abbrev Kept : JournalState → JournalState → Type 0
Kept s t =
    (content t.files ≡ content s.files)
    × (t.files.copy ≡ none)
    × (placed t.stream ≡ placed s.stream)

-- The first n bytes of a value are added, and the stream in memory stays.
abbrev pub Cut : Bytes → JournalState → JournalState → Type 0
Cut value s t =
    (n : ℕ) × (content t.files ≡ content s.files ++ take n value)
    × (placed t.stream ≡ placed s.stream)

-- A value is added and counted.
abbrev pub Grown : Bytes → JournalState → JournalState → Type 0
Grown value s t =
    (content t.files ≡ content s.files ++ value)
    × (t.files.copy ≡ none)
    × (placed t.stream ≡ counted s.stream)

uncut :
    (value : Bytes) (s t : JournalState)
    → content t.files ≡ content s.files
    → placed t.stream ≡ placed s.stream
    → Cut value s t
uncut value s t h k = (0, h ∙ sym (append-nil (content s.files)), k)

closed :
    (s : JournalState)
    → s.files.copy ≡ none
    → closed_content (s.files.closed ++ ((s.stream.active_segment, s.files.active) ∷ [])) ++ []
      ≡ content s.files
unfolding content active_content
closed s h =
    append-nil (closed_content (s.files.closed ++ ((s.stream.active_segment, s.files.active) ∷ [])))
    ∙ closed_content-append s.files.closed s.stream.active_segment s.files.active
    ∙ ap (λ o. closed_content s.files.closed ++ active_content o s.files.active) (sym h)

stale :
    (s : JournalState)
    → s.files.copy ≡ none
    → closed_content s.files.closed ++ s.files.active ≡ content s.files
unfolding content active_content
stale s h = ap (λ o. closed_content s.files.closed ++ active_content o s.files.active) (sym h)

close_segment-Leaves :
    (value : Bytes) (fault : Fault) (s : JournalState)
    → s.files.copy ≡ none
    → Leaves (Cut value s) (Kept s) (close_segment fault s)
unfolding close_segment content active_content
close_segment-Leaves value not_closed s h = leaves_failed unavailable (uncut value s s refl refl)
close_segment-Leaves value not_removed s h = leaves_failed unavailable (
    uncut value s (record s { files = record (s.files) { copy = some s.files.active } }) (stale s h)
      refl)
close_segment-Leaves value no_fault s h = leaves_written (closed s h, refl, refl)
close_segment-Leaves value context_done s h = leaves_written (closed s h, refl, refl)
close_segment-Leaves value not_opened s h = leaves_written (closed s h, refl, refl)
close_segment-Leaves value (not_stored n) s h = leaves_written (closed s h, refl, refl)

rotate-Leaves :
    (value : Bytes) (fault : Fault) (segment_size size : ℕ) (s : JournalState)
    → s.files.copy ≡ none
    → Leaves (Cut value s) (Kept s) (rotate fault segment_size size s)
unfolding rotate
rotate-Leaves value fault segment_size size s h =
    if-Leaves (ltb 0 s.stream.active_size && ltb segment_size (s.stream.active_size + size)) _ _
      (λ full.
        then_write-Leaves _ (close_segment-Leaves value fault s h)
          (λ t kept. leaves_written (kept.0, kept.1, kept.2)))
      (λ free. leaves_written (refl, h, refl))

added :
    (value : Bytes) (s : JournalState)
    → s.files.copy ≡ none
    → closed_content s.files.closed ++ active_content s.files.copy (s.files.active ++ value)
      ≡ content s.files ++ value
unfolding content active_content
added value s h =
    ap (λ o. closed_content s.files.closed ++ active_content o (s.files.active ++ value)) h
    ∙ sym (append_assoc (closed_content s.files.closed) s.files.active value)
    ∙ ap (λ o. (closed_content s.files.closed ++ active_content o s.files.active) ++ value) (sym h)

write_value-Leaves :
    (fault : Fault) (value : Bytes) (s : JournalState)
    → s.files.copy ≡ none
    → Leaves (Cut value s) (Grown value s) (write_value fault value s)
unfolding write_value content
write_value-Leaves not_opened value s h = leaves_failed unavailable (uncut value s s refl refl)
write_value-Leaves (not_stored n) value s h =
    leaves_failed unavailable (n, added (take n value) s h, refl)
write_value-Leaves no_fault value s h = leaves_written (added value s h, h, refl)
write_value-Leaves context_done value s h = leaves_written (added value s h, h, refl)
write_value-Leaves not_closed value s h = leaves_written (added value s h, h, refl)
write_value-Leaves not_removed value s h = leaves_written (added value s h, h, refl)

below : (n : ℕ) → ltb (2 ^ 32 - 1) n ≡ false → n < 256 ^ 4
below n h = ground arith

module _ (checksum : Bytes → ℕ) (codec : EventCodec) (segment_size : ℕ) (faults : ℕ → Fault) where
  -- A frame that is written is added behind the content, and only the counters change in memory. Of a
  -- frame that is not, some first bytes may be in the file.
  pub append_frame-Leaves :
      (kind : ℕ) (at : Time) (payload : Bytes) (s : JournalState)
      → s.files.copy ≡ none
      → Leaves
          (Cut (encode_frame checksum (next_frame kind at payload s.stream)) s)
          (λ t.
            (length payload < 256 ^ 4)
            × Grown (encode_frame checksum (next_frame kind at payload s.stream)) s t)
          (append_frame checksum codec segment_size faults kind at payload s)
  unfolding append_frame
  append_frame-Leaves kind at payload s h =
      let value = encode_frame checksum (next_frame kind at payload s.stream) in
      let fault = faults (s.stream.next_sequence + 1) in
      let same = uncut value s s refl refl in
      if-Leaves (is_done fault) _ _ (λ stopped. leaves_failed unavailable same)
        (λ goes_on.
          if-Leaves (ltb (2 ^ 32 - 1) (length payload)) _ _ (λ big. leaves_failed too_large same)
            (λ small.
              if-Leaves (ltb segment_size (length value)) _ _
                (λ long. leaves_failed record_too_large same)
                (λ fits.
                  then_write-Leaves _ (rotate-Leaves value fault segment_size (length value) s h)
                    (λ r kept.
                      map-Leaves (write_value-Leaves fault value r kept.1)
                        (λ t cut.
                          (cut.0, cut.1 ∙ ap (λ bs. bs ++ take cut.0 value) kept.0, cut.2 ∙ kept.2))
                        (λ t grown. (
                          below (length payload) small,
                          (
                            grown.0 ∙ ap (λ bs. bs ++ value) kept.0,
                            grown.1,
                            grown.2
                                ∙ ap
                                    (λ (m : RunStream). record m {
                                      next_sequence = (m.next_sequence + 1) % 2 ^ 64;
                                    })
                                    kept.2,
                          ),
                        ))))))
