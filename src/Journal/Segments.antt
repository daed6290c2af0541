-- ===== src/Journal/Segments.antt =====
-- Opening a run: `listSegments` and `initialize` of internal/persistence/journal/store.go. A directory
-- entry stands with the number that its name parses to, and a compressed one with what it decompresses
-- to. `cancelled` tells at which segments the context is done; the operating system does not fail.
pub mod Listing
use hacker_sprint2_sim.Common.{
  ℕ, zero, suc, ◌+◌, ◌%◌, ◌^◌, Bool, true, false, not, ◌&&◌, ◌||◌, Option, none, some, List, [],
  ◌∷◌,
}
use hacker_sprint2_sim.Common.Tests.{ltb, ◌==◌, if◌then◌else◌}
use hacker_sprint2_sim.Common.Lists.{length}
use hacker_sprint2_sim.Common.Result.{Result, ok, err, and_then}
use hacker_sprint2_sim.Journal.{JournalError, unavailable}
use hacker_sprint2_sim.Journal.Bytes.{Bytes}
use hacker_sprint2_sim.Journal.Batch.{EventCodec}
use hacker_sprint2_sim.Journal.Audit.{AuditCodec}
use hacker_sprint2_sim.Journal.Stream.{RunStream, empty_stream}
use hacker_sprint2_sim.Journal.Segment.{read_segment}

-- segmentFile, with the content of the file in place of its path.
pub record SegmentFile : Type 0 where
  pub number : ℕ
  pub compressed : Bool
  pub content : Bytes

-- The comparison of sort.Slice.
unfoldable pub sorts_before : SegmentFile → SegmentFile → Bool
sorts_before a b = if a.number == b.number then a.compressed else ltb a.number b.number

-- The sort, by insertion.
unfoldable pub insert_segment : SegmentFile → List SegmentFile → List SegmentFile
insert_segment s [] = s ∷ []
insert_segment s (t ∷ ts) =
    let rest = insert_segment s ts in if sorts_before s t then s ∷ t ∷ ts else t ∷ rest

unfoldable pub sort_segments : List SegmentFile → List SegmentFile
sort_segments [] = []
sort_segments (s ∷ ss) = insert_segment s (sort_segments ss)

-- The loop that drops a segment with the number of the one before it, which was kept.
unfoldable pub deduplicate : ℕ → List SegmentFile → List SegmentFile
deduplicate last [] = []
deduplicate last (s ∷ ss) =
    let skipped = deduplicate last ss in
    let kept = deduplicate s.number ss in if last == s.number then skipped else s ∷ kept

-- listSegments
unfoldable pub list_segments : List SegmentFile → List SegmentFile
list_segments entries = elim (sort_segments entries) [
  | [] ↦ []
  | s ∷ ss ↦ s ∷ deduplicate s.number ss
]

-- if segment.number > stream.activeSegment, and the size of a plain segment
unfoldable pub place_segment : SegmentFile → Bytes → RunStream → RunStream
place_segment segment left stream =
    let numbered =
      if ltb stream.active_segment segment.number
      then record stream { active_segment = segment.number }
      else stream in
    if segment.compressed then numbered else record numbered { active_size = length left }

-- if len(segments) > 0 && segments[len(segments)-1].compressed
unfoldable pub place_end : List SegmentFile → RunStream → RunStream
place_end [] stream = stream
place_end (s ∷ ss) stream = elim ss [
  | [] ↦
      if s.compressed
      then record stream { active_segment = (s.number + 1) % 2 ^ 64; active_size = 0 }
      else stream
  | t ∷ ts ↦ place_end ss stream
]

module _ (checksum : Bytes → ℕ) (codec : EventCodec) (audit : AuditCodec)
    (cancelled : ℕ → Bool) where
  -- The loop over the segments.
  unfoldable pub read_segments : List SegmentFile → RunStream → Result JournalError RunStream
  read_segments [] stream = ok stream
  read_segments (s ∷ ss) stream =
      if cancelled s.number
      then err unavailable
      else and_then (read_segment checksum codec audit s.compressed s.content stream)
          (λ (read, left). read_segments ss (place_segment s left read))

  -- initialize, of a stream that is not initialised: whatever an earlier call left is reset.
  unfoldable pub initialize : List SegmentFile → Result JournalError RunStream
  initialize entries =
      let segments = list_segments entries in
      and_then (read_segments segments empty_stream) (λ stream. ok (place_end segments stream))
