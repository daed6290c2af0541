-- ===== src/Journal.antt =====
-- The journal of a run: internal/persistence/journal (format.go, store.go).
pub mod Bytes
pub mod Format
pub mod Batch
pub mod Codec
pub mod Audit
pub mod Stream
pub mod Segment
pub mod Append
pub mod Cache
pub mod Requests
pub mod Segments
use hacker_sprint2_sim.Common.{ℕ}

-- What a read or a write of the journal fails with. `eof` and `unexpected_eof` are the two errors
-- of `io.ReadFull`: nothing was left to read, or less than was asked for.
pub data JournalError : Type 0 where
  eof unexpected_eof invalid_header checksum_mismatch trailing_bytes type_too_long event_codec
        version_discontinuity invalid_begin part_without_begin incomplete_transaction bad_request
        duplicate_request unknown_request unknown_kind sequence_gap corrupt_segment too_large
        record_too_large version_conflict unavailable invalid_request already_completed
        run_id_required :
      JournalError
