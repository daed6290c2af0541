-- ===== src/Tests/Writes.antt =====
-- Appends and requests at small values, written and failed: internal/persistence/journal/store.go.
use hacker_sprint2_sim.Common.{ℕ, none, [], ◌∷◌, ◌++◌}
use hacker_sprint2_sim.Common.Tests.{◌==◌, if◌then◌else◌}
use hacker_sprint2_sim.Journal.Bytes.{Bytes, put_uint}
use hacker_sprint2_sim.Journal.Format.{encode_frame}
use hacker_sprint2_sim.Journal.Stream.{empty_stream}
use hacker_sprint2_sim.Journal.Append.{JournalState, Fault, no_fault, not_stored}
use hacker_sprint2_sim.Journal.Append.Leaves.{Leaves}
use hacker_sprint2_sim.Tests.Journal.{test_checksum, begin_frame}
use hacker_sprint2_sim.Tests.Segments.{test_request}

abbrev new_run : JournalState
new_run = record { stream = empty_stream; files = record { closed = []; active = []; copy = none } }

-- The first frame is cut after five bytes.
abbrev cut : ℕ → Fault
cut n = if n == 1 then not_stored 5 else no_fault

abbrev never : ℕ → Fault
never n = no_fault

-- The first frame is written whole, and its Sync fails.
abbrev unsynced : ℕ → Fault
unsynced n = not_stored 999

abbrev begin_bytes : Bytes
begin_bytes = put_uint 8 1 ++ put_uint 8 2

abbrev unsynced_run : JournalState
unsynced_run = record new_run {
  files = record { closed = []; active = encode_frame test_checksum begin_frame; copy = none };
}

abbrev retried_run : JournalState
retried_run = record {
  stream = record empty_stream { next_sequence = 1; active_size = 48 };
  files = record {
    closed = [];
    active = encode_frame test_checksum begin_frame ++ encode_frame test_checksum begin_frame;
    copy = none;
  };
}

-- A run with the request in memory.
abbrev one_request : JournalState
one_request = record new_run {
  stream = record empty_stream {
    requests = record { received = test_request; completed = none } ∷ [];
    request_indexes = ("r1", 0) ∷ [];
  };
}
