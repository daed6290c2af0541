-- ===== src/Tests/Segments.antt =====
-- Segments, appends, the cache of runs and the run list at small values:
-- internal/persistence/journal/store.go and internal/simulation/run_summary.go.
use hacker_sprint2_sim.Common.{
  Option, ℕ, ◌+◌, ◌<◌, ◌≤◌, ◌≡◌, ◌⊎◌, ◌∙◌, refl, sym, ap, Bool, true, false, ◌&&◌, some, List, [],
  ◌∷◌, ◌++◌, arith,
}
use hacker_sprint2_sim.Common.Tests.{◌==◌, if◌then◌else◌, same, same_iff, eq_of_same, true_ne_false}
use hacker_sprint2_sim.Common.Int.{pos, negsuc}
use hacker_sprint2_sim.Common.Lists.{length, All, drop}
use hacker_sprint2_sim.Common.Map.{lookup, has}
use hacker_sprint2_sim.Common.Result.{Result, ok, err, and_then, ok-injective, err_ne_ok}
use hacker_sprint2_sim.Journal.{JournalError, event_codec}
use hacker_sprint2_sim.Journal.Bytes.{Bytes, put_uint, length-put_uint, get_uint, get_from}
use hacker_sprint2_sim.Journal.Format.{Frame, encode_frame, encode_header, read_frame, trailer_size}
use hacker_sprint2_sim.Journal.Format.Torn.{read_frame-torn, torn}
use hacker_sprint2_sim.Journal.Audit.{AgentRequestReceived, AgentRequestCompleted, AuditCodec}
use hacker_sprint2_sim.Journal.Stream.{
  RunStream, empty_stream, apply_frame, apply_domain_begin, unix_epoch,
}
use hacker_sprint2_sim.Journal.Segment.{accept_frame, check_sequence, read_loop, read_segment}
use hacker_sprint2_sim.Journal.Segment.Frames.{
  IsWritten, encode_frames, accept_frames, length-encode_frame,
}
use hacker_sprint2_sim.Journal.Segment.Termination.{read_loop-enough}
use hacker_sprint2_sim.Journal.Segment.Recovery.{
  read_segment-torn, read_segment-orphan_header, recovered,
}
use hacker_sprint2_sim.Journal.Cache.{CachedRun, JournalCache, release_stream}
use hacker_sprint2_sim.Journal.Cache.Eviction.{InUse, release_stream-users, release_stream-bounds}
use hacker_sprint2_sim.Journal.Segments.{SegmentFile, list_segments}
use hacker_sprint2_sim.Journal.Segments.Listing.{list_segments-IsAscending, IsAscending, Covers}
use hacker_sprint2_sim.Summary.{new_run_summary_projection}
use hacker_sprint2_sim.Summary.Shows.{Shows}
use hacker_sprint2_sim.Summary.Agreement.{summarise, rehydrate-Shows}
use hacker_sprint2_sim.Tests.{test_platform}
use hacker_sprint2_sim.Tests.Streams.{stream, rehydrated, stream-rehydrated}
use hacker_sprint2_sim.Tests.Journal.{
  test_checksum, test_checksum-lt, test_codec, begin_frame, begin_frame-IsFrame,
}

-- One request and its completion, and a format that has only these.
abbrev pub test_request : AgentRequestReceived
test_request = record {
  request_id = "r1";
  command_id = "";
  agent_id = "";
  method = "GET";
  path = "/v2";
  headers = [];
  body = [];
  received_at = unix_epoch + 5;
}

abbrev is_test_request : AgentRequestReceived → Bool
is_test_request r =
    same r.request_id "r1"
    && same r.command_id ""
    && same r.agent_id ""
    && same r.method "GET"
    && same r.path "/v2"
    && (length r.headers == 0)
    && (length r.body == 0)
    && (r.received_at == unix_epoch + 5)

empty_list : {A : Type 0} (xs : List A) → (length xs == 0) ≡ true → xs ≡ []
empty_list [] h = refl
empty_list (x ∷ xs) h = ground arith

pub is_test_request-eq : (r : AgentRequestReceived) → is_test_request r ≡ true → r ≡ test_request
is_test_request-eq r h = ground (
  arith,
  eq_of_same r.request_id "r1",
  eq_of_same r.command_id "",
  eq_of_same r.agent_id "",
  eq_of_same r.method "GET",
  eq_of_same r.path "/v2",
  empty_list r.headers,
  empty_list r.body,
)

abbrev pub test_completion : AgentRequestCompleted
test_completion = record {
  request_id = "r1";
  status_code = pos 200;
  response_headers = [];
  response_body = [];
  error = "";
  completed_at = unix_epoch + 6;
}

abbrev is_test_completion : AgentRequestCompleted → Bool
is_test_completion r =
    same r.request_id "r1"
    && (elim (r.status_code) [ pos n ↦ n == 200 | negsuc n ↦ false ])
    && (length r.response_headers == 0)
    && (length r.response_body == 0)
    && same r.error ""
    && (r.completed_at == unix_epoch + 6)

pub is_test_completion-eq :
    (r : AgentRequestCompleted) → is_test_completion r ≡ true → r ≡ test_completion
is_test_completion-eq r h = ground (
  arith,
  eq_of_same r.request_id "r1",
  eq_of_same r.error "",
  empty_list r.response_headers,
  empty_list r.response_body,
)

-- What a guarded format gives back.
pub guarded :
    {A : Type 0} (b : Bool) (payload known : Bytes) (decode : Bytes → Result JournalError A) (a : A)
    → (b ≡ true → decode known ≡ ok a)
    → (if b then ok known else err event_codec) ≡ ok payload
    → decode payload ≡ ok a
guarded true payload known decode a f h = ap decode (sym (ok-injective h)) ∙ f refl
guarded false payload known decode a f h = absurd (err_ne_ok h)

abbrev pub test_audit : AuditCodec
test_audit = record {
  marshal_received = λ r. if is_test_request r then ok (1 ∷ []) else err event_codec;
  unmarshal_received = λ bs. ok test_request;
  marshal_completed = λ r. if is_test_completion r then ok (2 ∷ []) else err event_codec;
  unmarshal_completed = λ bs. ok test_completion;
  received_law = λ r payload h.
      guarded (is_test_request r) payload (1 ∷ []) (λ bs. ok test_request) r
        (λ b. ap ok (sym (is_test_request-eq r b))) h;
  completed_law = λ r payload h.
      guarded (is_test_completion r) payload (2 ∷ []) (λ bs. ok test_completion) r
        (λ b. ap ok (sym (is_test_completion-eq r b))) h;
}

pub begin_frame-IsWritten : IsWritten test_checksum begin_frame
begin_frame-IsWritten = record {
  is_frame = begin_frame-IsFrame;
  checksum_fits = test_checksum-lt (encode_header begin_frame ++ begin_frame.payload);
}

abbrev pub begun : RunStream
begun = record empty_stream {
  next_sequence = 1;
  pending_first_version = 1;
  pending_event_count = 2;
}

pub begin-accepted : accept_frames test_codec test_audit (begin_frame ∷ []) empty_stream ≡ ok begun
unfolding accept_frames accept_frame check_sequence apply_frame apply_domain_begin put_uint get_uint
    get_from and_then
begin-accepted = refl

begin-cut :
    encode_frame test_checksum begin_frame
    ≡ (72 ∷ 83 ∷ []) ++ (74 ∷ drop 3 (encode_frame test_checksum begin_frame))
unfolding encode_frame encode_header
begin-cut = refl

read_frame-torn_example : read_frame test_checksum (72 ∷ 83 ∷ []) ≡ torn 2
read_frame-torn_example =
    read_frame-torn test_checksum begin_frame (72 ∷ 83 ∷ []) 74
      (drop 3 (encode_frame test_checksum begin_frame)) begin_frame-IsFrame begin-cut

read_segment-torn_example :
    read_segment test_checksum test_codec test_audit false
      (encode_frames test_checksum (begin_frame ∷ []) ++ (72 ∷ 83 ∷ []))
      empty_stream
    ≡ ok (begun, recovered test_checksum test_codec test_audit (begin_frame ∷ []) (72 ∷ 83 ∷ []))
read_segment-torn_example =
    read_segment-torn test_checksum test_codec test_audit (begin_frame ∷ []) begin_frame
      (72 ∷ 83 ∷ []) 74 (drop 3 (encode_frame test_checksum begin_frame)) empty_stream begun
      (begin_frame-IsWritten, tt) begin-accepted begin_frame-IsWritten begin-cut

-- A frame of fifty bytes of payload, of which only the header is written.
abbrev long_frame : Frame
long_frame = record { kind = 1; sequence = 2; recorded_at = 7; payload = put_uint 50 0 }

long_frame-IsWritten : IsWritten test_checksum long_frame
long_frame-IsWritten = record {
  is_frame = record {
    kind_fits = omega arith;
    sequence_fits = omega arith;
    recorded_at_fits = omega arith;
    payload_fits = omega (arith, length-put_uint 50 0);
  };
  checksum_fits = test_checksum-lt (encode_header long_frame ++ long_frame.payload);
}

begin_frame-short :
    length (encode_frame test_checksum begin_frame) < length (long_frame.payload) + trailer_size
unfolding put_uint
begin_frame-short = omega (arith, length-encode_frame test_checksum begin_frame)

read_segment-orphan_header_example :
    read_segment test_checksum test_codec test_audit false
      (encode_frames test_checksum (begin_frame ∷ [])
        ++ (encode_header long_frame ++ encode_frame test_checksum begin_frame))
      empty_stream
    ≡ ok (begun, encode_frames test_checksum (begin_frame ∷ []))
read_segment-orphan_header_example =
    read_segment-orphan_header test_checksum test_codec test_audit (begin_frame ∷ []) long_frame
      begin_frame empty_stream begun (begin_frame-IsWritten, tt) begin-accepted long_frame-IsWritten
      begin_frame-short

begin_frame-length : length (encode_frame test_checksum begin_frame) < 60
unfolding put_uint
begin_frame-length = omega (arith, length-encode_frame test_checksum begin_frame)

read_loop-enough_example :
    (answer : Result JournalError (RunStream × Option ℕ)) × (read_loop test_checksum test_codec
        test_audit 60 false
        (encode_frame test_checksum begin_frame)
        0
        empty_stream
      ≡ some answer)
read_loop-enough_example =
    read_loop-enough test_checksum test_codec test_audit 60 false
      (encode_frame test_checksum begin_frame) 0 empty_stream begin_frame-length

abbrev idle : CachedRun
idle = record {
  identity = 1;
  initialized = true;
  users = 0;
  last_access = 1;
  stream = empty_stream;
}

abbrev busy : CachedRun
busy = record {
  identity = 2;
  initialized = true;
  users = 1;
  last_access = 2;
  stream = empty_stream;
}

abbrev two_runs : JournalCache
two_runs = record { max_runs = 1; access = 2; runs = ("a", idle) ∷ ("b", busy) ∷ [] }

a_ne_b : same "a" "b" ≡ false
unfolding same
a_ne_b = refl

release_stream-users_example : lookup "b" (release_stream "a" 1 two_runs).runs ≡ some busy
unfolding has lookup same
release_stream-users_example =
    release_stream-users "a" "b" 1 two_runs busy (refl, (refl, tt))
      (λ h. absurd (true_ne_false ((same_iff "a" "b").1 h) a_ne_b)) refl (omega arith)

release_stream-bounds_example :
    (length (release_stream "a" 1 two_runs).runs ≤ 1)
    ⊎ All InUse (release_stream "a" 1 two_runs).runs
release_stream-bounds_example = release_stream-bounds "a" 1 two_runs

abbrev both_names : List SegmentFile
both_names =
    record { number = 1; compressed = false; content = 9 ∷ [] }
    ∷ record { number = 1; compressed = true; content = [] }
    ∷ []

list_segments-IsAscending_example :
    IsAscending (list_segments both_names)
    × All (λ e. Covers e (list_segments both_names)) both_names
list_segments-IsAscending_example = list_segments-IsAscending both_names

rehydrate-Shows_example : Shows (summarise new_run_summary_projection stream) rehydrated
rehydrate-Shows_example = rehydrate-Shows test_platform stream rehydrated stream-rehydrated
