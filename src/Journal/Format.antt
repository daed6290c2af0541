-- ===== src/Journal/Format.antt =====
-- The frames of internal/persistence/journal/format.go: `encodeFrame`, `readFrame`. A time is kept
-- as its `UnixNano`, the bit pattern of an int64. `crc32.Checksum` is a parameter.
pub mod RoundTrip
pub mod Torn
use hacker_sprint2_sim.Common.{
  ℕ, ◌+◌, ◌<◌, ◌^◌, ◌≡◌, refl, Bool, true, false, ◌&&◌, none, some, List, [], ◌∷◌, ◌++◌, arith,
}
use hacker_sprint2_sim.Common.Tests.{◌==◌, if◌then◌else◌}
use hacker_sprint2_sim.Common.Lists.{length, take, drop}
use hacker_sprint2_sim.Journal.{
  JournalError, eof, unexpected_eof, invalid_header, checksum_mismatch,
}
use hacker_sprint2_sim.Journal.Bytes.{Bytes, put_uint, get_uint, slice, split_at, bytes_equal}

abbrev pub format_version : ℕ
format_version = 1

abbrev pub header_size : ℕ
header_size = 28

abbrev pub trailer_size : ℕ
trailer_size = 4

abbrev pub frame_magic : Bytes
frame_magic = b'H' ∷ b'S' ∷ b'J' ∷ b'1' ∷ []

-- recordKind, a byte
abbrev pub kind_domain_events : ℕ
kind_domain_events = 1

abbrev pub kind_request_received : ℕ
kind_request_received = 2

abbrev pub kind_request_completed : ℕ
kind_request_completed = 3

abbrev pub kind_domain_begin : ℕ
kind_domain_begin = 4

abbrev pub kind_domain_part : ℕ
kind_domain_part = 5

abbrev pub kind_domain_commit : ℕ
kind_domain_commit = 6

pub record Frame : Type 0 where
  pub kind : ℕ
  pub sequence : ℕ
  pub recorded_at : ℕ
  pub payload : Bytes

-- The widths of the fields of a frame.
pub record IsFrame (f : Frame) : Type 0 where
  pub kind_fits : f.kind < 256
  pub sequence_fits : f.sequence < 256 ^ 8
  pub recorded_at_fits : f.recorded_at < 256 ^ 8
  pub payload_fits : length f.payload < 256 ^ 4

-- result[:headerSize]
unfoldable pub encode_header : Frame → Bytes
encode_header f =
    frame_magic
    ++ (format_version ∷ f.kind ∷ 0 ∷ 0 ∷ [])
    ++ put_uint 8 f.sequence
    ++ put_uint 8 f.recorded_at
    ++ put_uint 4 (length f.payload)

-- What `readFrame` makes of the bytes that are left in the reader, with the bytes after its reads.
pub data FrameRead : Type 0 where
  frame_read : Frame → ℕ → Bytes → FrameRead
  read_failed : JournalError → Bytes → FrameRead

-- The error of an `io.ReadFull` that was not answered: it has read what there was.
abbrev pub short_read : Bytes → FrameRead
short_read [] = read_failed eof []
short_read (b ∷ bs) = read_failed unexpected_eof []

module _ (checksum : Bytes → ℕ) where
  unfoldable pub encode_frame : Frame → Bytes
  encode_frame f =
      let checked = encode_header f ++ f.payload in checked ++ put_uint 4 (checksum checked)

  -- The return of `readFrame`.
  unfoldable pub check_payload : Bytes → ℕ → Bytes → Bytes → Bytes → FrameRead
  check_payload header payload_length payload crc rest =
      if checksum (header ++ payload) == get_uint crc
      then frame_read
          (record {
            kind = get_uint (slice 5 1 header);
            sequence = get_uint (slice 8 8 header);
            recorded_at = get_uint (slice 16 8 header);
            payload = payload;
          })
          (header_size + payload_length + trailer_size) rest
      else read_failed checksum_mismatch rest

  -- The second `io.ReadFull`, of the payload and the trailer.
  unfoldable pub read_body : Bytes → ℕ → Bytes → FrameRead
  read_body header payload_length bs = elim (split_at (payload_length + trailer_size) bs) [
    | none ↦ short_read bs
    | some (body, rest) ↦
        check_payload header payload_length (take payload_length body) (drop payload_length body)
          rest
  ]

  unfoldable pub read_frame : Bytes → FrameRead
  read_frame bs = elim (split_at header_size bs) [
    | none ↦ short_read bs
    | some (header, rest) ↦
        if bytes_equal (take 4 header) frame_magic && get_uint (slice 4 1 header) == format_version
        then read_body header (get_uint (slice 24 4 header)) rest
        else read_failed invalid_header rest
  ]
