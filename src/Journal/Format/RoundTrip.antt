-- ===== src/Journal/Format/RoundTrip.antt =====
-- What `readFrame` of internal/persistence/journal/format.go makes of a frame that `encodeFrame`
-- wrote, whole or torn.
use mathlib.Core.List.{append_assoc}
use hacker_sprint2_sim.Common.{ℕ, ◌+◌, ◌<◌, ◌^◌, ◌≡◌, refl, sym, ap, ◌∙◌, some, ◌++◌, arith}
use hacker_sprint2_sim.Common.Lists.{length, take-append_length, drop-append_length, length-append}
use hacker_sprint2_sim.Journal.Bytes.{
  Bytes, bytes_equal, put_uint, get_uint, slice, split_at, split_at-append, get_uint-put_uint,
  get_from, length-put_uint,
}
use hacker_sprint2_sim.Journal.Format.{
  Frame, IsFrame, frame_read, encode_header, encode_frame, read_frame, read_body, check_payload,
  header_size, trailer_size,
}

module _ (checksum : Bytes → ℕ) where
  -- The header carries the fields.
  pub header_fields :
      (f : Frame)
      → IsFrame f
      → (get_uint (slice 5 1 (encode_header f)) ≡ f.kind)
        × (get_uint (slice 8 8 (encode_header f)) ≡ f.sequence)
        × (get_uint (slice 16 8 (encode_header f)) ≡ f.recorded_at)
        × (get_uint (slice 24 4 (encode_header f)) ≡ length f.payload)
  unfolding encode_header put_uint get_uint get_from
  header_fields f h = (
    omega arith,
    get_uint-put_uint 8 f.sequence h.sequence_fits,
    get_uint-put_uint 8 f.recorded_at h.recorded_at_fits,
    get_uint-put_uint 4 (length f.payload) h.payload_fits,
  )

  pub length-encode_header : (f : Frame) → length (encode_header f) ≡ header_size
  unfolding encode_header put_uint
  length-encode_header f = refl

  header_passes :
      (f : Frame) (bs : Bytes)
      → read_frame checksum (encode_header f ++ bs)
        ≡ read_body checksum (encode_header f) (get_uint (slice 24 4 (encode_header f))) bs
  unfolding encode_header put_uint read_frame get_uint get_from bytes_equal split_at
  header_passes f bs = refl

  -- The magic and the version are in order, so the payload is read.
  pub after_header :
      (f : Frame) (bs : Bytes)
      → IsFrame f
      → read_frame checksum (encode_header f ++ bs)
        ≡ read_body checksum (encode_header f) (length f.payload) bs
  after_header f bs h =
      header_passes f bs
      ∙ ap (λ n. read_body checksum (encode_header f) n bs) ((header_fields f h).3)

  whole_checks :
      (f : Frame) (rest : Bytes)
      → IsFrame f
      → checksum (encode_header f ++ f.payload) < 256 ^ 4
      → check_payload checksum
          (encode_header f)
          (length f.payload)
          f.payload
          (put_uint 4 (checksum (encode_header f ++ f.payload)))
          rest
        ≡ frame_read f (header_size + length f.payload + trailer_size) rest
  unfolding check_payload
  whole_checks f rest h c =
      let fields = header_fields f h in
      ground (arith, get_uint-put_uint 4 (checksum (encode_header f ++ f.payload)) c)

  -- The payload and the trailer are all that the second read takes.
  split_body :
      (f : Frame) (crc : Bytes) (rest : Bytes)
      → length crc ≡ trailer_size
      → split_at (length f.payload + trailer_size) (f.payload ++ crc ++ rest)
        ≡ some (f.payload ++ crc, rest)
  split_body f crc rest h =
      let measured : length (f.payload ++ crc) ≡ length f.payload + 4 =
        omega (arith, length-append f.payload crc) in
      rw (sym measured) (split_at-append (f.payload ++ crc) rest)

  body_read :
      (f : Frame) (crc : Bytes) (rest : Bytes)
      → length crc ≡ trailer_size
      → read_body checksum (encode_header f) (length f.payload) (f.payload ++ crc ++ rest)
        ≡ check_payload checksum (encode_header f) (length f.payload) f.payload crc rest
  unfolding read_body
  body_read f crc rest c = ground (
    arith,
    split_body f crc rest c,
    take-append_length f.payload crc,
    drop-append_length f.payload crc,
  )

  -- A reader takes back the frame that was written, and leaves what follows it.
  pub read_frame-encode_frame :
      (f : Frame) (rest : Bytes)
      → IsFrame f
      → checksum (encode_header f ++ f.payload) < 256 ^ 4
      → read_frame checksum (encode_frame checksum f ++ rest)
        ≡ frame_read f (header_size + length f.payload + trailer_size) rest
  unfolding encode_frame
  read_frame-encode_frame f rest h c =
      let checked = encode_header f ++ f.payload in
      let crc = put_uint 4 (checksum checked) in
      ap (read_frame checksum) (
        append_assoc checked crc rest
        ∙ append_assoc (encode_header f) f.payload (crc ++ rest)
        ∙ ap (λ bs. encode_header f ++ bs) (sym (append_assoc f.payload crc rest)))
      ∙ after_header f (f.payload ++ crc ++ rest) h
      ∙ body_read f crc rest (length-put_uint 4 (checksum checked))
      ∙ whole_checks f rest h c
