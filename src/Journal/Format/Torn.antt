-- ===== src/Journal/Format/Torn.antt =====
-- What `readFrame` of internal/persistence/journal/format.go makes of the first bytes of a frame.
use mathlib.Core.List.{append_assoc, head-eq_of_cons-eq, tail-eq_of_cons-eq}
use mathlib.Core.Path.{ap₂}
use hacker_sprint2_sim.Common.{
  ℕ, ◌+◌, ◌<◌, ◌≡◌, refl, sym, ap, ◌∙◌, [], ◌∷◌, ◌++◌, arith, ◌||◌, ◌⊎◌, inl, inr,
}
use hacker_sprint2_sim.Common.Tests.{◌==◌, if◌then◌else◌}
use hacker_sprint2_sim.Common.Lists.{length, length-append}
use hacker_sprint2_sim.Journal.{eof, unexpected_eof}
use hacker_sprint2_sim.Journal.Bytes.{Bytes, put_uint, split_at, split_at-none, length-put_uint}
use hacker_sprint2_sim.Journal.Format.{
  Frame, IsFrame, FrameRead, read_failed, encode_header, encode_frame, read_frame, read_body,
  header_size, trailer_size,
}
use hacker_sprint2_sim.Journal.Format.RoundTrip.{after_header, length-encode_header}

-- A cut list ends in the first of two parts, or behind it in the second.
cut-cases :
    (xs ys front : Bytes) (x : ℕ) (back : Bytes)
    → xs ++ ys ≡ front ++ (x ∷ back)
    → (length front < length xs)
      ⊎ ((more : Bytes) × (front ≡ xs ++ more) × (ys ≡ more ++ (x ∷ back)))
cut-cases [] ys front x back h = inr (front, refl, h)
cut-cases (b ∷ xs) ys [] x back h = inl (omega arith)
cut-cases (b ∷ xs) ys (c ∷ front) x back h =
    elim (cut-cases xs ys front x back (tail-eq_of_cons-eq h)) [
      | inl s ↦ inl (omega arith)
      | inr (more, e, g) ↦ inr (more, (ap₂ ◌∷◌ (sym (head-eq_of_cons-eq h)) e), g)
    ]

-- The error of a frame of which `n` bytes are left: where a read finds nothing at all, `io.ReadFull`
-- answers `io.EOF`.
abbrev pub torn : ℕ → FrameRead
torn n = if n == 0 || n == header_size then read_failed eof [] else read_failed unexpected_eof []

module _ (checksum : Bytes → ℕ) where
  torn_header : (bs : Bytes) → length bs < header_size → read_frame checksum bs ≡ torn (length bs)
  unfolding read_frame split_at
  torn_header [] h = refl
  torn_header (b ∷ bs) h = ground (arith, split_at-none header_size (b ∷ bs) h)

  pub torn_body :
      (f : Frame) (more : Bytes)
      → length more < length f.payload + trailer_size
      → read_body checksum (encode_header f) (length f.payload) more
        ≡ torn (header_size + length more)
  unfolding read_body
  torn_body f [] short = ground (arith, split_at-none (length f.payload + trailer_size) [] short)
  torn_body f (b ∷ more) short =
      ground (arith, split_at-none (length f.payload + trailer_size) (b ∷ more) short)

  -- Of a frame that is cut short nothing is read. The error is `io.EOF` where no byte or exactly the
  -- header is left, and `io.ErrUnexpectedEOF` at every other cut.
  pub read_frame-torn :
      (f : Frame) (front : Bytes) (x : ℕ) (back : Bytes)
      → IsFrame f
      → encode_frame checksum f ≡ front ++ (x ∷ back)
      → read_frame checksum front ≡ torn (length front)
  unfolding encode_frame
  read_frame-torn f front x back h e =
      let crc = put_uint 4 (checksum (encode_header f ++ f.payload)) in
      elim (cut-cases (encode_header f) (f.payload ++ crc) front x back
        (sym (append_assoc (encode_header f) f.payload crc) ∙ e)) [
          | inl s ↦ torn_header front (omega (arith, length-encode_header checksum f))
          | inr (more, g, body) ↦
              ap (read_frame checksum) g
              ∙ after_header checksum f more h
              ∙ torn_body f more (
                  omega (
                    arith,
                    ap length body,
                    length-append f.payload crc,
                    length-append more (x ∷ back),
                    length-put_uint 4 (checksum (encode_header f ++ f.payload)),
                  ))
              ∙ ap torn {x = header_size + length more} {y = length front} (
                  omega (
                    arith,
                    ap length g,
                    length-append (encode_header f) more,
                    length-encode_header checksum f,
                  ))
        ]
