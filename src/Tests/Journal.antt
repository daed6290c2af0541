-- ===== src/Tests/Journal.antt =====
-- Frames, batches, segments and appends at small values: internal/persistence/journal.
use hacker_sprint2_sim.Common.{
  true, not, ℕ, ◌+◌, ◌%◌, ◌^◌, ◌<◌, ◌≡◌, refl, sym, ap, [], ◌∷◌, ◌++◌, arith,
}
use hacker_sprint2_sim.Common.Int.{pos, negsuc, ℤ}
use hacker_sprint2_sim.Common.Lists.{length}
use hacker_sprint2_sim.Common.Text.{codes}
use hacker_sprint2_sim.Common.Result.{Result, ok, err, and_then, ok-injective, err_ne_ok}
use hacker_sprint2_sim.Events.{Event, Fact, fact, infrastructure_configured}
use hacker_sprint2_sim.EventCodec.{
  CodecError, Json, IsInverse, event_is_compact, raw_is_compact, json_error, encode_event,
  encode_fact,
}
use hacker_sprint2_sim.EventCodec.Names.{event_type}
use hacker_sprint2_sim.EventCodec.Kinds.{EventKind, infrastructure_configured_kind, kind_of}
use hacker_sprint2_sim.Common.Tests.{◌==◌}
use hacker_sprint2_sim.Store.Memory.{stored_from}
use hacker_sprint2_sim.Journal.Bytes.{Bytes, put_uint}
use hacker_sprint2_sim.Journal.Format.{
  Frame, IsFrame, encode_frame, encode_header, read_frame, frame_read, header_size, trailer_size,
}
use hacker_sprint2_sim.Journal.Format.RoundTrip.{read_frame-encode_frame}
use hacker_sprint2_sim.Journal.Batch.{
  EventCodec, AreStable, encode_domain_batch, decode_domain_batch, encode_records, encode_record,
}
use hacker_sprint2_sim.Journal.Batch.RoundTrip.{decode_domain_batch-encode_domain_batch}
use hacker_sprint2_sim.Journal.Codec.{journal_codec, wrapped}

-- A checksum of 32 bits.
abbrev pub test_checksum : Bytes → ℕ
test_checksum bs = length bs % 256

pub test_checksum-lt : (bs : Bytes) → test_checksum bs < 256 ^ 4
test_checksum-lt bs = omega arith

-- A format for one type of event, in place of JSON.
unfoldable pub test_marshal : Fact → Result CodecError Bytes
test_marshal (infrastructure_configured e) = elim (e.server_provisioning_duration) [
  | pos n ↦ ok (n ∷ e.configured_at ∷ [])
  | negsuc n ↦ err json_error
]
test_marshal _ = err json_error

unfoldable pub test_unmarshal : EventKind → Bytes → Result CodecError Fact
test_unmarshal kind (n ∷ at ∷ []) = ok (
    infrastructure_configured (record { server_provisioning_duration = pos n; configured_at = at }))
test_unmarshal kind _ = err json_error

abbrev pub test_json : Json
test_json = record {
  marshal = test_marshal;
  is_compact = λ bs. not (length bs == 0);
  unmarshal = test_unmarshal;
  marshal_schedule = λ s. err json_error;
  unmarshal_schedule = λ bs. err json_error;
}

configured_again :
    (d : ℤ) (at : ℕ) (payload : Bytes)
    → test_marshal (
        infrastructure_configured (record { server_provisioning_duration = d; configured_at = at }))
      ≡ ok payload
    → test_unmarshal infrastructure_configured_kind payload
      ≡ ok (
          infrastructure_configured
            (record { server_provisioning_duration = d; configured_at = at }))
unfolding test_marshal test_unmarshal
configured_again (pos n) at payload h =
    ap (test_unmarshal infrastructure_configured_kind) (sym (ok-injective h))
configured_again (negsuc n) at payload h = absurd (err_ne_ok h)

unmarshal-marshal :
    (e : Fact) (payload : Bytes)
    → test_marshal e ≡ ok payload
    → raw_is_compact test_json e ≡ true
    → test_unmarshal (kind_of e) payload ≡ ok e
unfolding test_marshal kind_of
unmarshal-marshal (infrastructure_configured e) payload h compact =
    configured_again e.server_provisioning_duration e.configured_at payload h
unmarshal-marshal _ payload h compact = absurd (err_ne_ok h)

pub test-IsInverse : IsInverse test_json
test-IsInverse = record {
  unmarshal-marshal = unmarshal-marshal;
  unmarshal_schedule-marshal_schedule = λ s payload h. absurd (err_ne_ok h);
}

abbrev pub test_codec : EventCodec
unfolding journal_codec
test_codec = journal_codec test_json test-IsInverse

abbrev pub configured : Event
configured = fact (
    infrastructure_configured (record { server_provisioning_duration = pos 60; configured_at = 5 }))

-- The batch of one event from version 8.
abbrev batch : Bytes
batch =
    put_uint 8 8
    ++ put_uint 4 1
    ++ (put_uint 2 24 ++ codes "InfrastructureConfigured" ++ put_uint 4 2 ++ (60 ∷ 5 ∷ []))

pub configured-AreStable : AreStable test_codec (configured ∷ [])
unfolding journal_codec event_is_compact raw_is_compact
configured-AreStable = (refl, tt)

batch-encoded : encode_domain_batch test_codec 8 (configured ∷ []) ≡ ok batch
unfolding encode_domain_batch encode_records encode_record encode_event encode_fact test_marshal
    and_then event_type wrapped put_uint journal_codec
batch-encoded = refl

decode_domain_batch-encode_domain_batch_example :
    decode_domain_batch test_codec batch ≡ ok (stored_from 7 (configured ∷ []))
unfolding put_uint
decode_domain_batch-encode_domain_batch_example =
    decode_domain_batch-encode_domain_batch test_codec 7 (configured ∷ []) batch
      configured-AreStable batch-encoded (omega arith) (omega arith)

-- The frame that begins a transaction of two events.
abbrev pub begin_frame : Frame
begin_frame = record {
  kind = 4;
  sequence = 1;
  recorded_at = 7;
  payload = put_uint 8 1 ++ put_uint 8 2;
}

pub begin_frame-IsFrame : IsFrame begin_frame
unfolding put_uint
begin_frame-IsFrame = record {
  kind_fits = omega arith;
  sequence_fits = omega arith;
  recorded_at_fits = omega arith;
  payload_fits = omega arith;
}

read_frame-encode_frame_example :
    read_frame test_checksum (encode_frame test_checksum begin_frame ++ (9 ∷ []))
    ≡ frame_read begin_frame (header_size + length (begin_frame.payload) + trailer_size) (9 ∷ [])
read_frame-encode_frame_example =
    read_frame-encode_frame test_checksum begin_frame (9 ∷ []) begin_frame-IsFrame
      (test_checksum-lt (encode_header begin_frame ++ begin_frame.payload))
