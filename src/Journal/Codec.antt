-- ===== src/Journal/Codec.antt =====
-- The event codec of internal/simulation/event_codec.go as internal/persistence/journal/format.go calls it.
use hacker_sprint2_sim.Common.{◌≡◌, ap}
use hacker_sprint2_sim.Common.Result.{Result, ok, err, ok-injective, err_ne_ok}
use hacker_sprint2_sim.EventCodec.{
  CodecError, Json, IsInverse, event_is_compact, encode_event, decode_event,
}
use hacker_sprint2_sim.EventCodec.RoundTrip.{decode_event-encode_event}
use hacker_sprint2_sim.Journal.{JournalError, event_codec}
use hacker_sprint2_sim.Journal.Batch.{EventCodec}

-- The wrapped error is not told apart.
unfoldable pub wrapped : {A : Type 0} → Result CodecError A → Result JournalError A
wrapped (err e) = err event_codec
wrapped (ok a) = ok a

pub wrapped-ok : {A : Type 0} (r : Result CodecError A) {a : A} → wrapped r ≡ ok a → r ≡ ok a
unfolding wrapped
wrapped-ok (err e) h = absurd (err_ne_ok h)
wrapped-ok (ok a) h = ap ok (ok-injective h)

-- The interface of the batches, filled by the codec of the simulation. An event is stable where its
-- fields of type json.RawMessage are compact.
unfoldable pub journal_codec : (json : Json) → IsInverse json → EventCodec
unfolding wrapped
journal_codec json inverse = record {
  encode_event = λ e. wrapped (encode_event json e);
  decode_event = λ name payload. wrapped (decode_event json name payload);
  is_stable = event_is_compact json;
  decode-encode = λ e name payload stable h. ap wrapped (
      decode_event-encode_event json inverse e name payload stable
        (wrapped-ok (encode_event json e) h));
}
