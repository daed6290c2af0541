-- ===== src/Journal/Batch.antt =====
-- The domain batches of internal/persistence/journal/format.go: `encodeDomainBatch`,
-- `decodeDomainBatch`, over the event codec.
pub mod RoundTrip
use hacker_sprint2_sim.Common.{
  Bool, true, ℕ, zero, suc, ◌+◌, ◌%◌, ◌^◌, ◌-◌, ◌≡◌, none, some, List, [], ◌∷◌, ◌++◌,
}
use hacker_sprint2_sim.Common.Tests.{ltb, if◌then◌else◌}
use hacker_sprint2_sim.Common.Lists.{length, All}
use hacker_sprint2_sim.Common.Result.{Result, ok, err, and_then}
use hacker_sprint2_sim.Events.{Event}
use hacker_sprint2_sim.Stream.{StoredEvent}
use hacker_sprint2_sim.Journal.{JournalError, eof, unexpected_eof, trailing_bytes, type_too_long}
use hacker_sprint2_sim.Journal.Bytes.{Bytes, put_uint, get_uint, split_at}

-- simulation.EncodeEvent and simulation.DecodeEvent, as this file calls them: an event as the bytes
-- of its type and of its payload. A stable event is decoded as it was encoded.
pub record EventCodec : Type 0 where
  pub encode_event : Event → Result JournalError (Bytes × Bytes)
  pub decode_event : Bytes → Bytes → Result JournalError Event
  pub is_stable : Event → Bool
  pub decode-encode :
      (e : Event) (event_type payload : Bytes)
      → is_stable e ≡ true
      → encode_event e ≡ ok (event_type, payload)
      → decode_event event_type payload ≡ ok e

-- io.ReadFull and binary.Read on a reader of bytes: what is taken, and what is left.
unfoldable pub read_full : ℕ → Bytes → Result JournalError (Bytes × Bytes)
read_full n bs = elim (split_at n bs) [
  | some found ↦ ok found
  | none ↦ elim bs [ [] ↦ err eof | b ∷ more ↦ err unexpected_eof ]
]

-- Every event of a batch is stable.
abbrev pub AreStable : EventCodec → List Event → Type 0
AreStable codec es = All (λ e. codec.is_stable e ≡ true) es

module _ (codec : EventCodec) where
  -- The body of the loop of `encodeDomainBatch`.
  unfoldable pub encode_record : Event → Result JournalError Bytes
  encode_record event = and_then (codec.encode_event event) (λ (event_type, payload).
      if ltb (2 ^ 16 - 1) (length event_type)
      then err type_too_long
      else ok
          (put_uint 2 (length event_type) ++ event_type ++ put_uint 4 (length payload) ++ payload))

  unfoldable pub encode_records : List Event → Result JournalError Bytes
  encode_records [] = ok []
  encode_records (event ∷ events) =
      and_then (encode_record event)
        (λ record_bytes. and_then (encode_records events) (λ more. ok (record_bytes ++ more)))

  unfoldable pub encode_domain_batch : ℕ → List Event → Result JournalError Bytes
  encode_domain_batch first_version domain_events =
      and_then (encode_records domain_events)
        (λ records. ok (put_uint 8 first_version ++ put_uint 4 (length domain_events) ++ records))

  -- The body of the loop of `decodeDomainBatch`: one event and what is left.
  unfoldable pub decode_record : Bytes → Result JournalError (Event × Bytes)
  decode_record bs = and_then (read_full 2 bs) (λ (type_length, after_type_length).
      and_then (read_full (get_uint type_length) after_type_length) (λ (event_type, after_type).
        and_then (read_full 4 after_type) (λ (payload_length, after_payload_length).
          and_then (read_full (get_uint payload_length) after_payload_length) (λ (payload, rest).
            and_then (codec.decode_event event_type payload) (λ event. ok (event, rest))))))

  -- The loop, with the number of rounds that are left.
  unfoldable pub decode_records : ℕ → ℕ → ℕ → Bytes → Result JournalError (List StoredEvent × Bytes)
  decode_records zero first index bs = ok ([], bs)
  decode_records (suc n) first index bs = and_then (decode_record bs) (λ (event, rest).
      and_then (decode_records n first (index + 1) rest) (λ (records, left).
        ok (record { version = (first + index) % 2 ^ 64; event = event } ∷ records, left)))

  unfoldable pub no_trailing_bytes :
      List StoredEvent × Bytes → Result JournalError (List StoredEvent)
  no_trailing_bytes (records, []) = ok records
  no_trailing_bytes (records, b ∷ bs) = err trailing_bytes

  unfoldable pub decode_domain_batch : Bytes → Result JournalError (List StoredEvent)
  decode_domain_batch payload = and_then (read_full 8 payload) (λ (first, after_first).
      and_then (read_full 4 after_first) (λ (count, after_count).
        and_then (decode_records (get_uint count) (get_uint first) 0 after_count)
          no_trailing_bytes))
