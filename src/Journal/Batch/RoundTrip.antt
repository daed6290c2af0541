-- ===== src/Journal/Batch/RoundTrip.antt =====
-- `decodeDomainBatch` reads back what `encodeDomainBatch` wrote: internal/persistence/journal/format.go.
use mathlib.Core.List.{append_assoc, append-nil}
use hacker_sprint2_sim.Common.{
  ℕ, ◌+◌, ◌-◌, ◌%◌, ◌^◌, ◌<◌, ◌≤◌, ◌≡◌, refl, sym, ap, ◌∙◌, List, [], ◌∷◌, ◌++◌, arith, true, false,
}
use hacker_sprint2_sim.Common.Tests.{ltb}
use hacker_sprint2_sim.Common.Lists.{length, length-append}
use hacker_sprint2_sim.Common.Result.{ok, and_then, and_then-ok, ok-injective, guard-ok}
use hacker_sprint2_sim.Events.{Event}
use hacker_sprint2_sim.Store.Memory.{stored_from}
use hacker_sprint2_sim.Journal.{type_too_long}
use hacker_sprint2_sim.Journal.Bytes.{
  Bytes, put_uint, split_at-append, get_uint-put_uint, length-put_uint,
}
use hacker_sprint2_sim.Journal.Batch.{
  EventCodec, AreStable, read_full, encode_record, encode_records, encode_domain_batch,
  decode_record, decode_records, decode_domain_batch, no_trailing_bytes,
}

read_full-append : (xs ys : Bytes) (n : ℕ) → length xs ≡ n → read_full n (xs ++ ys) ≡ ok (xs, ys)
unfolding read_full
read_full-append xs ys n h = ground (arith, split_at-append xs ys)

read_uint : (n v : ℕ) (bs : Bytes) → read_full n (put_uint n v ++ bs) ≡ ok (put_uint n v, bs)
read_uint n v bs = read_full-append (put_uint n v) bs n (length-put_uint n v)

short : (n : ℕ) → ltb (2 ^ 16 - 1) n ≡ false → n < 256 ^ 2
short n h = ground arith

module _ (codec : EventCodec) where
  -- What the loop writes for an event that the codec has encoded.
  abbrev record_of : Bytes → Bytes → Bytes
  record_of event_type payload =
      put_uint 2 (length event_type) ++ event_type ++ put_uint 4 (length payload) ++ payload

  decode_record-record_of :
      (event : Event) (event_type payload rest : Bytes)
      → codec.decode_event event_type payload ≡ ok event
      → length event_type < 256 ^ 2
      → length payload < 256 ^ 4
      → decode_record codec (
          put_uint 2 (length event_type)
          ++ (event_type ++ (put_uint 4 (length payload) ++ (payload ++ rest))))
        ≡ ok (event, rest)
  unfolding decode_record and_then
  decode_record-record_of event event_type payload rest d t p = ground (
    arith,
    read_uint 2 (length event_type)
        (event_type ++ (put_uint 4 (length payload) ++ (payload ++ rest))),
    get_uint-put_uint 2 (length event_type) t,
    read_full-append event_type (put_uint 4 (length payload) ++ (payload ++ rest))
        (length event_type) refl,
    read_uint 4 (length payload) (payload ++ rest),
    get_uint-put_uint 4 (length payload) p,
    read_full-append payload rest (length payload) refl,
  )

  -- A record that was written has the form above.
  encode_record-ok :
      (event : Event) (bs : Bytes)
      → encode_record codec event ≡ ok bs
      → (event_type : Bytes) × (payload : Bytes) × (codec.encode_event event
          ≡ ok (event_type, payload))
        × (length event_type < 256 ^ 2)
        × (bs ≡ record_of event_type payload)
  unfolding encode_record
  encode_record-ok event bs h =
      let found = and_then-ok (codec.encode_event event) _ h in
      let passed = guard-ok type_too_long (ltb (2 ^ 16 - 1) (length found.0.0)) _ found.2 in
      (
        found.0.0,
        found.0.1,
        found.1,
        short (length found.0.0) passed.0,
        sym (ok-injective passed.1),
      )

  -- What is written for one event is read back, whatever follows it.
  decode_record-encode_record :
      (event : Event) (bs rest : Bytes)
      → codec.is_stable event ≡ true
      → encode_record codec event ≡ ok bs
      → length bs < 256 ^ 4
      → decode_record codec (bs ++ rest) ≡ ok (event, rest)
  decode_record-encode_record event bs rest stable h small =
      let written = encode_record-ok event bs h in
      let event_type = written.0 in
      let payload = written.1 in
      let head = put_uint 2 (length event_type) in
      let middle = put_uint 4 (length payload) in
      ap (λ x. decode_record codec (x ++ rest)) written.4
      ∙ ap (decode_record codec) (
          append_assoc (head ++ event_type ++ middle) payload rest
          ∙ append_assoc (head ++ event_type) middle (payload ++ rest)
          ∙ append_assoc head event_type (middle ++ (payload ++ rest)))
      ∙ decode_record-record_of event event_type payload rest
          (codec.decode-encode event event_type payload stable written.2) written.3
          (omega (arith, ap length written.4, length-append (head ++ event_type ++ middle) payload))

  -- An event takes at least one byte.
  encode_records-length :
      (es : List Event) (bs : Bytes) → encode_records codec es ≡ ok bs → length es ≤ length bs
  unfolding encode_records
  encode_records-length [] bs h = omega arith
  encode_records-length (e ∷ es) bs h =
      let first = and_then-ok (encode_record codec e) _ h in
      let next = and_then-ok (encode_records codec es) _ first.2 in
      let written = encode_record-ok e first.0 first.1 in
      let front = put_uint 2 (length (written.0)) ++ written.0 in
      let middle = front ++ put_uint 4 (length (written.1)) in
      omega (
        arith,
        ap length (ok-injective next.2),
        length-append first.0 next.0,
        ap length written.4,
        length-append middle written.1,
        length-append front (put_uint 4 (length (written.1))),
        length-put_uint 4 (length (written.1)),
        encode_records-length es next.0 next.1,
      )

  -- So is what the loop writes, with the versions counted on from the first.
  decode_records-encode_records :
      (n index : ℕ) (es : List Event) (bs rest : Bytes)
      → AreStable codec es
      → encode_records codec es ≡ ok bs
      → length bs < 256 ^ 4
      → n + index + length es < 2 ^ 64
      → decode_records codec (length es) (n + 1) index (bs ++ rest)
        ≡ ok (stored_from (n + index) es, rest)
  unfolding encode_records decode_records stored_from and_then
  decode_records-encode_records n index [] bs rest stable h small fits =
      ap (λ x. ok ([], x ++ rest)) (sym (ok-injective h))
  decode_records-encode_records n index (e ∷ es) bs rest stable h small fits =
      let first = and_then-ok (encode_record codec e) _ h in
      let next = and_then-ok (encode_records codec es) _ first.2 in
      let shape : first.0 ++ next.0 ≡ bs = ok-injective next.2 in
      let one =
        ap (λ x. decode_record codec (x ++ rest)) (sym shape)
        ∙ ap (decode_record codec) (append_assoc first.0 next.0 rest)
        ∙ decode_record-encode_record e first.0 (next.0 ++ rest) stable.0 first.1
            (omega (arith, ap length shape, length-append first.0 next.0)) in
      let more =
        decode_records-encode_records n (index + 1) es next.0 rest stable.1 next.1
          (omega (arith, ap length shape, length-append first.0 next.0)) (omega arith) in
      let counted : n + (index + 1) ≡ n + index + 1 = omega arith in
      let version : (n + 1 + index) % 2 ^ 64 ≡ n + index + 1 = omega arith in
      ground (arith, one, more, counted, version)

  -- `decodeDomainBatch` gives the stable events that `encodeDomainBatch` was given, numbered on from its
  -- first version, where the payload is below 4 GiB and the versions are below 2^64. An event is
  -- stable where the event codec decodes it as it was encoded.
  pub decode_domain_batch-encode_domain_batch :
      (n : ℕ) (es : List Event) (payload : Bytes)
      → AreStable codec es
      → encode_domain_batch codec (n + 1) es ≡ ok payload
      → length payload < 256 ^ 4
      → n + length es + 1 < 2 ^ 64
      → decode_domain_batch codec payload ≡ ok (stored_from n es)
  unfolding encode_domain_batch decode_domain_batch and_then no_trailing_bytes
  decode_domain_batch-encode_domain_batch n es payload stable h small fits =
      let records = and_then-ok (encode_records codec es) _ h in
      let shape = sym (ok-injective records.2) in
      let count = put_uint 4 (length es) in
      let first = put_uint 8 (n + 1) in
      let all_read =
        decode_records-encode_records n 0 es records.0 [] stable records.1
          (omega (arith, ap length shape, length-append (first ++ count) records.0))
          (omega arith) in
      let fields =
        ap (read_full 8) (shape ∙ append_assoc first count records.0)
        ∙ read_uint 8 (n + 1) (count ++ records.0) in
      let first_value = get_uint-put_uint 8 (n + 1) (omega arith) in
      let count_value = get_uint-put_uint 4 (length es) (
        omega (
          arith,
          ap length shape,
          length-append (first ++ count) records.0,
          encode_records-length es records.0 records.1,
        )) in
      ground (
        arith,
        fields,
        read_uint 4 (length es) records.0,
        first_value,
        count_value,
        all_read,
        append-nil records.0,
      )
