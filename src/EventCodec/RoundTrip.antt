-- ===== src/EventCodec/RoundTrip.antt =====
-- Every event that `EncodeEvent` accepts is given back by `DecodeEvent`:
-- internal/simulation/event_codec.go.
use hacker_sprint2_sim.Common.{
  Bool, true, false, ◌&&◌, ◌≡◌, refl, sym, ap, ◌∙◌, Option, none, some, List, [], ◌∷◌, arith,
}
use hacker_sprint2_sim.Common.Lists.{all}
use hacker_sprint2_sim.Common.Text.{codes}
use hacker_sprint2_sim.Common.Result.{ok, and_then, and_then-ok, ok-injective, err_ne_ok}
use hacker_sprint2_sim.Events.{
  world_created, Fact, Event, fact, world_schedule_created, ScheduledWorldEvent,
  WorldScheduleCreated,
}
use hacker_sprint2_sim.Journal.Bytes.{Bytes, bytes_equal}
use hacker_sprint2_sim.EventCodec.{
  Json, IsInverse, raw_is_compact, scheduled_is_compact, event_is_compact, factory, encode_fact,
  encode_optional, encode_schedule, encode_event, decode_fact, decode_schedule, decode_event,
  EncodedScheduledEvent, EncodedWorldSchedule,
}
use hacker_sprint2_sim.EventCodec.Names.{event_type, schedule_type}
use hacker_sprint2_sim.EventCodec.Kinds.{kind_of, event_factories}

-- Every type has its factory.
factory-event_type : (e : Fact) → factory (codes (event_type e)) event_factories ≡ some (kind_of e)
unfolding factory event_type kind_of bytes_equal
factory-event_type (world_created _) = refl
factory-event_type _ = search arith

-- No event but a schedule is taken for a schedule.
schedule_type-event_type :
    (e : Fact) → bytes_equal (codes schedule_type) (codes (event_type e)) ≡ false
unfolding event_type bytes_equal
schedule_type-event_type (world_created _) = refl
schedule_type-event_type _ = search arith

both : (a b : Bool) → (a && b) ≡ true → (a ≡ true) × (b ≡ true)
both true b h = (refl, h)
both false b h = cc

module _ (json : Json) (inverse : IsInverse json) where
  decode_fact-encode_fact :
      (e : Fact) (name payload : Bytes)
      → raw_is_compact json e ≡ true
      → encode_fact json e ≡ ok (name, payload)
      → (name ≡ codes (event_type e)) × (decode_fact json name payload ≡ ok e)
  unfolding encode_fact decode_fact
  decode_fact-encode_fact e name payload compact h =
      let found = and_then-ok (json.marshal e) _ h in
      ground (
        arith,
        ok-injective found.2,
        factory-event_type e,
        inverse.unmarshal-marshal e found.0 found.1 compact,
      )

  decode_fact-encode_optional :
      (o : Option Fact) (name payload : Bytes)
      → scheduled_is_compact json o ≡ true
      → encode_optional json o ≡ ok (name, payload)
      → (e : Fact) × (o ≡ some e) × (decode_fact json name payload ≡ ok e)
  unfolding encode_optional scheduled_is_compact
  decode_fact-encode_optional none name payload compact h = absurd (err_ne_ok h)
  decode_fact-encode_optional (some e) name payload compact h =
      (e, refl, (decode_fact-encode_fact e name payload compact h).1)

  decode_schedule-encode_schedule :
      (schedule : List ScheduledWorldEvent) (encoded : List EncodedScheduledEvent)
      → all (λ (x : ScheduledWorldEvent). scheduled_is_compact json x.event) schedule ≡ true
      → encode_schedule json schedule ≡ ok encoded
      → decode_schedule json encoded ≡ ok schedule
  unfolding encode_schedule decode_schedule and_then
  decode_schedule-encode_schedule [] encoded compact h =
      ap (decode_schedule json) (sym (ok-injective h))
  decode_schedule-encode_schedule (scheduled ∷ more) encoded compact h =
      let (here, there) = both (scheduled_is_compact json scheduled.event) _ compact in
      let first = and_then-ok (encode_optional json scheduled.event) _ h in
      let rest = and_then-ok (encode_schedule json more) _ first.2 in
      let one = decode_fact-encode_optional scheduled.event first.0.0 first.0.1 here first.1 in
      ground
        (arith, ok-injective rest.2, one, decode_schedule-encode_schedule more rest.0 there rest.1)

  decode_schedule_event :
      (s : WorldScheduleCreated) (encoded : EncodedWorldSchedule) (payload : Bytes)
      → json.unmarshal_schedule payload ≡ ok encoded
      → encoded.created_at ≡ s.created_at
      → decode_schedule json encoded.schedule ≡ ok s.schedule
      → decode_event json (codes schedule_type) payload ≡ ok (world_schedule_created s)
  unfolding decode_event bytes_equal and_then
  decode_schedule_event s encoded payload h c d = ground (arith)

  pub decode_event-encode_event :
      (e : Event) (name payload : Bytes)
      → event_is_compact json e ≡ true
      → encode_event json e ≡ ok (name, payload)
      → decode_event json name payload ≡ ok e
  unfolding encode_event decode_event event_is_compact and_then
  decode_event-encode_event (fact e) name payload compact h =
      let found = decode_fact-encode_fact e name payload compact h in
      ground (arith, found, schedule_type-event_type e)
  decode_event-encode_event (world_schedule_created s) name payload compact h =
      let events = and_then-ok (encode_schedule json s.schedule) _ h in
      let encoded : EncodedWorldSchedule = record {
        schedule = events.0;
        created_at = s.created_at;
      } in
      let bytes = and_then-ok (json.marshal_schedule encoded) _ events.2 in
      ap (λ x. decode_event json x.0 x.1) (sym (ok-injective bytes.2))
      ∙ decode_schedule_event s encoded bytes.0
          (inverse.unmarshal_schedule-marshal_schedule encoded bytes.0 bytes.1) refl
          (decode_schedule-encode_schedule s.schedule events.0 compact events.1)
