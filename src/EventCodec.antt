-- ===== src/EventCodec.antt =====
-- The event codec: internal/simulation/event_codec.go. `encoding/json` is a parameter; a type name is
-- the sequence of its bytes, and every name of the table is ASCII.
pub mod Names
pub mod Kinds
pub mod RoundTrip
use hacker_sprint2_sim.Common.{ℕ, String, Bool, true, false, ◌≡◌, Option, none, some, List, [], ◌∷◌}
use hacker_sprint2_sim.Common.Tests.{if◌then◌else◌}
use hacker_sprint2_sim.Common.Lists.{all}
use hacker_sprint2_sim.Common.Text.{codes}
use hacker_sprint2_sim.Common.Result.{Result, ok, err, and_then}
use hacker_sprint2_sim.Model.Types.{Time}
use hacker_sprint2_sim.Events.{
  Fact, Event, fact, control_command_accepted, control_command_response_recorded,
  control_operation_result_recorded, world_schedule_created, ScheduledWorldEvent,
  WorldScheduleCreated,
}
use hacker_sprint2_sim.Journal.Bytes.{Bytes, bytes_equal}
use Names.{event_type, schedule_type}
use Kinds.{EventKind, kind_of, event_factories}

-- The wrapped sentinel ErrInvalidEvent, and an error of `encoding/json`.
pub data CodecError : Type 0 where
  invalid_event json_error : CodecError

-- encodedScheduledEvent
pub record EncodedScheduledEvent : Type 0 where
  pub sequence : ℕ
  pub occurs_at : Time
  pub event_type : Bytes
  pub payload : Bytes

-- encodedWorldSchedule
pub record EncodedWorldSchedule : Type 0 where
  pub schedule : List EncodedScheduledEvent
  pub created_at : Time

-- json.Marshal and json.Unmarshal at the types of this file. An event is unmarshalled into a value of
-- a type that a factory allocates. `is_compact` holds of a json.RawMessage that json.Marshal writes as
-- it is: valid JSON without white space, and not nil, which is written as null.
pub record Json : Type 0 where
  pub marshal : Fact → Result CodecError Bytes
  pub is_compact : Bytes → Bool
  pub unmarshal : EventKind → Bytes → Result CodecError Fact
  pub marshal_schedule : EncodedWorldSchedule → Result CodecError Bytes
  pub unmarshal_schedule : Bytes → Result CodecError EncodedWorldSchedule

-- The fields of type json.RawMessage are written as they are.
unfoldable pub raw_is_compact : Json → Fact → Bool
raw_is_compact json (control_command_accepted e) = json.is_compact e.params
raw_is_compact json (control_command_response_recorded e) = json.is_compact e.result
raw_is_compact json (control_operation_result_recorded e) = json.is_compact e.result
raw_is_compact json _ = true

unfoldable pub scheduled_is_compact : Json → Option Fact → Bool
scheduled_is_compact json none = true
scheduled_is_compact json (some e) = raw_is_compact json e

-- The same of all events of a schedule.
unfoldable pub event_is_compact : Json → Event → Bool
event_is_compact json (fact e) = raw_is_compact json e
event_is_compact json (world_schedule_created s) =
    all (λ (x : ScheduledWorldEvent). scheduled_is_compact json x.event) s.schedule

-- What is marshalled is unmarshalled into an equal value of the same type.
pub record IsInverse (json : Json) : Type 0 where
  pub unmarshal-marshal :
      (e : Fact) (payload : Bytes)
      → json.marshal e ≡ ok payload
      → raw_is_compact json e ≡ true
      → json.unmarshal (kind_of e) payload ≡ ok e
  pub unmarshal_schedule-marshal_schedule :
      (schedule : EncodedWorldSchedule) (payload : Bytes)
      → json.marshal_schedule schedule ≡ ok payload
      → json.unmarshal_schedule payload ≡ ok schedule

-- eventFactories[eventType]
unfoldable pub factory : Bytes → List (String × EventKind) → Option EventKind
factory name [] = none
factory name ((known, kind) ∷ more) =
    if bytes_equal (codes known) name then some kind else factory name more

module _ (json : Json) where
  -- EncodeEvent of an event that is no schedule.
  unfoldable pub encode_fact : Fact → Result CodecError (Bytes × Bytes)
  encode_fact e = and_then (json.marshal e) (λ payload. ok (codes (event_type e), payload))

  -- EncodeEvent(scheduled.Event), which refuses a nil event.
  unfoldable pub encode_optional : Option Fact → Result CodecError (Bytes × Bytes)
  encode_optional none = err invalid_event
  encode_optional (some e) = encode_fact e

  -- The loop over the schedule.
  unfoldable pub encode_schedule :
      List ScheduledWorldEvent → Result CodecError (List EncodedScheduledEvent)
  encode_schedule [] = ok []
  encode_schedule (scheduled ∷ more) =
      and_then (encode_optional scheduled.event) (λ (name, payload).
        and_then (encode_schedule more) (λ rest. ok (
          record {
            sequence = scheduled.sequence;
            occurs_at = scheduled.occurs_at;
            event_type = name;
            payload = payload;
          }
          ∷ rest)))

  -- EncodeEvent
  unfoldable pub encode_event : Event → Result CodecError (Bytes × Bytes)
  encode_event (fact e) = encode_fact e
  encode_event (world_schedule_created s) = and_then (encode_schedule s.schedule) (λ schedule.
      and_then (json.marshal_schedule (record { schedule = schedule; created_at = s.created_at }))
        (λ payload. ok (codes schedule_type, payload)))

  -- DecodeEvent of a type that is no schedule.
  unfoldable pub decode_fact : Bytes → Bytes → Result CodecError Fact
  decode_fact name payload = elim (factory name event_factories) [
    | none ↦ err invalid_event
    | some kind ↦ json.unmarshal kind payload
  ]

  -- The loop over the encoded schedule.
  unfoldable pub decode_schedule :
      List EncodedScheduledEvent → Result CodecError (List ScheduledWorldEvent)
  decode_schedule [] = ok []
  decode_schedule (scheduled ∷ more) =
      and_then (decode_fact scheduled.event_type scheduled.payload) (λ e.
        and_then (decode_schedule more) (λ rest. ok (
          record { sequence = scheduled.sequence; occurs_at = scheduled.occurs_at; event = some e }
          ∷ rest)))

  -- DecodeEvent
  unfoldable pub decode_event : Bytes → Bytes → Result CodecError Event
  decode_event name payload =
      if bytes_equal (codes schedule_type) name
      then and_then (json.unmarshal_schedule payload) (λ encoded.
        and_then (decode_schedule encoded.schedule) (λ schedule. ok (
          world_schedule_created
            (record { schedule = schedule; created_at = encoded.created_at }))))
      else and_then (decode_fact name payload) (λ e. ok (fact e))
