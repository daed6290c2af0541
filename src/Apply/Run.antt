-- ===== src/Apply/Run.antt =====
-- The run, its configuration and the generated world: `State.Apply` in internal/simulation/state.go.
use hacker_sprint2_sim.Common.{
  ℕ, ◌+◌, Bool, true, false, not, ◌&&◌, ◌||◌, Option, none, some, List, [], ◌∷◌, ◌++◌,
}
use hacker_sprint2_sim.Common.Tests.{ltb, leb, ◌==◌, same, if◌then◌else◌}
use hacker_sprint2_sim.Common.Int.{ℤ, pos, ltz, lez, eqz, ◌+ℤ◌}
use hacker_sprint2_sim.Common.Lists.{length}
use hacker_sprint2_sim.Common.Map.{Map, insert, has, total}
use hacker_sprint2_sim.Common.Text.{is_empty, contains}
use hacker_sprint2_sim.Common.Sort.{sort}
use hacker_sprint2_sim.Platform.{Platform}
use hacker_sprint2_sim.State.{State, RunStatus}
use hacker_sprint2_sim.Outcome.{
  Outcome, done, refuse, ensure_running, invalid_event, world_already_created,
  product_already_exists,
}
use hacker_sprint2_sim.Apply.Shared.{is_now, valid_page, mark_scheduled}
use Prim.Native.String.{len}
use hacker_sprint2_sim.Model.Types.{Time}
use hacker_sprint2_sim.Events.{
  Fact, inbox_message_delivered, ScheduledWorldEvent, WorldScheduleCreated,
}
use hacker_sprint2_sim.Events.World.{
  WorldCreated, ProductAdded, PageConfigured, InfrastructureConfigured, CostsConfigured,
  InboxMessageDelivered,
}
use hacker_sprint2_sim.State.Records.{ProductState}

-- ProbabilityScale
abbrev pub probability_scale : ℕ
probability_scale = 1_000_000

unfoldable pub apply_costs_configured : Platform → State → CostsConfigured → Outcome
apply_costs_configured env s e = ensure_running s (
    refuse
      (not (len e.currency == 3)
        || not (same e.currency (env.to_upper e.currency))
        || not (is_empty s.costs.currency)
        || not (is_now s e.configured_at))
      invalid_event s (done (record s { costs = record (s.costs) { currency = e.currency } })))

unfoldable pub is_not_created : RunStatus → Bool
is_not_created RunStatus.not_created = true
is_not_created _ = false

unfoldable pub apply_world_created : State → WorldCreated → Outcome
apply_world_created s e = refuse (not (is_not_created s.status)) world_already_created s (
    refuse
      (is_empty e.run_id || eqz e.seed (pos 0) || e.started_at == 0 || leb e.ends_at e.started_at)
      invalid_event s
      (done (record s {
        run_id = e.run_id;
        seed = e.seed;
        status = RunStatus.running;
        clock = record {
          started_at = e.started_at;
          current_time = e.started_at;
          ends_at = e.ends_at;
        };
      })))

-- The probabilities of all products, in parts per million.
unfoldable pub total_view_probability : Map ProductState → ℤ
total_view_probability = total (λ p. pos p.view_probability_ppm)

unfoldable pub product_of : ProductAdded → ProductState
product_of e = record {
  id = e.product_id;
  name = e.name;
  description = e.description;
  manufacturer = if is_empty e.manufacturer then "Unknown" else e.manufacturer;
  price_minor = e.price_minor;
  available = e.available;
  version = 1;
  view_probability_ppm = e.view_probability_ppm;
  added_at = e.added_at;
  updated_at = e.added_at;
}

unfoldable pub apply_product_added : State → ProductAdded → Outcome
apply_product_added s e = ensure_running s (
    refuse
      (is_empty e.product_id
        || is_empty e.name
        || ltb 65536 (len e.description)
        || ltb 1000 (len e.manufacturer)
        || lez e.price_minor (pos 0)
        || ltb 1 e.version
        || ltb probability_scale e.view_probability_ppm
        || not (is_now s e.added_at))
      invalid_event s
      (refuse (has e.product_id s.products) product_already_exists s (
        refuse
          (ltz (pos probability_scale)
            (total_view_probability s.products +ℤ pos e.view_probability_ppm))
          invalid_event s
          (done (record s { products = insert e.product_id (product_of e) s.products })))))

unfoldable pub is_inbox_message : InboxMessageDelivered → Fact → Bool
is_inbox_message e f = elim f [
  | inbox_message_delivered x ↦
      same x.scenario_id e.scenario_id
      && same x.step_id e.step_id
      && same x.message_id e.message_id
      && same x.sender_email e.sender_email
      && x.sent_at == e.sent_at
      && same x.subject e.subject
      && same x.description e.description
  | _ ↦ false
]

unfoldable pub apply_inbox_message_delivered : State → InboxMessageDelivered → Outcome
apply_inbox_message_delivered s e = ensure_running s (
    refuse
      (is_empty e.message_id
        || ltb 128 (len e.message_id)
        || is_empty e.sender_email
        || ltb 320 (len e.sender_email)
        || not (contains e.sender_email "@")
        || ltb 1000 (len e.subject)
        || ltb 65536 (len e.description)
        || ltb e.sent_at s.clock.started_at
        || ltb s.clock.current_time e.sent_at)
      invalid_event s
      (refuse (has e.message_id s.inbox_messages) invalid_event s (
        done (
          mark_scheduled (is_inbox_message e) e.sent_at (record s {
            inbox_messages =
                insert e.message_id
                  (record {
                    id = e.message_id;
                    sender_email = e.sender_email;
                    sent_at = e.sent_at;
                    subject = e.subject;
                    description = e.description;
                  })
                  s.inbox_messages;
          })))))

unfoldable pub scheduled_before : ScheduledWorldEvent → ScheduledWorldEvent → Bool
scheduled_before a b =
    if a.occurs_at == b.occurs_at then ltb a.sequence b.sequence else ltb a.occurs_at b.occurs_at

unfoldable pub is_nil : Option Fact → Bool
is_nil none = true
is_nil (some f) = false

-- The loop over a schedule chunk, from the sequence number that is expected next.
unfoldable pub chunk_is_valid : State → ℕ → List ScheduledWorldEvent → Bool
chunk_is_valid s expected [] = true
chunk_is_valid s expected (item ∷ items) =
    item.sequence == expected
    && not (is_nil item.event)
    && leb s.clock.started_at item.occurs_at
    && leb item.occurs_at s.clock.ends_at
    && chunk_is_valid s (expected + 1) items

unfoldable pub last_occurs_at : List ScheduledWorldEvent → Time
last_occurs_at [] = 0
last_occurs_at (x ∷ xs) =
    let rest = last_occurs_at xs in elim xs [ [] ↦ x.occurs_at | y ∷ ys ↦ rest ]

-- The first item of a chunk may not precede the last item that is stored.
unfoldable pub follows : List ScheduledWorldEvent → List ScheduledWorldEvent → Bool
follows schedule [] = true
follows schedule (item ∷ items) =
    length schedule == 0 || leb (last_occurs_at schedule) item.occurs_at

unfoldable pub apply_world_schedule_created : State → WorldScheduleCreated → Outcome
apply_world_schedule_created s e =
    let chunk = sort scheduled_before e.schedule in
    ensure_running s (
      refuse
        (not (e.created_at == s.clock.started_at)
          || not (s.clock.current_time == s.clock.started_at))
        invalid_event s
        (refuse (not (chunk_is_valid s (length s.schedule + 1) chunk && follows s.schedule chunk))
          invalid_event s (done (record s { schedule = s.schedule ++ chunk }))))

unfoldable pub apply_page_configured : State → PageConfigured → Outcome
apply_page_configured s e = ensure_running s (
    refuse
      (not (valid_page e.page)
        || lez e.load_units (pos 0)
        || lez e.hold_duration (pos 0)
        || ltz e.base_latency (pos 0)
        || not (is_now s e.configured_at))
      invalid_event s
      (refuse (has e.page s.pages) invalid_event s (
        done (record s {
          pages =
              insert e.page
                (record {
                  page = e.page;
                  load_units = e.load_units;
                  hold_duration = e.hold_duration;
                  base_latency = e.base_latency;
                  configured_at = e.configured_at;
                })
                s.pages;
        }))))

unfoldable pub apply_infrastructure_configured : State → InfrastructureConfigured → Outcome
apply_infrastructure_configured s e = ensure_running s (
    refuse
      (lez e.server_provisioning_duration (pos 0)
        || not (is_now s e.configured_at)
        || ltz (pos 0) s.infrastructure.server_provisioning_duration)
      invalid_event s
      (done (record s {
        infrastructure = record {
          server_provisioning_duration = e.server_provisioning_duration;
          configured_at = e.configured_at;
        };
      })))
