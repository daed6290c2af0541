-- ===== src/Apply/Shared.antt =====
-- The helpers of `State.Apply` in internal/simulation/state.go and firewall_state.go.
use Prim.Native.String.{◌++◌ as cat}
use hacker_sprint2_sim.Common.{
  ℕ, ◌+◌, String, Bool, false, not, ◌&&◌, ◌||◌, Option, none, some, List, [], ◌∷◌,
}
use hacker_sprint2_sim.Common.Tests.{leb, ◌==◌, same, if◌then◌else◌}
use hacker_sprint2_sim.Common.Int.{ℤ, pos, ltz, sub_ℕ, ◌+ℤ◌}
use hacker_sprint2_sim.Common.Lists.{length, get_elem?, all}
use hacker_sprint2_sim.Common.Map.{lookup, insert}
use hacker_sprint2_sim.Common.Text.{before, is_empty}
use hacker_sprint2_sim.Common.Sort.{sort}
use hacker_sprint2_sim.Model.Types.{
  Time, CommandId, PageType, RequestFailureCode, page_product_list, page_product, site_is_running,
  failure_server_capacity_exceeded, failure_db_connection_limit, failure_disk_full,
  failure_site_unavailable, failure_database_unavailable, failure_firewall_denied,
}
use hacker_sprint2_sim.Platform.{Platform}
use hacker_sprint2_sim.Events.{Fact, ScheduledWorldEvent}
use hacker_sprint2_sim.State.{State}
use hacker_sprint2_sim.State.Infrastructure.{DatabaseState, SiteState}
use hacker_sprint2_sim.Outcome.{Outcome, idempotency_conflict, refuse}

-- validFactTime
unfoldable pub valid_fact_time : State → Time → Bool
valid_fact_time s at = leb s.clock.started_at at && leb at s.clock.current_time

-- event.At.Equal(s.Clock.CurrentTime)
unfoldable pub is_now : State → Time → Bool
is_now s at = at == s.clock.current_time

-- validPage
unfoldable pub valid_page : PageType → Bool
valid_page page = same page page_product_list || same page page_product

-- Whether recordCommand refuses the payload.
unfoldable pub conflicts : State → CommandId → String → Bool
conflicts s id payload = elim (lookup id s.command_payloads) [
  | none ↦ false
  | some previous ↦ not (same previous payload)
]

abbrev pub with_payload : State → CommandId → String → State
with_payload s id payload = record s { command_payloads = insert id payload s.command_payloads }

-- recordCommand, followed by the rest of the call.
unfoldable pub record_command : CommandId → String → State → (State → Outcome) → Outcome
record_command id payload s rest =
    refuse (conflicts s id payload) idempotency_conflict s (rest (with_payload s id payload))

-- markScheduled. `matches` is reflect.DeepEqual with the event that is applied.
unfoldable pub cursor_after : (Fact → Bool) → Time → List ScheduledWorldEvent → ℕ → ℕ
cursor_after matches at schedule cursor = elim (get_elem? schedule cursor) [
  | none ↦ cursor
  | some next ↦ elim next.event [
    | none ↦ cursor
    | some event ↦ if next.occurs_at == at && matches event then cursor + 1 else cursor
  ]
]

abbrev pub mark_scheduled : (Fact → Bool) → Time → State → State
mark_scheduled matches at s = record s {
  schedule_cursor = cursor_after matches at s.schedule s.schedule_cursor;
}

-- DatabaseState.Available
unfoldable pub is_available : DatabaseState → Bool
is_available d = d.ready && (length d.availability_reasons == 0)

-- siteDependenciesAvailable
unfoldable pub site_dependencies_available : State → Bool
site_dependencies_available s =
    not s.firewall_unavailable
    && not s.backend_unavailable
    && (is_empty s.site.database_id || (elim (lookup s.site.database_id s.databases) [
      | none ↦ false
      | some database ↦ is_available database
    ]))

-- The end of an outage: the downtime grows by its length.
unfoldable pub end_outage : Bool → Time → SiteState → SiteState
end_outage recovered at site =
    if recovered && not (site.unavailable_since == 0)
    then record site {
      downtime_duration = site.downtime_duration +ℤ sub_ℕ at site.unavailable_since;
      unavailable_since = 0;
    }
    else site

unfoldable pub begin_outage : Bool → Time → SiteState → SiteState
begin_outage lost at site =
    if lost && (site.unavailable_since == 0) then record site { unavailable_since = at } else site

-- The downtime boundary that three events record once they have set their flag.
unfoldable pub site_boundary : Bool → Time → State → SiteState
site_boundary available at s =
    if site_is_running s.site.status
    then end_outage (available && site_dependencies_available s) at
        (begin_outage (not available) at s.site)
    else s.site

-- validRequestFailureCode
unfoldable pub valid_request_failure_code : RequestFailureCode → Bool
valid_request_failure_code code =
    same code failure_server_capacity_exceeded
    || same code failure_db_connection_limit
    || same code failure_disk_full
    || same code failure_site_unavailable
    || same code failure_database_unavailable
    || same code failure_firewall_denied

-- Neighbours of a sorted list that are equal.
unfoldable pub has_repeat : List String → Bool
has_repeat [] = false
has_repeat (x ∷ xs) = elim xs [ [] ↦ false | y ∷ ys ↦ same x y ] || has_repeat xs

-- normalizeLogErrorCodes: `none` where the second result is false.
unfoldable pub normalize_log_error_codes :
    List RequestFailureCode → Option (List RequestFailureCode)
normalize_log_error_codes codes =
    let normalized = sort before codes in
    if all valid_request_failure_code normalized && not (has_repeat normalized)
    then some normalized
    else none

-- strings.Join(values, ",")
unfoldable pub join : List String → String
join [] = ""
join (x ∷ xs) = let rest = join xs in elim xs [ [] ↦ x | y ∷ ys ↦ cat x (cat "," rest) ]

unfoldable pub error_codes_suffix : Option (List RequestFailureCode) → String
error_codes_suffix none = ""
error_codes_suffix (some []) = ""
error_codes_suffix (some (c ∷ cs)) = cat ":error-codes=" (join (c ∷ cs))

-- timeCommandPayload
unfoldable pub time_command_payload : Platform → ℤ → ℤ → Bool → List RequestFailureCode → String
time_command_payload env real requested stop codes =
    if ltz (pos 0) requested
    then if stop
      then cat "advance:" (
          cat (env.format_int requested)
            (cat ":new-log-errors=1" (error_codes_suffix (normalize_log_error_codes codes))))
      else cat "advance:" (env.format_int requested)
    else cat "time:" (cat (env.format_int real) ":0")
