-- ===== src/Apply/Traffic.antt =====
-- Page requests: `State.Apply` in internal/simulation/state.go.
use hacker_sprint2_sim.Common.{String, Bool, true, not, ◌&&◌, ◌||◌, Option, none, some}
use hacker_sprint2_sim.Common.Tests.{leb, same, if◌then◌else◌}
use hacker_sprint2_sim.Common.Int.{ℤ, pos, ltz, lez, eqz, ◌+ℤ◌}
use hacker_sprint2_sim.Common.Map.{lookup, insert, has}
use hacker_sprint2_sim.Common.Text.{is_empty}
use hacker_sprint2_sim.Platform.{Platform}
use hacker_sprint2_sim.State.{State}
use hacker_sprint2_sim.Outcome.{Outcome, fail, done, refuse, found, ensure_running, invalid_event}
use hacker_sprint2_sim.Apply.Shared.{valid_fact_time, record_command}
use Prim.Native.String.{◌++◌ as cat}
use hacker_sprint2_sim.Firewall.{valid_client_profile}
use hacker_sprint2_sim.Capacity.{server_available_capacity, prune_expired_capacity, add_at, hold_of}
use hacker_sprint2_sim.Model.Types.{
  is_in_progress, is_active, request_source_visitor, request_source_probe, PageRequestStatus,
  PageType, ProductId,
}
use hacker_sprint2_sim.Model.Firewall.{ClientProfile}
use hacker_sprint2_sim.Events.Traffic.{
  PageRequestStarted, PageRequestAccepted, PageRequestCompleted, PageRequestRejected,
}
use hacker_sprint2_sim.State.Records.{PageConfigState}
use hacker_sprint2_sim.State.Traffic.{PageRequestState, CapacityAllocationState}

-- A profile may be left out whole; one that is there must be valid.
unfoldable pub valid_optional_profile : Platform → ClientProfile → Bool
valid_optional_profile env p =
    (is_empty p.source_ip && is_empty p.user_agent && is_empty p.region_code)
    || valid_client_profile env p

unfoldable pub load_matches : Option PageConfigState → ℤ → Bool
load_matches none load = true
load_matches (some page) load = eqz load page.load_units

unfoldable pub started_request : PageRequestStarted → PageRequestState
started_request e = record {
  id = e.request_id;
  source = e.source;
  visitor_id = e.visitor_id;
  page = e.page;
  product_id = e.product_id;
  source_ip = e.source_ip;
  user_agent = e.user_agent;
  region_code = e.region_code;
  firewall_action = "";
  firewall_rule_id = "";
  load_units = e.load_units;
  status = PageRequestStatus.in_progress;
  status_code = pos 0;
  error_code = "";
  message = "";
  latency = pos 0;
  server_id = "";
  database_id = "";
  releases_at = 0;
  started_at = e.started_at;
  completed_at = 0;
}

-- fmt.Sprintf("probe:%s:%s", page, product)
unfoldable pub probe_payload : PageType → ProductId → String
probe_payload page product = cat "probe:" (cat page (cat ":" product))

abbrev pub set_request : String → PageRequestState → State → State
set_request id request s = record s { requests = insert id request s.requests }

-- The capacity index is pruned and the identifier is taken before the last checks.
unfoldable pub apply_page_request_started : Platform → State → PageRequestStarted → Outcome
apply_page_request_started env s e = ensure_running s (
    refuse
      (is_empty e.request_id
        || (same e.source request_source_visitor && is_empty e.visitor_id)
        || (not (same e.source request_source_visitor) && not (same e.source request_source_probe))
        || ltz e.load_units (pos 0)
        || not (valid_fact_time s e.started_at)
        || not (
            valid_optional_profile env (record {
              source_ip = e.source_ip;
              user_agent = e.user_agent;
              region_code = e.region_code;
            })))
      invalid_event s
      (refuse (not (load_matches (lookup e.page s.pages) e.load_units)) invalid_event s (
        let pruned = prune_expired_capacity s e.started_at in
        refuse (has e.request_id pruned.seen_requests) invalid_event pruned (
          let seen = record pruned {
            seen_requests = insert e.request_id tt pruned.seen_requests;
          } in
          if same e.source request_source_probe
          then record_command e.request_id (probe_payload e.page e.product_id) seen
              (λ t. done (set_request e.request_id (started_request e) t))
          else done (set_request e.request_id (started_request e) seen)))))

unfoldable pub allocation_of : PageRequestAccepted → PageRequestState → CapacityAllocationState
allocation_of e request = record {
  request_id = e.request_id;
  server_id = e.server_id;
  load_units = request.load_units;
  accepted_at = e.accepted_at;
  releases_at = e.releases_at;
}

-- The allocation, and the index that follows it.
abbrev pub allocate : PageRequestAccepted → PageRequestState → State → State
allocate e request s = record s {
  capacity = insert e.request_id (allocation_of e request) s.capacity;
  used_capacity_by_server = add_at e.server_id request.load_units s.used_capacity_by_server;
}

unfoldable pub apply_page_request_accepted : Platform → State → PageRequestAccepted → Outcome
apply_page_request_accepted env s e = ensure_running s (
    found (lookup e.request_id s.requests) (fail invalid_event s) λ request.
      refuse
        (not (is_in_progress request.status)
          || lez request.load_units (pos 0)
          || not (same e.firewall_rule_id request.firewall_rule_id))
        invalid_event s
        (found (lookup e.server_id s.servers) (fail invalid_event s) λ server.
          refuse
            (not (is_active server.status)
              || not (valid_fact_time s e.accepted_at)
              || leb e.releases_at e.accepted_at)
            invalid_event s
            (refuse
              (not (
                  eqz (pos e.releases_at)
                    (pos e.accepted_at +ℤ hold_of (lookup request.page s.pages)))
                || ltz (server_available_capacity env s server.id request.page e.accepted_at)
                    request.load_units)
              invalid_event s
              (done (
                set_request e.request_id
                  (record request {
                    firewall_rule_id = e.firewall_rule_id;
                    server_id = e.server_id;
                    database_id = e.database_id;
                    releases_at = e.releases_at;
                  })
                  (allocate e request s))))))

unfoldable pub known_status : ℤ → Bool
known_status code = eqz code (pos 200) || eqz code (pos 500) || eqz code (pos 503)

unfoldable pub apply_page_request_completed : State → PageRequestCompleted → Outcome
apply_page_request_completed s e =
    found (lookup e.request_id s.requests) (fail invalid_event s) λ request.
      refuse
        (not (is_in_progress request.status)
          || not (valid_fact_time s e.completed_at)
          || (ltz (pos 0) request.load_units && not (same e.server_id request.server_id))
          || not (same e.database_id request.database_id)
          || not (same e.firewall_rule_id request.firewall_rule_id)
          || ltz e.latency (pos 0)
          || not (known_status e.status_code)
          || (eqz e.status_code (pos 200) && not (is_empty e.error_code)))
        invalid_event s
        (done (
          set_request e.request_id
            (record request {
              firewall_rule_id = e.firewall_rule_id;
              status =
                  if lez (pos 200) e.status_code && ltz e.status_code (pos 300)
                  then PageRequestStatus.succeeded
                  else PageRequestStatus.failed;
              status_code = e.status_code;
              error_code = e.error_code;
              message = e.message;
              latency = e.latency;
              completed_at = e.completed_at;
            })
            s))

unfoldable pub apply_page_request_rejected : State → PageRequestRejected → Outcome
apply_page_request_rejected s e = ensure_running s (
    found (lookup e.request_id s.requests) (fail invalid_event s) λ request.
      refuse
        (not (is_in_progress request.status)
          || ltz e.status_code (pos 400)
          || not (same e.firewall_rule_id request.firewall_rule_id)
          || is_empty e.error_code
          || not (valid_fact_time s e.rejected_at))
        invalid_event s
        (done (
          set_request e.request_id
            (record request {
              firewall_rule_id = e.firewall_rule_id;
              status = PageRequestStatus.failed;
              status_code = e.status_code;
              error_code = e.error_code;
              message = e.message;
              server_id = e.server_id;
              database_id = e.database_id;
              completed_at = e.rejected_at;
            })
            s)))
