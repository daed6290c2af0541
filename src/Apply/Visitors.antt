-- ===== src/Apply/Visitors.antt =====
-- Visitors and attacks: `State.Apply` in internal/simulation/state.go.
use hacker_sprint2_sim.Common.{String, Bool, false, not, ◌&&◌, ◌||◌, Option, none, some}
use hacker_sprint2_sim.Common.Tests.{ltb, leb, ◌==◌, same, if◌then◌else◌}
use hacker_sprint2_sim.Common.Int.{pos, lez, eqz}
use hacker_sprint2_sim.Common.Map.{lookup, insert, erase, has}
use hacker_sprint2_sim.Common.Text.{is_empty}
use hacker_sprint2_sim.Platform.{Platform}
use hacker_sprint2_sim.State.{State}
use hacker_sprint2_sim.Outcome.{
  Outcome, fail, done, refuse, found, ensure_run_exists, invalid_event,
}
use hacker_sprint2_sim.Apply.Shared.{valid_fact_time, valid_page, mark_scheduled}
use hacker_sprint2_sim.Firewall.{valid_client_profile}
use hacker_sprint2_sim.Capacity.{prune_expired_capacity}
use hacker_sprint2_sim.Model.Types.{attack_ddos, attack_brute_force, attack_scale_or_expiry}
use hacker_sprint2_sim.Events.{Fact, visitor_arrived, traffic_attack_started, traffic_attack_ended}
use hacker_sprint2_sim.Events.Traffic.{
  VisitorArrived, ProductSelected, VisitorJourneyCompleted, TrafficAttackStarted,
  TrafficAttackEnded,
}
use hacker_sprint2_sim.Apply.Traffic.{valid_optional_profile}

unfoldable pub is_visitor_arrived : VisitorArrived → Fact → Bool
is_visitor_arrived e f = elim f [
  | visitor_arrived x ↦
      same x.visitor_id e.visitor_id
      && same x.source_ip e.source_ip
      && same x.user_agent e.user_agent
      && same x.region_code e.region_code
      && x.arrived_at == e.arrived_at
  | _ ↦ false
]

unfoldable pub apply_visitor_arrived : Platform → State → VisitorArrived → Outcome
apply_visitor_arrived env s e = ensure_run_exists s (
    refuse
      (is_empty e.visitor_id
        || not (valid_fact_time s e.arrived_at)
        || not (
            valid_optional_profile env (record {
              source_ip = e.source_ip;
              user_agent = e.user_agent;
              region_code = e.region_code;
            })))
      invalid_event s
      (let pruned = prune_expired_capacity s e.arrived_at in
        refuse (has e.visitor_id pruned.seen_visitors) invalid_event pruned (
          done (
            mark_scheduled (is_visitor_arrived e) e.arrived_at (record pruned {
              seen_visitors = insert e.visitor_id tt pruned.seen_visitors;
              visitors =
                  insert e.visitor_id
                    (record {
                      id = e.visitor_id;
                      product_id = "";
                      source_ip = e.source_ip;
                      user_agent = e.user_agent;
                      region_code = e.region_code;
                      outcome = "";
                      arrived_at = e.arrived_at;
                      completed_at = 0;
                    })
                    pruned.visitors;
            })))))

unfoldable pub apply_product_selected : State → ProductSelected → Outcome
apply_product_selected s e =
    found (lookup e.visitor_id s.visitors) (fail invalid_event s) λ visitor.
      found (lookup e.product_id s.products) (fail invalid_event s) λ product.
        refuse (is_empty product.id || not (valid_fact_time s e.selected_at)) invalid_event s (
          done (record s {
            visitors =
                insert e.visitor_id (record visitor { product_id = e.product_id }) s.visitors;
          }))

unfoldable pub apply_visitor_journey_completed : State → VisitorJourneyCompleted → Outcome
apply_visitor_journey_completed s e =
    found (lookup e.visitor_id s.visitors) (fail invalid_event s) λ visitor.
      refuse (is_empty e.outcome || not (valid_fact_time s e.completed_at)) invalid_event s (
        done (record s {
          visitors =
              insert e.visitor_id
                (record visitor { outcome = e.outcome; completed_at = e.completed_at }) s.visitors;
        }))

unfoldable pub is_attack_started : TrafficAttackStarted → Fact → Bool
is_attack_started e f = elim f [
  | traffic_attack_started x ↦
      same x.attack_id e.attack_id
      && same x.kind e.kind
      && same x.target_page e.target_page
      && eqz x.requests_per_minute e.requests_per_minute
      && eqz x.load_units_per_request e.load_units_per_request
      && same x.source_cidr e.source_cidr
      && same x.user_agent e.user_agent
      && same x.region_code e.region_code
      && same x.resolution e.resolution
      && x.expected_end_at == e.expected_end_at
      && x.started_at == e.started_at
  | _ ↦ false
]

module _ (env : Platform) where
  -- The address that stands for the attack: `none` for a prefix that is refused.
  unfoldable pub attack_source : TrafficAttackStarted → Option String
  attack_source e =
      if is_empty e.source_cidr then some "" else elim (env.parse_prefix e.source_cidr) [
        | none ↦ none
        | some prefix ↦ if env.is_masked prefix then some (env.prefix_addr_string prefix) else none
      ]

  unfoldable pub invalid_attack : State → TrafficAttackStarted → String → Bool
  invalid_attack s e source =
      is_empty e.attack_id
      || not (same e.kind attack_ddos || same e.kind attack_brute_force)
      || not (valid_page e.target_page)
      || lez e.requests_per_minute (pos 0)
      || lez e.load_units_per_request (pos 0)
      || not (same e.resolution attack_scale_or_expiry)
      || leb e.expected_end_at e.started_at
      || not (valid_fact_time s e.started_at)
      || (not (is_empty e.source_cidr && is_empty e.user_agent && is_empty e.region_code)
          && not (
              valid_client_profile env (record {
                source_ip = source;
                user_agent = e.user_agent;
                region_code = e.region_code;
              })))

  unfoldable pub apply_traffic_attack_started : State → TrafficAttackStarted → Outcome
  apply_traffic_attack_started s e = ensure_run_exists s (
      found (attack_source e) (fail invalid_event s) λ source.
        refuse (invalid_attack s e source) invalid_event s (
          refuse (has e.attack_id s.active_attacks) invalid_event s (
            done (
              mark_scheduled (is_attack_started e) e.started_at (record s {
                active_attacks =
                    insert e.attack_id
                      (record {
                        id = e.attack_id;
                        kind = e.kind;
                        target_page = e.target_page;
                        requests_per_minute = e.requests_per_minute;
                        load_units_per_request = e.load_units_per_request;
                        source_cidr = e.source_cidr;
                        user_agent = e.user_agent;
                        region_code = e.region_code;
                        resolution = e.resolution;
                        expected_end_at = e.expected_end_at;
                        started_at = e.started_at;
                      })
                      s.active_attacks;
              })))))

unfoldable pub is_attack_ended : TrafficAttackEnded → Fact → Bool
is_attack_ended e f = elim f [
  | traffic_attack_ended x ↦ same x.attack_id e.attack_id && x.ended_at == e.ended_at
  | _ ↦ false
]

-- An attack that has been resolved may end again, and only the cursor moves.
unfoldable pub apply_traffic_attack_ended : State → TrafficAttackEnded → Outcome
apply_traffic_attack_ended s e = ensure_run_exists s (
    found (lookup e.attack_id s.active_attacks)
      (refuse (not (has e.attack_id s.resolved_attacks && valid_fact_time s e.ended_at))
        invalid_event s (done (mark_scheduled (is_attack_ended e) e.ended_at s)))
      λ attack.
        refuse (ltb e.ended_at attack.expected_end_at || not (valid_fact_time s e.ended_at))
          invalid_event s
          (done (
            mark_scheduled (is_attack_ended e) e.ended_at (record s {
              active_attacks = erase e.attack_id s.active_attacks;
              resolved_attacks = insert e.attack_id tt s.resolved_attacks;
            }))))
