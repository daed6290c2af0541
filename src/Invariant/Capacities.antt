-- ===== src/Invariant/Capacities.antt =====
-- The capacity index under every event of `State.Apply` in internal/simulation/state.go.
use hacker_sprint2_sim.Common.{◌≡◌, Bool, false, arith}
use hacker_sprint2_sim.Common.Map.{has}
use hacker_sprint2_sim.Platform.{Platform}
use hacker_sprint2_sim.Events.{
  Event, Fact, fact, world_schedule_created, WorldScheduleCreated, page_request_accepted,
}
use hacker_sprint2_sim.State.{State}
use hacker_sprint2_sim.Outcome.{left}
use hacker_sprint2_sim.Outcome.Keeps.{Keeps, Keeps-left, keeps_rules}
use hacker_sprint2_sim.Apply.{apply, apply_fact}
use hacker_sprint2_sim.Apply.Run.{apply_world_schedule_created}
use hacker_sprint2_sim.State.Traffic.{PageRequestState}
use hacker_sprint2_sim.Events.Traffic.{PageRequestAccepted}
use hacker_sprint2_sim.Capacity.Index.{add_at-IsIndex}
use hacker_sprint2_sim.Capacity.Pruning.{IsIndexed, prune_expired_capacity-IsIndexed}
use hacker_sprint2_sim.Apply.Traffic.{allocate, allocation_of}

-- A request that holds capacity is accepted once more.
abbrev pub accepts_again : State → Event → Bool
accepts_again s (fact (page_request_accepted e)) = has e.request_id s.capacity
accepts_again s _ = false

allocated :
    (s : State) (e : PageRequestAccepted) (request : PageRequestState)
    → IsIndexed s
    → has e.request_id s.capacity ≡ false
    → IsIndexed (allocate e request s)
unfolding allocation_of has
allocated s e request h new =
    add_at-IsIndex (λ a. a.server_id) (λ a. a.load_units) e.request_id (allocation_of e request)
      s.capacity s.used_capacity_by_server h (ground (arith))

apply_fact-IsIndexed :
    (env : Platform) (s : State) (e : Fact)
    → accepts_again s (fact e) ≡ false
    → IsIndexed s
    → Keeps IsIndexed (apply_fact env s e)
unfolding apply_fact
apply_fact-IsIndexed env s (page_request_accepted e) new h =
    search (keeps_rules, allocated) depth 20
apply_fact-IsIndexed env s _ new h = search (keeps_rules, prune_expired_capacity-IsIndexed) depth 20

apply_world_schedule_created-IsIndexed :
    (s : State) (e : WorldScheduleCreated)
    → IsIndexed s
    → Keeps IsIndexed (apply_world_schedule_created s e)
unfolding apply_world_schedule_created
apply_world_schedule_created-IsIndexed s e h = search keeps_rules depth 20

-- Every event that does not accept a request for the second time leaves the used capacity of every
-- server at the sum of the loads that are allotted to it, where it was so before.
pub apply-IsIndexed :
    (env : Platform) (s : State) (e : Event)
    → accepts_again s e ≡ false
    → IsIndexed s
    → IsIndexed (left (apply env s e))
unfolding apply
apply-IsIndexed env s (fact f) new h =
    Keeps-left (apply_fact env s f) (apply_fact-IsIndexed env s f new h)
apply-IsIndexed env s (world_schedule_created e) new h =
    Keeps-left (apply_world_schedule_created s e) (apply_world_schedule_created-IsIndexed s e h)
