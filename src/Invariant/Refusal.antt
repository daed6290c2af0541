-- ===== src/Invariant/Refusal.antt =====
-- What a refused event leaves behind: `State.Apply` works on a pointer and has no rollback.
use hacker_sprint2_sim.Common.{◌≡◌, refl, Bool, true, false}
use hacker_sprint2_sim.Platform.{Platform}
use hacker_sprint2_sim.Events.{
  Event, Fact, fact, page_request_started, visitor_arrived, world_schedule_created,
  WorldScheduleCreated,
}
use hacker_sprint2_sim.State.{State}
use hacker_sprint2_sim.Outcome.{Error, fail}
use hacker_sprint2_sim.Outcome.Keeps.{Ends, LeftAs, keeps_rules}
use hacker_sprint2_sim.Apply.{apply, apply_fact}
use hacker_sprint2_sim.Apply.Run.{apply_world_schedule_created}
use mathlib.Core.Path.{subst}

-- The two events whose handlers write before the last check.
abbrev pub writes_early : Fact → Bool
writes_early (page_request_started e) = true
writes_early (visitor_arrived e) = true
writes_early _ = false

apply_fact-Unchanged :
    (env : Platform) (s : State) (e : Fact)
    → writes_early e ≡ false
    → s ≡ s
    → Ends (λ t. t ≡ s) (λ t. Unit {0}) (apply_fact env s e)
unfolding apply_fact
apply_fact-Unchanged env s (page_request_started e) h same = cc
apply_fact-Unchanged env s (visitor_arrived e) h same = cc
apply_fact-Unchanged env s _ h same = search keeps_rules depth 20

apply_world_schedule_created-Unchanged :
    (s : State) (e : WorldScheduleCreated)
    → s ≡ s
    → Ends (λ t. t ≡ s) (λ t. Unit {0}) (apply_world_schedule_created s e)
unfolding apply_world_schedule_created
apply_world_schedule_created-Unchanged s e same = search keeps_rules depth 20

abbrev pub event_writes_early : Event → Bool
event_writes_early (fact f) = writes_early f
event_writes_early (world_schedule_created e) = false

apply-Unchanged :
    (env : Platform) (s : State) (e : Event)
    → event_writes_early e ≡ false
    → Ends (λ t. t ≡ s) (λ t. Unit {0}) (apply env s e)
unfolding apply
apply-Unchanged env s (fact f) h = apply_fact-Unchanged env s f h refl
apply-Unchanged env s (world_schedule_created e) h = apply_world_schedule_created-Unchanged s e refl

-- A refused event that neither starts a page request nor brings a visitor leaves the state as it
-- was.
pub apply-refused :
    (env : Platform) (s t : State) (e : Event) (x : Error)
    → event_writes_early e ≡ false
    → apply env s e ≡ fail x t
    → t ≡ s
apply-refused env s t e x h f =
    subst (LeftAs (λ t. t ≡ s) (λ t. Unit {0})) f (apply-Unchanged env s e h).ended
