-- ===== src/Invariant/Clock.antt =====
-- The clock of a run.
use hacker_sprint2_sim.Common.{◌≤◌, ◌≡◌, refl, false, not, arith}
use hacker_sprint2_sim.Platform.{Platform}
use hacker_sprint2_sim.Capacity.{prune_expired_capacity, prune_derived_state}
use hacker_sprint2_sim.Events.{
  WorldScheduleCreated, Event, Fact, fact, world_created, time_advanced, run_ended,
  world_schedule_created,
}
use hacker_sprint2_sim.Events.World.{WorldCreated, TimeAdvanced, RunEnded}
use hacker_sprint2_sim.State.{State, RunStatus}
use hacker_sprint2_sim.State.Records.{ClockState}
use hacker_sprint2_sim.Outcome.{left}
use hacker_sprint2_sim.Outcome.Keeps.{
  Keeps-left, Keeps, keeps_rules, Ends-refuse, Ends-done, Ends-ensure_running,
}
use hacker_sprint2_sim.Common.Tests.{leb}
use hacker_sprint2_sim.Apply.{apply, apply_fact}
use hacker_sprint2_sim.Apply.Shared.{record_command, is_now}
use hacker_sprint2_sim.Apply.Run.{is_not_created, apply_world_created, apply_world_schedule_created}
use hacker_sprint2_sim.Apply.Time.{apply_time_advanced, apply_run_ended}

-- What one event does to the run and to its clock.
pub data RunStep : RunStatus → ClockState → RunStatus → ClockState → Type 0 where
  stays : {r : RunStatus} {c : ClockState} → RunStep r c r c
  starts :
      {c d : ClockState}
      → d.current_time ≡ d.started_at
      → d.started_at ≤ d.ends_at
      → RunStep RunStatus.not_created c RunStatus.running d
  advances :
      {c d : ClockState}
      → d.started_at ≡ c.started_at
      → d.ends_at ≡ c.ends_at
      → c.current_time ≤ d.current_time
      → d.current_time ≤ c.ends_at
      → RunStep RunStatus.running c RunStatus.running d
  completes : {c : ClockState} → RunStep RunStatus.running c RunStatus.completed c

abbrev pub Steps : State → State → Type 0
Steps s t = RunStep s.status s.clock t.status t.clock

-- The same three steps, from the tests that the handlers make.
starts_if :
    {r : RunStatus} {c d : ClockState}
    → not (is_not_created r) ≡ false
    → d.current_time ≡ d.started_at
    → leb d.ends_at d.started_at ≡ false
    → RunStep r c RunStatus.running d
unfolding is_not_created
starts_if {r = RunStatus.not_created} {d = d} n h l = starts h (ground arith)
starts_if {r = RunStatus.running} n h l = absurd (ground arith)
starts_if {r = RunStatus.completed} n h l = absurd (ground arith)

advances_if :
    {r : RunStatus} {c d : ClockState}
    → r ≡ RunStatus.running
    → d.started_at ≡ c.started_at
    → d.ends_at ≡ c.ends_at
    → c.current_time ≤ d.current_time
    → d.current_time ≤ c.ends_at
    → RunStep r c r d
advances_if {r = RunStatus.running} h a b m n = advances a b m n
advances_if {r = RunStatus.not_created} h a b m n = cc
advances_if {r = RunStatus.completed} h a b m n = cc

completes_if :
    {r : RunStatus} {c : ClockState} → r ≡ RunStatus.running → RunStep r c RunStatus.completed c
completes_if {r = RunStatus.running} h = completes
completes_if {r = RunStatus.not_created} h = cc
completes_if {r = RunStatus.completed} h = cc

apply_world_created-Steps :
    (s : State) (e : WorldCreated) → Steps s s → Keeps (Steps s) (apply_world_created s e)
unfolding apply_world_created
apply_world_created-Steps s e h =
    Ends-refuse _ _ s _ h
      λ n. Ends-refuse _ _ s _ h λ l. Ends-done (starts_if n refl (ground arith))

apply_time_advanced-Steps :
    (env : Platform) (s : State) (e : TimeAdvanced)
    → Steps s s
    → Keeps (Steps s) (apply_time_advanced env s e)
unfolding apply_time_advanced is_now record_command prune_derived_state prune_expired_capacity
apply_time_advanced-Steps env s e h = Ends-ensure_running s _ h λ r. Ends-refuse _ _ s _ h λ f.
    Ends-refuse _ _ s _ h λ g.
      let moved : RunStep s.status s.clock s.status (record (s.clock) { current_time = e.to }) =
        advances_if r refl refl (ground arith) (ground arith) in
      search keeps_rules depth 20

apply_run_ended-Steps :
    (s : State) (e : RunEnded) → Steps s s → Keeps (Steps s) (apply_run_ended s e)
unfolding apply_run_ended
apply_run_ended-Steps s e h =
    Ends-ensure_running s _ h λ r. Ends-refuse _ _ s _ h λ g. Ends-done (completes_if r)

apply_fact-Steps :
    (env : Platform) (s : State) (e : Fact) → Steps s s → Keeps (Steps s) (apply_fact env s e)
unfolding apply_fact
apply_fact-Steps env s (world_created e) h = apply_world_created-Steps s e h
apply_fact-Steps env s (time_advanced e) h = apply_time_advanced-Steps env s e h
apply_fact-Steps env s (run_ended e) h = apply_run_ended-Steps s e h
apply_fact-Steps env s _ h = search keeps_rules depth 20

apply_world_schedule_created-Steps :
    (s : State) (e : WorldScheduleCreated)
    → Steps s s
    → Keeps (Steps s) (apply_world_schedule_created s e)
unfolding apply_world_schedule_created
apply_world_schedule_created-Steps s e h = search keeps_rules depth 20

-- Every event, applied or refused, does one of four things to the run and its clock: nothing, the
-- start, a move forward within the end of the run, or the end of a run.
pub apply-RunStep :
    (env : Platform) (s : State) (e : Event)
    → RunStep s.status s.clock (left (apply env s e)).status (left (apply env s e)).clock
unfolding apply
apply-RunStep env s (fact f) = Keeps-left (apply_fact env s f) (apply_fact-Steps env s f stays)
apply-RunStep env s (world_schedule_created e) =
    Keeps-left (apply_world_schedule_created s e) (apply_world_schedule_created-Steps s e stays)

-- Before the run there is no clock; from then on the time lies between start and end.
abbrev pub InRange : RunStatus → ClockState → Type 0
InRange RunStatus.not_created c = Unit {0}
InRange RunStatus.running c = (c.started_at ≤ c.current_time) × (c.current_time ≤ c.ends_at)
InRange RunStatus.completed c = (c.started_at ≤ c.current_time) × (c.current_time ≤ c.ends_at)

abbrev pub IsTimely : State → Type 0
IsTimely s = InRange s.status s.clock

RunStep-InRange : {r q : RunStatus} {c d : ClockState} → RunStep r c q d → InRange r c → InRange q d
RunStep-InRange stays h = h
RunStep-InRange (starts a b) h = (omega arith, omega arith)
RunStep-InRange (advances a b m n) h = (omega arith, omega arith)
RunStep-InRange completes h = h

-- Whether an event is applied or refused, a time between the start and the end of the run stays
-- between them.
pub apply-IsTimely :
    (env : Platform) (s : State) (e : Event) → IsTimely s → IsTimely (left (apply env s e))
apply-IsTimely env s e h = RunStep-InRange (apply-RunStep env s e) h

RunStep-completed :
    {r q : RunStatus} {c d : ClockState}
    → RunStep r c q d
    → r ≡ RunStatus.completed
    → (q ≡ RunStatus.completed) × (d ≡ c)
RunStep-completed stays h = (h, refl)
RunStep-completed (starts a b) h = cc
RunStep-completed (advances a b m n) h = cc
RunStep-completed completes h = (refl, refl)
