-- ===== src/Invariant/Schedule.antt =====
-- The generated schedule of a run and the cursor in it: WorldScheduleCreated and markScheduled of
-- internal/simulation/state.go.
use hacker_sprint2_sim.Common.{
  ℕ, zero, suc, ◌+◌, ◌≤◌, ◌≡◌, inl, inr, Bool, some, List, [], ◌∷◌, ◌++◌, arith,
}
use hacker_sprint2_sim.Common.Tests.{Option-cases}
use hacker_sprint2_sim.Common.Lists.{length, length-append, get_elem?}
use hacker_sprint2_sim.Platform.{Platform}
use hacker_sprint2_sim.Events.{
  Event, Fact, fact, world_created, world_schedule_created, WorldScheduleCreated,
  ScheduledWorldEvent,
}
use hacker_sprint2_sim.Model.Types.{Time}
use hacker_sprint2_sim.State.{State}
use hacker_sprint2_sim.Outcome.{left}
use hacker_sprint2_sim.Outcome.Keeps.{Keeps, Keeps-left, keeps_rules}
use hacker_sprint2_sim.Apply.{apply, apply_fact}
use hacker_sprint2_sim.Apply.Run.{apply_world_schedule_created}
use hacker_sprint2_sim.Apply.Shared.{cursor_after}

-- The cursor points into the schedule or just behind its last item.
abbrev pub IsWithin : State → Type 0
IsWithin s = s.schedule_cursor ≤ length s.schedule

get_elem?-bound :
    {A : Type 0} (xs : List A) (i : ℕ) (a : A) → get_elem? xs i ≡ some a → i + 1 ≤ length xs
get_elem?-bound [] i a h = cc
get_elem?-bound (x ∷ xs) zero a h = omega arith
get_elem?-bound (x ∷ xs) (suc i) a h = let rest = get_elem?-bound xs i a h in omega arith

cursor_after_le :
    (matches : Fact → Bool) (at : Time) (schedule : List ScheduledWorldEvent) (cursor : ℕ)
    → cursor ≤ length schedule
    → cursor_after matches at schedule cursor ≤ length schedule
unfolding cursor_after
cursor_after_le matches at schedule cursor h = elim (Option-cases (get_elem? schedule cursor)) [
  | inl e ↦ ground (arith)
  | inr (item, e) ↦ ground (arith, get_elem?-bound schedule cursor item e)
]

longer :
    (s : State) (chunk : List ScheduledWorldEvent)
    → IsWithin s
    → s.schedule_cursor ≤ length (s.schedule ++ chunk)
longer s chunk h = let sum = length-append s.schedule chunk in omega arith

apply_fact-IsWithin :
    (env : Platform) (s : State) (e : Fact) → IsWithin s → Keeps IsWithin (apply_fact env s e)
unfolding apply_fact
apply_fact-IsWithin env s (world_created e) h = search keeps_rules depth 20
apply_fact-IsWithin env s _ h = search (keeps_rules, cursor_after_le) depth 20

apply_world_schedule_created-IsWithin :
    (s : State) (e : WorldScheduleCreated)
    → IsWithin s
    → Keeps IsWithin (apply_world_schedule_created s e)
unfolding apply_world_schedule_created
apply_world_schedule_created-IsWithin s e h = search (keeps_rules, longer) depth 20

-- Every event leaves the cursor within the schedule.
pub apply-IsWithin :
    (env : Platform) (s : State) (e : Event) → IsWithin s → IsWithin (left (apply env s e))
unfolding apply
apply-IsWithin env s (fact f) h = Keeps-left (apply_fact env s f) (apply_fact-IsWithin env s f h)
apply-IsWithin env s (world_schedule_created e) h =
    Keeps-left (apply_world_schedule_created s e) (apply_world_schedule_created-IsWithin s e h)
