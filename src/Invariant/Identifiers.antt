-- ===== src/Invariant/Identifiers.antt =====
-- The identifiers of a run are taken once: SeenRequests and SeenVisitors of
-- internal/simulation/state.go.
use mathlib.Core.Path.{subst}
use hacker_sprint2_sim.Common.{◌≡◌, refl, String, true, arith, List, ◌∷◌}
use hacker_sprint2_sim.Common.Tests.{true_ne_false, same_refl}
use hacker_sprint2_sim.Common.Map.{Map, insert, has, has-insert}
use hacker_sprint2_sim.Platform.{Platform}
use hacker_sprint2_sim.Capacity.{prune_expired_capacity}
use hacker_sprint2_sim.Events.{
  Event, Fact, fact, page_request_started, visitor_arrived, world_schedule_created,
}
use hacker_sprint2_sim.Events.Traffic.{PageRequestStarted}
use hacker_sprint2_sim.Events.{WorldScheduleCreated}
use hacker_sprint2_sim.State.{State}
use hacker_sprint2_sim.Outcome.{Error, Outcome, done, fail, left}
use hacker_sprint2_sim.Outcome.Keeps.{
  Ends, LeftAs, Keeps, Keeps-left, keeps_rules, Ends-refuse, Ends-ensure_running,
}
use hacker_sprint2_sim.Stream.{StoredEvent}
use hacker_sprint2_sim.Stream.Replay.{Runs, rest, step}
use hacker_sprint2_sim.Apply.{apply, apply_fact}
use hacker_sprint2_sim.Apply.Run.{apply_world_schedule_created}
use hacker_sprint2_sim.Apply.Shared.{record_command}
use hacker_sprint2_sim.Apply.Traffic.{apply_page_request_started}

-- Every key of one set is in the other.
pub record Grows (m n : Map (Unit {0})) : Type 0 where
  pub grown : (k : String) → has k m ≡ true → has k n ≡ true

Grows-insert : (m : Map (Unit {0})) (id : String) → Grows m (insert id tt m)
Grows-insert m id = record { grown = λ k h. ground (arith, has-insert id k tt m) }

apply_fact-seen_requests :
    (env : Platform) (s : State) (e : Fact)
    → Grows s.seen_requests s.seen_requests
    → Keeps (λ t. Grows s.seen_requests t.seen_requests) (apply_fact env s e)
unfolding apply_fact
apply_fact-seen_requests env s (page_request_started e) h =
    search (keeps_rules, Grows-insert) depth 20
apply_fact-seen_requests env s _ h = search keeps_rules depth 20

apply_fact-seen_visitors :
    (env : Platform) (s : State) (e : Fact)
    → Grows s.seen_visitors s.seen_visitors
    → Keeps (λ t. Grows s.seen_visitors t.seen_visitors) (apply_fact env s e)
unfolding apply_fact
apply_fact-seen_visitors env s (visitor_arrived e) h = search (keeps_rules, Grows-insert) depth 20
apply_fact-seen_visitors env s _ h = search keeps_rules depth 20

apply_world_schedule_created-seen :
    (s : State) (e : WorldScheduleCreated)
    → Grows s.seen_requests s.seen_requests
    → Grows s.seen_visitors s.seen_visitors
    → Keeps
        (λ t. Grows s.seen_requests t.seen_requests × Grows s.seen_visitors t.seen_visitors)
        (apply_world_schedule_created s e)
unfolding apply_world_schedule_created
apply_world_schedule_created-seen s e g h = search keeps_rules depth 20

Grows-refl : (m : Map (Unit {0})) → Grows m m
Grows-refl m = record { grown = λ k h. h }

-- No event forgets the identifier of a request or of a visitor.
pub apply-Grows :
    (env : Platform) (s : State) (e : Event)
    → Grows s.seen_requests (left (apply env s e)).seen_requests
      × Grows s.seen_visitors (left (apply env s e)).seen_visitors
unfolding apply
apply-Grows env s (fact f) = (
  Keeps-left (apply_fact env s f) (apply_fact-seen_requests env s f (Grows-refl s.seen_requests)),
  Keeps-left (apply_fact env s f) (apply_fact-seen_visitors env s f (Grows-refl s.seen_visitors)),
)
apply-Grows env s (world_schedule_created e) = Keeps-left (apply_world_schedule_created s e) (
    apply_world_schedule_created-seen s e (Grows-refl s.seen_requests) (Grows-refl s.seen_visitors))

Runs-seen :
    (env : Platform) {s u : State} {rs : List StoredEvent} (id : String)
    → Runs env s rs u
    → has id s.seen_requests ≡ true
    → has id u.seen_requests ≡ true
Runs-seen env id rest h = h
Runs-seen env {s = s} {rs = r ∷ rs} id (step t v a p) h =
    Runs-seen env id p (
      subst (λ o. has id (left o).seen_requests ≡ true) a
        ((apply-Grows env s r.event).0.grown id h))

has-insert_self : (id : String) (m : Map (Unit {0})) → has id (insert id tt m) ≡ true
has-insert_self id m = ground (arith, has-insert id id tt m, same_refl id)

started-seen :
    (env : Platform) (s : State) (e : PageRequestStarted)
    → Ends
        (λ t. Unit {0})
        (λ t. has e.request_id t.seen_requests ≡ true)
        (apply_page_request_started env s e)
unfolding apply_page_request_started record_command prune_expired_capacity
started-seen env s e = search (keeps_rules, has-insert_self) depth 20

fails : (o : Outcome) → Ends (λ t. Unit {0}) (λ t. ⊥) o → (x : Error) × (v : State) × (o ≡ fail x v)
fails (done t) h = absurd h.ended
fails (fail x v) h = (x, v, refl)

seen-refused :
    (env : Platform) (s : State) (e : PageRequestStarted)
    → has e.request_id s.seen_requests ≡ true
    → Ends (λ t. Unit {0}) (λ t. ⊥) (apply_page_request_started env s e)
unfolding apply_page_request_started record_command prune_expired_capacity
seen-refused env s e h = Ends-ensure_running s _ tt λ r.
    Ends-refuse _ _ s _ tt λ g.
      Ends-refuse _ _ s _ tt λ l. Ends-refuse _ _ _ _ tt λ fresh. absurd (true_ne_false h fresh)

-- The events of a run start a request under one identifier once: when a start has succeeded, every
-- further start under its identifier fails, whatever events have succeeded in between.
pub apply_page_request_started-once :
    (env : Platform) (s t u : State) (e again : PageRequestStarted) (rs : List StoredEvent)
    → apply_page_request_started env s e ≡ done t
    → Runs env t rs u
    → again.request_id ≡ e.request_id
    → (x : Error) × (v : State) × (apply_page_request_started env u again ≡ fail x v)
apply_page_request_started-once env s t u e again rs h p same_id =
    let seen : has e.request_id t.seen_requests ≡ true =
      subst (LeftAs (λ t. Unit {0}) (λ t. has e.request_id t.seen_requests ≡ true)) h
        (started-seen env s e).ended in
    let kept : has e.request_id u.seen_requests ≡ true = Runs-seen env e.request_id p seen in
    fails (apply_page_request_started env u again) (seen-refused env u again (rw same_id kept))
