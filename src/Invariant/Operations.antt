-- ===== src/Invariant/Operations.antt =====
-- The operations of a run: OperationQueued to OperationFailed of `State.Apply` in
-- internal/simulation/state.go.
use hacker_sprint2_sim.Common.{
  ◌≤◌, ◌≡◌, refl, inl, inr, String, Bool, true, false, not, ◌||◌, some, arith,
}
use mathlib.Core.Path.{subst}
use hacker_sprint2_sim.Common.Tests.{true_ne_false, or_false, ltb, same, eq_of_same, Bool-cases}
use hacker_sprint2_sim.Common.Map.{Map, lookup-insert_self, lookup, insert, has, lookup-insert}
use hacker_sprint2_sim.Platform.{Platform}
use hacker_sprint2_sim.Events.{
  Event, Fact, fact, world_schedule_created, WorldScheduleCreated, operation_queued,
  operation_started, operation_progressed, operation_succeeded, operation_failed,
}
use hacker_sprint2_sim.State.{State}
use hacker_sprint2_sim.Outcome.{done, fail, left, found, refuse, invalid_event}
use hacker_sprint2_sim.Events.Resources.{
  OperationStarted, OperationProgressed, OperationSucceeded, OperationFailed,
}
use hacker_sprint2_sim.Common.Text.{is_empty}
use hacker_sprint2_sim.Apply.Operations.{
  set_operation, apply_operation_started, apply_operation_progressed, apply_operation_succeeded,
  apply_operation_failed,
}
use hacker_sprint2_sim.Outcome.Keeps.{
  Keeps, Keeps-left, keeps_rules, Ends-refuse, Ends-done, Ends-found, Ends-fail,
  Ends-ensure_running, Ends-ensure_run_exists,
}
use hacker_sprint2_sim.Apply.{apply, apply_fact}
use hacker_sprint2_sim.Apply.Run.{probability_scale, apply_world_schedule_created}
use hacker_sprint2_sim.Apply.Shared.{is_now}
use hacker_sprint2_sim.Model.Types.{OperationLifecycleStatus, is_terminal, is_queued, is_running}
use hacker_sprint2_sim.State.Records.{OperationState}

-- One step of an operation's life.
pub data Moves : OperationLifecycleStatus → OperationLifecycleStatus → Type 0 where
  same_status : {a : OperationLifecycleStatus} → Moves a a
  starts : Moves OperationLifecycleStatus.queued OperationLifecycleStatus.running
  succeeds : Moves OperationLifecycleStatus.running OperationLifecycleStatus.succeeded
  fails : Moves OperationLifecycleStatus.running OperationLifecycleStatus.failed

-- The operation is there, one step further at most, with no less progress, and unchanged if it had
-- ended.
abbrev pub Later : Map OperationState → String → OperationState → Type 0
Later n id o =
    (p : OperationState) × (lookup id n ≡ some p)
    × Moves o.status p.status
    × (o.progress_ppm ≤ p.progress_ppm)
    × (is_terminal o.status ≡ true → p ≡ o)

pub record Follows (m n : Map OperationState) : Type 0 where
  pub followed : (id : String) (o : OperationState) → lookup id m ≡ some o → Later n id o

Follows-refl : (m : Map OperationState) → Follows m m
Follows-refl m = record { followed = λ id o h. (o, h, same_status, omega arith, λ t. refl) }

Follows-insert :
    (m : Map OperationState) (id : String) (o p : OperationState)
    → lookup id m ≡ some o
    → Moves o.status p.status
    → o.progress_ppm ≤ p.progress_ppm
    → is_terminal o.status ≡ false
    → Follows m (insert id p m)
Follows-insert m id o p l moves grows live = record {
  followed = λ k q h. elim (Bool-cases (same id k)) [
    | inl e ↦
        let key = eq_of_same id k e in
        let old : o ≡ q = cc in
        subst (λ x. Later (insert id p m) x q) key
          (subst (Later (insert id p m) id) old
            (p, lookup-insert_self id p m, moves, grows, λ t. absurd (true_ne_false t live)))
    | inr e ↦ (q, ground (arith, lookup-insert id k p m), same_status, omega arith, λ t. refl)
  ];
}

Follows-new :
    (m : Map OperationState) (id : String) (p : OperationState)
    → has id m ≡ false
    → Follows m (insert id p m)
unfolding has
Follows-new m id p l = record {
  followed = λ k q h. (
    q,
    ground (arith, lookup-insert id k p m, eq_of_same id k),
    same_status,
    omega arith,
    λ t. refl,
  );
}

-- What the guards of the four handlers say.
starts_if :
    {a : OperationLifecycleStatus}
    → not (is_queued a) ≡ false
    → Moves a OperationLifecycleStatus.running × (is_terminal a ≡ false)
starts_if {a = OperationLifecycleStatus.queued} h = (starts, refl)
starts_if {a = OperationLifecycleStatus.running} h = (same_status, refl)
starts_if {a = OperationLifecycleStatus.succeeded} h = absurd (true_ne_false refl h)
starts_if {a = OperationLifecycleStatus.failed} h = absurd (true_ne_false refl h)

running_if :
    {a : OperationLifecycleStatus}
    → not (is_running a) ≡ false
    → a ≡ OperationLifecycleStatus.running
running_if {a = OperationLifecycleStatus.queued} h = absurd (true_ne_false refl h)
running_if {a = OperationLifecycleStatus.running} h = refl
running_if {a = OperationLifecycleStatus.succeeded} h = absurd (true_ne_false refl h)
running_if {a = OperationLifecycleStatus.failed} h = absurd (true_ne_false refl h)

-- A running operation is written back.
Follows-running :
    (m : Map OperationState) (id : String) (o p : OperationState)
    → lookup id m ≡ some o
    → o.status ≡ OperationLifecycleStatus.running
    → Moves OperationLifecycleStatus.running p.status
    → o.progress_ppm ≤ p.progress_ppm
    → Follows m (insert id p m)
Follows-running m id o p l r moves grows = Follows-insert m id o p l (rw r moves) grows (rw r refl)

module _ (s : State) (h : Follows s.operations s.operations) where
  -- A handler that writes a running operation back, once its test has passed.
  Ends-running :
      (id : String) (test : OperationState → Bool) (write : OperationState → OperationState)
      → ((o : OperationState)
          → test o ≡ false
          → (not (is_running o.status) ≡ false)
            × Moves OperationLifecycleStatus.running (write o).status
            × (o.progress_ppm ≤ (write o).progress_ppm))
      → Keeps
          (λ t. Follows s.operations t.operations)
          (found
            (lookup id s.operations)
            (fail invalid_event s)
            λ o. refuse (test o) invalid_event s (done (set_operation id (write o) s)))
  Ends-running id test write ok_write = Ends-found _ _ _ (Ends-fail _ h) λ o l.
      Ends-refuse _ _ s _ h λ g.
        let (now, moves, grows) = ok_write o g in
        Ends-done (Follows-running s.operations id o (write o) l (running_if now) moves grows)

  started :
      (e : OperationStarted)
      → Keeps (λ t. Follows s.operations t.operations) (apply_operation_started s e)
  unfolding apply_operation_started
  started e = Ends-ensure_running s _ h λ r. Ends-found _ _ _ (Ends-fail _ h) λ o l.
      Ends-refuse _ _ s _ h λ g.
        let queued = starts_if (or_false (not (is_queued o.status)) _ g).0 in
        Ends-done (Follows-insert s.operations e.operation_id o _ l queued.0 (omega arith) queued.1)

  progressed :
      (e : OperationProgressed)
      → Keeps (λ t. Follows s.operations t.operations) (apply_operation_progressed s e)
  unfolding apply_operation_progressed
  progressed e = Ends-ensure_running s _ h λ r.
      Ends-running e.operation_id
        (λ o.
          not (is_running o.status)
          || ltb probability_scale e.progress_ppm
          || ltb e.progress_ppm o.progress_ppm
          || not (is_now s e.updated_at))
        (λ o. record o { progress_ppm = e.progress_ppm })
        (λ o g.
          let now : not (is_running o.status) ≡ false = ground (arith) in
          (now, rw (running_if now) same_status, ground (arith)))

  succeeded :
      (e : OperationSucceeded)
      → Keeps (λ t. Follows s.operations t.operations) (apply_operation_succeeded s e)
  unfolding apply_operation_succeeded
  succeeded e = Ends-ensure_run_exists s _ h (
      Ends-running e.operation_id (λ o. not (is_running o.status) || not (is_now s e.completed_at))
        (λ o. record o {
          status = OperationLifecycleStatus.succeeded;
          completed_at = e.completed_at;
        })
        (λ o g. (ground (arith), succeeds, omega arith)))

  failed :
      (e : OperationFailed)
      → Keeps (λ t. Follows s.operations t.operations) (apply_operation_failed s e)
  unfolding apply_operation_failed
  failed e = Ends-ensure_run_exists s _ h (
      Ends-running e.operation_id
        (λ o.
          not (is_running o.status)
          || is_empty e.error_code
          || is_empty e.message
          || not (is_now s e.failed_at))
        (λ o. record o {
          status = OperationLifecycleStatus.failed;
          completed_at = e.failed_at;
          error_code = e.error_code;
          message = e.message;
        })
        (λ o g. (ground (arith), fails, omega arith)))

  scheduled :
      (e : WorldScheduleCreated)
      → Keeps (λ t. Follows s.operations t.operations) (apply_world_schedule_created s e)
  unfolding apply_world_schedule_created
  scheduled e = search keeps_rules depth 20

apply_fact-Follows :
    (env : Platform) (s : State) (e : Fact)
    → Follows s.operations s.operations
    → Keeps (λ t. Follows s.operations t.operations) (apply_fact env s e)
unfolding apply_fact
apply_fact-Follows env s (operation_started e) h = started s h e
apply_fact-Follows env s (operation_progressed e) h = progressed s h e
apply_fact-Follows env s (operation_succeeded e) h = succeeded s h e
apply_fact-Follows env s (operation_failed e) h = failed s h e
apply_fact-Follows env s (operation_queued e) h = search (keeps_rules, Follows-new) depth 20
apply_fact-Follows env s _ h = search keeps_rules depth 20

-- Every event keeps every operation: it moves one step along queued, running and succeeded or
-- failed at most, its progress does not go back, and once it has ended it does not change.
pub apply-Later :
    (env : Platform) (s : State) (e : Event) (id : String) (o : OperationState)
    → lookup id s.operations ≡ some o
    → Later (left (apply env s e)).operations id o
unfolding apply
apply-Later env s (fact f) id o h =
    let kept =
      Keeps-left (apply_fact env s f) (apply_fact-Follows env s f (Follows-refl s.operations)) in
    kept.followed id o h
apply-Later env s (world_schedule_created e) id o h =
    let kept =
      Keeps-left (apply_world_schedule_created s e) (scheduled s (Follows-refl s.operations) e) in
    kept.followed id o h
