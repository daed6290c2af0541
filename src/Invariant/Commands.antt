-- ===== src/Invariant/Commands.antt =====
-- The receipts of a run: command payloads, and the identifiers that are taken once and for all.
use hacker_sprint2_sim.Common.{◌≡◌, String, false, some, inl, inr, arith}
use hacker_sprint2_sim.Common.Tests.{same, same_iff, eq_of_same, Bool-cases}
use hacker_sprint2_sim.Common.Map.{Map, lookup, insert, lookup-insert}
use hacker_sprint2_sim.Platform.{Platform}
use hacker_sprint2_sim.Events.{
  Event, Fact, fact, world_created, world_schedule_created, WorldScheduleCreated,
}
use hacker_sprint2_sim.State.{State}
use hacker_sprint2_sim.Outcome.{left}
use hacker_sprint2_sim.Outcome.Keeps.{Keeps, Keeps-left, keeps_rules}
use hacker_sprint2_sim.Apply.{apply, apply_fact}
use hacker_sprint2_sim.Apply.Run.{apply_world_schedule_created}
use hacker_sprint2_sim.Apply.Shared.{conflicts}

-- Every entry of one map is in the other, under its key.
pub record Extends {V : Type 0} (m n : Map V) : Type 0 where
  pub extended : (k : String) (v : V) → lookup k m ≡ some v → lookup k n ≡ some v

Extends-payload :
    (s : State) (id payload : String)
    → conflicts s id payload ≡ false
    → Extends s.command_payloads (insert id payload s.command_payloads)
unfolding conflicts
Extends-payload s id payload c = record {
  extended = λ k v h. elim (Bool-cases (same id k)) [
    | inl e ↦ ground (
      arith,
      lookup-insert id k payload s.command_payloads,
      eq_of_same id k e,
      eq_of_same v payload,
      same_iff v payload,
    )
    | inr e ↦ ground (arith, lookup-insert id k payload s.command_payloads)
  ];
}

apply_fact-payloads :
    (env : Platform) (s : State) (e : Fact)
    → Extends s.command_payloads s.command_payloads
    → Keeps (λ t. Extends s.command_payloads t.command_payloads) (apply_fact env s e)
unfolding apply_fact conflicts
apply_fact-payloads env s (world_created e) h = search keeps_rules depth 20
apply_fact-payloads env s _ h = search (keeps_rules, Extends-payload) depth 20

apply_world_schedule_created-payloads :
    (s : State) (e : WorldScheduleCreated)
    → Extends s.command_payloads s.command_payloads
    → Keeps (λ t. Extends s.command_payloads t.command_payloads) (apply_world_schedule_created s e)
unfolding apply_world_schedule_created
apply_world_schedule_created-payloads s e h = search keeps_rules depth 20

-- The payload that is recorded for a command never changes, whatever events follow.
pub apply-payloads :
    (env : Platform) (s : State) (e : Event) (id payload : String)
    → lookup id s.command_payloads ≡ some payload
    → lookup id (left (apply env s e)).command_payloads ≡ some payload
unfolding apply
apply-payloads env s (fact f) id payload h =
    let kept =
      Keeps-left (apply_fact env s f)
        (apply_fact-payloads env s f (record { extended = λ k v g. g })) in
    kept.extended id payload h
apply-payloads env s (world_schedule_created e) id payload h =
    let kept =
      Keeps-left (apply_world_schedule_created s e)
        (apply_world_schedule_created-payloads s e (record { extended = λ k v g. g })) in
    kept.extended id payload h
