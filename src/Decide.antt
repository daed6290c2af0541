-- ===== src/Decide.antt =====
-- Deciding: what a command emits, as internal/simulation/aggregate.go and the files of the commands
-- have it, with the availability changes of backend_availability.go. A clone of the state is the state
-- itself, and a call that fails discards its clone.
pub mod Firewall
use hacker_sprint2_sim.Common.{not, List, [], ◌∷◌, ◌++◌}
use hacker_sprint2_sim.Common.Tests.{◌==◌, same_bool, if◌then◌else◌}
use hacker_sprint2_sim.Common.Lists.{length}
use hacker_sprint2_sim.Common.Result.{Result, ok, err, and_then}
use hacker_sprint2_sim.Model.Types.{Time}
use hacker_sprint2_sim.Platform.{Platform}
use hacker_sprint2_sim.Events.{Fact, backend_availability_changed}
use hacker_sprint2_sim.State.{State}
use hacker_sprint2_sim.Outcome.{Error, Outcome, done, fail}
use hacker_sprint2_sim.Capacity.{backend_unavailable_pages}
use hacker_sprint2_sim.Apply.{apply_fact}

unfoldable pub applied : Outcome → Result Error State
applied (done s) = ok s
applied (fail e s) = err e

module _ (env : Platform) where
  -- for _, item := range items { if err := working.Apply(item); err != nil { return nil, err } }
  unfoldable pub apply_all : State → List Fact → Result Error State
  apply_all s [] = ok s
  apply_all s (item ∷ items) = and_then (applied (apply_fact env s item)) (λ t. apply_all t items)

  -- The events, and the working state that the call leaves behind its pointer.
  unfoldable pub append_backend_availability_change_to_working :
      List Fact → State → Time → Result Error (List Fact × State)
  append_backend_availability_change_to_working items working at =
      let pages = backend_unavailable_pages env working at in
      let unavailable = not (length pages == 0) in
      let event =
        backend_availability_changed
          (record { available = not unavailable; unavailable_pages = pages; changed_at = at }) in
      if same_bool unavailable working.backend_unavailable
      then ok (items, working)
      else and_then (applied (apply_fact env working event)) (λ t. ok (items ++ event ∷ [], t))

  unfoldable pub append_backend_availability_change :
      State → List Fact → Time → Result Error (List Fact)
  append_backend_availability_change s items at = and_then (apply_all s items) λ working.
      and_then (append_backend_availability_change_to_working items working at)
        (λ (out, left). ok out)
