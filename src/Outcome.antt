-- ===== src/Outcome.antt =====
-- The sentinel errors of internal/simulation/state.go, and what one call of `State.Apply` leaves.
-- The message that wraps a sentinel is dropped. A failed call leaves a state too, since `Apply`
-- works on a pointer: the guards below pass on the state as it stands when the call returns.
pub mod Keeps
use hacker_sprint2_sim.Common.{Bool, true, false, Option, none, some}
use hacker_sprint2_sim.State.{State, RunStatus}

pub data Error : Type 0 where
  world_already_created world_not_created run_completed : Error
  product_already_exists product_not_found : Error
  invalid_command invalid_event idempotency_conflict resource_not_found : Error
  site_not_stopped site_not_running database_not_empty backup_not_ready : Error
  insufficient_disk database_not_ready database_backup_stale site_config_conflict : Error
  last_backend_required server_in_use backend_unavailable operation_in_progress : Error

pub data Outcome : Type 0 where
  done : State → Outcome
  fail : Error → State → Outcome

-- The state behind the pointer after the call.
abbrev pub left : Outcome → State
left (done s) = s
left (fail e s) = s

-- if bad { return err }
unfoldable pub refuse : Bool → Error → State → Outcome → Outcome
refuse true e s rest = fail e s
refuse false e s rest = rest

-- v, exists := m[k]; if !exists { return err }
unfoldable pub found : {A : Type 0} → Option A → Outcome → (A → Outcome) → Outcome
found none missing rest = missing
found (some a) missing rest = rest a

when_status : RunStatus → State → Outcome → Outcome → Outcome
when_status RunStatus.not_created s ended rest = fail world_not_created s
when_status RunStatus.running s ended rest = rest
when_status RunStatus.completed s ended rest = ended

-- ensureRunning
unfoldable pub ensure_running : State → Outcome → Outcome
unfolding when_status
ensure_running s rest = when_status s.status s (fail run_completed s) rest

-- ensureRunExists
unfoldable pub ensure_run_exists : State → Outcome → Outcome
unfolding when_status
ensure_run_exists s rest = when_status s.status s rest rest
