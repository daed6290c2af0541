-- ===== src/Apply/Time.antt =====
-- The clock: TimeAdvanced and RunEnded of `State.Apply` in internal/simulation/state.go.
use hacker_sprint2_sim.Common.{
  String, Bool, true, false, not, ◌&&◌, ◌||◌, none, some, List, [], ◌∷◌,
}
use hacker_sprint2_sim.Common.Tests.{ltb, ◌==◌, same, if◌then◌else◌}
use hacker_sprint2_sim.Common.Int.{ℤ, pos, ltz, eqz, sub_ℕ}
use hacker_sprint2_sim.Common.Lists.{length}
use hacker_sprint2_sim.Common.Text.{is_empty}
use hacker_sprint2_sim.Platform.{Platform}
use hacker_sprint2_sim.State.{State, RunStatus}
use hacker_sprint2_sim.Outcome.{Outcome, done, refuse, ensure_running, invalid_event}
use hacker_sprint2_sim.Apply.Shared.{
  is_now, record_command, normalize_log_error_codes, time_command_payload,
}
use hacker_sprint2_sim.Capacity.{prune_derived_state}
use hacker_sprint2_sim.Events.World.{TimeAdvanced, RunEnded}

-- MinExplicitAdvance, five minutes in nanoseconds
abbrev pub min_explicit_advance : ℤ
min_explicit_advance = pos 300_000_000_000

abbrev max_duration : ℤ → ℤ → ℤ
max_duration a b = if ltz b a then a else b

-- The duration that the advance should apply: max(real, requested), cut at the end of the run.
unfoldable pub expected_applied : State → TimeAdvanced → ℤ
expected_applied s e =
    let wanted = max_duration e.real_elapsed e.requested_duration in
    let remaining = sub_ℕ s.clock.ends_at e.from in
    if ltz remaining wanted then remaining else wanted

abbrev same_codes : List String → List String → Bool
same_codes [] [] = true
same_codes (x ∷ xs) (y ∷ ys) = same x y && same_codes xs ys
same_codes _ _ = false

-- The filter is sorted, valid and without repeats, and stands only beside stop_on_log_error.
unfoldable pub valid_log_filter : TimeAdvanced → Bool
valid_log_filter e = elim (normalize_log_error_codes e.log_error_codes) [
  | none ↦ false
  | some normalized ↦
      (length e.log_error_codes == 0 || e.stop_on_log_error)
      && same_codes normalized e.log_error_codes
]

unfoldable pub invalid_durations : TimeAdvanced → Bool
invalid_durations e =
    ltz e.real_elapsed (pos 0)
    || ltz e.requested_duration (pos 0)
    || (ltz (pos 0) e.requested_duration && ltz e.requested_duration min_explicit_advance)
    || (e.stop_on_log_error && ltz e.requested_duration min_explicit_advance)

-- Everything that ended before the advance is dropped, and the clock moves.
abbrev advance_clock : TimeAdvanced → State → State
advance_clock e s =
    let pruned = prune_derived_state s e.from in
    record pruned { clock = record (pruned.clock) { current_time = e.to } }

unfoldable pub apply_time_advanced : Platform → State → TimeAdvanced → Outcome
apply_time_advanced env s e = ensure_running s (
    refuse (not (is_now s e.from)) invalid_event s (
      refuse (ltb e.to e.from || ltb s.clock.ends_at e.to) invalid_event s (
        refuse (not (eqz e.applied_duration (sub_ℕ e.to e.from))) invalid_event s (
          refuse (invalid_durations e) invalid_event s (
            refuse (not (valid_log_filter e)) invalid_event s (
              refuse
                ((e.stop_on_log_error && ltz (expected_applied s e) e.applied_duration)
                  || (not e.stop_on_log_error
                      && not (eqz e.applied_duration (expected_applied s e))))
                invalid_event s
                (if is_empty e.command_id
                  then done (advance_clock e s)
                  else record_command e.command_id
                      (time_command_payload env e.real_elapsed e.requested_duration
                        e.stop_on_log_error e.log_error_codes)
                      s (λ t. done (advance_clock e t)))))))))

unfoldable pub apply_run_ended : State → RunEnded → Outcome
apply_run_ended s e = ensure_running s (
    refuse
      (is_empty e.reason || not (is_now s e.completed_at) || ltb s.clock.ends_at e.completed_at)
      invalid_event s (done (record s { status = RunStatus.completed; end_reason = e.reason })))
