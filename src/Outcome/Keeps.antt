-- ===== src/Outcome/Keeps.antt =====
-- A property that a call keeps, whether it succeeds or fails: one rule for each guard.
use hacker_sprint2_sim.Common.{◌≡◌, refl, Bool, true, false, Option, none, some}
use hacker_sprint2_sim.Common.Tests.{if◌then◌else◌}
use hacker_sprint2_sim.State.{State, RunStatus}
use hacker_sprint2_sim.Outcome.{
  Error, Outcome, done, fail, left, refuse, found, ensure_running, ensure_run_exists, when_status,
  run_completed,
}

-- What is left: F of a call that fails, D of one that succeeds.
abbrev pub LeftAs : (F D : State → Type 0) → Outcome → Type 0
LeftAs F D (done s) = D s
LeftAs F D (fail e s) = F s

pub record Ends (F D : State → Type 0) (o : Outcome) : Type 0 where
  pub ended : LeftAs F D o

abbrev pub Keeps : (State → Type 0) → Outcome → Type 0
Keeps P o = Ends P P o

pub Keeps-left : {P : State → Type 0} (o : Outcome) → Keeps P o → P (left o)
Keeps-left (done s) h = h.ended
Keeps-left (fail e s) h = h.ended

module _ {F D : State → Type 0} where
  pub Ends-done : {s : State} → D s → Ends F D (done s)
  Ends-done h = record { ended = h }

  pub Ends-fail : {s : State} (e : Error) → F s → Ends F D (fail e s)
  Ends-fail e h = record { ended = h }

  -- The rest of the call may use that its guard passed.
  pub Ends-refuse :
      (b : Bool) (e : Error) (s : State) (rest : Outcome)
      → F s
      → (b ≡ false → Ends F D rest)
      → Ends F D (refuse b e s rest)
  unfolding refuse
  Ends-refuse true e s rest h k = record { ended = h }
  Ends-refuse false e s rest h k = k refl

  pub Ends-if :
      (b : Bool) (m n : Outcome)
      → (b ≡ true → Ends F D m)
      → (b ≡ false → Ends F D n)
      → Ends F D (if b then m else n)
  Ends-if true m n h k = h refl
  Ends-if false m n h k = k refl

  pub Ends-found :
      {A : Type 0} (o : Option A) (missing : Outcome) (rest : A → Outcome)
      → Ends F D missing
      → ((a : A) → o ≡ some a → Ends F D (rest a))
      → Ends F D (found o missing rest)
  unfolding found
  Ends-found none missing rest h k = h
  Ends-found (some a) missing rest h k = k a refl

  Ends-when_status :
      (r : RunStatus) (s : State) (ended rest : Outcome)
      → F s
      → Ends F D ended
      → (r ≡ RunStatus.running → Ends F D rest)
      → Ends F D (when_status r s ended rest)
  unfolding when_status
  Ends-when_status RunStatus.not_created s ended rest h n k = record { ended = h }
  Ends-when_status RunStatus.running s ended rest h n k = k refl
  Ends-when_status RunStatus.completed s ended rest h n k = n

  pub Ends-ensure_running :
      (s : State) (rest : Outcome)
      → F s
      → (s.status ≡ RunStatus.running → Ends F D rest)
      → Ends F D (ensure_running s rest)
  unfolding ensure_running
  Ends-ensure_running s rest h k =
      Ends-when_status s.status s (fail run_completed s) rest h (record { ended = h }) k

  pub Ends-ensure_run_exists :
      (s : State) (rest : Outcome) → F s → Ends F D rest → Ends F D (ensure_run_exists s rest)
  unfolding ensure_run_exists
  Ends-ensure_run_exists s rest h k = Ends-when_status s.status s rest rest h k (λ _. k)

pub ruleset keeps_rules = (
  Ends-done, Ends-fail, Ends-refuse, Ends-found, Ends-if, Ends-ensure_running,
  Ends-ensure_run_exists,
)
