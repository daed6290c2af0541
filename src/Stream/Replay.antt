-- ===== src/Stream/Replay.antt =====
-- What a replay of a stream establishes: `Rehydrate` of internal/simulation/aggregate.go.
use mathlib.Core.Path.{subst}
use hacker_sprint2_sim.Common.{
  ◌↔◌, Bool, ◌+◌, ◌≡◌, refl, true, false, List, [], ◌∷◌, ◌++◌, inl, inr, arith,
}
use hacker_sprint2_sim.Common.Tests.{◌==◌, if◌then◌else◌}
use hacker_sprint2_sim.Common.Lists.{length}
use hacker_sprint2_sim.Common.Result.{Result, ok, err, Result-cases, ok-injective, err_ne_ok}
use hacker_sprint2_sim.Platform.{Platform}
use hacker_sprint2_sim.State.{State}
use hacker_sprint2_sim.Outcome.{Error, Outcome, done, fail, left, invalid_event}
use hacker_sprint2_sim.Capacity.{prune_derived_state, prune_expired_capacity}
use hacker_sprint2_sim.Apply.{apply}
use hacker_sprint2_sim.Stream.{StoredEvent, new_state, replay, rehydrate, when_done}
use hacker_sprint2_sim.Invariant.Clock.{IsTimely, apply-IsTimely}

-- Done steps of the run, one for each record.
pub data Runs (env : Platform) : State → List StoredEvent → State → Type 0 where
  rest : {s : State} → Runs env s [] s
  step :
      {s u : State} (t : State) {r : StoredEvent} {rs : List StoredEvent}
      → r.version ≡ s.version + 1
      → apply env s r.event ≡ done t
      → Runs env (record t { version = r.version }) rs u
      → Runs env s (r ∷ rs) u

if-ok :
    {A : Type 0} {a : A} (e : Error) (b : Bool) (r : Result Error A)
    → (if b then r else err e) ≡ ok a
    → (b ≡ true) × (r ≡ ok a)
if-ok e true r h = (refl, h)
if-ok e false r h = absurd (err_ne_ok h)

when_done-ok :
    {A : Type 0} {a : A} (o : Outcome) (k : State → Result Error A)
    → when_done o k ≡ ok a
    → (t : State) × (o ≡ done t) × (k t ≡ ok a)
unfolding when_done
when_done-ok (fail e t) k h = absurd (err_ne_ok h)
when_done-ok (done t) k h = (t, refl, h)

module _ (env : Platform) where
  -- The loop succeeds along a chain of successful steps with consecutive versions.
  replay-Runs : (s u : State) (rs : List StoredEvent) → replay env s rs ≡ ok u → Runs env s rs u
  unfolding replay
  replay-Runs s u [] h = subst (Runs env s []) (ok-injective h) rest
  replay-Runs s u (r ∷ rs) h =
      let first =
        if-ok invalid_event (r.version == s.version + 1)
          (when_done (apply env s r.event) (λ t. replay env (record t { version = r.version }) rs))
          h in
      let next =
        when_done-ok (apply env s r.event) (λ t. replay env (record t { version = r.version }) rs)
          first.1 in
      step next.0 (ground (arith)) next.1
        (replay-Runs (record (next.0) { version = r.version }) u rs next.2)

  Runs-replay : {s u : State} {rs : List StoredEvent} → Runs env s rs u → replay env s rs ≡ ok u
  unfolding replay when_done
  Runs-replay rest = refl
  Runs-replay {s = s} {rs = r ∷ rs} (step t v a p) =
      let e : (r.version == s.version + 1) ≡ true = ground (arith) in rw (e, a) (Runs-replay p)

  -- Rehydrate succeeds with a state exactly when the records are a chain of successful steps from
  -- the new state under consecutive versions, and the state is its end with the derived data
  -- pruned for its own time.
  pub rehydrate-Runs :
      (rs : List StoredEvent) (u : State)
      → (rehydrate env rs ≡ ok u)
        ↔ ((t : State) × Runs env new_state rs t × (prune_derived_state t t.clock.current_time ≡ u))
  unfolding rehydrate
  rehydrate-Runs rs u = (forward, backward)
    where
      forward :
          rehydrate env rs ≡ ok u
          → ((t : State) × Runs env new_state rs t
              × (prune_derived_state t t.clock.current_time ≡ u))
      forward h = elim (Result-cases (replay env new_state rs)) [
        | inl (e, l) ↦ absurd (err_ne_ok (rw l at h))
        | inr (t, l) ↦ (t, replay-Runs new_state t rs l, ok-injective (rw l at h))
      ]

      backward :
          (t : State) × Runs env new_state rs t × (prune_derived_state t t.clock.current_time ≡ u)
          → rehydrate env rs ≡ ok u
      backward (t, p, e) = rw (Runs-replay p, e)

  Runs-IsTimely : {s u : State} {rs : List StoredEvent} → Runs env s rs u → IsTimely s → IsTimely u
  Runs-IsTimely rest h = h
  Runs-IsTimely {s = s} {rs = r ∷ rs} (step t v a p) h =
      Runs-IsTimely p (subst (λ o. IsTimely (left o)) a (apply-IsTimely env s r.event h))

  Runs-version :
      {s u : State} {rs : List StoredEvent} → Runs env s rs u → u.version ≡ s.version + length rs
  Runs-version rest = omega arith
  Runs-version (step t v a p) = let rest_of = Runs-version p in omega arith

  -- A rehydrated state has a time between the start and the end of its run, and its version counts
  -- the records.
  pub rehydrate-IsTimely :
      (rs : List StoredEvent) (u : State)
      → rehydrate env rs ≡ ok u
      → IsTimely u × (u.version ≡ length rs)
  unfolding prune_derived_state prune_expired_capacity
  rehydrate-IsTimely rs u h =
      let (t, p, e) = (rehydrate-Runs rs u).0 h in
      let timely = Runs-IsTimely p tt in
      let counted = Runs-version p in
      subst (λ x. IsTimely x × (x.version ≡ length rs)) e (timely, omega arith)

  -- Two streams in a row replay as one: what a session does that catches up with new records.
  pub Runs-append :
      {s t u : State} {rs qs : List StoredEvent}
      → Runs env s rs t
      → Runs env t qs u
      → Runs env s (rs ++ qs) u
  Runs-append rest q = q
  Runs-append (step t v a p) q = step t v a (Runs-append p q)
