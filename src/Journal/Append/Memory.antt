-- ===== src/Journal/Append/Memory.antt =====
-- What `Append` of internal/persistence/journal/store.go does to the stream in memory is what
-- `applyFrame` does to a stream that is replayed.
use mathlib.Core.List.{append_assoc, append-nil}
use hacker_sprint2_sim.Common.{
  ℕ, ◌+◌, ◌<◌, ◌%◌, ◌^◌, ◌≡◌, refl, sym, ap, ◌∙◌, false, ◌&&◌, List, [], ◌∷◌, ◌++◌, arith, inl, inr,
}
use hacker_sprint2_sim.Common.Tests.{◌==◌, Bool-cases}
use hacker_sprint2_sim.Common.Lists.{length}
use hacker_sprint2_sim.Common.Result.{ok}
use hacker_sprint2_sim.Model.Types.{Time}
use hacker_sprint2_sim.Events.{Event}
use hacker_sprint2_sim.Stream.{StoredEvent}
use hacker_sprint2_sim.Store.Memory.{stored_from}
use hacker_sprint2_sim.Journal.Stream.{
  RunStream, is_run_ended, apply_summary_event, apply_summary_events, last_version,
  starts_elsewhere, apply_domain_events,
}
use hacker_sprint2_sim.Journal.Append.{remember}

-- The projection does not look at the events and the version of the stream.
abbrev with_events : ℕ → List StoredEvent → RunStream → RunStream
with_events version events m = record m { domain_version = version; events = events }

apply_summary_event-with_events :
    (at : Time) (r : StoredEvent) (v : ℕ) (es : List StoredEvent) (m : RunStream)
    → apply_summary_event at r (with_events v es m) ≡ with_events v es (apply_summary_event at r m)
unfolding apply_summary_event
apply_summary_event-with_events at r v es m =
    elim (Bool-cases (is_run_ended r.event && (m.real_completed_at == 0))) [
      | inl e ↦ ground (arith)
      | inr e ↦ ground (arith)
    ]

apply_summary_events-with_events :
    (at : Time) (rs : List StoredEvent) (v : ℕ) (es : List StoredEvent) (m : RunStream)
    → apply_summary_events at rs (with_events v es m)
      ≡ with_events v es (apply_summary_events at rs m)
unfolding apply_summary_events
apply_summary_events-with_events at [] v es m = refl
apply_summary_events-with_events at (r ∷ rs) v es m =
    ap (apply_summary_events at rs) (apply_summary_event-with_events at r v es m)
    ∙ apply_summary_events-with_events at rs v es (apply_summary_event at r m)

-- The loop at the end of Append, in the order of `applyFrame`.
remember-with_events :
    (at : Time) (es : List Event) (n : ℕ) (m : RunStream)
    → m.domain_version ≡ n
    → n + length es < 2 ^ 64
    → remember at es m
      ≡ with_events
          (last_version n (stored_from n es))
          (m.events ++ stored_from n es)
          (apply_summary_events at (stored_from n es) m)
unfolding remember stored_from apply_summary_events last_version
remember-with_events at [] n m h fits =
    ap (λ v. with_events v m.events m) h ∙ ap (λ x. with_events n x m) (sym (append-nil m.events))
remember-with_events at (e ∷ es) n m h fits =
    let r : StoredEvent = record { version = n + 1; event = e } in
    let version : (m.domain_version + 1) % 2 ^ 64 ≡ n + 1 = omega arith in
    let grown = m.events ++ (r ∷ []) in
    let more = stored_from (n + 1) es in
    let seen = apply_summary_event at r m in
    ap
      (λ v. remember at es (
        apply_summary_event at (record { version = v; event = e })
          (with_events v (m.events ++ (record { version = v; event = e } ∷ [])) m)))
      version
    ∙ ap (remember at es) (apply_summary_event-with_events at r (n + 1) grown m)
    ∙ remember-with_events at es (n + 1) (with_events (n + 1) grown seen) refl (omega arith)
    ∙ ap (with_events (last_version (n + 1) more) (grown ++ more))
        (apply_summary_events-with_events at more (n + 1) grown seen)
    ∙ ap (λ x. with_events (last_version (n + 1) more) x (apply_summary_events at more seen))
        (append_assoc m.events (r ∷ []) more)

pub remember-events :
    (at : Time) (es : List Event) (m : RunStream)
    → m.domain_version + length es < 2 ^ 64
    → (remember at es m).events ≡ m.events ++ stored_from m.domain_version es
remember-events at es m fits =
    ap (λ (x : RunStream). x.events) (remember-with_events at es m.domain_version m refl fits)

-- The loop's result, from what applyFrame computes once its guard is passed.
pub summarised :
    (at : Time) (es : List Event) (m : RunStream)
    → m.domain_version + length es < 2 ^ 64
    → (rs : List StoredEvent) → rs ≡ stored_from m.domain_version es
    → (stream : RunStream)
    → stream ≡ apply_summary_events at rs (record m { events = m.events ++ rs })
    → record stream { domain_version = last_version stream.domain_version rs } ≡ remember at es m
summarised at es m fits rs found stream h =
    let commuted = h ∙ apply_summary_events-with_events at rs m.domain_version (m.events ++ rs) m in
    ap (λ (x : RunStream). record x { domain_version = last_version (x.domain_version) rs })
      commuted
    ∙ ap
        (λ x.
          with_events (last_version m.domain_version x) (m.events ++ x)
            (apply_summary_events at x m))
        found
    ∙ sym (remember-with_events at es m.domain_version m refl fits)

pub starts_here :
    (n : ℕ) (es : List Event)
    → n + length es < 2 ^ 64
    → starts_elsewhere ((n + 1) % 2 ^ 64) (stored_from n es) ≡ false
unfolding starts_elsewhere stored_from
starts_here n [] fits = refl
starts_here n (e ∷ es) fits = let version : (n + 1) % 2 ^ 64 ≡ n + 1 = omega arith in ground (arith)

-- Replaying the records of an append gives the stream that the append leaves in memory.
pub apply_domain_events-remember :
    (at : Time) (es : List Event) (m : RunStream)
    → m.domain_version + length es < 2 ^ 64
    → apply_domain_events at (stored_from m.domain_version es) m ≡ ok (remember at es m)
unfolding apply_domain_events
apply_domain_events-remember at es m fits = ground (
  arith,
  starts_here m.domain_version es fits,
  summarised at es m fits (stored_from m.domain_version es) refl
      (apply_summary_events at (stored_from m.domain_version es)
        (record m { events = m.events ++ stored_from m.domain_version es }))
      refl,
)
