-- ===== src/Decide/Firewall/Availability.antt =====
-- The two checks that end the firewall commands: appendFirewallAvailabilityChange of
-- internal/simulation/firewall_commands.go and appendBackendAvailabilityChange of
-- backend_availability.go, and what the events leave that they add.
use hacker_sprint2_sim.Common.{
  ◌≡◌, refl, sym, ap, ◌∙◌, Bool, true, false, not, List, [], ◌∷◌, ◌++◌, inl, inr,
}
use hacker_sprint2_sim.Common.Tests.{◌==◌, same_bool, if◌then◌else◌, Bool-cases}
use hacker_sprint2_sim.Common.Lists.{length}
use hacker_sprint2_sim.Common.Result.{Result, ok, err, and_then, and_then-ok, ok-injective}
use hacker_sprint2_sim.Model.Types.{Time}
use hacker_sprint2_sim.Platform.{Platform}
use hacker_sprint2_sim.Events.{Fact, firewall_availability_changed, backend_availability_changed}
use hacker_sprint2_sim.Events.Resources.{BackendAvailabilityChanged}
use hacker_sprint2_sim.Events.Firewall.{FirewallAvailabilityChanged}
use hacker_sprint2_sim.State.{State}
use hacker_sprint2_sim.Outcome.{Error}
use hacker_sprint2_sim.Firewall.{firewall_blocking_rule_ids}
use hacker_sprint2_sim.Capacity.{backend_unavailable_pages}
use hacker_sprint2_sim.Apply.{apply_fact}
use hacker_sprint2_sim.Decide.{
  applied, apply_all, append_backend_availability_change,
  append_backend_availability_change_to_working,
}
use hacker_sprint2_sim.Decide.Firewall.{append_firewall_availability_change, with_availability}
use hacker_sprint2_sim.Decide.Firewall.Effects.{
  Leaves-applied, IsFlagged, IsFlagged-kept, firewall_blocking_rule_ids-rules, firewall_changed,
  backend_changed,
}

chained :
    {A B C : Type 0} (r : Result Error A) (f : A → Result Error B) (g : B → Result Error C)
    (h : A → Result Error C)
    → ((a : A) → h a ≡ and_then (f a) g)
    → and_then r h ≡ and_then (and_then r f) g
unfolding and_then
chained (err e) f g h k = refl
chained (ok a) f g h k = k a

and_then-ok_id : {A : Type 0} (r : Result Error A) → and_then r (λ a. ok a) ≡ r
unfolding and_then
and_then-ok_id (err e) = refl
and_then-ok_id (ok a) = refl

unlike : (b flag : Bool) → same_bool b (not flag) ≡ true → flag ≡ not b
unlike true true h = cc
unlike true false h = refl
unlike false true h = refl
unlike false false h = cc

module _ (env : Platform) where
  apply_all-append :
      (s : State) (items more : List Fact)
      → apply_all env s (items ++ more)
        ≡ and_then (apply_all env s items) (λ t. apply_all env t more)
  unfolding apply_all and_then
  apply_all-append s [] more = refl
  apply_all-append s (item ∷ items) more =
      chained (applied (apply_fact env s item)) (λ t. apply_all env t items)
        (λ t. apply_all env t more) (λ t. apply_all env t (items ++ more))
        (λ t. apply_all-append t items more)

  -- One event behind the others.
  apply_all-last :
      (s t : State) (items : List Fact) (item : Fact)
      → apply_all env s items ≡ ok t
      → apply_all env s (items ++ item ∷ []) ≡ applied (apply_fact env t item)
  unfolding apply_all and_then
  apply_all-last s t items item h =
      apply_all-append s items (item ∷ [])
      ∙ ap (λ r. and_then r (λ x. apply_all env x (item ∷ []))) h
      ∙ and_then-ok_id (applied (apply_fact env t item))

  availability : State → State → FirewallAvailabilityChanged
  availability s t = record {
    available = length (firewall_blocking_rule_ids env t s.clock.current_time) == 0;
    blocking_rule_ids = firewall_blocking_rule_ids env t s.clock.current_time;
    changed_at = s.clock.current_time;
  }

  firewall_end :
      (s t u : State) (items out : List Fact)
      → append_firewall_availability_change env s items ≡ ok out
      → apply_all env s items ≡ ok t
      → t.firewall_unavailable ≡ s.firewall_unavailable
      → apply_all env s out ≡ ok u
      → IsFlagged env s.clock.current_time u
  unfolding append_firewall_availability_change and_then availability
  firewall_end s t u items out emitted reached_t kept after =
      let now = s.clock.current_time in
      let available = length (firewall_blocking_rule_ids env t now) == 0 in
      let item = firewall_availability_changed (availability s t) in
      let chosen : (if same_bool available (not s.firewall_unavailable)
            then ok items
            else ok (items ++ item ∷ []))
          ≡ ok out =
        rw reached_t at emitted in
      elim (Bool-cases (same_bool available (not s.firewall_unavailable))) [
        | inl c ↦
            let none_added : items ≡ out = ok-injective (rw c at chosen) in
            let same_end : t ≡ u =
              ok-injective (sym reached_t ∙ ap (apply_all env s) none_added ∙ after) in
            IsFlagged-kept env t u now (kept ∙ unlike available s.firewall_unavailable c)
              (ap (λ x. x.firewall_unavailable) (sym same_end))
              (ap (λ x. x.firewall_rules) (sym same_end))
        | inr c ↦
            let added : items ++ item ∷ [] ≡ out = ok-injective (rw c at chosen) in
            let (flag, rules) =
              Leaves-applied (apply_fact env t item) (firewall_changed env t (availability s t)) (
                sym (apply_all-last s t items item reached_t)
                ∙ ap (apply_all env s) added
                ∙ after) in
            flag
            ∙ ap (λ ids. not (length ids == 0))
                (sym (firewall_blocking_rule_ids-rules env t u now rules))
      ]

  -- What the check of the backends adds leaves the firewall as it is.
  abbrev KeepsFirewall : State → State → Type 0
  KeepsFirewall u v =
      (v.firewall_unavailable ≡ u.firewall_unavailable) × (v.firewall_rules ≡ u.firewall_rules)

  working_end :
      (s u w : State) (items out : List Fact) (at : Time)
      → apply_all env s items ≡ ok u
      → append_backend_availability_change_to_working env items u at ≡ ok (out, w)
      → (apply_all env s out ≡ ok w) × KeepsFirewall u w
  unfolding append_backend_availability_change_to_working
  working_end s u w items out at reached_t h =
      let pages = backend_unavailable_pages env u at in
      let unavailable = not (length pages == 0) in
      elim (Bool-cases (same_bool unavailable u.backend_unavailable)) [
        | inl c ↦
            let e : ok (items, u) ≡ ok (out, w) = rw c at h in
            let same_out = ap (λ p. p.0) (ok-injective e) in
            let same_end = ap (λ p. p.1) (ok-injective e) in
            (
              ap (apply_all env s) (sym same_out) ∙ reached_t ∙ ap (λ x. ok x) same_end,
              (
                ap (λ x. x.firewall_unavailable) (sym same_end),
                ap (λ x. x.firewall_rules) (sym same_end),
              ),
            )
        | inr c ↦
            let event : BackendAvailabilityChanged = record {
              available = not unavailable;
              unavailable_pages = pages;
              changed_at = at;
            } in
            let item = backend_availability_changed event in
            let (v, done_v, e) = and_then-ok (applied (apply_fact env u item)) _ (rw c at h) in
            let same_end = ap (λ p. p.1) (ok-injective e) in
            let reached = done_v ∙ ap (λ x. ok x) same_end in
            (
              ap (apply_all env s) (sym (ap (λ p. p.0) (ok-injective e)))
                  ∙ apply_all-last s u items item reached_t
                  ∙ reached,
              Leaves-applied (apply_fact env u item) (backend_changed env u event) reached,
            )
      ]

  backend_end :
      (s : State) (items out : List Fact) (at : Time)
      → append_backend_availability_change env s items at ≡ ok out
      → (u v : State) × (apply_all env s items ≡ ok u)
        × (apply_all env s out ≡ ok v)
        × KeepsFirewall u v
  unfolding append_backend_availability_change
  backend_end s items out at h =
      let (u, reached_t, rest) = and_then-ok (apply_all env s items) _ h in
      let ((more, w), working, same_out) =
        and_then-ok (append_backend_availability_change_to_working env items u at) _ rest in
      let (at_w, kept) =
        working_end s u w items out at reached_t
          (working ∙ ap (λ x. ok (x, w)) (ok-injective same_out)) in
      (u, w, reached_t, at_w, kept)

  -- What both commands need of their own events.
  pub with_availability-IsFlagged :
      (s : State) (items out : List Fact)
      → ((t : State)
          → apply_all env s items ≡ ok t
          → t.firewall_unavailable ≡ s.firewall_unavailable)
      → with_availability env s items ≡ ok out
      → (t : State) × (apply_all env s out ≡ ok t) × IsFlagged env s.clock.current_time t
  unfolding with_availability append_firewall_availability_change
  with_availability-IsFlagged s items out kept h =
      let now = s.clock.current_time in
      let (middle, first, second) =
        and_then-ok (append_firewall_availability_change env s items) _ h in
      let (t, reached_t, _) = and_then-ok (apply_all env s items) _ first in
      let (u, v, at_u, at_v, (flag, rules)) = backend_end s middle out now second in
      (
        v,
        at_v,
        IsFlagged-kept env u v now
            (firewall_end s t u items middle first reached_t (kept t reached_t) at_u) flag rules,
      )
