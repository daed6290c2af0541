-- ===== src/Decide/Firewall/Effects.antt =====
-- What the events of the firewall commands do to the flag of the firewall and to its rules:
-- internal/simulation/firewall_state.go and backend_availability.go.
use hacker_sprint2_sim.Common.{◌≡◌, refl, sym, ap, ◌∙◌, not, List, [], ◌∷◌}
use hacker_sprint2_sim.Common.Tests.{◌==◌}
use hacker_sprint2_sim.Common.Lists.{length}
use hacker_sprint2_sim.Common.Sort.{sort}
use hacker_sprint2_sim.Common.Text.{before}
use hacker_sprint2_sim.Common.Result.{ok, and_then-ok, ok-injective, err_ne_ok}
use hacker_sprint2_sim.Model.Types.{Time}
use hacker_sprint2_sim.Model.Firewall.{ClientProfile}
use hacker_sprint2_sim.Platform.{Platform}
use hacker_sprint2_sim.Events.{
  Fact, server_command_accepted, firewall_rule_upserted, firewall_rule_deleted,
  firewall_availability_changed, backend_availability_changed,
}
use hacker_sprint2_sim.Events.Resources.{ServerCommandAccepted, BackendAvailabilityChanged}
use hacker_sprint2_sim.Events.Firewall.{
  FirewallRuleUpserted, FirewallRuleDeleted, FirewallAvailabilityChanged,
}
use hacker_sprint2_sim.State.{State}
use hacker_sprint2_sim.Outcome.{Outcome, done, fail}
use hacker_sprint2_sim.Outcome.Keeps.{Ends, keeps_rules}
use hacker_sprint2_sim.Firewall.{
  denied_ids, evaluate_firewall, firewall_blocking_rule_ids, uptime_control_profiles,
}
use hacker_sprint2_sim.Apply.{apply_fact}
use hacker_sprint2_sim.Apply.Rules.{apply_firewall_availability_changed}
use hacker_sprint2_sim.Apply.Servers.{apply_backend_availability_changed}
use hacker_sprint2_sim.Decide.{applied, apply_all}

-- What a call that succeeds leaves.
abbrev pub Leaves : (State → Type 0) → Outcome → Type 0
Leaves D o = Ends (λ _. Unit) D o

pub Leaves-applied :
    {D : State → Type 0} {t : State} (o : Outcome) → Leaves D o → applied o ≡ ok t → D t
unfolding applied
Leaves-applied (done s) h e = rw (sym (ok-injective e)) h.ended
Leaves-applied (fail e s) h k = absurd (err_ne_ok k)

module _ (env : Platform) where
  -- The flag says whether the rules block one of the probes at the time `at`.
  abbrev pub IsFlagged : Time → State → Type 0
  IsFlagged at t = t.firewall_unavailable ≡ not (length (firewall_blocking_rule_ids env t at) == 0)

  denied_ids-rules :
      (s t : State) (profiles : List ClientProfile) (at : Time)
      → t.firewall_rules ≡ s.firewall_rules
      → denied_ids env t profiles at ≡ denied_ids env s profiles at
  unfolding denied_ids evaluate_firewall
  denied_ids-rules s t [] at h = refl
  denied_ids-rules s t (profile ∷ profiles) at h =
      let rest = denied_ids-rules s t profiles at h in cc

  pub firewall_blocking_rule_ids-rules :
      (s t : State) (at : Time)
      → t.firewall_rules ≡ s.firewall_rules
      → firewall_blocking_rule_ids env t at ≡ firewall_blocking_rule_ids env s at
  unfolding firewall_blocking_rule_ids
  firewall_blocking_rule_ids-rules s t at h =
      ap (sort before) (denied_ids-rules s t (uptime_control_profiles env) at h)

  pub IsFlagged-kept :
      (s t : State) (at : Time)
      → IsFlagged at s
      → t.firewall_unavailable ≡ s.firewall_unavailable
      → t.firewall_rules ≡ s.firewall_rules
      → IsFlagged at t
  IsFlagged-kept s t at h flag rules =
      flag
      ∙ h
      ∙ ap (λ ids. not (length ids == 0)) (sym (firewall_blocking_rule_ids-rules s t at rules))

  pub firewall_changed :
      (s : State) (e : FirewallAvailabilityChanged)
      → Leaves
          (λ t. (t.firewall_unavailable ≡ not e.available) × (t.firewall_rules ≡ s.firewall_rules))
          (apply_fact env s (firewall_availability_changed e))
  unfolding apply_fact apply_firewall_availability_changed
  firewall_changed s e = search keeps_rules depth 20

  pub backend_changed :
      (s : State) (e : BackendAvailabilityChanged)
      → Leaves
          (λ t.
            (t.firewall_unavailable ≡ s.firewall_unavailable)
            × (t.firewall_rules ≡ s.firewall_rules))
          (apply_fact env s (backend_availability_changed e))
  unfolding apply_fact apply_backend_availability_changed
  backend_changed s e = search keeps_rules depth 20

  command_accepted :
      (s : State) (e : ServerCommandAccepted)
      → Leaves
          (λ t. t.firewall_unavailable ≡ s.firewall_unavailable)
          (apply_fact env s (server_command_accepted e))
  unfolding apply_fact
  command_accepted s e = search keeps_rules depth 20

  pub rule_upserted :
      (s : State) (e : FirewallRuleUpserted)
      → Leaves
          (λ t. t.firewall_unavailable ≡ s.firewall_unavailable)
          (apply_fact env s (firewall_rule_upserted e))
  unfolding apply_fact
  rule_upserted s e = search keeps_rules depth 20

  pub rule_deleted :
      (s : State) (e : FirewallRuleDeleted)
      → Leaves
          (λ t. t.firewall_unavailable ≡ s.firewall_unavailable)
          (apply_fact env s (firewall_rule_deleted e))
  unfolding apply_fact
  rule_deleted s e = search keeps_rules depth 20

  -- Two events, the command that is accepted and its effect.
  pub pair_keeps :
      (s t : State) (e : ServerCommandAccepted) (item : Fact)
      → ((u : State)
          → Leaves (λ v. v.firewall_unavailable ≡ u.firewall_unavailable) (apply_fact env u item))
      → apply_all env s (server_command_accepted e ∷ item ∷ []) ≡ ok t
      → t.firewall_unavailable ≡ s.firewall_unavailable
  unfolding apply_all
  pair_keeps s t e item effect h =
      let (u, accepted, rest) =
        and_then-ok (applied (apply_fact env s (server_command_accepted e))) _ h in
      let (v, changed, last) = and_then-ok (applied (apply_fact env u item)) _ rest in
      let end = ok-injective last in
      ap (λ x. x.firewall_unavailable) (sym end)
      ∙ Leaves-applied (apply_fact env u item) (effect u) changed
      ∙ Leaves-applied (apply_fact env s (server_command_accepted e)) (command_accepted s e)
          accepted
