-- ===== src/Decide/Firewall/Settled.antt =====
-- What Decide answers a firewall command: internal/simulation/firewall_commands.go.
use hacker_sprint2_sim.Common.{
  String, Option, ◌⊎◌, ◌||◌, ◌≡◌, refl, sym, ap, Bool, true, false, not, none, some, List, [], inl,
  inr,
}
use hacker_sprint2_sim.Common.Tests.{eq_of_same, same, if◌then◌else◌, Bool-cases}
use hacker_sprint2_sim.Common.Map.{lookup}
use hacker_sprint2_sim.Common.Text.{is_empty}
use hacker_sprint2_sim.Common.Result.{Result, ok, guard-ok, ok-injective, err_ne_ok}
use hacker_sprint2_sim.Model.Firewall.{FirewallRule}
use hacker_sprint2_sim.Platform.{Platform}
use hacker_sprint2_sim.Events.{Fact}
use hacker_sprint2_sim.State.{State, RunStatus}
use hacker_sprint2_sim.Outcome.{Error, invalid_command, resource_not_found}
use hacker_sprint2_sim.Firewall.{is_resource_id, validate_and_normalize_firewall_rule}
use hacker_sprint2_sim.Decide.{apply_all}
use hacker_sprint2_sim.Decide.Firewall.{
  upsert_payload, delete_payload, FirewallCommand, upsert, delete, firewall_command_receipt,
  decide_firewall_command, found_or, unless_recorded, UpsertFirewallRule, DeleteFirewallRule,
  when_running, decide_upsert_firewall_rule, decide_delete_firewall_rule,
}
use hacker_sprint2_sim.Decide.Firewall.Effects.{IsFlagged, pair_keeps, rule_upserted, rule_deleted}
use hacker_sprint2_sim.Decide.Firewall.Availability.{with_availability-IsFlagged}

when_running-ok :
    {A : Type 0} {a : A} (r : RunStatus) (rest : Result Error A)
    → when_running r rest ≡ ok a
    → rest ≡ ok a
unfolding when_running
when_running-ok RunStatus.not_created rest h = absurd (err_ne_ok h)
when_running-ok RunStatus.running rest h = h
when_running-ok RunStatus.completed rest h = absurd (err_ne_ok h)

found_or-ok :
    {A B : Type 0} {b : B} (o : Option A) (e : Error) (rest : A → Result Error B)
    → found_or o e rest ≡ ok b
    → (a : A) × (o ≡ some a) × (rest a ≡ ok b)
unfolding found_or
found_or-ok none e rest h = absurd (err_ne_ok h)
found_or-ok (some a) e rest h = (a, refl, h)

known_entry :
    {p : String} (b : Bool) (o : Option String) → (if b then none else o) ≡ some p → o ≡ some p
known_entry true o h = cc
known_entry false o h = h

unless_recorded-ok :
    {out : List Fact} (o : Option String) (payload : String) (rest : Result Error (List Fact))
    → unless_recorded o payload rest ≡ ok out
    → ((o ≡ some payload) × (out ≡ [])) ⊎ (rest ≡ ok out)
unfolding unless_recorded
unless_recorded-ok none payload rest h = inr h
unless_recorded-ok (some previous) payload rest h = elim (Bool-cases (same previous payload)) [
  | inl c ↦ inl (ap some (eq_of_same previous payload c), sym (ok-injective (rw c at h)))
  | inr c ↦ absurd (err_ne_ok (rw c at h))
]

module _ (env : Platform) where
  module _ (encode_rule : FirewallRule → String) (digest : List String → String) where
    -- What a command emits that is decided and not only known from before.
    abbrev pub Settled : State → List Fact → Type 0
    Settled s out =
        (t : State) × (apply_all env s out ≡ ok t) × IsFlagged env s.clock.current_time t

    decide_upsert_firewall_rule-Settled :
        (s : State) (command : UpsertFirewallRule) (out : List Fact)
        → decide_upsert_firewall_rule env encode_rule digest s command ≡ ok out
        → Settled s out
    unfolding decide_upsert_firewall_rule
    decide_upsert_firewall_rule-Settled s command out h =
        let (_, valid) =
          guard-ok invalid_command (is_empty command.command_id) _ (when_running-ok s.status _ h) in
        let (rule, _, emitted) =
          found_or-ok (validate_and_normalize_firewall_rule env command.rule s.clock.current_time)
            invalid_command _ valid in
        with_availability-IsFlagged env s _ out
          (λ t. pair_keeps env s t _ _ (λ u. rule_upserted env u _)) emitted

    decide_delete_firewall_rule-Settled :
        (s : State) (command : DeleteFirewallRule) (out : List Fact)
        → decide_delete_firewall_rule env encode_rule digest s command ≡ ok out
        → Settled s out
    unfolding decide_delete_firewall_rule
    decide_delete_firewall_rule-Settled s command out h =
        let (_, valid) =
          guard-ok invalid_command
            (is_empty command.command_id || not (is_resource_id command.rule_id)) _
            (when_running-ok s.status _ h) in
        let (rule, _, emitted) =
          found_or-ok (lookup command.rule_id s.firewall_rules) resource_not_found _ valid in
        with_availability-IsFlagged env s _ out
          (λ t. pair_keeps env s t _ _ (λ u. rule_deleted env u _)) emitted

    -- Where Decide answers a firewall command with events, the command was recorded before with the
    -- same payload and there are none, or all of them apply in their order, and then
    -- FirewallUnavailable says whether the rules block one of the uptime probes at the current time.
    pub decide_firewall_command-settles :
        (s : State) (command : FirewallCommand) (out : List Fact)
        → decide_firewall_command env encode_rule digest s command ≡ ok out
        → ((lookup (firewall_command_receipt env encode_rule digest command).0 s.command_payloads
              ≡ some (firewall_command_receipt env encode_rule digest command).1)
            × (out ≡ []))
          ⊎ Settled s out
    unfolding decide_firewall_command firewall_command_receipt
    decide_firewall_command-settles s (upsert c) out h =
        elim (unless_recorded-ok _ (upsert_payload env encode_rule digest c) _ h) [
          | inl (known, none_emitted) ↦
              inl (known_entry (is_empty c.command_id) _ known, none_emitted)
          | inr e ↦ inr (decide_upsert_firewall_rule-Settled s c out e)
        ]
    decide_firewall_command-settles s (delete c) out h =
        elim (unless_recorded-ok _ (delete_payload env encode_rule digest c) _ h) [
          | inl (known, none_emitted) ↦
              inl (known_entry (is_empty c.command_id) _ known, none_emitted)
          | inr e ↦ inr (decide_delete_firewall_rule-Settled s c out e)
        ]
