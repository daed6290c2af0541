-- ===== src/Firewall.antt =====
-- The firewall: internal/simulation/firewall.go.
pub mod Decision
use hacker_sprint2_sim.Common.{
  ℕ, String, Bool, true, false, not, ◌&&◌, ◌||◌, Option, none, some, List, [], ◌∷◌,
}
use hacker_sprint2_sim.Common.Tests.{ltb, leb, ◌==◌, same, if◌then◌else◌}
use hacker_sprint2_sim.Common.Int.{pos, ltz, eqz}
use hacker_sprint2_sim.Common.Lists.{length, all, any}
use hacker_sprint2_sim.Common.Map.{values}
use hacker_sprint2_sim.Common.Text.{
  before, codes, contains, rune_count, is_empty, is_alnum, is_resource_char,
}
use hacker_sprint2_sim.Common.Sort.{sort}
use hacker_sprint2_sim.Model.Types.{
  Time, FirewallAction, FirewallRuleId, firewall_allow, firewall_deny, user_agent_equals,
  user_agent_contains,
}
use hacker_sprint2_sim.Model.Firewall.{FirewallRule, UserAgentMatch, ClientProfile}
use hacker_sprint2_sim.Platform.{Platform}
use hacker_sprint2_sim.State.{State}
use hacker_sprint2_sim.State.Traffic.{FirewallRuleState, AttackState}

pub record FirewallDecision : Type 0 where
  pub action : FirewallAction
  pub rule_id : FirewallRuleId
  pub revision : ℕ

-- resourceIDPattern: `^[A-Za-z0-9][A-Za-z0-9._:-]{0,127}$`
unfoldable pub is_resource_id_codes : List ℕ → Bool
is_resource_id_codes [] = false
is_resource_id_codes (c ∷ cs) = is_alnum c && all is_resource_char cs && leb (length cs) 127

unfoldable pub is_resource_id : String → Bool
unfolding is_resource_id_codes
is_resource_id s = is_resource_id_codes (codes s)

-- regionCodePattern: `^[A-Z]{2}$`
unfoldable pub is_region_code : String → Bool
is_region_code s = length (codes s) == 2 && all (λ (c : ℕ). leb b'A' c && leb c b'Z') (codes s)

unfoldable pub valid_user_agent_match : Option UserAgentMatch → Bool
valid_user_agent_match none = true
valid_user_agent_match (some ua) =
    (same ua.operator user_agent_equals || same ua.operator user_agent_contains)
    && not (is_empty ua.value)
    && leb (rune_count ua.value) 2048

unfoldable pub has_user_agent : Option UserAgentMatch → Bool
has_user_agent none = false
has_user_agent (some ua) = true

unfoldable pub user_agent_matches : Option UserAgentMatch → String → Bool
user_agent_matches none agent = true
user_agent_matches (some ua) agent =
    if same ua.operator user_agent_equals
    then same agent ua.value
    else if same ua.operator user_agent_contains
    then contains agent ua.value
    else false

-- Enabled, and not expired at `at`.
unfoldable pub is_live : Time → FirewallRuleState → Bool
is_live at r = r.rule.enabled && (r.rule.expires_at == 0 || ltb at r.rule.expires_at)

-- By priority, then by identifier.
unfoldable pub rule_before : FirewallRuleState → FirewallRuleState → Bool
rule_before a b =
    if eqz a.rule.priority b.rule.priority
    then before a.rule.id b.rule.id
    else ltz a.rule.priority b.rule.priority

unfoldable pub live_rules : Time → List FirewallRuleState → List FirewallRuleState
live_rules at [] = []
live_rules at (r ∷ rs) = let rest = live_rules at rs in if is_live at r then r ∷ rest else rest

unfoldable pub decision_of : Option FirewallRuleState → FirewallDecision
decision_of none = record { action = firewall_allow; rule_id = ""; revision = 0 }
decision_of (some r) = record { action = r.rule.action; rule_id = r.rule.id; revision = r.revision }

module _ (env : Platform) where
  -- The source_cidr of a rule: `none` for one that ParsePrefix or Masked refuses.
  unfoldable pub canonical_cidr : String → Option String
  canonical_cidr cidr = if is_empty cidr then some "" else elim (env.parse_prefix cidr) [
    | none ↦ none
    | some prefix ↦ if env.is_masked prefix then some (env.prefix_string prefix) else none
  ]

  -- `none` for an error; each is ErrInvalidCommand.
  unfoldable pub validate_and_normalize_firewall_rule : FirewallRule → Time → Option FirewallRule
  validate_and_normalize_firewall_rule rule now =
      if not (is_resource_id rule.id)
        || ltz rule.priority (pos 0)
        || not (same rule.action firewall_allow || same rule.action firewall_deny)
        || (is_empty rule.match.source_cidr
            && is_empty rule.match.region_code
            && not (has_user_agent rule.match.user_agent))
      then none
      else elim (canonical_cidr rule.match.source_cidr) [
        | none ↦ none
        | some cidr ↦
            if (not (is_empty rule.match.region_code)
                && not (is_region_code rule.match.region_code))
              || not (valid_user_agent_match rule.match.user_agent)
              || (not (rule.expires_at == 0) && leb rule.expires_at now)
            then none
            else some (record rule { match = record (rule.match) { source_cidr = cidr } })
      ]

  unfoldable pub parses_addr : String → Bool
  parses_addr ip = elim (env.parse_addr ip) [ none ↦ false | some _ ↦ true ]

  -- validateClientProfile(profile) == nil
  unfoldable pub valid_client_profile : ClientProfile → Bool
  valid_client_profile profile =
      parses_addr profile.source_ip
      && not (is_empty profile.user_agent)
      && leb (rune_count profile.user_agent) 2048
      && is_region_code profile.region_code

  unfoldable pub cidr_matches : String → String → Bool
  cidr_matches cidr ip = if is_empty cidr then true else elim (env.parse_prefix cidr) [
    | none ↦ false
    | some prefix ↦ elim (env.parse_addr ip) [
      | none ↦ false
      | some address ↦ env.prefix_contains prefix address
    ]
  ]

  unfoldable pub firewall_rule_matches : FirewallRule → ClientProfile → Bool
  firewall_rule_matches rule profile =
      cidr_matches rule.match.source_cidr profile.source_ip
      && (is_empty rule.match.region_code || same rule.match.region_code profile.region_code)
      && user_agent_matches rule.match.user_agent profile.user_agent

  unfoldable pub first_match : ClientProfile → List FirewallRuleState → Option FirewallRuleState
  first_match profile [] = none
  first_match profile (r ∷ rs) =
      if firewall_rule_matches r.rule profile then some r else first_match profile rs

  -- evaluateFirewall on the rules in the order in which `range` yields them.
  unfoldable pub evaluate_rules : List FirewallRuleState → ClientProfile → Time → FirewallDecision
  evaluate_rules rules profile at =
      decision_of (first_match profile (sort rule_before (live_rules at rules)))

  unfoldable pub evaluate_firewall : State → ClientProfile → Time → FirewallDecision
  evaluate_firewall s profile at = evaluate_rules (values s.firewall_rules) profile at

  -- uptimeControlProfiles
  abbrev pub uptime_control_profiles : List ClientProfile
  uptime_control_profiles =
      record { source_ip = "198.51.100.10"; user_agent = "UptimeControl/1.0"; region_code = "RU" }
      ∷ record {
        source_ip = "2001:db8:ffff::10";
        user_agent = "UptimeControl/1.0";
        region_code = "US";
      }
      ∷ []

  -- A set of identifiers, each once.
  unfoldable pub add_id : String → List String → List String
  add_id id ids = if any (same id) ids then ids else id ∷ ids

  unfoldable pub denied_ids : State → List ClientProfile → Time → List FirewallRuleId
  denied_ids s [] at = []
  denied_ids s (profile ∷ profiles) at =
      let rest = denied_ids s profiles at in
      let decision = evaluate_firewall s profile at in
      if same decision.action firewall_deny then add_id decision.rule_id rest else rest

  unfoldable pub firewall_blocking_rule_ids : State → Time → List FirewallRuleId
  firewall_blocking_rule_ids s at = sort before (denied_ids s uptime_control_profiles at)

  -- attackClientProfile
  unfoldable pub attack_client_profile : AttackState → Option ClientProfile
  attack_client_profile attack =
      if is_empty attack.source_cidr || is_empty attack.user_agent || is_empty attack.region_code
      then none
      else elim (env.parse_prefix attack.source_cidr) [
        | none ↦ none
        | some prefix ↦ some (record {
          source_ip = env.prefix_addr_string prefix;
          user_agent = attack.user_agent;
          region_code = attack.region_code;
        })
      ]
