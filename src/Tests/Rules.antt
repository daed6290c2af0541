-- ===== src/Tests/Rules.antt =====
-- Two firewall rules that both match, and the capacity index.
use hacker_sprint2_sim.Common.{◌≡◌, Option, none, [], ◌∷◌, true}
use hacker_sprint2_sim.Common.Int.{pos}
use hacker_sprint2_sim.Model.Firewall.{ClientProfile}
use hacker_sprint2_sim.State.Traffic.{FirewallRuleState}
use hacker_sprint2_sim.Firewall.{evaluate_rules, decision_of}
use hacker_sprint2_sim.Firewall.Decision.{IsChosen, evaluate_rules-IsChosen}
use hacker_sprint2_sim.Tests.{test_platform}

abbrev profile : ClientProfile
profile = record { source_ip = "10.0.0.1"; user_agent = "curl"; region_code = "RU" }

abbrev deny_region : FirewallRuleState
deny_region = record {
  rule = record {
    id = "b";
    priority = pos 5;
    action = "deny";
    match = record { source_cidr = ""; region_code = "RU"; user_agent = none };
    enabled = true;
    expires_at = 0;
  };
  revision = 1;
}

abbrev allow_address : FirewallRuleState
allow_address = record {
  rule = record {
    id = "a";
    priority = pos 5;
    action = "allow";
    match = record { source_cidr = "10.0.0.1"; region_code = ""; user_agent = none };
    enabled = true;
    expires_at = 900;
  };
  revision = 3;
}

evaluate_rules-IsChosen_example :
    (o : Option FirewallRuleState) × IsChosen test_platform profile 500
      (deny_region ∷ allow_address ∷ [])
      o
    × (evaluate_rules test_platform (deny_region ∷ allow_address ∷ []) profile 500 ≡ decision_of o)
evaluate_rules-IsChosen_example =
    evaluate_rules-IsChosen test_platform profile 500 (deny_region ∷ allow_address ∷ [])
