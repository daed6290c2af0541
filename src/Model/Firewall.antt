-- ===== src/Model/Firewall.antt =====
-- Rules and client profiles: internal/simulation/model/firewall.go.
use hacker_sprint2_sim.Common.{String, Bool, Option}
use hacker_sprint2_sim.Common.Int.{ℤ}
use hacker_sprint2_sim.Model.Types.{
  Time, FirewallRuleId, FirewallAction, UserAgentOperator, RegionCode,
}

pub record UserAgentMatch : Type 0 where
  pub operator : UserAgentOperator
  pub value : String

pub record FirewallMatch : Type 0 where
  pub source_cidr : String
  pub region_code : RegionCode
  pub user_agent : Option UserAgentMatch

pub record FirewallRule : Type 0 where
  pub id : FirewallRuleId
  pub priority : ℤ
  pub action : FirewallAction
  pub match : FirewallMatch
  pub enabled : Bool
  pub expires_at : Time

pub record ClientProfile : Type 0 where
  pub source_ip : String
  pub user_agent : String
  pub region_code : RegionCode
