-- ===== src/Platform.antt =====
-- The parts of Go's standard library that the simulator calls and this development does not define:
-- the addresses and prefixes of net/netip, decimal printing and upper-casing.
use hacker_sprint2_sim.Common.{String, Bool, Option}
use hacker_sprint2_sim.Common.Int.{ℤ}

pub record Platform : Type 1 where
  pub Addr : Type 0
  pub Prefix : Type 0
  -- netip.ParseAddr and netip.ParsePrefix: `none` for an error.
  pub parse_addr : String → Option Addr
  pub parse_prefix : String → Option Prefix
  -- prefix == prefix.Masked()
  pub is_masked : Prefix → Bool
  -- prefix.String() and prefix.Addr().String()
  pub prefix_string : Prefix → String
  pub prefix_addr_string : Prefix → String
  pub prefix_contains : Prefix → Addr → Bool
  -- fmt's %d
  pub format_int : ℤ → String
  -- strings.ToUpper
  pub to_upper : String → String
