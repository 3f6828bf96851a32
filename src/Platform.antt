-- ===== src/Platform.antt =====
-- src/platform/mod.rs: the calls of a `DnsConfigurator`, and what the override of the system's
-- resolver promises, of whatever platform.
pub mod Files
pub mod Samples
pub mod Commands
pub mod Added
pub mod Deleted
pub mod Grown
pub mod Within
pub mod Plans
pub mod Runs
use cortado.Base.{Bool, ◌≡◌, Option, none, some, List, [], ◌∷◌}
use cortado.Addr.{IpAddr}

pub data DnsCall : Type 0 where
  apply reload : Option IpAddr → DnsCall
  restore : DnsCall

-- The promise: the override in force after a call.
abbrev pub in_force : DnsCall → Option IpAddr → Option IpAddr
in_force (apply none) current = current
in_force (apply (some dns)) current = some dns
in_force (reload server) current = server
in_force restore current = none

abbrev pub in_force_after : List DnsCall → Option IpAddr → Option IpAddr
in_force_after [] current = current
in_force_after (c ∷ cs) current = in_force_after cs (in_force c current)

-- A resolver override, as a route controller calls it.
pub record Resolver : Type 1 where
  pub State : Type 0
  pub apply : Option IpAddr → State → Bool × State
  pub reload : Option IpAddr → State → Bool × State
  pub restore : State → State
