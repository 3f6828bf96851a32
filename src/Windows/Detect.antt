-- ===== src/Windows/Detect.antt =====
-- src/platform/windows/detect.rs: what PowerShell prints about the default link.
use cortado.Base.{ℕ, ◌-◌, ◌^◌, Bool, false, List, [], ◌∷◌, Option, none, some, Bytes, codes, ltb}
use cortado.Text.Decimal.{parse_unsigned}
use cortado.Text.Split.{lines, trim}
use cortado.Platform.Commands.{Commands}

pub record LinkInfo : Type 0 where
  pub mtu : Option ℕ
  pub has_ipv6_gateway : Bool

abbrev pub u32_max : ℕ
u32_max = 2 ^ 32 - 1

abbrev pub mtu_command : Bytes
mtu_command =
    codes
      "$i = (Get-NetRoute -DestinationPrefix '0.0.0.0/0' | Sort-Object RouteMetric | Select-Object -First 1).InterfaceIndex; (Get-NetIPInterface -InterfaceIndex $i -AddressFamily IPv4).NlMtu"

abbrev pub route_command : Bytes
route_command = codes "(Get-NetRoute -DestinationPrefix '::/0' | Measure-Object).Count"

abbrev pub trimmed : Option Bytes → Option Bytes
trimmed none = none
trimmed (some text) = some (trim text)

unfoldable pub powershell : (c : Commands) → Bytes → c.State → Option Bytes
powershell c command s =
    trimmed (c.output (codes "powershell" ∷ codes "-NoProfile" ∷ codes "-Command" ∷ command ∷ []) s)

abbrev pub first_number : List Bytes → Option ℕ
first_number [] = none
first_number (l ∷ ls) = parse_unsigned u32_max (trim l)

abbrev pub number_in : Option Bytes → Option ℕ
number_in none = none
number_in (some text) = first_number (lines text)

unfoldable pub default_interface_mtu : (c : Commands) → c.State → Option ℕ
default_interface_mtu c s = number_in (powershell c mtu_command s)

abbrev pub is_positive : Option ℕ → Bool
is_positive none = false
is_positive (some count) = ltb 0 count

unfoldable pub has_ipv6_default_route : (c : Commands) → c.State → Bool
has_ipv6_default_route c s = is_positive (number_in (powershell c route_command s))

unfoldable pub detect_link : (c : Commands) → c.State → LinkInfo
detect_link c s = record {
  mtu = default_interface_mtu c s;
  has_ipv6_gateway = has_ipv6_default_route c s;
}
