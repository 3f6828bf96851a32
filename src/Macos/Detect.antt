-- ===== src/Macos/Detect.antt =====
-- src/platform/macos/detect.rs: what the programs `route` and `ifconfig` print about the default link.
use cortado.Base.{
  ℕ, ◌-◌, ◌^◌, Bool, false, List, [], ◌∷◌, ◌++◌, Option, none, some, Bytes, codes, any, ◌==◌,
  nat_eq, list_eq, if◌then◌else◌,
}
use cortado.Text.Decimal.{parse_unsigned}
use cortado.Text.Split.{lines, trim, strip_prefix, starts_with, is_whitespace}
use cortado.Platform.Commands.{Commands}
use cortado.Macos.Routes.{route_tool}

pub record LinkInfo : Type 0 where
  pub mtu : Option ℕ
  pub has_ipv6_gateway : Bool

abbrev pub u32_max : ℕ
u32_max = 2 ^ 32 - 1

-- `str::split_whitespace`.
abbrev pub words_from : Bytes → Bytes → List Bytes
words_from [] [] = []
words_from (b ∷ cur) [] = (b ∷ cur) ∷ []
words_from [] (c ∷ cs) =
    let skipped = words_from [] cs in
    let started = words_from (c ∷ []) cs in if is_whitespace c then skipped else started
words_from (b ∷ cur) (c ∷ cs) =
    let ended = (b ∷ cur) ∷ words_from [] cs in
    let longer = words_from (b ∷ (cur ++ c ∷ [])) cs in if is_whitespace c then ended else longer

unfoldable pub split_whitespace : Bytes → List Bytes
split_whitespace text = words_from [] text

abbrev pub or_else : Option Bytes → Option Bytes → Option Bytes
or_else none later = later
or_else (some rest) later = some (trim rest)

abbrev pub interface_in : List Bytes → Option Bytes
interface_in [] = none
interface_in (l ∷ ls) = or_else (strip_prefix (codes "interface:") (trim l)) (interface_in ls)

abbrev pub query : Bytes → List Bytes
query inet = route_tool ∷ codes "-n" ∷ codes "get" ∷ inet ∷ codes "default" ∷ []

abbrev pub on_text : {A : Type 0} → (Bytes → Option A) → Option Bytes → Option A
on_text f none = none
on_text f (some text) = f text

unfoldable pub default_interface : (c : Commands) → c.State → Option Bytes
default_interface c s =
    on_text (λ text. interface_in (lines text)) (c.output (query (codes "-inet")) s)

abbrev pub number : List Bytes → Option ℕ
number [] = none
number (w ∷ ws) = parse_unsigned u32_max w

abbrev pub mtu_in : List Bytes → Option ℕ
mtu_in [] = none
mtu_in (w ∷ ws) = let later = mtu_in ws in if w == codes "mtu" then number ws else later

unfoldable pub interface_mtu : (c : Commands) → Bytes → c.State → Option ℕ
interface_mtu c iface s =
    on_text (λ text. mtu_in (split_whitespace text))
      (c.output (codes "/sbin/ifconfig" ∷ iface ∷ []) s)

abbrev pub has_gateway_line : Option Bytes → Bool
has_gateway_line none = false
has_gateway_line (some text) = any (λ l. starts_with (codes "gateway:") (trim l)) (lines text)

unfoldable pub has_default_gateway : (c : Commands) → Bytes → c.State → Bool
has_default_gateway c inet s = has_gateway_line (c.output (query inet) s)

unfoldable pub detect_link : (c : Commands) → c.State → LinkInfo
detect_link c s = record {
  mtu = on_text (λ iface. interface_mtu c iface s) (default_interface c s);
  has_ipv6_gateway = has_default_gateway c (codes "-inet6") s;
}
