-- ===== src/Linux/Detect.antt =====
-- src/platform/linux/detect.rs: the link of the default route and whether there is an IPv6 gateway. That
-- the netlink socket cannot be opened is a dump that fails.
use cortado.Base.{
  ℕ, Bool, true, false, List, [], ◌∷◌, Option, none, some, Result, ok, err, ◌>>=◌, nat_beq,
  if◌then◌else◌,
}
use cortado.Linux.Netlink.{RouteAttribute, inet6_gateway, oif_index, Dump, Netlink}
use cortado.Linux.Gateways.{RouteError, dump_error, link_error}

pub record LinkInfo : Type 0 where
  pub mtu : Option ℕ
  pub has_ipv6_gateway : Bool

-- The first of the attributes that is a link.
abbrev pub first_link : List RouteAttribute → Option ℕ
first_link [] = none
first_link (oif_index i ∷ rest) = some i
first_link (_ ∷ rest) = first_link rest

abbrev pub or_link : Option ℕ → Result RouteError (Option ℕ) → Result RouteError (Option ℕ)
or_link (some i) later = ok (some i)
or_link none later = later

unfoldable pub default_v4_oif : Dump → Result RouteError (Option ℕ)
default_v4_oif [] = ok none
default_v4_oif (none ∷ rest) = err dump_error
default_v4_oif (some m ∷ rest) =
    let later = default_v4_oif rest in
    if nat_beq m.destination_prefix_length 0 then or_link (first_link m.attributes) later else later

abbrev pub has_v6 : List RouteAttribute → Bool
has_v6 [] = false
has_v6 (inet6_gateway g ∷ rest) = true
has_v6 (_ ∷ rest) = has_v6 rest

unfoldable pub default_v6_present : Dump → Result RouteError Bool
default_v6_present [] = ok false
default_v6_present (none ∷ rest) = err dump_error
default_v6_present (some m ∷ rest) =
    let later = default_v6_present rest in
    if nat_beq m.destination_prefix_length 0
    then (if has_v6 m.attributes then ok true else later)
    else later

module _ (nl : Netlink) where
  -- No link of that index, and a link without the attribute, have no MTU.
  unfoldable pub link_mtu : ℕ → nl.State → Result RouteError (Option ℕ)
  link_mtu index s = elim (nl.link_mtu index s) [ none ↦ err link_error | some mtu ↦ ok mtu ]

  unfoldable pub mtu_of : Option ℕ → nl.State → Result RouteError (Option ℕ)
  unfolding link_mtu
  mtu_of none s = ok none
  mtu_of (some index) s = link_mtu index s

  unfoldable pub gather : nl.State → Result RouteError LinkInfo
  unfolding default_v4_oif default_v6_present mtu_of
  gather s = do
    oif ← default_v4_oif (nl.dump_v4 s)
    mtu ← mtu_of oif s
    present ← default_v6_present (nl.dump_v6 s)
    ok (record { mtu = mtu; has_ipv6_gateway = present })

  unfoldable pub detect_link : nl.State → LinkInfo
  unfolding gather
  detect_link s = elim (gather s) [
    | ok info ↦ info
    | err e ↦ record { mtu = none; has_ipv6_gateway = false }
  ]
