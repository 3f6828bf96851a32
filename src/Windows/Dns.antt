-- ===== src/Windows/Dns.antt =====
-- src/platform/windows/dns.rs: `NetshDns`. The command `netsh` is a parameter, and std's printing of
-- an address. A call keeps what it did before an error.
use cortado.Base.{
  Bool, true, false, List, [], ◌∷◌, ◌++◌, Option, none, some, Bytes, codes, Result, ok, err, ◌==◌,
  option_eq, if◌then◌else◌,
}
use cortado.Base.Effects.{Effect, ◌>>◌, modify, skip}
use cortado.Addr.{IpAddr, ip_eq, is_ipv4}
use cortado.Platform.{DnsCall, apply, reload, restore}

-- The command with its arguments, and whether it succeeds; and the server that an interface has for
-- a family, none where DHCP gives it.
pub record Netsh : Type 1 where
  pub State : Type 0
  pub status : List Bytes → State → Bool × State
  pub dns_server : Bytes → Bytes → State → Option Bytes

-- The fields but the name of the interface.
pub record NetshDns : Type 0 where
  pub current : Option IpAddr
  pub configured : Bool

abbrev pub new : NetshDns
new = record { current = none; configured = false }

pub data DnsError : Type 0 where
  set_failed : DnsError

abbrev pub family : IpAddr → Bytes
family dns = if is_ipv4 dns then codes "ipv4" else codes "ipv6"

abbrev pub set_arguments : Bytes → Bytes → List Bytes → List Bytes
set_arguments interface inet rest =
    codes "interface"
    ∷ inet
    ∷ codes "set"
    ∷ codes "dnsservers"
    ∷ (codes "name=" ++ interface)
    ∷ rest

module _ (netsh : Netsh) (show_ip : IpAddr → Bytes) (interface : Bytes) where
  -- The object and the system's settings.
  pub record Host : Type 0 where
    pub conf : NetshDns
    pub settings : netsh.State

  abbrev pub M : Type 0
  M = Effect Host DnsError (Unit {0})

  abbrev pub static_arguments : IpAddr → List Bytes
  static_arguments dns =
      set_arguments interface (family dns) (codes "static" ∷ show_ip dns ∷ codes "primary" ∷ [])

  abbrev pub set_outcome : NetshDns → Bool × netsh.State → Result DnsError (Unit {0}) × Host
  set_outcome conf (true, s) = (ok tt, record { conf = conf; settings = s })
  set_outcome conf (false, s) = (err set_failed, record { conf = conf; settings = s })

  unfoldable pub set_static : IpAddr → M
  set_static dns h = set_outcome h.conf (netsh.status (static_arguments dns) h.settings)

  unfoldable pub set_dhcp : Bytes → M
  set_dhcp inet = modify λ h. record h {
    settings = (netsh.status (set_arguments interface inet (codes "dhcp" ∷ [])) h.settings).1;
  }

  abbrev pub set_conf : (NetshDns → NetshDns) → M
  set_conf f = modify λ h. record h { conf = f h.conf }

  unfoldable pub apply_dns : Option IpAddr → M
  apply_dns none = skip
  apply_dns (some dns) =
      set_static dns >> set_conf (λ c. record c { current = some dns; configured = true })

  abbrev pub reset : M
  reset = set_dhcp (codes "ipv4") >> set_dhcp (codes "ipv6")

  abbrev pub switch_to : Option IpAddr → M
  switch_to (some dns) = set_static dns >> set_conf (λ c. record c { configured = true })
  switch_to none = reset >> set_conf (λ c. record c { configured = false })

  unfoldable pub reload_dns : Option IpAddr → M
  reload_dns server h =
      if server == h.conf.current
      then (ok tt, h)
      else (switch_to server >> set_conf (λ c. record c { current = server })) h

  unfoldable pub restore_dns : M
  restore_dns h =
      if h.conf.configured
      then (reset >> set_conf (λ c. record c { configured = false; current = none })) h
      else (ok tt, h)

  unfoldable pub call : DnsCall → M
  call (apply server) = apply_dns server
  call (reload server) = reload_dns server
  call restore = restore_dns

  -- Calls in turn, whether or not they succeed.
  unfoldable pub calls : List DnsCall → Host → Host
  calls [] h = h
  calls (d ∷ ds) h = calls ds (call d h).1
