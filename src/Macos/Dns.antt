-- ===== src/Macos/Dns.antt =====
-- src/platform/macos/dns.rs: `NetworkSetupDns`. The command `networksetup` is a parameter, and std's
-- printing of an address. A call keeps what it did before an error.
use cortado.Base.{
  Bool, true, false, not, List, [], ◌∷◌, map, Option, none, some, Bytes, codes, Result, ok, err,
  ◌==◌, option_eq, filter, is_empty, if◌then◌else◌,
}
use cortado.Base.Effects.{Effect, ◌>>◌, quietly, modify, skip}
use cortado.Addr.{IpAddr, ip_eq}
use cortado.Text.Split.{lines, trim, contains_text}
use cortado.Platform.{DnsCall, apply, reload, restore}

-- `-getdnsservers` gives a text, or fails; `-setdnsservers` takes the servers, or the word Empty.
-- `servers` are those that the service really has.
pub record NetworkSetup : Type 1 where
  pub State : Type 0
  pub get_output : State → Option Bytes
  pub set : List Bytes → State → Bool × State
  pub servers : State → List Bytes

-- The fields but the name of the service.
pub record NetworkSetupDns : Type 0 where
  pub current : Option IpAddr
  pub original : Option (List Bytes)

abbrev pub discovered : NetworkSetupDns
discovered = record { current = none; original = none }

pub data DnsError : Type 0 where
  set_failed : DnsError

unfoldable pub servers_in : Bytes → List Bytes
servers_in text =
    if contains_text (codes "There aren't any") text
    then []
    else filter (λ l. not (is_empty l)) (map trim (lines text))

abbrev pub arguments : List Bytes → List Bytes
arguments [] = codes "Empty" ∷ []
arguments (s ∷ servers) = s ∷ servers

module _ (ns : NetworkSetup) (show_ip : IpAddr → Bytes) where
  -- The object and the system's settings.
  pub record Host : Type 0 where
    pub conf : NetworkSetupDns
    pub settings : ns.State

  abbrev pub M : Type 0
  M = Effect Host DnsError (Unit {0})

  abbrev pub servers_of : Option Bytes → List Bytes
  servers_of none = []
  servers_of (some text) = servers_in text

  unfoldable pub get_servers : ns.State → List Bytes
  get_servers s = servers_of (ns.get_output s)

  abbrev pub set_outcome : NetworkSetupDns → Bool × ns.State → Result DnsError (Unit {0}) × Host
  set_outcome conf (true, s) = (ok tt, record { conf = conf; settings = s })
  set_outcome conf (false, s) = (err set_failed, record { conf = conf; settings = s })

  unfoldable pub set_servers : List Bytes → M
  set_servers servers h = set_outcome h.conf (ns.set (arguments servers) h.settings)

  abbrev pub keep_original : Option (List Bytes) → M
  keep_original o = modify λ h. record h { conf = record h.conf { original = o } }

  abbrev pub back_up_unless : Option (List Bytes) → M
  back_up_unless (some orig) h = (ok tt, h)
  back_up_unless none h = keep_original (some (get_servers h.settings)) h

  unfoldable pub ensure_backup : M
  ensure_backup h = back_up_unless h.conf.original h

  abbrev pub set_current : Option IpAddr → M
  set_current o = modify λ h. record h { conf = record h.conf { current = o } }

  abbrev pub redirect : IpAddr → M
  redirect dns = ensure_backup >> set_servers (show_ip dns ∷ [])

  unfoldable pub apply_dns : Option IpAddr → M
  apply_dns none = skip
  apply_dns (some dns) = redirect dns >> set_current (some dns)

  abbrev pub put_back : Option (List Bytes) → M
  put_back none = skip
  put_back (some orig) = set_servers orig

  abbrev pub switch_to : Option IpAddr → M
  switch_to (some dns) h = redirect dns h
  switch_to none h = put_back h.conf.original h

  unfoldable pub reload_dns : Option IpAddr → M
  reload_dns server h =
      if server == h.conf.current then (ok tt, h) else (switch_to server >> set_current server) h

  -- The original is taken, and a failure to set it is only logged.
  abbrev pub restore_from : Option IpAddr → Option (List Bytes) → M
  restore_from none original h = (ok tt, h)
  restore_from (some dns) original h =
      (keep_original none >> (quietly (put_back original) >> set_current none)) h

  unfoldable pub restore_dns : M
  restore_dns h = restore_from h.conf.current h.conf.original h

  unfoldable pub call : DnsCall → M
  call (apply server) = apply_dns server
  call (reload server) = reload_dns server
  call restore = restore_dns

  -- Calls in turn, whether or not they succeed.
  unfoldable pub calls : List DnsCall → Host → Host
  calls [] h = h
  calls (d ∷ ds) h = calls ds (call d h).1
