-- ===== src/Windows/Tests/Dns.antt =====
-- A run of src/platform/windows/dns.rs.
use cortado.Base.{
  ◌≡◌, refl, Bool, true, false, List, [], ◌∷◌, none, some, Option, Bytes, codes, ◌==◌, nat_eq,
  list_eq,
}
use cortado.Addr.{IpAddr, v4, v6}
use cortado.Platform.{DnsCall, apply, reload, restore}
use cortado.Windows.Dns
use cortado.Windows.Dns.{Netsh, calls}
use cortado.Windows.Override.{IsNetsh, Represents, calls-Kept}

-- The servers of the two families.
abbrev Servers : Type 0
Servers = Option Bytes × Option Bytes

abbrev chosen : Bool → Servers → Option Bytes
chosen true s = s.0
chosen false s = s.1

abbrev changed : Bool → Option Bytes → Servers → Servers
changed true server s = (server, s.1)
changed false server s = (s.0, server)

chosen-changed :
    (b : Bool) (server : Option Bytes) (s : Servers) → chosen b (changed b server s) ≡ server
chosen-changed true server s = refl
chosen-changed false server s = refl

abbrev asked : List Bytes → Option Bytes
asked (kind ∷ server ∷ rest) = some server
asked rest = none

abbrev status : List Bytes → Servers → Bool × Servers
status (word ∷ inet ∷ set ∷ what ∷ name ∷ rest) s =
    (true, changed (inet == codes "ipv4") (asked rest) s)
status args s = (false, s)

abbrev netsh : Netsh
netsh = record {
  State = Servers;
  status = status;
  dns_server = λ interface inet s. chosen (inet == codes "ipv4") s;
}

abbrev show_ip : IpAddr → Bytes
show_ip (v4 a) = codes "1.1.1.1"
show_ip (v6 a) = codes "::1"

set_holds :
    (dns : IpAddr) (s : Servers)
    → (netsh.status (Dns.static_arguments netsh show_ip (codes "cortado") dns) s).0 ≡ true
    → netsh.dns_server
        (codes "cortado")
        (Dns.family dns)
        (netsh.status (Dns.static_arguments netsh show_ip (codes "cortado") dns) s).1
      ≡ some (show_ip dns)
set_holds (v4 a) s h = refl
set_holds (v6 a) s h = refl

netsh-IsNetsh : IsNetsh netsh show_ip (codes "cortado")
netsh-IsNetsh = record {
  set_holds = set_holds;
  cleared = λ inet s h. chosen-changed (inet == codes "ipv4") none s;
  cleared_v6_keeps_v4 = λ s. refl;
}

abbrev untouched : Dns.Host netsh show_ip (codes "cortado")
untouched = record { conf = Dns.new; settings = (none, none) }

abbrev some_calls : List DnsCall
some_calls =
    apply (some (v4 0x01010101)) ∷ reload (some (v6 1)) ∷ reload none ∷ apply none ∷ restore ∷ []

calls-Kept_example :
    Represents netsh show_ip
      (codes "cortado")
      netsh-IsNetsh
      (λ dns s. refl)
      (λ dns s. refl)
      none
      (calls netsh show_ip (codes "cortado") some_calls untouched)
calls-Kept_example =
    calls-Kept netsh show_ip (codes "cortado") netsh-IsNetsh (λ dns s. refl) (λ dns s. refl)
      some_calls none untouched (record { tracked = refl; noted = refl; visible = (refl, refl) })
