-- ===== src/Macos/Tests.antt =====
-- Runs of src/platform/macos/route.rs and src/platform/macos/dns.rs.
use cortado.Base.{
  ◌<◌, ◌≡◌, refl, Bool, true, false, List, [], ◌∷◌, none, some, Bytes, codes, ok, contains, ◌==◌,
  ==_iff, nat_eq, list_eq, pair_eq, option_eq, if◌then◌else◌, inr, ℕ, zero, suc, length, arith,
}
use cortado.Base.Effects.{each, ◌>>◌}
use cortado.Addr.{IpAddr, v4, v6, ip_eq}
use cortado.Net.Diff.{diff_cidrs}
use cortado.Config.Samples.{sample}
use cortado.Reload.{plan_of}
use cortado.Text.Split.{lines, strip_prefix, split_once}
use cortado.Text.Decimal.{to_string, parse_unsigned, parse_digits}
use cortado.Platform.Commands.{Commands, IsRouting, add_route, delete_quietly}
use cortado.Platform.Runs.{
  Table, without, contains-added, contains-kept, contains-no_more, contains-without, without-spares,
  resolver, show_ip, parse_ip, first, second, other,
}
use cortado.Macos.Routes
use cortado.Macos.Routes.{routing, default_gateway, teardown}
use cortado.Macos.Installed.{Host}
use cortado.Macos.Followed.{reloads}
use cortado.Platform.{Resolver, DnsCall, apply, reload, restore}
use cortado.Macos.Dns
use cortado.Macos.Dns.{NetworkSetup, discovered, calls}
use cortado.Macos.Override.{IsNetworkSetup, printed, meant, is_server, Represents, calls-Followed}
use cortado.Macos.Tun.{
  MacosTun, Attempt, blocked, done, ready, zeros, ReadBuf, put_slice, read_into, poll_read,
  poll_write,
}
use cortado.Macos.Frames.{poll_read-poll_write}
use cortado.Macos.Polls.{Polled, poll_read_total}
use cortado.Macos.Failed.{Left, apply-Left}
use cortado.Macos.Service.{primary_service}
use cortado.Macos.Detect.{
  detect_link, default_interface, interface_mtu, has_default_gateway, split_whitespace,
}
use cortado.Macos.Lifetime.{Applied, apply_lem}
use cortado.Macos.Teardown.{apply-reloads-teardown}

-- The program, as a list of the routes that it was told.
abbrev status : List Bytes → Table → Bool × Table
status (program ∷ verb ∷ r) s = if verb == codes "add" then (true, r ∷ s) else (true, without r s)
status _ s = (false, s)

abbrev programs : Commands
programs = record {
  State = Table;
  status = status;
  output = λ args s.
      if contains args (codes "-inet")
      then some (codes "  gateway: 10.0.0.254\n  interface: en0\n")
      else none;
  held = λ q s. contains s q;
  same = λ q r. q == r;
}

programs-IsRouting : IsRouting (routing programs)
programs-IsRouting = record {
  same_self = λ r. (==_iff r r).1 refl;
  added = λ r s h. contains-added r s;
  kept = λ r q s h. contains-kept r q s h;
  no_more = λ r q s h. contains-no_more r q s h;
  deleted = λ r q s h. contains-without r q s h;
  spared = λ r q s h apart. without-spares r q s h apart;
}

abbrev start : Host programs programs-IsRouting resolver parse_ip show_ip
start = record {
  manager = Routes.new (v4 0x0a000001) (codes "utun4") first.bypass true (some (v4 0x01010101));
  system = other ∷ [];
  resolver = none;
}

abbrev applied : Host programs programs-IsRouting resolver parse_ip show_ip
applied = (Routes.apply programs resolver parse_ip show_ip start).1

applied_ok : (Routes.apply programs resolver parse_ip show_ip start).0 ≡ ok tt
unfolding Routes.apply default_gateway Routes.install_routes Routes.pin_proxy Routes.gateway_for
    lines strip_prefix Routes.add_host_via_gateway add_route each Routes.add_bypass Routes.add_split
applied_ok = refl

apply_lem_example : Applied programs programs-IsRouting resolver parse_ip show_ip start applied
apply_lem_example = apply_lem programs programs-IsRouting resolver parse_ip show_ip start applied_ok

session_ok :
    ((Routes.apply programs resolver parse_ip show_ip
        >> (reloads programs resolver parse_ip show_ip sample first ((sample, second) ∷ [])
            >> teardown programs resolver parse_ip show_ip))
      start).0
    ≡ ok tt
unfolding Routes.apply Routes.install_routes Routes.pin_proxy Routes.gateway_for default_gateway
    lines strip_prefix Routes.add_host_via_gateway add_route each Routes.add_bypass Routes.add_split
    reloads Routes.reload Routes.reload_applied plan_of Routes.delete_bypass delete_quietly
    Routes.host_prefix Routes.via_gateway Routes.via_tun diff_cidrs to_string teardown
    Routes.remove_routes Routes.delete_split
session_ok = refl

other_left :
    contains
      ((Routes.apply programs resolver parse_ip show_ip
          >> (reloads programs resolver parse_ip show_ip sample first ((sample, second) ∷ [])
              >> teardown programs resolver parse_ip show_ip))
        start).1.system
      other
    ≡ true
unfolding Routes.apply Routes.install_routes Routes.pin_proxy Routes.gateway_for default_gateway
    lines strip_prefix Routes.add_host_via_gateway add_route each Routes.add_bypass Routes.add_split
    reloads Routes.reload Routes.reload_applied plan_of Routes.delete_bypass delete_quietly
    Routes.host_prefix Routes.via_gateway Routes.via_tun diff_cidrs to_string teardown
    Routes.remove_routes Routes.delete_split
other_left = refl

apply-reloads-teardown_example : contains start.system other ≡ true
apply-reloads-teardown_example =
    apply-reloads-teardown programs programs-IsRouting resolver parse_ip show_ip sample first
      ((sample, second) ∷ []) start refl refl session_ok other other_left

-- `networksetup` for a service whose servers are a list.
abbrev setup : NetworkSetup
setup = record {
  State = List Bytes;
  get_output = λ s. some (printed (codes "Wi-Fi") s);
  set = λ args s. (true, meant args);
  servers = λ s. s;
}

setup-IsNetworkSetup : IsNetworkSetup setup (codes "Wi-Fi")
setup-IsNetworkSetup = record { prints = λ s out h. cc; holds = λ args s h. refl }

abbrev written : IpAddr → Bytes
written (v4 a) = codes "1.1.1.1"
written (v6 a) = codes "::1"

written-servers : (dns : IpAddr) → is_server (written dns) ≡ true
written-servers (v4 a) = refl
written-servers (v6 a) = refl

abbrev originals : List Bytes
originals = codes "9.9.9.9" ∷ codes "8.8.8.8" ∷ []

abbrev untouched : Dns.Host setup written
untouched = record { conf = discovered; settings = originals }

abbrev some_calls : List DnsCall
some_calls =
    apply (some (v4 0x01010101)) ∷ reload (some (v6 1)) ∷ reload none ∷ apply none ∷ restore ∷ []

calls-Followed_example :
    Represents setup written
      (codes "Wi-Fi")
      setup-IsNetworkSetup
      (λ s. refl)
      (λ l s h. refl)
      written-servers
      originals
      refl
      none
      (calls setup written some_calls untouched)
calls-Followed_example =
    calls-Followed setup written (codes "Wi-Fi") setup-IsNetworkSetup (λ s. refl) (λ l s h. refl)
      written-servers originals refl some_calls none untouched
      (record { tracked = refl; visible = refl; saved = inr (refl, refl) })

abbrev blocked_once : ℕ → Attempt Bytes
blocked_once zero = blocked
blocked_once (suc i) = done (0 ∷ 0 ∷ 0 ∷ 2 ∷ 0x45 ∷ [])

abbrev utun : MacosTun
utun = record {
  name = codes "utun4";
  mtu = 1500;
  read_scratch = zeros 9;
  write_scratch = 7 ∷ 7 ∷ [];
}

-- tokio has one notice, which the call that would block uses up.
abbrev notices : ℕ → ℕ
notices zero = 1
notices (suc i) = 0

notices-fewer : (i : ℕ) → blocked_once i ≡ blocked → notices (suc i) < notices i
notices-fewer zero e = omega arith
notices-fewer (suc i) e = cc

abbrev one_left : ReadBuf
one_left = record { filled = []; capacity = 1 }

poll_read_total_example : Polled utun one_left 2 blocked_once
poll_read_total_example =
    poll_read_total utun one_left 2 blocked_once notices notices-fewer (omega arith)

abbrev sent : Bytes
sent = 0x60 ∷ 1 ∷ 2 ∷ []

abbrev frame : Bytes
frame = (poll_write 2 30 1 (λ i. done 7) utun sent).1.1

abbrev partly_filled : ReadBuf
partly_filled = record { filled = 9 ∷ []; capacity = 5 }

poll_read-poll_write_example :
    poll_read 1 (λ i. done frame) utun partly_filled
    ≡ some (
        ready (
          record utun { read_scratch = read_into utun.read_scratch frame },
          put_slice sent partly_filled,
        ))
unfolding poll_write
poll_read-poll_write_example =
    poll_read-poll_write 2 30 utun utun sent partly_filled 1 0 (λ i. done 7) (λ i. done frame) refl
      (omega arith) (omega arith) refl

-- The programs' answers about the link.
abbrev link : Commands
link = record {
  State = Unit {0};
  status = λ args s. (true, s);
  output = λ args s.
      if contains args (codes "/sbin/ifconfig")
      then some (codes "en0: flags=8863 mtu 1400\n\tether 00:00")
      else some (codes "  gateway: 10.0.0.254\n  interface: en0\n");
  held = λ q s. false;
  same = λ q r. q == r;
}

link_found : detect_link link tt ≡ record { mtu = some 1400; has_ipv6_gateway = true }
unfolding detect_link default_interface interface_mtu has_default_gateway lines strip_prefix
    split_whitespace parse_unsigned parse_digits
link_found = refl

gateway_found : default_gateway parse_ip link (codes "-inet6") tt ≡ some (v4 0x0a0000fe)
unfolding default_gateway lines strip_prefix
gateway_found = refl

-- The first service in the order is found, also where it is disabled.
disabled_found :
    primary_service
      (record {
        State = Unit {0};
        status = λ args s. (true, s);
        output = λ args s. some (
            codes
              "(*) Bridge\n(Port: Bridge, Device: b0)\n\n(1) Wi-Fi\n(Port: Wi-Fi, Device: en0)\n");
        held = λ q s. false;
        same = λ q r. q == r;
      })
      tt
    ≡ some (codes "Bridge")
unfolding primary_service lines strip_prefix split_once
disabled_found = refl

-- Where the resolver cannot be set, `apply` fails after it has added all routes.
abbrev down : Resolver
down = record resolver { apply = λ server s. (false, s) }

abbrev start_down : Host programs programs-IsRouting down parse_ip show_ip
start_down = record {
  manager = Routes.new (v4 0x0a000001) (codes "utun4") first.bypass true none;
  system = other ∷ [];
  resolver = none;
}

apply-Left_example :
    let ended = Routes.apply programs down parse_ip show_ip start_down in
    Left programs programs-IsRouting down parse_ip show_ip start_down ended.1 ended.0
apply-Left_example = apply-Left programs programs-IsRouting down parse_ip show_ip start_down

left_behind : length (Routes.apply programs down parse_ip show_ip start_down).1.system ≡ 5
unfolding Routes.apply Routes.install_routes Routes.pin_proxy Routes.gateway_for default_gateway
    lines strip_prefix Routes.add_host_via_gateway add_route each Routes.add_bypass Routes.add_split
left_behind = refl
