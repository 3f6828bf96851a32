-- ===== src/Windows/Tests/Routes.antt =====
-- Runs of src/platform/windows/route.rs and src/platform/windows/dns.rs.
use cortado.Base.{
  ℕ, ◌≡◌, refl, Bool, true, false, ◌&&◌, ◌||◌, List, [], ◌∷◌, ◌++◌, none, some, Option, Bytes,
  codes, ok, contains, ◌==◌, ==_iff, nat_eq, list_eq, pair_eq, option_eq, if◌then◌else◌,
}
use cortado.Base.Effects.{each, ◌>>◌}
use cortado.Addr.{v4, ip_eq}
use cortado.Config.Samples.{sample}
use cortado.Platform.Commands.{Commands, IsRouting, add_route, add_quietly, delete_quietly}
use cortado.Platform.Runs.{
  Table, without, contains-added, contains-kept, contains-no_more, contains-without, without-spares,
  resolver, show_ip, parse_ip, first, second, other,
}
use cortado.Net.Diff.{diff_cidrs}
use cortado.Reload.{plan_of}
use cortado.Text.Decimal.{to_string, parse_unsigned, parse_digits}
use cortado.Windows.Routes
use cortado.Windows.Routes.{routing, route_arguments, teardown, default_gateway}
use cortado.Text.Split.{lines}
use cortado.Windows.Detect.{detect_link, default_interface_mtu, has_ipv6_default_route, powershell}
use cortado.Windows.Installed.{Host}
use cortado.Windows.Reloaded.{reloads}
use cortado.Windows.Teardown.{teardown-reloads-apply}

abbrev store : List Bytes
store = codes "store=active" ∷ []

abbrev key : List Bytes → List Bytes
key r = route_arguments (codes "add") r ++ store

-- The arguments that added what these delete.
abbrev add_form : List Bytes → List Bytes
add_form (a ∷ b ∷ v ∷ w ∷ []) = a ∷ b ∷ codes "add" ∷ w ∷ store
add_form (a ∷ b ∷ i ∷ v ∷ w ∷ rest) = a ∷ b ∷ i ∷ codes "add" ∷ w ∷ (rest ++ store)
add_form args = args

abbrev deletes : List Bytes → Bool
deletes (a ∷ b ∷ v ∷ w ∷ rest) = w == codes "delete" || (w == codes "route" && v == codes "delete")
deletes args = false

-- The program, as a list of the arguments that added the routes.
abbrev status : List Bytes → Table → Bool × Table
status args s = if deletes args then (true, without (add_form args) s) else (true, args ∷ s)

abbrev programs : Commands
programs = record {
  State = Table;
  status = status;
  output = λ args s. some (codes "10.0.0.254\n");
  held = λ q s. contains s (key q);
  same = λ q r. key q == key r;
}

added_by : (r : List Bytes) (s : Table) → (routing programs).add r s ≡ (true, key r ∷ s)
added_by [] s = refl
added_by (inet ∷ rest) s = refl

deleted_by :
    (r : List Bytes) (s : Table) → (routing programs).delete r s ≡ (true, without (key r) s)
deleted_by [] s = refl
deleted_by (inet ∷ rest) s = refl

programs-IsRouting : IsRouting (routing programs)
programs-IsRouting = record {
  same_self = λ r. (==_iff (key r) (key r)).1 refl;
  added = λ r s h. rw (added_by r s) (contains-added (key r) s);
  kept = λ r q s h. rw (added_by r s) (contains-kept (key r) (key q) s h);
  no_more = λ r q s h. contains-no_more (key r) (key q) s (rw (added_by r s) at h);
  deleted = λ r q s h. contains-without (key r) (key q) s (rw (deleted_by r s) at h);
  spared = λ r q s h apart. rw (deleted_by r s) (without-spares (key r) (key q) s h apart);
}

abbrev parse_ipv4 : Bytes → Option ℕ
parse_ipv4 text = if text == codes "128.0.0.0" then some 0x80000000 else none

abbrev start : Host programs programs-IsRouting resolver parse_ip parse_ipv4 show_ip
start = record {
  manager = Routes.new (v4 0x0a000001) (codes "cortado") first.bypass true (some (v4 0x01010101));
  system = key other ∷ [];
  resolver = none;
}

session_ok :
    ((Routes.apply programs resolver parse_ip parse_ipv4 show_ip
        >> (reloads programs resolver parse_ip parse_ipv4 show_ip sample first
              ((sample, second) ∷ [])
            >> teardown programs resolver parse_ip parse_ipv4 show_ip))
      start).0
    ≡ ok tt
unfolding Routes.apply Routes.install_routes Routes.pin_proxy Routes.unpin_proxy default_gateway
    add_route add_quietly each Routes.add_bypass Routes.add_split_v4 Routes.add_split_v6 reloads
    Routes.reload Routes.reload_applied Routes.move_proxy Routes.move_dns plan_of
    Routes.delete_bypass delete_quietly Routes.host_prefix Routes.pinned Routes.bypassed
    Routes.half_v4 Routes.half_v6 Routes.mask_to_prefix diff_cidrs to_string teardown
    Routes.remove_routes Routes.delete_split_v4 Routes.delete_split_v6
session_ok = refl

other_left :
    contains
      ((Routes.apply programs resolver parse_ip parse_ipv4 show_ip
          >> (reloads programs resolver parse_ip parse_ipv4 show_ip sample first
                ((sample, second) ∷ [])
              >> teardown programs resolver parse_ip parse_ipv4 show_ip))
        start).1.system
      (key other)
    ≡ true
unfolding Routes.apply Routes.install_routes Routes.pin_proxy Routes.unpin_proxy default_gateway
    add_route add_quietly each Routes.add_bypass Routes.add_split_v4 Routes.add_split_v6 reloads
    Routes.reload Routes.reload_applied Routes.move_proxy Routes.move_dns plan_of
    Routes.delete_bypass delete_quietly Routes.host_prefix Routes.pinned Routes.bypassed
    Routes.half_v4 Routes.half_v6 Routes.mask_to_prefix diff_cidrs to_string teardown
    Routes.remove_routes Routes.delete_split_v4 Routes.delete_split_v6
other_left = refl

teardown-reloads-apply_example : contains start.system (key other) ≡ true
teardown-reloads-apply_example =
    teardown-reloads-apply programs programs-IsRouting resolver parse_ip parse_ipv4 show_ip sample
      first ((sample, second) ∷ []) start refl refl session_ok other other_left

link_found : detect_link programs [] ≡ record { mtu = none; has_ipv6_gateway = false }
unfolding detect_link default_interface_mtu has_ipv6_default_route powershell lines parse_unsigned
    parse_digits
link_found = refl
