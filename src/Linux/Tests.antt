-- ===== src/Linux/Tests.antt =====
-- Runs of src/platform/linux over a routing table and files that are association lists.
mod Lifetime
use cortado.Base.{
  ℕ, ◌≡◌, refl, sym, ap, subst, inl, inr, true, false, List, [], ◌∷◌, Option, none, some, Bytes,
  codes, ok, arith, lookup, insert, remove, lookup-insert, lookup-remove, is_some, contains, ◌==◌,
  ==_iff, nat_eq, list_eq, pair_eq, option_eq, Bool-cases, if◌then◌else◌,
}
use cortado.Base.Effects.{each}
use cortado.Addr.{IpAddr, v4, v6, ip_eq}
use cortado.Platform.{apply, reload, restore}
use cortado.Platform.Samples.{files, files-IsFileSystem}
use cortado.Linux.ResolvConf.{system, Host, calls, resolv_conf_path}
use cortado.Linux.Override.{Represents, calls-Represents}
use cortado.Linux.Netlink.{
  Via, key_of, RouteMessage, inet_gateway, inet6_gateway, oif_index, Netlink, IsNetlink,
}
use cortado.Linux.RouteManager
use cortado.Linux.Gateways.{read_gateway, gateway_for, host_prefix}
use cortado.Linux.RouteManager.{
  Machine, protect_proxy, add_bypass, add_via_gateway, add_via_tun, install_routes, teardown,
}
use cortado.Platform.{Resolver}
use cortado.Linux.Detect.{detect_link}
use cortado.Linux.Detected.{detect_link-reports}
use cortado.Linux.Succeeds.{apply_total}
use cortado.Linux.Table.{keys}
use cortado.Linux.Install.{removed}
use cortado.Linux.Apply.{Applied, apply-Applied}
use cortado.Linux.Teardown.{TornDown, teardown-TornDown, apply-teardown}

abbrev show : IpAddr → Bytes
show (v4 a) = codes "0.0.0.0"
show (v6 a) = codes "::"

abbrev contents : Bytes
contents = codes "nameserver 192.168.0.1"

abbrev host : Host files show
host = record { conf = system; files = (resolv_conf_path, contents) ∷ [] }

host-Represents : Represents files files-IsFileSystem show (λ p bs s. refl) contents none host
unfolding lookup
host-Represents = record { apart = refl; tracked = refl; visible = refl; saved = inr (refl, refl) }

calls-Represents_example :
    Represents files files-IsFileSystem show
      (λ p bs s. refl)
      contents
      (some (v4 2))
      (calls files show (apply (some (v4 1)) ∷ restore ∷ reload (some (v4 2)) ∷ []) host)
calls-Represents_example =
    calls-Represents files files-IsFileSystem show (λ p bs s. refl) contents
      (apply (some (v4 1)) ∷ restore ∷ reload (some (v4 2)) ∷ []) none host host-Represents

abbrev Table : Type 0
Table = List ((IpAddr × ℕ) × Via)

abbrev gateway_message : RouteMessage
gateway_message = record {
  destination_prefix_length = 0;
  attributes = oif_index 3 ∷ inet_gateway 0xc0a80001 ∷ [];
}

abbrev kernel : Netlink
kernel = record {
  State = Table;
  via = λ s k. lookup k s;
  add = λ r s. (true, insert (key_of r) r.via s);
  del = λ r s. (is_some (lookup (key_of r) s), remove (key_of r) s);
  dump_v4 = λ s. some gateway_message ∷ [];
  dump_v6 = λ s. [];
  link_index = λ name s. some (some 7);
  link_mtu = λ i s. some (some 1500);
}

deleted_shows :
    (k j : IpAddr × ℕ) (s : Table) → lookup j (remove k s) ≡ (if k == j then none else lookup j s)
deleted_shows k j s = lookup-remove k j s

not_deleted_shows :
    (k j : IpAddr × ℕ) (s : Table)
    → is_some (lookup k s) ≡ false
    → lookup j (remove k s) ≡ lookup j s
not_deleted_shows k j s h =
    let seen = lookup-remove k j s in
    elim (Bool-cases (k == j)) [
      | inl here ↦
          let e : k ≡ j = (==_iff k j).0 here in
          let absent : is_some (lookup j s) ≡ false =
            subst (λ i. is_some (lookup i s) ≡ false) e h in
          ground arith
      | inr elsewhere ↦ ground arith
    ]

kernel-IsNetlink : IsNetlink kernel
kernel-IsNetlink = record {
  via_added = λ r k s h. lookup-insert (key_of r) k r.via s;
  via_not_added = λ r k s h. absurd (ground arith);
  via_deleted = λ r k s h. deleted_shows (key_of r) k s;
  via_not_deleted = λ r k s h. not_deleted_shows (key_of r) k s h;
  deletes = λ r s h. ap is_some h;
}

abbrev resolver : Resolver
resolver = record {
  State = Option IpAddr;
  apply = λ server s. (true, server);
  reload = λ server s. (true, server);
  restore = λ s. none;
}

abbrev before : Machine kernel resolver
before = record {
  manager = record {
    proxy_ip = v4 0x0a000001;
    tun_index = 7;
    dns_server = some (v4 0x01010101);
    bypass = (v4 0xc0a80000, 16) ∷ (v6 1, 128) ∷ [];
    capture_ipv6 = true;
    v4_gateway = none;
    v6_gateway = none;
    applied = false;
  };
  kernel = ((v4 0, 0), record { gateway = some (v4 0xc0a80001); oif = 3 }) ∷ [];
  resolver = none;
}

applied_ok : (RouteManager.apply kernel resolver before).0 ≡ ok tt
unfolding RouteManager.apply install_routes read_gateway protect_proxy add_bypass add_via_gateway
    add_via_tun each gateway_for host_prefix
applied_ok = refl

apply_total_example : (RouteManager.apply kernel resolver before).0 ≡ ok tt
unfolding read_gateway gateway_for
apply_total_example =
    apply_total kernel resolver (λ r s. refl) before (some (0xc0a80001, 3)) none (v4 0xc0a80001, 3)
      refl refl refl (λ server s. refl)

abbrev after : Machine kernel resolver
after = (RouteManager.apply kernel resolver before).1

apply-Applied_example : Applied kernel kernel-IsNetlink resolver before after
apply-Applied_example = apply-Applied kernel kernel-IsNetlink resolver before applied_ok

keys_known : contains (keys (removed after.manager)) (v4 0, 0) ≡ false
unfolding RouteManager.apply install_routes read_gateway protect_proxy add_bypass add_via_gateway
    add_via_tun each gateway_for host_prefix
keys_known = refl

free :
    (k : IpAddr × ℕ)
    → contains (keys (removed after.manager)) k ≡ true
    → lookup k before.kernel ≡ none
unfolding lookup
free k h = elim (Bool-cases ((v4 0, 0) == k)) [
  | inl here ↦
      let e : (v4 0, 0) ≡ k = (==_iff (v4 0, 0) k).0 here in
      let clash : contains (keys (removed after.manager)) (v4 0, 0) ≡ true =
        subst (λ j. contains (keys (removed after.manager)) j ≡ true) (sym e) h in
      absurd (let known = keys_known in ground arith)
  | inr elsewhere ↦ rw elsewhere refl
]

on : after.manager.applied ≡ true
unfolding RouteManager.apply install_routes read_gateway protect_proxy add_bypass add_via_gateway
    add_via_tun each gateway_for host_prefix
on = refl

teardown-TornDown_example :
    ((teardown kernel resolver after).0 ≡ ok tt)
    × TornDown kernel kernel-IsNetlink resolver after (teardown kernel resolver after).1
teardown-TornDown_example = teardown-TornDown kernel kernel-IsNetlink resolver after on

abbrev gateway_message_v6 : RouteMessage
gateway_message_v6 = record {
  destination_prefix_length = 0;
  attributes = inet6_gateway 9 ∷ oif_index 4 ∷ [];
}

abbrev dual : Netlink
dual = record kernel { dump_v6 = λ s. some gateway_message_v6 ∷ [] }

detect_link-reports_example : (detect_link dual []).has_ipv6_gateway ≡ true
unfolding read_gateway
detect_link-reports_example =
    detect_link-reports dual [] (some (0xc0a80001, 3)) (9, 4) refl (λ i. refl) refl
