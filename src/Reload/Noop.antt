-- ===== src/Reload/Noop.antt =====
-- src/reload.rs: a plan exists for validated configurations, and what a plan without effect means.
use cortado.Base.{
  ◌≡◌, refl, sym, ap, ◌∙◌, ◌↔◌, inl, inr, Bool, true, false, ◌&&◌, List, [], ◌∷◌, Option, none,
  some, ok, arith, any, contains, filter, is_empty, nat_eq, list_eq, option_eq, pair_eq, ==_iff,
  Bool-cases, contains-filter, if◌then◌else◌, ◌==◌, ==_refl,
}
use cortado.Addr.{IpAddr, ip_eq, SocketAddr, socket_eq}
use cortado.Net.Cidr
use cortado.Net.Diff.{Block, diff_cidrs, absent_from}
use cortado.Net.RouteTable
use cortado.Net.RouteTable.{RouteTable, decide, decide-new, cidr_of, direct, proxy}
use cortado.Config.{
  Parsing, Config, validate, bypass_routes, from_config, default_connect_timeout, ProxyConfig,
  proxy_socket_addr,
}
use cortado.Config.Valid.{IsReadable, validate-IsReadable}
use cortado.Reload.{ReloadPlan, Readings, readings, plan_of, compute, is_noop, immutable_changes}

-- The proxy of a configuration whose address is read.
abbrev pub proxy_at : Config → SocketAddr → ProxyConfig
proxy_at cfg addr = record {
  addr = addr;
  username = cfg.username;
  password = cfg.password;
  connect_timeout = default_connect_timeout;
  tcp_nodelay = true;
}

from_config_total :
    (std : Parsing) (cfg : Config) (addr : SocketAddr)
    → proxy_socket_addr std cfg ≡ some addr
    → from_config std cfg ≡ some (proxy_at cfg addr)
unfolding from_config
from_config_total std cfg addr h = rw (h, from_config) refl

pub readings_total :
    (std : Parsing) (cfg : Config)
    → IsReadable std cfg
    → (r : Readings) × (readings std cfg ≡ some r)
      × (r.proxy ≡ proxy_at cfg r.address)
      × (from_config std cfg ≡ some r.proxy)
      × (bypass_routes std cfg ≡ some r.bypass)
unfolding readings
readings_total std cfg h =
    let proxy_read = from_config_total std cfg h.proxy h.proxy_read in
    (
      record { bypass = h.routes; address = h.proxy; dns = h.dns; proxy = proxy_at cfg h.proxy },
      rw (h.routes_read, h.proxy_read, h.dns_read, proxy_read, readings) refl,
      refl,
      proxy_read,
      h.routes_read,
    )

-- Between two validated configurations a plan is always computed: no accessor panics.
pub compute_total :
    (std : Parsing) (old latest : Config)
    → validate std old ≡ ok tt
    → validate std latest ≡ ok tt
    → (p : ReloadPlan) × (compute std old latest ≡ some p)
unfolding compute
compute_total std old latest h k =
    let (r, er, _, _, _) = readings_total std old (validate-IsReadable std old h) in
    let (s, es, _, _, _) = readings_total std latest (validate-IsReadable std latest k) in
    (plan_of old latest r s, rw (er, es, compute) refl)

empty-filter :
    (p : Block → Bool) (xs : List Block) (b : Block)
    → is_empty (filter p xs) ≡ true
    → (p b && contains xs b) ≡ false
empty-filter p xs b h = sym (contains-filter p xs b) ∙ nil (filter p xs) h
  where
    nil : (ys : List Block) → is_empty ys ≡ true → contains ys b ≡ false
    nil [] h = refl
    nil (y ∷ ys) h = absurd (ground arith)

-- A plan without effect changes no block, no address and no credential.
pub record IsSame (old latest : Config) (r s : Readings) : Type 0 where
  pub same_blocks : (b : Block) → contains r.bypass b ≡ contains s.bypass b
  pub same_dns : r.dns ≡ s.dns
  pub same_address : r.address ≡ s.address
  pub same_username : old.username ≡ latest.username
  pub same_password : old.password ≡ latest.password

pub is_noop-IsSame :
    (old latest : Config) (r s : Readings)
    → is_noop (plan_of old latest r s) ≡ true
    → IsSame old latest r s
unfolding is_noop plan_of diff_cidrs
is_noop-IsSame old latest r s h = record {
  same_blocks = λ b.
      let added = empty-filter (absent_from r.bypass) s.bypass b in
      let removed = empty-filter (absent_from s.bypass) r.bypass b in ground arith;
  same_dns = (==_iff r.dns s.dns).0 (ground arith);
  same_address = (==_iff r.address s.address).0 (ground arith);
  same_username = (==_iff old.username latest.username).0 (ground arith);
  same_password = (==_iff old.password latest.password).0 (ground arith);
}

any-member :
    (q : Block → Bool) (xs : List Block)
    → any q xs ≡ true
    → (b : Block) × (contains xs b ≡ true) × (q b ≡ true)
any-member q [] h = absurd (ground arith)
any-member q (x ∷ xs) h = elim (Bool-cases (q x)) [
  | inl here ↦ (x, ground (arith, ==_refl x), here)
  | inr not_here ↦
      let (b, inside, holds) = any-member q xs (ground arith) in (b, ground arith, holds)
]

any-contains :
    (q : Block → Bool) (xs : List Block) (b : Block)
    → contains xs b ≡ true
    → q b ≡ true
    → any q xs ≡ true
any-contains q [] b h k = absurd (ground arith)
any-contains q (x ∷ xs) b h k = elim (Bool-cases (x == b)) [
  | inl same ↦
      let e : x ≡ b = (==_iff x b).0 same in let holds : q x ≡ true = ap q e ∙ k in ground arith
  | inr other ↦ let later = any-contains q xs b (ground arith) k in ground arith
]

pub any_same :
    (q : Block → Bool) (xs ys : List Block)
    → ((b : Block) → contains xs b ≡ contains ys b)
    → any q xs ≡ any q ys
any_same q xs ys h = elim (Bool-cases (any q xs)) [
  | inl some_x ↦
      let (b, inside, holds) = any-member q xs some_x in
      some_x ∙ sym (any-contains q ys b (sym (h b) ∙ inside) holds)
  | inr no_x ↦ elim (Bool-cases (any q ys)) [
    | inl some_y ↦
        let (b, inside, holds) = any-member q ys some_y in
        let found = any-contains q xs b (h b ∙ inside) holds in absurd (ground arith)
    | inr no_y ↦ no_x ∙ sym no_y
  ]
]

-- What a plan without effect says of the two configurations it was computed from.
abbrev pub KeepsAll : Parsing → Config → Config → ReloadPlan → Type 0
KeepsAll std old latest p =
    (r : Readings) × (s : Readings) × (readings std old ≡ some r)
    × (readings std latest ≡ some s)
    × IsSame old latest r s
    × ((a : IpAddr) → decide p.route_table a ≡ decide (RouteTable.new r.bypass) a)

-- If the plan is a no-op, then the two configurations have the same bypass blocks, in whatever order,
-- the same resolver, proxy address and credentials, and its table decides every address as before.
pub is_noop-KeepsAll :
    (std : Parsing) (old latest : Config) (p : ReloadPlan)
    → compute std old latest ≡ some p
    → is_noop p ≡ true
    → KeepsAll std old latest p
unfolding compute plan_of
is_noop-KeepsAll std old latest p e h = go (readings std old) (readings std latest) refl refl
  where
    go :
        (o n : Option Readings)
        → readings std old ≡ o
        → readings std latest ≡ n
        → KeepsAll std old latest p
    go none n eo en =
        absurd
          (let none_read : compute std old latest ≡ none = rw (eo, compute) refl in ground arith)
    go (some r) none eo en =
        absurd (
          let none_read : compute std old latest ≡ none = rw (eo, en, compute) refl in ground arith)
    go (some r) (some s) eo en =
        let made : compute std old latest ≡ some (plan_of old latest r s) =
          rw (eo, en, compute) refl in
        let plan : p ≡ plan_of old latest r s = ground arith in
        let same = is_noop-IsSame old latest r s (ap is_noop (sym plan) ∙ h) in
        let holds = λ (a : IpAddr) (b : Block). Cidr.contains (cidr_of b) a in
        (
          r,
          s,
          eo,
          en,
          same,
          λ a.
              ap (λ (t : ReloadPlan). decide t.route_table a) plan
              ∙ decide-new s.bypass a
              ∙ ap (λ (m : Bool). if m then direct else proxy)
                  (sym (any_same (holds a) r.bypass s.bypass same.same_blocks))
              ∙ sym (decide-new r.bypass a),
        )

-- No immutable field is reported exactly when the TUN device's name and address and the address of
-- the metrics are unchanged.
pub immutable_changes_iff :
    (old latest : Config)
    → (immutable_changes old latest ≡ []) ↔ (
        (old.tun_name ≡ latest.tun_name)
        × (old.tun_ip ≡ latest.tun_ip)
        × (old.metrics_addr ≡ latest.metrics_addr))
unfolding immutable_changes
immutable_changes_iff old latest = ground (
  arith,
  ==_iff old.tun_name latest.tun_name,
  ==_iff old.tun_ip latest.tun_ip,
  ==_iff old.metrics_addr latest.metrics_addr,
)
