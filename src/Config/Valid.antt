-- ===== src/Config/Valid.antt =====
-- src/config.rs: what `validate` accepts, and that the accessors cannot panic after it.
use cortado.Base.{
  ℕ, ◌^◌, ◌≤◌, ◌<◌, ◌≡◌, refl, ap, sym, ◌↔◌, Bool, true, false, List, [], ◌∷◌, Option, none, some,
  Bytes, ok, context, ensure, arith, length, All, >>=-eq-ok, context-eq-ok, ensure-eq-ok, leb→le,
  if◌then◌else◌, is_empty, leb, is_some,
}
use cortado.Addr.{IpAddr, is_ipv4, SocketAddr, IsIp, IsSocketAddr}
use cortado.Text.Split.{split_once}
use cortado.Text.Decimal.{parse_unsigned}
use cortado.Config.{
  Parsing, Config, missing_prefix, bad_address, bad_prefix, prefix_exceeds, bad_proxy_addr,
  bad_tun_ip, bad_dns_server, bad_metrics_addr, validate_credentials, parse_cidr, validate_cidrs,
  validate_metrics, validate_dns, validate, proxy_socket_addr, tun_ipv4, dns_addr, parse_routes,
  bypass_routes, metrics_socket_addr,
}

-- One credential as RFC 1929 can carry it.
abbrev pub FitsByte : Bytes → Type 0
FitsByte s = (0 < length s) × (length s ≤ 255)

-- Both credentials or neither.
abbrev pub CredentialsFit : Option Bytes → Option Bytes → Type 0
CredentialsFit none none = Unit {0}
CredentialsFit (some u) (some p) = FitsByte u × FitsByte p
CredentialsFit (some u) none = ⊥
CredentialsFit none (some p) = ⊥

-- An address block whose prefix is no longer than its address.
abbrev pub IsBlock : IpAddr × ℕ → Type 0
IsBlock (addr, prefix) = IsIp addr × (prefix ≤ (if is_ipv4 addr then 32 else 128))

-- What an option holds, if anything, has the property.
abbrev pub HoldsIn : {A : Type 0} → (A → Type 0) → Option A → Type 0
HoldsIn P none = Unit {0}
HoldsIn P (some a) = P a

not_empty : (s : Bytes) → is_empty s ≡ false → 0 < length s
not_empty [] h = cc
not_empty (c ∷ s) h = omega arith

empty_of_length : (s : Bytes) → 0 < length s → is_empty s ≡ false
empty_of_length [] h = elim h [ ]
empty_of_length (c ∷ s) h = refl

-- The credentials are accepted exactly when both are absent, or both have from 1 to 255 bytes.
pub validate_credentials_iff :
    (u p : Option Bytes) → (validate_credentials u p ≡ ok tt) ↔ CredentialsFit u p
unfolding validate_credentials
validate_credentials_iff none none = ground arith
validate_credentials_iff (some u) none = ground arith
validate_credentials_iff none (some p) = ground arith
validate_credentials_iff (some u) (some p) =
    ground (arith, not_empty u, not_empty p, empty_of_length u, empty_of_length p)

module _ (std : Parsing) where
  open std use {parse_socket_addr, parse_ip, parse_ipv4}

  parse_cidr-IsBlock : (spec : Bytes) (b : IpAddr × ℕ) → parse_cidr std spec ≡ ok b → IsBlock b
  unfolding parse_cidr
  parse_cidr-IsBlock spec b e =
      let (parts, _, e1) = >>=-eq-ok (context (split_once b'/' spec) missing_prefix) _ e in
      let (addr, found, e2) = >>=-eq-ok (context (parse_ip parts.0) bad_address) _ e1 in
      let (prefix, _, e3) = >>=-eq-ok (context (parse_unsigned 255 parts.1) bad_prefix) _ e2 in
      let widest : ℕ = if is_ipv4 addr then 32 else 128 in
      let (_, short, e4) = >>=-eq-ok (ensure (leb prefix widest) (prefix_exceeds widest)) _ e3 in
      let fits =
        std.parse_ip_fits parts.0 addr (context-eq-ok (parse_ip parts.0) bad_address found) in
      let most =
        leb→le prefix widest (ensure-eq-ok (leb prefix widest) (prefix_exceeds widest) short) in
      ground (arith, fits, most)

  -- What the accessors of a validated configuration return: each a value in range, the server of DNS
  -- exactly where DNS is overridden, and the address of the metrics exactly where one is configured.
  pub record IsReadable (cfg : Config) : Type 0 where
    pub proxy : SocketAddr
    pub proxy_read : proxy_socket_addr std cfg ≡ some proxy
    pub proxy_fits : IsSocketAddr proxy
    pub tun : ℕ
    pub tun_read : tun_ipv4 std cfg ≡ some tun
    pub tun_fits : tun < 2 ^ 32
    pub dns : Option IpAddr
    pub dns_read : dns_addr std cfg ≡ some dns
    pub dns_fits : HoldsIn IsIp dns
    pub dns_set : is_some dns ≡ cfg.override_dns
    pub routes : List (IpAddr × ℕ)
    pub routes_read : bypass_routes std cfg ≡ some routes
    pub routes_fit : All IsBlock routes
    pub metrics : Option SocketAddr
    pub metrics_read : metrics_socket_addr std cfg ≡ some metrics
    pub metrics_fit : HoldsIn IsSocketAddr metrics
    pub metrics_set : is_some metrics ≡ is_some cfg.metrics_addr

  parse_routes-cons :
      (c : Bytes) (cs : List Bytes) (b : IpAddr × ℕ) (bs : List (IpAddr × ℕ))
      → parse_cidr std c ≡ ok b
      → parse_routes std cs ≡ some bs
      → parse_routes std (c ∷ cs) ≡ some (b ∷ bs)
  unfolding parse_routes
  parse_routes-cons c cs b bs p q = rw (p, q, parse_routes)

  parse_routes_total :
      (cs : List Bytes)
      → validate_cidrs std cs ≡ ok tt
      → (bs : List (IpAddr × ℕ)) × (parse_routes std cs ≡ some bs) × All IsBlock bs
  unfolding validate_cidrs parse_routes
  parse_routes_total [] h = ([], refl, tt)
  parse_routes_total (c ∷ cs) h =
      let (b, parsed, rest) = >>=-eq-ok (parse_cidr std c) (λ _. validate_cidrs std cs) h in
      let (bs, later, fit) = parse_routes_total cs rest in
      (b ∷ bs, parse_routes-cons c cs b bs parsed later, (parse_cidr-IsBlock c b parsed, fit))

  dns_addr_total :
      (override : Bool) (cfg : Config)
      → cfg.override_dns ≡ override
      → validate_dns std override cfg.dns_server ≡ ok tt
      → (d : Option IpAddr) × (dns_addr std cfg ≡ some d)
        × HoldsIn IsIp d
        × (is_some d ≡ cfg.override_dns)
  unfolding validate_dns dns_addr
  dns_addr_total true cfg o h =
      let (a, found, _) = >>=-eq-ok (context (parse_ip cfg.dns_server) bad_dns_server) _ h in
      let read = context-eq-ok (parse_ip cfg.dns_server) bad_dns_server found in
      (some a, ground arith, std.parse_ip_fits cfg.dns_server a read, sym o)
  dns_addr_total false cfg o h = (none, ground arith, tt, sym o)

  metrics_addr_total :
      (m : Option Bytes) (cfg : Config)
      → cfg.metrics_addr ≡ m
      → validate_metrics std m ≡ ok tt
      → (a : Option SocketAddr) × (metrics_socket_addr std cfg ≡ some a)
        × HoldsIn IsSocketAddr a
        × (is_some a ≡ is_some cfg.metrics_addr)
  unfolding validate_metrics metrics_socket_addr
  metrics_addr_total none cfg o h = (none, ground arith, tt, sym (ap is_some o))
  metrics_addr_total (some s) cfg o h =
      let (a, found, _) = >>=-eq-ok (context (parse_socket_addr s) bad_metrics_addr) _ h in
      let read = context-eq-ok (parse_socket_addr s) bad_metrics_addr found in
      (some a, ground arith, std.parse_socket_addr_fits s a read, sym (ap is_some o))

  -- After a successful `validate`, none of the accessors panics, and each value that they return is
  -- in range: addresses, ports and prefixes are within their widths, there is a DNS server exactly
  -- where DNS is overridden, and an address for the metrics exactly where one is configured.
  pub validate-IsReadable : (cfg : Config) → validate std cfg ≡ ok tt → IsReadable cfg
  unfolding validate proxy_socket_addr tun_ipv4 bypass_routes
  validate-IsReadable cfg h =
      let (p, found_p, h1) =
        >>=-eq-ok (context (parse_socket_addr cfg.proxy_addr) bad_proxy_addr) _ h in
      let (t, found_t, h2) = >>=-eq-ok (context (parse_ipv4 cfg.tun_ip) bad_tun_ip) _ h1 in
      let (_, dns_ok, h3) = >>=-eq-ok (validate_dns std cfg.override_dns cfg.dns_server) _ h2 in
      let (_, cidrs_ok, h4) = >>=-eq-ok (validate_cidrs std cfg.bypass_cidrs) _ h3 in
      let (_, metrics_ok, h5) = >>=-eq-ok (validate_metrics std cfg.metrics_addr) _ h4 in
      let read_p = context-eq-ok (parse_socket_addr cfg.proxy_addr) bad_proxy_addr found_p in
      let read_t = context-eq-ok (parse_ipv4 cfg.tun_ip) bad_tun_ip found_t in
      let (d, read_d, fit_d, set_d) = dns_addr_total cfg.override_dns cfg refl dns_ok in
      let (bs, read_bs, fit_bs) = parse_routes_total cfg.bypass_cidrs cidrs_ok in
      let (m, read_m, fit_m, set_m) = metrics_addr_total cfg.metrics_addr cfg refl metrics_ok in
      record {
        proxy = p;
        proxy_read = read_p;
        proxy_fits = std.parse_socket_addr_fits cfg.proxy_addr p read_p;
        tun = t;
        tun_read = read_t;
        tun_fits = std.parse_ipv4_fits cfg.tun_ip t read_t;
        dns = d;
        dns_read = read_d;
        dns_fits = fit_d;
        dns_set = set_d;
        routes = bs;
        routes_read = read_bs;
        routes_fit = fit_bs;
        metrics = m;
        metrics_read = read_m;
        metrics_fit = fit_m;
        metrics_set = set_m;
      }
