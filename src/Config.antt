-- ===== src/Config.antt =====
-- src/config.rs: the configuration, its validation, and the values read from it once validated.
-- Addresses are parsed by std's `FromStr`, which is the parameter `Parsing`; the prefix length is
-- parsed by the model of `str::parse::<u8>`.
pub mod Valid
pub mod Samples
mod Tests
use cortado.Base.{
  ℕ, ◌≡◌, ◌<◌, ◌^◌, Bool, true, false, not, ◌||◌, List, [], ◌∷◌, Option, none, some, Bytes, codes,
  Result, ok, err, ◌>>=◌, ◌>>◌, ensure, context, leb, ltb, length, is_empty, if◌then◌else◌,
}
use cortado.Addr.{IpAddr, v4, SocketAddr, is_ipv4, IsIp, IsSocketAddr}
use cortado.Text.Decimal.{parse_unsigned}
use cortado.Text.Split.{split_once}

-- std's parsers, and that what they return fits its type.
pub record Parsing : Type 0 where
  pub parse_socket_addr : Bytes → Option SocketAddr
  pub parse_ip : Bytes → Option IpAddr
  pub parse_ipv4 : Bytes → Option ℕ
  pub parse_socket_addr_fits :
      (s : Bytes) (a : SocketAddr) → parse_socket_addr s ≡ some a → IsSocketAddr a
  pub parse_ip_fits : (s : Bytes) (a : IpAddr) → parse_ip s ≡ some a → IsIp a
  pub parse_ipv4_fits : (s : Bytes) (a : ℕ) → parse_ipv4 s ≡ some a → a < 2 ^ 32

pub data ConfigError : Type 0 where
  missing_prefix bad_address bad_prefix : ConfigError
  prefix_exceeds : ℕ → ConfigError
  bad_proxy_addr bad_tun_ip bad_dns_server bad_metrics_addr : ConfigError
  half_credentials username_length password_length : ConfigError

pub record Config : Type 0 where
  pub proxy_addr : Bytes
  pub username : Option Bytes
  pub password : Option Bytes
  pub tun_name : Bytes
  pub tun_ip : Bytes
  pub verbose : Bool
  pub dns_server : Bytes
  pub override_dns : Bool
  pub dns_over_tcp : Bool
  pub bypass_cidrs : List Bytes
  pub metrics_addr : Option Bytes

-- `Config::default`.
abbrev pub default : Config
default = record {
  proxy_addr = codes "127.0.0.1:1080";
  username = none;
  password = none;
  tun_name = codes "cortado0";
  tun_ip = codes "10.0.0.1";
  verbose = false;
  dns_server = codes "1.1.1.1";
  override_dns = true;
  dns_over_tcp = true;
  bypass_cidrs = [];
  metrics_addr = none;
}

-- A `Duration`, in milliseconds.
abbrev pub default_connect_timeout : ℕ
default_connect_timeout = 10000

pub record ProxyConfig : Type 0 where
  pub addr : SocketAddr
  pub username : Option Bytes
  pub password : Option Bytes
  pub connect_timeout : ℕ
  pub tcp_nodelay : Bool

abbrev pub is_bad_length : Bytes → Bool
is_bad_length s = is_empty s || ltb 255 (length s)

-- The match on the two optional credentials at the end of `validate`.
unfoldable pub validate_credentials : Option Bytes → Option Bytes → Result ConfigError (Unit {0})
validate_credentials none none = ok tt
validate_credentials (some u) none = err half_credentials
validate_credentials none (some p) = err half_credentials
validate_credentials (some u) (some p) = do
  ensure (not (is_bad_length u)) username_length
  ensure (not (is_bad_length p)) password_length

module _ (std : Parsing) where
  open std use {parse_socket_addr, parse_ip, parse_ipv4}

  unfoldable pub parse_cidr : Bytes → Result ConfigError (IpAddr × ℕ)
  parse_cidr spec = do
    parts ← context (split_once b'/' spec) missing_prefix
    addr ← context (parse_ip parts.0) bad_address
    prefix ← context (parse_unsigned 255 parts.1) bad_prefix
    let most = if is_ipv4 addr then 32 else 128
    ensure (leb prefix most) (prefix_exceeds most)
    ok (addr, prefix)

  -- `for cidr in &self.bypass_cidrs { parse_cidr(cidr)?; }`
  unfoldable pub validate_cidrs : List Bytes → Result ConfigError (Unit {0})
  validate_cidrs [] = ok tt
  validate_cidrs (c ∷ cs) = parse_cidr c >>= λ _. validate_cidrs cs

  unfoldable pub validate_metrics : Option Bytes → Result ConfigError (Unit {0})
  validate_metrics none = ok tt
  validate_metrics (some addr) = context (parse_socket_addr addr) bad_metrics_addr >>= λ _. ok tt

  unfoldable pub validate_dns : Bool → Bytes → Result ConfigError (Unit {0})
  validate_dns true server = context (parse_ip server) bad_dns_server >>= λ _. ok tt
  validate_dns false server = ok tt

  unfoldable pub validate : Config → Result ConfigError (Unit {0})
  unfolding validate_credentials validate_cidrs validate_metrics validate_dns parse_cidr
  validate cfg = do
    _ ← context (parse_socket_addr cfg.proxy_addr) bad_proxy_addr
    _ ← context (parse_ipv4 cfg.tun_ip) bad_tun_ip
    validate_dns cfg.override_dns cfg.dns_server
    validate_cidrs cfg.bypass_cidrs
    validate_metrics cfg.metrics_addr
    validate_credentials cfg.username cfg.password

  -- The accessors `expect` a validated configuration: `none` is the panic.
  unfoldable pub proxy_socket_addr : Config → Option SocketAddr
  proxy_socket_addr cfg = parse_socket_addr cfg.proxy_addr

  unfoldable pub tun_ipv4 : Config → Option ℕ
  tun_ipv4 cfg = parse_ipv4 cfg.tun_ip

  -- The inner option is the function's result.
  unfoldable pub dns_addr : Config → Option (Option IpAddr)
  dns_addr cfg =
      if cfg.override_dns
      then elim (parse_ip cfg.dns_server) [ none ↦ none | some a ↦ some (some a) ]
      else some none

  unfoldable pub parse_routes : List Bytes → Option (List (IpAddr × ℕ))
  parse_routes [] = some []
  parse_routes (c ∷ cs) = elim (parse_cidr c) [
    | err e ↦ none
    | ok b ↦ elim (parse_routes cs) [ none ↦ none | some bs ↦ some (b ∷ bs) ]
  ]

  unfoldable pub bypass_routes : Config → Option (List (IpAddr × ℕ))
  unfolding parse_routes parse_cidr
  bypass_routes cfg = parse_routes cfg.bypass_cidrs

  unfoldable pub metrics_socket_addr : Config → Option (Option SocketAddr)
  metrics_socket_addr cfg = elim cfg.metrics_addr [
    | none ↦ some none
    | some s ↦ elim (parse_socket_addr s) [ none ↦ none | some a ↦ some (some a) ]
  ]

  unfoldable pub from_config : Config → Option ProxyConfig
  unfolding proxy_socket_addr
  from_config cfg = elim (proxy_socket_addr cfg) [
    | none ↦ none
    | some addr ↦ some (record {
      addr = addr;
      username = cfg.username;
      password = cfg.password;
      connect_timeout = default_connect_timeout;
      tcp_nodelay = true;
    })
  ]
