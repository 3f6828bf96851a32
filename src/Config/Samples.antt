-- ===== src/Config/Samples.antt =====
-- Concrete values for src/config.rs: parsers that take plain numbers, and a full configuration.
use cortado.Base.{ℕ, ◌≤◌, ◌-◌, ◌^◌, ◌≡◌, refl, [], ◌∷◌, Option, none, some, codes, ok, arith}
use cortado.Addr.{IpAddr, v4, v6, SocketAddr, IsIp, IsSocketAddr}
use cortado.Text.Decimal.{parse_unsigned, parse_unsigned-le}
use cortado.Text.Split.{split_once}
use cortado.Config.{
  Parsing, Config, default, validate, validate_credentials, validate_dns, validate_cidrs,
  validate_metrics, parse_cidr,
}

abbrev pub most : ℕ
most = 2 ^ 32 - 1

abbrev pub as_ip : Option ℕ → Option IpAddr
as_ip none = none
as_ip (some a) = some (v4 a)

abbrev pub as_socket : Option ℕ → Option SocketAddr
as_socket none = none
as_socket (some a) = some (record { ip = v4 a; port = 1080 })

pub as_ip-IsIp :
    (o : Option ℕ) (a : IpAddr) → ((n : ℕ) → o ≡ some n → n ≤ most) → as_ip o ≡ some a → IsIp a
as_ip-IsIp none a h e = ground arith
as_ip-IsIp (some n) (v4 a) h e = let low = h n refl in ground arith
as_ip-IsIp (some n) (v6 a) h e = ground arith

pub as_socket_fits :
    (o : Option ℕ) (a : SocketAddr)
    → ((n : ℕ) → o ≡ some n → n ≤ most)
    → as_socket o ≡ some a
    → IsSocketAddr a
as_socket_fits none a h e = ground arith
as_socket_fits (some n) a h e = let low = h n refl in ground arith

abbrev pub numbers : Parsing
numbers = record {
  parse_socket_addr = λ s. as_socket (parse_unsigned most s);
  parse_ip = λ s. as_ip (parse_unsigned most s);
  parse_ipv4 = parse_unsigned most;
  parse_socket_addr_fits =
      λ s a. as_socket_fits (parse_unsigned most s) a (parse_unsigned-le most s);
  parse_ip_fits = λ s a. as_ip-IsIp (parse_unsigned most s) a (parse_unsigned-le most s);
  parse_ipv4_fits = λ s a h. let low = parse_unsigned-le most s a h in omega arith;
}

abbrev pub sample : Config
sample = record default {
  proxy_addr = codes "2130706433";
  username = some (codes "user");
  password = some (codes "secret");
  tun_ip = codes "167772161";
  dns_server = codes "16843009";
  bypass_cidrs = codes "3232235776/24" ∷ [];
  metrics_addr = some (codes "2130706433");
}

pub sample_accepted : validate numbers sample ≡ ok tt
unfolding validate parse_unsigned validate_dns validate_cidrs validate_metrics validate_credentials
    parse_cidr split_once
sample_accepted = refl
