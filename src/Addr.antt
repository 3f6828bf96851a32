-- ===== src/Addr.antt =====
-- std::net addresses and big-endian integers, as the program uses them (net.rs, socks.rs, dns.rs).
-- An IPv4 address is its u32, an IPv6 address its u128, as `u32::from` and `u128::from` give them.
mod Octets
use cortado.Base.{
  ℕ, zero, suc, ◌+◌, ◌*◌, ◌/◌, ◌%◌, ◌^◌, ◌<◌, ◌≡◌, refl, ◌↔◌, Bool, true, false, ◌&&◌, List, [],
  ◌∷◌, arith, Eq, Bytes, nat_beq, pair_eq,
}
unfoldable pub use Octets.*

pub data IpAddr : Type 0 where
  v4 v6 : ℕ → IpAddr

abbrev pub is_ipv4 : IpAddr → Bool
is_ipv4 (v4 a) = true
is_ipv4 (v6 a) = false

abbrev pub is_ipv6 : IpAddr → Bool
is_ipv6 (v4 a) = false
is_ipv6 (v6 a) = true

abbrev pub is_unspecified : IpAddr → Bool
is_unspecified (v4 a) = nat_beq a 0
is_unspecified (v6 a) = nat_beq a 0

-- The address fits its width.
abbrev pub IsIp : IpAddr → Type 0
IsIp (v4 a) = a < 2 ^ 32
IsIp (v6 a) = a < 2 ^ 128

abbrev pub ip_beq : IpAddr → IpAddr → Bool
ip_beq (v4 a) (v4 b) = nat_beq a b
ip_beq (v4 a) (v6 b) = false
ip_beq (v6 a) (v4 b) = false
ip_beq (v6 a) (v6 b) = nat_beq a b

pub ip_beq_iff : (a b : IpAddr) → (ip_beq a b ≡ true) ↔ (a ≡ b)
ip_beq_iff (v4 a) (v4 b) = ground arith
ip_beq_iff (v4 a) (v6 b) = ground arith
ip_beq_iff (v6 a) (v4 b) = ground arith
ip_beq_iff (v6 a) (v6 b) = ground arith

instance abbrev pub ip_eq : Eq IpAddr
ip_eq = record { beq = ip_beq; beq_iff = ip_beq_iff }

pub record SocketAddr : Type 0 where
  pub ip : IpAddr
  pub port : ℕ

pub record IsSocketAddr (a : SocketAddr) : Type 0 where
  pub ip_fits : IsIp a.ip
  pub port_fits : a.port < 2 ^ 16

abbrev pub socket_beq : SocketAddr → SocketAddr → Bool
socket_beq a b = ip_beq a.ip b.ip && nat_beq a.port b.port

pub socket_beq_iff : (a b : SocketAddr) → (socket_beq a b ≡ true) ↔ (a ≡ b)
socket_beq_iff a b = ground (arith, ip_beq_iff a.ip b.ip)

instance abbrev pub socket_eq : Eq SocketAddr
socket_eq = record { beq = socket_beq; beq_iff = socket_beq_iff }
