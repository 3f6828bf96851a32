-- ===== src/Stats.antt =====
-- src/stats.rs: the process-wide counters, each an `AtomicU64` that wraps at 2^64.
pub mod Report
use cortado.Base.{ℕ, ◌+◌, ◌-◌, ◌%◌, ◌^◌, Bool, nat_beq, if◌then◌else◌}
use cortado.Addr.{IpAddr, v4, v6}

pub data Counter : Type 0 where
  tcp_opened tcp_closed tcp_errors tcp_active : Counter
  udp_packets udp_errors udp_active : Counter
  bytes_tx bytes_rx bytes_v4 bytes_v6 : Counter
  dns_requests dns_failures dns_pool_hits dns_pool_misses : Counter
  route_direct route_proxy : Counter
  conn_failures socks_handshake_failures config_reloads : Counter

-- The order of their declarations.
abbrev pub index : Counter → ℕ
index tcp_opened = 0
index tcp_closed = 1
index tcp_errors = 2
index tcp_active = 3
index udp_packets = 4
index udp_errors = 5
index udp_active = 6
index bytes_tx = 7
index bytes_rx = 8
index bytes_v4 = 9
index bytes_v6 = 10
index dns_requests = 11
index dns_failures = 12
index dns_pool_hits = 13
index dns_pool_misses = 14
index route_direct = 15
index route_proxy = 16
index conn_failures = 17
index socks_handshake_failures = 18
index config_reloads = 19

abbrev pub same : Counter → Counter → Bool
same c d = nat_beq (index c) (index d)

abbrev pub Stats : Type 0
Stats = Counter → ℕ

abbrev pub started : Stats
started c = 0

unfoldable pub add : Counter → ℕ → Stats → Stats
add c value s d = if same c d then (s d + value) % 2 ^ 64 else s d

unfoldable pub inc : Counter → Stats → Stats
unfolding add
inc c s = add c 1 s

-- `fetch_sub(1)`.
unfoldable pub dec : Counter → Stats → Stats
dec c s d = if same c d then (s d + (2 ^ 64 - 1)) % 2 ^ 64 else s d

abbrev pub get : Counter → Stats → ℕ
get c s = s c

unfoldable pub record_traffic : IpAddr → ℕ → Stats → Stats
unfolding add
record_traffic (v4 a) bytes s = add bytes_v4 bytes s
record_traffic (v6 a) bytes s = add bytes_v6 bytes s

-- A `GaugeGuard` lives around the body: it counts up when made, and down when dropped.
unfoldable pub guarded : Counter → (Stats → Stats) → Stats → Stats
unfolding inc dec
guarded gauge body s = dec gauge (body (inc gauge s))
