-- ===== src/Tune.antt =====
-- src/tune.rs: the automatic tuning from what the system reports. `usize` has 64 bits, so that the
-- casts between it and `u64` keep the value.
pub mod Limits
pub mod Budget
mod Tests
use cortado.Base.{
  ℕ, ◌+◌, ◌-◌, ◌*◌, ◌/◌, ◌^◌, min, max, ◌≡◌, Bool, true, false, List, [], ◌∷◌, ◌++◌, Option, none,
  some, Bytes, codes, ltb, unwrap_or, if◌then◌else◌,
}
use cortado.Text.Decimal.{parse_unsigned, to_string}
use cortado.Text.Split.{strip_prefix, first_word, lines}

abbrev pub fallback_mtu : ℕ
fallback_mtu = 1500

abbrev pub min_mtu : ℕ
min_mtu = 576

abbrev pub max_mtu : ℕ
max_mtu = 65535

abbrev pub default_memory : ℕ
default_memory = 2 * 1024 * 1024 * 1024

abbrev pub default_fd_limit : ℕ
default_fd_limit = 1024

abbrev pub relay_buf_per_mtu : ℕ
relay_buf_per_mtu = 176

abbrev pub relay_buf_min : ℕ
relay_buf_min = 128 * 1024

abbrev pub relay_buf_max : ℕ
relay_buf_max = 4 * 1024 * 1024

abbrev pub copy_buf_per_mtu : ℕ
copy_buf_per_mtu = 16

abbrev pub copy_buf_min : ℕ
copy_buf_min = 32 * 1024

abbrev pub copy_buf_max : ℕ
copy_buf_max = 256 * 1024

abbrev pub stack_buf_min : ℕ
stack_buf_min = 512

abbrev pub stack_buf_max : ℕ
stack_buf_max = 4096

abbrev pub stack_buf_per_bytes : ℕ
stack_buf_per_bytes = 2 * 1024 * 1024

abbrev pub fd_reserve : ℕ
fd_reserve = 64

abbrev pub fds_per_conn : ℕ
fds_per_conn = 2

abbrev pub mem_fraction_for_relay : ℕ
mem_fraction_for_relay = 4

abbrev pub tcp_conn_min : ℕ
tcp_conn_min = 128

abbrev pub tcp_conn_max : ℕ
tcp_conn_max = 65536

abbrev pub udp_per_tcp : ℕ
udp_per_tcp = 4

abbrev pub udp_session_min : ℕ
udp_session_min = 64

abbrev pub udp_session_max : ℕ
udp_session_max = 16384

-- Seconds.
abbrev pub udp_idle_timeout_secs : ℕ
udp_idle_timeout_secs = 60

pub record SystemProbe : Type 0 where
  pub link_mtu : Option ℕ
  pub has_ipv6_gateway : Bool
  pub total_memory_bytes : Option ℕ
  pub fd_limit : Option ℕ

pub record Tuning : Type 0 where
  pub mtu : ℕ
  pub relay_buf_size : ℕ
  pub relay_copy_buf_size : ℕ
  pub stack_buf_size : ℕ
  pub udp_idle_timeout : ℕ
  pub max_tcp_connections : ℕ
  pub max_udp_sessions : ℕ
  pub capture_ipv6 : Bool

-- `Ord::clamp`.
unfoldable pub clamp : ℕ → ℕ → ℕ → ℕ
clamp x lo hi = if ltb x lo then lo else if ltb hi x then hi else x

-- The memory that the buffers of one connection take.
abbrev pub bytes_per_conn : ℕ → ℕ → ℕ
bytes_per_conn relay copy = 2 * relay + copy

unfoldable pub tcp_cap : ℕ → ℕ → ℕ → ℕ
tcp_cap memory fds per_conn =
    let mem_conns = max (memory / mem_fraction_for_relay / max per_conn 1) 1 in
    let fd_conns = max ((fds - fd_reserve) / fds_per_conn) 1 in
    clamp (min mem_conns fd_conns) tcp_conn_min tcp_conn_max

unfoldable pub compute : SystemProbe → Tuning
compute probe =
    let mtu = clamp (unwrap_or probe.link_mtu fallback_mtu) min_mtu max_mtu in
    let memory = unwrap_or probe.total_memory_bytes default_memory in
    let fds = unwrap_or probe.fd_limit default_fd_limit in
    let relay_buf_size = clamp (mtu * relay_buf_per_mtu) relay_buf_min relay_buf_max in
    let relay_copy_buf_size = clamp (mtu * copy_buf_per_mtu) copy_buf_min copy_buf_max in
    let stack_buf_size = clamp (memory / stack_buf_per_bytes) stack_buf_min stack_buf_max in
    let max_tcp_connections =
      tcp_cap memory fds (bytes_per_conn relay_buf_size relay_copy_buf_size) in
    record {
      mtu = mtu;
      relay_buf_size = relay_buf_size;
      relay_copy_buf_size = relay_copy_buf_size;
      stack_buf_size = stack_buf_size;
      udp_idle_timeout = udp_idle_timeout_secs;
      max_tcp_connections = max_tcp_connections;
      max_udp_sessions = clamp (max_tcp_connections / udp_per_tcp) udp_session_min udp_session_max;
      capture_ipv6 = probe.has_ipv6_gateway;
    }

abbrev pub bool_text : Bool → Bytes
bool_text true = codes "true"
bool_text false = codes "false"

unfoldable pub summary : Tuning → Bytes
summary t =
    codes "auto-tuned: mtu="
    ++ (to_string t.mtu
        ++ (codes " relay_buf="
            ++ (to_string t.relay_buf_size
                ++ (codes " copy_buf="
                    ++ (to_string t.relay_copy_buf_size
                        ++ (codes " stack_depth="
                            ++ (to_string t.stack_buf_size
                                ++ (codes " max_tcp="
                                    ++ (to_string t.max_tcp_connections
                                        ++ (codes " max_udp="
                                            ++ (to_string t.max_udp_sessions
                                                ++ (codes " udp_idle="
                                                    ++ (to_string t.udp_idle_timeout
                                                        ++ (codes "s capture_ipv6="
                                                            ++ bool_text
                                                            t.capture_ipv6))))))))))))))

-- `/proc/meminfo`, none where it cannot be read: kilobytes, multiplied without overflow.
abbrev pub u64_max : ℕ
u64_max = 2 ^ 64 - 1

abbrev pub kilobytes : Bytes → Option ℕ
kilobytes rest = elim (first_word rest) [
  | none ↦ none
  | some word ↦ elim (parse_unsigned u64_max word) [
    | none ↦ none
    | some kb ↦ some (min (kb * 1024) u64_max)
  ]
]

-- The first line that begins so decides.
unfoldable pub find_total : List Bytes → Option ℕ
find_total [] = none
find_total (line ∷ rest) = elim (strip_prefix (codes "MemTotal:") line) [
  | none ↦ find_total rest
  | some after ↦ kilobytes after
]

unfoldable pub read_total_memory : Option Bytes → Option ℕ
unfolding find_total first_word strip_prefix lines parse_unsigned
read_total_memory none = none
read_total_memory (some content) = find_total (lines content)

-- `RLIMIT_NOFILE`; none is no limit. `raise_ok` is whether `setrlimit` succeeds.
pub record Rlimit : Type 0 where
  pub current : Option ℕ
  pub maximum : Option ℕ

abbrev pub raised : Option ℕ → Option ℕ → Bool → Option ℕ
raised (some current) (some maximum) raise_ok =
    if ltb current maximum then if raise_ok then some maximum else some current else some current
raised current maximum raise_ok = current

unfoldable pub raise_and_read_fd_limit : Rlimit → Bool → Option ℕ
raise_and_read_fd_limit limit raise_ok = raised limit.current limit.maximum raise_ok
