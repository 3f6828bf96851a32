-- ===== src/Tune/Limits.antt =====
-- src/tune.rs: whatever the probe reports, the tuning stays within the fixed limits.
use cortado.Base.{ℕ, ◌≤◌, ◌<◌, arith}
use cortado.Tune.{
  SystemProbe, Tuning, compute, clamp, tcp_cap, min_mtu, max_mtu, relay_buf_min, relay_buf_max,
  copy_buf_min, copy_buf_max, stack_buf_min, stack_buf_max, tcp_conn_min, tcp_conn_max,
  udp_session_min, udp_session_max,
}

pub record IsWithinLimits (t : Tuning) : Type 0 where
  pub mtu_low : min_mtu ≤ t.mtu
  pub mtu_high : t.mtu ≤ max_mtu
  pub relay_low : relay_buf_min ≤ t.relay_buf_size
  pub relay_high : t.relay_buf_size ≤ relay_buf_max
  pub copy_low : copy_buf_min ≤ t.relay_copy_buf_size
  pub copy_high : t.relay_copy_buf_size ≤ copy_buf_max
  pub stack_low : stack_buf_min ≤ t.stack_buf_size
  pub stack_high : t.stack_buf_size ≤ stack_buf_max
  pub tcp_low : tcp_conn_min ≤ t.max_tcp_connections
  pub tcp_high : t.max_tcp_connections ≤ tcp_conn_max
  pub udp_low : udp_session_min ≤ t.max_udp_sessions
  pub udp_high : t.max_udp_sessions ≤ udp_session_max

pub clamp_bounds : (x lo hi : ℕ) → lo ≤ hi → (lo ≤ clamp x lo hi) × (clamp x lo hi ≤ hi)
unfolding clamp
clamp_bounds x lo hi h = ground arith

pub clamp_above : (x lo hi : ℕ) → lo < clamp x lo hi → clamp x lo hi ≤ x
unfolding clamp
clamp_above x lo hi h = ground arith

pub clamp_mono : (x y lo hi : ℕ) → lo ≤ hi → x ≤ y → clamp x lo hi ≤ clamp y lo hi
unfolding clamp
clamp_mono x y lo hi h k = ground arith

ruleset within = (arith, clamp_bounds)

-- Whatever the probe reports, or fails to report, every tuned value is within its limits; the
-- connection caps are positive.
pub compute-IsWithinLimits : (probe : SystemProbe) → IsWithinLimits (compute probe)
unfolding compute tcp_cap
compute-IsWithinLimits probe = grind within
