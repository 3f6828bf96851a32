-- ===== src/Tune/Budget.antt =====
-- src/tune.rs: above its floor, the connection cap is what the descriptors and the memory carry, and
-- more of either never lowers it.
use native.Mathlib.Nat.{le-div_iff_mul-le, div-mul-le_self}
use cortado.Base.{ℕ, ◌+◌, ◌-◌, ◌*◌, ◌/◌, ◌≤◌, ◌<◌, ◌≡◌, arith, min, max, subst, unwrap_or, Option}
use cortado.Tune.{
  SystemProbe, compute, clamp, tcp_cap, bytes_per_conn, fd_reserve, fds_per_conn,
  mem_fraction_for_relay, tcp_conn_min, default_memory, default_fd_limit, copy_buf_max,
  copy_buf_min, copy_buf_per_mtu, fallback_mtu, max_mtu, min_mtu, relay_buf_max, relay_buf_min,
  relay_buf_per_mtu, udp_session_max, udp_session_min,
}
use cortado.Tune.Limits.{clamp_above, clamp_mono}

tcp_cap_fds :
    (memory fds per : ℕ)
    → tcp_conn_min < tcp_cap memory fds per
    → tcp_cap memory fds per * fds_per_conn + fd_reserve ≤ fds
unfolding tcp_cap
tcp_cap_fds memory fds per h =
    omega (
      arith,
      clamp_above (min (max (memory / 4 / max per 1) 1) (max ((fds - 64) / 2) 1)) 128 65536 h,
    )

tcp_cap_memory :
    (memory fds per : ℕ)
    → tcp_conn_min < tcp_cap memory fds per
    → tcp_cap memory fds per * per * mem_fraction_for_relay ≤ memory
unfolding tcp_cap
tcp_cap_memory memory fds per h =
    let share = memory / 4 / max per 1 in
    let conns = min (max share 1) (max ((fds - 64) / 2) 1) in
    let cap : clamp conns 128 65536 ≤ share = omega (arith, clamp_above conns 128 65536 h) in
    let some_bytes : 0 < max per 1 = omega arith in
    let fits : clamp conns 128 65536 * max per 1 ≤ memory / 4 =
      (le-div_iff_mul-le {x = clamp conns 128 65536} {y = memory / 4} some_bytes).0 cap in
    let less : clamp conns 128 65536 * per ≤ clamp conns 128 65536 * max per 1 = grind arith in
    omega arith

-- If the connection cap is above its floor, then that many connections, at two descriptors each,
-- leave the reserve free, and their buffers take at most a quarter of the memory, where what the
-- probe could not read has its default.
pub compute_budget :
    (probe : SystemProbe)
    → tcp_conn_min < (compute probe).max_tcp_connections
    → let t = compute probe in
      (t.max_tcp_connections * fds_per_conn + fd_reserve
        ≤ unwrap_or probe.fd_limit default_fd_limit)
      × (t.max_tcp_connections
            * bytes_per_conn t.relay_buf_size t.relay_copy_buf_size
            * mem_fraction_for_relay
          ≤ unwrap_or probe.total_memory_bytes default_memory)
unfolding compute
compute_budget probe h = (
  tcp_cap_fds (unwrap_or probe.total_memory_bytes default_memory)
      (unwrap_or probe.fd_limit default_fd_limit) _ h,
  tcp_cap_memory (unwrap_or probe.total_memory_bytes default_memory)
      (unwrap_or probe.fd_limit default_fd_limit) _ h,
)

div_mono : (a b p : ℕ) → 0 < p → a ≤ b → a / p ≤ b / p
div_mono a b p hp h =
    (le-div_iff_mul-le {x = a / p} {y = b} hp).1 (omega (arith, div-mul-le_self a p))

pub tcp_cap_mono :
    (memory memory' fds fds' per : ℕ)
    → memory ≤ memory'
    → fds ≤ fds'
    → tcp_cap memory fds per ≤ tcp_cap memory' fds' per
unfolding tcp_cap
tcp_cap_mono memory memory' fds fds' per hm hf =
    clamp_mono _ _ 128 65536 (omega arith)
      (omega (arith, div_mono (memory / 4) (memory' / 4) (max per 1) (omega arith) (omega arith)))

-- The buffers of a connection, by the link's MTU.
abbrev per_conn : Option ℕ → ℕ
per_conn link =
    let mtu = clamp (unwrap_or link fallback_mtu) min_mtu max_mtu in
    bytes_per_conn (clamp (mtu * relay_buf_per_mtu) relay_buf_min relay_buf_max)
      (clamp (mtu * copy_buf_per_mtu) copy_buf_min copy_buf_max)

-- More memory and more descriptors never lower the caps on connections and on UDP sessions.
pub compute_mono :
    (probe probe' : SystemProbe)
    → probe.link_mtu ≡ probe'.link_mtu
    → unwrap_or probe.total_memory_bytes default_memory
      ≤ unwrap_or probe'.total_memory_bytes default_memory
    → unwrap_or probe.fd_limit default_fd_limit ≤ unwrap_or probe'.fd_limit default_fd_limit
    → ((compute probe).max_tcp_connections ≤ (compute probe').max_tcp_connections)
      × ((compute probe).max_udp_sessions ≤ (compute probe').max_udp_sessions)
unfolding compute
compute_mono probe probe' same hm hf =
    let memory = unwrap_or probe.total_memory_bytes default_memory in
    let memory' = unwrap_or probe'.total_memory_bytes default_memory in
    let fds = unwrap_or probe.fd_limit default_fd_limit in
    let fds' = unwrap_or probe'.fd_limit default_fd_limit in
    let cap : tcp_cap memory fds (per_conn probe.link_mtu)
        ≤ tcp_cap memory' fds' (per_conn probe'.link_mtu) =
      subst (λ l. tcp_cap memory fds (per_conn probe.link_mtu) ≤ tcp_cap memory' fds' (per_conn l))
        same (tcp_cap_mono memory memory' fds fds' (per_conn probe.link_mtu) hm hf) in
    (cap, clamp_mono _ _ udp_session_min udp_session_max (omega arith) (omega arith))
