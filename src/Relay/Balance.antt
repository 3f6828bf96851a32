-- ===== src/Relay/Balance.antt =====
-- src/lib.rs: every relayed flow is counted once as opened and closed, and is not active afterwards.
use cortado.Base.{ℕ, ◌+◌, ◌^◌, ◌<◌, ◌≡◌, arith}
use cortado.Addr.{IpAddr, v4, v6, SocketAddr}
use cortado.Net.RouteTable.{RouteTable, RouteDecision, direct, proxy, decide}
use cortado.Stats.{
  Stats, Counter, inc, add, dec, guarded, record_traffic, tcp_opened, tcp_closed, tcp_errors,
  tcp_active, route_direct, route_proxy,
}
use cortado.Relay.{Flow, connect_failed, broken, copied, classified, outcome, relay_tcp_connection}

-- A flow that failed counts as one error.
abbrev pub is_error : Flow → ℕ
is_error (connect_failed err) = 1
is_error broken = 1
is_error (copied tx rx) = 0

-- What the counters say after the flow, against those before it.
pub record Counted (flow : Flow) (s t : Stats) : Type 0 where
  pub opened : t tcp_opened ≡ s tcp_opened + 1
  pub closed : t tcp_closed ≡ s tcp_closed + 1
  pub active : t tcp_active ≡ s tcp_active
  pub errors : t tcp_errors ≡ s tcp_errors + is_error flow
  pub routed : t route_direct + t route_proxy ≡ s route_direct + s route_proxy + 1

-- No counter is about to wrap.
abbrev pub HasRoom : Stats → Type 0
HasRoom s = (c : Counter) → s c + 1 < 2 ^ 64

classified-Counted :
    (d : RouteDecision) (ip : IpAddr) (port : ℕ) (flow : Flow) (s : Stats)
    → HasRoom s
    → Counted flow s (
        guarded tcp_active
          (λ t. outcome (record { ip = ip; port = port }) flow (classified d t))
          (inc tcp_opened s))
unfolding guarded inc add dec record_traffic
classified-Counted direct ip port (connect_failed err) s h = grind (arith, h)
classified-Counted direct ip port broken s h = grind (arith, h)
classified-Counted direct (v4 a) port (copied tx rx) s h = grind (arith, h)
classified-Counted direct (v6 a) port (copied tx rx) s h = grind (arith, h)
classified-Counted proxy ip port (connect_failed err) s h = grind (arith, h)
classified-Counted proxy ip port broken s h = grind (arith, h)
classified-Counted proxy (v4 a) port (copied tx rx) s h = grind (arith, h)
classified-Counted proxy (v6 a) port (copied tx rx) s h = grind (arith, h)

-- Unless a counter is about to wrap, a flow is counted once as opened, once as closed and once as
-- direct or proxied, it is an error exactly when the connect or the copying failed, and afterwards as
-- many flows are active as before.
pub relay_tcp_connection-Counted :
    (routes : RouteTable) (dst : SocketAddr) (flow : Flow) (s : Stats)
    → HasRoom s
    → Counted flow s (relay_tcp_connection routes dst flow s)
unfolding relay_tcp_connection
relay_tcp_connection-Counted routes dst flow s h =
    classified-Counted (decide routes dst.ip) dst.ip dst.port flow s h
