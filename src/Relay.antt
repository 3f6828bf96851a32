-- ===== src/Relay.antt =====
-- src/lib.rs: `relay_tcp_connection`, by what it does to the counters. The connect through the proxy
-- and the copying of bytes are tokio's, so that what they came to is an argument.
pub mod Balance
mod Tests
use cortado.Base.{
  ℕ, ◌+◌, ◌≡◌, Bool, true, false, ◌&&◌, ◌||◌, List, [], ◌∷◌, Bytes, codes, leb, map, nat_beq,
  if◌then◌else◌,
}
use cortado.Text.Split.{contains_text}
use cortado.Addr.{SocketAddr}
use cortado.Net.RouteTable.{RouteTable, RouteDecision, direct, proxy, decide}
use cortado.Stats.{
  Stats, inc, add, guarded, record_traffic, tcp_opened, tcp_closed, tcp_errors, tcp_active,
  bytes_tx, bytes_rx, conn_failures, socks_handshake_failures, route_direct, route_proxy,
}

-- The connect failed with that error text, or the copying broke, or it ended after so many bytes.
pub data Flow : Type 0 where
  connect_failed : Bytes → Flow
  broken : Flow
  copied : ℕ → ℕ → Flow

abbrev pub to_lower : ℕ → ℕ
to_lower c = if leb b'A' c && leb c b'Z' then c + 32 else c

unfoldable pub is_handshake_failure : Bytes → Bool
is_handshake_failure err =
    let text = map to_lower err in
    contains_text (codes "socks") text
    || (contains_text (codes "authentication") text || contains_text (codes "handshake") text)

abbrev pub classified : RouteDecision → Stats → Stats
classified direct s = inc route_direct s
classified proxy s = inc route_proxy s

abbrev pub outcome : SocketAddr → Flow → Stats → Stats
outcome dst (connect_failed err) s =
    let t = inc conn_failures (inc tcp_errors (inc tcp_closed s)) in
    if is_handshake_failure err then inc socks_handshake_failures t else t
outcome dst broken s = inc tcp_errors (inc tcp_closed s)
outcome dst (copied tx rx) s =
    record_traffic dst.ip (tx + rx) (add bytes_rx rx (add bytes_tx tx (inc tcp_closed s)))

unfoldable pub relay_tcp_connection : RouteTable → SocketAddr → Flow → Stats → Stats
unfolding is_handshake_failure
relay_tcp_connection routes dst flow s =
    guarded tcp_active (λ t. outcome dst flow (classified (decide routes dst.ip) t))
      (inc tcp_opened s)
