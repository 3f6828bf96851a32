-- ===== src/Relay/Tests.antt =====
-- Runs of src/lib.rs: a flow that was relayed, and the text of a failed connect.
use cortado.Base.{◌≡◌, refl, true, [], codes, arith}
use cortado.Addr.{v4, SocketAddr}
use cortado.Net.RouteTable
use cortado.Stats.{started}
use cortado.Relay.{copied, is_handshake_failure, relay_tcp_connection}
use cortado.Relay.Balance.{Counted, relay_tcp_connection-Counted}

abbrev dst : SocketAddr
dst = record { ip = v4 0x08080808; port = 443 }

relay_tcp_connection-Counted_example :
    Counted
      (copied 100 2000)
      started
      (relay_tcp_connection (RouteTable.new []) dst (copied 100 2000) started)
relay_tcp_connection-Counted_example =
    relay_tcp_connection-Counted (RouteTable.new []) dst (copied 100 2000) started
      (λ c. omega arith)

-- A timeout of the connect counts as a failed handshake.
timeout_counts : is_handshake_failure (codes "SOCKS5 connect timed out") ≡ true
unfolding is_handshake_failure
timeout_counts = refl
