-- ===== src/Socks/Connect.antt =====
-- src/socks.rs: `tcp_connect`. The SOCKS5 client of tokio-socks, the time limit around it and the
-- socket options are parameters.
use cortado.Base.{ℕ, ◌*◌, Bool, true, false, Option, none, some, Bytes, Result, ok, err}
use cortado.Addr.{SocketAddr}
use cortado.Config.{ProxyConfig}

pub data ConnectError : Type 0 where
  timed_out connect_failed nodelay_failed : ConnectError

abbrev pub socket_buf_bytes : ℕ
socket_buf_bytes = 512 * 1024

-- `connect_with_password` and `connect`, within the time limit, and what is done to a stream.
pub record Client : Type 1 where
  pub Stream : Type 0
  pub connect_with_password :
      ℕ → SocketAddr → SocketAddr → Bytes → Bytes → Result ConnectError Stream
  pub connect : ℕ → SocketAddr → SocketAddr → Result ConnectError Stream
  pub set_nodelay : Stream → Option Stream
  pub set_recv_buffer_size : ℕ → Stream → Stream
  pub set_send_buffer_size : ℕ → Stream → Stream

module _ (c : Client) where
  unfoldable pub tune_socket : c.Stream → c.Stream
  tune_socket stream =
      c.set_send_buffer_size socket_buf_bytes (c.set_recv_buffer_size socket_buf_bytes stream)

  abbrev pub connected :
      Option Bytes → Option Bytes → ProxyConfig → SocketAddr → Result ConnectError c.Stream
  connected (some user) (some pass) proxy target =
      c.connect_with_password proxy.connect_timeout proxy.addr target user pass
  connected _ _ proxy target = c.connect proxy.connect_timeout proxy.addr target

  abbrev pub with_nodelay : Bool → c.Stream → Option c.Stream
  with_nodelay true stream = c.set_nodelay stream
  with_nodelay false stream = some stream

  unfoldable pub tcp_connect : ProxyConfig → SocketAddr → Result ConnectError c.Stream
  tcp_connect proxy target = elim (connected proxy.username proxy.password proxy target) [
    | err e ↦ err e
    | ok stream ↦ elim (with_nodelay proxy.tcp_nodelay stream) [
      | none ↦ err nodelay_failed
      | some ready ↦ ok (tune_socket ready)
    ]
  ]
