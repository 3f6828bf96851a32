-- ===== src/Udp/SessionTask.antt =====
-- src/udp.rs: `session_task`, what a session exchanges with the relay of the proxy. The association and
-- the socket are tokio's and the proxy's: what they come to is an argument, and so is which arm of the
-- `select!` is taken each time.
use cortado.Base.{
  ℕ, zero, suc, Bool, true, false, List, [], ◌∷◌, ◌++◌, Option, none, some, Bytes, Result, ok, err,
}
use cortado.Addr.{v4, v6, SocketAddr}
use cortado.Socks.Datagram.{encode_udp, decode_udp}

pub data SessionError : Type 0 where
  associate_failed bind_failed connect_failed send_failed receive_failed control_failed :
      SessionError

-- What an arm has come to: a datagram to relay and whether it could be sent; the end of the channel;
-- a datagram from the relay and whether the reply channel is open; a failed receive; so many bytes on
-- the control connection, or its failure; the idle time has passed.
pub data Arm : Type 0 where
  outbound : SocketAddr → Bytes → Bool → Arm
  channel_closed : Arm
  received : Bytes → Bool → Arm
  receive_error : Arm
  control_read : ℕ → Arm
  control_error : Arm
  idle : Arm

-- The datagrams that were sent to the relay, the buffer they are encoded in, and the replies: data,
-- remote and source.
pub record Exchange : Type 0 where
  pub sent : List Bytes
  pub enc_buf : Bytes
  pub replies : List (Bytes × (SocketAddr × SocketAddr))

abbrev pub Turn : Type 0
Turn = Option (Result SessionError (Unit {0})) × Exchange

abbrev pub encoded : SocketAddr → Bytes → Exchange → Exchange
encoded dst payload x = record x { enc_buf = encode_udp dst payload x.enc_buf }

abbrev pub put_out : Bytes → Exchange → Exchange
put_out datagram x = record x { sent = x.sent ++ datagram ∷ [] }

abbrev pub on_reply : SocketAddr → Bool → Option (SocketAddr × Bytes) → Exchange → Turn
on_reply src accepted none x = (none, x)
on_reply src true (some (remote, payload)) x =
    (none, record x { replies = x.replies ++ (payload, (remote, src)) ∷ [] })
on_reply src false (some (remote, payload)) x = (some (ok tt), x)

-- What one turn of the loop returns, if it ends it.
unfoldable pub on_arm : SocketAddr → Arm → Exchange → Turn
on_arm src (outbound dst payload true) x =
    let y = encoded dst payload x in (none, put_out y.enc_buf y)
on_arm src (outbound dst payload false) x = (some (err send_failed), encoded dst payload x)
on_arm src channel_closed x = (some (ok tt), x)
on_arm src (received datagram accepted) x = on_reply src accepted (decode_udp datagram) x
on_arm src receive_error x = (some (err receive_failed), x)
on_arm src (control_read zero) x = (some (ok tt), x)
on_arm src (control_read (suc n)) x = (none, x)
on_arm src control_error x = (some (err control_failed), x)
on_arm src idle x = (some (ok tt), x)

-- The loop over the arms that are taken; none where it still waits for the next one.
abbrev pub after : Turn → (Exchange → Turn) → Turn
after (none, x) next = next x
after (some r, x) next = (some r, x)

unfoldable pub run_arms : SocketAddr → List Arm → Exchange → Turn
run_arms src [] x = (none, x)
run_arms src (a ∷ arms) x = after (on_arm src a x) (λ y. run_arms src arms y)

abbrev pub bind_addr : SocketAddr → SocketAddr
bind_addr relay = elim relay.ip [
  | v4 a ↦ record { ip = v4 0; port = 0 }
  | v6 a ↦ record { ip = v6 0; port = 0 }
]

abbrev pub opened : Exchange
opened = record { sent = []; enc_buf = []; replies = [] }

abbrev pub on_socket : Bool → Bool → SocketAddr → List Arm → Turn
on_socket false connects src arms = (some (err bind_failed), opened)
on_socket true false src arms = (some (err connect_failed), opened)
on_socket true true src arms = run_arms src arms opened

-- `binds` and `connects` are whether the local socket can be bound to an address of the relay's family
-- and connected to the relay.
unfoldable pub session_task :
    Option SocketAddr → (SocketAddr → Bool) → (SocketAddr → Bool) → SocketAddr → List Arm → Turn
session_task none binds connects src arms = (some (err associate_failed), opened)
session_task (some relay) binds connects src arms =
    on_socket (binds (bind_addr relay)) (connects relay) src arms
