-- ===== src/Udp/Tests.antt =====
-- Runs of src/udp.rs: a datagram that opens a session, and a DNS query.
use cortado.Base.{
  ℕ, ◌+◌, ◌≤◌, ◌≡◌, refl, inr, true, false, List, [], ◌∷◌, some, ok, All, arith, length, lookup,
  insert, remove,
}
use cortado.Addr.{v4, SocketAddr, socket_eq, to_be_bytes, from_be_bytes}
use cortado.Socks.Datagram.{encode_udp, decode_udp, decode_ip}
use cortado.Stats.{started}
use cortado.Udp.{
  Udp, UdpOptions, UdpMsg, Session, fresh, start, on_packet, on_datagram, forward, spawn_session,
  on_dns, session_channel_depth, Steps, here, next, packet,
}
use cortado.Udp.Bounds.{Steps-sessions-le}
use cortado.Udp.SessionTask.{
  Arm, outbound, received, control_read, idle, channel_closed, on_arm, opened, run_arms,
  session_task,
}
use cortado.Udp.Relayed.{Fits, Ran, run_arms-Ran}
use cortado.Udp.Delivery.{on_packet-delivers}

abbrev opts : UdpOptions
opts = record { max_sessions = 2; dns_over_tcp = true }

abbrev client : SocketAddr
client = record { ip = v4 0x0a000002; port = 40000 }

abbrev datagram : ℕ → UdpMsg
datagram port = record {
  payload = 1 ∷ 2 ∷ [];
  src = client;
  dst = record { ip = v4 0x08080808; port = port };
}

abbrev both : Udp
both = on_packet opts (datagram 53) (on_packet opts (datagram 443) (start opts started))

two_packets : Steps opts (start opts started) both
two_packets =
    let u = start opts started in
    let v = on_packet opts (datagram 443) u in
    next u v both (next u u v (here u) (packet u (datagram 443))) (packet v (datagram 53))

Steps-sessions-le_example :
    (length both.sessions ≤ 2)
    × (both.permits + length both.queries ≡ 2)
    × ((k : SocketAddr) (s : Session)
        → lookup k both.sessions ≡ some s
        → length s.queue ≤ session_channel_depth)
Steps-sessions-le_example = Steps-sessions-le opts started both two_packets

on_packet-delivers_example :
    lookup client (on_packet opts (datagram 443) (start opts started)).sessions
    ≡ some (record {
      queue = (record { ip = v4 0x08080808; port = 443 }, 1 ∷ 2 ∷ []) ∷ [];
      closed = false;
    })
unfolding start lookup
on_packet-delivers_example =
    on_packet-delivers opts (datagram 443) (start opts started) fresh refl
      (inr (refl, omega arith, refl))

counts : (length both.sessions ≡ 1) × (both.permits ≡ 1)
unfolding on_packet on_datagram forward spawn_session on_dns start lookup insert remove
counts = (refl, refl)

abbrev remote : SocketAddr
remote = record { ip = v4 0x08080808; port = 443 }

abbrev arms : List Arm
arms =
    outbound remote (1 ∷ 2 ∷ []) true
    ∷ received (encode_udp remote (3 ∷ []) []) true
    ∷ control_read 5
    ∷ idle
    ∷ channel_closed
    ∷ []

arms-Fits : All Fits arms
arms-Fits = (record { ip_fits = omega arith; port_fits = omega arith }, (tt, (tt, (tt, (tt, tt)))))

run_arms-Ran_example : Ran client arms opened (run_arms client arms opened)
run_arms-Ran_example = run_arms-Ran client arms opened arms-Fits

-- The session ends with the idle time, and has relayed a datagram each way.
session_over : (session_task (some remote) (λ a. true) (λ a. true) client arms).0 ≡ some (ok tt)
unfolding session_task run_arms on_arm encode_udp decode_udp decode_ip to_be_bytes from_be_bytes
session_over = refl
