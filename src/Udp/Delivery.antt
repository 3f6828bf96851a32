-- ===== src/Udp/Delivery.antt =====
-- src/udp.rs: when `run_udp` hands a datagram to a session.
use cortado.Base.{
  ◌<◌, ◌≡◌, refl, ap, ◌∙◌, ◌⊎◌, inl, inr, true, false, ◌&&◌, [], ◌∷◌, ◌++◌, Option, none, some,
  arith, leb, nat_beq, length, lookup, lookup-insert,
}
use cortado.Addr.{socket_eq, socket_beq_iff}
use cortado.Udp.{
  Udp, UdpOptions, UdpMsg, Session, session_channel_depth, dns_port, is_live, fresh, spawn_session,
  send_to, forward, on_datagram, ingested, counted, on_packet,
}

send_to-delivers :
    (s : Session) (m : UdpMsg) (u : Udp)
    → s.closed ≡ false
    → length s.queue < session_channel_depth
    → lookup m.src (send_to (some s) m u).sessions
      ≡ some (record { queue = s.queue ++ (m.dst, m.payload) ∷ []; closed = false })
send_to-delivers s m u alive room =
    let shallow : leb session_channel_depth (length s.queue) ≡ false = ground arith in
    let t : Session = record { queue = s.queue ++ (m.dst, m.payload) ∷ []; closed = false } in
    let put = lookup-insert m.src m.src t u.sessions in
    rw (alive, shallow) (ground (arith, put, socket_beq_iff m.src m.src))

send_to-found :
    (o : Option Session) (s : Session) (m : UdpMsg) (u : Udp)
    → o ≡ some s
    → s.closed ≡ false
    → length s.queue < session_channel_depth
    → lookup m.src (send_to o m u).sessions
      ≡ some (record { queue = s.queue ++ (m.dst, m.payload) ∷ []; closed = false })
send_to-found o s m u e alive room =
    ap (λ (x : Option Session). lookup m.src (send_to x m u).sessions) e
    ∙ send_to-delivers s m u alive room

-- A datagram that is not sent to DNS, from a source whose session is alive and has room in its
-- channel, or that has no session while the table has room, is not dropped: it is the last in the
-- channel of that session.
pub on_packet-delivers :
    (opts : UdpOptions) (m : UdpMsg) (u : Udp) (s : Session)
    → (opts.dns_over_tcp && nat_beq m.dst.port dns_port) ≡ false
    → ((lookup m.src u.sessions ≡ some s)
        × (s.closed ≡ false)
        × (length s.queue < session_channel_depth))
      ⊎ ((lookup m.src u.sessions ≡ none) × (length u.sessions < opts.max_sessions) × (s ≡ fresh))
    → lookup m.src (on_packet opts m u).sessions
      ≡ some (record { queue = s.queue ++ (m.dst, m.payload) ∷ []; closed = false })
unfolding on_packet on_datagram forward spawn_session
on_packet-delivers opts m u s plain (inl (found, alive, room)) =
    let live : is_live (lookup m.src u.sessions) ≡ true = rw (found, alive) refl in
    let v : Udp = counted (ingested m) u in
    rw (plain, live) (send_to-found (lookup m.src u.sessions) s m v found alive room)
on_packet-delivers opts m u s plain (inr (absent, room, new)) =
    let dead : is_live (lookup m.src u.sessions) ≡ false = rw absent refl in
    let not_full : leb opts.max_sessions (length u.sessions) ≡ false = ground arith in
    let v : Udp = spawn_session m.src (counted (ingested m) u) in
    let put : lookup m.src v.sessions ≡ some s =
      ground (arith, lookup-insert m.src m.src fresh u.sessions, socket_beq_iff m.src m.src) in
    let alive : s.closed ≡ false = ap (λ (t : Session). t.closed) new in
    let empty : s.queue ≡ [] = ap (λ (t : Session). t.queue) new in
    let small : length s.queue < session_channel_depth = ground arith in
    rw (plain, dead, not_full) (send_to-found (lookup m.src v.sessions) s m v put alive small)
