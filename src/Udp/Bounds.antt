-- ===== src/Udp/Bounds.antt =====
-- src/udp.rs: the table, the channels and the DNS queries stay within their limits.
use cortado.Base.{
  ℕ, suc, ◌+◌, ◌≤◌, ◌<◌, ◌≡◌, refl, ap, inl, inr, Bool, true, false, ◌&&◌, List, [], ◌∷◌, ◌++◌,
  Option, none, some, arith, leb, ltb, nat_beq, Bytes, length, take, drop, lookup, length-append,
  length-take, length-drop, Bool-cases,
}
use cortado.Addr.{SocketAddr, socket_eq}
use cortado.Stats.{Stats}
use cortado.Udp.{
  Udp, UdpOptions, UdpMsg, Session, session_channel_depth, dns_port, start, done_with, on_done,
  is_live, spawn_session, send_to, forward, on_dns, on_datagram, ingested, counted, on_packet,
  taken, on_taken, ended, on_ended, on_answered, on_reply, Step, Steps, done, packet, taking,
  ending, answering, replying, here, next,
}
use cortado.Udp.Table.{SessionsFit, put_existing, put_new, drop_one}

send_to-Fit :
    (most : ℕ) (o : Option Session) (m : UdpMsg) (u : Udp)
    → lookup m.src u.sessions ≡ o
    → SessionsFit most u.sessions
    → SessionsFit most (send_to o m u).sessions
send_to-Fit most none m u e h = h
send_to-Fit most (some s) m u e h = elim (Bool-cases s.closed) [
  | inl gone ↦ rw gone h
  | inr open_still ↦ elim (Bool-cases (leb session_channel_depth (length s.queue))) [
    | inl full ↦ rw (open_still, full) h
    | inr room ↦
        rw (open_still, room)
          (put_existing most u.sessions m.src s
            (record { queue = s.queue ++ (m.dst, m.payload) ∷ []; closed = false }) h e
            (ground (arith, length-append s.queue ((m.dst, m.payload) ∷ []))))
  ]
]

-- The whole state within its limits: every permit is free or held by a query.
record IsBounded (opts : UdpOptions) (u : Udp) : Type 0 where
  sessions_fit : SessionsFit opts.max_sessions u.sessions
  permits_held : u.permits + length u.queries ≡ opts.max_sessions

on_datagram-Fit :
    (opts : UdpOptions) (m : UdpMsg) (u : Udp)
    → SessionsFit opts.max_sessions u.sessions
    → SessionsFit opts.max_sessions (on_datagram opts m u).sessions
unfolding on_datagram forward spawn_session
on_datagram-Fit opts m u h = elim (Bool-cases (is_live (lookup m.src u.sessions))) [
  | inl live ↦ rw live (send_to-Fit opts.max_sessions (lookup m.src u.sessions) m u refl h)
  | inr dead ↦ elim (Bool-cases (leb opts.max_sessions (length u.sessions))) [
    | inl full ↦ rw (dead, full) h
    | inr room ↦
        let v = spawn_session m.src u in
        rw (dead, room)
          (send_to-Fit opts.max_sessions (lookup m.src v.sessions) m v refl
            (put_new opts.max_sessions u.sessions m.src h (ground arith)))
  ]
]

send_to-permits :
    (o : Option Session) (m : UdpMsg) (u : Udp)
    → ((send_to o m u).permits ≡ u.permits) × ((send_to o m u).queries ≡ u.queries)
send_to-permits none m u = (refl, refl)
send_to-permits (some s) m u = ground arith

on_datagram-permits :
    (opts : UdpOptions) (m : UdpMsg) (u : Udp)
    → ((on_datagram opts m u).permits ≡ u.permits) × ((on_datagram opts m u).queries ≡ u.queries)
unfolding on_datagram forward spawn_session
on_datagram-permits opts m u =
    let v = spawn_session m.src u in
    ground (
      arith,
      send_to-permits (lookup m.src u.sessions) m u,
      send_to-permits (lookup m.src v.sessions) m v,
    )

on_dns-IsBounded :
    (opts : UdpOptions) (m : UdpMsg) (u : Udp) → IsBounded opts u → IsBounded opts (on_dns m u)
unfolding on_dns
on_dns-IsBounded opts m u h = elim (Bool-cases (ltb 0 u.permits)) [
  | inl some_left ↦ rw some_left (record {
    sessions_fit = h.sessions_fit;
    permits_held =
        let held = h.permits_held in
        let more = length-append u.queries (m ∷ []) in ground (arith, held, more);
  })
  | inr none_left ↦
      rw none_left (record { sessions_fit = h.sessions_fit; permits_held = h.permits_held })
]

on_packet-IsBounded :
    (opts : UdpOptions) (m : UdpMsg) (u : Udp)
    → IsBounded opts u
    → IsBounded opts (on_packet opts m u)
unfolding on_packet
on_packet-IsBounded opts m u h =
    let v : Udp = counted (ingested m) u in
    let hv : IsBounded opts v = record {
      sessions_fit = h.sessions_fit;
      permits_held = h.permits_held;
    } in
    elim (Bool-cases (opts.dns_over_tcp && nat_beq m.dst.port dns_port)) [
      | inl dns ↦ rw dns (on_dns-IsBounded opts m v hv)
      | inr plain ↦
          let (p, q) = on_datagram-permits opts m v in
          let held = h.permits_held in
          rw plain (record {
            sessions_fit = on_datagram-Fit opts m v h.sessions_fit;
            permits_held = rw (p, q) held;
          })
    ]

done_with-IsBounded :
    (opts : UdpOptions) (o : Option Session) (dead : SocketAddr) (u : Udp)
    → IsBounded opts u
    → IsBounded opts (done_with o dead u)
done_with-IsBounded opts none dead u h = h
done_with-IsBounded opts (some s) dead u h = elim (Bool-cases s.closed) [
  | inr open_still ↦ rw open_still h
  | inl gone ↦ rw gone (record {
    sessions_fit = drop_one opts.max_sessions u.sessions dead h.sessions_fit;
    permits_held = h.permits_held;
  })
]

taken-IsBounded :
    (opts : UdpOptions) (o : Option Session) (src : SocketAddr) (u : Udp)
    → lookup src u.sessions ≡ o
    → IsBounded opts u
    → IsBounded opts (taken o src u)
taken-IsBounded opts none src u e h = h
taken-IsBounded opts (some s) src u e h = go s.queue refl
  where
    go : (q : List (SocketAddr × Bytes)) → s.queue ≡ q → IsBounded opts (taken (some s) src u)
    go [] eq = rw eq h
    go (m ∷ ms) eq =
        let deep = h.sessions_fit.shallow src s e in
        let whole : length s.queue ≡ suc (length ms) =
          ap (λ (l : List (SocketAddr × Bytes)). length l) eq in
        rw eq (record {
          sessions_fit =
              put_existing opts.max_sessions u.sessions src s (record s { queue = ms })
                h.sessions_fit e (omega arith);
          permits_held = h.permits_held;
        })

ended-IsBounded :
    (opts : UdpOptions) (o : Option Session) (failed : Bool) (src : SocketAddr) (u : Udp)
    → lookup src u.sessions ≡ o
    → IsBounded opts u
    → IsBounded opts (ended o failed src u)
ended-IsBounded opts none failed src u e h = h
ended-IsBounded opts (some s) failed src u e h = record {
  sessions_fit =
      put_existing opts.max_sessions u.sessions src s (record s { closed = true }) h.sessions_fit e
        (h.sessions_fit.shallow src s e);
  permits_held = h.permits_held;
}

on_answered-IsBounded :
    (opts : UdpOptions) (k : ℕ) (failed : Bool) (u : Udp)
    → IsBounded opts u
    → IsBounded opts (on_answered k failed u)
unfolding on_answered
on_answered-IsBounded opts k failed u h = elim (Bool-cases (ltb k (length u.queries))) [
  | inr none_there ↦ rw none_there h
  | inl there ↦
      let held = h.permits_held in
      let inside : k < length u.queries = ground arith in
      rw there (record {
        sessions_fit = h.sessions_fit;
        permits_held = omega (
          arith,
          held,
          length-append (take k u.queries) (drop (suc k) u.queries),
          length-take k u.queries,
          length-drop (suc k) u.queries,
        );
      })
]

Step-IsBounded :
    (opts : UdpOptions) (v w : Udp) → Step opts v w → IsBounded opts v → IsBounded opts w
unfolding on_done on_taken on_ended on_reply
Step-IsBounded opts v w (done _ dead) h = done_with-IsBounded opts (lookup dead v.sessions) dead v h
Step-IsBounded opts v w (packet _ m) h = on_packet-IsBounded opts m v h
Step-IsBounded opts v w (taking _ src) h = taken-IsBounded opts (lookup src v.sessions) src v refl h
Step-IsBounded opts v w (ending _ src failed live) h =
    ended-IsBounded opts (lookup src v.sessions) failed src v refl h
Step-IsBounded opts v w (answering _ k failed) h = on_answered-IsBounded opts k failed v h
Step-IsBounded opts v w (replying _ m) h = record {
  sessions_fit = h.sessions_fit;
  permits_held = h.permits_held;
}

Steps-IsBounded :
    (opts : UdpOptions) (v w : Udp) → Steps opts v w → IsBounded opts v → IsBounded opts w
Steps-IsBounded opts v w (here _) h = h
Steps-IsBounded opts v w (next _ u _ before step) h =
    Step-IsBounded opts u w step (Steps-IsBounded opts v u before h)

-- Whatever arrives and however the tasks proceed, there are never more sessions than allowed, no
-- channel holds more than its depth, and the queries in progress and the free permits are together as
-- many as the sessions allowed.
pub Steps-sessions-le :
    (opts : UdpOptions) (stats : Stats) (u : Udp)
    → Steps opts (start opts stats) u
    → (length u.sessions ≤ opts.max_sessions)
      × (u.permits + length u.queries ≡ opts.max_sessions)
      × ((k : SocketAddr) (s : Session)
          → lookup k u.sessions ≡ some s
          → length s.queue ≤ session_channel_depth)
unfolding start lookup
Steps-sessions-le opts stats u run =
    let h = Steps-IsBounded opts (start opts stats) u run (record {
      sessions_fit = record { distinct = tt; few = omega arith; shallow = λ k s e. ground arith };
      permits_held = omega arith;
    }) in
    (h.sessions_fit.few, h.permits_held, h.sessions_fit.shallow)
