-- ===== src/Udp.antt =====
-- src/udp.rs: `run_udp`, the table of UDP sessions and the DNS queries. One function for each arm of
-- the loop, and one for what each kind of task does between two waits. A spawned task is taken to
-- have begun at once.
pub mod Table
pub mod SessionTask
pub mod Relayed
pub mod Bounds
pub mod Delivery
mod Tests
use cortado.Base.{
  ℕ, suc, ◌+◌, ◌-◌, ◌≡◌, Bool, true, false, not, ◌&&◌, List, [], ◌∷◌, ◌++◌, Option, none, some,
  Bytes, Result, ok, err, leb, ltb, nat_beq, length, take, drop, lookup, remove, insert,
  if◌then◌else◌,
}
use cortado.Addr.{SocketAddr, socket_eq}
use cortado.Stats.{
  Stats, add, inc, dec, record_traffic, started, udp_packets, udp_errors, udp_active, bytes_tx,
  bytes_rx, dns_requests, dns_failures,
}

abbrev pub session_channel_depth : ℕ
session_channel_depth = 256

abbrev pub dns_port : ℕ
dns_port = 53

-- The sender of a session's channel: what is queued, and whether the task has dropped the receiver.
pub record Session : Type 0 where
  pub queue : List (SocketAddr × Bytes)
  pub closed : Bool

pub record UdpOptions : Type 0 where
  pub max_sessions : ℕ
  pub dns_over_tcp : Bool

-- Payload, source and destination.
pub record UdpMsg : Type 0 where
  pub payload : Bytes
  pub src : SocketAddr
  pub dst : SocketAddr

-- `permits` are those left in `dns_limit`, `queries` the tasks that hold one.
pub record Udp : Type 0 where
  pub sessions : List (SocketAddr × Session)
  pub permits : ℕ
  pub queries : List UdpMsg
  pub stats : Stats

unfoldable pub start : UdpOptions → Stats → Udp
start opts stats = record {
  sessions = [];
  permits = opts.max_sessions;
  queries = [];
  stats = stats;
}

abbrev pub counted : (Stats → Stats) → Udp → Udp
counted f u = record u { stats = f u.stats }

-- A session that has ended is removed; one that has replaced it meanwhile stays.
abbrev pub done_with : Option Session → SocketAddr → Udp → Udp
done_with none dead u = u
done_with (some s) dead u = if s.closed then record u { sessions = remove dead u.sessions } else u

unfoldable pub on_done : SocketAddr → Udp → Udp
on_done dead u = done_with (lookup dead u.sessions) dead u

abbrev pub is_live : Option Session → Bool
is_live none = false
is_live (some s) = not s.closed

abbrev pub fresh : Session
fresh = record { queue = []; closed = false }

unfoldable pub spawn_session : SocketAddr → Udp → Udp
spawn_session src u = counted (inc udp_active) (record u { sessions = insert src fresh u.sessions })

-- `try_send`: an error if the receiver is gone or the channel is full.
abbrev pub send_to : Option Session → UdpMsg → Udp → Udp
send_to none m u = u
send_to (some s) m u =
    if s.closed
    then counted (inc udp_errors) u
    else if leb session_channel_depth (length s.queue)
    then counted (inc udp_errors) u
    else record u {
      sessions = insert m.src (record s { queue = s.queue ++ (m.dst, m.payload) ∷ [] }) u.sessions;
    }

unfoldable pub forward : UdpMsg → Udp → Udp
forward m u = send_to (lookup m.src u.sessions) m u

unfoldable pub on_dns : UdpMsg → Udp → Udp
on_dns m u =
    if ltb 0 u.permits
    then counted (inc dns_requests)
        (record u { permits = u.permits - 1; queries = u.queries ++ m ∷ [] })
    else counted (λ s. inc dns_failures (inc udp_errors s)) u

unfoldable pub on_datagram : UdpOptions → UdpMsg → Udp → Udp
unfolding spawn_session forward
on_datagram opts m u =
    if is_live (lookup m.src u.sessions)
    then forward m u
    else if leb opts.max_sessions (length u.sessions)
    then counted (inc udp_errors) u
    else forward m (spawn_session m.src u)

abbrev pub ingested : UdpMsg → Stats → Stats
ingested m s =
    record_traffic m.dst.ip (length m.payload) (add bytes_tx (length m.payload) (inc udp_packets s))

unfoldable pub on_packet : UdpOptions → UdpMsg → Udp → Udp
unfolding on_dns on_datagram
on_packet opts m u =
    let v = counted (ingested m) u in
    if opts.dns_over_tcp && nat_beq m.dst.port dns_port then on_dns m v else on_datagram opts m v

-- The task of a session takes the next datagram from its channel.
abbrev pub taken : Option Session → SocketAddr → Udp → Udp
taken none src u = u
taken (some s) src u = take_from s s.queue src u
  where
    take_from : Session → List (SocketAddr × Bytes) → SocketAddr → Udp → Udp
    take_from s [] src u = u
    take_from s (m ∷ ms) src u = record u {
      sessions = insert src (record s { queue = ms }) u.sessions;
    }

unfoldable pub on_taken : SocketAddr → Udp → Udp
on_taken src u = taken (lookup src u.sessions) src u

-- The task of a session ends, with an error or without; then its address is sent to `done_rx`.
abbrev pub ended : Option Session → Bool → SocketAddr → Udp → Udp
ended none failed src u = u
ended (some s) failed src u = record u {
  sessions = insert src (record s { closed = true }) u.sessions;
  stats = dec udp_active (if failed then inc udp_errors u.stats else u.stats);
}

unfoldable pub on_ended : SocketAddr → Bool → Udp → Udp
on_ended src failed u = ended (lookup src u.sessions) failed src u

-- `dns_query_pooled` behind `resolve`: one of the queries ends, and its permit is returned.
unfoldable pub on_answered : ℕ → Bool → Udp → Udp
on_answered k failed u =
    if ltb k (length u.queries)
    then record u {
      permits = u.permits + 1;
      queries = take k u.queries ++ drop (suc k) u.queries;
      stats = if failed then inc dns_failures (inc udp_errors u.stats) else u.stats;
    }
    else u

-- The writer task, after a datagram was sent into the stack.
unfoldable pub on_reply : UdpMsg → Udp → Udp
on_reply m u =
    counted (λ s. record_traffic m.src.ip (length m.payload) (add bytes_rx (length m.payload) s)) u

pub data Step (opts : UdpOptions) : Udp → Udp → Type 0 where
  done : (u : Udp) (dead : SocketAddr) → Step opts u (on_done dead u)
  packet : (u : Udp) (m : UdpMsg) → Step opts u (on_packet opts m u)
  taking : (u : Udp) (src : SocketAddr) → Step opts u (on_taken src u)
  ending :
      (u : Udp) (src : SocketAddr) (failed : Bool)
      → is_live (lookup src u.sessions) ≡ true
      → Step opts u (on_ended src failed u)
  answering : (u : Udp) (k : ℕ) (failed : Bool) → Step opts u (on_answered k failed u)
  replying : (u : Udp) (m : UdpMsg) → Step opts u (on_reply m u)

pub data Steps (opts : UdpOptions) : Udp → Udp → Type 0 where
  here : (u : Udp) → Steps opts u u
  next : (u v w : Udp) → Steps opts u v → Step opts v w → Steps opts u w
