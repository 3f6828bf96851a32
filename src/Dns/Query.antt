-- ===== src/Dns/Query.antt =====
-- src/dns.rs: the reader task of a connection, one attempt at a query, and `resolve`.
use cortado.Base.{
  ℕ, zero, suc, ◌%◌, ◌^◌, Bool, true, false, List, [], ◌∷◌, ◌++◌, Option, none, some, Bytes, Result,
  ok, err, any, leb, ltb, length, take, get_or, is_empty, lookup, remove, insert, nat_eq, nat_beq,
  if◌then◌else◌,
}
use cortado.Addr.{SocketAddr, to_be_bytes, from_be_bytes}
use cortado.Dns.Conn.{Conn, Sender, orphan, waiter, max_dns_message, update}
use cortado.Dns.Pool.{
  DnsPool, DnsError, write_failed, closed_before_reply, query_timed_out, query_too_short,
  query_too_large, Acquired, acquire, open_and_register,
}

-- What a round of the reader meets: the idle timeout, a read of the length that fails or ends, or the
-- two bytes of the length and all that arrives behind them.
pub data ReaderEvent : Type 0 where
  quiet closed : ReaderEvent
  message : ℕ → ℕ → Bytes → ReaderEvent

-- What the reader did: it goes on, it goes on and has sent a body to the sender, or it has ended.
pub data Round : Type 0 where
  running ended : Conn → Round
  delivered : Sender → Bytes → Conn → Round

abbrev pub end_reader : Conn → Round
end_reader c = ended (record c { alive = false; inflight = [] })

abbrev pub deliver : Option Sender → ℕ → Bytes → Conn → Round
deliver none id body c = running c
deliver (some tx) id body c = delivered tx body (record c { inflight = remove id c.inflight })

abbrev pub body_id : Bytes → ℕ
body_id body = from_be_bytes (take 2 body)

unfoldable pub reader_step : ReaderEvent → Conn → Round
reader_step quiet c = if is_empty c.inflight then end_reader c else running c
reader_step closed c = end_reader c
reader_step (message hi lo arriving) c =
    let len = from_be_bytes (hi ∷ lo ∷ []) in
    let body = take len arriving in
    if ltb len 2
    then end_reader c
    else if leb len (length arriving)
    then deliver (lookup (body_id body) c.inflight) (body_id body) body c
    else end_reader c

pub data Outcome : Type 0 where
  replied : Bytes → Outcome
  retry fatal : DnsError → Outcome

-- How the wait for the receiver of query `n` ends.
pub data Waited : Type 0 where
  received : Bytes → Waited
  sender_dropped elapsed : Waited

abbrev pub is_waiter : ℕ → Sender → Bool
is_waiter n orphan = false
is_waiter n (waiter m) = nat_beq m n

abbrev pub is_awaited : ℕ → List (ℕ × Sender) → Bool
is_awaited n m = any (λ e. is_waiter n e.1) m

abbrev pub after_round : ℕ → Round → (Conn → Waited × Conn) → Waited × Conn
after_round n (running c) next = if is_awaited n c.inflight then next c else (sender_dropped, c)
after_round n (ended c) next = (sender_dropped, c)
after_round n (delivered tx body c) next =
    if is_waiter n tx
    then (received body, c)
    else if is_awaited n c.inflight
    then next c
    else (sender_dropped, c)

-- The rounds of the reader until the query's timeout.
unfoldable pub wait : ℕ → List ReaderEvent → Conn → Waited × Conn
wait n [] c = (elapsed, c)
wait n (ev ∷ evs) c = after_round n (reader_step ev c) (wait n evs)

abbrev pub set : ℕ → ℕ → Bytes → Bytes
set i b [] = []
set zero b (c ∷ cs) = b ∷ cs
set (suc i) b (c ∷ cs) = c ∷ set i b cs

-- `query.len() as u16`, the query, and the id in its first two bytes.
unfoldable pub framed : Bytes → ℕ → Bytes
framed query id =
    let id_bytes = to_be_bytes 2 id in
    set 3 (get_or id_bytes 1 0)
      (set 2 (get_or id_bytes 0 0) (to_be_bytes 2 (length query % 2 ^ 16) ++ query))

unfoldable pub restored : Bytes → Bytes → Bytes
restored query resp = set 1 (get_or query 1 0) (set 0 (get_or query 0 0) resp)

-- What meets one attempt: its number, whether the connect and the write succeed, the time, and the
-- rounds of the reader before the timeout.
pub record Trial : Type 0 where
  pub ticket : ℕ
  pub opens : Bool
  pub writes : Bool
  pub now : ℕ
  pub events : List ReaderEvent

abbrev pub finished : Bytes → ℕ → Waited × Conn → Outcome × Conn
finished query id (received resp, c) = (replied (restored query resp), c)
finished query id (sender_dropped, c) =
    (retry closed_before_reply, record c { inflight = remove id c.inflight })
finished query id (elapsed, c) =
    (fatal query_timed_out, record c { inflight = remove id c.inflight })

-- `attempt` behind the acquisition, on the connection and with the id that it gave.
unfoldable pub exchange : Trial → Bytes → ℕ → Conn → Outcome × Conn
unfolding wait framed reader_step
exchange t query id c =
    let entered = record c { inflight = insert id (waiter t.ticket) c.inflight } in
    let sending = record entered { sent = entered.sent ++ framed query id; last_used = t.now } in
    if t.writes then finished query id (wait t.ticket t.events sending) else (
      retry write_failed,
      record entered { alive = false; inflight = remove id entered.inflight },
    )

abbrev pub put_conn : ℕ → Outcome × Conn → DnsPool → Outcome × DnsPool
put_conn i (o, c) p = (o, record p { heap = update p.heap i c })

abbrev pub on_acquired : Trial → Bytes → Acquired × DnsPool → Outcome × DnsPool
on_acquired t query (err e, p) = (retry e, p)
on_acquired t query (ok (i, id, reused), p) = put_conn i (exchange t query id (p.heap i)) p

unfoldable pub attempt : SocketAddr → Bytes → Bool → Trial → DnsPool → Outcome × DnsPool
unfolding exchange
attempt server query force_new t p =
    on_acquired t query (
      if force_new
      then open_and_register server t.opens t.now p
      else acquire server t.opens t.now p)

abbrev pub second : Outcome × DnsPool → Result DnsError Bytes × DnsPool
second (replied resp, p) = (ok resp, p)
second (retry e, p) = (err e, p)
second (fatal e, p) = (err e, p)

abbrev pub first :
    Outcome × DnsPool
    → (DnsPool → Result DnsError Bytes × DnsPool)
    → Result DnsError Bytes × DnsPool
first (replied resp, p) again = (ok resp, p)
first (retry e, p) again = again p
first (fatal e, p) again = (err e, p)

-- Two attempts, the second on a connection of its own.
unfoldable pub resolve :
    SocketAddr → Bytes → Trial → Trial → DnsPool → Result DnsError Bytes × DnsPool
unfolding attempt
resolve server query t1 t2 p =
    if ltb (length query) 12
    then (err query_too_short, p)
    else if ltb max_dns_message (length query)
    then (err query_too_large, p)
    else first (attempt server query false t1 p) λ q. second (attempt server query true t2 q)
