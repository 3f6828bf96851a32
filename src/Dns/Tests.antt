-- ===== src/Dns/Tests.antt =====
-- Runs of src/dns.rs: a query over a fresh connection, a second over the same, and a sweep.
use cortado.Base.{
  ℕ, ◌+◌, ◌≤◌, ◌≡◌, refl, true, [], ◌∷◌, none, some, Bytes, ok, arith, length, lookup, drop, take,
  nat_eq, ◌⊎◌, insert, remove,
}
use cortado.Addr.{v4, SocketAddr, socket_eq, to_be_bytes, from_be_bytes}
use cortado.Config.{ProxyConfig}
use cortado.Dns.Conn.{
  Conn, orphan, waiter, allocate_id, find_vacant, max_conns_per_target, max_dns_message,
}
use cortado.Dns.Alloc.{allocate_id-IsAllocated, IsAllocated}
use cortado.Dns.Pool.{
  DnsPool, new, bucket_of, open_conn, registered, acquire, try_reuse, register, retain_alive,
  open_and_register, scan, acquire_locked,
}
use cortado.Dns.Interleaved.{
  World, Steps, done, next, force, load, finish, start, free, checked, connecting, second,
  Steps-bucket_of-le,
}
use cortado.Dns.Query.{
  Trial, message, exchange, replied, framed, restored, resolve, attempt, wait, reader_step, body_id,
}
use cortado.Dns.Replies.{IsAnswer, exchange-IsAnswer, exchange-released, body_length}
use cortado.Dns.Resolve.{exchange-answers, AnswersWith, resolve-AnswersWith}

abbrev proxy : ProxyConfig
proxy = record {
  addr = record { ip = v4 0x7f000001; port = 1080 };
  username = none;
  password = none;
  connect_timeout = 10000;
  tcp_nodelay = true;
}

abbrev server : SocketAddr
server = record { ip = v4 0x01010101; port = 53 }

abbrev conn : Conn
conn = record {
  inflight = (0, waiter 9) ∷ [];
  next_id = 0;
  alive = true;
  last_used = 100;
  sent = [];
  via = proxy;
}

allocated :
    allocate_id conn ≡ (some 1, record conn { inflight = (1, orphan) ∷ conn.inflight; next_id = 2 })
unfolding allocate_id find_vacant lookup
allocated = refl

allocate_id-IsAllocated_example :
    IsAllocated conn 1 (record conn { inflight = (1, orphan) ∷ conn.inflight; next_id = 2 })
allocate_id-IsAllocated_example =
    allocate_id-IsAllocated conn
      (record conn { inflight = (1, orphan) ∷ conn.inflight; next_id = 2 }) 1 allocated

-- A header of twelve bytes with the id 0xabcd, and the answer that comes back under the id 1.
abbrev query : Bytes
query = 0xab ∷ 0xcd ∷ 1 ∷ 0 ∷ 0 ∷ 1 ∷ 0 ∷ 0 ∷ 0 ∷ 0 ∷ 0 ∷ 0 ∷ []

abbrev trial : Trial
trial = record {
  ticket = 7;
  opens = true;
  writes = true;
  now = 200;
  events = message 0 2 (0 ∷ 5 ∷ []) ∷ message 0 3 (0 ∷ 1 ∷ 42 ∷ []) ∷ [];
}

only_nine : (j : ℕ) → lookup j conn.inflight ≡ some (waiter 7) → ⊥
unfolding lookup
only_nine j h = ground arith

abbrev after_exchange : Conn
after_exchange = record conn { sent = 0 ∷ 12 ∷ 0 ∷ 1 ∷ drop 2 query; last_used = 200 }

exchanged : exchange trial query 1 conn ≡ (replied (0xab ∷ 0xcd ∷ 42 ∷ []), after_exchange)
unfolding exchange wait reader_step framed restored insert remove lookup to_be_bytes from_be_bytes
exchanged = refl

exchange-IsAnswer_example : IsAnswer query 1 trial.events (0xab ∷ 0xcd ∷ 42 ∷ []) after_exchange
exchange-IsAnswer_example =
    exchange-IsAnswer trial query (0xab ∷ 0xcd ∷ 42 ∷ []) 1 conn after_exchange only_nine exchanged

exchange-released_example : lookup 1 (exchange trial query 1 conn).1.inflight ≡ none
exchange-released_example = exchange-released trial query 1 conn only_nine

one_id : body_id (0 ∷ 1 ∷ 42 ∷ []) ≡ 1
unfolding from_be_bytes
one_id = refl

three_bytes : body_length 0 3 ≡ 3
unfolding from_be_bytes
three_bytes = refl

exchange-answers_example :
    (exchange trial query 1 conn).0
    ≡ replied (restored query (take (body_length 0 3) (0 ∷ 1 ∷ 42 ∷ [])))
unfolding from_be_bytes
exchange-answers_example =
    exchange-answers trial query 1 conn (message 0 2 (0 ∷ 5 ∷ []) ∷ []) [] 0 3 (0 ∷ 1 ∷ 42 ∷ [])
      only_nine refl refl ((omega arith, omega arith, λ e. ground arith), tt) (omega arith)
      (omega arith) refl

-- A pool with one idle connection for the server.
abbrev pool : DnsPool
pool = record {
  proxy = proxy;
  query_timeout = 5;
  idle_timeout = 30;
  conns = (server, 0 ∷ []) ∷ [];
  heap = λ i. record conn { inflight = [] };
  opened = 1;
  hits = 0;
  misses = 1;
}

-- The first query of a pool, whose reply carries the id 0.
abbrev first_trial : Trial
first_trial = record trial { events = message 0 3 (0 ∷ 0 ∷ 42 ∷ []) ∷ [] }

resolved : (resolve server query first_trial trial (new proxy 5 30)).0 ≡ ok (0xab ∷ 0xcd ∷ 42 ∷ [])
unfolding resolve attempt acquire acquire_locked try_reuse retain_alive scan open_and_register
    open_conn register new allocate_id find_vacant exchange wait reader_step framed restored insert
    remove lookup to_be_bytes from_be_bytes
resolved = refl

resolve-AnswersWith_example :
    (12 ≤ length query)
    × (length query ≤ max_dns_message)
    × (AnswersWith query first_trial.events (0xab ∷ 0xcd ∷ 42 ∷ [])
        ⊎ AnswersWith query trial.events (0xab ∷ 0xcd ∷ 42 ∷ []))
resolve-AnswersWith_example =
    resolve-AnswersWith server query (0xab ∷ 0xcd ∷ 42 ∷ []) first_trial trial (new proxy 5 30)
      resolved

-- One second attempt opens and registers a connection.
abbrev opened_once : World
opened_once = record {
  pool =
      (registered server 0 (open_conn 0 (new proxy 5 30)).1
        (allocate_id ((open_conn 0 (new proxy 5 30)).1.heap 0))).1;
  lock = free;
  forced = 1;
}

one_forced : Steps (start proxy 5 30) opened_once
unfolding open_conn new allocate_id find_vacant lookup
one_forced =
    let u = start proxy 5 30 in
    let v : World = record u { lock = checked second server } in
    let w : World = record v { lock = connecting second server 0; pool = (open_conn 0 v.pool).1 } in
    next u w opened_once
      (next u v w (next u u v (done u) (force u server refl)) (load v second server 0 refl))
      (finish w second server 0 refl)

Steps-bucket_of-le_example : length (bucket_of server opened_once.pool) ≤ max_conns_per_target + 1
Steps-bucket_of-le_example = Steps-bucket_of-le proxy 5 30 opened_once server one_forced
