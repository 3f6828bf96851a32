-- ===== src/Dns/Interleaved.antt =====
-- src/dns.rs: `DnsPool` under concurrent tasks. One step is what a task does between two waits; the
-- task that holds `open_lock` is in `lock`, all others only reuse, prune, or change connections.
use cortado.Base.{
  ℕ, ◌+◌, ◌≤◌, ◌<◌, ◌≡◌, refl, sym, ap, subst, ==_iff, inl, inr, true, false, List, [], ◌∷◌, ◌++◌,
  Option, none, some, arith, leb, filter, ◌==◌, length, lookup, IsMap, lookup-insert, insert-IsMap,
  unwrap_or, length-filter-le, length-append, if◌then◌else◌, Bool-cases,
}
use cortado.Addr.{SocketAddr, socket_eq, socket_beq_iff}
use cortado.Config.{ProxyConfig}
use cortado.Dns.Conn.{Conn, allocate_id, is_alive, update, max_conns_per_target}
use cortado.Dns.Pool.{
  DnsPool, bucket_of, counted_hit, drop_conns, new, open_conn, prune, register, registered,
  retain_alive, scan, store_proxy, try_reuse,
}
use cortado.Dns.Prune.{prune_lem, prune-IsMap, keeps}

-- Whether the task is at its first attempt, whose check of the limit has passed, or at its second,
-- which opens a connection without that check.
pub data Attempt : Type 0 where
  first : Attempt
  second : Attempt

-- `checked`: about to open for that server; `connecting`: the proxy is loaded, and the connection of
-- that number is being made through it.
pub data OpenLock : Type 0 where
  free : OpenLock
  checked : Attempt → SocketAddr → OpenLock
  connecting : Attempt → SocketAddr → ℕ → OpenLock

-- `forced` counts the connections that second attempts have opened and registered.
pub record World : Type 0 where
  pub pool : DnsPool
  pub lock : OpenLock
  pub forced : ℕ

abbrev pub with_pool : DnsPool → World → World
with_pool p w = record w { pool = p }

abbrev pub with_lock : OpenLock → World → World
with_lock l w = record w { lock = l }

abbrev pub count_of : SocketAddr → DnsPool → ℕ
count_of s p = length (bucket_of s p)

-- How many connections a second attempt has registered, by the id that it got.
abbrev pub registered_by : Attempt → Option ℕ → ℕ
registered_by second (some id) = 1
registered_by second none = 0
registered_by first o = 0

pub data Step : World → World → Type 0 where
  reuse : (w : World) (s : SocketAddr) → Step w (with_pool (try_reuse s w.pool).1 w)
  check :
      (w : World) (s : SocketAddr)
      → w.lock ≡ free
      → leb max_conns_per_target (count_of s (retain_alive s w.pool)) ≡ false
      → Step w (with_lock (checked first s) (with_pool (retain_alive s w.pool) w))
  refuse :
      (w : World) (s : SocketAddr)
      → w.lock ≡ free
      → leb max_conns_per_target (count_of s (retain_alive s w.pool)) ≡ true
      → Step w (with_pool (retain_alive s w.pool) w)
  force : (w : World) (s : SocketAddr) → w.lock ≡ free → Step w (with_lock (checked second s) w)
  load :
      (w : World) (a : Attempt) (s : SocketAddr) (now : ℕ)
      → w.lock ≡ checked a s
      → Step w (
          with_lock
            (connecting a s (open_conn now w.pool).0)
            (with_pool (open_conn now w.pool).1 w))
  fail :
      (w : World) (a : Attempt) (s : SocketAddr) (i : ℕ)
      → w.lock ≡ connecting a s i
      → Step w (with_lock free w)
  finish :
      (w : World) (a : Attempt) (s : SocketAddr) (i : ℕ)
      → w.lock ≡ connecting a s i
      → Step w (record w {
        pool = (registered s i w.pool (allocate_id (w.pool.heap i))).1;
        lock = free;
        forced = w.forced + registered_by a (allocate_id (w.pool.heap i)).0;
      })
  store : (w : World) (proxy : ProxyConfig) → Step w (with_pool (store_proxy proxy w.pool) w)
  clear : (w : World) → Step w (with_pool (drop_conns w.pool) w)
  sweep : (w : World) (now : ℕ) → Step w (with_pool (prune now w.pool) w)
  -- What the reader of a connection, or an attempt on it, does to the connection itself.
  change :
      (w : World) (i : ℕ) (c : Conn)
      → Step w (with_pool (record w.pool { heap = update w.pool.heap i c }) w)

pub data Steps : World → World → Type 0 where
  done : (w : World) → Steps w w
  next : (u v w : World) → Steps u v → Step v w → Steps u w

abbrev pub start : ProxyConfig → ℕ → ℕ → World
start proxy query_timeout idle_timeout = record {
  pool = new proxy query_timeout idle_timeout;
  lock = free;
  forced = 0;
}

-- How many connections of a server are about to be in its bucket by a first attempt.
abbrev opening_for : OpenLock → SocketAddr → ℕ
opening_for free s = 0
opening_for (checked first t) s = if t == s then 1 else 0
opening_for (connecting first t i) s = if t == s then 1 else 0
opening_for (checked second t) s = 0
opening_for (connecting second t i) s = 0

abbrev IsBounded : World → Type 0
IsBounded w =
    IsMap w.pool.conns
    × ((s : SocketAddr)
        → count_of s w.pool + opening_for w.lock s ≤ max_conns_per_target + w.forced)

retain_alive-le : (s t : SocketAddr) (p : DnsPool) → count_of s (retain_alive t p) ≤ count_of s p
unfolding retain_alive
retain_alive-le s t p = ground (
  arith,
  lookup-insert t s (filter (is_alive p.heap) (bucket_of t p)) p.conns,
  length-filter-le (is_alive p.heap) (bucket_of t p),
  socket_beq_iff t s,
)

conns-counted_hit :
    (p : DnsPool) (o : Option (ℕ × ℕ)) (heap : ℕ → Conn)
    → (counted_hit p (o, heap)).1.conns ≡ p.conns
conns-counted_hit p none heap = refl
conns-counted_hit p (some r) heap = refl

conns-try_reuse :
    (s : SocketAddr) (p : DnsPool) → (try_reuse s p).1.conns ≡ (retain_alive s p).conns
unfolding try_reuse
conns-try_reuse s p =
    let q = retain_alive s p in
    conns-counted_hit q (scan (bucket_of s q) q.heap).0 (scan (bucket_of s q) q.heap).1

retain_alive-IsMap : (s : SocketAddr) (p : DnsPool) → IsMap p.conns → IsMap (retain_alive s p).conns
unfolding retain_alive
retain_alive-IsMap s p h = insert-IsMap s (filter (is_alive p.heap) (bucket_of s p)) p.conns h

register-count :
    (s t : SocketAddr) (i : ℕ) (p : DnsPool)
    → count_of s (register t i p) ≡ count_of s p + (if t == s then 1 else 0)
unfolding register
register-count s t i p = ground (
  arith,
  lookup-insert t s (bucket_of t p ++ i ∷ []) p.conns,
  length-append (bucket_of t p) (i ∷ []),
  socket_beq_iff t s,
)

registered-count :
    (s t : SocketAddr) (i : ℕ) (p : DnsPool) (o : Option ℕ) (c : Conn)
    → count_of s (registered t i p (o, c)).1 ≤ count_of s p + (if t == s then 1 else 0)
registered-count s t i p none c = omega arith
registered-count s t i p (some id) c =
    omega (arith, register-count s t i (record p { heap = update p.heap i c }))

registered-IsMap :
    (t : SocketAddr) (i : ℕ) (p : DnsPool) (o : Option ℕ) (c : Conn)
    → IsMap p.conns
    → IsMap (registered t i p (o, c)).1.conns
unfolding register
registered-IsMap t i p none c h = h
registered-IsMap t i p (some id) c h = insert-IsMap t (bucket_of t p ++ i ∷ []) p.conns h

-- A connection in the bucket is one that was about to be, or one more of a second attempt.
finish-le :
    (s t : SocketAddr) (a : Attempt) (i : ℕ) (p : DnsPool) (o : Option ℕ) (c : Conn)
    → count_of s (registered t i p (o, c)).1
      ≤ count_of s p + opening_for (connecting a t i) s + registered_by a o
finish-le s t first i p o c = omega (arith, registered-count s t i p o c)
finish-le s t second i p none c = omega arith
finish-le s t second i p (some id) c =
    let few = registered-count s t i p (some id) c in ground arith

prune-le :
    (s : SocketAddr) (now : ℕ) (p : DnsPool)
    → IsMap p.conns
    → count_of s (prune now p) ≤ count_of s p
prune-le s now p h =
    let same : count_of s (prune now p)
        ≡ length (filter (λ j. keeps now p.idle_timeout (p.heap j)) (bucket_of s p)) =
      ap (λ (l : List ℕ). length l) (prune_lem now p s h).0 in
    omega (arith, same, length-filter-le (λ j. keeps now p.idle_timeout (p.heap j)) (bucket_of s p))

reuse-le : (s t : SocketAddr) (p : DnsPool) → count_of s (try_reuse t p).1 ≤ count_of s p
reuse-le s t p =
    let same : count_of s (try_reuse t p).1 ≡ count_of s (retain_alive t p) =
      ap (λ m. length (unwrap_or (lookup s m) [])) (conns-try_reuse t p) in
    omega (arith, same, retain_alive-le s t p)

Step-IsBounded : (v w : World) → Step v w → IsBounded v → IsBounded w
unfolding open_conn lookup
Step-IsBounded v w (reuse _ s) (m, b) = (
  subst (λ c. IsMap c) (sym (conns-try_reuse s v.pool)) (retain_alive-IsMap s v.pool m),
  λ t. omega (arith, b t, reuse-le t s v.pool),
)
Step-IsBounded v w (check _ s e room) (m, b) = (
  retain_alive-IsMap s v.pool m,
  λ t.
      let here = b t in
      let few = retain_alive-le t s v.pool in
      elim (Bool-cases (s == t)) [
        | inl same ↦
            let e' : s ≡ t = (==_iff s t).0 same in
            let room' : count_of t (retain_alive s v.pool) < 8 = ground arith in
            rw same (omega arith)
        | inr other ↦ rw other (omega arith)
      ],
)
Step-IsBounded v w (refuse _ s e full) (m, b) =
    (retain_alive-IsMap s v.pool m, λ t. omega (arith, b t, retain_alive-le t s v.pool))
Step-IsBounded v w (force _ s e) (m, b) = (m, λ t. let here = b t in ground arith)
Step-IsBounded v w (load _ first s now e) (m, b) = (m, λ t. let here = b t in ground arith)
Step-IsBounded v w (load _ second s now e) (m, b) = (m, λ t. let here = b t in ground arith)
Step-IsBounded v w (fail _ a s i e) (m, b) = (m, λ t. omega (arith, b t))
Step-IsBounded v w (finish _ a s i e) (m, b) =
    let o = allocate_id (v.pool.heap i) in
    (
      registered-IsMap s i v.pool o.0 o.1 m,
      λ t.
          let here = subst (λ l. count_of t v.pool + opening_for l t ≤ 8 + v.forced) e (b t) in
          omega (arith, here, finish-le t s a i v.pool o.0 o.1),
    )
Step-IsBounded v w (store _ proxy) (m, b) = (m, b)
Step-IsBounded v w (clear _) (m, b) = (tt, λ t. omega (arith, b t))
Step-IsBounded v w (sweep _ now) (m, b) =
    (prune-IsMap now v.pool m, λ t. omega (arith, b t, prune-le t now v.pool m))
Step-IsBounded v w (change _ i c) (m, b) = (m, b)

Steps-IsBounded : (v w : World) → Steps v w → IsBounded v → IsBounded w
Steps-IsBounded v w (done _) h = h
Steps-IsBounded v w (next _ u _ before step) h =
    Step-IsBounded u w step (Steps-IsBounded v u before h)

-- However the tasks interleave, the bucket of a server never holds more than the limit of
-- connections and one more for each connection that a second attempt has opened and registered.
pub Steps-bucket_of-le :
    (proxy : ProxyConfig) (query_timeout idle_timeout : ℕ) (w : World) (s : SocketAddr)
    → Steps (start proxy query_timeout idle_timeout) w
    → length (bucket_of s w.pool) ≤ max_conns_per_target + w.forced
unfolding new lookup
Steps-bucket_of-le proxy q i w s run =
    let (m, b) = Steps-IsBounded (start proxy q i) w run (tt, λ t. omega arith) in
    omega (arith, b s)
