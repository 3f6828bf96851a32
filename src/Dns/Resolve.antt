-- ===== src/Dns/Resolve.antt =====
-- src/dns.rs: the bytes of a query and of its answer, that a reply in time is answered, and `resolve`.
use cortado.Base.{
  ℕ, ◌%◌, ◌^◌, ◌≤◌, ◌<◌, ◌≡◌, ◌≢◌, refl, ap, ◌∙◌, inl, inr, ◌⊎◌, Bool, true, false, List, [], ◌∷◌,
  ◌++◌, Option, none, some, Bytes, Result, ok, err, arith, leb, ltb, length, take, drop, is_empty,
  contains, lookup, remove, nat_eq, list_eq, nat_beq, lookup-remove, lookup-insert, Bool-cases,
  if◌then◌else◌, ==_refl, All, length-take, leb→le,
}
use cortado.Addr.{SocketAddr, to_be_bytes}
use cortado.Dns.Conn.{Conn, Sender, waiter, max_dns_message}
use cortado.Dns.Pool.{DnsPool, DnsError, Acquired, acquire, open_and_register}
use cortado.Dns.Query.{
  ReaderEvent, quiet, closed, message, deliver, body_id, reader_step, Waited, received,
  sender_dropped, elapsed, is_waiter, is_awaited, after_round, wait, framed, restored, Trial,
  exchange, finished, Outcome, replied, retry, fatal, attempt, on_acquired, first, second, resolve,
}
use cortado.Dns.Replies.{
  body_length, bodies, Owns, remove-Owns, IsFresh, insert-Owns, sending, waiter_only,
}

-- What is written for a query is its length, the id it was given, and the query behind its own id.
pub framed_lem :
    (query : Bytes) (id : ℕ)
    → 2 ≤ length query
    → length query < 2 ^ 16
    → framed query id ≡ to_be_bytes 2 (length query) ++ (to_be_bytes 2 id ++ drop 2 query)
unfolding framed to_be_bytes
framed_lem [] id long fits = absurd (ground arith)
framed_lem (a ∷ []) id long fits = absurd (ground arith)
framed_lem (a ∷ b ∷ rest) id long fits =
    let whole : length (a ∷ b ∷ rest) % 2 ^ 16 ≡ length (a ∷ b ∷ rest) = omega arith in
    rw whole refl

pub restored_lem :
    (query body : Bytes)
    → 2 ≤ length query
    → 2 ≤ length body
    → restored query body ≡ take 2 query ++ drop 2 body
unfolding restored
restored_lem (a ∷ b ∷ query) (c ∷ d ∷ body) h k = refl
restored_lem query body h k = absurd (ground arith)

-- A round that leaves the query with the given id waiting.
abbrev pub PassesBy : ℕ → ReaderEvent → Type 0
PassesBy id quiet = Unit {0}
PassesBy id closed = ⊥
PassesBy id (message hi lo arriving) =
    let len = body_length hi lo in
    (2 ≤ len) × (len ≤ length arriving) × (body_id (take len arriving) ≢ id)

is_awaited-lookup :
    (n id : ℕ) (m : List (ℕ × Sender)) → lookup id m ≡ some (waiter n) → is_awaited n m ≡ true
unfolding lookup
is_awaited-lookup n id [] h = ground arith
is_awaited-lookup n id ((j, tx) ∷ m) h = elim (Bool-cases (nat_beq j id)) [
  | inl same ↦ let e : tx ≡ waiter n = ground arith in rw e (ground (arith, ==_refl n))
  | inr other ↦ let rest = is_awaited-lookup n id m (ground arith) in ground arith
]

not_empty : (n id : ℕ) (m : List (ℕ × Sender)) → lookup id m ≡ some (waiter n) → is_empty m ≡ false
unfolding lookup
not_empty n id [] h = ground arith
not_empty n id (e ∷ m) h = refl

-- A message for another query leaves this one waiting.
passes_by :
    (n id : ℕ) (resp : Bytes) (found : Option Sender) (other : ℕ) (body : Bytes) (c : Conn)
    (continue : Conn → Waited × Conn)
    → lookup other c.inflight ≡ found
    → other ≢ id
    → Owns n id c.inflight
    → lookup id c.inflight ≡ some (waiter n)
    → ((c' : Conn)
        → Owns n id c'.inflight
        → lookup id c'.inflight ≡ some (waiter n)
        → (continue c').0 ≡ received resp)
    → (after_round n (deliver found other body c) continue).0 ≡ received resp
passes_by n id resp none other body c continue e differs owns h ih =
    rw (is_awaited-lookup n id c.inflight h) (ih c owns h)
passes_by n id resp (some tx) other body c continue e differs owns h ih =
    let c' : Conn = record c { inflight = remove other c.inflight } in
    let waits : lookup id c'.inflight ≡ some (waiter n) =
      ground (arith, lookup-remove other id c.inflight) in
    elim (Bool-cases (is_waiter n tx)) [
      | inl mine ↦ absurd (differs (owns other (e ∙ ap some (waiter_only n tx mine))))
      | inr not_mine ↦
          rw (not_mine, is_awaited-lookup n id c'.inflight waits)
            (ih c' (remove-Owns n id other c.inflight owns) waits)
    ]

module _ (n id : ℕ) (hi lo : ℕ) (arriving : Bytes) (later : List ReaderEvent) where
  abbrev reply : Bytes
  reply = take (body_length hi lo) arriving

  wait-received :
      (before : List ReaderEvent) (c : Conn)
      → All (PassesBy id) before
      → 2 ≤ body_length hi lo
      → body_length hi lo ≤ length arriving
      → body_id reply ≡ id
      → Owns n id c.inflight
      → lookup id c.inflight ≡ some (waiter n)
      → (wait n (before ++ message hi lo arriving ∷ later) c).0 ≡ received reply
  unfolding wait reader_step
  wait-received [] c calm long whole mine owns h = ground (arith, ==_refl n)
  wait-received (quiet ∷ before) c (_, calm) long whole mine owns h =
      let ih = wait-received before c calm long whole mine owns h in
      ground (arith, is_awaited-lookup n id c.inflight h, not_empty n id c.inflight h)
  wait-received (closed ∷ before) c (p, calm) long whole mine owns h = absurd p
  wait-received (message hi' lo' arr ∷ before) c ((long', whole', other), calm) long whole mine owns
        h =
      let b = take (body_length hi' lo') arr in
      let passed =
        passes_by n id reply (lookup (body_id b) c.inflight) (body_id b) b c
          (wait n (before ++ message hi lo arriving ∷ later)) refl other owns h
          (λ c' owns' h'. wait-received before c' calm long whole mine owns' h') in
      ground arith

finished-received :
    (query : Bytes) (id : ℕ) (body : Bytes) (o : Waited) (c : Conn)
    → o ≡ received body
    → (finished query id (o, c)).0 ≡ replied (restored query body)
finished-received query id body (received b) c e = ground arith
finished-received query id body sender_dropped c e = ground arith
finished-received query id body elapsed c e = ground arith

-- If the write succeeds and, before the timeout, a complete message comes back with the query's id,
-- behind messages for other queries and idle rounds only, then the attempt is answered with it.
pub exchange-answers :
    (t : Trial) (query : Bytes) (id : ℕ) (c : Conn) (before later : List ReaderEvent) (hi lo : ℕ)
    (arriving : Bytes)
    → IsFresh t.ticket c.inflight
    → t.writes ≡ true
    → t.events ≡ before ++ message hi lo arriving ∷ later
    → All (PassesBy id) before
    → 2 ≤ body_length hi lo
    → body_length hi lo ≤ length arriving
    → body_id (take (body_length hi lo) arriving) ≡ id
    → (exchange t query id c).0 ≡ replied (restored query (take (body_length hi lo) arriving))
unfolding exchange
exchange-answers t query id c before later hi lo arriving fresh written es calm long whole mine =
    let owns = insert-Owns t.ticket id c.inflight fresh in
    let waits : lookup id (sending t query id c).inflight ≡ some (waiter t.ticket) =
      ground (arith, lookup-insert id id (waiter t.ticket) c.inflight, ==_refl id) in
    let got =
      wait-received t.ticket id hi lo arriving later before (sending t query id c) calm long whole
        mine owns waits in
    let w = wait t.ticket (before ++ message hi lo arriving ∷ later) (sending t query id c) in
    let answer = finished-received query id (take (body_length hi lo) arriving) w.0 w.1 got in
    rw (es, written) answer

-- What any answer is: the id of the query, and the rest of a complete message that has come.
abbrev pub AnswersWith : Bytes → List ReaderEvent → Bytes → Type 0
AnswersWith query evs resp =
    (body : Bytes) × (contains (bodies evs) body ≡ true)
    × (2 ≤ length body)
    × (resp ≡ take 2 query ++ drop 2 body)

from_this_round :
    (n : ℕ) (found : Option Sender) (id : ℕ) (b : Bytes) (c : Conn)
    (continue : Conn → Waited × Conn) (body : Bytes)
    → (after_round n (deliver found id b c) continue).0 ≡ received body
    → (b ≡ body) ⊎ ((c' : Conn) × ((continue c').0 ≡ received body))
from_this_round n none id b c continue body e = inr (c, ground arith)
from_this_round n (some tx) id b c continue body e = elim (Bool-cases (is_waiter n tx)) [
  | inl mine ↦ inl (ground arith)
  | inr other ↦ inr (record c { inflight = remove id c.inflight }, ground arith)
]

wait-arrived :
    (n : ℕ) (evs : List ReaderEvent) (c : Conn) (body : Bytes)
    → (wait n evs c).0 ≡ received body
    → (contains (bodies evs) body ≡ true) × (2 ≤ length body)
unfolding wait reader_step
wait-arrived n [] c body e = ground arith
wait-arrived n (quiet ∷ evs) c body e = wait-arrived n evs c body (ground arith)
wait-arrived n (closed ∷ evs) c body e = ground arith
wait-arrived n (message hi lo arriving ∷ evs) c body e =
    let len = body_length hi lo in
    let b = take len arriving in
    elim (Bool-cases (ltb len 2)) [
      | inl short ↦ ground arith
      | inr long ↦ elim (Bool-cases (leb len (length arriving))) [
        | inr cut ↦ ground arith
        | inl whole ↦
            elim (from_this_round n (lookup (body_id b) c.inflight) (body_id b) b c (wait n evs)
              body (ground arith)) [
                | inl here ↦
                    let enough = length-take len arriving in
                    ground (arith, ==_refl body, leb→le len (length arriving) whole)
                | inr (c', rest) ↦
                    let (seen, two) = wait-arrived n evs c' body rest in (ground arith, two)
              ]
      ]
    ]

finished-AnswersWith :
    (query : Bytes) (id : ℕ) (evs : List ReaderEvent) (resp : Bytes) (o : Waited) (c : Conn)
    → 2 ≤ length query
    → ((body : Bytes) → o ≡ received body → (contains (bodies evs) body ≡ true) × (2 ≤ length body))
    → (finished query id (o, c)).0 ≡ replied resp
    → AnswersWith query evs resp
finished-AnswersWith query id evs resp (received b) c two h e =
    let (seen, long) = h b refl in (b, seen, long, ground (arith, restored_lem query b two long))
finished-AnswersWith query id evs resp sender_dropped c two h e = ground arith
finished-AnswersWith query id evs resp elapsed c two h e = ground arith

on_acquired-AnswersWith :
    (t : Trial) (query resp : Bytes) (a : Acquired) (p : DnsPool)
    → 2 ≤ length query
    → (on_acquired t query (a, p)).0 ≡ replied resp
    → AnswersWith query t.events resp
unfolding exchange
on_acquired-AnswersWith t query resp (err e) p two h = ground arith
on_acquired-AnswersWith t query resp (ok (i, id, reused)) p two h =
    let c = sending t query id (p.heap i) in
    let w = wait t.ticket t.events c in
    finished-AnswersWith query id t.events resp w.0 w.1 two
      (λ body e. wait-arrived t.ticket t.events c body e) (ground arith)

attempt-AnswersWith :
    (server : SocketAddr) (query : Bytes) (force_new : Bool) (t : Trial) (p : DnsPool)
    (resp : Bytes)
    → 2 ≤ length query
    → (attempt server query force_new t p).0 ≡ replied resp
    → AnswersWith query t.events resp
unfolding attempt
attempt-AnswersWith server query force_new t p resp two h =
    let a =
      if force_new
      then open_and_register server t.opens t.now p
      else acquire server t.opens t.now p in
    on_acquired-AnswersWith t query resp a.0 a.1 two h

second-ok :
    (o : Outcome) (p : DnsPool) (resp : Bytes) → (second (o, p)).0 ≡ ok resp → o ≡ replied resp
second-ok (replied r) p resp h = ground arith
second-ok (retry e) p resp h = ground arith
second-ok (fatal e) p resp h = ground arith

first-ok :
    (o : Outcome) (p : DnsPool) (again : DnsPool → Result DnsError Bytes × DnsPool) (resp : Bytes)
    → (first (o, p) again).0 ≡ ok resp
    → (o ≡ replied resp) ⊎ ((again p).0 ≡ ok resp)
first-ok (replied r) p again resp h = inl (ground arith)
first-ok (retry e) p again resp h = inr h
first-ok (fatal e) p again resp h = ground arith

-- A query that is resolved has from 12 to 65535 bytes, and its answer is the query's own id before
-- the rest of a complete message that came in one of the two attempts.
pub resolve-AnswersWith :
    (server : SocketAddr) (query resp : Bytes) (t1 t2 : Trial) (p : DnsPool)
    → (resolve server query t1 t2 p).0 ≡ ok resp
    → (12 ≤ length query)
      × (length query ≤ max_dns_message)
      × (AnswersWith query t1.events resp ⊎ AnswersWith query t2.events resp)
unfolding resolve
resolve-AnswersWith server query resp t1 t2 p h = elim (Bool-cases (ltb (length query) 12)) [
  | inl short ↦ ground arith
  | inr long ↦ elim (Bool-cases (ltb max_dns_message (length query))) [
    | inl large ↦ ground arith
    | inr fits ↦
        let a = attempt server query false t1 p in
        let b = attempt server query true t2 a.1 in
        let again = λ (q : DnsPool). second (attempt server query true t2 q) in
        let two : 2 ≤ length query = ground arith in
        (
          ground arith,
          ground arith,
          elim (first-ok a.0 a.1 again resp (ground arith)) [
            | inl here ↦ inl (attempt-AnswersWith server query false t1 p resp two here)
            | inr next ↦ inr (
                attempt-AnswersWith server query true t2 a.1 resp two (second-ok b.0 b.1 resp next))
          ],
        )
  ]
]
