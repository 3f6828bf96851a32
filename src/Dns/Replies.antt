-- ===== src/Dns/Replies.antt =====
-- src/dns.rs: the reply that a query gets, and the id that it gives back.
use cortado.Base.{
  ℕ, ◌≤◌, ◌≡◌, ◌≢◌, refl, sym, ap, ap₂, ◌∙◌, inl, inr, true, List, [], ◌∷◌, ◌++◌, Option, none,
  some, Bytes, arith, leb, ltb, length, take, contains, lookup, remove, insert, nat_eq, list_eq,
  nat_beq, nat_beq_iff, lookup-remove, lookup-insert, Bool-cases, if◌then◌else◌, ==_refl,
  length-take, leb→le,
}
use cortado.Addr.{from_be_bytes}
use cortado.Dns.Conn.{Conn, Sender, orphan, waiter}
use cortado.Dns.Query.{
  ReaderEvent, quiet, closed, message, deliver, body_id, reader_step, Waited, received,
  sender_dropped, elapsed, is_waiter, after_round, wait, framed, restored, Trial, exchange,
  finished, replied,
}

-- A message's length, and the bodies of the complete messages among the rounds of a reader.
abbrev pub body_length : ℕ → ℕ → ℕ
body_length hi lo = from_be_bytes (hi ∷ lo ∷ [])

abbrev pub bodies : List ReaderEvent → List Bytes
bodies [] = []
bodies (message hi lo arriving ∷ evs) =
    if leb (body_length hi lo) (length arriving)
    then take (body_length hi lo) arriving ∷ bodies evs
    else bodies evs
bodies (quiet ∷ evs) = bodies evs
bodies (closed ∷ evs) = bodies evs

-- Only under that id is the query `n` awaited.
abbrev pub Owns : ℕ → ℕ → List (ℕ × Sender) → Type 0
Owns n id m = (j : ℕ) → lookup j m ≡ some (waiter n) → j ≡ id

pub remove-Owns : (n id k : ℕ) (m : List (ℕ × Sender)) → Owns n id m → Owns n id (remove k m)
remove-Owns n id k m h j e = let here = h j in ground (arith, lookup-remove k j m)

-- What a received body is, when the wait ends with it.
pub record IsReply (id : ℕ) (evs : List ReaderEvent) (body : Bytes) (d : Conn) : Type 0 where
  pub arrived : contains (bodies evs) body ≡ true
  pub long : 2 ≤ length body
  pub own_id : body_id body ≡ id
  pub released : lookup id d.inflight ≡ none

later-IsReply :
    (id : ℕ) (ev : ReaderEvent) (evs : List ReaderEvent) (body : Bytes) (d : Conn)
    → IsReply id evs body d
    → IsReply id (ev ∷ evs) body d
later-IsReply id quiet evs body d r = record {
  arrived = r.arrived;
  long = r.long;
  own_id = r.own_id;
  released = r.released;
}
later-IsReply id closed evs body d r = record {
  arrived = r.arrived;
  long = r.long;
  own_id = r.own_id;
  released = r.released;
}
later-IsReply id (message hi lo arriving) evs body d r =
    let seen = r.arrived in
    record { arrived = ground arith; long = r.long; own_id = r.own_id; released = r.released }

pub waiter_only : (n : ℕ) (tx : Sender) → is_waiter n tx ≡ true → tx ≡ waiter n
waiter_only n orphan h = ground arith
waiter_only n (waiter m) h = ap waiter ((nat_beq_iff m n).0 h)

-- One round in which a complete message came.
module _ (n id : ℕ) (evs : List ReaderEvent) (body : Bytes) (d : Conn) where
  abbrev Later : Type 0
  Later =
      (c : Conn) → Owns n id c.inflight → wait n evs c ≡ (received body, d) → IsReply id evs body d

  delivered-IsReply :
      (hi lo : ℕ) (arriving : Bytes) (c : Conn) (found : Option Sender)
      → (let b = take (body_length hi lo) arriving in
          Later
          → 2 ≤ body_length hi lo
          → body_length hi lo ≤ length arriving
          → lookup (body_id b) c.inflight ≡ found
          → Owns n id c.inflight
          → after_round n (deliver found (body_id b) b c) (wait n evs) ≡ (received body, d)
          → IsReply id (message hi lo arriving ∷ evs) body d)
  delivered-IsReply hi lo arriving c none later long enough found owns e =
      let rest : wait n evs c ≡ (received body, d) = ground arith in
      later-IsReply id (message hi lo arriving) evs body d (later c owns rest)
  delivered-IsReply hi lo arriving c (some tx) later long enough found owns e =
      let b = take (body_length hi lo) arriving in
      let c' : Conn = record c { inflight = remove (body_id b) c.inflight } in
      elim (Bool-cases (is_waiter n tx)) [
        | inl mine ↦
            let its_own : body_id b ≡ id =
              owns (body_id b) (found ∙ ap some (waiter_only n tx mine)) in
            let same : b ≡ body = ground arith in
            let gone : d.inflight ≡ remove (body_id b) c.inflight = ground arith in
            record {
              arrived = ground (arith, ==_refl b);
              long = ground (arith, length-take (body_length hi lo) arriving);
              own_id = ap body_id (sym same) ∙ its_own;
              released = ground (arith, lookup-remove (body_id b) id c.inflight);
            }
        | inr other ↦
            let rest : wait n evs c' ≡ (received body, d) = ground arith in
            later-IsReply id (message hi lo arriving) evs body d
              (later c' (remove-Owns n id (body_id b) c.inflight owns) rest)
      ]

-- If a query is awaited under its id only, what it receives is the body of a complete message that
-- came with that very id, and the id is free again.
wait-IsReply :
    (n id : ℕ) (evs : List ReaderEvent) (body : Bytes) (c d : Conn)
    → Owns n id c.inflight
    → wait n evs c ≡ (received body, d)
    → IsReply id evs body d
unfolding wait reader_step
wait-IsReply n id [] body c d owns e = ground arith
wait-IsReply n id (quiet ∷ evs) body c d owns e =
    let rest : wait n evs c ≡ (received body, d) = ground arith in
    later-IsReply id quiet evs body d (wait-IsReply n id evs body c d owns rest)
wait-IsReply n id (closed ∷ evs) body c d owns e = ground arith
wait-IsReply n id (message hi lo arriving ∷ evs) body c d owns e =
    let len = body_length hi lo in
    let b = take len arriving in
    elim (Bool-cases (ltb len 2)) [
      | inl short ↦ ground arith
      | inr long ↦ elim (Bool-cases (leb len (length arriving))) [
        | inr cut ↦ ground arith
        | inl whole ↦
            delivered-IsReply n id evs body d hi lo arriving c (lookup (body_id b) c.inflight)
              (λ c' owns' e'. wait-IsReply n id evs body c' d owns' e') (ground arith)
              (leb→le len (length arriving) whole) refl owns (ground arith)
      ]
    ]

-- No receiver of the query `n` is waiting yet.
abbrev pub IsFresh : ℕ → List (ℕ × Sender) → Type 0
IsFresh n m = (j : ℕ) → lookup j m ≢ some (waiter n)

pub insert-Owns :
    (n id : ℕ) (m : List (ℕ × Sender)) → IsFresh n m → Owns n id (insert id (waiter n) m)
insert-Owns n id m fresh j e = elim (Bool-cases (nat_beq id j)) [
  | inl same ↦ sym ((nat_beq_iff id j).0 same)
  | inr other ↦ absurd (fresh j (ground (arith, lookup-insert id j (waiter n) m)))
]

-- The connection on which the query waits.
abbrev pub sending : Trial → Bytes → ℕ → Conn → Conn
sending t query id c = record c {
  inflight = insert id (waiter t.ticket) c.inflight;
  sent = c.sent ++ framed query id;
  last_used = t.now;
}

-- The bytes that the client gets: the reply's, with the first two as in the query.
abbrev pub IsAnswer : Bytes → ℕ → List ReaderEvent → Bytes → Conn → Type 0
IsAnswer query id evs resp d = (body : Bytes) × IsReply id evs body d × (resp ≡ restored query body)

finished-IsAnswer :
    (query : Bytes) (id : ℕ) (evs : List ReaderEvent) (resp : Bytes) (d : Conn) (o : Waited)
    (c : Conn)
    → ((body : Bytes) → o ≡ received body → c ≡ d → IsReply id evs body d)
    → finished query id (o, c) ≡ (replied resp, d)
    → IsAnswer query id evs resp d
finished-IsAnswer query id evs resp d (received b) c h e =
    (b, h b refl (ground arith), ground arith)
finished-IsAnswer query id evs resp d sender_dropped c h e = ground arith
finished-IsAnswer query id evs resp d elapsed c h e = ground arith

-- A query is answered only by the body of a complete message that came back with the id that the
-- query was given on this connection; the client's own id is put back into it.
pub exchange-IsAnswer :
    (t : Trial) (query resp : Bytes) (id : ℕ) (c d : Conn)
    → IsFresh t.ticket c.inflight
    → exchange t query id c ≡ (replied resp, d)
    → IsAnswer query id t.events resp d
unfolding exchange
exchange-IsAnswer t query resp id c d fresh e =
    let w = wait t.ticket t.events (sending t query id c) in
    let owns = insert-Owns t.ticket id c.inflight fresh in
    finished-IsAnswer query id t.events resp d w.0 w.1
      (λ body eo ec.
        wait-IsReply t.ticket id t.events body (sending t query id c) d owns
          (ap₂ (λ o c'. (o, c')) eo ec))
      (ground arith)

finished-released :
    (query : Bytes) (id : ℕ) (evs : List ReaderEvent) (o : Waited) (c : Conn)
    → ((body : Bytes) → o ≡ received body → IsReply id evs body c)
    → lookup id (finished query id (o, c)).1.inflight ≡ none
finished-released query id evs (received b) c h = let r = h b refl in r.released
finished-released query id evs sender_dropped c h =
    ground (arith, lookup-remove id id c.inflight, ==_refl id)
finished-released query id evs elapsed c h =
    ground (arith, lookup-remove id id c.inflight, ==_refl id)

-- However an attempt ends, by a reply, a failed write, a closed connection or the timeout, its id is
-- free again on the connection.
pub exchange-released :
    (t : Trial) (query : Bytes) (id : ℕ) (c : Conn)
    → IsFresh t.ticket c.inflight
    → lookup id (exchange t query id c).1.inflight ≡ none
unfolding exchange
exchange-released t query id c fresh =
    let w = wait t.ticket t.events (sending t query id c) in
    let owns = insert-Owns t.ticket id c.inflight fresh in
    elim (Bool-cases t.writes) [
      | inl written ↦ rw written (
          finished-released query id t.events w.0 w.1 λ body e.
            wait-IsReply t.ticket id t.events body (sending t query id c) w.1 owns
              (ap₂ (λ o c'. (o, c')) e refl))
      | inr lost ↦
          rw lost (
            ground
              (arith, lookup-remove id id (insert id (waiter t.ticket) c.inflight), ==_refl id))
    ]
