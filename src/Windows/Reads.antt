-- ===== src/Windows/Reads.antt =====
-- src/platform/windows/tun.rs: the bytes that are read are those that came, in order, and the thread
-- that reads from wintun waits only for a full channel.
use cortado.Base.{
  ℕ, ◌+◌, ◌≤◌, ◌≡◌, refl, sym, ap, ap₂, ◌∙◌, inl, inr, Bool, true, false, take, drop, take-min,
  List, [], ◌∷◌, ◌++◌, append_assoc, append-nil, Option, none, some, Bytes, arith, ltb, length,
  Bool-cases, if◌then◌else◌, not, ◌&&◌, is_empty, max, length-append,
}
use cortado.Windows.Tun.{
  channel_depth, WindowsTun, Polled, waiting, ready, put, receive, read_from, poll_read,
  step_reader, send_next, unsent,
}
use cortado.Windows.Unread.{
  joined, pending_bytes, unread, behind, to_come, bytes_of, read_from_lem, joined-append,
}

-- What happens to the device: wintun receives a packet, the thread that reads makes a turn, or the
-- task reads into a buffer with some room.
pub data Event : Type 0 where
  arrives : Bytes → Event
  turns : Event
  reads : ℕ → Event

-- The packets that came.
abbrev pub came : List Event → Bytes
came [] = []
came (arrives pkt ∷ es) = pkt ++ came es
came (turns ∷ es) = came es
came (reads room ∷ es) = came es

-- What was read, and the device after.
pub record Run : Type 0 where
  pub delivered : Bytes
  pub device : WindowsTun

abbrev pub on_arrival : Bytes → WindowsTun → WindowsTun
on_arrival pkt t = record t { arrived = t.arrived ++ pkt ∷ [] }

unfoldable pub after_events : List Event → WindowsTun → Run
unfolding poll_read step_reader
after_events [] t = record { delivered = []; device = t }
after_events (arrives pkt ∷ es) t = after_events es (on_arrival pkt t)
after_events (turns ∷ es) t = after_events es (step_reader t)
after_events (reads room ∷ es) t =
    let step = poll_read room t in
    let rest = after_events es step.1 in
    record rest { delivered = bytes_of step.0 ++ rest.delivered }

-- How many packets the next turn of the thread can send: one, if it has not ended, has one to send,
-- and the channel has room.
abbrev pub sendable : WindowsTun → ℕ
sendable t =
    if not t.reader_gone
      && (not (is_empty (unsent t.held t.arrived)) && ltb (length t.incoming) channel_depth)
    then 1
    else 0

-- What a read with some room is to answer: what of the next packet fits, or else the end of the
-- packets where the thread that reads has ended.
abbrev pub next_packet : Option (Bytes × ℕ) → List Bytes → Option Bytes
next_packet (some (pkt, offset)) ps = some (drop offset pkt)
next_packet none (pkt ∷ ps) = some pkt
next_packet none [] = none

abbrev pub answer : ℕ → Bool → Option Bytes → Polled
answer room gone (some bytes) = ready (take room bytes)
answer room true none = ready []
answer room false none = waiting

-- After the events: no byte is lost, doubled or moved; the channel is within its depth; and the
-- thread and the reads wait only where they must.
pub record Kept (es : List Event) (t : WindowsTun) : Type 0 where
  pub bytes :
      (after_events es t).delivered ++ to_come (after_events es t).device ≡ to_come t ++ came es
  pub within : length (after_events es t).device.incoming ≤ max channel_depth (length t.incoming)
  pub sends :
      length (step_reader (after_events es t).device).incoming
      ≡ length (after_events es t).device.incoming + sendable (after_events es t).device
  pub answers :
      let u = (after_events es t).device in
      (room : ℕ)
      → (poll_read room u).0 ≡ answer room u.reader_gone (next_packet u.pending u.incoming)

unsent-append : (o : Option Bytes) (ps qs : List Bytes) → unsent o (ps ++ qs) ≡ unsent o ps ++ qs
unsent-append none ps qs = refl
unsent-append (some pkt) ps qs = refl

on_arrival_lem : (pkt : Bytes) (t : WindowsTun) → to_come (on_arrival pkt t) ≡ to_come t ++ pkt
on_arrival_lem pkt t =
    ap (λ (b : Bytes). unread t ++ b)
      (ap joined (unsent-append t.held t.arrived (pkt ∷ []))
        ∙ joined-append (unsent t.held t.arrived) (pkt ∷ [])
        ∙ ap (λ (p : Bytes). behind t ++ p) (append-nil pkt))
    ∙ sym (append_assoc (unread t) (behind t) pkt)

send_next_lem :
    (ps : List Bytes) (t : WindowsTun)
    → unsent t.held t.arrived ≡ ps
    → to_come (send_next ps t) ≡ to_come t
send_next_lem [] t e = refl
send_next_lem (pkt ∷ rest) t e = elim (Bool-cases (ltb (length t.incoming) channel_depth)) [
  | inl room ↦ rw room (
      ap (λ (j : Bytes). (pending_bytes t.pending ++ j) ++ joined rest)
        (joined-append t.incoming (pkt ∷ [])
          ∙ ap (λ (p : Bytes). joined t.incoming ++ p) (append-nil pkt))
      ∙ ap (λ (j : Bytes). j ++ joined rest)
          (sym (append_assoc (pending_bytes t.pending) (joined t.incoming) pkt))
      ∙ append_assoc (unread t) pkt (joined rest)
      ∙ sym (ap (λ ps. unread t ++ joined ps) e))
  | inr full ↦ rw full (sym (ap (λ ps. unread t ++ joined ps) e))
]

step_reader_lem : (t : WindowsTun) → to_come (step_reader t) ≡ to_come t
unfolding step_reader
step_reader_lem t =
    let next = send_next (unsent t.held t.arrived) t in
    elim t.reader_gone as (λ b. to_come (if b then t else next) ≡ to_come t) [
      | true ↦ refl
      | false ↦ send_next_lem (unsent t.held t.arrived) t refl
    ]

-- A read leaves alone what the thread has not sent.
put-behind :
    (pkt : Bytes) (offset room : ℕ) (t : WindowsTun) → behind (put pkt offset room t).1 ≡ behind t
put-behind pkt offset room t = refl

read_from-behind :
    (room : ℕ) (o : Option (Bytes × ℕ)) (ps : List Bytes) (t : WindowsTun)
    → t.incoming ≡ ps
    → (behind (read_from room o t).1 ≡ behind t)
      × (length (read_from room o t).1.incoming ≤ length t.incoming)
read_from-behind room (some (pkt, offset)) ps t e = (refl, omega arith)
read_from-behind room none [] t e = elim (Bool-cases t.reader_gone) [
  | inl gone ↦ rw (e, gone) (refl, omega arith)
  | inr there ↦ rw (e, there) (refl, omega arith)
]
read_from-behind room none (pkt ∷ rest) t e = rw e (refl, omega arith)

after_read :
    (room : ℕ) (t : WindowsTun)
    → bytes_of (read_from room t.pending t).0 ++ to_come (read_from room t.pending t).1 ≡ to_come t
after_read room t =
    let step = read_from room t.pending t in
    sym (append_assoc (bytes_of step.0) (unread step.1) (behind step.1))
    ∙ ap₂ (λ (u b : Bytes). u ++ b) (read_from_lem room t.pending t refl)
        (read_from-behind room t.pending t.incoming t refl).0

send_next-sends :
    (ps : List Bytes) (t : WindowsTun)
    → length (send_next ps t).incoming
      ≡ length t.incoming
        + (if not (is_empty ps) && ltb (length t.incoming) channel_depth then 1 else 0)
send_next-sends [] t = omega arith
send_next-sends (pkt ∷ rest) t = let longer = length-append t.incoming (pkt ∷ []) in ground arith

step_reader-sends :
    (t : WindowsTun) → length (step_reader t).incoming ≡ length t.incoming + sendable t
unfolding step_reader
step_reader-sends t =
    let ps = unsent t.held t.arrived in
    let room = not (is_empty ps) && ltb (length t.incoming) channel_depth in
    elim t.reader_gone
      as (λ b.
        length (if b then t else send_next ps t).incoming
        ≡ length t.incoming + (if not b && room then 1 else 0)) [
          | true ↦ omega arith
          | false ↦ send_next-sends ps t
        ]

read_from-answer :
    (room : ℕ) (o : Option (Bytes × ℕ)) (t : WindowsTun) (ps : List Bytes)
    → t.incoming ≡ ps
    → (read_from room o t).0 ≡ answer room t.reader_gone (next_packet o ps)
read_from-answer room (some (pkt, offset)) t ps e = ap ready (take-min room (drop offset pkt))
read_from-answer room none t (pkt ∷ rest) e =
    ap (λ ps. (receive room ps t).0) e ∙ ap ready (take-min room pkt)
read_from-answer room none t [] e =
    ap (λ ps. (receive room ps t).0) e
    ∙ elim t.reader_gone
        as (λ b.
          (if◌then◌else◌ {A = Polled × WindowsTun} b (ready [], t) (waiting, t)).0
          ≡ answer room b none) [ true ↦ refl | false ↦ refl ]

poll_read-answers :
    (t : WindowsTun) (room : ℕ)
    → (poll_read room t).0 ≡ answer room t.reader_gone (next_packet t.pending t.incoming)
unfolding poll_read
poll_read-answers t room = read_from-answer room t.pending t t.incoming refl

sendable-le :
    (t : WindowsTun) → length t.incoming + sendable t ≤ max channel_depth (length t.incoming)
sendable-le t = ground arith

after_events-bytes :
    (es : List Event) (t : WindowsTun)
    → (after_events es t).delivered ++ to_come (after_events es t).device ≡ to_come t ++ came es
unfolding after_events poll_read
after_events-bytes [] t = sym (append-nil (to_come t))
after_events-bytes (arrives pkt ∷ es) t =
    after_events-bytes es (on_arrival pkt t)
    ∙ ap (λ (u : Bytes). u ++ came es) (on_arrival_lem pkt t)
    ∙ append_assoc (to_come t) pkt (came es)
after_events-bytes (turns ∷ es) t =
    after_events-bytes es (step_reader t) ∙ ap (λ (u : Bytes). u ++ came es) (step_reader_lem t)
after_events-bytes (reads room ∷ es) t =
    let step = poll_read room t in
    let rest = after_events es step.1 in
    append_assoc (bytes_of step.0) rest.delivered (to_come rest.device)
    ∙ ap (λ (u : Bytes). bytes_of step.0 ++ u) (after_events-bytes es step.1)
    ∙ sym (append_assoc (bytes_of step.0) (to_come step.1) (came es))
    ∙ ap (λ (u : Bytes). u ++ came es) (after_read room t)

after_events-within :
    (es : List Event) (t : WindowsTun)
    → length (after_events es t).device.incoming ≤ max channel_depth (length t.incoming)
unfolding after_events poll_read
after_events-within [] t = ground arith
after_events-within (arrives pkt ∷ es) t = after_events-within es (on_arrival pkt t)
after_events-within (turns ∷ es) t =
    let later = after_events-within es (step_reader t) in
    let grown = step_reader-sends t in let fits = sendable-le t in ground arith
after_events-within (reads room ∷ es) t =
    let step = poll_read room t in
    let later = after_events-within es step.1 in
    let fewer = (read_from-behind room t.pending t.incoming t refl).1 in ground arith

-- Whatever packets wintun receives, whenever the thread that reads makes a turn, and whatever the
-- buffers of the reads, the bytes that were read, followed by those still to be read or sent, are
-- those that were to be at first, followed by all the packets that came; the channel never grows
-- beyond its depth; the next turn of the thread sends one packet, unless the thread has ended, has
-- none to send, or the channel is full; and the next read gives what fits of the next packet, waits
-- where there is none, or gives the end where the thread has ended too.
pub after_events-Kept : (es : List Event) (t : WindowsTun) → Kept es t
after_events-Kept es t = record {
  bytes = after_events-bytes es t;
  within = after_events-within es t;
  sends = step_reader-sends (after_events es t).device;
  answers = poll_read-answers (after_events es t).device;
}
