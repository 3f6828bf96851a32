-- ===== src/Windows/Tun.antt =====
-- src/platform/windows/tun.rs: the device between the two threads of wintun and the task that reads
-- and writes it. The two channels are lists; a poll that has to wait is `waiting`. What wintun has
-- received and the thread that reads has not is in `arrived`.
use cortado.Base.{
  ℕ, ◌+◌, Bool, ◌||◌, List, [], ◌∷◌, ◌++◌, Option, none, some, Bytes, min, ltb, nat_beq, length,
  take, drop, if◌then◌else◌,
}

abbrev pub channel_depth : ℕ
channel_depth = 4096

-- `held`: the packet for which the thread that reads waits in `blocking_send`.
pub record WindowsTun : Type 0 where
  pub arrived : List Bytes
  pub held : Option Bytes
  pub incoming : List Bytes
  pub reader_gone : Bool
  pub outgoing : List Bytes
  pub writer_gone : Bool
  pub pending : Option (Bytes × ℕ)

pub data Polled : Type 0 where
  waiting : Polled
  ready : Bytes → Polled

-- The packet from the offset on goes into a buffer with that much room; what does not fit is pending.
abbrev pub put : Bytes → ℕ → ℕ → WindowsTun → Polled × WindowsTun
put pkt offset room t =
    let remaining = drop offset pkt in
    let taken = min (length remaining) room in
    (
      ready (take taken remaining),
      record t {
        pending = if ltb (offset + taken) (length pkt) then some (pkt, offset + taken) else none;
      },
    )

abbrev pub receive : ℕ → List Bytes → WindowsTun → Polled × WindowsTun
receive room (pkt ∷ rest) t = put pkt 0 room (record t { incoming = rest })
receive room [] t = if t.reader_gone then (ready [], t) else (waiting, t)

abbrev pub read_from : ℕ → Option (Bytes × ℕ) → WindowsTun → Polled × WindowsTun
read_from room (some (pkt, offset)) t = put pkt offset room t
read_from room none t = receive room t.incoming t

unfoldable pub poll_read : ℕ → WindowsTun → Polled × WindowsTun
poll_read room t = read_from room t.pending t

-- What the thread that reads from wintun has still to send.
abbrev pub unsent : Option Bytes → List Bytes → List Bytes
unsent none ps = ps
unsent (some pkt) ps = pkt ∷ ps

-- `blocking_send` of the next packet: while the channel is full, the thread holds it and waits.
-- Where there is none, the thread waits in `receive_blocking`.
abbrev pub send_next : List Bytes → WindowsTun → WindowsTun
send_next [] t = t
send_next (pkt ∷ rest) t =
    if ltb (length t.incoming) channel_depth
    then record t { arrived = rest; held = none; incoming = t.incoming ++ pkt ∷ [] }
    else record t { arrived = rest; held = some pkt }

-- One turn of the thread, or one more try of a `blocking_send` that waits.
unfoldable pub step_reader : WindowsTun → WindowsTun
step_reader t = if t.reader_gone then t else send_next (unsent t.held t.arrived) t

-- The number of bytes written; `none` where the thread that writes has ended.
unfoldable pub poll_write : Bytes → WindowsTun → Option ℕ × WindowsTun
poll_write buf t =
    if t.writer_gone
    then (none, t)
    else (some (length buf), record t { outgoing = t.outgoing ++ buf ∷ [] })

-- The thread that writes takes a packet, and sends it if wintun can hold it.
abbrev pub sent : Bytes → List Bytes
sent buf = if nat_beq (length buf) 0 || ltb 65535 (length buf) then [] else buf ∷ []

abbrev pub written : List Bytes → WindowsTun → List Bytes × WindowsTun
written [] t = ([], t)
written (buf ∷ rest) t = (sent buf, record t { outgoing = rest })

unfoldable pub on_writable : WindowsTun → List Bytes × WindowsTun
on_writable t = written t.outgoing t
