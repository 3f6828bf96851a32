-- ===== src/Macos/Tun.antt =====
-- src/platform/macos/tun.rs: `MacosTun`, whose packets have four bytes of address family before them.
-- The descriptor is tokio's and libc's: what each attempt on it comes to is an argument, and libc's two
-- family numbers are parameters.
use cortado.Base.{
  ℕ, zero, suc, ◌+◌, ◌-◌, ◌/◌, min, [], ◌∷◌, ◌++◌, Option, none, some, Bytes, length, take, drop,
  ltb, nat_beq, is_empty, if◌then◌else◌,
}
use cortado.Addr.{to_be_bytes}

abbrev pub utun_prefix : ℕ
utun_prefix = 4

abbrev pub max_packet : ℕ
max_packet = 65536

pub record MacosTun : Type 0 where
  pub name : Bytes
  pub mtu : ℕ
  pub read_scratch : Bytes
  pub write_scratch : Bytes

abbrev pub zeros : ℕ → Bytes
zeros zero = []
zeros (suc n) = 0 ∷ zeros n

-- What one turn of a loop comes to: the descriptor is not ready, or waiting for it fails; or it is
-- ready, and the call would block, fails or succeeds.
pub data Attempt (A : Type 0) : Type 0 where
  not_ready ready_failed blocked failed : Attempt A
  done : A → Attempt A

pub data Poll (A : Type 0) : Type 0 where
  pending error : Poll A
  ready : A → Poll A

-- The loop ends with the first turn that would not block.
abbrev pub turn : {A R : Type 0} → (A → R) → Attempt A → Option (Poll R) → Option (Poll R)
turn on not_ready rest = some pending
turn on ready_failed rest = some error
turn on blocked rest = rest
turn on failed rest = some error
turn on (done a) rest = some (ready (on a))

unfoldable pub poll_loop : {A R : Type 0} → ℕ → (ℕ → Attempt A) → (A → R) → Option (Poll R)
poll_loop zero attempts on = none
poll_loop (suc fuel) attempts on =
    let rest = poll_loop fuel (λ i. attempts (suc i)) on in turn on (attempts 0) rest

-- A `ReadBuf`: what is filled of so much room.
pub record ReadBuf : Type 0 where
  pub filled : Bytes
  pub capacity : ℕ

abbrev pub remaining : ReadBuf → ℕ
remaining buf = buf.capacity - length buf.filled

abbrev pub put_slice : Bytes → ReadBuf → ReadBuf
put_slice bytes buf = record buf { filled = buf.filled ++ bytes }

-- `read` puts a datagram into the scratch, and drops what does not fit.
abbrev pub read_into : Bytes → Bytes → Bytes
read_into scratch datagram =
    let n = min (length datagram) (length scratch) in take n datagram ++ drop n scratch

-- What of a frame of so many bytes is put into the buffer.
abbrev pub delivered : ℕ → Bytes → ReadBuf → ReadBuf
delivered n frame buf =
    let payload = drop utun_prefix frame in
    let taken = take (min (length payload) (remaining buf)) payload in
    if ltb utun_prefix n then put_slice taken buf else buf

unfoldable pub on_read : Bytes → MacosTun × ReadBuf → MacosTun × ReadBuf
on_read datagram (t, buf) =
    let n = min (length datagram) (length t.read_scratch) in
    let scratch = read_into t.read_scratch datagram in
    (record t { read_scratch = scratch }, delivered n (take n scratch) buf)

-- With so many turns of the loop.
unfoldable pub poll_read :
    ℕ → (ℕ → Attempt Bytes) → MacosTun → ReadBuf → Option (Poll (MacosTun × ReadBuf))
poll_read fuel attempts t buf = poll_loop fuel attempts (λ datagram. on_read datagram (t, buf))

-- `Vec::resize`, only where it must grow.
abbrev pub grown : ℕ → Bytes → Bytes
grown total scratch =
    if ltb (length scratch) total then scratch ++ zeros (total - length scratch) else scratch

-- `slice[at..at + n].copy_from_slice(bytes)`.
abbrev pub copied : ℕ → Bytes → Bytes → Bytes
copied from bytes scratch = take from scratch ++ (bytes ++ drop (from + length bytes) scratch)

module _ (af_inet af_inet6 : ℕ) where
  abbrev pub family_of : Bytes → ℕ
  family_of [] = af_inet
  family_of (b ∷ bs) = if nat_beq (b / 16) 6 then af_inet6 else af_inet

  -- The scratch once the packet is laid into it.
  unfoldable pub laid : Bytes → Bytes → Bytes
  laid scratch buf =
      let room = grown (utun_prefix + length buf) scratch in
      copied utun_prefix buf (copied 0 (to_be_bytes 4 (family_of buf)) room)

  abbrev pub frame_in : Bytes → Bytes → Bytes
  frame_in scratch buf = take (utun_prefix + length buf) (laid scratch buf)

  -- What is written, and how many bytes the caller is told.
  unfoldable pub poll_write :
      ℕ → (ℕ → Attempt ℕ) → MacosTun → Bytes → MacosTun × (Option (Poll ℕ) × Bytes)
  poll_write fuel attempts t buf = if is_empty buf then (t, (some (ready 0), [])) else (
    record t { write_scratch = laid t.write_scratch buf },
    (poll_loop fuel attempts (λ n. length buf), frame_in t.write_scratch buf),
  )
