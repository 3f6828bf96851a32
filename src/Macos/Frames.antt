-- ===== src/Macos/Frames.antt =====
-- src/platform/macos/tun.rs: what is written is read back.
use cortado.Base.{
  ℕ, zero, suc, ◌+◌, ◌-◌, ◌≤◌, ◌<◌, min, max, ◌≡◌, refl, sym, ap, ap₂, ◌∙◌, true, false, [], ◌∷◌,
  ◌++◌, append_assoc, some, Bytes, length, take, drop, ltb, lt→ltb, is_empty, arith, length-append,
  length-take, length-drop, take-length-append, take-length, drop-length-append,
}
use cortado.Addr.{to_be_bytes, length-to_be_bytes}
use cortado.Macos.Tun.{
  MacosTun, Attempt, done, ready, turn, poll_loop, ReadBuf, remaining, put_slice, read_into,
  delivered, on_read, poll_read, grown, zeros, copied, laid, frame_in, family_of, poll_write,
  utun_prefix,
}

length-zeros : (n : ℕ) → length (zeros n) ≡ n
length-zeros zero = refl
length-zeros (suc n) = ap suc (length-zeros n)

positive : (bs : Bytes) → is_empty bs ≡ false → 0 < length bs
positive [] h = cc
positive (b ∷ bs) h = omega arith

delivered-frame :
    (front packet : Bytes) (buf : ReadBuf)
    → length front ≡ 4
    → is_empty packet ≡ false
    → length packet ≤ remaining buf
    → delivered (length (front ++ packet)) (front ++ packet) buf ≡ put_slice packet buf
delivered-frame front packet buf four full room =
    let size = length-append front packet in
    let some_bytes = positive packet full in
    let long : ltb utun_prefix (length (front ++ packet)) ≡ true =
      lt→ltb utun_prefix (length (front ++ packet)) (omega (arith, size, four, some_bytes)) in
    let payload : drop utun_prefix (front ++ packet) ≡ packet =
      ap (λ n. drop n (front ++ packet)) (sym four) ∙ drop-length-append front packet in
    let all : min (length packet) (remaining buf) ≡ length packet = omega (arith, room) in
    rw (long, payload, all, take-length packet) refl

module _ (af_inet af_inet6 : ℕ) where
  length-grown :
      (total : ℕ) (scratch : Bytes) → length (grown total scratch) ≡ max total (length scratch)
  length-grown total scratch =
      let more = length-append scratch (zeros (total - length scratch)) in
      let new = length-zeros (total - length scratch) in ground (arith, more, new)

  length-copied :
      (from : ℕ) (bytes scratch : Bytes)
      → from + length bytes ≤ length scratch
      → length (copied from bytes scratch) ≡ length scratch
  length-copied from bytes scratch fits =
      let outer = length-append (take from scratch) (bytes ++ drop (from + length bytes) scratch) in
      let inner = length-append bytes (drop (from + length bytes) scratch) in
      let front = length-take from scratch in
      let back = length-drop (from + length bytes) scratch in
      omega (arith, outer, inner, front, back, fits)

  -- The copies are within the scratch, which only grows.
  pub length-laid :
      (scratch buf : Bytes)
      → length (laid af_inet af_inet6 scratch buf) ≡ max (utun_prefix + length buf) (length scratch)
  unfolding laid
  length-laid scratch buf =
      let be = to_be_bytes 4 (family_of af_inet af_inet6 buf) in
      let four : length be ≡ 4 = length-to_be_bytes 4 (family_of af_inet af_inet6 buf) in
      let room = grown (utun_prefix + length buf) scratch in
      let size = length-grown (utun_prefix + length buf) scratch in
      let first = length-copied 0 be room (omega (arith, four, size)) in
      length-copied utun_prefix buf (copied 0 be room) (omega (arith, first, size)) ∙ first ∙ size

  -- The frame is the family and the packet, whatever was in the scratch.
  pub frame_in_lem :
      (scratch buf : Bytes)
      → frame_in af_inet af_inet6 scratch buf
        ≡ to_be_bytes 4 (family_of af_inet af_inet6 buf) ++ buf
  unfolding laid
  frame_in_lem scratch buf =
      let be = to_be_bytes 4 (family_of af_inet af_inet6 buf) in
      let four : length be ≡ 4 = length-to_be_bytes 4 (family_of af_inet af_inet6 buf) in
      let room = grown (utun_prefix + length buf) scratch in
      let x = copied 0 be room in
      let rest = drop (4 + length buf) x in
      let front : take 4 x ≡ be =
        ap (λ n. take n x) (sym four) ∙ take-length-append be (drop (0 + length be) room) in
      let whole : take 4 x ++ (buf ++ rest) ≡ (be ++ buf) ++ rest =
        ap (λ f. f ++ (buf ++ rest)) front ∙ sym (append_assoc be buf rest) in
      let size : length (be ++ buf) ≡ 4 + length buf =
        length-append be buf ∙ ap (λ n. n + length buf) four in
      ap (take (4 + length buf)) whole
      ∙ ap (λ n. take n ((be ++ buf) ++ rest)) (sym size)
      ∙ take-length-append (be ++ buf) rest

  -- A frame that fits the scratch is read into the room that there is.
  on_read-frame :
      (front packet : Bytes) (t : MacosTun) (buf : ReadBuf)
      → length front ≡ 4
      → is_empty packet ≡ false
      → 4 + length packet ≤ length t.read_scratch
      → length packet ≤ remaining buf
      → on_read (front ++ packet) (t, buf) ≡ (
        record t { read_scratch = read_into t.read_scratch (front ++ packet) },
        put_slice packet buf,
      )
  unfolding on_read
  on_read-frame front packet t buf four full fits room =
      let frame = front ++ packet in
      let scratch = t.read_scratch in
      let size = length-append front packet in
      let n : min (length frame) (length scratch) ≡ length frame =
        omega (arith, size, four, fits) in
      let back : take (min (length frame) (length scratch)) (read_into scratch frame) ≡ frame =
        ap (λ k. take k (take k frame ++ drop k scratch)) n
        ∙ ap (λ f. take (length frame) (f ++ drop (length frame) scratch)) (take-length frame)
        ∙ take-length-append frame (drop (length frame) scratch) in
      ap₂ (λ k f. (record t { read_scratch = read_into scratch frame }, delivered k f buf)) n back
      ∙ ap (λ b. (record t { read_scratch = read_into scratch frame }, b))
          (delivered-frame front packet buf four full room)

  -- A packet, not an empty one, that one device writes is read whole by another whose scratch and
  -- buffer have room for it, if its descriptor is ready: the frame that was written is delivered
  -- without its family, and nothing of what the scratches held before.
  pub poll_read-poll_write :
      (writer reader : MacosTun) (packet : Bytes) (buf : ReadBuf) (fuel wait : ℕ)
      (sending : ℕ → Attempt ℕ) (attempts : ℕ → Attempt Bytes)
      → is_empty packet ≡ false
      → 4 + length packet ≤ length reader.read_scratch
      → length packet ≤ remaining buf
      → let frame = (poll_write af_inet af_inet6 fuel sending writer packet).1.1 in
        attempts 0 ≡ done frame
        → poll_read (suc wait) attempts reader buf
          ≡ some (
              ready (
                record reader { read_scratch = read_into reader.read_scratch frame },
                put_slice packet buf,
              ))
  unfolding poll_read poll_loop poll_write
  poll_read-poll_write writer reader packet buf fuel wait sending attempts full fits room there =
      let family = family_of af_inet af_inet6 packet in
      let front = to_be_bytes 4 family in
      let frame : (poll_write af_inet af_inet6 fuel sending writer packet).1.1 ≡ front ++ packet =
        rw full (frame_in_lem writer.write_scratch packet) in
      ap
        (λ a.
          turn (λ datagram. on_read datagram (reader, buf)) a
            (poll_loop wait (λ i. attempts (suc i)) (λ datagram. on_read datagram (reader, buf))))
        there
      ∙ ap (λ f. some (ready (on_read f (reader, buf)))) frame
      ∙ ap (λ x. some (ready x))
          (on_read-frame front packet reader buf (length-to_be_bytes 4 family) full fits room)
      ∙ ap
          (λ f. some (
            ready (
              record reader { read_scratch = read_into reader.read_scratch f },
              put_slice packet buf,
            )))
          (sym frame)
