-- ===== src/Macos/Polls.antt =====
-- src/platform/macos/tun.rs: the loop of `poll_read` ends, whatever the descriptor answers.
use cortado.Base.{
  take-min, ℕ, zero, suc, ◌<◌, ◌≤◌, ◌≡◌, refl, sym, ap, ap₂, subst, ◌∙◌, inl, inr, Bool, true,
  false, [], ◌∷◌, ◌++◌, Option, none, some, Bytes, length, take, drop, min, ltb, append-nil,
  Bool-cases, arith, length-append, length-take, length-drop, take-length-append,
}
use cortado.Macos.Tun.{
  MacosTun, Attempt, not_ready, ready_failed, blocked, failed, done, Poll, pending, error, ready,
  turn, poll_loop, ReadBuf, remaining, put_slice, read_into, delivered, on_read, poll_read,
  utun_prefix,
}

abbrev pub is_blocked : {A : Type 0} → Attempt A → Bool
is_blocked blocked = true
is_blocked _ = false

is_blocked-blocked : {A : Type 0} (a : Attempt A) → is_blocked a ≡ true → a ≡ blocked
is_blocked-blocked not_ready h = cc
is_blocked-blocked ready_failed h = cc
is_blocked-blocked blocked h = refl
is_blocked-blocked failed h = cc
is_blocked-blocked (done a) h = cc

turn-unblocked :
    {A R : Type 0} (on : A → R) (a : Attempt A) (rest : Option (Poll R))
    → is_blocked a ≡ false
    → turn on a rest ≡ turn on a none
turn-unblocked on not_ready rest h = refl
turn-unblocked on ready_failed rest h = refl
turn-unblocked on blocked rest h = cc
turn-unblocked on failed rest h = refl
turn-unblocked on (done a) rest h = refl

-- The turn that ends a loop, the first that is not blocked, and what the loop comes to.
pub record Ends {A R : Type 0} (fuel : ℕ) (attempts : ℕ → Attempt A) (on : A → R) : Type 0 where
  pub last : ℕ
  pub before : (j : ℕ) → j < last → attempts j ≡ blocked
  pub unblocked : is_blocked (attempts last) ≡ false
  pub result : poll_loop fuel attempts on ≡ turn on (attempts last) none

all_before :
    {A : Type 0} (attempts : ℕ → Attempt A) (last : ℕ)
    → attempts 0 ≡ blocked
    → ((j : ℕ) → j < last → attempts (suc j) ≡ blocked)
    → (j : ℕ) → j < suc last
    → attempts j ≡ blocked
all_before attempts last now rest zero h = now
all_before attempts last now rest (suc j) h = rest j (omega (arith, h))

-- With more turns than tokio has notices, the loop ends.
poll_loop-Ends :
    {A R : Type 0} (on : A → R) (fuel : ℕ) (attempts : ℕ → Attempt A) (notices : ℕ → ℕ)
    → ((i : ℕ) → attempts i ≡ blocked → notices (suc i) < notices i)
    → notices 0 < fuel
    → Ends fuel attempts on
unfolding poll_loop
poll_loop-Ends on zero attempts notices uses more = absurd (omega (arith, more))
poll_loop-Ends on (suc fuel) attempts notices uses more =
    elim (Bool-cases (is_blocked (attempts 0))) [
      | inr now ↦ record {
        last = 0;
        before = λ j less. absurd (omega (arith, less));
        unblocked = now;
        result = turn-unblocked on (attempts 0) _ now;
      }
      | inl later ↦
          let waits = is_blocked-blocked (attempts 0) later in
          let fewer = uses 0 waits in
          let rest =
            poll_loop-Ends on fuel (λ i. attempts (suc i)) (λ i. notices (suc i))
              (λ i. uses (suc i)) (omega (arith, fewer, more)) in
          record {
            last = suc rest.last;
            before = all_before attempts rest.last waits rest.before;
            unblocked = rest.unblocked;
            result =
                ap (λ a. turn on a (poll_loop fuel (λ i. attempts (suc i)) on)) waits ∙ rest.result;
          }
    ]

-- The bytes of a datagram that a read with that much room gives to the caller: those after the
-- family, of what fits the scratch.
abbrev pub payload : MacosTun → ReadBuf → Bytes → Bytes
payload t buf datagram = take (remaining buf) (drop 4 (take (length t.read_scratch) datagram))

-- What `poll_read` comes to, by what the descriptor answers in the turn that is not blocked: a
-- datagram is delivered, and the scratch keeps its length; else nothing is read.
abbrev pub IsRead : MacosTun → ReadBuf → Attempt Bytes → Option (Poll (MacosTun × ReadBuf)) → Type 0
IsRead t buf not_ready r = r ≡ some pending
IsRead t buf ready_failed r = r ≡ some error
IsRead t buf blocked r = ⊥
IsRead t buf failed r = r ≡ some error
IsRead t buf (done datagram) r =
    (scratch : Bytes) × (length scratch ≡ length t.read_scratch)
    × (r
        ≡ some (
            ready (
              record t { read_scratch = scratch },
              record buf { filled = buf.filled ++ payload t buf datagram },
            )))

pub record Polled (t : MacosTun) (buf : ReadBuf) (fuel : ℕ) (attempts : ℕ → Attempt Bytes)
    : Type 0 where
  pub last : ℕ
  pub before : (j : ℕ) → j < last → attempts j ≡ blocked
  pub result : IsRead t buf (attempts last) (poll_read fuel attempts t buf)

no_payload : (k n : ℕ) (xs : Bytes) → length xs ≤ n → take k (drop n xs) ≡ []
no_payload zero n xs h = refl
no_payload (suc k) zero [] h = refl
no_payload (suc k) zero (x ∷ xs) h = absurd (omega (arith, h))
no_payload (suc k) (suc n) [] h = refl
no_payload (suc k) (suc n) (x ∷ xs) h = no_payload (suc k) n xs (omega (arith, h))

-- Where there is no more than the family, the buffer gets nothing.
delivered_lem :
    (frame : Bytes) (buf : ReadBuf)
    → delivered (length frame) frame buf
      ≡ record buf { filled = buf.filled ++ take (remaining buf) (drop 4 frame) }
delivered_lem frame buf = elim (Bool-cases (ltb utun_prefix (length frame))) [
  | inl more ↦ rw more (ap (λ p. put_slice p buf) (take-min (remaining buf) (drop 4 frame)))
  | inr short ↦
      let nothing = no_payload (remaining buf) 4 frame (ground (arith, short)) in
      rw (short, nothing, append-nil buf.filled) refl
]

-- The whole of a read that takes a datagram, with nothing of what the scratch held before.
on_read_lem :
    (datagram : Bytes) (t : MacosTun) (buf : ReadBuf)
    → on_read datagram (t, buf) ≡ (
      record t { read_scratch = read_into t.read_scratch datagram },
      record buf { filled = buf.filled ++ payload t buf datagram },
    )
unfolding on_read
on_read_lem datagram t buf =
    let n = min (length datagram) (length t.read_scratch) in
    let scratch = read_into t.read_scratch datagram in
    let size : length (take n datagram) ≡ n =
      let cut = length-take n datagram in omega (arith, cut) in
    let front : take n scratch ≡ take n datagram =
      ap (λ k. take k scratch) (sym size)
      ∙ take-length-append (take n datagram) (drop n t.read_scratch) in
    ap₂ (λ k f. (record t { read_scratch = scratch }, delivered k f buf)) (sym size) front
    ∙ ap (λ b. (record t { read_scratch = scratch }, b)) (delivered_lem (take n datagram) buf)
    ∙ ap
        (λ f. (
          record t { read_scratch = scratch },
          record buf { filled = buf.filled ++ take (remaining buf) (drop 4 f) },
        ))
        (take-min (length t.read_scratch) datagram)

length-read_into : (scratch datagram : Bytes) → length (read_into scratch datagram) ≡ length scratch
length-read_into scratch datagram =
    let n = min (length datagram) (length scratch) in
    let size = length-append (take n datagram) (drop n scratch) in
    let front = length-take n datagram in
    let back = length-drop n scratch in omega (arith, size, front, back)

turn-IsRead :
    (t : MacosTun) (buf : ReadBuf) (a : Attempt Bytes)
    → is_blocked a ≡ false
    → IsRead t buf a (turn (λ datagram. on_read datagram (t, buf)) a none)
turn-IsRead t buf not_ready h = refl
turn-IsRead t buf ready_failed h = refl
turn-IsRead t buf blocked h = cc
turn-IsRead t buf failed h = refl
turn-IsRead t buf (done datagram) h = (
  read_into t.read_scratch datagram,
  length-read_into t.read_scratch datagram,
  ap (λ x. some (ready x)) (on_read_lem datagram t buf),
)

-- If each read that would block uses up one of the notices of readiness that tokio has, then with
-- more turns than notices `poll_read` ends, by the first turn that is not blocked: it is pending
-- where the descriptor is not ready, an error where the wait or the read fails, and otherwise adds
-- to the buffer the bytes of the datagram after the family, cut off to the scratch and to the room
-- of the buffer.
pub poll_read_total :
    (t : MacosTun) (buf : ReadBuf) (fuel : ℕ) (attempts : ℕ → Attempt Bytes) (notices : ℕ → ℕ)
    → ((i : ℕ) → attempts i ≡ blocked → notices (suc i) < notices i)
    → notices 0 < fuel
    → Polled t buf fuel attempts
unfolding poll_read
poll_read_total t buf fuel attempts notices uses more =
    let on : Bytes → MacosTun × ReadBuf = λ datagram. on_read datagram (t, buf) in
    let ends = poll_loop-Ends on fuel attempts notices uses more in
    record {
      last = ends.last;
      before = ends.before;
      result =
          subst (λ r. IsRead t buf (attempts ends.last) r) (sym ends.result)
            (turn-IsRead t buf (attempts ends.last) ends.unblocked);
    }
