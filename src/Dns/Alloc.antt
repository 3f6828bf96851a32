-- ===== src/Dns/Alloc.antt =====
-- src/dns.rs: `Conn::allocate_id` finds a free id whenever fewer than the limit are taken.
use cortado.Base.{
  ℕ, zero, suc, ◌+◌, ◌%◌, ◌^◌, ◌≤◌, ◌<◌, ◌≡◌, refl, ap₂, inl, inr, ◌≢◌, ◌↔◌, Bool, true, ◌&&◌, List,
  ◌∷◌, Option, none, some, arith, leb, is_some, length, lookup, remove, lookup-remove,
  length-remove-lt, nat_eq, Bool-cases,
}
use mathlib.Core.Bool.{and-eq-true_iff}
use cortado.Dns.Conn.{
  Conn, Sender, orphan, candidate, advanced, find_vacant, allocate_id, max_inflight_per_conn,
}

-- The `rounds` ids from `start` on, modulo 2^16, are all taken.
all_taken : ℕ → ℕ → List (ℕ × Sender) → Bool
all_taken zero start m = true
all_taken (suc rounds) start m =
    is_some (lookup (candidate start) m) && all_taken rounds (start + 1) m

-- Forgetting one id leaves the ids behind it taken, until the numbers come round again.
all_taken-remove :
    (rounds at start : ℕ) (m : List (ℕ × Sender))
    → start < at
    → at + rounds ≤ start + 2 ^ 16
    → all_taken rounds at m ≡ true
    → all_taken rounds at (remove (candidate start) m) ≡ true
unfolding all_taken
all_taken-remove zero at start m before room h = refl
all_taken-remove (suc rounds) at start m before room h =
    let other : candidate start ≢ candidate at = omega arith in
    ground (
      arith,
      all_taken-remove rounds (at + 1) start m (omega arith) (omega arith),
      lookup-remove (candidate start) (candidate at) m,
    )

-- The pigeonhole principle: so many distinct taken ids need as many entries.
all_taken-le-length :
    (rounds start : ℕ) (m : List (ℕ × Sender))
    → rounds ≤ 2 ^ 16
    → all_taken rounds start m ≡ true
    → rounds ≤ length m
unfolding all_taken
all_taken-le-length zero start m room h = omega arith
all_taken-le-length (suc rounds) start m room h =
    let (first, later) = (and-eq-true_iff _ _).0 h in
    let fewer = length-remove-lt (candidate start) m first in
    omega (
      arith,
      all_taken-le-length rounds (start + 1) (remove (candidate start) m) (omega arith)
          (all_taken-remove rounds (start + 1) start m (omega arith) (omega arith) later),
    )

all_taken-mod :
    (rounds a b : ℕ) (m : List (ℕ × Sender))
    → a % 2 ^ 16 ≡ b % 2 ^ 16
    → all_taken rounds a m ≡ all_taken rounds b m
unfolding all_taken
all_taken-mod zero a b m e = refl
all_taken-mod (suc rounds) a b m e =
    ap₂ (λ (c : ℕ) (rest : Bool). is_some (lookup c m) && rest) e
      (all_taken-mod rounds (a + 1) (b + 1) m (omega arith))

-- The loop gives up only when it has seen nothing but taken ids.
find_vacant-none :
    (rounds : ℕ) (c : Conn)
    → (find_vacant rounds c).0 ≡ none
    → all_taken rounds c.next_id c.inflight ≡ true
unfolding find_vacant all_taken
find_vacant-none zero c h = refl
find_vacant-none (suc rounds) c h = ground (
  arith,
  find_vacant-none rounds (advanced c),
  all_taken-mod rounds ((c.next_id + 1) % 2 ^ 64) (c.next_id + 1) c.inflight (omega arith),
)

-- What an allocation did: a 16-bit id that was free, entered once, and nothing else changed but the
-- counter.
pub record IsAllocated (c : Conn) (id : ℕ) (d : Conn) : Type 0 where
  pub fits : id < 2 ^ 16
  pub was_free : lookup id c.inflight ≡ none
  pub entered : d.inflight ≡ (id, orphan) ∷ c.inflight
  pub alive_kept : d.alive ≡ c.alive
  pub used_kept : d.last_used ≡ c.last_used
  pub sent_kept : d.sent ≡ c.sent
  pub via_kept : d.via ≡ c.via

find_vacant-IsAllocated :
    (rounds : ℕ) (c d : Conn) (id : ℕ) → find_vacant rounds c ≡ (some id, d) → IsAllocated c id d
unfolding find_vacant
find_vacant-IsAllocated zero c d id h = ground arith
find_vacant-IsAllocated (suc rounds) c d id h =
    elim (Bool-cases (is_some (lookup (candidate c.next_id) c.inflight))) [
      | inl taken ↦
          let ih = find_vacant-IsAllocated rounds (advanced c) d id (ground arith) in
          record {
            fits = ih.fits;
            was_free = ih.was_free;
            entered = ih.entered;
            alive_kept = ih.alive_kept;
            used_kept = ih.used_kept;
            sent_kept = ih.sent_kept;
            via_kept = ih.via_kept;
          }
      | inr free ↦ ground arith
    ]

find_vacant_full : (c : Conn) → (find_vacant (2 ^ 16) c).0 ≡ none → 2 ^ 16 ≤ length c.inflight
find_vacant_full c h =
    all_taken-le-length (2 ^ 16) c.next_id c.inflight (omega arith) (find_vacant-none (2 ^ 16) c h)

some_or_none {ℓ} : {A : Type ℓ} (o : Option A) → (o ≡ none → ⊥) → is_some o ≡ true
some_or_none none h = absurd (h refl)
some_or_none (some a) h = refl

-- An allocation succeeds exactly when fewer ids than the limit are in flight.
pub allocate_id_iff :
    (c : Conn) → (is_some (allocate_id c).0 ≡ true) ↔ (length c.inflight < max_inflight_per_conn)
unfolding allocate_id
allocate_id_iff c = elim (Bool-cases (leb max_inflight_per_conn (length c.inflight))) [
  | inl full ↦ rw full (λ h. cc, λ h. absurd (ground arith))
  | inr room ↦ rw room (
    λ h. ground arith,
    λ h.
        some_or_none (find_vacant (2 ^ 16) c).0
          (λ gone. let many = find_vacant_full c gone in omega arith),
  )
]

-- An allocation that succeeds gives a 16-bit id that was free, enters it once, and changes nothing
-- else but the counter.
pub allocate_id-IsAllocated :
    (c d : Conn) (id : ℕ) → allocate_id c ≡ (some id, d) → IsAllocated c id d
unfolding allocate_id
allocate_id-IsAllocated c d id h =
    elim (Bool-cases (leb max_inflight_per_conn (length c.inflight))) [
      | inl full ↦ absurd (ground arith)
      | inr room ↦ find_vacant-IsAllocated (2 ^ 16) c d id (ground arith)
    ]
