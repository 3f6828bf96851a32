-- ===== src/Addr/Octets.antt =====
-- `to_be_bytes` and `from_be_bytes`, at any number of bytes.
use native.Mathlib.Nat.{
  pow-suc, one-le-pow, div-add-mod', mul-add-div_right, mod-lt, div-eq_of_lt,
  mul-add-mod_self_right, mod-eq_of_lt,
}
use cortado.Base.{
  ℕ, zero, suc, ◌+◌, ◌*◌, ◌/◌, ◌%◌, ◌^◌, ◌<◌, ◌≡◌, refl, sym, ap, ap₂, ◌∙◌, ◌∷◌, arith, Bytes, All,
  length, take, drop, length-take, subst, ◌≤◌, [],
}

abbrev pub IsByte : ℕ → Type 0
IsByte b = b < 256

unfoldable pub to_be_bytes : ℕ → ℕ → Bytes
to_be_bytes zero x = []
to_be_bytes (suc n) x = (x / 256 ^ n % 256) ∷ to_be_bytes n x

from_be : ℕ → Bytes → ℕ
from_be acc [] = acc
from_be acc (b ∷ bs) = from_be (acc * 256 + b) bs

unfoldable pub from_be_bytes : Bytes → ℕ
unfolding from_be
from_be_bytes bs = from_be 0 bs

pub length-to_be_bytes : (n x : ℕ) → length (to_be_bytes n x) ≡ n
unfolding to_be_bytes
length-to_be_bytes zero x = refl
length-to_be_bytes (suc n) x = ap suc (length-to_be_bytes n x)

pub to_be_bytes-IsByte : (n x : ℕ) → All IsByte (to_be_bytes n x)
unfolding to_be_bytes
to_be_bytes-IsByte zero x = tt
to_be_bytes-IsByte (suc n) x = (omega arith, to_be_bytes-IsByte n x)

pos_256 : (n : ℕ) → 0 < 256 ^ n
pos_256 n = one-le-pow n 256 (omega arith)

-- The value is the accumulator's digits, then those of the bytes.
from_be_split :
    (acc : ℕ) (bs : Bytes)
    → All IsByte bs
    → (r : ℕ) × (r < 256 ^ length bs) × (from_be acc bs ≡ acc * 256 ^ length bs + r)
unfolding from_be
from_be_split acc [] h = (0, omega arith, omega arith)
from_be_split acc (b ∷ bs) (hb, h) =
    let (r, small, e) = from_be_split (acc * 256 + b) bs h in
    let p = 256 ^ length bs in
    let width = pow-suc 256 (length bs) in
    (b * p + r, rw width (grind arith), e ∙ rw width (omega arith))

-- Writing back what was read gives the same bytes, whatever stood before them.
to_be_bytes-from_be :
    (acc : ℕ) (bs : Bytes) → All IsByte bs → to_be_bytes (length bs) (from_be acc bs) ≡ bs
unfolding from_be to_be_bytes
to_be_bytes-from_be acc [] h = refl
to_be_bytes-from_be acc (b ∷ bs) (hb, h) =
    let (r, small, e) = from_be_split (acc * 256 + b) bs h in
    let top : from_be (acc * 256 + b) bs / 256 ^ length bs ≡ acc * 256 + b =
      ap (λ (t : ℕ). t / 256 ^ length bs) e
      ∙ mul-add-div_right (pos_256 (length bs)) (acc * 256 + b) r
      ∙ omega (arith, div-eq_of_lt small) in
    ap₂ ◌∷◌ (omega (arith, top)) (to_be_bytes-from_be (acc * 256 + b) bs h)

pub to_be_bytes-from_be_bytes :
    (bs : Bytes) → All IsByte bs → to_be_bytes (length bs) (from_be_bytes bs) ≡ bs
unfolding from_be_bytes
to_be_bytes-from_be_bytes bs h = to_be_bytes-from_be 0 bs h

pub from_be_bytes-lt : (bs : Bytes) → All IsByte bs → from_be_bytes bs < 256 ^ length bs
unfolding from_be_bytes
from_be_bytes-lt bs h = let (r, small, e) = from_be_split 0 bs h in omega arith

digit-lt : (p d r : ℕ) → d < 256 → r < p → d * p + r < p * 256
digit-lt p d r hd hr = grind arith

mod-next_digit : (p x : ℕ) → 0 < p → x % (p * 256) ≡ x / p % 256 * p + x % p
mod-next_digit p x h =
    let q = x / p in
    let split : x ≡ x / p / 256 * (p * 256) + (x / p % 256 * p + x % p) =
      sym (div-add-mod' x p)
      ∙ ap (λ (t : ℕ). t * p + x % p) (sym (div-add-mod' q 256))
      ∙ omega arith in
    let small : x / p % 256 * p + x % p < p * 256 =
      digit-lt p (x / p % 256) (x % p) (omega arith) (mod-lt x h) in
    ap (λ (t : ℕ). t % (p * 256)) split
    ∙ mul-add-mod_self_right (x / p / 256) (p * 256) _
    ∙ mod-eq_of_lt small

from_be-to_be_bytes : (n acc x : ℕ) → from_be acc (to_be_bytes n x) ≡ acc * 256 ^ n + x % 256 ^ n
unfolding from_be to_be_bytes
from_be-to_be_bytes zero acc x = omega arith
from_be-to_be_bytes (suc n) acc x =
    from_be-to_be_bytes n (acc * 256 + x / 256 ^ n % 256) x
    ∙ rw (pow-suc 256 n, mod-next_digit (256 ^ n) x (pos_256 n)) (omega arith)

-- A value that fits is read back.
pub from_be_bytes-to_be_bytes : (n x : ℕ) → x < 256 ^ n → from_be_bytes (to_be_bytes n x) ≡ x
unfolding from_be_bytes
from_be_bytes-to_be_bytes n x h = omega (arith, from_be-to_be_bytes n 0 x, mod-eq_of_lt h)

All-take : (n : ℕ) (bs : Bytes) → All IsByte bs → All IsByte (take n bs)
All-take zero bs h = tt
All-take (suc n) [] h = tt
All-take (suc n) (b ∷ bs) (p, h) = (p, All-take n bs h)

pub All-drop : (n : ℕ) (bs : Bytes) → All IsByte bs → All IsByte (drop n bs)
All-drop zero bs h = h
All-drop (suc n) [] h = tt
All-drop (suc n) (b ∷ bs) (p, h) = All-drop n bs h

-- Reading `n` bytes at the front and writing them back.
pub to_be_bytes-take :
    (n : ℕ) (bs : Bytes)
    → n ≤ length bs
    → All IsByte bs
    → to_be_bytes n (from_be_bytes (take n bs)) ≡ take n bs
to_be_bytes-take n bs enough h =
    let size : length (take n bs) ≡ n = omega (arith, length-take n bs) in
    subst (λ (k : ℕ). to_be_bytes k (from_be_bytes (take n bs)) ≡ take n bs) size
      (to_be_bytes-from_be_bytes (take n bs) (All-take n bs h))

pub from_be_bytes-take-lt :
    (n : ℕ) (bs : Bytes) → n ≤ length bs → All IsByte bs → from_be_bytes (take n bs) < 256 ^ n
from_be_bytes-take-lt n bs enough h =
    let size : length (take n bs) ≡ n = omega (arith, length-take n bs) in
    subst (λ (k : ℕ). from_be_bytes (take n bs) < 256 ^ k) size
      (from_be_bytes-lt (take n bs) (All-take n bs h))
