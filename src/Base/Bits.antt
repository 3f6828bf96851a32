-- ===== src/Base/Bits.antt =====
-- `&` with a mask of leading ones, as arithmetic.
use Prim.Native.Nat.{
  ℕ, zero, suc, ◌+◌, ◌-◌, ◌*◌, ◌/◌, ◌%◌, ◌^◌, ◌≤◌, ◌<◌, min, bit_and, digits, bit_and-bitwise,
}
use mathlib.Core.Path.{◌≡◌, refl, sym, ap, ◌∙◌}
use native.Mathlib.Nat.{pow-suc, one-le-pow, mul_comm, div-div-eq-div-mul}
use native.Mathlib.Omega.{arith}

abbrev and_count : ℕ → ℕ → ℕ → ℕ
and_count = digits (λ _. zero) min

-- The count of digits to go matters only while it is too small.
and_count_irrelevant : (n m a b : ℕ) → a ≤ n → a ≤ m → and_count n a b ≡ and_count m a b
and_count_irrelevant zero zero a b h k = refl
and_count_irrelevant zero (suc m) zero b h k = refl
and_count_irrelevant zero (suc m) (suc a) b h k = elim h [ ]
and_count_irrelevant (suc n) zero zero b h k = refl
and_count_irrelevant (suc n) zero (suc a) b h k = elim k [ ]
and_count_irrelevant (suc n) (suc m) zero b h k = refl
and_count_irrelevant (suc n) (suc m) (suc a) b h k =
    let half = and_count_irrelevant n m (suc a / 2) (b / 2) (omega arith) (omega arith) in
    ap (λ (t : ℕ). t * 2 + min (suc a % 2) (b % 2)) half

bit_and_lowest : (a b : ℕ) → bit_and a b ≡ 2 * bit_and (a / 2) (b / 2) + min (a % 2) (b % 2)
bit_and_lowest zero b = omega (arith, bit_and-bitwise 0 b, bit_and-bitwise 0 (b / 2))
bit_and_lowest (suc a) b =
    let whole = bit_and-bitwise (suc a) b in
    let half = bit_and-bitwise (suc a / 2) (b / 2) in
    let count =
      and_count_irrelevant a (suc a / 2) (suc a / 2) (b / 2) (omega arith) (omega arith) in
    omega (arith, whole, half, count)

-- A mask of `n` ones keeps all of a number below `2 ^ n`.
bit_and-ones : (n a : ℕ) → a < 2 ^ n → bit_and a (2 ^ n - 1) ≡ a
bit_and-ones zero a h =
    let none_left : a ≡ 0 = omega arith in ap (λ (t : ℕ). bit_and t 0) none_left ∙ sym none_left
bit_and-ones (suc n) a h =
    let width = pow-suc 2 n in
    let some_left = one-le-pow n 2 (omega arith) in
    let tail : (2 ^ suc n - 1) / 2 ≡ 2 ^ n - 1 = omega arith in
    let rest = bit_and-ones n (a / 2) (omega arith) in
    let same = ap (λ (t : ℕ). bit_and (a / 2) t) tail in
    omega (arith, bit_and_lowest a (2 ^ suc n - 1), rest, same)

bit_and-double : (a m : ℕ) → bit_and a (2 * m) ≡ 2 * bit_and (a / 2) m
bit_and-double a m =
    let half : 2 * m / 2 ≡ m = omega arith in
    let same = ap (λ (t : ℕ). bit_and (a / 2) t) half in
    omega (arith, bit_and_lowest a (2 * m), same)

-- `k` low zeros in the mask clear `k` bits, below any `n` ones that cover the number.
pub bit_and-mask :
    (k n a : ℕ) → a < 2 ^ n * 2 ^ k → bit_and a ((2 ^ n - 1) * 2 ^ k) ≡ a / 2 ^ k * 2 ^ k
bit_and-mask zero n a h =
    let flat : (2 ^ n - 1) * 2 ^ 0 ≡ 2 ^ n - 1 = omega arith in
    rw flat (omega (arith, bit_and-ones n a (omega arith)))
bit_and-mask (suc k) n a h =
    let width = pow-suc 2 k in
    let shift : (2 ^ n - 1) * 2 ^ suc k ≡ 2 * ((2 ^ n - 1) * 2 ^ k) =
      ap (λ (t : ℕ). (2 ^ n - 1) * t) width ∙ omega arith in
    let room : a / 2 < 2 ^ n * 2 ^ k = omega (arith, ap (λ (t : ℕ). 2 ^ n * t) width) in
    let split : a / 2 ^ suc k ≡ a / 2 / 2 ^ k =
      ap (λ (t : ℕ). a / t) (width ∙ mul_comm (2 ^ k) 2) ∙ sym (div-div-eq-div-mul a 2 (2 ^ k)) in
    rw (shift, bit_and-double a ((2 ^ n - 1) * 2 ^ k), bit_and-mask k n (a / 2) room, split)
      (omega (arith, ap (λ (t : ℕ). a / 2 / 2 ^ k * t) width))
