-- ===== src/Net/Masks.antt =====
-- src/net.rs: the prefix masks, and what `&` with them does to an address.
use native.Mathlib.Nat.{pow-suc, one-le-pow, mul-add-mod_self_right, mod-eq_of_lt}
use cortado.Base.{
  ℕ, zero, suc, ◌+◌, ◌-◌, ◌*◌, ◌/◌, ◌%◌, ◌^◌, ◌<◌, bit_and, ◌≡◌, sym, ap, ◌∙◌, inl, inr, arith, leb,
  leb→le, nat_beq, if◌then◌else◌, Bool-cases,
}
use cortado.Base.Bits.{bit_and-mask}

abbrev pub u32_max : ℕ
u32_max = 2 ^ 32 - 1

abbrev pub u128_max : ℕ
u128_max = 2 ^ 128 - 1

-- `u32::MAX << (32 - prefix)` keeps the low 32 bits of the shifted value.
unfoldable pub prefix_mask_v4 : ℕ → ℕ
prefix_mask_v4 prefix =
    if nat_beq prefix 0
    then 0
    else if leb 32 prefix
    then u32_max
    else u32_max * 2 ^ (32 - prefix) % 2 ^ 32

unfoldable pub prefix_mask_v6 : ℕ → ℕ
prefix_mask_v6 prefix =
    if nat_beq prefix 0
    then 0
    else if leb 128 prefix
    then u128_max
    else u128_max * 2 ^ (128 - prefix) % 2 ^ 128

unfoldable pub mask_v4 : ℕ → ℕ → ℕ
mask_v4 addr prefix = bit_and addr (prefix_mask_v4 prefix)

unfoldable pub mask_v6 : ℕ → ℕ → ℕ
mask_v6 addr prefix = bit_and addr (prefix_mask_v6 prefix)

two-pow-add : (m k : ℕ) → 2 ^ (m + k) ≡ 2 ^ m * 2 ^ k
two-pow-add m zero = let flat : m + 0 ≡ m = omega arith in ap (λ (t : ℕ). 2 ^ t) flat ∙ omega arith
two-pow-add m (suc k) =
    let next : m + suc k ≡ suc (m + k) = omega arith in
    let more : 2 ^ m * 2 ^ suc k ≡ 2 ^ m * 2 ^ k * 2 =
      ap (λ (t : ℕ). 2 ^ m * t) (pow-suc 2 k) ∙ omega arith in
    ap (λ (t : ℕ). 2 ^ t) next
    ∙ pow-suc 2 (m + k)
    ∙ ap (λ (t : ℕ). t * 2) (two-pow-add m k)
    ∙ sym more

-- All ones of `p * q`, shifted by `q` and cut off, are the ones of `p`, shifted.
shifted_ones : (p q : ℕ) → 0 < p → 0 < q → (p * q - 1) * q % (p * q) ≡ (p - 1) * q
shifted_ones zero q hp hq = elim hp [ ]
shifted_ones (suc p) zero hp hq = elim hq [ ]
shifted_ones (suc p) (suc q) hp hq =
    let ones : suc p * suc q - 1 ≡ p * q + p + q = omega arith in
    let split : (suc p * suc q - 1) * suc q ≡ q * (suc p * suc q) + p * suc q =
      ap (λ (t : ℕ). t * suc q) ones ∙ omega arith in
    let small : p * suc q < suc p * suc q = omega arith in
    ap (λ (t : ℕ). t % (suc p * suc q)) split
    ∙ mul-add-mod_self_right q (suc p * suc q) (p * suc q)
    ∙ mod-eq_of_lt small
    ∙ ap (λ (t : ℕ). t * suc q) (omega arith)

-- The mask at any width, written once for both families.
abbrev prefix_mask : ℕ → ℕ → ℕ
prefix_mask w prefix =
    if nat_beq prefix 0
    then 0
    else if leb w prefix
    then 2 ^ w - 1
    else (2 ^ w - 1) * 2 ^ (w - prefix) % 2 ^ w

-- The ones of the prefix above the cleared bits, whatever the prefix.
prefix_mask_lem : (w p : ℕ) → 0 < w → prefix_mask w p ≡ (2 ^ (w - (w - p)) - 1) * 2 ^ (w - p)
prefix_mask_lem w p hw = elim (Bool-cases (nat_beq p 0)) [
  | inl zero_prefix ↦
      let none_kept : w - (w - p) ≡ 0 = ground arith in rw (zero_prefix, none_kept) (omega arith)
  | inr some_prefix ↦ elim (Bool-cases (leb w p)) [
    | inl long ↦
        let all_kept : w - p ≡ 0 = omega (arith, leb→le w p long) in
        let whole : w - 0 ≡ w = omega arith in rw (some_prefix, long, all_kept, whole) (omega arith)
    | inr short ↦
        let inside : p < w = ground arith in
        let kept : w - (w - p) ≡ p = omega arith in
        let whole : 2 ^ w ≡ 2 ^ p * 2 ^ (w - p) =
          ap (λ (t : ℕ). 2 ^ t) (let sum : w ≡ p + (w - p) = omega arith in sum)
          ∙ two-pow-add p (w - p) in
        rw (some_prefix, short, kept)
          (ap (λ (t : ℕ). (t - 1) * 2 ^ (w - p) % t) whole
            ∙ shifted_ones (2 ^ p) (2 ^ (w - p)) (one-le-pow p 2 (omega arith))
                (one-le-pow (w - p) 2 (omega arith)))
  ]
]

-- `&` with the mask of a prefix clears the host bits.
bit_and-prefix_mask :
    (w a p : ℕ) → 0 < w → a < 2 ^ w → bit_and a (prefix_mask w p) ≡ a / 2 ^ (w - p) * 2 ^ (w - p)
bit_and-prefix_mask w a p hw h =
    let kept = w - (w - p) in
    let sum : w ≡ kept + (w - p) = omega arith in
    let whole : 2 ^ w ≡ 2 ^ kept * 2 ^ (w - p) =
      ap (λ (t : ℕ). 2 ^ t) sum ∙ two-pow-add kept (w - p) in
    ap (bit_and a) (prefix_mask_lem w p hw) ∙ bit_and-mask (w - p) kept a (omega arith)

pub mask_v4_lem : (a p : ℕ) → a < 2 ^ 32 → mask_v4 a p ≡ a / 2 ^ (32 - p) * 2 ^ (32 - p)
unfolding mask_v4 prefix_mask_v4
mask_v4_lem a p h = bit_and-prefix_mask 32 a p (omega arith) h

pub mask_v6_lem : (a p : ℕ) → a < 2 ^ 128 → mask_v6 a p ≡ a / 2 ^ (128 - p) * 2 ^ (128 - p)
unfolding mask_v6 prefix_mask_v6
mask_v6_lem a p h = bit_and-prefix_mask 128 a p (omega arith) h
