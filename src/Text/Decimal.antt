-- ===== src/Text/Decimal.antt =====
-- `str::parse::<u8>` to `parse::<u64>`, by the largest value of the type, and `to_string`.
use cortado.Base.{
  ℕ, zero, suc, ◌+◌, ◌-◌, ◌*◌, ◌/◌, ◌%◌, ◌≤◌, ◌<◌, ◌≡◌, ◌∙◌, refl, ap, Bool, false, ◌&&◌, contains,
  contains-append, nat_eq, [], ◌∷◌, ◌++◌, Option, none, some, arith, Bytes, leb, ltb, nat_beq,
  if◌then◌else◌, Bool-cases, inl, inr,
}

abbrev pub is_digit : ℕ → Bool
is_digit c = leb b'0' c && leb c b'9'

-- The digits after an optional sign: no other byte, and no value above `most` on the way.
unfoldable pub parse_digits : ℕ → ℕ → Bytes → Option ℕ
parse_digits most acc [] = some acc
parse_digits most acc (c ∷ cs) =
    let value = acc * 10 + (c - b'0') in
    let rest = parse_digits most value cs in
    if is_digit c then (if leb value most then rest else none) else none

-- An empty text and a lone sign are errors.
unfoldable pub parse_unsigned : ℕ → Bytes → Option ℕ
unfolding parse_digits
parse_unsigned most [] = none
parse_unsigned most (c ∷ []) = if nat_beq c b'+' then none else parse_digits most 0 (c ∷ [])
parse_unsigned most (c ∷ d ∷ cs) =
    if nat_beq c b'+' then parse_digits most 0 (d ∷ cs) else parse_digits most 0 (c ∷ d ∷ cs)

-- `to_string`, with a digit for each unit of fuel.
to_digits : ℕ → ℕ → Bytes
to_digits zero n = []
to_digits (suc fuel) n =
    let more = to_digits fuel (n / 10) ++ (b'0' + n % 10) ∷ [] in
    if ltb n 10 then (b'0' + n) ∷ [] else more

unfoldable pub to_string : ℕ → Bytes
unfolding to_digits
to_string n = to_digits (suc n) n

parse_digits-le :
    (most acc : ℕ) (cs : Bytes) (n : ℕ) → acc ≤ most → parse_digits most acc cs ≡ some n → n ≤ most
unfolding parse_digits
parse_digits-le most acc [] n h e = ground arith
parse_digits-le most acc (c ∷ cs) n h e =
    ground (arith, parse_digits-le most (acc * 10 + (c - b'0')) cs n)

-- What is parsed fits the type.
pub parse_unsigned-le : (most : ℕ) (cs : Bytes) (n : ℕ) → parse_unsigned most cs ≡ some n → n ≤ most
unfolding parse_unsigned
parse_unsigned-le most [] n e = ground arith
parse_unsigned-le most (c ∷ []) n e =
    ground (arith, parse_digits-le most 0 (c ∷ []) n (omega arith))
parse_unsigned-le most (c ∷ d ∷ cs) n e =
    ground (arith, parse_digits-le most 0 (c ∷ d ∷ cs) n, parse_digits-le most 0 (d ∷ cs) n)

-- Reading one more digit at the end.
parse_digits-snoc :
    (most acc : ℕ) (cs : Bytes) (n d : ℕ)
    → parse_digits most acc cs ≡ some n
    → d < 10
    → n * 10 + d ≤ most
    → parse_digits most acc (cs ++ (b'0' + d) ∷ []) ≡ some (n * 10 + d)
unfolding parse_digits
parse_digits-snoc most acc [] n d e small fits = ground arith
parse_digits-snoc most acc (c ∷ cs) n d e small fits =
    ground (arith, parse_digits-snoc most (acc * 10 + (c - b'0')) cs n d)

parse_digit : (most d : ℕ) → d < 10 → d ≤ most → parse_digits most 0 ((b'0' + d) ∷ []) ≡ some d
unfolding parse_digits
parse_digit most d small fits = ground arith

parse_digits-to_digits :
    (most fuel n : ℕ) → n < fuel → n ≤ most → parse_digits most 0 (to_digits fuel n) ≡ some n
unfolding to_digits
parse_digits-to_digits most zero n h fits = elim h [ ]
parse_digits-to_digits most (suc fuel) n h fits = elim (Bool-cases (ltb n 10)) [
  | inl one_digit ↦ rw one_digit (parse_digit most n (ground arith) fits)
  | inr more ↦
      let rest : 10 ≤ n = ground arith in
      let back : n / 10 * 10 + n % 10 ≡ n = omega arith in
      rw more (
        parse_digits-snoc most 0 (to_digits fuel (n / 10)) (n / 10) (n % 10)
          (parse_digits-to_digits most fuel (n / 10) (omega arith) (omega arith)) (omega arith)
          (omega arith)
        ∙ ap some back)
]

parse_unsigned_of_digits :
    (most c : ℕ) (cs : Bytes) (n : ℕ)
    → parse_digits most 0 (c ∷ cs) ≡ some n
    → parse_unsigned most (c ∷ cs) ≡ some n
unfolding parse_unsigned
parse_unsigned_of_digits most c [] n e = ground arith
parse_unsigned_of_digits most c (d ∷ cs) n e = ground arith

parse_unsigned_of_snoc :
    (most : ℕ) (cs : Bytes) (c n : ℕ)
    → parse_digits most 0 (cs ++ c ∷ []) ≡ some n
    → parse_unsigned most (cs ++ c ∷ []) ≡ some n
parse_unsigned_of_snoc most [] c n e = parse_unsigned_of_digits most c [] n e
parse_unsigned_of_snoc most (b ∷ cs) c n e = parse_unsigned_of_digits most b (cs ++ c ∷ []) n e

-- What is printed is read back, by any type that holds the value.
pub parse_unsigned-to_string : (most n : ℕ) → n ≤ most → parse_unsigned most (to_string n) ≡ some n
unfolding to_string
parse_unsigned-to_string most n fits =
    let read = parse_digits-to_digits most (suc n) n (omega arith) fits in
    elim (Bool-cases (ltb n 10)) [
      | inl one_digit ↦
          rw one_digit (parse_unsigned_of_snoc most [] (b'0' + n) n (rw one_digit at read))
      | inr more ↦
          rw more
            (parse_unsigned_of_snoc most (to_digits n (n / 10)) (b'0' + n % 10) n (rw more at read))
    ]

digit_apart : (d sep : ℕ) → d < 10 → is_digit sep ≡ false → contains ((b'0' + d) ∷ []) sep ≡ false
digit_apart d sep h e = ground arith

to_digits-apart : (fuel n sep : ℕ) → is_digit sep ≡ false → contains (to_digits fuel n) sep ≡ false
unfolding to_digits
to_digits-apart zero n sep e = refl
to_digits-apart (suc fuel) n sep e =
    let apart = to_digits-apart fuel (n / 10) sep e in
    let last = digit_apart (n % 10) sep (omega arith) e in
    let joined = contains-append (to_digits fuel (n / 10)) ((b'0' + n % 10) ∷ []) sep in
    elim (Bool-cases (ltb n 10)) [
      | inl one_digit ↦ rw one_digit (digit_apart n sep (ground arith) e)
      | inr more ↦ rw more (ground arith)
    ]

-- No other byte than a digit is printed.
pub to_string-apart : (n sep : ℕ) → is_digit sep ≡ false → contains (to_string n) sep ≡ false
unfolding to_string
to_string-apart n sep e = to_digits-apart (suc n) n sep e
