-- ===== src/Text/Listed.antt =====
-- `lines`, `trim` and `contains` on a text that has one word on each line.
use cortado.Base.{
  ℕ, ◌≡◌, refl, sym, subst, ap, ◌∙◌, Bool, true, false, not, ◌&&◌, ◌||◌, List, [], ◌∷◌, ◌++◌, map,
  append-nil, append_assoc, Bytes, nat_beq, nat_beq_iff, is_empty, all, filter, contains,
  Bool-cases, arith, inl, inr, nat_eq, if◌then◌else◌,
}
use cortado.Text.Split.{
  lines, lines_from, strip_cr, is_whitespace, skip_whitespace, trim, trim_end, starts_with,
  contains_text,
}

-- A text with no whitespace in it, and not an empty one.
abbrev pub is_word : Bytes → Bool
is_word s = not (is_empty s) && all (λ c. not (is_whitespace c)) s

-- Each on a line of its own.
abbrev pub lines_of : List Bytes → Bytes
lines_of [] = []
lines_of (s ∷ rest) = s ++ 10 ∷ lines_of rest

abbrev Solid : Bytes → Type 0
Solid s = all (λ c. not (is_whitespace c)) s ≡ true

Solid-append : (s t : Bytes) → Solid s → Solid t → Solid (s ++ t)
Solid-append [] t p q = q
Solid-append (c ∷ s) t p q = let rest = Solid-append s t (ground arith) q in ground (arith, p)

not_return : (c : ℕ) → not (is_whitespace c) ≡ true → nat_beq c 13 ≡ false
not_return c h = elim (Bool-cases (nat_beq c 13)) [
  | inl same ↦ let e = (nat_beq_iff c 13).0 same in let h13 = rw e at h in cc
  | inr other ↦ other
]

not_feed : (c : ℕ) → not (is_whitespace c) ≡ true → nat_beq c 10 ≡ false
not_feed c h = elim (Bool-cases (nat_beq c 10)) [
  | inl same ↦ let e = (nat_beq_iff c 10).0 same in let h10 = rw e at h in cc
  | inr other ↦ other
]

not_space : (c : ℕ) → not (is_whitespace c) ≡ true → nat_beq c b' ' ≡ false
not_space c h = ground arith

strip_cr-Solid : (s : Bytes) → Solid s → strip_cr s ≡ s
strip_cr-Solid [] h = refl
strip_cr-Solid (c ∷ []) h = let other = not_return c (ground arith) in rw other refl
strip_cr-Solid (c ∷ d ∷ s) h = ap (◌∷◌ c) (strip_cr-Solid (d ∷ s) (ground arith))

skip_whitespace-Solid : (s : Bytes) → Solid s → skip_whitespace s ≡ s
skip_whitespace-Solid [] h = refl
skip_whitespace-Solid (c ∷ s) h = let off : is_whitespace c ≡ false = ground arith in rw off refl

trim_end-Solid : (s : Bytes) → Solid s → trim_end s ≡ s
trim_end-Solid [] h = refl
trim_end-Solid (c ∷ s) h =
    let off : is_whitespace c ≡ false = ground arith in
    rw (trim_end-Solid s (ground arith)) (ending s off)
  where
    ending :
        (t : Bytes)
        → is_whitespace c ≡ false
        → (if is_empty t then (if is_whitespace c then [] else c ∷ []) else c ∷ t) ≡ c ∷ t
    ending [] off = rw off refl
    ending (d ∷ t) off = refl

pub trim-Solid : (s : Bytes) → Solid s → trim s ≡ s
trim-Solid s h = ap trim_end (skip_whitespace-Solid s h) ∙ trim_end-Solid s h

-- The words of a line are its own up to the line feed.
lines_from-word :
    (s cur rest : Bytes)
    → Solid s
    → Solid cur
    → lines_from cur (s ++ 10 ∷ rest) ≡ (cur ++ s) ∷ lines_from [] rest
lines_from-word [] cur rest h k =
    ap (λ x. x ∷ lines_from [] rest) (strip_cr-Solid cur k ∙ sym (append-nil cur))
lines_from-word (c ∷ s) cur rest h k =
    let other = not_feed c (ground arith) in
    let both = Solid-append cur (c ∷ []) k (ground arith) in
    rw other (
      lines_from-word s (cur ++ c ∷ []) rest (ground arith) both
      ∙ ap (λ x. x ∷ lines_from [] rest) (append_assoc cur (c ∷ []) s))

pub lines-lines_of : (l : List Bytes) → all is_word l ≡ true → lines (lines_of l) ≡ l
unfolding lines
lines-lines_of [] h = refl
lines-lines_of (s ∷ l) h =
    lines_from-word s [] (lines_of l) (ground arith) refl
    ∙ ap (◌∷◌ s) (lines-lines_of l (ground arith))

kept_word :
    (s t : Bytes) (rest : List Bytes)
    → is_word s ≡ true
    → t ≡ s
    → (if not (is_empty t) then t ∷ rest else rest) ≡ s ∷ rest
kept_word s t rest h e = let full : is_empty s ≡ false = ground arith in rw (e, full) refl

-- The words are read back from the lines: trimmed, and the empty ones left out.
pub words-lines_of :
    (l : List Bytes) → all is_word l ≡ true → filter (λ w. not (is_empty w)) (map trim l) ≡ l
words-lines_of [] h = refl
words-lines_of (s ∷ l) h =
    rw (words-lines_of l (ground arith))
      (kept_word s (trim s) l (ground arith) (trim-Solid s (ground arith)))

Solid-no_space :
    (s rest : Bytes) → Solid s → contains rest b' ' ≡ false → contains (s ++ rest) b' ' ≡ false
Solid-no_space [] rest h k = k
Solid-no_space (c ∷ s) rest h k =
    let other = not_space c (ground arith) in
    let later = Solid-no_space s rest (ground arith) k in ground (arith, other, later)

pub lines_of-no_space : (l : List Bytes) → all is_word l ≡ true → contains (lines_of l) b' ' ≡ false
lines_of-no_space [] h = refl
lines_of-no_space (s ∷ l) h =
    Solid-no_space s (10 ∷ lines_of l) (ground arith) (lines_of-no_space l (ground arith))

starts_with-absent :
    (p t : Bytes) (c : ℕ) → contains p c ≡ true → contains t c ≡ false → starts_with p t ≡ false
starts_with-absent [] t c h k = cc
starts_with-absent (a ∷ p) [] c h k = refl
starts_with-absent (a ∷ p) (b ∷ t) c h k = elim (Bool-cases (nat_beq a b)) [
  | inr other ↦ rw other refl
  | inl same ↦
      let e = (nat_beq_iff a b).0 same in
      let off = subst (λ x. (nat_beq x c || contains t c) ≡ false) (sym e) k in
      let rest = starts_with-absent p t c (ground (arith, h, off)) (ground (arith, k)) in
      ground (arith, rest)
]

-- A text without some character of the pattern does not contain the pattern.
pub contains_text-absent :
    (p t : Bytes) (c : ℕ) → contains p c ≡ true → contains t c ≡ false → contains_text p t ≡ false
contains_text-absent p [] c h k = starts_with-absent p [] c h k
contains_text-absent p (b ∷ t) c h k =
    let here = starts_with-absent p (b ∷ t) c h k in
    let later = contains_text-absent p t c h (ground (arith, k)) in ground (arith, here, later)
