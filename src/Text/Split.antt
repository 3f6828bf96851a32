-- ===== src/Text/Split.antt =====
-- `split_once`, `strip_prefix`, `lines` and `split_whitespace` on ASCII text.
use cortado.Base.{
  ℕ, Bool, true, false, ◌||◌, List, [], ◌∷◌, ◌++◌, Option, none, some, Bytes, nat_beq, leb, ◌&&◌,
  is_empty, if◌then◌else◌,
}

-- At the first separator.
unfoldable pub split_once : ℕ → Bytes → Option (Bytes × Bytes)
split_once sep [] = none
split_once sep (c ∷ cs) =
    if nat_beq c sep
    then some ([], cs)
    else elim (split_once sep cs) [ none ↦ none | some (before, after) ↦ some (c ∷ before, after) ]

unfoldable pub strip_prefix : Bytes → Bytes → Option Bytes
strip_prefix [] cs = some cs
strip_prefix (p ∷ ps) [] = none
strip_prefix (p ∷ ps) (c ∷ cs) = let rest = strip_prefix ps cs in if nat_beq c p then rest else none

abbrev pub is_whitespace : ℕ → Bool
is_whitespace c = nat_beq c b' ' || (leb 9 c && leb c 13)

abbrev pub skip_whitespace : Bytes → Bytes
skip_whitespace [] = []
skip_whitespace (c ∷ cs) = let rest = skip_whitespace cs in if is_whitespace c then rest else c ∷ cs

abbrev pub until_whitespace : Bytes → Bytes
until_whitespace [] = []
until_whitespace (c ∷ cs) =
    let rest = until_whitespace cs in if is_whitespace c then [] else c ∷ rest

abbrev pub first_of_word : Bytes → Option Bytes
first_of_word [] = none
first_of_word (c ∷ cs) = some (until_whitespace (c ∷ cs))

-- `split_whitespace().next()`.
unfoldable pub first_word : Bytes → Option Bytes
first_word cs = first_of_word (skip_whitespace cs)

-- A carriage return before the line feed belongs to the line's end.
abbrev pub strip_cr : Bytes → Bytes
strip_cr [] = []
strip_cr (c ∷ []) = if nat_beq c 13 then [] else c ∷ []
strip_cr (c ∷ d ∷ cs) = c ∷ strip_cr (d ∷ cs)

abbrev pub lines_from : Bytes → Bytes → List Bytes
lines_from [] [] = []
lines_from (c ∷ cur) [] = (c ∷ cur) ∷ []
lines_from cur (c ∷ cs) =
    let ended = strip_cr cur ∷ lines_from [] cs in
    let longer = lines_from (cur ++ c ∷ []) cs in if nat_beq c 10 then ended else longer

unfoldable pub lines : Bytes → List Bytes
lines text = lines_from [] text

-- Without the whitespace at the end.
abbrev pub trim_end : Bytes → Bytes
trim_end [] = []
trim_end (c ∷ cs) =
    let rest = trim_end cs in
    if is_empty rest then (if is_whitespace c then [] else c ∷ []) else c ∷ rest

abbrev pub trim : Bytes → Bytes
trim text = trim_end (skip_whitespace text)

abbrev pub starts_with : Bytes → Bytes → Bool
starts_with [] text = true
starts_with (p ∷ ps) [] = false
starts_with (p ∷ ps) (c ∷ cs) = nat_beq p c && starts_with ps cs

abbrev pub contains_text : Bytes → Bytes → Bool
contains_text pattern [] = starts_with pattern []
contains_text pattern (c ∷ cs) = starts_with pattern (c ∷ cs) || contains_text pattern cs
