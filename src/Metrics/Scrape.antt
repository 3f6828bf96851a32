-- ===== src/Metrics/Scrape.antt =====
-- src/metrics.rs: what a client reads from the answer.
use cortado.Base.{
  ℕ, zero, suc, ◌-◌, ◌^◌, ◌≤◌, ◌≡◌, contains-append, refl, ap, ◌∙◌, Bool, true, false, not, ◌&&◌,
  List, [], ◌∷◌, ◌++◌, append_assoc, Option, none, some, Bytes, codes, arith, length, contains,
  nat_beq, nat_eq, if◌then◌else◌,
}
use cortado.Text.Decimal.{to_string, parse_unsigned, parse_unsigned-to_string, to_string-apart}
use cortado.Text.Split.{split_once, strip_prefix}
use cortado.Metrics.{Metric, block, status_line, content_type, last_header}

-- A sample of a line that is no comment: the name, and the value after the space.
abbrev pub sample : Bytes → List (Bytes × Option ℕ)
sample [] = []
sample (c ∷ cs) = elim (split_once b' ' (c ∷ cs)) [
  | none ↦ []
  | some (name, value) ↦
      if nat_beq c b'#' then [] else (name, parse_unsigned (2 ^ 64 - 1) value) ∷ []
]

-- The samples of that many lines at most.
abbrev pub samples : ℕ → Bytes → List (Bytes × Option ℕ)
samples zero text = []
samples (suc n) text = elim (split_once 10 text) [
  | none ↦ []
  | some (line, rest) ↦ sample line ++ samples n rest
]

abbrev pub headers : Bytes
headers = status_line ++ (content_type ++ codes "Content-Length: ")

abbrev pub of_length : Bytes → Option ℕ → Option Bytes
of_length body none = none
of_length body (some n) = if nat_beq n (length body) then some body else none

abbrev pub after_blank : ℕ → Bytes → Option Bytes → Option Bytes
after_blank most digits none = none
after_blank most digits (some body) = of_length body (parse_unsigned most digits)

abbrev pub after_digits : ℕ → Option (Bytes × Bytes) → Option Bytes
after_digits most none = none
after_digits most (some (digits, later)) =
    after_blank most digits (strip_prefix (10 ∷ last_header) later)

abbrev pub after_headers : ℕ → Option Bytes → Option Bytes
after_headers most none = none
after_headers most (some announced) = after_digits most (split_once 13 announced)

-- The body of an answer of that status and those headers, where it has the announced length.
abbrev pub body_read : ℕ → Bytes → Option Bytes
body_read most text = after_headers most (strip_prefix headers text)

pub split_once-append :
    (sep : ℕ) (xs ys : Bytes)
    → contains xs sep ≡ false
    → split_once sep (xs ++ (sep ∷ ys)) ≡ some (xs, ys)
unfolding split_once
split_once-append sep [] ys h = ground arith
split_once-append sep (x ∷ xs) ys h =
    let later = split_once-append sep xs ys (ground arith) in rw later (ground arith)

pub strip_prefix-append : (p text : Bytes) → strip_prefix p (p ++ text) ≡ some text
unfolding strip_prefix
strip_prefix-append [] text = refl
strip_prefix-append (c ∷ p) text = ground (arith, strip_prefix-append p text)

block_lines :
    (name help kind rest : Bytes) (value : ℕ)
    → block name help kind value ++ rest
      ≡ (codes "# HELP " ++ (name ++ (b' ' ∷ help)))
        ++ (10
            ∷ ((codes "# TYPE " ++ (name ++ (b' ' ∷ kind)))
                ++ (10 ∷ ((name ++ (b' ' ∷ to_string value)) ++ (10 ∷ rest)))))
block_lines name help kind rest value = simp append_assoc

abbrev pub starts_comment : Bytes → Bool
starts_comment [] = true
starts_comment (c ∷ cs) = nat_beq c b'#'

-- A name is not empty, starts no comment, and neither it nor the help breaks the line.
abbrev pub is_clean : Metric → Bool
is_clean m =
    not (starts_comment m.name)
    && (not (contains m.name b' ') && (not (contains m.name 10) && not (contains m.help 10)))

sample_line :
    (name : Bytes) (value : ℕ)
    → starts_comment name ≡ false
    → contains name b' ' ≡ false
    → value ≤ 2 ^ 64 - 1
    → sample (name ++ (b' ' ∷ to_string value)) ≡ (name, some value) ∷ []
sample_line [] value h k fits = absurd (ground arith)
sample_line (c ∷ cs) value h k fits =
    let parts = split_once-append b' ' (c ∷ cs) (to_string value) k in
    let read = parse_unsigned-to_string (2 ^ 64 - 1) value fits in
    rw (parts, sample) (rw (h, read) refl)

samples-line :
    (n : ℕ) (line rest : Bytes)
    → contains line 10 ≡ false
    → samples (suc n) (line ++ (10 ∷ rest)) ≡ sample line ++ samples n rest
samples-line n line rest h = rw (split_once-append 10 line rest h, samples) refl

comment_line : (text : Bytes) → sample (codes "# " ++ text) ≡ []
unfolding split_once
comment_line text = refl

pub samples-block :
    (m : Metric) (kind rest : Bytes) (value n : ℕ)
    → is_clean m ≡ true
    → contains kind 10 ≡ false
    → value ≤ 2 ^ 64 - 1
    → samples (suc (suc (suc n))) (block m.name m.help kind value ++ rest)
      ≡ (m.name, some value) ∷ samples n rest
samples-block m kind rest value n clean one_line fits =
    let first = contains-append m.name (b' ' ∷ m.help) 10 in
    let second = contains-append m.name (b' ' ∷ kind) 10 in
    let third = contains-append m.name (b' ' ∷ to_string value) 10 in
    let digits = to_string-apart value 10 refl in
    let help_line = codes "HELP " ++ (m.name ++ (b' ' ∷ m.help)) in
    let type_line = codes "TYPE " ++ (m.name ++ (b' ' ∷ kind)) in
    let line = m.name ++ (b' ' ∷ to_string value) in
    let after_type = line ++ (10 ∷ rest) in
    let after_help = (codes "# " ++ type_line) ++ (10 ∷ after_type) in
    ap (samples (suc (suc (suc n)))) (block_lines m.name m.help kind rest value)
    ∙ samples-line (suc (suc n)) (codes "# " ++ help_line) after_help (ground arith)
    ∙ ap (λ (l : List (Bytes × Option ℕ)). l ++ samples (suc (suc n)) after_help)
        (comment_line help_line)
    ∙ samples-line (suc n) (codes "# " ++ type_line) after_type (ground arith)
    ∙ ap (λ (l : List (Bytes × Option ℕ)). l ++ samples (suc n) after_type) (comment_line type_line)
    ∙ samples-line n line rest (ground arith)
    ∙ ap (λ (l : List (Bytes × Option ℕ)). l ++ samples n rest)
        (sample_line m.name value (ground arith) (ground arith) fits)
