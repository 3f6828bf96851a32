-- ===== src/Metrics/Exposed.antt =====
-- src/metrics.rs: every metric is exposed with the counter's value.
use cortado.Base.{
  ℕ, zero, suc, ◌+◌, ◌-◌, ◌^◌, ◌≤◌, ◌≡◌, refl, sym, ap, ap₂, ◌∙◌, true, false, List, [], ◌∷◌, ◌++◌,
  append_assoc, append-nil, map, Option, some, Bytes, codes, arith, length, contains, all, nat_eq,
  nat_beq_iff,
}
use cortado.Text.Decimal.{to_string, parse_unsigned-to_string, to_string-apart}
use cortado.Text.Split.{split_once}
use cortado.Stats.{Stats, Counter, get}
use cortado.Metrics.{
  Metric, counters, reloads, gauges, block, metric, metrics, render, response, last_header,
}
use cortado.Metrics.Scrape.{
  samples, body_read, headers, after_headers, after_digits, after_blank, of_length, is_clean,
  samples-block, split_once-append, strip_prefix-append,
}

-- Every metric, in the order of the text.
abbrev pub exposed : List Metric
exposed = counters ++ (reloads ∷ gauges)

abbrev blocks : List Metric → Bytes → Stats → Bytes
blocks [] kind s = []
blocks (m ∷ ms) kind s = block m.name m.help kind (get m.counter s) ++ blocks ms kind s

metrics-blocks :
    (ms : List Metric) (kind out : Bytes) (s : Stats)
    → metrics ms kind s out ≡ out ++ blocks ms kind s
unfolding metrics metric
metrics-blocks [] kind out s = sym (append-nil out)
metrics-blocks (m ∷ ms) kind out s =
    metrics-blocks ms kind (out ++ block m.name m.help kind (get m.counter s)) s
    ∙ append_assoc out (block m.name m.help kind (get m.counter s)) (blocks ms kind s)

-- Three lines for each metric.
abbrev lines_of : List Metric → ℕ → ℕ
lines_of [] n = n
lines_of (m ∷ ms) n = suc (suc (suc (lines_of ms n)))

abbrev pub reading : Stats → Metric → Bytes × Option ℕ
reading s m = (m.name, some (get m.counter s))

samples-blocks :
    (ms : List Metric) (kind rest : Bytes) (s : Stats) (n : ℕ)
    → all is_clean ms ≡ true
    → contains kind 10 ≡ false
    → ((c : Counter) → get c s ≤ 2 ^ 64 - 1)
    → samples (lines_of ms n) (blocks ms kind s ++ rest) ≡ map (reading s) ms ++ samples n rest
samples-blocks [] kind rest s n clean one_line fits = refl
samples-blocks (m ∷ ms) kind rest s n clean one_line fits =
    let here = block m.name m.help kind (get m.counter s) in
    ap (samples (lines_of (m ∷ ms) n)) (append_assoc here (blocks ms kind s) rest)
    ∙ samples-block m kind (blocks ms kind s ++ rest) (get m.counter s) (lines_of ms n)
        (ground arith) one_line (fits m.counter)
    ∙ ap (◌∷◌ (reading s m)) (samples-blocks ms kind rest s n (ground arith) one_line fits)

samples_none : (n : ℕ) → samples n [] ≡ []
unfolding split_once
samples_none zero = refl
samples_none (suc n) = refl

abbrev counter_kind : Bytes
counter_kind = codes "counter"

abbrev gauge_kind : Bytes
gauge_kind = codes "gauge"

-- What `render` does, for any tables.
abbrev rendered : List Metric → Metric → List Metric → Stats → Bytes
rendered cs r gs s =
    metrics gs gauge_kind s
      (metric (metrics cs counter_kind s []) r.name r.help counter_kind (get r.counter s))

rendered-blocks :
    (cs : List Metric) (r : Metric) (gs : List Metric) (s : Stats)
    → rendered cs r gs s
      ≡ blocks cs counter_kind s
        ++ (blocks (r ∷ []) counter_kind s ++ (blocks gs gauge_kind s ++ []))
unfolding metric
rendered-blocks cs r gs s =
    let here = block r.name r.help counter_kind (get r.counter s) in
    metrics-blocks gs gauge_kind (metrics cs counter_kind s [] ++ here) s
    ∙ ap (λ (o : Bytes). (o ++ here) ++ blocks gs gauge_kind s)
        (metrics-blocks cs counter_kind [] s)
    ∙ append_assoc (blocks cs counter_kind s) here (blocks gs gauge_kind s)
    ∙ ap₂ (λ (o p : Bytes). blocks cs counter_kind s ++ (o ++ p)) (sym (append-nil here))
        (sym (append-nil (blocks gs gauge_kind s)))

samples-rendered :
    (cs : List Metric) (r : Metric) (gs : List Metric) (s : Stats) (n : ℕ)
    → all is_clean cs ≡ true
    → all is_clean (r ∷ []) ≡ true
    → all is_clean gs ≡ true
    → ((c : Counter) → get c s ≤ 2 ^ 64 - 1)
    → samples (lines_of cs (lines_of (r ∷ []) (lines_of gs n))) (rendered cs r gs s)
      ≡ map (reading s) cs ++ (map (reading s) (r ∷ []) ++ (map (reading s) gs ++ []))
samples-rendered cs r gs s n hc hr hg fits =
    let after = lines_of (r ∷ []) (lines_of gs n) in
    ap (samples (lines_of cs after)) (rendered-blocks cs r gs s)
    ∙ samples-blocks cs counter_kind
        (blocks (r ∷ []) counter_kind s ++ (blocks gs gauge_kind s ++ [])) s after hc refl fits
    ∙ ap (λ (l : List (Bytes × Option ℕ)). map (reading s) cs ++ l)
        (samples-blocks (r ∷ []) counter_kind (blocks gs gauge_kind s ++ []) s (lines_of gs n) hr
            refl fits
          ∙ ap (λ (l : List (Bytes × Option ℕ)). map (reading s) (r ∷ []) ++ l)
              (samples-blocks gs gauge_kind [] s n hg refl fits
                ∙ ap (λ (l : List (Bytes × Option ℕ)). map (reading s) gs ++ l) (samples_none n)))

-- A client that reads at least 60 lines of the text finds each metric once, in their order, with the
-- value of its counter.
pub samples-render :
    (s : Stats) (n : ℕ)
    → ((c : Counter) → get c s ≤ 2 ^ 64 - 1)
    → samples (60 + n) (render s) ≡ map (reading s) exposed
unfolding render
samples-render s n fits =
    let enough : 60 + n ≡ lines_of counters (lines_of (reloads ∷ []) (lines_of gauges n)) =
      omega arith in
    ap (λ k. samples k (render s)) enough
    ∙ samples-rendered counters reloads gauges s n refl refl refl fits

-- The body of an answer is read back whole, and its announced length is its length.
pub body_read-response :
    (body : Bytes) (most : ℕ) → length body ≤ most → body_read most (response body) ≡ some body
unfolding response
body_read-response body most fits =
    let digits = to_string (length body) in
    let announced = digits ++ (13 ∷ 10 ∷ (last_header ++ body)) in
    let at_headers = strip_prefix-append headers announced in
    let at_length =
      split_once-append 13 digits (10 ∷ (last_header ++ body))
        (to_string-apart (length body) 13 refl) in
    let at_body = strip_prefix-append (10 ∷ last_header) body in
    let number = parse_unsigned-to_string most (length body) fits in
    let same = (nat_beq_iff (length body) (length body)).1 refl in
    ap (after_headers most) at_headers
    ∙ ap (after_digits most) at_length
    ∙ ap (after_blank most digits) at_body
    ∙ ap (of_length body) number
    ∙ rw same refl
