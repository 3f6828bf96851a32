-- ===== src/Metrics/Tests.antt =====
-- Runs of src/metrics.rs before any traffic.
use cortado.Base.{◌+◌, ◌≡◌, map, arith}
use cortado.Stats.{started}
use cortado.Metrics.{render}
use cortado.Metrics.Scrape.{samples}
use cortado.Metrics.Exposed.{exposed, reading, samples-render}

samples-render_example : samples (60 + 5) (render started) ≡ map (reading started) exposed
samples-render_example = samples-render started 5 (λ c. omega arith)
