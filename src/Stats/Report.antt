-- ===== src/Stats/Report.antt =====
-- src/stats.rs and src/lib.rs: `format_bytes` and the line of `run_stats_reporter`. Floating point
-- numbers are a parameter.
use cortado.Base.{ℕ, Bool, List, [], ◌∷◌, ◌++◌, Bytes, codes, ltb, if◌then◌else◌}
use cortado.Text.Decimal.{to_string}
use cortado.Stats.{
  Stats, get, tcp_active, tcp_opened, tcp_errors, udp_active, udp_packets, udp_errors, dns_requests,
  dns_failures, bytes_tx, bytes_rx,
}

-- `f64`: the conversion, the comparison with a step, the division by it, and two decimals.
pub record Float : Type 1 where
  pub F : Type 0
  pub of_nat : ℕ → F
  pub at_least : ℕ → F → Bool
  pub divide : F → ℕ → F
  pub show_two : F → Bytes

abbrev pub step : ℕ
step = 1000

abbrev pub larger_units : List Bytes
larger_units = codes "KB" ∷ codes "MB" ∷ codes "GB" ∷ codes "TB" ∷ []

module _ (fl : Float) where
  -- The loop: the unit that is reached, and the larger ones that are left.
  unfoldable pub scale : fl.F → Bytes → List Bytes → Bytes
  scale value unit [] = fl.show_two value ++ (codes " " ++ unit)
  scale value unit (next ∷ rest) =
      let further = scale (fl.divide value step) next rest in
      if fl.at_least step value then further else fl.show_two value ++ (codes " " ++ unit)

  unfoldable pub format_bytes : ℕ → Bytes
  format_bytes bytes =
      if ltb bytes step
      then to_string bytes ++ codes " B"
      else scale (fl.of_nat bytes) (codes "B") larger_units

  abbrev pub field : Bytes → Bytes → Bytes
  field name value = codes " " ++ (name ++ (codes "=" ++ value))

  unfoldable pub stats_line : Stats → Bytes
  stats_line s =
      codes "stats:"
      ++ (field (codes "tcp_active") (to_string (get tcp_active s))
          ++ (field (codes "tcp_open") (to_string (get tcp_opened s))
              ++ (field (codes "tcp_err") (to_string (get tcp_errors s))
                  ++ (field (codes "udp_active") (to_string (get udp_active s))
                      ++ (field (codes "udp_pkts") (to_string (get udp_packets s))
                          ++ (field (codes "udp_err") (to_string (get udp_errors s))
                              ++ (field (codes "dns_req") (to_string (get dns_requests s))
                                  ++ (field (codes "dns_fail") (to_string (get dns_failures s))
                                      ++ (field (codes "tx") (format_bytes (get bytes_tx s))
                                          ++ field (codes "rx")
                                              (format_bytes (get bytes_rx s)))))))))))
