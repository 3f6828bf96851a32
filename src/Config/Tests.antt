-- ===== src/Config/Tests.antt =====
-- Runs of src/config.rs where addresses are plain numbers: what std's parsers do is a parameter.
use cortado.Base.{◌≡◌, refl, codes, err}
use cortado.Text.Decimal.{parse_unsigned}
use cortado.Text.Split.{split_once}
use cortado.Config.{parse_cidr, prefix_exceeds}
use cortado.Config.Valid.{IsReadable, validate-IsReadable}
use cortado.Config.Samples.{numbers, sample, sample_accepted}

long_prefix : parse_cidr numbers (codes "3232235776/33") ≡ err (prefix_exceeds 32)
unfolding parse_cidr parse_unsigned split_once
long_prefix = refl

validate-IsReadable_example : IsReadable numbers sample
validate-IsReadable_example = validate-IsReadable numbers sample sample_accepted
