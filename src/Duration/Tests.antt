-- ===== src/Duration/Tests.antt =====
-- Durations at concrete texts.
use cross_host_ops.Base.{to_decimal, ◌*◌, ◌%◌, ◌^◌, ◌≡◌, refl, arith, codes, ok, err, digits_value}
use cross_host_ops.Duration.{
  Duration, from_secs, parse_duration, find_unit, in_unit, serialize_duration, bad_number, no_unit,
}
use cross_host_ops.Duration.Units.{parse_duration-seconds}

parse_duration-seconds_example :
    parse_duration (codes "15m") ≡ ok (from_secs ((digits_value (codes "15") * 60) % 2 ^ 64))
parse_duration-seconds_example =
    parse_duration-seconds (codes "15") b'm' 60 refl (omega arith) (omega arith) refl

-- 213,503,982,334,602 days are about half a day, after the wrap-around.
wraps : parse_duration (codes "213503982334602d") ≡ ok (from_secs 61_184)
unfolding parse_duration find_unit in_unit
wraps = refl

abbrev minutes : Duration
minutes = record { secs = 90; nanos = 500 }

written : serialize_duration minutes ≡ codes "90s"
unfolding serialize_duration to_decimal
written = refl

plus_sign : parse_duration (codes "+5s") ≡ err bad_number
unfolding parse_duration find_unit in_unit
plus_sign = refl

too_large : parse_duration (codes "18446744073709551616") ≡ err no_unit
unfolding parse_duration find_unit in_unit
too_large = refl
