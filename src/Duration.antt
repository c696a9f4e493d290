-- ===== src/Duration.antt =====
-- src/config/duration.rs: durations of the configuration, read from and written as strings like
-- "10s". A product in `u64` wraps around, as in a release build (a debug build panics there). Of a value
-- that serde hands over, the three kinds that the visitor takes are modelled.
mod Units
mod Tests
use cross_host_ops.Base.{
  u64_max, parse_digits, parse_u64, digits_of, to_decimal, ℕ, zero, suc, ◌+◌, ◌*◌, ◌/◌, ◌%◌, ◌^◌,
  Bool, true, false, ◌&&◌, not, List, [], ◌∷◌, ◌++◌, Option, none, some, length, take, drop, all,
  leb, ltb, ◌==◌, if◌then◌else◌, Text, codes, text_eq, is_empty, is_digit, digits_value, Result, ok,
  err,
}
use mathlib.Core.Option

pub record Duration : Type 0 where
  pub secs : ℕ
  pub nanos : ℕ

abbrev pub from_secs : ℕ → Duration
from_secs n = record { secs = n; nanos = 0 }

pub data Error : Type 0 where
  empty_duration : Error
  no_unit : Error
  bad_number : Error
  bad_unit : Error
  negative : Error

-- `find` of the first character that is no digit.
pub find_unit : Text → Option ℕ
find_unit [] = none
find_unit (c ∷ s) = let rest = find_unit s in if is_digit c then Option.map suc rest else some 0

-- `*` on `u64`.
abbrev pub mul : ℕ → ℕ → ℕ
mul a b = (a * b) % 2 ^ 64

pub in_unit : ℕ → Text → Result Error Duration
in_unit amount unit =
    if text_eq unit (codes "s")
    then ok (from_secs amount)
    else if text_eq unit (codes "m")
    then ok (from_secs (mul amount 60))
    else if text_eq unit (codes "h")
    then ok (from_secs (mul (mul amount 60) 60))
    else if text_eq unit (codes "d")
    then ok (from_secs (mul (mul (mul amount 60) 60) 24))
    else err bad_unit

abbrev pub amount_in : Option ℕ → Text → Result Error Duration
amount_in none unit = err bad_number
amount_in (some amount) unit = in_unit amount unit

abbrev pub with_unit : Text → ℕ → Result Error Duration
with_unit value split = amount_in (parse_u64 (take split value)) (drop split value)

pub parse_duration : Text → Result Error Duration
unfolding find_unit
parse_duration value = if is_empty value then err empty_duration else elim (parse_u64 value) [
  | some seconds ↦ ok (from_secs seconds)
  | none ↦ elim (find_unit value) [ none ↦ err no_unit | some split ↦ with_unit value split ]
]

pub serialize_duration : Duration → Text
serialize_duration d = to_decimal d.secs ++ codes "s"

-- What serde hands to the visitor: an integer, here by its sign and size, or a string.
pub data Value : Type 0 where
  unsigned : ℕ → Value
  below_zero : ℕ → Value
  string : Text → Value

pub deserialize_duration : Value → Result Error Duration
unfolding parse_duration
deserialize_duration (unsigned n) = ok (from_secs n)
deserialize_duration (below_zero n) = err negative
deserialize_duration (string value) = parse_duration value
