-- ===== src/Base/Numbers.antt =====
-- Unsigned numbers of 64 bits and their decimal digits, as the standard library reads and prints them.
use Prim.Native.Nat.{ℕ, zero, suc, ◌+◌, ◌-◌, ◌/◌, ◌%◌}
use mathlib.Core.List.{[], ◌∷◌, ◌++◌}
use mathlib.Core.Bool.{◌&&◌, not}
use mathlib.Core.Option.{Option, none, some}
use cross_host_ops.Base.Tests.{ltb, leb, ◌==◌, if◌then◌else◌}
use cross_host_ops.Base.Lists.{all}
use cross_host_ops.Base.Chars.{Text, is_empty, is_digit, digits_value}

abbrev pub u64_max : ℕ
u64_max = 18446744073709551615

-- `u64::from_str`: digits, after a plus sign or not, of a number that fits.
abbrev pub parse_digits : Text → Option ℕ
parse_digits s =
    if not (is_empty s) && all is_digit s && leb (digits_value s) u64_max
    then some (digits_value s)
    else none

abbrev pub parse_u64 : Text → Option ℕ
parse_u64 [] = none
parse_u64 (c ∷ s) = if c == b'+' then parse_digits s else parse_digits (c ∷ s)

-- The decimal digits of a number, as `format!` prints them; the fuel is a bound on their number.
unfoldable pub digits_of : ℕ → ℕ → Text
digits_of zero n = []
digits_of (suc fuel) n =
    let front = digits_of fuel (n / 10) in
    if ltb n 10 then (b'0' + n) ∷ [] else front ++ ((b'0' + n % 10) ∷ [])

-- A `u64` has at most 20 digits.
unfoldable pub to_decimal : ℕ → Text
unfolding digits_of
to_decimal n = digits_of 20 n

-- An `i32`.
pub data ExitCode : Type 0 where
  non_negative : ℕ → ExitCode
  minus : ℕ → ExitCode

-- `as i32` of a `u32`: from 2^31 on, the number less 2^32.
abbrev pub as_i32 : ℕ → ExitCode
as_i32 n =
    if ltb (n % 4_294_967_296) 2_147_483_648
    then non_negative (n % 4_294_967_296)
    else minus (4_294_967_296 - n % 4_294_967_296)
