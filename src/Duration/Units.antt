-- ===== src/Duration/Units.antt =====
-- A number with a unit, and a duration that was printed.
use cross_host_ops.Base.{
  u64_max, parse_digits, parse_u64, digits_of, to_decimal, if◌then◌else◌, Bool-cases, inl, inr,
  length-append, ◌-◌, ap₂, ℕ, zero, suc, ◌+◌, ◌*◌, ◌/◌, ◌%◌, ◌^◌, ◌≤◌, ◌<◌, ◌≡◌, refl, ap, ◌∙◌,
  true, false, [], ◌∷◌, ◌++◌, Option, none, some, arith, length, all, ltb, ◌==◌, Text, is_digit,
  digits_value, ok, take-length-append, drop-length-append,
}
use mathlib.Core.List.{foldl}
use cross_host_ops.Duration.{
  Duration, from_secs, find_unit, in_unit, amount_in, with_unit, parse_duration, serialize_duration,
  deserialize_duration, string,
}

find_unit-append :
    (ds : Text) (c : ℕ) (s : Text)
    → all is_digit ds ≡ true
    → is_digit c ≡ false
    → find_unit (ds ++ c ∷ s) ≡ some (length ds)
unfolding find_unit
find_unit-append [] c s h n = rw n refl
find_unit-append (d ∷ ds) c s h n =
    let here : is_digit d ≡ true = ground arith in
    let rest : all is_digit ds ≡ true = ground arith in
    rw (here, find_unit-append ds c s rest n) refl

all-append-stop :
    (ds : Text) (c : ℕ) (s : Text) → is_digit c ≡ false → all is_digit (ds ++ c ∷ s) ≡ false
all-append-stop [] c s n = rw n refl
all-append-stop (d ∷ ds) c s n = rw (all-append-stop ds c s n) (ground arith)

parse_u64-digits :
    (d : ℕ) (ds : Text) → is_digit d ≡ true → parse_u64 (d ∷ ds) ≡ parse_digits (d ∷ ds)
parse_u64-digits d ds h = ground arith

with_unit-append :
    (ds s : Text) (v : ℕ) → parse_u64 ds ≡ some v → with_unit (ds ++ s) (length ds) ≡ in_unit v s
with_unit-append ds s v h =
    ap₂ (λ p q. amount_in (parse_u64 p) q) (take-length-append ds s) (drop-length-append ds s)
    ∙ rw h refl

-- Digits before one character that is none: the number, in that unit.
pub parse_duration-unit :
    (ds : Text) (c : ℕ) (s : Text)
    → all is_digit ds ≡ true
    → 0 < length ds
    → digits_value ds ≤ u64_max
    → is_digit c ≡ false
    → parse_duration (ds ++ c ∷ s) ≡ in_unit (digits_value ds) (c ∷ s)
unfolding parse_duration
parse_duration-unit [] c s h l b n = absurd (omega arith)
parse_duration-unit (d ∷ ds) c s h l b n =
    let here : is_digit d ≡ true = ground arith in
    let stops : all is_digit (d ∷ ds ++ c ∷ s) ≡ false = all-append-stop (d ∷ ds) c s n in
    let fails : parse_u64 (d ∷ ds ++ c ∷ s) ≡ none =
      parse_u64-digits d (ds ++ c ∷ s) here ∙ rw stops refl in
    let fits : parse_u64 (d ∷ ds) ≡ some (digits_value (d ∷ ds)) =
      parse_u64-digits d ds here ∙ rw h (ground arith) in
    rw (fails, find_unit-append (d ∷ ds) c s h n) (with_unit-append (d ∷ ds) (c ∷ s) _ fits)

-- How long a unit is.
abbrev pub unit_seconds : ℕ → Option ℕ
unit_seconds c =
    if c == b's'
    then some 1
    else if c == b'm'
    then some 60
    else if c == b'h'
    then some 3_600
    else if c == b'd'
    then some 86_400
    else none

in_unit-seconds :
    (n c k : ℕ)
    → unit_seconds c ≡ some k
    → n ≤ u64_max
    → in_unit n (c ∷ []) ≡ ok (from_secs ((n * k) % 2 ^ 64))
unfolding in_unit
in_unit-seconds n c k h b = ground arith

unit-not_digit : (c k : ℕ) → unit_seconds c ≡ some k → is_digit c ≡ false
unit-not_digit c k h = ground arith

-- Digits, at least one, of a number that fits into a `u64`, with one of the units `s`, `m`, `h` and
-- `d`: the duration is the number times the unit's length, modulo 2^64.
pub parse_duration-seconds :
    (ds : Text) (c k : ℕ)
    → all is_digit ds ≡ true
    → 0 < length ds
    → digits_value ds ≤ u64_max
    → unit_seconds c ≡ some k
    → parse_duration (ds ++ c ∷ []) ≡ ok (from_secs ((digits_value ds * k) % 2 ^ 64))
parse_duration-seconds ds c k h l b u =
    parse_duration-unit ds c [] h l b (unit-not_digit c k u)
    ∙ in_unit-seconds (digits_value ds) c k u b

abbrev ten_to : ℕ → ℕ
ten_to zero = 1
ten_to (suc n) = 10 * ten_to n

foldl-snoc :
    (ds : Text) (d n : ℕ)
    → foldl (λ m c. m * 10 + (c - b'0')) n (ds ++ d ∷ [])
      ≡ foldl (λ m c. m * 10 + (c - b'0')) n ds * 10 + (d - b'0')
foldl-snoc [] d n = refl
foldl-snoc (x ∷ ds) d n = foldl-snoc ds d (n * 10 + (x - b'0'))

all-snoc :
    (ds : Text) (d : ℕ)
    → all is_digit ds ≡ true
    → is_digit d ≡ true
    → all is_digit (ds ++ d ∷ []) ≡ true
all-snoc [] d h k = rw k refl
all-snoc (x ∷ ds) d h k =
    let rest : all is_digit ds ≡ true = ground arith in
    let ih = all-snoc ds d rest k in ground arith

digits_of-value : (fuel n : ℕ) → n < ten_to fuel → digits_value (digits_of fuel n) ≡ n
unfolding digits_of
digits_of-value zero n b = omega arith
digits_of-value (suc fuel) n b = elim (Bool-cases (ltb n 10)) [
  | inl e ↦ rw e (omega arith)
  | inr e ↦
      let ih = digits_of-value fuel (n / 10) (omega arith) in
      rw e (foldl-snoc (digits_of fuel (n / 10)) (b'0' + n % 10) 0 ∙ rw ih (omega arith))
]

digits_of-digits : (fuel n : ℕ) → all is_digit (digits_of fuel n) ≡ true
unfolding digits_of
digits_of-digits zero n = refl
digits_of-digits (suc fuel) n = elim (Bool-cases (ltb n 10)) [
  | inl e ↦ rw e (ground arith)
  | inr e ↦ rw e (
      all-snoc (digits_of fuel (n / 10)) (b'0' + n % 10) (digits_of-digits fuel (n / 10))
        (ground arith))
]

digits_of-length : (fuel n : ℕ) → 0 < length (digits_of (suc fuel) n)
unfolding digits_of
digits_of-length fuel n = elim (Bool-cases (ltb n 10)) [
  | inl e ↦ rw e (omega arith)
  | inr e ↦ rw e (rw (length-append (digits_of fuel (n / 10)) ((b'0' + n % 10) ∷ [])) (omega arith))
]

-- What is written of a duration is read as its whole seconds, for all that a `u64` holds.
deserialize_duration-serialize_duration :
    (d : Duration)
    → d.secs ≤ u64_max
    → deserialize_duration (string (serialize_duration d)) ≡ ok (from_secs d.secs)
unfolding deserialize_duration serialize_duration in_unit to_decimal
deserialize_duration-serialize_duration d b =
    let v = digits_of-value 20 d.secs (omega arith) in
    parse_duration-unit (digits_of 20 d.secs) b's' [] (digits_of-digits 20 d.secs)
      (digits_of-length 19 d.secs) (rw v b) refl
    ∙ ap (λ n. ok (from_secs n)) v
