-- ===== src/Sentinel.antt =====
-- The exit-code sentinel of src/daemon/jumpserver_engine.rs: `find_subslice`,
-- `partial_suffix_match`, `lookahead_sentinel`, `find_sentinel` and `SentinelScanner`, which look
-- for `marker:<digits>\n` in a byte stream that arrives in chunks. A slice `buf[n..]` is
-- `drop n buf`. Exit codes are the `i32` values that digits spell, so they are never negative here.
pub mod Search
pub mod After
pub mod Find
pub mod Stream
pub mod Bytes
mod Tests
use cross_host_ops.Base.{
  ℕ, zero, suc, ◌+◌, ◌-◌, ◌*◌, min, Bool, true, false, ◌||◌, ◌&&◌, List, [], ◌∷◌, ◌++◌, Option,
  none, some, length, take, drop, ltb, leb, ◌==◌, if◌then◌else◌, Text, starts_with, text_eq,
  is_empty, is_digit, digits_value, newline, carriage_return,
}
use mathlib.Core.Option
use mathlib.Core.List.{foldl}

-- `haystack.windows(needle.len()).position(|window| window == needle)`
pub first_window : Text → Text → Option ℕ
first_window [] needle = none
first_window (c ∷ s) needle =
    let later = first_window s needle in
    if starts_with needle (c ∷ s) then some 0 else Option.map suc later

unfoldable pub find_subslice : Text → Text → Option ℕ
unfolding first_window
find_subslice haystack needle =
    if is_empty needle || ltb (length haystack) (length needle)
    then none
    else first_window haystack needle

-- `(1..=max).rev().find(…).unwrap_or(0)`
pub longest_match : Text → Text → ℕ → ℕ
longest_match buf pattern' zero = 0
longest_match buf pattern' (suc n) =
    let shorter = longest_match buf pattern' n in
    if text_eq (drop (length buf - suc n) buf) (take (suc n) pattern') then suc n else shorter

pub partial_suffix_match : Text → Text → ℕ
unfolding longest_match
partial_suffix_match buf pattern' =
    if leb (length pattern') 1 || is_empty buf
    then 0
    else longest_match buf pattern' (min (length buf) (length pattern' - 1))

pub data Lookahead : Type 0 where
  confirmed : ℕ → ℕ → Lookahead
  incomplete mismatch : Lookahead

-- `while i < after.len() && after[i].is_ascii_digit()`: how many digits there are.
pub digit_run : Text → ℕ
digit_run [] = 0
digit_run (c ∷ s) = let more = digit_run s in if is_digit c then suc more else 0

-- `parse::<i32>().ok()…unwrap_or(0)` of a run of digits: 0 where the number does not fit.
pub parse_code : Text → ℕ
parse_code s = if leb (digits_value s) 2_147_483_647 then digits_value s else 0

-- What follows the digits: the terminator. The first argument counts the digits.
pub terminated : ℕ → ℕ → Text → Lookahead
terminated n code [] = incomplete
terminated n code (c ∷ []) =
    if c == newline
    then confirmed code (n + 2)
    else if c == carriage_return
    then incomplete
    else mismatch
terminated n code (c ∷ d ∷ s) =
    if c == newline
    then confirmed code (n + 2)
    else if c == carriage_return && d == newline
    then confirmed code (n + 3)
    else mismatch

pub after_colon : Text → Lookahead
unfolding digit_run terminated
after_colon s =
    let n = digit_run s in
    if n == 0
    then (if ltb 0 (length s) then mismatch else incomplete)
    else terminated n (parse_code (take n s)) (drop n s)

pub lookahead_sentinel : Text → Lookahead
lookahead_sentinel [] = incomplete
lookahead_sentinel (c ∷ s) = if c == b':' then after_colon s else mismatch

pub data SentinelFind : Type 0 where
  confirmed_at : ℕ → ℕ → ℕ → SentinelFind
  incomplete_at : ℕ → SentinelFind
  not_found : SentinelFind

-- The loop `while let Some(rel) = find_subslice(&buf[search_from..], marker)`, on fuel: each round
-- that goes on moves `search_from` behind a marker.
pub find_from : ℕ → ℕ → Text → Text → SentinelFind
find_from zero search_from buf marker = not_found
find_from (suc fuel) search_from buf marker = elim (find_subslice (drop search_from buf) marker) [
  | none ↦ not_found
  | some rel ↦ elim (lookahead_sentinel (drop (search_from + rel + length marker) buf)) [
    | confirmed code consumed ↦
        confirmed_at (search_from + rel) code (search_from + rel + length marker + consumed)
    | incomplete ↦ incomplete_at (search_from + rel)
    | mismatch ↦ find_from fuel (search_from + rel + length marker) buf marker
  ]
]

pub find_sentinel : Text → Text → SentinelFind
find_sentinel buf marker =
    if is_empty marker then not_found else find_from (suc (length buf)) 0 buf marker

pub record Scanner : Type 0 where
  pub marker : Text
  pub hold : Text
  pub leftover : Text
  pub done : Bool
  pub exit_code : ℕ

unfoldable pub new : Text → Scanner
new marker = record { marker = marker; hold = []; leftover = []; done = false; exit_code = 0 }

-- The three outcomes of the search over all that is held.
pub feed_held : Scanner → Text → SentinelFind → Scanner × Text
feed_held s held (confirmed_at pos code end) =
    (record s { leftover = drop end held; hold = []; exit_code = code; done = true }, take pos held)
feed_held s held (incomplete_at pos) = (record s { hold = drop pos held }, take pos held)
feed_held s held not_found =
    let safe = length held - partial_suffix_match held s.marker in
    (record s { hold = drop safe held }, take safe held)

-- The scanner after the chunk, and the bytes that may be forwarded now. The Boolean that `feed`
-- returns beside them is `done` of the new scanner.
pub feed : Scanner → Text → Scanner × Text
unfolding feed_held
feed s chunk =
    if s.done
    then (s, [])
    else (let held = s.hold ++ chunk in feed_held s held (find_sentinel held s.marker))

-- The caller's loop: each chunk is fed, and what comes out is forwarded.
pub feed_all : Scanner → List Text → Scanner × Text
feed_all s [] = (s, [])
feed_all s (chunk ∷ chunks) =
    let (s', out) = feed s chunk in let (s'', more) = feed_all s' chunks in (s'', out ++ more)
