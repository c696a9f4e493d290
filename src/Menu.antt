-- ===== src/Menu.antt =====
-- The menu of a bastion: `strip_ansi` and the reading of its tables and prompts in
-- src/daemon/jumpserver_engine.rs, and `navigate_to_asset` of src/daemon/gateway/jumpserver.rs in
-- Navigate.antt.
--
-- Text is the code points that `from_utf8_lossy` makes of the bytes. `strip_ansi` walks over the bytes
-- of them, and slices the text there: in the middle of a character, the slice panics.
use cross_host_ops.Base.{
  ℕ, zero, suc, ◌-◌, Bool, true, false, not, ◌&&◌, List, [], ◌∷◌, map, Option, none, some, length,
  all, retain, ltb, leb, ◌==◌, if◌then◌else◌, Result, ok, err, ◌>>=◌, Text, codes, text_eq,
  is_empty, split, lines, prepend, is_digit, digits_value, trim, newline, carriage_return, drop,
  ◌+◌, trim_start, ◌++◌, backslash,
}
pub mod Ansi
pub mod Navigate
pub mod Lines
pub mod Reached
pub mod Pages
mod Tests
use mathlib.Core.List.{reverse}
use cross_host_ops.Sentinel.{find_subslice}
use cross_host_ops.PtyShell.{ends_with}

pub data Error : Type 0 where
  panicked : Error
  ambiguous : ℕ → Error
  not_found : ℕ → Error
  no_page_status candidates : Error
  closed mfa_failed : Error

abbrev pub escape_char : ℕ
escape_char = 27

-- A byte of a text: the first one of a character, or another one.
pub data Byte : Type 0 where
  starts : ℕ → Byte
  continues : Byte

-- `char::len_utf8`
pub len_utf8 : ℕ → ℕ
len_utf8 c = if ltb c 128 then 1 else if ltb c 2048 then 2 else if ltb c 65536 then 3 else 4

abbrev pub continuing : ℕ → List Byte → List Byte
continuing zero bs = bs
continuing (suc n) bs = continues ∷ continuing n bs

unfoldable pub as_bytes : Text → List Byte
unfolding len_utf8
as_bytes [] = []
as_bytes (c ∷ s) = starts c ∷ continuing (len_utf8 c - 1) (as_bytes s)

-- The value of a byte below 128; of another one, some value from 128 on, as the bytes of a character
-- that is not ASCII all have.
abbrev pub value : Byte → ℕ
value (starts c) = c
value continues = 128

-- Where the loop of `strip_ansi` is: outside of a sequence, in a character that was pushed, with so
-- many bytes of it behind the next one, behind the escape character, in the inner loop for `[` or for
-- `]`, and behind an escape character in the latter.
pub data Mode : Type 0 where
  plain : Mode
  in_char : ℕ → Mode
  escape csi osc osc_escape : Mode

-- With so many bytes of the character ahead.
abbrev pub left_in : ℕ → Mode
left_in zero = plain
left_in (suc n) = in_char n

abbrev pub next_osc : ℕ → Mode
next_osc c = if c == 7 then plain else if c == escape_char then osc_escape else osc

abbrev pub ends_csi : ℕ → Bool
ends_csi c = leb 64 c && leb c 126

pub next : Mode → Byte → Mode
unfolding len_utf8
next plain (starts c) = if c == escape_char then escape else left_in (len_utf8 c - 1)
next plain continues = plain
next (in_char n) b = left_in n
next escape b = if value b == b'[' then csi else if value b == b']' then osc else plain
next csi b = if ends_csi (value b) then plain else csi
next osc b = next_osc (value b)
next osc_escape b = if value b == backslash then plain else next_osc (value b)

abbrev pub push : ℕ → Result Error Text → Result Error Text
push c rest = rest >>= λ s. ok (c ∷ s)

-- What the byte adds, in front of what the rest of the loop gives: outside of a sequence, the slice
-- `input[index..]` panics if no character starts at the byte.
pub emit : Mode → Byte → Result Error Text → Result Error Text
emit plain (starts c) rest = if c == escape_char then rest else push c rest
emit plain continues rest = err panicked
emit (in_char n) b rest = rest
emit escape b rest = rest
emit csi b rest = rest
emit osc b rest = rest
emit osc_escape b rest = rest

unfoldable pub strip_from : Mode → List Byte → Result Error Text
unfolding next emit
strip_from m [] = ok []
strip_from m (b ∷ bs) = let rest = strip_from (next m b) bs in emit m b rest

unfoldable pub strip_ansi : Text → Result Error Text
unfolding strip_from as_bytes
strip_ansi input = strip_from plain (as_bytes input)

pub record JumpserverAssetRow : Type 0 where
  pub id : Text
  pub ip : Text

pub looks_like_ipv4 : Text → Bool
looks_like_ipv4 value =
    let parts = split b'.' value in
    length parts == 4 && all (λ part. not (is_empty part) && all is_digit part) parts

-- The row of a line, if it is one.
pub asset_row : List Text → List JumpserverAssetRow
unfolding looks_like_ipv4
asset_row (id ∷ name ∷ ip ∷ more) =
    if all is_digit id && looks_like_ipv4 ip then record { id = id; ip = ip } ∷ [] else []
asset_row _ = []

pub rows_of : List Text → List JumpserverAssetRow
unfolding asset_row
rows_of [] = []
rows_of (line ∷ rest) = asset_row (map trim (split b'|' line)) ++ rows_of rest

unfoldable pub parse_asset_rows : Text → Result Error (List JumpserverAssetRow)
unfolding strip_ansi lines rows_of
parse_asset_rows text = strip_ansi text >>= λ clean. ok (rows_of (lines clean))

abbrev pub only_id : List JumpserverAssetRow → Result Error (Option Text)
only_id [] = ok none
only_id (row ∷ []) = ok (some row.id)
only_id (row ∷ another ∷ more) = err (ambiguous (length (row ∷ another ∷ more)))

unfoldable pub select_exact_asset_id : Text → Text → Result Error (Option Text)
unfolding parse_asset_rows
select_exact_asset_id text ip =
    parse_asset_rows text >>= λ rows. only_id (retain (λ row. text_eq row.ip ip) rows)

pub record PageStatus : Type 0 where
  pub current : ℕ
  pub total : ℕ

-- The part behind the first place where a text stands (`split_once`).
pub behind : Text → Text → Option Text
behind sep s = elim (find_subslice s sep) [
  | none ↦ none
  | some pos ↦ some (drop (pos + length sep) s)
]

-- `split(…).find(|part| !part.is_empty())`: the first run of digits.
pub digits_from : Text → Text
digits_from [] = []
digits_from (c ∷ s) = let rest = digits_from s in if is_digit c then c ∷ rest else []

pub first_digits : Text → Text
unfolding digits_from
first_digits [] = []
first_digits (c ∷ s) = let rest = first_digits s in if is_digit c then digits_from (c ∷ s) else rest

-- `parse::<u32>` of a run of digits.
abbrev pub parse_u32 : Text → Option ℕ
parse_u32 s =
    if not (is_empty s) && leb (digits_value s) 4_294_967_295 then some (digits_value s) else none

pub number_behind : Text → Text → Option ℕ
unfolding behind first_digits
number_behind sep clean = elim (behind sep clean) [
  | none ↦ none
  | some rest ↦ parse_u32 (first_digits rest)
]

abbrev pub page_status : Option ℕ → Option ℕ → Option PageStatus
page_status (some current) (some total) = some (record { current = current; total = total })
page_status (some current) none = none
page_status none total = none

unfoldable pub parse_page_status : Text → Result Error (Option PageStatus)
unfolding strip_ansi number_behind
parse_page_status text = strip_ansi text >>= λ clean.
    ok (page_status (number_behind (codes "页码：") clean) (number_behind (codes "总页数：") clean))

abbrev pub contains : Text → Text → Bool
contains needle s = elim (find_subslice s needle) [ none ↦ false | some pos ↦ true ]

pub trim_end : Text → Text
trim_end s = reverse (trim_start (reverse s))

unfoldable pub contains_menu_prompt : Text → Result Error Bool
unfolding strip_ansi
contains_menu_prompt text = strip_ansi text >>= λ clean. ok (contains (codes "Opt") clean)

unfoldable pub contains_page_prompt : Text → Result Error Bool
unfolding strip_ansi trim_end
contains_page_prompt text = strip_ansi text >>= λ clean.
    ok (contains (codes "上一页") clean && ends_with (b':' ∷ []) (trim_end clean))
