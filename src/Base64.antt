-- ===== src/Base64.antt =====
-- The streaming codec of src/daemon/session/b64.rs: `wire_len_for`, `B64Decoder`, `decode_quad`
-- and `B64Encoder`. Bytes are numbers below 256. The decoder's `quad` holds the bytes that it has
-- collected, so `quad_len` is its length. After an error the decoder is not used again, and the
-- model keeps no state for it. The counters are the source's `u64` without a wrap: they count
-- bytes that were received.
--
-- `encode_group` calls the crate `base64` (its engine `STANDARD`), which is not part of the
-- repository: it is the parameter `Engine`, with the encoding of RFC 4648 as its laws.
pub mod Symbols
pub mod Chunks
pub mod Quads
pub mod RoundTrip
pub mod Wire
pub mod Standard
mod Tests
use Prim.Native.Nat.{bit_or}
use cross_host_ops.Base.{
  ℕ, zero, suc, ◌+◌, ◌-◌, ◌*◌, ◌/◌, ◌%◌, ◌<◌, ◌≡◌, Bool, true, false, ◌||◌, ◌&&◌, List, [], ◌∷◌,
  ◌++◌, length, take, drop, ltb, leb, ◌==◌, if◌then◌else◌, Text, is_empty, is_alphanumeric, newline,
  carriage_return, Result, ok, err, ◌>>=◌, retain,
}

-- `u64::div_ceil`
abbrev pub div_ceil : ℕ → ℕ → ℕ
div_ceil a b = (a + (b - 1)) / b

pub wire_len_for : ℕ → ℕ
wire_len_for decoded =
    let chars = div_ceil decoded 3 * 4 in let lines = div_ceil chars 76 in chars + lines

pub data Error : Type 0 where
  payload_larger padding_position invalid_character padding_order quad_padding : Error
  length_mismatch : Error

pub record Decoder : Type 0 where
  pub expected : ℕ
  pub decoded : ℕ
  pub quad : Text
  pub stopped : Bool

pub new_decoder : ℕ → Decoder
new_decoder expected = record { expected = expected; decoded = 0; quad = []; stopped = false }

pub finish_decoder : Decoder → Result Error (Unit {0})
finish_decoder d = if d.decoded == d.expected then ok tt else err length_mismatch

abbrev pub pad : ℕ
pad = b'='

-- The closure `v` of `decode_quad`.
pub symbol_value : ℕ → Result Error ℕ
symbol_value c =
    if leb b'A' c && leb c b'Z'
    then ok (c - b'A')
    else if leb b'a' c && leb c b'z'
    then ok (c - b'a' + 26)
    else if leb b'0' c && leb c b'9'
    then ok (c - b'0' + 52)
    else if c == b'+'
    then ok 62
    else if c == b'/'
    then ok 63
    else err invalid_character

-- `((x << k) | y) as u8`
abbrev pub first_byte : ℕ → ℕ → ℕ
first_byte a b = bit_or (a * 4) (b / 16) % 256

abbrev pub second_byte : ℕ → ℕ → ℕ
second_byte b c = bit_or (b * 16) (c / 4) % 256

abbrev pub third_byte : ℕ → ℕ → ℕ
third_byte c d = bit_or (c * 64) d % 256

-- `match pad`, behind the values of the first two symbols.
pub decode_padded : ℕ → ℕ → ℕ → ℕ → ℕ → Result Error Text
unfolding symbol_value
decode_padded pads a b q2 q3 =
    if pads == 0
    then (symbol_value q2 >>= λ c.
        symbol_value q3 >>= λ d. ok (first_byte a b ∷ second_byte b c ∷ third_byte c d ∷ []))
    else if pads == 1
    then (if q3 == pad
        then (symbol_value q2 >>= λ c. ok (first_byte a b ∷ second_byte b c ∷ []))
        else err padding_order)
    else if pads == 2
    then ok (first_byte a b ∷ [])
    else err quad_padding

-- The callers pass four bytes.
pub decode_quad : Text → Result Error Text
unfolding decode_padded
decode_quad (q0 ∷ q1 ∷ q2 ∷ q3 ∷ []) =
    let pads = length (retain (λ c. c == pad) (q0 ∷ q1 ∷ q2 ∷ q3 ∷ [])) in
    symbol_value q0 >>= λ a. symbol_value q1 >>= λ b. decode_padded pads a b q2 q3
decode_quad _ = err quad_padding

abbrev pub is_alphabet : ℕ → Bool
is_alphabet c = is_alphanumeric c || (c == b'+' || c == b'/')

abbrev within : Decoder → Text → Result Error (Decoder × Text)
within d out = if ltb d.expected d.decoded then err payload_larger else ok (d, out)

-- A symbol completes a quad or is kept.
pub take_symbol : Decoder → ℕ → Result Error (Decoder × Text)
unfolding decode_quad
take_symbol d b =
    let quad = d.quad ++ b ∷ [] in
    if length quad == 4
    then (decode_quad quad >>= λ bytes.
        within (record d { decoded = d.decoded + 3; quad = [] }) bytes)
    else ok (record d { quad = quad }, [])

abbrev pub fill : Text → Text
fill (a ∷ b ∷ []) = a ∷ b ∷ pad ∷ pad ∷ []
fill (a ∷ b ∷ c ∷ []) = a ∷ b ∷ c ∷ pad ∷ []
fill q = q

-- Padding completes the quad and ends the stream.
pub take_padding : Decoder → Result Error (Decoder × Text)
unfolding decode_quad
take_padding d =
    if ltb (length d.quad) 2
    then err padding_position
    else (decode_quad (fill d.quad) >>= λ bytes.
        within (record d { decoded = d.decoded + length bytes; quad = []; stopped = true }) bytes)

-- The body of the loop over the chunk.
pub feed_byte : Decoder → ℕ → Result Error (Decoder × Text)
unfolding take_symbol take_padding
feed_byte d b =
    if b == carriage_return || b == newline
    then ok (d, [])
    else if is_alphabet b
    then take_symbol d b
    else if b == pad
    then take_padding d
    else ok (record d { stopped = true }, [])

-- What was decoded goes in front of what the rest of the chunk gives.
abbrev pub prefix : Text → Result Error (Decoder × Text) → Result Error (Decoder × Text)
prefix out r = r >>= λ (d, more). ok (d, out ++ more)

pub feed : Decoder → Text → Result Error (Decoder × Text)
unfolding feed_byte
feed d [] = ok (d, [])
feed d (b ∷ chunk) = elim d.stopped [
  | true ↦ ok (d, [])
  | false ↦ feed_byte d b >>= λ (d', out). prefix out (feed d' chunk)
]

-- The alphabet of RFC 4648, by value.
unfoldable pub symbol : ℕ → ℕ
symbol n =
    if ltb n 26
    then b'A' + n
    else if ltb n 52
    then b'a' + (n - 26)
    else if ltb n 62
    then b'0' + (n - 52)
    else if n == 62
    then b'+'
    else b'/'

-- The crate's standard engine, which `encode_group` calls: three bytes give four symbols, and one
-- or two left at the end are padded.
pub record Engine : Type 0 where
  pub encode_group : Text → Text
  pub encode_nil : encode_group [] ≡ []
  pub encode_one :
      (a : ℕ)
      → a < 256
      → encode_group (a ∷ []) ≡ symbol (a / 4) ∷ symbol (a % 4 * 16) ∷ pad ∷ pad ∷ []
  pub encode_two :
      (a b : ℕ)
      → a < 256
      → b < 256
      → encode_group (a ∷ b ∷ [])
        ≡ symbol (a / 4) ∷ symbol (a % 4 * 16 + b / 16) ∷ symbol (b % 16 * 4) ∷ pad ∷ []
  pub encode_three :
      (a b c : ℕ) (s : Text)
      → a < 256
      → b < 256
      → c < 256
      → encode_group (a ∷ b ∷ c ∷ s)
        ≡ symbol (a / 4)
          ∷ symbol (a % 4 * 16 + b / 16)
          ∷ symbol (b % 16 * 4 + c / 64)
          ∷ symbol (c % 64)
          ∷ encode_group s

pub record Encoder : Type 0 where
  pub pending : Text
  pub encoded_total : ℕ

abbrev pub group : ℕ
group = 57

unfoldable pub new_encoder : Encoder
new_encoder = record { pending = []; encoded_total = 0 }

module _ (engine : Engine) where
  open engine use {encode_group}

  -- `for _ in 0..groups`: the lines that come out, and what stays pending.
  unfoldable pub encode_lines : ℕ → Encoder → Encoder × Text
  encode_lines zero e = (e, [])
  encode_lines (suc n) e =
      let line = encode_group (take group e.pending) ++ newline ∷ [] in
      let drained = record e {
        pending = drop group e.pending;
        encoded_total = e.encoded_total + 77;
      } in
      let (e', out) = encode_lines n drained in (e', line ++ out)

  unfoldable pub encode : Encoder → Text → Encoder × Text
  unfolding encode_lines
  encode e bytes =
      let pending = e.pending ++ bytes in
      encode_lines (length pending / group) (record e { pending = pending })

  unfoldable pub finish : Encoder → Encoder × Text
  finish e =
      if is_empty e.pending
      then (e, [])
      else (let out = encode_group e.pending ++ newline ∷ [] in
          (record { pending = []; encoded_total = e.encoded_total + length out }, out))

  -- The caller's loop: every chunk is encoded, and the encoder is finished.
  unfoldable pub encode_all : Encoder → List Text → Encoder × Text
  encode_all e [] = finish e
  encode_all e (chunk ∷ chunks) =
      let (e', out) = encode e chunk in let (e'', more) = encode_all e' chunks in (e'', out ++ more)
