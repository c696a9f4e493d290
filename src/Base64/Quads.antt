-- ===== src/Base64/Quads.antt =====
-- What the decoder makes of one quad of the stream.
use cross_host_ops.Base.{
  ℕ, ◌+◌, ◌*◌, ◌/◌, ◌%◌, ◌<◌, ◌≤◌, ◌≡◌, refl, ap, ◌∙◌, true, false, [], ◌∷◌, arith, Text, ok, ◌>>=◌,
  ltb-ge, append-nil, length,
}
use cross_host_ops.Base64.{
  Decoder, feed, feed_byte, take_symbol, take_padding, fill, prefix, symbol, pad, decode_quad,
  first_byte, second_byte,
}
use cross_host_ops.Base64.Chunks.{feed-live, feed-stopped, prefix-nil}
use cross_host_ops.Base64.Symbols.{
  symbol_kind, decode_quad-whole, decode_quad-three, decode_quad-two, first_byte_lem,
  second_byte_lem, third_byte_lem,
}

-- A decoder that still reads, with the symbols `q` of a quad.
abbrev pub reading : ℕ → ℕ → Text → Decoder
reading n k q = record { expected = n; decoded = k; quad = q; stopped = false }

abbrev pub stopped_at : ℕ → ℕ → Decoder
stopped_at n k = record { expected = n; decoded = k; quad = []; stopped = true }

feed-step :
    (n k : ℕ) (q : Text) (b : ℕ) (s : Text) (d' : Decoder) (out : Text)
    → feed_byte (reading n k q) b ≡ ok (d', out)
    → feed (reading n k q) (b ∷ s) ≡ prefix out (feed d' s)
feed-step n k q b s d' out e =
    feed-live (reading n k q) b s refl ∙ ap (λ r. r >>= λ (d, o). prefix o (feed d s)) e

feed_byte-symbol :
    (d : Decoder) (x : ℕ) → x < 64 → feed_byte d (symbol x) ≡ take_symbol d (symbol x)
unfolding feed_byte
feed_byte-symbol d x h = ground (arith, symbol_kind x h)

take_symbol-full :
    (n k a b c s : ℕ) (bytes : Text)
    → decode_quad (a ∷ b ∷ c ∷ s ∷ []) ≡ ok bytes
    → k + 3 ≤ n
    → take_symbol (reading n k (a ∷ b ∷ c ∷ [])) s ≡ ok (reading n (k + 3) [], bytes)
unfolding take_symbol
take_symbol-full n k a b c s bytes e l = rw e (ground arith)

-- Up to three symbols are kept.
module _ (n k x : ℕ) (h : x < 64) (rest : Text) where
  feed-first : feed (reading n k []) (symbol x ∷ rest) ≡ feed (reading n k (symbol x ∷ [])) rest
  unfolding take_symbol
  feed-first =
      feed-step n k [] (symbol x) rest _ [] (feed_byte-symbol (reading n k []) x h) ∙ prefix-nil _

  feed-second :
      (a : ℕ)
      → feed (reading n k (a ∷ [])) (symbol x ∷ rest) ≡ feed (reading n k (a ∷ symbol x ∷ [])) rest
  unfolding take_symbol
  feed-second a =
      feed-step n k (a ∷ []) (symbol x) rest _ [] (feed_byte-symbol (reading n k (a ∷ [])) x h)
      ∙ prefix-nil _

  feed-third :
      (a b : ℕ)
      → feed (reading n k (a ∷ b ∷ [])) (symbol x ∷ rest)
        ≡ feed (reading n k (a ∷ b ∷ symbol x ∷ [])) rest
  unfolding take_symbol
  feed-third a b =
      feed-step n k (a ∷ b ∷ []) (symbol x) rest _ []
        (feed_byte-symbol (reading n k (a ∷ b ∷ [])) x h)
      ∙ prefix-nil _

  feed-fourth :
      (a b c : ℕ) (bytes : Text)
      → decode_quad (a ∷ b ∷ c ∷ symbol x ∷ []) ≡ ok bytes
      → k + 3 ≤ n
      → feed (reading n k (a ∷ b ∷ c ∷ [])) (symbol x ∷ rest)
        ≡ prefix bytes (feed (reading n (k + 3) []) rest)
  feed-fourth a b c bytes e l = feed-step n k (a ∷ b ∷ c ∷ []) (symbol x) rest _ bytes (
      feed_byte-symbol (reading n k (a ∷ b ∷ c ∷ [])) x h
      ∙ take_symbol-full n k a b c (symbol x) bytes e l)

-- Three bytes.
pub feed-three :
    (n k a b c : ℕ) (rest : Text)
    → a < 256
    → b < 256
    → c < 256
    → k + 3 ≤ n
    → feed (reading n k []) (
        symbol (a / 4)
        ∷ symbol (a % 4 * 16 + b / 16)
        ∷ symbol (b % 16 * 4 + c / 64)
        ∷ symbol (c % 64)
        ∷ rest)
      ≡ prefix (a ∷ b ∷ c ∷ []) (feed (reading n (k + 3) []) rest)
feed-three n k a b c rest ha hb hc l =
    let w = a / 4 in
    let x = a % 4 * 16 + b / 16 in
    let y = b % 16 * 4 + c / 64 in
    let z = c % 64 in
    let hw : w < 64 = omega arith in
    let hx : x < 64 = omega arith in
    let hy : y < 64 = omega arith in
    let hz : z < 64 = omega arith in
    let whole : decode_quad (symbol w ∷ symbol x ∷ symbol y ∷ symbol z ∷ []) ≡ ok (a ∷ b ∷ c ∷ []) =
      decode_quad-whole w x y z hw hx hy hz
      ∙ cc (
        first_byte_lem a (b / 16) ha (omega arith),
        second_byte_lem (a % 4) b (c / 64) (omega arith) hb (omega arith),
        third_byte_lem (b % 16) c (omega arith) hc,
      ) in
    feed-first n k w hw _
    ∙ (feed-second n k x hx _ (symbol w)
        ∙ (feed-third n k y hy _ (symbol w) (symbol x)
            ∙ feed-fourth n k z hz rest (symbol w) (symbol x) (symbol y) (a ∷ b ∷ c ∷ []) whole l))

take_padding-full :
    (n k : ℕ) (q bytes : Text)
    → decode_quad (fill q) ≡ ok bytes
    → 2 ≤ length q
    → k + length bytes ≤ n
    → take_padding (reading n k q) ≡ ok (stopped_at n (k + length bytes), bytes)
unfolding take_padding
take_padding-full n k q bytes e two l =
    rw (ltb-ge (length q) 2 two, e, ltb-ge n (k + length bytes) l) refl

feed_byte-pad : (d : Decoder) → feed_byte d pad ≡ take_padding d
unfolding feed_byte
feed_byte-pad d = refl

feed-pad :
    (n k : ℕ) (q bytes rest : Text)
    → decode_quad (fill q) ≡ ok bytes
    → 2 ≤ length q
    → k + length bytes ≤ n
    → feed (reading n k q) (pad ∷ rest) ≡ ok (stopped_at n (k + length bytes), bytes)
feed-pad n k q bytes rest e two l =
    feed-step n k q pad rest _ bytes
      (feed_byte-pad (reading n k q) ∙ take_padding-full n k q bytes e two l)
    ∙ (ap (prefix bytes) (feed-stopped (stopped_at n (k + length bytes)) rest refl)
        ∙ ap (λ o. ok (stopped_at n (k + length bytes), o)) (append-nil bytes))

-- One byte, padded twice; what follows is not read.
pub feed-one :
    (n k a : ℕ) (rest : Text)
    → a < 256
    → k + 1 ≤ n
    → feed (reading n k []) (symbol (a / 4) ∷ symbol (a % 4 * 16) ∷ pad ∷ rest)
      ≡ ok (stopped_at n (k + 1), a ∷ [])
feed-one n k a rest ha l =
    let w = a / 4 in
    let x = a % 4 * 16 in
    let hw : w < 64 = omega arith in
    let hx : x < 64 = omega arith in
    let same : a % 4 * 16 + 0 ≡ x = omega arith in
    let whole : decode_quad (symbol w ∷ symbol x ∷ pad ∷ pad ∷ []) ≡ ok (a ∷ []) =
      decode_quad-two w x hw hx
      ∙ cc (first_byte_lem a 0 ha (omega arith), ap (first_byte w) same) in
    feed-first n k w hw _
    ∙ (feed-second n k x hx _ (symbol w)
        ∙ feed-pad n k (symbol w ∷ symbol x ∷ []) (a ∷ []) rest whole (omega arith) l)

-- Two bytes, padded once.
pub feed-two :
    (n k a b : ℕ) (rest : Text)
    → a < 256
    → b < 256
    → k + 2 ≤ n
    → feed
        (reading n k [])
        (symbol (a / 4) ∷ symbol (a % 4 * 16 + b / 16) ∷ symbol (b % 16 * 4) ∷ pad ∷ rest)
      ≡ ok (stopped_at n (k + 2), a ∷ b ∷ [])
feed-two n k a b rest ha hb l =
    let w = a / 4 in
    let x = a % 4 * 16 + b / 16 in
    let y = b % 16 * 4 in
    let hw : w < 64 = omega arith in
    let hx : x < 64 = omega arith in
    let hy : y < 64 = omega arith in
    let same : b % 16 * 4 + 0 ≡ y = omega arith in
    let whole : decode_quad (symbol w ∷ symbol x ∷ symbol y ∷ pad ∷ []) ≡ ok (a ∷ b ∷ []) =
      decode_quad-three w x y hw hx hy
      ∙ cc (
        first_byte_lem a (b / 16) ha (omega arith),
        second_byte_lem (a % 4) b 0 (omega arith) hb (omega arith),
        ap (second_byte x) same,
      ) in
    feed-first n k w hw _
    ∙ (feed-second n k x hx _ (symbol w)
        ∙ (feed-third n k y hy _ (symbol w) (symbol x)
            ∙ feed-pad n k (symbol w ∷ symbol x ∷ symbol y ∷ []) (a ∷ b ∷ []) rest whole
                (omega arith) l))
