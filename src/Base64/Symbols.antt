-- ===== src/Base64/Symbols.antt =====
-- One quad: the alphabet read back, and the bytes put together again.
use Prim.Native.Nat.{bit_or}
use cross_host_ops.Base.{
  ◌≤◌, subst, inl, inr, Bool-cases, ℕ, zero, suc, ◌+◌, ◌*◌, ◌/◌, ◌%◌, ◌<◌, ◌≡◌, refl, ap, ◌∙◌, Bool,
  true, false, ◌&&◌, [], ◌∷◌, arith, ◌==◌, ==_iff, ok, newline, carriage_return,
}
use cross_host_ops.Base64.{
  symbol, symbol_value, is_alphabet, pad, first_byte, second_byte, third_byte, decode_quad,
  decode_padded,
}

-- The test holds for `len` numbers in a row.
holds_from : (ℕ → Bool) → ℕ → ℕ → Bool
holds_from test first zero = true
holds_from test first (suc len) = test first && holds_from test (suc first) len

holds_from_sound :
    (test : ℕ → Bool) (first len k : ℕ)
    → holds_from test first len ≡ true
    → first ≤ k
    → k < first + len
    → test k ≡ true
unfolding holds_from
holds_from_sound test first zero k checked low high = absurd (omega arith)
holds_from_sound test first (suc len) k checked low high = elim (Bool-cases (first == k)) [
  | inl same ↦
      let eq : first ≡ k = (==_iff first k).0 same in subst (λ j. test j ≡ true) eq (ground arith)
  | inr other ↦ holds_from_sound test (suc first) len k (ground arith) (ground arith) (omega arith)
]

-- Shifted by `k` bits, a value has no bit in common with one below `2 ^ k`.
or_table : (m k : ℕ) → Bool
unfolding holds_from
or_table m k = holds_from (λ x. holds_from (λ y. bit_or (x * k) y == x * k + y) 0 k) 0 m

or-add : (m k x y : ℕ) → or_table m k ≡ true → x < m → y < k → bit_or (x * k) y ≡ x * k + y
unfolding or_table
or-add m k x y table h l =
    let row =
      holds_from_sound (λ z. holds_from (λ w. bit_or (z * k) w == z * k + w) 0 k) 0 m x table
        (omega arith) (omega arith) in
    (==_iff _ _).0
      (holds_from_sound (λ w. bit_or (x * k) w == x * k + w) 0 k y row (omega arith) (omega arith))

table4 : or_table 64 4 ≡ true
unfolding or_table
table4 = refl

table16 : or_table 64 16 ≡ true
unfolding or_table
table16 = refl

table64 : or_table 64 64 ≡ true
unfolding or_table
table64 = refl

pub first_byte_lem : (a r : ℕ) → a < 256 → r < 16 → first_byte (a / 4) (a % 4 * 16 + r) ≡ a
first_byte_lem a r h l =
    let low : (a % 4 * 16 + r) / 16 ≡ a % 4 = omega arith in
    let joined = or-add 64 4 (a / 4) (a % 4) table4 (omega arith) (omega arith) in
    ap (λ k. bit_or (a / 4 * 4) k % 256) low ∙ (ap (λ k. k % 256) joined ∙ omega arith)

pub second_byte_lem :
    (x b r : ℕ) → x < 4 → b < 256 → r < 4 → second_byte (x * 16 + b / 16) (b % 16 * 4 + r) ≡ b
second_byte_lem x b r g h l =
    let low : (b % 16 * 4 + r) / 4 ≡ b % 16 = omega arith in
    let joined = or-add 64 16 (x * 16 + b / 16) (b % 16) table16 (omega arith) (omega arith) in
    ap (λ k. bit_or ((x * 16 + b / 16) * 16) k % 256) low ∙ (ap (λ k. k % 256) joined ∙ omega arith)

pub third_byte_lem : (x c : ℕ) → x < 16 → c < 256 → third_byte (x * 4 + c / 64) (c % 64) ≡ c
third_byte_lem x c g h =
    let joined = or-add 64 64 (x * 4 + c / 64) (c % 64) table64 (omega arith) (omega arith) in
    ap (λ k. k % 256) joined ∙ omega arith

pub symbol_value-symbol : (n : ℕ) → n < 64 → symbol_value (symbol n) ≡ ok n
unfolding symbol_value symbol
symbol_value-symbol n h = ground arith

alphabet_table : holds_from (λ k. is_alphabet (symbol k)) 0 64 ≡ true
unfolding holds_from symbol
alphabet_table = refl

-- A symbol is taken, and is neither padding nor a line break.
pub symbol_kind :
    (n : ℕ)
    → n < 64
    → (is_alphabet (symbol n) ≡ true)
      × ((symbol n == carriage_return) ≡ false)
      × ((symbol n == newline) ≡ false)
      × ((symbol n == pad) ≡ false)
unfolding symbol
symbol_kind n h = (
  holds_from_sound (λ k. is_alphabet (symbol k)) 0 64 n alphabet_table (omega arith) h,
  ground arith,
  ground arith,
  ground arith,
)

pub symbol-ne-pad : (n : ℕ) → n < 64 → (symbol n == pad) ≡ false
symbol-ne-pad n h = (symbol_kind n h).3

module _ (w x y z : ℕ) (hw : w < 64) (hx : x < 64) (hy : y < 64) (hz : z < 64) where
  -- Four symbols.
  pub decode_quad-whole :
      decode_quad (symbol w ∷ symbol x ∷ symbol y ∷ symbol z ∷ [])
      ≡ ok (first_byte w x ∷ second_byte x y ∷ third_byte y z ∷ [])
  unfolding decode_quad decode_padded
  decode_quad-whole =
      rw
        (
          symbol-ne-pad w hw,
          symbol-ne-pad x hx,
          symbol-ne-pad y hy,
          symbol-ne-pad z hz,
          symbol_value-symbol w hw,
          symbol_value-symbol x hx,
          symbol_value-symbol y hy,
          symbol_value-symbol z hz,
        )
        refl

module _ (w x y : ℕ) (hw : w < 64) (hx : x < 64) (hy : y < 64) where
  pub decode_quad-three :
      decode_quad (symbol w ∷ symbol x ∷ symbol y ∷ pad ∷ [])
      ≡ ok (first_byte w x ∷ second_byte x y ∷ [])
  unfolding decode_quad decode_padded
  decode_quad-three =
      rw
        (
          symbol-ne-pad w hw,
          symbol-ne-pad x hx,
          symbol-ne-pad y hy,
          symbol_value-symbol w hw,
          symbol_value-symbol x hx,
          symbol_value-symbol y hy,
        )
        refl

pub decode_quad-two :
    (w x : ℕ)
    → w < 64
    → x < 64
    → decode_quad (symbol w ∷ symbol x ∷ pad ∷ pad ∷ []) ≡ ok (first_byte w x ∷ [])
unfolding decode_quad decode_padded
decode_quad-two w x hw hx =
    rw (symbol-ne-pad w hw, symbol-ne-pad x hx, symbol_value-symbol w hw, symbol_value-symbol x hx)
      refl
