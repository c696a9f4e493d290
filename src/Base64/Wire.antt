-- ===== src/Base64/Wire.antt =====
-- How long the stream is: `wire_len_for` announces exactly what the encoder writes.
use mathlib.Core.List.{flatten}
use cross_host_ops.Base.{
  ℕ, zero, suc, ◌+◌, ◌-◌, ◌*◌, ◌/◌, ◌<◌, ◌≤◌, ◌≡◌, refl, ap, ◌∙◌, subst, List, [], ◌∷◌, ◌++◌, arith,
  Text, length, All, newline, take, drop, All-take, All-drop, All-append, All-append_left,
  All-append_right, length-append, length-take, length-drop,
}
use cross_host_ops.Base64.{
  Engine, Encoder, encode_lines, encode, finish, encode_all, new_encoder, div_ceil, wire_len_for,
}

wire_len_for-lines : (g r : ℕ) → wire_len_for (g * 57 + r) ≡ g * 77 + wire_len_for r
unfolding wire_len_for
wire_len_for-lines g r = omega arith

wire_len_for-tail : (r : ℕ) → 0 < r → r < 57 → wire_len_for r ≡ div_ceil r 3 * 4 + 1
unfolding wire_len_for
wire_len_for-tail r p h = omega arith

module _ (engine : Engine) where
  open engine use {encode_group, encode_nil, encode_one, encode_two, encode_three}

  length-encode_group :
      (s : Text) → All (λ b. b < 256) s → length (encode_group s) ≡ div_ceil (length s) 3 * 4
  length-encode_group [] h = rw encode_nil refl
  length-encode_group (a ∷ []) h = rw (encode_one a h.0) refl
  length-encode_group (a ∷ b ∷ []) h = rw (encode_two a b h.0 h.1.0) refl
  length-encode_group (a ∷ b ∷ c ∷ s) h =
      let later = length-encode_group s h.1.1.1 in
      rw (encode_three a b c s h.0 h.1.0 h.1.1.0) (omega arith)

  -- After `g` full lines.
  record Lines (g : ℕ) (e : Encoder) (r : Encoder × Text) : Type 0 where
    written : length r.1 ≡ g * 77
    counted : r.0.encoded_total ≡ e.encoded_total + g * 77
    left : length r.0.pending ≡ length e.pending - g * 57
    bytes : All (λ b. b < 256) r.0.pending

  encode_lines-Lines :
      (g : ℕ) (e : Encoder)
      → All (λ b. b < 256) e.pending
      → g * 57 ≤ length e.pending
      → Lines g e (encode_lines engine g e)
  unfolding encode_lines
  encode_lines-Lines zero e h l = record {
    written = refl;
    counted = omega arith;
    left = omega arith;
    bytes = h;
  }
  encode_lines-Lines (suc g) e h l =
      let p = e.pending in
      let drained : Encoder = record {
        pending = drop 57 p;
        encoded_total = e.encoded_total + 77;
      } in
      let line = take 57 p in
      let later =
        encode_lines-Lines g drained (All-drop _ 57 p h) (omega (arith, length-drop 57 p)) in
      let first = length-encode_group line (All-take _ 57 p h) in
      let size = length-append (encode_group line) (newline ∷ []) in
      let sizes =
        length-append (encode_group line ++ newline ∷ []) (encode_lines engine g drained).1 in
      record {
        written = omega (arith, length-take 57 p, later.written);
        counted = omega (arith, later.counted);
        left = omega (arith, length-drop 57 p, later.left);
        bytes = later.bytes;
      }

  record Written (n : ℕ) (e : Encoder) (r : Encoder × Text) : Type 0 where
    wire : length r.1 ≡ wire_len_for n
    total : r.0.encoded_total ≡ e.encoded_total + length r.1

  finish-Written :
      (e : Encoder) (p : Text)
      → e.pending ≡ p
      → All (λ b. b < 256) p
      → length p < 57
      → Written (length p) e (finish engine e)
  unfolding finish wire_len_for
  finish-Written e [] q h l = rw q (record { wire = refl; total = omega arith })
  finish-Written e (a ∷ p) q h l =
      let s = a ∷ p in
      let size = length-encode_group s h in
      let tail = wire_len_for-tail (length s) (omega arith) l in
      rw q (record {
        wire = omega (arith, length-append (encode_group s) (newline ∷ []));
        total = refl;
      })

  encode_all-Written :
      (e : Encoder) (chunks : List Text)
      → All (λ b. b < 256) e.pending
      → All (λ b. b < 256) (flatten chunks)
      → length e.pending < 57
      → Written (length e.pending + length (flatten chunks)) e (encode_all engine e chunks)
  unfolding encode_all encode flatten
  encode_all-Written e [] h bytes l =
      let none_left : length e.pending ≡ length e.pending + 0 = omega arith in
      subst (λ n. Written n e (finish engine e)) none_left (finish-Written e e.pending refl h l)
  encode_all-Written e (chunk ∷ chunks) h bytes l =
      let p = e.pending ++ chunk in
      let g = length p / 57 in
      let e' = record e { pending = p } in
      let here = All-append _ e.pending chunk h (All-append_left _ chunk (flatten chunks) bytes) in
      let lines = encode_lines-Lines g e' here (omega arith) in
      let after = (encode_lines engine g e').0 in
      let later =
        encode_all-Written after chunks lines.bytes
          (All-append_right _ chunk (flatten chunks) bytes) (omega (arith, lines.left)) in
      let size = length-append (encode_lines engine g e').1 (encode_all engine after chunks).1 in
      let parts = length-append e.pending chunk in
      let whole = length-append chunk (flatten chunks) in
      let left = lines.left in
      let announced = wire_len_for-lines g (length after.pending + length (flatten chunks)) in
      let count : g * 57 + (length after.pending + length (flatten chunks))
          ≡ length e.pending + length (chunk ++ flatten chunks) =
        omega arith in
      record {
        wire = omega (arith, later.wire, lines.written, ap wire_len_for count);
        total = omega (arith, later.total, lines.counted);
      }

  -- Whatever the chunks, the stream for `n` bytes has the length `wire_len_for n`, and the encoder
  -- has counted exactly the bytes that it wrote.
  pub length-encode_all :
      (chunks : List Text)
      → All (λ b. b < 256) (flatten chunks)
      → (length (encode_all engine new_encoder chunks).1 ≡ wire_len_for (length (flatten chunks)))
        × ((encode_all engine new_encoder chunks).0.encoded_total
            ≡ length (encode_all engine new_encoder chunks).1)
  unfolding new_encoder
  length-encode_all chunks bytes =
      let w = encode_all-Written new_encoder chunks tt bytes (omega arith) in
      let n : 0 + length (flatten chunks) ≡ length (flatten chunks) = omega arith in
      (w.wire ∙ ap wire_len_for n, omega (arith, w.total))

pub wire_len_for-ge : (n : ℕ) → n ≤ wire_len_for n
unfolding wire_len_for
wire_len_for-ge n = omega arith
