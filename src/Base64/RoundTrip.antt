-- ===== src/Base64/RoundTrip.antt =====
-- What the encoder writes is read back, however both streams are cut into chunks.
use mathlib.Core.List.{flatten}
use cross_host_ops.Base.{
  ℕ, zero, suc, ◌+◌, ◌*◌, ◌/◌, ◌<◌, ◌≤◌, ◌≡◌, refl, sym, ap, ◌∙◌, subst, List, [], ◌∷◌, ◌++◌, arith,
  Text, ok, Result, append_assoc, length, All-take, All-drop, All-append, All-append_left,
  All-append_right, append-nil, length-append, length-take, length-drop, All, newline, take, drop,
  take-append-drop,
}
use cross_host_ops.Base64.{
  Decoder, Error, Engine, Encoder, feed, feed_byte, prefix, encode_lines, encode, finish,
  encode_all, new_decoder, finish_decoder, new_encoder,
}
use cross_host_ops.Base64.Quads.{reading, stopped_at, feed-one, feed-two, feed-three}
use cross_host_ops.Base64.Chunks.{prefix-nil, prefix-prefix, feed_all, feed_all-flatten}

module _ (engine : Engine) where
  open engine use {encode_group, encode_nil, encode_one, encode_two, encode_three}

  -- A text whose length is a multiple of three is read, and the decoder goes on behind it.
  feed-encode_group :
      (m n k : ℕ) (s rest : Text)
      → length s ≡ m * 3
      → All (λ b. b < 256) s
      → k + m * 3 ≤ n
      → feed (reading n k []) (encode_group s ++ rest)
        ≡ prefix s (feed (reading n (k + m * 3) []) rest)
  feed-encode_group zero n k [] rest e h l =
      rw encode_nil (ap (λ j. feed (reading n j []) rest) (omega arith) ∙ sym (prefix-nil _))
  feed-encode_group zero n k (a ∷ s) rest e h l = absurd (omega arith)
  feed-encode_group (suc m) n k (a ∷ b ∷ c ∷ s) rest e h l =
      let later = feed-encode_group m n (k + 3) s rest (omega arith) h.1.1.1 (omega arith) in
      let end : k + 3 + m * 3 ≡ k + suc m * 3 = omega arith in
      rw (encode_three a b c s h.0 h.1.0 h.1.1.0) (
        feed-three n k a b c (encode_group s ++ rest) h.0 h.1.0 h.1.1.0 (omega arith)
        ∙ (ap (prefix (a ∷ b ∷ c ∷ [])) later
            ∙ (prefix-prefix (a ∷ b ∷ c ∷ []) s _
                ∙ ap (λ j. prefix (a ∷ b ∷ c ∷ s) (feed (reading n j []) rest)) end)))
  feed-encode_group (suc m) n k _ rest e h l = absurd (omega arith)

  feed-newline : (n k : ℕ) → feed (reading n k []) (newline ∷ []) ≡ ok (reading n k [], [])
  unfolding feed feed_byte
  feed-newline n k = refl

  -- The decoder behind the last line.
  abbrev Ends : ℕ → ℕ → Text → Result Error (Decoder × Text) → Type 0
  Ends n k s r = (d : Decoder) × (r ≡ ok (d, s)) × (d.decoded ≡ k + length s) × (d.expected ≡ n)

  Ends-group :
      (n k : ℕ) (s : Text)
      → All (λ b. b < 256) s
      → k + length s ≤ n
      → Ends n k s (feed (reading n k []) (encode_group s ++ newline ∷ []))
  Ends-group n k [] h l = (reading n k [], rw encode_nil (feed-newline n k), omega arith, refl)
  Ends-group n k (a ∷ []) h l = (
    stopped_at n (k + 1),
    rw (encode_one a h.0) (feed-one n k a _ h.0 (omega arith)),
    omega arith,
    refl,
  )
  Ends-group n k (a ∷ b ∷ []) h l = (
    stopped_at n (k + 2),
    rw (encode_two a b h.0 h.1.0) (feed-two n k a b _ h.0 h.1.0 (omega arith)),
    omega arith,
    refl,
  )
  Ends-group n k (a ∷ b ∷ c ∷ s) h l =
      let (d, e, total, same) = Ends-group n (k + 3) s h.1.1.1 (omega arith) in
      (
        d,
        rw (encode_three a b c s h.0 h.1.0 h.1.1.0) (
            feed-three n k a b c _ h.0 h.1.0 h.1.1.0 (omega arith)
            ∙ ap (prefix (a ∷ b ∷ c ∷ [])) e),
        omega arith,
        same,
      )

  skip_newline :
      (n k : ℕ) (rest : Text) → feed (reading n k []) (newline ∷ rest) ≡ feed (reading n k []) rest
  unfolding feed feed_byte
  skip_newline n k rest = prefix-nil _

  -- `g` full lines are read as the bytes that they were made of.
  pub feed-encode_lines :
      (g n k : ℕ) (e : Encoder) (rest : Text)
      → All (λ b. b < 256) e.pending
      → g * 57 ≤ length e.pending
      → k + g * 57 ≤ n
      → (s : Text) × (e.pending ≡ s ++ (encode_lines engine g e).0.pending)
        × (length s ≡ g * 57)
        × (feed (reading n k []) ((encode_lines engine g e).1 ++ rest)
            ≡ prefix s (feed (reading n (k + g * 57) []) rest))
  unfolding encode_lines
  feed-encode_lines zero n k e rest h l m =
      ([], refl, refl, ap (λ j. feed (reading n j []) rest) (omega arith) ∙ sym (prefix-nil _))
  feed-encode_lines (suc g) n k e rest h l m =
      let p = e.pending in
      let line = take 57 p in
      let left = drop 57 p in
      let drained : Encoder = record { pending = left; encoded_total = e.encoded_total + 77 } in
      let (s, cut, size, later) =
        feed-encode_lines g n (k + 57) drained rest (All-drop _ 57 p h)
          (omega (arith, length-drop 57 p)) (omega arith) in
      let line_size : length line ≡ 19 * 3 = omega (arith, length-take 57 p) in
      let more = (encode_lines engine g drained).1 in
      let first =
        feed-encode_group 19 n k line (newline ∷ (more ++ rest)) line_size (All-take _ 57 p h)
          (omega arith) in
      let whole : ((encode_group line ++ newline ∷ []) ++ more) ++ rest
          ≡ encode_group line ++ newline ∷ (more ++ rest) =
        simp append_assoc refl in
      let end : k + 57 + g * 57 ≡ k + suc g * 57 = omega arith in
      (
        line ++ s,
        sym (take-append-drop 57 p) ∙ (ap (◌++◌ line) cut ∙ sym (append_assoc line s _)),
        omega (arith, length-append line s),
        ap (feed (reading n k [])) whole
            ∙ (first
                ∙ (ap (prefix line) (skip_newline n (k + 57) (more ++ rest) ∙ later)
                    ∙ (prefix-prefix line s _
                        ∙ ap (λ j. prefix (line ++ s) (feed (reading n j []) rest)) end))),
      )

  Ends-finish :
      (n k : ℕ) (e : Encoder) (p : Text)
      → e.pending ≡ p
      → All (λ b. b < 256) p
      → k + length p ≤ n
      → Ends n k p (feed (reading n k []) (finish engine e).1)
  unfolding finish feed
  Ends-finish n k e [] q h l = rw q (reading n k [], refl, omega arith, refl)
  Ends-finish n k e (a ∷ p) q h l = rw q (Ends-group n k (a ∷ p) h l)

  Ends-prefix :
      (n k m : ℕ) (s t : Text) (r : Result Error (Decoder × Text))
      → length s ≡ m
      → Ends n (k + m) t r
      → Ends n k (s ++ t) (prefix s r)
  Ends-prefix n k m s t r size (d, e, total, same) =
      (d, ap (prefix s) e, omega (arith, length-append s t), same)

  Ends-encode_all :
      (n k : ℕ) (e : Encoder) (chunks : List Text)
      → All (λ b. b < 256) e.pending
      → All (λ b. b < 256) (flatten chunks)
      → k + length (e.pending ++ flatten chunks) ≤ n
      → Ends n k
          (e.pending ++ flatten chunks)
          (feed (reading n k []) (encode_all engine e chunks).1)
  unfolding encode_all encode flatten
  Ends-encode_all n k e [] h bytes l =
      let all_of_it = sym (append-nil e.pending) in
      subst (λ s. Ends n k s (feed (reading n k []) (finish engine e).1)) all_of_it
        (Ends-finish n k e e.pending refl h (omega (arith, ap length all_of_it)))
  Ends-encode_all n k e (chunk ∷ chunks) h bytes l =
      let p = e.pending ++ chunk in
      let g = length p / 57 in
      let e' = record e { pending = p } in
      let here = All-append _ e.pending chunk h (All-append_left _ chunk (flatten chunks) bytes) in
      let e'' = (encode_lines engine g e').0 in
      let regroup = append_assoc e.pending chunk (flatten chunks) in
      let sizes = length-append p (flatten chunks) in
      let total = ap length regroup in
      let (s, cut, size, lines) =
        feed-encode_lines g n k e' (encode_all engine e'' chunks).1 here (omega arith)
          (omega arith) in
      let cut_size = ap length cut in
      let left = All-append_right _ s e''.pending (subst (All _) cut here) in
      let later =
        Ends-encode_all n (k + g * 57) e'' chunks left
          (All-append_right _ chunk (flatten chunks) bytes)
          (omega
            (arith, length-append e''.pending (flatten chunks), length-append s e''.pending)) in
      let text : s ++ (e''.pending ++ flatten chunks) ≡ e.pending ++ (chunk ++ flatten chunks) =
        sym (append_assoc s e''.pending (flatten chunks))
        ∙ (ap (λ t. t ++ flatten chunks) (sym cut) ∙ regroup) in
      subst (λ t. Ends n k t (feed (reading n k []) (encode_all engine e (chunk ∷ chunks)).1)) text
        (subst (Ends n k (s ++ (e''.pending ++ flatten chunks))) (sym lines)
          (Ends-prefix n k (g * 57) s (e''.pending ++ flatten chunks) _ size later))

  -- Bytes that are encoded chunk by chunk, and read back by a decoder that expects as many, from
  -- the same stream cut in any other way: the decoder gives exactly those bytes and accepts the
  -- end.
  pub decode-encode_all :
      (chunks wire : List Text)
      → All (λ b. b < 256) (flatten chunks)
      → flatten wire ≡ (encode_all engine new_encoder chunks).1
      → (d : Decoder) × (feed_all (new_decoder (length (flatten chunks))) wire
          ≡ ok (d, flatten chunks))
        × (finish_decoder d ≡ ok tt)
  unfolding new_encoder new_decoder finish_decoder
  decode-encode_all chunks wire bytes e =
      let n = length (flatten chunks) in
      let (d, decoded, total, same) =
        Ends-encode_all n 0 new_encoder chunks tt bytes (omega arith) in
      (
        d,
        feed_all-flatten (reading n 0 []) wire ∙ (ap (feed (reading n 0 [])) e ∙ decoded),
        ground arith,
      )

  pub feed-encode_all :
      (n : ℕ) (chunks : List Text)
      → All (λ b. b < 256) (flatten chunks)
      → length (flatten chunks) ≤ n
      → (d : Decoder) × (feed (new_decoder n) (encode_all engine new_encoder chunks).1
          ≡ ok (d, flatten chunks))
  unfolding new_encoder new_decoder
  feed-encode_all n chunks bytes l =
      let (d, decoded, total, same) =
        Ends-encode_all n 0 new_encoder chunks tt bytes (omega arith) in
      (d, decoded)
