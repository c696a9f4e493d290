-- ===== src/Base64/Chunks.antt =====
-- The decoder does not see where the stream is cut.
use mathlib.Core.List.{flatten}
use cross_host_ops.Base.{
  ℕ, ◌≡◌, refl, sym, ap, ◌∙◌, inl, inr, true, false, List, [], ◌∷◌, ◌++◌, arith, Text, ok, err,
  Result, ◌>>=◌, append_assoc, Bool-cases,
}
use cross_host_ops.Base64.{Decoder, Error, feed, feed_byte, finish_decoder, prefix}

-- The caller's loop over the chunks that arrive.
pub feed_all : Decoder → List Text → Result Error (Decoder × Text)
feed_all d [] = ok (d, [])
feed_all d (chunk ∷ chunks) = feed d chunk >>= λ (d', out). prefix out (feed_all d' chunks)

pub feed-stopped : (d : Decoder) (s : Text) → d.stopped ≡ true → feed d s ≡ ok (d, [])
unfolding feed
feed-stopped d [] h = refl
feed-stopped d (b ∷ s) h = ground arith

pub feed-live :
    (d : Decoder) (b : ℕ) (s : Text)
    → d.stopped ≡ false
    → feed d (b ∷ s) ≡ (feed_byte d b >>= λ (d', out). prefix out (feed d' s))
unfolding feed
feed-live d b s h = ground arith

pub prefix-nil : (r : Result Error (Decoder × Text)) → prefix [] r ≡ r
prefix-nil (ok (d, s)) = refl
prefix-nil (err e) = refl

pub prefix-prefix :
    (a b : Text) (r : Result Error (Decoder × Text)) → prefix a (prefix b r) ≡ prefix (a ++ b) r
prefix-prefix a b (ok (d, s)) = ap (λ k. ok (d, k)) (sym (append_assoc a b s))
prefix-prefix a b (err e) = refl

abbrev pub then_feed : Result Error (Decoder × Text) → Text → Result Error (Decoder × Text)
then_feed r y = r >>= λ (d, out). prefix out (feed d y)

then_feed-prefix :
    (out : Text) (r : Result Error (Decoder × Text)) (y : Text)
    → then_feed (prefix out r) y ≡ prefix out (then_feed r y)
then_feed-prefix out (ok (d, s)) y = sym (prefix-prefix out s (feed d y))
then_feed-prefix out (err e) y = refl

after_byte :
    (x y : Text) (r : Result Error (Decoder × Text))
    → ((d : Decoder) → feed d (x ++ y) ≡ then_feed (feed d x) y)
    → then_feed r (x ++ y) ≡ then_feed (then_feed r x) y
after_byte x y (ok (d, out)) later =
    ap (prefix out) (later d) ∙ sym (then_feed-prefix out (feed d x) y)
after_byte x y (err e) later = refl

-- Two chunks are decoded as the one chunk that they make.
pub feed-append : (d : Decoder) (x y : Text) → feed d (x ++ y) ≡ then_feed (feed d x) y
unfolding feed
feed-append d [] y = sym (prefix-nil (feed d y))
feed-append d (b ∷ x) y =
    let later = λ (d' : Decoder). feed-append d' x y in
    elim (Bool-cases d.stopped) [
      | inl s ↦
          feed-stopped d (b ∷ (x ++ y)) s
          ∙ sym (
              ap (λ r. then_feed r y) (feed-stopped d (b ∷ x) s)
              ∙ (prefix-nil (feed d y) ∙ feed-stopped d y s))
      | inr l ↦
          feed-live d b (x ++ y) l
          ∙ (after_byte x y (feed_byte d b) later
              ∙ ap (λ r. then_feed r y) (sym (feed-live d b x l)))
    ]

follow :
    (r : Result Error (Decoder × Text)) (chunks : List Text)
    → ((d : Decoder) → feed_all d chunks ≡ feed d (flatten chunks))
    → (r >>= λ (d, out). prefix out (feed_all d chunks)) ≡ then_feed r (flatten chunks)
follow (ok (d, out)) chunks later = ap (prefix out) (later d)
follow (err e) chunks later = refl

-- However the stream is cut into chunks, feeding them one after the other gives the decoder, the
-- bytes or the error that feeding it whole gives.
pub feed_all-flatten :
    (d : Decoder) (chunks : List Text) → feed_all d chunks ≡ feed d (flatten chunks)
unfolding feed_all feed flatten
feed_all-flatten d [] = refl
feed_all-flatten d (chunk ∷ chunks) =
    follow (feed d chunk) chunks (λ d'. feed_all-flatten d' chunks)
    ∙ sym (feed-append d chunk (flatten chunks))

-- A byte that is no base64 ends the stream: what follows is ignored, and the count stays.
pub feed-boundary :
    (d : Decoder) (s : Text)
    → (d' : Decoder) × (feed d (b'_' ∷ s) ≡ ok (d', [])) × (finish_decoder d' ≡ finish_decoder d)
unfolding feed_byte finish_decoder
feed-boundary d s = elim (Bool-cases d.stopped) [
  | inl over ↦ (d, feed-stopped d (b'_' ∷ s) over, refl)
  | inr live ↦
      let d' = record d { stopped = true } in
      (d', feed-live d b'_' s live ∙ ap (prefix []) (feed-stopped d' s refl), refl)
]

-- What was read without an error has a start that was.
pub feed-start :
    (d : Decoder) (x y : Text) (end : Decoder × Text)
    → feed d (x ++ y) ≡ ok end
    → (d' : Decoder) × (out : Text) × (feed d x ≡ ok (d', out))
feed-start d x y end e = started (feed d x) (sym (feed-append d x y) ∙ e)
  where
    started :
        (r : Result Error (Decoder × Text))
        → then_feed r y ≡ ok end
        → (d' : Decoder) × (out : Text) × (r ≡ ok (d', out))
    started (ok (d', out)) h = (d', out, refl)
    started (err bad) h = cc

pub prefix-start :
    (p : Text) (r : Result Error (Decoder × Text)) (end : Decoder × Text)
    → prefix p r ≡ ok end
    → (d : Decoder) × (out : Text) × (r ≡ ok (d, out))
prefix-start p (ok (d, out)) end h = (d, out, refl)
prefix-start p (err bad) end h = cc

pub feed-nil : (d : Decoder) → feed d [] ≡ ok (d, [])
unfolding feed
feed-nil d = refl
