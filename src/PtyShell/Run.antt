-- ===== src/PtyShell/Run.antt =====
-- A whole run in raw mode: what is delivered for a stream with both markers.
use mathlib.Core.List.{flatten}
use cross_host_ops.Base.{
  ◌+◌, ◌<◌, ◌≡◌, refl, sym, ap, ◌∙◌, ◌≢◌, List, [], ◌∷◌, ◌++◌, Option, none, some, arith, length,
  Text, append_assoc, append-nil, is_empty, if◌then◌else◌, ok, All,
}
use cross_host_ops.Base64
use cross_host_ops.Base64.{Decoder, Engine, finish_decoder, new_decoder, new_encoder, encode_all}
use cross_host_ops.Base64.Chunks.{feed_all-flatten, feed-nil}
use cross_host_ops.Base64.RoundTrip.{decode-encode_all}
use cross_host_ops.Sentinel
use cross_host_ops.Sentinel.Search.{FirstAt}
use cross_host_ops.Sentinel.After.{IsDigits, IsTerminator}
use cross_host_ops.Sentinel.Find.{size}
use cross_host_ops.PtyShell.{pump, run_raw, clear_prompt_remainder}
use cross_host_ops.PtyShell.Begin.{discard-Finds}
use cross_host_ops.PtyShell.Raw.{Delivers, Sentinelled, pump-plain, pump-base64}

length-pos : (s : Text) → s ≢ [] → 0 < length s
length-pos [] n = absurd (n refl)
length-pos (c ∷ s) n = omega arith

held_first :
    (held : Text) (later : List Text)
    → flatten (if is_empty held then later else held ∷ later) ≡ held ++ flatten later
unfolding flatten
held_first [] later = refl
held_first (c ∷ held) later = refl

run_raw-pump :
    (suffixes : List Text) (pending begin m noise body : Text) (d : Option Decoder)
    (chunks : List Text)
    → begin ≢ []
    → FirstAt begin noise
    → flatten chunks ≡ noise ++ (begin ++ body)
    → (run : List Text) × (run_raw suffixes pending begin m d chunks ≡ pump d (Sentinel.new m) run)
      × (flatten run ≡ clear_prompt_remainder suffixes pending ++ body)
unfolding run_raw
run_raw-pump suffixes pending begin m noise body d chunks named first e =
    let l : 0 < length noise + length begin = omega (arith, length-pos begin named) in
    let (after, later, found, rest) =
      discard-Finds begin body named [] chunks (noise, first, e, l) in
    let left = clear_prompt_remainder suffixes pending in
    let held = left ++ after in
    rw (found, run_raw)
      (
        if is_empty held then later else held ∷ later,
        refl,
        held_first held later ∙ append_assoc left after (flatten later) ∙ ap (◌++◌ left) rest,
      )

-- A stream of noise, the begin marker, `out`, the end marker, `:`, digits, a line end and more, cut
-- anywhere, with no begin marker in the noise and no end marker before its place: the run sends
-- what `clear_prompt_remainder` leaves of the pending bytes, then exactly `out`, ends with the code
-- of the digits, and what follows the line end is pending or unread.
pub run_raw-Delivers :
    (suffixes : List Text) (pending begin m noise out ds term rest : Text) (chunks : List Text)
    → begin ≢ []
    → m ≢ []
    → FirstAt begin noise
    → FirstAt m (clear_prompt_remainder suffixes pending ++ out)
    → (digits : IsDigits ds) → (ends : IsTerminator term)
    → flatten chunks ≡ noise ++ (begin ++ (out ++ (m ++ (b':' ∷ (ds ++ (term ++ rest))))))
    → Delivers ds rest
        (clear_prompt_remainder suffixes pending ++ out)
        (run_raw suffixes pending begin m none chunks)
unfolding Sentinel.new
run_raw-Delivers suffixes pending begin m noise out ds term rest chunks nb nm fb fm digits ends e =
    let left = clear_prompt_remainder suffixes pending in
    let (run, same, whole) =
      run_raw-pump suffixes pending begin m noise (Sentinelled m ds term rest out) none chunks nb fb
        e in
    let text = whole ∙ sym (append_assoc left out _) in
    let room : 0 < length (left ++ out) + size m ds term = omega (arith, length-pos m nm) in
    rw same (
      pump-plain m ds term rest nm digits ends (Sentinel.new m) (left ++ out) run
        (fm, refl, refl, text, room))

module _ (engine : Engine) where
  -- The same in base64: bytes that were encoded, and then cut anywhere between the two markers, are
  -- sent back exactly, if no bytes are pending, the expected length is theirs, and the end marker
  -- begins with `_`.
  pub run_raw-encode_all :
      (suffixes : List Text) (pending begin m noise ds term rest : Text) (bytes chunks : List Text)
      → begin ≢ []
      → FirstAt begin noise
      → clear_prompt_remainder suffixes pending ≡ []
      → FirstAt (b'_' ∷ m) (encode_all engine new_encoder bytes).1
      → (digits : IsDigits ds) → (ends : IsTerminator term) → All (λ b. b < 256) (flatten bytes)
      → flatten chunks
        ≡ noise
          ++ (begin
              ++ ((encode_all engine new_encoder bytes).1
                  ++ ((b'_' ∷ m) ++ (b':' ∷ (ds ++ (term ++ rest))))))
      → Delivers ds rest (flatten bytes) (
          run_raw suffixes pending begin
            (b'_' ∷ m)
            (some (new_decoder (length (flatten bytes))))
            chunks)
  unfolding Sentinel.new flatten
  run_raw-encode_all suffixes pending begin m noise ds term rest bytes chunks nb fb clear fm digits
        ends small e =
      let wire = (encode_all engine new_encoder bytes).1 in
      let d = new_decoder (length (flatten bytes)) in
      let (dw, decoded, complete) =
        decode-encode_all engine bytes (wire ∷ []) small (append-nil wire) in
      let reads : Base64.feed d wire ≡ ok (dw, flatten bytes) =
        ap (Base64.feed d) (sym (append-nil wire))
        ∙ sym (feed_all-flatten d (wire ∷ []))
        ∙ decoded in
      let (run, same, whole) =
        run_raw-pump suffixes pending begin (b'_' ∷ m) noise
          (Sentinelled (b'_' ∷ m) ds term rest wire) (some d) chunks nb fb e in
      let text = whole ∙ ap (λ k. k ++ Sentinelled (b'_' ∷ m) ds term rest wire) clear in
      rw same (
        pump-base64 (b'_' ∷ m) ds term rest (λ z. cc) digits ends d dw wire (flatten bytes) m refl
          reads complete (Sentinel.new (b'_' ∷ m)) d wire [] [] run (feed-nil d) text
          (fm, refl, refl, text, omega arith))
