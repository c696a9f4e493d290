-- ===== src/PtyShell/Raw.antt =====
-- Phase 2: what is delivered up to the end marker, of a plain payload and of one in base64.
use mathlib.Core.List.{flatten, append_cancel_right}
use cross_host_ops.Base.{
  suc, ◌+◌, ◌<◌, ◌≡◌, refl, sym, ap, ◌∙◌, inl, inr, ◌≢◌, false, List, [], ◌∷◌, ◌++◌, none, some,
  arith, length, Text, length-append, append_assoc, append-nil, Result, ok,
}
use cross_host_ops.Base64
use cross_host_ops.Base64.{Decoder, finish_decoder, new_decoder, prefix}
use cross_host_ops.Base64.Chunks.{feed-append, then_feed, feed-boundary, feed-start, prefix-start}
use cross_host_ops.Sentinel
use cross_host_ops.Sentinel.{Scanner, parse_code}
use cross_host_ops.Sentinel.Search.{FirstAt}
use cross_host_ops.Sentinel.After.{IsDigits, IsTerminator}
use cross_host_ops.Sentinel.Find.{size}
use cross_host_ops.Sentinel.Stream.{Goes, Goes-feed}
use cross_host_ops.PtyShell.{feed_raw_chunk, Run, finish_run, finish_decoded, then_send, pump}

ok_injective :
    (d d' : Decoder) (p p' : Text)
    → ◌≡◌ {A = Result Base64.Error (Decoder × Text)} (ok (d, p)) (ok (d', p'))
    → (d ≡ d') × (p ≡ p')
ok_injective d d' p p' e = ground arith

-- `o` and the sentinel behind it.
abbrev pub Sentinelled : Text → Text → Text → Text → Text → Text
Sentinelled m ds term rest o = o ++ (m ++ (b':' ∷ (ds ++ (term ++ rest))))

-- `out` is sent, the code is that of the digits, and nothing behind the sentinel is lost.
abbrev pub Delivers : Text → Text → Text → Run → Type 0
Delivers ds rest out (sent, r) =
    (sent ≡ out)
    × ((pending : Text) × (unread : List Text) × (r
          ≡ ok (record { exit_code = parse_code ds; pending = pending; unread = unread }))
        × (pending ++ flatten unread ≡ rest))

module _ (m ds term rest : Text) (named : m ≢ []) (digits : IsDigits ds)
    (ends : IsTerminator term) where
  -- The scanner has not stopped, and what it holds and the chunks to come are `o` and the sentinel.
  abbrev pub Waits : Text → Scanner → Text → Type 0
  Waits o s r =
      FirstAt m o
      × (s.marker ≡ m)
      × (s.done ≡ false)
      × (s.hold ++ r ≡ Sentinelled m ds term rest o)
      × (length s.hold < length o + size m ds term)

  nothing_left : (o : Text) (s : Scanner) → Waits o s [] → ⊥
  nothing_left o s (f, mk, dn, e, l) =
      let whole = ap length (sym (append-nil s.hold) ∙ e) in
      let sizes : length (Sentinelled m ds term rest o)
          ≡ length o + (length m + suc (length ds + (length term + length rest))) =
        simp length-append refl in
      absurd (omega arith)

  pump-next :
      (s : Scanner) (o chunk : Text) (chunks : List Text)
      → Goes m ds term rest named digits ends o (flatten chunks) (Sentinel.feed s chunk)
      → ((o' : Text)
          → Waits o' (Sentinel.feed s chunk).0 (flatten chunks)
          → Delivers ds rest o' (pump none (Sentinel.feed s chunk).0 chunks))
      → Delivers ds rest o (pump none s (chunk ∷ chunks))
  unfolding pump feed_raw_chunk finish_run finish_decoded
  pump-next s o chunk chunks (inl (o', p, f, dn, mk, e, l)) later =
      let (sent, run) = later o' (f, mk, dn, e, l) in
      rw (dn, pump) (ap (◌++◌ (Sentinel.feed s chunk).1) sent ∙ sym p, run)
  pump-next s o chunk chunks (inr (out, dn, code, left)) later =
      let leftover = (Sentinel.feed s chunk).0.leftover in
      let done =
        ap (λ c. ok (record { exit_code = c; pending = leftover; unread = chunks })) code in
      rw (dn, pump) (out, (leftover, chunks, done, left))

  -- A plain payload.
  pub pump-plain :
      (s : Scanner) (o : Text) (chunks : List Text)
      → Waits o s (flatten chunks)
      → Delivers ds rest o (pump none s chunks)
  unfolding flatten
  pump-plain s o [] w = absurd (nothing_left o s w)
  pump-plain s o (chunk ∷ chunks) (f, mk, dn, e, l) =
      pump-next s o chunk chunks
        (Goes-feed m ds term rest named digits ends s o chunk (flatten chunks) f mk dn e)
        (λ o'. pump-plain (Sentinel.feed s chunk).0 o' chunks)

  module _ (d0 dw : Decoder) (wire bytes m' : Text) (boundary : m ≡ b'_' ∷ m')
      (reads : Base64.feed d0 wire ≡ ok (dw, bytes)) (complete : finish_decoder dw ≡ ok tt) where
    -- The wire and the first byte of the marker decode to the bytes.
    feed-behind :
        (y : Text)
        → (d : Decoder) × (Base64.feed d0 (wire ++ (m ++ y)) ≡ ok (d, bytes))
          × (finish_decoder d ≡ ok tt)
    feed-behind y =
        let (d, over, same) = feed-boundary dw (m' ++ y) in
        (
          d,
          rw boundary (
              feed-append d0 wire (b'_' ∷ (m' ++ y))
              ∙ ap (λ r. then_feed r (b'_' ∷ (m' ++ y))) reads
              ∙ ap (prefix bytes) over
              ∙ ap (λ k. ok (d, k)) (append-nil bytes)),
          same ∙ complete,
        )

    -- What the decoder has read and given so far.
    abbrev Read : Text → Text → Decoder → Type 0
    Read c p d = Base64.feed d0 c ≡ ok (d, p)

    Read-next :
        (c p chunk r : Text) (d : Decoder)
        → Read c p d
        → c ++ (chunk ++ r) ≡ Sentinelled m ds term rest wire
        → (d' : Decoder) × (out : Text) × (Base64.feed d chunk ≡ ok (d', out))
          × Read (c ++ chunk) (p ++ out) d'
    Read-next c p chunk r d here e =
        let (full, whole, fine) = feed-behind (b':' ∷ (ds ++ (term ++ rest))) in
        let all_of_it = ap (Base64.feed d0) (append_assoc c chunk r ∙ e) ∙ whole in
        let (d', p', started) = feed-start d0 (c ++ chunk) r (full, bytes) all_of_it in
        let on = feed-append d0 c chunk ∙ ap (λ k. then_feed k chunk) here in
        let (d'', out, read) = prefix-start p (Base64.feed d chunk) (d', p') (sym on ∙ started) in
        (d'', out, read, on ∙ ap (prefix p) read)

    Read-done :
        (c p left r : Text) (d : Decoder)
        → Read c p d
        → c ++ r ≡ Sentinelled m ds term rest wire
        → left ++ r ≡ rest
        → (p ≡ bytes) × (finish_decoder d ≡ ok tt)
    Read-done c p left r d here e l =
        let y = b':' ∷ (ds ++ (term ++ left)) in
        let (full, whole, fine) = feed-behind y in
        let regroup : (wire ++ (m ++ y)) ++ r
            ≡ wire ++ (m ++ (b':' ∷ (ds ++ (term ++ (left ++ r))))) =
          simp append_assoc refl in
        let whole_stream : (wire ++ (m ++ y)) ++ r ≡ Sentinelled m ds term rest wire =
          regroup ∙ ap (λ k. wire ++ (m ++ (b':' ∷ (ds ++ (term ++ k))))) l in
        let same = append_cancel_right c (wire ++ (m ++ y)) r (e ∙ sym whole_stream) in
        let read : ◌≡◌ {A = Result Base64.Error (Decoder × Text)} (ok (d, p)) (ok (full, bytes)) =
          sym here ∙ ap (Base64.feed d0) same ∙ whole in
        let ends_there = ok_injective d full p bytes read in
        (ends_there.1, ap finish_decoder ends_there.0 ∙ fine)

    pump-base64_next :
        (s : Scanner) (d d' : Decoder) (o c p out chunk : Text) (chunks : List Text)
        → Base64.feed d chunk ≡ ok (d', out)
        → Read (c ++ chunk) (p ++ out) d'
        → (c ++ chunk) ++ flatten chunks ≡ Sentinelled m ds term rest wire
        → Goes m ds term rest named digits ends o (flatten chunks) (Sentinel.feed s chunk)
        → ((o' : Text)
            → Waits o' (Sentinel.feed s chunk).0 (flatten chunks)
            → Delivers ds rest bytes
                (then_send (p ++ out) (pump (some d') (Sentinel.feed s chunk).0 chunks)))
        → Delivers ds rest bytes (then_send p (pump (some d) s (chunk ∷ chunks)))
    unfolding pump feed_raw_chunk finish_run finish_decoded
    pump-base64_next s d d' o c p out chunk chunks read here e (inl (o', q, f, dn, mk, ew, l))
          later =
        let (sent, run) = later o' (f, mk, dn, ew, l) in
        rw (read, dn, pump) (sym (append_assoc p out _) ∙ sent, run)
    pump-base64_next s d d' o c p out chunk chunks read here e (inr (q, dn, code, left)) later =
        let leftover = (Sentinel.feed s chunk).0.leftover in
        let done =
          ap (λ k. ok (record { exit_code = k; pending = leftover; unread = chunks })) code in
        let (all_bytes, fine) =
          Read-done (c ++ chunk) (p ++ out) leftover (flatten chunks) d' here e left in
        rw (read, dn, fine, pump, finish_decoded) (all_bytes, (leftover, chunks, done, left))

    pub pump-base64 :
        (s : Scanner) (d : Decoder) (o c p : Text) (chunks : List Text)
        → Read c p d
        → c ++ flatten chunks ≡ Sentinelled m ds term rest wire
        → Waits o s (flatten chunks)
        → Delivers ds rest bytes (then_send p (pump (some d) s chunks))
    unfolding flatten
    pump-base64 s d o c p [] here e w = absurd (nothing_left o s w)
    pump-base64 s d o c p (chunk ∷ chunks) here e (f, mk, dn, ew, l) =
        let (d', out, read, next) = Read-next c p chunk (flatten chunks) d here e in
        let e' = append_assoc c chunk (flatten chunks) ∙ e in
        pump-base64_next s d d' o c p out chunk chunks read next e'
          (Goes-feed m ds term rest named digits ends s o chunk (flatten chunks) f mk dn ew)
          (λ o' w'.
            pump-base64 (Sentinel.feed s chunk).0 d' o' (c ++ chunk) (p ++ out) chunks next e' w')
