-- ===== src/Sentinel/Stream.antt =====
-- However the stream is cut into chunks, the scanner forwards what stands before the sentinel and
-- stops at it.
use mathlib.Core.List.{flatten, head-eq_of_cons-eq, tail-eq_of_cons-eq}
use native.Mathlib.Decide.{dec_lt}
use cross_host_ops.Base.{
  ℕ, zero, suc, ◌+◌, ◌-◌, ◌≤◌, ◌<◌, ◌≡◌, refl, sym, ap, ap₂, ◌∙◌, subst, ◌⊎◌, inl, inr, ◌≢◌, true,
  false, List, [], ◌∷◌, ◌++◌, arith, length, take, drop, Text, length-append, length-drop,
  take-append-drop, append_assoc, append-nil,
}
use cross_host_ops.Sentinel.{
  Scanner, new, feed, feed_held, feed_all, find_sentinel, parse_code, partial_suffix_match,
}
use cross_host_ops.Sentinel.Search.{FirstAt, FirstAt-drop, partial_suffix_match-ge}
use cross_host_ops.Sentinel.Find.{size, find-none, find-some}
use cross_host_ops.Sentinel.After.{IsDigits, IsTerminator, split_start}

pub feed-live :
    (s : Scanner) (chunk : Text)
    → s.done ≡ false
    → feed s chunk ≡ feed_held s (s.hold ++ chunk) (find_sentinel (s.hold ++ chunk) s.marker)
unfolding feed
feed-live s chunk live = ground arith

-- A scanner that is done ignores what still comes.
feed_all-done : (s : Scanner) (chunks : List Text) → s.done ≡ true → feed_all s chunks ≡ (s, [])
unfolding feed_all feed
feed_all-done s [] d = refl
feed_all-done s (chunk ∷ chunks) d = ground (arith, feed_all-done s chunks d)

-- Two texts with a common continuation, cut at the same place.
pub common_start :
    (n : ℕ) (b r o t : Text)
    → b ++ r ≡ o ++ t
    → n ≤ length b
    → n ≤ length o
    → (take n b ≡ take n o) × (drop n b ++ r ≡ drop n o ++ t)
common_start zero b r o t e h k = (refl, e)
common_start (suc n) [] r o t e h k = absurd (omega arith)
common_start (suc n) (c ∷ b) r [] t e h k = absurd (omega arith)
common_start (suc n) (c ∷ b) r (d ∷ o) t e h k =
    let rest = common_start n b r o t (tail-eq_of_cons-eq e) (omega arith) (omega arith) in
    (ap₂ ◌∷◌ (head-eq_of_cons-eq e) rest.0, rest.1)

pub take_all : (s : Text) → take (length s) s ≡ s
take_all [] = refl
take_all (c ∷ s) = ap (◌∷◌ c) (take_all s)

-- What may be forwarded where no marker was found ends within `o`.
safe-le :
    (m r t o b : Text)
    → b ++ r ≡ o ++ (m ++ t)
    → length b < length o + length m
    → length b - partial_suffix_match b m ≤ length o
safe-le m r t o b e h = elim (dec_lt (length o) (length b)) [
  | no inside ↦ omega arith
  | yes beyond ↦
      let kept =
        partial_suffix_match-ge m r t o b (length b - length o) e (omega arith) (omega arith)
          (omega arith) in
      omega arith
]

module _ (m ds term rest : Text) (named : m ≢ []) (digits : IsDigits ds)
    (ends : IsTerminator term) where
  -- One chunk: either a part of `o` comes out and the rest of the stream stays held, or all of it
  -- comes out and the scanner is done.
  abbrev pub Goes : Text → Text → Scanner × Text → Type 0
  Goes o r (s, out) =
      ((o' : Text) × (o ≡ out ++ o')
        × FirstAt m o'
        × (s.done ≡ false)
        × (s.marker ≡ m)
        × (s.hold ++ r ≡ o' ++ (m ++ (b':' ∷ (ds ++ (term ++ rest)))))
        × (length s.hold < length o' + size m ds term))
      ⊎ ((out ≡ o) × (s.done ≡ true) × (s.exit_code ≡ parse_code ds) × (s.leftover ++ r ≡ rest))

  Goes-take :
      (o b r : Text) (n : ℕ) (s : Scanner)
      → FirstAt m o
      → s.marker ≡ m
      → s.done ≡ false
      → b ++ r ≡ o ++ (m ++ (b':' ∷ (ds ++ (term ++ rest))))
      → n ≤ length o
      → n ≤ length b
      → length b < length o + size m ds term
      → Goes o r (record s { hold = drop n b }, take n b)
  Goes-take o b r n s f mk dn e h k l =
      let parts = common_start n b r o _ e k h in
      let come_out = sym (take-append-drop n o) ∙ ap (λ x. x ++ drop n o) (sym parts.0) in
      inl (
        drop n o,
        come_out,
        FirstAt-drop m o n f,
        dn,
        mk,
        parts.1,
        omega (arith, length-drop n o, length-drop n b),
      )

  all_out :
      (o b r : Text)
      → b ++ r ≡ o ++ (m ++ (b':' ∷ (ds ++ (term ++ rest))))
      → length o + size m ds term ≤ length b
      → take (length o) b ≡ o
  all_out o b r e h = (common_start (length o) b r o _ e (omega arith) (omega arith)).0 ∙ take_all o

  behind :
      (o b r : Text)
      → b ++ r ≡ o ++ (m ++ (b':' ∷ (ds ++ (term ++ rest))))
      → length o + size m ds term ≤ length b
      → drop (length o + size m ds term) b ++ r ≡ rest
  behind o b r e h =
      let w = o ++ (m ++ (b':' ∷ (ds ++ term))) in
      let w_size : length w ≡ length o + size m ds term = simp length-append refl in
      let regrouped : b ++ r ≡ w ++ rest = e ∙ sym (simp append_assoc refl) in
      subst (λ n. drop n b ++ r ≡ rest) w_size (split_start w b r rest regrouped (omega arith)).1

  Goes-held :
      (s : Scanner) (o b r : Text)
      → FirstAt m o
      → s.marker ≡ m
      → s.done ≡ false
      → b ++ r ≡ o ++ (m ++ (b':' ∷ (ds ++ (term ++ rest))))
      → Goes o r (feed_held s b (find_sentinel b m))
  unfolding feed_held
  Goes-held s o b r f mk dn e = elim (dec_lt (length b) (length o + length m)) [
    | yes short ↦
        let bound =
          subst (λ k. length b - partial_suffix_match b k ≤ length o) (sym mk)
            (safe-le m r _ o b e short) in
        rw (find-none m ds term rest named digits ends o b r f e short) (
          Goes-take o b r (length b - partial_suffix_match b s.marker) s f mk dn e bound
            (omega arith) (omega arith))
    | no long ↦ elim (find-some m ds term rest named digits ends o b r f e (omega arith)) [
      | inl (part, found) ↦
          rw found (Goes-take o b r (length o) s f mk dn e (omega arith) (omega arith) part)
      | inr (whole, found) ↦
          rw found (inr (all_out o b r e whole, refl, refl, behind o b r e whole))
    ]
  ]

  -- One chunk of the stream.
  pub Goes-feed :
      (s : Scanner) (o chunk r : Text)
      → FirstAt m o
      → s.marker ≡ m
      → s.done ≡ false
      → s.hold ++ (chunk ++ r) ≡ o ++ (m ++ (b':' ∷ (ds ++ (term ++ rest))))
      → Goes o r (feed s chunk)
  Goes-feed s o chunk r f mk dn e =
      let whole = append_assoc s.hold chunk r ∙ e in
      let held = Goes-held s o (s.hold ++ chunk) r f mk dn whole in
      let held' =
        subst (λ k. Goes o r (feed_held s (s.hold ++ chunk) (find_sentinel (s.hold ++ chunk) k)))
          (sym mk) held in
      subst (Goes o r) (sym (feed-live s chunk dn)) held'

  abbrev Stops : Text → Scanner × Text → Type 0
  Stops o (s, out) =
      (out ≡ o)
      × (s.done ≡ true)
      × (s.exit_code ≡ parse_code ds)
      × ((later : Text) × (s.leftover ++ later ≡ rest))

  feed_all-next :
      (s : Scanner) (o chunk : Text) (chunks : List Text)
      → Goes o (flatten chunks) (feed s chunk)
      → ((o' : Text)
          → FirstAt m o'
          → (feed s chunk).0.marker ≡ m
          → (feed s chunk).0.done ≡ false
          → (feed s chunk).0.hold ++ flatten chunks ≡ o' ++ (m ++ (b':' ∷ (ds ++ (term ++ rest))))
          → length (feed s chunk).0.hold < length o' + size m ds term
          → Stops o' (feed_all (feed s chunk).0 chunks))
      → Stops o (feed_all s (chunk ∷ chunks))
  unfolding feed_all flatten
  feed_all-next s o chunk chunks (inl (o', p, f, dn, mk, e, l)) later =
      let (out, stopped, code, left) = later o' f mk dn e l in
      (ap (◌++◌ (feed s chunk).1) out ∙ sym p, stopped, code, left)
  feed_all-next s o chunk chunks (inr (out, dn, code, left)) later =
      rw (feed_all-done (feed s chunk).0 chunks dn)
        (append-nil _ ∙ out, dn, code, (flatten chunks, left))

  feed_all-from :
      (s : Scanner) (o : Text) (chunks : List Text)
      → FirstAt m o
      → s.marker ≡ m
      → s.done ≡ false
      → s.hold ++ flatten chunks ≡ o ++ (m ++ (b':' ∷ (ds ++ (term ++ rest))))
      → length s.hold < length o + size m ds term
      → Stops o (feed_all s chunks)
  unfolding feed_all flatten
  feed_all-from s o [] f mk dn e l =
      let whole = ap length (sym (append-nil s.hold) ∙ e) in
      let sizes : length (o ++ (m ++ (b':' ∷ (ds ++ (term ++ rest)))))
          ≡ length o + (length m + suc (length ds + (length term + length rest))) =
        simp length-append refl in
      absurd (omega arith)
  feed_all-from s o (chunk ∷ chunks) f mk dn e l =
      feed_all-next s o chunk chunks (Goes-feed s o chunk (flatten chunks) f mk dn e)
        (λ o'. feed_all-from (feed s chunk).0 o' chunks)

-- For a marker that is not empty, and a stream that is `out`, the marker, `:`, digits, `\n` or
-- `\r\n` and anything else, with no marker before the end of `out`: however it is cut into chunks,
-- the scanner forwards exactly `out`, is done, has the exit code of those digits, and has kept some
-- start of what follows as leftover.
pub feed_all-stops :
    (marker out ds term rest : Text) (chunks : List Text)
    → marker ≢ []
    → FirstAt marker out
    → IsDigits ds
    → IsTerminator term
    → flatten chunks ≡ out ++ (marker ++ (b':' ∷ (ds ++ (term ++ rest))))
    → ((feed_all (new marker) chunks).1 ≡ out)
      × ((feed_all (new marker) chunks).0.done ≡ true)
      × ((feed_all (new marker) chunks).0.exit_code ≡ parse_code ds)
      × ((later : Text) × ((feed_all (new marker) chunks).0.leftover ++ later ≡ rest))
unfolding new
feed_all-stops m out ds term rest chunks named first digits ends e =
    let started = new m in
    let (p, q, c, l) =
      feed_all-from m ds term rest named digits ends started out chunks first refl refl e
        (omega arith) in
    (p, q, c, l)
