-- ===== src/Sentinel/Bytes.antt =====
-- On any input the scanner neither drops nor invents a byte, and stops only at a real sentinel.
use Prim.Native.Nat.add
use mathlib.Core.Option
use native.Mathlib.Nat.{add-zero}
use cross_host_ops.Base.{
  ℕ, zero, suc, ◌+◌, ◌≤◌, ◌<◌, ◌≡◌, refl, sym, ap, ap₂, ◌∙◌, subst, ◌⊎◌, inl, inr, ◌≢◌, true, false,
  [], ◌∷◌, ◌++◌, arith, length, take, drop, Text, All, take-append-drop, some, none, Option,
  Option-cases, Bool-cases, is_empty, ◌&&◌, newline, carriage_return, starts_with, is_digit, ◌==◌,
  ==_iff,
}
use cross_host_ops.Sentinel.{
  Scanner, feed, feed_held, SentinelFind, confirmed_at, incomplete_at, not_found, find_from,
  find_sentinel, find_subslice, first_window, parse_code, confirmed, lookahead_sentinel,
  after_colon, terminated, digit_run,
}
use cross_host_ops.Sentinel.After.{Lookahead-cases}
use cross_host_ops.Sentinel.Stream.{feed-live}
use cross_host_ops.Sentinel.Search.{starts_with_sound}
use cross_host_ops.Sentinel.After.{IsDigits, IsTerminator}

-- `a` begins with `:`, digits and a line end, `n` bytes together.
abbrev pub Confirms : ℕ → ℕ → Text → Type 0
Confirms code n a =
    (ds : Text) × (term : Text) × IsDigits ds
    × IsTerminator term
    × (code ≡ parse_code ds)
    × (a ≡ b':' ∷ (ds ++ (term ++ drop n a)))

digit_run-digits : (s : Text) → All (λ c. is_digit c ≡ true) (take (digit_run s) s)
unfolding digit_run
digit_run-digits [] = tt
digit_run-digits (c ∷ s) = elim (Bool-cases (is_digit c)) [
  | inl d ↦ rw d (d, digit_run-digits s)
  | inr d ↦ rw d tt
]

digit_run-le : (s : Text) → digit_run s ≤ length s
unfolding digit_run
digit_run-le [] = omega arith
digit_run-le (c ∷ s) = ground (arith, digit_run-le s)

terminated_sound :
    (n code : ℕ) (w : Text) (code' n' : ℕ)
    → terminated n code w ≡ confirmed code' n'
    → (code' ≡ code)
      × ((term : Text) × IsTerminator term
          × (n' ≡ suc (n + length term))
          × (w ≡ term ++ drop (length term) w))
unfolding terminated
terminated_sound n code [] code' n' e = cc
terminated_sound n code (c ∷ []) code' n' e = elim (Bool-cases (c == newline)) [
  | inl p ↦ (
    ground arith,
    (newline ∷ [], inl refl, ground arith, ap (λ k. k ∷ []) ((==_iff c newline).0 p)),
  )
  | inr p ↦ absurd (ground arith)
]
terminated_sound n code (c ∷ d ∷ s) code' n' e = elim (Bool-cases (c == newline)) [
  | inl p ↦ (
    ground arith,
    (newline ∷ [], inl refl, ground arith, ap (λ k. k ∷ d ∷ s) ((==_iff c newline).0 p)),
  )
  | inr p ↦ elim (Bool-cases (c == carriage_return && d == newline)) [
    | inl q ↦
        let same : (c ≡ carriage_return) × (d ≡ newline) = ground arith in
        (
          ground arith,
          (
            carriage_return ∷ newline ∷ [],
            inr refl,
            ground arith,
            ap₂ (λ k l. k ∷ l ∷ s) same.0 same.1,
          ),
        )
    | inr q ↦ absurd (ground arith)
  ]
]

drop-drop : (n m : ℕ) (s : Text) → drop m (drop n s) ≡ drop (n + m) s
drop-drop zero m s = ap (λ k. drop k s) (omega arith)
drop-drop (suc n) zero [] = rw add-zero refl
drop-drop (suc n) (suc m) [] = rw add.suc refl
drop-drop (suc n) m (c ∷ s) = rw add.suc (drop-drop n m s)

take-ne-nil : (n : ℕ) (s : Text) → 0 < n → n ≤ length s → take n s ≢ []
take-ne-nil zero s p h = absurd (omega arith)
take-ne-nil (suc n) [] p h = absurd (omega arith)
take-ne-nil (suc n) (c ∷ s) p h = λ e. cc

after_colon_sound :
    (s : Text) (code n : ℕ) → after_colon s ≡ confirmed code n → Confirms code n (b':' ∷ s)
unfolding after_colon
after_colon_sound s code n e = elim (Bool-cases (digit_run s == 0)) [
  | inl z ↦ absurd (ground (arith, z))
  | inr pos ↦
      let k = digit_run s in
      let ds = take k s in
      let reached : terminated k (parse_code ds) (drop k s) ≡ confirmed code n = ground arith in
      let (same, (term, ends, total, tail)) =
        terminated_sound k (parse_code ds) (drop k s) code n reached in
      let some_digit = take-ne-nil k s (ground arith) (digit_run-le s) in
      let left : drop (length term) (drop k s) ≡ drop n (b':' ∷ s) =
        rw total (drop-drop k (length term) s) in
      let whole : s ≡ ds ++ (term ++ drop n (b':' ∷ s)) =
        sym (take-append-drop k s) ∙ ap (◌++◌ ds) (tail ∙ ap (◌++◌ term) left) in
      (ds, term, (some_digit, digit_run-digits s), ends, same, ap (◌∷◌ b':') whole)
]

lookahead_sentinel_sound :
    (a : Text) (code n : ℕ) → lookahead_sentinel a ≡ confirmed code n → Confirms code n a
unfolding lookahead_sentinel
lookahead_sentinel_sound [] code n e = cc
lookahead_sentinel_sound (c ∷ s) code n e = elim (Bool-cases (c == b':')) [
  | inl p ↦
      let at_colon : after_colon s ≡ confirmed code n = ground arith in
      subst (λ k. Confirms code n (k ∷ s)) (sym ((==_iff c b':').0 p))
        (after_colon_sound s code n at_colon)
  | inr p ↦ absurd (ground arith)
]

map-suc : (o : Option ℕ) (p : ℕ) → Option.map suc o ≡ some (suc p) → o ≡ some p
map-suc none p e = ground arith
map-suc (some q) p e = ground arith

first_window_sound :
    (b m : Text) (p : ℕ) → first_window b m ≡ some p → m ++ drop (p + length m) b ≡ drop p b
unfolding first_window
first_window_sound [] m p e = cc
first_window_sound (c ∷ b) m zero e = elim (Bool-cases (starts_with m (c ∷ b))) [
  | inl hit ↦
      let n : 0 + length m ≡ length m = omega arith in
      ap (λ k. m ++ drop k (c ∷ b)) n ∙ starts_with_sound m (c ∷ b) hit
  | inr miss ↦ absurd (ground (arith, Option-cases (first_window b m)))
]
first_window_sound (c ∷ b) m (suc p) e = elim (Bool-cases (starts_with m (c ∷ b))) [
  | inl hit ↦ absurd (ground arith)
  | inr miss ↦
      let later = map-suc (first_window b m) p (rw miss at e) in
      rw add.suc (first_window_sound b m p later)
]

find_subslice_sound :
    (b m : Text) (p : ℕ) → find_subslice b m ≡ some p → m ++ drop (p + length m) b ≡ drop p b
unfolding find_subslice
find_subslice_sound b m p e = first_window_sound b m p (ground arith)

-- The sentinel that a search reports, in the text as a whole.
abbrev pub Located : Text → Text → ℕ → ℕ → ℕ → Type 0
Located b m pos code end =
    (ds : Text) × (term : Text) × IsDigits ds
    × IsTerminator term
    × (code ≡ parse_code ds)
    × (b ≡ take pos b ++ (m ++ (b':' ∷ (ds ++ (term ++ drop end b)))))

module _ (b m : Text) (from rel : ℕ) (found : find_subslice (drop from b) m ≡ some rel) where
  marker_here : m ++ drop (from + rel + length m) b ≡ drop (from + rel) b
  marker_here =
      let e = find_subslice_sound (drop from b) m rel found in
      let left = drop-drop from (rel + length m) b ∙ ap (λ k. drop k b) (omega arith) in
      ap (◌++◌ m) (sym left) ∙ (e ∙ drop-drop from rel b)

  Located-here :
      (code n : ℕ)
      → lookahead_sentinel (drop (from + rel + length m) b) ≡ confirmed code n
      → Located b m (from + rel) code (from + rel + length m + n)
  Located-here code n e =
      let at = from + rel + length m in
      let (ds, term, d, t, c, w) = lookahead_sentinel_sound (drop at b) code n e in
      let w' : drop at b ≡ b':' ∷ (ds ++ (term ++ drop (at + n) b)) =
        w ∙ ap (λ k. b':' ∷ (ds ++ (term ++ k))) (drop-drop at n b) in
      let whole =
        sym (take-append-drop (from + rel) b)
        ∙ ap (◌++◌ (take (from + rel) b)) (sym marker_here ∙ ap (◌++◌ m) w') in
      (ds, term, d, t, c, whole)

find_from_sound :
    (fuel from : ℕ) (b m : Text) (pos code end : ℕ)
    → find_from fuel from b m ≡ confirmed_at pos code end
    → Located b m pos code end
unfolding find_from
find_from_sound zero from b m pos code end e = absurd (ground arith)
find_from_sound (suc fuel) from b m pos code end e =
    let again = find_from_sound fuel in
    elim (Option-cases (find_subslice (drop from b) m)) [
      | inl nowhere ↦ absurd (cc (rw (nowhere, find_from) at e))
      | inr (rel, found) ↦
          let at = from + rel + length m in
          elim (Lookahead-cases (lookahead_sentinel (drop at b))) [
            | inl part ↦ absurd (cc (rw (found, part, find_from) at e))
            | inr (inl other) ↦ again at b m pos code end (rw (found, other, find_from) at e)
            | inr (inr (code', n, hit)) ↦
                let same : confirmed_at (from + rel) code' (at + n) ≡ confirmed_at pos code end =
                  rw (found, hit, find_from) at e in
                let p : from + rel ≡ pos = cc in
                let q : code' ≡ code = cc in
                let r : at + n ≡ end = cc in
                let here = Located-here b m from rel found code' n hit in
                subst (λ k. Located b m k code end) p
                  (subst (λ k. Located b m (from + rel) k end) q
                    (subst (λ k. Located b m (from + rel) code' k) r here))
          ]
    ]

find_sentinel_sound :
    (b m : Text) (pos code end : ℕ)
    → find_sentinel b m ≡ confirmed_at pos code end
    → Located b m pos code end
unfolding find_sentinel
find_sentinel_sound b m pos code end e = elim (Bool-cases (is_empty m)) [
  | inl z ↦ absurd (cc (rw z at e))
  | inr some_marker ↦ find_from_sound _ _ b m pos code end (rw some_marker at e)
]

SentinelFind-cases :
    (f : SentinelFind)
    → (f ≡ not_found)
      ⊎ ((pos : ℕ) × (f ≡ incomplete_at pos))
      ⊎ ((pos : ℕ) × (code : ℕ) × (end : ℕ) × (f ≡ confirmed_at pos code end))
SentinelFind-cases not_found = inl refl
SentinelFind-cases (incomplete_at pos) = inr (inl (pos, refl))
SentinelFind-cases (confirmed_at pos code end) = inr (inr (pos, code, end, refl))

-- What one chunk may do to a scanner.
abbrev pub Keeps : Scanner → Text → Scanner × Text → Type 0
Keeps s chunk (s', out) =
    ((s'.done ≡ false) × (s'.marker ≡ s.marker) × (out ++ s'.hold ≡ s.hold ++ chunk))
    ⊎ ((s'.done ≡ true)
        × ((ds : Text) × (term : Text) × IsDigits ds
            × IsTerminator term
            × (s'.exit_code ≡ parse_code ds)
            × (s.hold ++ chunk ≡ out ++ (s.marker ++ (b':' ∷ (ds ++ (term ++ s'.leftover)))))))

-- One chunk fed to a scanner that is not done. Either it is still not done, and what it forwards
-- with what it holds back is what it held before with the chunk. Or it is done, and the same bytes
-- are what it forwards, the marker, `:`, digits, a line end and the leftover, and the exit code is
-- that of the digits.
pub feed-Keeps : (s : Scanner) (chunk : Text) → s.done ≡ false → Keeps s chunk (feed s chunk)
unfolding feed_held
feed-Keeps s chunk live =
    let b = s.hold ++ chunk in
    subst (Keeps s chunk) (sym (feed-live s chunk live))
      (elim (SentinelFind-cases (find_sentinel b s.marker)) [
        | inl e ↦ rw e (inl (live, refl, take-append-drop _ b))
        | inr (inl (pos, e)) ↦ rw e (inl (live, refl, take-append-drop pos b))
        | inr (inr (pos, code, end, e)) ↦
            rw e (inr (refl, find_sentinel_sound b s.marker pos code end e))
      ])
