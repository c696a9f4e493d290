-- ===== src/Sentinel/After.antt =====
-- What `lookahead_sentinel` says of the start of `:<digits>\n` or `:<digits>\r\n`.
use mathlib.Core.List.{head-eq_of_cons-eq, tail-eq_of_cons-eq}
use native.Mathlib.Decide.{dec_lt}
use cross_host_ops.Base.{
  ℕ, zero, suc, ◌+◌, ◌≤◌, ◌<◌, ◌≡◌, refl, sym, ap, ap₂, ◌∙◌, subst, ◌⊎◌, inl, inr, ◌≢◌, true, false,
  List, [], ◌∷◌, ◌++◌, arith, length, take, drop, All, Text, is_digit, newline, carriage_return,
  take-length-append, drop-length-append, length-append, length-take,
}
use cross_host_ops.Sentinel.{
  Lookahead, confirmed, incomplete, mismatch, digit_run, parse_code, terminated, after_colon,
  lookahead_sentinel,
}
use cross_host_ops.Sentinel.Search.{start-eq-take}

abbrev pub IsDigits : Text → Type 0
IsDigits ds = (ds ≢ []) × All (λ c. is_digit c ≡ true) ds

abbrev pub IsTerminator : Text → Type 0
IsTerminator t = (t ≡ newline ∷ []) ⊎ (t ≡ carriage_return ∷ newline ∷ [])

pub Lookahead-cases :
    (l : Lookahead)
    → (l ≡ incomplete) ⊎ (l ≡ mismatch) ⊎ ((code : ℕ) × (n : ℕ) × (l ≡ confirmed code n))
Lookahead-cases incomplete = inl refl
Lookahead-cases mismatch = inr (inl refl)
Lookahead-cases (confirmed code n) = inr (inr (code, n, refl))

digit_run-All : (ds : Text) → All (λ c. is_digit c ≡ true) ds → digit_run ds ≡ length ds
unfolding digit_run
digit_run-All [] h = refl
digit_run-All (c ∷ ds) h = rw (h.0, digit_run-All ds h.1) refl

digit_run-stop :
    (ds : Text) (c : ℕ) (s : Text)
    → All (λ d. is_digit d ≡ true) ds
    → is_digit c ≡ false
    → digit_run (ds ++ c ∷ s) ≡ length ds
unfolding digit_run
digit_run-stop [] c s h n = rw n refl
digit_run-stop (d ∷ ds) c s h n = rw (h.0, digit_run-stop ds c s h.1 n) refl

All-take {ℓ κ} : {A : Type ℓ} (P : A → Type κ) (n : ℕ) (xs : List A) → All P xs → All P (take n xs)
All-take P zero xs h = tt
All-take P (suc n) [] h = tt
All-take P (suc n) (x ∷ xs) h = (h.0, All-take P n xs h.1)

length-ne-zero : (s : Text) → s ≢ [] → 0 < length s
length-ne-zero [] h = absurd (h refl)
length-ne-zero (c ∷ s) h = omega arith

drop_all : (s : Text) → drop (length s) s ≡ []
drop_all [] = refl
drop_all (c ∷ s) = drop_all s

-- Nothing but digits: more must come.
after_colon-open : (s : Text) → All (λ c. is_digit c ≡ true) s → after_colon s ≡ incomplete
unfolding after_colon
after_colon-open [] h = refl
after_colon-open (c ∷ s) h = rw (digit_run-All (c ∷ s) h, drop_all s) (ground arith)

after_colon-closed :
    (ds : Text) (c : ℕ) (s : Text)
    → IsDigits ds
    → is_digit c ≡ false
    → after_colon (ds ++ c ∷ s) ≡ terminated (length ds) (parse_code ds) (c ∷ s)
unfolding after_colon
after_colon-closed ds c s (some_digit, digits) n =
    rw
      (digit_run-stop ds c s digits n, take-length-append ds (c ∷ s), drop-length-append ds (c ∷ s))
      (ground (arith, length-ne-zero ds some_digit))

pub split_start :
    (o b r s : Text)
    → b ++ r ≡ o ++ s
    → length o ≤ length b
    → (b ≡ o ++ drop (length o) b) × (drop (length o) b ++ r ≡ s)
split_start [] b r s e h = (refl, e)
split_start (d ∷ o) [] r s e h = absurd (omega arith)
split_start (d ∷ o) (c ∷ b) r s e h =
    let rest = split_start o b r s (tail-eq_of_cons-eq e) (omega arith) in
    (ap₂ ◌∷◌ (head-eq_of_cons-eq e) rest.0, rest.1)

-- Confirmed from the last byte of the terminator on, and incomplete before.
abbrev pub Answer : ℕ → Text → Text → Text → Type 0
Answer n ds term a =
    ((n < suc (length ds + length term)) × (lookahead_sentinel a ≡ incomplete))
    ⊎ ((suc (length ds + length term) ≤ n)
        × (lookahead_sentinel a ≡ confirmed (parse_code ds) (suc (length ds + length term))))

terminated-newline :
    (n code : ℕ) (w r rest : Text)
    → w ≢ []
    → w ++ r ≡ newline ∷ rest
    → terminated n code w ≡ confirmed code (n + 2)
unfolding terminated
terminated-newline n code [] r rest h e = absurd (h refl)
terminated-newline n code (c ∷ []) r rest h e = rw (head-eq_of_cons-eq e) refl
terminated-newline n code (c ∷ d ∷ s) r rest h e = rw (head-eq_of_cons-eq e) refl

terminated-return :
    (n code : ℕ) (w r rest : Text)
    → w ++ r ≡ carriage_return ∷ newline ∷ rest
    → ((length w < 2) × (terminated n code w ≡ incomplete))
      ⊎ ((2 ≤ length w) × (terminated n code w ≡ confirmed code (n + 3)))
unfolding terminated
terminated-return n code [] r rest e = inl (omega arith, refl)
terminated-return n code (c ∷ []) r rest e = inl (omega arith, rw (head-eq_of_cons-eq e) refl)
terminated-return n code (c ∷ d ∷ s) r rest e =
    let second = head-eq_of_cons-eq (tail-eq_of_cons-eq e) in
    inr (omega arith, rw (head-eq_of_cons-eq e, second) refl)

-- Behind all the digits: the terminator, or its first byte.
after_colon-ends :
    (ds term rest w r : Text)
    → IsDigits ds
    → IsTerminator term
    → w ≢ []
    → w ++ r ≡ term ++ rest
    → ((length w < length term) × (after_colon (ds ++ w) ≡ incomplete))
      ⊎ ((length term ≤ length w)
          × (after_colon (ds ++ w) ≡ confirmed (parse_code ds) (suc (length ds + length term))))
after_colon-ends ds term rest [] r d t n e = absurd (n refl)
after_colon-ends ds term rest (c ∷ w) r d (inl t) n e =
    let e' : (c ∷ w) ++ r ≡ newline ∷ rest = subst (λ k. (c ∷ w) ++ r ≡ k ++ rest) t e in
    let closed = after_colon-closed ds c w d (rw (head-eq_of_cons-eq e') refl) in
    let done = terminated-newline (length ds) (parse_code ds) (c ∷ w) r rest n e' in
    let size : length term ≡ 1 = ap length t in
    inr (omega arith, closed ∙ (done ∙ ap (confirmed (parse_code ds)) (omega arith)))
after_colon-ends ds term rest (c ∷ w) r d (inr t) n e =
    let e' : (c ∷ w) ++ r ≡ carriage_return ∷ newline ∷ rest =
      subst (λ k. (c ∷ w) ++ r ≡ k ++ rest) t e in
    let closed = after_colon-closed ds c w d (rw (head-eq_of_cons-eq e') refl) in
    let size : length term ≡ 2 = ap length t in
    elim (terminated-return (length ds) (parse_code ds) (c ∷ w) r rest e') [
      | inl (short, p) ↦ inl (omega arith, closed ∙ p)
      | inr (long, p) ↦
          inr (omega arith, closed ∙ (p ∙ ap (confirmed (parse_code ds)) (omega arith)))
    ]

pub IsTerminator-pos : (term : Text) → IsTerminator term → 0 < length term
IsTerminator-pos term (inl t) = omega (arith, ap length t)
IsTerminator-pos term (inr t) = omega (arith, ap length t)

lookahead_sentinel-colon : (a : Text) → lookahead_sentinel (b':' ∷ a) ≡ after_colon a
unfolding lookahead_sentinel
lookahead_sentinel-colon a = refl

lookahead_sentinel-nil : lookahead_sentinel [] ≡ incomplete
unfolding lookahead_sentinel
lookahead_sentinel-nil = refl

pub lookahead_sentinel-start :
    (ds term rest a r : Text)
    → IsDigits ds
    → IsTerminator term
    → a ++ r ≡ b':' ∷ (ds ++ (term ++ rest))
    → Answer (length a) ds term a
lookahead_sentinel-start ds term rest [] r d t e = inl (omega arith, lookahead_sentinel-nil)
lookahead_sentinel-start ds term rest (c ∷ a) r d t e =
    let colon = head-eq_of_cons-eq e in
    let e' = tail-eq_of_cons-eq e in
    let step = ap (λ k. lookahead_sentinel (k ∷ a)) colon ∙ lookahead_sentinel-colon a in
    elim (dec_lt (length ds) (length a)) [
      | no short ↦
          let digits = All-take _ (length a) ds d.1 in
          let start = start-eq-take ds r (term ++ rest) a e' (omega arith) in
          inl (
            omega (arith, IsTerminator-pos term t, ap length start, length-take (length a) ds),
            step ∙ after_colon-open a (subst (All (λ k. is_digit k ≡ true)) (sym start) digits),
          )
      | yes long ↦
          let parts = split_start ds a r (term ++ rest) e' (omega arith) in
          let w = drop (length ds) a in
          let some_left = λ (z : w ≡ []).
            let size = ap length parts.0 in
            let none_left = ap length z in
            absurd (omega (arith, length-append ds w, size, none_left)) in
          let whole = ap after_colon parts.0 in
          let sizes = length-append ds w in
          let size = ap length parts.0 in
          elim (after_colon-ends ds term rest w r d t some_left parts.1) [
            | inl (few, p) ↦ inl (omega arith, step ∙ (whole ∙ p))
            | inr (enough, p) ↦ inr (omega arith, step ∙ (whole ∙ p))
          ]
    ]
