-- ===== src/Sentinel/Search.antt =====
-- Lemmas on the searches in a buffer: where a window matches, and how much of a marker a buffer
-- may end with.
use native.Mathlib.Decide.{ℕ_discrete}
use mathlib.Core.List.{head-eq_of_cons-eq, tail-eq_of_cons-eq}
use cross_host_ops.Base.{
  ℕ, zero, suc, ◌+◌, ◌-◌, ◌≤◌, ◌<◌, min, ◌≡◌, refl, sym, ap, ap₂, ◌∙◌, subst, inl, inr, ◌≢◌, ◌&&◌,
  true, false, [], ◌∷◌, ◌++◌, none, some, arith, length, take, drop, ◌==◌, Bool-cases, Text,
  starts_with, text_eq_iff, length-append, append_assoc,
}
use cross_host_ops.Sentinel.{first_window, find_subslice, longest_match, partial_suffix_match}

pub starts_with-append_true :
    (m s t : Text) → starts_with m s ≡ true → starts_with m (s ++ t) ≡ true
starts_with-append_true [] s t h = refl
starts_with-append_true (a ∷ m) [] t h = cc
starts_with-append_true (a ∷ m) (c ∷ s) t h = ground (arith, starts_with-append_true m s t)

pub starts_with-append_long :
    (m s t : Text) → length m ≤ length s → starts_with m (s ++ t) ≡ starts_with m s
starts_with-append_long [] s t h = refl
starts_with-append_long (a ∷ m) [] t h = absurd (omega arith)
starts_with-append_long (a ∷ m) (c ∷ s) t h =
    ap (◌&&◌ (a == c)) (starts_with-append_long m s t (omega arith))

pub starts_with-short : (m s : Text) → length s < length m → starts_with m s ≡ false
starts_with-short [] s h = absurd (omega arith)
starts_with-short (a ∷ m) [] h = refl
starts_with-short (a ∷ m) (c ∷ s) h = ground (arith, starts_with-short m s (omega arith))

pub starts_with_self : (m t : Text) → starts_with m (m ++ t) ≡ true
starts_with_self [] t = refl
starts_with_self (a ∷ m) t = ground (arith, starts_with_self m t)

-- The split of a text at a prefix.
pub starts_with_sound : (m s : Text) → starts_with m s ≡ true → m ++ drop (length m) s ≡ s
starts_with_sound [] s h = refl
starts_with_sound (a ∷ m) [] h = cc
starts_with_sound (a ∷ m) (c ∷ s) h = ground (arith, starts_with_sound m s)

-- The marker occurs in `out ++ marker` at the end of `out` and nowhere before.
abbrev pub FirstAt : Text → Text → Type 0
FirstAt marker [] = Unit
FirstAt marker (c ∷ out) = (starts_with marker (c ∷ (out ++ marker)) ≡ false) × FirstAt marker out

pub FirstAt-drop : (m o : Text) (n : ℕ) → FirstAt m o → FirstAt m (drop n o)
FirstAt-drop m o zero h = h
FirstAt-drop m [] (suc n) h = h
FirstAt-drop m (c ∷ o) (suc n) h = FirstAt-drop m o n h.1

-- Before the end of `out` no buffer that is the start of the stream shows the marker.
no_early :
    (m t b r : Text) (c d : ℕ) (o : Text)
    → starts_with m (d ∷ (o ++ m)) ≡ false
    → c ∷ (b ++ r) ≡ d ∷ (o ++ (m ++ t))
    → starts_with m (c ∷ b) ≡ false
no_early m t b r c d o h e = elim (Bool-cases (starts_with m (c ∷ b))) [
  | inr no_match ↦ no_match
  | inl hit ↦
      let inside = starts_with-append_true m (c ∷ b) r hit in
      let whole : starts_with m ((d ∷ (o ++ m)) ++ t) ≡ true =
        rw (append_assoc o m t) (rw (← e) inside) in
      let long = starts_with-append_long m (d ∷ (o ++ m)) t (omega (arith, length-append o m)) in
      cc (h, whole, long)
]

pub first_window-short : (m b : Text) → length b < length m → first_window b m ≡ none
unfolding first_window
first_window-short m [] h = refl
first_window-short m (c ∷ b) h =
    rw (starts_with-short m (c ∷ b) h, first_window-short m b (omega arith)) refl

pub first_window-before :
    (m t r o b : Text)
    → FirstAt m o
    → b ++ r ≡ o ++ (m ++ t)
    → length b < length o + length m
    → first_window b m ≡ none
unfolding first_window
first_window-before m t r o [] f e h = refl
first_window-before m t r [] (c ∷ b) f e h = first_window-short m (c ∷ b) (omega arith)
first_window-before m t r (d ∷ o) (c ∷ b) f e h =
    let before = no_early m t b r c d o f.0 e in
    let rest = first_window-before m t r o b f.1 (tail-eq_of_cons-eq e) (omega arith) in
    rw (before, rest) refl

length-zero : (m : Text) → length m ≤ 0 → m ≡ []
length-zero [] h = refl
length-zero (c ∷ m) h = absurd (omega arith)

pub first_window-at :
    (m t r o b : Text)
    → FirstAt m o
    → b ++ r ≡ o ++ (m ++ t)
    → length o + length m ≤ length b
    → m ≢ []
    → first_window b m ≡ some (length o)
unfolding first_window
first_window-at m t r o [] f e h n = absurd (n (length-zero m (omega arith)))
first_window-at m t r [] (c ∷ b) f e h n =
    let hit : starts_with m (c ∷ b) ≡ true =
      sym (starts_with-append_long m (c ∷ b) r (omega arith)) ∙ rw e (starts_with_self m t) in
    rw hit refl
first_window-at m t r (d ∷ o) (c ∷ b) f e h n =
    let before = no_early m t b r c d o f.0 e in
    let rest = first_window-at m t r o b f.1 (tail-eq_of_cons-eq e) (omega arith) n in
    rw (before, rest) refl

-- The two cases for `find_subslice`.
pub find_subslice-before :
    (m t r o b : Text)
    → FirstAt m o
    → b ++ r ≡ o ++ (m ++ t)
    → length b < length o + length m
    → find_subslice b m ≡ none
unfolding find_subslice
find_subslice-before m t r o b f e h = ground (arith, first_window-before m t r o b f e h)

pub find_subslice-at :
    (m t r o b : Text)
    → FirstAt m o
    → b ++ r ≡ o ++ (m ++ t)
    → length o + length m ≤ length b
    → m ≢ []
    → find_subslice b m ≡ some (length o)
unfolding find_subslice
find_subslice-at m t r o b f e h n = ground (arith, first_window-at m t r o b f e h n)

pub longest_match-le : (buf m : Text) (n : ℕ) → longest_match buf m n ≤ n
unfolding longest_match
longest_match-le buf m zero = omega arith
longest_match-le buf m (suc n) = ground (arith, longest_match-le buf m n)

-- The longest match is at least as long as any match.
pub longest_match-ge :
    (buf m : Text) (n j : ℕ)
    → j ≤ n
    → drop (length buf - j) buf ≡ take j m
    → j ≤ longest_match buf m n
unfolding longest_match
longest_match-ge buf m zero j h e = omega arith
longest_match-ge buf m (suc n) j h e = elim (ℕ_discrete j (suc n)) [
  | yes all_of_it ↦
      let e' =
        (text_eq_iff _ _).1 (subst (λ k. drop (length buf - k) buf ≡ take k m) all_of_it e) in
      rw e' h
  | no part ↦ ground (arith, longest_match-ge buf m n j)
]

pub partial_suffix_match-le : (buf m : Text) → partial_suffix_match buf m ≤ length buf
unfolding partial_suffix_match
partial_suffix_match-le buf m =
    ground (arith, longest_match-le buf m (min (length buf) (length m - 1)))

pub start-eq-take : (m r t b : Text) → b ++ r ≡ m ++ t → length b ≤ length m → b ≡ take (length b) m
start-eq-take m r t [] e h = refl
start-eq-take [] r t (c ∷ b) e h = absurd (omega arith)
start-eq-take (a ∷ m) r t (c ∷ b) e h =
    ap₂ ◌∷◌ (head-eq_of_cons-eq e) (start-eq-take m r t b (tail-eq_of_cons-eq e) (omega arith))

-- Where a buffer ends inside the marker, what stands behind `out` is the start of the marker.
pub drop-eq-take :
    (m r t o b : Text) (j : ℕ)
    → b ++ r ≡ o ++ (m ++ t)
    → length b ≡ length o + j
    → j ≤ length m
    → drop (length o) b ≡ take j m
drop-eq-take m r t [] b j e h k =
    let same : length b ≡ j = omega arith in
    subst (λ i. b ≡ take i m) same (start-eq-take m r t b e (omega arith))
drop-eq-take m r t (d ∷ o) [] j e h k = absurd (omega arith)
drop-eq-take m r t (d ∷ o) (c ∷ b) j e h k =
    drop-eq-take m r t o b j (tail-eq_of_cons-eq e) (omega arith) k

-- A buffer that ends inside the marker keeps back at least the part of the marker that is there.
pub partial_suffix_match-ge :
    (m r t o b : Text) (j : ℕ)
    → b ++ r ≡ o ++ (m ++ t)
    → length b ≡ length o + j
    → 0 < j
    → j < length m
    → j ≤ partial_suffix_match b m
unfolding partial_suffix_match
partial_suffix_match-ge m r t o [] j e h p k = absurd (omega arith)
partial_suffix_match-ge m r t o (c ∷ b) j e h p k =
    let here = drop-eq-take m r t o (c ∷ b) j e h (omega arith) in
    let at : length o ≡ length (c ∷ b) - j = omega arith in
    let kept = subst (λ i. drop i (c ∷ b) ≡ take j m) at here in
    let n = min (length (c ∷ b)) (length m - 1) in
    ground (arith, longest_match-ge (c ∷ b) m n j (omega arith) kept)
