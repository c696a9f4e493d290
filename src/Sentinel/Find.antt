-- ===== src/Sentinel/Find.antt =====
-- What `find_sentinel` answers over the start of a stream that holds one sentinel.
use cross_host_ops.Base.{
  ℕ, zero, suc, ◌+◌, ◌≤◌, ◌<◌, ◌≡◌, refl, sym, ap, ◌∙◌, subst, ◌⊎◌, inl, inr, ◌≢◌, false, [], ◌∷◌,
  ◌++◌, arith, length, drop, Text, length-append, length-drop, append_assoc, some, none, is_empty,
  Option-cases,
}
use cross_host_ops.Sentinel.{
  confirmed_at, incomplete_at, not_found, find_from, find_sentinel, find_subslice, parse_code,
  confirmed, incomplete, lookahead_sentinel,
}
use cross_host_ops.Sentinel.Search.{FirstAt, find_subslice-before, find_subslice-at}
use cross_host_ops.Sentinel.After.{
  Lookahead-cases, IsDigits, IsTerminator, lookahead_sentinel-start, split_start,
}

is_empty-ne : (m : Text) → m ≢ [] → is_empty m ≡ false
is_empty-ne [] h = absurd (h refl)
is_empty-ne (c ∷ m) h = refl

-- What one round of the search answers.
find_sentinel-none :
    (b m : Text) → m ≢ [] → find_subslice b m ≡ none → find_sentinel b m ≡ not_found
unfolding find_sentinel find_from
find_sentinel-none b m n e = ground (arith, is_empty-ne m n)

module _ (b m : Text) (p : ℕ) (named : m ≢ []) (found : find_subslice b m ≡ some p) where
  find_sentinel-incomplete :
      lookahead_sentinel (drop (p + length m) b) ≡ incomplete → find_sentinel b m ≡ incomplete_at p
  unfolding find_sentinel find_from
  find_sentinel-incomplete e = ground (arith, is_empty-ne m named)

  find_sentinel-confirmed :
      (code n : ℕ)
      → lookahead_sentinel (drop (p + length m) b) ≡ confirmed code n
      → find_sentinel b m ≡ confirmed_at p code (p + length m + n)
  unfolding find_sentinel find_from
  find_sentinel-confirmed code n e = ground (arith, is_empty-ne m named)

-- How long the marker and its sentinel are.
abbrev pub size : Text → Text → Text → ℕ
size m ds term = length m + suc (length ds + length term)

module _ (m ds term rest : Text) (named : m ≢ []) (digits : IsDigits ds)
    (ends : IsTerminator term) where
  -- The search over the start `b` of a stream whose sentinel stands behind `o`.
  pub find-none :
      (o b r : Text)
      → FirstAt m o
      → b ++ r ≡ o ++ (m ++ (b':' ∷ (ds ++ (term ++ rest))))
      → length b < length o + length m
      → find_sentinel b m ≡ not_found
  find-none o b r f e h =
      find_sentinel-none b m named
        (find_subslice-before m (b':' ∷ (ds ++ (term ++ rest))) r o b f e h)

  pub find-some :
      (o b r : Text)
      → FirstAt m o
      → b ++ r ≡ o ++ (m ++ (b':' ∷ (ds ++ (term ++ rest))))
      → length o + length m ≤ length b
      → ((length b < length o + size m ds term) × (find_sentinel b m ≡ incomplete_at (length o)))
        ⊎ ((length o + size m ds term ≤ length b)
            × (find_sentinel b m
                ≡ confirmed_at (length o) (parse_code ds) (length o + size m ds term)))
  find-some o b r f e h =
      let found = find_subslice-at m (b':' ∷ (ds ++ (term ++ rest))) r o b f e h named in
      let sizes = length-append o m in
      let e' = e ∙ sym (append_assoc o m (b':' ∷ (ds ++ (term ++ rest)))) in
      let parts = split_start (o ++ m) b r (b':' ∷ (ds ++ (term ++ rest))) e' (omega arith) in
      let after = drop (length o + length m) b in
      let e'' : after ++ r ≡ b':' ∷ (ds ++ (term ++ rest)) =
        subst (λ k. drop k b ++ r ≡ b':' ∷ (ds ++ (term ++ rest))) sizes parts.1 in
      let left = length-drop (length o + length m) b in
      elim (lookahead_sentinel-start ds term rest after r digits ends e'') [
        | inl (few, p) ↦ inl (omega arith, find_sentinel-incomplete b m (length o) named found p)
        | inr (enough, p) ↦ inr (
          omega arith,
          find_sentinel-confirmed b m (length o) named found _ _ p
              ∙ ap (confirmed_at (length o) (parse_code ds)) (omega arith),
        )
      ]

find_subslice-nil : (m : Text) → m ≢ [] → find_subslice [] m ≡ none
unfolding find_subslice
find_subslice-nil m n = ground (arith, is_empty-ne m n)

drop_past : (n : ℕ) (b : Text) → length b ≤ n → drop n b ≡ []
drop_past zero [] h = refl
drop_past zero (c ∷ b) h = absurd (omega arith)
drop_past (suc n) [] h = refl
drop_past (suc n) (c ∷ b) h = drop_past n b (omega arith)

length-pos : (m : Text) → m ≢ [] → 0 < length m
length-pos [] h = absurd (h refl)
length-pos (c ∷ m) h = omega arith

-- The fuel is enough: for a marker that is not empty, with fuel for every byte that is left to
-- search and one more, a further unit of fuel does not change the answer.
find_from_fuel :
    (fuel from : ℕ) (b m : Text)
    → m ≢ []
    → length b ≤ fuel + from
    → find_from (suc fuel) from b m ≡ find_from (suc (suc fuel)) from b m
unfolding find_from
find_from_fuel zero from b m n h =
    let nothing : find_subslice (drop from b) m ≡ none =
      rw (drop_past from b (omega arith)) (find_subslice-nil m n) in
    rw (nothing, find_from) refl
find_from_fuel (suc fuel) from b m n h =
    let again = find_from_fuel fuel in
    elim (Option-cases (find_subslice (drop from b) m)) [
      | inl nothing ↦ rw (nothing, find_from) refl
      | inr (rel, found) ↦
          let at = from + rel + length m in
          let next = again at b m n (omega (arith, length-pos m n)) in
          elim (Lookahead-cases (lookahead_sentinel (drop at b))) [
            | inl part ↦ rw (found, part, find_from) refl
            | inr (inl other) ↦ rw (found, other, find_from) next
            | inr (inr (code, k, hit)) ↦ rw (found, hit, find_from) refl
          ]
    ]
