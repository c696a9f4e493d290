-- ===== src/Review/Globs.antt =====
-- The glob matcher against the language of its patterns.
use cross_host_ops.Base.{
  ℕ, ◌≡◌, refl, sym, ap, subst, ◌≢◌, ◌↔◌, inl, inr, Bool, true, [], ◌∷◌, ◌++◌, arith, any, ◌==◌,
  ==_iff, Text, Bool-cases,
}
use cross_host_ops.Review.{suffixes, glob_match}

-- A pattern matches a text: a star any text, any other character itself.
pub data Matches : Text → Text → Type 0 where
  done : Matches [] []
  star : {p : Text} (u : Text) {v : Text} → Matches p v → Matches (b'*' ∷ p) (u ++ v)
  char : {p t : Text} (c : ℕ) → c ≢ b'*' → Matches p t → Matches (c ∷ p) (c ∷ t)

any-suffixes : (f : Text → Bool) (u v : Text) → f v ≡ true → any f (suffixes (u ++ v)) ≡ true
unfolding suffixes
any-suffixes f [] [] h = ground arith
any-suffixes f [] (c ∷ v) h = ground arith
any-suffixes f (c ∷ u) v h = let ih = any-suffixes f u v h in ground arith

any-suffixes-true :
    (f : Text → Bool) (t : Text)
    → any f (suffixes t) ≡ true
    → (u : Text) × (v : Text) × (t ≡ u ++ v) × (f v ≡ true)
unfolding suffixes
any-suffixes-true f [] h = ([], [], refl, ground arith)
any-suffixes-true f (c ∷ t) h = elim (Bool-cases (f (c ∷ t))) [
  | inl e ↦ ([], c ∷ t, refl, e)
  | inr e ↦
      let (u, v, eq, ok) = any-suffixes-true f t (ground arith) in
      (c ∷ u, v, ap (λ r. c ∷ r) eq, ok)
]

glob_match-star : (p t : Text) → glob_match (b'*' ∷ p) t ≡ any (glob_match p) (suffixes t)
unfolding glob_match suffixes
glob_match-star p [] = refl
glob_match-star p (d ∷ t) = refl

Matches-glob_match : {p t : Text} → Matches p t → glob_match p t ≡ true
unfolding glob_match
Matches-glob_match done = refl
Matches-glob_match (star {p} u {v} m) =
    rw (glob_match-star p (u ++ v)) (any-suffixes (glob_match p) u v (Matches-glob_match m))
Matches-glob_match (char c ne m) = let ih = Matches-glob_match m in ground arith

glob_match-Matches : (p t : Text) → glob_match p t ≡ true → Matches p t
unfolding glob_match
glob_match-Matches [] [] h = done
glob_match-Matches [] (d ∷ t) h = absurd (ground arith)
glob_match-Matches (c ∷ p) [] h = elim (Bool-cases (c == b'*')) [
  | inl e ↦
      let eq : b'*' ≡ c = sym ((==_iff c b'*').0 e) in
      subst (λ d. Matches (d ∷ p) []) eq (star [] (glob_match-Matches p [] (ground arith)))
  | inr e ↦ absurd (ground arith)
]
glob_match-Matches (c ∷ p) (d ∷ t) h = elim (Bool-cases (c == b'*')) [
  | inl e ↦
      let eq : b'*' ≡ c = sym ((==_iff c b'*').0 e) in
      let (u, v, cut, m) = any-suffixes-true (glob_match p) (d ∷ t) (ground arith) in
      subst (Matches (c ∷ p)) (sym cut)
        (subst (λ x. Matches (x ∷ p) (u ++ v)) eq (star u (glob_match-Matches p v m)))
  | inr e ↦
      let eq : c ≡ d = ground arith in
      subst (λ x. Matches (c ∷ p) (x ∷ t)) eq
        (char c (ground arith) (glob_match-Matches p t (ground arith)))
]

-- The matcher accepts a text exactly if the pattern matches it, a star standing for any text.
pub glob_match_iff : (p t : Text) → (glob_match p t ≡ true) ↔ Matches p t
glob_match_iff p t = (glob_match-Matches p t, Matches-glob_match)
