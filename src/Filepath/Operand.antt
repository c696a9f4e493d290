-- ===== src/Filepath/Operand.antt =====
-- The operand `target:path` of a copy.
use cross_host_ops.Base.{
  ◌≡◌, refl, sym, ap, ◌∙◌, inl, inr, true, false, not, ◌||◌, [], ◌∷◌, ◌++◌, none, some, arith, ◌==◌,
  Text, contains_char, is_empty, Bool-cases, or_false, Option-cases,
}
use cross_host_ops.Filepath.{
  colon, has_drive, from_str, RemoteSpec, looks_like_path_start, best_split, is_valid_target,
  parse_remote,
}

best_split-none : (s : Text) → contains_char colon s ≡ false → best_split s ≡ none
unfolding best_split
best_split-none [] h = refl
best_split-none (c ∷ s) h =
    let (other, later) = or_false (c == colon) (contains_char colon s) h in
    rw (best_split-none s later, other) refl

best_split-append :
    (t p : Text)
    → best_split p ≡ none
    → looks_like_path_start p ≡ true
    → best_split (t ++ (colon ∷ p)) ≡ some (t, p)
unfolding best_split
best_split-append [] p last start = rw (last, start) refl
best_split-append (c ∷ t) p last start = rw (best_split-append t p last start) refl

-- An operand of a target, a colon and a path is read as that target, with all its colons, and that
-- path: for a valid target, and a path that begins like one and has no later colon with such a
-- beginning behind it, unless the whole begins like a drive.
parse_remote-append :
    (target path : Text)
    → has_drive (target ++ (colon ∷ path)) ≡ false
    → is_valid_target target ≡ true
    → looks_like_path_start path ≡ true
    → best_split path ≡ none
    → parse_remote (target ++ (colon ∷ path))
      ≡ some (record { target = target; path = from_str path })
unfolding parse_remote looks_like_path_start
parse_remote-append target [] local valid start last = absurd (ground arith)
parse_remote-append target (c ∷ path) local valid start last =
    rw (local, best_split-append target (c ∷ path) last start, valid) refl

best_split-some :
    (s a b : Text)
    → best_split s ≡ some (a, b)
    → (s ≡ a ++ (colon ∷ b)) × (looks_like_path_start b ≡ true)
unfolding best_split
best_split-some [] a b h = ground arith
best_split-some (c ∷ s) a b h = elim (Option-cases (best_split s)) [
  | inl e ↦ ground arith
  | inr ((x, y), e) ↦ let ih = best_split-some s x y e in ground arith
]

parse_remote-none :
    (value : Text) (spec : RemoteSpec)
    → parse_remote value ≡ some spec
    → best_split value ≡ none
    → ⊥
unfolding parse_remote
parse_remote-none value spec h e = ground arith

parse_remote-split :
    (value a b : Text) (spec : RemoteSpec)
    → parse_remote value ≡ some spec
    → best_split value ≡ some (a, b)
    → (is_valid_target a ≡ true) × (spec ≡ record { target = a; path = from_str b })
unfolding parse_remote
parse_remote-split value a b spec h e = elim (Bool-cases (has_drive value)) [
  | inl drive ↦ absurd (ground arith)
  | inr remote ↦ elim (Bool-cases (not (is_valid_target a) || is_empty b)) [
    | inl bad ↦ absurd (ground arith)
    | inr fine ↦ (ground arith, ground arith)
  ]
]

-- What is read as remote is a valid target, a colon and a path that begins like one.
parse_remote_sound :
    (value : Text) (spec : RemoteSpec)
    → parse_remote value ≡ some spec
    → (path : Text) × (value ≡ spec.target ++ (colon ∷ path))
      × (is_valid_target spec.target ≡ true)
      × (looks_like_path_start path ≡ true)
      × (spec.path ≡ from_str path)
parse_remote_sound value spec h = elim (Option-cases (best_split value)) [
  | inl e ↦ absurd (parse_remote-none value spec h e)
  | inr ((a, b), e) ↦
      let cut = best_split-some value a b e in
      let read = parse_remote-split value a b spec h e in
      let target = ap (λ s. s.target) read.1 in
      (
        b,
        cut.0 ∙ ap (λ t. t ++ (colon ∷ b)) (sym target),
        ap is_valid_target target ∙ read.0,
        cut.1,
        ap (λ s. s.path) read.1,
      )
]
