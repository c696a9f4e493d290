-- ===== src/Tokens/Once.antt =====
-- A token that may be used once is used once, whatever happens to the store in between.
use cross_host_ops.Base.{
  ℕ, ◌≡◌, refl, sym, ap, ◌∙◌, subst, ◌≢◌, inl, inr, Bool, true, false, not, List, [], ◌∷◌, Option,
  none, some, arith, if◌then◌else◌, Text, trim, text_eq, text_eq_iff, text_eq_refl, lookup, insert,
  remove, retain_values, keep, All, Distinct, lookup-insert, lookup-remove, lookup-retain_values,
  retain-Distinct, insert-Distinct, Bool-cases, Option-cases,
}
use cross_host_ops.Tokens.{
  TokenEntry, Store, is_expired, generate, validate_entry, validate, invalidate, list, Call,
  generates, validates, invalidates, lists, step, run,
}

-- No entry, or one that has been used up.
abbrev pub Spent : Option TokenEntry → Type 0
Spent none = Unit
Spent (some e) = (e.once ≡ true) × (e.consumed ≡ true)

Spent-keep : (p : TokenEntry → Bool) (o : Option TokenEntry) → Spent o → Spent (keep p o)
Spent-keep p none v = tt
Spent-keep p (some e) v = elim (Bool-cases (p e)) [ inl h ↦ rw h v | inr h ↦ rw h tt ]

Spent-unless : (b : Bool) (o : Option TokenEntry) → Spent o → Spent (if b then none else o)
Spent-unless true o v = tt
Spent-unless false o v = v

validate_entry-uses :
    (s : Store) (now : ℕ) (h : Text) (e : TokenEntry)
    → e.once ≡ true
    → (validate_entry s now h e).1 ≡ true
    → Spent (lookup h (validate_entry s now h e).0)
unfolding validate_entry
validate_entry-uses s now h e one success = elim (Bool-cases (is_expired now e)) [
  | inl late ↦ absurd (ground arith)
  | inr live ↦ elim (Bool-cases e.consumed) [
    | inl used ↦ absurd (ground arith)
    | inr fresh ↦
        let stored : lookup h (insert h (record e { consumed = true }) s)
            ≡ some (record e { consumed = true }) =
          lookup-insert h h (record e { consumed = true }) s ∙ rw (text_eq_refl h) refl in
        ground (arith, stored)
  ]
]

-- The calls that do not issue a token of hash `h` again.
module _ (hash : Text → Text) where
  abbrev pub Spares : Text → ℕ × Call → Type 0
  Spares h (now, generates ttl once label token) = hash token ≢ h
  Spares h (now, validates raw) = Unit
  Spares h (now, invalidates needle) = Unit
  Spares h (now, lists) = Unit

  validate-Distinct :
      (s : Store) (now : ℕ) (raw : Text) → Distinct s → Distinct (validate hash s now raw).0
  unfolding validate validate_entry
  validate-Distinct s now raw d = elim (Option-cases (lookup (hash raw) s)) [
    | inl e ↦ rw (e, validate) d
    | inr (t, e) ↦
        rw (e, validate)
          (ground (
            arith,
            retain-Distinct (λ f. not (text_eq f.0 (hash raw))) s d,
            insert-Distinct (hash raw) (record t { consumed = true }) s d,
          ))
  ]

  invalidate-Distinct :
      (s : Store) (needle : Text) → Distinct s → Distinct (invalidate hash s needle).0
  unfolding invalidate
  invalidate-Distinct s needle d = elim (Option-cases (lookup (hash (trim needle)) s)) [
    | inl e ↦ rw (e, invalidate) (retain-Distinct (λ f. not (text_eq f.1.prefix (trim needle))) s d)
    | inr (t, e) ↦
        rw (e, invalidate) (retain-Distinct (λ f. not (text_eq f.0 (hash (trim needle)))) s d)
  ]

  -- A call on a store in which no hash stands twice leaves a store in which none does.
  step-Distinct : (s : Store) (c : ℕ × Call) → Distinct s → Distinct (step hash s c)
  unfolding step generate list
  step-Distinct s (now, generates ttl once label token) d = insert-Distinct (hash token) _ s d
  step-Distinct s (now, validates raw) d = validate-Distinct s now raw d
  step-Distinct s (now, invalidates needle) d = invalidate-Distinct s needle d
  step-Distinct s (now, lists) d = retain-Distinct (λ f. not (is_expired now f.1)) s d

  Spent-retain :
      (h : Text) (p : TokenEntry → Bool) (s : Store)
      → Distinct s
      → Spent (lookup h s)
      → Spent (lookup h (retain_values p s))
  Spent-retain h p s d v = rw (lookup-retain_values p h s d) (Spent-keep p (lookup h s) v)

  Spent-remove : (h k : Text) (s : Store) → Spent (lookup h s) → Spent (lookup h (remove k s))
  Spent-remove h k s v = rw (lookup-remove k h s) (Spent-unless (text_eq k h) (lookup h s) v)

  Spent-consumed :
      (h k : Text) (e : TokenEntry) (s : Store)
      → e.once ≡ true
      → Spent (lookup h s)
      → Spent (lookup h (insert k (record e { consumed = true }) s))
  Spent-consumed h k e s o v =
      rw (lookup-insert k h (record e { consumed = true }) s)
        (elim (Bool-cases (text_eq k h)) [ inl same ↦ rw same (o, refl) | inr other ↦ rw other v ])

  validate-Spent :
      (h : Text) (s : Store) (now : ℕ) (raw : Text)
      → Spent (lookup h s)
      → Spent (lookup h (validate hash s now raw).0)
  unfolding validate validate_entry
  validate-Spent h s now raw v = elim (Option-cases (lookup (hash raw) s)) [
    | inl e ↦ rw (e, validate) v
    | inr (t, e) ↦ elim (Bool-cases (is_expired now t)) [
      | inl late ↦ rw (e, validate, late) (Spent-remove h (hash raw) s v)
      | inr live ↦ elim (Bool-cases t.once) [
        | inr many ↦ rw (e, validate, live) (ground (arith, v))
        | inl one ↦
            rw (e, validate, live) (ground (arith, v, Spent-consumed h (hash raw) t s one v))
      ]
    ]
  ]

  invalidate-Spent :
      (h : Text) (s : Store) (needle : Text)
      → Distinct s
      → Spent (lookup h s)
      → Spent (lookup h (invalidate hash s needle).0)
  unfolding invalidate
  invalidate-Spent h s needle d v = elim (Option-cases (lookup (hash (trim needle)) s)) [
    | inl e ↦ rw (e, invalidate) (Spent-retain h (λ f. not (text_eq f.prefix (trim needle))) s d v)
    | inr (t, e) ↦ rw (e, invalidate) (Spent-remove h (hash (trim needle)) s v)
  ]

  step-Spent :
      (h : Text) (s : Store) (c : ℕ × Call)
      → Spares h c
      → Distinct s
      → Spent (lookup h s)
      → Spent (lookup h (step hash s c))
  unfolding step generate list
  step-Spent h s (now, generates ttl once label token) n d v =
      rw (lookup-insert (hash token) h _ s) (ground (arith, text_eq_iff (hash token) h))
  step-Spent h s (now, validates raw) n d v = validate-Spent h s now raw v
  step-Spent h s (now, invalidates needle) n d v = invalidate-Spent h s needle d v
  step-Spent h s (now, lists) n d v = Spent-retain h (λ e. not (is_expired now e)) s d v

  run-Spent :
      (h : Text) (s : Store) (cs : List (ℕ × Call))
      → All (Spares h) cs
      → Distinct s
      → Spent (lookup h s)
      → Spent (lookup h (run hash s cs))
  unfolding run
  run-Spent h s [] n d v = v
  run-Spent h s (c ∷ cs) n d v =
      run-Spent h (step hash s c) cs n.1 (step-Distinct s c d) (step-Spent h s c n.0 d v)

  validate-found :
      (s : Store) (now : ℕ) (raw : Text) (e : TokenEntry)
      → lookup (hash raw) s ≡ some e
      → validate hash s now raw ≡ validate_entry s now (hash raw) e
  unfolding validate
  validate-found s now raw e found = rw (found, validate) refl

  -- After a success the entry is used up, if it was good for one use.
  validate-uses :
      (s : Store) (now : ℕ) (raw : Text) (e : TokenEntry)
      → lookup (hash raw) s ≡ some e
      → e.once ≡ true
      → (validate hash s now raw).1 ≡ true
      → Spent (lookup (hash raw) (validate hash s now raw).0)
  validate-uses s now raw e found one success =
      let same = validate-found s now raw e found in
      subst (λ r. Spent (lookup (hash raw) r.0)) (sym same)
        (validate_entry-uses s now (hash raw) e one (sym (ap (λ r. r.1) same) ∙ success))

  validate-false :
      (s : Store) (now : ℕ) (raw : Text)
      → Spent (lookup (hash raw) s)
      → (validate hash s now raw).1 ≡ false
  unfolding validate validate_entry
  validate-false s now raw v = elim (Option-cases (lookup (hash raw) s)) [
    | inl e ↦ rw (e, validate) refl
    | inr (t, e) ↦
        let used : (t.once ≡ true) × (t.consumed ≡ true) = rw e at v in
        rw (e, validate) (ground arith)
  ]

  -- In a store in which no hash stands twice, a stored token that is good for one use validates at
  -- most once: after a success it fails at any time, whatever tokens were issued, validated,
  -- revoked or listed in between, as long as no token of the same hash is issued again.
  pub validate_once :
      (s : Store) (now : ℕ) (raw : Text) (e : TokenEntry) (cs : List (ℕ × Call)) (later : ℕ)
      → Distinct s
      → lookup (hash raw) s ≡ some e
      → e.once ≡ true
      → (validate hash s now raw).1 ≡ true
      → All (Spares (hash raw)) cs
      → (validate hash (run hash (validate hash s now raw).0 cs) later raw).1 ≡ false
  validate_once s now raw e cs later d found one success spared = validate-false _ later raw (
      run-Spent (hash raw) _ cs spared (validate-Distinct s now raw d)
        (validate-uses s now raw e found one success))
