-- ===== src/Tokens/Sweep.antt =====
-- When a token validates, and what a listing shows and leaves.
use mathlib.Core.List.{Perm}
use mathlib.Core.List.Perm
use cross_host_ops.Base.{
  ℕ, ◌+◌, ◌≤◌, ◌≡◌, refl, subst, ◌∙◌, ◌↔◌, ◌⊎◌, inl, inr, Bool, true, false, not, List, [], ◌∷◌,
  Option, some, arith, leb, Text, text_eq_refl, lookup, retain_values, keep, Distinct, map,
  lookup-insert, lookup-retain_values, Bool-cases, Option-cases,
}
use cross_host_ops.Tokens.{
  TokenEntry, Store, is_expired, new_entry, generate, validate_entry, validate, list, insert_sorted,
  sort_entries,
}

-- Each entry expires no later than the next.
abbrev pub IsSorted : List TokenEntry → Type 0
IsSorted [] = Unit
IsSorted (e ∷ []) = Unit
IsSorted (e ∷ f ∷ fs) = (e.expires_at ≤ f.expires_at) × IsSorted (f ∷ fs)

insert_sorted-IsSorted :
    (e : TokenEntry) (fs : List TokenEntry) → IsSorted fs → IsSorted (insert_sorted e fs)
unfolding insert_sorted
insert_sorted-IsSorted e [] h = tt
insert_sorted-IsSorted e (f ∷ []) h = ground arith
insert_sorted-IsSorted e (f ∷ g ∷ gs) h = ground (arith, insert_sorted-IsSorted e (g ∷ gs) h.1)

sort_entries-IsSorted : (es : List TokenEntry) → IsSorted (sort_entries es)
unfolding sort_entries
sort_entries-IsSorted [] = tt
sort_entries-IsSorted (e ∷ es) =
    insert_sorted-IsSorted e (sort_entries es) (sort_entries-IsSorted es)

insert_sorted-perm : (e : TokenEntry) (fs : List TokenEntry) → Perm (insert_sorted e fs) (e ∷ fs)
unfolding insert_sorted
insert_sorted-perm e [] = Perm.refl (e ∷ [])
insert_sorted-perm e (f ∷ fs) = elim (Bool-cases (leb e.expires_at f.expires_at)) [
  | inl before ↦ rw before (Perm.refl (e ∷ f ∷ fs))
  | inr behind ↦ rw behind (Perm.trans (Perm.cons f (insert_sorted-perm e fs)) (Perm.swap e f fs))
]

sort_entries-perm : (es : List TokenEntry) → Perm (sort_entries es) es
unfolding sort_entries
sort_entries-perm [] = Perm.refl []
sort_entries-perm (e ∷ es) =
    Perm.trans (insert_sorted-perm e (sort_entries es)) (Perm.cons e (sort_entries-perm es))

-- The entry lets a token in.
abbrev pub Admits : ℕ → TokenEntry → Type 0
Admits now e = (now ≤ e.expires_at) × ((e.once ≡ false) ⊎ (e.consumed ≡ false))

validate_entry-true :
    (s : Store) (now : ℕ) (h : Text) (e : TokenEntry)
    → ((validate_entry s now h e).1 ≡ true) ↔ Admits now e
unfolding validate_entry
validate_entry-true s now h e = (λ v. ground arith, λ v. ground arith)

module _ (hash : Text → Text) where
  -- A token validates exactly if its hash is stored, its time has not run out, and it is not a
  -- token for one use that has been used.
  validate-true :
      (s : Store) (now : ℕ) (raw : Text)
      → ((validate hash s now raw).1 ≡ true)
        ↔ ((e : TokenEntry) × (lookup (hash raw) s ≡ some e) × Admits now e)
  unfolding validate
  validate-true s now raw = elim (Option-cases (lookup (hash raw) s)) [
    | inl e ↦ rw (e, validate) (λ v. cc, λ v. absurd (cc (v.1)))
    | inr (t, e) ↦
        rw (e, validate)
          (
            λ v. (t, refl, (validate_entry-true s now (hash raw) t).0 v),
            λ v.
                let found : some t ≡ some v.0 = v.1 in
                let eq : v.0 ≡ t = cc in
                (validate_entry-true s now (hash raw) t).1 (subst (Admits now) eq v.2),
          )
  ]

  -- A token that was just issued validates until its time has run out.
  validate-generate :
      (s : Store) (now ttl : ℕ) (once : Bool) (label : Option Text) (token : Text) (later : ℕ)
      → later ≤ now + ttl
      → (validate hash (generate hash s now ttl once label token) later token).1 ≡ true
  unfolding generate
  validate-generate s now ttl once label token later h =
      (validate-true (generate hash s now ttl once label token) later token).1 (
        new_entry hash now ttl once label token,
        lookup-insert (hash token) (hash token) (new_entry hash now ttl once label token) s
            ∙ rw (text_eq_refl (hash token)) refl,
        (h, inr refl),
      )

  -- In a store in which no hash stands twice: a listing removes exactly the expired entries, and
  -- shows the others, each as often as it is stored, in the order in which they expire.
  list_lem :
      (s : Store) (now : ℕ) (h : Text)
      → Distinct s
      → (lookup h (list hash s now).0 ≡ keep (λ e. not (is_expired now e)) (lookup h s))
        × IsSorted (list hash s now).1
        × Perm (list hash s now).1 (map (λ e. e.1) (list hash s now).0)
  unfolding list
  list_lem s now h d =
      let left = map (λ e. e.1) (retain_values (λ e. not (is_expired now e)) s) in
      (
        lookup-retain_values (λ e. not (is_expired now e)) h s d,
        sort_entries-IsSorted left,
        sort_entries-perm left,
      )
