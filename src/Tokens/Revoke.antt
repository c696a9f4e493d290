-- ===== src/Tokens/Revoke.antt =====
-- A revoked token is refused.
use cross_host_ops.Base.{
  ◌≡◌, refl, ap, ◌∙◌, ◌≢◌, ◌↔◌, inl, inr, not, Option, none, some, Text, trim, text_eq,
  text_eq_refl, text_eq_iff, lookup, keep, Distinct, lookup-remove, lookup-retain_values,
  Bool-cases, Option-cases,
}
use cross_host_ops.Tokens.{TokenEntry, Store, invalidate}

keep_iff :
    (needle : Text) (o : Option TokenEntry) (e : TokenEntry)
    → (keep (λ f. not (text_eq f.prefix needle)) o ≡ some e) ↔ ((o ≡ some e) × (e.prefix ≢ needle))
keep_iff needle none e = (λ h. absurd (cc), λ h. absurd (cc (h.0)))
keep_iff needle (some f) e =
    let compare = text_eq_iff f.prefix needle in
    elim (Bool-cases (text_eq f.prefix needle)) [
      | inl same ↦ rw same (
        λ h. absurd (cc),
        λ h.
            let eq : some f ≡ some e = h.0 in
            let one : f ≡ e = cc in
            let names : f.prefix ≡ needle = compare.0 same in absurd (h.1 (cc)),
      )
      | inr other ↦ rw other (
        λ h.
            let one : f ≡ e = cc in
            (h, λ names. let yes' = compare.1 (ap (λ x. x.prefix) one ∙ names) in cc),
        λ h. h.0,
      )
    ]

module _ (hash : Text → Text) where
  -- In a store in which no hash stands twice: after a call with a raw token, blanks around it not
  -- counted, no entry is stored under its hash.
  invalidate-token :
      (s : Store) (needle : Text)
      → Distinct s
      → lookup (hash (trim needle)) (invalidate hash s needle).0 ≡ none
  unfolding invalidate
  invalidate-token s needle d = elim (Option-cases (lookup (hash (trim needle)) s)) [
    | inr (t, e) ↦
        rw (e, invalidate)
          (lookup-remove (hash (trim needle)) (hash (trim needle)) s
            ∙ rw (text_eq_refl (hash (trim needle))) refl)
    | inl e ↦
        rw (e, invalidate)
          (lookup-retain_values (λ f. not (text_eq f.prefix (trim needle))) (hash (trim needle)) s d
            ∙ ap (keep (λ f. not (text_eq f.prefix (trim needle)))) e)
  ]

  -- In a store in which no hash stands twice: a call whose argument, blanks around it not counted,
  -- is no stored token removes exactly the entries with that prefix.
  pub invalidate-prefix :
      (s : Store) (needle h : Text) (e : TokenEntry)
      → Distinct s
      → lookup (hash (trim needle)) s ≡ none
      → (lookup h (invalidate hash s needle).0 ≡ some e)
        ↔ ((lookup h s ≡ some e) × (e.prefix ≢ trim needle))
  unfolding invalidate
  invalidate-prefix s needle h e d none_found =
      rw (none_found, invalidate)
        (rw (lookup-retain_values (λ f. not (text_eq f.prefix (trim needle))) h s d)
          (keep_iff (trim needle) (lookup h s) e))
