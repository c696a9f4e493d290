-- ===== src/SessionCache/Newest.antt =====
-- The entry of an address that was used last, which a checkout gives.
use cross_host_ops.Base.{
  ◌<◌, ◌≡◌, refl, ap, subst, inl, inr, true, List, [], ◌∷◌, ◌++◌, Option, none, some, arith,
  if◌then◌else◌, Text, text_eq, Bool-cases, Option-cases, All,
}
use cross_host_ops.SessionCache.{CachedShellEntry, get, remove_key}
use cross_host_ops.SessionCache.Keys.{
  Ordered, keys_at, ids_of, remove_key-older, key_eq_self, key_eq_ids,
}

-- The entry of the address that was used last, and the other entries.
abbrev pub take_newest :
    Text → List CachedShellEntry → Option (CachedShellEntry × List CachedShellEntry)
take_newest ip [] = none
take_newest ip (x ∷ shells) = elim (take_newest ip shells) [
  | some (e, others) ↦ some (e, x ∷ others)
  | none ↦ if text_eq x.ip ip then some (x, shells) else none
]

pub take_newest-none :
    (ip : Text) (shells : List CachedShellEntry)
    → take_newest ip shells ≡ none
    → keys_at ip shells ≡ []
take_newest-none ip [] h = refl
take_newest-none ip (x ∷ shells) h = elim (Option-cases (take_newest ip shells)) [
  | inr (found, e) ↦ absurd (ground arith)
  | inl e ↦ let rest = take_newest-none ip shells e in ground arith
]

take_newest-All {κ} :
    (P : CachedShellEntry → Type κ) (ip : Text) (shells others : List CachedShellEntry)
    (e : CachedShellEntry)
    → take_newest ip shells ≡ some (e, others)
    → All P shells
    → P e
take_newest-All P ip [] others e h a = absurd (ground arith)
take_newest-All P ip (x ∷ shells) others e h a = elim (Option-cases (take_newest ip shells)) [
  | inr ((e', others'), p) ↦
      let same : e' ≡ e = ground arith in
      subst P same (take_newest-All P ip shells others' e' p a.1)
  | inl p ↦ elim (Bool-cases (text_eq x.ip ip)) [
    | inl t ↦ let same : x ≡ e = ground arith in subst P same a.0
    | inr t ↦ absurd (ground arith)
  ]
]

abbrev pub Newest : Text → List CachedShellEntry → CachedShellEntry → List CachedShellEntry → Type 0
Newest ip shells e others =
    (keys_at ip shells ≡ keys_at ip others ++ (e.key ∷ []))
    × (get e.key shells ≡ some e)
    × (remove_key e.key shells ≡ others)

Newest-later :
    (ip : Text) (x e : CachedShellEntry) (shells others : List CachedShellEntry)
    → x.key.id < e.key.id
    → Newest ip shells e others
    → Newest ip (x ∷ shells) e (x ∷ others)
Newest-later ip x e shells others l (k, g, r) =
    let apart = (key_eq_ids x.key e.key l).0 in
    (
      elim (Bool-cases (text_eq x.ip ip)) [ inl t ↦ rw t (ap (◌∷◌ x.key) k) | inr t ↦ rw t k ],
      rw apart g,
      rw apart (ap (◌∷◌ x) r),
    )

Newest-first :
    (ip : Text) (x : CachedShellEntry) (shells : List CachedShellEntry)
    → text_eq x.ip ip ≡ true
    → keys_at ip shells ≡ []
    → All (λ y. x.key.id < y.key.id) shells
    → Newest ip (x ∷ shells) x shells
Newest-first ip x shells t k newer = (
  rw (t, k) refl,
  rw (key_eq_self x.key) refl,
  rw (key_eq_self x.key) (remove_key-older x.key shells newer),
)

pub take_newest-Newest :
    (ip : Text) (shells : List CachedShellEntry) (e : CachedShellEntry)
    (others : List CachedShellEntry)
    → Ordered shells
    → take_newest ip shells ≡ some (e, others)
    → Newest ip shells e others
take_newest-Newest ip [] e others ord h = absurd (ground arith)
take_newest-Newest ip (x ∷ shells) e others ord h =
    let newer = ids_of x shells ord.0 in
    elim (Option-cases (take_newest ip shells)) [
      | inr ((e', others'), p) ↦
          let same : (e' ≡ e) × (x ∷ others' ≡ others) = ground arith in
          let l = take_newest-All (λ y. x.key.id < y.key.id) ip shells others' e' p newer in
          let here =
            Newest-later ip x e' shells others' l
              (take_newest-Newest ip shells e' others' ord.1 p) in
          subst (λ a. Newest ip (x ∷ shells) a others) same.0
            (subst (Newest ip (x ∷ shells) e') same.1 here)
      | inl p ↦ elim (Bool-cases (text_eq x.ip ip)) [
        | inr t ↦ absurd (ground arith)
        | inl t ↦
            let same : (x ≡ e) × (shells ≡ others) = ground arith in
            let here = Newest-first ip x shells t (take_newest-none ip shells p) newer in
            subst (λ a. Newest ip (x ∷ shells) a others) same.0
              (subst (Newest ip (x ∷ shells) x) same.1 here)
      ]
    ]
