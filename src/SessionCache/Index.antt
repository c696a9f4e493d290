-- ===== src/SessionCache/Index.antt =====
-- What `checkout` takes: the last live key of the index, which is the entry of the address that was
-- used last.
use cross_host_ops.Base.{
  append-nil, ◌≡◌, refl, sym, ap, ap₂, ◌∙◌, ◌⊎◌, inl, inr, Bool, true, false, not, List, [], ◌∷◌,
  ◌++◌, none, some, arith, retain, if◌then◌else◌, Text, Bool-cases, Option-cases,
}
use mathlib.Core.Option.{some-injective}
use mathlib.Core.List.{head-eq_of_cons-eq, tail-eq_of_cons-eq}
use cross_host_ops.SessionCache.{ShellKey, CachedShellEntry, key_eq, get, remove_key, pop_live}
use cross_host_ops.SessionCache.Newest.{take_newest, take_newest-none, take_newest-Newest}
use cross_host_ops.SessionCache.Keys.{
  Ordered, live, keys_at, retain-retain, live-retain_sub, live-remove_key, Indexed-retain,
}

get-none :
    (k : ShellKey) (shells : List CachedShellEntry) → get k shells ≡ none → live shells k ≡ false
get-none k [] h = refl
get-none k (x ∷ shells) h = ground (arith, get-none k shells)

get-some :
    (k : ShellKey) (shells : List CachedShellEntry) (e : CachedShellEntry)
    → get k shells ≡ some e
    → live shells k ≡ true
get-some k [] e h = cc
get-some k (x ∷ shells) e h = ground (arith, get-some k shells e)

pub pop_live-none :
    (keys : List ShellKey) (shells : List CachedShellEntry)
    → pop_live keys shells ≡ none
    → retain (live shells) keys ≡ []
unfolding pop_live
pop_live-none [] shells h = refl
pop_live-none (k ∷ keys) shells h = elim (Option-cases (pop_live keys shells)) [
  | inr (found, e) ↦ absurd (ground arith)
  | inl e ↦ elim (Option-cases (get k shells)) [
    | inr (entry, g) ↦ absurd (ground arith)
    | inl g ↦ rw (get-none k shells g, pop_live-none keys shells e) refl
  ]
]

-- The last live key, and dead ones behind it.
abbrev pub Pops :
    List ShellKey
    → List CachedShellEntry
    → CachedShellEntry
    → List ShellKey
    → List CachedShellEntry
    → Type 0
Pops keys shells e before shells' =
    (k : ShellKey) × (dead : List ShellKey) × (keys ≡ before ++ (k ∷ dead))
    × (retain (live shells) dead ≡ [])
    × (get k shells ≡ some e)
    × (shells' ≡ remove_key k shells)

pub pop_live-Pops :
    (keys : List ShellKey) (shells : List CachedShellEntry) (e : CachedShellEntry)
    (before : List ShellKey) (shells' : List CachedShellEntry)
    → pop_live keys shells ≡ some (e, before, shells')
    → Pops keys shells e before shells'
unfolding pop_live
pop_live-Pops [] shells e before shells' h = absurd (ground arith)
pop_live-Pops (k ∷ keys) shells e before shells' h = elim (Option-cases (pop_live keys shells)) [
  | inr ((e', before', kept), p) ↦
      let (j, dead, split', none_live, found, gone) = pop_live-Pops keys shells e' before' kept p in
      let same : (e' ≡ e) × (k ∷ before' ≡ before) × (kept ≡ shells') = ground arith in
      (
        j,
        dead,
        ap (◌∷◌ k) split' ∙ ap (λ b. b ++ (j ∷ dead)) same.1,
        none_live,
        found ∙ ap some same.0,
        sym same.2 ∙ gone,
      )
  | inl p ↦ elim (Option-cases (get k shells)) [
    | inl g ↦ absurd (ground arith)
    | inr (entry, g) ↦
        let same : (entry ≡ e) × ([] ≡ before) × (remove_key k shells ≡ shells') = ground arith in
        (
          k,
          keys,
          ap (λ b. b ++ (k ∷ keys)) same.1,
          pop_live-none keys shells p,
          g ∙ ap some same.0,
          sym same.2,
        )
  ]
]

snoc_injective {ℓ} :
    {A : Type ℓ} (xs ys : List A) (a b : A) → xs ++ (a ∷ []) ≡ ys ++ (b ∷ []) → (xs ≡ ys) × (a ≡ b)
snoc_injective [] [] a b e = (refl, head-eq_of_cons-eq e)
snoc_injective [] (y ∷ []) a b e = absurd (ground arith)
snoc_injective [] (y ∷ z ∷ ys) a b e = absurd (ground arith)
snoc_injective (x ∷ []) [] a b e = absurd (ground arith)
snoc_injective (x ∷ z ∷ xs) [] a b e = absurd (ground arith)
snoc_injective (x ∷ xs) (y ∷ ys) a b e =
    let (rest, same) = snoc_injective xs ys a b (tail-eq_of_cons-eq e) in
    (ap₂ ◌∷◌ (head-eq_of_cons-eq e) rest, same)

pub retain-append {ℓ} :
    {A : Type ℓ} (p : A → Bool) (xs ys : List A) → retain p (xs ++ ys) ≡ retain p xs ++ retain p ys
retain-append p [] ys = refl
retain-append p (x ∷ xs) ys = elim (Bool-cases (p x)) [
  | inl e ↦ rw e (ap (◌∷◌ x) (retain-append p xs ys))
  | inr e ↦ rw e (retain-append p xs ys)
]

snoc-ne-nil {ℓ} : {A : Type ℓ} (xs : List A) (a : A) → xs ++ (a ∷ []) ≡ [] → ⊥
snoc-ne-nil [] a e = absurd (ground arith)
snoc-ne-nil (x ∷ xs) a e = absurd (ground arith)

-- What a popped key and the dead ones behind it leave of the live keys.
Pops-retain :
    (f : ShellKey → Bool) (before dead : List ShellKey) (k : ShellKey)
    → retain f dead ≡ []
    → retain f (before ++ (k ∷ dead)) ≡ retain f before ++ (if f k then k ∷ [] else [])
Pops-retain f before dead k d =
    retain-append f before (k ∷ dead) ∙ ap (◌++◌ (retain f before)) (rw d refl)

Pops-live :
    (keys : List ShellKey) (shells : List CachedShellEntry) (e : CachedShellEntry)
    (before : List ShellKey) (shells' : List CachedShellEntry)
    (pops : Pops keys shells e before shells')
    → retain (live shells) keys ≡ retain (live shells) before ++ (pops.0 ∷ [])
Pops-live keys shells e before shells' (k, dead, split', d, g, gone) =
    ap (retain (live shells)) split'
    ∙ Pops-retain (live shells) before dead k d
    ∙ rw (get-some k shells e g) refl

Pops-left :
    (ip : Text) (keys : List ShellKey) (shells : List CachedShellEntry) (e : CachedShellEntry)
    (before : List ShellKey) (shells' : List CachedShellEntry)
    → Ordered shells
    → retain (live shells) keys ≡ keys_at ip shells
    → Pops keys shells e before shells'
    → retain (live shells') before ≡ keys_at ip shells'
Pops-left ip keys shells e before shells' ord indexed (k, dead, split', d, g, gone) =
    let p = λ (x : CachedShellEntry). not (key_eq x.key k) in
    let left = live (retain p shells) in
    let dead' : retain left dead ≡ [] =
      sym (retain-retain left (live shells) dead (live-retain_sub p shells)) ∙ ap (retain left) d in
    let last_gone : retain left (before ++ (k ∷ dead)) ≡ retain left before =
      Pops-retain left before dead k dead' ∙ rw (live-remove_key k shells) (append-nil _) in
    rw gone
      (sym last_gone ∙ ap (retain left) (sym split') ∙ Indexed-retain p ip keys shells ord indexed)

-- Where the index is right, both take the same entry, and what is left of the index is right.
pub pop_live-take_newest :
    (ip : Text) (keys : List ShellKey) (shells : List CachedShellEntry)
    → Ordered shells
    → retain (live shells) keys ≡ keys_at ip shells
    → ((pop_live keys shells ≡ none) × (take_newest ip shells ≡ none))
      ⊎ ((e : CachedShellEntry) × (before : List ShellKey) × (others : List CachedShellEntry)
          × (pop_live keys shells ≡ some (e, before, others))
          × (take_newest ip shells ≡ some (e, others))
          × (others ≡ remove_key e.key shells)
          × (retain (live others) before ≡ keys_at ip others))
pop_live-take_newest ip keys shells ord indexed = elim (Option-cases (pop_live keys shells)) [
  | inl p ↦ elim (Option-cases (take_newest ip shells)) [
    | inl q ↦ inl (p, q)
    | inr ((e, others), q) ↦
        let (at, g, r) = take_newest-Newest ip shells e others ord q in
        absurd (snoc-ne-nil _ e.key (sym at ∙ sym indexed ∙ pop_live-none keys shells p))
  ]
  | inr ((e, before, shells'), p) ↦
      let pops = pop_live-Pops keys shells e before shells' p in
      let at = sym indexed ∙ Pops-live keys shells e before shells' pops in
      elim (Option-cases (take_newest ip shells)) [
        | inl q ↦ absurd (snoc-ne-nil _ pops.0 (sym at ∙ take_newest-none ip shells q))
        | inr ((e', others), q) ↦
            let (at', g, r) = take_newest-Newest ip shells e' others ord q in
            let same = (snoc_injective _ _ _ _ (sym at' ∙ at)).1 in
            let entry : e' ≡ e =
              some-injective e' e (sym g ∙ ap (λ k. get k shells) same ∙ pops.4) in
            let left : others ≡ shells' = sym r ∙ ap (λ k. remove_key k shells) same ∙ sym pops.5 in
            inr (
              e,
              before,
              shells',
              p,
              q ∙ ap₂ (λ a b. some (a, b)) entry left,
              sym left ∙ sym r ∙ ap (λ a. remove_key a.key shells) entry,
              Pops-left ip keys shells e before shells' ord indexed pops,
            )
      ]
]
