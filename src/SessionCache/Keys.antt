-- ===== src/SessionCache/Keys.antt =====
-- Entries in the order of their keys, and which keys are live.
use cross_host_ops.Base.{
  ◌≤◌, ◌<◌, ◌≡◌, refl, sym, ap, ◌∙◌, inl, inr, Bool, true, false, List, [], ◌∷◌, arith, retain, any,
  if◌then◌else◌, Text, text_eq, Bool-cases, All,
}
use cross_host_ops.SessionCache.{ShellKey, CachedShellEntry, key_eq, remove_key}

-- A later entry has a greater id, and was not used before.
abbrev pub Ordered : List CachedShellEntry → Type 0
Ordered [] = Unit
Ordered (e ∷ shells) =
    All (λ x. (e.key.last_used ≤ x.key.last_used) × (e.key.id < x.key.id)) shells × Ordered shells

abbrev pub live : List CachedShellEntry → ShellKey → Bool
live shells k = any (λ e. key_eq e.key k) shells

-- The keys of the entries of an address.
abbrev pub keys_at : Text → List CachedShellEntry → List ShellKey
keys_at ip [] = []
keys_at ip (e ∷ shells) =
    let rest = keys_at ip shells in if text_eq e.ip ip then e.key ∷ rest else rest

pub All-map {ℓ κ} :
    {A : Type ℓ} (P Q : A → Type κ) (xs : List A) → ((x : A) → P x → Q x) → All P xs → All Q xs
All-map P Q [] f h = tt
All-map P Q (x ∷ xs) f h = (f x h.0, All-map P Q xs f h.1)

pub All-both {ℓ κ κ'} :
    {A : Type ℓ} (P : A → Type κ) (Q : A → Type κ') (xs : List A)
    → All P xs
    → All Q xs
    → All (λ x. P x × Q x) xs
All-both P Q [] h k = tt
All-both P Q (x ∷ xs) h k = ((h.0, k.0), All-both P Q xs h.1 k.1)

pub All-retain {ℓ κ} :
    {A : Type ℓ} (P : A → Type κ) (p : A → Bool) (xs : List A) → All P xs → All P (retain p xs)
All-retain P p [] h = tt
All-retain P p (x ∷ xs) h = elim (Bool-cases (p x)) [
  | inl e ↦ rw e (h.0, All-retain P p xs h.1)
  | inr e ↦ rw e (All-retain P p xs h.1)
]

pub retain-Ordered :
    (p : CachedShellEntry → Bool) (shells : List CachedShellEntry)
    → Ordered shells
    → Ordered (retain p shells)
retain-Ordered p [] h = tt
retain-Ordered p (e ∷ shells) h = elim (Bool-cases (p e)) [
  | inl c ↦ rw c (All-retain _ p shells h.0, retain-Ordered p shells h.1)
  | inr c ↦ rw c (retain-Ordered p shells h.1)
]

pub key_eq_self : (k : ShellKey) → key_eq k k ≡ true
key_eq_self k = ground arith

pub key_eq_ids : (j k : ShellKey) → j.id < k.id → (key_eq j k ≡ false) × (key_eq k j ≡ false)
key_eq_ids j k h = (ground arith, ground arith)

-- No entry with a greater id has this key.
pub live-older :
    (k : ShellKey) (shells : List CachedShellEntry)
    → All (λ x. k.id < x.key.id) shells
    → live shells k ≡ false
live-older k [] h = refl
live-older k (x ∷ shells) h = rw ((key_eq_ids k x.key h.0).1, live-older k shells h.1) refl

pub remove_key-older :
    (k : ShellKey) (shells : List CachedShellEntry)
    → All (λ x. k.id < x.key.id) shells
    → remove_key k shells ≡ shells
remove_key-older k [] h = refl
remove_key-older k (x ∷ shells) h =
    rw ((key_eq_ids k x.key h.0).1, remove_key-older k shells h.1) refl

pub ids_of :
    (e : CachedShellEntry) (shells : List CachedShellEntry)
    → All (λ x. (e.key.last_used ≤ x.key.last_used) × (e.key.id < x.key.id)) shells
    → All (λ x. e.key.id < x.key.id) shells
ids_of e shells h = All-map _ _ shells (λ x b. b.1) h

live-retain_other :
    (p : CachedShellEntry → Bool) (y : CachedShellEntry) (shells : List CachedShellEntry)
    (k : ShellKey)
    → key_eq y.key k ≡ false
    → live (retain p (y ∷ shells)) k ≡ live (retain p shells) k
live-retain_other p y shells k h = elim (Bool-cases (p y)) [
  | inl c ↦ rw (c, h) refl
  | inr c ↦ rw c refl
]

live-retain_first :
    (p : CachedShellEntry → Bool) (y : CachedShellEntry) (shells : List CachedShellEntry)
    → All (λ x. y.key.id < x.key.id) shells
    → live (retain p (y ∷ shells)) y.key ≡ p y
live-retain_first p y shells newer = elim (Bool-cases (p y)) [
  | inl c ↦ rw (c, key_eq_self y.key) refl
  | inr c ↦ rw c (live-older y.key (retain p shells) (All-retain _ p shells newer))
]

-- In ordered entries the live keys of those that are retained are exactly theirs.
pub live-retain :
    (p : CachedShellEntry → Bool) (shells : List CachedShellEntry)
    → Ordered shells
    → All (λ e. live (retain p shells) e.key ≡ p e) shells
live-retain p [] h = tt
live-retain p (y ∷ shells) h =
    let newer = ids_of y shells h.0 in
    let rest = All-both _ _ shells newer (live-retain p shells h.1) in
    (
      live-retain_first p y shells newer,
      All-map _ _ shells
          (λ x b. live-retain_other p y shells x.key (key_eq_ids y.key x.key b.0).0 ∙ b.1) rest,
    )

pub retain-keys_at :
    (f : ShellKey → Bool) (p : CachedShellEntry → Bool) (ip : Text) (shells : List CachedShellEntry)
    → All (λ e. f e.key ≡ p e) shells
    → retain f (keys_at ip shells) ≡ keys_at ip (retain p shells)
retain-keys_at f p ip [] h = refl
retain-keys_at f p ip (e ∷ shells) h =
    let rest = retain-keys_at f p ip shells h.1 in
    elim (Bool-cases (p e)) [
      | inl c ↦ elim (Bool-cases (text_eq e.ip ip)) [
        | inl t ↦ rw (c, t, h.0 ∙ c) (ap (◌∷◌ e.key) rest)
        | inr t ↦ rw (c, t) rest
      ]
      | inr c ↦ elim (Bool-cases (text_eq e.ip ip)) [
        | inl t ↦ rw (c, t, h.0 ∙ c) rest
        | inr t ↦ rw (c, t) rest
      ]
    ]

pub retain-retain {ℓ} :
    {A : Type ℓ} (p q : A → Bool) (xs : List A)
    → ((x : A) → p x ≡ true → q x ≡ true)
    → retain p (retain q xs) ≡ retain p xs
retain-retain p q [] h = refl
retain-retain p q (x ∷ xs) h = elim (Bool-cases (p x)) [
  | inl c ↦ rw (h x c, c) (ap (◌∷◌ x) (retain-retain p q xs h))
  | inr c ↦ elim (Bool-cases (q x)) [
    | inl d ↦ rw (d, c) (retain-retain p q xs h)
    | inr d ↦ rw (d, c) (retain-retain p q xs h)
  ]
]

pub live-retain_sub :
    (p : CachedShellEntry → Bool) (shells : List CachedShellEntry) (k : ShellKey)
    → live (retain p shells) k ≡ true
    → live shells k ≡ true
live-retain_sub p [] k h = h
live-retain_sub p (e ∷ shells) k h = ground (arith, live-retain_sub p shells k)

-- The live keys of an index stay those of its address when entries go.
pub Indexed-retain :
    (p : CachedShellEntry → Bool) (ip : Text) (keys : List ShellKey)
    (shells : List CachedShellEntry)
    → Ordered shells
    → retain (live shells) keys ≡ keys_at ip shells
    → retain (live (retain p shells)) keys ≡ keys_at ip (retain p shells)
Indexed-retain p ip keys shells ord h =
    let kept = live (retain p shells) in
    sym (retain-retain kept (live shells) keys (live-retain_sub p shells))
    ∙ ap (retain kept) h
    ∙ retain-keys_at kept p ip shells (live-retain p shells ord)

pub live-remove_key :
    (k : ShellKey) (shells : List CachedShellEntry) → live (remove_key k shells) k ≡ false
live-remove_key k [] = refl
live-remove_key k (x ∷ shells) = elim (Bool-cases (key_eq x.key k)) [
  | inl e ↦ rw e (live-remove_key k shells)
  | inr e ↦ rw (e, e) (live-remove_key k shells)
]
