-- ===== src/SessionCache/Append.antt =====
-- An insertion behind all other entries keeps the invariant.
use cross_host_ops.Base.{
  ℕ, suc, ◌≤◌, ◌<◌, ◌≡◌, refl, sym, ap, ap₂, ◌∙◌, subst, inl, inr, Bool, true, false, ◌||◌, List,
  [], ◌∷◌, ◌++◌, append-nil, arith, retain, Text, text_eq, text_eq_iff, Bool-cases, All, Dict,
  All-append,
}
use cross_host_ops.SessionCache.{
  ShellKey, CachedShellEntry, key_eq, keys_of, push_key, key_lt, insert_entry,
}
use cross_host_ops.SessionCache.Keys.{Ordered, live, keys_at, All-map, key_eq_self, key_eq_ids}
use cross_host_ops.SessionCache.Valid.{Valid, keys_of-insert}
use cross_host_ops.SessionCache.Index.{retain-append}

-- The entry that an insertion appends.
later_key :
    (a b : ShellKey)
    → a.id < b.id
    → a.last_used ≤ b.last_used
    → (key_lt b a ≡ false) × (key_eq b a ≡ false)
later_key a b i t = (ground arith, ground arith)

pub insert_entry-last :
    (e : CachedShellEntry) (shells : List CachedShellEntry)
    → All (λ x. (x.key.id < e.key.id) × (x.key.last_used ≤ e.key.last_used)) shells
    → insert_entry e shells ≡ shells ++ (e ∷ [])
unfolding insert_entry
insert_entry-last e [] h = refl
insert_entry-last e (x ∷ shells) h =
    let after = later_key x.key e.key h.0.0 h.0.1 in
    rw (after.0, after.1) (ap (◌∷◌ x) (insert_entry-last e shells h.1))

append-Ordered :
    (e : CachedShellEntry) (shells : List CachedShellEntry)
    → Ordered shells
    → All (λ x. (x.key.id < e.key.id) × (x.key.last_used ≤ e.key.last_used)) shells
    → Ordered (shells ++ (e ∷ []))
append-Ordered e [] ord h = (tt, tt)
append-Ordered e (x ∷ shells) ord h =
    (All-append _ shells (e ∷ []) ord.0 ((h.0.1, h.0.0), tt), append-Ordered e shells ord.1 h.1)

live-append :
    (e : CachedShellEntry) (shells : List CachedShellEntry) (k : ShellKey)
    → live (shells ++ (e ∷ [])) k ≡ live shells k || key_eq e.key k
live-append e [] k = ground arith
live-append e (x ∷ shells) k = ground (arith, live-append e shells k)

retain_same {ℓ} :
    {A : Type ℓ} (p q : A → Bool) (xs : List A)
    → All (λ x. p x ≡ q x) xs
    → retain p xs ≡ retain q xs
retain_same p q [] h = refl
retain_same p q (x ∷ xs) h = rw (h.0, retain_same p q xs h.1) refl

keys_at-append :
    (ip : Text) (shells : List CachedShellEntry) (e : CachedShellEntry)
    → keys_at ip (shells ++ (e ∷ [])) ≡ keys_at ip shells ++ keys_at ip (e ∷ [])
keys_at-append ip [] e = refl
keys_at-append ip (x ∷ shells) e = elim (Bool-cases (text_eq x.ip ip)) [
  | inl t ↦ rw t (ap (◌∷◌ x.key) (keys_at-append ip shells e))
  | inr t ↦ rw t (keys_at-append ip shells e)
]

-- Keys that were given out before the entry: it does not make them live.
live_before :
    (e : CachedShellEntry) (shells : List CachedShellEntry) (k : ShellKey)
    → k.id < e.key.id
    → live (shells ++ (e ∷ [])) k ≡ live shells k
live_before e shells k l = live-append e shells k ∙ rw (key_eq_ids k e.key l).1 (ground arith)

retain_before :
    (e : CachedShellEntry) (shells : List CachedShellEntry) (keys : List ShellKey)
    → All (λ k. k.id < e.key.id) keys
    → retain (live (shells ++ (e ∷ []))) keys ≡ retain (live shells) keys
retain_before e shells keys h =
    retain_same _ _ keys (All-map _ _ keys (λ k l. live_before e shells k l) h)

live_last :
    (e : CachedShellEntry) (shells : List CachedShellEntry)
    → retain (live (shells ++ (e ∷ []))) (e.key ∷ []) ≡ e.key ∷ []
live_last e shells =
    let there : live (shells ++ (e ∷ [])) e.key ≡ true =
      live-append e shells e.key ∙ rw (key_eq_self e.key) (ground arith) in
    rw there refl

-- Both the entries and the index get the new key at their end.
push_key-indexed :
    (e : CachedShellEntry) (shells : List CachedShellEntry) (by_ip : Dict (List ShellKey))
    (j : Text)
    → retain (live shells) (keys_of j by_ip) ≡ keys_at j shells
    → All (λ k. k.id < e.key.id) (keys_of j by_ip)
    → retain (live (shells ++ (e ∷ []))) (keys_of j (push_key e.ip e.key by_ip))
      ≡ keys_at j (shells ++ (e ∷ []))
push_key-indexed e shells by_ip j indexed fresh =
    let keys = keys_of j by_ip in
    let left = live (shells ++ (e ∷ [])) in
    let at = keys_of-insert e.ip j (keys_of e.ip by_ip ++ (e.key ∷ [])) by_ip in
    let before : retain left keys ≡ keys_at j shells =
      retain_before e shells keys fresh ∙ indexed in
    elim (Bool-cases (text_eq e.ip j)) [
      | inl t ↦
          let same = (text_eq_iff e.ip j).0 t in
          let pushed : keys_of j (push_key e.ip e.key by_ip) ≡ keys ++ (e.key ∷ []) =
            at ∙ rw t (ap (λ i. keys_of i by_ip ++ (e.key ∷ [])) same) in
          ap (retain left) pushed
          ∙ retain-append left keys (e.key ∷ [])
          ∙ ap₂ ◌++◌ before (live_last e shells)
          ∙ sym (keys_at-append j shells e ∙ rw t refl)
      | inr t ↦
          ap (retain left) (at ∙ rw t refl)
          ∙ before
          ∙ sym (keys_at-append j shells e ∙ rw t (append-nil _))
    ]

push_key-fresh :
    (e : CachedShellEntry) (by_ip : Dict (List ShellKey)) (j : Text)
    → ((i : Text) → All (λ k. k.id < e.key.id) (keys_of i by_ip))
    → All (λ k. k.id < suc e.key.id) (keys_of j (push_key e.ip e.key by_ip))
push_key-fresh e by_ip j fresh =
    let wider = λ (i : Text).
      All-map (λ k. k.id < e.key.id) (λ k. k.id < suc e.key.id) (keys_of i by_ip)
        (λ k l. omega arith) (fresh i) in
    let at = keys_of-insert e.ip j (keys_of e.ip by_ip ++ (e.key ∷ [])) by_ip in
    elim (Bool-cases (text_eq e.ip j)) [
      | inl t ↦
          subst (All (λ k. k.id < suc e.key.id)) (sym (at ∙ rw t refl))
            (All-append _ (keys_of e.ip by_ip) (e.key ∷ []) (wider e.ip) (omega arith, tt))
      | inr t ↦ subst (All (λ k. k.id < suc e.key.id)) (sym (at ∙ rw t refl)) (wider j)
    ]

pub append-Valid :
    (clock now : ℕ) (shells : List CachedShellEntry) (by_ip : Dict (List ShellKey))
    (e : CachedShellEntry)
    → clock ≤ now
    → e.key.last_used ≡ now
    → Valid clock shells by_ip e.key.id
    → Valid now (shells ++ (e ∷ [])) (push_key e.ip e.key by_ip) (suc e.key.id)
append-Valid clock now shells by_ip e later at v =
    let wide =
      All-map _ (λ x. (x.key.id < suc e.key.id) × (x.key.last_used ≤ now)) shells
        (λ x b. (omega arith, omega arith)) v.bounded in
    let under =
      All-map _ (λ x. (x.key.id < e.key.id) × (x.key.last_used ≤ e.key.last_used)) shells
        (λ x b. (b.0, omega arith)) v.bounded in
    record {
      ordered = append-Ordered e shells v.ordered under;
      bounded = All-append _ shells (e ∷ []) wide ((omega arith, omega arith), tt);
      indexed = λ j. push_key-indexed e shells by_ip j (v.indexed j) (v.fresh j);
      fresh = λ j. push_key-fresh e by_ip j v.fresh;
    }
