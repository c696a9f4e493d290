-- ===== src/SessionCache/Prune.antt =====
-- Pruning keeps exactly the entries that are not expired, and builds an index of them.
use cross_host_ops.Base.{
  ℕ, ◌<◌, ◌≡◌, refl, sym, ap, ◌∙◌, subst, inl, inr, Bool, true, false, not, List, [], ◌∷◌, ◌++◌,
  append-nil, append_assoc, arith, retain, Text, text_eq, text_eq_iff, Bool-cases, All, Dict,
}
use cross_host_ops.SessionCache.{
  ShellKey, CachedShellEntry, keys_of, push_key, index_from, pop_expired, is_expired, first_expired,
}
use cross_host_ops.SessionCache.Keys.{Ordered, live, keys_at, All-map, live-retain, retain-keys_at}
use cross_host_ops.SessionCache.Valid.{Valid, keys_of-insert}

retain_every {ℓ} :
    {A : Type ℓ} (p : A → Bool) (xs : List A) → All (λ x. p x ≡ true) xs → retain p xs ≡ xs
retain_every p [] h = refl
retain_every p (x ∷ xs) h = rw (h.0, retain_every p xs h.1) refl

All-always {ℓ κ} : {A : Type ℓ} (P : A → Type κ) (xs : List A) → ((x : A) → P x) → All P xs
All-always P [] f = tt
All-always P (x ∷ xs) f = (f x, All-always P xs f)

keys_of-push_key :
    (e : CachedShellEntry) (by_ip : Dict (List ShellKey)) (j : Text)
    → keys_of j (push_key e.ip e.key by_ip) ≡ keys_of j by_ip ++ keys_at j (e ∷ [])
keys_of-push_key e by_ip j =
    let at = keys_of-insert e.ip j (keys_of e.ip by_ip ++ (e.key ∷ [])) by_ip in
    elim (Bool-cases (text_eq e.ip j)) [
      | inl t ↦ at ∙ rw t (ap (λ i. keys_of i by_ip ++ (e.key ∷ [])) ((text_eq_iff e.ip j).0 t))
      | inr t ↦ at ∙ rw t (sym (append-nil _))
    ]

keys_at-cons :
    (j : Text) (e : CachedShellEntry) (shells : List CachedShellEntry)
    → keys_at j (e ∷ []) ++ keys_at j shells ≡ keys_at j (e ∷ shells)
keys_at-cons j e shells = elim (Bool-cases (text_eq e.ip j)) [
  | inl t ↦ rw t refl
  | inr t ↦ rw t refl
]

keys_of-index_from :
    (by_ip : Dict (List ShellKey)) (shells : List CachedShellEntry) (j : Text)
    → keys_of j (index_from by_ip shells) ≡ keys_of j by_ip ++ keys_at j shells
unfolding index_from
keys_of-index_from by_ip [] j = sym (append-nil _)
keys_of-index_from by_ip (e ∷ shells) j =
    keys_of-index_from (push_key e.ip e.key by_ip) shells j
    ∙ ap (λ k. k ++ keys_at j shells) (keys_of-push_key e by_ip j)
    ∙ append_assoc (keys_of j by_ip) (keys_at j (e ∷ [])) (keys_at j shells)
    ∙ ap (◌++◌ (keys_of j by_ip)) (keys_at-cons j e shells)

all_live :
    (shells : List CachedShellEntry) → Ordered shells → All (λ e. live shells e.key ≡ true) shells
all_live shells ord =
    let every = retain_every (λ x. true) shells (All-always _ shells (λ x. refl)) in
    subst (λ q. All (λ e. live q e.key ≡ true) shells) every (live-retain (λ x. true) shells ord)

keys_at-All {κ} :
    (P : ShellKey → Type κ) (j : Text) (shells : List CachedShellEntry)
    → All (λ e. P e.key) shells
    → All P (keys_at j shells)
keys_at-All P j [] h = tt
keys_at-All P j (e ∷ shells) h = elim (Bool-cases (text_eq e.ip j)) [
  | inl t ↦ rw t (h.0, keys_at-All P j shells h.1)
  | inr t ↦ rw t (keys_at-All P j shells h.1)
]

-- An index that is built anew is right.
pub index_from-Valid :
    (clock : ℕ) (shells : List CachedShellEntry) (by_ip : Dict (List ShellKey)) (next : ℕ)
    → Valid clock shells by_ip next
    → Valid clock shells (index_from [] shells) next
index_from-Valid clock shells by_ip next v =
    let every = retain_every (λ x. true) shells (All-always _ shells (λ x. refl)) in
    record {
      ordered = v.ordered;
      bounded = v.bounded;
      indexed = λ j.
          ap (retain (live shells)) (keys_of-index_from [] shells j)
          ∙ retain-keys_at (live shells) (λ x. true) j shells (all_live shells v.ordered)
          ∙ ap (keys_at j) every;
      fresh = λ j.
          subst (All (λ k. k.id < next)) (sym (keys_of-index_from [] shells j))
            (keys_at-All (λ k. k.id < next) j shells (All-map _ _ shells (λ x b. b.0) v.bounded));
    }

-- Behind an entry that is not expired none is.
pub pop_expired-retain :
    (now idle : ℕ) (shells : List CachedShellEntry)
    → Ordered shells
    → pop_expired now idle shells ≡ retain (λ e. not (is_expired now idle e)) shells
unfolding pop_expired
pop_expired-retain now idle [] ord = refl
pop_expired-retain now idle (e ∷ shells) ord = elim (Bool-cases (is_expired now idle e)) [
  | inl x ↦ rw x (pop_expired-retain now idle shells ord.1)
  | inr x ↦
      let later =
        All-map _ (λ y. not (is_expired now idle y) ≡ true) shells (λ y b. ground arith) ord.0 in
      rw x (sym (ap (◌∷◌ e) (retain_every _ shells later)))
]

pub pop_expired-none :
    (now idle : ℕ) (shells : List CachedShellEntry)
    → first_expired now idle shells ≡ false
    → pop_expired now idle shells ≡ shells
unfolding pop_expired
pop_expired-none now idle [] h = refl
pop_expired-none now idle (e ∷ shells) h = rw h refl
