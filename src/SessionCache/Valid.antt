-- ===== src/SessionCache/Valid.antt =====
-- The invariant of the cache, and that each operation keeps it.
use cross_host_ops.Base.{
  ℕ, zero, suc, ◌≤◌, ◌<◌, ◌≡◌, refl, sym, ap, ◌∙◌, subst, inl, inr, Bool, not, List, [], ◌∷◌, drop,
  retain, if◌then◌else◌, Text, text_eq, text_eq_iff, Bool-cases, All, Dict, insert, remove,
  lookup-insert, lookup-remove,
}
use cross_host_ops.SessionCache.{
  ShellKey, CachedShellEntry, key_eq, remove_key, is_nil, or_default, keys_of,
}
use cross_host_ops.SessionCache.Keys.{
  Ordered, live, keys_at, All-retain, retain-Ordered, remove_key-older, key_eq_self, Indexed-retain,
  ids_of,
}

-- By the time `clock`: the entries are ordered, with ids below the next one and no later use, and
-- for each address the live keys of the index, in their order, are those of its entries.
pub record Valid (clock : ℕ) (shells : List CachedShellEntry) (by_ip : Dict (List ShellKey))
    (next : ℕ) : Type 0 where
  pub ordered : Ordered shells
  pub bounded : All (λ e. (e.key.id < next) × (e.key.last_used ≤ clock)) shells
  pub indexed : (ip : Text) → retain (live shells) (keys_of ip by_ip) ≡ keys_at ip shells
  pub fresh : (ip : Text) → All (λ k. k.id < next) (keys_of ip by_ip)

-- Entries may go without the index.
pub retain-Valid :
    (p : CachedShellEntry → Bool) (clock : ℕ) (shells : List CachedShellEntry)
    (by_ip : Dict (List ShellKey)) (next : ℕ)
    → Valid clock shells by_ip next
    → Valid clock (retain p shells) by_ip next
retain-Valid p clock shells by_ip next v = record {
  ordered = retain-Ordered p shells v.ordered;
  bounded = All-retain _ p shells v.bounded;
  indexed = λ ip. Indexed-retain p ip (keys_of ip by_ip) shells v.ordered (v.indexed ip);
  fresh = v.fresh;
}

tail-Valid :
    (clock : ℕ) (e : CachedShellEntry) (shells : List CachedShellEntry)
    (by_ip : Dict (List ShellKey)) (next : ℕ)
    → Valid clock (e ∷ shells) by_ip next
    → Valid clock shells by_ip next
tail-Valid clock e shells by_ip next v =
    let gone : remove_key e.key (e ∷ shells) ≡ shells =
      rw (key_eq_self e.key) (remove_key-older e.key shells (ids_of e shells v.ordered.0)) in
    subst (λ q. Valid clock q by_ip next) gone
      (retain-Valid (λ x. not (key_eq x.key e.key)) clock (e ∷ shells) by_ip next v)

pub drop-Valid :
    (n clock : ℕ) (shells : List CachedShellEntry) (by_ip : Dict (List ShellKey)) (next : ℕ)
    → Valid clock shells by_ip next
    → Valid clock (drop n shells) by_ip next
drop-Valid zero clock shells by_ip next v = v
drop-Valid (suc n) clock [] by_ip next v = v
drop-Valid (suc n) clock (e ∷ shells) by_ip next v =
    drop-Valid n clock shells by_ip next (tail-Valid clock e shells by_ip next v)

-- The index after a call: the keys of one address are replaced.
abbrev pub set_keys : Text → List ShellKey → Dict (List ShellKey) → Dict (List ShellKey)
set_keys ip keys by_ip = if is_nil keys then remove ip by_ip else insert ip keys by_ip

pub keys_of-insert :
    (ip j : Text) (keys : List ShellKey) (by_ip : Dict (List ShellKey))
    → keys_of j (insert ip keys by_ip) ≡ (if text_eq ip j then keys else keys_of j by_ip)
keys_of-insert ip j keys by_ip =
    ap or_default (lookup-insert ip j keys by_ip)
    ∙ elim (Bool-cases (text_eq ip j)) [ inl e ↦ rw e refl | inr e ↦ rw e refl ]

keys_of-remove :
    (ip j : Text) (by_ip : Dict (List ShellKey))
    → keys_of j (remove ip by_ip) ≡ (if text_eq ip j then [] else keys_of j by_ip)
keys_of-remove ip j by_ip =
    ap or_default (lookup-remove ip j by_ip)
    ∙ elim (Bool-cases (text_eq ip j)) [ inl e ↦ rw e refl | inr e ↦ rw e refl ]

keys_of-set_keys :
    (ip j : Text) (keys : List ShellKey) (by_ip : Dict (List ShellKey))
    → keys_of j (set_keys ip keys by_ip) ≡ (if text_eq ip j then keys else keys_of j by_ip)
keys_of-set_keys ip j [] by_ip = keys_of-remove ip j by_ip
keys_of-set_keys ip j (k ∷ keys) by_ip = keys_of-insert ip j (k ∷ keys) by_ip

-- A property of the keys of each address, where those of one are replaced.
by_address {κ} :
    (P : Text → List ShellKey → Type κ) (ip : Text) (keys : List ShellKey)
    (by_ip by_ip' : Dict (List ShellKey))
    → ((j : Text) → keys_of j by_ip' ≡ (if text_eq ip j then keys else keys_of j by_ip))
    → P ip keys
    → ((j : Text) → P j (keys_of j by_ip))
    → (j : Text) → P j (keys_of j by_ip')
by_address P ip keys by_ip by_ip' eq here there j = elim (Bool-cases (text_eq ip j)) [
  | inl e ↦
      subst (P j) (sym (eq j ∙ rw e refl)) (subst (λ i. P i keys) ((text_eq_iff ip j).0 e) here)
  | inr e ↦ subst (P j) (sym (eq j ∙ rw e refl)) (there j)
]

pub set_keys-Valid :
    (clock : ℕ) (shells : List CachedShellEntry) (by_ip : Dict (List ShellKey)) (next : ℕ)
    (ip : Text) (keys : List ShellKey)
    → Valid clock shells by_ip next
    → retain (live shells) keys ≡ keys_at ip shells
    → All (λ k. k.id < next) keys
    → Valid clock shells (set_keys ip keys by_ip) next
set_keys-Valid clock shells by_ip next ip keys v indexed fresh =
    let eq = λ (j : Text). keys_of-set_keys ip j keys by_ip in
    record {
      ordered = v.ordered;
      bounded = v.bounded;
      indexed =
          by_address (λ j ks. retain (live shells) ks ≡ keys_at j shells) ip keys by_ip _ eq indexed
            v.indexed;
      fresh = by_address (λ j ks. All (λ k. k.id < next) ks) ip keys by_ip _ eq fresh v.fresh;
    }

pub empty-Valid : (clock next : ℕ) → Valid clock [] [] next
empty-Valid clock next = record {
  ordered = tt;
  bounded = tt;
  indexed = λ ip. refl;
  fresh = λ ip. tt;
}
