-- ===== src/Pool/Slots.antt =====
-- The permits of one key, and the owners of a key among all leases and creations.
use cross_host_ops.Base.{
  ℕ, zero, suc, ◌+◌, ◌-◌, ◌≤◌, ◌≡◌, subst, inl, inr, Bool, false, not, List, [], ◌∷◌, Option, none,
  some, arith, length, ◌==◌, if◌then◌else◌, Text, text_eq, text_eq_iff, Bool-cases, Option-cases,
  length-retain-le,
}
use cross_host_ops.Pool.{
  PoolEntry, PoolState, System, pick, or_new, retain_idle, drop_unused, sweep, discard_slot,
  invalidate_slot, set,
}

-- How many of the things belong to the key.
abbrev pub count {ℓ} : {A : Type ℓ} → (A → Text) → Text → List A → ℕ
count key k [] = 0
count key k (a ∷ bs) = let rest = count key k bs in if text_eq (key a) k then suc rest else rest

pub count-pick {ℓ} :
    {A : Type ℓ} (key : A → Text) (k : Text) (n : ℕ) (bs : List A) (a : A) (rest : List A)
    → pick n bs ≡ some (a, rest)
    → count key k bs ≡ (if text_eq (key a) k then suc (count key k rest) else count key k rest)
unfolding pick
count-pick key k n [] a rest h = cc
count-pick key k zero (b ∷ bs) a rest h = ground arith
count-pick key k (suc n) (b ∷ bs) a rest h = elim (Option-cases (pick n bs)) [
  | inl e ↦ ground arith
  | inr ((c, others), e) ↦ let ih = count-pick key k n bs c others e in ground (arith)
]

module _ {T : Type 0} where
  -- The leases held and the creations that run, for a key.
  abbrev pub owners : System T → Text → ℕ
  owners s k = count (λ l. l.key) k s.held + count (λ j. j) k s.creating

  -- `active` counts the owners, and every permit is free, with an owner or with an idle entry.
  abbrev pub IsSound : ℕ → Option (PoolState T) → ℕ → Type 0
  IsSound cap none n = n ≡ 0
  IsSound cap (some st) n = (st.active ≡ n) × (st.free + st.active + length st.idle ≡ cap)

  abbrev pub IsValid : System T → Type 0
  IsValid s = (1 ≤ s.capacity) × ((k : Text) → IsSound s.capacity (s.inner k) (owners s k))

  pub or_new-IsSound :
      (cap n : ℕ) (o : Option (PoolState T))
      → 1 ≤ cap
      → IsSound cap o n
      → IsSound cap (some (or_new cap o)) n
  or_new-IsSound cap n none c h = ground arith
  or_new-IsSound cap n (some st) c h = h

  pub retain_idle-IsSound :
      (cap n : ℕ) (p : PoolEntry T → Bool) (st : PoolState T)
      → IsSound cap (some st) n
      → IsSound cap (some (retain_idle p st)) n
  retain_idle-IsSound cap n p st h = let le = length-retain-le p st.idle in ground arith

  pub drop_unused-IsSound :
      (cap n : ℕ) (st : PoolState T) → IsSound cap (some st) n → IsSound cap (drop_unused st) n
  drop_unused-IsSound cap n st h = ground arith

  pub sweep-IsSound :
      (cap n : ℕ) (p : PoolEntry T → Bool) (o : Option (PoolState T))
      → IsSound cap o n
      → IsSound cap (sweep p o) n
  sweep-IsSound cap n p none h = h
  sweep-IsSound cap n p (some st) h =
      drop_unused-IsSound cap n (retain_idle p st) (retain_idle-IsSound cap n p st h)

  pub set-IsSound :
      (cap : ℕ) (key : Text) (o : Option (PoolState T)) (m : Text → Option (PoolState T))
      (f : Text → ℕ)
      → IsSound cap o (f key)
      → ((k : Text) → text_eq key k ≡ false → IsSound cap (m k) (f k))
      → (k : Text) → IsSound cap (set key o m k) (f k)
  set-IsSound cap key o m f h rest k = elim (Bool-cases (text_eq key k)) [
    | inl e ↦ rw e (subst (λ j. IsSound cap o (f j)) ((text_eq_iff key k).0 e) h)
    | inr e ↦ rw e (rest k e)
  ]

  pub invalidate_slot-IsSound :
      (cap n g : ℕ) (o : Option (PoolState T))
      → IsSound cap o n
      → IsSound cap (invalidate_slot g o) n
  invalidate_slot-IsSound cap n g none h = h
  invalidate_slot-IsSound cap n g (some st) h =
      retain_idle-IsSound cap n (λ e. not (e.generation == g)) st h

  pub discard_slot-IsSound :
      (cap n : ℕ) (o : Option (PoolState T))
      → IsSound cap o (suc n)
      → IsSound cap (discard_slot o) n
  discard_slot-IsSound cap n none h = ground arith
  discard_slot-IsSound cap n (some st) h =
      drop_unused-IsSound cap n (record st { free = st.free + 1; active = st.active - 1 })
        (ground arith)
