-- ===== src/Pool/Capacity.antt =====
-- The permits of the pool: none is lost, and no key has more connections than the capacity.
use cross_host_ops.Base.{
  ℕ, suc, ◌+◌, ◌≤◌, max, ◌≡◌, refl, ap, subst, ◌∙◌, inl, inr, List, [], ◌∷◌, Option, none, some,
  arith, length, leb, Text, text_eq_refl, Bool-cases, Option-cases,
}
use cross_host_ops.Pool.{
  PoolEntry, PoolState, PoolLease, System, Event, checks_out, created, create_failed, returns,
  discards, invalidates, discards_idle_where, prunes, pick, new, or_new, invalidate_slot,
  checkout_idle, try_create, checkout_state, checkout_or_create, finish_create, fail_create,
  return_healthy, discard, invalidate_generation, discard_idle_where, prune_idle_with, on_pick,
  step, run,
}
use cross_host_ops.Pool.Slots.{
  count-pick, owners, IsSound, IsValid, or_new-IsSound, sweep-IsSound, set-IsSound,
  invalidate_slot-IsSound, discard_slot-IsSound,
}

pub new-IsValid : (T : Type 0) (capacity max_idle : ℕ) → IsValid (new {T = T} capacity max_idle)
unfolding new
new-IsValid T capacity max_idle = (omega arith, λ k. refl)

module _ {T : Type 0} where
  checkout_state-IsValid :
      (s : System T) (key : Text) (st : PoolState T) (idle : List (PoolEntry T))
      → st.idle ≡ idle
      → IsSound s.capacity (some st) (owners s key)
      → IsValid s
      → IsValid (checkout_state s key st idle)
  unfolding checkout_state checkout_idle try_create
  checkout_state-IsValid s key st [] e sound (c, h) = elim (Bool-cases (leb 1 st.free)) [
    | inl free ↦
        rw (free, try_create)
          (
            c,
            set-IsSound s.capacity key _ s.inner
                (λ k. owners (record s { creating = key ∷ s.creating }) k)
                (let same = text_eq_refl key in ground arith)
                (λ k ne. let old = h k in ground arith),
          )
    | inr full ↦
        rw (full, try_create)
          (c, set-IsSound s.capacity key _ s.inner (owners s) sound (λ k ne. h k))
  ]
  checkout_state-IsValid s key st (x ∷ xs) e sound (c, h) = (
    c,
    set-IsSound s.capacity key _ s.inner
        (λ k.
          owners
            (record s {
              held =
                  record { key = key; resource = x.resource; generation = x.generation } ∷ s.held;
            })
            k)
        (let same = text_eq_refl key in let longer = ap length e in ground arith)
        (λ k ne. let old = h k in ground arith),
  )

  checkout_or_create-IsValid :
      (s : System T) (key : Text) → IsValid s → IsValid (checkout_or_create s key)
  unfolding checkout_or_create
  checkout_or_create-IsValid s key h =
      let st = or_new s.capacity (s.inner key) in
      checkout_state-IsValid s key st st.idle refl
        (or_new-IsSound s.capacity (owners s key) (s.inner key) h.0 (h.1 key)) h

  finish_create-IsValid :
      (s : System T) (r : T) (i : ℕ) (key : Text) (rest : List Text)
      → pick i s.creating ≡ some (key, rest)
      → IsValid s
      → IsValid (finish_create s r (key, rest))
  unfolding finish_create
  finish_create-IsValid s r i key rest e (c, h) = (
    c,
    set-IsSound s.capacity key _ s.inner (λ k. owners (finish_create s r (key, rest)) k)
        (let sound = or_new-IsSound s.capacity (owners s key) (s.inner key) c (h key) in
          let same = text_eq_refl key in
          let fewer = count-pick (λ j. j) key i s.creating key rest e in ground arith)
        (λ k ne.
          let old = h k in
          let fewer = count-pick (λ j. j) k i s.creating key rest e in ground arith),
  )

  fail_create-IsValid :
      (s : System T) (i : ℕ) (key : Text) (rest : List Text)
      → pick i s.creating ≡ some (key, rest)
      → IsValid s
      → IsValid (fail_create s (key, rest))
  unfolding fail_create
  fail_create-IsValid s i key rest e (c, h) = (
    c,
    set-IsSound s.capacity key _ s.inner (λ k. owners (fail_create s (key, rest)) k)
        (let sound = h key in
          let same = text_eq_refl key in
          let fewer = count-pick (λ j. j) key i s.creating key rest e in ground arith)
        (λ k ne.
          let old = h k in
          let fewer = count-pick (λ j. j) k i s.creating key rest e in ground arith),
  )

  return_healthy-IsValid :
      (s : System T) (now i : ℕ) (l : PoolLease T) (rest : List (PoolLease T))
      → pick i s.held ≡ some (l, rest)
      → IsValid s
      → IsValid (return_healthy s now (l, rest))
  unfolding return_healthy
  return_healthy-IsValid s now i l rest e (c, h) = (
    c,
    set-IsSound s.capacity l.key _ s.inner (λ k. owners (return_healthy s now (l, rest)) k)
        (let sound = or_new-IsSound s.capacity (owners s l.key) (s.inner l.key) c (h l.key) in
          let same = text_eq_refl l.key in
          let fewer = count-pick (λ x. x.key) l.key i s.held l rest e in ground arith)
        (λ k ne.
          let old = h k in let fewer = count-pick (λ x. x.key) k i s.held l rest e in ground arith),
  )

  discard-IsValid :
      (s : System T) (i : ℕ) (l : PoolLease T) (rest : List (PoolLease T))
      → pick i s.held ≡ some (l, rest)
      → IsValid s
      → IsValid (discard s (l, rest))
  unfolding discard
  discard-IsValid s i l rest e (c, h) = (
    c,
    set-IsSound s.capacity l.key _ s.inner (λ k. owners (discard s (l, rest)) k)
        (let same = text_eq_refl l.key in
          let fewer = count-pick (λ x. x.key) l.key i s.held l rest e in
          let eq : owners s l.key ≡ suc (owners (discard s (l, rest)) l.key) = ground arith in
          discard_slot-IsSound s.capacity _ (s.inner l.key)
            (subst (IsSound s.capacity (s.inner l.key)) eq (h l.key)))
        (λ k ne.
          let old = h k in let fewer = count-pick (λ x. x.key) k i s.held l rest e in ground arith),
  )

  invalidate_generation-IsValid :
      (s : System T) (key : Text) (g : ℕ) → IsValid s → IsValid (invalidate_generation s key g)
  unfolding invalidate_generation
  invalidate_generation-IsValid s key g (c, h) = (
    c,
    set-IsSound s.capacity key (invalidate_slot g (s.inner key)) s.inner (owners s)
        (invalidate_slot-IsSound s.capacity (owners s key) g (s.inner key) (h key)) (λ k ne. h k),
  )

  -- With the lock turns of one checkout taken as one event, and no creation abandoned: whatever
  -- happens, the permits of each key stay accounted for: its capacity is what is free, what the
  -- leases and the running creations hold, and what is idle.
  pub step-IsValid : (s : System T) (e : Event T) → IsValid s → IsValid (step s e)
  unfolding step discard_idle_where prune_idle_with
  step-IsValid s (checks_out k) h = checkout_or_create-IsValid s k h
  step-IsValid s (created i r) h = elim (Option-cases (pick i s.creating)) [
    | inl e ↦ rw (e, step) h
    | inr ((k, rest), e) ↦ rw (e, step) (finish_create-IsValid s r i k rest e h)
  ]
  step-IsValid s (create_failed i) h = elim (Option-cases (pick i s.creating)) [
    | inl e ↦ rw (e, step) h
    | inr ((k, rest), e) ↦ rw (e, step) (fail_create-IsValid s i k rest e h)
  ]
  step-IsValid s (returns i now) h = elim (Option-cases (pick i s.held)) [
    | inl e ↦ rw (e, step) h
    | inr ((l, rest), e) ↦ rw (e, step) (return_healthy-IsValid s now i l rest e h)
  ]
  step-IsValid s (discards i) h = elim (Option-cases (pick i s.held)) [
    | inl e ↦ rw (e, step) h
    | inr ((l, rest), e) ↦ rw (e, step) (discard-IsValid s i l rest e h)
  ]
  step-IsValid s (invalidates k g) h = invalidate_generation-IsValid s k g h
  step-IsValid s (discards_idle_where p) (c, h) = (c, λ k. sweep-IsSound _ _ _ (s.inner k) (h k))
  step-IsValid s (prunes now alive) (c, h) = (c, λ k. sweep-IsSound _ _ _ (s.inner k) (h k))

  run-IsValid : (s : System T) (es : List (Event T)) → IsValid s → IsValid (run s es)
  unfolding run
  run-IsValid s [] h = h
  run-IsValid s (e ∷ es) h = run-IsValid (step s e) es (step-IsValid s e h)

  abbrev pub idle_count : Option (PoolState T) → ℕ
  idle_count none = 0
  idle_count (some st) = length st.idle

  checkout_state-capacity :
      (s : System T) (k : Text) (st : PoolState T) (idle : List (PoolEntry T))
      → (checkout_state s k st idle).capacity ≡ s.capacity
  unfolding checkout_state checkout_idle try_create
  checkout_state-capacity s k st [] = ground arith
  checkout_state-capacity s k st (e ∷ es) = refl

  on_pick-capacity {ℓ} :
      {A : Type ℓ} (s : System T) (f : A → System T) (o : Option A)
      → ((a : A) → (f a).capacity ≡ s.capacity)
      → (on_pick s f o).capacity ≡ s.capacity
  on_pick-capacity s f none h = refl
  on_pick-capacity s f (some a) h = h a

  step-capacity : (s : System T) (e : Event T) → (step s e).capacity ≡ s.capacity
  unfolding step checkout_or_create invalidate_generation discard_idle_where prune_idle_with
      finish_create fail_create return_healthy discard
  step-capacity s (checks_out k) =
      checkout_state-capacity s k (or_new s.capacity (s.inner k))
        (or_new s.capacity (s.inner k)).idle
  step-capacity s (created i r) = on_pick-capacity s _ (pick i s.creating) (λ a. refl)
  step-capacity s (create_failed i) = on_pick-capacity s _ (pick i s.creating) (λ a. refl)
  step-capacity s (returns i now) = on_pick-capacity s _ (pick i s.held) (λ a. refl)
  step-capacity s (discards i) = on_pick-capacity s _ (pick i s.held) (λ a. refl)
  step-capacity s (invalidates k g) = refl
  step-capacity s (discards_idle_where p) = refl
  step-capacity s (prunes now alive) = refl

  run-capacity : (s : System T) (es : List (Event T)) → (run s es).capacity ≡ s.capacity
  unfolding run
  run-capacity s [] = refl
  run-capacity s (e ∷ es) = run-capacity (step s e) es ∙ step-capacity s e

  IsSound-le : (cap n : ℕ) (o : Option (PoolState T)) → IsSound cap o n → n + idle_count o ≤ cap
  IsSound-le cap n none h = ground arith
  IsSound-le cap n (some st) h = ground arith

  -- With the lock turns of one checkout taken as one event, and no creation abandoned, from an
  -- empty pool, whatever happens: the leases held, the creations that run and the idle entries of a
  -- key are never more than the capacity, or than one if the capacity is zero.
  pub run_bounded :
      (capacity max_idle : ℕ) (es : List (Event T)) (k : Text)
      → owners (run (new capacity max_idle) es) k
          + idle_count ((run (new capacity max_idle) es).inner k)
        ≤ max capacity 1
  unfolding new
  run_bounded capacity max_idle es k =
      let valid = run-IsValid (new capacity max_idle) es (new-IsValid T capacity max_idle) in
      let same = run-capacity (new {T = T} capacity max_idle) es in
      let bound = IsSound-le _ _ ((run (new capacity max_idle) es).inner k) (valid.1 k) in
      ground arith
