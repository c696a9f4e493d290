-- ===== src/Pool.antt =====
-- The keyed connection pool, ManagedPool of src/daemon/connection_manager.rs. A system is the pool,
-- with the leases that callers hold and the creations that run; every event is one turn of a method
-- under the pool's lock. The map is a function from keys to states. A semaphore is the number of
-- its free permits: an entry or a lease owns one permit, which goes back when it is dropped.
--
-- `create` is the caller's code: its outcome is an argument of the event that ends it. `notify`
-- only wakes a waiting checkout, which then begins again with the same event. In the source the
-- three steps of a new creation (`pool_handles`, `try_acquire_owned`, `mark_active`) take the lock
-- one by one; they are one event here, and no event drops a creation before it ends.
pub mod Slots
pub mod Capacity
pub mod Reuse
mod Tests
use cross_host_ops.Base.{
  u64_max, ℕ, zero, suc, ◌+◌, ◌-◌, max, ◌≡◌, Bool, true, false, not, ◌&&◌, ◌||◌, List, [], ◌∷◌,
  ◌++◌, Option, none, some, length, retain, ltb, leb, ◌==◌, if◌then◌else◌, Text, text_eq,
}

pub record PoolEntry (T : Type 0) : Type 0 where
  pub resource : T
  pub generation : ℕ
  pub created_at : ℕ
  pub last_used : ℕ

-- `idle` is a stack: its head is the end of the source's `Vec`, where it pushes and pops.
pub record PoolState (T : Type 0) : Type 0 where
  pub free : ℕ
  pub idle : List (PoolEntry T)
  pub active : ℕ
  pub latest_generation : ℕ

pub record PoolLease (T : Type 0) : Type 0 where
  pub key : Text
  pub resource : T
  pub generation : ℕ

pub record System (T : Type 0) : Type 0 where
  pub inner : Text → Option (PoolState T)
  pub next_generation : ℕ
  pub max_idle : ℕ
  pub capacity : ℕ
  pub held : List (PoolLease T)
  pub creating : List Text

pub data Event (T : Type 0) : Type 0 where
  checks_out : Text → Event T
  created : ℕ → T → Event T
  create_failed : ℕ → Event T
  returns : ℕ → ℕ → Event T
  discards : ℕ → Event T
  invalidates : Text → ℕ → Event T
  discards_idle_where : (T → Bool) → Event T
  prunes : ℕ → (T → Bool) → Event T

-- The largest u64, at which `saturating_add` stops.
abbrev pub saturating_suc : ℕ → ℕ
saturating_suc n = if ltb n u64_max then n + 1 else n

-- The element at an index, and the others.
abbrev pub with_head {ℓ} : {A : Type ℓ} → A → Option (A × List A) → Option (A × List A)
with_head a none = none
with_head a (some (b, rest)) = some (b, a ∷ rest)

pub pick {ℓ} : {A : Type ℓ} → ℕ → List A → Option (A × List A)
pick n [] = none
pick zero (a ∷ bs) = some (a, bs)
pick (suc n) (a ∷ bs) = with_head a (pick n bs)

module _ {T : Type 0} where
  abbrev pub new_state : ℕ → PoolState T
  new_state capacity = record {
    free = max capacity 1;
    idle = [];
    active = 0;
    latest_generation = 0;
  }

  pub new : ℕ → ℕ → System T
  new capacity max_idle = record {
    inner = λ k. none;
    next_generation = 1;
    max_idle = max_idle;
    capacity = max capacity 1;
    held = [];
    creating = [];
  }

  abbrev pub set :
      Text → Option (PoolState T) → (Text → Option (PoolState T)) → Text → Option (PoolState T)
  set k st m j = if text_eq k j then st else m j

  -- `entry(key).or_insert_with(|| PoolState::new(capacity))`.
  abbrev pub or_new : ℕ → Option (PoolState T) → PoolState T
  or_new capacity none = new_state capacity
  or_new capacity (some st) = st

  -- `retain` on the idle entries; each entry that goes gives its permit back.
  abbrev pub retain_idle : (PoolEntry T → Bool) → PoolState T → PoolState T
  retain_idle p st = record st {
    free = st.free + (length st.idle - length (retain p st.idle));
    idle = retain p st.idle;
  }

  abbrev pub no_idle : List (PoolEntry T) → Bool
  no_idle [] = true
  no_idle (e ∷ es) = false

  -- `inner.retain(|_, state| state.active > 0 || !state.idle.is_empty())`.
  abbrev pub drop_unused : PoolState T → Option (PoolState T)
  drop_unused st = if st.active == 0 && no_idle st.idle then none else some st

  abbrev pub sweep : (PoolEntry T → Bool) → Option (PoolState T) → Option (PoolState T)
  sweep p none = none
  sweep p (some st) = drop_unused (retain_idle p st)

  -- The slot of the key behind `discard` and behind the drop of a lease.
  abbrev pub discard_slot : Option (PoolState T) → Option (PoolState T)
  discard_slot none = none
  discard_slot (some st) = drop_unused (record st { free = st.free + 1; active = st.active - 1 })

  pub checkout_idle : System T → Text → PoolState T → List (PoolEntry T) → PoolEntry T → System T
  checkout_idle s k st es e = record s {
    inner =
        set k
          (some (record st {
            idle = es;
            active = st.active + 1;
            latest_generation = max st.latest_generation e.generation;
          }))
          s.inner;
    held = record { key = k; resource = e.resource; generation = e.generation } ∷ s.held;
  }

  -- No entry is idle: a permit starts a creation, and without one the checkout waits.
  pub try_create : System T → Text → PoolState T → System T
  try_create s k st = elim (leb 1 st.free) [
    | true ↦ record s {
      inner = set k (some (record st { free = st.free - 1; active = st.active + 1 })) s.inner;
      creating = k ∷ s.creating;
    }
    | false ↦ record s { inner = set k (some st) s.inner }
  ]

  pub checkout_state : System T → Text → PoolState T → List (PoolEntry T) → System T
  unfolding checkout_idle try_create
  checkout_state s k st [] = try_create s k st
  checkout_state s k st (e ∷ es) = checkout_idle s k st es e

  pub checkout_or_create : System T → Text → System T
  unfolding checkout_state
  checkout_or_create s k = let st = or_new s.capacity (s.inner k) in checkout_state s k st st.idle

  pub finish_create : System T → T → Text × List Text → System T
  finish_create s r (k, rest) =
      let st = or_new s.capacity (s.inner k) in
      record s {
        inner =
            set k
              (some (record st { latest_generation = max st.latest_generation s.next_generation }))
              s.inner;
        next_generation = saturating_suc s.next_generation;
        held = record { key = k; resource = r; generation = s.next_generation } ∷ s.held;
        creating = rest;
      }

  -- `unmark_active_and_notify`, then the permit is dropped. The state stays in the map.
  abbrev pub unmark : Option (PoolState T) → Option (PoolState T)
  unmark none = none
  unmark (some st) = some (record st { free = st.free + 1; active = st.active - 1 })

  pub fail_create : System T → Text × List Text → System T
  fail_create s (k, rest) = record s { inner = set k (unmark (s.inner k)) s.inner; creating = rest }

  pub return_healthy : System T → ℕ → PoolLease T × List (PoolLease T) → System T
  return_healthy s now (l, rest) =
      let st = or_new s.capacity (s.inner l.key) in
      record s {
        inner =
            set l.key
              (some (record st {
                active = st.active - 1;
                latest_generation = max st.latest_generation l.generation;
                idle =
                    (record {
                      resource = l.resource;
                      generation = l.generation;
                      created_at = now;
                      last_used = now;
                    })
                    ∷ st.idle;
              }))
              s.inner;
        held = rest;
      }

  pub discard : System T → PoolLease T × List (PoolLease T) → System T
  discard s (l, rest) = record s {
    inner = set l.key (discard_slot (s.inner l.key)) s.inner;
    held = rest;
  }

  abbrev pub invalidate_slot : ℕ → Option (PoolState T) → Option (PoolState T)
  invalidate_slot g none = none
  invalidate_slot g (some st) = some (retain_idle (λ e. not (e.generation == g)) st)

  pub invalidate_generation : System T → Text → ℕ → System T
  invalidate_generation s k g = record s { inner = set k (invalidate_slot g (s.inner k)) s.inner }

  pub discard_idle_where : System T → (T → Bool) → System T
  discard_idle_where s p = record s { inner = λ k. sweep (λ e. not (p e.resource)) (s.inner k) }

  pub prune_idle_with : System T → ℕ → (T → Bool) → System T
  prune_idle_with s now alive = record s {
    inner = λ k. sweep (λ e. ltb (now - e.last_used) s.max_idle && alive e.resource) (s.inner k);
  }

  abbrev pub on_pick {ℓ} : {A : Type ℓ} → System T → (A → System T) → Option A → System T
  on_pick s f none = s
  on_pick s f (some a) = f a

  -- An index out of range is no lease and no creation: nothing happens.
  pub step : System T → Event T → System T
  unfolding pick
  step s (checks_out k) = checkout_or_create s k
  step s (created i r) = on_pick s (finish_create s r) (pick i s.creating)
  step s (create_failed i) = on_pick s (fail_create s) (pick i s.creating)
  step s (returns i now) = on_pick s (return_healthy s now) (pick i s.held)
  step s (discards i) = on_pick s (discard s) (pick i s.held)
  step s (invalidates k g) = invalidate_generation s k g
  step s (discards_idle_where p) = discard_idle_where s p
  step s (prunes now alive) = prune_idle_with s now alive

  pub run : System T → List (Event T) → System T
  unfolding step
  run s [] = s
  run s (e ∷ es) = run (step s e) es
