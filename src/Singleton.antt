-- ===== src/Singleton.antt =====
-- `ManagedSingleton` of src/daemon/connection_manager.rs: one shared connection, made anew when it
-- was invalidated. Each method holds the lock throughout, so it is one event. A resource is known
-- by the number of resources made before it, which stands for the identity of its `Arc`; the leases
-- are those that are held, so the strong count of the entry's resource is their number and one.
pub mod Leases
mod Tests
use cross_host_ops.Base.{
  ℕ, zero, suc, ◌+◌, ◌-◌, ◌^◌, Bool, true, false, ◌&&◌, List, [], ◌∷◌, Option, none, some, length,
  any, retain, ltb, ◌==◌, if◌then◌else◌,
}
use cross_host_ops.Pool.{saturating_suc}

pub record SingletonEntry : Type 0 where
  pub resource : ℕ
  pub generation : ℕ
  pub last_used : ℕ

pub record SingletonLease : Type 0 where
  pub resource : ℕ
  pub generation : ℕ

pub record Singleton : Type 0 where
  pub inner : Option SingletonEntry
  pub next_generation : ℕ
  pub made : ℕ
  pub leases : List SingletonLease

pub new : Singleton
new = record { inner = none; next_generation = 1; made = 0; leases = [] }

abbrev pub lease_of : SingletonEntry → SingletonLease
lease_of e = record { resource = e.resource; generation = e.generation }

-- `last_used` is set, and a lease is handed out.
abbrev pub lend : ℕ → SingletonEntry → Singleton → Singleton
lend now e s = record s {
  inner = some (record e { last_used = now });
  leases = lease_of e ∷ s.leases;
}

abbrev pub made_now : ℕ → Singleton → SingletonEntry
made_now now s = record { resource = s.made; generation = s.next_generation; last_used = now }

-- `created` says whether `create` succeeds, if it is called.
pub checkout_or_insert : ℕ → Bool → Singleton → Singleton
checkout_or_insert now created s = elim s.inner [
  | some e ↦ lend now e s
  | none ↦
      if created
      then record {
        inner = some (made_now now s);
        next_generation = saturating_suc s.next_generation;
        made = suc s.made;
        leases = lease_of (made_now now s) ∷ s.leases;
      }
      else s
]

pub invalidate_generation : ℕ → Singleton → Singleton × Bool
invalidate_generation generation s = elim s.inner [
  | none ↦ (s, false)
  | some e ↦ if e.generation == generation then (record s { inner = none }, true) else (s, false)
]

pub checkout_generation : ℕ → ℕ → Singleton → Singleton
checkout_generation generation now s = elim s.inner [
  | none ↦ s
  | some e ↦ if e.generation == generation then lend now e s else s
]

-- Leases of a resource that are held.
abbrev pub held : ℕ → List SingletonLease → List SingletonLease
held resource leases = retain (λ l. l.resource == resource) leases

abbrev pub strong_count : SingletonEntry → Singleton → ℕ
strong_count e s = suc (length (held e.resource s.leases))

pub prune_idle : ℕ → ℕ → Singleton → Singleton × Bool
prune_idle now max_idle s = elim s.inner [
  | none ↦ (s, false)
  | some e ↦
      if strong_count e s == 1 && ltb max_idle (now - e.last_used)
      then (record s { inner = none }, true)
      else (s, false)
]

pub remove_at : ℕ → List SingletonLease → List SingletonLease
remove_at n [] = []
remove_at zero (l ∷ leases) = leases
remove_at (suc n) (l ∷ leases) = l ∷ remove_at n leases

pub clone_at : ℕ → List SingletonLease → List SingletonLease
clone_at n [] = []
clone_at zero (l ∷ leases) = l ∷ l ∷ leases
clone_at (suc n) (l ∷ leases) = l ∷ clone_at n leases

-- An event; `clone_lease` and `drop_lease` are about the lease at a place.
pub data Event : Type 0 where
  checkout_event : ℕ → Bool → Event
  generation_event : ℕ → ℕ → Event
  invalidate_event : ℕ → Event
  prune_event : ℕ → ℕ → Event
  clone_lease : ℕ → Event
  drop_lease : ℕ → Event

pub step : Singleton → Event → Singleton
unfolding checkout_or_insert checkout_generation invalidate_generation prune_idle clone_at remove_at
step s (checkout_event now created) = checkout_or_insert now created s
step s (generation_event generation now) = checkout_generation generation now s
step s (invalidate_event generation) = (invalidate_generation generation s).0
step s (prune_event now max_idle) = (prune_idle now max_idle s).0
step s (clone_lease n) = record s { leases = clone_at n s.leases }
step s (drop_lease n) = record s { leases = remove_at n s.leases }

pub run : Singleton → List Event → Singleton
unfolding step
run s [] = s
run s (event ∷ events) = run (step s event) events
