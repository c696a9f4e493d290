-- ===== src/Singleton/Tests.antt =====
-- A run in which the connection is made anew while a lease on the old one is held.
use cross_host_ops.Base.{true, false, List, [], ◌∷◌}
use cross_host_ops.Singleton.{
  SingletonEntry, SingletonLease, Event, checkout_event, invalidate_event, prune_event,
}

abbrev events : List Event
events =
    checkout_event 10 true
    ∷ invalidate_event 1
    ∷ checkout_event 11 false
    ∷ checkout_event 12 true
    ∷ prune_event 90 30
    ∷ []

abbrev old : SingletonLease
old = record { resource = 0; generation = 1 }

abbrev current : SingletonEntry
current = record { resource = 1; generation = 2; last_used = 12 }
