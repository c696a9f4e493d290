-- ===== src/Singleton/Leases.antt =====
-- What a lease that is held is good for, in every run.
use cross_host_ops.Base.{suc, ◌≡◌, Option, none, some, All}
use cross_host_ops.Singleton.{SingletonEntry, SingletonLease, Singleton}

abbrev pub LeaseNumbered : SingletonLease → Type 0
LeaseNumbered l = l.generation ≡ suc l.resource

abbrev pub EntryNumbered : Option SingletonEntry → Type 0
EntryNumbered none = Unit
EntryNumbered (some e) = e.generation ≡ suc e.resource

-- Generations and resources are counted together.
abbrev pub IsNumbered : Singleton → Type 0
IsNumbered s = (s.next_generation ≡ suc s.made) × EntryNumbered s.inner × All LeaseNumbered s.leases
