-- ===== src/Pool/Tests.antt =====
-- Runs of the pool, with numbers as resources.
use cross_host_ops.Base.{ℕ, ◌+◌, ◌≤◌, ◌≡◌, refl, List, [], ◌∷◌, Text, codes}
use cross_host_ops.Pool.{
  PoolLease, System, Event, checks_out, created, returns, new, pick, checkout_or_create,
  return_healthy, finish_create, step, run,
}
use cross_host_ops.Pool.Slots.{owners, IsValid}
use cross_host_ops.Pool.Capacity.{step-IsValid, new-IsValid, run_bounded, idle_count}

abbrev key : Text
key = codes "10.0.0.1:22"

abbrev start : System ℕ
start = new 1 60

abbrev events : List (Event ℕ)
events = checks_out key ∷ created 0 7 ∷ checks_out key ∷ returns 0 5 ∷ checks_out key ∷ []

abbrev lease : PoolLease ℕ
lease = record { key = key; resource = 7; generation = 1 }

-- With a capacity of one, the second checkout has to wait, and the third gets the connection back.
reused : (run start events).held ≡ lease ∷ []
unfolding run step new checkout_or_create return_healthy pick finish_create
reused = refl

run_bounded_example : owners (run start events) key + idle_count ((run start events).inner key) ≤ 1
run_bounded_example = run_bounded 1 60 events key

step-IsValid_example : IsValid (step start (checks_out key))
step-IsValid_example = step-IsValid start (checks_out key) (new-IsValid ℕ 1 60)
