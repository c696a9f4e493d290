-- ===== src/SessionCache/Tests.antt =====
-- A few calls on a cache of one entry and of two.
use cross_host_ops.Base.{◌≡◌, ◌≤◌, refl, List, [], ◌∷◌, length, none, some, arith, Text, codes}
use cross_host_ops.SessionCache.{
  SessionCache, new, Call, checkout_call, insert_call, prune_call, clear_call, insert_shell,
}
use cross_host_ops.SessionCache.Queue.{run, queue_run, queue_step}
use cross_host_ops.SessionCache.Evict.{evict_stuck, entry_of, insert_shell_bounded}
use cross_host_ops.SessionCache.Refines.{run-queue_run}
use cross_host_ops.SessionCache

abbrev web : Text
web = codes "10.0.0.1"

abbrev db : Text
db = codes "10.0.0.2"

-- The third insertion evicts the first shell.
abbrev calls : List Call
calls =
    insert_call web 1 10
    ∷ insert_call db 2 11
    ∷ insert_call web 3 12
    ∷ checkout_call web
    ∷ checkout_call web
    ∷ prune_call 50 10
    ∷ checkout_call db
    ∷ []

run-queue_run_example : run (new (some 2)) calls ≡ some (queue_run (some 2) ([], 0) calls)
run-queue_run_example = run-queue_run (some 2) calls (omega arith) (omega arith)

given : queue_run (some 2) ([], 0) calls ≡ none ∷ none ∷ none ∷ some 3 ∷ none ∷ none ∷ none ∷ []
unfolding queue_run queue_step
given = refl

evict_stuck_example : SessionCache.evict 100 0 [] ≡ none
evict_stuck_example = evict_stuck 100 []

abbrev one_shell : SessionCache
one_shell = record {
  shells = record { key = record { last_used = 9; id = 0 }; ip = web; shell = 1 } ∷ [];
  by_ip = [];
  next_id = 1;
  max_cached_sessions = some 1;
}

insert_shell_bounded_example :
    (s' : SessionCache) × (insert_shell db 2 10 one_shell ≡ some s')
    × (s'.shells ≡ entry_of db 2 10 one_shell ∷ [])
    × (length s'.shells ≤ 1)
unfolding SessionCache.insert_entry
insert_shell_bounded_example = insert_shell_bounded one_shell 1 db 2 10 (omega arith) refl
