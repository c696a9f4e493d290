-- ===== src/SessionCache/Refines.antt =====
-- The cache implements the queue.
use cross_host_ops.Base.{ℕ, ◌≡◌, refl, sym, ap, ◌∙◌, subst, List, [], ◌∷◌, Option, some}
use cross_host_ops.SessionCache.{SessionCache, new, Call}
use cross_host_ops.SessionCache.Valid.{Valid, empty-Valid}
use cross_host_ops.SessionCache.Queue.{queue_step, HasRoom, time_of, run, queue_run, InOrder}
use cross_host_ops.SessionCache.Step.{step-Simulates}

run-queue_run_from :
    (limit : Option ℕ) (clock : ℕ) (s : SessionCache) (calls : List Call)
    → HasRoom limit
    → s.max_cached_sessions ≡ limit
    → InOrder clock calls
    → Valid clock s.shells s.by_ip s.next_id
    → run s calls ≡ some (queue_run limit (s.shells, s.next_id) calls)
unfolding run queue_run
run-queue_run_from limit clock s [] room same order v = refl
run-queue_run_from limit clock s (call ∷ calls) room same order v =
    let (s', r, stepped, simulated, v', kept) =
      step-Simulates clock s call (subst HasRoom (sym same) room) order.0 v in
    let simulated' = ap (λ l. queue_step l (s.shells, s.next_id) call) (sym same) ∙ simulated in
    let rest =
      run-queue_run_from limit (time_of clock call) s' calls room (kept ∙ same) order.1 v' in
    rw (stepped, rest, simulated', run) refl

-- For a limit that is not 0, and calls in the order of time: every call on a new cache returns, and
-- the checkouts give what the queue without an index gives.
pub run-queue_run :
    (limit : Option ℕ) (calls : List Call)
    → HasRoom limit
    → InOrder 0 calls
    → run (new limit) calls ≡ some (queue_run limit ([], 0) calls)
unfolding new
run-queue_run limit calls room order =
    run-queue_run_from limit 0 (new limit) calls room refl order (empty-Valid 0 0)
