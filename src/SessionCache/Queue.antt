-- ===== src/SessionCache/Queue.antt =====
-- The queue that the cache stands for: its entries in the order of their last use, and no index.
use cross_host_ops.Base.{
  ℕ, suc, ◌-◌, ◌≤◌, ◌<◌, not, List, [], ◌∷◌, ◌++◌, Option, none, some, length, drop, retain,
}
use cross_host_ops.SessionCache.{
  CachedShellEntry, SessionCache, is_expired, Call, checkout_call, insert_call, prune_call,
  clear_call, step,
}
use cross_host_ops.SessionCache.Newest.{take_newest}

-- The entries, oldest first, and the next id.
abbrev pub Queue : Type 0
Queue = List CachedShellEntry × ℕ

-- A limit drops the oldest entries until one more fits.
abbrev pub fitting : Option ℕ → List CachedShellEntry → List CachedShellEntry
fitting none q = q
fitting (some max) q = drop (suc (length q) - max) q

abbrev pub give :
    List CachedShellEntry
    → Option (CachedShellEntry × List CachedShellEntry)
    → List CachedShellEntry × Option ℕ
give q none = (q, none)
give q (some (e, others)) = (others, some e.shell)

-- A checkout gives the shell of the address that was used last, an insertion puts it behind all
-- others, and pruning keeps those that are not expired.
unfoldable pub queue_step : Option ℕ → Queue → Call → Queue × Option ℕ
queue_step limit (q, n) (checkout_call ip) = let (q', r) = give q (take_newest ip q) in ((q', n), r)
queue_step limit (q, n) (insert_call ip shell now) =
    let e : CachedShellEntry = record {
      key = record { last_used = now; id = n };
      ip = ip;
      shell = shell;
    } in
    ((fitting limit q ++ (e ∷ []), suc n), none)
queue_step limit (q, n) (prune_call now idle) =
    ((retain (λ e. not (is_expired now idle e)) q, n), none)
queue_step limit (q, n) clear_call = (([], n), none)

abbrev pub HasRoom : Option ℕ → Type 0
HasRoom none = Unit
HasRoom (some max) = 0 < max

abbrev pub time_of : ℕ → Call → ℕ
time_of clock (insert_call ip shell now) = now
time_of clock (checkout_call ip) = clock
time_of clock (prune_call now idle) = clock
time_of clock clear_call = clock

-- The shells that the checkouts among the calls give; nothing, where a call does not return.
unfoldable pub run : SessionCache → List Call → Option (List (Option ℕ))
run s [] = some []
run s (call ∷ calls) = elim (step s call) [
  | none ↦ none
  | some (s', r) ↦ elim (run s' calls) [ none ↦ none | some rs ↦ some (r ∷ rs) ]
]

unfoldable pub queue_run : Option ℕ → Queue → List Call → List (Option ℕ)
queue_run limit q [] = []
queue_run limit q (call ∷ calls) =
    let (q', r) = queue_step limit q call in r ∷ queue_run limit q' calls

abbrev pub InOrder : ℕ → List Call → Type 0
InOrder clock [] = Unit
InOrder clock (call ∷ calls) = (clock ≤ time_of clock call) × InOrder (time_of clock call) calls
