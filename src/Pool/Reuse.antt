-- ===== src/Pool/Reuse.antt =====
-- When a checkout has to wait, and which connection it takes.
use cross_host_ops.Base.{
  ℕ, suc, ◌<◌, ◌≡◌, refl, ap, ◌↔◌, inl, inr, List, [], ◌∷◌, some, arith, length, leb, Text,
  text_eq_refl, Bool-cases,
}
use cross_host_ops.Pool.{
  PoolEntry, PoolState, PoolLease, System, or_new, checkout_idle, try_create, checkout_state,
  checkout_or_create, return_healthy,
}
use cross_host_ops.Pool.Slots.{owners, IsValid, IsSound, or_new-IsSound}

module _ {T : Type 0} where
  checkout_state_progress :
      (s : System T) (key : Text) (st : PoolState T) (idle : List (PoolEntry T))
      → st.idle ≡ idle
      → IsSound s.capacity (some st) (owners s key)
      → (owners (checkout_state s key st idle) key ≡ suc (owners s key))
        ↔ (owners s key < s.capacity)
  unfolding checkout_state checkout_idle try_create
  checkout_state_progress s key st [] e sound =
      let same = text_eq_refl key in
      let none_idle = ap length e in
      elim (Bool-cases (leb 1 st.free)) [
        | inl free ↦ rw (free, try_create) (ground arith)
        | inr full ↦ rw (full, try_create) (ground arith)
      ]
  checkout_state_progress s key st (x ∷ xs) e sound =
      let same = text_eq_refl key in let some_idle = ap length e in ground arith

  -- In a pool whose permits are accounted for, a checkout taken as one event gets a connection of
  -- its key, idle or to be created, exactly if the leases and the creations of that key are fewer
  -- than the capacity.
  checkout_progress :
      (s : System T) (key : Text)
      → IsValid s
      → (owners (checkout_or_create s key) key ≡ suc (owners s key)) ↔ (owners s key < s.capacity)
  unfolding checkout_or_create
  checkout_progress s key h =
      checkout_state_progress s key (or_new s.capacity (s.inner key)) _ refl
        (or_new-IsSound s.capacity (owners s key) (s.inner key) h.0 (h.1 key))

  -- A connection that was just returned is the one that the next checkout of its key gets: the
  -- lease is the same as before, and the others stay.
  checkout-return_healthy :
      (s : System T) (now : ℕ) (l : PoolLease T) (rest : List (PoolLease T))
      → (checkout_or_create (return_healthy s now (l, rest)) l.key).held ≡ l ∷ rest
  unfolding checkout_or_create return_healthy checkout_state checkout_idle
  checkout-return_healthy s now l rest = rw (text_eq_refl l.key) refl
