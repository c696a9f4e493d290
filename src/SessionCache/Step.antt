-- ===== src/SessionCache/Step.antt =====
-- Each call on the cache does what the queue does, and keeps the invariant.
use cross_host_ops.Base.{
  ℕ, suc, ◌+◌, ◌-◌, ◌≤◌, ◌<◌, ◌≡◌, refl, sym, ap, ◌∙◌, subst, inl, inr, not, List, [], ◌∷◌, Option,
  none, some, arith, length, retain, Text, Bool-cases, Option-cases, All, lookup, All-append_left,
}
use cross_host_ops.SessionCache.{
  ShellKey, CachedShellEntry, SessionCache, key_eq, or_default, push_key, checkout, insert_shell,
  insert_with, make_room, pop_live, is_expired, prune, pop_expired, first_expired, index_from,
  clear, Call, checkout_call, insert_call, prune_call, clear_call, step,
}
use cross_host_ops.SessionCache.Keys.{live, All-map}
use cross_host_ops.SessionCache.Index.{pop_live-take_newest, pop_live-Pops, pop_live-none}
use cross_host_ops.SessionCache.Valid.{
  Valid, retain-Valid, drop-Valid, set_keys, set_keys-Valid, empty-Valid,
}
use cross_host_ops.SessionCache.Append.{insert_entry-last, append-Valid}
use cross_host_ops.SessionCache.Prune.{index_from-Valid, pop_expired-retain, pop_expired-none}
use cross_host_ops.SessionCache.Evict.{evict_lem}
use cross_host_ops.SessionCache.Queue.{fitting, queue_step, HasRoom, time_of}

-- The call returns, does what the queue does, and keeps the invariant.
abbrev pub Simulates : ℕ → SessionCache → Call → Type 0
Simulates clock s call =
    (s' : SessionCache) × (r : Option ℕ) × (step s call ≡ some (s', r))
    × (queue_step s.max_cached_sessions (s.shells, s.next_id) call ≡ ((s'.shells, s'.next_id), r))
    × Valid (time_of clock call) s'.shells s'.by_ip s'.next_id
    × (s'.max_cached_sessions ≡ s.max_cached_sessions)

make_room-fitting :
    (limit : Option ℕ) (shells : List CachedShellEntry)
    → HasRoom limit
    → make_room limit shells ≡ some (fitting limit shells)
make_room-fitting none shells h = refl
make_room-fitting (some max) shells h = evict_lem (length shells + 2) max shells h (omega arith)

fitting-Valid :
    (limit : Option ℕ) (clock : ℕ) (s : SessionCache)
    → Valid clock s.shells s.by_ip s.next_id
    → Valid clock (fitting limit s.shells) s.by_ip s.next_id
fitting-Valid none clock s v = v
fitting-Valid (some max) clock s v =
    drop-Valid (suc (length s.shells) - max) clock s.shells s.by_ip s.next_id v

insert_shell-Simulates :
    (clock : ℕ) (s : SessionCache) (ip : Text) (shell now : ℕ)
    → HasRoom s.max_cached_sessions
    → clock ≤ now
    → Valid clock s.shells s.by_ip s.next_id
    → Simulates clock s (insert_call ip shell now)
unfolding step insert_shell queue_step
insert_shell-Simulates clock s ip shell now room later v =
    let kept = fitting s.max_cached_sessions s.shells in
    let e : CachedShellEntry = record {
      key = record { last_used = now; id = s.next_id };
      ip = ip;
      shell = shell;
    } in
    let v' = fitting-Valid s.max_cached_sessions clock s v in
    let under =
      All-map _ (λ x. (x.key.id < e.key.id) × (x.key.last_used ≤ e.key.last_used)) kept
        (λ x b. (b.0, omega arith)) v'.bounded in
    let last = insert_entry-last e kept under in
    (
      insert_with ip shell now s kept,
      none,
      rw (make_room-fitting s.max_cached_sessions s.shells room, step, insert_shell) refl,
      ap (λ q. ((q, suc s.next_id), none)) (sym last),
      subst (λ q. Valid now q (push_key ip e.key s.by_ip) (suc s.next_id)) (sym last)
          (append-Valid clock now kept s.by_ip e later refl v'),
      refl,
    )

prune-Simulates :
    (clock : ℕ) (s : SessionCache) (now idle : ℕ)
    → Valid clock s.shells s.by_ip s.next_id
    → Simulates clock s (prune_call now idle)
unfolding step prune queue_step
prune-Simulates clock s now idle v =
    let kept = pop_expired now idle s.shells in
    let same = pop_expired-retain now idle s.shells v.ordered in
    elim (Bool-cases (first_expired now idle s.shells)) [
      | inl x ↦
          let v' =
            retain-Valid (λ e. not (is_expired now idle e)) clock s.shells s.by_ip s.next_id v in
          (
            record s { shells = kept; by_ip = index_from [] kept },
            none,
            rw (x, prune) refl,
            ap (λ q. ((q, s.next_id), none)) (sym same),
            index_from-Valid clock kept s.by_ip s.next_id
                (subst (λ q. Valid clock q s.by_ip s.next_id) (sym same) v'),
            refl,
          )
      | inr x ↦ (
        s,
        none,
        rw (x, prune) refl,
        ap (λ q. ((q, s.next_id), none)) (sym same ∙ pop_expired-none now idle s.shells x),
        v,
        refl,
      )
    ]

checkout_unknown-Simulates :
    (clock : ℕ) (s : SessionCache) (ip : Text)
    → Valid clock s.shells s.by_ip s.next_id
    → lookup ip s.by_ip ≡ none
    → Simulates clock s (checkout_call ip)
unfolding step checkout queue_step pop_live
checkout_unknown-Simulates clock s ip v l =
    let no_keys = ap or_default l in
    let idx = ap (retain (live s.shells)) (sym no_keys) ∙ v.indexed ip in
    elim (pop_live-take_newest ip [] s.shells v.ordered idx) [
      | inr (e, before, others, p, q, r, left) ↦ absurd (ground arith)
      | inl (p, q) ↦ (s, none, rw (l, checkout) refl, rw q refl, v, refl)
    ]

before-All :
    (P : ShellKey → Type 0) (keys before : List ShellKey) (shells others : List CachedShellEntry)
    (e : CachedShellEntry)
    → pop_live keys shells ≡ some (e, before, others)
    → All P keys
    → All P before
before-All P keys before shells others e p h =
    let pops = pop_live-Pops keys shells e before others p in
    All-append_left P before (pops.0 ∷ pops.1) (subst (All P) pops.2 h)

checkout_known-Simulates :
    (clock : ℕ) (s : SessionCache) (ip : Text) (keys : List ShellKey)
    → Valid clock s.shells s.by_ip s.next_id
    → lookup ip s.by_ip ≡ some keys
    → Simulates clock s (checkout_call ip)
unfolding step checkout queue_step
checkout_known-Simulates clock s ip keys v l =
    let these = ap or_default l in
    let idx = ap (retain (live s.shells)) (sym these) ∙ v.indexed ip in
    let fresh = subst (All (λ k. k.id < s.next_id)) these (v.fresh ip) in
    elim (pop_live-take_newest ip keys s.shells v.ordered idx) [
      | inl (p, q) ↦ (
        record s { by_ip = set_keys ip [] s.by_ip },
        none,
        rw (l, p, checkout) refl,
        rw q refl,
        set_keys-Valid clock s.shells s.by_ip s.next_id ip [] v
            (sym (pop_live-none keys s.shells p) ∙ idx) tt,
        refl,
      )
      | inr (e, before, others, p, q, r, left) ↦
          let v' =
            subst (λ x. Valid clock x s.by_ip s.next_id) (sym r)
              (retain-Valid (λ x. not (key_eq x.key e.key)) clock s.shells s.by_ip s.next_id v) in
          (
            record s { shells = others; by_ip = set_keys ip before s.by_ip },
            some e.shell,
            rw (l, p, checkout) refl,
            rw q refl,
            set_keys-Valid clock others s.by_ip s.next_id ip before v' left
                (before-All _ keys before s.shells others e p fresh),
            refl,
          )
    ]

-- Whatever the call, if the limit leaves room for an entry and the clock does not go back.
pub step-Simulates :
    (clock : ℕ) (s : SessionCache) (call : Call)
    → HasRoom s.max_cached_sessions
    → clock ≤ time_of clock call
    → Valid clock s.shells s.by_ip s.next_id
    → Simulates clock s call
unfolding step clear queue_step
step-Simulates clock s (insert_call ip shell now) room later v =
    insert_shell-Simulates clock s ip shell now room later v
step-Simulates clock s (prune_call now idle) room later v = prune-Simulates clock s now idle v
step-Simulates clock s (checkout_call ip) room later v = elim (Option-cases (lookup ip s.by_ip)) [
  | inl l ↦ checkout_unknown-Simulates clock s ip v l
  | inr (keys, l) ↦ checkout_known-Simulates clock s ip keys v l
]
step-Simulates clock s clear_call room later v =
    (clear s, none, refl, refl, empty-Valid clock s.next_id, refl)
