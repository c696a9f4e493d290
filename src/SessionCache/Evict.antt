-- ===== src/SessionCache/Evict.antt =====
-- The loop that makes room ends with one entry less than the limit, and never does for the limit 0.
use cross_host_ops.Base.{
  ◌+◌, ap, ◌∙◌, ◌≤◌, Text, length-drop, ℕ, zero, suc, ◌-◌, ◌<◌, ◌≡◌, refl, inl, inr, List, [], ◌∷◌,
  none, some, arith, length, drop, leb, Bool-cases,
}
use cross_host_ops.SessionCache.{
  CachedShellEntry, SessionCache, evict, insert_entry, insert_shell, insert_with, make_room,
}

-- With the limit 0 the loop that makes room does not end: there is no number of rounds after which
-- it has stopped, whatever the cache holds.
pub evict_stuck : (fuel : ℕ) (shells : List CachedShellEntry) → evict fuel 0 shells ≡ none
unfolding evict
evict_stuck zero shells = refl
evict_stuck (suc fuel) shells = let more = evict_stuck fuel (drop 1 shells) in ground arith

pub evict_lem :
    (fuel max : ℕ) (shells : List CachedShellEntry)
    → 0 < max
    → length shells < fuel
    → evict fuel max shells ≡ some (drop (suc (length shells) - max) shells)
unfolding evict
evict_lem zero max shells m l = absurd (omega arith)
evict_lem (suc fuel) max [] m l =
    let none_over : suc 0 - max ≡ 0 = omega arith in rw none_over (ground arith)
evict_lem (suc fuel) max (e ∷ shells) m l = elim (Bool-cases (leb max (suc (length shells)))) [
  | inl over ↦
      let rest = evict_lem fuel max shells m (omega arith) in
      let one_more : suc (suc (length shells)) - max ≡ suc (suc (length shells) - max) =
        ground arith in
      rw (over, one_more) rest
  | inr room ↦
      let none_over : suc (suc (length shells)) - max ≡ 0 = ground arith in
      rw (room, none_over) refl
]

-- The entry for a shell that is put in now.
abbrev pub entry_of : Text → ℕ → ℕ → SessionCache → CachedShellEntry
entry_of ip shell now s = record {
  key = record { last_used = now; id = s.next_id };
  ip = ip;
  shell = shell;
}

length-insert_entry :
    (e : CachedShellEntry) (shells : List CachedShellEntry)
    → length (insert_entry e shells) ≤ suc (length shells)
unfolding insert_entry
length-insert_entry e [] = omega arith
length-insert_entry e (x ∷ shells) = ground (arith, length-insert_entry e shells)

-- With a limit of at least 1 an insertion returns: of the entries, which stand in the order of their
-- keys, as many are dropped at the front as make room for one more, the new one is put in among the
-- others, and the cache holds no more entries than the limit.
pub insert_shell_bounded :
    (s : SessionCache) (max : ℕ) (ip : Text) (shell now : ℕ)
    → 0 < max
    → s.max_cached_sessions ≡ some max
    → (s' : SessionCache) × (insert_shell ip shell now s ≡ some s')
      × (s'.shells
          ≡ insert_entry (entry_of ip shell now s) (drop (suc (length s.shells) - max) s.shells))
      × (length s'.shells ≤ max)
unfolding insert_shell
insert_shell_bounded s max ip shell now m limit =
    let n = suc (length s.shells) - max in
    let kept = drop n s.shells in
    let ends : make_room s.max_cached_sessions s.shells ≡ some kept =
      ap (λ l. make_room l s.shells) limit
      ∙ evict_lem (length s.shells + 2) max s.shells m (omega arith) in
    let e = entry_of ip shell now s in
    (
      insert_with ip shell now s kept,
      rw (ends, insert_shell) refl,
      refl,
      omega (arith, length-insert_entry e kept, length-drop n s.shells),
    )
