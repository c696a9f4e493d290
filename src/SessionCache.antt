-- ===== src/SessionCache.antt =====
-- `SessionCache` of src/daemon/gateway/jumpserver.rs: the shells that were left at a prompt, by the
-- time of their last use, with an index from the target's address to their keys.
--
-- A `BTreeMap` is the list of its entries in the order of the keys, and a `Vec` the list of its
-- elements. A shell, with the lease that keeps its transport alive, is known by a number. The clock
-- is an argument, in one reading for a whole call of `prune`, where the source reads it for each
-- entry; `Instant::elapsed` stops at 0.
pub mod Keys
pub mod Newest
pub mod Index
pub mod Valid
pub mod Append
pub mod Prune
pub mod Queue
pub mod Step
pub mod Refines
pub mod Evict
mod Tests
use cross_host_ops.Base.{
  ℕ, zero, suc, ◌+◌, ◌-◌, Bool, true, false, not, ◌||◌, ◌&&◌, List, [], ◌∷◌, ◌++◌, Option, none,
  some, length, drop, retain, find, leb, ltb, ◌==◌, if◌then◌else◌, Text, text_eq, is_empty, Dict,
  lookup, insert, remove,
}

pub record ShellKey : Type 0 where
  pub last_used : ℕ
  pub id : ℕ

pub record CachedShellEntry : Type 0 where
  pub key : ShellKey
  pub ip : Text
  pub shell : ℕ

pub record SessionCache : Type 0 where
  pub shells : List CachedShellEntry
  pub by_ip : Dict (List ShellKey)
  pub next_id : ℕ
  pub max_cached_sessions : Option ℕ

pub new : Option ℕ → SessionCache
new max = record { shells = []; by_ip = []; next_id = 0; max_cached_sessions = max }

abbrev pub key_eq : ShellKey → ShellKey → Bool
key_eq a b = a.last_used == b.last_used && a.id == b.id

abbrev pub key_lt : ShellKey → ShellKey → Bool
key_lt a b = ltb a.last_used b.last_used || (a.last_used == b.last_used && ltb a.id b.id)

-- `BTreeMap::get`, `remove` and `insert`.
abbrev pub get : ShellKey → List CachedShellEntry → Option CachedShellEntry
get k shells = find (λ e. key_eq e.key k) shells

abbrev pub remove_key : ShellKey → List CachedShellEntry → List CachedShellEntry
remove_key k shells = retain (λ e. not (key_eq e.key k)) shells

pub insert_entry : CachedShellEntry → List CachedShellEntry → List CachedShellEntry
insert_entry e [] = e ∷ []
insert_entry e (x ∷ shells) =
    let rest = insert_entry e shells in
    if key_lt e.key x.key
    then e ∷ x ∷ shells
    else if key_eq e.key x.key
    then e ∷ shells
    else x ∷ rest

-- `while let Some(key) = keys.pop()` pops from the end: the last key that is live gives the entry,
-- the keys before it stay, and it is removed from the shells.
pub pop_live :
    List ShellKey
    → List CachedShellEntry
    → Option (CachedShellEntry × List ShellKey × List CachedShellEntry)
pop_live [] shells = none
pop_live (k ∷ keys) shells = elim (pop_live keys shells) [
  | some (e, before, shells') ↦ some (e, k ∷ before, shells')
  | none ↦ elim (get k shells) [ some e ↦ some (e, [], remove_key k shells) | none ↦ none ]
]

abbrev pub is_nil : List ShellKey → Bool
is_nil [] = true
is_nil (k ∷ ks) = false

pub checkout : Text → SessionCache → SessionCache × Option ℕ
unfolding pop_live
checkout ip s = elim (lookup ip s.by_ip) [
  | none ↦ (s, none)
  | some keys ↦ elim (pop_live keys s.shells) [
    | none ↦ (record s { by_ip = remove ip s.by_ip }, none)
    | some (e, before, shells) ↦ (
      record s {
        shells = shells;
        by_ip = if is_nil before then remove ip s.by_ip else insert ip before s.by_ip;
      },
      some e.shell,
    )
  ]
]

-- `while self.shells.len() >= max { self.shells.pop_first(); }`, on fuel; without fuel the loop is
-- still running.
pub evict : ℕ → ℕ → List CachedShellEntry → Option (List CachedShellEntry)
evict zero max shells = none
evict (suc fuel) max shells =
    let rest = evict fuel max (drop 1 shells) in
    if leb max (length shells) then rest else some shells

abbrev pub make_room : Option ℕ → List CachedShellEntry → Option (List CachedShellEntry)
make_room none shells = some shells
make_room (some max) shells = evict (length shells + 2) max shells

abbrev pub or_default : Option (List ShellKey) → List ShellKey
or_default none = []
or_default (some keys) = keys

abbrev pub keys_of : Text → Dict (List ShellKey) → List ShellKey
keys_of ip by_ip = or_default (lookup ip by_ip)

-- `by_ip.entry(ip).or_default().push(key)`
abbrev pub push_key : Text → ShellKey → Dict (List ShellKey) → Dict (List ShellKey)
push_key ip k by_ip = insert ip (keys_of ip by_ip ++ (k ∷ [])) by_ip

abbrev pub insert_with : Text → ℕ → ℕ → SessionCache → List CachedShellEntry → SessionCache
insert_with ip shell now s kept =
    let key : ShellKey = record { last_used = now; id = s.next_id } in
    record s {
      shells = insert_entry (record { key = key; ip = ip; shell = shell }) kept;
      by_ip = push_key ip key s.by_ip;
      next_id = suc s.next_id;
    }

pub insert_shell : Text → ℕ → ℕ → SessionCache → Option SessionCache
unfolding insert_entry evict
insert_shell ip shell now s = elim (make_room s.max_cached_sessions s.shells) [
  | none ↦ none
  | some kept ↦ some (insert_with ip shell now s kept)
]

abbrev pub is_expired : ℕ → ℕ → CachedShellEntry → Bool
is_expired now idle e = ltb idle (now - e.key.last_used)

-- `pop_first` while the first entry is expired.
pub pop_expired : ℕ → ℕ → List CachedShellEntry → List CachedShellEntry
pop_expired now idle [] = []
pop_expired now idle (e ∷ shells) =
    let rest = pop_expired now idle shells in if is_expired now idle e then rest else e ∷ shells

-- The index of the shells, key by key.
pub index_from : Dict (List ShellKey) → List CachedShellEntry → Dict (List ShellKey)
index_from by_ip [] = by_ip
index_from by_ip (e ∷ shells) = index_from (push_key e.ip e.key by_ip) shells

abbrev pub first_expired : ℕ → ℕ → List CachedShellEntry → Bool
first_expired now idle [] = false
first_expired now idle (e ∷ shells) = is_expired now idle e

pub prune : ℕ → ℕ → SessionCache → SessionCache
unfolding pop_expired index_from
prune now idle s =
    let shells = pop_expired now idle s.shells in
    if first_expired now idle s.shells
    then record s { shells = shells; by_ip = index_from [] shells }
    else s

pub clear : SessionCache → SessionCache
clear s = record s { shells = []; by_ip = [] }

-- A call, with the reading of the clock where it reads one.
pub data Call : Type 0 where
  checkout_call : Text → Call
  insert_call : Text → ℕ → ℕ → Call
  prune_call : ℕ → ℕ → Call
  clear_call : Call

-- The state after a call, and the shell that it gave; nothing, where the call does not return.
pub step : SessionCache → Call → Option (SessionCache × Option ℕ)
unfolding checkout insert_shell prune clear
step s (checkout_call ip) = some (checkout ip s)
step s (insert_call ip shell now) = elim (insert_shell ip shell now s) [
  | none ↦ none
  | some s' ↦ some (s', none)
]
step s (prune_call now idle) = some (prune now idle s, none)
step s clear_call = some (clear s, none)
