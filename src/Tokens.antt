-- ===== src/Tokens.antt =====
-- The bootstrap token store, src/daemon/token_store.rs. The map is an association list by hash, in
-- some order; each method runs under the store's one lock, so it is one step. `SystemTime::now()`
-- is the argument `now`, in nanoseconds.
--
-- `hex_sha256` calls the crates `sha2` and `data_encoding`, and the raw token is made by `rand` and
-- `base64`, none of them in the repository: the hash is the parameter `hash`, of which nothing is
-- assumed, and the drawn token is an argument of `generate`.
pub mod Once
pub mod Sweep
pub mod Revoke
mod Tests
use cross_host_ops.Base.{
  ℕ, ◌+◌, ◌≡◌, ◌≢◌, Bool, true, false, not, ◌&&◌, List, [], ◌∷◌, Option, none, some, length, take,
  ltb, leb, ◌==◌, if◌then◌else◌, Text, trim, text_eq, Dict, lookup, insert, remove, retain,
  retain_values, map,
}

pub record TokenEntry : Type 0 where
  pub prefix : Text
  pub hash : Text
  pub expires_at : ℕ
  pub once : Bool
  pub consumed : Bool
  pub created_at : ℕ
  pub label : Option Text

abbrev pub Store : Type 0
Store = Dict TokenEntry

abbrev pub prefix_len : ℕ
prefix_len = 8

abbrev pub is_expired : ℕ → TokenEntry → Bool
is_expired now e = ltb e.expires_at now

-- `values().cloned().collect()`, then the stable `sort_by` on `expires_at`.
pub insert_sorted : TokenEntry → List TokenEntry → List TokenEntry
insert_sorted e [] = e ∷ []
insert_sorted e (f ∷ fs) =
    let rest = insert_sorted e fs in if leb e.expires_at f.expires_at then e ∷ f ∷ fs else f ∷ rest

pub sort_entries : List TokenEntry → List TokenEntry
unfolding insert_sorted
sort_entries [] = []
sort_entries (e ∷ es) = insert_sorted e (sort_entries es)

abbrev pub some_left : Store → Bool
some_left [] = false
some_left (e ∷ s) = true

pub data Call : Type 0 where
  generates : ℕ → Bool → Option Text → Text → Call
  validates invalidates : Text → Call
  lists : Call

-- The entry is found: the branches behind `get_mut`.
pub validate_entry : Store → ℕ → Text → TokenEntry → Store × Bool
validate_entry s now h e =
    if is_expired now e
    then (remove h s, false)
    else if e.once && e.consumed
    then (s, false)
    else if e.once
    then (insert h (record e { consumed = true }) s, true)
    else (s, true)

module _ (hash : Text → Text) where
  abbrev pub new_entry : ℕ → ℕ → Bool → Option Text → Text → TokenEntry
  new_entry now ttl once label token = record {
    prefix = take prefix_len token;
    hash = hash token;
    expires_at = now + ttl;
    once = once;
    consumed = false;
    created_at = now;
    label = label;
  }

  pub generate : Store → ℕ → ℕ → Bool → Option Text → Text → Store
  generate s now ttl once label token = insert (hash token) (new_entry now ttl once label token) s

  pub validate : Store → ℕ → Text → Store × Bool
  unfolding validate_entry
  validate s now raw = elim (lookup (hash raw) s) [
    | none ↦ (s, false)
    | some e ↦ validate_entry s now (hash raw) e
  ]

  pub invalidate : Store → Text → Store × Bool
  invalidate s token_or_prefix =
      let needle = trim token_or_prefix in
      elim (lookup (hash needle) s) [
        | some e ↦ (remove (hash needle) s, true)
        | none ↦ (
          retain_values (λ e. not (text_eq e.prefix needle)) s,
          some_left (retain_values (λ e. text_eq e.prefix needle) s),
        )
      ]

  -- The store without its expired entries, and what is left in order of expiry.
  pub list : Store → ℕ → Store × List TokenEntry
  unfolding sort_entries
  list s now =
      let left = retain_values (λ e. not (is_expired now e)) s in
      (left, sort_entries (map (λ e. e.1) left))

  pub step : Store → ℕ × Call → Store
  step s (now, generates ttl once label token) = generate s now ttl once label token
  step s (now, validates raw) = (validate s now raw).0
  step s (now, invalidates needle) = (invalidate s needle).0
  step s (now, lists) = (list s now).0

  pub run : Store → List (ℕ × Call) → Store
  unfolding step
  run s [] = s
  run s (c ∷ cs) = run (step s c) cs
