-- ===== src/Inventory/FirstWins.antt =====
-- The setting that counts for a host is the first one that an entry for it gives.
use cross_host_ops.Base.{
  ◌≡◌, refl, sym, ap, ◌∙◌, inl, inr, Bool, true, false, ◌||◌, List, [], ◌∷◌, Option, none, some,
  arith, any, if◌then◌else◌, Text, Bool-cases,
}
use cross_host_ops.Inventory.{SshHostEntry, matches, or_else, fill, resolve_loop, resolve_ssh_host}

-- The first of the entries for the host that has the field.
abbrev pub first_of {ℓ} :
    {A : Type ℓ} → (SshHostEntry → Option A) → List SshHostEntry → Text → Option A
first_of field [] host = none
first_of field (e ∷ es) host =
    let rest = first_of field es host in if matches e host then or_else (field e) rest else rest

abbrev pub has_entry : List SshHostEntry → Text → Bool
has_entry es host = any (λ e. matches e host) es

-- The entry in which each open field is filled in from the list.
abbrev pub filled : SshHostEntry → List SshHostEntry → Text → SshHostEntry
filled r es host = record r {
  host_name = or_else r.host_name (first_of (λ e. e.host_name) es host);
  port = or_else r.port (first_of (λ e. e.port) es host);
  user = or_else r.user (first_of (λ e. e.user) es host);
  identity_file = or_else r.identity_file (first_of (λ e. e.identity_file) es host);
  proxy_command = or_else r.proxy_command (first_of (λ e. e.proxy_command) es host);
  pubkey_accepted_algorithms =
      or_else r.pubkey_accepted_algorithms (first_of (λ e. e.pubkey_accepted_algorithms) es host);
}

or_else-none {ℓ} : {A : Type ℓ} (o : Option A) → or_else o none ≡ o
or_else-none none = refl
or_else-none (some a) = refl

or_else_assoc {ℓ} :
    {A : Type ℓ} (o p q : Option A) → or_else (or_else o p) q ≡ or_else o (or_else p q)
or_else_assoc none p q = refl
or_else_assoc (some a) p q = refl

filled-fill :
    (r e : SshHostEntry) (es : List SshHostEntry) (host : Text)
    → matches e host ≡ true
    → filled (fill r e) es host ≡ filled r (e ∷ es) host
unfolding fill
filled-fill r e es host hit =
    rw
      (
        hit,
        or_else_assoc r.host_name e.host_name (first_of (λ x. x.host_name) es host),
        or_else_assoc r.port e.port (first_of (λ x. x.port) es host),
        or_else_assoc r.user e.user (first_of (λ x. x.user) es host),
        or_else_assoc r.identity_file e.identity_file (first_of (λ x. x.identity_file) es host),
        or_else_assoc r.proxy_command e.proxy_command (first_of (λ x. x.proxy_command) es host),
        or_else_assoc r.pubkey_accepted_algorithms e.pubkey_accepted_algorithms
            (first_of (λ x. x.pubkey_accepted_algorithms) es host),
      )
      refl

when_true {ℓ} : {A : Type ℓ} (m : Bool) (a b : A) → (if m || true then a else b) ≡ a
when_true true a b = refl
when_true false a b = refl

resolve_loop_lem :
    (es : List SshHostEntry) (host : Text) (m : Bool) (r : SshHostEntry)
    → resolve_loop es host m r ≡ (if m || has_entry es host then some (filled r es host) else none)
unfolding resolve_loop fill
resolve_loop_lem [] host m r =
    rw
      (
        or_else-none r.host_name,
        or_else-none r.port,
        or_else-none r.user,
        or_else-none r.identity_file,
        or_else-none r.proxy_command,
        or_else-none r.pubkey_accepted_algorithms,
      )
      (ground arith)
resolve_loop_lem (e ∷ es) host m r = elim (Bool-cases (matches e host)) [
  | inl hit ↦
      rw (hit, resolve_loop)
        (resolve_loop_lem es host true (fill r e)
          ∙ ap some (filled-fill r e es host hit)
          ∙ sym (rw hit (when_true m _ _)))
  | inr miss ↦ rw (miss, resolve_loop) (resolve_loop_lem es host m r)
]

-- A host of ssh_config is found exactly if an entry's patterns match it, and then each of its
-- settings is the one of the first such entry that has the setting.
pub resolve_ssh_host_lem :
    (es : List SshHostEntry) (host : Text)
    → resolve_ssh_host es host ≡ (
        if has_entry es host
        then some (record {
          patterns = host ∷ [];
          host_name = first_of (λ e. e.host_name) es host;
          port = first_of (λ e. e.port) es host;
          user = first_of (λ e. e.user) es host;
          identity_file = first_of (λ e. e.identity_file) es host;
          proxy_command = first_of (λ e. e.proxy_command) es host;
          pubkey_accepted_algorithms = first_of (λ e. e.pubkey_accepted_algorithms) es host;
        })
        else none)
unfolding resolve_ssh_host
resolve_ssh_host_lem es host = resolve_loop_lem es host false _
