-- ===== src/Resolver.antt =====
-- From a target string to routes: src/daemon/resolver.rs, with `Route` of src/daemon/gateway/mod.rs.
-- A resolver is the configuration and the merged list that it is made with. `servers` is the map
-- of server.toml in its order of iteration, and `ssh_hosts` the outcome of `parse_ssh_config`.
pub mod Resolve
pub mod Names
pub mod Success
mod Tests
use mathlib.Core.List.{reverse, filter}
use cross_host_ops.Base.{
  ℕ, zero, suc, ◌+◌, ◌-◌, ◌≡◌, Bool, true, false, not, ◌&&◌, ◌||◌, List, [], ◌∷◌, ◌++◌, map, Option,
  none, some, length, drop, any, ltb, leb, ◌==◌, if◌then◌else◌, Result, ok, err, ◌>>=◌, ok_or, Text,
  codes, text_eq, contains_text, is_empty, starts_with, strip_prefix, split, join, is_digit, Dict,
  lookup, retain,
}
use cross_host_ops.Inventory.{
  ServerHostConfig, resolve_server_entry, ServerEntry, SshHostEntry, resolve_ssh_host,
}

pub record Route : Type 0 where
  pub gateway_name : Text
  pub end_target : Text

pub data ListSource : Type 0 where
  local_source : ListSource
  gateway_source : Text → ListSource

pub data SourceStatus : Type 0 where
  status_ok unsupported : SourceStatus
  status_error : Text → SourceStatus

pub record ServerListRow : Type 0 where
  pub source : ListSource
  pub alias : Text

pub data FallbackEntry : Type 0 where
  local_fallback : FallbackEntry
  gateway_fallback : Text → FallbackEntry

-- The errors, with what their messages name.
pub data ResolveError : Type 0 where
  self_unavailable proxy_command : ResolveError
  not_local unknown_gateway not_in_list empty_gateway no_match undefined_fallback bad_config :
      Text → ResolveError

pub record ResolveResult : Type 0 where
  pub routes : List Route
  pub warning : Option Text

pub record Resolver : Type 0 where
  pub servers : Dict ServerHostConfig
  pub default_file : Option Text
  pub gateways : List Text
  pub fallback : List FallbackEntry
  pub ssh_hosts : Result ResolveError (List SshHostEntry)
  pub merged_rows : List ServerListRow
  pub source_status : List (ListSource × SourceStatus)
  pub dynamic_gateway_names : List Text

abbrev pub colon : ℕ
colon = b':'

abbrev pub local_alias : Text
local_alias = codes "local"

abbrev pub self_target : Text
self_target = codes "_self"

-- `split_once(':')`, and `find(':')` with the two slices around it.
pub split_once : Text → Option (Text × Text)
split_once [] = none
split_once (c ∷ s) = let rest = split_once s in if c == colon then some ([], s) else under rest
  where
    under : Option (Text × Text) → Option (Text × Text)
    under none = none
    under (some (a, b)) = some (c ∷ a, b)

abbrev pub all_digits : Text → Bool
all_digits s = not (any (λ c. not (is_digit c)) s)

pub parse_explicit_qualified : Text → Option (Text × Text)
unfolding split_once
parse_explicit_qualified input = check (split_once input)
  where
    check : Option (Text × Text) → Option (Text × Text)
    check none = none
    check (some (gateway_name, end_target)) =
        if is_empty gateway_name || is_empty end_target
        then none
        else if starts_with (colon ∷ []) end_target
        then none
        else if all_digits end_target
        then none
        else some (gateway_name, end_target)

unfoldable pub derive_target_ip : Text → Text
derive_target_ip input =
    let parts = split b'-' input in
    let tail = drop (length parts - 4) parts in
    if leb 4 (length parts) && not (any (λ p. not (all_digits p)) tail)
    then join (codes ".") tail
    else input

pub full_target_name : ListSource → Text → Text
full_target_name local_source alias = local_alias ++ (colon ∷ alias)
full_target_name (gateway_source path) alias = path ++ (colon ∷ alias)

pub user_friendly_target_name : Text → Text
user_friendly_target_name name = or_whole (strip_prefix (codes "local:") name)
  where
    or_whole : Option Text → Text
    or_whole none = name
    or_whole (some rest) = rest

pub route_from_source : ListSource → Text → Result ResolveError Route
unfolding split_once
route_from_source local_source alias =
    ok (record { gateway_name = local_alias; end_target = alias })
route_from_source (gateway_source path) alias = by_path (split_once path)
  where
    target : Text → Text
    target rest = if is_empty rest then alias else rest ++ (colon ∷ alias)

    by_path : Option (Text × Text) → Result ResolveError Route
    by_path none =
        if is_empty path
        then err (empty_gateway path)
        else ok (record { gateway_name = path; end_target = alias })
    by_path (some (gateway_name, rest)) =
        if is_empty gateway_name
        then err (empty_gateway path)
        else ok (record { gateway_name = gateway_name; end_target = target rest })
