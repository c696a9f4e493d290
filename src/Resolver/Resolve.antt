-- ===== src/Resolver/Resolve.antt =====
-- `resolve_with_warning` of src/daemon/resolver.rs, with the methods that it calls.
use mathlib.Core.List.{reverse}
use cross_host_ops.Base.{
  Bool, true, false, not, ◌&&◌, ◌||◌, List, [], ◌∷◌, ◌++◌, map, Option, none, some, any,
  if◌then◌else◌, Result, ok, err, ◌>>=◌, Text, codes, text_eq, contains_text, join, Dict, lookup,
  retain,
}
use cross_host_ops.Inventory.{
  ServerHostConfig, ServerEntry, resolve_server_entry, SshHostEntry, resolve_ssh_host,
}
use cross_host_ops.Resolver.{
  Route, ListSource, local_source, gateway_source, SourceStatus, status_ok, unsupported,
  status_error, ServerListRow, FallbackEntry, local_fallback, gateway_fallback, ResolveError,
  self_unavailable, proxy_command, not_local, unknown_gateway, not_in_list, no_match,
  undefined_fallback, ResolveResult, Resolver, colon, local_alias, self_target, split_once,
  parse_explicit_qualified, derive_target_ip, full_target_name, user_friendly_target_name,
  route_from_source,
}

abbrev pub is_any_gateway_name : Resolver → Text → Bool
is_any_gateway_name r name =
    contains_text r.gateways name || contains_text r.dynamic_gateway_names name

abbrev pub to_local : Option ServerEntry → Option Route
to_local none = none
to_local (some e) = some (record { gateway_name = local_alias; end_target = e.alias })

abbrev pub resolve_found : Option Text → Option (Text × ServerHostConfig) → Option Route
resolve_found default_file none = none
resolve_found default_file (some (alias, server)) =
    to_local (resolve_server_entry alias server default_file)

abbrev pub with_alias : Text → Option ServerHostConfig → Option (Text × ServerHostConfig)
with_alias alias none = none
with_alias alias (some server) = some (alias, server)

unfoldable pub lookup_local_server : Resolver → Text → Option Route
lookup_local_server r alias =
    resolve_found r.default_file (with_alias alias (lookup alias r.servers))

abbrev pub find_host : Text → Dict ServerHostConfig → Option (Text × ServerHostConfig)
find_host host [] = none
find_host host ((alias, server) ∷ m) =
    let rest = find_host host m in if text_eq server.host host then some (alias, server) else rest

unfoldable pub lookup_local_server_by_host : Resolver → Text → Option Route
lookup_local_server_by_host r host = resolve_found r.default_file (find_host host r.servers)

abbrev pub source_is : Text → ListSource → Bool
source_is path local_source = false
source_is path (gateway_source p) = text_eq p path

unfoldable pub gateway_source_status : List (ListSource × SourceStatus) → Text → Option SourceStatus
gateway_source_status [] path = none
gateway_source_status ((source, status) ∷ rest) path =
    let found = gateway_source_status rest path in
    if source_is path source then some status else found

abbrev pub status_is_ok : SourceStatus → Bool
status_is_ok status_ok = true
status_is_ok unsupported = false
status_is_ok (status_error e) = false

-- `rsplit_once(':')`: the part in front of the last colon.
unfoldable pub before_last_colon : Text → Option Text
unfolding split_once
before_last_colon s = front (split_once (reverse s))
  where
    front : Option (Text × Text) → Option Text
    front none = none
    front (some (last, rest)) = some (reverse rest)

unfoldable pub explicit_source_path : Text → Text → Text
unfolding before_last_colon
explicit_source_path jump_name server_alias = path (before_last_colon server_alias)
  where
    path : Option Text → Text
    path none = jump_name
    path (some nested) = jump_name ++ (colon ∷ nested)

unfoldable pub explicit_source_reported_ok : Resolver → Text → Text → Bool
unfolding gateway_source_status explicit_source_path
explicit_source_reported_ok r jump_name server_alias =
    exact (gateway_source_status r.source_status (explicit_source_path jump_name server_alias))
  where
    whole : Option SourceStatus → Bool
    whole none = false
    whole (some status) = status_is_ok status

    exact : Option SourceStatus → Bool
    exact (some status) = status_is_ok status
    exact none =
        if text_eq (explicit_source_path jump_name server_alias) jump_name
        then false
        else whole (gateway_source_status r.source_status jump_name)

unfoldable pub resolve_explicit : Resolver → Text → Text → Result ResolveError (List Route)
unfolding lookup_local_server explicit_source_reported_ok
resolve_explicit r jump_name server_alias =
    if text_eq jump_name local_alias
    then from_local (lookup_local_server r server_alias)
    else if not (contains_text r.gateways jump_name)
    then (if contains_text r.dynamic_gateway_names jump_name
        then through
        else err (unknown_gateway jump_name))
    else if explicit_source_reported_ok r jump_name server_alias && not listed
    then err (not_in_list name)
    else through
  where
    name : Text
    name = jump_name ++ (colon ∷ server_alias)

    through : Result ResolveError (List Route)
    through = ok (record { gateway_name = jump_name; end_target = server_alias } ∷ [])

    from_local : Option Route → Result ResolveError (List Route)
    from_local none = err (not_local server_alias)
    from_local (some route) = ok (route ∷ [])

    listed : Bool
    listed = any (λ row. text_eq (full_target_name row.source row.alias) name) r.merged_rows

-- The loop that keeps one match for each display name.
unfoldable pub dedupe :
    Text → List ServerListRow → List (Text × Route) → Result ResolveError (List (Text × Route))
dedupe alias [] found = ok found
dedupe alias (row ∷ rows) found =
    let name = full_target_name row.source alias in
    elim (any (λ m. text_eq m.0 name) found) [
      | true ↦ dedupe alias rows found
      | false ↦ route_from_source row.source alias >>= λ route.
          dedupe alias rows (found ++ ((name, route) ∷ []))
    ]

unfoldable pub ambiguity : Text → Text → List (Text × Route) → Option Text
ambiguity alias chosen [] = none
ambiguity alias chosen (m ∷ ms) = some (
    codes "warning: target '"
    ++ (alias
        ++ (codes "' matched multiple sources; using "
            ++ (user_friendly_target_name chosen
                ++ (codes "; also found "
                    ++ join (codes ", ") (map (λ x. user_friendly_target_name x.0) (m ∷ ms)))))))

unfoldable pub choose : Text → List (Text × Route) → Option ResolveResult
unfolding ambiguity
choose alias [] = none
choose alias ((name, route) ∷ ms) =
    some (record { routes = route ∷ []; warning = ambiguity alias name ms })

unfoldable pub resolve_bare_from_merged_view :
    Resolver → Text → Result ResolveError (Option ResolveResult)
unfolding dedupe choose
resolve_bare_from_merged_view r alias =
    dedupe alias (retain (λ row. text_eq row.alias alias) r.merged_rows) [] >>= λ matches.
    ok (choose alias matches)

abbrev pub or_route : Option Route → List Route → List Route
or_route none rest = rest
or_route (some route) rest = route ∷ []

unfoldable pub server_config_routes : Resolver → Text → List Route
unfolding lookup_local_server lookup_local_server_by_host
server_config_routes r input =
    or_route (lookup_local_server r input) (or_route (lookup_local_server_by_host r input) derived)
  where
    derived : List Route
    derived =
        if text_eq (derive_target_ip input) input
        then []
        else or_route (lookup_local_server_by_host r (derive_target_ip input)) []

unfoldable pub resolve_ssh_config_route : Resolver → Text → Text → Result ResolveError (List Route)
resolve_ssh_config_route r input ip =
    r.ssh_hosts >>= λ entries. by_host (resolve_ssh_host entries ip)
  where
    complete : Option Text → Option Text → List Route
    complete (some user) (some file) =
        record { gateway_name = local_alias; end_target = input } ∷ []
    complete _ _ = []

    checked : SshHostEntry → Option Text → Result ResolveError (List Route)
    checked e none = ok (complete e.user e.identity_file)
    checked e (some command) = err proxy_command

    by_host : Option SshHostEntry → Result ResolveError (List Route)
    by_host none = ok []
    by_host (some e) = checked e e.proxy_command

unfoldable pub fallback_routes :
    Resolver → Text → List FallbackEntry → Result ResolveError (List Route)
unfolding resolve_ssh_config_route
fallback_routes r input [] = ok []
fallback_routes r input (local_fallback ∷ es) =
    resolve_ssh_config_route r input (derive_target_ip input) >>= λ found.
    fallback_routes r input es >>= λ rest. ok (found ++ rest)
fallback_routes r input (gateway_fallback name ∷ es) = elim (contains_text r.gateways name) [
  | true ↦ fallback_routes r input es >>= λ routes.
      ok (record { gateway_name = name; end_target = input } ∷ routes)
  | false ↦ err (undefined_fallback name)
]

abbrev pub only : Text → Text → ResolveResult
only gateway_name end_target = record {
  routes = record { gateway_name = gateway_name; end_target = end_target } ∷ [];
  warning = none;
}

unfoldable pub resolve_by_fallback : Resolver → Text → Result ResolveError ResolveResult
unfolding fallback_routes
resolve_by_fallback r input = fallback_routes r input r.fallback >>= found
  where
    found : List Route → Result ResolveError ResolveResult
    found [] = err (no_match input)
    found (route ∷ routes) = ok (record { routes = route ∷ routes; warning = none })

-- A bare name: through the merged list if there is one, else through server.toml.
unfoldable pub resolve_by_view :
    Resolver → Text → List ServerListRow → Result ResolveError ResolveResult
unfolding resolve_bare_from_merged_view server_config_routes resolve_by_fallback
resolve_by_view r input [] = or_legacy (server_config_routes r input)
  where
    or_legacy : List Route → Result ResolveError ResolveResult
    or_legacy [] = resolve_by_fallback r input
    or_legacy (route ∷ routes) = ok (record { routes = route ∷ routes; warning = none })
resolve_by_view r input (row ∷ rows) = resolve_bare_from_merged_view r input >>= or_fallback
  where
    or_fallback : Option ResolveResult → Result ResolveError ResolveResult
    or_fallback none = resolve_by_fallback r input
    or_fallback (some result) = ok result

unfoldable pub resolve_bare : Resolver → Text → Result ResolveError ResolveResult
unfolding resolve_by_view
resolve_bare r input = resolve_by_view r input r.merged_rows

unfoldable pub resolve_with_warning : Resolver → Text → Result ResolveError ResolveResult
unfolding resolve_explicit resolve_bare
resolve_with_warning r input =
    if text_eq input self_target
    then (if is_any_gateway_name r self_target
        then ok (only self_target self_target)
        else err self_unavailable)
    else qualified (parse_explicit_qualified input)
  where
    qualified : Option (Text × Text) → Result ResolveError ResolveResult
    qualified (some (jump_name, server_alias)) =
        resolve_explicit r jump_name server_alias >>= λ routes.
        ok (record { routes = routes; warning = none })
    qualified none =
        if is_any_gateway_name r input && not (text_eq input local_alias)
        then ok (only input self_target)
        else resolve_bare r input
