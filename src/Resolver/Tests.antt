-- ===== src/Resolver/Tests.antt =====
-- Targets that are resolved.
use cross_host_ops.Base.{◌≡◌, refl, ◌≢◌, [], ◌∷◌, none, some, arith, ok, codes}
use cross_host_ops.Inventory.{resolve_server_entry}
use cross_host_ops.Resolver.{
  Route, ListSource, gateway_source, Resolver, ResolveResult, parse_explicit_qualified, split_once,
  full_target_name, route_from_source, derive_target_ip,
}
use cross_host_ops.Resolver.Names.{IsProper, parse-full_target_name}
use cross_host_ops.Resolver.Resolve.{
  resolve_with_warning, resolve_bare, resolve_by_view, server_config_routes, lookup_local_server,
}
use cross_host_ops.Resolver.Success.{resolve_with_warning_routes}

abbrev resolver : Resolver
resolver = record {
  servers =
      (
        codes "web",
        record {
          host = codes "10.0.0.1";
          port = none;
          user = codes "ops";
          identity_file = some (codes "/k");
          password = none;
        },
      )
      ∷ [];
  default_file = none;
  gateways = codes "hub" ∷ [];
  fallback = [];
  ssh_hosts = ok [];
  merged_rows = [];
  source_status = [];
  dynamic_gateway_names = [];
}

abbrev web : ResolveResult
web = record {
  routes = record { gateway_name = codes "local"; end_target = codes "web" } ∷ [];
  warning = none;
}

web_resolves : resolve_with_warning resolver (codes "web") ≡ ok web
unfolding resolve_with_warning resolve_bare resolve_by_view server_config_routes lookup_local_server
    parse_explicit_qualified split_once resolve_server_entry
web_resolves = refl

resolve_with_warning_routes_example : web.routes ≢ []
resolve_with_warning_routes_example =
    resolve_with_warning_routes resolver (codes "web") web web_resolves

abbrev nested : ListSource
nested = gateway_source (codes "hub:n")

abbrev route : Route
route = record { gateway_name = codes "hub"; end_target = codes "n:web" }

nested_resolves : route_from_source nested (codes "web") ≡ ok route
unfolding route_from_source split_once
nested_resolves = refl

nested-IsProper : IsProper nested
nested-IsProper [] h = ground arith
nested-IsProper (a ∷ []) h = ground arith
nested-IsProper (a ∷ b ∷ []) h = ground arith
nested-IsProper (a ∷ b ∷ c ∷ []) h = ground arith
nested-IsProper (a ∷ b ∷ c ∷ d ∷ []) h = ground arith
nested-IsProper (a ∷ b ∷ c ∷ d ∷ e ∷ []) h = ground arith
nested-IsProper (a ∷ b ∷ c ∷ d ∷ e ∷ f ∷ r) h = ground arith

parse-full_target_name_example :
    parse_explicit_qualified (full_target_name nested (codes "web"))
    ≡ some (codes "hub", codes "n:web")
parse-full_target_name_example =
    parse-full_target_name nested (codes "web") route nested-IsProper nested_resolves
      (refl, refl, refl)

ip_of_name : derive_target_ip (codes "foo-192-0-2-163") ≡ codes "192.0.2.163"
unfolding derive_target_ip
ip_of_name = refl
