-- ===== src/Resolver/Success.antt =====
-- A target that resolves has a route.
use cross_host_ops.Base.{
  ◌≡◌, refl, subst, ◌≢◌, inl, inr, Bool, true, false, not, ◌&&◌, List, [], ◌∷◌, ◌++◌, Option, none,
  some, arith, if◌then◌else◌, Result, ok, err, ◌>>=◌, Text, text_eq, contains_text, retain, any,
  Option-cases,
}
use cross_host_ops.Resolver.{
  Route, ResolveError, ResolveResult, Resolver, ServerListRow, parse_explicit_qualified,
  full_target_name, colon, not_in_list, self_target, local_alias,
}
use cross_host_ops.Resolver.Resolve.{
  is_any_gateway_name, resolve_explicit, resolve_by_view, resolve_bare, resolve_by_fallback,
  fallback_routes, resolve_bare_from_merged_view, choose, dedupe, server_config_routes,
  resolve_with_warning, lookup_local_server, explicit_source_reported_ok,
}

abbrev HasRoute : Result ResolveError ResolveResult → Type 0
HasRoute (err e) = Unit
HasRoute (ok result) = result.routes ≢ []

abbrev HasSome : Result ResolveError (List Route) → Type 0
HasSome (err e) = Unit
HasSome (ok routes) = routes ≢ []

cons_ne {ℓ} : {A : Type ℓ} (a : A) (bs : List A) → a ∷ bs ≢ []
cons_ne a bs = ground arith

if_lift {ℓ κ} :
    {A : Type ℓ} (P : A → Type κ) (b : Bool) {x y : A} → P x → P y → P (if b then x else y)
if_lift P true p q = p
if_lift P false p q = q

resolve_explicit-HasSome :
    (r : Resolver) (jump alias : Text) → HasSome (resolve_explicit r jump alias)
unfolding resolve_explicit
resolve_explicit-HasSome r jump alias =
    if_lift HasSome (text_eq jump local_alias)
      (elim (Option-cases (lookup_local_server r alias)) [
        | inl e ↦ rw e tt
        | inr (x, e) ↦ rw e (cons_ne x [])
      ])
      (if_lift HasSome (not (contains_text r.gateways jump))
        (if_lift HasSome (contains_text r.dynamic_gateway_names jump) (cons_ne _ []) tt)
        (if_lift HasSome
          (explicit_source_reported_ok r jump alias
            && not (
                any
                  (λ row. text_eq (full_target_name row.source row.alias) (jump ++ (colon ∷ alias)))
                  r.merged_rows))
          {x = err (not_in_list (jump ++ (colon ∷ alias)))}
          {y = ok (record { gateway_name = jump; end_target = alias } ∷ [])} tt (cons_ne _ [])))

resolve_by_fallback-HasRoute :
    (r : Resolver) (input : Text) → HasRoute (resolve_by_fallback r input)
unfolding resolve_by_fallback
resolve_by_fallback-HasRoute r input = found (fallback_routes r input r.fallback) refl
  where
    found :
        (o : Result ResolveError (List Route))
        → fallback_routes r input r.fallback ≡ o
        → HasRoute (resolve_by_fallback r input)
    found (err x) e = rw (e, resolve_by_fallback) tt
    found (ok []) e = rw (e, resolve_by_fallback) tt
    found (ok (route ∷ routes)) e = rw (e, resolve_by_fallback) (cons_ne route routes)

choose-HasRoute :
    (alias : Text) (ms : List (Text × Route)) (result : ResolveResult)
    → choose alias ms ≡ some result
    → result.routes ≢ []
unfolding choose
choose-HasRoute alias [] result h = ground arith
choose-HasRoute alias ((name, route) ∷ ms) result h = ground arith

resolve_bare_from_merged_view-HasRoute :
    (r : Resolver) (input : Text) (result : ResolveResult)
    → resolve_bare_from_merged_view r input ≡ ok (some result)
    → result.routes ≢ []
unfolding resolve_bare_from_merged_view
resolve_bare_from_merged_view-HasRoute r input result h =
    found (dedupe input (retain (λ row. text_eq row.alias input) r.merged_rows) []) h
  where
    found :
        (o : Result ResolveError (List (Text × Route)))
        → (o >>= λ matches. ok (choose input matches)) ≡ ok (some result)
        → result.routes ≢ []
    found (err x) e = absurd (ground arith)
    found (ok ms) e = choose-HasRoute input ms result (ground arith)

resolve_by_view-HasRoute :
    (r : Resolver) (input : Text) (rows : List ServerListRow)
    → HasRoute (resolve_by_view r input rows)
unfolding resolve_by_view
resolve_by_view-HasRoute r input [] = legacy (server_config_routes r input) refl
  where
    legacy :
        (routes : List Route)
        → server_config_routes r input ≡ routes
        → HasRoute (resolve_by_view r input [])
    legacy [] e = rw (e, resolve_by_view) (resolve_by_fallback-HasRoute r input)
    legacy (route ∷ routes) e = rw (e, resolve_by_view) (cons_ne route routes)
resolve_by_view-HasRoute r input (row ∷ rows) = merged (resolve_bare_from_merged_view r input) refl
  where
    merged :
        (o : Result ResolveError (Option ResolveResult))
        → resolve_bare_from_merged_view r input ≡ o
        → HasRoute (resolve_by_view r input (row ∷ rows))
    merged (err x) e = rw (e, resolve_by_view) tt
    merged (ok none) e = rw (e, resolve_by_view) (resolve_by_fallback-HasRoute r input)
    merged (ok (some result)) e =
        rw (e, resolve_by_view) (resolve_bare_from_merged_view-HasRoute r input result e)

resolve_bare-HasRoute : (r : Resolver) (input : Text) → HasRoute (resolve_bare r input)
unfolding resolve_bare
resolve_bare-HasRoute r input = resolve_by_view-HasRoute r input r.merged_rows

with_none-HasRoute :
    (o : Result ResolveError (List Route))
    → HasSome o
    → HasRoute (o >>= λ routes. ok (record { routes = routes; warning = none }))
with_none-HasRoute (err e) h = tt
with_none-HasRoute (ok routes) h = h

resolve_with_warning-HasRoute :
    (r : Resolver) (input : Text) → HasRoute (resolve_with_warning r input)
unfolding resolve_with_warning
resolve_with_warning-HasRoute r input =
    if_lift HasRoute (text_eq input self_target)
      (if_lift HasRoute (is_any_gateway_name r self_target) (cons_ne _ []) tt)
      (elim (Option-cases (parse_explicit_qualified input)) [
        | inl e ↦ rw e (
            if_lift HasRoute (is_any_gateway_name r input && not (text_eq input local_alias))
              (cons_ne _ []) (resolve_bare-HasRoute r input))
        | inr (q, e) ↦ rw e (with_none-HasRoute _ (resolve_explicit-HasSome r q.0 q.1))
      ])

-- A target string that resolves, by whichever way, resolves to at least one route.
pub resolve_with_warning_routes :
    (r : Resolver) (input : Text) (result : ResolveResult)
    → resolve_with_warning r input ≡ ok result
    → result.routes ≢ []
resolve_with_warning_routes r input result h =
    subst HasRoute h (resolve_with_warning-HasRoute r input)
