-- ===== src/Resolver/Names.antt =====
-- Qualified names: how they are read, and that the name of a listed server leads back to its route.
use cross_host_ops.Base.{
  ◌≡◌, refl, sym, subst, ◌≢◌, ◌↔◌, inl, inr, false, [], ◌∷◌, ◌++◌, append_assoc, none, some, arith,
  ok, Text, contains_char, is_empty, starts_with, Option-cases,
}
use cross_host_ops.Resolver.{
  Route, ListSource, local_source, gateway_source, colon, all_digits, split_once,
  parse_explicit_qualified, full_target_name, route_from_source,
}

split_once-some :
    (s a b : Text)
    → split_once s ≡ some (a, b)
    → (s ≡ a ++ (colon ∷ b)) × (contains_char colon a ≡ false)
unfolding split_once
split_once-some [] a b h = ground arith
split_once-some (c ∷ s) a b h = elim (Option-cases (split_once s)) [
  | inl e ↦ ground arith
  | inr ((x, y), e) ↦ let ih = split_once-some s x y e in ground arith
]

split_once-append :
    (a b : Text) → contains_char colon a ≡ false → split_once (a ++ (colon ∷ b)) ≡ some (a, b)
unfolding split_once
split_once-append [] b h = refl
split_once-append (c ∷ a) b h =
    let ih = split_once-append a b (ground arith) in rw ih (ground arith)

split_once-none : (s : Text) → split_once s ≡ none → contains_char colon s ≡ false
unfolding split_once
split_once-none [] h = refl
split_once-none (c ∷ s) h = elim (Option-cases (split_once s)) [
  | inl e ↦ let ih = split_once-none s e in ground arith
  | inr ((x, y), e) ↦ ground arith
]

-- What stands behind the first colon of a qualified name: not empty, no second colon in front, and
-- not a port.
abbrev pub IsTarget : Text → Type 0
IsTarget t = (is_empty t ≡ false) × (starts_with (colon ∷ []) t ≡ false) × (all_digits t ≡ false)

parse-append :
    (g t : Text)
    → contains_char colon g ≡ false
    → is_empty g ≡ false
    → IsTarget t
    → parse_explicit_qualified (g ++ (colon ∷ t)) ≡ some (g, t)
unfolding parse_explicit_qualified
parse-append g t one named target = rw (split_once-append g t one) (ground arith)

-- A target string is read as qualified exactly if it is a name without a colon, not empty, then a
-- colon, and then a text that is not empty, does not begin with a colon and is not all digits.
parse_explicit_qualified_iff :
    (input g t : Text)
    → (parse_explicit_qualified input ≡ some (g, t)) ↔ (
        (input ≡ g ++ (colon ∷ t))
        × (contains_char colon g ≡ false)
        × (is_empty g ≡ false)
        × IsTarget t)
unfolding parse_explicit_qualified
parse_explicit_qualified_iff input g t = (
  λ h. elim (Option-cases (split_once input)) [
    | inl e ↦ absurd (ground arith)
    | inr ((a, b), e) ↦ let cut = split_once-some input a b e in ground arith
  ],
  λ v.
      subst (λ x. parse_explicit_qualified x ≡ some (g, t)) (sym v.0)
        (parse-append g t v.1 v.2 v.3),
)

-- The path of a source names a gateway on each side of its first colon.
abbrev pub IsProper : ListSource → Type 0
IsProper local_source = Unit
IsProper (gateway_source path) = (g : Text) → path ≢ g ++ (colon ∷ [])

no_rest :
    (path g : Text) (rest : Text)
    → path ≡ g ++ (colon ∷ rest)
    → ((h : Text) → path ≢ h ++ (colon ∷ []))
    → is_empty rest ≡ false
no_rest path g [] e proper = absurd (proper g e)
no_rest path g (c ∷ rest) e proper = refl

-- The route of a listed server is the one that its full name spells.
full_target_name-route :
    (src : ListSource) (alias : Text) (route : Route)
    → IsProper src
    → route_from_source src alias ≡ ok route
    → (full_target_name src alias ≡ route.gateway_name ++ (colon ∷ route.end_target))
      × (contains_char colon route.gateway_name ≡ false)
      × (is_empty route.gateway_name ≡ false)
unfolding full_target_name route_from_source
full_target_name-route local_source alias route proper h = ground arith
full_target_name-route (gateway_source path) alias route proper h =
    elim (Option-cases (split_once path)) [
      | inl e ↦ let one = split_once-none path e in ground arith
      | inr ((g, rest), e) ↦
          let cut = split_once-some path g rest e in
          let more = no_rest path g rest cut.0 proper in
          let assoc = append_assoc g (colon ∷ rest) (colon ∷ alias) in ground arith
    ]

-- The full name of a listed server, typed as a target, is read as the route of that server: if its
-- source is a path with a name on each side of its first colon, and what stands behind the gateway
-- is a target and not, say, a port.
pub parse-full_target_name :
    (src : ListSource) (alias : Text) (route : Route)
    → IsProper src
    → route_from_source src alias ≡ ok route
    → IsTarget route.end_target
    → parse_explicit_qualified (full_target_name src alias)
      ≡ some (route.gateway_name, route.end_target)
parse-full_target_name src alias route proper h target =
    let name = full_target_name-route src alias route proper h in
    (parse_explicit_qualified_iff (full_target_name src alias) route.gateway_name
        route.end_target).1
      (name.0, name.1, name.2, target)
