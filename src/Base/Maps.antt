-- ===== src/Base/Maps.antt =====
-- `HashMap<String, V>` as an association list with distinct keys, and its laws.
use mathlib.Core.Path.{◌≡◌, refl}
use mathlib.Core.List.{List, [], ◌∷◌}
use mathlib.Core.Bool.{Bool, not}
use mathlib.Core.Option.{Option, none, some}
use native.Mathlib.Omega.{arith}
use cross_host_ops.Base.Tests.{if◌then◌else◌}
use cross_host_ops.Base.Lists.{retain}
use cross_host_ops.Base.Chars.{Text, text_eq, text_eq_iff}

abbrev pub Dict {ℓ} : Type ℓ → Type ℓ
Dict V = List (Text × V)

module _ {ℓ} {V : Type ℓ} where
  abbrev pub lookup : Text → Dict V → Option V
  lookup k [] = none
  lookup k ((j, v) ∷ m) = let rest = lookup k m in if text_eq j k then some v else rest

  abbrev pub insert : Text → V → Dict V → Dict V
  insert k v [] = (k, v) ∷ []
  insert k v ((j, w) ∷ m) =
      let rest = insert k v m in if text_eq j k then (k, v) ∷ m else (j, w) ∷ rest

  abbrev pub remove : Text → Dict V → Dict V
  remove k m = retain (λ e. not (text_eq e.0 k)) m

  -- `retain` by the value.
  abbrev pub retain_values : (V → Bool) → Dict V → Dict V
  retain_values p m = retain (λ e. p e.1) m

  abbrev pub keep : (V → Bool) → Option V → Option V
  keep p none = none
  keep p (some v) = if p v then some v else none

  -- Each key stands once.
  abbrev pub Distinct : Dict V → Type ℓ
  Distinct [] = Unit
  Distinct ((j, v) ∷ m) = (lookup j m ≡ none) × Distinct m

module _ {ℓ} {V : Type ℓ} where
  pub lookup-insert :
      (k j : Text) (v : V) (m : Dict V)
      → lookup j (insert k v m) ≡ (if text_eq k j then some v else lookup j m)
  lookup-insert k j v [] = refl
  lookup-insert k j v ((i, w) ∷ m) =
      ground (arith, text_eq_iff k j, text_eq_iff i k, text_eq_iff i j, lookup-insert k j v m)

  pub lookup-remove :
      (k j : Text) (m : Dict V) → lookup j (remove k m) ≡ (if text_eq k j then none else lookup j m)
  lookup-remove k j [] = ground arith
  lookup-remove k j ((i, w) ∷ m) =
      ground (arith, text_eq_iff k j, text_eq_iff i k, text_eq_iff i j, lookup-remove k j m)

  pub lookup-retain-none :
      (p : Text × V → Bool) (j : Text) (m : Dict V)
      → lookup j m ≡ none
      → lookup j (retain p m) ≡ none
  lookup-retain-none p j [] h = refl
  lookup-retain-none p j ((i, w) ∷ m) h = ground (arith, lookup-retain-none p j m)

  pub lookup-retain_values :
      (p : V → Bool) (j : Text) (m : Dict V)
      → Distinct m
      → lookup j (retain_values p m) ≡ keep p (lookup j m)
  lookup-retain_values p j [] h = refl
  lookup-retain_values p j ((i, w) ∷ m) h = ground (
    arith,
    text_eq_iff i j,
    lookup-retain_values p j m h.1,
    lookup-retain-none (λ e. p e.1) i m h.0,
  )

  pub retain-Distinct : (p : Text × V → Bool) (m : Dict V) → Distinct m → Distinct (retain p m)
  retain-Distinct p [] h = tt
  retain-Distinct p ((i, w) ∷ m) h =
      ground (arith, retain-Distinct p m h.1, lookup-retain-none p i m h.0)

  pub insert-Distinct : (k : Text) (v : V) (m : Dict V) → Distinct m → Distinct (insert k v m)
  insert-Distinct k v [] h = (refl, tt)
  insert-Distinct k v ((i, w) ∷ m) h =
      ground
        (arith, text_eq_iff i k, text_eq_iff k i, insert-Distinct k v m h.1, lookup-insert k i v m)
