-- ===== src/Tokens/Tests.antt =====
-- Runs of the token store, with the identity in place of the hash.
use cross_host_ops.Base.{
  ℕ, ◌≡◌, refl, ◌≢◌, ◌↔◌, true, false, List, [], ◌∷◌, none, some, Text, codes, trim, lookup,
}
use cross_host_ops.Tokens.{
  TokenEntry, Store, Call, generates, lists, generate, validate, validate_entry, invalidate, run,
}
use cross_host_ops.Tokens.Once.{validate_once}
use cross_host_ops.Tokens.Revoke.{invalidate-prefix}

abbrev same : Text → Text
same s = s

abbrev token : Text
token = codes "0123456789ab"

abbrev entry : TokenEntry
entry = record {
  prefix = codes "01234567";
  hash = token;
  expires_at = 130;
  once = true;
  consumed = false;
  created_at = 100;
  label = none;
}

abbrev store : Store
store = (token, entry) ∷ []

issued : generate same [] 100 30 true none token ≡ store
unfolding generate
issued = refl

abbrev between : List (ℕ × Call)
between = (102, lists) ∷ (103, generates 50 false none (codes "other")) ∷ []

validate_once_example :
    (validate same (run same (validate same store 101 token).0 between) 104 token).1 ≡ false
unfolding validate validate_entry
validate_once_example =
    validate_once same store 101 token entry between 104 (refl, tt) refl refl refl
      (tt, ((λ e. cc), tt))

not_stored : lookup (trim (codes " 01234567 ")) store ≡ none
unfolding trim
not_stored = refl

invalidate-prefix_example :
    (lookup token (invalidate same store (codes " 01234567 ")).0 ≡ some entry)
    ↔ ((lookup token store ≡ some entry) × (entry.prefix ≢ trim (codes " 01234567 ")))
invalidate-prefix_example =
    invalidate-prefix same store (codes " 01234567 ") token entry (refl, tt) not_stored

by_prefix : (invalidate same store (codes " 01234567 ")).0 ≡ []
unfolding invalidate trim
by_prefix = refl
