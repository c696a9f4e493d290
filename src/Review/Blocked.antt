-- ===== src/Review/Blocked.antt =====
-- What the blocklist of copies keeps from being copied.
use cross_host_ops.Base.{
  ◌≡◌, refl, Bool, true, false, ◌||◌, List, [], ◌∷◌, ◌++◌, some, arith, any, ◌==◌, if◌then◌else◌,
  Result, Text, text_eq, text_eq_iff, text_eq_refl, contains_text, contains_char, strip_prefix_iff,
  split, prepend, codes,
}
use cross_host_ops.Review.{
  dangerous, deny, ReviewConfig, CopyDirection, copy, copy_detail, ReviewModelResult, slash,
  path_matches, matches_any, ends_component,
}
use cross_host_ops.Review.Enforce.{
  denied, run_review, record_event, review, review_copy, run_outcome, run_decision,
  blocklist_decision,
}

-- What stands behind a whole component of a path.
pub data Closes : Text → Type 0 where
  here : Closes []
  below : (rest : Text) → Closes (slash ∷ rest)

-- The path is the directory or file that the pattern names, or lies below it: the pattern is the
-- first part of the path, or, if it is one name, any component.
pub data IsUnder : Text → Text → Type 0 where
  at_top : (pattern : Text) {b : Text} → Closes b → IsUnder pattern (pattern ++ b)
  inside :
      (a pattern : Text) {b : Text}
      → contains_char slash pattern ≡ false
      → Closes b
      → IsUnder pattern (a ++ slash ∷ (pattern ++ b))

Closes-ends_component : {b : Text} → Closes b → ends_component (some b) ≡ true
Closes-ends_component here = refl
Closes-ends_component (below rest) = refl

abbrev others : List Text → List Text
others [] = []
others (p ∷ ps) = ps

-- The parts behind a separator are parts of the whole.
any-split_after :
    (f : Text → Bool) (a rest : Text)
    → any f (split slash rest) ≡ true
    → any f (others (split slash (a ++ slash ∷ rest))) ≡ true
any-split_after f [] rest h = h
any-split_after f (c ∷ a) rest h =
    let ih = any-split_after f a rest h in more (split slash (a ++ slash ∷ rest)) ih
  where
    more :
        (ps : List Text)
        → any f (others ps) ≡ true
        → any f (others (if c == slash then [] ∷ ps else prepend c ps)) ≡ true
    more [] g = ground arith
    more (p ∷ ps) g = ground arith

any-others : (f : Text → Bool) (ps : List Text) → any f (others ps) ≡ true → any f ps ≡ true
any-others f [] h = h
any-others f (p ∷ ps) h = ground arith

-- A name in front of the end of a component is the first part.
split-name :
    (p : Text) {b : Text}
    → contains_char slash p ≡ false
    → Closes b
    → (rest : List Text) × (split slash (p ++ b) ≡ p ∷ rest)
split-name [] h here = ([], refl)
split-name [] h (below rest) = (split slash rest, refl)
split-name (c ∷ p) {b} h e =
    let (rest, eq) = split-name p {b = b} (ground arith) e in
    (rest, let other : (c == slash) ≡ false = ground arith in rw (other, eq) refl)

IsUnder-path_matches :
    {pattern path : Text} → IsUnder pattern path → path_matches pattern path ≡ true
unfolding path_matches
IsUnder-path_matches (at_top pattern {b} e) =
    let cut = (strip_prefix_iff pattern (pattern ++ b) b).1 refl in
    let ends = Closes-ends_component e in ground arith
IsUnder-path_matches (inside a pattern {b} one e) =
    let (rest, eq) = split-name pattern {b = b} one e in
    let name = text_eq_refl pattern in
    let part : any (λ seg. text_eq seg pattern) (split slash (pattern ++ b)) ≡ true =
      rw (eq, name) refl in
    let whole : any (λ seg. text_eq seg pattern) (split slash (a ++ slash ∷ (pattern ++ b)))
        ≡ true =
      any-others (λ seg. text_eq seg pattern) (split slash (a ++ slash ∷ (pattern ++ b)))
        (any-split_after (λ seg. text_eq seg pattern) a (pattern ++ b) part) in
    ground arith

any-contains :
    (f : Text → Bool) (ps : List Text) (p : Text)
    → contains_text ps p ≡ true
    → f p ≡ true
    → any f ps ≡ true
any-contains f [] p h g = h
any-contains f (q ∷ ps) p h g = let ih = any-contains f ps p in ground (arith, text_eq_iff q p)

-- With the review of copies on, a copy whose remote path lies under an entry of the blocklist is
-- denied, whatever the allowlist, the policy and the model say, and if the audit log is on, its only
-- review event says so; if it is off, there is none.
pub run_review-blocked :
    (ask_exec : Text → List Text → Text → Result Text ReviewModelResult)
    (ask_copy : Text → CopyDirection → Text → Text → Result Text ReviewModelResult) (audit : Bool)
    (cfg : ReviewConfig) (target : Text) (direction : CopyDirection) (pattern path name : Text)
    → cfg.copy.enable ≡ true
    → contains_text cfg.copy.blocklist pattern ≡ true
    → IsUnder pattern path
    → run_review ask_exec ask_copy audit cfg
        (record { kind = copy; end_target = target; detail = copy_detail direction path name })
      ≡ (
        denied (codes "copy path matched blocklist pattern"),
        record_event audit (record {
          risk_level = dangerous;
          action = deny;
          reason = codes "copy path matched blocklist pattern";
        }),
      )
unfolding run_review review review_copy run_outcome run_decision blocklist_decision matches_any
run_review-blocked ask_exec ask_copy audit cfg target direction pattern path name on listed under =
    let hit = IsUnder-path_matches under in
    let found =
      any-contains (λ p. path_matches p path || path_matches p name) cfg.copy.blocklist pattern
        listed (ground arith) in
    rw (on, found) refl
