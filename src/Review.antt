-- ===== src/Review.antt =====
-- The review of an operation before it runs, and what the daemon does with the outcome:
-- src/oversight/review.rs, `run_review` and `run_decision` of src/daemon/mod.rs, with the types of
-- src/config/review.rs and src/oversight/mod.rs. What `run_review` writes to the audit log is the
-- second part of its result.
--
-- The answer of the model behind `call_llm`, over HTTP and through `serde_json`, is a parameter for
-- each kind of operation, of which nothing is assumed.
pub mod Enforce
pub mod Globs
pub mod Blocked
pub mod Audit
mod Tests
use cross_host_ops.Base.{
  ℕ, zero, suc, ◌≡◌, Bool, true, false, not, ◌&&◌, ◌||◌, List, [], ◌∷◌, ◌++◌, Option, none, some,
  length, any, ◌==◌, if◌then◌else◌, Result, ok, err, Text, codes, text_eq, contains_text,
  contains_char, is_empty, strip_prefix, starts_with, split, join, newline,
}

pub data RiskLevel : Type 0 where
  safe risky dangerous : RiskLevel

pub data ReviewAction : Type 0 where
  allow warn confirm deny : ReviewAction

pub record ReviewPolicy : Type 0 where
  pub on_safe : ReviewAction
  pub on_risky : ReviewAction
  pub on_dangerous : ReviewAction

pub action_for : ReviewPolicy → RiskLevel → ReviewAction
action_for p safe = p.on_safe
action_for p risky = p.on_risky
action_for p dangerous = p.on_dangerous

pub record ReviewExecConfig : Type 0 where
  pub enable : Bool
  pub policy : ReviewPolicy
  pub fast_enable : Bool
  pub fast_commands : List Text

pub record ReviewCopyConfig : Type 0 where
  pub enable : Bool
  pub policy : ReviewPolicy
  pub allowlist : List Text
  pub blocklist : List Text

pub record ReviewConfig : Type 0 where
  pub endpoint : Text
  pub model : Text
  pub failure_action : ReviewAction
  pub exec : ReviewExecConfig
  pub copy : ReviewCopyConfig

pub data CopyDirection : Type 0 where
  upload download : CopyDirection

pub data OperationKind : Type 0 where
  exec exec_interactive copy session proxy : OperationKind

pub data OperationDetail : Type 0 where
  exec_detail : List Text → Text → OperationDetail
  copy_detail : CopyDirection → Text → Text → OperationDetail
  session_op : OperationDetail

pub record Operation : Type 0 where
  pub kind : OperationKind
  pub end_target : Text
  pub detail : OperationDetail

pub record ReviewModelResult : Type 0 where
  pub risk_level : RiskLevel
  pub reason : Text
  pub matched_whitelist_reason : Option Text

pub record ReviewDecision : Type 0 where
  pub risk_level : RiskLevel
  pub action : ReviewAction
  pub reason : Text
  pub matched_whitelist_reason : Option Text

pub data ReviewOutcome : Type 0 where
  skipped : ReviewOutcome
  decision : ReviewDecision → ReviewOutcome
  failed : Text → ReviewOutcome

-- Every way to cut the text in front: `next_ti in ti..=text.len()`.
pub suffixes : Text → List Text
suffixes [] = [] ∷ []
suffixes (c ∷ t) = (c ∷ t) ∷ suffixes t

pub glob_match : Text → Text → Bool
unfolding suffixes
glob_match [] t = is_empty t
glob_match (c ∷ p) [] = if c == b'*' then any (glob_match p) ([] ∷ []) else false
glob_match (c ∷ p) (d ∷ t) =
    if c == b'*' then any (glob_match p) (suffixes (d ∷ t)) else c == d && glob_match p t

abbrev pub slash : ℕ
slash = b'/'

abbrev pub ends_component : Option Text → Bool
ends_component none = false
ends_component (some rest) = is_empty rest || starts_with (slash ∷ []) rest

pub path_matches : Text → Text → Bool
path_matches pattern path =
    glob_match pattern path
    || (ends_component (strip_prefix pattern path)
        || (any (λ seg. text_eq seg pattern) (split slash path)
            || any (λ seg. contains_char b'*' pattern && glob_match pattern seg)
                (split slash path)))

pub matches_any : List Text → Text → Text → Bool
matches_any patterns remote_path source_name =
    any (λ p. path_matches p remote_path || path_matches p source_name) patterns

-- `str::contains` of a text.
abbrev pub contains : Text → Text → Bool
contains sub [] = starts_with sub []
contains sub (c ∷ s) = starts_with sub (c ∷ s) || contains sub s

abbrev pub interpreters : List Text
interpreters =
    codes "bash"
    ∷ codes "sh"
    ∷ codes "zsh"
    ∷ codes "python"
    ∷ codes "python3"
    ∷ codes "perl"
    ∷ codes "ruby"
    ∷ []

abbrev pub operators : List Text
operators = codes "&&" ∷ codes "||" ∷ codes ";" ∷ codes "$(" ∷ codes "`" ∷ (newline ∷ []) ∷ []

pub is_complex_script : List Text → Bool
is_complex_script [] = false
is_complex_script (first ∷ args) =
    contains_text interpreters first
    || any (λ arg. any (λ o. contains o arg) operators) (first ∷ args)

pub matches_fast_pattern : Text → List Text → Text → Bool
matches_fast_pattern pattern argv raw_command =
    if contains_char b'*' pattern then glob_match pattern raw_command else single argv
  where
    single : List Text → Bool
    single (arg ∷ []) = text_eq arg pattern
    single _ = text_eq raw_command pattern

pub fast_allow : ReviewExecConfig → List Text → Option ReviewDecision
fast_allow cfg [] = none
fast_allow cfg (first ∷ args) =
    if not cfg.fast_enable || is_complex_script (first ∷ args)
    then none
    else if any (λ p. matches_fast_pattern p (first ∷ args) (join (codes " ") (first ∷ args)))
        cfg.fast_commands
    then some (record {
      risk_level = safe;
      action = action_for cfg.policy safe;
      reason = codes "Matched local fast allowlist for a simple command.";
      matched_whitelist_reason = some (codes "fast_allowlist");
    })
    else none
