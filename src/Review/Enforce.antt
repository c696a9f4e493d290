-- ===== src/Review/Enforce.antt =====
-- The review of an operation with the model's answers as parameters (`CommandReviewer::review` of
-- src/oversight/review.rs), and its enforcement (`run_review`, `run_decision` of
-- src/daemon/mod.rs).
use cross_host_ops.Base.{
  Bool, ◌||◌, List, [], ◌∷◌, ◌++◌, none, some, if◌then◌else◌, Result, ok, err, Text, codes,
  is_empty,
}
use cross_host_ops.Review.{
  RiskLevel, safe, dangerous, ReviewAction, allow, warn, confirm, deny, ReviewPolicy, action_for,
  ReviewConfig, CopyDirection, OperationKind, exec, exec_interactive, copy, session, proxy,
  OperationDetail, exec_detail, copy_detail, Operation, ReviewModelResult, ReviewDecision,
  ReviewOutcome, skipped, decision, failed, matches_any, fast_allow,
}

pub data Enforced : Type 0 where
  proceed : Enforced
  confirms denied : Text → Enforced

-- A review event of the audit log.
pub record AuditReview : Type 0 where
  pub risk_level : RiskLevel
  pub action : ReviewAction
  pub reason : Text

-- `audit::record`, which does nothing when the audit log is switched off. The writer of the log
-- loses no event.
abbrev pub record_event : Bool → AuditReview → List AuditReview
record_event enabled event = if enabled then event ∷ [] else []

-- `map_or_else(ReviewOutcome::Failed, ReviewOutcome::Decision)` behind the decision that
-- `call_llm_exec` and `call_llm_copy` make of the model's answer.
unfoldable pub of_model : ReviewPolicy → Result Text ReviewModelResult → ReviewOutcome
of_model policy (err e) = failed e
of_model policy (ok r) = decision (record {
  risk_level = r.risk_level;
  action = action_for policy r.risk_level;
  reason = r.reason;
  matched_whitelist_reason = r.matched_whitelist_reason;
})

-- The check of the configuration, in front of the call.
unfoldable pub with_endpoint :
    ReviewConfig → Result Text ReviewModelResult → Result Text ReviewModelResult
with_endpoint cfg answer =
    if is_empty cfg.endpoint || is_empty cfg.model
    then err (codes "review is enabled but endpoint/model is missing")
    else answer

unfoldable pub blocklist_decision : ReviewDecision
blocklist_decision = record {
  risk_level = dangerous;
  action = deny;
  reason = codes "copy path matched blocklist pattern";
  matched_whitelist_reason = some (codes "blocklist");
}

unfoldable pub allowlist_decision : ReviewPolicy → ReviewDecision
allowlist_decision policy = record {
  risk_level = safe;
  action = action_for policy safe;
  reason = codes "copy path matched allowlist pattern";
  matched_whitelist_reason = some (codes "allowlist");
}

unfoldable pub run_decision : Bool → ReviewDecision → Enforced × List AuditReview
run_decision audit d = (enforce d.action, record_event audit event)
  where
    enforce : ReviewAction → Enforced
    enforce allow = proceed
    enforce warn = proceed
    enforce confirm = confirms d.reason
    enforce deny = denied d.reason

    event : AuditReview
    event = record { risk_level = d.risk_level; action = d.action; reason = d.reason }

unfoldable pub run_failure : Bool → ReviewAction → Text → Enforced × List AuditReview
run_failure audit action error = (enforce action, record_event audit event)
  where
    enforce : ReviewAction → Enforced
    enforce allow = proceed
    enforce warn = proceed
    enforce confirm = confirms (codes "review service failed: " ++ error)
    enforce deny = denied (codes "review failed and policy is deny: " ++ error)

    event : AuditReview
    event = record {
      risk_level = dangerous;
      action = action;
      reason = codes "review failed: " ++ error;
    }

unfoldable pub run_outcome : Bool → ReviewAction → ReviewOutcome → Enforced × List AuditReview
unfolding run_decision run_failure
run_outcome audit failure_action skipped = (proceed, [])
run_outcome audit failure_action (failed e) = run_failure audit failure_action e
run_outcome audit failure_action (decision d) = run_decision audit d

module _ (ask_exec : Text → List Text → Text → Result Text ReviewModelResult)
    (ask_copy : Text → CopyDirection → Text → Text → Result Text ReviewModelResult) where
  unfoldable pub review_exec : ReviewConfig → Text → OperationDetail → ReviewOutcome
  unfolding of_model with_endpoint
  review_exec cfg target (exec_detail argv command) =
      if cfg.exec.enable
      then elim (fast_allow cfg.exec argv) [
        | some d ↦ decision d
        | none ↦ of_model cfg.exec.policy (with_endpoint cfg (ask_exec target argv command))
      ]
      else skipped
  review_exec cfg target _ = skipped

  unfoldable pub review_copy : ReviewConfig → Text → OperationDetail → ReviewOutcome
  unfolding of_model with_endpoint
  review_copy cfg target (copy_detail direction remote_path source_name) =
      if cfg.copy.enable
      then (if matches_any cfg.copy.blocklist remote_path source_name
          then decision blocklist_decision
          else if matches_any cfg.copy.allowlist remote_path source_name
          then decision (allowlist_decision cfg.copy.policy)
          else of_model cfg.copy.policy
              (with_endpoint cfg (ask_copy target direction remote_path source_name)))
      else skipped
  review_copy cfg target _ = skipped

  unfoldable pub review : ReviewConfig → Operation → ReviewOutcome
  review cfg op = by_kind op.kind
    where
      by_kind : OperationKind → ReviewOutcome
      by_kind exec = review_exec cfg op.end_target op.detail
      by_kind exec_interactive = review_exec cfg op.end_target op.detail
      by_kind copy = review_copy cfg op.end_target op.detail
      by_kind session = skipped
      by_kind proxy = skipped

  -- `audit` says whether the audit log is on.
  unfoldable pub run_review : Bool → ReviewConfig → Operation → Enforced × List AuditReview
  unfolding run_outcome
  run_review audit cfg op = run_outcome audit cfg.failure_action (review cfg op)
