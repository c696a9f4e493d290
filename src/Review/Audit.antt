-- ===== src/Review/Audit.antt =====
-- The outcome that is enforced is the outcome that the audit log shows.
use cross_host_ops.Base.{◌≡◌, ◌⊎◌, List, [], ◌∷◌}
use cross_host_ops.Review.{ReviewAction, allow, warn}
use cross_host_ops.Review.Enforce.{AuditReview}

-- The action lets the operation run without a question.
abbrev pub Permits : ReviewAction → Type 0
Permits a = (a ≡ allow) ⊎ (a ≡ warn)

-- Every entry of the log has such an action.
abbrev pub AllPermit : List AuditReview → Type 0
AllPermit [] = Unit
AllPermit (e ∷ es) = Permits e.action × AllPermit es
