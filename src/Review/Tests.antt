-- ===== src/Review/Tests.antt =====
-- Reviews of single operations.
use cross_host_ops.Base.{◌≡◌, refl, ◌↔◌, true, List, [], ◌∷◌, Result, err, Text, codes}
use cross_host_ops.Review.{
  dangerous, allow, confirm, deny, ReviewPolicy, ReviewConfig, CopyDirection, download, copy,
  copy_detail, Operation, ReviewModelResult, glob_match,
}
use cross_host_ops.Review.Enforce.{denied, run_review}
use cross_host_ops.Review.Globs.{Matches, glob_match_iff}
use cross_host_ops.Review.Blocked.{inside, below, run_review-blocked}

abbrev policy : ReviewPolicy
policy = record { on_safe = allow; on_risky = confirm; on_dangerous = deny }

abbrev config : ReviewConfig
config = record {
  endpoint = codes "https://api.openai.com/v1/chat/completions";
  model = codes "gpt-4.1-mini";
  failure_action = deny;
  exec = record {
    enable = true;
    policy = policy;
    fast_enable = true;
    fast_commands = codes "df -*" ∷ [];
  };
  copy = record {
    enable = true;
    policy = policy;
    allowlist = codes "*" ∷ [];
    blocklist = codes ".aws" ∷ codes ".ssh" ∷ [];
  };
}

abbrev no_exec : Text → List Text → Text → Result Text ReviewModelResult
no_exec target argv command = err (codes "offline")

abbrev no_copy : Text → CopyDirection → Text → Text → Result Text ReviewModelResult
no_copy target direction path name = err (codes "offline")

abbrev key_path : Text
key_path = codes "/home/u/.ssh/id_rsa"

abbrev operation : Operation
operation = record {
  kind = copy;
  end_target = codes "web1";
  detail = copy_detail download key_path (codes "id_rsa");
}

run_review-blocked_example : run_review no_exec no_copy true config operation ≡ (
  denied (codes "copy path matched blocklist pattern"),
  record {
    risk_level = dangerous;
    action = deny;
    reason = codes "copy path matched blocklist pattern";
  }
      ∷ [],
)
run_review-blocked_example =
    run_review-blocked no_exec no_copy true config (codes "web1") download (codes ".ssh") key_path
      (codes "id_rsa") refl refl
      (inside (codes "/home/u") (codes ".ssh") refl (below (codes "id_rsa")))

glob_match_iff_example :
    (glob_match (codes "*.pem") (codes "id.pem") ≡ true) ↔ Matches (codes "*.pem") (codes "id.pem")
glob_match_iff_example = glob_match_iff (codes "*.pem") (codes "id.pem")
