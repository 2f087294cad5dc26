-- ===== src/Policies/ToolApproval/Tests.antt =====
-- A tool call that is asked for twice, and the theorems at it.
use autobyteus_server_ts.Common.{ok, err, ◌≡◌, refl, ◌↔◌, [], ◌∷◌, arith}
use autobyteus_server_ts.Common.Text.{normalize, join, trim}
use autobyteus_server_ts.Common.Dict.{get, set}
use autobyteus_server_ts.Policies.ToolApproval.{
  register_key, register_pending_invocation, validate_key, normalize_version, ToolApprovals,
  build_invocation_key, stale_version, validate_invocation_version,
}
use autobyteus_server_ts.Policies.ToolApproval.Laws.{
  register_all, newest, validate-register_all_iff,
}

abbrev no_approvals : ToolApprovals
no_approvals = record { latest_version_by_invocation_key = [] }

stale_test :
    validate_invocation_version
      (register_all no_approvals "run" " call" (2 ∷ 1 ∷ []))
      "run"
      "call"
      1
    ≡ err (stale_version "run::call" 2 1)
unfolding validate_invocation_version build_invocation_key normalize trim normalize_version
    validate_key get register_pending_invocation register_key set join
stale_test = refl

validate-register_all_iff_example :
    (validate_invocation_version
        (register_all no_approvals "run" "call" (2 ∷ 3 ∷ 1 ∷ []))
        "run"
        "call"
        3
      ≡ ok tt)
    ↔ (3 ≡ newest (2 ∷ 3 ∷ 1 ∷ []))
unfolding build_invocation_key get normalize trim join
validate-register_all_iff_example =
    validate-register_all_iff "run" "call" "run::call" refl no_approvals 2 (3 ∷ 1 ∷ []) 3 refl
      (omega arith)
