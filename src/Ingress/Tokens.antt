-- ===== src/Ingress/Tokens.antt =====
-- The approval tokens of src/distributed/ingress/team-command-ingress-service.ts and their check.
use autobyteus_server_ts.Common.{
  ◌==◌, if◌then◌else◌, get_or, Result, ok, err, ◌>>=◌, ℕ, String, Bool, true, false, not, Option,
  none, some, str_eq,
}
use autobyteus_server_ts.Common.Text.{normalize_optional}
use autobyteus_server_ts.Policies.ToolApproval as ToolApproval
use autobyteus_server_ts.Policies.ToolApproval.{
  ToolApprovals, validate_invocation_version, missing_version, stale_version,
}
use autobyteus_server_ts.Ingress.{
  LocatorRecord, Error, invalid_approval_token, stale_approval_token, approval_target_mismatch,
  approval_invocation_not_pending, approval_failed, normalize_required,
}

pub record ToolApprovalToken : Type 0 where
  pub team_run_id : String
  pub run_version : ℕ
  pub invocation_id : String
  pub invocation_version : ℕ
  pub target_member_name : String

-- The `catch` around `validateInvocationVersion`.
abbrev pub lift_validation :
    (invocation : String) → Result ToolApproval.Error (Unit {0}) → Result Error (Unit {0})
lift_validation invocation (ok u) = ok u
lift_validation invocation (err (missing_version key)) =
    err (approval_invocation_not_pending invocation)
lift_validation invocation (err (stale_version key expected actual)) = err stale_approval_token
lift_validation invocation (err e) = err (approval_failed e)

-- `if (test) throw error`.
abbrev pub throw_if : Bool → Error → Result Error (Unit {0})
throw_if true e = err e
throw_if false e = ok tt

abbrev pub is_other_target : Option String → String → Bool
is_other_target none target = false
is_other_target (some agent) target = not (str_eq agent target)

-- `value && value > 0 ? Math.floor(value) : 1`, of a natural number or none.
abbrev pub version_or_one : Option ℕ → ℕ
version_or_one none = 1
version_or_one (some v) = if v == 0 then 1 else v

-- The token with its names normalized, as the source writes them into it.
unfoldable pub validate_tool_approval_token :
    ToolApprovals
    → ToolApprovalToken
    → LocatorRecord
    → Option String
    → Result Error ToolApprovalToken
validate_tool_approval_token approvals token run agent_name = do
  target ← normalize_required token.target_member_name "token.targetMemberName"
  invocation ← normalize_required token.invocation_id "token.invocationId"
  u1 ← throw_if (token.run_version == 0) invalid_approval_token
  u2 ← throw_if (token.invocation_version == 0) invalid_approval_token
  u3 ← throw_if (not (str_eq token.team_run_id run.team_run_id)) stale_approval_token
  u4 ← throw_if (not (token.run_version == run.run_version)) stale_approval_token
  u5 ←
      throw_if (is_other_target (normalize_optional agent_name) target)
        (approval_target_mismatch (get_or (normalize_optional agent_name) "") target)
  u6 ←
      lift_validation invocation
        (validate_invocation_version approvals run.team_run_id invocation token.invocation_version)
  ok (record token { target_member_name = target; invocation_id = invocation })
