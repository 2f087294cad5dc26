-- ===== src/Ingress/Validation.antt =====
-- What the check of an approval token asks of it.
use autobyteus_server_ts.Common.{
  ◌≤◌, none, get_or, ◌==◌, Result, ok, err, or_throw, >>=-eq-ok, or_throw-eq-ok, ℕ, String, ◌≡◌,
  refl, sym, ap, ◌∙◌, Bool, true, false, not, Option, some, arith, str_eq, str_eq_iff,
}
use autobyteus_server_ts.Common.Text.{normalize-IsNormal, IsNormal, normalize_optional, normalize}
use autobyteus_server_ts.Common.Dict.{get}
use autobyteus_server_ts.Policies.ToolApproval as ToolApproval
use autobyteus_server_ts.Policies.ToolApproval.{
  register_key, register_pending_invocation, ToolApprovals, build_invocation_key, normalize_version,
  validate_key, check_version, validate_invocation_version, complete_invocation, missing_version,
  stale_version,
}
use autobyteus_server_ts.Ingress.{
  approval_target_mismatch, LocatorRecord, Error, normalize_required,
}
use autobyteus_server_ts.Ingress.Tokens.{
  is_other_target, ToolApprovalToken, throw_if, validate_tool_approval_token, lift_validation,
}

throw_if-ok : (b : Bool) (e : Error) (u : Unit {0}) → throw_if b e ≡ ok u → b ≡ false
throw_if-ok true e u h = cc
throw_if-ok false e u h = refl

lift_validation-ok :
    (invocation : String) (r : Result ToolApproval.Error (Unit {0})) (u : Unit {0})
    → lift_validation invocation r ≡ ok u
    → r ≡ ok tt
lift_validation-ok invocation (ok tt) u h = refl
lift_validation-ok invocation (err (missing_version key)) u h = cc
lift_validation-ok invocation (err (stale_version key expected actual)) u h = cc
lift_validation-ok invocation (err (ToolApproval.empty_field f)) u h = cc
lift_validation-ok invocation (err ToolApproval.version_not_positive) u h = cc

validate-pending :
    (p : ToolApprovals) (run invocation : String) (version : ℕ)
    → validate_invocation_version p run invocation version ≡ ok tt
    → (key : String) × (build_invocation_key run invocation ≡ ok key)
      × (get p.latest_version_by_invocation_key key ≡ some version)
unfolding validate_invocation_version normalize_version validate_key check_version
validate-pending p run invocation version h =
    let (key, e, h1) = >>=-eq-ok (build_invocation_key run invocation) _ h in
    let (v, e2, h2) = >>=-eq-ok (normalize_version version) _ h1 in
    let (expected, e3, h3) =
      >>=-eq-ok (or_throw (get p.latest_version_by_invocation_key key) (missing_version key)) _
        h2 in
    (
      key,
      e,
      ground (arith, e2, h3, or_throw-eq-ok (get p.latest_version_by_invocation_key key) _ e3),
    )

-- A token that passes is of the run and of its version, and its call is pending in its version.
pub record IsCurrent (p : ToolApprovals) (token t : ToolApprovalToken) (run : LocatorRecord)
    : Type 0 where
  pub key : String
  pub of_run : token.team_run_id ≡ run.team_run_id
  pub of_version : token.run_version ≡ run.run_version
  pub named : normalize token.invocation_id ≡ some t.invocation_id
  pub keyed : build_invocation_key run.team_run_id t.invocation_id ≡ ok key
  pub is_pending : get p.latest_version_by_invocation_key key ≡ some token.invocation_version

pub validate-IsCurrent :
    (p : ToolApprovals) (token t : ToolApprovalToken) (run : LocatorRecord) (agent : Option String)
    → validate_tool_approval_token p token run agent ≡ ok t
    → IsCurrent p token t run
unfolding validate_tool_approval_token normalize_required
validate-IsCurrent p token t run agent h =
    let (target, e1, h1) =
      >>=-eq-ok (normalize_required token.target_member_name "token.targetMemberName") _ h in
    let (invocation, e2, h2) =
      >>=-eq-ok (normalize_required token.invocation_id "token.invocationId") _ h1 in
    let (_, e3, h3) = >>=-eq-ok (throw_if (token.run_version == 0) _) _ h2 in
    let (_, e4, h4) = >>=-eq-ok (throw_if (token.invocation_version == 0) _) _ h3 in
    let (u, e5, h5) =
      >>=-eq-ok (throw_if (not (str_eq token.team_run_id run.team_run_id)) _) _ h4 in
    let (v, e6, h6) = >>=-eq-ok (throw_if (not (token.run_version == run.run_version)) _) _ h5 in
    let (_, e7, h7) =
      >>=-eq-ok
        (throw_if (is_other_target (normalize_optional agent) target)
          (approval_target_mismatch (get_or (normalize_optional agent) "") target))
        _ h6 in
    let (w, e8, h8) =
      >>=-eq-ok
        (lift_validation invocation
          (validate_invocation_version p run.team_run_id invocation token.invocation_version))
        _ h7 in
    let (key, keyed, is_pending) =
      validate-pending p run.team_run_id invocation token.invocation_version
        (lift_validation-ok invocation _ w e8) in
    let same : invocation ≡ t.invocation_id = ground (arith, h8) in
    record {
      key = key;
      of_run = ground (arith, throw_if-ok _ _ u e5, str_eq_iff token.team_run_id run.team_run_id);
      of_version = ground (arith, throw_if-ok _ _ v e6);
      named = or_throw-eq-ok _ _ e2 ∙ ap some same;
      keyed = ap (build_invocation_key run.team_run_id) (sym same) ∙ keyed;
      is_pending = is_pending;
    }

pub validate-accepts :
    (p : ToolApprovals) (token : ToolApprovalToken) (run : LocatorRecord) (key : String)
    → IsNormal token.target_member_name
    → IsNormal token.invocation_id
    → 1 ≤ token.run_version
    → 1 ≤ token.invocation_version
    → token.team_run_id ≡ run.team_run_id
    → token.run_version ≡ run.run_version
    → build_invocation_key run.team_run_id token.invocation_id ≡ ok key
    → get p.latest_version_by_invocation_key key ≡ some token.invocation_version
    → validate_tool_approval_token p token run none ≡ ok token
unfolding validate_tool_approval_token normalize_required validate_invocation_version
    normalize_version validate_key check_version normalize_optional
validate-accepts p token run key target invocation pos pos' of_run of_version keyed is_pending =
    let a : (token.run_version == 0) ≡ false = ground arith in
    let b : (token.invocation_version == 0) ≡ false = ground arith in
    let c : str_eq token.team_run_id run.team_run_id ≡ true = (str_eq_iff _ _).1 of_run in
    let d : (token.run_version == run.run_version) ≡ true = ground (arith, of_version) in
    let e : (token.invocation_version == token.invocation_version) ≡ true = ground arith in
    rw (target, invocation, a, b, c, d, keyed, is_pending, e) refl

pub build_invocation_key-normalize :
    (run invocation trimmed : String)
    → normalize invocation ≡ some trimmed
    → build_invocation_key run invocation ≡ build_invocation_key run trimmed
unfolding build_invocation_key
build_invocation_key-normalize run invocation trimmed h =
    rw (h, normalize-IsNormal invocation trimmed h) refl
