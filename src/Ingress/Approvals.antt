-- ===== src/Ingress/Approvals.antt =====
-- What a command with an approval token shows of the run and of the pending approvals.
use autobyteus_server_ts.Ingress.Pending.{Later-absent, Later, get-register_key}
use autobyteus_server_ts.Ingress.Validation.{
  validate-accepts, build_invocation_key-normalize, validate-IsCurrent, IsCurrent,
}
use autobyteus_server_ts.Common.Actions.{reads, continue-eq-ok}
use autobyteus_server_ts.Runs.Orchestrator.{DispatchResult}
use autobyteus_server_ts.Ingress.Commands.{
  register, issue_token, dispatch_tool_approval, assert_accepted, CommandResult, Answers, complete,
  finish_approval, dispatch_approval,
}
use autobyteus_server_ts.Common.{
  some-injective, ok-injective, subst, Bool-cases, ◌≤◌, none, Option-cases, inl, inr, Result-cases,
  ◌≢◌, ◌==◌, ok, or_throw, or_throw-eq-ok, ℕ, String, ◌≡◌, refl, sym, ap, ◌∙◌, Option, some, arith,
}
use autobyteus_server_ts.Common.Text.{normalize-IsNormal, normalize}
use autobyteus_server_ts.Common.Dict.{get-delete_self, delete, get}
use autobyteus_server_ts.Policies.ToolApproval.{
  register_key, register_pending_invocation, ToolApprovals, build_invocation_key, normalize_version,
  complete_invocation,
}
use autobyteus_server_ts.Ingress.{
  team_run_not_found, forget_record, refresh_record, resolve_active_run, Host, Runtime,
  LocatorRecord, normalize_required,
}
use autobyteus_server_ts.Ingress.Tokens.{
  version_or_one, ToolApprovalToken, validate_tool_approval_token,
}

-- The token is current for a call of the run.
record IsDispatched {A : Type 0} (found : Host A) (token : ToolApprovalToken) (run : LocatorRecord)
    : Type 0 where
  t : ToolApprovalToken
  current : IsCurrent found.approvals token t run

module _ {A : Type 0} (rt : Runtime A) where
  complete-taken :
      (run invocation key : String) (h h' : Host A) (u : Unit {0})
      → build_invocation_key run invocation ≡ ok key
      → complete rt run invocation h ≡ (ok u, h')
      → h'.approvals.latest_version_by_invocation_key
        ≡ delete h.approvals.latest_version_by_invocation_key key
  unfolding complete complete_invocation
  complete-taken run invocation key h h' u e done = ground (arith, e, done)

  finish_approval-taken :
      (run : LocatorRecord) (t : ToolApprovalToken) (result : DispatchResult) (key : String)
      (h h' : Host A) (r : CommandResult)
      → build_invocation_key run.team_run_id t.invocation_id ≡ ok key
      → finish_approval rt run t result h ≡ (ok r, h')
      → get h'.approvals.latest_version_by_invocation_key key ≡ none
  unfolding finish_approval
  finish_approval-taken run t result key h h' r keyed e =
      let (u, h1, e1, n1) =
        continue-eq-ok
          (reads
            (λ h.
              assert_accepted "TOOL_APPROVAL_REJECTED"
                "Tool approval rejected by distributed routing." result)
            h)
          _ e in
      let (v, h2, e2, n2) = continue-eq-ok (complete rt run.team_run_id t.invocation_id h1) _ n1 in
      ap (λ x. get x.1.approvals.latest_version_by_invocation_key key) (sym n2)
      ∙ ap (λ m. get m key) (complete-taken run.team_run_id t.invocation_id key h1 h2 v keyed e2)
      ∙ get-delete_self h1.approvals.latest_version_by_invocation_key key

  dispatch_approval-IsDispatched :
      (token : ToolApprovalToken) (run : LocatorRecord) (agent : Option String) (a : Answers)
      (h h' : Host A) (r : CommandResult)
      → dispatch_approval rt token run agent a h ≡ (ok r, h')
      → IsDispatched h token run
  unfolding dispatch_approval
  dispatch_approval-IsDispatched token run agent a h h' r e =
      let (t, h1, e1, n1) =
        continue-eq-ok (reads (λ h. validate_tool_approval_token h.approvals token run agent) h) _
          e in
      record {
        t = t;
        current = validate-IsCurrent h.approvals token t run agent (ap (λ x. x.0) e1);
      }

  refresh_record-approvals :
      (team : String) (r : LocatorRecord) (h : Host A)
      → (refresh_record rt team r h).1.approvals ≡ h.approvals
  unfolding refresh_record forget_record
  refresh_record-approvals team r h = ground arith

  resolve_active_run-approvals :
      (team_id : String) (h : Host A) → (resolve_active_run rt team_id h).1.approvals ≡ h.approvals
  unfolding resolve_active_run
  resolve_active_run-approvals team_id h =
      elim (Result-cases (normalize_required team_id "teamId")) [
        | inr (x, e) ↦ rw (e, resolve_active_run) refl
        | inl (team, e) ↦ elim (Option-cases (get h.record_by_team_id team)) [
          | inl n ↦ rw (e, n, resolve_active_run) refl
          | inr (r, n) ↦ rw (e, n, resolve_active_run) (refresh_record-approvals team r h)
        ]
      ]

  dispatch_tool_approval-IsDispatched :
      (team_id : String) (token : ToolApprovalToken) (agent : Option String) (a : Answers)
      (h h' : Host A) (r : CommandResult)
      → dispatch_tool_approval rt team_id token agent a h ≡ (ok r, h')
      → (run : LocatorRecord) × (found : Host A) × (found.approvals ≡ h.approvals)
        × IsDispatched found token run
  unfolding dispatch_tool_approval
  dispatch_tool_approval-IsDispatched team_id token agent a h h' r e =
      let (active, h1, e1, n1) = continue-eq-ok (resolve_active_run rt team_id h) _ e in
      let (run, h2, e2, n2) =
        continue-eq-ok (reads (λ h. or_throw active (team_run_not_found team_id)) h1) _ n1 in
      (
        run,
        h2,
        ap (λ x. x.1.approvals) (sym e2)
            ∙ ap (λ x. x.1.approvals) (sym e1)
            ∙ resolve_active_run-approvals team_id h,
        dispatch_approval-IsDispatched token run agent a h2 h' r n2,
      )

  -- An approval whose token was checked at any time before, and that has completed, uses the token
  -- up: no approval with it that begins later succeeds, whatever calls are completed and whatever
  -- other calls are registered in between. (One that began before is not meant, nor one after the
  -- call has been registered again.)
  pub dispatch_tool_approval-once :
      (team_id : String) (token t : ToolApprovalToken) (run : LocatorRecord)
      (agent agent' : Option String) (result : DispatchResult) (key : String) (a : Answers)
      (p : ToolApprovals) (h h' later later' : Host A) (r r' : CommandResult)
      → validate_tool_approval_token p token run agent ≡ ok t
      → build_invocation_key run.team_run_id t.invocation_id ≡ ok key
      → finish_approval rt run t result h ≡ (ok r, h')
      → Later h'.approvals key later.approvals
      → dispatch_tool_approval rt team_id token agent' a later ≢ (ok r', later')
  dispatch_tool_approval-once team_id token t run agent agent' result key a p h h' later later' r r'
        checked keyed first between again =
      let (run', found, unchanged, two) =
        dispatch_tool_approval-IsDispatched team_id token agent' a later later' r' again in
      let c = validate-IsCurrent p token t run agent checked in
      let c' = two.current in
      let same_run : run.team_run_id ≡ run'.team_run_id = sym c.of_run ∙ c'.of_run in
      let same_call : t.invocation_id ≡ two.t.invocation_id =
        some-injective _ _ (sym c.named ∙ c'.named) in
      let same_key : key ≡ c'.key = ok-injective _ _ (
        sym keyed
        ∙ ap (λ x. build_invocation_key x t.invocation_id) same_run
        ∙ ap (build_invocation_key run'.team_run_id) same_call
        ∙ c'.keyed) in
      let gone =
        Later-absent key between (finish_approval-taken run t result key h h' r keyed first) in
      let gone' : get found.approvals.latest_version_by_invocation_key c'.key ≡ none =
        ap (λ x. get x.latest_version_by_invocation_key c'.key) unchanged
        ∙ ap (get later.approvals.latest_version_by_invocation_key) (sym same_key)
        ∙ gone in
      cc (gone', c'.is_pending)

  version_or_one-pos : (version : Option ℕ) → 1 ≤ version_or_one version
  version_or_one-pos none = omega arith
  version_or_one-pos (some v) = ground arith

  register-pending :
      (token : ToolApprovalToken) (key : String) (h h' : Host A) (u : Unit {0})
      → build_invocation_key token.team_run_id token.invocation_id ≡ ok key
      → ((v : ℕ)
          → get h.approvals.latest_version_by_invocation_key key ≡ some v
          → v ≤ token.invocation_version)
      → register rt token h ≡ (ok u, h')
      → get h'.approvals.latest_version_by_invocation_key key ≡ some token.invocation_version
  unfolding register register_pending_invocation register_key normalize_version
  register-pending token key h h' u keyed newest e =
      elim (Bool-cases (token.invocation_version == 0)) [
        | inl b ↦ absurd (cc (rw (keyed, b, register) at e))
        | inr b ↦
            let e' = rw (keyed, b, register) at e in
            ap (λ x. get x.1.approvals.latest_version_by_invocation_key key) (sym e')
            ∙ get-register_key h.approvals key token.invocation_version newest
      ]

  -- A token that has just been issued passes the check, if its call was not pending in a higher
  -- version before.
  pub issue_token-validate :
      (run : LocatorRecord) (invocation_id target_member_name key : String) (version : Option ℕ)
      (h h' : Host A) (token : ToolApprovalToken)
      → issue_token rt run invocation_id target_member_name version h ≡ (ok token, h')
      → 1 ≤ run.run_version
      → build_invocation_key run.team_run_id invocation_id ≡ ok key
      → ((v : ℕ)
          → get h.approvals.latest_version_by_invocation_key key ≡ some v
          → v ≤ version_or_one version)
      → validate_tool_approval_token h'.approvals token run none ≡ ok token
  unfolding issue_token normalize_required
  issue_token-validate run invocation_id target_member_name key version h h' token e pos keyed
        newest =
      let (invocation, h1, e1, n1) =
        continue-eq-ok (reads (λ h. normalize_required invocation_id "invocationId") h) _ e in
      let (target, h2, e2, n2) =
        continue-eq-ok (reads (λ h. normalize_required target_member_name "targetMemberName") h1) _
          n1 in
      let made : ToolApprovalToken = record {
        team_run_id = run.team_run_id;
        run_version = run.run_version;
        invocation_id = invocation;
        invocation_version = version_or_one version;
        target_member_name = target;
      } in
      let (u, h3, e3, n3) = continue-eq-ok (register rt made h2) _ n2 in
      let named = or_throw-eq-ok (normalize invocation_id) _ (ap (λ x. x.0) e1) in
      let aimed = or_throw-eq-ok (normalize target_member_name) _ (ap (λ x. x.0) e2) in
      let keyed' =
        sym (build_invocation_key-normalize run.team_run_id invocation_id invocation named)
        ∙ keyed in
      let same : h ≡ h2 = ap (λ x. x.1) e1 ∙ ap (λ x. x.1) e2 in
      let newest' : (v : ℕ)
          → get h2.approvals.latest_version_by_invocation_key key ≡ some v
          → v ≤ version_or_one version =
        subst
          (λ x.
            (v : ℕ)
            → get x.approvals.latest_version_by_invocation_key key ≡ some v
            → v ≤ version_or_one version)
          same newest in
      let last : h3 ≡ h' = ap (λ x. x.1) n3 in
      let is_token : made ≡ token = ok-injective _ _ (ap (λ x. x.0) n3) in
      let is_pending =
        ap (λ x. get x.approvals.latest_version_by_invocation_key key) (sym last)
        ∙ register-pending made key h2 h3 u keyed' newest' e3 in
      subst (λ t. validate_tool_approval_token h'.approvals t run none ≡ ok t) is_token
        (validate-accepts h'.approvals made run key (normalize-IsNormal _ _ aimed)
          (normalize-IsNormal _ _ named) pos (version_or_one-pos version) refl refl keyed'
          is_pending)
