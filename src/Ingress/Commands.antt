-- ===== src/Ingress/Commands.antt =====
-- src/distributed/ingress/team-command-ingress-service.ts: the commands of clients to a team. What
-- the run's routing adapter answers is an argument, as in Runs.Dispatch; a dispatch and what follows
-- its answer are one step.
use autobyteus_server_ts.Common.{
  get_or, Result, ok, err, or_throw, ℕ, String, not, Option, none, some, str_eq,
}
use autobyteus_server_ts.Common.Text.{normalize_optional}
use autobyteus_server_ts.Ingress.Tokens.{
  ToolApprovalToken, throw_if, version_or_one, validate_tool_approval_token,
}
use autobyteus_server_ts.Common.Actions.{Action, ◌>>=◌, reads}
use autobyteus_server_ts.Policies.ToolApproval.{register_pending_invocation, complete_invocation}
use autobyteus_server_ts.Runs.Orchestrator.{DispatchResult, Reply}
use autobyteus_server_ts.Runs.Dispatch.{
  TeamEvent, user_message, inter_agent_message, tool_approval, dispatch_event,
}
use autobyteus_server_ts.Ingress.{
  LocatorRecord, Error, target_member_required, rejected_with, team_run_not_found, approval_failed,
  Host, Runtime, normalize_required, resolve_active_run, resolve_or_create_run,
}

pub record CommandResult : Type 0 where
  pub team_id : String
  pub team_run_id : String
  pub run_version : ℕ

-- What comes from outside during a dispatch: the adapter's answers and the clock.
pub record Answers : Type 0 where
  pub reply : Reply
  pub stop_reply : Reply
  pub now : ℕ
  pub now_iso : String

abbrev pub command_result : LocatorRecord → CommandResult
command_result r = record {
  team_id = r.team_id;
  team_run_id = r.team_run_id;
  run_version = r.run_version;
}

-- A result that is not accepted is thrown.
unfoldable pub assert_accepted : (code message : String) → DispatchResult → Result Error (Unit {0})
assert_accepted code message r =
    throw_if (not r.accepted)
      (rejected_with (get_or r.error_code code) (get_or r.error_message message))

module _ {A : Type 0} where
  unfoldable pub dispatch :
      LocatorRecord → TeamEvent → Answers → Action (Host A) Error DispatchResult
  dispatch run event a h =
      let (result, o) =
        dispatch_event h.orchestrator run.team_run_id event a.reply a.now a.stop_reply a.now_iso in
      (ok result, record h { orchestrator = o })

  module _ (rt : Runtime A) where
    unfoldable pub dispatch_user_message :
        (team_id : String)
        → (target_member_name : Option String) → (run_id : String) → Answers
        → Action (Host A) Error CommandResult
    dispatch_user_message team_id target_member_name run_id a = do
      run ← resolve_or_create_run rt team_id run_id a.now_iso
      let target = get_or (normalize_optional target_member_name) run.coordinator_member_name
      u ← reads (λ h. throw_if (str_eq target "") target_member_required)
      result ← dispatch run (user_message target) a
      v ← reads (λ h.
          assert_accepted "USER_MESSAGE_REJECTED" "User message rejected by distributed routing."
            result)
      reads (λ h. ok (command_result run))

    unfoldable pub dispatch_inter_agent_message :
        (team_id target run_id : String) → Answers → Action (Host A) Error CommandResult
    dispatch_inter_agent_message team_id target run_id a = do
      run ← resolve_or_create_run rt team_id run_id a.now_iso
      result ← dispatch run (inter_agent_message target) a
      v ← reads (λ h.
          assert_accepted "INTER_AGENT_MESSAGE_REJECTED"
            "Inter-agent message rejected by distributed routing." result)
      reads (λ h. ok (command_result run))

    -- The approvals without the one that was taken.
    unfoldable pub complete : (run invocation : String) → Action (Host A) Error (Unit {0})
    complete run invocation h = elim (complete_invocation h.approvals run invocation) [
      | err e ↦ (err (approval_failed e), h)
      | ok rest ↦ (ok tt, record h { approvals = rest })
    ]

    -- Behind the await of the dispatch, on the host as it is by then.
    unfoldable pub finish_approval :
        LocatorRecord → ToolApprovalToken → DispatchResult → Action (Host A) Error CommandResult
    finish_approval run t result = do
      u ← reads (λ h.
          assert_accepted "TOOL_APPROVAL_REJECTED" "Tool approval rejected by distributed routing."
            result)
      v ← complete run.team_run_id t.invocation_id
      reads (λ h. ok (command_result run))

    -- From the active run on, with nothing else at work during the await.
    unfoldable pub dispatch_approval :
        ToolApprovalToken
        → LocatorRecord
        → Option String
        → Answers
        → Action (Host A) Error CommandResult
    dispatch_approval token run agent_name a = do
      t ← reads (λ h. validate_tool_approval_token h.approvals token run agent_name)
      result ← dispatch run (tool_approval t.target_member_name) a
      finish_approval run t result

    unfoldable pub dispatch_tool_approval :
        (team_id : String)
        → ToolApprovalToken
        → (agent_name : Option String) → Answers
        → Action (Host A) Error CommandResult
    dispatch_tool_approval team_id token agent_name a = do
      active ← resolve_active_run rt team_id
      run ← reads (λ h. or_throw active (team_run_not_found team_id))
      dispatch_approval token run agent_name a

    unfoldable pub register : ToolApprovalToken → Action (Host A) Error (Unit {0})
    register token h =
        elim (register_pending_invocation h.approvals token.team_run_id token.invocation_id
          token.invocation_version) [
            | err e ↦ (err (approval_failed e), h)
            | ok approvals ↦ (ok tt, record h { approvals = approvals })
          ]

    unfoldable pub issue_token :
        LocatorRecord
        → (invocation_id target_member_name : String) → Option ℕ
        → Action (Host A) Error ToolApprovalToken
    issue_token run invocation_id target_member_name version = do
      invocation ← reads (λ h. normalize_required invocation_id "invocationId")
      target ← reads (λ h. normalize_required target_member_name "targetMemberName")
      let token : ToolApprovalToken = record {
        team_run_id = run.team_run_id;
        run_version = run.run_version;
        invocation_id = invocation;
        invocation_version = version_or_one version;
        target_member_name = target;
      }
      u ← register token
      reads (λ h. ok token)

    unfoldable pub issue_tool_approval_token :
        (team_id invocation_id target_member_name : String)
        → Option ℕ
        → (run_id now_iso : String) → Action (Host A) Error ToolApprovalToken
    issue_tool_approval_token team_id invocation_id target_member_name version run_id now_iso = do
      run ← resolve_or_create_run rt team_id run_id now_iso
      issue_token run invocation_id target_member_name version

    abbrev pub issue_found :
        Option LocatorRecord
        → (invocation_id target_member_name : String) → Option ℕ
        → Action (Host A) Error (Option ToolApprovalToken)
    issue_found none invocation_id target_member_name version = reads (λ h. ok none)
    issue_found (some run) invocation_id target_member_name version = do
      token ← issue_token run invocation_id target_member_name version
      reads (λ h. ok (some token))

    unfoldable pub issue_tool_approval_token_from_active_run :
        (team_id invocation_id target_member_name : String)
        → Option ℕ
        → Action (Host A) Error (Option ToolApprovalToken)
    issue_tool_approval_token_from_active_run team_id invocation_id target_member_name version = do
      active ← resolve_active_run rt team_id
      issue_found active invocation_id target_member_name version
