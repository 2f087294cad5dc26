-- ===== src/Ingress/Tests.antt =====
-- A team whose commands start a run, and a tool call of it that is approved.
use autobyteus_server_ts.Common.Dict.{get}
use autobyteus_server_ts.Common.Text.{join, trim, normalize}
use autobyteus_server_ts.Runs.Orchestrator.{DispatchResult, answered}
use autobyteus_server_ts.Ingress.Pending.{here}
use autobyteus_server_ts.Ingress.Approvals.{dispatch_tool_approval-once, issue_token-validate}
use autobyteus_server_ts.Runs.Consistency.{no_runs-IsConsistent, IsConsistent, no_runs}
use autobyteus_server_ts.Policies.Degradation.{record_route_success, DegradationPolicy}
use autobyteus_server_ts.Placement.{AgentTeamDefinition}
use autobyteus_server_ts.Policies.ToolApproval.{
  normalize_version, build_invocation_key, register_pending_invocation, ToolApprovals,
}
use autobyteus_server_ts.Ingress.Tokens.{ToolApprovalToken, validate_tool_approval_token}
use autobyteus_server_ts.Ingress.{
  store_record, normalize_run_version, start_located, is_defined, assert_members, complete_resolve,
  refresh_record, create_located, resolve_active_run, assert_team, normalize_required, Runtime,
  Host, LocatorRecord, resolve_or_create_run,
}
use autobyteus_server_ts.Ingress.Commands.{
  CommandResult, finish_approval, complete, assert_accepted, dispatch, dispatch_approval, register,
  dispatch_tool_approval, issue_token, Answers,
}
use autobyteus_server_ts.Ingress.Locating.{resolve_or_create_run-IsLive, IsLive}
use autobyteus_server_ts.Common.Text.{normalize, normalize_optional, trim}
use autobyteus_server_ts.Common.Dict.{get, set, delete}
use autobyteus_server_ts.Policies.ToolApproval.{
  build_invocation_key, normalize_version, register_key, register_pending_invocation, check_version,
  validate_key, validate_invocation_version, complete_invocation,
}
use autobyteus_server_ts.Placement.{assign_by_capability_and_health, resolve_placement}
use autobyteus_server_ts.Runs.Repository.{get_active_run_by_definition_id}
use autobyteus_server_ts.Runs.Orchestrator.{
  ensure_member_dependencies_available, start_run, start_run_if_missing, create_run,
}
use autobyteus_server_ts.Runs.Dispatch.{complete_dispatch, is_coordinator_target, dispatch_event}
use autobyteus_server_ts.Common.{
  ok, ℕ, ◌≡◌, refl, ◌≢◌, true, none, some, [], ◌∷◌, arith, str_eq_iff,
}

abbrev definition : AgentTeamDefinition
definition = record {
  id = some "team";
  nodes =
      record {
        member_name = "lead";
        reference_id = "agent";
        reference_type = "AGENT";
        home_node_id = none;
      }
      ∷ [];
  coordinator_member_name = "lead";
}

abbrev runtime : Runtime ℕ
runtime = record {
  has_team = λ team. true;
  team_definition_id = λ team. some "team";
  team_member_names = λ team. "lead" ∷ [];
  definition_by_id = λ id. some definition;
  node_snapshots =
      record { node_id = "host"; is_healthy = some true; supports_agent_execution = none } ∷ [];
  default_node_id = some "host";
  host_node_id = "host";
  on_run_resolved = λ r. none;
  number_of = λ s. none;
  ensure_ready = λ i. none;
  create_adapter = λ i. i.run_version;
}

abbrev policy : DegradationPolicy
policy = record {
  coordinator_failure_threshold = 2;
  global_failure_threshold = 5;
  global_failure_window_ms = 60000;
  state_by_run_id = [];
}

abbrev no_approvals : ToolApprovals
no_approvals = record { latest_version_by_invocation_key = [] }

abbrev idle : Host ℕ
idle = record {
  orchestrator = no_runs policy;
  record_by_team_id = [];
  record_by_run_id = [];
  approvals = no_approvals;
}

abbrev answers : Answers
answers = record {
  reply = answered (record { accepted = true; error_code = none; error_message = none });
  stop_reply = answered (record { accepted = true; error_code = none; error_message = none });
  now = 0;
  now_iso = "t1";
}

-- The run that the first command starts.
abbrev located : LocatorRecord
located = record {
  team_id = "T";
  team_definition_id = "team";
  coordinator_member_name = "lead";
  team_run_id = "run-1";
  run_version = 1;
  host_node_id = "host";
}

abbrev busy : Host ℕ
busy = (resolve_or_create_run runtime "T" "run-1" "t1" idle).1

start_test : resolve_or_create_run runtime " T " "run-1" "t1" idle ≡ (ok located, busy)
unfolding resolve_or_create_run normalize_required normalize trim assert_team resolve_active_run get
    create_located complete_resolve assert_members is_defined start_located start_run_if_missing
    get_active_run_by_definition_id start_run resolve_placement normalize_optional
    assign_by_capability_and_health ensure_member_dependencies_available set create_run
    normalize_run_version store_record
start_test = refl

abbrev token : ToolApprovalToken
token = record {
  team_run_id = "run-1";
  run_version = 1;
  invocation_id = "call";
  invocation_version = 1;
  target_member_name = "lead";
}

abbrev issued : Host ℕ
issued = (issue_token runtime located "call" "lead" none busy).1

issue_test : issue_token runtime located " call " "lead" none busy ≡ (ok token, issued)
unfolding issue_token normalize_required normalize trim register register_pending_invocation
    build_invocation_key normalize_version register_key get set
issue_test = refl

abbrev approved : Host ℕ
approved = (dispatch_tool_approval runtime "T" token none answers issued).1

approve_test :
    dispatch_tool_approval runtime "T" token none answers issued
    ≡ (ok (record { team_id = "T"; team_run_id = "run-1"; run_version = 1 }), approved)
unfolding resolve_or_create_run normalize_required normalize trim assert_team resolve_active_run get
    create_located complete_resolve assert_members is_defined start_located start_run_if_missing
    get_active_run_by_definition_id start_run resolve_placement normalize_optional
    assign_by_capability_and_health ensure_member_dependencies_available set create_run
    normalize_run_version store_record issue_token register register_pending_invocation
    build_invocation_key normalize_version register_key dispatch_tool_approval refresh_record
    dispatch_approval validate_tool_approval_token validate_invocation_version validate_key
    check_version dispatch assert_accepted complete complete_invocation delete dispatch_event
    is_coordinator_target complete_dispatch record_route_success join finish_approval
approve_test = refl

resolve_or_create_run-IsLive_example :
    IsLive runtime busy.orchestrator located × IsConsistent busy.orchestrator
unfolding get
resolve_or_create_run-IsLive_example =
    resolve_or_create_run-IsLive runtime " T " "run-1" "t1" idle busy located
      (no_runs-IsConsistent policy) refl (λ e. ground (arith, str_eq_iff "run-1" "")) start_test

issue_token-validate_example :
    validate_tool_approval_token issued.approvals token located none ≡ ok token
unfolding build_invocation_key resolve_or_create_run normalize_required normalize trim assert_team
    resolve_active_run get create_located complete_resolve assert_members is_defined start_located
    start_run_if_missing get_active_run_by_definition_id start_run resolve_placement
    normalize_optional assign_by_capability_and_health ensure_member_dependencies_available set
    create_run normalize_run_version store_record join
issue_token-validate_example =
    issue_token-validate runtime located " call " "lead" "run-1::call" none busy issued token
      issue_test (omega arith) refl (λ v e. cc e)

abbrev accepted : DispatchResult
accepted = record { accepted = true; error_code = none; error_message = none }

abbrev approval_result : CommandResult
approval_result = record { team_id = "T"; team_run_id = "run-1"; run_version = 1 }

abbrev finished : Host ℕ
finished = (finish_approval runtime located token accepted issued).1

-- Two approvals with one token that are both checked before either is finished both succeed.
two_at_once_test :
    (validate_tool_approval_token issued.approvals token located none ≡ ok token)
    × (finish_approval runtime located token accepted issued ≡ (ok approval_result, finished))
    × ((finish_approval runtime located token accepted finished).0 ≡ ok approval_result)
unfolding resolve_or_create_run normalize_required normalize trim assert_team resolve_active_run get
    create_located complete_resolve assert_members is_defined start_located start_run_if_missing
    get_active_run_by_definition_id start_run resolve_placement normalize_optional
    assign_by_capability_and_health ensure_member_dependencies_available set create_run
    normalize_run_version store_record issue_token register register_pending_invocation
    build_invocation_key normalize_version register_key validate_tool_approval_token
    validate_invocation_version validate_key check_version assert_accepted complete
    complete_invocation delete finish_approval join
two_at_once_test = (refl, refl, refl)

dispatch_tool_approval-once_example :
    dispatch_tool_approval runtime "T" token none answers finished ≢ (ok approval_result, finished)
unfolding normalize trim build_invocation_key join
dispatch_tool_approval-once_example =
    dispatch_tool_approval-once runtime "T" token token located none none accepted "run-1::call"
      answers issued.approvals issued finished finished finished approval_result approval_result
      two_at_once_test.0 refl two_at_once_test.1 here
