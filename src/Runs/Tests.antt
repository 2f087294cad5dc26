-- ===== src/Runs/Tests.antt =====
-- A host with one team, started, stopped and started again.
use autobyteus_server_ts.Common.{
  ok, ℕ, ◌<◌, String, ◌≡◌, refl, ◌≢◌, ◌⊎◌, true, false, Option, none, some, [], ◌∷◌, arith,
  str_eq_iff,
}
use autobyteus_server_ts.Common.Text.{normalize, normalize_optional, trim}
use autobyteus_server_ts.Common.Dict.{get, has, set, delete}
use autobyteus_server_ts.Policies.Degradation.{
  count_failure, advance, degraded, stopped, DegradationPolicy, record_route_failure,
}
use autobyteus_server_ts.Policies.Fencing.{number}
use autobyteus_server_ts.Placement.{
  assign_by_capability_and_health, resolve_placement, default_node, PlacementByMember,
}
use autobyteus_server_ts.Runs.Repository.{
  update_run_status, delete_run, get_active_run_by_definition_id, TeamRunRecord,
}
use autobyteus_server_ts.Runs.Orchestrator.{
  ensure_member_dependencies_available, start_run, Orchestrator, Reply, answered, thrown,
  EnsureInput, AdapterInput, StartInput, start_run_if_missing, create_run,
}
use autobyteus_server_ts.Runs.Dispatch.{
  is_coordinator_target, apply_transition, complete_dispatch, forget_run, dispatch_control_stop,
  handle_route_failure, user_message, dispatch_event,
}
use autobyteus_server_ts.Runs.Consistency.{IsConsistent, no_runs, no_runs-IsConsistent}
use autobyteus_server_ts.Runs.Starting.{start_twice}
use autobyteus_server_ts.Runs.Stopping.{IsForgotten, dispatch_control_stop_lem, restart-version}
use autobyteus_server_ts.Runs.Invariant.{
  Reach-IsConsistent, Reach, here, next, started, one_run_for_each_definition,
}
use autobyteus_server_ts.Runs.AutoStop.{handle_route_failure-stop, IsAutoStopped}

abbrev policy : DegradationPolicy
policy = record {
  coordinator_failure_threshold = 2;
  global_failure_threshold = 5;
  global_failure_window_ms = 60000;
  state_by_run_id = [];
}

abbrev idle : Orchestrator ℕ
idle = no_runs policy

abbrev input : StartInput
input = record {
  team_definition = record {
    id = some "team";
    nodes =
        record {
          member_name = "lead";
          reference_id = "agent";
          reference_type = "AGENT";
          home_node_id = none;
        }
        ∷ [];
    coordinator_member_name = "lead";
  };
  host_node_id = "host";
  node_snapshots =
      record { node_id = "host"; is_healthy = some true; supports_agent_execution = none } ∷ [];
  default_node_id = some "host";
}

abbrev ready : EnsureInput → Option String
ready i = none

abbrev adapter_of : AdapterInput → ℕ
adapter_of i = i.run_version

abbrev accepted : Reply
accepted = answered (record { accepted = true; error_code = none; error_message = none })

abbrev placed : PlacementByMember
placed = ("lead", record { member_name = "lead"; node_id = "host"; source = default_node }) ∷ []

-- The first run of the team, and the host with it.
abbrev first : TeamRunRecord
first = (create_run ready adapter_of idle input "team" placed "run-1" "t1").0

abbrev busy : Orchestrator ℕ
busy = (create_run ready adapter_of idle input "team" placed "run-1" "t1").1

abbrev stopped_host : Orchestrator ℕ
stopped_host = (dispatch_control_stop busy "run-1" accepted "t2").1

abbrev second : TeamRunRecord
second = (create_run ready adapter_of stopped_host input "team" placed "run-2" "t3").0

abbrev busy_again : Orchestrator ℕ
busy_again = (create_run ready adapter_of stopped_host input "team" placed "run-2" "t3").1

start_test : start_run_if_missing ready adapter_of idle input "run-1" "t1" ≡ ok (first, busy)
unfolding start_run_if_missing get_active_run_by_definition_id get start_run resolve_placement
    normalize_optional assign_by_capability_and_health normalize trim
    ensure_member_dependencies_available set
start_test = refl

second_version_test : second.run_version ≡ number 2
unfolding create_run get dispatch_control_stop set forget_run delete_run update_run_status
second_version_test = refl

start_twice_example :
    start_run_if_missing ready adapter_of busy input "run-9" "t9" ≡ ok (first, busy)
unfolding get
start_twice_example =
    start_twice ready adapter_of idle busy input "run-1" "t1" "run-9" "t9" first
      (no_runs-IsConsistent policy) refl (λ e. ground (arith, str_eq_iff "run-1" "")) start_test

busy-Reach : Reach ready adapter_of idle busy
unfolding get
busy-Reach = next here (
    started input "run-1" "t1" first busy refl (λ e. ground (arith, str_eq_iff "run-1" ""))
      start_test)

one_run_for_each_definition_example :
    (◌≡◌ {A = String} "run-1" "run-1") × (has busy.routing_by_run_id "run-1" ≡ true)
unfolding create_run get set
one_run_for_each_definition_example =
    one_run_for_each_definition ready adapter_of idle busy "run-1" "run-1" first first
      (no_runs-IsConsistent policy) busy-Reach refl refl refl

dispatch_control_stop_lem_example :
    (((dispatch_control_stop busy "run-1" accepted "t2").0.accepted ≡ true)
      × ((r : TeamRunRecord) × (get busy.repository.run_by_id "run-1" ≡ some r)
          × (r.status ≢ stopped)
          × IsForgotten
              (dispatch_control_stop busy "run-1" accepted "t2").1
              "run-1"
              r.team_definition_id))
    ⊎ (((dispatch_control_stop busy "run-1" accepted "t2").0.accepted ≡ false)
        × ((dispatch_control_stop busy "run-1" accepted "t2").1 ≡ busy))
dispatch_control_stop_lem_example = dispatch_control_stop_lem busy "run-1" accepted "t2"

busy-IsConsistent : IsConsistent busy
busy-IsConsistent = Reach-IsConsistent ready adapter_of busy-Reach (no_runs-IsConsistent policy)

restart-version_example : (w : ℕ) × (second.run_version ≡ number w) × (1 < w)
unfolding create_run get set dispatch_control_stop start_run_if_missing
    get_active_run_by_definition_id forget_run delete_run update_run_status delete start_run
    resolve_placement normalize_optional assign_by_capability_and_health normalize trim
    ensure_member_dependencies_available
restart-version_example =
    restart-version ready adapter_of busy busy_again "run-1" "run-2" "t2" "t3" accepted first second
      input 1 busy-IsConsistent refl refl refl refl refl
      (λ e. ground (arith, str_eq_iff "run-2" "")) refl

-- The run after one failure of its coordinator: degraded.
abbrev failing : Orchestrator ℕ
failing =
    (dispatch_event busy "run-1" (user_message "lead") (thrown "refused") 100 (thrown "down")
      "t2").1

handle_route_failure-stop_example :
    IsAutoStopped failing "run-1" "team" false
      (handle_route_failure failing "run-1" true "C" "m" 200 (thrown "down") "t3").0
      (handle_route_failure failing "run-1" true "C" "m" 200 (thrown "down") "t3").1
unfolding dispatch_event create_run get set complete_dispatch handle_route_failure apply_transition
    record_route_failure advance count_failure update_run_status is_coordinator_target
handle_route_failure-stop_example =
    handle_route_failure-stop failing "run-1" true "C" "m" 200 (thrown "down") "t3"
      (record first { status = degraded; updated_at_iso = "t2" }) (number 1, 1) refl (λ e. cc e)
      refl refl
