-- ===== src/Runs/Dispatch.antt =====
-- The dispatches of src/distributed/team-run-orchestrator/team-run-orchestrator.ts: what comes back
-- from the adapter, and what a failure does to the run. `complete_dispatch` and `complete_stop` are
-- what stands behind the `await`; they take the state of that time. Nothing else runs between a
-- failure that stops a run and the answer to its stop command.
use autobyteus_server_ts.Common.{
  Option, if◌then◌else◌, get_or, ℕ, String, Bool, false, none, some, [], ◌∷◌, str_eq,
}
use autobyteus_server_ts.Common.Text.{join}
use autobyteus_server_ts.Common.Dict.{get}
use autobyteus_server_ts.Policies.Degradation.{
  degraded, stopped, Transition, stay, degrade, stop, record_route_failure, record_route_success,
  clear_run,
}
use autobyteus_server_ts.Runs.Repository.{TeamRunRecord, update_run_status, delete_run, if_active}
use autobyteus_server_ts.Runs.Orchestrator.{
  Orchestrator, DispatchResult, Reply, answered, thrown, route, dispose_routing,
}

abbrev pub rejected : String → String → DispatchResult
rejected code message = record {
  accepted = false;
  error_code = some code;
  error_message = some message;
}

-- `targetAgentName`, `recipientName` and `agentName` of the three kinds of event.
pub data TeamEvent : Type 0 where
  user_message inter_agent_message tool_approval : (target : String) → TeamEvent

abbrev pub target_of : TeamEvent → String
target_of (user_message target) = target
target_of (inter_agent_message recipient) = recipient
target_of (tool_approval agent) = agent

module _ {ℓ} {A : Type ℓ} where
  unfoldable pub is_coordinator_target : Orchestrator A → (run target : String) → Bool
  is_coordinator_target o run target = elim (get o.repository.run_by_id run) [
    | none ↦ false
    | some r ↦ str_eq r.coordinator_member_name target
  ]

  -- The run leaves every table.
  unfoldable pub forget_run : Orchestrator A → (run now_iso : String) → Orchestrator A
  unfolding dispose_routing
  forget_run o run now_iso =
      let marked = (update_run_status o.repository run stopped now_iso).1 in
      let cleared = record o { repository = marked; degradation = clear_run o.degradation run } in
      let disposed = dispose_routing cleared run in
      record disposed { repository = (delete_run disposed.repository run).1 }

  unfoldable pub complete_stop :
      Orchestrator A → (run : String) → Reply → (now_iso : String) → DispatchResult × Orchestrator A
  complete_stop o run (thrown e) now_iso = (
    rejected "STOP_DISPATCH_FAILED"
        (join "" ("Failed to dispatch stop command for run '" ∷ run ∷ "': " ∷ e ∷ [])),
    o,
  )
  complete_stop o run (answered r) now_iso =
      if r.accepted then (r, forget_run o run now_iso) else (r, o)

  unfoldable pub dispatch_control_stop :
      Orchestrator A → (run : String) → Reply → (now_iso : String) → DispatchResult × Orchestrator A
  unfolding complete_stop
  dispatch_control_stop o run reply now_iso = elim (if_active (get o.repository.run_by_id run)) [
    | none ↦ (
      rejected "TEAM_RUN_NOT_FOUND"
          (join "" ("No active team run '" ∷ run ∷ "' was found for stop dispatch." ∷ [])),
      o,
    )
    | some r ↦ complete_stop o run (route (get o.routing_by_run_id run) run reply) now_iso
  ]

  -- The answer to the failure that stops a run.
  abbrev pub after_stop :
      String → String → DispatchResult × Orchestrator A → DispatchResult × Orchestrator A
  after_stop run message (r, o) =
      if r.accepted
      then (
        rejected "RUN_AUTO_STOPPED" (
            join "" (
              "Run '" ∷ run ∷ "' was auto-stopped after repeated routing failures. Last failure: "
              ∷ message ∷ [])),
        o,
      )
      else (
        rejected "RUN_AUTO_STOP_FAILED" (
            join "" (
              "Run '"
              ∷ run
              ∷ "' hit auto-stop threshold but stop dispatch failed: "
              ∷ get_or r.error_message "unknown error"
              ∷ [])),
        o,
      )

  unfoldable pub apply_transition :
      Orchestrator A
      → (run : String) → Transition
      → (code message : String) → (stop_reply : Reply) → (now_iso : String)
      → DispatchResult × Orchestrator A
  apply_transition o run degrade code message stop_reply now_iso = (
    rejected code message,
    record o { repository = (update_run_status o.repository run degraded now_iso).1 },
  )
  apply_transition o run stop code message stop_reply now_iso =
      after_stop run message (dispatch_control_stop o run stop_reply now_iso)
  apply_transition o run stay code message stop_reply now_iso = (rejected code message, o)

  unfoldable pub handle_route_failure :
      Orchestrator A
      → (run : String) → (is_coordinator_failure : Bool) → (code message : String) → (now : ℕ)
      → (stop_reply : Reply) → (now_iso : String) → DispatchResult × Orchestrator A
  handle_route_failure o run is_coordinator_failure code message now stop_reply now_iso =
      let (policy, transition) =
        record_route_failure o.degradation run is_coordinator_failure now in
      apply_transition (record o { degradation = policy }) run transition code message stop_reply
        now_iso

  unfoldable pub complete_dispatch :
      Orchestrator A
      → (run : String) → (is_coordinator : Bool) → Reply
      → (now : ℕ) → (stop_reply : Reply) → (now_iso : String) → DispatchResult × Orchestrator A
  complete_dispatch o run is_coordinator (thrown e) now stop_reply now_iso =
      handle_route_failure o run is_coordinator "DISPATCH_FAILED" e now stop_reply now_iso
  complete_dispatch o run is_coordinator (answered r) now stop_reply now_iso =
      if r.accepted
      then (r, record o { degradation = record_route_success o.degradation run is_coordinator })
      else handle_route_failure o run is_coordinator (get_or r.error_code "DISPATCH_REJECTED")
          (get_or r.error_message "Distributed dispatch rejected by routing adapter.") now
          stop_reply now_iso

  unfoldable pub dispatch_event :
      Orchestrator A
      → (run : String) → TeamEvent
      → Reply
      → (now : ℕ) → (stop_reply : Reply) → (now_iso : String) → DispatchResult × Orchestrator A
  dispatch_event o run event reply now stop_reply now_iso =
      elim (if_active (get o.repository.run_by_id run)) [
        | none ↦ (
          rejected "TEAM_RUN_NOT_FOUND"
              (join "" ("No active team run '" ∷ run ∷ "' was found for dispatch." ∷ [])),
          o,
        )
        | some r ↦
            complete_dispatch o run (is_coordinator_target o run (target_of event))
              (route (get o.routing_by_run_id run) run reply) now stop_reply now_iso
      ]

  unfoldable pub mark_run_degraded :
      Orchestrator A → (run now_iso : String) → Option TeamRunRecord × Orchestrator A
  mark_run_degraded o run now_iso =
      let (r, repository) = update_run_status o.repository run degraded now_iso in
      (r, record o { repository = repository })
