-- ===== src/Runs/Invariant.antt =====
-- Whatever calls come, in whatever order their awaits end, the tables of the orchestrator agree.
use autobyteus_server_ts.Common.{
  Bool-cases, ok, ℕ, String, ◌≡◌, ◌≢◌, inl, inr, Bool, true, Option, none, some, arith,
}
use autobyteus_server_ts.Common.Dict.{get, has}
use autobyteus_server_ts.Policies.Degradation.{
  degraded, Transition, stay, degrade, stop, record_route_failure,
}
use autobyteus_server_ts.Runs.Repository.{TeamRunRecord}
use autobyteus_server_ts.Runs.Orchestrator.{
  Orchestrator, DispatchResult, Reply, answered, thrown, EnsureInput, AdapterInput, StartInput,
  start_run_if_missing,
}
use autobyteus_server_ts.Runs.Dispatch.{
  TeamEvent, complete_stop, dispatch_control_stop, apply_transition, after_stop,
  handle_route_failure, complete_dispatch, dispatch_event, mark_run_degraded,
}
use autobyteus_server_ts.Runs.Consistency.{IsConsistent, update-IsConsistent}
use autobyteus_server_ts.Runs.Starting.{start_run_if_missing_cases}
use autobyteus_server_ts.Runs.Stopping.{
  if_active-cases, degradation-IsConsistent, stop-IsConsistent, complete_stop-IsConsistent,
}

module _ {ℓ} {A : Type ℓ} where
  after_stop-state :
      (run message : String) (x : DispatchResult × Orchestrator A)
      → (after_stop run message x).1 ≡ x.1
  after_stop-state run message (r, o) = ground arith

  apply_transition-IsConsistent :
      (o : Orchestrator A) (run : String) (t : Transition) (code message : String)
      (stop_reply : Reply) (now_iso : String)
      → IsConsistent o
      → IsConsistent (apply_transition o run t code message stop_reply now_iso).1
  unfolding apply_transition
  apply_transition-IsConsistent o run stay code message stop_reply now_iso c = c
  apply_transition-IsConsistent o run degrade code message stop_reply now_iso c =
      update-IsConsistent o run degraded now_iso c (λ e. cc)
  apply_transition-IsConsistent o run stop code message stop_reply now_iso c =
      rw (after_stop-state run message (dispatch_control_stop o run stop_reply now_iso))
        (stop-IsConsistent o run stop_reply now_iso c)

  handle_route_failure-IsConsistent :
      (o : Orchestrator A) (run : String) (coordinator : Bool) (code message : String) (now : ℕ)
      (stop_reply : Reply) (now_iso : String)
      → IsConsistent o
      → IsConsistent (handle_route_failure o run coordinator code message now stop_reply now_iso).1
  unfolding handle_route_failure
  handle_route_failure-IsConsistent o run coordinator code message now stop_reply now_iso c =
      apply_transition-IsConsistent
        (record o { degradation = (record_route_failure o.degradation run coordinator now).0 }) run
        (record_route_failure o.degradation run coordinator now).1 code message stop_reply now_iso
        (degradation-IsConsistent o _ c)

  complete_dispatch-IsConsistent :
      (o : Orchestrator A) (run : String) (coordinator : Bool) (reply : Reply) (now : ℕ)
      (stop_reply : Reply) (now_iso : String)
      → IsConsistent o
      → IsConsistent (complete_dispatch o run coordinator reply now stop_reply now_iso).1
  unfolding complete_dispatch
  complete_dispatch-IsConsistent o run coordinator (thrown e) now stop_reply now_iso c =
      handle_route_failure-IsConsistent o run coordinator _ _ now stop_reply now_iso c
  complete_dispatch-IsConsistent o run coordinator (answered r) now stop_reply now_iso c =
      elim (Bool-cases r.accepted) [
        | inl e ↦ rw e (degradation-IsConsistent o _ c)
        | inr e ↦
            rw e (handle_route_failure-IsConsistent o run coordinator _ _ now stop_reply now_iso c)
      ]

  pub dispatch_event-IsConsistent :
      (o : Orchestrator A) (run : String) (event : TeamEvent) (reply : Reply) (now : ℕ)
      (stop_reply : Reply) (now_iso : String)
      → IsConsistent o
      → IsConsistent (dispatch_event o run event reply now stop_reply now_iso).1
  unfolding dispatch_event
  dispatch_event-IsConsistent o run event reply now stop_reply now_iso c =
      elim (if_active-cases (get o.repository.run_by_id run)) [
        | inl e ↦ rw (e, dispatch_event) c
        | inr (r, found, e, live) ↦
            rw (e, dispatch_event)
              (complete_dispatch-IsConsistent o run _ _ now stop_reply now_iso c)
      ]

  module _ (ensure_ready : EnsureInput → Option String) (create_adapter : AdapterInput → A) where
    -- One call, or the part of one behind its await. The ids of new runs are fresh, as those of
    -- `UniqueIdGenerator` are.
    pub data Step (o : Orchestrator A) : Orchestrator A → Type ℓ where
      started :
          (input : StartInput) (run now_iso : String) (r : TeamRunRecord) (o' : Orchestrator A)
          → get o.repository.run_by_id run ≡ none
          → run ≢ ""
          → start_run_if_missing ensure_ready create_adapter o input run now_iso ≡ ok (r, o')
          → Step o o'
      dispatched :
          (run : String) (event : TeamEvent) (reply : Reply) (now : ℕ) (stop_reply : Reply)
          (now_iso : String)
          → Step o (dispatch_event o run event reply now stop_reply now_iso).1
      dispatch_completed :
          (run : String) (coordinator : Bool) (reply : Reply) (now : ℕ) (stop_reply : Reply)
          (now_iso : String)
          → Step o (complete_dispatch o run coordinator reply now stop_reply now_iso).1
      stop_dispatched :
          (run : String) (reply : Reply) (now_iso : String)
          → Step o (dispatch_control_stop o run reply now_iso).1
      stop_completed :
          (run : String) (reply : Reply) (now_iso : String)
          → Step o (complete_stop o run reply now_iso).1
      marked_degraded : (run now_iso : String) → Step o (mark_run_degraded o run now_iso).1

    pub data Reach (o : Orchestrator A) : Orchestrator A → Type ℓ where
      here : Reach o o
      next : {p q : Orchestrator A} → Reach o p → Step p q → Reach o q

    Step-IsConsistent : {o p : Orchestrator A} → Step o p → IsConsistent o → IsConsistent p
    unfolding mark_run_degraded
    Step-IsConsistent {o} (started input run now_iso r o' fresh ne h) c =
        let (d, ed, found) =
          start_run_if_missing_cases ensure_ready create_adapter o o' input run now_iso r c fresh ne
            h in
        elim found [ inl (e, same) ↦ rw same c | inr n ↦ n.consistent ]
    Step-IsConsistent {o} (dispatched run event reply now stop_reply now_iso) c =
        dispatch_event-IsConsistent o run event reply now stop_reply now_iso c
    Step-IsConsistent {o} (dispatch_completed run coordinator reply now stop_reply now_iso) c =
        complete_dispatch-IsConsistent o run coordinator reply now stop_reply now_iso c
    Step-IsConsistent {o} (stop_dispatched run reply now_iso) c =
        stop-IsConsistent o run reply now_iso c
    Step-IsConsistent {o} (stop_completed run reply now_iso) c =
        complete_stop-IsConsistent o run reply now_iso c
    Step-IsConsistent {o} (marked_degraded run now_iso) c =
        update-IsConsistent o run degraded now_iso c (λ e. cc)

    -- Whatever calls come and however they interleave, the tables keep agreeing.
    pub Reach-IsConsistent : {o p : Orchestrator A} → Reach o p → IsConsistent o → IsConsistent p
    Reach-IsConsistent here c = c
    Reach-IsConsistent (next r s) c = Step-IsConsistent s (Reach-IsConsistent r c)

    -- From a state whose tables agree, whatever calls come and however they interleave, two runs of
    -- one definition are one run, and it has a routing adapter.
    pub one_run_for_each_definition :
        (o p : Orchestrator A) (a b : String) (r s : TeamRunRecord)
        → IsConsistent o
        → Reach o p
        → get p.repository.run_by_id a ≡ some r
        → get p.repository.run_by_id b ≡ some s
        → r.team_definition_id ≡ s.team_definition_id
        → (a ≡ b) × (has p.routing_by_run_id a ≡ true)
    one_run_for_each_definition o p a b r s c reach fa fb same =
        let k = Reach-IsConsistent reach c in
        ground (arith, k.indexed a r fa, k.indexed b s fb, k.routed a)
