-- ===== src/Runs/AutoStop.antt =====
-- What the failure that stops a run leaves of it.
use autobyteus_server_ts.Common.{
  get_or, Bool-cases, [], ◌∷◌, ◌≢◌, ℕ, String, ◌≡◌, refl, sym, ap, ◌∙◌, inl, inr, Bool, true, false,
  some, arith,
}
use autobyteus_server_ts.Common.Dict.{get}
use autobyteus_server_ts.Policies.Degradation.{
  RunStatus, running, degraded, stopped, stay, stop, RunFailureState, DegradationPolicy,
  record_route_failure, state_of, advance, count_failure, initial_state,
}
use autobyteus_server_ts.Policies.Degradation.Laws.{get-record_route_failure, counted}
use autobyteus_server_ts.Policies.Degradation.History.{FailureHistory, replay}
use autobyteus_server_ts.Policies.Fencing.{RunVersion}
use autobyteus_server_ts.Runs.Repository.{TeamRunRecord, is_stopped}
use autobyteus_server_ts.Runs.Orchestrator.{Orchestrator, Reply, answered, thrown, DispatchResult}
use autobyteus_server_ts.Runs.Dispatch.{
  dispatch_control_stop, complete_stop, apply_transition, after_stop, handle_route_failure,
}
use autobyteus_server_ts.Runs.Stopping.{dispatch_control_stop_lem, IsForgotten}

advance-stop_status :
    (p : DegradationPolicy) (st : RunStatus) (s : RunFailureState)
    → (advance p st s).1 ≡ stop
    → (advance p st s).0.status ≡ stopped
unfolding advance
advance-stop_status p running s h = cc
advance-stop_status p degraded s h = ground arith
advance-stop_status p stopped s h = cc

transition-advance :
    (p : DegradationPolicy) (run : String) (c : Bool) (now : ℕ)
    → (record_route_failure p run c now).1
      ≡ (advance p (state_of p run).status (counted p run c now)).1
unfolding record_route_failure count_failure
transition-advance p run c now = refl

stopped-stays :
    (p : DegradationPolicy) (run : String) (c : Bool) (now : ℕ)
    → (state_of p run).status ≡ stopped
    → (record_route_failure p run c now).1 ≡ stay
unfolding advance
stopped-stays p run c now h =
    transition-advance p run c now ∙ ap (λ st. (advance p st (counted p run c now)).1) h

stopped-remains :
    (p : DegradationPolicy) (run : String) (c : Bool) (now : ℕ)
    → (state_of p run).status ≡ stopped
    → (state_of (record_route_failure p run c now).0 run).status ≡ stopped
unfolding advance count_failure
stopped-remains p run c now h =
    ap (λ o. (get_or o initial_state).status) (get-record_route_failure p run c now)
    ∙ ap (λ st. (advance p st (counted p run c now)).0.status) h
    ∙ h

replay-stopped :
    (p : DegradationPolicy) (run : String) (later : FailureHistory)
    → (state_of p run).status ≡ stopped
    → (state_of (replay p run later) run).status ≡ stopped
replay-stopped p run [] h = h
replay-stopped p run ((c, now) ∷ later) h =
    stopped-remains (replay p run later) run c now (replay-stopped p run later h)

stop-stopped :
    (p : DegradationPolicy) (run : String) (c : Bool) (now : ℕ)
    → (record_route_failure p run c now).1 ≡ stop
    → (state_of (record_route_failure p run c now).0 run).status ≡ stopped
stop-stopped p run c now h =
    ap (λ o. (get_or o initial_state).status) (get-record_route_failure p run c now)
    ∙ advance-stop_status p (state_of p run).status (counted p run c now)
        (sym (transition-advance p run c now) ∙ h)

-- Whether the adapter accepts a command.
abbrev pub is_accepted : Reply → Bool
is_accepted (answered r) = r.accepted
is_accepted (thrown e) = false

not_stopped : (st : RunStatus) → st ≢ stopped → is_stopped st ≡ false
not_stopped running live = refl
not_stopped degraded live = refl
not_stopped stopped live = absurd (live refl)

module _ {ℓ} {A : Type ℓ} where
  abbrev counted_in : Orchestrator A → String → Bool → ℕ → Orchestrator A
  counted_in o run c now = record o {
    degradation = (record_route_failure o.degradation run c now).0;
  }

  handle-stop :
      (o : Orchestrator A) (run : String) (c : Bool) (code message : String) (now : ℕ)
      (stop_reply : Reply) (now_iso : String)
      → (record_route_failure o.degradation run c now).1 ≡ stop
      → handle_route_failure o run c code message now stop_reply now_iso
        ≡ after_stop run message
            (dispatch_control_stop (counted_in o run c now) run stop_reply now_iso)
  unfolding handle_route_failure apply_transition
  handle-stop o run c code message now stop_reply now_iso h = rw (h, apply_transition) refl

  after_stop-accepted :
      (run message : String) (x : DispatchResult × Orchestrator A)
      → x.0.accepted ≡ true
      → ((after_stop run message x).0.error_code ≡ some "RUN_AUTO_STOPPED")
        × ((after_stop run message x).1 ≡ x.1)
  after_stop-accepted run message (r, o) h = rw h (refl, refl)

  after_stop-refused :
      (run message : String) (x : DispatchResult × Orchestrator A)
      → x.0.accepted ≡ false
      → ((after_stop run message x).0.error_code ≡ some "RUN_AUTO_STOP_FAILED")
        × ((after_stop run message x).1 ≡ x.1)
  after_stop-refused run message (r, o) h = rw h (refl, refl)

  complete_stop-accepted :
      (o : Orchestrator A) (run : String) (reply : Reply) (now_iso : String)
      → (complete_stop o run reply now_iso).0.accepted ≡ is_accepted reply
  unfolding complete_stop
  complete_stop-accepted o run (thrown e) now_iso = refl
  complete_stop-accepted o run (answered x) now_iso = elim (Bool-cases x.accepted) [
    | inl a ↦ ground (arith, a)
    | inr a ↦ ground (arith, a)
  ]

  -- An active run with an adapter passes the adapter's answer on.
  dispatch_control_stop-accepted :
      (o : Orchestrator A) (run : String) (reply : Reply) (now_iso : String) (r : TeamRunRecord)
      (adapter : RunVersion × A)
      → get o.repository.run_by_id run ≡ some r
      → r.status ≢ stopped
      → get o.routing_by_run_id run ≡ some adapter
      → (dispatch_control_stop o run reply now_iso).0.accepted ≡ is_accepted reply
  unfolding dispatch_control_stop
  dispatch_control_stop-accepted o run reply now_iso r adapter found live routed =
      let active : is_stopped r.status ≡ false = not_stopped r.status live in
      rw (found, active, routed, dispatch_control_stop) (complete_stop-accepted o run reply now_iso)

  -- What is left by a failure that stops its run.
  pub record IsAutoStopped (o : Orchestrator A) (run definition : String) (was_accepted : Bool)
      (answer : DispatchResult) (left : Orchestrator A) : Type ℓ where
    pub stopped_code : was_accepted ≡ true → answer.error_code ≡ some "RUN_AUTO_STOPPED"
    pub forgotten : was_accepted ≡ true → IsForgotten left run definition
    pub failed_code : was_accepted ≡ false → answer.error_code ≡ some "RUN_AUTO_STOP_FAILED"
    pub same_records : was_accepted ≡ false → left.repository ≡ o.repository
    pub same_adapters : was_accepted ≡ false → left.routing_by_run_id ≡ o.routing_by_run_id
    pub never_again :
        (later : FailureHistory) (c : Bool) (now : ℕ)
        → was_accepted ≡ false
        → (record_route_failure (replay left.degradation run later) run c now).1 ≡ stay

  -- The failure that stops an active run sends the stop command to the run's adapter. If the adapter
  -- accepts it, nothing is left of the run. If it does not, or throws, the run's record, index and
  -- adapter stay, and however many failures follow, none of them sends a stop command again.
  pub handle_route_failure-stop :
      (o : Orchestrator A) (run : String) (c : Bool) (code message : String) (now : ℕ)
      (stop_reply : Reply) (now_iso : String) (r : TeamRunRecord) (adapter : RunVersion × A)
      → get o.repository.run_by_id run ≡ some r
      → r.status ≢ stopped
      → get o.routing_by_run_id run ≡ some adapter
      → (record_route_failure o.degradation run c now).1 ≡ stop
      → IsAutoStopped o run r.team_definition_id
          (is_accepted stop_reply)
          (handle_route_failure o run c code message now stop_reply now_iso).0
          (handle_route_failure o run c code message now stop_reply now_iso).1
  handle_route_failure-stop o run c code message now stop_reply now_iso r adapter found live routed
        h =
      let q = counted_in o run c now in
      let handled = handle-stop o run c code message now stop_reply now_iso h in
      let told =
        dispatch_control_stop-accepted q run stop_reply now_iso r adapter found live routed in
      elim (dispatch_control_stop_lem q run stop_reply now_iso) [
        | inl (a, (s, there, alive, gone)) ↦
            let (said, left) =
              after_stop-accepted run message (dispatch_control_stop q run stop_reply now_iso) a in
            let same : s ≡ r = ground arith in
            let yes : is_accepted stop_reply ≡ true = sym told ∙ a in
            record {
              stopped_code = λ e. ap (λ x. x.0.error_code) handled ∙ said;
              forgotten = λ e. rw (ap (λ x. x.1) handled ∙ left) (rw same at gone);
              failed_code = λ e. absurd (cc (yes, e));
              same_records = λ e. absurd (cc (yes, e));
              same_adapters = λ e. absurd (cc (yes, e));
              never_again = λ later c' now' e. absurd (cc (yes, e));
            }
        | inr (a, unchanged) ↦
            let (said, left) =
              after_stop-refused run message (dispatch_control_stop q run stop_reply now_iso) a in
            let same = ap (λ x. x.1) handled ∙ left ∙ unchanged in
            let no : is_accepted stop_reply ≡ false = sym told ∙ a in
            record {
              stopped_code = λ e. absurd (cc (no, e));
              forgotten = λ e. absurd (cc (no, e));
              failed_code = λ e. ap (λ x. x.0.error_code) handled ∙ said;
              same_records = λ e. ap (λ x. x.repository) same;
              same_adapters = λ e. ap (λ x. x.routing_by_run_id) same;
              never_again = λ later c' now' e.
                  ap (λ x. (record_route_failure (replay x.degradation run later) run c' now').1)
                    same
                  ∙ stopped-stays (replay q.degradation run later) run c' now' (
                      replay-stopped q.degradation run later
                        (stop-stopped o.degradation run c now h));
            }
      ]
