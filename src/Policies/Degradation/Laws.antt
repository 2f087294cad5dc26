-- ===== src/Policies/Degradation/Laws.antt =====
-- What one recorded failure stores.
use autobyteus_server_ts.Common.{ℕ, String, ◌≡◌, Bool, some}
use autobyteus_server_ts.Common.Dict.{get, get-set_self}
use autobyteus_server_ts.Policies.Degradation.{
  RunFailureState, DegradationPolicy, count_failure, advance, state_of, record_route_failure,
}

-- The counters of a run, with a failure at `now` in them.
abbrev pub counted : DegradationPolicy → String → Bool → ℕ → RunFailureState
counted p run c now = count_failure p.global_failure_window_ms c now (state_of p run)

-- The state that a failure stores for its run.
pub get-record_route_failure :
    (p : DegradationPolicy) (run : String) (c : Bool) (now : ℕ)
    → get (record_route_failure p run c now).0.state_by_run_id run
      ≡ some (advance p (state_of p run).status (counted p run c now)).0
unfolding record_route_failure count_failure
get-record_route_failure p run c now = get-set_self p.state_by_run_id run _
