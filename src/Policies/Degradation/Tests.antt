-- ===== src/Policies/Degradation/Tests.antt =====
-- A run that fails, and the theorems at it.
use autobyteus_server_ts.Common.{◌≡◌, refl, true, false, none, [], ◌∷◌, arith}
use autobyteus_server_ts.Common.Dict.{get, set}
use autobyteus_server_ts.Policies.Degradation.{
  count_failure, advance, degraded, stopped, stop, DegradationPolicy, new_policy, state_of,
  record_route_failure,
}
use autobyteus_server_ts.Policies.Degradation.History.{
  FailureHistory, replay, state_after, replay-state_after, coordinator_failures-stopped,
}

abbrev fresh : DegradationPolicy
fresh = record {
  coordinator_failure_threshold = 2;
  global_failure_threshold = 5;
  global_failure_window_ms = 60000;
  state_by_run_id = [];
}

abbrev coordinator_twice : FailureHistory
coordinator_twice = (true, 900) ∷ (true, 100) ∷ []

-- The first failure has left the window when the third comes.
abbrev spread : FailureHistory
spread = (false, 70000) ∷ (true, 20000) ∷ (false, 100) ∷ []

defaults_test : new_policy none none none ≡ fresh
unfolding new_policy
defaults_test = refl

stop_test : (record_route_failure (replay fresh "r" ((true, 100) ∷ [])) "r" true 900).1 ≡ stop
unfolding record_route_failure advance count_failure get set
stop_test = refl

spread_test : state_of (replay fresh "r" spread) "r" ≡ record {
  status = degraded;
  consecutive_coordinator_failures = 0;
  global_failure_timestamps = 20000 ∷ 70000 ∷ [];
}
unfolding record_route_failure get set advance count_failure
spread_test = refl

replay-state_after_example : state_of (replay fresh "r" spread) "r" ≡ state_after fresh spread
unfolding get
replay-state_after_example = replay-state_after fresh "r" spread refl (omega arith)

coordinator_failures-stopped_example :
    (state_of (replay fresh "r" coordinator_twice) "r").status ≡ stopped
unfolding get
coordinator_failures-stopped_example =
    coordinator_failures-stopped fresh "r" coordinator_twice refl (omega arith) refl (omega arith)
