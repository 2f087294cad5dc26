-- ===== src/Policies/Degradation.antt =====
-- src/distributed/policies/run-degradation-policy.ts: routing failures are counted for each run,
-- and the run is degraded by the first and stopped by too many. Times and thresholds are natural
-- numbers, so `Math.floor` is the identity and `now - window` stops at 0, as no timestamp is
-- negative.
pub mod Laws
pub mod History
mod Tests
use autobyteus_server_ts.Common.{
  ℕ, ◌+◌, ◌-◌, max, String, Bool, ◌||◌, Option, none, some, List, [], ◌∷◌, ◌++◌, leb, if◌then◌else◌,
  get_or, length, filter,
}
use autobyteus_server_ts.Common.Dict.{Dict, get, set, delete}

-- `"running" | "degraded" | "stopped"`.
pub data RunStatus : Type 0 where
  running degraded stopped : RunStatus

-- `"none" | "degraded" | "stop"`.
pub data Transition : Type 0 where
  stay degrade stop : Transition

pub record RunFailureState : Type 0 where
  pub status : RunStatus
  pub consecutive_coordinator_failures : ℕ
  pub global_failure_timestamps : List ℕ

pub record DegradationPolicy : Type 0 where
  pub coordinator_failure_threshold : ℕ
  pub global_failure_threshold : ℕ
  pub global_failure_window_ms : ℕ
  pub state_by_run_id : Dict RunFailureState

abbrev pub initial_state : RunFailureState
initial_state = record {
  status = running;
  consecutive_coordinator_failures = 0;
  global_failure_timestamps = [];
}

-- The constructor, with its defaults.
unfoldable pub new_policy : Option ℕ → Option ℕ → Option ℕ → DegradationPolicy
new_policy coordinator global window = record {
  coordinator_failure_threshold = max 1 (get_or coordinator 2);
  global_failure_threshold = max 1 (get_or global 5);
  global_failure_window_ms = max 1 (get_or window 60000);
  state_by_run_id = [];
}

unfoldable pub trim_window : ℕ → ℕ → List ℕ → List ℕ
trim_window window now times = let earliest = now - window in filter (λ t. leb earliest t) times

-- The counters, with this failure in them.
unfoldable pub count_failure : ℕ → Bool → ℕ → RunFailureState → RunFailureState
unfolding trim_window
count_failure window is_coordinator_failure now s = record s {
  consecutive_coordinator_failures =
      if is_coordinator_failure then s.consecutive_coordinator_failures + 1 else 0;
  global_failure_timestamps = trim_window window now s.global_failure_timestamps ++ now ∷ [];
}

abbrev pub reaches_threshold : DegradationPolicy → RunFailureState → Bool
reaches_threshold p s =
    leb p.coordinator_failure_threshold s.consecutive_coordinator_failures
    || leb p.global_failure_threshold (length s.global_failure_timestamps)

-- The tests on the status, in the order of the source.
unfoldable pub advance :
    DegradationPolicy → RunStatus → RunFailureState → RunFailureState × Transition
advance p running s = (record s { status = degraded }, degrade)
advance p degraded s =
    if reaches_threshold p s then (record s { status = stopped }, stop) else (s, stay)
advance p stopped s = (s, stay)

abbrev pub state_of : DegradationPolicy → String → RunFailureState
state_of p run = get_or (get p.state_by_run_id run) initial_state

unfoldable pub record_route_failure :
    DegradationPolicy → String → Bool → ℕ → DegradationPolicy × Transition
record_route_failure p run is_coordinator_failure now =
    let counted =
      count_failure p.global_failure_window_ms is_coordinator_failure now (state_of p run) in
    let (s, transition) = advance p counted.status counted in
    (record p { state_by_run_id = set p.state_by_run_id run s }, transition)

unfoldable pub record_route_success : DegradationPolicy → String → Bool → DegradationPolicy
record_route_success p run is_coordinator_target = elim (get p.state_by_run_id run) [
  | none ↦ p
  | some s ↦
      if is_coordinator_target
      then record p {
        state_by_run_id =
            set p.state_by_run_id run (record s { consecutive_coordinator_failures = 0 });
      }
      else p
]

unfoldable pub get_run_status : DegradationPolicy → String → Option RunStatus
get_run_status p run = elim (get p.state_by_run_id run) [ none ↦ none | some s ↦ some s.status ]

unfoldable pub clear_run : DegradationPolicy → String → DegradationPolicy
clear_run p run = record p { state_by_run_id = delete p.state_by_run_id run }
