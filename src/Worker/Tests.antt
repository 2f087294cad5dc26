-- ===== src/Worker/Tests.antt =====
-- A worker whose team for a run is gone, and is made again.
use autobyteus_server_ts.Runs.Events.{finalize_run}
use autobyteus_server_ts.Worker.Serving.{bootstrap-IsServing, IsServing, AreInstances}
use autobyteus_server_ts.Worker.{
  replace_event_forwarder, mark_worker_managed_run, bind_run, unbind_run, remove,
  clear_run_tracking, stop_event_forwarder, teardown_run, try_resolve_run, WorkerNode,
}
use autobyteus_server_ts.Worker.Bootstrap.{
  acquire_team, bind_new_run, take_down, TeamInstances, BootstrapInput, bootstrap,
}
use autobyteus_server_ts.Policies.Fencing.{number}
use autobyteus_server_ts.Common.{
  sym, str_eq, if◌then◌else◌, str_eq_iff, ok, ℕ, String, ◌≡◌, refl, ap, ◌∙◌, Bool, true, false,
  none, some, [], ◌∷◌, arith,
}
use autobyteus_server_ts.Common.Text.{normalize, trim, IsNormal}
use autobyteus_server_ts.Common.Dict.{get, set, delete}
use autobyteus_server_ts.Common.Sets.{add}

-- The teams are whether there is one; it is named "team".
abbrev has_one : Bool → String → Bool
has_one there id = if there then str_eq id "team" else false

abbrev instances : TeamInstances String ℕ Bool
instances = record {
  has_team_instance = has_one;
  get_team_id_by_definition_id = λ t definition. none;
  create_team_instance = λ definition members t. (ok "team", true);
  terminate_team_instance = λ team t. (ok tt, false);
  get_team_member_configs_by_definition_id = λ t definition. [];
  set_team_routing_port = λ team run version t. t;
  start_event_forwarder = λ t team run. some 1;
  close = λ f. none;
  member_bindings_match = λ a b. ok true;
}

team_trimmed : (t : Bool) (id : String) → has_one t id ≡ true → IsNormal id
unfolding normalize trim
team_trimmed false id h = cc
team_trimmed true id h =
    ap normalize ((str_eq_iff id "team").0 h) ∙ ap some (sym ((str_eq_iff id "team").0 h))

instances-AreInstances : AreInstances instances
instances-AreInstances = record {
  created = λ definition members t t' id h. ground (arith, h, str_eq_iff id "team");
  routed = λ team run id version t. refl;
  trimmed = λ t id h. team_trimmed t id h;
}

abbrev request : BootstrapInput String
request = record {
  team_run_id = "run";
  run_version = number 1;
  host_team_definition_id = "definition";
  worker_team_definition_id = "definition";
  member_bindings = "lead" ∷ [];
  host_node_id = "host";
  now_iso = "t1";
}

-- The run is bound to a team that is no longer there.
abbrev stale : WorkerNode String ℕ Bool
stale = record {
  binding_by_team_run_id =
      (
        "run",
        record {
          team_run_id = "run";
          run_version = number 1;
          team_definition_id = "definition";
          runtime_team_id = "old";
          member_bindings = [];
          bound_at_iso = "t0";
        },
      )
      ∷ [];
  host_node_id_by_run_id = [];
  worker_managed_run_ids = [];
  event_forwarder_by_run_id = ("run", 0) ∷ [];
  aggregator = record { sequence_by_run_id = []; sunk = [] };
  teams = false;
}

abbrev served : WorkerNode String ℕ Bool
served = (bootstrap instances request stale).1

bootstrap_test : bootstrap instances request stale ≡ (ok tt, served)
unfolding bootstrap try_resolve_run normalize trim get take_down teardown_run stop_event_forwarder
    clear_run_tracking remove delete unbind_run finalize_run bind_new_run acquire_team bind_run set
    mark_worker_managed_run add replace_event_forwarder
bootstrap_test = refl

bootstrap-IsServing_example : IsServing instances "run" "host" served
unfolding normalize trim
bootstrap-IsServing_example =
    bootstrap-IsServing instances instances-AreInstances request stale served tt refl bootstrap_test
