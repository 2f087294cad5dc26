-- ===== src/Worker.antt =====
-- The worker's side of a run: src/distributed/bootstrap/worker-run-lifecycle-coordinator.ts and
-- src/distributed/runtime-binding/run-scoped-team-binding-registry.ts. `F` stands for the running
-- forwarders of events, which a parameter closes, and `M` for the configurations of members; payloads
-- of events are texts.
pub mod Bootstrap
pub mod Serving
mod Tests
use autobyteus_server_ts.Common.Sets.{add}
use autobyteus_server_ts.Policies.Fencing.{RunVersion}
use autobyteus_server_ts.Runs.Events.{Aggregator}
use autobyteus_server_ts.Common.{
  ltb, leb, ◌==◌, if◌then◌else◌, ltb→lt, lt→ltb, leb→le, le→leb, ==_iff, Bool-cases, Option-cases,
  get_or, is_some, Result, ok, err, or_throw, Result-cases, >>=-eq-ok, or_throw-eq-ok, length,
  get_elem?, filter, find, All, length-append, length-filter-le, All-append, All-map, filter-All,
  get_elem?_total, get_elem?-All, find-All, ℕ, zero, suc, ◌+◌, ◌-◌, ◌*◌, ◌/◌, ◌%◌, ◌^◌, ◌≤◌, ◌<◌,
  min, max, String, ◌≡◌, refl, sym, ap, ◌∙◌, subst, ◌≢◌, ◌↔◌, ◌⊎◌, inl, inr, Bool, true, false, not,
  ◌&&◌, ◌||◌, Option, none, some, List, [], ◌∷◌, ◌++◌, map, arith, str_eq, str_eq_iff, str_eq_refl,
}
use autobyteus_server_ts.Common.Actions.{Action, ◌>>=◌, reads, continue}
use autobyteus_server_ts.Common.Text.{
  normalize, normalize_optional, IsNormal, normalize-IsNormal, IsNormal-ne-nil, join, trim,
}
use autobyteus_server_ts.Common.Dict.{
  Dict, get, has, set, delete, keys, values, get-set, get-set_self, get-set_ne, get-delete,
  get-delete_self, get-delete_ne, IsDistinct, set-IsDistinct, delete-IsDistinct, delete-absent,
  delete-set_self, length-set, length-delete-le, get-All, set-All, delete-All, contains, dict_laws,
}

pub data WorkerError : Type 0 where
  empty_field : String → WorkerError
  run_not_bound : String → WorkerError
  failed : String → WorkerError

pub record TeamBinding (M : Type 0) : Type 0 where
  pub team_run_id : String
  pub run_version : RunVersion
  pub team_definition_id : String
  pub runtime_team_id : String
  pub member_bindings : List M
  pub bound_at_iso : String

-- The registry of bindings, what the coordinator tracks, the numbering of events, and the teams of
-- the node.
pub record WorkerNode (M F T : Type 0) : Type 0 where
  pub binding_by_team_run_id : Dict (TeamBinding M)
  pub host_node_id_by_run_id : Dict String
  pub worker_managed_run_ids : List String
  pub event_forwarder_by_run_id : Dict F
  pub aggregator : Aggregator String
  pub teams : T

abbrev pub required : String → String → Result WorkerError String
required value field = or_throw (normalize value) (empty_field field)

-- `Set.delete`.
unfoldable pub remove : List String → String → List String
remove [] k = []
remove (j ∷ js) k = let rest = remove js k in if str_eq j k then rest else j ∷ rest

-- `close` answers with what it throws.
abbrev pub close_forwarder : {F : Type 0} → (F → Option String) → F → Result WorkerError (Unit {0})
close_forwarder close f = elim (close f) [ none ↦ ok tt | some message ↦ err (failed message) ]

module _ {M F T : Type 0} where
  unfoldable pub bind_run :
      (team_run_id : String)
      → RunVersion
      → (team_definition_id runtime_team_id : String) → List M
      → (now_iso : String) → Action (WorkerNode M F T) WorkerError (TeamBinding M)
  bind_run team_run_id version team_definition_id runtime_team_id members now_iso = do
    run ← reads (λ w. required team_run_id "teamRunId")
    definition ← reads (λ w. required team_definition_id "teamDefinitionId")
    team ← reads (λ w. required runtime_team_id "runtimeTeamId")
    let binding : TeamBinding M = record {
      team_run_id = run;
      run_version = version;
      team_definition_id = definition;
      runtime_team_id = team;
      member_bindings = members;
      bound_at_iso = now_iso;
    }
    λ w.
        (ok binding, record w { binding_by_team_run_id = set w.binding_by_team_run_id run binding })

  unfoldable pub resolve_run : String → WorkerNode M F T → Result WorkerError (TeamBinding M)
  resolve_run team_run_id w = elim (required team_run_id "teamRunId") [
    | err e ↦ err e
    | ok run ↦ or_throw (get w.binding_by_team_run_id run) (run_not_bound run)
  ]

  unfoldable pub try_resolve_run :
      String → WorkerNode M F T → Result WorkerError (Option (TeamBinding M))
  try_resolve_run team_run_id w = elim (required team_run_id "teamRunId") [
    | err e ↦ err e
    | ok run ↦ ok (get w.binding_by_team_run_id run)
  ]

  -- Answers whether the run was bound.
  unfoldable pub unbind_run : String → Action (WorkerNode M F T) WorkerError Bool
  unbind_run team_run_id = do
    run ← reads (λ w. required team_run_id "teamRunId")
    λ w. (
      ok (has w.binding_by_team_run_id run),
      record w { binding_by_team_run_id = delete w.binding_by_team_run_id run },
    )

  unfoldable pub mark_worker_managed_run : (run host : String) → WorkerNode M F T → WorkerNode M F T
  mark_worker_managed_run run host w = record w {
    host_node_id_by_run_id = set w.host_node_id_by_run_id run host;
    worker_managed_run_ids = add w.worker_managed_run_ids run;
  }

  abbrev pub resolve_host_node_id : WorkerNode M F T → (run default : String) → String
  resolve_host_node_id w run default = get_or (get w.host_node_id_by_run_id run) default

  abbrev pub is_worker_managed_run : WorkerNode M F T → String → Bool
  is_worker_managed_run w run = contains w.worker_managed_run_ids run

  unfoldable pub clear_run_tracking : String → WorkerNode M F T → WorkerNode M F T
  clear_run_tracking run w = record w {
    host_node_id_by_run_id = delete w.host_node_id_by_run_id run;
    worker_managed_run_ids = remove w.worker_managed_run_ids run;
  }

  module _ (close : F → Option String) where
    unfoldable pub stop_event_forwarder : String → Action (WorkerNode M F T) WorkerError (Unit {0})
    stop_event_forwarder run w = elim (get w.event_forwarder_by_run_id run) [
      | none ↦ (ok tt, w)
      | some f ↦ (
        close_forwarder close f,
        record w { event_forwarder_by_run_id = delete w.event_forwarder_by_run_id run },
      )
    ]

    abbrev pub add_forwarder : String → Option F → WorkerNode M F T → WorkerNode M F T
    add_forwarder run none w = w
    add_forwarder run (some f) w = record w {
      event_forwarder_by_run_id = set w.event_forwarder_by_run_id run f;
    }

    -- The forwarder that is started, if there is a stream.
    unfoldable pub replace_event_forwarder :
        String → Option F → Action (WorkerNode M F T) WorkerError (Unit {0})
    replace_event_forwarder run f = do
      u ← stop_event_forwarder run
      λ w. (ok tt, add_forwarder run f w)

    unfoldable pub teardown_run : String → Action (WorkerNode M F T) WorkerError (Unit {0})
    teardown_run run = do u ← stop_event_forwarder run; λ w. (ok tt, clear_run_tracking run w)
