-- ===== src/Worker/Bootstrap.antt =====
-- The handler of src/distributed/bootstrap/remote-envelope-bootstrap-handler.ts, from the payload in
-- its normal form on: a host asks this node to take part in a run.
use autobyteus_server_ts.Runs.Events.{finalize_run}
use autobyteus_server_ts.Runs.Orchestrator.{truthy}
use autobyteus_server_ts.Worker.{
  replace_event_forwarder, unbind_run, teardown_run, bind_run, mark_worker_managed_run,
  try_resolve_run, TeamBinding, WorkerNode, WorkerError,
}
use autobyteus_server_ts.Policies.Fencing.{RunVersion}
use autobyteus_server_ts.Common.{
  if◌then◌else◌, ok, err, Result, true, false, String, Bool, Option, none, some, List,
}
use autobyteus_server_ts.Common.Actions.{Action, ◌>>=◌, reads}

-- The teams of the node, and the comparison of two lists of members, which may throw.
pub record TeamInstances (M F T : Type 0) : Type 0 where
  pub has_team_instance : T → String → Bool
  pub get_team_id_by_definition_id : T → String → Option String
  pub create_team_instance : String → List M → Action T WorkerError String
  pub terminate_team_instance : String → Action T WorkerError (Unit {0})
  pub get_team_member_configs_by_definition_id : T → String → List M
  pub set_team_routing_port : (team run : String) → RunVersion → T → T
  pub start_event_forwarder : T → (team run : String) → Option F
  pub close : F → Option String
  pub member_bindings_match : List M → List M → Result WorkerError Bool

pub record BootstrapInput (M : Type 0) : Type 0 where
  pub team_run_id : String
  pub run_version : RunVersion
  pub host_team_definition_id : String
  pub worker_team_definition_id : String
  pub member_bindings : List M
  pub host_node_id : String
  pub now_iso : String

module _ {M F T : Type 0} (i : TeamInstances M F T) where
  -- A call of the teams, on the node that has them.
  abbrev pub on_teams {ℓ} :
      {B : Type ℓ} → Action T WorkerError B → Action (WorkerNode M F T) WorkerError B
  on_teams call w = let (r, t) = call w.teams in (r, record w { teams = t })

  abbrev pub create_team : BootstrapInput M → Action (WorkerNode M F T) WorkerError String
  create_team input =
      on_teams (i.create_team_instance input.worker_team_definition_id input.member_bindings)

  -- The team that the definition has, if it is there and has these members.
  abbrev pub reuse_team :
      BootstrapInput M → (team : String) → Action (WorkerNode M F T) WorkerError String
  reuse_team input team w =
      if i.has_team_instance w.teams team
      then elim (i.member_bindings_match
          (i.get_team_member_configs_by_definition_id w.teams input.worker_team_definition_id)
          input.member_bindings) [
            | err e ↦ (err e, w)
            | ok true ↦ (ok team, w)
            | ok false ↦ (on_teams (i.terminate_team_instance team) >>= (λ u. create_team input)) w
          ]
      else create_team input w

  abbrev pub team_or_new :
      BootstrapInput M → Option String → Action (WorkerNode M F T) WorkerError String
  team_or_new input none = create_team input
  team_or_new input (some team) = reuse_team input team

  unfoldable pub acquire_team : BootstrapInput M → Action (WorkerNode M F T) WorkerError String
  acquire_team input w =
      team_or_new input
        (truthy (i.get_team_id_by_definition_id w.teams input.worker_team_definition_id)) w

  -- The host is noted, and the team sends to it through the routing port.
  abbrev pub track : BootstrapInput M → String → Action (WorkerNode M F T) WorkerError (Unit {0})
  track input team w = (
    ok tt,
    record (mark_worker_managed_run input.team_run_id input.host_node_id w) {
      teams = i.set_team_routing_port team input.team_run_id input.run_version w.teams;
    },
  )

  unfoldable pub bind_new_run : BootstrapInput M → Action (WorkerNode M F T) WorkerError (Unit {0})
  bind_new_run input = do
    team ← acquire_team input
    binding ←
        bind_run input.team_run_id input.run_version input.host_team_definition_id team
          input.member_bindings input.now_iso
    marked ← track input team
    λ w.
        replace_event_forwarder i.close input.team_run_id
          (i.start_event_forwarder w.teams team input.team_run_id) w

  -- The binding of a team that is gone is taken down.
  unfoldable pub take_down : BootstrapInput M → Action (WorkerNode M F T) WorkerError (Unit {0})
  take_down input = do
    u ← teardown_run i.close input.team_run_id
    was_bound ← unbind_run input.team_run_id
    λ w. (ok tt, record w { aggregator = (finalize_run w.aggregator input.team_run_id).1 })

  abbrev pub bootstrap_found :
      BootstrapInput M → Option (TeamBinding M) → Action (WorkerNode M F T) WorkerError (Unit {0})
  bootstrap_found input none w = bind_new_run input w
  bootstrap_found input (some b) w =
      if i.has_team_instance w.teams b.runtime_team_id
      then (ok tt, mark_worker_managed_run input.team_run_id input.host_node_id w)
      else (take_down input >>= (λ u. bind_new_run input)) w

  unfoldable pub bootstrap : BootstrapInput M → Action (WorkerNode M F T) WorkerError (Unit {0})
  bootstrap input = do
    existing ← reads (λ w. try_resolve_run input.team_run_id w)
    bootstrap_found input existing
