-- ===== src/Runs/Orchestrator.antt =====
-- src/distributed/team-run-orchestrator/team-run-orchestrator.ts with
-- src/distributed/routing/team-routing-port-adapter-registry.ts and
-- src/distributed/dependency-hydration/dependency-hydration-service.ts: a team is started at most
-- once, its messages go through the run's routing adapter, and failures degrade or stop the run.
--
-- The adapter is not under src/distributed/team-run-orchestrator: what it answers to a dispatch is an
-- argument, `Reply`, and so are the fresh run id and the clock. What stands behind an `await` is a
-- function of its own over the state at that time, `complete_dispatch` and `complete_stop`.
use autobyteus_server_ts.Common.{
  if◌then◌else◌, Result, ok, err, ◌>>=◌, or_throw, ℕ, String, Bool, Option, none, some, List, [],
  ◌∷◌, str_eq,
}
use autobyteus_server_ts.Common.Text.{normalize_optional, join}
use autobyteus_server_ts.Common.Dict.{Dict, get, set, delete}
use autobyteus_server_ts.Policies.Degradation.{running, DegradationPolicy}
use autobyteus_server_ts.Policies.Fencing.{RunVersion, number}
use autobyteus_server_ts.Placement as Placement
use autobyteus_server_ts.Placement.{
  AgentTeamDefinition, TeamMember, CandidateNode, PlacementByMember, resolve_placement,
}
use autobyteus_server_ts.Runs.Repository.{
  TeamRunRecord, TeamRunRepository, allocate_next_run_version, create_run_record,
  get_active_run_by_definition_id,
}

pub record DispatchResult : Type 0 where
  pub accepted : Bool
  pub error_code : Option String
  pub error_message : Option String

-- The call of an adapter: it answers, or it throws (the error as `String(error)`).
pub data Reply : Type 0 where
  answered : DispatchResult → Reply
  thrown : String → Reply

pub record EnsureInput : Type 0 where
  pub team_definition_id : String
  pub member_name : String
  pub node_id : String
  pub reference_type : String
  pub reference_id : String

pub data Error : Type 0 where
  definition_id_missing : Error
  placement_failed : Placement.Error → Error
  hydration_id_missing : Error
  hydration_placement_missing : (member_name : String) → Error
  dependency_not_ready : String → Error

-- `A` is the type of routing adapters.
pub record Orchestrator {ℓ} (A : Type ℓ) : Type ℓ where
  pub repository : TeamRunRepository
  pub routing_by_run_id : Dict (RunVersion × A)
  pub degradation : DegradationPolicy

pub record StartInput : Type 0 where
  pub team_definition : AgentTeamDefinition
  pub host_node_id : String
  pub node_snapshots : List CandidateNode
  pub default_node_id : Option String

pub record AdapterInput : Type 0 where
  pub team_run_id : String
  pub team_definition_id : String
  pub run_version : ℕ
  pub host_node_id : String
  pub placement_by_member : PlacementByMember

abbrev pub lift_placement :
    Result Placement.Error PlacementByMember → Result Error PlacementByMember
lift_placement (ok p) = ok p
lift_placement (err e) = err (placement_failed e)

-- The callback `ensureMemberDependencyReady`: none if it returns, what it throws if not.
abbrev call_ready : Option String → Result Error (Unit {0})
call_ready none = ok tt
call_ready (some message) = err (dependency_not_ready message)

module _ (ensure_ready : EnsureInput → Option String) where
  ensure_members : String → PlacementByMember → List TeamMember → Result Error (Unit {0})
  ensure_members id placed [] = ok tt
  ensure_members id placed (m ∷ ms) = do
    p ← or_throw (get placed m.member_name) (hydration_placement_missing m.member_name)
    u ← call_ready (
        ensure_ready (record {
          team_definition_id = id;
          member_name = m.member_name;
          node_id = p.node_id;
          reference_type = m.reference_type;
          reference_id = m.reference_id;
        }))
    ensure_members id placed ms

  unfoldable pub ensure_member_dependencies_available :
      AgentTeamDefinition → PlacementByMember → Result Error (Unit {0})
  unfolding ensure_members
  ensure_member_dependencies_available team placed = do
    id ← or_throw (normalize_optional team.id) hydration_id_missing
    ensure_members id placed team.nodes

-- `!input.teamDefinition.id`.
abbrev pub truthy : Option String → Option String
truthy none = none
truthy (some s) = if str_eq s "" then none else some s

module _ {ℓ} {A : Type ℓ} where
  unfoldable pub initialize_routing : Orchestrator A → String → RunVersion → A → Orchestrator A
  initialize_routing o run version adapter = record o {
    routing_by_run_id = set o.routing_by_run_id run (version, adapter);
  }

  unfoldable pub dispose_routing : Orchestrator A → String → Orchestrator A
  dispose_routing o run = record o { routing_by_run_id = delete o.routing_by_run_id run }

  -- What a call through `routingRegistry.resolve` comes to: with no adapter it throws.
  abbrev pub route : Option (RunVersion × A) → String → Reply → Reply
  route none run reply =
      thrown (join "" ("No routing adapter is registered for teamRunId '" ∷ run ∷ "'." ∷ []))
  route (some r) run reply = reply

  module _ (ensure_ready : EnsureInput → Option String) (create_adapter : AdapterInput → A) where
    -- The run's record and adapter, once the team is placed and its dependencies are there. The
    -- adapter is an object that is only made, which is taken not to throw.
    unfoldable pub create_run :
        Orchestrator A
        → StartInput
        → (definition : String) → PlacementByMember
        → (run now_iso : String) → TeamRunRecord × Orchestrator A
    unfolding initialize_routing allocate_next_run_version create_run_record
    create_run o input definition placed run now_iso =
        let (version, allocated) = allocate_next_run_version o.repository definition in
        let created : TeamRunRecord = record {
          team_run_id = run;
          team_definition_id = definition;
          coordinator_member_name = input.team_definition.coordinator_member_name;
          run_version = number version;
          host_node_id = input.host_node_id;
          placement_by_member = placed;
          status = running;
          created_at_iso = now_iso;
          updated_at_iso = now_iso;
        } in
        let adapter = create_adapter (record {
          team_run_id = run;
          team_definition_id = definition;
          run_version = version;
          host_node_id = input.host_node_id;
          placement_by_member = placed;
        }) in
        (
          created,
          initialize_routing (record o { repository = create_run_record allocated created }) run
              (number version) adapter,
        )

    unfoldable pub start_run :
        Orchestrator A
        → StartInput
        → (definition run now_iso : String) → Result Error (TeamRunRecord × Orchestrator A)
    start_run o input definition run now_iso = do
      placed ←
          lift_placement
            (resolve_placement input.team_definition input.node_snapshots input.default_node_id)
      u ← ensure_member_dependencies_available ensure_ready input.team_definition placed
      ok (create_run o input definition placed run now_iso)

    unfoldable pub start_run_if_missing :
        Orchestrator A
        → StartInput
        → (run now_iso : String) → Result Error (TeamRunRecord × Orchestrator A)
    start_run_if_missing o input run now_iso = do
      definition ← or_throw (truthy input.team_definition.id) definition_id_missing
      elim (get_active_run_by_definition_id o.repository definition) [
        | some existing ↦ ok (existing, o)
        | none ↦ start_run o input definition run now_iso
      ]
