-- ===== src/Ingress.antt =====
-- src/distributed/ingress/team-run-locator.ts: which run serves a team instance. The team runtime,
-- the store of definitions and the callback `onRunResolved` are parameters, fresh run ids and the
-- clock arguments. `complete_resolve` is what stands behind the `await` of the definition.

pub mod Tokens
pub mod Commands
pub mod Validation
pub mod Pending
pub mod Approvals
pub mod Locating
mod Tests
use autobyteus_server_ts.Common.{
  ◌==◌, if◌then◌else◌, Result, ok, err, or_throw, ℕ, String, Bool, true, false, Option, none, some,
  List, [], ◌∷◌, str_eq,
}
use autobyteus_server_ts.Common.Text.{normalize, trim}
use autobyteus_server_ts.Common.Dict.{Dict, get, set, delete}
use autobyteus_server_ts.Common.Actions.{Action, ◌>>=◌, reads}
use autobyteus_server_ts.Policies.Fencing.{RunVersion, text, number}
use autobyteus_server_ts.Policies.ToolApproval as ToolApproval
use autobyteus_server_ts.Policies.ToolApproval.{ToolApprovals}
use autobyteus_server_ts.Placement.{AgentTeamDefinition, TeamMember, CandidateNode}
use autobyteus_server_ts.Runs.Repository.{TeamRunRecord, if_active, get_run_by_id}
use autobyteus_server_ts.Runs.Orchestrator as Orchestrator
use autobyteus_server_ts.Runs.Orchestrator.{
  Orchestrator, EnsureInput, AdapterInput, StartInput, truthy, start_run_if_missing,
}

pub record LocatorRecord : Type 0 where
  pub team_id : String
  pub team_definition_id : String
  pub coordinator_member_name : String
  pub team_run_id : String
  pub run_version : ℕ
  pub host_node_id : String

-- The errors of the locator and of the command ingress, by their codes.
pub data Error : Type 0 where
  empty_field : String → Error
  team_not_found team_definition_unavailable team_definition_not_found : String → Error
  team_definition_member_mismatch : String → Error
  node_snapshot_empty : Error
  invalid_run_version : RunVersion → Error
  start_failed : Orchestrator.Error → Error
  callback_failed : String → Error
  target_member_required : Error
  rejected_with : (code message : String) → Error
  team_run_not_found : String → Error
  invalid_approval_token : Error
  stale_approval_token : Error
  approval_target_mismatch : (provided expected : String) → Error
  approval_invocation_not_pending : String → Error
  approval_failed : ToolApproval.Error → Error

-- The state of the host that commands work on: `TeamRunLocator` has the two maps.
pub record Host (A : Type 0) : Type 0 where
  pub orchestrator : Orchestrator A
  pub record_by_team_id : Dict LocatorRecord
  pub record_by_run_id : Dict LocatorRecord
  pub approvals : ToolApprovals

-- What the locator is given. `number_of` is `Number` where it is a positive integer; a callback that
-- throws answers with what it throws.
pub record Runtime (A : Type 0) : Type 0 where
  pub has_team : String → Bool
  pub team_definition_id : String → Option String
  pub team_member_names : String → List String
  pub definition_by_id : String → Option AgentTeamDefinition
  pub node_snapshots : List CandidateNode
  pub default_node_id : Option String
  pub host_node_id : String
  pub on_run_resolved : LocatorRecord → Option String
  pub number_of : String → Option ℕ
  pub ensure_ready : EnsureInput → Option String
  pub create_adapter : AdapterInput → A

unfoldable pub normalize_required : String → String → Result Error String
normalize_required value field = or_throw (normalize value) (empty_field field)

unfoldable pub is_defined : List TeamMember → String → Bool
is_defined [] name = false
is_defined (m ∷ ms) name = if str_eq m.member_name name then true else is_defined ms name

unfoldable pub assert_members : AgentTeamDefinition → List String → Result Error (Unit {0})
assert_members definition [] = ok tt
assert_members definition (name ∷ names) =
    let rest = assert_members definition names in
    if is_defined definition.nodes name then rest else err (team_definition_member_mismatch name)

module _ {A : Type 0} (rt : Runtime A) where
  unfoldable pub normalize_run_version : RunVersion → Result Error ℕ
  normalize_run_version (number n) = if n == 0 then err (invalid_run_version (number n)) else ok n
  normalize_run_version (text s) = elim (rt.number_of (trim s)) [
    | none ↦ err (invalid_run_version (text s))
    | some n ↦ if n == 0 then err (invalid_run_version (text s)) else ok n
  ]

  -- `activeRun.runVersion !== record.runVersion`, where the record has a number.
  abbrev pub has_version : RunVersion → ℕ → Bool
  has_version (number n) v = n == v
  has_version (text s) v = false

  unfoldable pub store_record : LocatorRecord → Host A → Host A
  store_record r h = record h {
    record_by_team_id = set h.record_by_team_id r.team_id r;
    record_by_run_id = set h.record_by_run_id r.team_run_id r;
  }

  unfoldable pub forget_record : String → LocatorRecord → Host A → Host A
  forget_record team r h = record h {
    record_by_team_id = delete h.record_by_team_id team;
    record_by_run_id = delete h.record_by_run_id r.team_run_id;
  }

  -- The record of a team against the run it names.
  unfoldable pub refresh_record :
      (team : String) → LocatorRecord → Action (Host A) Error (Option LocatorRecord)
  refresh_record team r h =
      elim (if_active (get_run_by_id h.orchestrator.repository r.team_run_id)) [
        | none ↦ (ok none, forget_record team r h)
        | some run ↦
            if has_version run.run_version r.run_version
            then (ok (some r), h)
            else elim (normalize_run_version run.run_version) [
              | err e ↦ (err e, h)
              | ok v ↦
                  let updated = record r { run_version = v } in
                  (
                    ok (some updated),
                    record h {
                      record_by_team_id = set h.record_by_team_id team updated;
                      record_by_run_id = set h.record_by_run_id r.team_run_id updated;
                    },
                  )
            ]
      ]

  abbrev pub refresh_found :
      String → Option LocatorRecord → Action (Host A) Error (Option LocatorRecord)
  refresh_found team none h = (ok none, h)
  refresh_found team (some r) h = refresh_record team r h

  unfoldable pub resolve_active_run : String → Action (Host A) Error (Option LocatorRecord)
  resolve_active_run team_id = do
    team ← reads (λ h. normalize_required team_id "teamId")
    λ h. refresh_found team (get h.record_by_team_id team) h

  abbrev pub resolve_found : Option LocatorRecord → Action (Host A) Error (Option LocatorRecord)
  resolve_found none h = (ok none, h)
  resolve_found (some r) h = resolve_active_run r.team_id h

  unfoldable pub resolve_by_team_run_id : String → Action (Host A) Error (Option LocatorRecord)
  resolve_by_team_run_id run_id = do
    run ← reads (λ h. normalize_required run_id "teamRunId")
    λ h. resolve_found (get h.record_by_run_id run) h

  abbrev pub call_resolved : Option String → LocatorRecord → Result Error LocatorRecord
  call_resolved none r = ok r
  call_resolved (some message) r = err (callback_failed message)

  -- `onRunResolved`, awaited: what it throws is thrown.
  abbrev pub resolved : LocatorRecord → Action (Host A) Error LocatorRecord
  resolved r h = (call_resolved (rt.on_run_resolved r) r, h)

  abbrev pub lift_start :
      Result Orchestrator.Error (TeamRunRecord × Orchestrator A)
      → Host A
      → Result Error TeamRunRecord × Host A
  lift_start (ok (r, o)) h = (ok r, record h { orchestrator = o })
  lift_start (err e) h = (err (start_failed e), h)

  -- An empty list of nodes is refused.
  unfoldable pub start_located :
      AgentTeamDefinition → (run now_iso : String) → Action (Host A) Error TeamRunRecord
  start_located definition run now_iso h = elim rt.node_snapshots [
    | [] ↦ (err node_snapshot_empty, h)
    | n ∷ ns ↦
        lift_start
          (start_run_if_missing rt.ensure_ready rt.create_adapter h.orchestrator
            (record {
              team_definition = definition;
              host_node_id = rt.host_node_id;
              node_snapshots = n ∷ ns;
              default_node_id = rt.default_node_id;
            })
            run now_iso)
          h
  ]

  unfoldable pub complete_resolve :
      (team definition_id : String)
      → AgentTeamDefinition
      → (run now_iso : String) → Action (Host A) Error LocatorRecord
  complete_resolve team definition_id definition run now_iso = do
    u ← reads (λ h. assert_members definition (rt.team_member_names team))
    started ← start_located definition run now_iso
    v ← reads (λ h. normalize_run_version started.run_version)
    let r : LocatorRecord = record {
      team_id = team;
      team_definition_id = definition_id;
      coordinator_member_name = definition.coordinator_member_name;
      team_run_id = started.team_run_id;
      run_version = v;
      host_node_id = started.host_node_id;
    }
    λ h. resolved r (store_record r h)

  unfoldable pub create_located :
      String → (run now_iso : String) → Action (Host A) Error LocatorRecord
  create_located team run now_iso = do
    definition_id ←
        reads
          (λ h. or_throw (truthy (rt.team_definition_id team)) (team_definition_unavailable team))
    definition ← reads (λ h.
        or_throw (rt.definition_by_id definition_id) (team_definition_not_found definition_id))
    complete_resolve team definition_id definition run now_iso

  abbrev pub resolve_existing :
      String → (run now_iso : String) → Option LocatorRecord → Action (Host A) Error LocatorRecord
  resolve_existing team run now_iso none = create_located team run now_iso
  resolve_existing team run now_iso (some r) = resolved r

  unfoldable pub assert_team : String → Result Error (Unit {0})
  assert_team team = if rt.has_team team then ok tt else err (team_not_found team)

  unfoldable pub resolve_or_create_run :
      String → (run now_iso : String) → Action (Host A) Error LocatorRecord
  resolve_or_create_run team_id run now_iso = do
    team ← reads (λ h. normalize_required team_id "teamId")
    u ← reads (λ h. assert_team team)
    existing ← resolve_active_run team
    resolve_existing team run now_iso existing
