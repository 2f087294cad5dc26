-- ===== src/Runs/Repository.antt =====
-- src/distributed/team-run-orchestrator/team-run-repository.ts: the records of the runs of this
-- host, by run and by definition. The times written into records are arguments.
use autobyteus_server_ts.Common.{
  if◌then◌else◌, get_or, ℕ, ◌+◌, String, Bool, true, false, Option, none, some, str_eq,
}
use autobyteus_server_ts.Common.Dict.{Dict, get, set, delete}
use autobyteus_server_ts.Policies.Degradation.{RunStatus, stopped}
use autobyteus_server_ts.Policies.Fencing.{RunVersion}
use autobyteus_server_ts.Placement.{PlacementByMember}

pub record TeamRunRecord : Type 0 where
  pub team_run_id : String
  pub team_definition_id : String
  pub coordinator_member_name : String
  pub run_version : RunVersion
  pub host_node_id : String
  pub placement_by_member : PlacementByMember
  pub status : RunStatus
  pub created_at_iso : String
  pub updated_at_iso : String

pub record TeamRunRepository : Type 0 where
  pub run_by_id : Dict TeamRunRecord
  pub run_id_by_definition_id : Dict String
  pub next_run_version_by_definition_id : Dict ℕ

unfoldable pub allocate_next_run_version : TeamRunRepository → String → ℕ × TeamRunRepository
allocate_next_run_version r definition =
    let next = get_or (get r.next_run_version_by_definition_id definition) 0 + 1 in
    (
      next,
      record r {
        next_run_version_by_definition_id = set r.next_run_version_by_definition_id definition next;
      },
    )

unfoldable pub create_run_record : TeamRunRepository → TeamRunRecord → TeamRunRepository
create_run_record r run = record r {
  run_by_id = set r.run_by_id run.team_run_id run;
  run_id_by_definition_id = set r.run_id_by_definition_id run.team_definition_id run.team_run_id;
}

abbrev pub get_run_by_id : TeamRunRepository → String → Option TeamRunRecord
get_run_by_id r run = get r.run_by_id run

abbrev pub is_stopped : RunStatus → Bool
is_stopped stopped = true
is_stopped _ = false

-- A run that is there and not stopped.
abbrev pub if_active : Option TeamRunRecord → Option TeamRunRecord
if_active none = none
if_active (some run) = if is_stopped run.status then none else some run

-- `!runId` also holds of the empty id.
unfoldable pub get_active_run_by_definition_id : TeamRunRepository → String → Option TeamRunRecord
get_active_run_by_definition_id r definition = elim (get r.run_id_by_definition_id definition) [
  | none ↦ none
  | some id ↦ if str_eq id "" then none else if_active (get r.run_by_id id)
]

unfoldable pub resolve_current_run_version : TeamRunRepository → String → Option RunVersion
resolve_current_run_version r run = elim (get r.run_by_id run) [
  | none ↦ none
  | some record' ↦ some record'.run_version
]

unfoldable pub update_run_status :
    TeamRunRepository
    → String
    → RunStatus
    → (now_iso : String) → Option TeamRunRecord × TeamRunRepository
update_run_status r run status now_iso = elim (get r.run_by_id run) [
  | none ↦ (none, r)
  | some old ↦
      let updated = record old { status = status; updated_at_iso = now_iso } in
      (some updated, record r { run_by_id = set r.run_by_id run updated })
]

unfoldable pub delete_run : TeamRunRepository → String → Bool × TeamRunRepository
delete_run r run = elim (get r.run_by_id run) [
  | none ↦ (false, r)
  | some old ↦ (
    true,
    record r {
      run_by_id = delete r.run_by_id run;
      run_id_by_definition_id = delete r.run_id_by_definition_id old.team_definition_id;
    },
  )
]
