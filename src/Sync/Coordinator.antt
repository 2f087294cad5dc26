-- ===== src/Sync/Coordinator.antt =====
-- src/sync/services/node-sync-coordinator-service.ts: definitions are taken from one node and sent to
-- others. The client of the other nodes is functions that answer or throw; `records_of` reads a
-- bundle for the report.
pub mod Aggregate
use autobyteus_server_ts.Sync.Preflight.{
  validate, PreflightError, RunInput, NodeEndpoint, ValidatedPlan, RemoteClient,
}
use autobyteus_server_ts.Sync.{
  TombstonePolicy, ConflictPolicy, SelectionSpec, EntityType, Summary, ImportResult, Failure,
}
use autobyteus_server_ts.Sync.Report.{
  success, build_report, failed, name_of, TargetInput, Limits, TargetStatus, RunReport,
}
use autobyteus_server_ts.Common.{
  leb, ◌==◌, if◌then◌else◌, Result, ok, err, ◌>>=◌, length, filter, ℕ, String, Bool, true, false,
  Option, none, some, List, [], ◌∷◌, map,
}
use autobyteus_server_ts.Common.Text.{slice_start, text_length, join}
use autobyteus_server_ts.Common.Dict.{Dict}

pub data RunStatus : Type 0 where
  all_success partial_success all_failed : RunStatus

pub record TargetRunResult : Type 0 where
  pub target_node_id : String
  pub status : TargetStatus
  pub summary : Option Summary
  pub message : Option String

pub record RunResult : Type 0 where
  pub status : RunStatus
  pub source_node_id : String
  pub target_results : List TargetRunResult
  pub error : Option String
  pub report : Option RunReport

pub record BundleClient (B : Type 0) : Type 0 where
  pub remote : RemoteClient
  pub export_bundle : String → List EntityType → Option SelectionSpec → Result String B
  pub import_bundle :
      String → B → List EntityType → ConflictPolicy → TombstonePolicy → Result String ImportResult
  pub records_of : B → EntityType → List (Dict String)

unfoldable pub clamp_message : String → String
clamp_message message =
    if leb (text_length message) 280
    then message
    else join "" (slice_start 277 message ∷ "..." ∷ [])

unfoldable pub build_target_summary_message :
    (text_of : ℕ → String) → List Failure → String → String
build_target_summary_message text_of [] fallback = clamp_message fallback
build_target_summary_message text_of (f ∷ fs) fallback = clamp_message (
    join "" (
      "Import failed with "
      ∷ text_of (length (f ∷ fs))
      ∷ " issue(s). First: ["
      ∷ name_of f.entity_type
      ∷ "] "
      ∷ f.key
      ∷ ": "
      ∷ f.message
      ∷ []))

abbrev pub result_of : TargetInput → TargetRunResult
result_of t = record {
  target_node_id = t.target_node_id;
  status = t.status;
  summary = t.summary;
  message = t.message;
}

abbrev pub is_success : TargetRunResult → Bool
is_success r = elim r.status [ success ↦ true | failed ↦ false ]

-- What a target's answer, or its error, is recorded as.
unfoldable pub target_input :
    (text_of : ℕ → String) → String → Result String ImportResult → TargetInput
target_input text_of node (err e) = record {
  target_node_id = node;
  status = failed;
  summary = none;
  message = some (build_target_summary_message text_of [] e);
  failures = [];
}
target_input text_of node (ok r) =
    if r.success
    then record {
      target_node_id = node;
      status = success;
      summary = some r.summary;
      message = none;
      failures = [];
    }
    else record {
      target_node_id = node;
      status = failed;
      summary = some r.summary;
      message =
          some (
            build_target_summary_message text_of r.failures "Import returned unsuccessful status.");
      failures = r.failures;
    }

unfoldable pub to_aggregate_result : ValidatedPlan → List TargetRunResult → RunReport → RunResult
to_aggregate_result plan results report =
    let successes = length (filter is_success results) in
    if successes == length results
    then record {
      status = all_success;
      source_node_id = plan.source.node_id;
      target_results = results;
      error = none;
      report = some report;
    }
    else if successes == 0
    then record {
      status = all_failed;
      source_node_id = plan.source.node_id;
      target_results = results;
      error = some "All target imports failed.";
      report = some report;
    }
    else record {
      status = partial_success;
      source_node_id = plan.source.node_id;
      target_results = results;
      error = some "One or more target imports failed.";
      report = some report;
    }

module _ {B : Type 0} (text_of : ℕ → String) (limits : Limits) (client : BundleClient B) where
  abbrev pub import_target : ValidatedPlan → B → NodeEndpoint → Result String ImportResult
  import_target plan bundle target =
      client.import_bundle target.base_url bundle plan.scope plan.conflict_policy
        plan.tombstone_policy

  unfoldable pub import_targets : ValidatedPlan → B → List NodeEndpoint → List TargetInput
  import_targets plan bundle [] = []
  import_targets plan bundle (t ∷ ts) =
      target_input text_of t.node_id (import_target plan bundle t) ∷ import_targets plan bundle ts

  unfoldable pub export_source_bundle : ValidatedPlan → Result String B
  export_source_bundle plan =
      elim (client.export_bundle plan.source.base_url plan.scope plan.selection) [
        | ok bundle ↦ ok bundle
        | err e ↦ err (
            join "" (
              "Source export failed for '" ∷ plan.source.node_id ∷ "' (" ∷ plan.source.base_url
              ∷ "): " ∷ e ∷ []))
      ]

  abbrev pub export_failed : ValidatedPlan → String → RunResult
  export_failed plan e = record {
    status = all_failed;
    source_node_id = plan.source.node_id;
    target_results = [];
    error = some e;
    report = none;
  }

  unfoldable pub send_bundle : ValidatedPlan → B → RunResult
  send_bundle plan bundle =
      let inputs = import_targets plan bundle plan.targets in
      to_aggregate_result plan (map result_of inputs) (
        build_report text_of limits plan.source.node_id plan.scope (client.records_of bundle)
          inputs)

  abbrev pub finish_run : ValidatedPlan → Result String B → RunResult
  finish_run plan (err e) = export_failed plan e
  finish_run plan (ok bundle) = send_bundle plan bundle

  unfoldable pub run : RunInput → Result PreflightError RunResult
  run input = do
    plan ← validate client.remote input
    ok (finish_run plan (export_source_bundle plan))
