-- ===== src/Sync/Report.antt =====
-- src/sync/services/node-sync-reporting-service.ts: the report of a synchronisation. A record of a
-- bundle is the texts among its fields, `text_of` the decimal text of a number.
use autobyteus_server_ts.Sync.{
  mcp_server_configuration, agent_team_definition, agent_definition, prompt, EntityType, Failure,
  Summary,
}
use autobyteus_server_ts.Common.{
  ltb, ◌==◌, if◌then◌else◌, length, ℕ, zero, suc, String, Bool, Option, none, some, List, [], ◌∷◌,
  map,
}
use autobyteus_server_ts.Common.Text.{normalize, join}
use autobyteus_server_ts.Common.Dict.{Dict, get, keys}

pub data TargetStatus : Type 0 where
  success failed : TargetStatus

pub record EntityExportReport : Type 0 where
  pub entity_type : EntityType
  pub exported_count : ℕ
  pub sampled_keys : List String
  pub sample_truncated : Bool

pub record TargetReport : Type 0 where
  pub target_node_id : String
  pub status : TargetStatus
  pub summary : Option Summary
  pub failure_count_total : ℕ
  pub failure_samples : List Failure
  pub failure_sample_truncated : Bool
  pub message : Option String

pub record RunReport : Type 0 where
  pub source_node_id : String
  pub scope : List EntityType
  pub export_by_entity : List EntityExportReport
  pub targets : List TargetReport

pub record TargetInput : Type 0 where
  pub target_node_id : String
  pub status : TargetStatus
  pub summary : Option Summary
  pub message : Option String
  pub failures : List Failure

pub record Limits : Type 0 where
  pub max_key_samples_per_entity : ℕ
  pub max_failure_samples_per_target : ℕ

abbrev pub limit_or : Option ℕ → ℕ → ℕ
limit_or none default = default
limit_or (some n) default = if n == 0 then default else n

unfoldable pub new_limits : (keys failures : Option ℕ) → Limits
new_limits keys failures = record {
  max_key_samples_per_entity = limit_or keys 25;
  max_failure_samples_per_target = limit_or failures 50;
}

abbrev pub take {ℓ} : {A : Type ℓ} → ℕ → List A → List A
take zero xs = []
take (suc n) [] = []
take (suc n) (x ∷ xs) = x ∷ take n xs

unfoldable pub as_string : Option String → String → String
as_string none fallback = fallback
as_string (some v) fallback = elim (normalize v) [ none ↦ fallback | some w ↦ v ]

abbrev pub name_of : EntityType → String
name_of prompt = "prompt"
name_of agent_definition = "agent_definition"
name_of agent_team_definition = "agent_team_definition"
name_of mcp_server_configuration = "mcp_server_configuration"

abbrev pub sample : Failure → Failure
sample f = record f {
  key = as_string (some f.key) "<unknown-key>";
  message = as_string (some f.message) "<no-message>";
}

module _ (text_of : ℕ → String) where
  unfoldable pub extract_entity_key : EntityType → Dict String → ℕ → String
  extract_entity_key type r index =
      let fallback = join "" (name_of type ∷ "#" ∷ text_of (suc index) ∷ []) in
      elim type [
        | prompt ↦ as_string (get r "key") fallback
        | agent_definition ↦ as_string (get r "id") (as_string (get r "name") fallback)
        | agent_team_definition ↦ as_string (get r "id") (as_string (get r "name") fallback)
        | mcp_server_configuration ↦
            as_string (get r "serverId")
              (as_string (get r "server_id") (as_string (get r "name") fallback))
      ]

  unfoldable pub extract_keys : EntityType → ℕ → List (Dict String) → List String
  extract_keys type index [] = []
  extract_keys type index (r ∷ rs) =
      extract_entity_key type r index ∷ extract_keys type (suc index) rs

  unfoldable pub report_entity :
      Limits → (EntityType → List (Dict String)) → EntityType → EntityExportReport
  report_entity limits records type =
      let found = extract_keys type 0 (records type) in
      record {
        entity_type = type;
        exported_count = length found;
        sampled_keys = take limits.max_key_samples_per_entity found;
        sample_truncated = ltb limits.max_key_samples_per_entity (length found);
      }

  unfoldable pub report_target : Limits → TargetInput → TargetReport
  report_target limits t = record {
    target_node_id = t.target_node_id;
    status = t.status;
    summary = t.summary;
    failure_count_total = length t.failures;
    failure_samples = map sample (take limits.max_failure_samples_per_target t.failures);
    failure_sample_truncated = ltb limits.max_failure_samples_per_target (length t.failures);
    message = t.message;
  }

  unfoldable pub build_report :
      Limits
      → (source_node_id : String) → List EntityType
      → (EntityType → List (Dict String))
      → List TargetInput
      → RunReport
  build_report limits source scope records targets = record {
    source_node_id = source;
    scope = scope;
    export_by_entity = map (report_entity limits records) scope;
    targets = map (report_target limits) targets;
  }
