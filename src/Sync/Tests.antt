-- ===== src/Sync/Tests.antt =====
-- Two teams that contain each other, sent from one node to two others.
use autobyteus_server_ts.Sync.Export.{export_bundle, export_selected}
use autobyteus_server_ts.Sync.Import.{import_bundle}
use autobyteus_server_ts.Sync.Selection.Finishing.{resolve_selection-Finishes}
use autobyteus_server_ts.Sync.Export.References.{export_bundle-agent, IsIn}
use autobyteus_server_ts.Sync.Selection.Closure.{team_asked, is_member}
use autobyteus_server_ts.Sync.Selection.Resolution.{resolve_selection-IsNeeded, IsWanted}
use autobyteus_server_ts.Sync.Coordinator.Aggregate.{run-IsRun, IsRun}
use autobyteus_server_ts.Sync.Preflight.Plans.{validate-IsSafe, IsSafe}
use autobyteus_server_ts.Placement.{TeamMember}
use autobyteus_server_ts.Sync.Export.{sync_prompt, sync_agent_definition, export_selected, Source}
use autobyteus_server_ts.Sync.Bundle.{
  SyncPrompt, has_type, McpConfig, stdio, server_id_of, SyncAgentDefinition, Prompt, Bundle,
}
use autobyteus_server_ts.Sync.Report.{Limits}
use autobyteus_server_ts.Sync.Import.Additions.{import_bundle-Keeps, IsAdditive, Listed}
use autobyteus_server_ts.Sync.Import.{Services, import_bundle}
use autobyteus_server_ts.Sync.Selection.{
  resolve_prompt_families, visit_member, visit_members, visit_queued, expand_queue,
  expand_team_dependencies, resolve_dependencies, finish_selection, check_ids, resolve_requested,
  resolve_selected, normalize_ids, unfinished, index_by_id, resolve_selection,
}
use autobyteus_server_ts.Sync.Preflight.{
  assert_all_healthy, assert_healthy, assert_no_duplicates, assert_distinct, normalize_targets,
  safe_normalize_base_url, normalize_endpoint, RunInput, validate, ValidatedPlan, RemoteClient,
}
use autobyteus_server_ts.Sync.Coordinator.{
  send_bundle, export_source_bundle, BundleClient, run, RunResult,
}
use autobyteus_server_ts.Sync.{
  mcp_server_configuration, source_delete_wins, agent_definition, source_wins, target_wins, prompt,
  agent_team_definition, ResolvedSelection, Failure, AgentDefinition, TeamDefinition, EntityType,
  Summary, SelectionSpec, ImportResult,
}
use autobyteus_server_ts.Common.{
  ◌↔◌, ok, err, ok-injective, subst, inl, ap, sym, arith, str_eq, str_eq_iff, if◌then◌else◌, ℕ, ◌+◌,
  String, ◌≡◌, refl, ◌∙◌, ◌≢◌, true, false, none, some, List, [], ◌∷◌,
}
use autobyteus_server_ts.Common.Text.{normalize, normalize_optional, trim, join}
use autobyteus_server_ts.Common.Dict.{Dict, get, set, contains}
use autobyteus_server_ts.Common.Sets.{add, add_all}

abbrev member : String → String → TeamMember
member type id = record {
  member_name = id;
  reference_id = id;
  reference_type = type;
  home_node_id = none;
}

abbrev agent : AgentDefinition
agent = record {
  id = some "a";
  name = "A";
  role = "";
  description = "";
  avatar_url = none;
  system_prompt_category = some "general";
  system_prompt_name = some "helper";
  tool_names = [];
  input_processor_names = [];
  llm_response_processor_names = [];
  system_prompt_processor_names = [];
  tool_execution_result_processor_names = [];
  tool_invocation_preprocessor_names = [];
  lifecycle_processor_names = [];
  skill_names = [];
}

abbrev outer : TeamDefinition
outer = record {
  id = some "t";
  name = "T";
  description = "";
  role = none;
  avatar_url = none;
  coordinator_member_name = "u";
  nodes = member "AGENT_TEAM" "u" ∷ [];
}

abbrev inner : TeamDefinition
inner = record {
  id = some "u";
  name = "U";
  description = "";
  role = none;
  avatar_url = none;
  coordinator_member_name = "a";
  nodes = member "AGENT" "a" ∷ member "AGENT_TEAM" "t" ∷ [];
}

abbrev helper : Prompt
helper = record {
  id = some "p";
  name = "helper";
  category = "general";
  prompt_content = "Help.";
  description = none;
  suitable_for_models = none;
  version = some 1;
  is_active = true;
}

abbrev agents : List AgentDefinition
agents = agent ∷ []

abbrev teams : List TeamDefinition
teams = outer ∷ inner ∷ []

abbrev spec : SelectionSpec
spec = record {
  agent_definition_ids = none;
  agent_team_definition_ids = some (" t " ∷ []);
  include_dependencies = some true;
  include_deletes = none;
}

abbrev resolved : ResolvedSelection
resolved = record {
  agent_definition_ids = "a" ∷ [];
  agent_team_definition_ids = "t" ∷ "u" ∷ [];
  prompt_families = "general::helper" ∷ [];
  include_deletes = false;
}

resolve_test : resolve_selection agents teams (some spec) ≡ ok (some resolved)
unfolding resolve_selection resolve_selected add_all add normalize_ids normalize trim index_by_id
    set resolve_requested check_ids get finish_selection resolve_dependencies
    expand_team_dependencies expand_queue visit_queued visit_members visit_member
    resolve_prompt_families normalize_optional join
resolve_test = refl

resolve_selection-Finishes_example : resolve_selection agents teams (some spec) ≢ err unfinished
resolve_selection-Finishes_example = resolve_selection-Finishes agents teams (some spec)

resolve_selection-IsNeeded_example :
    ((contains ("t" ∷ "u" ∷ []) "u" ≡ true) ↔ IsWanted agents teams spec "AGENT_TEAM" "u")
    × ((contains ("a" ∷ []) "u" ≡ true) ↔ IsWanted agents teams spec "AGENT" "u")
resolve_selection-IsNeeded_example =
    resolve_selection-IsNeeded agents teams spec resolved "u" resolve_test refl

abbrev decimal : ℕ → String
decimal n = "n"

abbrev remote : RemoteClient
remote = record { normalize_base_url = λ url. ok url; check_health = λ url. none }

abbrev run_input : RunInput
run_input = record {
  source = record { node_id = "n0"; base_url = "http://n0" };
  targets =
      record { node_id = " n1"; base_url = "http://n1" }
      ∷ record { node_id = "n2"; base_url = "http://n2" }
      ∷ [];
  scope = prompt ∷ agent_definition ∷ [];
  selection = some spec;
  conflict_policy = source_wins;
  tombstone_policy = source_delete_wins;
}

abbrev run_plan : ValidatedPlan
run_plan = record run_input {
  targets =
      record { node_id = "n1"; base_url = "http://n1" }
      ∷ record { node_id = "n2"; base_url = "http://n2" }
      ∷ [];
}

validate_test : validate remote run_input ≡ ok run_plan
unfolding validate normalize trim normalize_endpoint safe_normalize_base_url normalize_targets
    assert_distinct assert_no_duplicates get set assert_healthy assert_all_healthy
validate_test = refl

validate-IsSafe_example : IsSafe remote run_input run_plan
validate-IsSafe_example = validate-IsSafe remote run_input run_plan validate_test

abbrev no_change : Summary
no_change = record { processed = 0; created = 0; updated = 0; deleted = 0; skipped = 0 }

abbrev client : BundleClient (List (Dict String))
client = record {
  remote = remote;
  export_bundle = λ url scope selection. ok ((("key", "k") ∷ []) ∷ []);
  import_bundle = λ url bundle scope conflict tombstone.
      ok (record { success = true; summary = no_change; failures = []; applied_watermark = none });
  records_of = λ bundle type. bundle;
}

abbrev limits : Limits
limits = record { max_key_samples_per_entity = 25; max_failure_samples_per_target = 50 }

abbrev run_result : RunResult
run_result = send_bundle decimal limits client run_plan ((("key", "k") ∷ []) ∷ [])

run_test : run decimal limits client run_input ≡ ok run_result
unfolding run export_source_bundle validate normalize trim normalize_endpoint
    safe_normalize_base_url normalize_targets assert_distinct assert_no_duplicates get set
    assert_healthy assert_all_healthy
run_test = refl

run-IsRun_example : IsRun decimal limits client run_input run_result
run-IsRun_example = run-IsRun decimal limits client run_input run_result run_test

abbrev source : Source
source = record { prompts = helper ∷ []; agents = agents; teams = teams; configs = [] }

abbrev whole_scope : List EntityType
whole_scope = prompt ∷ agent_definition ∷ agent_team_definition ∷ mcp_server_configuration ∷ []

abbrev bundle : Bundle
bundle = export_selected decimal source whole_scope "now" (some resolved)

export_test : export_bundle decimal source whole_scope (some spec) "now" ≡ ok bundle
unfolding export_bundle resolve_selection resolve_selected add_all add normalize_ids normalize trim
    index_by_id set resolve_requested check_ids get finish_selection resolve_dependencies
    expand_team_dependencies expand_queue visit_queued visit_members visit_member
    resolve_prompt_families normalize_optional join
export_test = refl

a_IsWanted : IsWanted agents teams spec "AGENT" "a"
unfolding index_by_id set get add_all add normalize_ids normalize trim
a_IsWanted =
    is_member "u" inner 0 (member "AGENT" "a")
      (is_member "t" outer 0 (member "AGENT_TEAM" "u") (team_asked "t" refl) refl refl) refl refl

export_bundle-agent_example :
    (xs : List SyncAgentDefinition) × (ps : List SyncPrompt) × (bundle.agent_definitions ≡ some xs)
    × IsIn (sync_agent_definition agent) xs
    × (bundle.prompts ≡ some ps)
    × IsIn (sync_prompt decimal helper) ps
unfolding has_type get index_by_id set normalize_optional normalize trim
export_bundle-agent_example =
    export_bundle-agent decimal source whole_scope spec "now" bundle "a" agent helper export_test
      refl refl refl a_IsWanted refl refl (0, refl)

abbrev server : String → McpConfig
server id = stdio (record {
  server_id = id;
  enabled = true;
  tool_name_prefix = none;
  command = "run";
  arguments = none;
  env = none;
  cwd = none;
})

-- A store that counts the updates; it has the server "m" and the agent of the bundle already.
abbrev services : Services ℕ
services = record {
  find_prompts = λ s. (ok [], s);
  create_prompt = λ p s. (ok (some "p"), s);
  mark_active_prompt = λ id s. (ok tt, s);
  update_prompt = λ p s. (ok (some "p"), s + 1);
  get_all_agent_definitions = λ s. (ok agents, s);
  create_agent_definition = λ d s. (ok tt, s);
  update_agent_definition = λ id d s. (ok tt, s + 1);
  get_all_definitions = λ s. (ok [], s);
  create_definition = λ t s. (err "refused", s);
  update_definition = λ id t s. (ok tt, s + 1);
  get_all_mcp_servers = λ s. (ok (server "m" ∷ []), s);
  configure_mcp_server = λ c s. (ok tt, if str_eq (server_id_of c) "m" then s + 1 else s);
}

abbrev refused : String → Failure
refused key = record { entity_type = agent_team_definition; key = key; message = "refused" }

abbrev import_answer : ImportResult
import_answer = record {
  success = false;
  summary = record { processed = 4; created = 1; updated = 1; deleted = 0; skipped = 0 };
  failures = refused "T" ∷ refused "U" ∷ [];
  applied_watermark = some "now";
}

services_known :
    (s t : ℕ) (configs : List McpConfig) (id : String)
    → services.get_all_mcp_servers s ≡ (ok configs, t)
    → id ≡ "m"
    → Listed id configs
services_known s t configs id e is_m =
    subst (Listed id) (ok-injective _ configs (ap (λ x. x.0) e)) (inl (sym is_m))

counts_IsAdditive : IsAdditive services (λ s t. ◌≡◌ {A = ℕ} s t) (λ id. ◌≡◌ {A = String} id "m")
counts_IsAdditive = record {
  R_refl = λ s. refl;
  R_trans = λ s t u a b. a ∙ b;
  find_prompts = λ s. refl;
  create_prompt = λ p s. refl;
  mark_active_prompt = λ id s. refl;
  get_all_agent_definitions = λ s. refl;
  create_agent_definition = λ d s. refl;
  get_all_definitions = λ s. refl;
  create_definition = λ t s. refl;
  get_all_mcp_servers = λ s. refl;
  known = services_known;
  configure_mcp_server = λ c s new. ground (arith, str_eq_iff (server_id_of c) "m");
}

-- The bundle with a server that the node knows and one that it does not.
abbrev with_servers : Bundle
with_servers = record bundle { mcp_server_configurations = some (server "m" ∷ server "n" ∷ []) }

import_bundle-Keeps_example :
    ◌≡◌ {A = ℕ} 0 (import_bundle decimal services whole_scope with_servers target_wins 0).1
import_bundle-Keeps_example =
    import_bundle-Keeps decimal services (λ s t. ◌≡◌ {A = ℕ} s t) (λ id. ◌≡◌ {A = String} id "m")
      counts_IsAdditive whole_scope with_servers 0
