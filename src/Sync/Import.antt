-- ===== src/Sync/Import.antt =====
-- `importBundle` of src/sync/services/node-sync-service.ts. The services of the node's definitions are
-- calls on a store of any kind, which may throw; what one entity throws is noted and the next one is
-- taken.
pub mod Counts
pub mod Additions
pub mod Outcomes
pub mod Calls
use autobyteus_server_ts.Runs.Orchestrator.{truthy}
use autobyteus_server_ts.Sync.{
  source_wins, target_wins, AgentDefinition, ImportResult, TeamDefinition, agent_team_definition,
  prompt, agent_definition, Failure, mcp_server_configuration, Summary, EntityType, ConflictPolicy,
}
use autobyteus_server_ts.Sync.Bundle.{
  server_id_of, prompt_key, key_of_prompt, has_type, home_or_embedded, Prompt, SyncAgentDefinition,
  McpConfig, SyncPrompt, SyncTeamDefinition, Bundle,
}
use autobyteus_server_ts.Common.{
  ◌==◌, get_or, Result, ok, err, or_throw, length, ℕ, ◌+◌, String, Bool, true, false, Option, none,
  some, List, [], ◌∷◌, ◌++◌, map,
}
use autobyteus_server_ts.Common.Actions.{Action, ◌>>=◌, reads}
use autobyteus_server_ts.Common.Text.{join}
use autobyteus_server_ts.Common.Dict.{Dict, get, set}

pub record NewPrompt : Type 0 where
  pub name : String
  pub category : String
  pub prompt_content : String
  pub description : Option String
  pub suitable_for_models : Option String

pub record PromptUpdate : Type 0 where
  pub prompt_id : String
  pub prompt_content : String
  pub description : Option String
  pub suitable_for_models : Option String

-- `createPrompt` and `updatePrompt` answer with the id of the prompt, if it has one.
pub record Services (S : Type 0) : Type 0 where
  pub find_prompts : Action S String (List Prompt)
  pub create_prompt : NewPrompt → Action S String (Option String)
  pub mark_active_prompt : String → Action S String (Unit {0})
  pub update_prompt : PromptUpdate → Action S String (Option String)
  pub get_all_agent_definitions : Action S String (List AgentDefinition)
  pub create_agent_definition : AgentDefinition → Action S String (Unit {0})
  pub update_agent_definition : String → AgentDefinition → Action S String (Unit {0})
  pub get_all_definitions : Action S String (List TeamDefinition)
  pub create_definition : TeamDefinition → Action S String (Unit {0})
  pub update_definition : String → TeamDefinition → Action S String (Unit {0})
  pub get_all_mcp_servers : Action S String (List McpConfig)
  pub configure_mcp_server : McpConfig → Action S String (Unit {0})

-- What has become of an entity that was not thrown at.
pub data Change : Type 0 where
  created updated skipped : Change

-- `summary` and `failures`, which the four loops write into.
pub record Progress : Type 0 where
  pub summary : Summary
  pub failures : List Failure

abbrev pub count_change : Change → Summary → Summary
count_change created s = record s { processed = s.processed + 1; created = s.created + 1 }
count_change updated s = record s { processed = s.processed + 1; updated = s.updated + 1 }
count_change skipped s = record s { processed = s.processed + 1; skipped = s.skipped + 1 }

unfoldable pub note_entity : EntityType → String → Result String Change → Progress → Progress
note_entity type key (ok change) p = record p { summary = count_change change p.summary }
note_entity type key (err message) p =
    let s = p.summary in
    record {
      summary = record s { processed = s.processed + 1 };
      failures = p.failures ++ (record { entity_type = type; key = key; message = message } ∷ []);
    }

abbrev pub index_by {ℓ} : {A : Type ℓ} → (A → String) → Dict A → List A → Dict A
index_by key m [] = m
index_by key m (x ∷ xs) = index_by key (set m (key x) x) xs

abbrev pub agent_input : SyncAgentDefinition → AgentDefinition
agent_input d = record {
  id = none;
  name = d.name;
  role = d.role;
  description = d.description;
  avatar_url = d.avatar_url;
  system_prompt_category = some d.system_prompt_category;
  system_prompt_name = some d.system_prompt_name;
  tool_names = get_or d.tool_names [];
  input_processor_names = get_or d.input_processor_names [];
  llm_response_processor_names = get_or d.llm_response_processor_names [];
  system_prompt_processor_names = get_or d.system_prompt_processor_names [];
  tool_execution_result_processor_names = get_or d.tool_execution_result_processor_names [];
  tool_invocation_preprocessor_names = get_or d.tool_invocation_preprocessor_names [];
  lifecycle_processor_names = get_or d.lifecycle_processor_names [];
  skill_names = get_or d.skill_names [];
}

abbrev pub team_input : SyncTeamDefinition → TeamDefinition
team_input t = record {
  id = none;
  name = t.name;
  description = t.description;
  role = t.role;
  avatar_url = t.avatar_url;
  coordinator_member_name = t.coordinator_member_name;
  nodes = map home_or_embedded t.nodes;
}

module _ {S : Type 0} (text_of : ℕ → String) (services : Services S) where
  -- `if (isActive && id) await markActivePrompt(id)`.
  abbrev pub activate : Bool → Option String → Action S String (Unit {0})
  activate false id s = (ok tt, s)
  activate true none s = (ok tt, s)
  activate true (some id) s = services.mark_active_prompt id s

  unfoldable pub create_synced_prompt : SyncPrompt → Action S String Change
  create_synced_prompt p = do
    id ← services.create_prompt (record {
      name = p.name;
      category = p.category;
      prompt_content = p.prompt_content;
      description = p.description;
      suitable_for_models = p.suitable_for_models;
    })
    u ← activate p.is_active (truthy id)
    reads (λ s. ok created)

  unfoldable pub update_synced_prompt : String → SyncPrompt → Prompt → Action S String Change
  update_synced_prompt key p existing = do
    prompt_id ← reads (λ s.
        or_throw (truthy existing.id) (join "" ("Existing prompt missing id for key " ∷ key ∷ [])))
    id ← services.update_prompt (record {
      prompt_id = prompt_id;
      prompt_content = p.prompt_content;
      description = p.description;
      suitable_for_models = p.suitable_for_models;
    })
    u ← activate p.is_active (truthy id)
    reads (λ s. ok updated)

  abbrev pub sync_prompt_key : SyncPrompt → String
  sync_prompt_key p =
      get_or (truthy (some p.key))
        (prompt_key text_of p.name p.category p.version p.suitable_for_models)

  abbrev pub import_prompt : ConflictPolicy → Option Prompt → SyncPrompt → Action S String Change
  import_prompt policy none p = create_synced_prompt p
  import_prompt target_wins (some existing) p = reads (λ s. ok skipped)
  import_prompt source_wins (some existing) p = update_synced_prompt (sync_prompt_key p) p existing

  abbrev pub import_agent_definition :
      ConflictPolicy → Option AgentDefinition → SyncAgentDefinition → Action S String Change
  import_agent_definition policy none d = do
    u ← services.create_agent_definition (agent_input d)
    reads (λ s. ok created)
  import_agent_definition target_wins (some existing) d = reads (λ s. ok skipped)
  import_agent_definition source_wins (some existing) d = do
    id ← reads (λ s.
        or_throw (truthy existing.id)
          (join "" ("Existing agent definition missing id: " ∷ d.name ∷ [])))
    u ← services.update_agent_definition id (agent_input d)
    reads (λ s. ok updated)

  abbrev pub import_agent_team_definition :
      ConflictPolicy → Option TeamDefinition → SyncTeamDefinition → Action S String Change
  import_agent_team_definition policy none t = do
    u ← services.create_definition (team_input t)
    reads (λ s. ok created)
  import_agent_team_definition target_wins (some existing) t = reads (λ s. ok skipped)
  import_agent_team_definition source_wins (some existing) t = do
    id ← reads (λ s.
        or_throw (truthy existing.id)
          (join "" ("Existing agent team definition missing id: " ∷ t.name ∷ [])))
    u ← services.update_definition id (team_input t)
    reads (λ s. ok updated)

  abbrev pub import_mcp_server_configuration :
      ConflictPolicy → Option McpConfig → McpConfig → Action S String Change
  import_mcp_server_configuration policy none c = do
    u ← services.configure_mcp_server c
    reads (λ s. ok created)
  import_mcp_server_configuration target_wins (some existing) c = reads (λ s. ok skipped)
  import_mcp_server_configuration source_wins (some existing) c = do
    u ← services.configure_mcp_server c
    reads (λ s. ok updated)

  -- The loop of each importer: `existing` is looked up in the index made before it.
  unfoldable pub import_each {ℓ κ} :
      {A : Type ℓ} {B : Type κ}
      → EntityType
      → (key : B → String) → (step : Option A → B → Action S String Change) → Dict A
      → List B
      → Progress
      → S
      → Progress × S
  import_each type key step existing [] p s = (p, s)
  import_each type key step existing (b ∷ bs) p s =
      let (change, s') = step (get existing (key b)) b s in
      import_each type key step existing bs (note_entity type (key b) change p) s'

  unfoldable pub import_prompts :
      List SyncPrompt → ConflictPolicy → Progress → Action S String Progress
  import_prompts incoming policy p = do
    prompts ← services.find_prompts
    λ s.
        let (p', s') =
          import_each prompt sync_prompt_key (import_prompt policy)
            (index_by (key_of_prompt text_of) [] prompts) incoming p s in
        (ok p', s')

  unfoldable pub import_agent_definitions :
      List SyncAgentDefinition → ConflictPolicy → Progress → Action S String Progress
  import_agent_definitions incoming policy p = do
    definitions ← services.get_all_agent_definitions
    λ s.
        let (p', s') =
          import_each agent_definition (λ d. d.name) (import_agent_definition policy)
            (index_by (λ d. d.name) [] definitions) incoming p s in
        (ok p', s')

  unfoldable pub import_agent_team_definitions :
      List SyncTeamDefinition → ConflictPolicy → Progress → Action S String Progress
  import_agent_team_definitions incoming policy p = do
    teams ← services.get_all_definitions
    λ s.
        let (p', s') =
          import_each agent_team_definition (λ t. t.name) (import_agent_team_definition policy)
            (index_by (λ t. t.name) [] teams) incoming p s in
        (ok p', s')

  unfoldable pub import_mcp_server_configurations :
      List McpConfig → ConflictPolicy → Progress → Action S String Progress
  import_mcp_server_configurations incoming policy p = do
    configs ← services.get_all_mcp_servers
    λ s.
        let (p', s') =
          import_each mcp_server_configuration server_id_of (import_mcp_server_configuration policy)
            (index_by server_id_of [] configs) incoming p s in
        (ok p', s')

  -- An importer, where its entity is in the scope.
  abbrev pub in_scope {ℓ} :
      {B : Type ℓ}
      → Bool
      → (List B → ConflictPolicy → Progress → Action S String Progress)
      → Option (List B)
      → ConflictPolicy
      → Progress
      → Action S String Progress
  in_scope false importer incoming policy p = reads (λ s. ok p)
  in_scope true importer incoming policy p = importer (get_or incoming []) policy p

  abbrev pub no_progress : Progress
  no_progress = record {
    summary = record { processed = 0; created = 0; updated = 0; deleted = 0; skipped = 0 };
    failures = [];
  }

  abbrev pub import_result : Bundle → Progress → ImportResult
  import_result bundle p = record {
    success = length p.failures == 0;
    summary = p.summary;
    failures = p.failures;
    applied_watermark = some bundle.watermark;
  }

  unfoldable pub import_bundle :
      List EntityType → Bundle → ConflictPolicy → Action S String ImportResult
  import_bundle scope bundle policy = do
    p1 ← in_scope (has_type scope prompt) import_prompts bundle.prompts policy no_progress
    p2 ←
        in_scope (has_type scope agent_definition) import_agent_definitions bundle.agent_definitions
          policy p1
    p3 ←
        in_scope (has_type scope agent_team_definition) import_agent_team_definitions
          bundle.agent_team_definitions policy p2
    p4 ←
        in_scope (has_type scope mcp_server_configuration) import_mcp_server_configurations
          bundle.mcp_server_configurations policy p3
    reads (λ s. ok (import_result bundle p4))
