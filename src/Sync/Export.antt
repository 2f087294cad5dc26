-- ===== src/Sync/Export.antt =====
-- `exportBundle` of src/sync/services/node-sync-service.ts. The services of the node's definitions are
-- the lists that they answer with.
pub mod References
use autobyteus_server_ts.Sync.Selection.{resolve_selection, SelectionError, prompt_family_key}
use autobyteus_server_ts.Sync.Bundle.{
  has_type, Bundle, home_or_embedded, key_of_prompt, SyncTeamDefinition, SyncPrompt,
  SyncAgentDefinition, McpConfig, Prompt,
}
use autobyteus_server_ts.Runs.Orchestrator.{truthy}
use autobyteus_server_ts.Sync.{
  mcp_server_configuration, agent_team_definition, agent_definition, prompt, ResolvedSelection,
  SelectionSpec, TeamDefinition, AgentDefinition, EntityType,
}
use autobyteus_server_ts.Common.{
  ltb, leb, ◌==◌, if◌then◌else◌, ltb→lt, lt→ltb, leb→le, le→leb, ==_iff, Bool-cases, Option-cases,
  get_or, is_some, Result, ok, err, ◌>>=◌, or_throw, Result-cases, >>=-eq-ok, or_throw-eq-ok,
  length, get_elem?, filter, find, All, length-append, length-filter-le, All-append, All-map,
  filter-All, get_elem?_total, get_elem?-All, find-All, ℕ, zero, suc, ◌+◌, ◌-◌, ◌*◌, ◌/◌, ◌%◌, ◌^◌,
  ◌≤◌, ◌<◌, min, max, String, ◌≡◌, refl, sym, ap, ◌∙◌, subst, ◌≢◌, ◌↔◌, ◌⊎◌, inl, inr, Bool, true,
  false, not, ◌&&◌, ◌||◌, Option, none, some, List, [], ◌∷◌, ◌++◌, map, arith, str_eq, str_eq_iff,
  str_eq_refl,
}
use autobyteus_server_ts.Common.Text.{
  normalize, normalize_optional, IsNormal, normalize-IsNormal, IsNormal-ne-nil, join, trim,
}
use autobyteus_server_ts.Common.Dict.{
  Dict, get, has, set, delete, keys, values, get-set, get-set_self, get-set_ne, get-delete,
  get-delete_self, get-delete_ne, IsDistinct, set-IsDistinct, delete-IsDistinct, delete-absent,
  delete-set_self, length-set, length-delete-le, get-All, set-All, delete-All, contains, dict_laws,
}

pub record Source : Type 0 where
  pub prompts : List Prompt
  pub agents : List AgentDefinition
  pub teams : List TeamDefinition
  pub configs : List McpConfig

abbrev pub has_family : List String → Prompt → Bool
has_family families p = contains families (prompt_family_key p.category p.name)

unfoldable pub filter_prompts_by_selection : List Prompt → Option ResolvedSelection → List Prompt
filter_prompts_by_selection prompts none = prompts
filter_prompts_by_selection prompts (some r) = elim r.prompt_families [
  | [] ↦ []
  | f ∷ fs ↦ filter (has_family (f ∷ fs)) prompts
]

-- `if (!id) return false; return ids.has(id)`.
abbrev pub is_selected : List String → Option String → Bool
is_selected ids id = elim (truthy id) [ none ↦ false | some i ↦ contains ids i ]

unfoldable pub filter_agent_definitions_by_selection :
    List AgentDefinition → Option ResolvedSelection → List AgentDefinition
filter_agent_definitions_by_selection agents none = agents
filter_agent_definitions_by_selection agents (some r) =
    filter (λ a. is_selected r.agent_definition_ids a.id) agents

unfoldable pub filter_agent_team_definitions_by_selection :
    List TeamDefinition → Option ResolvedSelection → List TeamDefinition
filter_agent_team_definitions_by_selection teams none = teams
filter_agent_team_definitions_by_selection teams (some r) =
    filter (λ t. is_selected r.agent_team_definition_ids t.id) teams

abbrev pub sync_agent_definition : AgentDefinition → SyncAgentDefinition
sync_agent_definition a = record {
  name = a.name;
  role = a.role;
  description = a.description;
  avatar_url = a.avatar_url;
  system_prompt_category = get_or a.system_prompt_category "";
  system_prompt_name = get_or a.system_prompt_name "";
  tool_names = some a.tool_names;
  input_processor_names = some a.input_processor_names;
  llm_response_processor_names = some a.llm_response_processor_names;
  system_prompt_processor_names = some a.system_prompt_processor_names;
  tool_execution_result_processor_names = some a.tool_execution_result_processor_names;
  tool_invocation_preprocessor_names = some a.tool_invocation_preprocessor_names;
  lifecycle_processor_names = some a.lifecycle_processor_names;
  skill_names = some a.skill_names;
}

abbrev pub sync_team_definition : TeamDefinition → SyncTeamDefinition
sync_team_definition t = record {
  name = t.name;
  description = t.description;
  role = t.role;
  avatar_url = t.avatar_url;
  coordinator_member_name = t.coordinator_member_name;
  nodes = map home_or_embedded t.nodes;
}

-- The entity, where it is in the scope.
abbrev pub entities {ℓ} : {A : Type ℓ} → Bool → List A → Option (List A)
entities false xs = none
entities true xs = some xs

-- A selection takes no configurations.
abbrev pub selected_configs : List McpConfig → Option ResolvedSelection → List McpConfig
selected_configs configs none = configs
selected_configs configs (some r) = []

module _ (text_of : ℕ → String) where
  abbrev pub sync_prompt : Prompt → SyncPrompt
  sync_prompt p = record {
    key = key_of_prompt text_of p;
    name = p.name;
    category = p.category;
    prompt_content = p.prompt_content;
    description = p.description;
    suitable_for_models = p.suitable_for_models;
    version = get_or p.version 1;
    is_active = p.is_active;
  }

  unfoldable pub export_selected :
      Source → List EntityType → (now : String) → Option ResolvedSelection → Bundle
  export_selected source scope now selection = record {
    watermark = now;
    prompts =
        entities (has_type scope prompt)
          (map sync_prompt (filter_prompts_by_selection source.prompts selection));
    agent_definitions =
        entities (has_type scope agent_definition) (
          map sync_agent_definition
            (filter_agent_definitions_by_selection source.agents selection));
    agent_team_definitions = entities (has_type scope agent_team_definition) (
        map sync_team_definition
          (filter_agent_team_definitions_by_selection source.teams selection));
    mcp_server_configurations =
        entities (has_type scope mcp_server_configuration)
          (selected_configs source.configs selection);
  }

  unfoldable pub export_bundle :
      Source
      → List EntityType
      → Option SelectionSpec
      → (now : String) → Result SelectionError Bundle
  export_bundle source scope spec now = do
    selection ← resolve_selection source.agents source.teams spec
    ok (export_selected source scope now selection)
