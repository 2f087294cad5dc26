-- ===== src/Sync/Bundle.antt =====
-- The bundle of src/sync/services/node-sync-service.ts: definitions in the form in which they are
-- sent, without the ids that they have on their node.
use autobyteus_server_ts.Sync.Report.{name_of}
use autobyteus_server_ts.Placement.{TeamMember}
use autobyteus_server_ts.Sync.{EntityType}
use autobyteus_server_ts.Common.{
  if◌then◌else◌, get_or, ℕ, String, Bool, true, false, Option, some, List, [], ◌∷◌, str_eq,
}
use autobyteus_server_ts.Common.Text.{join}
use autobyteus_server_ts.Common.Dict.{Dict}

pub record Prompt : Type 0 where
  pub id : Option String
  pub name : String
  pub category : String
  pub prompt_content : String
  pub description : Option String
  pub suitable_for_models : Option String
  pub version : Option ℕ
  pub is_active : Bool

pub record SyncPrompt : Type 0 where
  pub key : String
  pub name : String
  pub category : String
  pub prompt_content : String
  pub description : Option String
  pub suitable_for_models : Option String
  pub version : ℕ
  pub is_active : Bool

pub record SyncAgentDefinition : Type 0 where
  pub name : String
  pub role : String
  pub description : String
  pub avatar_url : Option String
  pub system_prompt_category : String
  pub system_prompt_name : String
  pub tool_names : Option (List String)
  pub input_processor_names : Option (List String)
  pub llm_response_processor_names : Option (List String)
  pub system_prompt_processor_names : Option (List String)
  pub tool_execution_result_processor_names : Option (List String)
  pub tool_invocation_preprocessor_names : Option (List String)
  pub lifecycle_processor_names : Option (List String)
  pub skill_names : Option (List String)

pub record SyncTeamDefinition : Type 0 where
  pub name : String
  pub description : String
  pub role : Option String
  pub avatar_url : Option String
  pub coordinator_member_name : String
  pub nodes : List TeamMember

pub record StdioConfig : Type 0 where
  pub server_id : String
  pub enabled : Bool
  pub tool_name_prefix : Option String
  pub command : String
  pub arguments : Option (List String)
  pub env : Option (Dict String)
  pub cwd : Option String

pub record HttpConfig : Type 0 where
  pub server_id : String
  pub enabled : Bool
  pub tool_name_prefix : Option String
  pub url : String

-- A configuration, which has the same fields on its node.
pub data McpConfig : Type 0 where
  stdio : StdioConfig → McpConfig
  streamable_http : HttpConfig → McpConfig

abbrev pub server_id_of : McpConfig → String
server_id_of (stdio c) = c.server_id
server_id_of (streamable_http c) = c.server_id

-- Of each entity, what is in the scope.
pub record Bundle : Type 0 where
  pub watermark : String
  pub prompts : Option (List SyncPrompt)
  pub agent_definitions : Option (List SyncAgentDefinition)
  pub agent_team_definitions : Option (List SyncTeamDefinition)
  pub mcp_server_configurations : Option (List McpConfig)

-- `new Set(scope).has(type)`.
unfoldable pub has_type : List EntityType → EntityType → Bool
has_type [] type = false
has_type (t ∷ ts) type = if str_eq (name_of t) (name_of type) then true else has_type ts type

abbrev pub home_or_embedded : TeamMember → TeamMember
home_or_embedded m = record m { home_node_id = some (get_or m.home_node_id "embedded-local") }

module _ (text_of : ℕ → String) where
  unfoldable pub prompt_key : (name category : String) → ℕ → Option String → String
  prompt_key name category version models =
      join "::" (category ∷ name ∷ text_of version ∷ get_or models "" ∷ [])

  abbrev pub key_of_prompt : Prompt → String
  key_of_prompt p = prompt_key p.name p.category (get_or p.version 1) p.suitable_for_models
