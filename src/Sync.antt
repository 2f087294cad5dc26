-- ===== src/Sync.antt =====
-- The synchronisation of definitions between nodes, src/sync/services: the definitions that are sent
-- and the selection of them (the types of node-sync-selection-service.ts and node-sync-service.ts).
pub mod Selection
pub mod Preflight
pub mod Coordinator
pub mod Report
pub mod Bundle
pub mod Import
pub mod Export
mod Tests
use autobyteus_server_ts.Placement.{TeamMember}
use autobyteus_server_ts.Common.{
  ltb, leb, ◌==◌, if◌then◌else◌, ltb→lt, lt→ltb, leb→le, le→leb, ==_iff, Bool-cases, Option-cases,
  get_or, is_some, Result, ok, err, ◌>>=◌, or_throw, Result-cases, >>=-eq-ok, or_throw-eq-ok,
  length, get_elem?, filter, find, All, length-append, length-filter-le, All-append, All-map,
  filter-All, get_elem?_total, get_elem?-All, find-All, ℕ, zero, suc, ◌+◌, ◌-◌, ◌*◌, ◌/◌, ◌%◌, ◌^◌,
  ◌≤◌, ◌<◌, min, max, String, ◌≡◌, refl, sym, ap, ◌∙◌, subst, ◌≢◌, ◌↔◌, ◌⊎◌, inl, inr, Bool, true,
  false, not, ◌&&◌, ◌||◌, Option, none, some, List, [], ◌∷◌, ◌++◌, map, arith, str_eq, str_eq_iff,
  str_eq_refl,
}
use autobyteus_server_ts.Common.Text.{
  normalize, normalize_optional, IsNormal, normalize-IsNormal, IsNormal-ne-nil, join, trim,
}
use autobyteus_server_ts.Common.Dict.{
  Dict, get, has, set, delete, keys, values, get-set, get-set_self, get-set_ne, get-delete,
  get-delete_self, get-delete_ne, IsDistinct, set-IsDistinct, delete-IsDistinct, delete-absent,
  delete-set_self, length-set, length-delete-le, get-All, set-All, delete-All, contains, dict_laws,
}

pub data EntityType : Type 0 where
  prompt agent_definition agent_team_definition mcp_server_configuration : EntityType

pub data ConflictPolicy : Type 0 where
  source_wins target_wins : ConflictPolicy

pub data TombstonePolicy : Type 0 where
  source_delete_wins : TombstonePolicy

-- A failed entity of an import, and the counts of one.
pub record Failure : Type 0 where
  pub entity_type : EntityType
  pub key : String
  pub message : String

pub record Summary : Type 0 where
  pub processed : ℕ
  pub created : ℕ
  pub updated : ℕ
  pub deleted : ℕ
  pub skipped : ℕ

pub record ImportResult : Type 0 where
  pub success : Bool
  pub summary : Summary
  pub failures : List Failure
  pub applied_watermark : Option String

pub record AgentDefinition : Type 0 where
  pub id : Option String
  pub name : String
  pub role : String
  pub description : String
  pub avatar_url : Option String
  pub system_prompt_category : Option String
  pub system_prompt_name : Option String
  pub tool_names : List String
  pub input_processor_names : List String
  pub llm_response_processor_names : List String
  pub system_prompt_processor_names : List String
  pub tool_execution_result_processor_names : List String
  pub tool_invocation_preprocessor_names : List String
  pub lifecycle_processor_names : List String
  pub skill_names : List String

pub record TeamDefinition : Type 0 where
  pub id : Option String
  pub name : String
  pub description : String
  pub role : Option String
  pub avatar_url : Option String
  pub coordinator_member_name : String
  pub nodes : List TeamMember

pub record SelectionSpec : Type 0 where
  pub agent_definition_ids : Option (List String)
  pub agent_team_definition_ids : Option (List String)
  pub include_dependencies : Option Bool
  pub include_deletes : Option Bool

pub record ResolvedSelection : Type 0 where
  pub agent_definition_ids : List String
  pub agent_team_definition_ids : List String
  pub prompt_families : List String
  pub include_deletes : Bool
