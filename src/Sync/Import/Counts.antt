-- ===== src/Sync/Import/Counts.antt =====
-- What an import answers with, and what it has done.
use autobyteus_server_ts.Common.Actions.{Action}
use autobyteus_server_ts.Common.{
  ◌++◌, ok, get_or, Result, ◌≡◌, length, Option, String, Bool, ℕ, List, true, false, [], ◌∷◌,
}
use autobyteus_server_ts.Sync.Import.{
  key_of_prompt, TeamDefinition, server_id_of, AgentDefinition, sync_prompt_key, agent_definition,
  agent_team_definition, prompt, has_type, mcp_server_configuration, SyncTeamDefinition,
  SyncAgentDefinition, McpConfig, ImportResult, SyncPrompt, ConflictPolicy, Bundle, Failure,
  EntityType, Services, Change, Progress, index_by,
}
use autobyteus_server_ts.Sync.Import.Outcomes.{
  Outcome, Imports, IsTallied, created_in, updated_in, skipped_in, failures_in,
}
use autobyteus_server_ts.Sync.Import.Calls.{
  Became, AgentCreated, AgentUpdated, TeamCreated, TeamUpdated, ServerConfigured, PromptCreated,
  PromptUpdated,
}

abbrev pub has_no_failures : List Failure → Bool
has_no_failures [] = true
has_no_failures (f ∷ fs) = false

-- An importer asks for what the node has, and then takes the incoming entities one by one.
abbrev pub Takes :
    {S A B : Type 0}
    → EntityType
    → (key : B → String) → (index_key : A → String) → Action S String (List A)
    → (Option A → B → S → Result String Change → S → Type 0)
    → List B
    → S
    → List Outcome
    → S
    → Type 0
Takes {S} {A} type key index_key listed Became bs s os t =
    (xs : List A) × (s1 : S) × (listed s ≡ (ok xs, s1))
    × Imports type key Became (index_by index_key [] xs) bs s1 os t

-- An importer is at work where its entity is in the scope.
abbrev pub TakesIf :
    {S B : Type 0}
    → (List B → S → List Outcome → S → Type 0)
    → Bool
    → Option (List B)
    → S
    → List Outcome
    → S
    → Type 0
TakesIf takes false incoming s os t = (os ≡ []) × (s ≡ t)
TakesIf takes true incoming s os t = takes (get_or incoming []) s os t

module _ {S : Type 0} (text_of : ℕ → String) (services : Services S) where
  -- An importer that answers has taken what it was given.
  abbrev IsTaking :
      {B : Type 0}
      → (List B → S → List Outcome → S → Type 0)
      → (List B → ConflictPolicy → Progress → Action S String Progress)
      → ConflictPolicy
      → Type 0
  IsTaking {B} takes importer policy =
      (bs : List B) (p q : Progress) (s s' : S)
      → importer bs policy p s ≡ (ok q, s')
      → (os : List Outcome) × takes bs s os s' × IsTallied os p q

  abbrev pub TakesPrompts : ConflictPolicy → List SyncPrompt → S → List Outcome → S → Type 0
  TakesPrompts policy =
      Takes prompt (sync_prompt_key text_of services) (key_of_prompt text_of) services.find_prompts
        (Became (PromptCreated text_of services) (PromptUpdated text_of services) policy)

  abbrev pub TakesAgents : ConflictPolicy → List SyncAgentDefinition → S → List Outcome → S → Type 0
  TakesAgents policy =
      Takes agent_definition (λ (d : SyncAgentDefinition). d.name) (λ (d : AgentDefinition). d.name)
        services.get_all_agent_definitions
        (Became (AgentCreated text_of services) (AgentUpdated text_of services) policy)

  abbrev pub TakesTeams : ConflictPolicy → List SyncTeamDefinition → S → List Outcome → S → Type 0
  TakesTeams policy =
      Takes agent_team_definition (λ (t : SyncTeamDefinition). t.name)
        (λ (t : TeamDefinition). t.name) services.get_all_definitions
        (Became (TeamCreated text_of services) (TeamUpdated text_of services) policy)

  abbrev pub TakesServers : ConflictPolicy → List McpConfig → S → List Outcome → S → Type 0
  TakesServers policy =
      Takes mcp_server_configuration server_id_of server_id_of services.get_all_mcp_servers (
        Became (ServerConfigured text_of services)
          (λ (x : McpConfig). ServerConfigured text_of services) policy)

  -- What an import has done, and what it answers with.
  pub record IsAccounted (scope : List EntityType) (bundle : Bundle) (policy : ConflictPolicy)
      (s s' : S) (r : ImportResult) : Type 0 where
    pub s1 : S
    pub s2 : S
    pub s3 : S
    pub of_prompts : List Outcome
    pub of_agents : List Outcome
    pub of_teams : List Outcome
    pub of_servers : List Outcome
    pub prompts :
        TakesIf (TakesPrompts policy) (has_type scope prompt) bundle.prompts s of_prompts s1
    pub agents :
        TakesIf
          (TakesAgents policy)
          (has_type scope agent_definition)
          bundle.agent_definitions
          s1
          of_agents
          s2
    pub teams :
        TakesIf
          (TakesTeams policy)
          (has_type scope agent_team_definition)
          bundle.agent_team_definitions
          s2
          of_teams
          s3
    pub servers :
        TakesIf
          (TakesServers policy)
          (has_type scope mcp_server_configuration)
          bundle.mcp_server_configurations
          s3
          of_servers
          s'
    pub processed :
        r.summary.processed ≡ length (of_prompts ++ (of_agents ++ (of_teams ++ of_servers)))
    pub n_created :
        r.summary.created ≡ created_in (of_prompts ++ (of_agents ++ (of_teams ++ of_servers)))
    pub n_updated :
        r.summary.updated ≡ updated_in (of_prompts ++ (of_agents ++ (of_teams ++ of_servers)))
    pub n_skipped :
        r.summary.skipped ≡ skipped_in (of_prompts ++ (of_agents ++ (of_teams ++ of_servers)))
    pub n_deleted : r.summary.deleted ≡ 0
    pub failed : r.failures ≡ failures_in (of_prompts ++ (of_agents ++ (of_teams ++ of_servers)))
    pub success : r.success ≡ has_no_failures r.failures
