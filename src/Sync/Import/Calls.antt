-- ===== src/Sync/Import/Calls.antt =====
-- Which calls of the services an import makes for each entity.
use autobyteus_server_ts.Common.{
  ◌≢◌, true, false, none, some, inr, inl, false, Option-cases, err, none, some, ◌≡◌, ok, Bool,
  String, Option, Result, ℕ, refl,
}
use autobyteus_server_ts.Common.Actions.{reads, continue}
use autobyteus_server_ts.Sync.Import.{
  target_wins, source_wins, activate, truthy, update_synced_prompt, McpConfig, TeamDefinition,
  SyncTeamDefinition, Prompt, SyncAgentDefinition, SyncPrompt, create_synced_prompt,
  AgentDefinition, ConflictPolicy, Services, Change, created, updated, skipped, import_prompt,
  import_agent_definition, import_agent_team_definition, import_mcp_server_configuration,
  agent_input, team_input,
}

-- What has become of an entity: it was created where the index had none, or, where it had one, skipped
-- if the target wins and updated if the source wins. Otherwise a call threw.
abbrev pub Became :
    {S A B : Type 0}
    → (Created : B → S → S → Type 0) → (Updated : A → B → S → S → Type 0) → ConflictPolicy
    → Option A
    → B
    → S
    → Result String Change
    → S
    → Type 0
Became Created Updated policy a b s (ok created) t = (a ≡ none) × Created b s t
Became {A = A} Created Updated policy a b s (ok updated) t =
    (policy ≡ source_wins) × ((x : A) × (a ≡ some x) × Updated x b s t)
Became Created Updated policy a b s (ok skipped) t = (policy ≡ target_wins) × (a ≢ none) × (s ≡ t)
Became Created Updated policy a b s (err message) t = policy ≡ target_wins → a ≡ none

-- A call, and what its answer is turned into.
called :
    {S U : Type 0} (x : Result String U × S) (change : Change)
    (P : Result String Change → S → Type 0)
    → ((u : U) (t : S) → x ≡ (ok u, t) → P (ok change) t)
    → ((e : String) (t : S) → P (err e) t)
    → P (continue x (λ u. reads (λ s. ok change))).0 (continue x (λ u. reads (λ s. ok change))).1
called (ok u, t) change P fine thrown = fine u t refl
called (err e, t) change P fine thrown = thrown e t

module _ {S : Type 0} (text_of : ℕ → String) (services : Services S) where
  abbrev pub AgentCreated : SyncAgentDefinition → S → S → Type 0
  AgentCreated d s t =
      (u : Unit {0}) × (services.create_agent_definition (agent_input d) s ≡ (ok u, t))

  abbrev pub AgentUpdated : AgentDefinition → SyncAgentDefinition → S → S → Type 0
  AgentUpdated x d s t =
      (id : String) × (u : Unit {0}) × (truthy x.id ≡ some id)
      × (services.update_agent_definition id (agent_input d) s ≡ (ok u, t))

  abbrev pub TeamCreated : SyncTeamDefinition → S → S → Type 0
  TeamCreated d s t = (u : Unit {0}) × (services.create_definition (team_input d) s ≡ (ok u, t))

  abbrev pub TeamUpdated : TeamDefinition → SyncTeamDefinition → S → S → Type 0
  TeamUpdated x d s t =
      (id : String) × (u : Unit {0}) × (truthy x.id ≡ some id)
      × (services.update_definition id (team_input d) s ≡ (ok u, t))

  abbrev pub ServerConfigured : McpConfig → S → S → Type 0
  ServerConfigured c s t = (u : Unit {0}) × (services.configure_mcp_server c s ≡ (ok u, t))

  -- A prompt that the source has as active, and that has an id, is made active.
  abbrev pub IsActivated : Bool → Option String → S → S → Type 0
  IsActivated false id s t = s ≡ t
  IsActivated true none s t = s ≡ t
  IsActivated true (some id) s t = (u : Unit {0}) × (services.mark_active_prompt id s ≡ (ok u, t))

  abbrev pub PromptCreated : SyncPrompt → S → S → Type 0
  PromptCreated p s t =
      (id : Option String) × (s1 : S) × (services.create_prompt
          (record {
            name = p.name;
            category = p.category;
            prompt_content = p.prompt_content;
            description = p.description;
            suitable_for_models = p.suitable_for_models;
          })
          s
        ≡ (ok id, s1))
      × IsActivated p.is_active (truthy id) s1 t

  abbrev pub PromptUpdated : Prompt → SyncPrompt → S → S → Type 0
  PromptUpdated x p s t =
      (prompt_id : String) × (id : Option String) × (s1 : S) × (truthy x.id ≡ some prompt_id)
      × (services.update_prompt
            (record {
              prompt_id = prompt_id;
              prompt_content = p.prompt_content;
              description = p.description;
              suitable_for_models = p.suitable_for_models;
            })
            s
          ≡ (ok id, s1))
      × IsActivated p.is_active (truthy id) s1 t

  pub import_agent_definition-Became :
      (policy : ConflictPolicy) (a : Option AgentDefinition) (d : SyncAgentDefinition) (s : S)
      → Became AgentCreated AgentUpdated policy a d s
          (import_agent_definition text_of services policy a d s).0
          (import_agent_definition text_of services policy a d s).1
  import_agent_definition-Became policy none d s =
      called (services.create_agent_definition (agent_input d) s) created
        (Became AgentCreated AgentUpdated policy none d s) (λ u t e. (refl, (u, e)))
        (λ e t same. refl)
  import_agent_definition-Became target_wins (some x) d s = (refl, λ e. cc e, refl)
  import_agent_definition-Became source_wins (some x) d s = elim (Option-cases (truthy x.id)) [
    | inl n ↦ rw n (λ e. cc e)
    | inr (id, n) ↦ rw n (
        called (services.update_agent_definition id (agent_input d) s) updated
          (Became AgentCreated AgentUpdated source_wins (some x) d s)
          (λ u t e. (refl, (x, refl, (id, u, n, e)))) (λ e t same. cc same))
  ]

  pub import_agent_team_definition-Became :
      (policy : ConflictPolicy) (a : Option TeamDefinition) (d : SyncTeamDefinition) (s : S)
      → Became TeamCreated TeamUpdated policy a d s
          (import_agent_team_definition text_of services policy a d s).0
          (import_agent_team_definition text_of services policy a d s).1
  import_agent_team_definition-Became policy none d s =
      called (services.create_definition (team_input d) s) created
        (Became TeamCreated TeamUpdated policy none d s) (λ u t e. (refl, (u, e)))
        (λ e t same. refl)
  import_agent_team_definition-Became target_wins (some x) d s = (refl, λ e. cc e, refl)
  import_agent_team_definition-Became source_wins (some x) d s = elim (Option-cases (truthy x.id)) [
    | inl n ↦ rw n (λ e. cc e)
    | inr (id, n) ↦ rw n (
        called (services.update_definition id (team_input d) s) updated
          (Became TeamCreated TeamUpdated source_wins (some x) d s)
          (λ u t e. (refl, (x, refl, (id, u, n, e)))) (λ e t same. cc same))
  ]

  pub import_mcp_server_configuration-Became :
      (policy : ConflictPolicy) (a : Option McpConfig) (c : McpConfig) (s : S)
      → Became ServerConfigured
          (λ x. ServerConfigured)
          policy
          a
          c
          s
          (import_mcp_server_configuration text_of services policy a c s).0
          (import_mcp_server_configuration text_of services policy a c s).1
  import_mcp_server_configuration-Became policy none c s =
      called (services.configure_mcp_server c s) created
        (Became ServerConfigured (λ (x : McpConfig). ServerConfigured) policy none c s)
        (λ u t e. (refl, (u, e))) (λ e t same. refl)
  import_mcp_server_configuration-Became target_wins (some x) c s = (refl, λ e. cc e, refl)
  import_mcp_server_configuration-Became source_wins (some x) c s =
      called (services.configure_mcp_server c s) updated
        (Became ServerConfigured (λ (x : McpConfig). ServerConfigured) source_wins (some x) c s)
        (λ u t e. (refl, (x, refl, (u, e)))) (λ e t same. cc same)

  -- Behind a prompt that has been written.
  activated :
      (active : Bool) (id : Option String) (change : Change) (s : S)
      (P : Result String Change → S → Type 0)
      → ((t : S) → IsActivated active id s t → P (ok change) t)
      → ((e : String) (t : S) → P (err e) t)
      → P
          (continue (activate text_of services active id s) (λ u. reads (λ s. ok change))).0
          (continue (activate text_of services active id s) (λ u. reads (λ s. ok change))).1
  activated false id change s P fine thrown = fine s refl
  activated true none change s P fine thrown = fine s refl
  activated true (some id) change s P fine thrown =
      called (services.mark_active_prompt id s) change P (λ u t e. fine t (u, e)) thrown

  written :
      (active : Bool) (x : Result String (Option String) × S) (change : Change)
      (P : Result String Change → S → Type 0)
      → ((id : Option String) (s1 t : S)
          → x ≡ (ok id, s1)
          → IsActivated active (truthy id) s1 t
          → P (ok change) t)
      → ((e : String) (t : S) → P (err e) t)
      → let y = continue x (λ id s1.
        continue (activate text_of services active (truthy id) s1) (λ u. reads (λ s. ok change))) in
        P y.0 y.1
  written active (ok id, s1) change P fine thrown =
      activated active (truthy id) change s1 P (λ t. fine id s1 t refl) thrown
  written active (err e, s1) change P fine thrown = thrown e s1

  pub import_prompt-Became :
      (policy : ConflictPolicy) (a : Option Prompt) (p : SyncPrompt) (s : S)
      → Became PromptCreated PromptUpdated policy a p s
          (import_prompt text_of services policy a p s).0
          (import_prompt text_of services policy a p s).1
  unfolding create_synced_prompt update_synced_prompt
  import_prompt-Became policy none p s =
      written p.is_active (services.create_prompt _ s) created
        (Became PromptCreated PromptUpdated policy none p s) (λ id s1 t e a. (refl, (id, s1, e, a)))
        (λ e t same. refl)
  import_prompt-Became target_wins (some x) p s = (refl, λ e. cc e, refl)
  import_prompt-Became source_wins (some x) p s = elim (Option-cases (truthy x.id)) [
    | inl n ↦ rw n (λ e. cc e)
    | inr (id, n) ↦ rw n (
        written p.is_active (services.update_prompt _ s) updated
          (Became PromptCreated PromptUpdated source_wins (some x) p s)
          (λ i s1 t e a. (refl, (x, refl, (id, i, s1, n, e, a)))) (λ e t same. cc same))
  ]
