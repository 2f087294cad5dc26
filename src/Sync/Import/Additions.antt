-- ===== src/Sync/Import/Additions.antt =====
-- An import in which the target wins: what is there is not updated.
use autobyteus_server_ts.Sync.Import.{
  index_by, server_id_of, mcp_server_configuration, agent_team_definition, agent_definition, prompt,
  has_type, Bundle, import_mcp_server_configurations, truthy, note_entity, in_scope, import_prompt,
  import_agent_team_definitions, SyncPrompt, target_wins, import_agent_definition,
  import_agent_team_definition, import_agent_definitions, Change, SyncAgentDefinition,
  import_mcp_server_configuration, import_prompts, Prompt, EntityType, Progress, SyncTeamDefinition,
  McpConfig, AgentDefinition, import_each, TeamDefinition, activate, create_synced_prompt,
  ConflictPolicy, NewPrompt, import_bundle, Services,
}
use autobyteus_server_ts.Common.{
  get_or, Result, ok, err, ◌≡◌, ◌≢◌, refl, ◌⊎◌, inl, inr, arith, ℕ, String, Bool, true, false,
  Option, none, some, List, [], ◌∷◌,
}
use autobyteus_server_ts.Common.Actions.{Action, ◌>>=◌, reads, continue}
use autobyteus_server_ts.Common.Dict.{Dict, get, set, get-set, get-set_self}

-- A server of this id is among the configurations.
abbrev pub Listed : String → List McpConfig → Type 0
Listed id [] = ⊥
Listed id (c ∷ cs) = (server_id_of c ≡ id) ⊎ Listed id cs

-- A relation of stores that the calls other than the updates keep to. The servers that are `Known` are
-- on the node throughout; to configure one of them is to update it, so only the configuration of
-- another server keeps to the relation.
pub record IsAdditive {S : Type 0} (services : Services S) (R : S → S → Type 0)
    (Known : String → Type 0) : Type 0 where
  pub R_refl : (s : S) → R s s
  pub R_trans : (s t u : S) → R s t → R t u → R s u
  pub find_prompts : (s : S) → R s (services.find_prompts s).1
  pub create_prompt : (p : NewPrompt) (s : S) → R s (services.create_prompt p s).1
  pub mark_active_prompt : (id : String) (s : S) → R s (services.mark_active_prompt id s).1
  pub get_all_agent_definitions : (s : S) → R s (services.get_all_agent_definitions s).1
  pub create_agent_definition :
      (d : AgentDefinition) (s : S) → R s (services.create_agent_definition d s).1
  pub get_all_definitions : (s : S) → R s (services.get_all_definitions s).1
  pub create_definition : (t : TeamDefinition) (s : S) → R s (services.create_definition t s).1
  pub get_all_mcp_servers : (s : S) → R s (services.get_all_mcp_servers s).1
  pub known :
      (s t : S) (configs : List McpConfig) (id : String)
      → services.get_all_mcp_servers s ≡ (ok configs, t)
      → Known id
      → Listed id configs
  pub configure_mcp_server :
      (c : McpConfig) (s : S) → ¬ Known (server_id_of c) → R s (services.configure_mcp_server c s).1

set-kept {ℓ} :
    {A : Type ℓ} (m : Dict A) (j id : String) (x : A) → get m id ≢ none → get (set m j x) id ≢ none
set-kept m j id x h e = h (ground (arith, get-set m j id x, e))

index_by-kept {ℓ} :
    {A : Type ℓ} (key : A → String) (m : Dict A) (xs : List A) (id : String)
    → get m id ≢ none
    → get (index_by key m xs) id ≢ none
index_by-kept key m [] id h = h
index_by-kept key m (x ∷ xs) id h =
    index_by-kept key (set m (key x) x) xs id (set-kept m (key x) id x h)

-- What is listed is found in the index.
index_by-Listed :
    (m : Dict McpConfig) (configs : List McpConfig) (id : String)
    → Listed id configs
    → get (index_by server_id_of m configs) id ≢ none
index_by-Listed m [] id h = absurd h
index_by-Listed m (c ∷ configs) id (inl same) =
    index_by-kept server_id_of (set m (server_id_of c) c) configs id
      (λ e. cc (same, get-set_self m (server_id_of c) c, e))
index_by-Listed m (c ∷ configs) id (inr h) = index_by-Listed (set m (server_id_of c) c) configs id h

module _ {S : Type 0} (text_of : ℕ → String) (services : Services S) (R : S → S → Type 0)
    (Known : String → Type 0) (k : IsAdditive services R Known) where
  -- A call that keeps to the relation.
  abbrev Keeps {ℓ} : {B : Type ℓ} → Action S String B → Type 0
  Keeps m = (s : S) → R s (m s).1

  continue-Keeps {ℓ κ} :
      {B : Type ℓ} {C : Type κ} (s : S) (x : Result String B × S) (f : B → Action S String C)
      → R s x.1
      → ((b : B) (t : S) → x ≡ (ok b, t) → R t (f b t).1)
      → R s (continue x f).1
  continue-Keeps s (ok b, t) f h g = k.R_trans s t _ h (g b t refl)
  continue-Keeps s (err e, t) f h g = h

  >>=-Keeps {ℓ κ} :
      {B : Type ℓ} {C : Type κ} (m : Action S String B) (f : B → Action S String C)
      → Keeps m
      → ((b : B) → Keeps (f b))
      → Keeps (m >>= f)
  >>=-Keeps m f h g s = continue-Keeps s (m s) f (h s) (λ b t e. g b t)

  reads-Keeps {ℓ} : {B : Type ℓ} (f : S → Result String B) → Keeps (reads f)
  reads-Keeps f s = k.R_refl s

  import_each-Keeps {ℓ κ} :
      {A : Type ℓ} {B : Type κ} (type : EntityType) (key : B → String)
      (step : Option A → B → Action S String Change) (existing : Dict A) (bs : List B)
      (p : Progress) (s : S)
      → ((b : B) → Keeps (step (get existing (key b)) b))
      → R s (import_each text_of services type key step existing bs p s).1
  unfolding import_each
  import_each-Keeps type key step existing [] p s h = k.R_refl s
  import_each-Keeps type key step existing (b ∷ bs) p s h =
      let (change, s') = step (get existing (key b)) b s in
      k.R_trans s s' _ (h b s)
        (import_each-Keeps type key step existing bs (note_entity type (key b) change p) s' h)

  activate-Keeps :
      (is_active : Bool) (id : Option String) → Keeps (activate text_of services is_active id)
  activate-Keeps false id s = k.R_refl s
  activate-Keeps true none s = k.R_refl s
  activate-Keeps true (some id) s = k.mark_active_prompt id s

  import_prompt-Keeps :
      (a : Option Prompt) (p : SyncPrompt) → Keeps (import_prompt text_of services target_wins a p)
  unfolding create_synced_prompt
  import_prompt-Keeps none p s0 =
      >>=-Keeps (services.create_prompt _) _ (k.create_prompt _)
        (λ id.
          >>=-Keeps (activate text_of services p.is_active (truthy id)) _
            (activate-Keeps p.is_active (truthy id)) (λ u s. k.R_refl s))
        s0
  import_prompt-Keeps (some existing) p s = k.R_refl s

  import_agent_definition-Keeps :
      (a : Option AgentDefinition) (d : SyncAgentDefinition)
      → Keeps (import_agent_definition text_of services target_wins a d)
  import_agent_definition-Keeps none d s0 =
      >>=-Keeps (services.create_agent_definition _) _ (k.create_agent_definition _)
        (λ u s. k.R_refl s) s0
  import_agent_definition-Keeps (some existing) d s = k.R_refl s

  import_agent_team_definition-Keeps :
      (a : Option TeamDefinition) (t : SyncTeamDefinition)
      → Keeps (import_agent_team_definition text_of services target_wins a t)
  import_agent_team_definition-Keeps none t s0 =
      >>=-Keeps (services.create_definition _) _ (k.create_definition _) (λ u s. k.R_refl s) s0
  import_agent_team_definition-Keeps (some existing) t s = k.R_refl s

  -- A server that is not in the index is not known.
  import_mcp_server_configuration-Keeps :
      (a : Option McpConfig) (c : McpConfig)
      → (Known (server_id_of c) → a ≢ none)
      → Keeps (import_mcp_server_configuration text_of services target_wins a c)
  import_mcp_server_configuration-Keeps none c h s0 =
      >>=-Keeps (services.configure_mcp_server c) _
        (λ s. k.configure_mcp_server c s (λ is_known. h is_known refl)) (λ u s. k.R_refl s) s0
  import_mcp_server_configuration-Keeps (some existing) c h s = k.R_refl s

  import_mcp_server_configurations-Keeps :
      (cs : List McpConfig) (p : Progress)
      → Keeps (import_mcp_server_configurations text_of services cs target_wins p)
  unfolding import_mcp_server_configurations
  import_mcp_server_configurations-Keeps cs p s =
      continue-Keeps s (services.get_all_mcp_servers s) _ (k.get_all_mcp_servers s) (λ configs t e.
        import_each-Keeps mcp_server_configuration server_id_of
          (import_mcp_server_configuration text_of services target_wins)
          (index_by server_id_of [] configs) cs p t
          (λ c.
            import_mcp_server_configuration-Keeps
              (get (index_by server_id_of [] configs) (server_id_of c)) c
              (λ is_known.
                index_by-Listed [] configs (server_id_of c)
                  (k.known s t configs (server_id_of c) e is_known))))

  in_scope-Keeps {ℓ} :
      {B : Type ℓ} (importer : List B → ConflictPolicy → Progress → Action S String Progress)
      (flag : Bool) (incoming : Option (List B)) (p : Progress)
      → ((bs : List B) (q : Progress) → Keeps (importer bs target_wins q))
      → Keeps (in_scope text_of services flag importer incoming target_wins p)
  in_scope-Keeps importer false incoming p h s = k.R_refl s
  in_scope-Keeps importer true incoming p h s = h (get_or incoming []) p s

  -- With `target_wins` an import calls none of the updates, and configures no MCP server that the node
  -- knows throughout: what the other calls keep to, the whole import keeps to, whatever it answers or
  -- throws.
  pub import_bundle-Keeps :
      (scope : List EntityType) (bundle : Bundle) (s : S)
      → R s (import_bundle text_of services scope bundle target_wins s).1
  unfolding import_bundle import_prompts import_agent_definitions import_agent_team_definitions
  import_bundle-Keeps scope bundle =
      >>=-Keeps
        (in_scope text_of services (has_type scope prompt) (import_prompts text_of services)
          bundle.prompts target_wins _)
        _
        (in_scope-Keeps (import_prompts text_of services) (has_type scope prompt) bundle.prompts _
          (λ bs q.
            >>=-Keeps services.find_prompts _ k.find_prompts
              (λ found t. import_each-Keeps prompt _ _ _ bs q t (λ b. import_prompt-Keeps _ b))))
        (λ p1.
          >>=-Keeps
            (in_scope text_of services (has_type scope agent_definition)
              (import_agent_definitions text_of services) bundle.agent_definitions target_wins p1)
            _
            (in_scope-Keeps (import_agent_definitions text_of services)
              (has_type scope agent_definition) bundle.agent_definitions p1
              (λ bs q.
                >>=-Keeps services.get_all_agent_definitions _ k.get_all_agent_definitions
                  (λ found t.
                    import_each-Keeps agent_definition _ _ _ bs q t
                      (λ b. import_agent_definition-Keeps _ b))))
            (λ p2.
              >>=-Keeps
                (in_scope text_of services (has_type scope agent_team_definition)
                  (import_agent_team_definitions text_of services) bundle.agent_team_definitions
                  target_wins p2)
                _
                (in_scope-Keeps (import_agent_team_definitions text_of services)
                  (has_type scope agent_team_definition) bundle.agent_team_definitions p2
                  (λ bs q.
                    >>=-Keeps services.get_all_definitions _ k.get_all_definitions (λ found t.
                      import_each-Keeps agent_team_definition _ _ _ bs q t
                        (λ b. import_agent_team_definition-Keeps _ b))))
                (λ p3.
                  >>=-Keeps
                    (in_scope text_of services (has_type scope mcp_server_configuration)
                      (import_mcp_server_configurations text_of services)
                      bundle.mcp_server_configurations target_wins p3)
                    _
                    (in_scope-Keeps (import_mcp_server_configurations text_of services)
                      (has_type scope mcp_server_configuration) bundle.mcp_server_configurations p3
                      import_mcp_server_configurations-Keeps)
                    (λ p4 u. k.R_refl u))))
