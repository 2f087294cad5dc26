-- ===== src/Sync/Selection.antt =====
-- src/sync/services/node-sync-selection-service.ts: which definitions a selective synchronisation
-- takes. The two services of definitions are the lists that they answer with.

pub mod Closure
pub mod Finishing
pub mod Dependencies
pub mod Resolution
use autobyteus_server_ts.Sync.{
  ResolvedSelection, TeamMember, SelectionSpec, AgentDefinition, TeamDefinition,
}
use autobyteus_server_ts.Runs.Orchestrator.{truthy}
use autobyteus_server_ts.Common.Sets.{add, add_all}
use autobyteus_server_ts.Common.{
  if◌then◌else◌, get_or, Result, ok, err, ◌>>=◌, or_throw, length, ℕ, zero, suc, ◌+◌, String, Bool,
  true, false, Option, none, some, List, [], ◌∷◌, ◌++◌, str_eq,
}
use autobyteus_server_ts.Common.Text.{normalize, normalize_optional, join}
use autobyteus_server_ts.Common.Dict.{Dict, get, has, set, keys, contains}

pub data SelectionError : Type 0 where
  selection_empty : SelectionError
  invalid_selection_agent_id invalid_selection_team_id : String → SelectionError
  team_member_missing nested_team_missing : (team reference : String) → SelectionError
  resolved_agent_missing : String → SelectionError
  agent_prompt_missing : String → SelectionError
  -- The model's own: the loop was given too little fuel.
  unfinished : SelectionError

unfoldable pub normalize_ids : List String → List String
normalize_ids [] = []
normalize_ids (v ∷ vs) =
    let rest = normalize_ids vs in elim (normalize v) [ none ↦ rest | some w ↦ w ∷ rest ]

abbrev pub requested_ids : Option (List String) → List String
requested_ids none = []
requested_ids (some vs) = add_all [] (normalize_ids vs)

abbrev pub prompt_family_key : String → String → String
prompt_family_key category name = join "::" (category ∷ name ∷ [])

-- `new Map` of the definitions that have an id.
unfoldable pub index_by_id {ℓ} : {A : Type ℓ} → (A → Option String) → Dict A → List A → Dict A
index_by_id id m [] = m
index_by_id id m (x ∷ xs) = elim (truthy (id x)) [
  | none ↦ index_by_id id m xs
  | some i ↦ index_by_id id (set m i x) xs
]

unfoldable pub check_ids {ℓ} :
    {A : Type ℓ}
    → (String → SelectionError)
    → Dict A
    → List String
    → Result SelectionError (Unit {0})
check_ids invalid m [] = ok tt
check_ids invalid m (i ∷ ids) =
    let rest = check_ids invalid m ids in if has m i then rest else err (invalid i)

abbrev pub family_of : AgentDefinition → Result SelectionError String
family_of a = do
  category ← or_throw (normalize_optional a.system_prompt_category) (agent_prompt_missing a.name)
  name ← or_throw (normalize_optional a.system_prompt_name) (agent_prompt_missing a.name)
  ok (prompt_family_key category name)

unfoldable pub resolve_prompt_families :
    Dict AgentDefinition → List String → List String → Result SelectionError (List String)
resolve_prompt_families agents_by_id families [] = ok families
resolve_prompt_families agents_by_id families (id ∷ ids) = do
  agent ← or_throw (get agents_by_id id) (resolved_agent_missing id)
  family ← family_of agent
  resolve_prompt_families agents_by_id (add families family) ids

-- The sets that the loop fills, and its queue.
pub record Expansion : Type 0 where
  pub teams : List String
  pub agents : List String
  pub queue : List String

module _ (teams_by_id : Dict TeamDefinition) (agents_by_id : Dict AgentDefinition) where
  abbrev pub visit_agent : (team reference : String) → Expansion → Result SelectionError Expansion
  visit_agent team reference e =
      if has agents_by_id reference
      then ok (record e { agents = add e.agents reference })
      else err (team_member_missing team reference)

  abbrev pub visit_team : (team reference : String) → Expansion → Result SelectionError Expansion
  visit_team team reference e =
      if has teams_by_id reference
      then if contains e.teams reference
        then ok e
        else ok (record e { teams = add e.teams reference; queue = e.queue ++ (reference ∷ []) })
      else err (nested_team_missing team reference)

  unfoldable pub visit_member :
      (team : String) → TeamMember → Expansion → Result SelectionError Expansion
  visit_member team m e =
      if str_eq m.reference_type "AGENT"
      then visit_agent team m.reference_id e
      else if str_eq m.reference_type "AGENT_TEAM"
      then visit_team team m.reference_id e
      else ok e

  unfoldable pub visit_members :
      (team : String) → List TeamMember → Expansion → Result SelectionError Expansion
  visit_members team [] e = ok e
  visit_members team (m ∷ ms) e = do e' ← visit_member team m e; visit_members team ms e'

  -- One round of the loop: the team that was taken from the queue.
  unfoldable pub visit_queued : String → Expansion → Result SelectionError Expansion
  visit_queued id e = if str_eq id "" then ok e else elim (get teams_by_id id) [
    | none ↦ err (invalid_selection_team_id id)
    | some team ↦ visit_members team.name team.nodes e
  ]

  unfoldable pub expand_queue : ℕ → Expansion → List String → Result SelectionError Expansion
  expand_queue fuel e [] = ok e
  expand_queue zero e (id ∷ rest) = err unfinished
  expand_queue (suc fuel) e (id ∷ rest) = do
    e' ← visit_queued id (record e { queue = rest })
    expand_queue fuel e' e'.queue

  unfoldable pub expand_team_dependencies :
      (teams agents : List String) → Result SelectionError Expansion
  expand_team_dependencies teams agents =
      expand_queue (length teams + length (keys teams_by_id))
        (record { teams = teams; agents = agents; queue = teams }) teams

  unfoldable pub resolve_dependencies :
      (include_deletes : Bool)
      → (teams agents : List String) → Result SelectionError ResolvedSelection
  resolve_dependencies deletes teams agents = do
    e ← expand_team_dependencies teams agents
    families ← resolve_prompt_families agents_by_id [] e.agents
    ok (record {
      agent_definition_ids = e.agents;
      agent_team_definition_ids = e.teams;
      prompt_families = families;
      include_deletes = deletes;
    })

  unfoldable pub finish_selection :
      SelectionSpec → (teams agents : List String) → Result SelectionError ResolvedSelection
  finish_selection spec teams agents =
      if get_or spec.include_dependencies false
      then resolve_dependencies (get_or spec.include_deletes false) teams agents
      else ok (record {
        agent_definition_ids = agents;
        agent_team_definition_ids = teams;
        prompt_families = [];
        include_deletes = get_or spec.include_deletes false;
      })

  unfoldable pub resolve_requested :
      SelectionSpec → (teams agents : List String) → Result SelectionError ResolvedSelection
  resolve_requested spec teams agents = do
    u ← check_ids invalid_selection_agent_id agents_by_id agents
    v ← check_ids invalid_selection_team_id teams_by_id teams
    finish_selection spec teams agents

abbrev pub agents_index : List AgentDefinition → Dict AgentDefinition
agents_index agents = index_by_id (λ a. a.id) [] agents

abbrev pub teams_index : List TeamDefinition → Dict TeamDefinition
teams_index teams = index_by_id (λ t. t.id) [] teams

abbrev pub is_empty_selection : List String → List String → Bool
is_empty_selection [] [] = true
is_empty_selection [] (t ∷ ts) = false
is_empty_selection (a ∷ rest) ts = false

unfoldable pub resolve_selected :
    List AgentDefinition
    → List TeamDefinition
    → SelectionSpec
    → Result SelectionError ResolvedSelection
resolve_selected agents teams spec =
    let requested_agents = requested_ids spec.agent_definition_ids in
    let requested_teams = requested_ids spec.agent_team_definition_ids in
    if is_empty_selection requested_agents requested_teams
    then err selection_empty
    else resolve_requested (teams_index teams) (agents_index agents) spec requested_teams
        requested_agents

unfoldable pub resolve_selection :
    List AgentDefinition
    → List TeamDefinition
    → Option SelectionSpec
    → Result SelectionError (Option ResolvedSelection)
resolve_selection agents teams none = ok none
resolve_selection agents teams (some spec) = do r ← resolve_selected agents teams spec; ok (some r)
