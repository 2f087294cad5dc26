-- ===== src/Sync/Selection/Resolution.antt =====
-- What a resolved selection holds, with its dependencies.
use autobyteus_server_ts.Sync.Selection.Closure.{
  is_member, agent_asked, team_asked, is_covered, IsNeeded,
}
use autobyteus_server_ts.Common.Sets.{contains-add}
use autobyteus_server_ts.Sync.Selection.Dependencies.{
  expand_queue-IsExpanded, IsClosing, IsExpanded,
}
use autobyteus_server_ts.Sync.Selection.{
  invalid_selection_team_id, invalid_selection_agent_id, check_ids, is_empty_selection,
  finish_selection, resolve_requested, requested_ids, agents_index, resolve_selected,
  resolve_selection, teams_index, resolve_dependencies, expand_team_dependencies, add,
  resolved_agent_missing, family_of, Expansion, truthy, resolve_prompt_families, index_by_id,
}
use autobyteus_server_ts.Sync.{ResolvedSelection, SelectionSpec, AgentDefinition, TeamDefinition}
use autobyteus_server_ts.Common.{
  ok-injective, Bool-cases, Option-cases, get_or, ok, or_throw, >>=-eq-ok, or_throw-eq-ok, String,
  ◌≡◌, refl, sym, ap, ◌∙◌, subst, ◌≢◌, ◌↔◌, inl, inr, Bool, true, false, Option, none, some, List,
  [], ◌∷◌, arith, str_eq, str_eq_iff, str_eq_refl,
}
use autobyteus_server_ts.Common.Dict.{Dict, get, set, get-set, contains}

truthy-ne : (o : Option String) (i : String) → truthy o ≡ some i → i ≢ ""
truthy-ne none i h = cc
truthy-ne (some s) i h = λ e. ground (arith, str_eq_iff s "", str_eq_iff i s)

index_by_id-blank {ℓ} :
    {B : Type ℓ} (id : B → Option String) (m : Dict B) (xs : List B)
    → get (index_by_id id m xs) "" ≡ get m ""
unfolding index_by_id
index_by_id-blank id m [] = refl
index_by_id-blank id m (x ∷ xs) = elim (Option-cases (truthy (id x))) [
  | inl n ↦ ground (arith, n, index_by_id-blank id m xs)
  | inr (i, n) ↦
      let ne : i ≢ "" = truthy-ne (id x) i n in
      ground (arith, n, index_by_id-blank id (set m i x) xs, get-set m i "" x, str_eq_iff i "")
]

no_blank : (teams : List TeamDefinition) → get (teams_index teams) "" ≡ none
unfolding get
no_blank teams = index_by_id-blank (λ t. t.id) [] teams

module _ (teams_by_id : Dict TeamDefinition) (agents_by_id : Dict AgentDefinition)
    (asked_teams asked_agents : List String) where
  IsNeeded-covered :
      (e : Expansion) (type id : String)
      → IsExpanded teams_by_id agents_by_id asked_teams asked_agents e
      → IsClosing teams_by_id agents_by_id asked_teams asked_agents e []
      → IsNeeded teams_by_id agents_by_id asked_teams asked_agents type id
      → is_covered e.teams e.agents type id ≡ true
  IsNeeded-covered e type id x c (team_asked t k) = ground (arith, x.teams t k)
  IsNeeded-covered e type id x c (agent_asked a k) = ground (arith, x.agents a k)
  IsNeeded-covered e type id x c (is_member t team i m n found at) =
      let k = IsNeeded-covered e "AGENT_TEAM" t x c n in
      elim (c.member t team i m k found at) [ inl q ↦ absurd (cc q) | inr v ↦ v ]

  expand_team_dependencies-IsExpanded :
      (e : Expansion)
      → get teams_by_id "" ≡ none
      → expand_team_dependencies teams_by_id agents_by_id asked_teams asked_agents ≡ ok e
      → IsExpanded teams_by_id agents_by_id asked_teams asked_agents e
        × IsClosing teams_by_id agents_by_id asked_teams asked_agents e []
  unfolding expand_team_dependencies
  expand_team_dependencies-IsExpanded e blank h =
      let start : Expansion = record {
        teams = asked_teams;
        agents = asked_agents;
        queue = asked_teams;
      } in
      expand_queue-IsExpanded teams_by_id agents_by_id asked_teams asked_agents _ start e
        asked_teams refl h blank
        (record {
          teams = λ t k. k;
          agents = λ a k. k;
          sound = record {
            teams = λ t k. team_asked t k;
            agents = λ a k. agent_asked a k;
            queue = λ t k. team_asked t k;
          };
        })
        (record { member = λ t team i m k found at. inl k })

  resolve_dependencies-IsExpanded :
      (deletes : Bool) (r : ResolvedSelection)
      → get teams_by_id "" ≡ none
      → resolve_dependencies teams_by_id agents_by_id deletes asked_teams asked_agents ≡ ok r
      → (e : Expansion) × (e.teams ≡ r.agent_team_definition_ids)
        × (e.agents ≡ r.agent_definition_ids)
        × (resolve_prompt_families agents_by_id [] r.agent_definition_ids ≡ ok r.prompt_families)
        × IsExpanded teams_by_id agents_by_id asked_teams asked_agents e
        × IsClosing teams_by_id agents_by_id asked_teams asked_agents e []
  unfolding resolve_dependencies
  resolve_dependencies-IsExpanded deletes r blank h =
      let (e, expanded, next) =
        >>=-eq-ok (expand_team_dependencies teams_by_id agents_by_id asked_teams asked_agents) _
          h in
      let (families, made, last) =
        >>=-eq-ok (resolve_prompt_families agents_by_id [] e.agents) _ next in
      let is_r = ok-injective _ r last in
      let (x, c) = expand_team_dependencies-IsExpanded e blank expanded in
      (
        e,
        ap (λ y. y.agent_team_definition_ids) is_r,
        ap (λ y. y.agent_definition_ids) is_r,
        subst
            (λ y.
              resolve_prompt_families agents_by_id [] y.agent_definition_ids ≡ ok y.prompt_families)
            is_r made,
        x,
        c,
      )

resolve_prompt_families-keeps :
    (agents_by_id : Dict AgentDefinition) (families ids r : List String) (family : String)
    → resolve_prompt_families agents_by_id families ids ≡ ok r
    → contains families family ≡ true
    → contains r family ≡ true
unfolding resolve_prompt_families
resolve_prompt_families-keeps agents_by_id families [] r family h k = ground arith
resolve_prompt_families-keeps agents_by_id families (id ∷ ids) r family h k =
    let (agent, found, next) =
      >>=-eq-ok (or_throw (get agents_by_id id) (resolved_agent_missing id)) _ h in
    let (made, named, rest) = >>=-eq-ok (family_of agent) _ next in
    resolve_prompt_families-keeps agents_by_id (add families made) ids r family rest
      (ground (arith, contains-add families made family))

resolve_prompt_families-family :
    (agents_by_id : Dict AgentDefinition) (families ids r : List String) (id : String)
    → resolve_prompt_families agents_by_id families ids ≡ ok r
    → contains ids id ≡ true
    → (agent : AgentDefinition) × (family : String) × (get agents_by_id id ≡ some agent)
      × (family_of agent ≡ ok family)
      × (contains r family ≡ true)
unfolding resolve_prompt_families
resolve_prompt_families-family agents_by_id families [] r id h k = cc
resolve_prompt_families-family agents_by_id families (j ∷ ids) r id h k =
    let (agent, found, next) =
      >>=-eq-ok (or_throw (get agents_by_id j) (resolved_agent_missing j)) _ h in
    let (made, named, rest) = >>=-eq-ok (family_of agent) _ next in
    elim (Bool-cases (str_eq j id)) [
      | inl b ↦
          let same : j ≡ id = (str_eq_iff j id).0 b in
          let here = or_throw-eq-ok (get agents_by_id j) _ found in
          (
            agent,
            made,
            ap (get agents_by_id) (sym same) ∙ here,
            named,
            resolve_prompt_families-keeps agents_by_id (add families made) ids r made rest
                (ground (arith, contains-add families made made, str_eq_refl made)),
          )
      | inr b ↦
          resolve_prompt_families-family agents_by_id (add families made) ids r id rest
            (ground (arith, b))
    ]

-- What the ids of a selection need, among the definitions of the node.
abbrev pub IsWanted :
    List AgentDefinition
    → List TeamDefinition
    → SelectionSpec
    → (reference_type id : String) → Type 0
IsWanted agents teams spec =
    IsNeeded (teams_index teams) (agents_index agents)
      (requested_ids spec.agent_team_definition_ids) (requested_ids spec.agent_definition_ids)

module _ (agents : List AgentDefinition) (teams : List TeamDefinition) (spec : SelectionSpec)
    (r : ResolvedSelection) where
  resolve_selection-dependencies :
      resolve_selection agents teams (some spec) ≡ ok (some r)
      → spec.include_dependencies ≡ some true
      → resolve_dependencies
          (teams_index teams)
          (agents_index agents)
          (get_or spec.include_deletes false)
          (requested_ids spec.agent_team_definition_ids)
          (requested_ids spec.agent_definition_ids)
        ≡ ok r
  unfolding resolve_selection resolve_selected resolve_requested finish_selection
  resolve_selection-dependencies h deps =
      let (v, selected, same) = >>=-eq-ok (resolve_selected agents teams spec) _ h in
      let is_r : v ≡ r = ground arith in
      let asked_agents = requested_ids spec.agent_definition_ids in
      let asked_teams = requested_ids spec.agent_team_definition_ids in
      elim (Bool-cases (is_empty_selection asked_agents asked_teams)) [
        | inl b ↦ absurd (cc (rw (b, resolve_selected) at selected))
        | inr b ↦
            let (u, valid, next) =
              >>=-eq-ok (check_ids invalid_selection_agent_id (agents_index agents) asked_agents) _
                (rw (b, resolve_selected) at selected) in
            let (u', valid', last) =
              >>=-eq-ok (check_ids invalid_selection_team_id (teams_index teams) asked_teams) _
                next in
            rw deps at last ∙ ap ok is_r
      ]

  -- A selection with its dependencies holds the ids that are asked for and those that they refer to,
  -- through any number of nested teams, and no other.
  pub resolve_selection-IsNeeded :
      (id : String)
      → resolve_selection agents teams (some spec) ≡ ok (some r)
      → spec.include_dependencies ≡ some true
      → ((contains r.agent_team_definition_ids id ≡ true)
          ↔ IsWanted agents teams spec "AGENT_TEAM" id)
        × ((contains r.agent_definition_ids id ≡ true) ↔ IsWanted agents teams spec "AGENT" id)
  resolve_selection-IsNeeded id h deps =
      let (e, same_teams, same_agents, families, x, c) =
        resolve_dependencies-IsExpanded (teams_index teams) (agents_index agents)
          (requested_ids spec.agent_team_definition_ids) (requested_ids spec.agent_definition_ids) _
          r (no_blank teams) (resolve_selection-dependencies h deps) in
      let all =
        IsNeeded-covered (teams_index teams) (agents_index agents)
          (requested_ids spec.agent_team_definition_ids) (requested_ids spec.agent_definition_ids)
          e in
      (
        (
          λ k. x.sound.teams id (ap (λ y. contains y id) same_teams ∙ k),
          λ n. ap (λ y. contains y id) (sym same_teams) ∙ all "AGENT_TEAM" id x c n,
        ),
        (
          λ k. x.sound.agents id (ap (λ y. contains y id) same_agents ∙ k),
          λ n. ap (λ y. contains y id) (sym same_agents) ∙ all "AGENT" id x c n,
        ),
      )

  -- Each agent of such a selection is a definition of the node, and the family of its system prompt
  -- is among the prompts that are taken.
  pub resolve_selection-family :
      (id : String)
      → resolve_selection agents teams (some spec) ≡ ok (some r)
      → spec.include_dependencies ≡ some true
      → contains r.agent_definition_ids id ≡ true
      → (agent : AgentDefinition) × (family : String) × (get (agents_index agents) id ≡ some agent)
        × (family_of agent ≡ ok family)
        × (contains r.prompt_families family ≡ true)
  resolve_selection-family id h deps k =
      let (e, same_teams, same_agents, families, x, c) =
        resolve_dependencies-IsExpanded (teams_index teams) (agents_index agents)
          (requested_ids spec.agent_team_definition_ids) (requested_ids spec.agent_definition_ids) _
          r (no_blank teams) (resolve_selection-dependencies h deps) in
      resolve_prompt_families-family (agents_index agents) [] r.agent_definition_ids
        r.prompt_families id families k
