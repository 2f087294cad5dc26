-- ===== src/Sync/Export/References.antt =====
-- A bundle that is exported with its dependencies holds what its definitions refer to.
use autobyteus_server_ts.Sync.Selection.Resolution.{
  resolve_selection-family, resolve_selection-IsNeeded, IsWanted,
}
use autobyteus_server_ts.Sync.Selection.Resolution.{IsWanted}
use autobyteus_server_ts.Sync.Export.{
  sync_prompt, sync_agent_definition, SyncPrompt, SyncAgentDefinition, agent_definition, prompt,
  has_type, Bundle, SelectionSpec, EntityType, Source, export_bundle, export_selected, is_selected,
}
use autobyteus_server_ts.Sync.Selection.{
  resolve_selected, family_of, agents_index, resolve_selection,
}
use autobyteus_server_ts.Sync.Export.{
  has_family, is_selected, prompt_family_key, resolve_selection, ResolvedSelection, Prompt,
  AgentDefinition, export_selected, filter_prompts_by_selection,
  filter_agent_definitions_by_selection,
}
use autobyteus_server_ts.Runs.Orchestrator.{truthy}
use autobyteus_server_ts.Sync.Selection.{index_by_id}
use autobyteus_server_ts.Common.{
  ok-injective, >>=-eq-ok, ok, List-cases, some-injective, Bool-cases, Option-cases, get_elem?,
  filter, ℕ, zero, suc, String, ◌≡◌, refl, sym, ap, ◌∙◌, ◌⊎◌, inl, inr, Bool, true, Option, some,
  List, [], ◌∷◌, map, str_eq, str_eq_iff,
}
use autobyteus_server_ts.Common.Dict.{contains, Dict, get, set, get-set}

-- A member of a list, at some place.
abbrev pub IsIn {ℓ} : {A : Type ℓ} → A → List A → Type ℓ
IsIn x xs = (i : ℕ) × (get_elem? xs i ≡ some x)

IsIn-cons {ℓ} : {A : Type ℓ} (x y : A) (xs : List A) → IsIn x xs → IsIn x (y ∷ xs)
IsIn-cons x y xs (i, h) = (suc i, h)

filter-IsIn {ℓ} :
    {A : Type ℓ} (p : A → Bool) (xs : List A) (x : A)
    → p x ≡ true
    → IsIn x xs
    → IsIn x (filter p xs)
filter-IsIn p [] x h (i, at) = cc at
filter-IsIn p (y ∷ xs) x h (zero, at) =
    let same : y ≡ x = some-injective y x at in let b : p y ≡ true = ap p same ∙ h in rw b (0, at)
filter-IsIn p (y ∷ xs) x h (suc i, at) =
    let rest = filter-IsIn p xs x h (i, at) in
    elim (Bool-cases (p y)) [ inl b ↦ rw b (IsIn-cons x y (filter p xs) rest) | inr b ↦ rw b rest ]

map-IsIn {ℓ κ} :
    {A : Type ℓ} {B : Type κ} (f : A → B) (xs : List A) (x : A) → IsIn x xs → IsIn (f x) (map f xs)
map-IsIn f [] x (i, at) = cc at
map-IsIn f (y ∷ xs) x (zero, at) = (0, ap (λ z. some (f z)) (some-injective y x at))
map-IsIn f (y ∷ xs) x (suc i, at) = let (j, at') = map-IsIn f xs x (i, at) in (suc j, at')

-- What an index by ids finds is in the list, under its id.
index_by_id-IsIn {ℓ} :
    {A : Type ℓ} (id : A → Option String) (m : Dict A) (xs : List A) (k : String) (x : A)
    → get (index_by_id id m xs) k ≡ some x
    → (get m k ≡ some x) ⊎ ((truthy (id x) ≡ some k) × IsIn x xs)
unfolding index_by_id
index_by_id-IsIn id m [] k x h = inl h
index_by_id-IsIn id m (y ∷ xs) k x h = elim (Option-cases (truthy (id y))) [
  | inl n ↦ elim (index_by_id-IsIn id m xs k x (rw (n, index_by_id) at h)) [
    | inl old ↦ inl old
    | inr (named, at) ↦ inr (named, IsIn-cons x y xs at)
  ]
  | inr (i, n) ↦ elim (index_by_id-IsIn id (set m i y) xs k x (rw (n, index_by_id) at h)) [
    | inr (named, at) ↦ inr (named, IsIn-cons x y xs at)
    | inl found ↦ elim (Bool-cases (str_eq i k)) [
      | inr b ↦ inl (sym (rw (get-set m i k y, b) refl) ∙ found)
      | inl b ↦
          let same : y ≡ x = some-injective y x (sym (rw (get-set m i k y, b) refl) ∙ found) in
          let named : truthy (id x) ≡ some k =
            ap (λ z. truthy (id z)) (sym same) ∙ n ∙ ap some ((str_eq_iff i k).0 b) in
          inr (named, (0, ap some same))
    ]
  ]
]

filter_prompts-IsIn :
    (prompts : List Prompt) (r : ResolvedSelection) (p : Prompt)
    → contains r.prompt_families (prompt_family_key p.category p.name) ≡ true
    → IsIn p prompts
    → IsIn p (filter_prompts_by_selection prompts (some r))
unfolding filter_prompts_by_selection
filter_prompts-IsIn prompts r p h at = elim (List-cases r.prompt_families) [
  | inl n ↦ absurd (cc (rw n at h))
  | inr (f, fs, n) ↦
      let kept : contains (f ∷ fs) (prompt_family_key p.category p.name) ≡ true = rw n at h in
      rw (n, filter_prompts_by_selection) (filter-IsIn (has_family (f ∷ fs)) prompts p kept at)
]

filter_agents-IsIn :
    (agents : List AgentDefinition) (r : ResolvedSelection) (id : String) (a : AgentDefinition)
    → contains r.agent_definition_ids id ≡ true
    → truthy a.id ≡ some id
    → IsIn a agents
    → IsIn a (filter_agent_definitions_by_selection agents (some r))
unfolding filter_agent_definitions_by_selection
filter_agents-IsIn agents r id a h named at =
    filter-IsIn (λ x. is_selected r.agent_definition_ids x.id) agents a (rw (named, is_selected) h)
      at

-- A bundle that is exported with dependencies has, of each agent that the selection needs, the
-- definition and each prompt of the family of its system prompt, where the scope takes both.
pub export_bundle-agent :
    (text_of : ℕ → String) (source : Source) (scope : List EntityType) (spec : SelectionSpec)
    (now : String) (bundle : Bundle) (id : String) (agent : AgentDefinition) (p : Prompt)
    → export_bundle text_of source scope (some spec) now ≡ ok bundle
    → spec.include_dependencies ≡ some true
    → has_type scope prompt ≡ true
    → has_type scope agent_definition ≡ true
    → IsWanted source.agents source.teams spec "AGENT" id
    → get (agents_index source.agents) id ≡ some agent
    → family_of agent ≡ ok (prompt_family_key p.category p.name)
    → IsIn p source.prompts
    → (agents : List SyncAgentDefinition) × (prompts : List SyncPrompt) × (bundle.agent_definitions
        ≡ some agents)
      × IsIn (sync_agent_definition agent) agents
      × (bundle.prompts ≡ some prompts)
      × IsIn (sync_prompt text_of p) prompts
unfolding export_bundle export_selected resolve_selection get
export_bundle-agent text_of source scope spec now bundle id agent p h deps with_prompts with_agents
      wanted found family at =
    let (selection, resolved, made) =
      >>=-eq-ok (resolve_selection source.agents source.teams (some spec)) _ h in
    let (r, selected, is_some_r) =
      >>=-eq-ok (resolve_selected source.agents source.teams spec) _ resolved in
    let same_r : some r ≡ selection = ok-injective _ _ is_some_r in
    let resolved' : resolve_selection source.agents source.teams (some spec) ≡ ok (some r) =
      resolved ∙ ap ok (sym same_r) in
    let (needed_teams, needed_agents) =
      resolve_selection-IsNeeded source.agents source.teams spec r id resolved' deps in
    let kept = needed_agents.1 wanted in
    let (agent', family', found', family_is, has) =
      resolve_selection-family source.agents source.teams spec r id resolved' deps kept in
    let same_agent : agent' ≡ agent = some-injective _ _ (sym found' ∙ found) in
    let same_family : family' ≡ prompt_family_key p.category p.name =
      ok-injective _ _ (sym family_is ∙ ap family_of same_agent ∙ family) in
    let is_bundle : export_selected text_of source scope now (some r) ≡ bundle =
      ap (export_selected text_of source scope now) same_r ∙ ok-injective _ _ made in
    elim (index_by_id-IsIn (λ a. a.id) [] source.agents id agent found) [
      | inl never ↦ absurd (cc never)
      | inr (named, in_agents) ↦ (
        map sync_agent_definition (filter_agent_definitions_by_selection source.agents (some r)),
        map (sync_prompt text_of) (filter_prompts_by_selection source.prompts (some r)),
        sym (ap (λ b. b.agent_definitions) is_bundle) ∙ rw with_agents refl,
        map-IsIn sync_agent_definition _ agent
            (filter_agents-IsIn source.agents r id agent kept named in_agents),
        sym (ap (λ b. b.prompts) is_bundle) ∙ rw with_prompts refl,
        map-IsIn (sync_prompt text_of) _ p (
            filter_prompts-IsIn source.prompts r p
              (ap (contains r.prompt_families) (sym same_family) ∙ has) at),
      )
    ]
