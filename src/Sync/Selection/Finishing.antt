-- ===== src/Sync/Selection/Finishing.antt =====
-- The loop over the queue of teams ends, nested teams that contain each other included.
use autobyteus_server_ts.Common.Sets.{add, contains-keys, missing-add, missing}
use autobyteus_server_ts.Sync.{SelectionSpec, TeamMember, AgentDefinition, TeamDefinition}
use autobyteus_server_ts.Sync.Selection.{
  requested_ids, agents_index, teams_index, invalid_selection_team_id, invalid_selection_agent_id,
  resolve_dependencies, expand_team_dependencies, check_ids, finish_selection, resolve_selected,
  family_of, resolved_agent_missing, resolve_selection, resolve_prompt_families, expand_queue,
  visit_members, visit_queued, resolve_requested, visit_member, Expansion, unfinished,
  SelectionError,
}
use autobyteus_server_ts.Common.{
  none, false, get_or, not, some, length-filter-le, Bool, inr, inl, zero, Option-cases, or_throw,
  >>=-eq-ok, suc, Option, List, Result, ok, err, ◌>>=◌, length, length-append, ℕ, ◌+◌, ◌≤◌, String,
  ◌≡◌, refl, ap, ◌≢◌, [], ◌∷◌, arith,
}
use autobyteus_server_ts.Common.Dict.{contains, get, Dict, keys}

abbrev measure : Dict TeamDefinition → Expansion → ℕ
measure teams_by_id e = length e.queue + missing (keys teams_by_id) e.teams

-- What does not end for want of fuel.
abbrev Finishes {ℓ} : {B : Type ℓ} → Result SelectionError B → Type ℓ
Finishes r = r ≢ err unfinished

>>=-Finishes {ℓ κ} :
    {B : Type ℓ} {C : Type κ} (r : Result SelectionError B) (f : B → Result SelectionError C)
    → Finishes r
    → ((b : B) → r ≡ ok b → Finishes (f b))
    → Finishes (r >>= f)
>>=-Finishes (ok b) f h g = g b refl
>>=-Finishes (err x) f h g = λ e. h (ap (λ y. y) (cc e))

module _ (teams_by_id : Dict TeamDefinition) (agents_by_id : Dict AgentDefinition) where
  visit_member-measure :
      (team : String) (m : TeamMember) (e e' : Expansion)
      → visit_member teams_by_id agents_by_id team m e ≡ ok e'
      → measure teams_by_id e' ≤ measure teams_by_id e
  unfolding visit_member
  visit_member-measure team m e e' h = ground (
    arith,
    missing-add (keys teams_by_id) e.teams m.reference_id,
    contains-keys teams_by_id m.reference_id,
    length-append e.queue (m.reference_id ∷ []),
  )

  visit_member-Finishes :
      (team : String) (m : TeamMember) (e : Expansion)
      → Finishes (visit_member teams_by_id agents_by_id team m e)
  unfolding visit_member
  visit_member-Finishes team m e = λ h. ground arith

  visit_members-measure :
      (team : String) (ms : List TeamMember) (e e' : Expansion)
      → visit_members teams_by_id agents_by_id team ms e ≡ ok e'
      → measure teams_by_id e' ≤ measure teams_by_id e
  unfolding visit_members
  visit_members-measure team [] e e' h = ground arith
  visit_members-measure team (m ∷ ms) e e' h =
      let (f, first, rest) = >>=-eq-ok (visit_member teams_by_id agents_by_id team m e) _ h in
      let a = visit_member-measure team m e f first in
      let b = visit_members-measure team ms f e' rest in omega arith

  visit_members-Finishes :
      (team : String) (ms : List TeamMember) (e : Expansion)
      → Finishes (visit_members teams_by_id agents_by_id team ms e)
  unfolding visit_members
  visit_members-Finishes team [] e = λ h. cc
  visit_members-Finishes team (m ∷ ms) e =
      >>=-Finishes (visit_member teams_by_id agents_by_id team m e) _
        (visit_member-Finishes team m e) (λ f first. visit_members-Finishes team ms f)

  visit_queued-measure :
      (id : String) (e e' : Expansion)
      → visit_queued teams_by_id agents_by_id id e ≡ ok e'
      → measure teams_by_id e' ≤ measure teams_by_id e
  unfolding visit_queued
  visit_queued-measure id e e' h = elim (Option-cases (get teams_by_id id)) [
    | inl n ↦ ground (arith, n)
    | inr (team, n) ↦ ground (arith, n, visit_members-measure team.name team.nodes e e')
  ]

  visit_queued-Finishes :
      (id : String) (e : Expansion) → Finishes (visit_queued teams_by_id agents_by_id id e)
  unfolding visit_queued
  visit_queued-Finishes id e h = elim (Option-cases (get teams_by_id id)) [
    | inl n ↦ ground (arith, n)
    | inr (team, n) ↦ ground (arith, n, visit_members-Finishes team.name team.nodes e)
  ]

  expand_queue-Finishes :
      (fuel : ℕ) (e : Expansion) (queue : List String)
      → length queue + missing (keys teams_by_id) e.teams ≤ fuel
      → Finishes (expand_queue teams_by_id agents_by_id fuel e queue)
  unfolding expand_queue
  expand_queue-Finishes fuel e [] h = λ k. cc
  expand_queue-Finishes zero e (id ∷ rest) h = absurd (omega arith)
  expand_queue-Finishes (suc fuel) e (id ∷ rest) h =
      let start : Expansion = record e { queue = rest } in
      >>=-Finishes (visit_queued teams_by_id agents_by_id id start) _
        (visit_queued-Finishes id start)
        (λ f first.
          let less = visit_queued-measure id start f first in
          expand_queue-Finishes fuel f f.queue (omega arith))

  resolve_prompt_families-Finishes :
      (families ids : List String) → Finishes (resolve_prompt_families agents_by_id families ids)
  unfolding resolve_prompt_families
  resolve_prompt_families-Finishes families [] = λ h. cc
  resolve_prompt_families-Finishes families (id ∷ ids) =
      >>=-Finishes (or_throw (get agents_by_id id) (resolved_agent_missing id)) _
        (λ h. ground arith)
        (λ agent found.
          >>=-Finishes (family_of agent) _ (λ h. ground arith)
            (λ family made. resolve_prompt_families-Finishes (add families family) ids))

  check_ids-Finishes {ℓ} :
      {B : Type ℓ} (invalid : String → SelectionError) (m : Dict B) (ids : List String)
      → ((i : String) → invalid i ≢ unfinished)
      → Finishes (check_ids invalid m ids)
  unfolding check_ids
  check_ids-Finishes invalid m [] n = λ h. cc
  check_ids-Finishes invalid m (i ∷ ids) n =
      λ h. ground (arith, check_ids-Finishes invalid m ids n, n i)

  expand_team_dependencies-Finishes :
      (teams agents : List String)
      → Finishes (expand_team_dependencies teams_by_id agents_by_id teams agents)
  unfolding expand_team_dependencies
  expand_team_dependencies-Finishes teams agents =
      let few = length-filter-le (λ k. not (contains teams k)) (keys teams_by_id) in
      expand_queue-Finishes _ _ teams (omega arith)

  resolve_dependencies-Finishes :
      (deletes : Bool) (teams agents : List String)
      → Finishes (resolve_dependencies teams_by_id agents_by_id deletes teams agents)
  unfolding resolve_dependencies
  resolve_dependencies-Finishes deletes teams agents =
      >>=-Finishes (expand_team_dependencies teams_by_id agents_by_id teams agents) _
        (expand_team_dependencies-Finishes teams agents)
        (λ e expanded.
          >>=-Finishes (resolve_prompt_families agents_by_id [] e.agents) _
            (resolve_prompt_families-Finishes [] e.agents) (λ families made h. cc))

  resolve_requested-Finishes :
      (spec : SelectionSpec) (teams agents : List String)
      → Finishes (resolve_requested teams_by_id agents_by_id spec teams agents)
  unfolding resolve_requested finish_selection
  resolve_requested-Finishes spec teams agents =
      >>=-Finishes (check_ids invalid_selection_agent_id agents_by_id agents) _
        (check_ids-Finishes invalid_selection_agent_id agents_by_id agents (λ i e. cc))
        (λ u valid.
          >>=-Finishes (check_ids invalid_selection_team_id teams_by_id teams) _
            (check_ids-Finishes invalid_selection_team_id teams_by_id teams (λ i e. cc))
            (λ v valid' h. ground (
              arith,
              resolve_dependencies-Finishes (get_or spec.include_deletes false) teams agents,
            )))

-- Whatever the teams refer to, each other included, the resolution of a selection ends.
pub resolve_selection-Finishes :
    (agents : List AgentDefinition) (teams : List TeamDefinition) (spec : Option SelectionSpec)
    → resolve_selection agents teams spec ≢ err unfinished
unfolding resolve_selection resolve_selected
resolve_selection-Finishes agents teams none = λ h. cc
resolve_selection-Finishes agents teams (some spec) =
    >>=-Finishes (resolve_selected agents teams spec) _
      (λ h. ground (
        arith,
        resolve_requested-Finishes (teams_index teams) (agents_index agents) spec
            (requested_ids spec.agent_team_definition_ids)
            (requested_ids spec.agent_definition_ids),
      ))
      (λ r resolved h. cc)
