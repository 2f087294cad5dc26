-- ===== src/Sync/Selection/Dependencies.antt =====
-- The sets that a selection with its dependencies ends with.
use autobyteus_server_ts.Sync.Selection.Closure.{
  is_member, Needed, visit_members-IsSound, Grows-covered, visit_members-covered, is_covered,
  visit_members-Grows, IsSound,
}
use autobyteus_server_ts.Sync.Selection.{expand_queue, visit_members, visit_queued, Expansion}
use autobyteus_server_ts.Sync.{TeamMember, AgentDefinition, TeamDefinition}
use autobyteus_server_ts.Common.{
  ok-injective, some-injective, Bool-cases, Option-cases, ok, >>=-eq-ok, get_elem?, get_elem?-All,
  ℕ, zero, suc, String, ◌≡◌, refl, sym, ap, ◌∙◌, subst, ◌⊎◌, inl, inr, true, none, some, List, [],
  ◌∷◌, arith, str_eq, str_eq_iff, str_eq_refl,
}
use autobyteus_server_ts.Common.Dict.{Dict, get, contains}

module _ (teams_by_id : Dict TeamDefinition) (agents_by_id : Dict AgentDefinition)
    (asked_teams asked_agents : List String) where
  -- The members of the teams are there, but for those of the teams in the queue.
  pub record IsClosing (e : Expansion) (queue : List String) : Type 0 where
    pub member :
        (t : String) (team : TeamDefinition) (i : ℕ) (m : TeamMember)
        → contains e.teams t ≡ true
        → get teams_by_id t ≡ some team
        → get_elem? team.nodes i ≡ some m
        → (contains queue t ≡ true)
          ⊎ (is_covered e.teams e.agents m.reference_type m.reference_id ≡ true)

  pub record IsExpanded (e : Expansion) : Type 0 where
    pub teams : (t : String) → contains asked_teams t ≡ true → contains e.teams t ≡ true
    pub agents : (a : String) → contains asked_agents a ≡ true → contains e.agents a ≡ true
    pub sound : IsSound teams_by_id agents_by_id asked_teams asked_agents e

  take-IsSound :
      (id : String) (rest : List String) (e : Expansion)
      → e.queue ≡ id ∷ rest
      → IsSound teams_by_id agents_by_id asked_teams asked_agents e
      → IsSound teams_by_id agents_by_id asked_teams asked_agents (record e { queue = rest })
        × Needed teams_by_id agents_by_id asked_teams asked_agents "AGENT_TEAM" id
  take-IsSound id rest e same s = (
    record {
      teams = s.teams;
      agents = s.agents;
      queue = λ t k. s.queue t (rw same (ground arith));
    },
    s.queue id (rw same (ground (arith, str_eq_refl id))),
  )

  -- What the taken id had to give is there, or the id has no team.
  take-member :
      (id : String) (rest : List String) (e : Expansion) (t : String) (team : TeamDefinition)
      (i : ℕ) (m : TeamMember)
      → IsClosing e (id ∷ rest)
      → contains e.teams t ≡ true
      → get teams_by_id t ≡ some team
      → get_elem? team.nodes i ≡ some m
      → (id ≡ t)
        ⊎ (contains rest t ≡ true)
        ⊎ (is_covered e.teams e.agents m.reference_type m.reference_id ≡ true)
  take-member id rest e t team i m c k found at = elim (c.member t team i m k found at) [
    | inr v ↦ inr (inr v)
    | inl q ↦ elim (Bool-cases (str_eq id t)) [
      | inl b ↦ inl ((str_eq_iff id t).0 b)
      | inr b ↦ inr (inl (ground (arith, b, q)))
    ]
  ]

  visit_queued-IsExpanded :
      (id : String) (rest : List String) (e f : Expansion)
      → e.queue ≡ id ∷ rest
      → visit_queued teams_by_id agents_by_id id (record e { queue = rest }) ≡ ok f
      → get teams_by_id "" ≡ none
      → IsExpanded e
      → IsClosing e (id ∷ rest)
      → IsExpanded f × IsClosing f f.queue
  unfolding visit_queued
  visit_queued-IsExpanded id rest e f same h blank x c =
      let start : Expansion = record e { queue = rest } in
      let (s, needed) = take-IsSound id rest e same x.sound in
      elim (Option-cases (get teams_by_id id)) [
        | inl n ↦
            let unchanged : start ≡ f = ground (arith, n, h) in
            (
              subst IsExpanded unchanged (record { teams = x.teams; agents = x.agents; sound = s }),
              subst (λ y. IsClosing y y.queue) unchanged
                  (record {
                    member = λ t team i m k found at.
                        elim (take-member id rest e t team i m c k found at) [
                          | inl is_id ↦ absurd (cc (n, is_id, found))
                          | inr (inl q) ↦ inl q
                          | inr (inr v) ↦ inr v
                        ];
                  }),
            )
        | inr (team, n) ↦
            let visited : visit_members teams_by_id agents_by_id team.name team.nodes start ≡ ok f =
              ground (arith, n, h, blank, str_eq_iff id "") in
            let g =
              visit_members-Grows teams_by_id agents_by_id team.name team.nodes start f visited in
            let covered =
              visit_members-covered teams_by_id agents_by_id team.name team.nodes start f visited in
            (
              record {
                teams = λ t k. g.teams t (x.teams t k);
                agents = λ t k. g.agents t (x.agents t k);
                sound =
                    visit_members-IsSound teams_by_id agents_by_id asked_teams asked_agents
                      team.name team.nodes start f visited
                      (λ i m at. is_member id team i m needed n at) s;
              },
              record {
                member = λ t team' i m k found at. elim (g.queued t k) [
                  | inr q ↦ inl q
                  | inl u ↦ elim (take-member id rest e t team' i m c u found at) [
                    | inl is_id ↦
                        let same_team : team ≡ team' =
                          some-injective _ _ (sym n ∙ ap (get teams_by_id) is_id ∙ found) in
                        inr (
                          get_elem?-All _ team.nodes i m covered
                            (ap (λ y. get_elem? y.nodes i) same_team ∙ at))
                    | inr (inl q) ↦ inl (g.queue t q)
                    | inr (inr v) ↦ inr (Grows-covered start f m.reference_type m.reference_id g v)
                  ]
                ];
              },
            )
      ]

  pub expand_queue-IsExpanded :
      (fuel : ℕ) (e f : Expansion) (queue : List String)
      → e.queue ≡ queue
      → expand_queue teams_by_id agents_by_id fuel e queue ≡ ok f
      → get teams_by_id "" ≡ none
      → IsExpanded e
      → IsClosing e queue
      → IsExpanded f × IsClosing f []
  unfolding expand_queue
  expand_queue-IsExpanded fuel e f [] same h blank x c =
      let unchanged = ok-injective e f h in
      (subst IsExpanded unchanged x, subst (λ y. IsClosing y []) unchanged c)
  expand_queue-IsExpanded zero e f (id ∷ rest) same h blank x c = cc
  expand_queue-IsExpanded (suc fuel) e f (id ∷ rest) same h blank x c =
      let (g, first, next) =
        >>=-eq-ok (visit_queued teams_by_id agents_by_id id (record e { queue = rest })) _ h in
      let (y, d) = visit_queued-IsExpanded id rest e g same first blank x c in
      expand_queue-IsExpanded fuel g f g.queue refl next blank y d
