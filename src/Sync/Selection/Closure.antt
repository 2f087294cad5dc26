-- ===== src/Sync/Selection/Closure.antt =====
-- What a selection with its dependencies takes: what is asked for and all that it refers to, and
-- nothing else.
use autobyteus_server_ts.Common.Sets.{contains-append, contains-add}
use autobyteus_server_ts.Sync.Selection.{visit_members, visit_member, Expansion}
use autobyteus_server_ts.Sync.{TeamMember, AgentDefinition, TeamDefinition}
use autobyteus_server_ts.Common.{
  ok-injective, suc, >>=-eq-ok, All, subst, str_eq_iff, if◌then◌else◌, Bool-cases, ok, get_elem?, ℕ,
  String, ◌≡◌, ◌⊎◌, inl, inr, Bool, true, some, List, [], ◌∷◌, arith, str_eq, str_eq_refl,
}
use autobyteus_server_ts.Common.Dict.{Dict, get, contains}

module _ (teams_by_id : Dict TeamDefinition) (agents_by_id : Dict AgentDefinition)
    (asked_teams asked_agents : List String) where
  -- What the ids that are asked for lead to, by the type of the reference.
  pub data IsNeeded : (reference_type id : String) → Type 0 where
    team_asked : (id : String) → contains asked_teams id ≡ true → IsNeeded "AGENT_TEAM" id
    agent_asked : (id : String) → contains asked_agents id ≡ true → IsNeeded "AGENT" id
    is_member :
        (id : String) (team : TeamDefinition) (i : ℕ) (m : TeamMember)
        → IsNeeded "AGENT_TEAM" id
        → get teams_by_id id ≡ some team
        → get_elem? team.nodes i ≡ some m
        → IsNeeded m.reference_type m.reference_id

-- A reference that the sets hold, or that is to neither a team nor an agent.
abbrev pub is_covered : (teams agents : List String) → (reference_type id : String) → Bool
is_covered teams agents type id =
    if str_eq type "AGENT"
    then contains agents id
    else if str_eq type "AGENT_TEAM"
    then contains teams id
    else true

pub record Grows (e e' : Expansion) : Type 0 where
  pub teams : (t : String) → contains e.teams t ≡ true → contains e'.teams t ≡ true
  pub agents : (a : String) → contains e.agents a ≡ true → contains e'.agents a ≡ true
  pub queue : (t : String) → contains e.queue t ≡ true → contains e'.queue t ≡ true
  pub queued :
      (t : String)
      → contains e'.teams t ≡ true
      → (contains e.teams t ≡ true) ⊎ (contains e'.queue t ≡ true)

Grows-trans : (e f g : Expansion) → Grows e f → Grows f g → Grows e g
Grows-trans e f g a b = record {
  teams = λ t h. b.teams t (a.teams t h);
  agents = λ t h. b.agents t (a.agents t h);
  queue = λ t h. b.queue t (a.queue t h);
  queued = λ t h. elim (b.queued t h) [
    | inr q ↦ inr q
    | inl u ↦ elim (a.queued t u) [ inl v ↦ inl v | inr q ↦ inr (b.queue t q) ]
  ];
}

pub Grows-covered :
    (e f : Expansion) (type id : String)
    → Grows e f
    → is_covered e.teams e.agents type id ≡ true
    → is_covered f.teams f.agents type id ≡ true
Grows-covered e f type id g h = ground (arith, g.teams id, g.agents id)

module _ (teams_by_id : Dict TeamDefinition) (agents_by_id : Dict AgentDefinition) where
  visit_member-Grows :
      (team : String) (m : TeamMember) (e e' : Expansion)
      → visit_member teams_by_id agents_by_id team m e ≡ ok e'
      → Grows e e'
  unfolding visit_member
  visit_member-Grows team m e e' h = record {
    teams = λ t k. ground (arith, contains-add e.teams m.reference_id t);
    agents = λ t k. ground (arith, contains-add e.agents m.reference_id t);
    queue = λ t k. ground (arith, contains-append e.queue (m.reference_id ∷ []) t);
    queued = λ t k. elim (Bool-cases (contains e.teams t)) [
      | inl u ↦ inl u
      | inr u ↦ inr (
          ground (
            arith,
            contains-add e.teams m.reference_id t,
            contains-append e.queue (m.reference_id ∷ []) t,
          ))
    ];
  }

  visit_member-covered :
      (team : String) (m : TeamMember) (e e' : Expansion)
      → visit_member teams_by_id agents_by_id team m e ≡ ok e'
      → is_covered e'.teams e'.agents m.reference_type m.reference_id ≡ true
  unfolding visit_member
  visit_member-covered team m e e' h = ground (
    arith,
    contains-add e.teams m.reference_id m.reference_id,
    contains-add e.agents m.reference_id m.reference_id,
    str_eq_refl m.reference_id,
  )

  pub visit_members-Grows :
      (team : String) (ms : List TeamMember) (e e' : Expansion)
      → visit_members teams_by_id agents_by_id team ms e ≡ ok e'
      → Grows e e'
  unfolding visit_members
  visit_members-Grows team [] e e' h =
      subst (Grows e) (ok-injective e e' h)
        (record { teams = λ t k. k; agents = λ t k. k; queue = λ t k. k; queued = λ t k. inl k })
  visit_members-Grows team (m ∷ ms) e e' h =
      let (f, first, rest) = >>=-eq-ok (visit_member teams_by_id agents_by_id team m e) _ h in
      Grows-trans e f e' (visit_member-Grows team m e f first)
        (visit_members-Grows team ms f e' rest)

  pub visit_members-covered :
      (team : String) (ms : List TeamMember) (e e' : Expansion)
      → visit_members teams_by_id agents_by_id team ms e ≡ ok e'
      → All (λ m. is_covered e'.teams e'.agents m.reference_type m.reference_id ≡ true) ms
  unfolding visit_members
  visit_members-covered team [] e e' h = tt
  visit_members-covered team (m ∷ ms) e e' h =
      let (f, first, rest) = >>=-eq-ok (visit_member teams_by_id agents_by_id team m e) _ h in
      (
        Grows-covered f e' m.reference_type m.reference_id (visit_members-Grows team ms f e' rest)
            (visit_member-covered team m e f first),
        visit_members-covered team ms f e' rest,
      )

  module _ (asked_teams asked_agents : List String) where
    abbrev pub Needed : (reference_type id : String) → Type 0
    Needed = IsNeeded teams_by_id agents_by_id asked_teams asked_agents

    pub record IsSound (e : Expansion) : Type 0 where
      pub teams : (t : String) → contains e.teams t ≡ true → Needed "AGENT_TEAM" t
      pub agents : (a : String) → contains e.agents a ≡ true → Needed "AGENT" a
      pub queue : (t : String) → contains e.queue t ≡ true → Needed "AGENT_TEAM" t

    visit_member-IsSound :
        (team : String) (m : TeamMember) (e e' : Expansion)
        → visit_member teams_by_id agents_by_id team m e ≡ ok e'
        → Needed m.reference_type m.reference_id
        → IsSound e
        → IsSound e'
    unfolding visit_member
    visit_member-IsSound team m e e' h n s = record {
      teams = λ t k. elim (Bool-cases (contains e.teams t)) [
        | inl u ↦ s.teams t u
        | inr u ↦
            let of_type : m.reference_type ≡ "AGENT_TEAM" =
              ground (arith, str_eq_iff m.reference_type "AGENT_TEAM") in
            let of_id : m.reference_id ≡ t =
              ground (arith, contains-add e.teams m.reference_id t, str_eq_iff m.reference_id t) in
            subst (Needed "AGENT_TEAM") of_id (subst (λ y. Needed y m.reference_id) of_type n)
      ];
      agents = λ t k. elim (Bool-cases (contains e.agents t)) [
        | inl u ↦ s.agents t u
        | inr u ↦
            let of_type : m.reference_type ≡ "AGENT" =
              ground (arith, str_eq_iff m.reference_type "AGENT") in
            let of_id : m.reference_id ≡ t =
              ground (arith, contains-add e.agents m.reference_id t, str_eq_iff m.reference_id t) in
            subst (Needed "AGENT") of_id (subst (λ y. Needed y m.reference_id) of_type n)
      ];
      queue = λ t k. elim (Bool-cases (contains e.queue t)) [
        | inl u ↦ s.queue t u
        | inr u ↦
            let of_type : m.reference_type ≡ "AGENT_TEAM" =
              ground (arith, str_eq_iff m.reference_type "AGENT_TEAM") in
            let of_id : m.reference_id ≡ t = ground (
              arith,
              contains-append e.queue (m.reference_id ∷ []) t,
              str_eq_iff m.reference_id t,
            ) in
            subst (Needed "AGENT_TEAM") of_id (subst (λ y. Needed y m.reference_id) of_type n)
      ];
    }

    pub visit_members-IsSound :
        (team : String) (ms : List TeamMember) (e e' : Expansion)
        → visit_members teams_by_id agents_by_id team ms e ≡ ok e'
        → ((i : ℕ) (m : TeamMember)
            → get_elem? ms i ≡ some m
            → Needed m.reference_type m.reference_id)
        → IsSound e
        → IsSound e'
    unfolding visit_members
    visit_members-IsSound team [] e e' h n s = subst IsSound (ok-injective e e' h) s
    visit_members-IsSound team (m ∷ ms) e e' h n s =
        let (f, first, rest) = >>=-eq-ok (visit_member teams_by_id agents_by_id team m e) _ h in
        visit_members-IsSound team ms f e' rest (λ i k found. n (suc i) k found)
          (visit_member-IsSound team m e f first (n 0 m (λ j. some m)) s)
