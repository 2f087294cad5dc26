-- ===== src/Ingress/Locating.antt =====
-- The run that a command goes to.
use autobyteus_server_ts.Common.{
  List-cases, some-injective, ok-injective, Bool-cases, Option-cases, ok, or_throw, Result-cases, ℕ,
  String, ◌≡◌, sym, ap, ◌∙◌, subst, ◌≢◌, ◌⊎◌, inl, inr, true, none, some, ◌∷◌, arith,
}
use autobyteus_server_ts.Common.Dict.{get}
use autobyteus_server_ts.Common.Actions.{continue-eq-ok, reads}
use autobyteus_server_ts.Policies.Fencing.{RunVersion, number, text}
use autobyteus_server_ts.Placement.{AgentTeamDefinition}
use autobyteus_server_ts.Runs.Repository.{
  get_active_run_by_definition_id, TeamRunRecord, if_active, get_run_by_id,
}
use autobyteus_server_ts.Runs.Orchestrator.{StartInput, start_run_if_missing}
use autobyteus_server_ts.Runs.Consistency.{IsConsistent}
use autobyteus_server_ts.Runs.Starting.{start_run_if_missing_cases}
use autobyteus_server_ts.Ingress.{
  team_definition_not_found, team_definition_unavailable, truthy, assert_members, Orchestrator,
  LocatorRecord, Host, Runtime, normalize_required, normalize_run_version, has_version,
  store_record, refresh_record, resolve_active_run, forget_record, start_located, complete_resolve,
  create_located, resolve_or_create_run, resolved, assert_team,
}

module _ {A : Type 0} (rt : Runtime A) where
  -- The run's version as a number: the one it has, or what its text stands for.
  abbrev VersionIs : RunVersion → ℕ → Type 0
  VersionIs given v = (given ≡ number v) ⊎ (normalize_run_version rt given ≡ ok v)

  -- A record answers for a run of the repository that is not stopped, in the run's version.
  pub record IsLive (o : Orchestrator A) (r : LocatorRecord) : Type 0 where
    pub run : TeamRunRecord
    pub active : if_active (get_run_by_id o.repository r.team_run_id) ≡ some run
    pub versioned : VersionIs run.run_version r.run_version

  has_version-eq : (given : RunVersion) (v : ℕ) → has_version rt given v ≡ true → given ≡ number v
  has_version-eq (number n) v h = ground arith
  has_version-eq (text s) v h = cc

  refresh_record-IsLive :
      (team : String) (r q : LocatorRecord) (h h' : Host A)
      → refresh_record rt team r h ≡ (ok (some q), h')
      → IsLive h.orchestrator q × (h'.orchestrator ≡ h.orchestrator)
  unfolding refresh_record forget_record
  refresh_record-IsLive team r q h h' e =
      elim (Option-cases (if_active (get_run_by_id h.orchestrator.repository r.team_run_id))) [
        | inl n ↦ absurd (cc (rw (n, refresh_record) at e))
        | inr (run, n) ↦ elim (Bool-cases (has_version rt run.run_version r.run_version)) [
          | inl b ↦
              let e' = rw (n, b, refresh_record) at e in
              let is_q : r ≡ q = some-injective _ _ (ok-injective _ _ (ap (λ x. x.0) e')) in
              (
                subst (IsLive h.orchestrator) is_q (record {
                  run = run;
                  active = n;
                  versioned = inl (has_version-eq run.run_version r.run_version b);
                }),
                ap (λ x. x.1.orchestrator) (sym e'),
              )
          | inr b ↦ elim (Result-cases (normalize_run_version rt run.run_version)) [
            | inr (x, v) ↦ absurd (cc (rw (n, b, v, refresh_record) at e))
            | inl (v, w) ↦
                let e' = rw (n, b, w, refresh_record) at e in
                let is_q : record r { run_version = v } ≡ q =
                  some-injective _ _ (ok-injective _ _ (ap (λ x. x.0) e')) in
                (
                  subst (IsLive h.orchestrator) is_q
                      (record { run = run; active = n; versioned = inr w }),
                  ap (λ x. x.1.orchestrator) (sym e'),
                )
          ]
        ]
      ]

  resolve_active_run-IsLive :
      (team_id : String) (q : LocatorRecord) (h h' : Host A)
      → resolve_active_run rt team_id h ≡ (ok (some q), h')
      → IsLive h.orchestrator q × (h'.orchestrator ≡ h.orchestrator)
  unfolding resolve_active_run
  resolve_active_run-IsLive team_id q h h' e =
      elim (Result-cases (normalize_required team_id "teamId")) [
        | inr (x, n) ↦ absurd (cc (rw (n, resolve_active_run) at e))
        | inl (team, n) ↦ elim (Option-cases (get h.record_by_team_id team)) [
          | inl m ↦ absurd (cc (rw (n, m, resolve_active_run) at e))
          | inr (r, m) ↦ refresh_record-IsLive team r q h h' (rw (n, m, resolve_active_run) at e)
        ]
      ]

  resolve_active_run-orchestrator :
      (team_id : String) (h : Host A)
      → (resolve_active_run rt team_id h).1.orchestrator ≡ h.orchestrator
  unfolding resolve_active_run refresh_record forget_record
  resolve_active_run-orchestrator team_id h = ground arith

  start_located-parts :
      (definition : AgentTeamDefinition) (run now_iso : String) (h h' : Host A) (r : TeamRunRecord)
      → start_located rt definition run now_iso h ≡ (ok r, h')
      → (input : StartInput) × (start_run_if_missing rt.ensure_ready rt.create_adapter
            h.orchestrator input run now_iso
          ≡ ok (r, h'.orchestrator))
  unfolding start_located
  start_located-parts definition run now_iso h h' r e = elim (List-cases rt.node_snapshots) [
    | inl n ↦ absurd (cc (rw (n, start_located) at e))
    | inr (x, xs, n) ↦
        let input : StartInput = record {
          team_definition = definition;
          host_node_id = rt.host_node_id;
          node_snapshots = x ∷ xs;
          default_node_id = rt.default_node_id;
        } in
        elim (Result-cases (
          start_run_if_missing rt.ensure_ready rt.create_adapter h.orchestrator input run
            now_iso)) [
              | inr (y, m) ↦ absurd (cc (rw (n, m, start_located) at e))
              | inl ((made, o), m) ↦
                  let e' = rw (n, m, start_located) at e in
                  let same : made ≡ r = ok-injective _ _ (ap (λ x. x.0) e') in
                  let same' : o ≡ h'.orchestrator = ap (λ x. x.1.orchestrator) e' in
                  (input, m ∙ ap (λ y. ok (y, o)) same ∙ ap (λ y. ok (r, y)) same')
            ]
  ]

  active-found :
      (o : Orchestrator A) (d : String) (r : TeamRunRecord)
      → IsConsistent o
      → get_active_run_by_definition_id o.repository d ≡ some r
      → if_active (get_run_by_id o.repository r.team_run_id) ≡ some r
  unfolding get_active_run_by_definition_id
  active-found o d r c e = elim (Option-cases (get o.repository.run_id_by_definition_id d)) [
    | inl n ↦ absurd (cc (rw (n, get_active_run_by_definition_id) at e))
    | inr (id, n) ↦ elim (Option-cases (get o.repository.run_by_id id)) [
      | inl m ↦ ground (arith, n, m, e)
      | inr (run, m) ↦ ground (arith, n, m, e, c.keyed id run m)
    ]
  ]

  -- A run that was found or started is active.
  started-active :
      (o o' : Orchestrator A) (input : StartInput) (run now_iso : String) (r : TeamRunRecord)
      → IsConsistent o
      → get o.repository.run_by_id run ≡ none
      → run ≢ ""
      → start_run_if_missing rt.ensure_ready rt.create_adapter o input run now_iso ≡ ok (r, o')
      → (if_active (get_run_by_id o'.repository r.team_run_id) ≡ some r) × IsConsistent o'
  started-active o o' input run now_iso r c fresh ne e =
      let (d, ed, how) =
        start_run_if_missing_cases rt.ensure_ready rt.create_adapter o o' input run now_iso r c
          fresh ne e in
      elim how [
        | inl (found, same) ↦ (rw same (active-found o d r c found), rw same c)
        | inr n ↦ (rw n.named (ground (arith, n.found, n.live)), n.consistent)
      ]

  resolved-ok :
      (r q : LocatorRecord) (h h' : Host A) → resolved rt r h ≡ (ok q, h') → (r ≡ q) × (h ≡ h')
  resolved-ok r q h h' e = elim (Option-cases (rt.on_run_resolved r)) [
    | inl n ↦ let e' = rw n at e in (ok-injective _ _ (ap (λ x. x.0) e'), ap (λ x. x.1) e)
    | inr (m, n) ↦ absurd (cc (ap (λ x. x.0) (rw n at e)))
  ]

  complete_resolve-IsLive :
      (team definition_id : String) (definition : AgentTeamDefinition) (run now_iso : String)
      (h h' : Host A) (q : LocatorRecord)
      → IsConsistent h.orchestrator
      → get h.orchestrator.repository.run_by_id run ≡ none
      → run ≢ ""
      → complete_resolve rt team definition_id definition run now_iso h ≡ (ok q, h')
      → IsLive h'.orchestrator q × IsConsistent h'.orchestrator
  unfolding complete_resolve store_record
  complete_resolve-IsLive team definition_id definition run now_iso h h' q c fresh ne e =
      let (u, h1, e1, n1) =
        continue-eq-ok (reads (λ h. assert_members definition (rt.team_member_names team)) h) _ e in
      let (started, h2, e2, n2) =
        continue-eq-ok (start_located rt definition run now_iso h1) _ n1 in
      let (v, h3, e3, n3) =
        continue-eq-ok (reads (λ h. normalize_run_version rt started.run_version) h2) _ n2 in
      let same1 : h ≡ h1 = ap (λ x. x.1) e1 in
      let same3 : h2 ≡ h3 = ap (λ x. x.1) e3 in
      let (input, made) = start_located-parts definition run now_iso h1 h2 started e2 in
      let (active, c2) =
        started-active h1.orchestrator h2.orchestrator input run now_iso started
          (subst (λ x. IsConsistent x.orchestrator) same1 c)
          (ap (λ x. get x.orchestrator.repository.run_by_id run) (sym same1) ∙ fresh) ne made in
      let r0 : LocatorRecord = record {
        team_id = team;
        team_definition_id = definition_id;
        coordinator_member_name = definition.coordinator_member_name;
        team_run_id = started.team_run_id;
        run_version = v;
        host_node_id = started.host_node_id;
      } in
      let (is_q, is_h) = resolved-ok r0 q (store_record rt r0 h3) h' n3 in
      let same : h2.orchestrator ≡ h'.orchestrator =
        ap (λ x. x.orchestrator) same3 ∙ ap (λ x. x.orchestrator) is_h in
      (
        subst (λ o. IsLive o q) same
            (subst (IsLive h2.orchestrator) is_q
              (record { run = started; active = active; versioned = inr (ap (λ x. x.0) e3) })),
        subst IsConsistent same c2,
      )

  create_located-IsLive :
      (team run now_iso : String) (h h' : Host A) (q : LocatorRecord)
      → IsConsistent h.orchestrator
      → get h.orchestrator.repository.run_by_id run ≡ none
      → run ≢ ""
      → create_located rt team run now_iso h ≡ (ok q, h')
      → IsLive h'.orchestrator q × IsConsistent h'.orchestrator
  unfolding create_located
  create_located-IsLive team run now_iso h h' q c fresh ne e =
      let (definition_id, h1, e1, n1) =
        continue-eq-ok
          (reads
            (λ h. or_throw (truthy (rt.team_definition_id team)) (team_definition_unavailable team))
            h)
          _ e in
      let (definition, h2, e2, n2) =
        continue-eq-ok
          (reads
            (λ h.
              or_throw (rt.definition_by_id definition_id)
                (team_definition_not_found definition_id))
            h1)
          _ n1 in
      let same : h ≡ h2 = ap (λ x. x.1) e1 ∙ ap (λ x. x.1) e2 in
      complete_resolve-IsLive team definition_id definition run now_iso h2 h' q
        (subst (λ x. IsConsistent x.orchestrator) same c)
        (ap (λ x. get x.orchestrator.repository.run_by_id run) (sym same) ∙ fresh) ne n2

  -- A command is given to a run that is active in its version, and no table of the orchestrator is
  -- left in disagreement, whether the run was there or is started for it.
  pub resolve_or_create_run-IsLive :
      (team_id run now_iso : String) (h h' : Host A) (q : LocatorRecord)
      → IsConsistent h.orchestrator
      → get h.orchestrator.repository.run_by_id run ≡ none
      → run ≢ ""
      → resolve_or_create_run rt team_id run now_iso h ≡ (ok q, h')
      → IsLive h'.orchestrator q × IsConsistent h'.orchestrator
  unfolding resolve_or_create_run
  resolve_or_create_run-IsLive team_id run now_iso h h' q c fresh ne e =
      let (team, h1, e1, n1) =
        continue-eq-ok (reads (λ h. normalize_required team_id "teamId") h) _ e in
      let (u, h2, e2, n2) = continue-eq-ok (reads (λ h. assert_team rt team) h1) _ n1 in
      let (existing, h3, e3, n3) = continue-eq-ok (resolve_active_run rt team h2) _ n2 in
      let same : h3.orchestrator ≡ h.orchestrator =
        ap (λ x. x.1.orchestrator) (sym e3)
        ∙ resolve_active_run-orchestrator team h2
        ∙ ap (λ x. x.1.orchestrator) (sym e2)
        ∙ ap (λ x. x.1.orchestrator) (sym e1) in
      let c3 = subst IsConsistent (sym same) c in
      elim (Option-cases existing) [
        | inl none' ↦
            create_located-IsLive team run now_iso h3 h' q c3
              (ap (λ x. get x.repository.run_by_id run) same ∙ fresh) ne (rw none' at n3)
        | inr (r, found) ↦
            let (is_q, is_h) = resolved-ok r q h3 h' (rw found at n3) in
            let (live, kept) = resolve_active_run-IsLive team r h2 h3 (rw found at e3) in
            let here : IsLive h3.orchestrator r = subst (λ x. IsLive x r) (sym kept) live in
            (
              subst (λ x. IsLive x.orchestrator q) is_h (subst (IsLive h3.orchestrator) is_q here),
              subst (λ x. IsConsistent x.orchestrator) is_h c3,
            )
      ]
