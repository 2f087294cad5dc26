-- ===== src/Runs/Consistency.antt =====
-- The tables of the orchestrator agree: runs, the index by definition, the version counters and the
-- routing adapters.
use autobyteus_server_ts.Common.{
  refl, [], if◌then◌else◌, Bool-cases, Option-cases, get_or, ℕ, ◌≤◌, String, ◌≡◌, ap, ◌∙◌, ◌≢◌, inl,
  inr, none, some, arith, str_eq, str_eq_iff, str_eq_refl,
}
use autobyteus_server_ts.Common.Dict.{get, has, set, delete, get-set, get-set_self, get-delete}
use autobyteus_server_ts.Policies.Degradation.{DegradationPolicy, RunStatus, stopped}
use autobyteus_server_ts.Policies.Fencing.{number}
use autobyteus_server_ts.Runs.Repository.{
  TeamRunRecord, get_active_run_by_definition_id, update_run_status,
}
use autobyteus_server_ts.Runs.Orchestrator.{Orchestrator}

module _ {ℓ} {A : Type ℓ} where
  pub record IsConsistent (o : Orchestrator A) : Type ℓ where
    -- A record stands under its own id, and is not stopped.
    pub keyed :
        (id : String) (r : TeamRunRecord)
        → get o.repository.run_by_id id ≡ some r
        → (r.team_run_id ≡ id) × (id ≢ "") × (r.status ≢ stopped)
    -- A run is the one that the index has for its definition.
    pub indexed :
        (id : String) (r : TeamRunRecord)
        → get o.repository.run_by_id id ≡ some r
        → get o.repository.run_id_by_definition_id r.team_definition_id ≡ some id
    -- The index points at runs of the definition.
    pub points :
        (d id : String)
        → get o.repository.run_id_by_definition_id d ≡ some id
        → (r : TeamRunRecord) × (get o.repository.run_by_id id ≡ some r)
          × (r.team_definition_id ≡ d)
    -- A run has an adapter, and nothing else has.
    pub routed : (id : String) → has o.routing_by_run_id id ≡ has o.repository.run_by_id id
    -- No version is above its definition's counter.
    pub versioned :
        (id : String) (r : TeamRunRecord)
        → get o.repository.run_by_id id ≡ some r
        → (v : ℕ) × (r.run_version ≡ number v)
          × (v ≤ get_or (get o.repository.next_run_version_by_definition_id r.team_definition_id) 0)

  pub active-eq_iff :
      (o : Orchestrator A) (d : String)
      → IsConsistent o
      → get_active_run_by_definition_id o.repository d ≡ none
      → get o.repository.run_id_by_definition_id d ≡ none
  unfolding get_active_run_by_definition_id
  active-eq_iff o d c h = elim (Option-cases (get o.repository.run_id_by_definition_id d)) [
    | inl e ↦ e
    | inr (id, e) ↦
        let (r, found, same) = c.points d id e in
        absurd (ground (arith, str_eq_iff id "", c.keyed id r found))
  ]

  -- The orchestrator after a new run of `d` with an adapter.
  abbrev pub with_run : Orchestrator A → TeamRunRecord → (v : ℕ) → A → Orchestrator A
  with_run o r v adapter = record o {
    repository = record o.repository {
      run_by_id = set o.repository.run_by_id r.team_run_id r;
      run_id_by_definition_id =
          set o.repository.run_id_by_definition_id r.team_definition_id r.team_run_id;
      next_run_version_by_definition_id =
          set o.repository.next_run_version_by_definition_id r.team_definition_id v;
    };
    routing_by_run_id = set o.routing_by_run_id r.team_run_id (number v, adapter);
  }

  module _ (o : Orchestrator A) (c : IsConsistent o) (r : TeamRunRecord) (v : ℕ) (adapter : A)
      (fresh : get o.repository.run_by_id r.team_run_id ≡ none) (named : r.team_run_id ≢ "")
      (alone : get o.repository.run_id_by_definition_id r.team_definition_id ≡ none)
      (live : r.status ≢ stopped) (version : r.run_version ≡ number v)
      (above : get_or (get o.repository.next_run_version_by_definition_id r.team_definition_id) 0
        ≤ v) where
    runs-set :
        (id : String)
        → get (with_run o r v adapter).repository.run_by_id id
          ≡ (if str_eq r.team_run_id id then some r else get o.repository.run_by_id id)
    runs-set id = get-set o.repository.run_by_id r.team_run_id id r

    index-set :
        (d : String)
        → get (with_run o r v adapter).repository.run_id_by_definition_id d ≡ (
            if str_eq r.team_definition_id d
            then some r.team_run_id
            else get o.repository.run_id_by_definition_id d)
    index-set d = get-set o.repository.run_id_by_definition_id r.team_definition_id d r.team_run_id

    pub with_run-IsConsistent : IsConsistent (with_run o r v adapter)
    with_run-IsConsistent = record {
      keyed = λ id s h. ground (arith, runs-set id, str_eq_iff r.team_run_id id, c.keyed id s);
      indexed = λ id s h. ground (
        arith,
        runs-set id,
        str_eq_iff r.team_run_id id,
        c.indexed id s,
        str_eq_refl r.team_definition_id,
        str_eq_iff r.team_definition_id s.team_definition_id,
        get-set o.repository.run_id_by_definition_id r.team_definition_id s.team_definition_id
            r.team_run_id,
      );
      points = λ d id h. elim (Bool-cases (str_eq r.team_definition_id d)) [
        | inl same ↦ (
          r,
          ground (arith, index-set d, get-set_self o.repository.run_by_id r.team_run_id r),
          (str_eq_iff r.team_definition_id d).0 same,
        )
        | inr other ↦
            let old : get o.repository.run_id_by_definition_id d ≡ some id =
              ground (arith, index-set d) in
            let (s, found, same) = c.points d id old in
            (s, ground (arith, runs-set id, str_eq_iff r.team_run_id id, found), same)
      ];
      routed = λ id. ground (
        arith,
        runs-set id,
        get-set o.routing_by_run_id r.team_run_id id (number v, adapter),
        c.routed id,
      );
      versioned = λ id s h. elim (Bool-cases (str_eq r.team_run_id id)) [
        | inl same ↦
            let is_new : s ≡ r = ground (arith, runs-set id) in
            (
              v,
              ap (λ x. x.run_version) is_new ∙ version,
              ground (
                arith,
                is_new,
                get-set_self o.repository.next_run_version_by_definition_id r.team_definition_id v,
              ),
            )
        | inr other ↦
            let old : get o.repository.run_by_id id ≡ some s = ground (arith, runs-set id) in
            let (w, e, le) = c.versioned id s old in
            (
              w,
              e,
              ground (
                arith,
                le,
                str_eq_iff r.team_definition_id s.team_definition_id,
                get-set o.repository.next_run_version_by_definition_id r.team_definition_id
                    s.team_definition_id v,
              ),
            )
      ];
    }

  -- A record is given another status, not stopped.
  pub update-IsConsistent :
      (o : Orchestrator A) (run : String) (status : RunStatus) (now_iso : String)
      → IsConsistent o
      → status ≢ stopped
      → IsConsistent
          (record o { repository = (update_run_status o.repository run status now_iso).1 })
  unfolding update_run_status
  update-IsConsistent o run status now_iso c live =
      elim (Option-cases (get o.repository.run_by_id run)) [
        | inl e ↦ rw (e, update_run_status) c
        | inr (old, e) ↦ rw (e, update_run_status) (updated old e)
      ]
    where
      marked : TeamRunRecord → TeamRunRecord
      marked old = record old { status = status; updated_at_iso = now_iso }

      updated :
          (old : TeamRunRecord)
          → get o.repository.run_by_id run ≡ some old
          → IsConsistent (record o {
            repository = record o.repository {
              run_by_id = set o.repository.run_by_id run (marked old);
            };
          })
      updated old e = record {
        keyed = λ id s h. ground (
          arith,
          get-set o.repository.run_by_id run id (marked old),
          str_eq_iff run id,
          c.keyed id s,
          c.keyed run old e,
        );
        indexed = λ id s h. ground (
          arith,
          get-set o.repository.run_by_id run id (marked old),
          str_eq_iff run id,
          c.indexed id s,
          c.indexed run old e,
        );
        points = λ d id h.
            let (s, found, same) = c.points d id h in
            elim (Bool-cases (str_eq run id)) [
              | inl hit ↦ (
                marked old,
                ground (arith, get-set o.repository.run_by_id run id (marked old)),
                ground (arith, str_eq_iff run id),
              )
              | inr miss ↦
                  (s, ground (arith, get-set o.repository.run_by_id run id (marked old)), same)
            ];
        routed = λ id. ground (
          arith,
          get-set o.repository.run_by_id run id (marked old),
          str_eq_iff run id,
          c.routed id,
        );
        versioned = λ id s h. elim (Bool-cases (str_eq run id)) [
          | inl hit ↦
              let is_new : s ≡ marked old =
                ground (arith, get-set o.repository.run_by_id run id (marked old)) in
              let (w, ev, le) = c.versioned run old e in
              (w, ap (λ x. x.run_version) is_new ∙ ev, ground (arith, is_new, le))
          | inr miss ↦
              c.versioned id s (ground (arith, get-set o.repository.run_by_id run id (marked old)))
        ];
      }

  -- A run leaves the tables.
  abbrev pub without_run : Orchestrator A → String → TeamRunRecord → Orchestrator A
  without_run o run old = record o {
    repository = record o.repository {
      run_by_id = delete o.repository.run_by_id run;
      run_id_by_definition_id = delete o.repository.run_id_by_definition_id old.team_definition_id;
    };
    routing_by_run_id = delete o.routing_by_run_id run;
  }

  pub without_run-IsConsistent :
      (o : Orchestrator A) (run : String) (old : TeamRunRecord)
      → IsConsistent o
      → get o.repository.run_by_id run ≡ some old
      → IsConsistent (without_run o run old)
  without_run-IsConsistent o run old c e = record {
    keyed = λ id s h. ground (arith, get-delete o.repository.run_by_id run id, c.keyed id s);
    indexed = λ id s h. ground (
      arith,
      get-delete o.repository.run_by_id run id,
      get-delete o.repository.run_id_by_definition_id old.team_definition_id s.team_definition_id,
      str_eq_iff run id,
      str_eq_iff old.team_definition_id s.team_definition_id,
      c.indexed id s,
      c.indexed run old e,
    );
    points = λ d id h.
        let there : get o.repository.run_id_by_definition_id d ≡ some id =
          ground
            (arith, get-delete o.repository.run_id_by_definition_id old.team_definition_id d) in
        let (s, found, same) = c.points d id there in
        (
          s,
          ground (
            arith,
            get-delete o.repository.run_id_by_definition_id old.team_definition_id d,
            get-delete o.repository.run_by_id run id,
            str_eq_iff run id,
            str_eq_iff old.team_definition_id d,
          ),
          same,
        );
    routed = λ id. ground (
      arith,
      get-delete o.repository.run_by_id run id,
      get-delete o.routing_by_run_id run id,
      c.routed id,
    );
    versioned =
        λ id s h. c.versioned id s (ground (arith, get-delete o.repository.run_by_id run id));
  }

  -- A host with no runs yet.
  abbrev pub no_runs : DegradationPolicy → Orchestrator A
  no_runs p = record {
    repository = record {
      run_by_id = [];
      run_id_by_definition_id = [];
      next_run_version_by_definition_id = [];
    };
    routing_by_run_id = [];
    degradation = p;
  }

  pub no_runs-IsConsistent : (p : DegradationPolicy) → IsConsistent (no_runs p)
  unfolding get
  no_runs-IsConsistent p = record {
    keyed = λ id r h. cc;
    indexed = λ id r h. cc;
    points = λ d id h. cc;
    routed = λ id. refl;
    versioned = λ id r h. cc;
  }
