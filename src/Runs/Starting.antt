-- ===== src/Runs/Starting.antt =====
-- Starting the run of a team: once for each definition, under a version of its own.
use autobyteus_server_ts.Common.{
  ◌∙◌, ap, Option-cases, get_or, ok, or_throw, >>=-eq-ok, or_throw-eq-ok, ℕ, ◌+◌, String, ◌≡◌, refl,
  ◌≢◌, ◌⊎◌, inl, inr, Option, none, some, arith, str_eq_iff,
}
use autobyteus_server_ts.Common.Dict.{get, get-set_self}
use autobyteus_server_ts.Policies.Degradation.{running}
use autobyteus_server_ts.Policies.Fencing.{number}
use autobyteus_server_ts.Placement.{PlacementByMember, resolve_placement}
use autobyteus_server_ts.Runs.Repository.{TeamRunRecord, get_active_run_by_definition_id}
use autobyteus_server_ts.Runs.Orchestrator.{
  Orchestrator, EnsureInput, AdapterInput, StartInput, truthy, definition_id_missing,
  lift_placement, ensure_member_dependencies_available, create_run, start_run, start_run_if_missing,
}
use autobyteus_server_ts.Runs.Consistency.{IsConsistent, active-eq_iff, with_run-IsConsistent}

module _ {ℓ} {A : Type ℓ} (ensure_ready : EnsureInput → Option String)
    (create_adapter : AdapterInput → A) where
  -- The version that the next run of a definition gets.
  abbrev pub next_version : Orchestrator A → String → ℕ
  next_version o d = get_or (get o.repository.next_run_version_by_definition_id d) 0 + 1

  -- A started run is new: its id had no record, its version is the next of its definition, it is
  -- running, and the other tables have it.
  pub record IsNewRun (o o' : Orchestrator A) (d run : String) (r : TeamRunRecord) : Type ℓ where
    pub found : get o'.repository.run_by_id run ≡ some r
    pub named : r.team_run_id ≡ run
    pub of_definition : r.team_definition_id ≡ d
    pub version : r.run_version ≡ number (next_version o d)
    pub counted : get o'.repository.next_run_version_by_definition_id d ≡ some (next_version o d)
    pub active : get o'.repository.run_id_by_definition_id d ≡ some run
    pub live : r.status ≡ running
    pub consistent : IsConsistent o'

  create_run-IsNewRun :
      (o : Orchestrator A) (input : StartInput) (d : String) (placed : PlacementByMember)
      (run now_iso : String)
      → IsConsistent o
      → get o.repository.run_by_id run ≡ none
      → run ≢ ""
      → get_active_run_by_definition_id o.repository d ≡ none
      → IsNewRun o
          (create_run ensure_ready create_adapter o input d placed run now_iso).1
          d
          run
          (create_run ensure_ready create_adapter o input d placed run now_iso).0
  unfolding create_run
  create_run-IsNewRun o input d placed run now_iso c fresh ne idle = record {
    found = get-set_self o.repository.run_by_id run _;
    named = refl;
    of_definition = refl;
    version = refl;
    counted = get-set_self o.repository.next_run_version_by_definition_id d _;
    active = get-set_self o.repository.run_id_by_definition_id d run;
    live = refl;
    consistent =
        with_run-IsConsistent o c
          (create_run ensure_ready create_adapter o input d placed run now_iso).0 (next_version o d)
          _ fresh ne (active-eq_iff o d c idle) (λ e. cc) refl (omega arith);
  }

  -- Starting either finds the active run of the definition and changes nothing, or makes a new run.
  pub start_run_if_missing_cases :
      (o o' : Orchestrator A) (input : StartInput) (run now_iso : String) (r : TeamRunRecord)
      → IsConsistent o
      → get o.repository.run_by_id run ≡ none
      → run ≢ ""
      → start_run_if_missing ensure_ready create_adapter o input run now_iso ≡ ok (r, o')
      → (d : String) × (truthy input.team_definition.id ≡ some d)
        × (((get_active_run_by_definition_id o.repository d ≡ some r) × (o' ≡ o))
            ⊎ IsNewRun o o' d run r)
  unfolding start_run_if_missing start_run
  start_run_if_missing_cases o o' input run now_iso r c fresh ne h =
      let (d, ed, found) =
        >>=-eq-ok (or_throw (truthy input.team_definition.id) definition_id_missing) _ h in
      (
        d,
        or_throw-eq-ok (truthy input.team_definition.id) _ ed,
        elim (Option-cases (get_active_run_by_definition_id o.repository d)) [
          | inr (existing, e) ↦ inl (ground (arith, e), ground (arith, e))
          | inl e ↦
              let started : start_run ensure_ready create_adapter o input d run now_iso
                  ≡ ok (r, o') =
                ground (arith, e) in
              let (placed, ep, rest) =
                >>=-eq-ok
                  (lift_placement (
                    resolve_placement input.team_definition input.node_snapshots
                      input.default_node_id))
                  _ started in
              let (u, eu, made) =
                >>=-eq-ok
                  (ensure_member_dependencies_available ensure_ready input.team_definition placed) _
                  rest in
              let is_new = create_run-IsNewRun o input d placed run now_iso c fresh ne e in
              let first : (create_run ensure_ready create_adapter o input d placed run now_iso).0
                  ≡ r =
                ground arith in
              let second : (create_run ensure_ready create_adapter o input d placed run now_iso).1
                  ≡ o' =
                ground arith in
              inr (rw (first, second) at is_new)
        ],
      )

  start_found :
      (o : Orchestrator A) (input : StartInput) (d run now_iso : String) (r : TeamRunRecord)
      → truthy input.team_definition.id ≡ some d
      → get_active_run_by_definition_id o.repository d ≡ some r
      → start_run_if_missing ensure_ready create_adapter o input run now_iso ≡ ok (r, o)
  unfolding start_run_if_missing
  start_found o input d run now_iso r ed e = ground (arith, ed, e)

  active_of :
      (o o' : Orchestrator A) (d run : String) (r : TeamRunRecord)
      → run ≢ ""
      → IsNewRun o o' d run r
      → get_active_run_by_definition_id o'.repository d ≡ some r
  unfolding get_active_run_by_definition_id
  active_of o o' d run r ne n = ground (arith, n.active, n.found, n.live, str_eq_iff run "")

  -- A team that has been started is not started again: a second start answers with the same record
  -- and leaves the state as it is, under whatever id and at whatever time.
  pub start_twice :
      (o o' : Orchestrator A) (input : StartInput) (run now_iso run' now_iso' : String)
      (r : TeamRunRecord)
      → IsConsistent o
      → get o.repository.run_by_id run ≡ none
      → run ≢ ""
      → start_run_if_missing ensure_ready create_adapter o input run now_iso ≡ ok (r, o')
      → start_run_if_missing ensure_ready create_adapter o' input run' now_iso' ≡ ok (r, o')
  start_twice o o' input run now_iso run' now_iso' r c fresh ne h =
      let (d, ed, found) = start_run_if_missing_cases o o' input run now_iso r c fresh ne h in
      elim found [
        | inl (e, same) ↦
            start_found o' input d run' now_iso' r ed
              (ap (λ x. get_active_run_by_definition_id x.repository d) same ∙ e)
        | inr n ↦ start_found o' input d run' now_iso' r ed (active_of o o' d run r ne n)
      ]
