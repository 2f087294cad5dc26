-- ===== src/Runs/Stopping.antt =====
-- Stopping a run, by command or because its routing fails too often.
use autobyteus_server_ts.Common.{
  ◌∙◌, ◌<◌, ok, Bool-cases, Option-cases, ℕ, String, ◌≡◌, refl, ap, ◌≢◌, ◌⊎◌, inl, inr, true, false,
  Option, none, some, arith,
}
use autobyteus_server_ts.Common.Dict.{
  get-delete, get, delete, get-set_self, get-delete_self, delete-absent, delete-set_self,
}
use autobyteus_server_ts.Policies.Degradation.{stopped, DegradationPolicy, clear_run}
use autobyteus_server_ts.Runs.Repository.{
  get_active_run_by_definition_id, TeamRunRecord, is_stopped, if_active, update_run_status,
  delete_run,
}
use autobyteus_server_ts.Runs.Orchestrator.{
  StartInput, AdapterInput, EnsureInput, Orchestrator, Reply, answered, thrown, route,
}
use autobyteus_server_ts.Runs.Dispatch.{forget_run, complete_stop, dispatch_control_stop}
use autobyteus_server_ts.Policies.Fencing.{number}
use autobyteus_server_ts.Runs.Starting.{next_version, start_run_if_missing_cases}
use autobyteus_server_ts.Runs.Orchestrator.{
  EnsureInput, AdapterInput, StartInput, truthy, start_run_if_missing,
}
use autobyteus_server_ts.Runs.Consistency.{IsConsistent, without_run, without_run-IsConsistent}

pub if_active-cases :
    (found : Option TeamRunRecord)
    → (if_active found ≡ none)
      ⊎ ((r : TeamRunRecord) × (found ≡ some r) × (if_active found ≡ some r) × (r.status ≢ stopped))
if_active-cases none = inl refl
if_active-cases (some r) = elim (Bool-cases (is_stopped r.status)) [
  | inl e ↦ inl (rw e refl)
  | inr e ↦ inr (r, refl, rw e refl, λ same. cc (ap is_stopped same))
]

module _ {ℓ} {A : Type ℓ} where
  abbrev cleared : Orchestrator A → String → Orchestrator A
  cleared o run = record o { degradation = clear_run o.degradation run }

  forget_run-found :
      (o : Orchestrator A) (run now_iso : String) (old : TeamRunRecord)
      → get o.repository.run_by_id run ≡ some old
      → forget_run o run now_iso ≡ without_run (cleared o run) run old
  unfolding forget_run update_run_status delete_run
  forget_run-found o run now_iso old e =
      let marked = record old { status = stopped; updated_at_iso = now_iso } in
      ground (
        arith,
        e,
        get-set_self o.repository.run_by_id run marked,
        delete-set_self o.repository.run_by_id run marked,
      )

  forget_run-missing :
      (o : Orchestrator A) (run now_iso : String)
      → get o.repository.run_by_id run ≡ none
      → forget_run o run now_iso
        ≡ record (cleared o run) { routing_by_run_id = delete o.routing_by_run_id run }
  unfolding forget_run update_run_status delete_run
  forget_run-missing o run now_iso e = ground (arith, e)

  -- The consistency of the tables says nothing about failures.
  pub degradation-IsConsistent :
      (o : Orchestrator A) (p : DegradationPolicy)
      → IsConsistent o
      → IsConsistent (record o { degradation = p })
  degradation-IsConsistent o p c = record {
    keyed = c.keyed;
    indexed = c.indexed;
    points = c.points;
    routed = c.routed;
    versioned = c.versioned;
  }

  pub forget_run-IsConsistent :
      (o : Orchestrator A) (run now_iso : String)
      → IsConsistent o
      → IsConsistent (forget_run o run now_iso)
  forget_run-IsConsistent o run now_iso c = elim (Option-cases (get o.repository.run_by_id run)) [
    | inl e ↦
        let unrouted : get o.routing_by_run_id run ≡ none = ground (arith, c.routed run) in
        rw (forget_run-missing o run now_iso e, delete-absent o.routing_by_run_id run unrouted)
          (degradation-IsConsistent o (clear_run o.degradation run) c)
    | inr (old, e) ↦ rw (forget_run-found o run now_iso old e) (
        without_run-IsConsistent (cleared o run) run old
          (degradation-IsConsistent o (clear_run o.degradation run) c) e)
  ]

  -- What is left of a run: nothing.
  pub record IsForgotten (o : Orchestrator A) (run d : String) : Type ℓ where
    pub no_record : get o.repository.run_by_id run ≡ none
    pub no_index : get o.repository.run_id_by_definition_id d ≡ none
    pub no_adapter : get o.routing_by_run_id run ≡ none
    pub no_failures : get o.degradation.state_by_run_id run ≡ none

  forget_run-IsForgotten :
      (o : Orchestrator A) (run now_iso : String) (old : TeamRunRecord)
      → get o.repository.run_by_id run ≡ some old
      → IsForgotten (forget_run o run now_iso) run old.team_definition_id
  unfolding clear_run
  forget_run-IsForgotten o run now_iso old e = rw (forget_run-found o run now_iso old e) (record {
    no_record = get-delete_self o.repository.run_by_id run;
    no_index = get-delete_self o.repository.run_id_by_definition_id old.team_definition_id;
    no_adapter = get-delete_self o.routing_by_run_id run;
    no_failures = get-delete_self o.degradation.state_by_run_id run;
  })

  complete_stop_cases :
      (o : Orchestrator A) (run : String) (reply : Reply) (now_iso : String)
      → (((complete_stop o run reply now_iso).0.accepted ≡ true)
          × ((complete_stop o run reply now_iso).1 ≡ forget_run o run now_iso))
        ⊎ (((complete_stop o run reply now_iso).0.accepted ≡ false)
            × ((complete_stop o run reply now_iso).1 ≡ o))
  unfolding complete_stop
  complete_stop_cases o run (thrown e) now_iso = inr (refl, refl)
  complete_stop_cases o run (answered r) now_iso = elim (Bool-cases r.accepted) [
    | inl e ↦ inl (ground (arith, e), ground (arith, e))
    | inr e ↦ inr (ground (arith, e), ground (arith, e))
  ]

  stop_cases :
      (o : Orchestrator A) (run : String) (reply : Reply) (now_iso : String)
      → (((dispatch_control_stop o run reply now_iso).0.accepted ≡ true)
          × ((dispatch_control_stop o run reply now_iso).1 ≡ forget_run o run now_iso)
          × ((r : TeamRunRecord) × (get o.repository.run_by_id run ≡ some r)
              × (r.status ≢ stopped)))
        ⊎ (((dispatch_control_stop o run reply now_iso).0.accepted ≡ false)
            × ((dispatch_control_stop o run reply now_iso).1 ≡ o))
  unfolding dispatch_control_stop
  stop_cases o run reply now_iso = elim (if_active-cases (get o.repository.run_by_id run)) [
    | inl e ↦ inr (ground (arith, e), ground (arith, e))
    | inr (r, found, e, live) ↦
        elim (complete_stop_cases o run (route (get o.routing_by_run_id run) run reply) now_iso) [
          | inl (a, same) ↦ inl (ground (arith, e, a), ground (arith, e, same), (r, found, live))
          | inr (a, same) ↦ inr (ground (arith, e, a), ground (arith, e, same))
        ]
  ]

  -- A stop command that is accepted was for an active run, of which it leaves nothing; one that is
  -- refused, or whose adapter throws, changes nothing.
  pub dispatch_control_stop_lem :
      (o : Orchestrator A) (run : String) (reply : Reply) (now_iso : String)
      → (((dispatch_control_stop o run reply now_iso).0.accepted ≡ true)
          × ((r : TeamRunRecord) × (get o.repository.run_by_id run ≡ some r)
              × (r.status ≢ stopped)
              × IsForgotten (dispatch_control_stop o run reply now_iso).1 run r.team_definition_id))
        ⊎ (((dispatch_control_stop o run reply now_iso).0.accepted ≡ false)
            × ((dispatch_control_stop o run reply now_iso).1 ≡ o))
  dispatch_control_stop_lem o run reply now_iso = elim (stop_cases o run reply now_iso) [
    | inl (a, same, (r, found, live)) ↦
        inl (a, (r, found, live, rw same (forget_run-IsForgotten o run now_iso r found)))
    | inr same ↦ inr same
  ]

  pub stop-IsConsistent :
      (o : Orchestrator A) (run : String) (reply : Reply) (now_iso : String)
      → IsConsistent o
      → IsConsistent (dispatch_control_stop o run reply now_iso).1
  stop-IsConsistent o run reply now_iso c = elim (stop_cases o run reply now_iso) [
    | inl (a, same, found) ↦ rw same (forget_run-IsConsistent o run now_iso c)
    | inr (a, same) ↦ rw same c
  ]

  pub complete_stop-IsConsistent :
      (o : Orchestrator A) (run : String) (reply : Reply) (now_iso : String)
      → IsConsistent o
      → IsConsistent (complete_stop o run reply now_iso).1
  complete_stop-IsConsistent o run reply now_iso c =
      elim (complete_stop_cases o run reply now_iso) [
        | inl (a, same) ↦ rw same (forget_run-IsConsistent o run now_iso c)
        | inr (a, same) ↦ rw same c
      ]

  stopped-without_run :
      (o : Orchestrator A) (run : String) (reply : Reply) (now_iso : String) (old : TeamRunRecord)
      → get o.repository.run_by_id run ≡ some old
      → (dispatch_control_stop o run reply now_iso).0.accepted ≡ true
      → (dispatch_control_stop o run reply now_iso).1 ≡ without_run (cleared o run) run old
  stopped-without_run o run reply now_iso old found accepted =
      elim (stop_cases o run reply now_iso) [
        | inl (a, same, rest) ↦ same ∙ forget_run-found o run now_iso old found
        | inr (a, same) ↦ cc
      ]

  no_active-without_run :
      (o : Orchestrator A) (run : String) (old : TeamRunRecord)
      → get_active_run_by_definition_id (without_run o run old).repository old.team_definition_id
        ≡ none
  unfolding get_active_run_by_definition_id
  no_active-without_run o run old =
      ground (arith, get-delete_self o.repository.run_id_by_definition_id old.team_definition_id)

  -- The next run of a team that was stopped gets a higher version than the stopped one, so that
  -- commands and events of the old run are told apart from those of the new.
  pub restart-version :
      (ensure_ready : EnsureInput → Option String) (create_adapter : AdapterInput → A)
      (o o' : Orchestrator A) (run run' now_iso now_iso' : String) (reply : Reply)
      (old new : TeamRunRecord) (input : StartInput) (v : ℕ)
      → IsConsistent o
      → get o.repository.run_by_id run ≡ some old
      → old.run_version ≡ number v
      → (dispatch_control_stop o run reply now_iso).0.accepted ≡ true
      → truthy input.team_definition.id ≡ some old.team_definition_id
      → get o.repository.run_by_id run' ≡ none
      → run' ≢ ""
      → start_run_if_missing ensure_ready create_adapter
          (dispatch_control_stop o run reply now_iso).1
          input
          run'
          now_iso'
        ≡ ok (new, o')
      → (w : ℕ) × (new.run_version ≡ number w) × (v < w)
  restart-version ensure_ready create_adapter o o' run run' now_iso now_iso' reply old new input v c
        found ev accepted ed fresh ne started =
      let gone = stopped-without_run o run reply now_iso old found accepted in
      let q = without_run (cleared o run) run old in
      let kept =
        without_run-IsConsistent (cleared o run) run old (degradation-IsConsistent o _ c) found in
      let fresh' : get q.repository.run_by_id run' ≡ none =
        ground (arith, get-delete o.repository.run_by_id run run') in
      let (d, ed', cases) =
        start_run_if_missing_cases ensure_ready create_adapter q o' input run' now_iso' new kept
          fresh' ne (rw gone at started) in
      let same : d ≡ old.team_definition_id = ground arith in
      let (w, ew, le) = c.versioned run old found in
      elim cases [
        | inl (active, unchanged) ↦
            absurd (ground (arith, active, same, no_active-without_run (cleared o run) run old))
        | inr n ↦ (
          next_version ensure_ready create_adapter q d,
          n.version,
          ground (arith, same, ew, ev, le),
        )
      ]
