-- ===== src/Worker/Serving.antt =====
-- What a bootstrap that has succeeded leaves on the worker.
use autobyteus_server_ts.Common.Sets.{contains-add}
use autobyteus_server_ts.Common.Actions.{continue-eq-ok}
use autobyteus_server_ts.Runs.Orchestrator.{truthy}
use autobyteus_server_ts.Policies.Fencing.{RunVersion}
use autobyteus_server_ts.Worker.{
  try_resolve_run, TeamBinding, mark_worker_managed_run, stop_event_forwarder, bind_run,
  replace_event_forwarder, WorkerNode,
}
use autobyteus_server_ts.Worker.Bootstrap.{
  take_down, bind_new_run, bootstrap, on_teams, track, create_team, reuse_team, BootstrapInput,
  acquire_team, TeamInstances,
}
use autobyteus_server_ts.Common.{
  ok-injective, Bool-cases, Option-cases, Result-cases, ok, String, ◌≡◌, sym, ap, ◌∙◌, subst, inl,
  inr, true, false, Option, some, List, arith, str_eq_refl,
}
use autobyteus_server_ts.Common.Text.{normalize, IsNormal}
use autobyteus_server_ts.Common.Dict.{get, set, get-set_self, contains}

-- What the teams of a node are relied on for: a team that is created is there, a routing port takes
-- no team away, and the ids of teams are trimmed.
pub record AreInstances {M F T : Type 0} (i : TeamInstances M F T) : Type 0 where
  pub created :
      (definition : String) (members : List M) (t t' : T) (id : String)
      → i.create_team_instance definition members t ≡ (ok id, t')
      → i.has_team_instance t' id ≡ true
  pub routed :
      (team run id : String) (version : RunVersion) (t : T)
      → i.has_team_instance (i.set_team_routing_port team run version t) id
        ≡ i.has_team_instance t id
  pub trimmed : (t : T) (id : String) → i.has_team_instance t id ≡ true → IsNormal id

-- The run is bound to a team that is there, and its host is noted.
pub record IsServing {M F T : Type 0} (i : TeamInstances M F T) (run host : String)
    (w : WorkerNode M F T) : Type 0 where
  pub binding : TeamBinding M
  pub bound : get w.binding_by_team_run_id run ≡ some binding
  pub has_team : i.has_team_instance w.teams binding.runtime_team_id ≡ true
  pub hosted : get w.host_node_id_by_run_id run ≡ some host
  pub managed : contains w.worker_managed_run_ids run ≡ true

module _ {M F T : Type 0} (i : TeamInstances M F T) (laws : AreInstances i) where
  on_teams-created :
      (input : BootstrapInput M) (w w' : WorkerNode M F T) (team : String)
      → create_team i input w ≡ (ok team, w')
      → i.has_team_instance w'.teams team ≡ true
  on_teams-created input w w' team h =
      let made : i.create_team_instance input.worker_team_definition_id input.member_bindings
            w.teams
          ≡ (ok team, w'.teams) =
        ap (λ x. (x.0, x.1.teams)) h in
      laws.created input.worker_team_definition_id input.member_bindings w.teams w'.teams team made

  reuse_team-alive :
      (input : BootstrapInput M) (found team : String) (w w' : WorkerNode M F T)
      → reuse_team i input found w ≡ (ok team, w')
      → i.has_team_instance w'.teams team ≡ true
  reuse_team-alive input found team w w' h = elim (Bool-cases (i.has_team_instance w.teams found)) [
    | inr n ↦ on_teams-created input w w' team (rw n at h)
    | inl n ↦
        elim (Result-cases (
          i.member_bindings_match
            (i.get_team_member_configs_by_definition_id w.teams input.worker_team_definition_id)
            input.member_bindings)) [
              | inr (e, m) ↦ absurd (cc (rw (n, m) at h))
              | inl (true, m) ↦
                  let h' = rw (n, m) at h in
                  let same : found ≡ team = ok-injective found team (ap (λ x. x.0) h') in
                  let kept : w ≡ w' = ap (λ x. x.1) h' in
                  ap (λ x. i.has_team_instance x.teams team) (sym kept)
                  ∙ ap (i.has_team_instance w.teams) (sym same)
                  ∙ n
              | inl (false, m) ↦
                  let (u, w1, gone, next) =
                    continue-eq-ok (on_teams i (i.terminate_team_instance found) w) _
                      (rw (n, m) at h) in
                  on_teams-created input w1 w' team next
            ]
  ]

  acquire_team-alive :
      (input : BootstrapInput M) (team : String) (w w' : WorkerNode M F T)
      → acquire_team i input w ≡ (ok team, w')
      → i.has_team_instance w'.teams team ≡ true
  unfolding acquire_team
  acquire_team-alive input team w w' h =
      elim (Option-cases
        (truthy (i.get_team_id_by_definition_id w.teams input.worker_team_definition_id))) [
          | inl n ↦ on_teams-created input w w' team (rw (n, acquire_team) at h)
          | inr (found, n) ↦ reuse_team-alive input found team w w' (rw (n, acquire_team) at h)
        ]

  replace_event_forwarder-IsServing :
      (run host : String) (f : Option F) (w w' : WorkerNode M F T) (u : Unit {0})
      → replace_event_forwarder i.close run f w ≡ (ok u, w')
      → IsServing i run host w
      → IsServing i run host w'
  unfolding replace_event_forwarder stop_event_forwarder
  replace_event_forwarder-IsServing run host f w w' u h s = record {
    binding = s.binding;
    bound = ground (arith, s.bound, h);
    has_team = ground (arith, s.has_team, h);
    hosted = ground (arith, s.hosted, h);
    managed = ground (arith, s.managed, h);
  }

  -- The node behind the binding and the notes, for a team that is there.
  bound-IsServing :
      (input : BootstrapInput M) (team : String) (w w1 w2 : WorkerNode M F T) (b : TeamBinding M)
      (u : Unit {0})
      → IsNormal input.team_run_id
      → i.has_team_instance w.teams team ≡ true
      → bind_run input.team_run_id input.run_version input.host_team_definition_id team
          input.member_bindings input.now_iso w
        ≡ (ok b, w1)
      → track i input team w1 ≡ (ok u, w2)
      → IsServing i input.team_run_id input.host_node_id w2
  unfolding bind_run mark_worker_managed_run
  bound-IsServing input team w w1 w2 b u normal alive bound tracked =
      let run = input.team_run_id in
      let named : normalize team ≡ some team = laws.trimmed w.teams team alive in
      elim (Option-cases (normalize input.host_team_definition_id)) [
        | inl n ↦ absurd (cc (rw (normal, n, bind_run) at bound))
        | inr (d, n) ↦
            let made : TeamBinding M = record {
              team_run_id = run;
              run_version = input.run_version;
              team_definition_id = d;
              runtime_team_id = team;
              member_bindings = input.member_bindings;
              bound_at_iso = input.now_iso;
            } in
            let bound' = rw (normal, n, named, bind_run) at bound in
            let is_b : made ≡ b = ok-injective made b (ap (λ x. x.0) bound') in
            let is_w1 : record w { binding_by_team_run_id = set w.binding_by_team_run_id run made }
                ≡ w1 =
              ap (λ x. x.1) bound' in
            let is_w2 = ap (λ x. x.1) tracked in
            subst (IsServing i run input.host_node_id) is_w2 (record {
              binding = b;
              bound =
                  ap (λ x. get x.binding_by_team_run_id run) (sym is_w1)
                  ∙ get-set_self w.binding_by_team_run_id run made
                  ∙ ap some is_b;
              has_team =
                  laws.routed team run b.runtime_team_id input.run_version w1.teams
                  ∙ ap (λ x. i.has_team_instance x.teams b.runtime_team_id) (sym is_w1)
                  ∙ ap (λ x. i.has_team_instance w.teams x.runtime_team_id) (sym is_b)
                  ∙ alive;
              hosted = get-set_self w1.host_node_id_by_run_id run input.host_node_id;
              managed =
                  ground (arith, contains-add w1.worker_managed_run_ids run run, str_eq_refl run);
            })
      ]

  bind_new_run-IsServing :
      (input : BootstrapInput M) (w w' : WorkerNode M F T) (u : Unit {0})
      → IsNormal input.team_run_id
      → bind_new_run i input w ≡ (ok u, w')
      → IsServing i input.team_run_id input.host_node_id w'
  unfolding bind_new_run
  bind_new_run-IsServing input w w' u normal h =
      let (team, w1, found, h1) = continue-eq-ok (acquire_team i input w) _ h in
      let (b, w2, bound, h2) =
        continue-eq-ok
          (bind_run input.team_run_id input.run_version input.host_team_definition_id team
            input.member_bindings input.now_iso w1)
          _ h1 in
      let (v, w3, tracked, h3) =
        continue-eq-ok (track i input team w2)
          (λ x y.
            replace_event_forwarder i.close input.team_run_id
              (i.start_event_forwarder y.teams team input.team_run_id) y)
          h2 in
      replace_event_forwarder-IsServing input.team_run_id input.host_node_id
        (i.start_event_forwarder w3.teams team input.team_run_id) w3 w' u h3
        (bound-IsServing input team w1 w2 w3 b v normal (acquire_team-alive input team w w1 found)
          bound tracked)

  -- After a bootstrap that succeeds, the run is bound to a team that is on the node, whether it was
  -- bound before, its team was gone, or it is new; and the host that asked for it is noted.
  pub bootstrap-IsServing :
      (input : BootstrapInput M) (w w' : WorkerNode M F T) (u : Unit {0})
      → IsNormal input.team_run_id
      → bootstrap i input w ≡ (ok u, w')
      → IsServing i input.team_run_id input.host_node_id w'
  unfolding bootstrap try_resolve_run mark_worker_managed_run
  bootstrap-IsServing input w w' u normal h =
      elim (Option-cases (get w.binding_by_team_run_id input.team_run_id)) [
        | inl n ↦
            bind_new_run-IsServing input w w' u normal
              (rw (normal, n, bootstrap, try_resolve_run) at h)
        | inr (b, n) ↦ elim (Bool-cases (i.has_team_instance w.teams b.runtime_team_id)) [
          | inl alive ↦
              let is_w' = ap (λ x. x.1) (rw (normal, n, alive, bootstrap, try_resolve_run) at h) in
              subst (IsServing i input.team_run_id input.host_node_id) is_w' (record {
                binding = b;
                bound = n;
                has_team = alive;
                hosted = get-set_self w.host_node_id_by_run_id input.team_run_id input.host_node_id;
                managed = ground (
                  arith,
                  contains-add w.worker_managed_run_ids input.team_run_id input.team_run_id,
                  str_eq_refl input.team_run_id,
                );
              })
          | inr gone ↦
              let (v, w1, down, next) =
                continue-eq-ok (take_down i input w) _
                  (rw (normal, n, gone, bootstrap, try_resolve_run) at h) in
              bind_new_run-IsServing input w1 w' u normal next
        ]
      ]
