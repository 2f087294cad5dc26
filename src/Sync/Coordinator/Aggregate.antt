-- ===== src/Sync/Coordinator/Aggregate.antt =====
-- What the status of a synchronisation says of its targets.
use autobyteus_server_ts.Sync.Preflight.Plans.{validate-IsSafe}
use autobyteus_server_ts.Sync.Coordinator.{
  export_failed, is_success, build_report, RunReport, result_of, target_input, TargetRunResult, run,
  send_bundle, import_targets, to_aggregate_result, all_success, all_failed, export_source_bundle,
  import_target, validate, ImportResult, NodeEndpoint, RunResult, ValidatedPlan, RunInput,
  BundleClient,
}
use autobyteus_server_ts.Sync.Report.{Limits}
use autobyteus_server_ts.Common.{
  ok-injective, ◌∙◌, suc, sym, ap, subst, >>=-eq-ok, ◌≤◌, Result-cases, Bool-cases, ok, err, length,
  filter, All, length-filter-le, ℕ, String, ◌≡◌, refl, ◌↔◌, ◌⊎◌, inl, inr, Bool, true, false, List,
  [], ◌∷◌, map, arith,
}

length-filter_every {ℓ κ} :
    {A : Type ℓ} (p : A → Bool) (P : A → Type κ) (xs : List A)
    → ((x : A) → (p x ≡ true) ↔ P x)
    → (length (filter p xs) ≡ length xs) ↔ All P xs
length-filter_every p P [] h = (λ e. tt, λ a. refl)
length-filter_every p P (x ∷ xs) h =
    let few = length-filter-le p xs in
    elim (Bool-cases (p x)) [
      | inl b ↦ (
        λ e. ((h x).0 b, (length-filter_every p P xs h).0 (ground (arith, b, e))),
        λ a. ground (arith, b, (length-filter_every p P xs h).1 a.1),
      )
      | inr b ↦ (λ e. absurd (ground (arith, b, e, few)), λ a. absurd (cc (b, (h x).1 a.0)))
    ]

length-filter_nothing {ℓ κ} :
    {A : Type ℓ} (p : A → Bool) (P : A → Type κ) (xs : List A)
    → ((x : A) → (p x ≡ false) ↔ P x)
    → (length (filter p xs) ≡ 0) ↔ All P xs
length-filter_nothing p P [] h = (λ e. tt, λ a. refl)
length-filter_nothing p P (x ∷ xs) h = elim (Bool-cases (p x)) [
  | inl b ↦ (λ e. absurd (ground (arith, b, e)), λ a. absurd (cc (b, (h x).1 a.0)))
  | inr b ↦ (
    λ e. ((h x).0 b, (length-filter_nothing p P xs h).0 (ground (arith, b, e))),
    λ a. ground (arith, b, (length-filter_nothing p P xs h).1 a.1),
  )
]

module _ {B : Type 0} (text_of : ℕ → String) (limits : Limits) (client : BundleClient B) where
  -- The target has answered, and with success.
  abbrev pub IsImported : ValidatedPlan → B → NodeEndpoint → Type 0
  IsImported plan bundle t =
      (r : ImportResult) × (import_target text_of limits client plan bundle t ≡ ok r)
      × (r.success ≡ true)

  -- Either the export has failed, or each target of the plan is in the results, in the plan's order.
  pub record IsRun (input : RunInput) (result : RunResult) : Type 0 where
    pub plan : ValidatedPlan
    pub valid : validate client.remote input ≡ ok plan
    pub outcome :
        ((e : String) × (export_source_bundle text_of limits client plan ≡ err e)
          × (result.status ≡ all_failed)
          × (result.target_results ≡ []))
        ⊎ ((bundle : B) × (export_source_bundle text_of limits client plan ≡ ok bundle)
            × (map (λ r. r.target_node_id) result.target_results
                ≡ map (λ t. t.node_id) plan.targets)
            × ((result.status ≡ all_success) ↔ All (IsImported plan bundle) plan.targets)
            × ((result.status ≡ all_failed) ↔ All (λ t. ¬ IsImported plan bundle t) plan.targets))

  abbrev imported : ValidatedPlan → B → NodeEndpoint → Bool
  imported plan bundle t = elim (import_target text_of limits client plan bundle t) [
    | ok r ↦ r.success
    | err e ↦ false
  ]

  imported_iff :
      (plan : ValidatedPlan) (bundle : B) (t : NodeEndpoint)
      → (imported plan bundle t ≡ true) ↔ IsImported plan bundle t
  imported_iff plan bundle t =
      elim (Result-cases (import_target text_of limits client plan bundle t)) [
        | inl (r, n) ↦ (λ e. (r, n, ground (arith, n, e)), λ (r', n', s). ground (arith, n', s))
        | inr (x, n) ↦ (λ e. absurd (ground (arith, n, e)), λ (r', n', s). absurd (cc (n, n')))
      ]

  not_imported_iff :
      (plan : ValidatedPlan) (bundle : B) (t : NodeEndpoint)
      → (imported plan bundle t ≡ false) ↔ (¬ IsImported plan bundle t)
  not_imported_iff plan bundle t = (
    λ e i. cc (e, (imported_iff plan bundle t).1 i),
    λ n. elim (Bool-cases (imported plan bundle t)) [
      | inl b ↦ absurd (n ((imported_iff plan bundle t).0 b))
      | inr b ↦ b
    ],
  )

  abbrev results : ValidatedPlan → B → List NodeEndpoint → List TargetRunResult
  results plan bundle ts = map result_of (import_targets text_of limits client plan bundle ts)

  results-count :
      (plan : ValidatedPlan) (bundle : B) (ts : List NodeEndpoint)
      → (length (filter is_success (results plan bundle ts))
          ≡ length (filter (imported plan bundle) ts))
        × (length (results plan bundle ts) ≡ length ts)
        × (map (λ r. r.target_node_id) (results plan bundle ts) ≡ map (λ t. t.node_id) ts)
  unfolding import_targets target_input
  results-count plan bundle [] = (refl, refl, refl)
  results-count plan bundle (t ∷ ts) =
      let (a, b, c) = results-count plan bundle ts in
      elim (Result-cases (import_target text_of limits client plan bundle t)) [
        | inr (x, n) ↦
            let v : imported plan bundle t ≡ false = ground (arith, n) in
            rw (v, n, target_input) (a, ap suc b, ap (λ y. t.node_id ∷ y) c)
        | inl (r, n) ↦ elim (Bool-cases r.success) [
          | inl s ↦
              let v : imported plan bundle t ≡ true = ground (arith, n, s) in
              rw (v, n, s, target_input) (ap suc a, ap suc b, ap (λ y. t.node_id ∷ y) c)
          | inr s ↦
              let v : imported plan bundle t ≡ false = ground (arith, n, s) in
              rw (v, n, s, target_input) (a, ap suc b, ap (λ y. t.node_id ∷ y) c)
        ]
      ]

  status-counts :
      (plan : ValidatedPlan) (rs : List TargetRunResult) (report : RunReport)
      → 1 ≤ length rs
      → (((to_aggregate_result plan rs report).status ≡ all_success)
          ↔ (length (filter is_success rs) ≡ length rs))
        × (((to_aggregate_result plan rs report).status ≡ all_failed)
            ↔ (length (filter is_success rs) ≡ 0))
  unfolding to_aggregate_result
  status-counts plan rs report pos =
      ((λ e. ground arith, λ e. ground arith), (λ e. ground arith, λ e. ground arith))

  to_aggregate_result-results :
      (plan : ValidatedPlan) (rs : List TargetRunResult) (report : RunReport)
      → (to_aggregate_result plan rs report).target_results ≡ rs
  unfolding to_aggregate_result
  to_aggregate_result-results plan rs report = ground arith

  send_bundle-outcome :
      (plan : ValidatedPlan) (bundle : B)
      → 1 ≤ length plan.targets
      → (map (λ r. r.target_node_id) (send_bundle text_of limits client plan bundle).target_results
          ≡ map (λ t. t.node_id) plan.targets)
        × (((send_bundle text_of limits client plan bundle).status ≡ all_success)
            ↔ All (IsImported plan bundle) plan.targets)
        × (((send_bundle text_of limits client plan bundle).status ≡ all_failed)
            ↔ All (λ t. ¬ IsImported plan bundle t) plan.targets)
  unfolding send_bundle
  send_bundle-outcome plan bundle pos =
      let (a, b, c) = results-count plan bundle plan.targets in
      let report =
        build_report text_of limits plan.source.node_id plan.scope (client.records_of bundle)
          (import_targets text_of limits client plan bundle plan.targets) in
      let (s, f) = status-counts plan (results plan bundle plan.targets) report (rw b pos) in
      let every =
        length-filter_every (imported plan bundle) (IsImported plan bundle) plan.targets
          (imported_iff plan bundle) in
      let no_one =
        length-filter_nothing (imported plan bundle) (λ t. ¬ IsImported plan bundle t) plan.targets
          (not_imported_iff plan bundle) in
      (
        ap (map (λ r. r.target_node_id))
              (to_aggregate_result-results plan (results plan bundle plan.targets) report)
            ∙ c,
        (λ e. every.0 (sym a ∙ s.0 e ∙ b), λ i. s.1 (a ∙ every.1 i ∙ sym b)),
        (λ e. no_one.0 (sym a ∙ f.0 e), λ i. f.1 (a ∙ no_one.1 i)),
      )

  -- A run that is not refused has a plan that passes the checks. If the export fails, the run has
  -- failed and has no results. Else it reports on each target of its plan, in order, and its status
  -- says whether all of them, some or none have imported the bundle.
  pub run-IsRun :
      (input : RunInput) (result : RunResult)
      → run text_of limits client input ≡ ok result
      → IsRun input result
  unfolding run
  run-IsRun input result h =
      let (plan, valid, made) = >>=-eq-ok (validate client.remote input) _ h in
      let safe = validate-IsSafe client.remote input plan valid in
      record {
        plan = plan;
        valid = valid;
        outcome = elim (Result-cases (export_source_bundle text_of limits client plan)) [
          | inr (e, n) ↦
              let same =
                ok-injective (export_failed text_of limits client plan e) result (rw n at made) in
              inl (e, n, ap (λ r. r.status) (sym same), ap (λ r. r.target_results) (sym same))
          | inl (bundle, n) ↦
              let same : send_bundle text_of limits client plan bundle ≡ result =
                ok-injective _ _ (rw n at made) in
              let (ids, every, no_one) =
                subst
                  (λ r.
                    (map (λ r. r.target_node_id) r.target_results
                      ≡ map (λ t. t.node_id) plan.targets)
                    × ((r.status ≡ all_success) ↔ All (IsImported plan bundle) plan.targets)
                    × ((r.status ≡ all_failed)
                        ↔ All (λ t. ¬ IsImported plan bundle t) plan.targets))
                  same (send_bundle-outcome plan bundle safe.some_target) in
              inr (bundle, n, ids, every, no_one)
        ];
      }
