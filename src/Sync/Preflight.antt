-- ===== src/Sync/Preflight.antt =====
-- src/sync/services/node-sync-preflight-service.ts: what is checked before definitions are sent. The
-- client of the other nodes is two functions that answer or throw.
pub mod Plans
use autobyteus_server_ts.Sync.{TombstonePolicy, ConflictPolicy, SelectionSpec, EntityType}
use autobyteus_server_ts.Runs.Orchestrator.{truthy}
use autobyteus_server_ts.Common.{
  if◌then◌else◌, Result, ok, err, ◌>>=◌, or_throw, ℕ, suc, String, Bool, true, false, Option, none,
  some, List, [], ◌∷◌, str_eq,
}
use autobyteus_server_ts.Common.Text.{normalize}
use autobyteus_server_ts.Common.Dict.{Dict, get, set}

pub record NodeEndpoint : Type 0 where
  pub node_id : String
  pub base_url : String

pub record RunInput : Type 0 where
  pub source : NodeEndpoint
  pub targets : List NodeEndpoint
  pub scope : List EntityType
  pub selection : Option SelectionSpec
  pub conflict_policy : ConflictPolicy
  pub tombstone_policy : TombstonePolicy

pub record RemoteClient : Type 0 where
  pub normalize_base_url : String → Result String String
  pub check_health : String → Option String

-- Which node an error is about.
pub data Label : Type 0 where
  source_label : Label
  target_index : ℕ → Label
  target_node : String → Label

pub data PreflightError : Type 0 where
  source_required targets_required scope_empty : PreflightError
  target_incomplete : ℕ → PreflightError
  invalid_base_url : Label → (url message : String) → PreflightError
  same_node same_endpoint : (target source : String) → PreflightError
  duplicate_endpoint : (existing target url : String) → PreflightError
  unhealthy : Label → (node url message : String) → PreflightError

pub data FailureClass : Type 0 where
  configuration health : FailureClass

abbrev pub failure_class : PreflightError → FailureClass
failure_class (unhealthy label node url message) = health
failure_class e = configuration

abbrev pub is_retryable : PreflightError → Bool
is_retryable (unhealthy label node url message) = true
is_retryable e = false

-- `NodeSyncValidatedPlan` has the fields of the input.
abbrev pub ValidatedPlan : Type 0
ValidatedPlan = RunInput

module _ (client : RemoteClient) where
  unfoldable pub safe_normalize_base_url : String → Label → Result PreflightError String
  safe_normalize_base_url url label = elim (client.normalize_base_url url) [
    | ok normalized ↦ ok normalized
    | err message ↦ err (invalid_base_url label url message)
  ]

  -- Both fields trimmed and not empty, and the URL in its normal form.
  unfoldable pub normalize_endpoint :
      NodeEndpoint → PreflightError → Label → Result PreflightError NodeEndpoint
  normalize_endpoint node incomplete label = do
    node_id ← or_throw (normalize node.node_id) incomplete
    base_url ← or_throw (normalize node.base_url) incomplete
    url ← safe_normalize_base_url base_url label
    ok (record { node_id = node_id; base_url = url })

  unfoldable pub normalize_targets :
      ℕ → List NodeEndpoint → Result PreflightError (List NodeEndpoint)
  normalize_targets index [] = ok []
  normalize_targets index (t ∷ ts) = do
    target ← normalize_endpoint t (target_incomplete index) (target_index index)
    rest ← normalize_targets (suc index) ts
    ok (target ∷ rest)

  unfoldable pub assert_healthy : NodeEndpoint → Label → Result PreflightError (Unit {0})
  assert_healthy node label = elim (client.check_health node.base_url) [
    | none ↦ ok tt
    | some message ↦ err (unhealthy label node.node_id node.base_url message)
  ]

  unfoldable pub assert_all_healthy : List NodeEndpoint → Result PreflightError (Unit {0})
  assert_all_healthy [] = ok tt
  assert_all_healthy (t ∷ ts) = do
    u ← assert_healthy t (target_node t.node_id)
    assert_all_healthy ts

unfoldable pub assert_distinct : NodeEndpoint → List NodeEndpoint → Result PreflightError (Unit {0})
assert_distinct source [] = ok tt
assert_distinct source (t ∷ ts) =
    let rest = assert_distinct source ts in
    if str_eq t.node_id source.node_id
    then err (same_node t.node_id source.node_id)
    else if str_eq t.base_url source.base_url
    then err (same_endpoint t.node_id source.node_id)
    else rest

-- `seenBaseUrls`; an empty node id counts as none.
unfoldable pub assert_no_duplicates :
    Dict String → List NodeEndpoint → Result PreflightError (Unit {0})
assert_no_duplicates seen [] = ok tt
assert_no_duplicates seen (t ∷ ts) =
    let rest = assert_no_duplicates (set seen t.base_url t.node_id) ts in
    elim (truthy (get seen t.base_url)) [
      | none ↦ rest
      | some existing ↦ err (duplicate_endpoint existing t.node_id t.base_url)
    ]

abbrev pub assert_some {ℓ} :
    {A : Type ℓ} → List A → PreflightError → Result PreflightError (Unit {0})
assert_some [] e = err e
assert_some (x ∷ xs) e = ok tt

-- The source, before the lists are looked at: both of its fields are there.
abbrev pub assert_source : NodeEndpoint → Result PreflightError (Unit {0})
assert_source source = do
  node_id ← or_throw (normalize source.node_id) source_required
  base_url ← or_throw (normalize source.base_url) source_required
  ok tt

unfoldable pub validate : RemoteClient → RunInput → Result PreflightError ValidatedPlan
validate client input = do
  u1 ← assert_source input.source
  u2 ← assert_some input.targets targets_required
  u3 ← assert_some input.scope scope_empty
  source ← normalize_endpoint client input.source source_required source_label
  targets ← normalize_targets client 0 input.targets
  u4 ← assert_distinct source targets
  u5 ← assert_no_duplicates [] targets
  u6 ← assert_healthy client source source_label
  u7 ← assert_all_healthy client targets
  ok (record input { source = source; targets = targets })
