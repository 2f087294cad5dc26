-- ===== src/Policies/EventDedup.antt =====
-- src/distributed/policies/remote-event-idempotency-policy.ts: events that a worker sends again are
-- dropped for `ttl_ms` milliseconds. The clock is an argument.
pub mod Laws
pub mod Retention
mod Tests
use autobyteus_server_ts.Common.{
  ltb, leb, if◌then◌else◌, get_or, Result, ok, ◌>>=◌, or_throw, length, filter, ℕ, suc, ◌+◌, String,
  Bool, true, false, Option, none, some, [], ◌∷◌, str_eq,
}
use autobyteus_server_ts.Common.Text.{normalize, join}
use autobyteus_server_ts.Common.Dict.{Dict, get, set}

pub record EventInput : Type 0 where
  pub team_run_id : String
  pub source_node_id : String
  pub source_event_id : String

pub record EventDedup : Type 0 where
  pub ttl_ms : ℕ
  pub max_entries : ℕ
  pub expires_at_by_key : Dict ℕ

-- The error names the field that is blank.
pub data Error : Type 0 where
  empty_field : String → Error

unfoldable pub new_dedup : Option ℕ → Option ℕ → EventDedup
new_dedup ttl most = record {
  ttl_ms = get_or ttl 300000;
  max_entries = get_or most 20000;
  expires_at_by_key = [];
}

unfoldable pub normalize_required : String → String → Result Error String
normalize_required value field = or_throw (normalize value) (empty_field field)

unfoldable pub build_key : EventInput → Result Error String
unfolding normalize_required
build_key input = do
  run ← normalize_required input.team_run_id "teamRunId"
  node ← normalize_required input.source_node_id "sourceNodeId"
  event ← normalize_required input.source_event_id "sourceEventId"
  ok (join "::" (run ∷ node ∷ event ∷ []))

-- The keys are distinct, so to delete each expired one is to keep the others.
unfoldable pub prune_expired : ℕ → Dict ℕ → Dict ℕ
prune_expired now m = filter (λ e. ltb now e.1) m

-- The oldest entry goes while the map is full; `!oldest` also holds of the empty key.
unfoldable pub ensure_capacity : ℕ → Dict ℕ → Dict ℕ
ensure_capacity most [] = []
ensure_capacity most ((k, e) ∷ m) =
    if leb most (suc (length m))
    then if str_eq k "" then (k, e) ∷ m else ensure_capacity most m
    else (k, e) ∷ m

-- `existingExpiry !== undefined && existingExpiry > nowMs`.
abbrev pub is_live : ℕ → Option ℕ → Bool
is_live now none = false
is_live now (some expiry) = ltb now expiry

-- The rest of `shouldDropDuplicate`, once the key is built.
unfoldable pub drop_key : EventDedup → String → ℕ → Bool × EventDedup
drop_key p key now =
    let pruned = prune_expired now p.expires_at_by_key in
    if is_live now (get pruned key) then (true, record p { expires_at_by_key = pruned }) else (
      false,
      record p {
        expires_at_by_key = set (ensure_capacity p.max_entries pruned) key (now + p.ttl_ms);
      },
    )

unfoldable pub should_drop_duplicate :
    EventDedup → EventInput → ℕ → Result Error (Bool × EventDedup)
should_drop_duplicate p input now = do key ← build_key input; ok (drop_key p key now)
