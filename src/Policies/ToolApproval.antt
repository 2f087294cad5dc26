-- ===== src/Policies/ToolApproval.antt =====
-- src/distributed/policies/tool-approval-concurrency-policy.ts: of the approvals of one tool call,
-- only that of the newest version is taken. Versions are natural numbers, so the test for an
-- integer is left out and `value <= 0` is `value = 0`.
pub mod Laws
mod Tests
use autobyteus_server_ts.Common.{
  ltb, ◌==◌, if◌then◌else◌, Result, ok, err, ◌>>=◌, or_throw, ℕ, String, Bool, true, Option, none,
  some, [], ◌∷◌,
}
use autobyteus_server_ts.Common.Text.{normalize, join}
use autobyteus_server_ts.Common.Dict.{Dict, get, set, delete}

pub record ToolApprovals : Type 0 where
  pub latest_version_by_invocation_key : Dict ℕ

pub data Error : Type 0 where
  empty_field : String → Error
  version_not_positive : Error
  missing_version : String → Error
  stale_version : (key : String) (expected actual : ℕ) → Error

unfoldable pub normalize_version : ℕ → Result Error ℕ
normalize_version v = if v == 0 then err version_not_positive else ok v

unfoldable pub build_invocation_key : String → String → Result Error String
build_invocation_key run invocation = do
  r ← or_throw (normalize run) (empty_field "teamRunId")
  i ← or_throw (normalize invocation) (empty_field "invocationId")
  ok (join "::" (r ∷ i ∷ []))

abbrev pub is_newer : ℕ → Option ℕ → Bool
is_newer v none = true
is_newer v (some existing) = ltb existing v

unfoldable pub register_key : ToolApprovals → String → ℕ → ToolApprovals
register_key p key v =
    let m = p.latest_version_by_invocation_key in
    if is_newer v (get m key) then record { latest_version_by_invocation_key = set m key v } else p

unfoldable pub register_pending_invocation :
    ToolApprovals → String → String → ℕ → Result Error ToolApprovals
register_pending_invocation p run invocation version = do
  key ← build_invocation_key run invocation
  v ← normalize_version version
  ok (register_key p key v)

unfoldable pub check_version : String → ℕ → ℕ → Result Error (Unit {0})
check_version key v expected = if v == expected then ok tt else err (stale_version key expected v)

unfoldable pub validate_key : ToolApprovals → String → ℕ → Result Error (Unit {0})
unfolding check_version
validate_key p key v = do
  expected ← or_throw (get p.latest_version_by_invocation_key key) (missing_version key)
  check_version key v expected

unfoldable pub validate_invocation_version :
    ToolApprovals → String → String → ℕ → Result Error (Unit {0})
validate_invocation_version p run invocation version = do
  key ← build_invocation_key run invocation
  v ← normalize_version version
  validate_key p key v

unfoldable pub complete_invocation : ToolApprovals → String → String → Result Error ToolApprovals
complete_invocation p run invocation = do
  key ← build_invocation_key run invocation
  ok (record { latest_version_by_invocation_key = delete p.latest_version_by_invocation_key key })
