-- ===== src/Policies/Fencing.antt =====
-- src/distributed/policies/run-version-fencing-policy.ts: a command of an earlier run is refused and
-- an event of one is dropped. `resolveCurrentRunVersion` is a parameter, and so is JavaScript's
-- `String` on numbers, of which the laws use that it tells numbers apart.
mod Tests
use autobyteus_server_ts.Common.{
  if◌then◌else◌, Result, ok, err, ℕ, String, ◌≡◌, ap, ◌↔◌, Bool, true, false, not, Option, none,
  some, [], arith, str_eq, str_eq_iff,
}

-- `string | number`.
pub data RunVersion : Type 0 where
  text : String → RunVersion
  number : ℕ → RunVersion

pub data Error : Type 0 where
  missing_run_version : (team_run_id : String) → Error
  stale_run_version : (team_run_id : String) (expected actual : RunVersion) → Error

module _ (string_of_number : ℕ → String) (resolve_current : String → Option RunVersion) where
  abbrev pub to_text : RunVersion → String
  to_text (text s) = s
  to_text (number n) = string_of_number n

  unfoldable pub is_same_run_version : RunVersion → RunVersion → Bool
  is_same_run_version a b = str_eq (to_text a) (to_text b)

  unfoldable pub assert_current_run_version : String → RunVersion → Result Error (Unit {0})
  unfolding is_same_run_version
  assert_current_run_version run version = elim (resolve_current run) [
    | none ↦ err (missing_run_version run)
    | some current ↦
        if is_same_run_version current version
        then ok tt
        else err (stale_run_version run current version)
  ]

  unfoldable pub drop_if_stale : String → RunVersion → Bool
  unfolding is_same_run_version
  drop_if_stale run version = elim (resolve_current run) [
    | none ↦ true
    | some current ↦ not (is_same_run_version current version)
  ]

  -- The events of a version of a run are kept exactly when its commands pass.
  pub fencing_agrees :
      (run : String) (version : RunVersion)
      → ((drop_if_stale run version ≡ false) ↔ (assert_current_run_version run version ≡ ok tt))
  unfolding assert_current_run_version drop_if_stale
  fencing_agrees run version = ground arith

  -- Where the current version of a run is a number, a numeric version passes exactly when it is that
  -- number. It is assumed that different numbers have different texts.
  pub assert_current_run_version_iff :
      (run : String) (v n : ℕ)
      → ((a b : ℕ) → string_of_number a ≡ string_of_number b → a ≡ b)
      → resolve_current run ≡ some (number n)
      → ((assert_current_run_version run (number v) ≡ ok tt) ↔ (v ≡ n))
  unfolding assert_current_run_version
  assert_current_run_version_iff run v n tells current =
      ground (arith, str_eq_iff (string_of_number n) (string_of_number v), tells n v)
