-- ===== src/Policies/Fencing/Tests.antt =====
-- A run at version 2.
use autobyteus_server_ts.Common.{
  if◌then◌else◌, ok, ℕ, zero, suc, String, ◌≡◌, ◌↔◌, false, Option, none, some, str_eq,
}
use autobyteus_server_ts.Policies.Fencing.{
  RunVersion, text, number, assert_current_run_version, drop_if_stale, fencing_agrees,
}

-- Numbers in unary.
abbrev strokes : ℕ → String
strokes zero = ""
strokes (suc n) = String.◌∷◌ "|" (strokes n)

abbrev current : String → Option RunVersion
current run = if str_eq run "r" then some (number 2) else none

fencing_agrees_example :
    (drop_if_stale strokes current "r" (text "2") ≡ false)
    ↔ (assert_current_run_version strokes current "r" (text "2") ≡ ok tt)
fencing_agrees_example = fencing_agrees strokes current "r" (text "2")
