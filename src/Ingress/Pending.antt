-- ===== src/Ingress/Pending.antt =====
-- What becomes of the pending calls as calls are completed and registered.
use autobyteus_server_ts.Common.{
  ok-injective, ◌≤◌, none, Option-cases, inl, inr, ◌≢◌, ok, >>=-eq-ok, ℕ, String, ◌≡◌, sym, ap, ◌∙◌,
  some, arith,
}
use autobyteus_server_ts.Common.Dict.{get-set_self, get-set_ne, get-delete, get}
use autobyteus_server_ts.Policies.ToolApproval.{
  register_key, register_pending_invocation, ToolApprovals, build_invocation_key, normalize_version,
  complete_invocation,
}

-- What becomes of the pending calls, as long as the call of `key` is not registered again: calls are
-- completed, and other calls are registered.
pub data Later (p : ToolApprovals) (key : String) : ToolApprovals → Type 0 where
  here : Later p key p
  completed :
      {q r : ToolApprovals} (run invocation : String)
      → Later p key q
      → complete_invocation q run invocation ≡ ok r
      → Later p key r
  registered :
      {q r : ToolApprovals} (run invocation : String) (version : ℕ)
      → Later p key q
      → build_invocation_key run invocation ≢ ok key
      → register_pending_invocation q run invocation version ≡ ok r
      → Later p key r

completed-absent :
    (q r : ToolApprovals) (key run invocation : String)
    → complete_invocation q run invocation ≡ ok r
    → get q.latest_version_by_invocation_key key ≡ none
    → get r.latest_version_by_invocation_key key ≡ none
unfolding complete_invocation
completed-absent q r key run invocation e h =
    let (other, keyed, made) = >>=-eq-ok (build_invocation_key run invocation) _ e in
    ap (λ x. get x.latest_version_by_invocation_key key) (sym (ok-injective _ r made))
    ∙ ground (arith, get-delete q.latest_version_by_invocation_key other key, h)

registered-absent :
    (q r : ToolApprovals) (key run invocation : String) (version : ℕ)
    → build_invocation_key run invocation ≢ ok key
    → register_pending_invocation q run invocation version ≡ ok r
    → get q.latest_version_by_invocation_key key ≡ none
    → get r.latest_version_by_invocation_key key ≡ none
unfolding register_pending_invocation register_key
registered-absent q r key run invocation version ne e h =
    let (other, keyed, e1) = >>=-eq-ok (build_invocation_key run invocation) _ e in
    let (v, positive, made) = >>=-eq-ok (normalize_version version) _ e1 in
    let differs : other ≢ key = λ same. ne (keyed ∙ ap ok same) in
    ap (λ x. get x.latest_version_by_invocation_key key) (sym (ok-injective _ r made))
    ∙ ground (arith, get-set_ne q.latest_version_by_invocation_key other key v differs, h)

pub Later-absent :
    {p : ToolApprovals} (key : String) {q : ToolApprovals}
    → Later p key q
    → get p.latest_version_by_invocation_key key ≡ none
    → get q.latest_version_by_invocation_key key ≡ none
Later-absent key here h = h
Later-absent key (completed {q} {r} run invocation before e) h =
    completed-absent q r key run invocation e (Later-absent key before h)
Later-absent key (registered {q} {r} run invocation version before ne e) h =
    registered-absent q r key run invocation version ne e (Later-absent key before h)

pub get-register_key :
    (p : ToolApprovals) (key : String) (version : ℕ)
    → ((v : ℕ) → get p.latest_version_by_invocation_key key ≡ some v → v ≤ version)
    → get (register_key p key version).latest_version_by_invocation_key key ≡ some version
unfolding register_key
get-register_key p key version newest =
    let m = p.latest_version_by_invocation_key in
    elim (Option-cases (get m key)) [
      | inl e ↦ ground (arith, e, get-set_self m key version)
      | inr (v, e) ↦ let l = newest v e in ground (arith, e, l, get-set_self m key version)
    ]
