-- ===== src/Policies/ToolApproval/Laws.antt =====
-- The registry of pending tool calls keeps, for each call, the newest version that was registered.
use autobyteus_server_ts.Common.{
  ◌==◌, if◌then◌else◌, Option-cases, get_or, Result, ok, err, All, ℕ, ◌≤◌, max, String, ◌≡◌, sym,
  ap, ◌∙◌, ◌≢◌, ◌↔◌, inl, inr, none, some, List, [], ◌∷◌, arith,
}
use autobyteus_server_ts.Common.Dict.{get, delete, get-set_self, get-delete_self, get-delete_ne}
use autobyteus_server_ts.Policies.ToolApproval.{
  ToolApprovals, Error, missing_version, normalize_version, build_invocation_key, register_key,
  register_pending_invocation, validate_key, validate_invocation_version, complete_invocation,
}

-- The registry after versions of one call, newest last registered first in the list; a call that
-- throws changes nothing.
abbrev pub next : ToolApprovals → Result Error ToolApprovals → ToolApprovals
next p (ok q) = q
next p (err e) = p

abbrev pub register_all : ToolApprovals → String → String → List ℕ → ToolApprovals
register_all p run invocation [] = p
register_all p run invocation (v ∷ vs) =
    let before = register_all p run invocation vs in
    next before (register_pending_invocation before run invocation v)

abbrev pub newest : List ℕ → ℕ
newest [] = 0
newest (v ∷ vs) = max v (newest vs)

-- No version is 0.
abbrev pub stored : ToolApprovals → String → ℕ
stored p key = get_or (get p.latest_version_by_invocation_key key) 0

module _ (run invocation key : String) (keyed : build_invocation_key run invocation ≡ ok key) where
  register_lem :
      (p : ToolApprovals) (v : ℕ)
      → next p (register_pending_invocation p run invocation v)
        ≡ (if v == 0 then p else register_key p key v)
  unfolding register_pending_invocation normalize_version
  register_lem p v = rw keyed (ground arith)

  stored-register_key :
      (p : ToolApprovals) (v : ℕ)
      → 1 ≤ v
      → (get (register_key p key v).latest_version_by_invocation_key key)
        ≡ some (max v (stored p key))
  unfolding register_key
  stored-register_key p v l = elim (Option-cases (get p.latest_version_by_invocation_key key)) [
    | inl e ↦ rw (e, get-set_self p.latest_version_by_invocation_key key v) (ap some (omega arith))
    | inr (w, e) ↦ ground (arith, get-set_self p.latest_version_by_invocation_key key v)
  ]

  get-register_all :
      (p : ToolApprovals) (v : ℕ) (vs : List ℕ)
      → get p.latest_version_by_invocation_key key ≡ none
      → All (λ x. 1 ≤ x) (v ∷ vs)
      → get (register_all p run invocation (v ∷ vs)).latest_version_by_invocation_key key
        ≡ some (newest (v ∷ vs))
  get-register_all p v [] fresh pos =
      rw (register_lem p v) (ground (arith, stored-register_key p v pos.0))
  get-register_all p v (w ∷ vs) fresh pos =
      rw (register_lem (register_all p run invocation (w ∷ vs)) v) (
        ground (
          arith,
          stored-register_key (register_all p run invocation (w ∷ vs)) v pos.0,
          get-register_all p w vs fresh pos.1,
        ))

  -- However the versions of a pending call were registered, an approval passes exactly when it is
  -- for the newest of them.
  pub validate-register_all_iff :
      (p : ToolApprovals) (v : ℕ) (vs : List ℕ) (approved : ℕ)
      → get p.latest_version_by_invocation_key key ≡ none
      → All (λ x. 1 ≤ x) (v ∷ vs)
      → (validate_invocation_version
            (register_all p run invocation (v ∷ vs))
            run
            invocation
            approved
          ≡ ok tt)
        ↔ (approved ≡ newest (v ∷ vs))
  unfolding validate_invocation_version normalize_version validate_key
  validate-register_all_iff p v vs approved fresh pos =
      rw (keyed, get-register_all p v vs fresh pos) (ground arith)

  -- A call that is completed has no approval left, and completing it does not touch other calls.
  pub complete_invocation_lem :
      (p q : ToolApprovals) (version : ℕ) (other : String)
      → complete_invocation p run invocation ≡ ok q
      → 1 ≤ version
      → key ≢ other
      → (validate_invocation_version q run invocation version ≡ err (missing_version key))
        × (get q.latest_version_by_invocation_key other
            ≡ get p.latest_version_by_invocation_key other)
  unfolding complete_invocation validate_invocation_version normalize_version validate_key
  complete_invocation_lem p q version other done pos ne =
      let m = p.latest_version_by_invocation_key in
      let left : delete m key ≡ q.latest_version_by_invocation_key = ground (arith, keyed) in
      let gone : get q.latest_version_by_invocation_key key ≡ none =
        ap (λ x. get x key) (sym left) ∙ get-delete_self m key in
      (
        rw (keyed, gone) (ground arith),
        ap (λ x. get x other) (sym left) ∙ get-delete_ne m key other ne,
      )
