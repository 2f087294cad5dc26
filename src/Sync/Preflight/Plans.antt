-- ===== src/Sync/Preflight/Plans.antt =====
-- What holds of a plan that has passed the checks.
use autobyteus_server_ts.Sync.Preflight.{
  source_label, source_required, scope_empty, safe_normalize_base_url, targets_required,
  target_index, assert_source, assert_some, target_node, validate, target_incomplete,
  PreflightError, normalize_endpoint, assert_healthy, ValidatedPlan, normalize_targets, RunInput,
  assert_all_healthy, NodeEndpoint, assert_no_duplicates, RemoteClient, assert_distinct,
}
use autobyteus_server_ts.Common.{
  Bool-cases, Option-cases, ok, or_throw, >>=-eq-ok, or_throw-eq-ok, length, All, All-map, ℕ, suc,
  ◌≤◌, String, ◌≡◌, refl, sym, ap, ◌∙◌, subst, ◌≢◌, inl, inr, false, none, some, List, [], ◌∷◌,
  arith, str_eq, str_eq_iff,
}
use autobyteus_server_ts.Common.Text.{normalize, normalize-IsNormal, IsNormal-ne-nil}
use autobyteus_server_ts.Common.Dict.{Dict, get, set, get-set}

-- No two targets have one base URL.
abbrev pub HasDistinctUrls : List NodeEndpoint → Type 0
HasDistinctUrls [] = Unit {0}
HasDistinctUrls (t ∷ ts) = All (λ u. t.base_url ≢ u.base_url) ts × HasDistinctUrls ts

-- A target that definitions may be sent to.
abbrev pub IsTarget : RemoteClient → NodeEndpoint → NodeEndpoint → Type 0
IsTarget client source t =
    (t.node_id ≢ source.node_id)
    × (t.base_url ≢ source.base_url)
    × (client.check_health t.base_url ≡ none)

pub record IsSafe (client : RemoteClient) (input : RunInput) (plan : ValidatedPlan) : Type 0 where
  pub same_scope : plan.scope ≡ input.scope
  pub same_count : length plan.targets ≡ length input.targets
  pub some_target : 1 ≤ length plan.targets
  pub healthy_source : client.check_health plan.source.base_url ≡ none
  pub targets : All (IsTarget client plan.source) plan.targets
  pub distinct : HasDistinctUrls plan.targets

abbrev AreTexts : Dict String → Type 0
AreTexts seen = (k v : String) → get seen k ≡ some v → v ≢ ""

set-AreTexts :
    (seen : Dict String) (j w : String) → w ≢ "" → AreTexts seen → AreTexts (set seen j w)
set-AreTexts seen j w ne texts k v found = elim (Bool-cases (str_eq j k)) [
  | inl b ↦
      let same : some w ≡ some v = sym (rw b refl) ∙ sym (get-set seen j k w) ∙ found in
      λ e. ne (ground (arith, same, e))
  | inr b ↦ texts k v (sym (rw (get-set seen j k w, b) refl) ∙ found)
]

set-free :
    (seen : Dict String) (j k w : String)
    → get (set seen j w) k ≡ none
    → (j ≢ k) × (get seen k ≡ none)
set-free seen j k w h =
    (λ e. ground (arith, get-set seen j k w, str_eq_iff j k), ground (arith, get-set seen j k w))

assert_no_duplicates-distinct :
    (seen : Dict String) (ts : List NodeEndpoint) (u : Unit {0})
    → AreTexts seen
    → All (λ t. t.node_id ≢ "") ts
    → assert_no_duplicates seen ts ≡ ok u
    → All (λ t. get seen t.base_url ≡ none) ts × HasDistinctUrls ts
unfolding assert_no_duplicates
assert_no_duplicates-distinct seen [] u texts ids h = (tt, tt)
assert_no_duplicates-distinct seen (t ∷ ts) u texts (ne, ids) h =
    elim (Option-cases (get seen t.base_url)) [
      | inr (v, n) ↦
          let blank : str_eq v "" ≡ false = ground (arith, texts t.base_url v n, str_eq_iff v "") in
          absurd (cc (rw (n, blank, assert_no_duplicates) at h))
      | inl n ↦
          let (rest, distinct) =
            assert_no_duplicates-distinct (set seen t.base_url t.node_id) ts u
              (set-AreTexts seen t.base_url t.node_id ne texts) ids
              (rw (n, assert_no_duplicates) at h) in
          (
            (
              n,
              All-map _ _ (λ x free. (set-free seen t.base_url x.base_url t.node_id free).1) ts
                  rest,
            ),
            (
              All-map _ _ (λ x free. (set-free seen t.base_url x.base_url t.node_id free).0) ts
                  rest,
              distinct,
            ),
          )
    ]

module _ (client : RemoteClient) where
  normalize_targets-texts :
      (index : ℕ) (ts rs : List NodeEndpoint)
      → normalize_targets client index ts ≡ ok rs
      → All (λ t. t.node_id ≢ "") rs × (length rs ≡ length ts)
  unfolding normalize_targets normalize_endpoint
  normalize_targets-texts index [] rs h = ground (arith, h)
  normalize_targets-texts index (t ∷ ts) rs h =
      let (r, made, next) =
        >>=-eq-ok (normalize_endpoint client t (target_incomplete index) (target_index index)) _
          h in
      let (rest, made', last) = >>=-eq-ok (normalize_targets client (suc index) ts) _ next in
      let (id, named, next') =
        >>=-eq-ok (or_throw (normalize t.node_id) (target_incomplete index)) _ made in
      let (url, given, next'') =
        >>=-eq-ok (or_throw (normalize t.base_url) (target_incomplete index)) _ next' in
      let (url', normal, built) =
        >>=-eq-ok (safe_normalize_base_url client url (target_index index)) _ next'' in
      let ne : id ≢ "" =
        IsNormal-ne-nil id
          (normalize-IsNormal t.node_id id (or_throw-eq-ok (normalize t.node_id) _ named)) in
      let (texts, same) = normalize_targets-texts (suc index) ts rest made' in
      let same_id : id ≡ r.node_id = ground (arith, built) in
      let all : r ∷ rest ≡ rs = ground (arith, last) in
      subst (λ y. All (λ t. t.node_id ≢ "") y × (length y ≡ suc (length ts))) all
        ((subst (λ y. y ≢ "") same_id ne, texts), ap suc same)

  assert_all_healthy-healthy :
      (ts : List NodeEndpoint) (u : Unit {0})
      → assert_all_healthy client ts ≡ ok u
      → All (λ t. client.check_health t.base_url ≡ none) ts
  unfolding assert_all_healthy assert_healthy
  assert_all_healthy-healthy [] u h = tt
  assert_all_healthy-healthy (t ∷ ts) u h =
      let (v, first, rest) = >>=-eq-ok (assert_healthy client t (target_node t.node_id)) _ h in
      (ground (arith, first), assert_all_healthy-healthy ts u rest)

assert_distinct-distinct :
    (source : NodeEndpoint) (ts : List NodeEndpoint) (u : Unit {0})
    → assert_distinct source ts ≡ ok u
    → All (λ t. (t.node_id ≢ source.node_id) × (t.base_url ≢ source.base_url)) ts
unfolding assert_distinct
assert_distinct-distinct source [] u h = tt
assert_distinct-distinct source (t ∷ ts) u h = (
  (
    λ e. ground (arith, h, str_eq_iff t.node_id source.node_id),
    λ e. ground (arith, h, str_eq_iff t.base_url source.base_url),
  ),
  assert_distinct-distinct source ts u (ground (arith, h)),
)

targets-IsTarget :
    (client : RemoteClient) (source : NodeEndpoint) (ts : List NodeEndpoint)
    → All (λ t. (t.node_id ≢ source.node_id) × (t.base_url ≢ source.base_url)) ts
    → All (λ t. client.check_health t.base_url ≡ none) ts
    → All (IsTarget client source) ts
targets-IsTarget client source [] d h = tt
targets-IsTarget client source (t ∷ ts) ((a, b), d) (c, h) =
    ((a, b, c), targets-IsTarget client source ts d h)

assert_some-pos {ℓ} :
    {A : Type ℓ} (xs : List A) (e : PreflightError) (u : Unit {0})
    → assert_some xs e ≡ ok u
    → 1 ≤ length xs
assert_some-pos [] e u h = cc
assert_some-pos (x ∷ xs) e u h = omega arith

-- A plan that passes has targets, as many as were named; none of them is the source, by its id or its
-- URL, no two have one URL, and the source and all of them have answered the health check.
pub validate-IsSafe :
    (client : RemoteClient) (input : RunInput) (plan : ValidatedPlan)
    → validate client input ≡ ok plan
    → IsSafe client input plan
unfolding validate assert_healthy get
validate-IsSafe client input plan h =
    let (u1, e1, h1) = >>=-eq-ok (assert_source input.source) _ h in
    let (u2, e2, h2) = >>=-eq-ok (assert_some input.targets targets_required) _ h1 in
    let (u3, e3, h3) = >>=-eq-ok (assert_some input.scope scope_empty) _ h2 in
    let (source, e4, h4) =
      >>=-eq-ok (normalize_endpoint client input.source source_required source_label) _ h3 in
    let (targets, e5, h5) = >>=-eq-ok (normalize_targets client 0 input.targets) _ h4 in
    let (u4, e6, h6) = >>=-eq-ok (assert_distinct source targets) _ h5 in
    let (u5, e7, h7) = >>=-eq-ok (assert_no_duplicates [] targets) _ h6 in
    let (u6, e8, h8) = >>=-eq-ok (assert_healthy client source source_label) _ h7 in
    let (u7, e9, h9) = >>=-eq-ok (assert_all_healthy client targets) _ h8 in
    let (texts, count) = normalize_targets-texts client 0 input.targets targets e5 in
    let some_input = assert_some-pos input.targets targets_required u2 e2 in
    let made : ValidatedPlan = record input { source = source; targets = targets } in
    let same : made ≡ plan = ground (arith, h9) in
    subst (IsSafe client input) same (record {
      same_scope = refl;
      same_count = count;
      some_target = ground (arith, count, some_input);
      healthy_source = ground (arith, e8);
      targets =
          targets-IsTarget client source targets (assert_distinct-distinct source targets u4 e6)
            (assert_all_healthy-healthy client targets u7 e9);
      distinct = (assert_no_duplicates-distinct [] targets u5 (λ k v found. cc found) texts e7).1;
    })
