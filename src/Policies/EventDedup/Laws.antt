-- ===== src/Policies/EventDedup/Laws.antt =====
-- The map of seen events: its bound, and what is dropped.
use text.Mathlib.TextLemmas.{append-eq-nil_iff}
use autobyteus_server_ts.Common.{
  false, Bool-cases, Result, ok, err, >>=-eq-ok, or_throw-eq-ok, Result-cases, length, All,
  length-filter-le, All-map, ℕ, suc, ◌+◌, ◌≤◌, ◌<◌, String, ◌≡◌, refl, sym, ap, ◌≢◌, ◌⊎◌, inl, inr,
  Bool, true, none, some, List, [], ◌∷◌, arith, str_eq_iff,
}
use autobyteus_server_ts.Common.Text.{normalize, normalize-IsNormal, IsNormal-ne-nil, join}
use autobyteus_server_ts.Common.Dict.{
  Dict, get, IsDistinct, set-IsDistinct, length-set, get-All, set-All,
}
use autobyteus_server_ts.Policies.EventDedup.{
  EventInput, EventDedup, Error, empty_field, build_key, prune_expired, ensure_capacity,
  normalize_required, is_live, drop_key, should_drop_duplicate,
}

-- The state after a call; a call that throws changes nothing.
abbrev pub next : EventDedup → Result Error (Bool × EventDedup) → EventDedup
next p (ok (dropped, q)) = q
next p (err e) = p

-- The state after calls, newest first.
abbrev pub after : EventDedup → List (EventInput × ℕ) → EventDedup
after p [] = p
after p ((i, t) ∷ h) = next (after p h) (should_drop_duplicate (after p h) i t)

join-ne-nil : (s : String) (ts : List String) → s ≢ "" → join "::" (s ∷ ts) ≢ ""
unfolding join
join-ne-nil s [] h e = h e
join-ne-nil s (t ∷ ts) h e = h ((append-eq-nil_iff {p = s}).0 e).0

normalize_required-eq-ok : (s f t : String) → normalize_required s f ≡ ok t → normalize s ≡ some t
unfolding normalize_required
normalize_required-eq-ok s f t h = or_throw-eq-ok (normalize s) (empty_field f) h

pub build_key-ne-nil : (i : EventInput) (k : String) → build_key i ≡ ok k → k ≢ ""
unfolding build_key
build_key-ne-nil i k h =
    let (r, er, h1) = >>=-eq-ok (normalize_required i.team_run_id "teamRunId") _ h in
    let (n, en, h2) = >>=-eq-ok (normalize_required i.source_node_id "sourceNodeId") _ h1 in
    let (e, ee, h3) = >>=-eq-ok (normalize_required i.source_event_id "sourceEventId") _ h2 in
    let named =
      normalize-IsNormal i.team_run_id r (normalize_required-eq-ok i.team_run_id _ r er) in
    λ empty. join-ne-nil r (n ∷ e ∷ []) (IsNormal-ne-nil r named) (ground arith)

-- At most `max_entries` events are remembered, none under an empty key.
pub record IsBounded (p : EventDedup) : Type 0 where
  pub named : All (λ e. e.0 ≢ "") p.expires_at_by_key
  pub distinct : IsDistinct p.expires_at_by_key
  pub within : length p.expires_at_by_key ≤ p.max_entries

filter-sub {κ} :
    (P : String × ℕ → Type κ) (now : ℕ) (m : Dict ℕ) → All P m → All P (prune_expired now m)
unfolding prune_expired
filter-sub P now [] h = tt
filter-sub P now (e ∷ m) h = ground (arith, filter-sub P now m h.1)

get-prune_none :
    (now : ℕ) (m : Dict ℕ) (k : String) → get m k ≡ none → get (prune_expired now m) k ≡ none
unfolding prune_expired get
get-prune_none now [] k h = refl
get-prune_none now ((j, e) ∷ m) k h = ground (arith, get-prune_none now m k)

prune-IsDistinct : (now : ℕ) (m : Dict ℕ) → IsDistinct m → IsDistinct (prune_expired now m)
unfolding prune_expired
prune-IsDistinct now [] h = tt
prune-IsDistinct now ((j, e) ∷ m) h =
    ground (arith, get-prune_none now m j h.0, prune-IsDistinct now m h.1)

capacity-All {κ} :
    (P : String × ℕ → Type κ) (most : ℕ) (m : Dict ℕ) → All P m → All P (ensure_capacity most m)
unfolding ensure_capacity
capacity-All P most [] h = tt
capacity-All P most ((k, e) ∷ m) h = ground (arith, capacity-All P most m h.1)

capacity-IsDistinct : (most : ℕ) (m : Dict ℕ) → IsDistinct m → IsDistinct (ensure_capacity most m)
unfolding ensure_capacity
capacity-IsDistinct most [] h = tt
capacity-IsDistinct most ((k, e) ∷ m) h = ground (arith, capacity-IsDistinct most m h.1)

-- There is room for one more afterwards.
capacity-lt :
    (most : ℕ) (m : Dict ℕ)
    → All (λ e. e.0 ≢ "") m
    → 1 ≤ most
    → suc (length (ensure_capacity most m)) ≤ most
unfolding ensure_capacity
capacity-lt most [] h l = omega arith
capacity-lt most ((k, e) ∷ m) h l = ground (arith, str_eq_iff k "", capacity-lt most m h.1 l)

prune-length : (now : ℕ) (m : Dict ℕ) → length (prune_expired now m) ≤ length m
unfolding prune_expired
prune-length now m = length-filter-le _ m

drop_key-IsBounded :
    (p : EventDedup) (k : String) (now : ℕ)
    → k ≢ ""
    → 1 ≤ p.max_entries
    → IsBounded p
    → IsBounded (drop_key p k now).1
unfolding drop_key
drop_key-IsBounded p k now ne l b =
    elim (Bool-cases (is_live now (get (prune_expired now p.expires_at_by_key) k))) [
      | inl live ↦
          rw (live, drop_key) (record { named = named; distinct = distinct; within = fits })
      | inr dead ↦
          rw (dead, drop_key)
            (record {
              named =
                  set-All _ (ensure_capacity p.max_entries pruned) k (now + p.ttl_ms)
                    (capacity-All _ p.max_entries pruned named) ne;
              distinct =
                  set-IsDistinct (ensure_capacity p.max_entries pruned) k (now + p.ttl_ms)
                    (capacity-IsDistinct p.max_entries pruned distinct);
              within = ground (
                arith,
                length-set (ensure_capacity p.max_entries pruned) k (now + p.ttl_ms),
                capacity-lt p.max_entries pruned named l,
              );
            })
    ]
  where
    pruned : Dict ℕ
    pruned = prune_expired now p.expires_at_by_key

    named : All (λ e. e.0 ≢ "") pruned
    named = filter-sub (λ e. e.0 ≢ "") now p.expires_at_by_key b.named

    distinct : IsDistinct pruned
    distinct = prune-IsDistinct now p.expires_at_by_key b.distinct

    fits : length pruned ≤ p.max_entries
    fits = omega (arith, prune-length now p.expires_at_by_key, b.within)

pub drop_key-limits :
    (p : EventDedup) (k : String) (now : ℕ)
    → ((drop_key p k now).1.max_entries ≡ p.max_entries) × ((drop_key p k now).1.ttl_ms ≡ p.ttl_ms)
unfolding drop_key
drop_key-limits p k now = ground arith

-- A call that throws leaves the state alone, and any other has a key.
pub next_cases {ℓ} :
    (P : EventDedup → Type ℓ) (p : EventDedup) (i : EventInput) (t : ℕ)
    → P p
    → ((k : String) → build_key i ≡ ok k → P (drop_key p k t).1)
    → P (next p (should_drop_duplicate p i t))
unfolding should_drop_duplicate
next_cases P p i t thrown keyed = elim (Result-cases (build_key i)) [
  | inl (k, e) ↦ rw (e, should_drop_duplicate) (keyed k e)
  | inr (x, e) ↦ rw (e, should_drop_duplicate) thrown
]

pub after-limits :
    (p : EventDedup) (h : List (EventInput × ℕ))
    → ((after p h).max_entries ≡ p.max_entries) × ((after p h).ttl_ms ≡ p.ttl_ms)
after-limits p [] = (refl, refl)
after-limits p ((i, t) ∷ h) =
    next_cases (λ q. (q.max_entries ≡ p.max_entries) × (q.ttl_ms ≡ p.ttl_ms)) (after p h) i t
      (after-limits p h) λ k e. ground (arith, drop_key-limits (after p h) k t, after-limits p h)

-- Whatever events come, in whatever order and at whatever times, at most `max_entries` keys are
-- remembered, each once, if there is room for one.
pub after-IsBounded :
    (p : EventDedup) (h : List (EventInput × ℕ))
    → 1 ≤ p.max_entries
    → IsBounded p
    → IsBounded (after p h)
after-IsBounded p [] l b = b
after-IsBounded p ((i, t) ∷ h) l b =
    next_cases IsBounded (after p h) i t (after-IsBounded p h l b) λ k e.
      drop_key-IsBounded (after p h) k t (build_key-ne-nil i k e)
        (omega (arith, (after-limits p h).0, l)) (after-IsBounded p h l b)

-- The key was taken in `h`, by a call that did not drop it, for a time that ends at `expiry`.
abbrev pub Taken : EventDedup → String → ℕ → List (EventInput × ℕ) → Type 0
Taken p k expiry [] = ⊥
Taken p k expiry ((i, t) ∷ h) =
    ((q : EventDedup) × (should_drop_duplicate (after p h) i t ≡ ok (false, q))
      × (build_key i ≡ ok k)
      × (t + p.ttl_ms ≡ expiry))
    ⊎ Taken p k expiry h

drop_key-All :
    (P : String × ℕ → Type 0) (p : EventDedup) (k : String) (now : ℕ)
    → All P p.expires_at_by_key
    → ((drop_key p k now).0 ≡ false → P (k, now + p.ttl_ms))
    → All P (drop_key p k now).1.expires_at_by_key
unfolding drop_key
drop_key-All P p k now h new =
    let old = filter-sub P now p.expires_at_by_key h in
    elim (Bool-cases (is_live now (get (prune_expired now p.expires_at_by_key) k))) [
      | inl live ↦ rw (live, drop_key) old
      | inr dead ↦
          rw (dead, drop_key)
            (set-All P (ensure_capacity p.max_entries (prune_expired now p.expires_at_by_key)) k
              (now + p.ttl_ms)
              (capacity-All P p.max_entries (prune_expired now p.expires_at_by_key) old)
              (new (rw (dead, drop_key) refl)))
    ]

after-Taken :
    (p : EventDedup) (h : List (EventInput × ℕ))
    → p.expires_at_by_key ≡ []
    → All (λ e. Taken p e.0 e.1 h) (after p h).expires_at_by_key
unfolding should_drop_duplicate
after-Taken p [] fresh = rw fresh tt
after-Taken p ((i, t) ∷ h) fresh =
    let old =
      All-map (λ e. Taken p e.0 e.1 h) (λ e. Taken p e.0 e.1 ((i, t) ∷ h)) (λ e. inr)
        (after p h).expires_at_by_key (after-Taken p h fresh) in
    next_cases (λ q. All (λ e. Taken p e.0 e.1 ((i, t) ∷ h)) q.expires_at_by_key) (after p h) i t
      old
      λ k e.
        drop_key-All (λ e. Taken p e.0 e.1 ((i, t) ∷ h)) (after p h) k t old
          (λ taken. inl (
            (drop_key (after p h) k t).1,
            rw e (ap (λ x. ok (x, (drop_key (after p h) k t).1)) taken),
            e,
            ap (λ d. t + d) (sym (after-limits p h).1),
          ))

drop_key-live :
    (p : EventDedup) (k : String) (now : ℕ)
    → (drop_key p k now).0 ≡ true
    → (e : ℕ) × (get (prune_expired now p.expires_at_by_key) k ≡ some e) × (now < e)
unfolding drop_key
drop_key-live p k now h = ground arith

-- An event is dropped only if one with the same key was taken before, by a call that did not drop
-- it, less than `ttl_ms` ago: a dropped event does not prolong the time.
pub dropped-Taken :
    (p q : EventDedup) (h : List (EventInput × ℕ)) (i : EventInput) (now : ℕ)
    → p.expires_at_by_key ≡ []
    → should_drop_duplicate (after p h) i now ≡ ok (true, q)
    → (k : String) × (e : ℕ) × (build_key i ≡ ok k) × Taken p k e h × (now < e)
unfolding should_drop_duplicate
dropped-Taken p q h i now fresh d =
    let (k, ek, dropped) = >>=-eq-ok (build_key i) _ d in
    let (e, found, live) = drop_key-live (after p h) k now (ground arith) in
    (
      k,
      e,
      ek,
      get-All (λ x. Taken p x.0 x.1 h) (prune_expired now (after p h).expires_at_by_key) k e
          (filter-sub _ now (after p h).expires_at_by_key (after-Taken p h fresh)) found,
      live,
    )
