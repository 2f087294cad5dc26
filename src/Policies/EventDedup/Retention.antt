-- ===== src/Policies/EventDedup/Retention.antt =====
-- How long an event stays remembered: until it expires, or until `max_entries` others have come.
use autobyteus_server_ts.Common.{
  ltb, lt→ltb, Bool-cases, Option-cases, ok, >>=-eq-ok, length, filter, All, length-filter-le,
  filter-All, ℕ, suc, ◌+◌, ◌≤◌, ◌<◌, String, ◌≡◌, refl, sym, ap, ◌∙◌, subst, ◌≢◌, ◌⊎◌, inl, inr,
  true, false, none, some, List, [], ◌∷◌, arith, str_eq_iff,
}
use autobyteus_server_ts.Common.Dict.{Dict, get, set, length-set, get-All}
use autobyteus_server_ts.Policies.EventDedup.{
  EventInput, EventDedup, build_key, prune_expired, ensure_capacity, is_live, drop_key,
  should_drop_duplicate,
}
use autobyteus_server_ts.Policies.EventDedup.Laws.{
  next, after, next_cases, after-limits, drop_key-limits,
}

-- The key stands in the map with this expiry, and at most `n` entries are younger.
abbrev Kept : String → ℕ → ℕ → Dict ℕ → Type 0
Kept k e n [] = ⊥
Kept k e n ((j, v) ∷ m) = ((j ≡ k) × (v ≡ e) × (length m ≤ n)) ⊎ ((j ≢ k) × Kept k e n m)

Kept-get : (k : String) (e n : ℕ) (m : Dict ℕ) → Kept k e n m → get m k ≡ some e
unfolding get
Kept-get k e n [] h = absurd h
Kept-get k e n ((j, v) ∷ m) h = ground (arith, str_eq_iff j k, Kept-get k e n m)

Kept-mono : (k : String) (e n n' : ℕ) (m : Dict ℕ) → n ≤ n' → Kept k e n m → Kept k e n' m
Kept-mono k e n n' [] l h = h
Kept-mono k e n n' ((j, v) ∷ m) l (inl (a, b, c)) = inl (a, b, omega arith)
Kept-mono k e n n' ((j, v) ∷ m) l (inr (a, b)) = inr (a, Kept-mono k e n n' m l b)

prune-Kept :
    (k : String) (e n now : ℕ) (m : Dict ℕ)
    → now < e
    → Kept k e n m
    → Kept k e n (prune_expired now m)
unfolding prune_expired
prune-Kept k e n now [] l h = h
prune-Kept k e n now ((j, v) ∷ m) l (inl (a, b, c)) =
    rw (lt→ltb now v (omega arith))
      (inl (a, b, omega (arith, length-filter-le (λ x. ltb now x.1) m)))
prune-Kept k e n now ((j, v) ∷ m) l (inr (a, b)) = elim (Bool-cases (ltb now v)) [
  | inl s ↦ rw s (inr (a, prune-Kept k e n now m l b))
  | inr s ↦ rw s (prune-Kept k e n now m l b)
]

capacity-Kept :
    (k : String) (e n most : ℕ) (m : Dict ℕ)
    → n + 1 < most
    → Kept k e n m
    → Kept k e n (ensure_capacity most m)
unfolding ensure_capacity
capacity-Kept k e n most [] l h = h
capacity-Kept k e n most ((j, v) ∷ m) l (inl (a, b, c)) = ground arith
capacity-Kept k e n most ((j, v) ∷ m) l (inr (a, b)) =
    ground (arith, capacity-Kept k e n most m l b)

set-Kept :
    (k j : String) (e n v : ℕ) (m : Dict ℕ) → j ≢ k → Kept k e n m → Kept k e (n + 1) (set m j v)
unfolding set
set-Kept k j e n v [] l h = absurd h
set-Kept k j e n v ((i, w) ∷ m) l (inl (a, b, c)) = ground (arith, str_eq_iff i j, length-set m j v)
set-Kept k j e n v ((i, w) ∷ m) l (inr (a, b)) =
    ground
      (arith, str_eq_iff i j, set-Kept k j e n v m l b, Kept-mono k e n (n + 1) m (omega arith) b)

set-Kept_new : (k : String) (e : ℕ) (m : Dict ℕ) → get m k ≡ none → Kept k e 0 (set m k e)
unfolding set get
set-Kept_new k e [] h = inl (refl, refl, omega arith)
set-Kept_new k e ((i, w) ∷ m) h = ground (arith, str_eq_iff i k, set-Kept_new k e m)

get-capacity_none :
    (most : ℕ) (m : Dict ℕ) (k : String) → get m k ≡ none → get (ensure_capacity most m) k ≡ none
unfolding ensure_capacity get
get-capacity_none most [] k h = refl
get-capacity_none most ((j, e) ∷ m) k h = ground (arith, get-capacity_none most m k)

-- What the pruned map holds is live.
prune-live :
    (now : ℕ) (m : Dict ℕ) (k : String)
    → is_live now (get (prune_expired now m) k) ≡ false
    → get (prune_expired now m) k ≡ none
unfolding prune_expired
prune-live now m k h = elim (Option-cases (get (filter (λ e. ltb now e.1) m) k)) [
  | inl gone ↦ gone
  | inr (e, found) ↦
      let live : ltb now e ≡ true =
        get-All (λ x. ltb now x.1 ≡ true) (filter (λ e. ltb now e.1) m) k e
          (filter-All (λ e. ltb now e.1) m) found in
      absurd (ground (arith, found))
]

-- A key that is taken is the youngest.
taken-Kept :
    (p : EventDedup) (k : String) (t : ℕ)
    → (drop_key p k t).0 ≡ false
    → Kept k (t + p.ttl_ms) 0 (drop_key p k t).1.expires_at_by_key
unfolding drop_key
taken-Kept p k t h = elim (Bool-cases (is_live t (get (prune_expired t p.expires_at_by_key) k))) [
  | inl live ↦ absurd (ground arith)
  | inr dead ↦ rw dead (
      set-Kept_new k (t + p.ttl_ms)
        (ensure_capacity p.max_entries (prune_expired t p.expires_at_by_key))
        (get-capacity_none p.max_entries (prune_expired t p.expires_at_by_key) k
          (prune-live t p.expires_at_by_key k dead)))
]

-- Any other event lets the key grow older by one place.
drop_key-Kept :
    (p : EventDedup) (k j : String) (e n now : ℕ)
    → now < e
    → n + 1 < p.max_entries
    → Kept k e n p.expires_at_by_key
    → Kept k e (n + 1) (drop_key p j now).1.expires_at_by_key
unfolding drop_key
drop_key-Kept p k j e n now l room h =
    elim (Bool-cases (is_live now (get (prune_expired now p.expires_at_by_key) j))) [
      | inl live ↦ rw live (Kept-mono k e n (n + 1) pruned (omega arith) still)
      | inr dead ↦ rw dead (
          set-Kept k j e n (now + p.ttl_ms) (ensure_capacity p.max_entries pruned)
            (λ same. cc (ap (is_live now) (Kept-get k e n pruned still), same, lt→ltb now e l))
            (capacity-Kept k e n p.max_entries pruned room still))
    ]
  where
    pruned : Dict ℕ
    pruned = prune_expired now p.expires_at_by_key

    still : Kept k e n pruned
    still = prune-Kept k e n now p.expires_at_by_key l h

drop_key-Kept_dropped :
    (p : EventDedup) (k : String) (e n now : ℕ)
    → now < e
    → Kept k e n p.expires_at_by_key
    → (drop_key p k now).0 ≡ true
unfolding drop_key
drop_key-Kept_dropped p k e n now l h = ground (
  arith,
  Kept-get k e n (prune_expired now p.expires_at_by_key)
      (prune-Kept k e n now p.expires_at_by_key l h),
)

after-Kept :
    (p : EventDedup) (k : String) (e : ℕ) (h : List (EventInput × ℕ))
    → Kept k e 0 p.expires_at_by_key
    → All (λ c. c.1 < e) h
    → length h < p.max_entries
    → Kept k e (length h) (after p h).expires_at_by_key
after-Kept p k e [] kept early room = kept
after-Kept p k e ((i, t) ∷ h) kept early room =
    let ih = after-Kept p k e h kept early.1 (omega arith) in
    let more : Kept k e (length h + 1)
        (next (after p h) (should_drop_duplicate (after p h) i t)).expires_at_by_key =
      next_cases (λ q. Kept k e (length h + 1) q.expires_at_by_key) (after p h) i t
        (Kept-mono k e (length h) (length h + 1) (after p h).expires_at_by_key (omega arith) ih)
        λ j ej.
          drop_key-Kept (after p h) k j e (length h) t early.0 (omega (arith, (after-limits p h).0))
            ih in
    Kept-mono k e (length h + 1) (suc (length h)) (after p ((i, t) ∷ h)).expires_at_by_key
      (omega arith) more

-- An event that was taken at `t` is dropped when it comes again before `t + ttl_ms`, if fewer than
-- `max_entries` calls came in between, none of them at or after that time.
pub taken-dropped :
    (p q : EventDedup) (i : EventInput) (t now : ℕ) (h : List (EventInput × ℕ))
    → should_drop_duplicate p i t ≡ ok (false, q)
    → All (λ c. c.1 < t + p.ttl_ms) h
    → length h < p.max_entries
    → now < t + p.ttl_ms
    → (r : EventDedup) × (should_drop_duplicate (after q h) i now ≡ ok (true, r))
unfolding should_drop_duplicate
taken-dropped p q i t now h taken early room soon =
    let (k, ek, first) = >>=-eq-ok (build_key i) _ taken in
    let fresh : (drop_key p k t).0 ≡ false = ground arith in
    let same : (drop_key p k t).1 ≡ q = ground arith in
    let start : Kept k (t + p.ttl_ms) 0 q.expires_at_by_key =
      subst (λ x. Kept k (t + p.ttl_ms) 0 x.expires_at_by_key) same (taken-Kept p k t fresh) in
    let bound : q.max_entries ≡ p.max_entries =
      ap (λ x. x.max_entries) (sym same) ∙ (drop_key-limits p k t).0 in
    let dropped =
      drop_key-Kept_dropped (after q h) k (t + p.ttl_ms) (length h) now soon
        (after-Kept q k (t + p.ttl_ms) h start early (omega arith)) in
    ((drop_key (after q h) k now).1, rw ek (ground (arith, dropped)))
