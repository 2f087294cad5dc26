-- ===== src/Discovery/Merge.antt =====
-- A snapshot of another registry is merged: what becomes of the nodes known before.
use autobyteus_server_ts.Common.{
  Option, not, ◌&&◌, false, refl, Bool-cases, Option-cases, ok, >>=-eq-ok, All, String, ◌≡◌, sym,
  ◌⊎◌, inl, inr, true, none, some, List, [], ◌∷◌, arith, str_eq, str_eq_iff,
}
use autobyteus_server_ts.Common.Dict.{
  has, Dict, get, set, get-set, IsDistinct, set-IsDistinct, set-All, contains,
}
use autobyteus_server_ts.Discovery.{
  emit_change, ChangeEvent, keep_protected, missing_ids, rekey, merge_peers, DiscoveryPeerRecord,
  Platform, NodeDiscoveryRegistry, normalize_required, normalize_base_url, normalize_peer,
  protected_record, collect_peers,
}
use autobyteus_server_ts.Discovery.Laws.{IsRegistry}

-- The map under construction: ids once, each its record's own.
abbrev IsKeyed : Dict DiscoveryPeerRecord → Type 0
IsKeyed m = IsDistinct m × All (λ e. e.1.node_id ≡ e.0) m

-- A node's record there is the one given, if it has one.
abbrev AtMost : Dict DiscoveryPeerRecord → String → DiscoveryPeerRecord → Type 0
AtMost m id old = (get m id ≡ none) ⊎ (get m id ≡ some old)

set-IsKeyed :
    (m : Dict DiscoveryPeerRecord) (id : String) (peer : DiscoveryPeerRecord)
    → peer.node_id ≡ id
    → IsKeyed m
    → IsKeyed (set m id peer)
set-IsKeyed m id peer e (d, k) = (set-IsDistinct m id peer d, set-All _ m id peer k e)

set-AtMost :
    (m : Dict DiscoveryPeerRecord) (id j : String) (old peer : DiscoveryPeerRecord)
    → AtMost m id old
    → (j ≡ id → peer ≡ old)
    → AtMost (set m j peer) id old
set-AtMost m id j old peer h same = elim (Bool-cases (str_eq j id)) [
  | inl e ↦ inr (ground (arith, get-set m j id peer, e, same ((str_eq_iff j id).0 e)))
  | inr e ↦ ground (arith, get-set m j id peer, e)
]

normalize_peer-id :
    (p : Platform) (peer next : DiscoveryPeerRecord) (id now_iso : String)
    → normalize_peer p peer id now_iso ≡ ok next
    → next.node_id ≡ id
unfolding normalize_peer
normalize_peer-id p peer next id now_iso h =
    let (name, e, h1) = >>=-eq-ok (normalize_required peer.node_name "peer.nodeName") _ h in
    let (url, e2, h2) = >>=-eq-ok (normalize_base_url p peer.base_url) _ h1 in ground (arith, h2)

-- What one peer of the snapshot is taken over as.
taken-lem :
    (p : Platform) (r : NodeDiscoveryRegistry) (peer taken old : DiscoveryPeerRecord)
    (j id now_iso : String)
    → IsRegistry r
    → contains r.protected_node_ids id ≡ true
    → get r.by_node_id id ≡ some old
    → (elim (protected_record r j) [ some old ↦ ok old | none ↦ normalize_peer p peer j now_iso ])
      ≡ ok taken
    → (taken.node_id ≡ j) × (j ≡ id → taken ≡ old)
unfolding protected_record
taken-lem p r peer taken old j id now_iso c guarded found h =
    elim (Option-cases (protected_record r j)) [
      | inl e ↦
          let h1 = rw e at h in
          (
            normalize_peer-id p peer taken j now_iso h1,
            λ same. absurd (ground (arith, same, e, guarded, found)),
          )
      | inr (x, e) ↦
          let h1 = rw e at h in
          (ground (arith, h1, e, c.keyed j x), λ same. ground (arith, h1, e, same, guarded, found))
    ]

collect_peers-lem :
    (p : Platform) (r : NodeDiscoveryRegistry) (peers : List DiscoveryPeerRecord) (now_iso : String)
    (m next : Dict DiscoveryPeerRecord) (id : String) (old : DiscoveryPeerRecord)
    → IsRegistry r
    → contains r.protected_node_ids id ≡ true
    → get r.by_node_id id ≡ some old
    → collect_peers p r peers now_iso m ≡ ok next
    → IsKeyed m
    → AtMost m id old
    → IsKeyed next × AtMost next id old
unfolding collect_peers
collect_peers-lem p r [] now_iso m next id old c guarded found h k a =
    let same : m ≡ next = ground (arith, h) in (rw (sym same) k, rw (sym same) a)
collect_peers-lem p r (peer ∷ peers) now_iso m next id old c guarded found h k a =
    let (j, e1, h1) = >>=-eq-ok (normalize_required peer.node_id "peer.nodeId") _ h in
    let (taken, e2, h2) =
      >>=-eq-ok
        (elim (protected_record r j) [ some old ↦ ok old | none ↦ normalize_peer p peer j now_iso ])
        _ h1 in
    let (own, same) = taken-lem p r peer taken old j id now_iso c guarded found e2 in
    collect_peers-lem p r peers now_iso (set m j taken) next id old c guarded found h2
      (set-IsKeyed m j taken own k) (set-AtMost m id j old taken a same)

keep_protected-stays :
    (ids : List String) (m next : Dict DiscoveryPeerRecord) (id : String)
    (old : DiscoveryPeerRecord)
    → get next id ≡ some old
    → get (keep_protected ids m next) id ≡ some old
unfolding keep_protected
keep_protected-stays ids [] next id old h = h
keep_protected-stays ids ((j, x) ∷ m) next id old h =
    keep_protected-stays ids m _ id old (ground (arith, get-set next j id x, str_eq_iff j id, h))

-- A protected node that the snapshot leaves out, or gives as it was, is there as it was.
keep_protected-found :
    (ids : List String) (m next : Dict DiscoveryPeerRecord) (id : String)
    (old : DiscoveryPeerRecord)
    → contains ids id ≡ true
    → get m id ≡ some old
    → AtMost next id old
    → get (keep_protected ids m next) id ≡ some old
unfolding keep_protected get
keep_protected-found ids [] next id old guarded found a = absurd (cc found)
keep_protected-found ids ((j, x) ∷ m) next id old guarded found a =
    elim (Bool-cases (str_eq j id)) [
      | inl e ↦
          keep_protected-stays ids m _ id old
            (ground (arith, get-set next j id x, str_eq_iff j id, e, found, a, guarded))
      | inr e ↦
          keep_protected-found ids m _ id old guarded (ground (arith, e, found))
            (ground (arith, get-set next j id x, e, a))
    ]

keep_protected-IsKeyed :
    (ids : List String) (m next : Dict DiscoveryPeerRecord)
    → All (λ e. e.1.node_id ≡ e.0) m
    → IsKeyed next
    → IsKeyed (keep_protected ids m next)
unfolding keep_protected
keep_protected-IsKeyed ids [] next h k = k
keep_protected-IsKeyed ids ((j, x) ∷ m) next h k =
    keep_protected-IsKeyed ids m _ h.1 (elim (Bool-cases (contains ids j && not (has next j))) [
      | inl e ↦ rw e (set-IsKeyed next j x h.0 k)
      | inr e ↦ rw e k
    ])

All-get :
    (m : Dict DiscoveryPeerRecord)
    → IsDistinct m
    → ((id : String) (peer : DiscoveryPeerRecord) → get m id ≡ some peer → peer.node_id ≡ id)
    → All (λ e. e.1.node_id ≡ e.0) m
unfolding get
All-get [] d h = tt
All-get ((j, x) ∷ m) d h = (
  h j x (ground (arith, str_eq_iff j j)),
  All-get m d.1 (λ id peer e. h id peer (ground (arith, str_eq_iff j id, e, d.0))),
)

abbrev or_else :
    Option DiscoveryPeerRecord → Option DiscoveryPeerRecord → Option DiscoveryPeerRecord
or_else none o = o
or_else (some x) o = some x

-- Where each record stands under its own id, to key the records again changes nothing.
get-rekey :
    (next m : Dict DiscoveryPeerRecord) (id : String)
    → IsKeyed next
    → get (rekey next m) id ≡ or_else (get next id) (get m id)
unfolding rekey get
get-rekey [] m id k = refl
get-rekey ((j, x) ∷ next) m id k = ground (
  arith,
  get-rekey next (set m x.node_id x) id (k.0.1, k.1.1),
  get-set m x.node_id id x,
  str_eq_iff j id,
  k,
)

contains-missing_ids :
    (m next : Dict DiscoveryPeerRecord) (id : String)
    → has next id ≡ true
    → contains (missing_ids m next) id ≡ false
unfolding missing_ids
contains-missing_ids [] next id h = refl
contains-missing_ids ((j, x) ∷ m) next id h =
    ground (arith, contains-missing_ids m next id h, str_eq_iff j id)

-- A merge leaves the record of every protected node as it was, whether the snapshot leaves it out
-- or tells something else of it, and does not report it as pruned.
pub merge_peers-protected :
    (p : Platform) (r next : NodeDiscoveryRegistry) (peers : List DiscoveryPeerRecord)
    (now_iso : String) (event : ChangeEvent) (id : String) (old : DiscoveryPeerRecord)
    → IsRegistry r
    → contains r.protected_node_ids id ≡ true
    → get r.by_node_id id ≡ some old
    → merge_peers p r peers now_iso ≡ ok (next, event)
    → (get next.by_node_id id ≡ some old) × (contains event.pruned_node_ids id ≡ false)
unfolding merge_peers emit_change
merge_peers-protected p r next peers now_iso event id old c guarded found h =
    let (named, e, h1) = >>=-eq-ok (collect_peers p r peers now_iso []) _ h in
    let (keyed, at_most) =
      collect_peers-lem p r peers now_iso [] named id old c guarded found e (tt, tt)
        (inl (unfold get in refl)) in
    let kept = keep_protected r.protected_node_ids r.by_node_id named in
    let there : get kept id ≡ some old =
      keep_protected-found r.protected_node_ids r.by_node_id named id old guarded found at_most in
    let all =
      keep_protected-IsKeyed r.protected_node_ids r.by_node_id named
        (All-get r.by_node_id c.distinct c.keyed) keyed in
    let rekeyed = get-rekey kept [] id all in
    let missing = contains-missing_ids r.by_node_id kept id (rw there refl) in
    let merged : next ≡ record r { by_node_id = rekey kept [] } = ground (arith, h1) in
    let pruned : event.pruned_node_ids ≡ missing_ids r.by_node_id kept = ground (arith, h1) in
    (rw (merged, rekeyed, there) refl, rw pruned missing)
