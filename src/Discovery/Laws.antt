-- ===== src/Discovery/Laws.antt =====
-- What announcements, heartbeats, ticks and merges keep true of the registry.
use autobyteus_server_ts.Common.{
  ℕ, ◌≢◌, List, [], Option-cases, get_or, ok, >>=-eq-ok, or_throw-eq-ok, find, ℕ, String, ◌≡◌, sym,
  ◌∙◌, subst, ◌↔◌, inl, inr, Bool, false, Option, none, some, List, [], ◌∷◌, arith, str_eq_iff,
}
use autobyteus_server_ts.Common.Text.{normalize, normalize_optional}
use autobyteus_server_ts.Common.Dict.{
  get-set_self, get-set_ne, Dict, get, set, values, get-set, IsDistinct, set-IsDistinct,
}
use autobyteus_server_ts.Discovery.{
  new_registry, normalize_all, DiscoveryPeerRecord, ready, UpsertPeerInput, empty_field,
  ChangeEvent, Platform, NodeDiscoveryRegistry, normalize_required, normalize_base_url,
  check_conflicts, has_other_url, is_taken_by_other, insert_peer, sort_peers, list_peers, announce,
  heartbeat, tick_entry, tick_maintenance,
}
use autobyteus_server_ts.Discovery.Ticks.{get-tick_entries, tick_entries-IsDistinct}

-- Each node stands under its own id, once, and no two nodes have the same base URL.
pub record IsRegistry (r : NodeDiscoveryRegistry) : Type 0 where
  pub distinct : IsDistinct r.by_node_id
  pub keyed :
      (id : String) (peer : DiscoveryPeerRecord)
      → get r.by_node_id id ≡ some peer
      → peer.node_id ≡ id
  pub urls :
      (a b : String) (s t : DiscoveryPeerRecord)
      → get r.by_node_id a ≡ some s
      → get r.by_node_id b ≡ some t
      → s.base_url ≡ t.base_url
      → a ≡ b

-- If no peer of a sorted list is taken by another, none of the map's values is.
insert_peer-find :
    (p : Platform) (f : DiscoveryPeerRecord → Bool) (s : DiscoveryPeerRecord)
    (ss : List DiscoveryPeerRecord)
    → find f (insert_peer p s ss) ≡ none
    → (f s ≡ false) × (find f ss ≡ none)
unfolding insert_peer
insert_peer-find p f s [] h = ground arith
insert_peer-find p f s (t ∷ ss) h = ground (arith, insert_peer-find p f s ss)

sort_peers-find :
    (p : Platform) (f : DiscoveryPeerRecord → Bool) (m : Dict DiscoveryPeerRecord) (id : String)
    (peer : DiscoveryPeerRecord)
    → find f (sort_peers p (values m)) ≡ none
    → get m id ≡ some peer
    → f peer ≡ false
unfolding sort_peers get
sort_peers-find p f [] id peer h e = cc
sort_peers-find p f ((j, s) ∷ m) id peer h e =
    ground
      (arith, insert_peer-find p f s (sort_peers p (values m)) h, sort_peers-find p f m id peer)

-- An id and a base URL without conflict.
check_conflicts-ok :
    (p : Platform) (r : NodeDiscoveryRegistry) (id url : String) (u : Unit {0}) (a : String)
    (peer : DiscoveryPeerRecord)
    → IsRegistry r
    → check_conflicts p r id url ≡ ok u
    → get r.by_node_id a ≡ some peer
    → ((peer.base_url ≡ url) ↔ (a ≡ id))
unfolding check_conflicts list_peers
check_conflicts-ok p r id url u a peer c h e =
    elim (Option-cases (has_other_url (get r.by_node_id id) url)) [
      | inr (old, x) ↦ absurd (cc (rw (x, check_conflicts) at h))
      | inl x ↦ elim (Option-cases (find (is_taken_by_other url id) (list_peers p r))) [
        | inr (owner, y) ↦ absurd (cc (rw (x, y, check_conflicts) at h))
        | inl y ↦ ground (
          arith,
          sort_peers-find p (is_taken_by_other url id) r.by_node_id a peer y e,
          c.keyed a peer e,
          str_eq_iff peer.base_url url,
          str_eq_iff peer.node_id id,
        )
      ]
    ]

announce-parts :
    (p : Platform) (r next : NodeDiscoveryRegistry) (input : UpsertPeerInput) (now_iso : String)
    (peer : DiscoveryPeerRecord) (event : ChangeEvent)
    → announce p r input now_iso ≡ ok (peer, next, event)
    → (u : Unit {0}) × (check_conflicts p r peer.node_id peer.base_url ≡ ok u)
      × (next ≡ record r { by_node_id = set r.by_node_id peer.node_id peer })
      × (normalize input.node_id ≡ some peer.node_id)
      × (peer.status ≡ ready)
unfolding announce normalize_required
announce-parts p r next input now_iso peer event h =
    let (id, e1, h1) = >>=-eq-ok (normalize_required input.node_id "nodeId") _ h in
    let (name, e2, h2) = >>=-eq-ok (normalize_required input.node_name "nodeName") _ h1 in
    let (url, e3, h3) = >>=-eq-ok (normalize_base_url p input.base_url) _ h2 in
    let (u, e4, h4) = >>=-eq-ok (check_conflicts p r id url) _ h3 in
    let named = or_throw-eq-ok (normalize input.node_id) (empty_field "nodeId") e1 in
    (u, ground (arith, h4, e4), ground (arith, h4), ground (arith, h4, named), ground (arith, h4))

set-IsRegistry :
    (r : NodeDiscoveryRegistry) (peer : DiscoveryPeerRecord)
    → IsRegistry r
    → ((a : String) (s : DiscoveryPeerRecord)
        → get r.by_node_id a ≡ some s
        → s.base_url ≡ peer.base_url
        → a ≡ peer.node_id)
    → IsRegistry (record r { by_node_id = set r.by_node_id peer.node_id peer })
set-IsRegistry r peer c free = record {
  distinct = set-IsDistinct r.by_node_id peer.node_id peer c.distinct;
  keyed = λ a s e.
      ground
        (arith, str_eq_iff peer.node_id a, get-set r.by_node_id peer.node_id a peer, c.keyed a s);
  urls = λ a b s t e e' same. ground (
    arith,
    str_eq_iff peer.node_id a,
    str_eq_iff peer.node_id b,
    get-set r.by_node_id peer.node_id a peer,
    get-set r.by_node_id peer.node_id b peer,
    c.urls a b s t,
    free a s,
    free b t,
  );
}

pub announce-IsRegistry :
    (p : Platform) (r next : NodeDiscoveryRegistry) (input : UpsertPeerInput) (now_iso : String)
    (peer : DiscoveryPeerRecord) (event : ChangeEvent)
    → IsRegistry r
    → announce p r input now_iso ≡ ok (peer, next, event)
    → IsRegistry next
announce-IsRegistry p r next input now_iso peer event c h =
    let (u, fine, made, _, _) = announce-parts p r next input now_iso peer event h in
    rw made (
      set-IsRegistry r peer c
        (λ a s e. (check_conflicts-ok p r peer.node_id peer.base_url u a s c fine e).0))

pub heartbeat-IsRegistry :
    (p : Platform) (r next : NodeDiscoveryRegistry) (node_id : String) (seen : Option String)
    (now_iso : String) (found : Bool) (event : Option ChangeEvent)
    → IsRegistry r
    → heartbeat p r node_id seen now_iso ≡ ok (found, next, event)
    → IsRegistry next
unfolding heartbeat
heartbeat-IsRegistry p r next node_id seen now_iso found event c h =
    let (id, e, h1) = >>=-eq-ok (normalize_required node_id "nodeId") _ h in
    elim (Option-cases (get r.by_node_id id)) [
      | inl absent ↦ let same : next ≡ r = ground (arith, rw absent at h1) in rw same c
      | inr (old, there) ↦
          let beat : DiscoveryPeerRecord = record old {
            last_seen_at_iso = get_or (normalize_optional seen) now_iso;
            status = ready;
          } in
          let same : next ≡ record r { by_node_id = set r.by_node_id id beat } =
            ground (arith, rw there at h1) in
          rw same (
            subst (λ k. IsRegistry (record r { by_node_id = set r.by_node_id k beat }))
              (c.keyed id old there)
              (set-IsRegistry r beat c
                (λ a s e u. c.urls a id s old e there u ∙ sym (c.keyed id old there))))
    ]

tick-found :
    (p : Platform) (r : NodeDiscoveryRegistry) (now clock : ℕ) (id : String)
    (peer : DiscoveryPeerRecord)
    → IsDistinct r.by_node_id
    → get (tick_maintenance p r now clock).1.by_node_id id ≡ some peer
    → (old : DiscoveryPeerRecord) × (get r.by_node_id id ≡ some old)
      × (old.node_id ≡ peer.node_id)
      × (old.base_url ≡ peer.base_url)
unfolding tick_maintenance tick_entry
tick-found p r now clock id peer d h =
    let ticked = get-tick_entries (tick_entry p r now clock) r.by_node_id id d in
    elim (Option-cases (get r.by_node_id id)) [
      | inl e ↦ absurd (cc (rw e at ticked, h))
      | inr (old, e) ↦ (old, e, ground (arith, rw e at ticked), ground (arith, rw e at ticked))
    ]

pub tick-IsRegistry :
    (p : Platform) (r : NodeDiscoveryRegistry) (now clock : ℕ)
    → IsRegistry r
    → IsRegistry (tick_maintenance p r now clock).1
unfolding tick_maintenance
tick-IsRegistry p r now clock c = record {
  distinct = tick_entries-IsDistinct (tick_entry p r now clock) r.by_node_id c.distinct;
  keyed = λ id peer e.
      let (old, found, same, _) = tick-found p r now clock id peer c.distinct e in
      sym same ∙ c.keyed id old found;
  urls = λ a b s t e e' same.
      let (old, found, _, url) = tick-found p r now clock a s c.distinct e in
      let (old', found', _, url') = tick-found p r now clock b t c.distinct e' in
      c.urls a b old old' found found' (url ∙ same ∙ sym url');
}

new_registry-IsRegistry :
    (ttl degraded_after unreachable_after : Option ℕ) (protected_ids : List String)
    (r : NodeDiscoveryRegistry)
    → new_registry ttl degraded_after unreachable_after protected_ids ≡ ok r
    → IsRegistry r
unfolding new_registry get
new_registry-IsRegistry ttl degraded_after unreachable_after protected_ids r h =
    let (ids, e, made) = >>=-eq-ok (normalize_all protected_ids) _ h in
    let empty : r.by_node_id ≡ [] = ground (arith, made) in
    record {
      distinct = rw empty tt;
      keyed = λ id peer found. absurd (cc (rw empty at found));
      urls = λ a b x y found _ _. absurd (cc (rw empty at found));
    }

-- The calls of nodes and of the timer, in any order.
pub data Step (p : Platform) (r : NodeDiscoveryRegistry) : NodeDiscoveryRegistry → Type 0 where
  announced :
      (input : UpsertPeerInput) (now_iso : String) (peer : DiscoveryPeerRecord)
      (next : NodeDiscoveryRegistry) (event : ChangeEvent)
      → announce p r input now_iso ≡ ok (peer, next, event)
      → Step p r next
  beat :
      (node_id : String) (seen : Option String) (now_iso : String) (found : Bool)
      (next : NodeDiscoveryRegistry) (event : Option ChangeEvent)
      → heartbeat p r node_id seen now_iso ≡ ok (found, next, event)
      → Step p r next
  ticked : (now clock : ℕ) → Step p r (tick_maintenance p r now clock).1

pub data Reach (p : Platform) (r : NodeDiscoveryRegistry) : NodeDiscoveryRegistry → Type 0 where
  start : Reach p r r
  then_step : {s t : NodeDiscoveryRegistry} → Reach p r s → Step p s t → Reach p r t

Step-IsRegistry :
    {p : Platform} {r s : NodeDiscoveryRegistry} → Step p r s → IsRegistry r → IsRegistry s
Step-IsRegistry {p} {r} (announced input now_iso peer next event h) c =
    announce-IsRegistry p r next input now_iso peer event c h
Step-IsRegistry {p} {r} (beat node_id seen now_iso found next event h) c =
    heartbeat-IsRegistry p r next node_id seen now_iso found event c h
Step-IsRegistry {p} {r} (ticked now clock) c = tick-IsRegistry p r now clock c

-- Whatever announcements, heartbeats and ticks come to a registry that keeps nodes under their own
-- ids and no base URL twice, it goes on doing so.
pub Reach-IsRegistry :
    {p : Platform} {r s : NodeDiscoveryRegistry} → Reach p r s → IsRegistry r → IsRegistry s
Reach-IsRegistry start c = c
Reach-IsRegistry (then_step reach step) c = Step-IsRegistry step (Reach-IsRegistry reach c)

-- No two nodes of a registry that started empty ever have the same base URL, whatever
-- announcements, heartbeats and ticks have come to it.
pub one_node_for_each_url :
    (p : Platform) (ttl degraded_after unreachable_after : Option ℕ) (protected_ids : List String)
    (r s : NodeDiscoveryRegistry) (a b : String) (x y : DiscoveryPeerRecord)
    → new_registry ttl degraded_after unreachable_after protected_ids ≡ ok r
    → Reach p r s
    → get s.by_node_id a ≡ some x
    → get s.by_node_id b ≡ some y
    → x.base_url ≡ y.base_url
    → a ≡ b
one_node_for_each_url p ttl degraded_after unreachable_after protected_ids r s a b x y made reach
      found found' same =
    (Reach-IsRegistry reach
        (new_registry-IsRegistry ttl degraded_after unreachable_after protected_ids r made)).urls
      a b x y found found' same

-- A node that has announced itself is found under its trimmed id, ready, and no other node's record
-- has changed.
pub announce_lem :
    (p : Platform) (r next : NodeDiscoveryRegistry) (input : UpsertPeerInput) (now_iso : String)
    (peer : DiscoveryPeerRecord) (event : ChangeEvent) (id other : String)
    → announce p r input now_iso ≡ ok (peer, next, event)
    → normalize input.node_id ≡ some id
    → other ≢ id
    → (get next.by_node_id id ≡ some peer)
      × (peer.status ≡ ready)
      × (get next.by_node_id other ≡ get r.by_node_id other)
announce_lem p r next input now_iso peer event id other h named apart =
    let (u, fine, made, named', status) = announce-parts p r next input now_iso peer event h in
    let same : id ≡ peer.node_id = cc (named, named') in
    (
      rw (made, same) (get-set_self r.by_node_id peer.node_id peer),
      status,
      rw made (get-set_ne r.by_node_id peer.node_id other peer (λ e. apart (sym e ∙ sym same))),
    )
