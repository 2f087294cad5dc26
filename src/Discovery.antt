-- ===== src/Discovery.antt =====
-- src/discovery/services/node-discovery-registry-service.ts: the nodes that announced themselves,
-- by id. `URL`, `Date.parse` and `localeCompare` are parameters, the clock and the current time as
-- text are arguments. A change is answered with the event that the listeners are called with; the
-- timer that calls `tick_maintenance` is not modelled.
pub mod Ticks
pub mod Laws
pub mod Merge
mod Tests
use autobyteus_server_ts.Common.{
  ltb, leb, ◌==◌, if◌then◌else◌, ltb→lt, lt→ltb, leb→le, le→leb, ==_iff, Bool-cases, Option-cases,
  get_or, is_some, Result, ok, err, ◌>>=◌, or_throw, Result-cases, >>=-eq-ok, or_throw-eq-ok,
  length, get_elem?, filter, find, All, length-append, length-filter-le, All-append, All-map,
  filter-All, get_elem?_total, get_elem?-All, find-All, ℕ, zero, suc, ◌+◌, ◌-◌, ◌*◌, ◌/◌, ◌%◌, ◌^◌,
  ◌≤◌, ◌<◌, min, max, String, ◌≡◌, refl, sym, ap, ◌∙◌, subst, ◌≢◌, ◌↔◌, ◌⊎◌, inl, inr, Bool, true,
  false, not, ◌&&◌, ◌||◌, Option, none, some, List, [], ◌∷◌, ◌++◌, map, arith, str_eq, str_eq_iff,
  str_eq_refl,
}
use autobyteus_server_ts.Common.Text.{
  strip_slashes, normalize, normalize_optional, IsNormal, normalize-IsNormal, IsNormal-ne-nil, join,
  trim,
}
use autobyteus_server_ts.Common.Dict.{
  Dict, get, has, set, delete, keys, values, get-set, get-set_self, get-set_ne, get-delete,
  get-delete_self, get-delete_ne, IsDistinct, set-IsDistinct, delete-IsDistinct, delete-absent,
  delete-set_self, length-set, length-delete-le, get-All, set-All, delete-All, contains, dict_laws,
}

pub data DiscoveryNodeStatus : Type 0 where
  ready degraded unreachable : DiscoveryNodeStatus

pub record DiscoveryPeerRecord : Type 0 where
  pub node_id : String
  pub node_name : String
  pub base_url : String
  pub advertised_base_url : Option String
  pub last_seen_at_iso : String
  pub status : DiscoveryNodeStatus
  pub capabilities : Option (Dict Bool)
  pub trust_mode : Option String

pub record ChangeEvent : Type 0 where
  pub peers : List DiscoveryPeerRecord
  pub pruned_node_ids : List String

pub data Error : Type 0 where
  empty_field : String → Error
  invalid_url bad_protocol : Error
  node_id_conflict base_url_conflict : String → String → Error

pub record UpsertPeerInput : Type 0 where
  pub node_id : String
  pub node_name : String
  pub base_url : String
  pub advertised_base_url : Option String
  pub capabilities : Option (Dict Bool)
  pub trust_mode : Option String
  pub last_seen_at_iso : Option String

-- A parsed URL: `toString` as a function of the path, which the source sets first.
pub record Url : Type 0 where
  pub protocol : String
  pub pathname : String
  pub print : String → String

-- `new URL` where it does not throw, `Date.parse` where it is a number, `localeCompare(_, _) < 0`.
pub record Platform : Type 0 where
  pub parse_url : String → Option Url
  pub parse_date : String → Option ℕ
  pub before : String → String → Bool

pub record NodeDiscoveryRegistry : Type 0 where
  pub by_node_id : Dict DiscoveryPeerRecord
  pub ttl_ms : ℕ
  pub degraded_after_ms : ℕ
  pub unreachable_after_ms : ℕ
  pub protected_node_ids : List String

unfoldable pub normalize_required : String → String → Result Error String
normalize_required value field = or_throw (normalize value) (empty_field field)

unfoldable pub normalize_base_url : Platform → String → Result Error String
unfolding normalize_required
normalize_base_url p base_url = do
  text ← normalize_required base_url "baseUrl"
  url ← or_throw (p.parse_url text) invalid_url
  if str_eq url.protocol "http:" || str_eq url.protocol "https:"
      then ok (strip_slashes (url.print (strip_slashes url.pathname)))
      else err bad_protocol

unfoldable pub normalize_capabilities : Option (Dict Bool) → Option (Dict Bool)
normalize_capabilities none = none
normalize_capabilities (some []) = none
normalize_capabilities (some (c ∷ cs)) = some (c ∷ cs)

abbrev pub parse_positive_int : Option ℕ → ℕ → ℕ
parse_positive_int none default = default
parse_positive_int (some n) default = if n == 0 then default else n

unfoldable pub to_epoch_ms : Platform → (clock : ℕ) → String → ℕ
to_epoch_ms p clock iso = get_or (p.parse_date iso) clock

unfoldable pub next_status : ℕ → ℕ → ℕ → DiscoveryNodeStatus
next_status elapsed degraded_after unreachable_after =
    if leb unreachable_after elapsed
    then unreachable
    else if leb degraded_after elapsed
    then degraded
    else ready

unfoldable pub normalize_all : List String → Result Error (List String)
unfolding normalize_required
normalize_all [] = ok []
normalize_all (id ∷ ids) = do
  first ← normalize_required id "protectedNodeIds[]"
  rest ← normalize_all ids
  ok (first ∷ rest)

unfoldable pub new_registry :
    Option ℕ → Option ℕ → Option ℕ → List String → Result Error NodeDiscoveryRegistry
new_registry ttl degraded_after unreachable_after protected_ids = do
  ids ← normalize_all protected_ids
  ok (record {
    by_node_id = [];
    ttl_ms = parse_positive_int ttl 120000;
    degraded_after_ms = parse_positive_int degraded_after 20000;
    unreachable_after_ms = parse_positive_int unreachable_after 45000;
    protected_node_ids = ids;
  })

unfoldable pub insert_peer :
    Platform → DiscoveryPeerRecord → List DiscoveryPeerRecord → List DiscoveryPeerRecord
insert_peer p r [] = r ∷ []
insert_peer p r (s ∷ ss) =
    if p.before s.node_id r.node_id then s ∷ insert_peer p r ss else r ∷ s ∷ ss

unfoldable pub sort_peers : Platform → List DiscoveryPeerRecord → List DiscoveryPeerRecord
sort_peers p [] = []
sort_peers p (r ∷ rs) = insert_peer p r (sort_peers p rs)

unfoldable pub list_peers : Platform → NodeDiscoveryRegistry → List DiscoveryPeerRecord
list_peers p r = sort_peers p (values r.by_node_id)

unfoldable pub emit_change : Platform → NodeDiscoveryRegistry → List String → ChangeEvent
emit_change p r pruned = record { peers = list_peers p r; pruned_node_ids = pruned }

abbrev pub has_other_url : Option DiscoveryPeerRecord → String → Option String
has_other_url none url = none
has_other_url (some r) url = if str_eq r.base_url url then none else some r.base_url

abbrev pub is_taken_by_other : String → String → DiscoveryPeerRecord → Bool
is_taken_by_other url id peer = str_eq peer.base_url url && not (str_eq peer.node_id id)

-- The two conflicts, in the order of the source.
unfoldable pub check_conflicts :
    Platform → NodeDiscoveryRegistry → String → String → Result Error (Unit {0})
check_conflicts p r id url = elim (has_other_url (get r.by_node_id id) url) [
  | some old ↦ err (node_id_conflict id old)
  | none ↦ elim (find (is_taken_by_other url id) (list_peers p r)) [
    | some owner ↦ err (base_url_conflict url owner.node_id)
    | none ↦ ok tt
  ]
]

unfoldable pub announce :
    Platform
    → NodeDiscoveryRegistry
    → UpsertPeerInput
    → (now_iso : String) → Result Error (DiscoveryPeerRecord × NodeDiscoveryRegistry × ChangeEvent)
announce p r input now_iso = do
  id ← normalize_required input.node_id "nodeId"
  name ← normalize_required input.node_name "nodeName"
  url ← normalize_base_url p input.base_url
  u ← check_conflicts p r id url
  let peer : DiscoveryPeerRecord = record {
    node_id = id;
    node_name = name;
    base_url = url;
    advertised_base_url = normalize_optional input.advertised_base_url;
    last_seen_at_iso = get_or (normalize_optional input.last_seen_at_iso) now_iso;
    status = ready;
    capabilities = normalize_capabilities input.capabilities;
    trust_mode = normalize_optional input.trust_mode;
  }
  let next : NodeDiscoveryRegistry = record r { by_node_id = set r.by_node_id id peer }
  ok (peer, next, emit_change p next [])

unfoldable pub heartbeat :
    Platform
    → NodeDiscoveryRegistry
    → String
    → Option String
    → (now_iso : String) → Result Error (Bool × NodeDiscoveryRegistry × Option ChangeEvent)
heartbeat p r node_id last_seen now_iso = do
  id ← normalize_required node_id "nodeId"
  elim (get r.by_node_id id) [
    | none ↦ ok (false, r, none)
    | some old ↦
        let seen = record old {
          last_seen_at_iso = get_or (normalize_optional last_seen) now_iso;
          status = ready;
        } in
        let next = record r { by_node_id = set r.by_node_id id seen } in
        ok (true, next, some (emit_change p next []))
  ]

-- A peer as `mergePeers` takes it over.
unfoldable pub normalize_peer :
    Platform → DiscoveryPeerRecord → (id now_iso : String) → Result Error DiscoveryPeerRecord
normalize_peer p peer id now_iso = do
  name ← normalize_required peer.node_name "peer.nodeName"
  url ← normalize_base_url p peer.base_url
  ok (record peer {
    node_id = id;
    node_name = name;
    base_url = url;
    advertised_base_url = normalize_optional peer.advertised_base_url;
    last_seen_at_iso = get_or (normalize peer.last_seen_at_iso) now_iso;
    capabilities = normalize_capabilities peer.capabilities;
    trust_mode = normalize_optional peer.trust_mode;
  })

-- The record of a protected node, where there is one.
unfoldable pub protected_record : NodeDiscoveryRegistry → String → Option DiscoveryPeerRecord
protected_record r id = if contains r.protected_node_ids id then get r.by_node_id id else none

unfoldable pub collect_peers :
    Platform
    → NodeDiscoveryRegistry
    → List DiscoveryPeerRecord
    → (now_iso : String) → Dict DiscoveryPeerRecord
    → Result Error (Dict DiscoveryPeerRecord)
collect_peers p r [] now_iso next = ok next
collect_peers p r (peer ∷ peers) now_iso next = do
  id ← normalize_required peer.node_id "peer.nodeId"
  taken ← elim (protected_record r id) [
    | some old ↦ ok old
    | none ↦ normalize_peer p peer id now_iso
  ]
  collect_peers p r peers now_iso (set next id taken)

unfoldable pub keep_protected :
    List String → Dict DiscoveryPeerRecord → Dict DiscoveryPeerRecord → Dict DiscoveryPeerRecord
keep_protected ids [] next = next
keep_protected ids ((id, old) ∷ m) next =
    keep_protected ids m (if contains ids id && not (has next id) then set next id old else next)

unfoldable pub missing_ids : Dict DiscoveryPeerRecord → Dict DiscoveryPeerRecord → List String
missing_ids [] next = []
missing_ids ((id, old) ∷ m) next =
    if has next id then missing_ids m next else id ∷ missing_ids m next

-- The new map is keyed by the records' own ids.
unfoldable pub rekey :
    Dict DiscoveryPeerRecord → Dict DiscoveryPeerRecord → Dict DiscoveryPeerRecord
rekey [] m = m
rekey ((id, peer) ∷ next) m = rekey next (set m peer.node_id peer)

unfoldable pub merge_peers :
    Platform
    → NodeDiscoveryRegistry
    → List DiscoveryPeerRecord
    → (now_iso : String) → Result Error (NodeDiscoveryRegistry × ChangeEvent)
merge_peers p r peers now_iso = do
  named ← collect_peers p r peers now_iso []
  let next = keep_protected r.protected_node_ids r.by_node_id named
  let merged : NodeDiscoveryRegistry = record r { by_node_id = rekey next [] }
  ok (merged, emit_change p merged (missing_ids r.by_node_id next))

-- What a tick leaves of an entry.
unfoldable pub tick_entry :
    Platform
    → NodeDiscoveryRegistry
    → (now clock : ℕ) → String
    → DiscoveryPeerRecord
    → Option DiscoveryPeerRecord
tick_entry p r now clock id peer =
    let elapsed = now - to_epoch_ms p clock peer.last_seen_at_iso in
    if contains r.protected_node_ids id
    then some peer
    else if leb r.ttl_ms elapsed
    then none
    else some
        (record peer { status = next_status elapsed r.degraded_after_ms r.unreachable_after_ms })

unfoldable pub tick_entries :
    (String → DiscoveryPeerRecord → Option DiscoveryPeerRecord)
    → Dict DiscoveryPeerRecord
    → Dict DiscoveryPeerRecord × List String
tick_entries f [] = ([], [])
tick_entries f ((id, peer) ∷ m) =
    let rest = tick_entries f m in
    elim (f id peer) [ none ↦ (rest.0, id ∷ rest.1) | some kept ↦ ((id, kept) ∷ rest.0, rest.1) ]

abbrev pub status_eq : DiscoveryNodeStatus → DiscoveryNodeStatus → Bool
status_eq ready ready = true
status_eq degraded degraded = true
status_eq unreachable unreachable = true
status_eq _ _ = false

-- Whether a status changed; a tick that prunes emits anyway.
unfoldable pub some_changed :
    (String → DiscoveryPeerRecord → Option DiscoveryPeerRecord) → Dict DiscoveryPeerRecord → Bool
some_changed f [] = false
some_changed f ((id, peer) ∷ m) =
    let rest = some_changed f m in
    elim (f id peer) [ none ↦ true | some kept ↦ not (status_eq kept.status peer.status) || rest ]

unfoldable pub tick_maintenance :
    Platform
    → NodeDiscoveryRegistry
    → (now clock : ℕ) → List String × NodeDiscoveryRegistry × Option ChangeEvent
tick_maintenance p r now clock =
    let f = tick_entry p r now clock in
    let (kept, pruned) = tick_entries f r.by_node_id in
    let next : NodeDiscoveryRegistry = record r { by_node_id = kept } in
    (pruned, next, if some_changed f r.by_node_id then some (emit_change p next pruned) else none)
