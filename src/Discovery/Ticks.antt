-- ===== src/Discovery/Ticks.antt =====
-- What a tick keeps, prunes and sets.
use autobyteus_server_ts.Common.{
  ◌<◌, ◌≤◌, false, true, Bool, is_some, ℕ, ◌-◌, String, ◌≡◌, refl, not, ◌&&◌, Option, none, some,
  [], ◌∷◌, arith, str_eq_iff,
}
use autobyteus_server_ts.Common.Dict.{Dict, get, has, IsDistinct, contains}
use autobyteus_server_ts.Discovery.{
  ready, degraded, unreachable, DiscoveryPeerRecord, Platform, NodeDiscoveryRegistry, tick_entry,
  tick_entries, tick_maintenance, to_epoch_ms, next_status,
}

abbrev pub then_tick :
    (String → DiscoveryPeerRecord → Option DiscoveryPeerRecord)
    → String
    → Option DiscoveryPeerRecord
    → Option DiscoveryPeerRecord
then_tick f id none = none
then_tick f id (some peer) = f id peer

tick_entries-absent :
    (f : String → DiscoveryPeerRecord → Option DiscoveryPeerRecord) (m : Dict DiscoveryPeerRecord)
    (id : String)
    → get m id ≡ none
    → get (tick_entries f m).0 id ≡ none
unfolding get tick_entries
tick_entries-absent f [] id h = refl
tick_entries-absent f ((j, peer) ∷ m) id h = ground (arith, tick_entries-absent f m id)

-- Where ids stand once, a tick acts on each node's record alone.
pub get-tick_entries :
    (f : String → DiscoveryPeerRecord → Option DiscoveryPeerRecord) (m : Dict DiscoveryPeerRecord)
    (id : String)
    → IsDistinct m
    → get (tick_entries f m).0 id ≡ then_tick f id (get m id)
unfolding get tick_entries
get-tick_entries f [] id d = refl
get-tick_entries f ((j, peer) ∷ m) id d =
    ground (arith, str_eq_iff j id, get-tick_entries f m id d.1, tick_entries-absent f m j d.0)

-- The ids that a tick answers with are those of the nodes it has dropped.
pub contains-tick_entries :
    (f : String → DiscoveryPeerRecord → Option DiscoveryPeerRecord) (m : Dict DiscoveryPeerRecord)
    (id : String)
    → IsDistinct m
    → contains (tick_entries f m).1 id ≡ (has m id && not (is_some (then_tick f id (get m id))))
unfolding get tick_entries
contains-tick_entries f [] id d = refl
contains-tick_entries f ((j, peer) ∷ m) id d =
    ground (arith, str_eq_iff j id, contains-tick_entries f m id d.1)

pub tick_entries-IsDistinct :
    (f : String → DiscoveryPeerRecord → Option DiscoveryPeerRecord) (m : Dict DiscoveryPeerRecord)
    → IsDistinct m
    → IsDistinct (tick_entries f m).0
unfolding tick_entries
tick_entries-IsDistinct f [] d = tt
tick_entries-IsDistinct f ((j, peer) ∷ m) d =
    ground (arith, tick_entries-absent f m j d.0, tick_entries-IsDistinct f m d.1)

-- What is left of a node that was silent for `elapsed` milliseconds, and whether its id is among those
-- that the tick answers with.
pub record IsTicked (r : NodeDiscoveryRegistry) (elapsed : ℕ) (is_protected : Bool)
    (peer : DiscoveryPeerRecord) (left : Option DiscoveryPeerRecord) (is_pruned : Bool)
    : Type 0 where
  pub kept : is_protected ≡ true → (left ≡ some peer) × (is_pruned ≡ false)
  pub dropped : is_protected ≡ false → r.ttl_ms ≤ elapsed → (left ≡ none) × (is_pruned ≡ true)
  pub stays : elapsed < r.ttl_ms → is_pruned ≡ false
  pub silent :
      is_protected ≡ false
      → elapsed < r.ttl_ms
      → r.unreachable_after_ms ≤ elapsed
      → left ≡ some (record peer { status = unreachable })
  pub late :
      is_protected ≡ false
      → elapsed < r.ttl_ms
      → elapsed < r.unreachable_after_ms
      → r.degraded_after_ms ≤ elapsed
      → left ≡ some (record peer { status = degraded })
  pub well :
      is_protected ≡ false
      → elapsed < r.ttl_ms
      → elapsed < r.unreachable_after_ms
      → elapsed < r.degraded_after_ms
      → left ≡ some (record peer { status = ready })

-- A tick leaves protected nodes as they are. It drops each other node that was last seen `ttl_ms` ago
-- or earlier, and answers with exactly the ids of those. A node that it keeps is unreachable after
-- `unreachable_after_ms`, else degraded after `degraded_after_ms`, and ready before.
pub tick_maintenance_lem :
    (p : Platform) (r : NodeDiscoveryRegistry) (now clock : ℕ) (id : String)
    (peer : DiscoveryPeerRecord)
    → IsDistinct r.by_node_id
    → get r.by_node_id id ≡ some peer
    → IsTicked r
        (now - to_epoch_ms p clock peer.last_seen_at_iso)
        (contains r.protected_node_ids id)
        peer
        (get (tick_maintenance p r now clock).1.by_node_id id)
        (contains (tick_maintenance p r now clock).0 id)
unfolding tick_maintenance tick_entry next_status
tick_maintenance_lem p r now clock id peer d h =
    let left = get-tick_entries (tick_entry p r now clock) r.by_node_id id d in
    let pruned = contains-tick_entries (tick_entry p r now clock) r.by_node_id id d in
    record {
      kept = λ a. ground (arith, left, pruned, h, a);
      dropped = λ a b. ground (arith, left, pruned, h, a, b);
      stays = λ b. ground (arith, left, pruned, h, b);
      silent = λ a b c. ground (arith, left, h, a, b, c);
      late = λ a b c e. ground (arith, left, h, a, b, c, e);
      well = λ a b c e. ground (arith, left, h, a, b, c, e);
    }
