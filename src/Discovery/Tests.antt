-- ===== src/Discovery/Tests.antt =====
-- Two nodes, "h" protected; times stand as texts of their number of strokes.
use autobyteus_server_ts.Common.{
  ◌-◌, String, if◌then◌else◌, ok, err, String, ◌≡◌, refl, false, ◌&&◌, none, some, List, [], ◌∷◌,
  str_eq,
}
use autobyteus_server_ts.Common.Text.{strip_slashes, normalize, normalize_optional, trim}
use autobyteus_server_ts.Common.Dict.{get, set, contains}
use autobyteus_server_ts.Discovery.{
  missing_ids, keep_protected, rekey, normalize_peer, protected_record, collect_peers, tick_entry,
  tick_entries, insert_peer, emit_change, normalize_capabilities, sort_peers, list_peers,
  check_conflicts, normalize_base_url, normalize_required, normalize_all, DiscoveryPeerRecord,
  ready, UpsertPeerInput, Platform, NodeDiscoveryRegistry, base_url_conflict, new_registry,
  announce, merge_peers, tick_maintenance, to_epoch_ms,
}
use autobyteus_server_ts.Discovery.Ticks.{tick_maintenance_lem, IsTicked}
use autobyteus_server_ts.Discovery.Laws.{
  IsRegistry, Reach, start, then_step, announced, one_node_for_each_url, Reach-IsRegistry,
}
use autobyteus_server_ts.Discovery.Merge.{merge_peers-protected}

abbrev platform : Platform
platform = record {
  parse_url = λ s. some (record { protocol = "http:"; pathname = "/"; print = λ path. s });
  parse_date = λ s. if str_eq s "late" then some 100000 else some 0;
  before = λ a b. str_eq a "a" && str_eq b "h";
}

abbrev empty : NodeDiscoveryRegistry
empty = record {
  by_node_id = [];
  ttl_ms = 120000;
  degraded_after_ms = 20000;
  unreachable_after_ms = 45000;
  protected_node_ids = "h" ∷ [];
}

new_registry_test : new_registry none none none ("h " ∷ []) ≡ ok empty
unfolding new_registry normalize trim normalize_all
new_registry_test = refl

abbrev input : String → String → UpsertPeerInput
input id url = record {
  node_id = id;
  node_name = "node";
  base_url = url;
  advertised_base_url = none;
  capabilities = none;
  trust_mode = none;
  last_seen_at_iso = none;
}

abbrev peer : String → String → DiscoveryPeerRecord
peer id url = record {
  node_id = id;
  node_name = "node";
  base_url = url;
  advertised_base_url = none;
  last_seen_at_iso = "early";
  status = ready;
  capabilities = none;
  trust_mode = none;
}

abbrev host : DiscoveryPeerRecord
host = peer "h" "http://h"

abbrev with_host : NodeDiscoveryRegistry
with_host = record empty { by_node_id = ("h", host) ∷ [] }

abbrev both : NodeDiscoveryRegistry
both = record empty { by_node_id = ("h", host) ∷ ("a", peer "a" "http://a") ∷ [] }

announce_test :
    announce platform empty (input " h" "http://h/") "early"
    ≡ ok (host, with_host, record { peers = host ∷ []; pruned_node_ids = [] })
unfolding announce normalize_required normalize trim normalize_base_url check_conflicts get
    list_peers sort_peers strip_slashes normalize_optional normalize_capabilities set emit_change
    insert_peer
announce_test = refl

announce_other_test :
    announce platform with_host (input "a" "http://a") "early"
    ≡ ok (
      peer "a" "http://a",
      both,
      record { peers = peer "a" "http://a" ∷ host ∷ []; pruned_node_ids = [] },
    )
unfolding announce normalize_required normalize trim normalize_base_url check_conflicts get
    list_peers sort_peers insert_peer strip_slashes normalize_optional normalize_capabilities set
    emit_change
announce_other_test = refl

conflict_test :
    announce platform both (input "b" "http://a") "early" ≡ err (base_url_conflict "http://a" "a")
unfolding announce normalize_required normalize trim normalize_base_url check_conflicts get
    list_peers sort_peers insert_peer strip_slashes
conflict_test = refl

-- At 120000, "a" has been silent for too long.
tick_test : (tick_maintenance platform both 120000 0).0 ≡ ("a" ∷ [])
unfolding tick_maintenance tick_entries tick_entry to_epoch_ms
tick_test = refl

reached : Reach platform empty both
reached =
    then_step
      (then_step start (announced (input " h" "http://h/") "early" host with_host _ announce_test))
      (announced (input "a" "http://a") "early" (peer "a" "http://a") both _ announce_other_test)

empty-IsRegistry : IsRegistry empty
unfolding get
empty-IsRegistry = record {
  distinct = tt;
  keyed = λ id peer found. absurd (cc found);
  urls = λ a b x y found _ _. absurd (cc found);
}

one_node_for_each_url_example : ◌≡◌ {A = String} "a" "a"
unfolding get
one_node_for_each_url_example =
    one_node_for_each_url platform none none none ("h " ∷ []) empty both "a" "a"
      (peer "a" "http://a") (peer "a" "http://a") new_registry_test reached refl refl refl

tick_maintenance_lem_example :
    IsTicked both
      (120000 - to_epoch_ms platform 0 "early")
      false
      (peer "a" "http://a")
      (get (tick_maintenance platform both 120000 0).1.by_node_id "a")
      (contains (tick_maintenance platform both 120000 0).0 "a")
tick_maintenance_lem_example =
    tick_maintenance_lem platform both 120000 0 "a" (peer "a" "http://a")
      (Reach-IsRegistry reached empty-IsRegistry).distinct (unfold get in refl)

abbrev snapshot : List DiscoveryPeerRecord
snapshot = peer "b" "http://b" ∷ peer "h" "http://other" ∷ []

merged_by :
    (merge_peers platform both snapshot "now")
    ≡ ok (
      record empty { by_node_id = ("b", peer "b" "http://b") ∷ ("h", host) ∷ [] },
      record { peers = peer "b" "http://b" ∷ host ∷ []; pruned_node_ids = "a" ∷ [] },
    )
unfolding merge_peers collect_peers normalize_required normalize trim protected_record
    normalize_peer normalize_base_url get rekey emit_change keep_protected list_peers missing_ids
    set sort_peers strip_slashes normalize_optional normalize_capabilities insert_peer
merged_by = refl

merge_peers-protected_example :
    (get (("b", peer "b" "http://b") ∷ ("h", host) ∷ []) "h" ≡ some host)
    × (contains ("a" ∷ []) "h" ≡ false)
merge_peers-protected_example =
    merge_peers-protected platform both _ snapshot "now" _ "h" host
      (Reach-IsRegistry reached empty-IsRegistry) refl (unfold get in refl) merged_by
