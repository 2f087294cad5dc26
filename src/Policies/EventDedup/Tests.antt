-- ===== src/Policies/EventDedup/Tests.antt =====
-- Sample events, and the theorems at them.
use autobyteus_server_ts.Common.{ok, err, ℕ, ◌<◌, String, ◌≡◌, refl, true, [], ◌∷◌, arith}
use autobyteus_server_ts.Common.Text.{normalize, join, trim}
use autobyteus_server_ts.Common.Dict.{get, set}
use autobyteus_server_ts.Policies.EventDedup.{
  ensure_capacity, prune_expired, EventInput, EventDedup, Error, build_key, drop_key,
  should_drop_duplicate,
}
use autobyteus_server_ts.Policies.EventDedup.Laws.{
  after, IsBounded, Taken, after-IsBounded, dropped-Taken,
}
use autobyteus_server_ts.Policies.EventDedup.Retention.{taken-dropped}

abbrev event : String → EventInput
event e = record { team_run_id = "run-1"; source_node_id = " node-a "; source_event_id = e }

abbrev small : EventDedup
small = record { ttl_ms = 100; max_entries = 3; expires_at_by_key = [] }

abbrev seen_one : EventDedup
seen_one = record small { expires_at_by_key = ("run-1::node-a::e1", 110) ∷ [] }

key_test : build_key (event "e1") ≡ ok "run-1::node-a::e1"
unfolding build_key normalize trim join
key_test = refl

blank_test : build_key (event " ") ≡ err (Error.empty_field "sourceEventId")
unfolding build_key normalize trim join
blank_test = refl

-- Two events of different runs and nodes share a key, so the second is dropped.
collision_test :
    build_key (record { team_run_id = "a::b"; source_node_id = "c"; source_event_id = "d" })
    ≡ build_key (record { team_run_id = "a"; source_node_id = "b::c"; source_event_id = "d" })
unfolding build_key normalize trim join
collision_test = refl

small-IsBounded : IsBounded small
small-IsBounded = record { named = tt; distinct = tt; within = omega arith }

after-IsBounded_example : IsBounded (after small ((event "e2", 20) ∷ (event "e1", 10) ∷ []))
after-IsBounded_example =
    after-IsBounded small ((event "e2", 20) ∷ (event "e1", 10) ∷ []) (omega arith) small-IsBounded

dropped-Taken_example :
    (k : String) × (e : ℕ) × (build_key (event "e1") ≡ ok k)
    × Taken small k e ((event "e1", 10) ∷ [])
    × (50 < e)
unfolding should_drop_duplicate build_key drop_key normalize trim join get set prune_expired
    ensure_capacity
dropped-Taken_example =
    dropped-Taken small seen_one ((event "e1", 10) ∷ []) (event "e1") 50 refl refl

taken-dropped_example :
    (r : EventDedup) × (should_drop_duplicate
        (after seen_one ((event "e2", 20) ∷ []))
        (event "e1")
        50
      ≡ ok (true, r))
unfolding should_drop_duplicate build_key drop_key normalize trim join get set prune_expired
    ensure_capacity
taken-dropped_example =
    taken-dropped small seen_one (event "e1") 10 50 ((event "e2", 20) ∷ []) refl (omega arith)
      (omega arith) (omega arith)
