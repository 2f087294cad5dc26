-- ===== src/Runs/Events/Tests.antt =====
-- Two runs whose events alternate.
use autobyteus_server_ts.Common.Dict.{delete, set, get}
use autobyteus_server_ts.Common.{ℕ, String, ◌≡◌, refl, none, List, [], ◌∷◌}
use autobyteus_server_ts.Policies.Fencing.{RunVersion}
use autobyteus_server_ts.Runs.Events.{
  finalize_run, PublishInput, publish, publish_remote_event, local, remote,
}
use autobyteus_server_ts.Runs.Events.Sequence.{
  Operation, published, finalized, after, publish-sequence,
}

abbrev event : String → PublishInput ℕ
event run = record {
  team_run_id = run;
  run_version = RunVersion.number 1;
  source_node_id = "n";
  member_name = none;
  agent_id = none;
  event_type = "TEAM";
  payload = 0;
}

abbrev alternating : List (Operation ℕ)
alternating =
    published (event "b") remote "t3"
    ∷ published (event "a") local "t2"
    ∷ finalized "a"
    ∷ published (event "a") local "t1"
    ∷ []

second_test : (publish_remote_event (after alternating) (event "a") "t4").0.sequence ≡ 2
unfolding publish_remote_event get set finalize_run delete
second_test = refl

publish-sequence_example : (publish (after alternating) (event "a") remote "t4").0.sequence ≡ 2
publish-sequence_example = publish-sequence alternating (event "a") remote "t4"
