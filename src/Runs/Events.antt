-- ===== src/Runs/Events.antt =====
-- src/distributed/event-aggregation/team-event-aggregator.ts: the events of a run, local and remote,
-- get one sequence of numbers. The publish sink is the list of events handed to it; the time of
-- receipt is an argument.
pub mod Sequence
mod Tests
use autobyteus_server_ts.Common.{get_or, ℕ, ◌+◌, String, Bool, Option, List, [], ◌∷◌, ◌++◌}
use autobyteus_server_ts.Common.Dict.{Dict, get, has, set, delete}
use autobyteus_server_ts.Policies.Fencing.{RunVersion}

pub data Origin : Type 0 where
  local remote : Origin

-- Generic in the payload, which is passed on as it is.
pub record PublishInput {ℓ} (P : Type ℓ) : Type ℓ where
  pub team_run_id : String
  pub run_version : RunVersion
  pub source_node_id : String
  pub member_name : Option String
  pub agent_id : Option String
  pub event_type : String
  pub payload : P

pub record AggregatedEvent {ℓ} (P : Type ℓ) : Type ℓ where
  pub team_run_id : String
  pub run_version : RunVersion
  pub sequence : ℕ
  pub source_node_id : String
  pub member_name : Option String
  pub agent_id : Option String
  pub origin : Origin
  pub event_type : String
  pub payload : P
  pub received_at_iso : String

-- `sunk` is what the sink was called with, oldest first.
pub record Aggregator {ℓ} (P : Type ℓ) : Type ℓ where
  pub sequence_by_run_id : Dict ℕ
  pub sunk : List (AggregatedEvent P)

module _ {ℓ} {P : Type ℓ} where
  unfoldable pub publish :
      Aggregator P → PublishInput P → Origin → (now_iso : String) → AggregatedEvent P × Aggregator P
  publish a input origin now_iso =
      let next_sequence = get_or (get a.sequence_by_run_id input.team_run_id) 0 + 1 in
      let event : AggregatedEvent P = record {
        team_run_id = input.team_run_id;
        run_version = input.run_version;
        sequence = next_sequence;
        source_node_id = input.source_node_id;
        member_name = input.member_name;
        agent_id = input.agent_id;
        origin = origin;
        event_type = input.event_type;
        payload = input.payload;
        received_at_iso = now_iso;
      } in
      (
        event,
        record {
          sequence_by_run_id = set a.sequence_by_run_id input.team_run_id next_sequence;
          sunk = a.sunk ++ event ∷ [];
        },
      )

  unfoldable pub publish_local_event :
      Aggregator P → PublishInput P → String → AggregatedEvent P × Aggregator P
  unfolding publish
  publish_local_event a input now_iso = publish a input local now_iso

  unfoldable pub publish_remote_event :
      Aggregator P → PublishInput P → String → AggregatedEvent P × Aggregator P
  unfolding publish
  publish_remote_event a input now_iso = publish a input remote now_iso

  unfoldable pub finalize_run : Aggregator P → String → Bool × Aggregator P
  finalize_run a run = (
    has a.sequence_by_run_id run,
    record a { sequence_by_run_id = delete a.sequence_by_run_id run },
  )
